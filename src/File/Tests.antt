-- ===== src/File/Tests.antt =====
-- Runs of the modules of `File`.
use next_nps.Base.Int.{pos}
use next_nps.Base.{
  get_elem?, replicate, Bytes, codes, split, ◌≡◌, refl, true, false, none, some, List, [], ◌∷◌,
  ◌++◌, arith,
}
use next_nps.File.{Client, Target, new_flow, new_target}
use next_nps.File.Clients.{GateInv, open_conn, close_conn, gate_run, gate_run-GateInv}
use next_nps.File.Race.{test_limit, take_slot, thread_run, thread_run_exceeds}
use next_nps.File.Targets.{picked, picks, picks-round_robin}

abbrev limited : Client
limited = record {
  cnf = record { user = []; password = []; compress = false; crypt = false };
  id = pos 1;
  verify_key = codes "k";
  addr = [];
  remark = [];
  status = true;
  is_connect = true;
  rate_limit = pos 0;
  flow = some new_flow;
  rate = none;
  no_store = false;
  no_display = false;
  max_conn = pos 1;
  now_conn = pos 0;
  web_user_name = [];
  web_password = [];
  config_conn_allow = false;
  max_tunnel_num = pos 0;
  version = [];
}

gate_run-GateInv_example : GateInv 1 (
    gate_run
      (record { client = limited; held = 0 })
      (open_conn ∷ open_conn ∷ close_conn ∷ open_conn ∷ []))
gate_run-GateInv_example =
    gate_run-GateInv 1 (record { client = limited; held = 0 })
      (open_conn ∷ open_conn ∷ close_conn ∷ open_conn ∷ []) (omega arith) (omega arith)
      (record { limit_is = refl; counted = refl; bounded = omega arith })

thread_run_exceeds_example :
    (thread_run
      (record { client = limited; passed = 0 })
      (replicate 3 test_limit ++ replicate 3 take_slot)).client.now_conn
    ≡ pos 3
thread_run_exceeds_example = thread_run_exceeds 1 3 limited refl refl (omega arith) (omega arith)

abbrev pool : Target
pool = record new_target { now_index = pos 0; target_str = codes "a\nb\nc" }

abbrev hosts : List Bytes
hosts = codes "a" ∷ codes "b" ∷ codes "c" ∷ []

picks-round_robin_example : get_elem? (picks 3 pool) 2 ≡ some (picked (codes "a"))
unfolding split
picks-round_robin_example =
    picks-round_robin 3 2 0 pool hosts refl (omega arith) refl (omega arith) (omega arith)
