-- ===== src/Bridge/Process/Tests.antt =====
-- A client that sends the key of the one client, where MD5 is the identity.
use next_nps.File.{Client, new_client}
use next_nps.Db.{Db}
use next_nps.Wire.{write_len_content}
use next_nps.Bridge.{Bridge}
use next_nps.Bridge.Process.{Setup, cli_process}
use next_nps.Bridge.Process.Keys.{SentKey, cli_process_guarded}
use next_nps.Base.{replicate, Bytes, codes, ◌≡◌, ◌⊎◌, false, [], ◌∷◌, ◌++◌}
use next_nps.Base.Int.{pos}

abbrev plain : Setup
plain = record { md5 = λ b. b; version = codes "0.26.8"; conn = 3; ip = codes "::1"; svr_addr = [] }

abbrev keyed : Client
keyed = record (new_client (replicate 32 b'k') false false) { id = pos 1 }

abbrev table : Db
table = record {
  tasks = [];
  hosts = [];
  clients = (pos 1, keyed) ∷ [];
  client_increase_id = pos 1;
  task_increase_id = pos 0;
  host_increase_id = pos 0;
  task_file = [];
  host_file = [];
  client_file = [];
}

abbrev quiet : Bridge
quiet = record { sessions = []; register = []; run_list = []; ip_verify = false }

abbrev hello : Bytes
hello =
    codes "TST"
    ++ (write_len_content (codes "0.26.8")
        ++ (write_len_content (codes "0.26.8") ++ (replicate 32 b'k' ++ codes "main")))

cli_process_guarded_example :
    ((cli_process plain table quiet hello).1 ≡ quiet) ⊎ SentKey plain table hello
cli_process_guarded_example = cli_process_guarded plain table quiet hello
