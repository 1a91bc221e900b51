-- ===== src/Bridge/Tests.antt =====
-- Runs of the modules of `Bridge` with one client.
use next_nps.Base.Int.{ℤ, pos, ◌<ℤ◌, ℤ_beq, ℤ_beq_iff, ℤ_eq}
use next_nps.Base.{
  if◌then◌else◌, Bytes, codes, bytes_beq, has_prefix, contains, split, first_piece, load, ℕ, ◌+◌,
  ◌≡◌, refl, sym, ap, ◌∙◌, ◌≢◌, ◌⊎◌, inl, true, false, none, some, List, [], ◌∷◌, ◌++◌, arith,
  nat_eq, bytes_eq,
}
use next_nps.File.{Client, new_client, Tunnel, new_tunnel, new_target}
use next_nps.Db.{Db}
use next_nps.Bridge.{Session, Bridge, type_deal, ping_tick}
use next_nps.Bridge.Sessions.{OwnSession, type_deal_sessions}
use next_nps.Bridge.Ping.{pinged, load-ping_tick, ping_ticks, ping_ticks_dead}
use next_nps.Db.Secrets.{TasksInv}
use next_nps.Ports.{get_ports, all_ports, ports_of, is_port, atoi}
use next_nps.Bridge.Config.{panicked, config_task, config_task_panics}
use next_nps.Bridge.Messages.{
  ConfigMessage, conf_flag, task_flag, config_loop, config_loop-TasksInv,
}
use next_nps.Bridge.Links.{
  use_session, check_ip, Link, Network, send_link_info, send_link_info_safe,
}
use next_nps.Bridge.Health.{
  fail_target, recover_target, is_arr_contains, health_report, recover-fail, health_report_stranger,
}

abbrev web : Tunnel
web = record new_tunnel {
  id = pos 1;
  mode = codes "tcp";
  client = pos 1;
  target = record new_target {
    target_str = codes "10.0.0.1:8080";
    target_arr = some (codes "10.0.0.1:8080" ∷ []);
  };
}

abbrev db : Db
db = record {
  tasks = (pos 1, web) ∷ [];
  hosts = [];
  clients = [];
  client_increase_id = pos 1;
  task_increase_id = pos 1;
  host_increase_id = pos 1;
  task_file = [];
  host_file = [];
  client_file = [];
}

abbrev live : Session
live = record { tunnel = some 5; signal = some 4; file = none; version = codes "1"; retry_time = 0 }

abbrev half : Session
half = record { tunnel = none; signal = some 6; file = none; version = codes "1"; retry_time = 0 }

abbrev bridge : Bridge
bridge = record {
  sessions = (pos 1, live) ∷ (pos 2, half) ∷ [];
  register = (codes "1.2.3.4", pos 100) ∷ [];
  run_list = [];
  ip_verify = true;
}

abbrev md5_none : Bytes → Bytes
md5_none b = b

type_deal_sessions_example :
    let s' = (type_deal md5_none db bridge (codes "chan") 9 (pos 1) (codes "1") none []).0 in
    ((k : ℤ) → pos 1 ≢ k → load k s'.sessions ≡ load k bridge.sessions)
    × OwnSession db (codes "chan") 9 (pos 1) (load (pos 1) bridge.sessions) s'
type_deal_sessions_example =
    type_deal_sessions md5_none db bridge (codes "chan") 9 (pos 1) (codes "1") none []

load-ping_tick_example :
    load (pos 2) (ping_tick (λ c. false) db bridge).0.sessions
    ≡ pinged (λ c. false) (load (pos 2) bridge.sessions)
unfolding load ℤ_beq
load-ping_tick_example = load-ping_tick (λ c. false) db bridge (pos 2) (refl, (refl, tt))

ping_ticks_dead_example : load (pos 2) (ping_ticks 3 (λ c. false) db bridge).sessions ≡ none
unfolding load ℤ_beq
ping_ticks_dead_example =
    ping_ticks_dead (λ c. false) db bridge (pos 2) half (refl, (refl, tt)) refl (inl refl)

abbrev link : Link
link = record {
  conn_type = codes "tcp";
  host = codes "h";
  crypt = true;
  compress = true;
  local_proxy = false;
  remote_addr = codes "1.2.3.4:5";
}

abbrev net : Network
net = record { dial = none; new_conn = λ c. some (c + 100); sent = true }

send_link_info_safe_example :
    (v : Session) × (load (pos 1) bridge.sessions ≡ some v)
    × ((tunnel : ℕ) × ((if false then v.file else v.tunnel) ≡ some tunnel)
        × (net.new_conn tunnel ≡ some 105))
    × ((bridge.ip_verify ≡ false)
        ⊎ ((until : ℤ) × (load (first_piece (split b':' link.remote_addr)) bridge.register
              ≡ some until)
            × (pos 50 <ℤ until)))
    × (link ≡ (if false then record link { crypt = false; compress = false } else link))
unfolding send_link_info use_session check_ip load ℤ_beq split bytes_beq
send_link_info_safe_example =
    send_link_info_safe bridge net (pos 50) (pos 1) link link false 105 refl refl

recover-fail_example :
    let t = web.target in
    let info = codes "10.0.0.1:8080" in
    let down = fail_target info (t, []) in
    (down ≡ (record t { target_arr = some ([] ++ []) }, [] ++ info ∷ []))
    × (recover_target info down ≡ (record t { target_arr = some (([] ++ []) ++ info ∷ []) }, []))
unfolding is_arr_contains
recover-fail_example = recover-fail web.target [] [] [] (codes "10.0.0.1:8080") refl refl refl refl

health_report_stranger_example :
    load
      (pos 1)
      (health_report
        (health_report db (pos 1) false (codes "10.0.0.1:80"))
        (pos 1)
        true
        (codes "10.0.0.1:80")).tasks
    ≡ some (record web {
      target = record web.target {
        target_arr = some ((codes "10.0.0.1:8080" ∷ []) ++ codes "10.0.0.1:80" ∷ []);
      };
    })
unfolding load ℤ_beq contains has_prefix is_arr_contains bytes_beq
health_report_stranger_example =
    health_report_stranger db (pos 1) (pos 1) (codes "10.0.0.1:80") web (codes "10.0.0.1:8080") []
      refl refl refl refl refl refl refl

load_one : {V : Type 0} (j k : ℤ) (v w : V) → load k ((j, v) ∷ []) ≡ some w → (j ≡ k) × (v ≡ w)
unfolding load
load_one j k v w h = ground (arith, ℤ_beq_iff j k)

db-TasksInv : TasksInv db
db-TasksInv = record {
  keyed = λ k c h. let (e, f) = load_one (pos 1) k web c h in ap (λ (x : Tunnel). x.id) (sym f) ∙ e;
  unique = λ j k c d h l a b e. sym (load_one (pos 1) j web c h).0 ∙ (load_one (pos 1) k web d l).0;
}

abbrev owner : Client
owner = new_client (codes "k") true false

abbrev proxies : Tunnel
proxies = record new_tunnel { mode = codes "socks5"; ports = codes "1080,1081" }

abbrev messages : List ConfigMessage
messages = conf_flag (some owner) [] ∷ task_flag (some (proxies, true)) ∷ []

config_loop-TasksInv_example :
    TasksInv (config_loop (λ b. b) (λ id. false) (λ p m. true) db owner messages).db
config_loop-TasksInv_example =
    config_loop-TasksInv (λ b. b) (λ id. false) (λ p m. true) messages db owner db-TasksInv

two_ports : get_ports (codes "1080,1081") ≡ 1080 ∷ 1081 ∷ []
unfolding get_ports split all_ports ports_of is_port atoi
two_ports = refl

no_ports : get_ports [] ≡ []
unfolding get_ports split all_ports ports_of is_port atoi
no_ports = refl

config_task_panics_example : (config_task (λ p m. true) owner proxies db).2 ≡ panicked
config_task_panics_example =
    config_task_panics (λ p m. true) owner proxies db 1080 1081 [] refl two_ports no_ports
