-- ===== src/Server.antt =====
-- server/server.go: the list of the tunnels that run, and what the operator's and the bridge's
-- messages do to it. A service is a number. Whether a port can be opened and whether a service
-- closes without an error is the answer of the system, an argument. Goroutines that a handler
-- starts are not steps of it: the end of a service is a step of its own.
pub mod Tasks
mod Tests
pub mod Owners
pub mod Reach
use next_nps.Base.Int.{ℤ, pos, ℤ_eq}
use next_nps.Base.{
  if◌then◌else◌, ◌==◌, Bytes, codes, Store, load, store, delete, filter_values, Bool, true, false,
  not, ◌&&◌, ◌||◌, Option, none, some, List, [], ◌∷◌, map, nat_eq, bytes_eq,
}
use next_nps.File.{Client, Tunnel, Host, new_tunnel}
use next_nps.Db.{Db, get_task, update_task, del_task, del_host, del_client}

-- A value of the list is nil for a secret or p2p tunnel.
pub record Server : Type 0 where
  pub db : Db
  pub run_list : Store ℤ (Option Bytes)

pub record System : Type 0 where
  pub port_free : ℤ → Bytes → Bool
  pub closes : Bytes → Bool

pub data TaskError : Type 0 where
  not_running : TaskError
  close_failed : TaskError
  no_task : TaskError
  port_failed : TaskError
  wrong_mode : TaskError

-- `NewMode` makes a service for these modes, which is named by its mode here.
unfoldable pub is_mode : Bytes → Bool
is_mode m =
    m == codes "tcp"
    || m == codes "file"
    || m == codes "socks5"
    || m == codes "httpProxy"
    || m == codes "tcpTrans"
    || m == codes "udp"
    || m == codes "webServer"
    || m == codes "httpHostServer"

abbrev run : Server → ℤ → Option Bytes → Server
run s id v = record s { run_list = store id v s.run_list }

-- `NewMode` of the web server starts the host server as well, under id 0. `InitFromCsv`, which it
-- calls first and which adds the public client and the tunnels that were stored, is left out: this is
-- the mode that the program itself starts with, ahead of all messages and requests.
new_mode : Server → Bytes → Server × Bool
unfolding is_mode
new_mode s m =
    (if m == codes "webServer" then run s (pos 0) (some (codes "httpHostServer")) else s, is_mode m)

start_mode : Tunnel → Server × Bool → Server × Option TaskError
start_mode t (s, false) = (s, some wrong_mode)
start_mode t (s, true) = (run s t.id (some t.mode), none)

-- `TestServerPort` is `Ports.test_server_port`, whose answer is `port_free`.
pub add_task : System → Server → Tunnel → Server × Option TaskError
unfolding start_mode
add_task sys s t =
    if t.mode == codes "secret" || t.mode == codes "p2p"
    then (run s t.id none, none)
    else if not (sys.port_free t.port t.mode) && not (t.mode == codes "httpHostServer")
    then (s, some port_failed)
    else start_mode t (new_mode s t.mode)

-- The goroutine of `AddTask`, where the start of the service fails.
unfoldable pub start_failed : Server → ℤ → Server
start_failed s id = record s { run_list = delete id s.run_list }

-- The rest of `StopServer`, once the service is closed.
drop_running : Server → ℤ → Option Tunnel → Server × Option TaskError
drop_running s id none = (s, some no_task)
drop_running s id (some t) = (
  record { db = update_task s.db (record t { status = false }); run_list = delete id s.run_list },
  none,
)

abbrev close_service : System → Option Bytes → Bool
close_service sys none = true
close_service sys (some v) = sys.closes v

stop_at : System → Server → ℤ → Option (Option Bytes) → Server × Option TaskError
unfolding drop_running
stop_at sys s id none = (s, some not_running)
stop_at sys s id (some v) =
    if close_service sys v then drop_running s id (get_task s.db id) else (s, some close_failed)

pub stop_server : System → Server → ℤ → Server × Option TaskError
unfolding stop_at
stop_server sys s id = stop_at sys s id (load id s.run_list)

start_at : System → Server → Option Tunnel → Server × Option TaskError
start_at sys s none = (s, some no_task)
start_at sys s (some t) =
    let s' = (add_task sys s t).0 in
    (record s' { db = update_task s'.db (record t { status = true }) }, none)

-- `StartTask`, which takes no notice of an error of `AddTask`.
pub start_task : System → Server → ℤ → Server × Option TaskError
unfolding start_at
start_task sys s id = start_at sys s (get_task s.db id)

-- `DelTask`: a stop that fails ends it.
after_stop : ℤ → Server × Option TaskError → Server × Option TaskError
after_stop id (s, some e) = (s, some e)
after_stop id (s, none) = (record s { db = del_task s.db id }, none)

del_at : System → Server → ℤ → Option (Option Bytes) → Server × Option TaskError
unfolding after_stop
del_at sys s id none = (record s { db = del_task s.db id }, none)
del_at sys s id (some v) = after_stop id (stop_server sys s id)

pub delete_task : System → Server → ℤ → Server × Option TaskError
unfolding del_at
delete_task sys s id = del_at sys s id (load id s.run_list)

pub delete_tasks : System → Server → List ℤ → Server
delete_tasks sys s [] = s
delete_tasks sys s (id ∷ ids) = delete_tasks sys (delete_task sys s id).0 ids

pub delete_hosts : Db → List ℤ → Db
delete_hosts db [] = db
delete_hosts db (id ∷ ids) = delete_hosts (del_host db id) ids

-- The tests of the two ranges of `DelTunnelAndHostByClientId`.
abbrev pub owns_task : ℤ → Bool → Tunnel → Bool
owns_task client_id just v = if just && not v.no_store then false else v.client == client_id

abbrev pub owns_host : ℤ → Bool → Host → Bool
owns_host client_id just v = if just && not v.no_store then false else v.client == client_id

pub task_ids : (Tunnel → Bool) → Store ℤ Tunnel → List ℤ
task_ids p m = map (λ (t : Tunnel). t.id) (filter_values p m)

pub host_ids : (Host → Bool) → Store ℤ Host → List ℤ
host_ids p m = map (λ (h : Host). h.id) (filter_values p m)

pub del_tunnel_and_host_by_client_id : System → Server → ℤ → Bool → Server
del_tunnel_and_host_by_client_id sys s client_id just =
    let s' = delete_tasks sys s (task_ids (owns_task client_id just) s.db.tasks) in
    record s' { db = delete_hosts s'.db (host_ids (owns_host client_id just) s'.db.hosts) }

drop_client : Server → ℤ → Option Client → Server
drop_client s id none = s
drop_client s id (some c) = if c.no_store then record s { db = del_client s.db id } else s

-- What `DealBridgeTask` receives, secret connections aside. The channel of opened tasks stands in
-- two cases of its select.
pub data Message : Type 0 where
  open_task : Tunnel → Message
  reopen_task : Tunnel → Message
  close_task : Tunnel → Message
  close_client : ℤ → Message

pub deal_bridge_task : System → Server → Message → Server
unfolding drop_client
deal_bridge_task sys s (open_task t) = (add_task sys s t).0
deal_bridge_task sys s (reopen_task t) = (start_task sys s t.id).0
deal_bridge_task sys s (close_task t) = (stop_server sys s t.id).0
deal_bridge_task sys s (close_client id) =
    let s' = del_tunnel_and_host_by_client_id sys s id true in
    drop_client s' id (load id s'.db.clients)
