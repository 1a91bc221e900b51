-- ===== src/Db.antt =====
-- lib/file/db.go and the counters of lib/file/file.go: the server's tables of clients, tunnels and
-- hosts. Each table is a `sync.Map` keyed by id. A file holds the records that were written last;
-- how they are coded is `Persist`. MD5 is a parameter, and the keys of `GetRandomString` are a list
-- of future draws.
pub mod Draws
pub mod Hosts
mod Keys
mod Pages
pub mod Load
pub mod Routing
pub mod Secrets
mod Tests
use next_nps.Base.{
  if◌then◌else◌, ◌==◌, is_some, length, Bytes, codes, Store, load, store, delete, any_value,
  find_value, filter_values, map_some, ℕ, ◌+◌, ◌*◌, Bool, false, not, ◌&&◌, ◌||◌, Option, none,
  some, List, [], ◌∷◌, nat_eq, bytes_eq,
}
use next_nps.Base.Int.{ℤ, pos, negsuc, ◌+ℤ◌, int32, int64, ℤ_eq}
use next_nps.File.{Flow, Client, Tunnel, Host, new_flow}

pub record Db : Type 0 where
  pub tasks : Store ℤ Tunnel
  pub hosts : Store ℤ Host
  pub clients : Store ℤ Client
  pub client_increase_id : ℤ
  pub task_increase_id : ℤ
  pub host_increase_id : ℤ
  pub task_file : List Tunnel
  pub host_file : List Host
  pub client_file : List Client

pub data DbError : Type 0 where
  not_found : DbError
  secret_not_unique : DbError
  host_exists : DbError
  user_name_duplicate : DbError
  vkey_duplicate : DbError
  no_more_draws : DbError

-- The counters are int32.
unfoldable pub get_client_id : Db → Db × ℤ
get_client_id s =
    let n = int32 (s.client_increase_id +ℤ pos 1) in (record s { client_increase_id = n }, n)

unfoldable pub get_task_id : Db → Db × ℤ
get_task_id s =
    let n = int32 (s.task_increase_id +ℤ pos 1) in (record s { task_increase_id = n }, n)

unfoldable pub get_host_id : Db → Db × ℤ
get_host_id s =
    let n = int32 (s.host_increase_id +ℤ pos 1) in (record s { host_increase_id = n }, n)

-- `storeSyncMapToFile`: the file is replaced by the records that are to be stored.
unfoldable pub store_tasks_to_json_file : Db → Db
store_tasks_to_json_file s = record s { task_file = filter_values (λ t. not t.no_store) s.tasks }

unfoldable pub store_host_to_json_file : Db → Db
store_host_to_json_file s = record s { host_file = filter_values (λ h. not h.no_store) s.hosts }

unfoldable pub store_clients_to_json_file : Db → Db
store_clients_to_json_file s = record s {
  client_file = filter_values (λ c. not c.no_store) s.clients;
}

-- A mode in which the password names the tunnel.
unfoldable pub is_secret_mode : Bytes → Bool
is_secret_mode m = m == codes "secret" || m == codes "p2p"

unfoldable pub has_secret : Bytes → Store ℤ Tunnel → Bool
unfolding is_secret_mode
has_secret p = any_value (λ v. is_secret_mode v.mode && v.password == p)

unfoldable pub new_task : Db → Tunnel → Db × Option DbError
unfolding has_secret store_tasks_to_json_file
new_task s t = if has_secret t.password s.tasks then (s, some secret_not_unique) else (
  store_tasks_to_json_file (record s { tasks = store t.id (record t { flow = new_flow }) s.tasks }),
  none,
)

unfoldable pub update_task : Db → Tunnel → Db
unfolding store_tasks_to_json_file
update_task s t = store_tasks_to_json_file (record s { tasks = store t.id t s.tasks })

unfoldable pub del_task : Db → ℤ → Db
unfolding store_tasks_to_json_file
del_task s id = store_tasks_to_json_file (record s { tasks = delete id s.tasks })

unfoldable pub get_task : Db → ℤ → Option Tunnel
get_task s id = load id s.tasks

unfoldable pub del_host : Db → ℤ → Db
unfolding store_host_to_json_file
del_host s id = store_host_to_json_file (record s { hosts = delete id s.hosts })

unfoldable pub is_host_exist : Db → Host → Bool
is_host_exist s h =
    any_value
      (λ v.
        not (v.id == h.id)
        && v.host == h.host
        && h.location == v.location
        && (v.scheme == codes "all" || v.scheme == h.scheme))
      s.hosts

-- An empty location means the root.
unfoldable pub default_location : Host → Host
default_location t = if t.location == [] then record t { location = codes "/" } else t

-- `NewHost` after the location is set.
add_host : Db → Host → Db × Option DbError
unfolding is_host_exist store_host_to_json_file
add_host s t = if is_host_exist s t then (s, some host_exists) else (
  store_host_to_json_file (record s { hosts = store t.id (record t { flow = new_flow }) s.hosts }),
  none,
)

unfoldable pub new_host_entry : Db → Host → Db × Option DbError
unfolding add_host default_location
new_host_entry s t = add_host s (default_location t)

unfoldable pub get_host_by_id : Db → ℤ → Option Host
get_host_by_id s id = load id s.hosts

unfoldable pub get_client : Db → ℤ → Option Client
get_client s id = load id s.clients

unfoldable pub is_pub_client : Db → ℤ → Bool
unfolding get_client
is_pub_client s id = elim (get_client s id) [ none ↦ false | some c ↦ c.no_display ]

unfoldable pub del_client : Db → ℤ → Db
unfolding store_clients_to_json_file
del_client s id = store_clients_to_json_file (record s { clients = delete id s.clients })

-- The range of `VerifyVkey` and `VerifyUserName` stops at another client with the same text.
unfoldable pub verify_vkey : Db → Bytes → ℤ → Bool
verify_vkey s vkey id = not (any_value (λ v. v.verify_key == vkey && not (v.id == id)) s.clients)

unfoldable pub verify_user_name : Db → Bytes → ℤ → Bool
verify_user_name s name id =
    not (any_value (λ v. v.web_user_name == name && not (v.id == id)) s.clients)

-- `int64(2 << 23)`, the rate of a client without a limit.
abbrev pub default_rate : ℤ
default_rate = pos 16777216

-- `int64(x * 1024)` for an int x.
abbrev pub kilobytes : ℤ → ℤ
kilobytes (pos n) = int64 (pos (n * 1024))
kilobytes (negsuc n) = int64 (negsuc (n * 1024 + 1023))

pub set_rate : Client → Client
set_rate c =
    if c.rate_limit == pos 0
    then record c { rate = some default_rate }
    else if not (is_some c.rate)
    then record c { rate = some (kilobytes c.rate_limit) }
    else c

-- The goto loop, over the draws to come. A key that was drawn is drawn again while it is taken;
-- one that the caller gave is checked once.
draw_key : Db → Client → List Bytes → Client × Option DbError
draw_key s c [] = (c, some no_more_draws)
draw_key s c (k ∷ ks) =
    let c' = set_rate (record c { verify_key = k }) in
    let rest = draw_key s c' ks in if verify_vkey s k c'.id then (c', none) else rest

choose_key : Db → Client → List Bytes → Client × Option DbError
choose_key s c draws =
    if c.verify_key == []
    then draw_key s c draws
    else let c' = set_rate c in
      if verify_vkey s c'.verify_key c'.id then (c', none) else (c', some vkey_duplicate)

-- The id is drawn from the counter where it is not set.
assign_id : Db → Client → Db × Client
unfolding get_client_id
assign_id s c =
    if c.id == pos 0 then (let (s', n) = get_client_id s in (s', record c { id = n })) else (s, c)

or_new_flow : Option Flow → Option Flow
or_new_flow none = some new_flow
or_new_flow (some f) = some f

save_client : Db → Client → Db × Client
unfolding or_new_flow store_clients_to_json_file
save_client s c =
    let (s', c') = assign_id s c in
    let c'' = record c' { flow = or_new_flow c'.flow } in
    (store_clients_to_json_file (record s' { clients = store c''.id c'' s'.clients }), c'')

-- The result holds the client as the caller's pointer sees it.
finish_client : Db → Client × Option DbError → Db × Client × Option DbError
finish_client s (c, some e) = (s, c, some e)
finish_client s (c, none) = let (s', c') = save_client s c in (s', c', none)

pub new_client_entry : Db → Client → List Bytes → Db × Client × Option DbError
new_client_entry s c draws =
    if not (c.web_user_name == []) && not (verify_user_name s c.web_user_name c.id)
    then (s, c, some user_name_duplicate)
    else finish_client s (choose_key s c draws)

unfoldable pub update_client : Db → Client → Db
update_client s t =
    let t' = if t.rate_limit == pos 0 then record t { rate = some default_rate } else t in
    record s { clients = store t.id t' s.clients }

-- `Client.HasTunnel`, `GetTunnelNum` and `HasHost` of lib/file/obj.go.
unfoldable pub has_tunnel : Db → Client → Tunnel → Bool
has_tunnel s c t =
    any_value (λ v. v.client == c.id && v.port == t.port && not (t.port == pos 0)) s.tasks

unfoldable pub get_tunnel_num : Db → Client → ℕ
get_tunnel_num s c = length (filter_values (λ v. v.client == c.id) s.tasks)

unfoldable pub has_host : Db → Client → Host → Bool
has_host s c h =
    any_value (λ v. v.client == c.id && v.host == h.host && h.location == v.location) s.hosts

-- The lookups by a hash. The first one also notes the address, in the entry that it finds.
module _ (md5 : Bytes → Bytes) where
  unfoldable pub has_verify_val : Bytes → Client → Bool
  has_verify_val vkey v = md5 v.verify_key == vkey && v.status

  -- Only the first entry that fits gets the address: the range stops there.
  pub set_first_addr : Bytes → Bytes → Store ℤ Client → Store ℤ Client
  set_first_addr vkey ip [] = []
  set_first_addr vkey ip ((k, v) ∷ m) =
      let rest = set_first_addr vkey ip m in
      if has_verify_val vkey v then (k, record v { addr = ip }) ∷ m else (k, v) ∷ rest

  -- `ip` is `GetIpByAddr` of the address.
  unfoldable pub get_id_by_verify_key : Db → Bytes → Bytes → Db × Option ℤ
  get_id_by_verify_key s vkey ip = (
    record s { clients = set_first_addr vkey ip s.clients },
    map_some (λ (v : Client). v.id) (find_value (has_verify_val vkey) s.clients),
  )

  pub get_task_by_md5_password : Db → Bytes → Option Tunnel
  get_task_by_md5_password s p = find_value (λ t. md5 t.password == p) s.tasks

  pub get_client_id_by_vkey : Db → Bytes → Option ℤ
  get_client_id_by_vkey s vkey =
      map_some (λ (v : Client). v.id) (find_value (λ v. md5 v.verify_key == vkey) s.clients)
