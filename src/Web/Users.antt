-- ===== src/Web/Users.antt =====
-- web/controllers/base.go: what `CheckUserAuth` lets an ordinary user do, and the handlers of the
-- controllers `index` and `client` behind it.
mod Isolation
mod Tests
use next_nps.File.{Tunnel, Host}
use next_nps.Server.{Server, System}
use next_nps.Web.Forms.{Form, Reply, stopped, get_int_no_err}
use next_nps.Web.Tunnels.{Answer}
use next_nps.Bridge.{Bridge}
use next_nps.Web.Clients.{Asker, Whole}
use next_nps.Web.Hosts.{add_host_form, delete_host, edit_host}
use next_nps.Base.{
  if◌then◌else◌, ◌==◌, Bytes, codes, contains, load, Bool, true, false, ◌||◌, Option, none, some,
  [], nat_eq, bytes_eq,
}
use next_nps.Base.Int.{ℤ, pos, ℤ_eq}

belongs_task : ℤ → Option Tunnel → Bool
belongs_task user none = false
belongs_task user (some t) = t.client == user

belongs_host : ℤ → Option Host → Bool
belongs_host user none = false
belongs_host user (some h) = h.client == user

-- An action with an `h` in its name is one on a host. An id of 0 is not looked at.
may_index : ℤ → Bytes → ℤ → Server → Bool
may_index user action id s =
    if id == pos 0
    then true
    else if contains action (codes "h")
    then belongs_host user (load id s.db.hosts)
    else belongs_task user (load id s.db.tasks)

may_client : ℤ → Bytes → ℤ → Bool
may_client user action id = if action == codes "add" then false else id == pos 0 || id == user

-- `CheckUserAuth`: whether the run goes on.
pub check_user_auth : ℤ → Bytes → Bytes → Form → Server → Bool
check_user_auth user controller action f s =
    let id = get_int_no_err f (codes "id") in
    if controller == codes "client"
    then may_client user action id
    else if controller == codes "index"
    then may_index user action id s
    else true

-- The handlers of `IndexController` that change the tables, by the names of their actions.
pub index_action : System → Bytes → Form → Server → Answer
index_action sys action f s =
    if action == codes "add"
    then next_nps.Web.Tunnels.add sys f s
    else if action == codes "edit"
    then next_nps.Web.Tunnels.edit sys f s
    else if action == codes "stop"
    then next_nps.Web.Tunnels.stop_tunnel sys f s
    else if action == codes "del"
    then next_nps.Web.Tunnels.del_tunnel sys f s
    else if action == codes "start"
    then next_nps.Web.Tunnels.start_tunnel sys f s
    else if action == codes "addhost"
    then add_host_form f s
    else if action == codes "delhost"
    then delete_host f s
    else if action == codes "edithost"
    then edit_host f s
    else (s, stopped)

-- The handlers of `ClientController` that change the tables, but for `add`, which no user gets to; `a`
-- says who asks.
pub client_action : System → Asker → Bytes → Form → Server → Bridge → Whole × Reply
client_action sys a action f s b =
    if action == codes "edit"
    then (let (s', r) = next_nps.Web.Clients.edit a f s in ((s', b, []), r))
    else if action == codes "changestatus"
    then next_nps.Web.Clients.change_status f s b
    else if action == codes "del"
    then next_nps.Web.Clients.del sys f s b
    else ((s, b, []), stopped)

-- `Prepare`, for a user who is not the administrator: the form's client is the user's own. `show` is
-- `strconv.Itoa`.
abbrev pub own_form : (ℤ → Bytes) → ℤ → Form → Form
own_form show user f = record f {
  query = λ key. if key == codes "client_id" then show user else f.query key;
}

-- `Prepare` notes that it is not the administrator who asks.
abbrev pub as_user : Asker → Asker
as_user a = record a { is_admin = false }

-- The handler that the names of the controller and the action lead to. The other controllers change no
-- tunnels, and are left out.
handle : System → Asker → Bytes → Bytes → Form → Server → Bridge → Whole × Reply
handle sys a controller action f s b =
    if controller == codes "index"
    then (let (s', r) = index_action sys action f s in ((s', b, []), r))
    else if controller == codes "client"
    then client_action sys (as_user a) action f s b
    else ((s, b, []), stopped)

pub user_request :
    System → (ℤ → Bytes) → Asker → ℤ → Bytes → Bytes → Form → Server → Bridge → Whole × Reply
user_request sys show a user controller action f s b =
    let g = own_form show user f in
    if check_user_auth user controller action g s
    then handle sys a controller action g s b
    else ((s, b, []), stopped)
