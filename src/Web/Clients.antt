-- ===== src/Web/Clients.antt =====
-- web/controllers/client.go: the handlers of clients. The limiter of a client is its rate here, so
-- that its stop and start are the change of the rate.
pub mod Reach
use next_nps.File.{Client, Flow, new_flow, new_client}
use next_nps.Wire.{get_bool_by_str}
use next_nps.Db.{
  Db, DbError, default_rate, kilobytes, get_client_id, get_client, new_client_entry,
  verify_user_name, verify_vkey, del_client, store_clients_to_json_file,
}
use next_nps.Bridge.{Bridge, Effect}
use next_nps.Server.{Server, System, del_tunnel_and_host_by_client_id}
use next_nps.Web.Forms.{
  Form, Reply, ajax_ok, ajax_err, get_escape_string, get_int_no_err, get_bool_no_err,
}
use next_nps.Web.Tunnels.{Answer, reply_of}
use next_nps.Web.Hosts.{with_db}
use next_nps.Base.{
  if◌then◌else◌, ◌==◌, Bytes, codes, store, map_some, Bool, false, not, ◌&&◌, ◌||◌, Option, none,
  some, List, [], nat_eq, bytes_eq,
}
use next_nps.Base.Int.{ℤ, pos, ltb_ℤ, ℤ_eq}

abbrev limited_flow : ℤ → Flow → Flow
limited_flow n f = record f { flow_limit = n }

-- The client that a form describes.
abbrev pub form_client : Form → ℤ → Client
form_client f id = record (new_client [] false false) {
  verify_key = get_escape_string f (codes "vkey");
  id = id;
  remark = get_escape_string f (codes "remark");
  cnf = record {
    user = get_escape_string f (codes "u");
    password = get_escape_string f (codes "p");
    compress = get_bool_by_str (get_escape_string f (codes "compress"));
    crypt = get_bool_no_err f (codes "crypt");
  };
  config_conn_allow = get_bool_no_err f (codes "config_conn_allow");
  rate_limit = get_int_no_err f (codes "rate_limit");
  max_conn = get_int_no_err f (codes "max_conn");
  web_user_name = get_escape_string f (codes "web_username");
  web_password = get_escape_string f (codes "web_password");
  max_tunnel_num = get_int_no_err f (codes "max_tunnel");
  flow = some (limited_flow (get_int_no_err f (codes "flow_limit")) new_flow);
}

add_answer : Server → Db × Client × Option DbError → Answer
add_answer s (db, c, e) = reply_of (with_db s db, e)

-- `Add`, of a form that is sent; `draws` are the keys of `GetRandomString`.
pub add : Form → List Bytes → Server → Answer
add f draws s =
    let (db, id) = get_client_id s.db in add_answer s (new_client_entry db (form_client f id) draws)

-- Who asks: whether it is the administrator, whose name is `admin`, and whether users may change
-- their names.
pub record Asker : Type 0 where
  pub is_admin : Bool
  pub admin_name : Bytes
  pub allow_user_change_username : Bool

name_taken : Asker → Db → Bytes → ℤ → Bool
name_taken a db name id =
    not (name == []) && (name == a.admin_name || not (verify_user_name db name id))

-- The fields that only the administrator sets.
set_limits : Form → Client → Client
set_limits f c = record c {
  verify_key = get_escape_string f (codes "vkey");
  flow = map_some (limited_flow (get_int_no_err f (codes "flow_limit"))) c.flow;
  rate_limit = get_int_no_err f (codes "rate_limit");
  max_conn = get_int_no_err f (codes "max_conn");
  max_tunnel_num = get_int_no_err f (codes "max_tunnel");
}

restart_rate : Client → Client
restart_rate c =
    if ltb_ℤ (pos 0) c.rate_limit
    then record c { rate = some (kilobytes c.rate_limit) }
    else record c { rate = some default_rate }

set_fields : Asker → Form → Client → Client
set_fields a f c = restart_rate (record c {
  remark = get_escape_string f (codes "remark");
  cnf = record {
    user = get_escape_string f (codes "u");
    password = get_escape_string f (codes "p");
    compress = get_bool_by_str (get_escape_string f (codes "compress"));
    crypt = get_bool_no_err f (codes "crypt");
  };
  web_user_name =
      if a.is_admin || a.allow_user_change_username
      then get_escape_string f (codes "web_username")
      else c.web_user_name;
  web_password = get_escape_string f (codes "web_password");
  config_conn_allow = get_bool_no_err f (codes "config_conn_allow");
})

-- `Edit` of a client in the table, under `id`.
save : Server → ℤ → Client → Answer
save s id c = (
  with_db s (store_clients_to_json_file (record s.db { clients = store id c s.db.clients })),
  ajax_ok,
)

edit_at : Asker → Form → Server → ℤ → Option Client → Answer
edit_at a f s id none = (s, ajax_err)
edit_at a f s id (some c) =
    if name_taken a s.db (get_escape_string f (codes "web_username")) c.id
    then (s, ajax_err)
    else if a.is_admin && not (verify_vkey s.db (get_escape_string f (codes "vkey")) c.id)
    then (s, ajax_err)
    else save s id (set_fields a f (if a.is_admin then set_limits f c else c))

-- `Edit`, of a form that is sent.
pub edit : Asker → Form → Server → Answer
edit a f s = let id = get_int_no_err f (codes "id") in edit_at a f s id (get_client s.db id)

-- The server, its bridge and what the bridge did.
abbrev pub Whole : Type 0
Whole = Server × Bridge × List Effect

disconnect : Server → Bridge × List Effect → Whole
disconnect s (b, es) = (s, b, es)

status_at : Form → Server → Bridge → ℤ → Option Client → Whole × Reply
status_at f s b id none = ((s, b, []), ajax_err)
status_at f s b id (some c) =
    let on = get_bool_no_err f (codes "status") in
    let s' =
      with_db s (record s.db { clients = store id (record c { status = on }) s.db.clients }) in
    (if on then (s', b, []) else disconnect s' (next_nps.Bridge.del_client s'.db b c.id), ajax_ok)

pub change_status : Form → Server → Bridge → Whole × Reply
change_status f s b =
    let id = get_int_no_err f (codes "id") in status_at f s b id (get_client s.db id)

-- `Del`: the entry, then what belongs to it, then the session.
pub del : System → Form → Server → Bridge → Whole × Reply
del sys f s b =
    let id = get_int_no_err f (codes "id") in
    let s' = del_tunnel_and_host_by_client_id sys (with_db s (del_client s.db id)) id false in
    (disconnect s' (next_nps.Bridge.del_client s'.db b id), ajax_ok)
