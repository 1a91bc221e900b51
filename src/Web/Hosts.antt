-- ===== src/Web/Hosts.antt =====
-- web/controllers/index.go: the handlers of hosts.
pub mod Reach
use next_nps.File.{Client, Host, new_target, new_host}
use next_nps.Db.{
  Db, DbError, get_host_id, get_client, get_host_by_id, is_host_exist, new_host_entry, del_host,
  store_host_to_json_file,
}
use next_nps.Server.{Server}
use next_nps.Web.Forms.{
  Form, Reply, ajax_ok, ajax_err, get_escape_string, get_int_no_err, get_bool_no_err,
}
use next_nps.Web.Tunnels.{Answer, reply_of}
use next_nps.Base.{
  if◌then◌else◌, ◌==◌, codes, store, not, ◌&&◌, Option, none, some, nat_eq, bytes_eq,
}
use next_nps.Base.Int.{ℤ, ℤ_eq}

abbrev pub with_db : Server → Db → Server
with_db s db = record s { db = db }

abbrev pub form_host : Form → ℤ → Host
form_host f id = record new_host {
  id = id;
  host = get_escape_string f (codes "host");
  target = record new_target {
    target_str = get_escape_string f (codes "target");
    local_proxy = get_bool_no_err f (codes "local_proxy");
  };
  header_change = get_escape_string f (codes "header");
  host_change = get_escape_string f (codes "hostchange");
  remark = get_escape_string f (codes "remark");
  location = get_escape_string f (codes "location");
  scheme = get_escape_string f (codes "scheme");
  key_file_path = get_escape_string f (codes "key_file_path");
  cert_file_path = get_escape_string f (codes "cert_file_path");
}

add_answer : Server → Db × Option DbError → Answer
add_answer s (db, e) = reply_of (with_db s db, e)

add_for : Server → Host → Option Client → Answer
add_for s h none = (s, ajax_err)
add_for s h (some c) = add_answer s (new_host_entry s.db (record h { client = c.id }))

-- `AddHost`, of a form that is sent.
pub add_host_form : Form → Server → Answer
add_host_form f s =
    let s' = with_db s (get_host_id s.db).0 in
    add_for s' (form_host f (get_host_id s.db).1)
      (get_client s'.db (get_int_no_err f (codes "client_id")))

pub delete_host : Form → Server → Answer
delete_host f s = (with_db s (del_host s.db (get_int_no_err f (codes "id"))), ajax_ok)

-- The entry that `EditHost` looks for, where the name of the host changes.
abbrev pub probe_host : Form → Host
probe_host f = record new_host {
  host = get_escape_string f (codes "host");
  location = get_escape_string f (codes "location");
  scheme = get_escape_string f (codes "scheme");
}

abbrev edited : Form → Host → Client → Host
edited f h c = record h {
  client = c.id;
  host = get_escape_string f (codes "host");
  target = record new_target {
    target_str = get_escape_string f (codes "target");
    local_proxy = get_bool_no_err f (codes "local_proxy");
  };
  header_change = get_escape_string f (codes "header");
  host_change = get_escape_string f (codes "hostchange");
  remark = get_escape_string f (codes "remark");
  location = get_escape_string f (codes "location");
  scheme = get_escape_string f (codes "scheme");
  key_file_path = get_escape_string f (codes "key_file_path");
  cert_file_path = get_escape_string f (codes "cert_file_path");
}

edit_with : Form → Server → ℤ → Host → Option Client → Answer
edit_with f s id h none = (s, ajax_err)
edit_with f s id h (some c) = (
  with_db s (store_host_to_json_file (record s.db { hosts = store id (edited f h c) s.db.hosts })),
  ajax_ok,
)

edit_at : Form → Server → ℤ → Option Host → Answer
edit_at f s id none = (s, ajax_ok)
edit_at f s id (some h) =
    if not (h.host == get_escape_string f (codes "host")) && is_host_exist s.db (probe_host f)
    then (s, ajax_err)
    else edit_with f s id h (get_client s.db (get_int_no_err f (codes "client_id")))

-- `EditHost`, of a form that is sent. A host that is not there is answered with success.
pub edit_host : Form → Server → Answer
edit_host f s = let id = get_int_no_err f (codes "id") in edit_at f s id (get_host_by_id s.db id)
