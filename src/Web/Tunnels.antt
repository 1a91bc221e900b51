-- ===== src/Web/Tunnels.antt =====
-- web/controllers/index.go: the handlers of tunnels. A tunnel that a handler gets from the table is
-- a pointer into it, so a field that is set stays set where the handler ends with an error.
pub mod Reach
mod Limits
mod Tests
use next_nps.File.{Client, Tunnel, new_target, new_tunnel}
use next_nps.Db.{
  Db, DbError, get_task_id, get_client, get_task, get_tunnel_num, new_task, update_task,
}
use next_nps.Server.{Server, System, TaskError, add_task, stop_server, start_task, delete_task}
use next_nps.Web.Forms.{
  Form, Reply, ajax_ok, ajax_err, get_escape_string, get_int_no_err, get_bool_no_err,
}
use next_nps.Base.{
  if◌then◌else◌, ◌==◌, codes, store, true, not, ◌&&◌, Option, none, some, nat_eq, bytes_eq,
}
use next_nps.Base.Int.{ℤ, pos, leb_ℤ, ℤ_eq}

abbrev pub Answer : Type 0
Answer = Server × Reply

unfoldable pub reply_of : {E : Type 0} → Server × Option E → Answer
reply_of (s, none) = (s, ajax_ok)
reply_of (s, some e) = (s, ajax_err)

-- The tunnel that a form describes.
abbrev pub form_tunnel : Form → ℤ → Tunnel
form_tunnel f id = record new_tunnel {
  port = get_int_no_err f (codes "port");
  server_ip = get_escape_string f (codes "server_ip");
  mode = get_escape_string f (codes "type");
  target = record new_target {
    target_str = get_escape_string f (codes "target");
    local_proxy = get_bool_no_err f (codes "local_proxy");
  };
  id = id;
  status = true;
  remark = get_escape_string f (codes "remark");
  password = get_escape_string f (codes "password");
  local_path = get_escape_string f (codes "local_path");
  strip_pre = get_escape_string f (codes "strip_pre");
}

module _ (sys : System) where
  after_new_task : Server → Tunnel → Db × Option DbError → Answer
  after_new_task s t (db, some e) = (record s { db = db }, ajax_err)
  after_new_task s t (db, none) = reply_of (add_task sys (record s { db = db }) t)

  -- `t` has its client; the limit of 0 is none.
  add_limited : Server → Client → Tunnel → Answer
  add_limited s c t =
      if not (c.max_tunnel_num == pos 0) && leb_ℤ c.max_tunnel_num (pos (get_tunnel_num s.db c))
      then (s, ajax_err)
      else after_new_task s t (new_task s.db t)

  add_for : Server → Tunnel → Option Client → Answer
  add_for s t none = (s, ajax_err)
  add_for s t (some c) = add_limited s c (record t { client = c.id })

  -- `Add`, of a form that is sent.
  pub add : Form → Server → Answer
  add f s =
      let s' = record s { db = (get_task_id s.db).0 } in
      let t = form_tunnel f (get_task_id s.db).1 in
      if not (sys.port_free t.port t.mode)
      then (s', ajax_err)
      else add_for s' t (get_client s'.db (get_int_no_err f (codes "client_id")))

  -- `Edit` after the tests: the tunnel is written, stopped and started.
  restart : Server → ℤ → Server
  restart s id = (start_task sys (stop_server sys s id).0 id).0

  abbrev edited : Form → ℤ → ℤ → Tunnel → Tunnel
  edited f id port t = record t {
    port = port;
    server_ip = get_escape_string f (codes "server_ip");
    mode = get_escape_string f (codes "type");
    target = record new_target {
      target_str = get_escape_string f (codes "target");
      local_proxy = get_bool_no_err f (codes "local_proxy");
    };
    password = get_escape_string f (codes "password");
    id = id;
    local_path = get_escape_string f (codes "local_path");
    strip_pre = get_escape_string f (codes "strip_pre");
    remark = get_escape_string f (codes "remark");
  }

  edit_with : Form → Server → ℤ → Tunnel → Option Client → Answer
  edit_with f s id t none = (s, ajax_err)
  edit_with f s id t (some c) =
      let port = get_int_no_err f (codes "port") in
      let t' = record t { client = c.id } in
      if not (port == t.port) && not (sys.port_free port t.mode)
      then (record s { db = record s.db { tasks = store id t' s.db.tasks } }, ajax_err)
      else (restart (record s { db = update_task s.db (edited f id port t') }) id, ajax_ok)

  edit_at : Form → Server → ℤ → Option Tunnel → Answer
  edit_at f s id none = (s, ajax_ok)
  edit_at f s id (some t) =
      edit_with f s id t (get_client s.db (get_int_no_err f (codes "client_id")))

  -- `Edit`, of a form that is sent. A tunnel that is not there is answered with success.
  pub edit : Form → Server → Answer
  edit f s = let id = get_int_no_err f (codes "id") in edit_at f s id (get_task s.db id)

  pub stop_tunnel : Form → Server → Answer
  stop_tunnel f s = reply_of (stop_server sys s (get_int_no_err f (codes "id")))

  pub del_tunnel : Form → Server → Answer
  del_tunnel f s = reply_of (delete_task sys s (get_int_no_err f (codes "id")))

  pub start_tunnel : Form → Server → Answer
  start_tunnel f s = reply_of (start_task sys s (get_int_no_err f (codes "id")))
