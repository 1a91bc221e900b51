-- ===== src/Web/Clients/Reach.antt =====
-- web/controllers/client.go: what the handlers of clients do to the table of tunnels.
use next_nps.File.{Client, Tunnel}
use next_nps.Db.{get_client, del_client, store_clients_to_json_file}
use next_nps.Bridge.{Bridge}
use next_nps.Server.{Server, System}
use next_nps.Server.Tasks.{Keyed}
use next_nps.Server.Owners.{del_tunnel_and_host_other}
use next_nps.Web.Forms.{Form, get_escape_string, get_int_no_err, get_bool_no_err}
use next_nps.Web.Tunnels.{Answer}
use next_nps.Web.Hosts.{with_db}
use next_nps.Web.Clients.{
  Asker, Whole, name_taken, save, edit_at, edit, disconnect, status_at, change_status, del,
}
use next_nps.Base.{
  if_both, codes, load, IsMap, ◌≡◌, refl, ◌≢◌, false, Option, none, some, nat_eq, bytes_eq,
}
use next_nps.Base.Int.{ℤ, ℤ_eq}

edit_at_tasks :
    (a : Asker) (f : Form) (s : Server) (id : ℤ) (o : Option Client)
    → (edit_at a f s id o).0.db.tasks ≡ s.db.tasks
unfolding edit_at save store_clients_to_json_file
edit_at_tasks a f s id none = refl
edit_at_tasks a f s id (some c) =
    let P : Answer → Type 0 = λ r. r.0.db.tasks ≡ s.db.tasks in
    if_both P (name_taken a s.db (get_escape_string f (codes "web_username")) c.id) _ _ refl
      (if_both P _ _ _ refl refl)

pub edit_tasks : (a : Asker) (f : Form) (s : Server) → (edit a f s).0.db.tasks ≡ s.db.tasks
unfolding edit
edit_tasks a f s =
    let id = get_int_no_err f (codes "id") in edit_at_tasks a f s id (get_client s.db id)

status_at_tasks :
    (f : Form) (s : Server) (b : Bridge) (id : ℤ) (o : Option Client)
    → (status_at f s b id o).0.0.db.tasks ≡ s.db.tasks
unfolding status_at disconnect
status_at_tasks f s b id none = refl
status_at_tasks f s b id (some c) =
    if_both (λ (w : Whole). w.0.db.tasks ≡ s.db.tasks) (get_bool_no_err f (codes "status")) _ _ refl
      refl

pub change_status_tasks :
    (f : Form) (s : Server) (b : Bridge) → (change_status f s b).0.0.db.tasks ≡ s.db.tasks
unfolding change_status
change_status_tasks f s b =
    let id = get_int_no_err f (codes "id") in status_at_tasks f s b id (get_client s.db id)

-- The deletion of a client leaves the tunnels of others.
pub del_other :
    (sys : System) (s : Server) (f : Form) (k : ℤ) (t : Tunnel) (b : Bridge)
    → IsMap s.db.tasks
    → Keyed s
    → load k s.db.tasks ≡ some t
    → t.client ≢ get_int_no_err f (codes "id")
    → load k (del sys f s b).0.0.db.tasks ≡ some t
unfolding del disconnect del_client store_clients_to_json_file
del_other sys s f k t b d kd l n =
    let id = get_int_no_err f (codes "id") in
    del_tunnel_and_host_other sys (with_db s (del_client s.db id)) id false k t d kd l n
