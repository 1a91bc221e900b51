-- ===== src/Web/Hosts/Reach.antt =====
-- web/controllers/index.go: the handlers of hosts leave the tunnels as they are.
use next_nps.File.{Client, Tunnel, Host}
use next_nps.Db.{Db, DbError, get_host_id, new_host_entry, del_host, store_host_to_json_file}
use next_nps.Db.Hosts.{new_host_entry_tasks}
use next_nps.Server.{Server}
use next_nps.Web.Forms.{Form}
use next_nps.Web.Tunnels.{Answer, reply_of}
use next_nps.Web.Hosts.{
  add_host_form, add_answer, add_for, edit_with, edit_at, edit_host, delete_host,
}
use next_nps.Base.{if_both, Store, ◌≡◌, refl, ◌∙◌, Option, none, some}
use next_nps.Base.Int.{ℤ}

tasks_of : Answer → Store ℤ Tunnel
tasks_of r = r.0.db.tasks

add_answer_tasks : (s : Server) (r : Db × Option DbError) → tasks_of (add_answer s r) ≡ r.0.tasks
unfolding tasks_of add_answer reply_of
add_answer_tasks s (db, none) = refl
add_answer_tasks s (db, some e) = refl

add_for_tasks : (s : Server) (h : Host) (o : Option Client) → tasks_of (add_for s h o) ≡ s.db.tasks
unfolding tasks_of add_for
add_for_tasks s h none = refl
add_for_tasks s h (some c) =
    let h' = record h { client = c.id } in
    add_answer_tasks s (new_host_entry s.db h') ∙ new_host_entry_tasks s.db h'

edit_with_tasks :
    (f : Form) (s : Server) (id : ℤ) (h : Host) (o : Option Client)
    → tasks_of (edit_with f s id h o) ≡ s.db.tasks
unfolding tasks_of edit_with store_host_to_json_file
edit_with_tasks f s id h none = refl
edit_with_tasks f s id h (some c) = refl

edit_at_tasks :
    (f : Form) (s : Server) (id : ℤ) (o : Option Host) → tasks_of (edit_at f s id o) ≡ s.db.tasks
unfolding edit_at tasks_of
edit_at_tasks f s id none = refl
edit_at_tasks f s id (some h) =
    if_both (λ (r : Answer). tasks_of r ≡ s.db.tasks) _ _ _ refl (edit_with_tasks f s id h _)

-- Whatever the form, the table of tunnels stays.
pub host_actions_tasks :
    (f : Form) (s : Server)
    → ((add_host_form f s).0.db.tasks ≡ s.db.tasks)
      × ((delete_host f s).0.db.tasks ≡ s.db.tasks)
      × ((edit_host f s).0.db.tasks ≡ s.db.tasks)
unfolding add_host_form delete_host edit_host del_host store_host_to_json_file get_host_id tasks_of
host_actions_tasks f s = (add_for_tasks _ _ _, refl, edit_at_tasks f s _ _)
