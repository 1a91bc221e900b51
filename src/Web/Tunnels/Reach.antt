-- ===== src/Web/Tunnels/Reach.antt =====
-- web/controllers/index.go: the entries that the handlers of tunnels can change.
use next_nps.File.{Client, Tunnel}
use next_nps.Db.{
  Db, DbError, get_task_id, has_secret, new_task, update_task, store_tasks_to_json_file,
}
use next_nps.Server.{Server, System, add_task, stop_server, start_task, delete_task}
use next_nps.Server.Reach.{
  KeyedAt, Touches, Touches-trans, add_task_db, update_task-Touches, stop_server-Touches,
  start_task-Touches, delete_task-Touches,
}
use next_nps.Web.Forms.{Form, get_int_no_err}
use next_nps.Web.Tunnels.{
  Answer, reply_of, after_new_task, add_limited, add_for, add, restart, edited, edit_with, edit_at,
  edit, stop_tunnel, del_tunnel, start_tunnel,
}
use next_nps.Base.{
  if_both, codes, load, load-store, ◌≡◌, refl, ap, ◌∙◌, ◌≢◌, Option, none, some, arith, nat_eq,
  bytes_eq,
}
use next_nps.Base.Int.{ℤ, ℤ_beq_iff, ℤ_eq}

abbrev pub Keeps : ℤ → Tunnel → Server → Type 0
Keeps k t s = load k s.db.tasks ≡ some t

Keeps-reply_of :
    {E : Type 0} (k : ℤ) (t : Tunnel) (r : Server × Option E)
    → Keeps k t r.0
    → Keeps k t (reply_of r).0
unfolding reply_of
Keeps-reply_of k t (s, none) p = p
Keeps-reply_of k t (s, some e) p = p

Keeps-Touches :
    (k id : ℤ) (t : Tunnel) (s s' : Server) → id ≢ k → Touches id s s' → Keeps k t s → Keeps k t s'
Keeps-Touches k id t s s' n (f, p) q = f k n ∙ q

module _ (sys : System) (k : ℤ) (t : Tunnel) where
  new_task-Keeps :
      (db : Db) (u : Tunnel)
      → u.id ≢ k
      → load k db.tasks ≡ some t
      → load k (new_task db u).0.tasks ≡ some t
  unfolding new_task store_tasks_to_json_file
  new_task-Keeps db u n p =
      if_both (λ (r : Db × Option DbError). load k r.0.tasks ≡ some t)
        (has_secret u.password db.tasks) _ _ p
        (load-store u.id k _ db.tasks ∙ ground (arith, ℤ_beq_iff u.id k, p))

  after_new_task-Keeps :
      (s : Server) (u : Tunnel) (r : Db × Option DbError)
      → load k r.0.tasks ≡ some t
      → Keeps k t (after_new_task sys s u r).0
  unfolding after_new_task
  after_new_task-Keeps s u (db, some e) p = p
  after_new_task-Keeps s u (db, none) p =
      let s' = record s { db = db } in
      Keeps-reply_of k t (add_task sys s' u)
        (ap (λ (d : Db). load k d.tasks) (add_task_db sys s' u) ∙ p)

  add_for-Keeps :
      (s : Server) (u : Tunnel) (o : Option Client)
      → u.id ≢ k
      → Keeps k t s
      → Keeps k t (add_for sys s u o).0
  unfolding add_for add_limited
  add_for-Keeps s u none n p = p
  add_for-Keeps s u (some c) n p =
      let u' = record u { client = c.id } in
      if_both (λ (r : Answer). Keeps k t r.0) _ _ _ p
        (after_new_task-Keeps s u' (new_task s.db u') (new_task-Keeps s.db u' n p))

  -- A tunnel under another id than the one that is drawn.
  pub add-Keeps :
      (f : Form) (s : Server) → (get_task_id s.db).1 ≢ k → Keeps k t s → Keeps k t (add sys f s).0
  unfolding add get_task_id
  add-Keeps f s n p = if_both (λ (r : Answer). Keeps k t r.0) _ _ _ p (add_for-Keeps _ _ _ n p)

  restart-Touches : (s : Server) (id : ℤ) → KeyedAt id s → Touches id s (restart sys s id)
  unfolding restart
  restart-Touches s id p =
      let s' = (stop_server sys s id).0 in
      let q = stop_server-Touches sys s id p in
      Touches-trans id s s' (start_task sys s' id).0 q (start_task-Touches sys s' id q.1)

  edit_with-Keeps :
      (f : Form) (s : Server) (id : ℤ) (u : Tunnel) (o : Option Client)
      → id ≢ k
      → Keeps k t s
      → Keeps k t (edit_with sys f s id u o).0
  unfolding edit_with
  edit_with-Keeps f s id u none n p = p
  edit_with-Keeps f s id u (some c) n p =
      let u' = edited sys f id (get_int_no_err f (codes "port")) (record u { client = c.id }) in
      let s' = record s { db = update_task s.db u' } in
      let q : Touches id s s' = update_task-Touches id s s' u' refl refl in
      if_both (λ (r : Answer). Keeps k t r.0) _ _ _
        (load-store id k _ s.db.tasks ∙ ground (arith, ℤ_beq_iff id k, p))
        (Keeps-Touches k id t s' (restart sys s' id) n (restart-Touches s' id q.1)
          (Keeps-Touches k id t s s' n q p))

  edit_at-Keeps :
      (f : Form) (s : Server) (id : ℤ) (o : Option Tunnel)
      → id ≢ k
      → Keeps k t s
      → Keeps k t (edit_at sys f s id o).0
  unfolding edit_at
  edit_at-Keeps f s id none n p = p
  edit_at-Keeps f s id (some u) n p = edit_with-Keeps f s id u _ n p

  -- A tunnel under another id than the form's.
  pub edit-Keeps :
      (f : Form) (s : Server)
      → get_int_no_err f (codes "id") ≢ k
      → Keeps k t s
      → Keeps k t (edit sys f s).0
  unfolding edit
  edit-Keeps f s n p = edit_at-Keeps f s _ _ n p

  pub stop-Keeps :
      (f : Form) (s : Server)
      → KeyedAt (get_int_no_err f (codes "id")) s
      → get_int_no_err f (codes "id") ≢ k
      → Keeps k t s
      → Keeps k t (stop_tunnel sys f s).0
        × Keeps k t (del_tunnel sys f s).0
        × Keeps k t (start_tunnel sys f s).0
  unfolding stop_tunnel del_tunnel start_tunnel
  stop-Keeps f s d n p =
      let id = get_int_no_err f (codes "id") in
      (
        Keeps-reply_of k t (stop_server sys s id)
            (Keeps-Touches k id t s (stop_server sys s id).0 n (stop_server-Touches sys s id d) p),
        Keeps-reply_of k t (delete_task sys s id)
            (Keeps-Touches k id t s (delete_task sys s id).0 n (delete_task-Touches sys s id d) p),
        Keeps-reply_of k t (start_task sys s id)
            (Keeps-Touches k id t s (start_task sys s id).0 n (start_task-Touches sys s id d) p),
      )
