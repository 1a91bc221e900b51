-- ===== src/Web/Tunnels/Limits.antt =====
-- web/controllers/index.go: the limit of tunnels of a client, which `Add` looks at.
use next_nps.File.{Client, Tunnel}
use next_nps.Db.{
  Db, DbError, get_task_id, get_client, get_tunnel_num, has_secret, new_task,
  store_tasks_to_json_file,
}
use next_nps.Server.{Server, System, add_task}
use next_nps.Server.Reach.{add_task_db}
use next_nps.Web.Forms.{Form, get_int_no_err}
use next_nps.Web.Tunnels.{Answer, reply_of, after_new_task, add_limited, add_for, add}
use next_nps.Base.{
  ◌==◌, if_both, if_split, length, codes, Store, store, filter_values, ℕ, suc, ◌≤◌, ◌<◌, ◌≡◌, refl,
  sym, ◌∙◌, subst, Bool, false, not, ◌&&◌, Option, none, some, [], ◌∷◌, arith, nat_eq, bytes_eq,
}
use next_nps.Base.Int.{ℤ, pos, leb_ℤ, ℤ_beq, ℤ_eq}

-- A write adds one entry at most to those that pass a test.
length-filter_values-store :
    (p : Tunnel → Bool) (k : ℤ) (v : Tunnel) (m : Store ℤ Tunnel)
    → length (filter_values p (store k v m)) ≤ suc (length (filter_values p m))
unfolding filter_values store
length-filter_values-store p k v [] = ground arith
length-filter_values-store p k v ((j, w) ∷ m) =
    let ih = length-filter_values-store p k v m in
    let P : Store ℤ Tunnel → Type 0 =
      λ x. length (filter_values p x) ≤ suc (length (filter_values p ((j, w) ∷ m))) in
    if_both P (j == k) _ _ (ground arith) (ground (arith, ih))

reply_of_db : {E : Type 0} (r : Server × Option E) → (reply_of r).0.db ≡ r.0.db
unfolding reply_of
reply_of_db (s, none) = refl
reply_of_db (s, some e) = refl

below_limit :
    (x : ℤ) (n i : ℕ) → x ≡ pos n → 0 < n → (not (x == pos 0) && leb_ℤ x (pos i)) ≡ false → i < n
unfolding ℤ_beq
below_limit x n i e z h =
    let g : (not (pos n == pos 0) && leb_ℤ (pos n) (pos i)) ≡ false =
      subst (λ y. (not (y == pos 0) && leb_ℤ y (pos i)) ≡ false) e h in
    ground (arith, g)

module _ (sys : System) (c : Client) (n : ℕ) where
  -- The number of tunnels of the client is within its limit.
  abbrev Within : Server → Type 0
  Within s = get_tunnel_num s.db c ≤ n

  new_task_num :
      (db : Db) (t : Tunnel) → get_tunnel_num (new_task db t).0 c ≤ suc (get_tunnel_num db c)
  unfolding new_task store_tasks_to_json_file get_tunnel_num
  new_task_num db t =
      if_both
        (λ (r : Db × Option DbError).
          length (filter_values (λ (v : Tunnel). v.client == c.id) r.0.tasks)
          ≤ suc (length (filter_values (λ (v : Tunnel). v.client == c.id) db.tasks)))
        (has_secret t.password db.tasks) _ _ (omega arith)
        (length-filter_values-store (λ (v : Tunnel). v.client == c.id) t.id _ db.tasks)

  after_new_task-Within :
      (s : Server) (t : Tunnel) (r : Db × Option DbError)
      → get_tunnel_num r.0 c ≤ n
      → Within (after_new_task sys s t r).0
  unfolding after_new_task
  after_new_task-Within s t (db, some e) h = h
  after_new_task-Within s t (db, none) h =
      let s' = record s { db = db } in
      let r = add_task sys s' t in
      subst (λ (d : Db). get_tunnel_num d c ≤ n) (sym (reply_of_db r ∙ add_task_db sys s' t)) h

  add_limited-Within :
      (s : Server) (t : Tunnel)
      → c.max_tunnel_num ≡ pos n
      → 0 < n
      → Within s
      → Within (add_limited sys s c t).0
  unfolding add_limited
  add_limited-Within s t m z h =
      if_split (λ (r : Answer). Within r.0)
        (not (c.max_tunnel_num == pos 0) && leb_ℤ c.max_tunnel_num (pos (get_tunnel_num s.db c))) _
        _ (λ e. h)
        (λ e.
          let room : get_tunnel_num s.db c < n = below_limit c.max_tunnel_num n _ m z e in
          after_new_task-Within s t (new_task s.db t) (omega (arith, new_task_num s.db t)))

  add_for-Within :
      (s : Server) (t : Tunnel) (o : Option Client)
      → o ≡ some c
      → c.max_tunnel_num ≡ pos n
      → 0 < n
      → Within s
      → Within (add_for sys s t o).0
  unfolding add_for
  add_for-Within s t none e m z h = h
  add_for-Within s t (some c') e m z h =
      let e' : c' ≡ c = cc in
      subst (λ (x : Client). Within (add_limited sys s x (record t { client = x.id })).0) (sym e')
        (add_limited-Within s (record t { client = c.id }) m z h)

  -- The client of the form, with a limit: its tunnels are within the limit after `Add`, whatever the
  -- answer, if they were before.
  pub add-Within :
      (f : Form) (s : Server)
      → get_client s.db (get_int_no_err f (codes "client_id")) ≡ some c
      → c.max_tunnel_num ≡ pos n
      → 0 < n
      → get_tunnel_num s.db c ≤ n
      → get_tunnel_num (add sys f s).0.db c ≤ n
  unfolding add get_task_id get_client get_tunnel_num
  add-Within f s g m z h =
      if_both (λ (r : Answer). Within r.0) _ _ _ h (add_for-Within _ _ _ g m z h)
