-- ===== src/Db/Draws.antt =====
-- The goto loop of `NewClient`: a client without a verify key gets the first draw that no other
-- client has, and is stored under its id.
use next_nps.Base.{
  ◌==◌, if_both, All, Bytes, bytes_beq, Store, load, store, load-store, ◌≡◌, refl, sym, ◌∙◌, subst,
  true, false, not, ◌&&◌, Option, none, some, List, [], ◌∷◌, ◌++◌, arith, nat_eq, bytes_eq,
}
use next_nps.Base.Int.{ℤ, pos, ℤ_beq_iff, ℤ_eq}
use next_nps.File.{Client}
use next_nps.Db.{
  Db, DbError, get_client_id, store_clients_to_json_file, verify_user_name, verify_vkey, set_rate,
  draw_key, choose_key, assign_id, save_client, finish_client, new_client_entry,
}
use next_nps.Db.Keys.{set_rate_keeps}

draw_key_first :
    (s : Db) (c : Client) (id : ℤ) (taken : List Bytes) (k : Bytes) (rest : List Bytes)
    → c.id ≡ id
    → All (λ t. verify_vkey s t id ≡ false) taken
    → verify_vkey s k id ≡ true
    → (r : Client) × (draw_key s c (taken ++ k ∷ rest) ≡ (r, none))
      × (r.verify_key ≡ k)
      × (r.id ≡ id)
unfolding draw_key
draw_key_first s c id [] k rest e a h =
    let c' = set_rate (record c { verify_key = k }) in
    let (kept, same) = set_rate_keeps (record c { verify_key = k }) in
    let h' : verify_vkey s k c'.id ≡ true =
      subst (λ i. verify_vkey s k i ≡ true) (sym (same ∙ e)) h in
    (c', rw h', kept, same ∙ e)
draw_key_first s c id (t ∷ ts) k rest e a h =
    let c' = set_rate (record c { verify_key = t }) in
    let (kept, same) = set_rate_keeps (record c { verify_key = t }) in
    let g : verify_vkey s t c'.id ≡ false =
      subst (λ i. verify_vkey s t i ≡ false) (sym (same ∙ e)) a.0 in
    let (r, d, p, q) = draw_key_first s c' id ts k rest (same ∙ e) a.1 h in (r, rw g d, p, q)

load-store_self : (k : ℤ) (x : Client) (m : Store ℤ Client) → load k (store k x m) ≡ some x
load-store_self k x m = ground (arith, load-store k k x m, ℤ_beq_iff k k)

assign_id_key : (s : Db) (c : Client) → (assign_id s c).1.verify_key ≡ c.verify_key
unfolding assign_id
assign_id_key s c = ground arith

save_client_stored :
    (s : Db) (c : Client)
    → (load (save_client s c).1.id (save_client s c).0.clients ≡ some (save_client s c).1)
      × ((save_client s c).1.verify_key ≡ c.verify_key)
unfolding save_client
save_client_stored s c = (load-store_self _ _ _, assign_id_key s c)

-- A client with no key and no name for the web login, while `taken` are draws that other clients hold and `k` is
-- the first that none holds: the call succeeds with key `k`, and the client is in the table under
-- the id that it returns.
pub new_client_entry_draws :
    (s : Db) (c : Client) (taken : List Bytes) (k : Bytes) (rest : List Bytes)
    → c.verify_key ≡ []
    → c.web_user_name ≡ []
    → All (λ t. verify_vkey s t c.id ≡ false) taken
    → verify_vkey s k c.id ≡ true
    → let r = new_client_entry s c (taken ++ k ∷ rest) in
      (r.2 ≡ none) × (r.1.verify_key ≡ k) × (load r.1.id r.0.clients ≡ some r.1)
unfolding new_client_entry choose_key finish_client bytes_beq
new_client_entry_draws s c taken k rest nokey noname a h =
    let (r, d, p, q) = draw_key_first s c c.id taken k rest refl a h in
    let (l, e) = save_client_stored s r in simp (nokey, noname, d) (refl, e ∙ p, l)

assign_id_tasks : (s : Db) (c : Client) → (assign_id s c).0.tasks ≡ s.tasks
unfolding assign_id get_client_id
assign_id_tasks s c =
    if_both (λ (r : Db × Client). r.0.tasks ≡ s.tasks) (c.id == pos 0) _ _ refl refl

finish_client_tasks : (s : Db) (r : Client × Option DbError) → (finish_client s r).0.tasks ≡ s.tasks
unfolding finish_client save_client store_clients_to_json_file
finish_client_tasks s (c, some e) = refl
finish_client_tasks s (c, none) = assign_id_tasks s c

-- The tunnels are not changed.
pub new_client_entry_tasks :
    (s : Db) (c : Client) (draws : List Bytes) → (new_client_entry s c draws).0.tasks ≡ s.tasks
unfolding new_client_entry
new_client_entry_tasks s c draws =
    if_both (λ (r : Db × Client × Option DbError). r.0.tasks ≡ s.tasks)
      (not (c.web_user_name == []) && not (verify_user_name s c.web_user_name c.id)) _ _ refl
      (finish_client_tasks s (choose_key s c draws))
