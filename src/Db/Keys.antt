-- ===== src/Db/Keys.antt =====
-- `NewClient` of lib/file/db.go keeps the client table well formed: every entry stands under its
-- own id, ids come from the counter, and no two clients share a verify key.
use next_nps.Base.{
  ◌==◌, Bool-cases, Bytes, bytes_beq_iff, Store, load, store, any_value-false, load-store_cases,
  ◌≡◌, refl, sym, ap, ◌∙◌, subst, ◌⊎◌, inl, inr, true, not, ◌&&◌, Option, none, some, List, [], ◌∷◌,
  arith, nat_eq, bytes_eq,
}
use next_nps.Base.Int.{ℤ, pos, pos_part, neg_part, ◌+ℤ◌, ◌≤ℤ◌, ◌<ℤ◌, ℤ_beq, ℤ_beq_iff, int32, ℤ_eq}
use next_nps.File.{Client}
use next_nps.Db.{
  Db, DbError, verify_vkey, set_rate, draw_key, choose_key, assign_id, save_client, finish_client,
  new_client_entry, get_client_id, or_new_flow, verify_user_name,
}

pub record TableInv (m : Store ℤ Client) (counter : ℤ) : Type 0 where
  pub keyed : (k : ℤ) (c : Client) → load k m ≡ some c → c.id ≡ k
  pub drawn : (k : ℤ) (c : Client) → load k m ≡ some c → (pos 0 <ℤ k) × (k ≤ℤ counter)
  pub unique :
      (j k : ℤ) (c d : Client)
      → load j m ≡ some c
      → load k m ≡ some d
      → c.verify_key ≡ d.verify_key
      → j ≡ k

abbrev pub ClientsInv : Db → Type 0
ClientsInv s = TableInv s.clients s.client_increase_id

-- The id is still to be drawn, or was drawn before.
abbrev pub IdFits : Db → ℤ → Type 0
IdFits s id = (id ≡ pos 0) ⊎ ((pos 0 <ℤ id) × (id ≤ℤ s.client_increase_id))

-- The counter may go up by one.
abbrev pub CounterFits : Db → Type 0
CounterFits s = (pos 0 ≤ℤ s.client_increase_id) × (s.client_increase_id <ℤ pos 2147483647)

pub verify_vkey_sound :
    (s : Db) (vkey : Bytes) (id k : ℤ) (d : Client)
    → verify_vkey s vkey id ≡ true
    → load k s.clients ≡ some d
    → d.verify_key ≡ vkey
    → d.id ≡ id
unfolding verify_vkey
verify_vkey_sound s vkey id k d h l e = ground (
  arith,
  any_value-false (λ (v : Client). v.verify_key == vkey && not (v.id == id)) k s.clients d,
  bytes_beq_iff d.verify_key vkey,
  ℤ_beq_iff d.id id,
)

pub set_rate_keeps :
    (c : Client) → ((set_rate c).verify_key ≡ c.verify_key) × ((set_rate c).id ≡ c.id)
unfolding set_rate
set_rate_keeps c = ground arith

abbrev Checked : Db → ℤ → Client × Option DbError → Type 0
Checked s id (c, some e) = Unit {0}
Checked s id (c, none) = (verify_vkey s c.verify_key c.id ≡ true) × (c.id ≡ id)

draw_key-Checked :
    (s : Db) (c : Client) (id : ℤ) (draws : List Bytes)
    → c.id ≡ id
    → Checked s id (draw_key s c draws)
unfolding draw_key
draw_key-Checked s c id [] e = tt
draw_key-Checked s c id (k ∷ ks) e =
    let c' = set_rate (record c { verify_key = k }) in
    let (kept, same) = set_rate_keeps (record c { verify_key = k }) in
    elim (Bool-cases (verify_vkey s k c'.id)) [
      | inl t ↦ rw t (subst (λ vk. verify_vkey s vk c'.id ≡ true) (sym kept) t, same ∙ e)
      | inr f ↦ rw f (draw_key-Checked s c' id ks (same ∙ e))
    ]

choose_key-Checked :
    (s : Db) (c : Client) (draws : List Bytes) → Checked s c.id (choose_key s c draws)
unfolding choose_key
choose_key-Checked s c draws = elim (Bool-cases (c.verify_key == [])) [
  | inl t ↦ rw t (draw_key-Checked s c c.id draws refl)
  | inr f ↦ elim (Bool-cases (verify_vkey s (set_rate c).verify_key (set_rate c).id)) [
    | inl t ↦ rw (f, t) (t, (set_rate_keeps c).1)
    | inr g ↦ rw (f, g) tt
  ]
]

-- The id under which a client is stored.
abbrev stored_id : Db → Client → ℤ
stored_id s c = (assign_id s c).1.id

assign_id-Fits :
    (s : Db) (c : Client)
    → CounterFits s
    → IdFits s c.id
    → (pos 0 <ℤ stored_id s c)
      × (stored_id s c ≤ℤ (assign_id s c).0.client_increase_id)
      × (s.client_increase_id ≤ℤ (assign_id s c).0.client_increase_id)
      × ((assign_id s c).0.clients ≡ s.clients)
      × ((assign_id s c).1.verify_key ≡ c.verify_key)
unfolding assign_id get_client_id int32 ◌+ℤ◌ ℤ_beq
assign_id-Fits s c r f = elim (Bool-cases (c.id == pos 0)) [
  | inl t ↦ ground arith
  | inr t ↦ ground arith
]

-- An entry whose key no other entry has may be stored.
abbrev IsFresh : Store ℤ Client → Client → Type 0
IsFresh m x = (k : ℤ) (d : Client) → load k m ≡ some d → d.verify_key ≡ x.verify_key → k ≡ x.id

store-keyed :
    (m : Store ℤ Client) (n : ℤ) (x : Client)
    → TableInv m n
    → (k : ℤ) (c : Client) → load k (store x.id x m) ≡ some c
    → c.id ≡ k
store-keyed m n x v k c h = elim (load-store_cases x.id k x c m h) [
  | inl (e, f) ↦ sym (ap (λ (y : Client). y.id) f) ∙ e
  | inr (_, l) ↦ v.keyed k c l
]

store_unique :
    (m : Store ℤ Client) (n : ℤ) (x : Client)
    → TableInv m n
    → IsFresh m x
    → (j k : ℤ) (c d : Client) → load j (store x.id x m) ≡ some c
    → load k (store x.id x m) ≡ some d
    → c.verify_key ≡ d.verify_key
    → j ≡ k
store_unique m n x v f j k c d h l e = elim (load-store_cases x.id j x c m h) [
  | inl (a, b) ↦ elim (load-store_cases x.id k x d m l) [
    | inl (a', _) ↦ sym a ∙ a'
    | inr (_, l') ↦ sym (f k d l' (sym e ∙ sym (ap (λ (y : Client). y.verify_key) b)) ∙ a)
  ]
  | inr (_, h') ↦ elim (load-store_cases x.id k x d m l) [
    | inl (a', b') ↦ f j c h' (e ∙ sym (ap (λ (y : Client). y.verify_key) b')) ∙ a'
    | inr (_, l') ↦ v.unique j k c d h' l' e
  ]
]

store-TableInv :
    (m : Store ℤ Client) (n n' : ℤ) (x : Client)
    → TableInv m n
    → pos 0 <ℤ x.id
    → x.id ≤ℤ n'
    → n ≤ℤ n'
    → IsFresh m x
    → TableInv (store x.id x m) n'
store-TableInv m n n' x v p q r f = record {
  keyed = store-keyed m n x v;
  drawn = λ k c h. elim (load-store_cases x.id k x c m h) [
    | inl (e, _) ↦ (subst (λ y. pos 0 <ℤ y) e p, subst (λ y. y ≤ℤ n') e q)
    | inr (_, l) ↦ let (a, b) = v.drawn k c l in (a, omega arith)
  ];
  unique = store_unique m n x v f;
}

stored_id_set : (s : Db) (c : Client) → pos 0 <ℤ c.id → stored_id s c ≡ c.id
unfolding assign_id
stored_id_set s c h = ground (arith, ℤ_beq_iff c.id (pos 0))

checked-IsFresh :
    (s : Db) (c : Client)
    → IdFits s c.id
    → verify_vkey s c.verify_key c.id ≡ true
    → ClientsInv s
    → (k : ℤ) (d : Client) → load k s.clients ≡ some d
    → d.verify_key ≡ c.verify_key
    → k ≡ stored_id s c
checked-IsFresh s c f t v k d l e =
    let same = sym (v.keyed k d l) ∙ verify_vkey_sound s c.verify_key c.id k d t l e in
    elim f [
      | inl z ↦
          absurd (omega (arith, (v.drawn k d l).0, ap pos_part (same ∙ z), ap neg_part (same ∙ z)))
      | inr (p, _) ↦ same ∙ sym (stored_id_set s c p)
    ]

save_client-ClientsInv :
    (s : Db) (c : Client)
    → CounterFits s
    → IdFits s c.id
    → verify_vkey s c.verify_key c.id ≡ true
    → ClientsInv s
    → ClientsInv (save_client s c).0
unfolding save_client
save_client-ClientsInv s c r f t v =
    let (p, q, up, same, key) = assign_id-Fits s c r f in
    let x : Client = record (assign_id s c).1 { flow = or_new_flow (assign_id s c).1.flow } in
    subst (λ m. TableInv (store x.id x m) (assign_id s c).0.client_increase_id) (sym same)
      (store-TableInv s.clients s.client_increase_id _ x v p q up
        (λ k d l e. checked-IsFresh s c f t v k d l (e ∙ key)))

finish_client-ClientsInv :
    (s : Db) (id : ℤ) (r : Client × Option DbError)
    → CounterFits s
    → IdFits s id
    → Checked s id r
    → ClientsInv s
    → ClientsInv (finish_client s r).0
unfolding finish_client
finish_client-ClientsInv s id (c, some e) b f k v = v
finish_client-ClientsInv s id (c, none) b f k v = save_client-ClientsInv s c b (rw k.1 f) k.0 v

-- Adding a client keeps the table well formed whatever the outcome: entries stand under their own
-- positive id, at most the counter, and no two share a verify key. The counter must not be at its
-- last value, and the new client's id is zero or was drawn before.
pub new_client_entry-ClientsInv :
    (s : Db) (c : Client) (draws : List Bytes)
    → CounterFits s
    → IdFits s c.id
    → ClientsInv s
    → ClientsInv (new_client_entry s c draws).0
unfolding new_client_entry
new_client_entry-ClientsInv s c draws b f v =
    elim (Bool-cases
      (not (c.web_user_name == []) && not (verify_user_name s c.web_user_name c.id))) [
        | inl t ↦ rw t v
        | inr t ↦ rw t (finish_client-ClientsInv s c.id _ b f (choose_key-Checked s c draws) v)
      ]
