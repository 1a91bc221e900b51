-- ===== src/Db/Secrets.antt =====
-- `NewTask` of lib/file/db.go keeps the passwords of secret and p2p tunnels apart, so that the hash
-- of a password finds one tunnel.
use next_nps.Base.{
  ◌==◌, Bool-cases, Bytes, bytes_beq_iff, Store, load, store, load-store, any_value-false,
  load-store_cases, load-delete_cases, ◌≡◌, refl, sym, ap, ◌∙◌, ◌≢◌, ◌⊎◌, inl, inr, true, false,
  ◌&&◌, none, some, arith, nat_eq, bytes_eq,
}
use next_nps.Base.Int.{ℤ, ℤ_beq_iff, ℤ_eq}
use next_nps.File.{Tunnel, new_flow}
use next_nps.Db.{Db, secret_not_unique, is_secret_mode, has_secret, new_task, del_task, get_task}

pub record TasksInv (s : Db) : Type 0 where
  pub keyed : (k : ℤ) (t : Tunnel) → load k s.tasks ≡ some t → t.id ≡ k
  pub unique :
      (j k : ℤ) (t u : Tunnel)
      → load j s.tasks ≡ some t
      → load k s.tasks ≡ some u
      → is_secret_mode t.mode ≡ true
      → is_secret_mode u.mode ≡ true
      → t.password ≡ u.password
      → j ≡ k

has_secret_sound :
    (p : Bytes) (m : Store ℤ Tunnel) (k : ℤ) (u : Tunnel)
    → has_secret p m ≡ false
    → load k m ≡ some u
    → is_secret_mode u.mode ≡ true
    → u.password ≢ p
unfolding has_secret
has_secret_sound p m k u h l i e = ground (
  arith,
  any_value-false (λ (v : Tunnel). is_secret_mode v.mode && v.password == p) k m u,
  bytes_beq_iff u.password p,
)

store_unique :
    (s : Db) (x : Tunnel)
    → TasksInv s
    → has_secret x.password s.tasks ≡ false
    → (j k : ℤ) (t u : Tunnel) → load j (store x.id x s.tasks) ≡ some t
    → load k (store x.id x s.tasks) ≡ some u
    → is_secret_mode t.mode ≡ true
    → is_secret_mode u.mode ≡ true
    → t.password ≡ u.password
    → j ≡ k
store_unique s x v f j k t u h l a b e = elim (load-store_cases x.id j x t s.tasks h) [
  | inl (p, q) ↦ elim (load-store_cases x.id k x u s.tasks l) [
    | inl (p', _) ↦ sym p ∙ p'
    | inr (_, l') ↦ absurd (
        has_secret_sound x.password s.tasks k u f l' b
          (sym e ∙ sym (ap (λ (y : Tunnel). y.password) q)))
  ]
  | inr (_, h') ↦ elim (load-store_cases x.id k x u s.tasks l) [
    | inl (_, q') ↦ absurd (
        has_secret_sound x.password s.tasks j t f h' a
          (e ∙ sym (ap (λ (y : Tunnel). y.password) q')))
    | inr (_, l') ↦ v.unique j k t u h' l' a b e
  ]
]

-- Adding a tunnel, refused or not, to a table with every tunnel under its own id and at most one
-- secret or p2p tunnel for each password gives such a table again.
pub new_task-TasksInv : (s : Db) (t : Tunnel) → TasksInv s → TasksInv (new_task s t).0
unfolding new_task
new_task-TasksInv s t v = elim (Bool-cases (has_secret t.password s.tasks)) [
  | inl h ↦ rw h v
  | inr h ↦ rw h (record {
    keyed = λ k u l. elim (load-store_cases t.id k (record t { flow = new_flow }) u s.tasks l) [
      | inl (e, f) ↦ sym (ap (λ (y : Tunnel). y.id) f) ∙ e
      | inr (_, l') ↦ v.keyed k u l'
    ];
    unique = store_unique s (record t { flow = new_flow }) v h;
  })
]

-- A tunnel is refused exactly when a secret or p2p tunnel of the table has its password, whatever
-- the mode of the new one; a refusal changes nothing, and otherwise the tunnel is stored with a
-- flow at zero while every other entry stays.
pub new_task_cases :
    (s : Db) (t : Tunnel)
    → ((new_task s t ≡ (s, some secret_not_unique)) × (has_secret t.password s.tasks ≡ true))
      ⊎ (((new_task s t).1 ≡ none)
          × (get_task (new_task s t).0 t.id ≡ some (record t { flow = new_flow }))
          × ((k : ℤ) → t.id ≢ k → get_task (new_task s t).0 k ≡ get_task s k)
          × ((k : ℤ) (u : Tunnel)
              → get_task s k ≡ some u
              → is_secret_mode u.mode ≡ true
              → u.password ≢ t.password))
unfolding new_task get_task
new_task_cases s t = elim (Bool-cases (has_secret t.password s.tasks)) [
  | inl h ↦ inl (rw h refl, h)
  | inr h ↦ rw h (
      inr (
        refl,
        ground (
          arith,
          load-store t.id t.id (record t { flow = new_flow }) s.tasks,
          ℤ_beq_iff t.id t.id,
        ),
        (λ k ne.
            ground
              (arith, load-store t.id k (record t { flow = new_flow }) s.tasks, ℤ_beq_iff t.id k)),
        (λ k u l i. has_secret_sound t.password s.tasks k u h l i),
      ))
]

-- The deletion of a tunnel from a table of that kind gives one again.
pub del_task-TasksInv : (s : Db) (id : ℤ) → TasksInv s → TasksInv (del_task s id)
unfolding del_task
del_task-TasksInv s id v = record {
  keyed = λ k u l. v.keyed k u (load-delete_cases id k u s.tasks l).1;
  unique = λ j k t u h l.
      v.unique j k t u (load-delete_cases id j t s.tasks h).1
        (load-delete_cases id k u s.tasks l).1;
}
