-- ===== src/Server/Owners.antt =====
-- `DelTunnelAndHostByClientId` of server/server.go: whose tunnels and hosts go.
use next_nps.Base.Int.{ℤ, ℤ_beq_iff, ℤ_eq}
use next_nps.Base.{
  if◌then◌else◌, ◌==◌, Bool-cases, Bytes, Store, load, load-delete, filter_values, IsMap, ◌≡◌, refl,
  sym, ap, ◌∙◌, ◌≢◌, inl, inr, Bool, true, false, not, ◌&&◌, ◌||◌, none, some, List, [], ◌∷◌, map,
  arith, nat_eq, bytes_eq,
}
use next_nps.File.{Tunnel, Host}
use next_nps.Db.{Db, del_host}
use next_nps.Server.{
  Server, System, delete_task, delete_tasks, delete_hosts, task_ids, host_ids, owns_task, owns_host,
  del_tunnel_and_host_by_client_id,
}
use next_nps.Server.Tasks.{Keyed, delete_task_lem}
use next_nps.Server.Reach.{delete_task-Touches}

abbrev listed : ℤ → List ℤ → Bool
listed k [] = false
listed k (i ∷ ids) = i == k || listed k ids

Keyed-delete_task :
    (sys : System) (s : Server) (id : ℤ)
    → Keyed s
    → ((b : Bytes) → sys.closes b ≡ true)
    → Keyed (delete_task sys s id).0
Keyed-delete_task sys s id kd cl k t l =
    let e = (delete_task_lem sys s id kd cl).1 k in kd k t (ground (arith, sym e ∙ l))

load-delete_tasks :
    (sys : System) (s : Server) (ids : List ℤ) (k : ℤ)
    → Keyed s
    → ((b : Bytes) → sys.closes b ≡ true)
    → (load k (delete_tasks sys s ids).db.tasks
        ≡ (if listed k ids then none else load k s.db.tasks))
      × ((delete_tasks sys s ids).db.hosts ≡ s.db.hosts)
unfolding delete_tasks
load-delete_tasks sys s [] k kd cl = (refl, refl)
load-delete_tasks sys s (i ∷ ids) k kd cl =
    let (h, t, r) = delete_task_lem sys s i kd cl in
    let (a, b) =
      load-delete_tasks sys (delete_task sys s i).0 ids k (Keyed-delete_task sys s i kd cl) cl in
    (a ∙ ground (arith, t k), b ∙ h)

load-delete_hosts :
    (db : Db) (ids : List ℤ) (k : ℤ)
    → load k (delete_hosts db ids).hosts ≡ (if listed k ids then none else load k db.hosts)
unfolding delete_hosts del_host
load-delete_hosts db [] k = refl
load-delete_hosts db (i ∷ ids) k =
    load-delete_hosts (del_host db i) ids k ∙ ground (arith, load-delete i k db.hosts)

module _ {A : Type 0} (id_of : A → ℤ) (p : A → Bool) where
  abbrev ids_of : Store ℤ A → List ℤ
  ids_of m = map id_of (filter_values p m)

  abbrev Ids : Store ℤ A → Type 0
  Ids m = (k : ℤ) (t : A) → load k m ≡ some t → id_of t ≡ k

  tail-Ids : (j : ℤ) (w : A) (m : Store ℤ A) → IsMap ((j, w) ∷ m) → Ids ((j, w) ∷ m) → Ids m
  unfolding load
  tail-Ids j w m d h k t l = elim (Bool-cases (j == k)) [
    | inl e ↦ absurd (differ ((ℤ_beq_iff j k).0 e))
    | inr n ↦ h k t (rw n l)
  ]
    where
      differ : j ≡ k → ⊥
      differ e = let no = rw e at d.0 in ground (arith, no, l)

  listed-ids_of-none :
      (m : Store ℤ A) (k : ℤ) → IsMap m → Ids m → load k m ≡ none → listed k (ids_of m) ≡ false
  unfolding load filter_values
  listed-ids_of-none [] k d h l = refl
  listed-ids_of-none ((j, w) ∷ m) k d h l =
      let rest = listed-ids_of-none m k d.1 (tail-Ids j w m d h) in
      let here : id_of w ≡ j = h j w (ground (arith, ℤ_beq_iff j j)) in
      elim (Bool-cases (p w)) [
        | inl t ↦ rw (t, here) (ground (arith, rest))
        | inr f ↦ rw f (ground (arith, rest))
      ]

  listed-ids_of :
      (m : Store ℤ A) (k : ℤ) (t : A)
      → IsMap m
      → Ids m
      → load k m ≡ some t
      → listed k (ids_of m) ≡ p t
  unfolding load filter_values
  listed-ids_of [] k t d h l = absurd (ground arith)
  listed-ids_of ((j, w) ∷ m) k t d h l =
      let rest = listed-ids_of m k t d.1 (tail-Ids j w m d h) in
      let here : id_of w ≡ j = h j w (ground (arith, ℤ_beq_iff j j)) in
      elim (Bool-cases (j == k)) [
        | inl e ↦
            let same : j ≡ k = (ℤ_beq_iff j k).0 e in
            let it : w ≡ t = ground arith in
            let gone = listed-ids_of-none m k d.1 (tail-Ids j w m d h) (rw same at d.0) in
            elim (Bool-cases (p w)) [
              | inl t' ↦ rw (t', here, e, ← it) (sym t')
              | inr f ↦ rw (f, ← it) (gone ∙ sym f)
            ]
        | inr n ↦ elim (Bool-cases (p w)) [
          | inl t' ↦ rw (t', here, n) (rest (rw n at l))
          | inr f ↦ rw f (rest (rw n at l))
        ]
      ]

delete_hosts_tasks : (db : Db) (ids : List ℤ) → (delete_hosts db ids).tasks ≡ db.tasks
unfolding delete_hosts del_host
delete_hosts_tasks db [] = refl
delete_hosts_tasks db (i ∷ ids) = delete_hosts_tasks (del_host db i) ids

-- Where tables keep their entries once and under their own ids, and every service closes without an error:
-- the tunnels and hosts of the client go, with `just` only those that are not to be stored, and all
-- others stay as they are.
pub del_tunnel_and_host_lem :
    (sys : System) (s : Server) (client_id : ℤ) (just : Bool)
    → IsMap s.db.tasks
    → IsMap s.db.hosts
    → Keyed s
    → ((k : ℤ) (h : Host) → load k s.db.hosts ≡ some h → h.id ≡ k)
    → ((b : Bytes) → sys.closes b ≡ true)
    → let s' = del_tunnel_and_host_by_client_id sys s client_id just in
      ((k : ℤ) (t : Tunnel)
        → load k s.db.tasks ≡ some t
        → load k s'.db.tasks
          ≡ (if t.client == client_id && (not just || t.no_store) then none else some t))
      × ((k : ℤ) (h : Host)
          → load k s.db.hosts ≡ some h
          → load k s'.db.hosts
            ≡ (if h.client == client_id && (not just || h.no_store) then none else some h))
unfolding del_tunnel_and_host_by_client_id task_ids host_ids
del_tunnel_and_host_lem sys s client_id just dt dh kd hk cl =
    let ids = task_ids (owns_task client_id just) s.db.tasks in
    (
      (λ k t l.
          ap (load k) (delete_hosts_tasks (delete_tasks sys s ids).db _)
          ∙ (load-delete_tasks sys s ids k kd cl).0
          ∙ rw
              (
                task_ids,
                listed-ids_of (λ (t : Tunnel). t.id) (owns_task client_id just) s.db.tasks k t dt kd
                    l,
                l,
              )
              (ground arith)),
      (λ k h l.
          load-delete_hosts (delete_tasks sys s ids).db _ k
          ∙ rw
              (
                (load-delete_tasks sys s ids k kd cl).1,
                host_ids,
                listed-ids_of (λ (t : Host). t.id) (owns_host client_id just) s.db.hosts k h dh hk
                    l,
                l,
              )
              (ground arith)),
    )

-- A deletion of tunnels leaves the entries of other ids, whether services close or not.
delete_tasks_keep :
    (sys : System) (s : Server) (ids : List ℤ) (k : ℤ)
    → Keyed s
    → listed k ids ≡ false
    → load k (delete_tasks sys s ids).db.tasks ≡ load k s.db.tasks
unfolding delete_tasks
delete_tasks_keep sys s [] k kd l = refl
delete_tasks_keep sys s (i ∷ ids) k kd l =
    let (f, p) = delete_task-Touches sys s i (kd i) in
    let kd' : Keyed (delete_task sys s i).0 = λ j t e. elim (Bool-cases (i == j)) [
      | inl q ↦
          let same : i ≡ j = (ℤ_beq_iff i j).0 q in
          p t (ap (λ x. load x (delete_task sys s i).0.db.tasks) same ∙ e) ∙ same
      | inr n ↦ kd j t (sym (f j (λ q. ground (arith, ℤ_beq_iff i j, q, n))) ∙ e)
    ] in
    delete_tasks_keep sys (delete_task sys s i).0 ids k kd' (ground arith)
    ∙ f k (λ q. ground (arith, ℤ_beq_iff i k, q, l))

-- A tunnel of another client stays.
pub del_tunnel_and_host_other :
    (sys : System) (s : Server) (client_id : ℤ) (just : Bool) (k : ℤ) (t : Tunnel)
    → IsMap s.db.tasks
    → Keyed s
    → load k s.db.tasks ≡ some t
    → t.client ≢ client_id
    → load k (del_tunnel_and_host_by_client_id sys s client_id just).db.tasks ≡ some t
unfolding del_tunnel_and_host_by_client_id task_ids
del_tunnel_and_host_other sys s client_id just k t d kd l n =
    let p = owns_task client_id just in
    let ids = task_ids p s.db.tasks in
    let no : listed k ids ≡ false =
      listed-ids_of (λ (t : Tunnel). t.id) p s.db.tasks k t d kd l
      ∙ ground (arith, ℤ_beq_iff t.client client_id) in
    ap (load k) (delete_hosts_tasks (delete_tasks sys s ids).db _)
    ∙ delete_tasks_keep sys s ids k kd no
    ∙ l
