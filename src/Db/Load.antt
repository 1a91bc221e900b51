-- ===== src/Db/Load.antt =====
-- The loads of lib/file/file.go at the start of the server: a table from the records of its file.
use next_nps.Base.{
  if◌then◌else◌, All, load, store, load-store_cases, ◌≤◌, ◌<◌, ◌≡◌, refl, subst, inl, inr, Option,
  none, some, List, [], ◌∷◌, arith, nat_eq, bytes_eq,
}
use next_nps.Base.Int.{ℤ, pos, pos_part, neg_part, ◌≤ℤ◌, ltb_ℤ, int32, int32_id, ℤ_eq}
use next_nps.File.{Client, Tunnel, Host}
use next_nps.Db.{Db, default_rate, kilobytes, get_client}

-- `post.Id > int(increaseId)`.
abbrev raise : ℤ → ℤ → ℤ
raise id n = if ltb_ℤ n id then int32 id else n

-- A stored client gets a limiter and starts with no connection.
unfoldable pub wake_client : Client → Client
wake_client c = record c {
  rate = some (if ltb_ℤ (pos 0) c.rate_limit then kilobytes c.rate_limit else default_rate);
  now_conn = pos 0;
}

pub load_clients : List Client → Db → Db
unfolding wake_client
load_clients [] s = s
load_clients (c ∷ cs) s = load_clients cs (record s {
  clients = store c.id (wake_client c) s.clients;
  client_increase_id = raise c.id s.client_increase_id;
})

-- A tunnel or host whose client is gone is left out.
load_task : Tunnel → Option Client → Db → Db
load_task t none s = s
load_task t (some c) s = record s {
  tasks = store t.id t s.tasks;
  task_increase_id = raise t.id s.task_increase_id;
}

pub load_tasks : List Tunnel → Db → Db
unfolding load_task
load_tasks [] s = s
load_tasks (t ∷ ts) s = load_tasks ts (load_task t (get_client s t.client) s)

load_host : Host → Option Client → Db → Db
load_host h none s = s
load_host h (some c) s = record s {
  hosts = store h.id h s.hosts;
  host_increase_id = raise h.id s.host_increase_id;
}

pub load_hosts : List Host → Db → Db
unfolding load_host
load_hosts [] s = s
load_hosts (h ∷ hs) s = load_hosts hs (load_host h (get_client s h.client) s)

-- Every client of the table is at most the counter.
abbrev pub Counted : Db → Type 0
Counted s = (k : ℤ) (c : Client) → load k s.clients ≡ some c → k ≤ℤ s.client_increase_id

raise_bounds :
    (id n : ℤ)
    → pos_part id < 2147483648
    → neg_part id ≤ 2147483648
    → (id ≤ℤ raise id n) × (n ≤ℤ raise id n)
raise_bounds id n h k = ground (arith, int32_id id h k)

-- Ids that fit an int32.
abbrev pub Fits : List Client → Type 0
Fits = All (λ c. (pos_part c.id < 2147483648) × (neg_part c.id ≤ 2147483648))

-- After the load of a file whose ids fit an int32, into a table in which no client has an id above
-- the counter, no client of the table has one.
pub load_clients-Counted :
    (cs : List Client) (s : Db) → Fits cs → Counted s → Counted (load_clients cs s)
unfolding load_clients
load_clients-Counted [] s f v = v
load_clients-Counted (c ∷ cs) s f v =
    let (up, keep) = raise_bounds c.id s.client_increase_id f.0.0 f.0.1 in
    load_clients-Counted cs _ f.1 (λ k d l.
      elim (load-store_cases c.id k (wake_client c) d s.clients l) [
        | inl (e, _) ↦ subst (λ i. i ≤ℤ raise c.id s.client_increase_id) e up
        | inr (_, l') ↦ let old = v k d l' in omega arith
      ])

-- Every tunnel that was loaded belongs to a client of the table.
abbrev pub Owned : Db → Type 0
Owned s =
    (k : ℤ) (t : Tunnel) → load k s.tasks ≡ some t → (c : Client) × (get_client s t.client ≡ some c)

load_task-Owned :
    (t : Tunnel) (o : Option Client) (s : Db)
    → get_client s t.client ≡ o
    → Owned s
    → Owned (load_task t o s)
unfolding load_task get_client
load_task-Owned t none s e v = v
load_task-Owned t (some c) s e v = λ k u l. elim (load-store_cases t.id k t u s.tasks l) [
  | inl (_, q) ↦ (c, subst (λ (x : Tunnel). load x.client s.clients ≡ some c) q e)
  | inr (_, l') ↦ v k u l'
]

-- If every tunnel of the table belongs to a client of the table, then so it is after a load of
-- tunnels.
pub load_tasks-Owned : (ts : List Tunnel) (s : Db) → Owned s → Owned (load_tasks ts s)
unfolding load_tasks
load_tasks-Owned [] s v = v
load_tasks-Owned (t ∷ ts) s v =
    load_tasks-Owned ts _ (load_task-Owned t (get_client s t.client) s refl v)
