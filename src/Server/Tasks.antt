-- ===== src/Server/Tasks.antt =====
-- `StopServer`, `StartTask` and `DelTask` of server/server.go.
use next_nps.Base.Int.{ℤ, ℤ_beq_iff, ℤ_eq}
use next_nps.Base.{
  if◌then◌else◌, ◌==◌, Bool-cases, Bytes, codes, bytes_beq, load, store, load-store, load-delete,
  ◌≡◌, refl, ap, ◌∙◌, ◌≢◌, ◌⊎◌, inl, inr, true, false, Option, none, some, arith, nat_eq, bytes_eq,
}
use next_nps.File.{Tunnel}
use next_nps.Db.{get_task, update_task, del_task}
use next_nps.Server.{
  Server, System, TaskError, close_failed, port_failed, add_task, drop_running, close_service,
  stop_at, stop_server, start_at, start_task, after_stop, del_at, delete_task,
}

-- Every tunnel stands under its own id.
abbrev pub Keyed : Server → Type 0
Keyed s = (k : ℤ) (t : Tunnel) → load k s.db.tasks ≡ some t → t.id ≡ k

-- The tables after the stop of a tunnel that may run or not.
abbrev Dropped : Server → ℤ → Server → Type 0
Dropped s id s' =
    (s'.db.hosts ≡ s.db.hosts)
    × ((k : ℤ) → load k s'.db.tasks ≡ (if id == k then none else load k s.db.tasks))
    × ((k : ℤ) → id ≢ k → load k s'.run_list ≡ load k s.run_list)

drop_there :
    (s : Server) (id : ℤ) (t : Tunnel)
    → t.id ≡ id
    → get_task s.db id ≡ some t
    → Dropped s id (after_stop id (drop_running s id (some t))).0
unfolding after_stop drop_running update_task del_task
drop_there s id t e g =
    let t' = record t { status = false } in
    (
      refl,
      (λ k.
          load-delete id k (store t.id t' s.db.tasks)
          ∙ ground (arith, load-store t.id k t' s.db.tasks, ℤ_beq_iff t.id k, ℤ_beq_iff id k)),
      (λ k ne. load-delete id k s.run_list ∙ ground (arith, ℤ_beq_iff id k)),
    )

drop_missing :
    (s : Server) (id : ℤ)
    → get_task s.db id ≡ none
    → Dropped s id (after_stop id (drop_running s id none)).0
unfolding after_stop drop_running get_task
drop_missing s id g = (refl, (λ k. ground (arith, ℤ_beq_iff id k)), (λ k ne. refl))

stop_Dropped :
    (sys : System) (s : Server) (id : ℤ) (o : Option Tunnel)
    → Keyed s
    → get_task s.db id ≡ o
    → Dropped s id (after_stop id (drop_running s id (get_task s.db id))).0
unfolding get_task
stop_Dropped sys s id none kd g = rw g (drop_missing s id g)
stop_Dropped sys s id (some t) kd g = rw g (drop_there s id t (kd id t g) g)

close_service-true :
    (sys : System) (v : Option Bytes)
    → ((b : Bytes) → sys.closes b ≡ true)
    → close_service sys v ≡ true
close_service-true sys none cl = refl
close_service-true sys (some b) cl = cl b

delete_at :
    (sys : System) (s : Server) (id : ℤ) (o : Option (Option Bytes))
    → Keyed s
    → ((b : Bytes) → sys.closes b ≡ true)
    → load id s.run_list ≡ o
    → Dropped s id (del_at sys s id o).0
unfolding del_at stop_server stop_at del_task
delete_at sys s id none kd cl e = (refl, (λ k. load-delete id k s.db.tasks), (λ k ne. refl))
delete_at sys s id (some v) kd cl e =
    rw (e, close_service-true sys v cl) (stop_Dropped sys s id (get_task s.db id) kd refl)

-- Where every service closes without an error and tunnels stand under their own ids, the deletion
-- of a task, running or not, takes its tunnel out of the table and leaves the other tunnels, the
-- hosts, and what else runs as they are.
pub delete_task_lem :
    (sys : System) (s : Server) (id : ℤ)
    → Keyed s
    → ((b : Bytes) → sys.closes b ≡ true)
    → ((delete_task sys s id).0.db.hosts ≡ s.db.hosts)
      × ((k : ℤ)
          → load k (delete_task sys s id).0.db.tasks
            ≡ (if id == k then none else load k s.db.tasks))
      × ((k : ℤ) → id ≢ k → load k (delete_task sys s id).0.run_list ≡ load k s.run_list)
unfolding delete_task
delete_task_lem sys s id kd cl = delete_at sys s id (load id s.run_list) kd cl refl

-- The stop of a tunnel that runs and is in the table, under its own id: without an error of the service the tunnel is
-- noted as stopped and is off the list; with one nothing changes.
pub stop_server_lem :
    (sys : System) (s : Server) (id : ℤ) (v : Option Bytes) (t : Tunnel)
    → Keyed s
    → load id s.run_list ≡ some v
    → get_task s.db id ≡ some t
    → ((close_service sys v ≡ true)
        × ((stop_server sys s id).1 ≡ none)
        × (load id (stop_server sys s id).0.run_list ≡ none)
        × (get_task (stop_server sys s id).0.db id ≡ some (record t { status = false })))
      ⊎ ((close_service sys v ≡ false) × (stop_server sys s id ≡ (s, some close_failed)))
unfolding stop_server stop_at drop_running get_task update_task
stop_server_lem sys s id v t kd r g = elim (Bool-cases (close_service sys v)) [
  | inl c ↦
      let e : t.id ≡ id = kd id t g in
      inl (
        c,
        rw (r, c, g) refl,
        rw (r, c, g) (load-delete id id s.run_list ∙ ground (arith, ℤ_beq_iff id id)),
        rw (r, c, g)
            (ground (
              arith,
              load-store t.id id (record t { status = false }) s.db.tasks,
              ℤ_beq_iff t.id id,
            )),
      )
  | inr c ↦ inr (c, rw (r, c) refl)
]

add_task_refused :
    (sys : System) (s : Server) (t : Tunnel)
    → t.mode ≡ codes "tcp"
    → sys.port_free t.port t.mode ≡ false
    → add_task sys s t ≡ (s, some port_failed)
unfolding add_task bytes_beq
add_task_refused sys s t m p =
    let p' : sys.port_free t.port (codes "tcp") ≡ false = rw m at p in rw (m, p') refl

-- The start of a tunnel in tcp mode whose port cannot be opened: no error is returned, nothing runs that did
-- not run before, and the tunnel is noted as started.
pub start_task_refused :
    (sys : System) (s : Server) (id : ℤ) (t : Tunnel)
    → Keyed s
    → get_task s.db id ≡ some t
    → t.mode ≡ codes "tcp"
    → sys.port_free t.port t.mode ≡ false
    → ((start_task sys s id).1 ≡ none)
      × ((start_task sys s id).0.run_list ≡ s.run_list)
      × (get_task (start_task sys s id).0.db id ≡ some (record t { status = true }))
unfolding start_task start_at get_task update_task
start_task_refused sys s id t kd g m p =
    let e : t.id ≡ id = kd id t g in
    let no : (add_task sys s t).0 ≡ s =
      ap (λ (r : Server × Option TaskError). r.0) (add_task_refused sys s t m p) in
    (
      rw g refl,
      rw (g, no) refl,
      rw (g, no)
          (ground
            (arith, load-store t.id id (record t { status = true }) s.db.tasks, ℤ_beq_iff t.id id)),
    )
