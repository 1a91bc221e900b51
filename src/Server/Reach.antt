-- ===== src/Server/Reach.antt =====
-- server/server.go: the entries of the table that a step on one tunnel can change.
use next_nps.File.{Tunnel}
use next_nps.Db.{Db, get_task, update_task, del_task}
use next_nps.Server.{
  Server, System, TaskError, new_mode, start_mode, add_task, drop_running, close_service, stop_at,
  stop_server, start_at, start_task, after_stop, del_at, delete_task,
}
use next_nps.Base.{
  ◌==◌, if_both, Bytes, codes, load, store, delete, load-store, load-delete, load-store_cases,
  load-delete_cases, ◌≡◌, refl, sym, ap, ◌∙◌, ◌≢◌, inl, inr, Bool, true, false, not, ◌&&◌, ◌||◌,
  Option, none, some, arith, nat_eq, bytes_eq,
}
use next_nps.Base.Int.{ℤ, ℤ_beq_iff, ℤ_eq}

-- The entry of `id` is a tunnel of that id, if there is one.
abbrev pub KeyedAt : ℤ → Server → Type 0
KeyedAt id s = (t : Tunnel) → load id s.db.tasks ≡ some t → t.id ≡ id

-- Only the entry of `id` can differ.
abbrev pub Touches : ℤ → Server → Server → Type 0
Touches id s s' = ((k : ℤ) → id ≢ k → load k s'.db.tasks ≡ load k s.db.tasks) × KeyedAt id s'

pub Touches-trans : (id : ℤ) (a b c : Server) → Touches id a b → Touches id b c → Touches id a c
Touches-trans id a b c (f, p) (g, q) = ((λ k n. g k n ∙ f k n), q)

start_mode_db : (t : Tunnel) (r : Server × Bool) → (start_mode t r).0.db ≡ r.0.db
unfolding start_mode
start_mode_db t (s, false) = refl
start_mode_db t (s, true) = refl

new_mode_db : (s : Server) (m : Bytes) → (new_mode s m).0.db ≡ s.db
unfolding new_mode
new_mode_db s m = if_both (λ (r : Server). r.db ≡ s.db) (m == codes "webServer") _ _ refl refl

pub add_task_db : (sys : System) (s : Server) (t : Tunnel) → (add_task sys s t).0.db ≡ s.db
unfolding add_task
add_task_db sys s t =
    let P : Server × Option TaskError → Type 0 = λ r. r.0.db ≡ s.db in
    if_both P (t.mode == codes "secret" || t.mode == codes "p2p") _ _ refl (
      if_both P (not (sys.port_free t.port t.mode) && not (t.mode == codes "httpHostServer")) _ _
        refl (start_mode_db t (new_mode s t.mode) ∙ new_mode_db s t.mode))

-- A tunnel that is written under its own id.
pub update_task-Touches :
    (id : ℤ) (s s' : Server) (t : Tunnel) → t.id ≡ id → s'.db ≡ update_task s.db t → Touches id s s'
unfolding update_task
update_task-Touches id s s' t e f =
    let g : s'.db.tasks ≡ store t.id t s.db.tasks = ap (λ (d : Db). d.tasks) f in
    (
      (λ k n. ap (load k) g ∙ load-store t.id k t s.db.tasks ∙ ground (arith, ℤ_beq_iff t.id k)),
      (λ u l. elim (load-store_cases t.id id t u s.db.tasks (sym (ap (load id) g) ∙ l)) [
        | inl (a, b) ↦ sym (ap (λ (x : Tunnel). x.id) b) ∙ e
        | inr (n, l') ↦ absurd (n e)
      ]),
    )

Touches-refl : (id : ℤ) (s : Server) → KeyedAt id s → Touches id s s
Touches-refl id s p = ((λ k n. refl), p)

drop_running-Touches :
    (s : Server) (id : ℤ) (o : Option Tunnel)
    → KeyedAt id s
    → load id s.db.tasks ≡ o
    → Touches id s (drop_running s id o).0
unfolding drop_running
drop_running-Touches s id none p e = Touches-refl id s p
drop_running-Touches s id (some t) p e =
    update_task-Touches id s (drop_running s id (some t)).0 (record t { status = false }) (p t e)
      refl

stop_at-Touches :
    (sys : System) (s : Server) (id : ℤ) (o : Option (Option Bytes))
    → KeyedAt id s
    → Touches id s (stop_at sys s id o).0
unfolding stop_at get_task
stop_at-Touches sys s id none p = Touches-refl id s p
stop_at-Touches sys s id (some v) p =
    if_both (λ (r : Server × Option TaskError). Touches id s r.0) (close_service sys v) _ _
      (drop_running-Touches s id (load id s.db.tasks) p refl) (Touches-refl id s p)

pub stop_server-Touches :
    (sys : System) (s : Server) (id : ℤ) → KeyedAt id s → Touches id s (stop_server sys s id).0
unfolding stop_server
stop_server-Touches sys s id p = stop_at-Touches sys s id (load id s.run_list) p

start_at-Touches :
    (sys : System) (s : Server) (id : ℤ) (o : Option Tunnel)
    → KeyedAt id s
    → load id s.db.tasks ≡ o
    → Touches id s (start_at sys s o).0
unfolding start_at
start_at-Touches sys s id none p e = Touches-refl id s p
start_at-Touches sys s id (some t) p e =
    update_task-Touches id s (start_at sys s (some t)).0 (record t { status = true }) (p t e)
      (ap (λ (d : Db). update_task d (record t { status = true })) (add_task_db sys s t))

pub start_task-Touches :
    (sys : System) (s : Server) (id : ℤ) → KeyedAt id s → Touches id s (start_task sys s id).0
unfolding start_task get_task
start_task-Touches sys s id p = start_at-Touches sys s id (load id s.db.tasks) p refl

del_task-Touches : (s s' : Server) (id : ℤ) → s'.db ≡ del_task s.db id → Touches id s s'
unfolding del_task
del_task-Touches s s' id f =
    let g : s'.db.tasks ≡ delete id s.db.tasks = ap (λ (d : Db). d.tasks) f in
    (
      (λ k n. ap (load k) g ∙ load-delete id k s.db.tasks ∙ ground (arith, ℤ_beq_iff id k)),
      (λ u l. absurd ((load-delete_cases id id u s.db.tasks (sym (ap (load id) g) ∙ l)).0 refl)),
    )

after_stop-Touches :
    (s : Server) (id : ℤ) (r : Server × Option TaskError)
    → Touches id s r.0
    → Touches id s (after_stop id r).0
unfolding after_stop
after_stop-Touches s id (s', some e) p = p
after_stop-Touches s id (s', none) p =
    let s'' = record s' { db = del_task s'.db id } in
    Touches-trans id s s' s'' p (del_task-Touches s' s'' id refl)

del_at-Touches :
    (sys : System) (s : Server) (id : ℤ) (o : Option (Option Bytes))
    → KeyedAt id s
    → Touches id s (del_at sys s id o).0
unfolding del_at
del_at-Touches sys s id none p = del_task-Touches s (record s { db = del_task s.db id }) id refl
del_at-Touches sys s id (some v) p =
    after_stop-Touches s id (stop_server sys s id) (stop_server-Touches sys s id p)

pub delete_task-Touches :
    (sys : System) (s : Server) (id : ℤ) → KeyedAt id s → Touches id s (delete_task sys s id).0
unfolding delete_task
delete_task-Touches sys s id p = del_at-Touches sys s id (load id s.run_list) p
