-- ===== src/Bridge/Config.antt =====
-- The tunnels of a configuration connection: the case NEW_TASK of `getConfig` in bridge/bridge.go,
-- with `GetTaskInfo` of lib/conn/conn.go. One description gives a tunnel for every port.
use next_nps.Base.Int.{ℤ, pos, ℤ_eq}
use next_nps.Base.{
  ltb, nat_beq, if◌then◌else◌, ◌==◌, Bool-cases, if_both, length, get_elem?, Bytes, codes,
  bytes_beq, map_some, ℕ, zero, suc, ◌+◌, ◌/◌, ◌%◌, ◌≡◌, refl, inl, inr, Bool, true, false, not,
  ◌&&◌, ◌||◌, Option, none, some, List, [], ◌∷◌, ◌++◌, arith, nat_eq, bytes_eq,
}
use next_nps.File.{Client, Tunnel, Target, new_target, new_tunnel}
use next_nps.Db.{Db, DbError, get_task_id, has_tunnel, is_secret_mode, new_task}
use next_nps.Db.Secrets.{TasksInv, new_task-TasksInv}
use next_nps.Ports.{get_ports}

-- `strconv.Itoa` of a number from 0 on, with the digits behind it; fuel is a bound on their count.
unfoldable pub itoa_onto : ℕ → ℕ → Bytes → Bytes
itoa_onto zero n acc = acc
itoa_onto (suc fuel) n acc =
    let rest = itoa_onto fuel (n / 10) ((b'0' + n % 10) ∷ acc) in
    if ltb n 10 then (b'0' + n) ∷ acc else rest

unfoldable pub itoa : ℕ → Bytes
unfolding itoa_onto
itoa n = itoa_onto (n + 1) n []

pub data ConfigEffect : Type 0 where
  add_ok : ConfigEffect
  add_fail : ConfigEffect
  open_task : Tunnel → ConfigEffect
  write_key : Bytes → ConfigEffect
  write_status : Bytes → ConfigEffect
  new_empty_session : ℤ → ConfigEffect

-- How a case of the loop ends: with the next message, with `break loop` after a failure, or with a
-- panic of the program.
pub data Next : Type 0 where
  go_on : Next
  broken : Next
  panicked : Next

abbrev pub ConfigStep : Type 0
ConfigStep = Db × List ConfigEffect × Next

-- The target and the remark of tunnel `i`; `none` is an index out of range.
unfoldable pub target_of : Tunnel → Bool → List ℕ → ℕ → ℕ → Option (Target × Bytes)
unfolding itoa
target_of t true targets i port = some (t.target, t.remark)
target_of t false targets i port =
    map_some
      (λ (p : ℕ). (
        record new_target {
          target_str =
              if t.target_addr == [] then itoa p else t.target_addr ++ (codes ":" ++ itoa p);
        },
        t.remark ++ (codes "_" ++ itoa port),
      ))
      (get_elem? targets i)

-- The fields of `tl`.
abbrev pub make_tunnel : Client → Tunnel → ℕ → ℤ → Target × Bytes → Tunnel
make_tunnel client t port id (target, remark) = record new_tunnel {
  mode = t.mode;
  port = pos port;
  server_ip = t.server_ip;
  target = target;
  remark = remark;
  id = id;
  status = true;
  no_store = true;
  client = client.id;
  password = t.password;
  local_path = t.local_path;
  strip_pre = t.strip_pre;
  multi_account = t.multi_account;
}

-- What follows `NewTask`.
after_new_task : (ℤ → Bytes → Bool) → Tunnel → Db × Option DbError → ConfigStep
after_new_task port_free tl (db, some e) = (db, add_fail ∷ [], broken)
after_new_task port_free tl (db, none) =
    if not (port_free tl.port tl.mode) && not (is_secret_mode tl.mode)
    then (db, add_fail ∷ [], broken)
    else (db, open_task tl ∷ add_ok ∷ [], go_on)

-- One round of the loop over the ports.
unfoldable pub add_tunnel :
    (ℤ → Bytes → Bool) → Client → Tunnel → ℕ → Db → Option (Target × Bytes) → ConfigStep
unfolding after_new_task
add_tunnel port_free client t port db none = (db, [], panicked)
add_tunnel port_free client t port db (some target) =
    let (db', id) = get_task_id db in
    let tl = make_tunnel client t port id target in
    if has_tunnel db' client tl
    then (db', add_ok ∷ [], go_on)
    else after_new_task port_free tl (new_task db' tl)

-- The rounds after one that went on.
and_then : ConfigStep → (Db → ConfigStep) → ConfigStep
and_then (db, es, go_on) f = let (db', es', n) = f db in (db', es ++ es', n)
and_then (db, es, broken) f = (db, es, broken)
and_then (db, es, panicked) f = (db, es, panicked)

pub add_tunnels :
    (ℤ → Bytes → Bool) → Client → Tunnel → Bool → List ℕ → List ℕ → ℕ → Db → ConfigStep
unfolding and_then
add_tunnels port_free client t single targets [] i db = (db, [], go_on)
add_tunnels port_free client t single targets (port ∷ ports) i db =
    and_then (add_tunnel port_free client t port db (target_of t single targets i port))
      (add_tunnels port_free client t single targets ports (i + 1))

abbrev is_forward : Bytes → Bool
is_forward m = m == codes "tcp" || m == codes "udp"

-- A secret tunnel has port 0 behind its ports.
abbrev with_secret : Bytes → List ℕ → List ℕ
with_secret m ports = if is_secret_mode m then ports ++ 0 ∷ [] else ports

all_tunnels : (ℤ → Bytes → Bool) → Client → Tunnel → List ℕ → List ℕ → Db → ConfigStep
all_tunnels port_free client t targets ports db =
    if nat_beq (length ports) 0
    then (db, add_fail ∷ [], broken)
    else add_tunnels port_free client t (nat_beq (length ports) 1) targets ports 0 db

-- The case NEW_TASK, of a description that was read and has a target. Its own id is drawn first. `port_free` is
-- `Ports.test_server_port`.
pub config_task : (ℤ → Bytes → Bool) → Client → Tunnel → Db → ConfigStep
unfolding all_tunnels
config_task port_free client t db =
    let db' = (get_task_id db).0 in
    let ports = get_ports t.ports in
    let targets = get_ports t.target.target_str in
    if ltb 1 (length ports) && is_forward t.mode && not (nat_beq (length ports) (length targets))
    then (db', add_fail ∷ [], broken)
    else all_tunnels port_free client t targets (with_secret t.mode ports) db'

pub same_tasks : (s s' : Db) → s'.tasks ≡ s.tasks → TasksInv s → TasksInv s'
same_tasks s s' e v = record {
  keyed = λ k t l. v.keyed k t (rw e at l);
  unique = λ j k t u h l. v.unique j k t u (rw e at h) (rw e at l);
}

after_new_task-TasksInv :
    (port_free : ℤ → Bytes → Bool) (tl : Tunnel) (r : Db × Option DbError)
    → TasksInv r.0
    → TasksInv (after_new_task port_free tl r).0
unfolding after_new_task
after_new_task-TasksInv port_free tl (db, some e) v = v
after_new_task-TasksInv port_free tl (db, none) v =
    if_both (λ (c : ConfigStep). TasksInv c.0)
      (not (port_free tl.port tl.mode) && not (is_secret_mode tl.mode)) _ _ v v

add_tunnel-TasksInv :
    (port_free : ℤ → Bytes → Bool) (client : Client) (t : Tunnel) (port : ℕ) (db : Db)
    (o : Option (Target × Bytes))
    → TasksInv db
    → TasksInv (add_tunnel port_free client t port db o).0
unfolding add_tunnel get_task_id
add_tunnel-TasksInv port_free client t port db none v = v
add_tunnel-TasksInv port_free client t port db (some target) v =
    let db' = (get_task_id db).0 in
    let tl = make_tunnel client t port (get_task_id db).1 target in
    let v' : TasksInv db' = same_tasks db db' refl v in
    if_both (λ (c : ConfigStep). TasksInv c.0) (has_tunnel db' client tl) _ _ v'
      (after_new_task-TasksInv port_free tl (new_task db' tl) (new_task-TasksInv db' tl v'))

and_then-TasksInv :
    (c : ConfigStep) (f : Db → ConfigStep)
    → TasksInv c.0
    → ((db : Db) → TasksInv db → TasksInv (f db).0)
    → TasksInv (and_then c f).0
unfolding and_then
and_then-TasksInv (db, es, go_on) f v h = h db v
and_then-TasksInv (db, es, broken) f v h = v
and_then-TasksInv (db, es, panicked) f v h = v

add_tunnels-TasksInv :
    (port_free : ℤ → Bytes → Bool) (client : Client) (t : Tunnel) (single : Bool)
    (targets ports : List ℕ) (i : ℕ) (db : Db)
    → TasksInv db
    → TasksInv (add_tunnels port_free client t single targets ports i db).0
unfolding add_tunnels
add_tunnels-TasksInv port_free client t single targets [] i db v = v
add_tunnels-TasksInv port_free client t single targets (port ∷ ports) i db v =
    and_then-TasksInv _ _ (add_tunnel-TasksInv port_free client t port db _ v)
      (λ db' v'. add_tunnels-TasksInv port_free client t single targets ports (i + 1) db' v')

all_tunnels-TasksInv :
    (port_free : ℤ → Bytes → Bool) (client : Client) (t : Tunnel) (targets ports : List ℕ) (db : Db)
    → TasksInv db
    → TasksInv (all_tunnels port_free client t targets ports db).0
unfolding all_tunnels
all_tunnels-TasksInv port_free client t targets ports db v =
    elim (Bool-cases (nat_beq (length ports) 0)) [
      | inl e ↦ rw e v
      | inr e ↦ rw e (add_tunnels-TasksInv port_free client t _ targets ports 0 db v)
    ]

-- Whatever a client describes, and however its tunnels fail on the way: from a table with every
-- tunnel under its own id and at most one secret or p2p tunnel for each password, the result is such
-- a table.
pub config_task-TasksInv :
    (port_free : ℤ → Bytes → Bool) (client : Client) (t : Tunnel) (db : Db)
    → TasksInv db
    → TasksInv (config_task port_free client t db).0
unfolding config_task get_task_id
config_task-TasksInv port_free client t db v =
    let ports = get_ports t.ports in
    let targets = get_ports t.target.target_str in
    let v' : TasksInv (get_task_id db).0 = same_tasks db (get_task_id db).0 refl v in
    elim (Bool-cases (
      ltb 1 (length ports) && is_forward t.mode && not (nat_beq (length ports) (length targets)))) [
        | inl e ↦ rw e v'
        | inr e ↦
            rw e (all_tunnels-TasksInv port_free client t targets (with_secret t.mode ports) _ v')
      ]

all_tunnels_panics :
    (port_free : ℤ → Bytes → Bool) (client : Client) (t : Tunnel) (a b : ℕ) (rest : List ℕ)
    (db : Db)
    → (all_tunnels port_free client t [] (a ∷ b ∷ rest) db).2 ≡ panicked
unfolding all_tunnels add_tunnels and_then add_tunnel target_of
all_tunnels_panics port_free client t a b rest db =
    let none_empty : nat_beq (suc (suc (length rest))) 0 ≡ false = ground arith in
    let not_single : nat_beq (suc (suc (length rest))) 1 ≡ false = ground arith in
    rw (none_empty, not_single) refl

-- A description in socks5 mode with two ports or more and no port in the text of its target: an
-- index is out of range and the program panics.
pub config_task_panics :
    (port_free : ℤ → Bytes → Bool) (client : Client) (t : Tunnel) (db : Db) (a b : ℕ)
    (rest : List ℕ)
    → t.mode ≡ codes "socks5"
    → get_ports t.ports ≡ a ∷ b ∷ rest
    → get_ports t.target.target_str ≡ []
    → (config_task port_free client t db).2 ≡ panicked
unfolding config_task is_secret_mode bytes_beq
config_task_panics port_free client t db a b rest m p q =
    let two : ltb 1 (suc (suc (length rest))) ≡ true = ground arith in
    rw (m, p, q, two) (all_tunnels_panics port_free client _ a b rest (get_task_id db).0)
