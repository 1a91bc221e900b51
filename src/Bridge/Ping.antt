-- ===== src/Bridge/Ping.antt =====
-- The tick of `ping` in bridge/bridge.go: which sessions it drops.
use next_nps.Base.{
  ltb, if◌then◌else◌, ◌==◌, Bool-cases, Store, load, load-delete, map_values, load-map_values,
  IsMap, delete-IsMap, map_values-IsMap, ℕ, zero, suc, ◌+◌, ◌≡◌, refl, ap, ◌∙◌, ◌⊎◌, inl, inr, Bool,
  false, ◌||◌, Option, none, some, List, [], ◌∷◌, arith, nat_eq, bytes_eq,
}
use next_nps.Base.Int.{ℤ, ℤ_beq_iff, ℤ_eq}
use next_nps.Db.{Db}
use next_nps.Bridge.{
  Session, Bridge, del_client, del_clients, drop_session, ping_session, ping_dead, ping_tick,
}

-- A session that lacks its signal or its tunnel: the third try drops it.
abbrev pub tried_again : Session → Option Session
tried_again v =
    if ltb v.retry_time 2 then some (record v { retry_time = v.retry_time + 1 }) else none

-- What becomes of a session, by its tunnel and its signal.
abbrev pub after_tick : (ℕ → Bool) → Option ℕ → Option ℕ → Session → Option Session
after_tick is_close (some t) (some c) v = if is_close t then none else some v
after_tick is_close none c v = tried_again v
after_tick is_close (some t) none v = tried_again v

abbrev pub pinged : (ℕ → Bool) → Option Session → Option Session
pinged is_close none = none
pinged is_close (some v) = after_tick is_close v.tunnel v.signal v

-- The code's own account of it.
ping_session-pinged :
    (is_close : ℕ → Bool) (v : Session)
    → (if (ping_session is_close v).1 then none else some (ping_session is_close v).0)
      ≡ pinged is_close (some v)
unfolding ping_session
ping_session-pinged is_close v = at v.tunnel v.signal refl refl
  where
    at :
        (t c : Option ℕ)
        → v.tunnel ≡ t
        → v.signal ≡ c
        → (if (ping_session is_close v).1 then none else some (ping_session is_close v).0)
          ≡ after_tick is_close v.tunnel v.signal v
    at (some t) (some c) p q = rw (p, q) refl
    at (some t) none p q = rw (p, q) (ground arith)
    at none c p q = rw p (ground arith)

load-drop_session :
    (db : Db) (s : Bridge) (id k : ℤ) (o : Option Session)
    → load id s.sessions ≡ o
    → load k (drop_session db s id o).0.sessions ≡ (if id == k then none else load k s.sessions)
unfolding drop_session
load-drop_session db s id k none e = ground (arith, ℤ_beq_iff id k)
load-drop_session db s id k (some v) e = load-delete id k s.sessions

load-del_client :
    (db : Db) (s : Bridge) (id k : ℤ)
    → load k (del_client db s id).0.sessions ≡ (if id == k then none else load k s.sessions)
unfolding del_client
load-del_client db s id k = load-drop_session db s id k (load id s.sessions) refl

-- An id is listed if its session is dead.
abbrev listed : ℤ → List ℤ → Bool
listed k [] = false
listed k (i ∷ ids) = i == k || listed k ids

load-del_clients :
    (db : Db) (s : Bridge) (ids : List ℤ) (k : ℤ)
    → load k (del_clients db s ids).0.sessions ≡ (if listed k ids then none else load k s.sessions)
unfolding del_clients
load-del_clients db s [] k = refl
load-del_clients db s (i ∷ ids) k =
    load-del_clients db (del_client db s i).0 ids k ∙ ground (arith, load-del_client db s i k)

listed-ping_dead-none :
    (is_close : ℕ → Bool) (k : ℤ) (m : Store ℤ Session)
    → load k m ≡ none
    → listed k (ping_dead is_close m) ≡ false
unfolding ping_dead load
listed-ping_dead-none is_close k [] l = refl
listed-ping_dead-none is_close k ((j, w) ∷ m) l = ground (arith, listed-ping_dead-none is_close k m)

listed-ping_dead :
    (is_close : ℕ → Bool) (k : ℤ) (m : Store ℤ Session) (v : Session)
    → IsMap m
    → load k m ≡ some v
    → listed k (ping_dead is_close m) ≡ (ping_session is_close v).1
unfolding ping_dead load
listed-ping_dead is_close k [] v d l = absurd (ground arith)
listed-ping_dead is_close k ((j, w) ∷ m) v d l = elim (Bool-cases (j == k)) [
  | inl e ↦
      let same : j ≡ k = (ℤ_beq_iff j k).0 e in
      let there : w ≡ v = ground arith in
      rw (← there)
        (ground (arith, listed-ping_dead-none is_close k m (rw same at d.0), ℤ_beq_iff j k))
  | inr n ↦ ground (arith, listed-ping_dead is_close k m v d.1)
]

-- One tick on a table without duplicate ids, session by session: a session that has its signal and its tunnel stays as it is while
-- its multiplexer is open and is dropped when that is closed; any other has one more try, and is
-- dropped at the third.
pub load-ping_tick :
    (is_close : ℕ → Bool) (db : Db) (s : Bridge) (k : ℤ)
    → IsMap s.sessions
    → load k (ping_tick is_close db s).0.sessions ≡ pinged is_close (load k s.sessions)
unfolding ping_tick
load-ping_tick is_close db s k d =
    load-del_clients db (record s { sessions = tried }) (ping_dead is_close s.sessions) k
    ∙ after (load k s.sessions) refl
  where
    tried : Store ℤ Session
    tried = map_values (λ v. (ping_session is_close v).0) s.sessions

    after :
        (o : Option Session)
        → load k s.sessions ≡ o
        → (if listed k (ping_dead is_close s.sessions) then none else load k tried)
          ≡ pinged is_close (load k s.sessions)
    after none e =
        rw (load-map_values (λ v. (ping_session is_close v).0) k s.sessions, e)
          (ground (arith, listed-ping_dead-none is_close k s.sessions e))
    after (some v) e =
        rw
          (
            load-map_values (λ v. (ping_session is_close v).0) k s.sessions,
            e,
            listed-ping_dead is_close k s.sessions v d e,
          )
          (ping_session-pinged is_close v)

del_client-IsMap :
    (db : Db) (s : Bridge) (id : ℤ) → IsMap s.sessions → IsMap (del_client db s id).0.sessions
unfolding del_client
del_client-IsMap db s id d = drop (load id s.sessions)
  where
    drop : (o : Option Session) → IsMap (drop_session db s id o).0.sessions
    drop none = unfold drop_session in d
    drop (some v) = unfold drop_session in delete-IsMap id s.sessions d

del_clients-IsMap :
    (db : Db) (s : Bridge) (ids : List ℤ)
    → IsMap s.sessions
    → IsMap (del_clients db s ids).0.sessions
unfolding del_clients
del_clients-IsMap db s [] d = d
del_clients-IsMap db s (i ∷ ids) d =
    del_clients-IsMap db (del_client db s i).0 ids (del_client-IsMap db s i d)

ping_tick-IsMap :
    (is_close : ℕ → Bool) (db : Db) (s : Bridge)
    → IsMap s.sessions
    → IsMap (ping_tick is_close db s).0.sessions
unfolding ping_tick
ping_tick-IsMap is_close db s d =
    del_clients-IsMap db _ (ping_dead is_close s.sessions) (map_values-IsMap _ s.sessions d)

stay :
    (is_close : ℕ → Bool) (v : Session) (t c : ℕ)
    → v.tunnel ≡ some t
    → v.signal ≡ some c
    → is_close t ≡ false
    → pinged is_close (some v) ≡ some v
stay is_close v t c p q o = ground (arith, p, q, o)

try_three :
    (is_close : ℕ → Bool) (v : Session)
    → (v.tunnel ≡ none) ⊎ (v.signal ≡ none)
    → pinged is_close (pinged is_close (pinged is_close (some v))) ≡ none
try_three is_close v (inl e) = ground arith
try_three is_close v (inr e) = ground arith

-- `n` ticks with nothing between them.
pub ping_ticks : ℕ → (ℕ → Bool) → Db → Bridge → Bridge
ping_ticks zero is_close db s = s
ping_ticks (suc n) is_close db s = ping_ticks n is_close db (ping_tick is_close db s).0

-- A session that has its signal and a tunnel whose multiplexer stays open is as it was after any
-- number of ticks, in a table without duplicate ids.
pub ping_ticks_alive :
    (n : ℕ) (is_close : ℕ → Bool) (db : Db) (s : Bridge) (k : ℤ) (v : Session) (t c : ℕ)
    → IsMap s.sessions
    → load k s.sessions ≡ some v
    → v.tunnel ≡ some t
    → v.signal ≡ some c
    → is_close t ≡ false
    → load k (ping_ticks n is_close db s).sessions ≡ some v
unfolding ping_ticks
ping_ticks_alive zero is_close db s k v t c d l p q o = l
ping_ticks_alive (suc n) is_close db s k v t c d l p q o =
    ping_ticks_alive n is_close db (ping_tick is_close db s).0 k v t c
      (ping_tick-IsMap is_close db s d)
      (load-ping_tick is_close db s k d ∙ rw l (stay is_close v t c p q o)) p q o

-- A session with no tunnel or no signal is gone after three ticks, in a table without duplicate ids.
pub ping_ticks_dead :
    (is_close : ℕ → Bool) (db : Db) (s : Bridge) (k : ℤ) (v : Session)
    → IsMap s.sessions
    → load k s.sessions ≡ some v
    → (v.tunnel ≡ none) ⊎ (v.signal ≡ none)
    → load k (ping_ticks 3 is_close db s).sessions ≡ none
unfolding ping_ticks
ping_ticks_dead is_close db s k v d l h =
    let once = ping_tick-IsMap is_close db s d in
    let twice = ping_tick-IsMap is_close db (ping_tick is_close db s).0 once in
    load-ping_tick is_close db _ k twice
    ∙ ap (pinged is_close) (
        load-ping_tick is_close db _ k once
        ∙ ap (pinged is_close) (load-ping_tick is_close db s k d ∙ ap (pinged is_close) l))
    ∙ try_three is_close v h
