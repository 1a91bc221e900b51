-- ===== src/Bridge/Sessions.antt =====
-- `typeDeal` of bridge/bridge.go: what each kind of connection does to the table of sessions.
use next_nps.Base.{
  ◌==◌, Bool-cases, if_both, Option-cases, Bytes, codes, bytes_beq, load, load-store, ℕ, ◌≡◌, refl,
  sym, subst, ◌≢◌, inl, inr, false, Option, none, some, arith, nat_eq, bytes_eq,
}
use next_nps.Base.Int.{ℤ, ℤ_beq_iff, ℤ_eq}
use next_nps.File.{Tunnel}
use next_nps.Db.{Db, is_pub_client}
use next_nps.Bridge.{
  Session, Bridge, join_session, work_main, work_chan, work_file, work_config, work_secret,
  work_p2p, work_p2p_read, type_deal, Step, new_session,
}

-- Every other session is left as it is.
abbrev pub Others : ℤ → Bridge → Bridge → Type 0
Others id s s' =
    ((k : ℤ) → id ≢ k → load k s'.sessions ≡ load k s.sessions)
    × (s'.register ≡ s.register)
    × (s'.run_list ≡ s.run_list)
    × (s'.ip_verify ≡ s.ip_verify)

Others-refl : (id : ℤ) (s : Bridge) → Others id s s
Others-refl id s = ((λ k ne. refl), refl, refl, refl)

join_session-Others :
    (s : Bridge) (id : ℤ) (fresh : Session) (change : Session → Session) (o : Option Session)
    → Others id s (join_session s id fresh change o)
unfolding join_session
join_session-Others s id fresh change none =
    ((λ k ne. ground (arith, load-store id k fresh s.sessions, ℤ_beq_iff id k)), refl, refl, refl)
join_session-Others s id fresh change (some v) = (
  (λ k ne. ground (arith, load-store id k (change v) s.sessions, ℤ_beq_iff id k)),
  refl,
  refl,
  refl,
)

work_main-Others :
    (db : Db) (s : Bridge) (c : ℕ) (id : ℤ) (vs : Bytes) → Others id s (work_main db s c id vs).0
unfolding work_main
work_main-Others db s c id vs = elim (Bool-cases (is_pub_client db id)) [
  | inl t ↦ rw t (Others-refl id s)
  | inr f ↦ rw f (join_session-Others s id _ _ (load id s.sessions))
]

unchanged-Others : (id : ℤ) (s s' : Bridge) → s' ≡ s → Others id s s'
unchanged-Others id s s' e = subst (Others id s) (sym e) (Others-refl id s)

work_config_state : (db : Db) (s : Bridge) (c : ℕ) (id : ℤ) → (work_config db s c id).0 ≡ s
unfolding work_config
work_config_state db s c id = ground arith

work_secret_state : (s : Bridge) (c : ℕ) (o : Option Bytes) → (work_secret s c o).0 ≡ s
unfolding work_secret
work_secret_state s c o = ground arith

work_p2p_state :
    (s : Bridge) (c : ℕ) (svr_addr b : Bytes) (o : Option Tunnel)
    → (work_p2p s c svr_addr b o).0 ≡ s
unfolding work_p2p
work_p2p_state s c svr_addr b none = refl
work_p2p_state s c svr_addr b (some t) = elim (Option-cases (load t.client s.sessions)) [
  | inl e ↦ rw (e, work_p2p) refl
  | inr (v, e) ↦ elim (Option-cases v.signal) [
    | inl f ↦ rw (e, work_p2p, f) refl
    | inr (sg, f) ↦ rw (e, work_p2p, f) refl
  ]
]

work_p2p_read_state :
    (md5 : Bytes → Bytes) (db : Db) (s : Bridge) (c : ℕ) (svr_addr : Bytes) (o : Option Bytes)
    → (work_p2p_read md5 db s c svr_addr o).0 ≡ s
unfolding work_p2p_read
work_p2p_read_state md5 db s c svr_addr none = refl
work_p2p_read_state md5 db s c svr_addr (some b) = work_p2p_state s c svr_addr b _

-- The handler itself leaves the sessions of others.
type_deal-Others :
    (md5 : Bytes → Bytes) (db : Db) (s : Bridge) (type_val : Bytes) (c : ℕ) (id : ℤ) (vs : Bytes)
    (content : Option Bytes) (svr_addr : Bytes)
    → Others id s (type_deal md5 db s type_val c id vs content svr_addr).0
unfolding type_deal work_chan work_file
type_deal-Others md5 db s tv c id vs content svr_addr =
    let P = λ (r : Step). Others id s r.0 in
    if_both P (tv == codes "main") _ _ (work_main-Others db s c id vs) (
      if_both P (tv == codes "chan") _ _ (join_session-Others s id _ _ (load id s.sessions)) (
        if_both P (tv == codes "conf") _ _ (unchanged-Others id s _ (work_config_state db s c id)) (
          if_both P (tv == codes "rgst") _ _ (Others-refl id s) (
            if_both P (tv == codes "sert") _ _
              (unchanged-Others id s _ (work_secret_state s c content))
              (if_both P (tv == codes "file") _ _
                (join_session-Others s id _ _ (load id s.sessions))
                (if_both P (tv == codes "p2pm") _ _
                  (unchanged-Others id s _ (work_p2p_read_state md5 db s c svr_addr content))
                  (Others-refl id s)))))))

-- What a client has, with a session or without one.
abbrev tunnel_of : Option Session → Option ℕ
tunnel_of none = none
tunnel_of (some v) = v.tunnel

abbrev file_of : Option Session → Option ℕ
file_of none = none
file_of (some v) = v.file

abbrev signal_of : Option Session → Option ℕ
signal_of none = none
signal_of (some v) = v.signal

-- The client has a session with this tunnel, file connection and signal.
abbrev pub HasSession : ℤ → Bridge → Option ℕ → Option ℕ → Option ℕ → Type 0
HasSession id s tunnel file signal =
    (v : Session) × (load id s.sessions ≡ some v)
    × (v.tunnel ≡ tunnel)
    × (v.file ≡ file)
    × (v.signal ≡ signal)

-- What the announcement of a kind of connection makes of the client's own session.
abbrev pub OwnSession : Db → Bytes → ℕ → ℤ → Option Session → Bridge → Type 0
OwnSession db type_val c id o s =
    (type_val ≡ codes "main"
      → is_pub_client db id ≡ false
      → HasSession id s (tunnel_of o) (file_of o) (some c))
    × (type_val ≡ codes "chan" → HasSession id s (some c) (file_of o) (signal_of o))
    × (type_val ≡ codes "file" → HasSession id s (tunnel_of o) (some c) (signal_of o))

load-join_session :
    (s : Bridge) (id : ℤ) (fresh v : Session) (change : Session → Session)
    → (load id (join_session s id fresh change none).sessions ≡ some fresh)
      × (load id (join_session s id fresh change (some v)).sessions ≡ some (change v))
unfolding join_session
load-join_session s id fresh v change = (
  ground (arith, load-store id id fresh s.sessions, ℤ_beq_iff id id),
  ground (arith, load-store id id (change v) s.sessions, ℤ_beq_iff id id),
)

module _ (s : Bridge) (c : ℕ) (id : ℤ) (vs : Bytes) where
  main_own :
      (db : Db) (o : Option Session)
      → load id s.sessions ≡ o
      → is_pub_client db id ≡ false
      → HasSession id (work_main db s c id vs).0 (tunnel_of o) (file_of o) (some c)
  unfolding work_main new_session
  main_own db none e p =
      let v = new_session none none (some c) vs in
      rw (p, e) (v, (load-join_session s id v v (λ (v : Session). v)).0, refl, refl, refl)
  main_own db (some u) e p =
      let f : Session → Session = λ v. record v { signal = some c; version = vs } in
      rw (p, e) (f u, (load-join_session s id u u f).1, refl, refl, refl)

  chan_own :
      (o : Option Session)
      → load id s.sessions ≡ o
      → HasSession id (work_chan s c id vs).0 (some c) (file_of o) (signal_of o)
  unfolding work_chan new_session
  chan_own none e =
      let v = new_session (some c) none none vs in
      rw e (v, (load-join_session s id v v (λ (v : Session). v)).0, refl, refl, refl)
  chan_own (some u) e =
      let f : Session → Session = λ v. record v { tunnel = some c } in
      rw e (f u, (load-join_session s id u u f).1, refl, refl, refl)

  file_own :
      (o : Option Session)
      → load id s.sessions ≡ o
      → HasSession id (work_file s c id vs).0 (tunnel_of o) (some c) (signal_of o)
  unfolding work_file new_session
  file_own none e =
      let v = new_session none (some c) none vs in
      rw e (v, (load-join_session s id v v (λ (v : Session). v)).0, refl, refl, refl)
  file_own (some u) e =
      let f : Session → Session = λ v. record v { file = some c } in
      rw e (f u, (load-join_session s id u u f).1, refl, refl, refl)

-- What a connection of client `id` does to the sessions by its announcement, without what the
-- goroutines do that a registration and a configuration connection start. The sessions of all other
-- clients stay as they are. A main connection of a client that is not public becomes its signal, a
-- tunnel connection its tunnel and a file connection its file connection, whether the client had a
-- session or not, and the other two of the three are what they were.
pub type_deal_sessions :
    (md5 : Bytes → Bytes) (db : Db) (s : Bridge) (type_val : Bytes) (c : ℕ) (id : ℤ) (vs : Bytes)
    (content : Option Bytes) (svr_addr : Bytes)
    → let s' = (type_deal md5 db s type_val c id vs content svr_addr).0 in
      ((k : ℤ) → id ≢ k → load k s'.sessions ≡ load k s.sessions)
      × OwnSession db type_val c id (load id s.sessions) s'
unfolding type_deal bytes_beq
type_deal_sessions md5 db s tv c id vs content svr_addr =
    let r : Bytes → Bridge = λ x. (type_deal md5 db s x c id vs content svr_addr).0 in
    let o = load id s.sessions in
    (
      (type_deal-Others md5 db s tv c id vs content svr_addr).0,
      (
        (λ e p.
            subst (λ x. HasSession id (r x) (tunnel_of o) (file_of o) (some c)) (sym e)
              (main_own s c id vs db o refl p)),
        (λ e.
            subst (λ x. HasSession id (r x) (some c) (file_of o) (signal_of o)) (sym e)
              (chan_own s c id vs o refl)),
        (λ e.
            subst (λ x. HasSession id (r x) (tunnel_of o) (some c) (signal_of o)) (sym e)
              (file_own s c id vs o refl)),
      ),
    )
