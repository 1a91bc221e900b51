-- ===== src/Bridge.antt =====
-- bridge/bridge.go: the sessions of the clients that are connected. A connection is a number, and a
-- multiplexer, which is code of another package, is named by the connection that it runs on. What a
-- handler writes, closes, sends on a channel or starts is the list of its effects, in order.
use next_nps.Base.{
  leb, if◌then◌else◌, ◌==◌, Bytes, codes, Store, load, store, delete, map_values, ℕ, ◌+◌, Bool, not,
  ◌&&◌, Option, none, some, List, [], ◌∷◌, ◌++◌, nat_eq, bytes_eq,
}
use next_nps.Base.Int.{ℤ, ℤ_eq}
use next_nps.File.{Client, Tunnel}
mod Sessions
pub mod Config
pub mod Messages
pub mod Process
mod Tests
mod Health
mod Links
mod Ping
use next_nps.Db.{Db, get_client, is_pub_client, get_task_by_md5_password}

pub record Session : Type 0 where
  pub tunnel : Option ℕ
  pub signal : Option ℕ
  pub file : Option ℕ
  pub version : Bytes
  pub retry_time : ℕ

unfoldable pub new_session : Option ℕ → Option ℕ → Option ℕ → Bytes → Session
new_session t f s vs = record { tunnel = t; signal = s; file = f; version = vs; retry_time = 0 }

-- `register` holds the time at which the leave of an address ends.
pub record Bridge : Type 0 where
  pub sessions : Store ℤ Session
  pub register : Store Bytes ℤ
  pub run_list : Store ℤ (Unit {0})
  pub ip_verify : Bool

pub data Effect : Type 0 where
  write_close : ℕ → Effect
  write : ℕ → Bytes → Effect
  write_len : ℕ → Bytes → Effect
  write_bool : ℕ → Bool → Effect
  close : ℕ → Effect
  set_alive : ℕ → Effect
  send_close_client : ℤ → Effect
  send_open_task : ℤ → Effect
  send_secret : Bytes → ℕ → Effect
  start_health : ℤ → ℕ → Effect
  start_config : ℕ → Bool → ℤ → Effect
  start_register : ℕ → Effect
  nil_panic : Effect

abbrev pub Step : Type 0
Step = Bridge × List Effect

abbrev close_signal : Option ℕ → List Effect
close_signal none = []
close_signal (some c) = close c ∷ []

-- The server is told only of a client that is in the table and not a public one.
abbrev notify : Db → ℤ → List Effect
notify db id =
    if is_pub_client db id
    then []
    else elim (get_client db id) [ none ↦ [] | some c ↦ send_close_client c.id ∷ [] ]

drop_session : Db → Bridge → ℤ → Option Session → Step
drop_session db s id none = (s, [])
drop_session db s id (some v) =
    (record s { sessions = delete id s.sessions }, close_signal v.signal ++ notify db id)

pub del_client : Db → Bridge → ℤ → Step
unfolding drop_session
del_client db s id = drop_session db s id (load id s.sessions)

-- `LoadOrStore` with a change where an entry was there.
join_session : Bridge → ℤ → Session → (Session → Session) → Option Session → Bridge
join_session s id fresh change none = record s { sessions = store id fresh s.sessions }
join_session s id fresh change (some v) = record s { sessions = store id (change v) s.sessions }

abbrev old_signal : Option Session → List Effect
old_signal none = []
old_signal (some v) = elim v.signal [ none ↦ [] | some c ↦ write_close c ∷ [] ]

-- case WORK_MAIN: the connection becomes the signal of the client, and the one before is told to
-- close.
work_main : Db → Bridge → ℕ → ℤ → Bytes → Step
unfolding join_session new_session
work_main db s c id vs = if is_pub_client db id then (s, close c ∷ []) else (
  join_session s id (new_session none none (some c) vs)
      (λ v. record v { signal = some c; version = vs }) (load id s.sessions),
  old_signal (load id s.sessions) ++ (start_health id c ∷ set_alive c ∷ []),
)

work_chan : Bridge → ℕ → ℤ → Bytes → Step
unfolding join_session new_session
work_chan s c id vs = (
  join_session s id (new_session (some c) none none vs) (λ v. record v { tunnel = some c })
      (load id s.sessions),
  set_alive c ∷ [],
)

work_file : Bridge → ℕ → ℤ → Bytes → Step
unfolding join_session new_session
work_file s c id vs = (
  join_session s id (new_session none (some c) none vs) (λ v. record v { file = some c })
      (load id s.sessions),
  set_alive c ∷ [],
)

work_config : Db → Bridge → ℕ → ℤ → Step
work_config db s c id = elim (get_client db id) [
  | none ↦ (s, close c ∷ [])
  | some client ↦
      if not (is_pub_client db id) && not client.config_conn_allow then (s, close c ∷ []) else (
        s,
        write_bool c (is_pub_client db id)
            ∷ start_config c (is_pub_client db id) client.id
            ∷ set_alive c
            ∷ [],
      )
]

work_secret : Bridge → ℕ → Option Bytes → Step
work_secret s c none = (s, set_alive c ∷ [])
work_secret s c (some b) = (s, send_secret b c ∷ set_alive c ∷ [])

-- case WORK_P2P: both sides get the address of the server. A provider without a signal is a nil
-- dereference.
work_p2p : Bridge → ℕ → Bytes → Bytes → Option Tunnel → Step
work_p2p s c svr_addr b none = (s, set_alive c ∷ [])
work_p2p s c svr_addr b (some t) = elim (load t.client s.sessions) [
  | none ↦ (s, [])
  | some v ↦ elim v.signal [
    | none ↦ (s, nil_panic ∷ [])
    | some sg ↦ (
      s,
      write sg (codes "udpc")
          ∷ write_len sg svr_addr
          ∷ write_len sg b
          ∷ write_len c svr_addr
          ∷ set_alive c
          ∷ [],
    )
  ]
]

-- `content` is what `GetShortContent(32)` reads, `none` for an error.
module _ (md5 : Bytes → Bytes) where
  work_p2p_read : Db → Bridge → ℕ → Bytes → Option Bytes → Step
  unfolding work_p2p
  work_p2p_read db s c svr_addr none = (s, set_alive c ∷ [])
  work_p2p_read db s c svr_addr (some b) =
      work_p2p s c svr_addr b (get_task_by_md5_password md5 db b)

  pub type_deal : Db → Bridge → Bytes → ℕ → ℤ → Bytes → Option Bytes → Bytes → Step
  unfolding work_main work_chan work_file work_config work_secret work_p2p_read
  type_deal db s type_val c id vs content svr_addr =
      if type_val == codes "main"
      then work_main db s c id vs
      else if type_val == codes "chan"
      then work_chan s c id vs
      else if type_val == codes "conf"
      then work_config db s c id
      else if type_val == codes "rgst"
      then (s, start_register c ∷ set_alive c ∷ [])
      else if type_val == codes "sert"
      then work_secret s c content
      else if type_val == codes "file"
      then work_file s c id vs
      else if type_val == codes "p2pm"
      then work_p2p_read db s c svr_addr content
      else (s, set_alive c ∷ [])

-- The range of `ping`: a session that lacks its signal or its tunnel has one more try, and the ids
-- to drop are listed. `is_close` is the state of the multiplexers.
unfoldable pub ping_session : (ℕ → Bool) → Session → Session × Bool
ping_session is_close v = elim v.tunnel [
  | none ↦ (record v { retry_time = v.retry_time + 1 }, leb 3 (v.retry_time + 1))
  | some t ↦ elim v.signal [
    | none ↦ (record v { retry_time = v.retry_time + 1 }, leb 3 (v.retry_time + 1))
    | some c ↦ (v, is_close t)
  ]
]

pub ping_dead : (ℕ → Bool) → Store ℤ Session → List ℤ
unfolding ping_session
ping_dead is_close [] = []
ping_dead is_close ((k, v) ∷ m) =
    let rest = ping_dead is_close m in if (ping_session is_close v).1 then k ∷ rest else rest

del_clients : Db → Bridge → List ℤ → Step
unfolding del_client
del_clients db s [] = (s, [])
del_clients db s (id ∷ ids) =
    let (s', es) = del_client db s id in let (s'', es') = del_clients db s' ids in (s'', es ++ es')

-- One tick of `ping`.
pub ping_tick : (ℕ → Bool) → Db → Bridge → Step
ping_tick is_close db s =
    del_clients db
      (record s { sessions = map_values (λ v. (ping_session is_close v).0) s.sessions })
      (ping_dead is_close s.sessions)
