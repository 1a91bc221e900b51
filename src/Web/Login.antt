-- ===== src/Web/Login.antt =====
-- web/controllers/login.go: the login. An address has a count of failures and the time of the last;
-- a session is what the login sets. Times are seconds.
mod Admission
mod Guard
mod Tests
use next_nps.File.{Client, new_client}
use next_nps.Db.Routing.{get_ip_by_addr}
use next_nps.Db.{Db, DbError, get_client_id, new_client_entry}
use next_nps.Base.{
  leb, if◌then◌else◌, ◌==◌, Bytes, codes, Store, load, store, delete, find_value, ℕ, ◌+◌, ◌-◌, Bool,
  true, false, not, ◌&&◌, ◌||◌, Option, none, some, List, [], ◌∷◌, nat_eq, bytes_eq,
}
use next_nps.Base.Int.{ℤ, ℤ_eq}

pub record LoginFailures : Type 0 where
  pub has_login_fail_times : ℕ
  pub last_login_time : ℕ

pub record LoginSession : Type 0 where
  pub is_auth : Bool
  pub is_admin : Option Bool
  pub client_id : Option ℤ
  pub username : Option Bytes

-- `admin` and `password` are those of the configuration.
pub record WebConfig : Type 0 where
  pub web_username : Bytes
  pub web_password : Bytes
  pub allow_user_login : Bool
  pub allow_user_register : Bool

-- `register` is the bridge's, with the time until which an address is let in.
pub record Logins : Type 0 where
  pub ip_record : Store Bytes LoginFailures
  pub session : LoginSession
  pub register : Store Bytes ℕ

-- A failure of the last minute counts.
abbrev is_old : ℕ → LoginFailures → Bool
is_old now v = leb 60 (now - v.last_login_time)

unfoldable pub forget_old : ℕ → LoginFailures → LoginFailures
forget_old now v = if is_old now v then record v { has_login_fail_times = 0 } else v

-- A client that may log in with the name and the password. Without a web login of its own it is
-- `user` and its key.
unfoldable pub login_fits : Bytes → Bytes → Client → Bool
login_fits username password v =
    if not v.status || v.no_display
    then false
    else if v.web_user_name == [] && v.web_password == []
    then username == codes "user" && v.verify_key == password
    else v.web_password == password && v.web_user_name == username

user_session : LoginSession → Option Client → LoginSession × Bool
user_session s none = (s, false)
user_session s (some v) = (
  record s { is_admin = some false; client_id = some v.id; username = some v.web_user_name },
  true,
)

abbrev pub is_admin_login : WebConfig → Bytes → Bytes → Bool
is_admin_login cfg username password = password == cfg.web_password && username == cfg.web_username

-- The session, and whether someone is logged in.
log_in : WebConfig → Db → Bytes → Bytes → LoginSession → LoginSession × Bool
log_in cfg db username password s =
    if is_admin_login cfg username password
    then (record s { is_admin = some true; client_id = none; username = none }, true)
    else if cfg.allow_user_login
    then user_session s (find_value (login_fits username password) db.clients)
    else (s, false)

-- A failure that is not the first is counted only where the login was asked for.
count_failure : ℕ → Bool → Option LoginFailures → LoginFailures
count_failure now explicit none = record { has_login_fail_times = 1; last_login_time = now }
count_failure now explicit (some v) =
    if explicit
    then record { has_login_fail_times = v.has_login_fail_times + 1; last_login_time = now }
    else v

finish : ℕ → Bytes → Bool → Logins → LoginSession × Bool → Logins × Bool
finish now ip explicit s (session, true) = (
  record s { ip_record = delete ip s.ip_record; session = record session { is_auth = true } },
  true,
)
finish now ip explicit s (session, false) = (
  record s {
    ip_record = store ip (count_failure now explicit (load ip s.ip_record)) s.ip_record;
    session = session;
  },
  false,
)

-- `clearIprecord`, which one call in a hundred does.
unfoldable pub clear_ip_record : Bool → ℕ → Store Bytes LoginFailures → Store Bytes LoginFailures
clear_ip_record chosen now [] = []
clear_ip_record chosen now ((ip, v) ∷ m) =
    let rest = clear_ip_record chosen now m in
    if chosen && is_old now v then rest else (ip, v) ∷ rest

is_locked : Option LoginFailures → Bool
is_locked none = false
is_locked (some v) = leb 10 v.has_login_fail_times

note_time : ℕ → Bytes → Store Bytes LoginFailures → Option LoginFailures → Store Bytes LoginFailures
note_time now ip m none = m
note_time now ip m (some v) = store ip (forget_old now v) m

-- The administrator's address may connect to the bridge for two hours.
abbrev admit : WebConfig → ℕ → Bytes → Bytes → Bytes → Logins → Logins
admit cfg now username password input_ip s =
    if is_admin_login cfg username password
    then record s { register = store (get_ip_by_addr input_ip) (now + 7200) s.register }
    else s

login_from : WebConfig → Db → ℕ → Bytes → Bytes → Bytes → Bytes → Bool → Logins → Logins × Bool
login_from cfg db now ip username password input_ip explicit s =
    if is_locked (load ip s.ip_record)
    then (s, false)
    else finish now ip explicit (admit cfg now username password input_ip s)
        (log_in cfg db username password s.session)

-- `doLogin`, from the address `ip`, with the address `input_ip` that `Input.IP` of beego reads, which
-- a proxy can have given; `explicit` is false for the try of the login page.
pub do_login :
    WebConfig → Db → Bool → ℕ → Bytes → Bytes → Bytes → Bytes → Bool → Logins → Logins × Bool
do_login cfg db chosen now ip username password input_ip explicit s =
    let m = clear_ip_record chosen now s.ip_record in
    login_from cfg db now ip username password input_ip explicit
      (record s { ip_record = note_time now ip m (load ip m) })

-- The client that a registration makes, under an id from the counter.
register_answer : Db × Client × Option DbError → Db × Bool
register_answer (db, c, none) = (db, true)
register_answer (db, c, some e) = (db, false)

-- `Register`, of a form that is sent.
pub register_user : WebConfig → Bytes → Bytes → List Bytes → Db → Db × Bool
register_user cfg username password draws db =
    if not cfg.allow_user_register
    then (db, false)
    else if username == [] || password == [] || username == cfg.web_username
    then (db, false)
    else let (db', id) = get_client_id db in
      register_answer (
        new_client_entry db'
          (record (new_client [] false false) {
            id = id;
            web_user_name = username;
            web_password = password;
          })
          draws)

-- `Out`.
pub out : LoginSession → LoginSession
out s = record s { is_auth = false }
