-- ===== src/Web/Login/Tests.antt =====
-- A login after ten failures, and one of a client that has no web login of its own.
use next_nps.File.{Client, new_client}
use next_nps.Db.{Db}
use next_nps.Web.Login.{
  LoginFailures, LoginSession, WebConfig, do_login, login_fits, log_in, user_session, finish,
  clear_ip_record, is_locked, note_time, login_from,
}
use next_nps.Web.Login.Guard.{MayLogIn, do_login_sound}
use next_nps.Base.{
  codes, bytes_beq, load, find_value, refl, true, false, none, [], ◌∷◌, nat_eq, bytes_eq,
}
use next_nps.Base.Int.{pos, ℤ_eq}

abbrev web : WebConfig
web = record {
  web_username = codes "admin";
  web_password = codes "123";
  allow_user_login = true;
  allow_user_register = false;
}

abbrev keyed_client : Client
keyed_client = record (new_client (codes "k") false false) { id = pos 1 }

abbrev one_client : Db
one_client = record {
  tasks = [];
  hosts = [];
  clients = (pos 1, keyed_client) ∷ [];
  client_increase_id = pos 1;
  task_increase_id = pos 0;
  host_increase_id = pos 0;
  task_file = [];
  host_file = [];
  client_file = [];
}

abbrev nobody : LoginSession
nobody = record { is_auth = false; is_admin = none; client_id = none; username = none }

abbrev tried : LoginFailures
tried = record { has_login_fail_times = 10; last_login_time = 100 }

do_login_sound_example : MayLogIn web one_client (codes "user") (codes "k")
unfolding do_login login_from log_in user_session finish clear_ip_record is_locked note_time load
    find_value bytes_beq login_fits new_client
do_login_sound_example =
    do_login_sound web one_client (codes "user") (codes "k") false 120 (codes "::1")
      (codes "1.2.3.4") true (record { ip_record = []; session = nobody; register = [] }) refl
