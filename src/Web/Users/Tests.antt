-- ===== src/Web/Users/Tests.antt =====
-- A user asks for the tunnel of another, and for the service of id 0.
use next_nps.File.{Tunnel, new_tunnel}
use next_nps.Bridge.{Bridge}
use next_nps.Web.Clients.{Asker}
use next_nps.Server.{Server, System}
use next_nps.Web.Forms.{Form, get_int_no_err}
use next_nps.Web.Users.{belongs_task, may_index, check_user_auth}
use next_nps.Config.Lines.{signed}
use next_nps.Ports.{unsigned}
use next_nps.Base.{
  if◌then◌else◌, ◌==◌, Bytes, codes, bytes_beq, has_prefix, contains, digits_value, load, ◌≡◌, refl,
  true, false, some, [], ◌∷◌, nat_eq, bytes_eq,
}
use next_nps.Base.Int.{pos, ℤ_beq, ℤ_eq}

abbrev others : Tunnel
others = record new_tunnel { id = pos 2; mode = codes "tcp"; client = pos 8; status = true }

abbrev shared_server : Server
shared_server = record {
  db = record {
    tasks = (pos 2, others) ∷ [];
    hosts = [];
    clients = [];
    client_increase_id = pos 8;
    task_increase_id = pos 2;
    host_increase_id = pos 0;
    task_file = [];
    host_file = [];
    client_file = [];
  };
  run_list = (pos 2, some (codes "tcp")) ∷ (pos 0, some (codes "httpHostServer")) ∷ [];
}

abbrev any_system : System
any_system = record { port_free = λ p m. true; closes = λ v. true }

abbrev form_of_id : Bytes → Form
form_of_id id = record { query = λ key. if key == codes "id" then id else []; escape = λ b. b }

-- The service of id 0 is that of all hosts.
stop_all_hosts :
    (check_user_auth (pos 7) (codes "index") (codes "stop") (form_of_id (codes "2")) shared_server
      ≡ false)
    × (check_user_auth (pos 7) (codes "index") (codes "stop") (form_of_id (codes "0")) shared_server
        ≡ true)
unfolding check_user_auth may_index get_int_no_err signed unsigned digits_value bytes_beq contains
    has_prefix load ℤ_beq belongs_task
stop_all_hosts = (refl, refl)

abbrev no_sessions : Bridge
no_sessions = record { sessions = []; register = []; run_list = []; ip_verify = false }

abbrev asker : Asker
asker = record { is_admin = false; admin_name = codes "admin"; allow_user_change_username = true }
