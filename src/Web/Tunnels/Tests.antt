-- ===== src/Web/Tunnels/Tests.antt =====
-- A form of a client whose limit is one tunnel, and who has it.
use next_nps.File.{Client, new_client, new_tunnel}
use next_nps.Db.{get_client, get_tunnel_num}
use next_nps.Server.{Server, System}
use next_nps.Web.Forms.{Form, get_int_no_err}
use next_nps.Web.Tunnels.{add}
use next_nps.Web.Tunnels.Limits.{add-Within}
use next_nps.Config.Lines.{signed}
use next_nps.Ports.{unsigned}
use next_nps.Base.{
  if◌then◌else◌, ◌==◌, codes, bytes_beq, digits_value, load, filter_values, ◌≤◌, refl, true, false,
  [], ◌∷◌, arith, nat_eq, bytes_eq,
}
use next_nps.Base.Int.{pos, ℤ_beq, ℤ_eq}

abbrev limited : Client
limited = record (new_client [] false false) { id = pos 8; max_tunnel_num = pos 1 }

abbrev full_server : Server
full_server = record {
  db = record {
    tasks = (pos 2, record new_tunnel { id = pos 2; client = pos 8 }) ∷ [];
    hosts = [];
    clients = (pos 8, limited) ∷ [];
    client_increase_id = pos 8;
    task_increase_id = pos 2;
    host_increase_id = pos 0;
    task_file = [];
    host_file = [];
    client_file = [];
  };
  run_list = [];
}

abbrev free_ports : System
free_ports = record { port_free = λ p m. true; closes = λ v. true }

abbrev form_of_client : Form
form_of_client = record {
  query = λ key. if key == codes "client_id" then codes "8" else [];
  escape = λ b. b;
}

add-Within_example : get_tunnel_num (add free_ports form_of_client full_server).0.db limited ≤ 1
unfolding get_client get_tunnel_num get_int_no_err signed unsigned digits_value bytes_beq load
    filter_values ℤ_beq new_client
add-Within_example =
    add-Within free_ports limited 1 form_of_client full_server refl refl (omega arith) (omega arith)
