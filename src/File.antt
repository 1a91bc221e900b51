-- ===== src/File.antt =====
-- lib/file/obj.go: the stored records and their small methods. An int is an integer of `Base.Int`,
-- a string is a list of bytes, and a pointer to a client inside a tunnel or a host is the id of
-- that client, which is all that the code reads through it to compare owners. Locks are not
-- modelled: each method runs as one step.
mod Clients
mod Race
mod Targets
mod Tests
use next_nps.Base.{
  if◌then◌else◌, ◌==◌, Bytes, Store, Bool, true, false, ◌||◌, Option, none, some, List, [], nat_eq,
  bytes_eq,
}
use next_nps.Base.Int.{ℤ, pos, ◌+ℤ◌, ◌-ℤ◌, ltb_ℤ, int32, int64, ℤ_eq}

pub record Flow : Type 0 where
  pub export_flow : ℤ
  pub inlet_flow : ℤ
  pub flow_limit : ℤ

abbrev pub new_flow : Flow
new_flow = record { export_flow = pos 0; inlet_flow = pos 0; flow_limit = pos 0 }

unfoldable pub flow_add : Flow → ℤ → ℤ → Flow
flow_add s inlet outlet = record s {
  inlet_flow = int64 (s.inlet_flow +ℤ inlet);
  export_flow = int64 (s.export_flow +ℤ outlet);
}

pub record Config : Type 0 where
  pub user : Bytes
  pub password : Bytes
  pub compress : Bool
  pub crypt : Bool

abbrev pub new_config : Config
new_config = record { user = []; password = []; compress = false; crypt = false }

-- `rate` is the add size of the limiter that the pointer leads to.
pub record Client : Type 0 where
  pub cnf : Config
  pub id : ℤ
  pub verify_key : Bytes
  pub addr : Bytes
  pub remark : Bytes
  pub status : Bool
  pub is_connect : Bool
  pub rate_limit : ℤ
  pub flow : Option Flow
  pub rate : Option ℤ
  pub no_store : Bool
  pub no_display : Bool
  pub max_conn : ℤ
  pub now_conn : ℤ
  pub web_user_name : Bytes
  pub web_password : Bytes
  pub config_conn_allow : Bool
  pub max_tunnel_num : ℤ
  pub version : Bytes

unfoldable pub new_client : Bytes → Bool → Bool → Client
new_client v_key no_store no_display = record {
  cnf = new_config;
  id = pos 0;
  verify_key = v_key;
  addr = [];
  remark = [];
  status = true;
  is_connect = false;
  rate_limit = pos 0;
  flow = some new_flow;
  rate = none;
  no_store = no_store;
  no_display = no_display;
  max_conn = pos 0;
  now_conn = pos 0;
  web_user_name = [];
  web_password = [];
  config_conn_allow = false;
  max_tunnel_num = pos 0;
  version = [];
}

-- The source names them the other way round: `CutConn` takes a slot, `AddConn` gives one back.
unfoldable pub cut_conn : Client → Client
cut_conn s = record s { now_conn = int32 (s.now_conn +ℤ pos 1) }

unfoldable pub add_conn : Client → Client
add_conn s = record s { now_conn = int32 (s.now_conn -ℤ pos 1) }

unfoldable pub get_conn : Client → Client × Bool
unfolding cut_conn
get_conn s =
    if s.max_conn == pos 0 || ltb_ℤ s.now_conn s.max_conn then (cut_conn s, true) else (s, false)

-- `target_arr` is `none` where the Go slice is nil.
pub record Target : Type 0 where
  pub now_index : ℤ
  pub target_str : Bytes
  pub target_arr : Option (List Bytes)
  pub local_proxy : Bool

abbrev pub new_target : Target
new_target = record { now_index = pos 0; target_str = []; target_arr = none; local_proxy = false }

-- What the code reads and writes of a tunnel. `health_remove_arr` is the field of the embedded
-- `Health`, where nil and empty are never told apart.
pub record Tunnel : Type 0 where
  pub id : ℤ
  pub port : ℤ
  pub server_ip : Bytes
  pub mode : Bytes
  pub status : Bool
  pub run_status : Bool
  pub client : ℤ
  pub ports : Bytes
  pub flow : Flow
  pub password : Bytes
  pub remark : Bytes
  pub target_addr : Bytes
  pub no_store : Bool
  pub local_path : Bytes
  pub strip_pre : Bytes
  pub target : Target
  pub multi_account : Option (Store Bytes Bytes)
  pub health_remove_arr : List Bytes

-- `new(Tunnel)`, with a `Target` of its own.
abbrev pub new_tunnel : Tunnel
new_tunnel = record {
  id = pos 0;
  port = pos 0;
  server_ip = [];
  mode = [];
  status = false;
  run_status = false;
  client = pos 0;
  ports = [];
  flow = new_flow;
  password = [];
  remark = [];
  target_addr = [];
  no_store = false;
  local_path = [];
  strip_pre = [];
  target = new_target;
  multi_account = none;
  health_remove_arr = [];
}

pub record Host : Type 0 where
  pub id : ℤ
  pub host : Bytes
  pub header_change : Bytes
  pub host_change : Bytes
  pub location : Bytes
  pub remark : Bytes
  pub scheme : Bytes
  pub cert_file_path : Bytes
  pub key_file_path : Bytes
  pub no_store : Bool
  pub is_close : Bool
  pub flow : Flow
  pub client : ℤ
  pub target : Target
  pub health_remove_arr : List Bytes

abbrev pub new_host : Host
new_host = record {
  id = pos 0;
  host = [];
  header_change = [];
  host_change = [];
  location = [];
  remark = [];
  scheme = [];
  cert_file_path = [];
  key_file_path = [];
  no_store = false;
  is_close = false;
  flow = new_flow;
  client = pos 0;
  target = new_target;
  health_remove_arr = [];
}
