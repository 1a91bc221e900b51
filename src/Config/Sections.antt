-- ===== src/Config/Sections.antt =====
-- The sections of lib/config/config.go: each is a run over its lines, which sets a field of a record
-- by the key of the line.
use next_nps.File.{Client, Tunnel, Host, new_client, new_tunnel, new_host, Flow}
use next_nps.Wire.{get_bool_by_str}
use next_nps.Config.Lines.{
  split_str, trim_space, commas_to_lines, remove_text, item, get_int_no_err_by_str,
}
use next_nps.Base.{
  if◌then◌else◌, ◌==◌, Bytes, codes, contains, Store, store, Bool, true, false, Option, none, some,
  List, [], ◌∷◌, ◌++◌, nat_eq, bytes_eq,
}
use next_nps.Base.Int.{ℤ, pos, ℤ_eq}

pub record CommonConfig : Type 0 where
  pub server : Bytes
  pub v_key : Bytes
  pub tp : Bytes
  pub auto_reconnection : Bool
  pub proxy_url : Bytes
  pub client : Client
  pub disconnect_time : ℤ

pub record LocalServer : Type 0 where
  pub kind : Bytes
  pub port : ℤ
  pub ip : Bytes
  pub password : Bytes
  pub target : Bytes

-- The fields of `Health` that the file sets.
pub record Health : Type 0 where
  pub health_check_timeout : ℤ
  pub health_max_fail : ℤ
  pub health_check_interval : ℤ
  pub http_health_url : Bytes
  pub health_check_type : Bytes
  pub health_check_target : Bytes

-- A run over the lines of a text.
unfoldable pub over_lines : {A : Type 0} → (Bytes → Bytes → A → A) → List Bytes → A → A
over_lines f [] a = a
over_lines f (line ∷ lines) a = over_lines f lines (f (item line).0 (item line).1 a)

set_limit : ℤ → Option Flow → Option Flow
set_limit n none = none
set_limit n (some f) = some (record f { flow_limit = n })

-- The pprof server that `pprof_addr` starts is left out.
common_line : Bytes → Bytes → CommonConfig → CommonConfig
common_line key v c =
    let k = c.client in
    if key == codes "server_addr"
    then record c { server = v }
    else if key == codes "vkey"
    then record c { v_key = v }
    else if key == codes "conn_type"
    then record c { tp = v }
    else if key == codes "auto_reconnection"
    then record c { auto_reconnection = get_bool_by_str v }
    else if key == codes "basic_username"
    then record c { client = record k { cnf = record k.cnf { user = v } } }
    else if key == codes "basic_password"
    then record c { client = record k { cnf = record k.cnf { password = v } } }
    else if key == codes "web_password"
    then record c { client = record k { web_password = v } }
    else if key == codes "web_username"
    then record c { client = record k { web_user_name = v } }
    else if key == codes "compress"
    then record c { client = record k { cnf = record k.cnf { compress = get_bool_by_str v } } }
    else if key == codes "crypt"
    then record c { client = record k { cnf = record k.cnf { crypt = get_bool_by_str v } } }
    else if key == codes "proxy_url"
    then record c { proxy_url = v }
    else if key == codes "rate_limit"
    then record c { client = record k { rate_limit = get_int_no_err_by_str v } }
    else if key == codes "flow_limit"
    then record c { client = record k { flow = set_limit (get_int_no_err_by_str v) k.flow } }
    else if key == codes "max_conn"
    then record c { client = record k { max_conn = get_int_no_err_by_str v } }
    else if key == codes "remark"
    then record c { client = record k { remark = v } }
    else if key == codes "disconnect_timeout"
    then record c { disconnect_time = get_int_no_err_by_str v }
    else c

host_line : Bytes → Bytes → Host → Host
host_line name v h =
    let key = trim_space name in
    if key == codes "host"
    then record h { host = v }
    else if key == codes "target_addr"
    then record h { target = record h.target { target_str = commas_to_lines v } }
    else if key == codes "host_change"
    then record h { host_change = v }
    else if key == codes "scheme"
    then record h { scheme = v }
    else if key == codes "location"
    then record h { location = v }
    else if contains name (codes "header")
    then record h {
      header_change =
          h.header_change ++ (remove_text 0 (codes "header_") name ++ (b':' ∷ (v ++ (10 ∷ []))));
    }
    else h

health_line : Bytes → Bytes → Health → Health
health_line name v h =
    let key = trim_space name in
    if key == codes "health_check_timeout"
    then record h { health_check_timeout = get_int_no_err_by_str v }
    else if key == codes "health_check_max_failed"
    then record h { health_max_fail = get_int_no_err_by_str v }
    else if key == codes "health_check_interval"
    then record h { health_check_interval = get_int_no_err_by_str v }
    else if key == codes "health_http_url"
    then record h { http_health_url = v }
    else if key == codes "health_check_type"
    then record h { health_check_type = v }
    else if key == codes "health_check_target"
    then record h { health_check_target = v }
    else h

local_line : Bytes → Bytes → LocalServer → LocalServer
local_line key v l =
    if key == codes "local_port"
    then record l { port = get_int_no_err_by_str v }
    else if key == codes "local_ip"
    then record l { ip = v }
    else if key == codes "password"
    then record l { password = v }
    else if key == codes "target_addr"
    then record l { target = v }
    else l

user_line : Bytes → Bytes → Store Bytes Bytes → Store Bytes Bytes
unfolding store
user_line key v m = store (trim_space key) v m

-- A file that a section names: it is not there, it cannot be read (or is no template), or its text.
pub data FileText : Type 0 where
  missing : FileText
  unreadable : FileText
  text : Bytes → FileText

module _ (windows : Bool) where
  pub deal_common : Bytes → CommonConfig
  deal_common s = over_lines common_line (split_str windows s) (record {
    server = [];
    v_key = [];
    tp = [];
    auto_reconnection = false;
    proxy_url = [];
    client = new_client [] true true;
    disconnect_time = pos 0;
  })

  -- Of the records, `new_host` and `new_tunnel` have a flow where the source has nil.
  pub deal_host : Bytes → Host
  deal_host s =
      over_lines host_line (split_str windows s) (record new_host { scheme = codes "all" })

  pub deal_health : Bytes → Health
  deal_health s = over_lines health_line (split_str windows s) (record {
    health_check_timeout = pos 0;
    health_max_fail = pos 0;
    health_check_interval = pos 0;
    http_health_url = [];
    health_check_type = [];
    health_check_target = [];
  })

  pub deal_multi_user : Bytes → Store Bytes Bytes
  deal_multi_user s = over_lines user_line (split_str windows s) []

  pub del_local_service : Bytes → LocalServer
  del_local_service s =
      over_lines local_line (split_str windows s)
        (record { kind = []; port = pos 0; ip = []; password = []; target = [] })

  -- The accounts of a file; a file that cannot be read is a panic, `none`.
  accounts_of : FileText → Option (Store Bytes Bytes)
  accounts_of missing = some []
  accounts_of unreadable = none
  accounts_of (text s) = some (deal_multi_user s)

  with_accounts : Tunnel → Option (Store Bytes Bytes) → Option Tunnel
  with_accounts t none = none
  with_accounts t (some m) = some (record t { multi_account = some m })

  tunnel_line : (Bytes → FileText) → Bytes → Bytes → Tunnel → Option Tunnel
  tunnel_line files name v t =
      let key = trim_space name in
      if key == codes "server_port"
      then some (record t { ports = v })
      else if key == codes "server_ip"
      then some (record t { server_ip = v })
      else if key == codes "mode"
      then some (record t { mode = v })
      else if key == codes "target_addr"
      then some (record t { target = record t.target { target_str = commas_to_lines v } })
      else if key == codes "target_port"
      then some (record t { target = record t.target { target_str = v } })
      else if key == codes "target_ip"
      then some (record t { target_addr = v })
      else if key == codes "password"
      then some (record t { password = v })
      else if key == codes "local_path"
      then some (record t { local_path = v })
      else if key == codes "strip_pre"
      then some (record t { strip_pre = v })
      else if key == codes "multi_account"
      then with_accounts t (accounts_of (files v))
      else some t

  and_line : (Bytes → FileText) → Bytes → Option Tunnel → Option Tunnel
  and_line files line none = none
  and_line files line (some t) = tunnel_line files (item line).0 (item line).1 t

  tunnel_lines : (Bytes → FileText) → List Bytes → Option Tunnel → Option Tunnel
  tunnel_lines files [] t = t
  tunnel_lines files (line ∷ lines) t = tunnel_lines files lines (and_line files line t)

  pub deal_tunnel : (Bytes → FileText) → Bytes → Option Tunnel
  deal_tunnel files s = tunnel_lines files (split_str windows s) (some new_tunnel)
