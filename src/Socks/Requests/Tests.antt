-- ===== src/Socks/Requests/Tests.antt =====
-- A connect request after a login, and the reply of a server with an address of version 6.
use next_nps.Socks.{put_uint16}
use next_nps.Socks.Handshake.{Login, needs_auth}
use next_nps.Socks.Handshake.Auth.{auth_message}
use next_nps.Socks.Requests.{Net, write, deal_client, send_reply, handle_conn}
use next_nps.Socks.Requests.Connect.{connect_message, handle_conn_connect}
use next_nps.Base.{codes, load, ◌≡◌, refl, true, none, some, [], ◌∷◌, ◌++◌, arith, nat_eq, bytes_eq}

abbrev v6_net : Net
v6_net = record {
  show_ip = λ b. b;
  join_host_port = λ h p. h ++ (b':' ∷ put_uint16 p);
  local_ip = none;
  local_port = 1080;
}

-- Six bytes, where a reply with an address of version 4 has ten.
v6_reply : send_reply v6_net 0 ≡ 5 ∷ 0 ∷ 0 ∷ 1 ∷ 4 ∷ 56 ∷ []
unfolding send_reply
v6_reply = refl

abbrev team_login : Login
team_login = record { accounts = some ((codes "ann", codes "x") ∷ []); user = []; password = [] }

handle_conn_connect_example :
    handle_conn v6_net team_login true (
      (5 ∷ 1 ∷ 2 ∷ [])
      ∷ (1 ∷ auth_message (codes "ann") (codes "x") [])
      ∷ connect_message (codes "a.io") 443
      ∷ [])
    ≡ write (5 ∷ 2 ∷ [])
      ∷ write (1 ∷ 0 ∷ [])
      ∷ deal_client (v6_net.join_host_port (codes "a.io") 443) (codes "tcp")
      ∷ []
unfolding needs_auth load
handle_conn_connect_example =
    handle_conn_connect v6_net team_login (2 ∷ []) (codes "ann") (codes "x") (codes "a.io") 443 []
      refl refl (omega arith)
