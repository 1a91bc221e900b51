-- ===== src/Socks/Requests/Connect.antt =====
-- A connect request of server/proxy/socks5.go, from the greeting to the bridge.
use next_nps.Socks.{put_uint16}
use next_nps.Socks.Stream.{Stream, read, read_all, read_front, read_all_front, read_all_next}
use next_nps.Socks.Handshake.{Login, needs_auth}
use next_nps.Socks.Handshake.Auth.{IsAccount, auth_message}
use next_nps.Socks.Handshake.Logins.{negotiate_accepts}
use next_nps.Socks.Requests.{
  Net, Effect, write, deal_client, host_name, host_domain, host_of, read_addr, with_port, with_host,
  do_connect, request_header, handle_request, after_negotiation, handle_conn,
}
use next_nps.Base.{
  length, replicate, Bytes, codes, ℕ, ◌+◌, ◌-◌, ◌*◌, ◌/◌, ◌%◌, ◌<◌, ◌≡◌, ap, ◌∙◌, true, List, [],
  ◌∷◌, ◌++◌, append-nil, arith,
}

-- A connect request for a named host.
abbrev pub connect_message : Bytes → ℕ → Bytes
connect_message host port = 5 ∷ 1 ∷ 0 ∷ 3 ∷ length host ∷ (host ++ put_uint16 port)

module _ (net : Net) where
  fill_all : (b : Bytes) → b ++ replicate (length b - length b) 0 ≡ b
  fill_all b = let e : length b - length b ≡ 0 = omega arith in rw e (append-nil b)

  do_connect_lem :
      (host : Bytes) (port : ℕ) (cs : Stream)
      → port < 65536
      → do_connect net ((3 ∷ length host ∷ (host ++ put_uint16 port)) ∷ cs)
        ≡ deal_client (net.join_host_port host port) (codes "tcp") ∷ []
  unfolding do_connect read_addr host_of host_domain host_name with_host with_port read read_all
  do_connect_lem host port cs h =
      let f : Bytes → ℕ → List Effect =
        λ a p. deal_client (net.join_host_port a p) (codes "tcp") ∷ [] in
      let p : 256 * ((port / 256) % 256) + port % 256 ≡ port = omega arith in
      ap (λ r. with_host net f (host_domain net r))
        (read_all_front (length host ∷ []) (host ++ put_uint16 port) cs)
      ∙ ap (λ r. with_host net f (host_name net (length host) r))
          (read_front host (put_uint16 port) cs)
      ∙ ap (λ b. with_port net f b (read_all 2 (put_uint16 port ∷ cs))) (fill_all host)
      ∙ ap (with_port net f host) (read_all_front (put_uint16 port) [] cs)
      ∙ ap (f host) p

  handle_request_lem :
      (host : Bytes) (port : ℕ) (cs : Stream)
      → port < 65536
      → handle_request net ([] ∷ connect_message host port ∷ cs)
        ≡ deal_client (net.join_host_port host port) (codes "tcp") ∷ []
  unfolding handle_request request_header
  handle_request_lem host port cs h =
      ap (request_header net) (
        read_all_next 2 (connect_message host port ∷ cs)
        ∙ read_all_front (5 ∷ 1 ∷ 0 ∷ []) (3 ∷ length host ∷ (host ++ put_uint16 port)) cs)
      ∙ do_connect_lem host port cs h

  -- On a connection where the greeting, the login and the request arrive in one piece each and where
  -- writes succeed, to a server that asks for a login: a client that logs in with an account and then
  -- asks for a named host and a port below 65536 is handed to the bridge with that host and port, and
  -- what it is sent before are the two answers of the login.
  pub handle_conn_connect :
      (l : Login) (ms sent pass host : Bytes) (port : ℕ) (cs : Stream)
      → needs_auth l ≡ true
      → IsAccount l sent pass
      → port < 65536
      → handle_conn net l true
          ((5 ∷ length ms ∷ ms) ∷ (1 ∷ auth_message sent pass []) ∷ connect_message host port ∷ cs)
        ≡ write (5 ∷ 2 ∷ [])
          ∷ write (1 ∷ 0 ∷ [])
          ∷ deal_client (net.join_host_port host port) (codes "tcp")
          ∷ []
  unfolding handle_conn after_negotiation
  handle_conn_connect l ms sent pass host port cs a i h =
      ap (after_negotiation net)
        (negotiate_accepts l ms sent pass (connect_message host port ∷ cs) a i)
      ∙ ap (λ r. write (5 ∷ 2 ∷ []) ∷ write (1 ∷ 0 ∷ []) ∷ r) (handle_request_lem host port cs h)
