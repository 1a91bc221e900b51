-- ===== src/Socks/Requests.antt =====
-- server/proxy/socks5.go: the requests of a SOCKS5 connection, behind the negotiation. The short
-- reads of an address leave zeros in its buffer, and the errors of reads are dropped.
mod Connect
mod Tests
use next_nps.Socks.{ip_v4, domain_name, ip_v6, put_uint16}
use next_nps.Socks.Stream.{Stream, read, read_all}
use next_nps.Socks.Handshake.{Login, Step, go_on, closed, negotiate}
use next_nps.Base.{
  nat_beq, if◌then◌else◌, length, replicate, Bytes, codes, ℕ, ◌+◌, ◌-◌, ◌*◌, Bool, Option, none,
  some, List, [], ◌∷◌, ◌++◌, map,
}

-- `net.IP.String`, `net.JoinHostPort` with the port's decimal digits, and the local address of the
-- connection: `net.ParseIP(..).To4()`, which is nil for an address of version 6, and the port.
pub record Net : Type 0 where
  pub show_ip : Bytes → Bytes
  pub join_host_port : Bytes → ℕ → Bytes
  pub local_ip : Option Bytes
  pub local_port : ℕ

-- What the server does with the connection, in order. `deal_client` hands it to the bridge, with the
-- address to connect to; once that is done, `succeeded` is written.
pub data Effect : Type 0 where
  write : Bytes → Effect
  deal_client : Bytes → Bytes → Effect
  associate : Bytes → ℕ → Effect
  close : Effect

abbrev pub succeeded : ℕ
succeeded = 0

abbrev pub command_not_supported : ℕ
command_not_supported = 7

abbrev pub addr_type_not_supported : ℕ
addr_type_not_supported = 8

abbrev or_nil : Option Bytes → Bytes
or_nil none = []
or_nil (some ip) = ip

-- `make` of `n` bytes, and what a read put there.
abbrev fill : ℕ → Option Bytes → Bytes
fill n none = replicate n 0
fill n (some b) = b ++ replicate (n - length b) 0

-- `binary.Read` of a byte or a port: it stays 0 on an error.
abbrev byte_or_zero : Option Bytes → ℕ
byte_or_zero (some (b ∷ _)) = b
byte_or_zero _ = 0

abbrev port_or_zero : Option Bytes → ℕ
port_or_zero (some (a ∷ b ∷ _)) = 256 * a + b
port_or_zero _ = 0

module _ (net : Net) where
  -- `sendReply`.
  pub send_reply : ℕ → Bytes
  send_reply rep = (5 ∷ rep ∷ 0 ∷ 1 ∷ []) ++ (or_nil net.local_ip ++ put_uint16 net.local_port)

  -- The host by the type of its address, and what is left; `none` for another type.
  host_ip : ℕ → Option Bytes × Stream → Option Bytes × Stream
  host_ip n (b, s) = (some (net.show_ip (fill n b)), s)

  host_name : ℕ → Option Bytes × Stream → Option Bytes × Stream
  host_name n (b, s) = (some (fill n b), s)

  host_domain : Option Bytes × Stream → Option Bytes × Stream
  host_domain (n, s) = host_name (byte_or_zero n) (read (byte_or_zero n) s)

  host_of : ℕ → Stream → Option Bytes × Stream
  host_of t s =
      if nat_beq t ip_v4
      then host_ip 4 (read 4 s)
      else if nat_beq t ip_v6
      then host_ip 16 (read 16 s)
      else if nat_beq t domain_name
      then host_domain (read_all 1 s)
      else (none, s)

  read_addr : Option Bytes × Stream → Option Bytes × Stream
  read_addr (t, s) = host_of (byte_or_zero t) s

  with_port : (Bytes → ℕ → List Effect) → Bytes → Option Bytes × Stream → List Effect
  with_port f host (p, s) = f host (port_or_zero p)

  -- An address of another type gets a reply, and the connection stays open.
  with_host : (Bytes → ℕ → List Effect) → Option Bytes × Stream → List Effect
  with_host f (some host, s) = with_port f host (read_all 2 s)
  with_host f (none, s) = write (send_reply addr_type_not_supported) ∷ []

  -- `doConnect` for the connect command.
  pub do_connect : Stream → List Effect
  do_connect s =
      with_host (λ host port. deal_client (net.join_host_port host port) (codes "tcp") ∷ [])
        (read_addr (read 1 s))

  -- `handleUDP`, up to the socket that it opens; `c` is closed at the end.
  pub handle_udp : Stream → List Effect
  handle_udp s =
      with_host (λ host port. associate host port ∷ []) (read_addr (read 1 s)) ++ (close ∷ [])

  request_header : Option Bytes × Stream → List Effect
  request_header (some (v ∷ cmd ∷ _), s) =
      if nat_beq cmd 1
      then do_connect s
      else if nat_beq cmd 2
      then []
      else if nat_beq cmd 3
      then handle_udp s
      else write (send_reply command_not_supported) ∷ close ∷ []
  request_header (_, s) = close ∷ []

  -- `handleRequest`; `handleBind` does nothing.
  pub handle_request : Stream → List Effect
  handle_request s = request_header (read_all 3 s)

  after_negotiation : Step → List Effect
  after_negotiation (go_on ws s) = map write ws ++ handle_request s
  after_negotiation (closed ws) = map write ws ++ (close ∷ [])

  -- `handleConn`.
  pub handle_conn : Login → Bool → Stream → List Effect
  handle_conn l writes s = after_negotiation (negotiate l writes s)
