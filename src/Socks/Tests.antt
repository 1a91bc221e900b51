-- ===== src/Socks/Tests.antt =====
-- A datagram to a named host, and a header that claims too much.
use next_nps.Base.{Bytes, codes, ◌≡◌, refl, inl, none, ◌++◌, arith}
use next_nps.Socks.{IpText, ok, UdpDatagram, encode_host, read_udp_datagram, write_udp_datagram}
use next_nps.Socks.RoundTrip.{read_udp_datagram-write_udp_datagram}

abbrev no_ips : IpText
no_ips = record { parse4 = λ b. none; parse16 = λ b. none; show_ip = λ b. b }

abbrev query : UdpDatagram
query = record {
  header = record {
    rsv = 2;
    frag = 0;
    addr = record { addr_type = 3; host = codes "dns.test"; port = 53 };
  };
  payload = codes "hi";
}

read_udp_datagram-write_udp_datagram_example :
    (b : Bytes) × (write_udp_datagram no_ips query ≡ ok b)
    × (read_udp_datagram no_ips (b ++ codes "more") ≡ ok (query, codes "more"))
unfolding encode_host
read_udp_datagram-write_udp_datagram_example =
    read_udp_datagram-write_udp_datagram no_ips query (codes "more") (inl (refl, omega arith))
      (omega arith) (omega arith) refl (omega arith) (omega arith)
