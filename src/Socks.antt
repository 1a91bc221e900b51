-- ===== src/Socks.antt =====
-- lib/common/netpackager.go: the address of a SOCKS5 request and the UDP datagram around it. The
-- text of an IP address is package net, a parameter. A slice out of range is a panic.
pub mod Stream
pub mod Handshake
pub mod Requests
mod RoundTrip
mod Tests
use next_nps.Base.{
  ltb, leb, nat_beq, if◌then◌else◌, length, take, drop, replicate, Bytes, ℕ, ◌+◌, ◌-◌, ◌*◌, ◌/◌,
  ◌%◌, ◌&&◌, Option, none, some, [], ◌∷◌, ◌++◌,
}

pub record Addr : Type 0 where
  pub addr_type : ℕ
  pub host : Bytes
  pub port : ℕ

-- `net.ParseIP(host).To4()` and `.To16()`, and `net.IP.String()`.
pub record IpText : Type 0 where
  pub parse4 : Bytes → Option Bytes
  pub parse16 : Bytes → Option Bytes
  pub show_ip : Bytes → Bytes

pub data Outcome (A : Type 0) : Type 0 where
  ok : A → Outcome A
  err : Outcome A
  panic : Outcome A

abbrev pub ip_v4 : ℕ
ip_v4 = 1

abbrev pub domain_name : ℕ
domain_name = 3

abbrev pub ip_v6 : ℕ
ip_v6 = 4

-- `BigEndian.PutUint16`.
abbrev pub put_uint16 : ℕ → Bytes
put_uint16 n = (n / 256) % 256 ∷ n % 256 ∷ []

-- The port behind the host, and the end of `Decode`.
pub decode_port : ℕ → Bytes → Bytes → Outcome Addr
decode_port t host (a ∷ b ∷ rest) = ok (record { addr_type = t; host = host; port = 256 * a + b })
decode_port t host _ = panic

-- A host of `n` bytes.
pub decode_host : ℕ → (Bytes → Bytes) → ℕ → Bytes → Outcome Addr
unfolding decode_port
decode_host t text n b =
    if leb n (length b) then decode_port t (text (take n b)) (drop n b) else panic

pub decode_domain : Bytes → Outcome Addr
unfolding decode_host
decode_domain [] = panic
decode_domain (n ∷ b) = decode_host domain_name (λ h. h) n b

abbrev or_zeros : ℕ → Option Bytes → Bytes
or_zeros n none = replicate n 0
or_zeros n (some ip) = ip

module _ (net : IpText) where
  pub decode : Bytes → Outcome Addr
  decode [] = panic
  decode (t ∷ b) =
      if nat_beq t ip_v4
      then decode_host ip_v4 net.show_ip 4 b
      else if nat_beq t ip_v6
      then decode_host ip_v6 net.show_ip 16 b
      else if nat_beq t domain_name
      then decode_domain b
      else err

  -- What `Encode` writes ahead of the port. The length of a name is cut to a byte.
  pub encode_host : Addr → Bytes
  encode_host a =
      if nat_beq a.addr_type ip_v4
      then ip_v4 ∷ or_zeros 4 (net.parse4 a.host)
      else if nat_beq a.addr_type domain_name
      then domain_name ∷ length a.host % 256 ∷ a.host
      else if nat_beq a.addr_type ip_v6
      then ip_v6 ∷ or_zeros 16 (net.parse16 a.host)
      else ip_v4 ∷ replicate 4 0

  -- Into a buffer of `room` bytes.
  pub encode : ℕ → Addr → Outcome Bytes
  encode room a =
      let b = encode_host a ++ put_uint16 a.port in if leb (length b) room then ok b else panic

pub record UdpHeader : Type 0 where
  pub rsv : ℕ
  pub frag : ℕ
  pub addr : Addr

pub record UdpDatagram : Type 0 where
  pub header : UdpHeader
  pub payload : Bytes

-- `PoolSizeUdp`.
abbrev pub pool_size_udp : ℕ
pool_size_udp = 1672

-- The header's length by the address type, with the length byte of a name.
unfoldable pub header_length : ℕ → ℕ → Option ℕ
header_length atype n =
    if nat_beq atype ip_v4
    then some 10
    else if nat_beq atype ip_v6
    then some 22
    else if nat_beq atype domain_name
    then some (7 + n)
    else none

module _ (net : IpText) where
  with_addr : ℕ → ℕ → Bytes → Bytes → Outcome Addr → Outcome (UdpDatagram × Bytes)
  with_addr rsv frag payload rest (ok a) =
      ok (record { header = record { rsv = rsv; frag = frag; addr = a }; payload = payload }, rest)
  with_addr rsv frag payload rest err = err
  with_addr rsv frag payload rest panic = panic

  -- The datagram in the first `hlen + dlen` bytes of `b`.
  cut_datagram : ℕ → ℕ → ℕ → ℕ → Bytes → Outcome (UdpDatagram × Bytes)
  unfolding with_addr
  cut_datagram rsv frag hlen dlen b =
      with_addr rsv frag (take dlen (drop hlen b)) (drop (hlen + dlen) b)
        (decode net (drop 3 (take hlen b)))

  -- All that the reader has, or as much as the reserved field says. The buffer is of fixed size, and
  -- a slice of it beyond that is a panic; so is a payload of negative length.
  read_payload : ℕ → ℕ → Bytes → Option ℕ → Outcome (UdpDatagram × Bytes)
  unfolding cut_datagram
  read_payload rsv frag b none = err
  read_payload rsv frag b (some hlen) =
      if nat_beq rsv 0
      then (if leb hlen (length b) && leb (length b) pool_size_udp
          then cut_datagram rsv frag hlen (length b - hlen) b
          else panic)
      else if ltb pool_size_udp (hlen + rsv)
      then panic
      else if ltb (length b) (hlen + rsv)
      then err
      else cut_datagram rsv frag hlen rsv b

  -- `ReadUDPDatagram`, from the bytes that the reader will give. What stands behind the datagram is
  -- left to the next read.
  pub read_udp_datagram : Bytes → Outcome (UdpDatagram × Bytes)
  unfolding read_payload
  read_udp_datagram (a ∷ b ∷ f ∷ t ∷ n ∷ rest) =
      read_payload (256 * a + b) f (a ∷ b ∷ f ∷ t ∷ n ∷ rest) (header_length t n)
  read_udp_datagram _ = err

  with_body : UdpDatagram → Outcome Bytes → Outcome Bytes
  with_body d (ok addr) =
      ok (put_uint16 d.header.rsv ++ (d.header.frag % 256 ∷ (addr ++ d.payload)))
  with_body d err = err
  with_body d panic = panic

  -- `UDPDatagram.Write`: the header goes through a pooled buffer, of which three bytes are taken.
  pub write_udp_datagram : UdpDatagram → Outcome Bytes
  unfolding with_body
  write_udp_datagram d = with_body d (encode net (pool_size_udp - 3) d.header.addr)
