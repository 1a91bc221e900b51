-- ===== src/Socks/RoundTrip.antt =====
-- Addresses and datagrams come back from their encoding, and headers that claim too much.
use next_nps.Base.{
  length, take, drop, length-append, take-append, drop-append, Bytes, ℕ, suc, ◌+◌, ◌-◌, ◌*◌, ◌/◌,
  ◌%◌, ◌≤◌, ◌<◌, ◌≡◌, refl, sym, ap, ◌∙◌, ◌⊎◌, inl, inr, some, [], ◌∷◌, ◌++◌, append-nil,
  append_assoc, arith,
}
use next_nps.Socks.{
  Addr, IpText, ok, ip_v4, domain_name, ip_v6, put_uint16, decode_port, decode_host, decode_domain,
  decode, encode_host, encode, UdpDatagram, pool_size_udp, header_length, with_addr, cut_datagram,
  read_payload, read_udp_datagram, with_body, write_udp_datagram,
}

decode_host_lem :
    (t : ℕ) (text : Bytes → Bytes) (ip h rest : Bytes) (p : ℕ)
    → text ip ≡ h
    → p < 65536
    → decode_host t text (length ip) (ip ++ (put_uint16 p ++ rest))
      ≡ ok (record { addr_type = t; host = h; port = p })
unfolding decode_host decode_port
decode_host_lem t text ip h rest p e f =
    let n : 256 * ((p / 256) % 256) + p % 256 ≡ p = omega arith in
    rw
      (
        take-append (length ip) ip (put_uint16 p ++ rest) refl,
        drop-append (length ip) ip (put_uint16 p ++ rest) refl,
        e,
        n,
      )
      (ground (arith, length-append ip (put_uint16 p ++ rest)))

module _ (net : IpText) where
  -- A name of at most 255 bytes, or the text that the library has for an IP address.
  abbrev pub IsHost : Addr → Type 0
  IsHost a =
      ((a.addr_type ≡ domain_name) × (length a.host < 256))
      ⊎ ((ip : Bytes) × (a.addr_type ≡ ip_v4)
          × (net.parse4 a.host ≡ some ip)
          × (length ip ≡ 4)
          × (net.show_ip ip ≡ a.host))
      ⊎ ((ip : Bytes) × (a.addr_type ≡ ip_v6)
          × (net.parse16 a.host ≡ some ip)
          × (length ip ≡ 16)
          × (net.show_ip ip ≡ a.host))

  decode-encode_host :
      (a : Addr) (rest : Bytes)
      → IsHost a
      → a.port < 65536
      → decode net (encode_host net a ++ (put_uint16 a.port ++ rest)) ≡ ok a
  unfolding decode encode_host decode_domain
  decode-encode_host a rest (inl (t, l)) p =
      let m : length a.host % 256 ≡ length a.host = omega arith in
      rw (t, m) (decode_host_lem domain_name (λ h. h) a.host a.host rest a.port refl p)
  decode-encode_host a rest (inr (inl (ip, t, e, l, s))) p =
      rw (t, e)
        (ap (λ n. decode_host ip_v4 net.show_ip n (ip ++ (put_uint16 a.port ++ rest))) (sym l)
          ∙ decode_host_lem ip_v4 net.show_ip ip a.host rest a.port s p)
  decode-encode_host a rest (inr (inr (ip, t, e, l, s))) p =
      rw (t, e)
        (ap (λ n. decode_host ip_v6 net.show_ip n (ip ++ (put_uint16 a.port ++ rest))) (sym l)
          ∙ decode_host_lem ip_v6 net.show_ip ip a.host rest a.port s p)

  encode_host_head :
      (a : Addr)
      → IsHost a
      → (t n : ℕ) × (b : Bytes) × (encode_host net a ≡ t ∷ n ∷ b)
        × (header_length t n ≡ some (7 + length b))
  unfolding encode_host header_length
  encode_host_head a (inl (t, l)) =
      let m : length a.host % 256 ≡ length a.host = omega arith in
      (domain_name, length a.host, a.host, rw (t, m) refl, refl)
  encode_host_head a (inr (inl ([], t, e, l, s))) = absurd (omega arith)
  encode_host_head a (inr (inl (i ∷ ip, t, e, l, s))) =
      (ip_v4, i, ip, rw (t, e) refl, ap some (omega arith))
  encode_host_head a (inr (inr ([], t, e, l, s))) = absurd (omega arith)
  encode_host_head a (inr (inr (i ∷ ip, t, e, l, s))) =
      (ip_v6, i, ip, rw (t, e) refl, ap some (omega arith))

  cut_datagram_lem :
      (rsv frag : ℕ) (x y z : ℕ) (bytes body rest : Bytes) (a : Addr)
      → decode net bytes ≡ ok a
      → cut_datagram net rsv frag
          (3 + length bytes)
          (length body)
          (x ∷ y ∷ z ∷ (bytes ++ (body ++ rest)))
        ≡ ok (record { header = record { rsv = rsv; frag = frag; addr = a }; payload = body }, rest)
  unfolding cut_datagram with_addr
  cut_datagram_lem rsv frag x y z bytes body rest a h =
      let b = bytes ++ (body ++ rest) in
      let p : take (length body) (drop (length bytes) b) ≡ body =
        ap (take (length body)) (drop-append (length bytes) bytes (body ++ rest) refl)
        ∙ take-append (length body) body rest refl in
      let q : drop (length bytes + length body) b ≡ rest =
        ap (drop (length bytes + length body)) (sym (append_assoc bytes body rest))
        ∙ drop-append (length bytes + length body) (bytes ++ body) rest
            (length-append bytes body) in
      let r : decode net (take (length bytes) b) ≡ ok a =
        ap (decode net) (take-append (length bytes) bytes (body ++ rest) refl) ∙ h in
      let n : 3 + length bytes ≡ suc (suc (suc (length bytes))) = omega arith in
      let m : 3 + length bytes + length body ≡ suc (suc (suc (length bytes + length body))) =
        omega arith in
      let whole = x ∷ y ∷ z ∷ b in
      ap
        (λ i.
          with_addr net rsv frag (take (length body) (drop i whole))
            (drop (3 + length bytes + length body) whole) (decode net (drop 3 (take i whole))))
        n
      ∙ ap
          (λ i.
            with_addr net rsv frag (take (length body) (drop (length bytes) b)) (drop i whole)
              (decode net (take (length bytes) b)))
          m
      ∙ rw (p, q, r) refl

  read_payload_lem :
      (frag : ℕ) (x y z : ℕ) (bytes body rest : Bytes) (a : Addr)
      → decode net bytes ≡ ok a
      → 0 < length body
      → 3 + length bytes + length body ≤ pool_size_udp
      → read_payload net
          (length body)
          frag
          (x ∷ y ∷ z ∷ (bytes ++ (body ++ rest)))
          (some (3 + length bytes))
        ≡ ok (
          record { header = record { rsv = length body; frag = frag; addr = a }; payload = body },
          rest,
        )
  unfolding read_payload
  read_payload_lem frag x y z bytes body rest a h k c =
      let e = cut_datagram_lem (length body) frag x y z bytes body rest a h in
      ground (arith, e, length-append bytes (body ++ rest), length-append body rest)

  encode_lem :
      (room : ℕ) (a : Addr)
      → length (encode_host net a) + 2 ≤ room
      → encode net room a ≡ ok (encode_host net a ++ put_uint16 a.port)
  unfolding encode
  encode_lem room a h = ground (arith, length-append (encode_host net a) (put_uint16 a.port))

  read_bytes_lem :
      (frag x y t n : ℕ) (b body rest : Bytes) (a : Addr)
      → decode net (t ∷ n ∷ b) ≡ ok a
      → header_length t n ≡ some (5 + length b)
      → 256 * x + y ≡ length body
      → 0 < length body
      → 5 + length b + length body ≤ pool_size_udp
      → read_udp_datagram net (x ∷ y ∷ frag ∷ ((t ∷ n ∷ b) ++ (body ++ rest)))
        ≡ ok (
          record { header = record { rsv = length body; frag = frag; addr = a }; payload = body },
          rest,
        )
  unfolding read_udp_datagram
  read_bytes_lem frag x y t n b body rest a h hl r k c =
      let e : 5 + length b ≡ 3 + length (t ∷ n ∷ b) = omega arith in
      let whole = x ∷ y ∷ frag ∷ ((t ∷ n ∷ b) ++ (body ++ rest)) in
      ap (λ i. read_payload net i frag whole (header_length t n)) r
      ∙ ap (read_payload net (length body) frag whole) (hl ∙ ap some e)
      ∙ read_payload_lem frag x y frag (t ∷ n ∷ b) body rest a h k (omega arith)

  -- A datagram that is written is read back, whatever follows it: if its reserved field is the length
  -- of its payload and not zero, its host is a name under 256 bytes or the text of an IP address, its
  -- port and fragment fit their fields, and the whole fits the pooled buffer.
  pub read_udp_datagram-write_udp_datagram :
      (d : UdpDatagram) (rest : Bytes)
      → IsHost d.header.addr
      → d.header.addr.port < 65536
      → d.header.frag < 256
      → d.header.rsv ≡ length d.payload
      → 0 < d.header.rsv
      → length (encode_host net d.header.addr) + 5 + d.header.rsv ≤ pool_size_udp
      → (b : Bytes) × (write_udp_datagram net d ≡ ok b)
        × (read_udp_datagram net (b ++ rest) ≡ ok (d, rest))
  unfolding write_udp_datagram with_body read_udp_datagram
  read_udp_datagram-write_udp_datagram d rest h p f e k c =
      let a = d.header.addr in
      let bytes = encode_host net a ++ put_uint16 a.port in
      let (t, n, b, i, l) = encode_host_head a h in
      let back = decode-encode_host a [] h p in
      (
        put_uint16 d.header.rsv ++ (d.header.frag % 256 ∷ (bytes ++ d.payload)),
        ap (with_body net d) (encode_lem (pool_size_udp - 3) a (omega arith)),
        ap
              (λ l.
                read_udp_datagram net
                  (d.header.rsv / 256 % 256 ∷ d.header.rsv % 256 ∷ d.header.frag % 256 ∷ l))
              (append_assoc bytes d.payload rest)
            ∙ ap
                (λ l. read_udp_datagram net (
                  d.header.rsv / 256 % 256
                  ∷ d.header.rsv % 256
                  ∷ d.header.frag % 256
                  ∷ ((l ++ put_uint16 a.port) ++ (d.payload ++ rest))))
                i
            ∙ read_bytes_lem (d.header.frag % 256) _ _ t n (b ++ put_uint16 a.port) d.payload rest a
                (ap (λ l. decode net (l ++ put_uint16 a.port)) (sym i)
                  ∙ ap (λ l. decode net (encode_host net a ++ l))
                      (sym (append-nil (put_uint16 a.port)))
                  ∙ back)
                (l ∙ ap some (omega (arith, length-append b (put_uint16 a.port)))) (omega arith)
                (omega arith) (omega (arith, ap length i, length-append b (put_uint16 a.port)))
            ∙ ap
                (λ r. ok (
                  record {
                    header = record { rsv = r; frag = d.header.frag % 256; addr = a };
                    payload = d.payload;
                  },
                  rest,
                ))
                (sym e)
            ∙ ap
                (λ r.
                  ok
                    (record d { header = record { rsv = d.header.rsv; frag = r; addr = a } }, rest))
                (omega arith),
      )
