-- ===== src/Tls/Extensions.antt =====
-- The extensions of a client hello: the cases of the switch in `Unmarshal` of
-- lib/crypt/clientHello.go. `body` starts at the extension's body, which has `n` bytes.
use next_nps.Tls.Slices.{
  Hello, Verdict, accepted, refused, stuck, with_byte, with_uint16, with_slice, with_rest,
}
use next_nps.Base.{
  ltb, nat_beq, if◌then◌else◌, length, take, Bytes, ℕ, zero, suc, ◌+◌, ◌-◌, ◌/◌, ◌%◌, Bool, true,
  false, not, ◌||◌, List, [], ◌∷◌, ◌++◌,
}

-- `strings.HasSuffix(s, ".")`.
unfoldable pub ends_in_dot : Bytes → Bool
ends_in_dot [] = false
ends_in_dot (c ∷ []) = nat_beq c b'.'
ends_in_dot (c ∷ s) = ends_in_dot s

abbrev pub accept_name : Hello → Bytes → Verdict
accept_name m s =
    let named = record m { server_name = s } in
    if ends_in_dot s then refused named else accepted named

-- The names of a server: the first of type 0 ends the loop.
unfoldable pub names_loop : ℕ → Bytes → Hello → Verdict
unfolding with_byte with_uint16 with_slice with_rest ends_in_dot
names_loop rounds [] m = accepted m
names_loop zero (x ∷ d) m = stuck
names_loop (suc rounds) (x ∷ d) m =
    if ltb (length (x ∷ d)) 3
    then refused m
    else with_byte (x ∷ d) 0 (λ name_type. with_uint16 (x ∷ d) 1 (λ name_len.
      with_rest (x ∷ d) 3 (λ e.
        if ltb (length e) name_len
        then refused m
        else if nat_beq name_type 0
        then with_slice e 0 name_len (accept_name m)
        else with_rest e name_len (λ f. names_loop rounds f m))))

unfoldable pub read_server_name : ℕ → Bytes → Hello → Verdict
unfolding with_uint16 with_slice with_rest names_loop
read_server_name n body m = with_slice body 0 n (λ d.
    if ltb (length d) 2
    then refused m
    else with_uint16 d 0 (λ names_len.
      with_rest d 2
        (λ e. if not (nat_beq (length e) names_len) then refused m else names_loop (length e) e m)))

unfoldable pub read_next_proto_neg : ℕ → Hello → Verdict
read_next_proto_neg n m =
    if ltb 0 n then refused m else accepted (record m { next_proto_neg = true })

-- `length > 0 && data[0] == statusTypeOCSP`, which reads only where there is a byte.
unfoldable pub read_status_request : ℕ → Bytes → Hello → Verdict
unfolding with_byte
read_status_request n body m =
    if ltb 0 n
    then with_byte body 0 (λ b. accepted (record m { ocsp_stapling = nat_beq b 1 }))
    else accepted (record m { ocsp_stapling = false })

-- `n` numbers of two bytes from the front of `d`, which moves on.
unfoldable pub uint16_loop : ℕ → Bytes → List ℕ → (List ℕ → Verdict) → Verdict
unfolding with_uint16 with_rest
uint16_loop zero d acc k = k acc
uint16_loop (suc n) d acc k =
    with_uint16 d 0 (λ v. with_rest d 2 (λ e. uint16_loop n e (acc ++ (v ∷ [])) k))

unfoldable pub read_curves : ℕ → Bytes → Hello → Verdict
unfolding with_uint16 with_rest uint16_loop
read_curves n body m =
    if ltb n 2
    then refused m
    else with_uint16 body 0 (λ l.
      if nat_beq (l % 2) 1 || not (nat_beq n (l + 2))
      then refused m
      else with_rest body 2
          (λ d. uint16_loop (l / 2) d [] (λ cs. accepted (record m { supported_curves = cs }))))

-- `copy` into a slice of `l` bytes.
unfoldable pub read_points : ℕ → Bytes → Hello → Verdict
unfolding with_byte with_rest
read_points n body m =
    if ltb n 1
    then refused m
    else with_byte body 0 (λ l.
      if not (nat_beq n (l + 1))
      then refused m
      else with_rest body 1 (λ d. accepted (record m { supported_points = take l d })))

unfoldable pub read_session_ticket : ℕ → Bytes → Hello → Verdict
unfolding with_slice
read_session_ticket n body m =
    with_slice body 0 n (λ t. accepted (record m { ticket_supported = true; session_ticket = t }))

unfoldable pub read_signature_algorithms : ℕ → Bytes → Hello → Verdict
unfolding with_uint16 with_rest uint16_loop
read_signature_algorithms n body m =
    if ltb n 2 || not (nat_beq (n % 2) 0)
    then refused m
    else with_uint16 body 0 (λ l.
      if not (nat_beq l (n - 2))
      then refused m
      else with_rest body 2 (λ d.
        uint16_loop (l / 2) d []
          (λ ss. accepted (record m { supported_signature_algorithms = ss }))))

unfoldable pub read_renegotiation_info : ℕ → Bytes → Hello → Verdict
unfolding with_byte with_slice with_rest
read_renegotiation_info n body m =
    if nat_beq n 0
    then refused m
    else with_slice body 0 n (λ d. with_byte d 0 (λ l. with_rest d 1 (λ e.
      if not (nat_beq l (length e))
      then refused m
      else accepted
          (record m { secure_renegotiation = e; secure_renegotiation_supported = true }))))

-- The protocols that the client offers, each behind its length; an empty one is refused.
unfoldable pub protocols_loop : ℕ → Bytes → Hello → Verdict
unfolding with_byte with_slice with_rest
protocols_loop rounds [] m = accepted m
protocols_loop zero (x ∷ d) m = stuck
protocols_loop (suc rounds) (x ∷ d) m = with_byte (x ∷ d) 0 (λ l. with_rest (x ∷ d) 1 (λ e.
    if nat_beq l 0 || ltb (length e) l
    then refused m
    else with_slice e 0 l (λ p.
      with_rest e l (λ f.
        protocols_loop rounds f (record m { alpn_protocols = m.alpn_protocols ++ (p ∷ []) })))))

unfoldable pub read_protocols : ℕ → Bytes → Hello → Verdict
unfolding with_uint16 with_slice protocols_loop
read_protocols n body m =
    if ltb n 2
    then refused m
    else with_uint16 body 0 (λ l.
      if not (nat_beq l (n - 2))
      then refused m
      else with_slice body 2 n (λ d. protocols_loop (length d) d m))

unfoldable pub read_scts : ℕ → Hello → Verdict
read_scts n m =
    let noted = record m { scts = true } in
    if not (nat_beq n 0) then refused noted else accepted noted

-- The switch; any other extension is passed over.
unfoldable pub on_extension : ℕ → ℕ → Bytes → Hello → Verdict
on_extension kind n body m =
    if nat_beq kind 0
    then read_server_name n body m
    else if nat_beq kind 13172
    then read_next_proto_neg n m
    else if nat_beq kind 5
    then read_status_request n body m
    else if nat_beq kind 10
    then read_curves n body m
    else if nat_beq kind 11
    then read_points n body m
    else if nat_beq kind 35
    then read_session_ticket n body m
    else if nat_beq kind 13
    then read_signature_algorithms n body m
    else if nat_beq kind 65281
    then read_renegotiation_info n body m
    else if nat_beq kind 16
    then read_protocols n body m
    else if nat_beq kind 18
    then read_scts n m
    else accepted m
