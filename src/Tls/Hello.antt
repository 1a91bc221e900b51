-- ===== src/Tls/Hello.antt =====
-- `ClientHelloMsg.Unmarshal` of lib/crypt/clientHello.go, one function per part of the message, and
-- `GetServerNameFromClientHello` of server/proxy/https.go.
use next_nps.Tls.Slices.{
  Hello, Verdict, accepted, refused, panic, stuck, and_then, with_byte, with_uint16, with_slice,
  with_rest,
}
use next_nps.Tls.Extensions.{on_extension}
use next_nps.Base.{
  ltb, nat_beq, if◌then◌else◌, length, drop, Bytes, map_some, ℕ, zero, suc, ◌+◌, ◌*◌, ◌/◌, ◌%◌,
  false, not, ◌||◌, Option, none, some, [], ◌∷◌, ◌++◌,
}

-- A round for every extension; `rounds` is the number of bytes, and each extension has four.
unfoldable pub extensions_loop : ℕ → Bytes → Hello → Verdict
unfolding and_then with_uint16 with_rest
extensions_loop rounds [] m = accepted m
extensions_loop zero (x ∷ input) m = stuck
extensions_loop (suc rounds) (x ∷ input) m =
    if ltb (length (x ∷ input)) 4
    then refused m
    else with_uint16 (x ∷ input) 0 (λ kind. with_uint16 (x ∷ input) 2 (λ n.
      with_rest (x ∷ input) 4 (λ b.
        if ltb (length b) n
        then refused m
        else and_then (on_extension kind n b m)
            (λ m'. with_rest b n (λ rest. extensions_loop rounds rest m')))))

unfoldable pub read_extensions : Bytes → Hello → Verdict
unfolding with_uint16 with_rest
read_extensions input m =
    if nat_beq (length input) 0
    then accepted m
    else if ltb (length input) 2
    then refused m
    else with_uint16 input 0 (λ n.
      with_rest input 2
        (λ d. if not (nat_beq n (length d)) then refused m else extensions_loop (length d) d m))

-- The fields that only the extensions set.
abbrev pub clear_extensions : Hello → Hello
clear_extensions m = record m {
  next_proto_neg = false;
  server_name = [];
  ocsp_stapling = false;
  ticket_supported = false;
  session_ticket = [];
  supported_signature_algorithms = [];
  alpn_protocols = [];
  scts = false;
}

unfoldable pub read_compression : Bytes → Hello → Verdict
unfolding with_byte with_slice with_rest
read_compression input m =
    if ltb (length input) 1
    then refused m
    else with_byte input 0 (λ n.
      if ltb (length input) (1 + n)
      then refused m
      else with_slice input 1 (1 + n) (λ methods. with_rest input (1 + n) (λ rest.
        read_extensions rest (clear_extensions (record m { compression_methods = methods })))))

-- `scsvRenegotiation` is 0x00ff.
abbrev pub note_suite : ℕ → Hello → Hello
note_suite suite m = record m {
  cipher_suites = m.cipher_suites ++ (suite ∷ []);
  secure_renegotiation_supported = nat_beq suite 255 || m.secure_renegotiation_supported;
}

-- `n` suites, from the one at place `i`.
unfoldable pub suites_loop : Bytes → ℕ → ℕ → Hello → (Hello → Verdict) → Verdict
unfolding with_uint16
suites_loop input zero i m k = k m
suites_loop input (suc n) i m k =
    with_uint16 input (2 + 2 * i) (λ suite. suites_loop input n (suc i) (note_suite suite m) k)

unfoldable pub read_suites : Bytes → Hello → Verdict
unfolding with_uint16 with_rest suites_loop
read_suites input m =
    if ltb (length input) 2
    then refused m
    else with_uint16 input 0 (λ n.
      if nat_beq (n % 2) 1 || ltb (length input) (2 + n)
      then refused m
      else suites_loop input (n / 2) 0 (record m { cipher_suites = [] })
          (λ m'. with_rest input (2 + n) (λ rest. read_compression rest m')))

unfoldable pub read_session : ℕ → Bytes → Hello → Verdict
unfolding with_slice with_rest
read_session n input m =
    if ltb 32 n || ltb (length input) (39 + n)
    then refused m
    else with_slice input 39 (39 + n)
        (λ id. with_rest input (39 + n) (λ rest. read_suites rest (record m { session_id = id })))

unfoldable pub unmarshal : Bytes → Hello → Verdict
unfolding with_byte with_uint16 with_slice
unmarshal input m =
    if ltb (length input) 42
    then refused m
    else with_uint16 input 4 (λ vers. with_slice input 6 38 (λ random.
      with_byte input 38
        (λ n. read_session n input (record m { raw = input; vers = vers; random = random }))))

-- `new(crypt.ClientHelloMsg)`.
abbrev pub new_hello : Hello
new_hello = record {
  raw = [];
  vers = 0;
  random = [];
  session_id = [];
  cipher_suites = [];
  compression_methods = [];
  next_proto_neg = false;
  server_name = [];
  ocsp_stapling = false;
  scts = false;
  supported_curves = [];
  supported_points = [];
  ticket_supported = false;
  session_ticket = [];
  supported_signature_algorithms = [];
  secure_renegotiation = [];
  secure_renegotiation_supported = false;
  alpn_protocols = [];
}

-- The verdict is not looked at; `none` is a panic.
abbrev pub name_of : Verdict → Option Bytes
name_of (accepted m) = some m.server_name
name_of (refused m) = some m.server_name
name_of panic = none
name_of stuck = none

-- `GetServerNameFromClientHello`, from what one read of at most 4096 bytes gave (`none` is its
-- error): the name and the bytes to pass on.
unfoldable pub get_server_name_from_client_hello : Option Bytes → Option (Bytes × Bytes)
get_server_name_from_client_hello none = some ([], [])
get_server_name_from_client_hello (some buf) =
    if ltb (length buf) 42
    then some ([], [])
    else map_some (λ name. (name, buf)) (name_of (unmarshal (drop 5 buf) new_hello))
