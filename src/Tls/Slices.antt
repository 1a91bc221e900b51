-- ===== src/Tls/Slices.antt =====
-- The reads of `Unmarshal` in lib/crypt/clientHello.go: an index or a bound out of range panics. A
-- byte is a number below 256, and `uint16(a)<<8 | uint16(b)` is `256 * a + b`. A slice is cut at its
-- length, where Go lets it grow to its capacity.
use next_nps.Base.{
  leb, if◌then◌else◌, length, get_elem?, take, drop, Bytes, ℕ, suc, ◌+◌, ◌-◌, ◌*◌, Bool, ◌&&◌,
  Option, none, some, List,
}

pub record Hello : Type 0 where
  pub raw : Bytes
  pub vers : ℕ
  pub random : Bytes
  pub session_id : Bytes
  pub cipher_suites : List ℕ
  pub compression_methods : Bytes
  pub next_proto_neg : Bool
  pub server_name : Bytes
  pub ocsp_stapling : Bool
  pub scts : Bool
  pub supported_curves : List ℕ
  pub supported_points : Bytes
  pub ticket_supported : Bool
  pub session_ticket : Bytes
  pub supported_signature_algorithms : List ℕ
  pub secure_renegotiation : Bytes
  pub secure_renegotiation_supported : Bool
  pub alpn_protocols : List Bytes

-- The message is changed in place, so a refusal has one too. `stuck` is a loop that ran out of
-- rounds.
pub data Verdict : Type 0 where
  accepted : Hello → Verdict
  refused : Hello → Verdict
  panic : Verdict
  stuck : Verdict

-- What follows, where the step before it did not return.
unfoldable pub and_then : Verdict → (Hello → Verdict) → Verdict
and_then (accepted m) k = k m
and_then (refused m) k = refused m
and_then panic k = panic
and_then stuck k = stuck

at_byte : Option ℕ → (ℕ → Verdict) → Verdict
at_byte none k = panic
at_byte (some b) k = k b

-- `d[i]`.
unfoldable pub with_byte : Bytes → ℕ → (ℕ → Verdict) → Verdict
unfolding at_byte
with_byte d i k = at_byte (get_elem? d i) k

-- `d[i]<<8 | d[i+1]`.
unfoldable pub with_uint16 : Bytes → ℕ → (ℕ → Verdict) → Verdict
unfolding with_byte
with_uint16 d i k = with_byte d i (λ a. with_byte d (suc i) (λ b. k (256 * a + b)))

-- `d[lo:hi]`.
unfoldable pub with_slice : Bytes → ℕ → ℕ → (Bytes → Verdict) → Verdict
with_slice d lo hi k =
    if leb lo hi && leb hi (length d) then k (take (hi - lo) (drop lo d)) else panic

-- `d[lo:]`.
unfoldable pub with_rest : Bytes → ℕ → (Bytes → Verdict) → Verdict
with_rest d lo k = if leb lo (length d) then k (drop lo d) else panic
