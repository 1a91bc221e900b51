-- ===== src/Wire.antt =====
-- The framing of lib/conn/conn.go and lib/common/util.go: lengths as little-endian int32, and
-- texts behind a separator. A connection is the list of the bytes that it will still deliver; a
-- read of more than it has is an error.
pub mod RoundTrip
mod Tests
use next_nps.Base.{
  ltb, leb, if◌then◌else◌, ◌==◌, length, take, drop, Bytes, codes, split_seq, map_some, ℕ, ◌+◌, ◌*◌,
  ◌/◌, ◌%◌, Bool, ◌&&◌, ◌||◌, Option, none, some, List, [], ◌∷◌, ◌++◌, nat_eq, bytes_eq,
}
use next_nps.Base.Int.{ℤ, pos, negsuc, of_bits32, ℤ_eq}

-- CONN_DATA_SEQ.
abbrev pub seq : Bytes
seq = codes "*#*"

-- `binary.Write(raw, LittleEndian, int32(n))` of a length.
unfoldable pub put_int32 : ℕ → Bytes
put_int32 n = n % 256 ∷ (n / 256) % 256 ∷ (n / 65536) % 256 ∷ (n / 16777216) % 256 ∷ []

-- `binary.Read` of an int32 and what is left behind it.
unfoldable pub get_len : Bytes → Option (ℤ × Bytes)
get_len (a ∷ b ∷ c ∷ d ∷ rest) = some (of_bits32 (a + 256 * b + 65536 * c + 16777216 * d), rest)
get_len _ = none

-- `io.ReadFull` of `n` bytes.
unfoldable pub read_full : ℕ → Bytes → Option (Bytes × Bytes)
read_full n s = if leb n (length s) then some (take n s, drop n s) else none

-- `ReadLen` into a buffer of `room` bytes: a length that is not positive or does not fit is refused.
unfoldable pub read_len : ℕ → ℤ → Bytes → Option (Bytes × Bytes)
read_len room (pos n) s = if leb n room && ltb 0 n then read_full n s else none
read_len room (negsuc n) s = none

-- The rest of a read, where the length was there.
abbrev with_len : {A : Type 0} → (ℤ → Bytes → Option A) → Option (ℤ × Bytes) → Option A
with_len f none = none
with_len f (some (l, rest)) = f l rest

-- `GetShortContent`, of a length that was checked.
unfoldable pub get_short_content : ℤ → Bytes → Option (Bytes × Bytes)
get_short_content (pos n) s = if leb n 32768 then read_full n s else none
get_short_content (negsuc n) s = none

-- `GetShortLenContent`: a length of at most 32 KiB, and so many bytes.
unfoldable pub get_short_len_content : Bytes → Option (Bytes × Bytes)
get_short_len_content s = with_len get_short_content (get_len s)

-- `WriteLenContent`, with `GetLenBytes`.
pub write_len_content : Bytes → Bytes
write_len_content b = put_int32 (length b) ++ b

-- `GetWriteStr`: every text with the separator behind it.
unfoldable pub get_write_str : List Bytes → Bytes
get_write_str [] = []
get_write_str (v ∷ vs) = v ++ (seq ++ get_write_str vs)

unfoldable pub binary_write : List Bytes → Bytes
binary_write vs = put_int32 (length (get_write_str vs)) ++ get_write_str vs

-- `SendHealthInfo`.
unfoldable pub send_health_info : Bytes → Bytes → Bytes
send_health_info info status = binary_write (info ∷ status ∷ [])

unfoldable pub get_bool_by_str : Bytes → Bool
get_bool_by_str s = s == codes "1" || s == codes "true"

unfoldable pub get_str_by_bool : Bool → Bytes
get_str_by_bool b = if b then codes "1" else codes "0"

-- `arr[0]` and `arr[1]` where there are two pieces or more.
health_pieces : List Bytes → Option (Bytes × Bool)
health_pieces (info ∷ status ∷ more) = some (info, get_bool_by_str status)
health_pieces _ = none

health_of : Option (Bytes × Bytes) → Option (Bytes × Bool × Bytes)
health_of none = none
health_of (some (body, rest)) =
    map_some (λ (p : Bytes × Bool). (p.0, p.1, rest)) (health_pieces (split_seq 0 seq body))

-- `GetHealthInfo` with a pooled buffer of `room` bytes: the address, its status, and the bytes left.
pub get_health_info : ℕ → Bytes → Option (Bytes × Bool × Bytes)
unfolding health_of
get_health_info room s = with_len (λ l rest. health_of (read_len room l rest)) (get_len s)
