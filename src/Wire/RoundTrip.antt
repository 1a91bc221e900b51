-- ===== src/Wire/RoundTrip.antt =====
-- What is written is read back, with the bytes behind it left on the connection.
use next_nps.Base.{
  length, length-append, take-append, drop-append, Bytes, codes, bytes_beq, split_seq, map_some,
  Lacks, split_seq_piece, ℕ, ◌+◌, ◌*◌, ◌/◌, ◌%◌, ◌≤◌, ◌<◌, ◌≡◌, refl, ap, ◌∙◌, Bool, true, false,
  some, List, [], ◌∷◌, ◌++◌, append_assoc, arith,
}
use next_nps.Base.Int.{pos, of_bits32}
use next_nps.Wire.{
  seq, put_int32, get_len, read_full, read_len, get_short_content, get_short_len_content,
  write_len_content, get_write_str, binary_write, send_health_info, get_bool_by_str,
  get_str_by_bool, health_pieces, health_of, with_len, get_health_info,
}

get_len-put_int32 :
    (n : ℕ) (rest : Bytes) → n < 2147483648 → get_len (put_int32 n ++ rest) ≡ some (pos n, rest)
unfolding get_len put_int32
get_len-put_int32 n rest h =
    let e : n % 256
          + 256 * ((n / 256) % 256)
          + 65536 * ((n / 65536) % 256)
          + 16777216 * ((n / 16777216) % 256)
        ≡ n =
      omega arith in
    ap (λ m. some (of_bits32 m, rest)) e ∙ ground arith

read_full-append : (body rest : Bytes) → read_full (length body) (body ++ rest) ≡ some (body, rest)
unfolding read_full
read_full-append body rest = ground (
  arith,
  length-append body rest,
  take-append (length body) body rest refl,
  drop-append (length body) body rest refl,
)

-- Whatever of at most 32 KiB `WriteLenContent` writes, `GetShortLenContent` reads back, with the
-- bytes behind it left over.
pub get_short_len_content-write_len_content :
    (b rest : Bytes)
    → length b ≤ 32768
    → get_short_len_content (write_len_content b ++ rest) ≡ some (b, rest)
unfolding get_short_len_content write_len_content get_short_content
get_short_len_content-write_len_content b rest h =
    ap (λ s. with_len get_short_content (get_len s)) (append_assoc (put_int32 (length b)) b rest)
    ∙ ap (with_len get_short_content) (get_len-put_int32 (length b) (b ++ rest) (omega arith))
    ∙ ground (arith, read_full-append b rest)

pub get_write_str_pieces :
    (info status : Bytes)
    → Lacks b'*' info
    → Lacks b'*' status
    → split_seq 0 seq (get_write_str (info ∷ status ∷ [])) ≡ info ∷ status ∷ [] ∷ []
unfolding get_write_str split_seq
get_write_str_pieces info status h k =
    split_seq_piece b'*' (codes "#*") info (status ++ (seq ++ [])) h
    ∙ ap (◌∷◌ info) (split_seq_piece b'*' (codes "#*") status [] k)

get_bool_by_str-get_str_by_bool : (b : Bool) → get_bool_by_str (get_str_by_bool b) ≡ b
unfolding get_bool_by_str get_str_by_bool bytes_beq
get_bool_by_str-get_str_by_bool true = refl
get_bool_by_str-get_str_by_bool false = refl

Lacks-get_str_by_bool : (b : Bool) → Lacks b'*' (get_str_by_bool b)
unfolding get_str_by_bool
Lacks-get_str_by_bool true = omega arith
Lacks-get_str_by_bool false = omega arith

length-get_write_str :
    (info : Bytes) (b : Bool)
    → length (get_write_str (info ∷ get_str_by_bool b ∷ [])) ≡ length info + 7
unfolding get_write_str get_str_by_bool
length-get_write_str info true = length-append info _ ∙ omega arith
length-get_write_str info false = length-append info _ ∙ omega arith

read_len-append :
    (room : ℕ) (body rest : Bytes)
    → 0 < length body
    → length body ≤ room
    → read_len room (pos (length body)) (body ++ rest) ≡ some (body, rest)
unfolding read_len
read_len-append room body rest h k = ground (arith, read_full-append body rest)

-- A report of health arrives as it was sent, with the bytes behind it left over, if the address has
-- no star and the message fits the buffer, which is under 2^31 bytes.
pub get_health_info-send_health_info :
    (room : ℕ) (info rest : Bytes) (b : Bool)
    → Lacks b'*' info
    → length info + 7 ≤ room
    → room < 2147483648
    → get_health_info room (send_health_info info (get_str_by_bool b) ++ rest)
      ≡ some (info, b, rest)
unfolding get_health_info send_health_info binary_write health_of health_pieces
get_health_info-send_health_info room info rest b h k c =
    let body = get_write_str (info ∷ get_str_by_bool b ∷ []) in
    let n = length-get_write_str info b in
    ap (λ s. with_len (λ l r. health_of (read_len room l r)) (get_len s))
      (append_assoc (put_int32 (length body)) body rest)
    ∙ ap (with_len (λ l r. health_of (read_len room l r)))
        (get_len-put_int32 (length body) (body ++ rest) (omega (arith, n)))
    ∙ ap health_of (read_len-append room body rest (omega (arith, n)) (omega (arith, n)))
    ∙ ap (λ (ps : List Bytes). map_some (λ (p : Bytes × Bool). (p.0, p.1, rest)) (health_pieces ps))
        (get_write_str_pieces info (get_str_by_bool b) h (Lacks-get_str_by_bool b))
    ∙ ap (λ v. some (info, v, rest)) (get_bool_by_str-get_str_by_bool b)
