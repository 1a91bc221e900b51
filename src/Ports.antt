-- ===== src/Ports.antt =====
-- The port lists of lib/common/util.go, and `TestServerPort` of server/tool/utils.go.
mod Tests
use next_nps.Base.{
  ltb, leb, nat_beq, if◌then◌else◌, ◌==◌, Bool-cases, length, All, Bytes, codes, split,
  digits_value, ℕ, zero, suc, ◌+◌, ◌-◌, ◌≤◌, ◌<◌, ◌≡◌, refl, ap, ◌∙◌, inl, inr, Bool, true, false,
  not, ◌&&◌, ◌||◌, Option, none, some, List, [], ◌∷◌, ◌++◌, arith, nat_eq, bytes_eq,
}
use next_nps.Base.Int.{ℤ, pos, negsuc, ltb_ℤ, ℤ_beq, ℤ_eq}

-- `strconv.Atoi`: an optional sign, then decimal digits, within an int64; `none` is an error.
unfoldable pub unsigned : Bytes → Option ℕ
unfolding digits_value
unsigned [] = none
unsigned (c ∷ s) = digits_value 0 (c ∷ s)

abbrev in_range : Bool → Option ℕ → Option ℤ
in_range minus none = none
in_range true (some n) =
    if leb n 9223372036854775808 then some (if nat_beq n 0 then pos 0 else negsuc (n - 1)) else none
in_range false (some n) = if ltb n 9223372036854775808 then some (pos n) else none

unfoldable pub atoi : Bytes → Option ℤ
unfolding unsigned
atoi [] = none
atoi (c ∷ s) =
    if c == b'-'
    then in_range true (unsigned s)
    else if c == b'+'
    then in_range false (unsigned s)
    else in_range false (unsigned (c ∷ s))

-- A number from 1 to 65536, as the source has it.
unfoldable pub is_port_number : Option ℤ → Bool
is_port_number none = false
is_port_number (some (negsuc n)) = false
is_port_number (some (pos n)) = leb n 65536 && leb 1 n

unfoldable pub is_port : Bytes → Bool
unfolding is_port_number
is_port p = is_port_number (atoi p)

-- The value that `Atoi` returns beside its error.
abbrev pub value_of : Option ℤ → ℕ
value_of none = 0
value_of (some (negsuc n)) = 0
value_of (some (pos n)) = n

-- `for i := start; i <= end; i++`, over the rounds left.
unfoldable pub count_up : ℕ → ℕ → List ℕ
count_up zero i = []
count_up (suc n) i = i ∷ count_up n (i + 1)

abbrev range_to : ℕ → ℕ → List ℕ
range_to start end = count_up (end + 1 - start) start

-- One piece between commas: a range, a port, or nothing.
unfoldable pub ports_of : Bytes → List Bytes → List ℕ
ports_of v (a ∷ b ∷ []) =
    if is_port a && is_port b then range_to (value_of (atoi a)) (value_of (atoi b)) else []
ports_of v _ = if is_port v then value_of (atoi v) ∷ [] else []

unfoldable pub all_ports : List Bytes → List ℕ
all_ports [] = []
all_ports (v ∷ vs) = ports_of v (split b'-' v) ++ all_ports vs

unfoldable pub get_ports : Bytes → List ℕ
unfolding all_ports
get_ports p = all_ports (split b',' p)

unfoldable pub in_int_arr : List ℕ → ℤ → Bool
in_int_arr [] val = false
in_int_arr (v ∷ arr) val = pos v == val || in_int_arr arr val

-- `open_tcp` and `open_udp` tell whether the system lets the port be opened.
unfoldable pub test_server_port : List ℕ → (ℤ → Bool) → (ℤ → Bool) → ℤ → Bytes → Bool
unfolding in_int_arr
test_server_port ports open_tcp open_udp p m =
    if m == codes "p2p" || m == codes "secret"
    then true
    else if ltb_ℤ (pos 65535) p || ltb_ℤ p (pos 0)
    then false
    else if not (nat_beq (length ports) 0) && not (in_int_arr ports p)
    then false
    else if m == codes "udp"
    then open_udp p
    else open_tcp p

-- Every number of a list.
abbrev pub IsPortNumber : ℕ → Type 0
IsPortNumber n = (1 ≤ n) × (n ≤ 65536)

All-append : (P : ℕ → Type 0) (xs ys : List ℕ) → All P xs → All P ys → All P (xs ++ ys)
All-append P [] ys h k = k
All-append P (x ∷ xs) ys h k = (h.0, All-append P xs ys h.1 k)

count_up-bounds :
    (n i lo hi : ℕ) → lo ≤ i → i + n ≤ hi + 1 → All (λ x. (lo ≤ x) × (x ≤ hi)) (count_up n i)
unfolding count_up
count_up-bounds zero i lo hi h k = tt
count_up-bounds (suc n) i lo hi h k =
    ((h, omega arith), count_up-bounds n (i + 1) lo hi (omega arith) (omega arith))

port_bounds : (o : Option ℤ) → is_port_number o ≡ true → IsPortNumber (value_of o)
unfolding is_port_number
port_bounds none h = cc
port_bounds (some (negsuc n)) h = cc
port_bounds (some (pos n)) h = ground arith

range_to-IsPortNumber :
    (a b : ℕ) → IsPortNumber a → IsPortNumber b → All IsPortNumber (range_to a b)
range_to-IsPortNumber a b p q = count_up-bounds (b + 1 - a) a 1 65536 p.0 (omega arith)

ports_of-IsPortNumber : (v : Bytes) (ws : List Bytes) → All IsPortNumber (ports_of v ws)
unfolding ports_of is_port
ports_of-IsPortNumber v (a ∷ b ∷ []) = elim (Bool-cases (is_port a)) [
  | inl p ↦ elim (Bool-cases (is_port b)) [
    | inl q ↦
        rw (p, q)
          (range_to-IsPortNumber (value_of (atoi a)) (value_of (atoi b)) (port_bounds (atoi a) p)
            (port_bounds (atoi b) q))
    | inr q ↦ rw (p, q) tt
  ]
  | inr p ↦ rw p tt
]
ports_of-IsPortNumber v _ = elim (Bool-cases (is_port v)) [
  | inl p ↦ rw p (port_bounds (atoi v) p, tt)
  | inr p ↦ rw p tt
]

all_ports-IsPortNumber : (vs : List Bytes) → All IsPortNumber (all_ports vs)
unfolding all_ports
all_ports-IsPortNumber [] = tt
all_ports-IsPortNumber (v ∷ vs) =
    All-append IsPortNumber _ _ (ports_of-IsPortNumber v (split b'-' v)) (all_ports-IsPortNumber vs)

-- Whatever the text, every number of the list is at least 1 and at most 65536.
pub get_ports-IsPortNumber : (p : Bytes) → All IsPortNumber (get_ports p)
unfolding get_ports
get_ports-IsPortNumber p = all_ports-IsPortNumber (split b',' p)

count_up-mem : (n i x : ℕ) → i ≤ x → x < i + n → in_int_arr (count_up n i) (pos x) ≡ true
unfolding count_up in_int_arr ℤ_beq
count_up-mem zero i x h k = absurd (omega arith)
count_up-mem (suc n) i x h k = ground (arith, count_up-mem n (i + 1) x)

in_int_arr-append :
    (xs ys : List ℕ) (x : ℤ) → in_int_arr (xs ++ ys) x ≡ (in_int_arr xs x || in_int_arr ys x)
unfolding in_int_arr
in_int_arr-append [] ys x = refl
in_int_arr-append (v ∷ xs) ys x = ground (arith, in_int_arr-append xs ys x)

is_port_lem : (p : Bytes) (m : ℕ) → atoi p ≡ some (pos m) → 1 ≤ m → m ≤ 65536 → is_port p ≡ true
unfolding is_port is_port_number
is_port_lem p m e h k = ap is_port_number e ∙ ground arith

ports_of_range :
    (v a b : Bytes) (m n x : ℕ)
    → atoi a ≡ some (pos m)
    → atoi b ≡ some (pos n)
    → 1 ≤ m
    → n ≤ 65536
    → m ≤ x
    → x ≤ n
    → in_int_arr (ports_of v (a ∷ b ∷ [])) (pos x) ≡ true
unfolding ports_of
ports_of_range v a b m n x g h l u i j =
    rw (is_port_lem a m g l (omega arith), is_port_lem b n h (omega arith) u, g, h)
      (count_up-mem (n + 1 - m) m x i (omega arith))

-- A piece between commas that is a range `m-n` of ports, with `m` at least 1 and `n` at most 65536,
-- gives every port from `m` to `n`.
pub get_ports_range :
    (p a b : Bytes) (m n x : ℕ) (before after : List Bytes) (v : Bytes)
    → split b',' p ≡ before ++ v ∷ after
    → split b'-' v ≡ a ∷ b ∷ []
    → atoi a ≡ some (pos m)
    → atoi b ≡ some (pos n)
    → 1 ≤ m
    → n ≤ 65536
    → m ≤ x
    → x ≤ n
    → in_int_arr (get_ports p) (pos x) ≡ true
unfolding get_ports
get_ports_range p a b m n x before after v e f g h l u i j = rw e (go before)
  where
    here : in_int_arr (ports_of v (split b'-' v)) (pos x) ≡ true
    here = rw f (ports_of_range v a b m n x g h l u i j)

    go : (before : List Bytes) → in_int_arr (all_ports (before ++ v ∷ after)) (pos x) ≡ true
    go [] =
        unfold all_ports in
        rw (in_int_arr-append (ports_of v (split b'-' v)) (all_ports after) (pos x), here) refl
    go (w ∷ ws) =
        unfold all_ports in
        rw
          (
            in_int_arr-append (ports_of w (split b'-' w)) (all_ports (ws ++ v ∷ after)) (pos x),
            go ws,
          )
          (ground arith)
