-- ===== src/Config/Lines.antt =====
-- The lines of a section in lib/config/config.go, and the readers of values of lib/common/util.go.
use next_nps.Ports.{unsigned}
use next_nps.Base.{
  ltb, leb, nat_beq, if◌then◌else◌, length, Bytes, has_prefix, split, split_seq, ℕ, zero, suc, ◌-◌,
  ◌^◌, Bool, true, false, ◌&&◌, ◌||◌, Option, none, some, List, [], ◌∷◌,
}
use next_nps.Base.Int.{ℤ, pos, negsuc}

-- `splitStr`: on Windows by its line ends, if that gives three lines or more.
unfoldable pub split_str : Bool → Bytes → List Bytes
unfolding split split_seq
split_str windows s =
    let lines = split_seq 0 (13 ∷ 10 ∷ []) s in
    if windows && leb 3 (length lines) then lines else split 10 s

-- A white space of ASCII.
abbrev pub is_space : ℕ → Bool
is_space c = nat_beq c 32 || leb 9 c && leb c 13

trim_left : Bytes → Bytes
trim_left [] = []
trim_left (c ∷ s) = if is_space c then trim_left s else c ∷ s

-- A byte in front of what is trimmed behind.
abbrev keep : ℕ → Bytes → Bytes
keep c [] = if is_space c then [] else c ∷ []
keep c (d ∷ s) = c ∷ d ∷ s

trim_right : Bytes → Bytes
trim_right [] = []
trim_right (c ∷ s) = keep c (trim_right s)

-- `strings.TrimSpace`.
unfoldable pub trim_space : Bytes → Bytes
unfolding trim_left trim_right
trim_space s = trim_right (trim_left s)

-- `strings.Replace(s, ",", "\n", -1)`.
unfoldable pub commas_to_lines : Bytes → Bytes
commas_to_lines [] = []
commas_to_lines (c ∷ s) = (if nat_beq c b',' then 10 else c) ∷ commas_to_lines s

-- `strings.Replace(s, p, "", -1)`; the first argument counts the bytes still to be passed over.
unfoldable pub remove_text : ℕ → Bytes → Bytes → Bytes
unfolding has_prefix
remove_text skip p [] = []
remove_text (suc skip) p (c ∷ s) = remove_text skip p s
remove_text zero p (c ∷ s) = elim (has_prefix p (c ∷ s)) [
  | true ↦ remove_text (length p - 1) p s
  | false ↦ c ∷ remove_text zero p s
]

-- The key and the value of a line: what stands before the first `=`, and from there to the next.
item_of : List Bytes → Bytes × Bytes
item_of [] = ([], [])
item_of (k ∷ []) = (k, [])
item_of (k ∷ v ∷ more) = (k, v)

unfoldable pub item : Bytes → Bytes × Bytes
unfolding item_of split
item line = item_of (split b'=' line)

-- The value that `strconv.Atoi` gives beside its error: 0 for what is no number, and the nearest
-- int for what is out of range.
abbrev nearest : Bool → Option ℕ → ℤ
nearest minus none = pos 0
nearest true (some n) =
    if nat_beq n 0 then pos 0 else if leb n (2 ^ 63) then negsuc (n - 1) else negsuc (2 ^ 63 - 1)
nearest false (some n) = if ltb n (2 ^ 63) then pos n else pos (2 ^ 63 - 1)

unfoldable pub signed : Bytes → ℤ
signed [] = pos 0
signed (c ∷ s) =
    if nat_beq c b'-'
    then nearest true (unsigned s)
    else if nat_beq c b'+'
    then nearest false (unsigned s)
    else nearest false (unsigned (c ∷ s))

-- `GetIntNoErrByStr`.
unfoldable pub get_int_no_err_by_str : Bytes → ℤ
unfolding signed trim_space
get_int_no_err_by_str s = signed (trim_space s)
