-- ===== src/Config/Titles.antt =====
-- The titles of a configuration file, and the text between them: `getAllTitle`, `getTitleContent`
-- and the indices of `NewConfig` in lib/config/config.go.
pub mod Cuts
pub mod Found
use next_nps.Base.{
  leb, nat_beq, if◌then◌else◌, ◌==◌, length, take, drop, Bytes, has_prefix, split, map_some, ℕ, suc,
  ◌+◌, ◌-◌, Bool, true, false, ◌||◌, Option, none, some, List, [], ◌∷◌, ◌++◌, nat_eq, bytes_eq,
}

-- Found here, or one place behind where it is found next.
abbrev found_at : Bool → Option ℕ → Option ℕ
found_at true next = some 0
found_at false next = map_some suc next

-- `strings.Index`; `none` is -1.
unfoldable pub index_of : Bytes → Bytes → Option ℕ
index_of [] p = if has_prefix p [] then some 0 else none
index_of (c ∷ s) p = found_at (has_prefix p (c ∷ s)) (index_of s p)

-- No byte of a title: `[`, `]`, and the ends of lines.
abbrev pub is_title_end : ℕ → Bool
is_title_end c = nat_beq c b'[' || nat_beq c b']' || nat_beq c 13 || nat_beq c 10

-- The bytes up to `]`, if it is the first that ends a title.
unfoldable pub title_body : Bytes → Option Bytes
title_body [] = none
title_body (c ∷ s) =
    let rest = title_body s in
    if nat_beq c b']' then some [] else if is_title_end c then none else map_some (◌∷◌ c) rest

whole_title : Option Bytes → Option Bytes
whole_title (some (c ∷ s)) = some (b'[' ∷ ((c ∷ s) ++ (b']' ∷ [])))
whole_title _ = none

-- The match of `^\[[^\[\]\r\n]+\]` in a line.
unfoldable pub title_of : Bytes → Option Bytes
unfolding title_body whole_title
title_of [] = none
title_of (c ∷ s) = if nat_beq c b'[' then whole_title (title_body s) else none

onto : Option Bytes → List Bytes → List Bytes
onto none ts = ts
onto (some t) ts = t ∷ ts

-- All matches: with the flag `m`, and as no match has a line end, one at most in a line.
unfoldable pub find_titles : List Bytes → List Bytes
unfolding title_of onto
find_titles [] = []
find_titles (line ∷ lines) = onto (title_of line) (find_titles lines)

-- A title among those that were seen.
unfoldable pub is_seen : Bytes → List Bytes → Bool
is_seen t [] = false
is_seen t (u ∷ us) = t == u || is_seen t us

unfoldable pub has_duplicate : List Bytes → List Bytes → Bool
unfolding is_seen
has_duplicate seen [] = false
has_duplicate seen (t ∷ ts) = is_seen t seen || has_duplicate (t ∷ seen) ts

-- `getAllTitle`: the titles, and whether one of them is an error.
unfoldable pub get_all_title : Bytes → List Bytes × Bool
unfolding find_titles has_duplicate split
get_all_title content = let ts = find_titles (split 10 content) in (ts, has_duplicate [] ts)

-- `getTitleContent`.
unfoldable pub get_title_content : Bytes → Bytes
get_title_content [] = []
get_title_content (c ∷ s) =
    let rest = get_title_content s in if nat_beq c b'[' || nat_beq c b']' then rest else c ∷ rest

-- An index as an int: `none` stands for -1. A title comes from the text, so it is found.
abbrev pub or_zero : Option ℕ → ℕ
or_zero none = 0
or_zero (some i) = i

-- Where the text of a section ends: at the next title, or with the file.
unfoldable pub next_index : Bytes → List Bytes → ℕ
next_index content [] = length content
next_index content (t ∷ ts) = or_zero (index_of content t)

-- `c.content[nowIndex:nextIndex]`; a slice whose end is before its start panics, `none`.
unfoldable pub section_text : Bytes → Bytes → List Bytes → Option Bytes
section_text content t ts =
    let now = or_zero (index_of content t) + length t in
    let next = next_index content ts in
    if leb now next then some (take (next - now) (drop now content)) else none
