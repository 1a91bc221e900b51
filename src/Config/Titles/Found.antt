-- ===== src/Config/Titles/Found.antt =====
-- The titles of lib/config/config.go in a file that is written section by section: `getAllTitle`.
use next_nps.Config.Titles.{
  title_body, whole_title, title_of, onto, find_titles, is_seen, has_duplicate, get_all_title,
}
use next_nps.Config.Titles.Cuts.{
  bracket, bracket_other, has_prefix_self, render, titles, IsName, IsText, IsFile,
}
use next_nps.Base.{
  nat_beq, ◌==◌, Bool-cases, All, Bytes, bytes_beq_iff, has_prefix, cons_head, split, ℕ, ◌≡◌, refl,
  ap, ◌∙◌, subst, ◌≢◌, inl, inr, true, false, none, some, List, [], ◌∷◌, ◌++◌, arith, nat_eq,
  bytes_eq,
}

-- The last byte is a line break.
abbrev pub EndsLine : Bytes → Type 0
EndsLine [] = ⊥
EndsLine (c ∷ []) = c ≡ 10
EndsLine (c ∷ d ∷ b) = EndsLine (d ∷ b)

-- A name of one byte at least, and a text that ends with a line.
abbrev pub IsLined : List (Bytes × Bytes) → Type 0
IsLined secs = All (λ (s : Bytes × Bytes). (s.0 ≢ []) × EndsLine s.1) secs

first_line : List Bytes → Bytes
first_line [] = []
first_line (l ∷ ls) = l

-- The titles of the lines behind the first.
titles_behind : List Bytes → List Bytes
titles_behind [] = []
titles_behind (l ∷ ls) = find_titles ls

find_titles_lines :
    (ls : List Bytes) → find_titles ls ≡ onto (title_of (first_line ls)) (titles_behind ls)
unfolding find_titles first_line titles_behind onto title_of
find_titles_lines [] = refl
find_titles_lines (l ∷ ls) = refl

behind-cons_head : (c : ℕ) (ls : List Bytes) → titles_behind (cons_head c ls) ≡ titles_behind ls
unfolding titles_behind find_titles
behind-cons_head c [] = refl
behind-cons_head c (l ∷ ls) = refl

first-cons_head : (c : ℕ) (ls : List Bytes) → first_line (cons_head c ls) ≡ c ∷ first_line ls
unfolding first_line
first-cons_head c [] = refl
first-cons_head c (l ∷ ls) = refl

-- A byte that is no line break belongs to the line that goes on behind it.
split_byte :
    (c : ℕ) (s : Bytes) → nat_beq c 10 ≡ false → split 10 (c ∷ s) ≡ cons_head c (split 10 s)
unfolding split
split_byte c s h = rw h refl

split_break : (c : ℕ) (s : Bytes) → nat_beq c 10 ≡ true → split 10 (c ∷ s) ≡ [] ∷ split 10 s
unfolding split
split_break c s h = rw h refl

-- No title begins a line that begins with another byte.
no_title :
    (c : ℕ) (s : Bytes) → nat_beq c b'[' ≡ false → title_of (first_line (split 10 (c ∷ s))) ≡ none
unfolding title_of first_line
no_title c s h = elim (Bool-cases (nat_beq c 10)) [
  | inl e ↦ ap (λ x. title_of (first_line x)) (split_break c s e) ∙ refl
  | inr e ↦
      ap (λ x. title_of (first_line x)) (split_byte c s e)
      ∙ ap title_of (first-cons_head c (split 10 s))
      ∙ rw h refl
]

-- A text of lines adds no title to those of what follows it.
behind_text :
    (b s : Bytes)
    → IsText b
    → EndsLine b
    → titles_behind (split 10 (b ++ s)) ≡ find_titles (split 10 s)
unfolding titles_behind onto find_titles
behind_text [] s t e = absurd e
behind_text (c ∷ []) s t e = ap titles_behind (split_break c s (ground arith))
behind_text (c ∷ d ∷ b) s t e =
    let ih = behind_text (d ∷ b) s t.1 e in
    elim (Bool-cases (nat_beq c 10)) [
      | inl y ↦
          ap titles_behind (split_break c ((d ∷ b) ++ s) y)
          ∙ find_titles_lines (split 10 ((d ∷ b) ++ s))
          ∙ ap (λ o. onto o (titles_behind (split 10 ((d ∷ b) ++ s)))) (no_title d (b ++ s) t.1.0)
          ∙ ih
      | inr n ↦
          ap titles_behind (split_byte c ((d ∷ b) ++ s) n)
          ∙ behind-cons_head c (split 10 ((d ∷ b) ++ s))
          ∙ ih
    ]

InLine : Bytes → Type 0
InLine = All (λ c. nat_beq c 10 ≡ false)

split-InLine :
    (t s : Bytes)
    → InLine t
    → (first_line (split 10 (t ++ s)) ≡ t ++ first_line (split 10 s))
      × (titles_behind (split 10 (t ++ s)) ≡ titles_behind (split 10 s))
unfolding InLine
split-InLine [] s i = (refl, refl)
split-InLine (c ∷ t) s (h, i) =
    let (f, b) = split-InLine t s i in
    let e = split_byte c (t ++ s) h in
    (
      ap first_line e ∙ first-cons_head c (split 10 (t ++ s)) ∙ ap (◌∷◌ c) f,
      ap titles_behind e ∙ behind-cons_head c (split 10 (t ++ s)) ∙ b,
    )

name-InLine : (n : Bytes) → IsName n → InLine (n ++ (b']' ∷ []))
unfolding InLine
name-InLine [] p = (refl, tt)
name-InLine (c ∷ n) (p, q) = (ground arith, name-InLine n q)

bracket-InLine : (n : Bytes) → IsName n → InLine (bracket n)
unfolding InLine
bracket-InLine n p = (refl, name-InLine n p)

title_body_lem : (n l : Bytes) → IsName n → title_body ((n ++ (b']' ∷ [])) ++ l) ≡ some n
unfolding title_body
title_body_lem [] l p = refl
title_body_lem (c ∷ n) l (p, q) = rw (title_body_lem n l q) (ground (arith, p))

title_of-bracket : (n l : Bytes) → IsName n → n ≢ [] → title_of (bracket n ++ l) ≡ some (bracket n)
unfolding title_of whole_title
title_of-bracket [] l p d = absurd (d refl)
title_of-bracket (c ∷ n) l p d = ap whole_title (title_body_lem (c ∷ n) l p)

no_titles : find_titles (split 10 []) ≡ []
unfolding find_titles split title_of onto
no_titles = refl

find_titles-render :
    (secs : List (Bytes × Bytes))
    → IsFile secs
    → IsLined secs
    → find_titles (split 10 (render secs)) ≡ titles secs
unfolding onto
find_titles-render [] f l = no_titles
find_titles-render ((n, b) ∷ more) (p, t, d, f) ((ne, en), l) =
    let rest = b ++ render more in
    let (first, behind) = split-InLine (bracket n) rest (bracket-InLine n p) in
    find_titles_lines (split 10 (bracket n ++ rest))
    ∙ ap (λ x. onto (title_of x) (titles_behind (split 10 (bracket n ++ rest)))) first
    ∙ ap (λ o. onto o (titles_behind (split 10 (bracket n ++ rest))))
        (title_of-bracket n (first_line (split 10 rest)) p ne)
    ∙ ap (◌∷◌ (bracket n)) (behind ∙ behind_text b (render more) t en ∙ find_titles-render more f l)

bracket_apart : (m n : Bytes) → IsName m → IsName n → m ≢ n → (bracket m == bracket n) ≡ false
bracket_apart m n p q d = elim (Bool-cases (bracket m == bracket n)) [
  | inl e ↦
      let same : bracket m ≡ bracket n = (bytes_beq_iff (bracket m) (bracket n)).0 e in
      let yes : has_prefix (bracket m) (bracket n ++ []) ≡ true =
        subst (λ x. has_prefix (bracket m) (x ++ []) ≡ true) same
          (has_prefix_self (bracket m) []) in
      absurd (ground (arith, yes, bracket_other m n [] p q d))
  | inr e ↦ e
]

Unseen : List Bytes → List (Bytes × Bytes) → Type 0
Unseen seen secs = All (λ (s : Bytes × Bytes). is_seen (bracket s.0) seen ≡ false) secs

Unseen-cons :
    (seen : List Bytes) (n : Bytes) (more : List (Bytes × Bytes))
    → IsName n
    → All (λ (s : Bytes × Bytes). s.0 ≢ n) more
    → IsFile more
    → Unseen seen more
    → Unseen (bracket n ∷ seen) more
unfolding Unseen is_seen
Unseen-cons seen n [] p d f u = tt
Unseen-cons seen n ((m, b) ∷ more) p (d, ds) (q, t, e, f) (u, us) =
    (rw (bracket_apart m n q p d) u, Unseen-cons seen n more p ds f us)

has_duplicate-titles :
    (seen : List Bytes) (secs : List (Bytes × Bytes))
    → IsFile secs
    → Unseen seen secs
    → has_duplicate seen (titles secs) ≡ false
unfolding has_duplicate Unseen
has_duplicate-titles seen [] f u = refl
has_duplicate-titles seen ((n, b) ∷ more) (p, t, d, f) (u, us) =
    rw u (has_duplicate-titles (bracket n ∷ seen) more f (Unseen-cons seen n more p d f us))

all-Unseen : (secs : List (Bytes × Bytes)) → Unseen [] secs
unfolding Unseen is_seen
all-Unseen [] = tt
all-Unseen (s ∷ secs) = (refl, all-Unseen secs)

-- The titles are found where they are written, and none is an error.
pub get_all_title-render :
    (secs : List (Bytes × Bytes))
    → IsFile secs
    → IsLined secs
    → get_all_title (render secs) ≡ (titles secs, false)
unfolding get_all_title
get_all_title-render secs f l =
    let e = find_titles-render secs f l in
    ap (λ ts. (ts, has_duplicate [] ts)) e
    ∙ ap (λ x. (titles secs, x)) (has_duplicate-titles [] secs f (all-Unseen secs))
