-- ===== src/Config/Titles/Cuts.antt =====
-- The cutting of lib/config/config.go on a file that is written section by section.
use next_nps.Config.Titles.{found_at, index_of, is_title_end, or_zero, next_index, section_text}
use next_nps.Base.{
  leb, nat_beq, Bool-cases, length, drop, length-append, take-append, drop-append, All, Bytes,
  has_prefix, map_some, ℕ, suc, ◌+◌, ◌-◌, ◌≡◌, refl, sym, ap, ◌∙◌, ◌≢◌, inl, inr, true, false, some,
  List, [], ◌∷◌, ◌++◌, append_assoc, arith,
}

-- The title of a name, and a file of names and texts.
abbrev pub bracket : Bytes → Bytes
bracket n = b'[' ∷ (n ++ (b']' ∷ []))

abbrev pub render : List (Bytes × Bytes) → Bytes
render [] = []
render ((n, b) ∷ more) = bracket n ++ (b ++ render more)

abbrev pub titles : List (Bytes × Bytes) → List Bytes
titles [] = []
titles ((n, b) ∷ more) = bracket n ∷ titles more

abbrev pub IsName : Bytes → Type 0
IsName n = All (λ c. is_title_end c ≡ false) n

abbrev pub IsText : Bytes → Type 0
IsText b = All (λ c. nat_beq c b'[' ≡ false) b

-- Names that differ, and texts in which no title begins.
abbrev pub IsFile : List (Bytes × Bytes) → Type 0
IsFile [] = Unit
IsFile ((n, b) ∷ more) =
    IsName n × IsText b × All (λ (s : Bytes × Bytes). s.0 ≢ n) more × IsFile more

pub has_prefix_self : (p s : Bytes) → has_prefix p (p ++ s) ≡ true
unfolding has_prefix
has_prefix_self [] s = refl
has_prefix_self (c ∷ p) s = ground (arith, has_prefix_self p s)

has_prefix_names :
    (m n s : Bytes)
    → IsName m
    → IsName n
    → has_prefix (m ++ (b']' ∷ [])) ((n ++ (b']' ∷ [])) ++ s) ≡ true
    → m ≡ n
unfolding has_prefix
has_prefix_names [] [] s p q h = refl
has_prefix_names [] (d ∷ n) s p q h = absurd (ground arith)
has_prefix_names (c ∷ m) [] s p q h = absurd (ground arith)
has_prefix_names (c ∷ m) (d ∷ n) s p q h =
    let e : c ≡ d = ground arith in
    let f : has_prefix (m ++ (b']' ∷ [])) ((n ++ (b']' ∷ [])) ++ s) ≡ true = ground arith in
    rw (e, has_prefix_names m n s p.1 q.1 f) refl

-- A text that holds no occurrence of a title is passed over on the way to it.
abbrev pub Skips : Bytes → Bytes → Type 0
Skips b m =
    (s : Bytes) (k : ℕ)
    → index_of s (bracket m) ≡ some k
    → index_of (b ++ s) (bracket m) ≡ some (length b + k)

bracket_no : (c : ℕ) (m s : Bytes) → nat_beq c b'[' ≡ false → has_prefix (bracket m) (c ∷ s) ≡ false
unfolding has_prefix
bracket_no c m s h = ground arith

pub bracket_other :
    (m n s : Bytes) → IsName m → IsName n → m ≢ n → has_prefix (bracket m) (bracket n ++ s) ≡ false
unfolding has_prefix
bracket_other m n s p q d =
    elim (Bool-cases (has_prefix (m ++ (b']' ∷ [])) ((n ++ (b']' ∷ [])) ++ s))) [
      | inl e ↦ absurd (d (has_prefix_names m n s p q e))
      | inr e ↦ e
    ]

name-IsText : (n : Bytes) → IsName n → IsText (n ++ (b']' ∷ []))
name-IsText [] p = (refl, tt)
name-IsText (c ∷ n) (p, q) = (ground arith, name-IsText n q)

index_of_step :
    (c : ℕ) (s m : Bytes) (k : ℕ)
    → has_prefix (bracket m) (c ∷ s) ≡ false
    → index_of s (bracket m) ≡ some k
    → index_of (c ∷ s) (bracket m) ≡ some (suc k)
unfolding index_of
index_of_step c s m k h e = ap (λ x. found_at x (index_of s (bracket m))) h ∙ ap (map_some suc) e

pub text-Skips : (b m : Bytes) → IsText b → Skips b m
text-Skips [] m t s k h = h ∙ ap some (omega arith)
text-Skips (c ∷ b) m t s k h =
    index_of_step c (b ++ s) m (length b + k) (bracket_no c m (b ++ s) t.0)
      (text-Skips b m t.1 s k h)
    ∙ ap some (omega arith)

append-Skips : (a b m : Bytes) → Skips a m → Skips b m → Skips (a ++ b) m
append-Skips a b m p q s k h =
    ap (λ x. index_of x (bracket m)) (append_assoc a b s)
    ∙ p (b ++ s) (length b + k) (q s k h)
    ∙ ap some (omega (arith, length-append a b))

-- Another title is passed over: behind its bracket it is text.
title-Skips : (n m : Bytes) → IsName n → IsName m → m ≢ n → Skips (bracket n) m
title-Skips n m p q d s k h =
    let tail = n ++ (b']' ∷ []) in
    let e : has_prefix (bracket m) (bracket n ++ s) ≡ false = bracket_other m n s q p d in
    index_of_step b'[' (tail ++ s) m (length tail + k) e (text-Skips tail m (name-IsText n p) s k h)
    ∙ ap some (omega arith)

index_of_self : (m s : Bytes) → index_of (bracket m ++ s) (bracket m) ≡ some 0
unfolding index_of
index_of_self m s =
    ap (λ x. found_at x (index_of ((m ++ (b']' ∷ [])) ++ s) (bracket m)))
      (has_prefix_self (bracket m) s)

module _ (pre : Bytes) (n b : Bytes) where
  next_index_lem :
      (more : List (Bytes × Bytes))
      → IsName n
      → IsText b
      → All (λ (s : Bytes × Bytes). (s.0 ≢ n) × Skips pre s.0 × IsName s.0) more
      → next_index (pre ++ render ((n, b) ∷ more)) (titles more)
        ≡ length pre + (length (bracket n) + length b)
  unfolding next_index
  next_index_lem [] p t a = omega (
    arith,
    length-append pre (bracket n ++ (b ++ [])),
    length-append (bracket n) (b ++ []),
    length-append b [],
  )
  next_index_lem ((m, c) ∷ more) p t ((d, k, q), a) =
      let rest = bracket m ++ (c ++ render more) in
      let found : index_of (pre ++ (bracket n ++ (b ++ rest))) (bracket m)
          ≡ some (length pre + (length (bracket n) + (length b + 0))) =
        k (bracket n ++ (b ++ rest)) (length (bracket n) + (length b + 0)) (
          title-Skips n m p q d (b ++ rest) (length b + 0)
            (text-Skips b m t rest 0 (index_of_self m (c ++ render more)))) in
      ap or_zero found ∙ omega arith

  -- The text of the first section of what is left, when what stands before it is passed over.
  pub section_text_lem :
      (more : List (Bytes × Bytes))
      → Skips pre n
      → IsName n
      → IsText b
      → All (λ (s : Bytes × Bytes). (s.0 ≢ n) × Skips pre s.0 × IsName s.0) more
      → section_text (pre ++ render ((n, b) ∷ more)) (bracket n) (titles more) ≡ some b
  unfolding section_text
  section_text_lem more k p t a =
      let content = pre ++ render ((n, b) ∷ more) in
      let now : or_zero (index_of content (bracket n)) + length (bracket n)
          ≡ length (pre ++ bracket n) =
        ap (λ i. or_zero i + length (bracket n))
          (k (render ((n, b) ∷ more)) 0 (index_of_self n (b ++ render more)))
        ∙ omega (arith, length-append pre (bracket n)) in
      let next : next_index content (titles more) ≡ length (pre ++ bracket n) + length b =
        next_index_lem more p t a ∙ omega (arith, length-append pre (bracket n)) in
      let inside : leb (length (pre ++ bracket n)) (length (pre ++ bracket n) + length b) ≡ true =
        ground arith in
      let size : length (pre ++ bracket n) + length b - length (pre ++ bracket n) ≡ length b =
        omega arith in
      let cut : drop (length (pre ++ bracket n)) content ≡ b ++ render more =
        ap (drop (length (pre ++ bracket n)))
          (sym (append_assoc pre (bracket n) (b ++ render more)))
        ∙ drop-append (length (pre ++ bracket n)) (pre ++ bracket n) (b ++ render more) refl in
      rw (now, next, inside, size, cut) (ap some (take-append (length b) b (render more) refl))

-- What stands before a section is passed over on the way to those behind it, as is the section.
pub section-Skips :
    (pre n b m : Bytes)
    → Skips pre m
    → IsName n
    → IsText b
    → IsName m
    → m ≢ n
    → Skips (pre ++ (bracket n ++ b)) m
section-Skips pre n b m k p t q d =
    append-Skips pre (bracket n ++ b) m k
      (append-Skips (bracket n) b m (title-Skips n m p q d) (text-Skips b m t))
