-- ===== src/File/Targets.antt =====
-- `Target.GetRandomTarget` of lib/file/obj.go: the next address of a target list.
use next_nps.Base.{
  ltb, if◌then◌else◌, ltb→lt, Bool-cases, length, get_elem?, get_or, Bytes, split, ℕ, zero, suc,
  ◌+◌, ◌%◌, ◌<◌, ◌≡◌, refl, sym, ap, ◌∙◌, inl, inr, Option, none, some, List, [], ◌∷◌, arith,
}
use next_nps.Base.Int.{ℤ, pos, negsuc, ◌+ℤ◌, ◌-ℤ◌, leb_ℤ}
use native.Mathlib.Nat.{mod-eq_of_lt, mod_self, mod-add-mod, mod-lt}
use next_nps.File.{Target}

pub data Pick : Type 0 where
  picked : Bytes → Pick
  all_offline : Pick
  out_of_range : Pick

-- A slice index: a negative one, and one past the end, are a panic.
abbrev pick_at : List Bytes → ℤ → Pick
pick_at arr (negsuc n) = out_of_range
pick_at arr (pos n) = elim (get_elem? arr n) [ none ↦ out_of_range | some t ↦ picked t ]

-- `if s.nowIndex >= len-1 { s.nowIndex = -1 }; s.nowIndex++`.
advance : ℕ → ℤ → ℤ
advance len i = (if leb_ℤ (pos len -ℤ pos 1) i then negsuc 0 else i) +ℤ pos 1

-- The tests on a slice that is no longer nil.
pick_from : Target → List Bytes → Target × Pick
unfolding advance
pick_from s [] = (record s { target_arr = some [] }, all_offline)
pick_from s (a ∷ []) = (record s { target_arr = some (a ∷ []) }, picked a)
pick_from s (a ∷ b ∷ r) =
    let arr = a ∷ b ∷ r in
    let i = advance (length arr) s.now_index in
    (record s { target_arr = some arr; now_index = i }, pick_at arr i)

-- The slice, split from the text when it is nil.
abbrev pub targets_of : Target → Option (List Bytes) → List Bytes
targets_of s none = split b'\n' s.target_str
targets_of s (some arr) = arr

unfoldable pub get_random_target : Target → Target × Pick
unfolding pick_from
get_random_target s = pick_from s (targets_of s s.target_arr)

-- `n` calls in a row, with what they return.
unfoldable pub picks : ℕ → Target → List Pick
picks zero s = []
picks (suc n) s = (get_random_target s).1 ∷ picks n (get_random_target s).0

advance_pos :
    (len i : ℕ) → 1 < len → advance len (pos i) ≡ pos (if ltb (i + 1) len then i + 1 else 0)
unfolding advance ◌+ℤ◌ ◌-ℤ◌
advance_pos len i h = ground arith

get_elem?-some :
    (arr : List Bytes) (i : ℕ) → i < length arr → get_elem? arr i ≡ some (get_or arr i [])
get_elem?-some [] i h = absurd (omega arith)
get_elem?-some (a ∷ arr) zero h = refl
get_elem?-some (a ∷ arr) (suc i) h = get_elem?-some arr i (omega arith)

pick_two :
    (s : Target) (a b t : Bytes) (r : List Bytes) (i j : ℕ)
    → s.now_index ≡ pos i
    → advance (length (a ∷ b ∷ r)) (pos i) ≡ pos j
    → get_elem? (a ∷ b ∷ r) j ≡ some t
    → pick_from s (a ∷ b ∷ r)
      ≡ (record s { target_arr = some (a ∷ b ∷ r); now_index = pos j }, picked t)
unfolding pick_from
pick_two s a b t r i j n e g =
    let e' : advance (length (a ∷ b ∷ r)) s.now_index ≡ pos j = rw n e in
    rw e' (
      ap {B = Target × Pick}
        (λ (o : Option Bytes). (
          record s { target_arr = some (a ∷ b ∷ r); now_index = pos j },
          elim o [ none ↦ out_of_range | some x ↦ picked x ],
        ))
        g)

-- With two targets or more, from any index that is not negative, also one that is out of range: the
-- next index is in range and its target is returned.
pub get_random_target_lem :
    (s : Target) (arr : List Bytes) (i : ℕ)
    → targets_of s s.target_arr ≡ arr
    → 1 < length arr
    → s.now_index ≡ pos i
    → let j = if ltb (i + 1) (length arr) then i + 1 else 0 in
      (j < length arr)
      × (get_random_target s
          ≡ (record s { target_arr = some arr; now_index = pos j }, picked (get_or arr j [])))
unfolding get_random_target
get_random_target_lem s [] i e h n = absurd (omega arith)
get_random_target_lem s (a ∷ []) i e h n = absurd (omega arith)
get_random_target_lem s (a ∷ b ∷ r) i e h n =
    let arr = a ∷ b ∷ r in
    let j : ℕ = if ltb (i + 1) (length arr) then i + 1 else 0 in
    let lt : j < length arr = ground arith in
    (
      lt,
      ap (pick_from s) e
          ∙ pick_two s a b _ r i j n (advance_pos (length arr) i h) (get_elem?-some arr j lt),
    )

next_mod : (n i : ℕ) → 0 < n → i < n → (if ltb (i + 1) n then i + 1 else 0) ≡ (i + 1) % n
next_mod n i p h = elim (Bool-cases (ltb (i + 1) n)) [
  | inl t ↦ rw t (sym (mod-eq_of_lt (ltb→lt (i + 1) n t)))
  | inr f ↦ let e : i + 1 ≡ n = ground arith in rw (f, e) (sym (mod_self n))
]

turn :
    (s : Target) (arr : List Bytes) (i : ℕ)
    → targets_of s s.target_arr ≡ arr
    → 1 < length arr
    → s.now_index ≡ pos i
    → i < length arr
    → get_random_target s ≡ (
      record s { target_arr = some arr; now_index = pos ((i + 1) % length arr) },
      picked (get_or arr ((i + 1) % length arr) []),
    )
turn s arr i e h m b =
    (get_random_target_lem s arr i e h m).1
    ∙ ap {B = Target × Pick}
        (λ (j : ℕ).
          (record s { target_arr = some arr; now_index = pos j }, picked (get_or arr j [])))
        (next_mod (length arr) i (omega arith) b)

shift_mod : (i k n : ℕ) → ((i + 1) % n + 1 + k) % n ≡ (i + 1 + suc k) % n
shift_mod i k n = ap (λ (x : ℕ). x % n) (omega arith) ∙ mod-add-mod (i + 1) n (suc k)

-- With two targets or more, from an index `i` in range, call `k` of a row of calls returns entry
-- `i + 1 + k` of the list, counted round.
pub picks-round_robin :
    (n k i : ℕ) (s : Target) (arr : List Bytes)
    → targets_of s s.target_arr ≡ arr
    → 1 < length arr
    → s.now_index ≡ pos i
    → i < length arr
    → k < n
    → get_elem? (picks n s) k ≡ some (picked (get_or arr ((i + 1 + k) % length arr) []))
unfolding picks
picks-round_robin zero k i s arr e h m b lt = absurd (omega arith)
picks-round_robin (suc n) zero i s arr e h m b lt =
    ap {B = Option Pick} (λ (r : Target × Pick). some r.1) (turn s arr i e h m b)
    ∙ ap (λ (j : ℕ). some (picked (get_or arr (j % length arr) []))) (omega arith)
picks-round_robin (suc n) (suc k) i s arr e h m b lt =
    let s' : Target = record s { target_arr = some arr; now_index = pos ((i + 1) % length arr) } in
    ap (λ (r : Target × Pick). get_elem? (picks n r.0) k) (turn s arr i e h m b)
    ∙ picks-round_robin n k ((i + 1) % length arr) s' arr refl h refl (mod-lt (i + 1) (omega arith))
        (omega arith)
    ∙ ap (λ (j : ℕ). some (picked (get_or arr j []))) (shift_mod i k (length arr))
