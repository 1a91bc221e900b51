-- ===== src/Health/Down.antt =====
-- What the server is told of a target by `check` of client/health.go.
use native.Mathlib.Nat.{mod_self, mod-eq_of_lt}
use next_nps.Health.{
  CheckedHealth, Report, recovered, failed, count_of, count_answer, when, is_due, check_target,
  check_targets, check,
}
use next_nps.Base.{
  ltb, leb, nat_beq, if◌then◌else◌, ltb→lt, ◌==◌, Bool-cases, if_both, if_split, Bytes,
  bytes_beq_iff, split, Store, load, load-store, ℕ, ◌+◌, ◌%◌, ◌<◌, ◌≡◌, refl, sym, ap, ◌∙◌, subst,
  inl, inr, Bool, true, false, not, ◌||◌, some, List, [], ◌∷◌, ◌++◌, arith, nat_eq, bytes_eq,
}

-- The abstract view of a target: it is up or down.
pub data Moves : Bool → List Report → Bool → Bytes → Type 0 where
  stays : (d : Bool) (v : Bytes) → Moves d [] d v
  falls : (d : Bool) (v : Bytes) → Moves d (failed v ∷ []) true v
  rises : (v : Bytes) → Moves true (recovered v ∷ []) false v
  both :
      (a b c : Bool) (v : Bytes) (rs qs : List Report)
      → Moves a rs b v
      → Moves b qs c v
      → Moves a (rs ++ qs) c v

-- A target is down from the first report of its failure on.
abbrev pub is_down : ℕ → Bytes → Store Bytes ℕ → Bool
is_down max v m = leb max (count_of (load v m))

about : Bytes → Report → Bool
about v (recovered u) = u == v
about v (failed u) = u == v

-- The reports on one target.
pub about_target : Bytes → List Report → List Report
about_target v [] = []
about_target v (r ∷ rs) = let rest = about_target v rs in if about v r then r ∷ rest else rest

about_target-append :
    (v : Bytes) (rs qs : List Report)
    → about_target v (rs ++ qs) ≡ about_target v rs ++ about_target v qs
unfolding about_target
about_target-append v [] qs = refl
about_target-append v (r ∷ rs) qs = elim (Bool-cases (about v r)) [
  | inl e ↦ rw (e, about_target-append v rs qs) refl
  | inr e ↦ rw (e, about_target-append v rs qs) refl
]

module _ (max n : ℕ) where
  below_mod : n < max → n % max ≡ n
  below_mod h = mod-eq_of_lt h

  -- Below the limit nothing is due.
  not_due : n < max → is_due max n ≡ false
  unfolding is_due
  not_due h = let e : n % max ≡ n = below_mod h in rw e (ground arith)

due_at : (max : ℕ) → 0 < max → is_due max max ≡ true
unfolding is_due
due_at max z = rw (mod_self max) (ground arith)

-- Where a failure is reported, the count has reached the limit; where none is, it has not passed it.
due_ge : (max n : ℕ) → is_due max n ≡ true → leb max n ≡ true
due_ge max n d = elim (Bool-cases (ltb n max)) [
  | inl e ↦ absurd (ground (arith, not_due max n (ltb→lt n max e), d))
  | inr e ↦ ground (arith, e)
]

not_due_same : (max n : ℕ) → 0 < max → is_due max (n + 1) ≡ false → leb max (n + 1) ≡ leb max n
not_due_same max n z d = elim (Bool-cases (nat_beq (n + 1) max)) [
  | inl e ↦
      let f : n + 1 ≡ max = ground (arith, e) in
      absurd (ground (arith, due_at max z, ap (is_due max) f, d))
  | inr e ↦ ground (arith, e)
]

-- One answer, by the count before it.
counted-Moves :
    (max n : ℕ) (up : Bool) (v : Bytes)
    → 0 < max
    → let (n', back) = count_answer max up n in
      Moves (leb max n) (when back (recovered v) ++ when (is_due max n') (failed v)) (leb max n') v
unfolding count_answer
counted-Moves max n true v z = elim (Bool-cases (leb max n)) [
  | inl e ↦ let f : leb max 0 ≡ false = ground arith in rw (e, not_due max 0 z, f) (rises v)
  | inr e ↦ let lt : n < max = ground (arith, e) in rw (e, not_due max n lt, e) (stays false v)
]
counted-Moves max n false v z = elim (Bool-cases (is_due max (n + 1))) [
  | inl e ↦ rw (e, due_ge max (n + 1) e) (falls (leb max n) v)
  | inr e ↦ rw (e, not_due_same max n z e) (stays (leb max n) v)
]

counted_kept :
    (max n : ℕ) (up : Bool)
    → (not up || (count_answer max up n).1) ≡ false
    → (count_answer max up n).0 ≡ n
unfolding count_answer
counted_kept max n true h = elim (Bool-cases (leb max n)) [
  | inl e ↦
      let back : (count_answer max true n).1 ≡ true = rw e refl in absurd (ground (arith, back, h))
  | inr e ↦ rw e refl
]
counted_kept max n false h = absurd (ground arith)

own_count :
    (v : Bytes) (n : ℕ) (m : Store Bytes ℕ) → count_of (if v == v then some n else load v m) ≡ n
unfolding count_of
own_count v n m = let e : (v == v) ≡ true = ground (arith, bytes_beq_iff v v) in rw e refl

module _ (max : ℕ) (up : Bytes → Bool) (v : Bytes) (m : Store Bytes ℕ) where
  check_target_own :
      count_of (load v (check_target max up v m).0)
      ≡ (count_answer max (up v) (count_of (load v m))).0
  unfolding check_target
  check_target_own =
      let (n', back) = count_answer max (up v) (count_of (load v m)) in
      if_split (λ (x : Store Bytes ℕ). count_of (load v x) ≡ n') (not (up v) || back) _ _
        (λ e. ap count_of (load-store v v n' m) ∙ own_count v n' m)
        (λ e. sym (counted_kept max (count_of (load v m)) (up v) e))

  check_target_other :
      (u : Bytes) → (v == u) ≡ false → load u (check_target max up v m).0 ≡ load u m
  unfolding check_target
  check_target_other u n =
      let (n', back) = count_answer max (up v) (count_of (load v m)) in
      if_both (λ (x : Store Bytes ℕ). load u x ≡ load u m) (not (up v) || back) _ _
        (load-store v u n' m ∙ rw n refl) refl

about_pair :
    (v : Bytes) (b d : Bool)
    → (v == v) ≡ true
    → about_target v (when b (recovered v) ++ when d (failed v))
      ≡ when b (recovered v) ++ when d (failed v)
unfolding about_target about
about_pair v true true e = rw e refl
about_pair v true false e = rw e refl
about_pair v false true e = rw e refl
about_pair v false false e = refl

about_own :
    (v : Bytes) (b d : Bool)
    → about_target v (when b (recovered v) ++ when d (failed v))
      ≡ when b (recovered v) ++ when d (failed v)
unfolding about_target about
about_own v b d = let e : (v == v) ≡ true = ground (arith, bytes_beq_iff v v) in about_pair v b d e

about_others :
    (u v : Bytes) (b d : Bool)
    → (v == u) ≡ false
    → about_target u (when b (recovered v) ++ when d (failed v)) ≡ []
unfolding about_target about
about_others u v true true n = rw n refl
about_others u v true false n = rw n refl
about_others u v false true n = rw n refl
about_others u v false false n = refl

module _ (max : ℕ) (up : Bytes → Bool) (z : 0 < max) (u : Bytes) where
  own_Moves :
      (m : Store Bytes ℕ)
      → let (m', rs) = check_target max up u m in
        Moves (is_down max u m) (about_target u rs) (is_down max u m') u
  unfolding check_target
  own_Moves m =
      let n = count_of (load u m) in
      let (n', back) = count_answer max (up u) n in
      let due = is_due max n' in
      let step : Moves (leb max n) (about_target u (when back (recovered u) ++ when due (failed u)))
          (leb max n') u =
        subst (λ rs. Moves (leb max n) rs (leb max n') u) (sym (about_own u back due))
          (counted-Moves max n (up u) u z) in
      subst
        (λ i.
          Moves (leb max n) (about_target u (when back (recovered u) ++ when due (failed u)))
            (leb max i) u)
        (sym (check_target_own max up u m)) step

  other_Moves :
      (v : Bytes) (m : Store Bytes ℕ)
      → (v == u) ≡ false
      → let (m', rs) = check_target max up v m in
        Moves (is_down max u m) (about_target u rs) (is_down max u m') u
  unfolding check_target
  other_Moves v m e =
      let (n', back) = count_answer max (up v) (count_of (load v m)) in
      let due = is_due max n' in
      let quiet : Moves (is_down max u m)
          (about_target u (when back (recovered v) ++ when due (failed v))) (is_down max u m) u =
        subst (λ rs. Moves (is_down max u m) rs (is_down max u m) u)
          (sym (about_others u v back due e)) (stays (is_down max u m) u) in
      subst
        (λ o.
          Moves (is_down max u m) (about_target u (when back (recovered v) ++ when due (failed v)))
            (leb max (count_of o)) u)
        (sym (check_target_other max up v m u e)) quiet

  -- One round of the loop, as one target sees it.
  check_target-Moves :
      (v : Bytes) (m : Store Bytes ℕ)
      → let (m', rs) = check_target max up v m in
        Moves (is_down max u m) (about_target u rs) (is_down max u m') u
  check_target-Moves v m = elim (Bool-cases (v == u)) [
    | inl e ↦
        let f : u ≡ v = ground (arith, bytes_beq_iff v u) in
        subst
          (λ w.
            Moves (is_down max u m) (about_target u (check_target max up w m).1)
              (is_down max u (check_target max up w m).0) u)
          f (own_Moves m)
    | inr e ↦ other_Moves v m e
  ]

  check_targets-Moves :
      (vs : List Bytes) (m : Store Bytes ℕ)
      → let (m', rs) = check_targets max up vs m in
        Moves (is_down max u m) (about_target u rs) (is_down max u m') u
  unfolding check_targets about_target
  check_targets-Moves [] m = stays (is_down max u m) u
  check_targets-Moves (v ∷ vs) m =
      let (m', rs) = check_target max up v m in
      let (m'', qs) = check_targets max up vs m' in
      subst (λ x. Moves (is_down max u m) x (is_down max u m'') u)
        (sym (about_target-append u rs qs))
        (both (is_down max u m) (is_down max u m') (is_down max u m'') u (about_target u rs)
          (about_target u qs) (check_target-Moves v m) (check_targets-Moves vs m'))

-- A check of all targets, as the server sees one of them, where the limit is above 0: the target
-- moves between up and down as the reports on it say. A failure makes it down, or leaves it so; a
-- recovery is sent only of a target that is down; without a report it stays what it was.
pub check-Moves :
    (up : Bytes → Bool) (t : CheckedHealth) (u : Bytes)
    → 0 < t.health_max_fail
    → let (t', rs) = check up t in
      Moves
        (is_down t.health_max_fail u t.health_map)
        (about_target u rs)
        (is_down t.health_max_fail u t'.health_map)
        u
unfolding check
check-Moves up t u z =
    check_targets-Moves t.health_max_fail up z u (split b',' t.health_check_target) t.health_map
