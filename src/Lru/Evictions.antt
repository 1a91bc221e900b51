-- ===== src/Lru/Evictions.antt =====
-- `Add` of a new key, with the eviction of the oldest entry.
use next_nps.Base.{
  ltb, nat_beq, Comparable, ==_iff, Bool-cases, length, load, store, load-store, load-delete,
  map_some, ℕ, ◌+◌, ◌≤◌, ◌≡◌, refl, sym, ap, ◌∙◌, subst, ◌⊎◌, inl, inr, not, ◌&&◌, none, some, List,
  [], ◌∷◌, arith, nat_eq, bytes_eq,
}
use next_nps.Lru.{Element, Cache, back, remove_element, remove_back, trim, add_new, add_at, add}
use next_nps.Lru.Order.{
  elem_of, IsWellFormed, IsValid, without, elem_addr, IsWellFormed-without, elem_of-without,
  elem_of_mono, fresh-Absent, elem_of-cons, back_elem, length-without,
}

module _ {K V : Type 0} ⦃e : Comparable K⦄ where
  -- The cache with a new entry in front, before it is trimmed.
  abbrev pub pushed : Cache K V → K → V → Cache K V
  pushed c k w = record c {
    ll = record { addr = c.fresh; key = k; value = w } ∷ c.ll;
    index = store k c.fresh c.index;
    fresh = c.fresh + 1;
  }

  pushed-IsValid :
      (c : Cache K V) (k : K) (w : V) → IsValid c → elem_of k c.ll ≡ none → IsValid (pushed c k w)
  pushed-IsValid c k w v h = record {
    well_formed = (
      omega arith,
      fresh-Absent c.fresh c.ll v.well_formed,
      h,
      elem_of_mono c.fresh (c.fresh + 1) c.ll (omega arith) v.well_formed,
    );
    indexed = λ j. ground (arith, load-store k j c.fresh c.index, v.indexed j);
    live = v.live;
  }

  remove_element-IsValid :
      (c : Cache K V) (y : Element K V)
      → IsValid c
      → elem_of y.key c.ll ≡ some y
      → IsValid (remove_element c y) × ((remove_element c y).ll ≡ without y.key c.ll)
  unfolding remove_element
  remove_element-IsValid c y v h =
      let (p, q, r) = elem_addr c.fresh y.key c.ll y v.well_formed h in
      (
        record {
          well_formed =
              subst (IsWellFormed c.fresh) (sym q)
                (IsWellFormed-without c.fresh y.key c.ll v.well_formed);
          indexed = λ j.
              load-delete y.key j c.index
              ∙ rw (q, elem_of-without c.fresh y.key j c.ll v.well_formed, v.indexed j)
                  (ground arith);
          live = v.live;
        },
        q,
      )

  -- What is left of a list whose last entry was dropped to make room.
  abbrev pub Fits : ℕ → List (Element K V) → Type 0
  Fits max xs = (max ≡ 0) ⊎ (length xs ≤ max)

  trim_full :
      (c : Cache K V) (x z : Element K V) (zs : List (Element K V))
      → IsValid c
      → c.ll ≡ x ∷ z ∷ zs
      → length (z ∷ zs) ≤ c.max_entries
      → IsValid (remove_back c (back c.ll))
        × (length (remove_back c (back c.ll)).ll ≤ c.max_entries)
        × (elem_of x.key (remove_back c (back c.ll)).ll ≡ some x)
  unfolding remove_back back
  trim_full c x z zs v e f =
      let w = subst (IsWellFormed c.fresh) e v.well_formed in
      let (y, b, l) = back_elem c.fresh z zs w.3 in
      let b' : back c.ll ≡ some y = ap back e ∙ b in
      let l' : elem_of y.key c.ll ≡ some y =
        ap (elem_of y.key) e ∙ elem_of-cons y.key x y (z ∷ zs) w.2 l in
      let (rv, q) = remove_element-IsValid c y v l' in
      let short = length-without y.key c.ll y l' in
      rw b' (
        rv,
        omega (arith, ap length q, short, ap length e),
        ap (elem_of x.key) q
            ∙ elem_of-without c.fresh y.key x.key c.ll v.well_formed
            ∙ ground (arith, ==_iff y.key x.key, ==_iff x.key x.key, w.2, l, e),
      )

  trim-IsValid :
      (c : Cache K V) (x : Element K V) (xs : List (Element K V))
      → IsValid c
      → c.ll ≡ x ∷ xs
      → (c.max_entries ≡ 0) ⊎ (length xs ≤ c.max_entries)
      → IsValid (trim c) × Fits c.max_entries (trim c).ll × (elem_of x.key (trim c).ll ≡ some x)
  unfolding trim
  trim-IsValid c x [] v e f =
      elim (Bool-cases (not (nat_beq c.max_entries 0) && ltb c.max_entries (length c.ll))) [
        | inl t ↦ absurd (ground (arith, ap length e))
        | inr t ↦ rw t (v, ground (arith, ap length e), rw e (ground (arith, ==_iff x.key x.key)))
      ]
  trim-IsValid c x (z ∷ zs) v e f =
      elim (Bool-cases (not (nat_beq c.max_entries 0) && ltb c.max_entries (length c.ll))) [
        | inl t ↦ let (p, q, r) = trim_full c x z zs v e (ground arith) in rw t (p, inr q, r)
        | inr t ↦ rw t (v, ground (arith, ap length e), rw e (ground (arith, ==_iff x.key x.key)))
      ]

  -- A write to a key that is not in a well-formed cache within its limit succeeds: the entry is in the
  -- cache with its value, and the cache is well formed and within its limit again.
  pub add_miss :
      (c : Cache K V) (k : K) (w : V)
      → IsValid c
      → elem_of k c.ll ≡ none
      → Fits c.max_entries c.ll
      → (c' : Cache K V) × (add c k w ≡ some c')
        × IsValid c'
        × Fits c.max_entries c'.ll
        × (map_some (λ (x : Element K V). x.value) (elem_of k c'.ll) ≡ some w)
  unfolding add add_at add_new
  add_miss c k w v h f =
      let there : load k c.index ≡ none = v.indexed k ∙ rw h refl in
      let (valid, fits, found) =
        trim-IsValid (pushed c k w) _ c.ll (pushed-IsValid c k w v h) refl f in
      (trim (pushed c k w), ap (add_at c k w) there ∙ rw v.live refl, valid, fits, rw found refl)
