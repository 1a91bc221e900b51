-- ===== src/Lru/Hits.antt =====
-- `Get`, and `Add` of a key that is there.
use next_nps.Base.{
  Comparable, ==_iff, Option-cases, load, map_some, ◌≡◌, refl, ap, ◌∙◌, inl, inr, none, some, ◌∷◌,
  arith, nat_eq, bytes_eq,
}
use next_nps.Lru.{Element, Cache, set_value, front, add_at, add, get_at, get}
use next_nps.Lru.Order.{
  elem_of, addr_of, IsValid, without, elem_addr, move_to_front_lem, IsWellFormed-front,
  elem_of-without, elem_addr_lt,
}

module _ {K V : Type 0} ⦃e : Comparable K⦄ where
  addr_of-indexed :
      (c : Cache K V) (k : K) (x x' : Element K V) (j : K)
      → IsValid c
      → elem_of k c.ll ≡ some x
      → x'.addr ≡ x.addr
      → x'.key ≡ k
      → load j c.index ≡ addr_of (elem_of j (x' ∷ without k c.ll))
  addr_of-indexed c k x x' j v h a b =
      v.indexed j
      ∙ ground (arith, elem_of-without c.fresh k j c.ll v.well_formed, ==_iff x'.key j, ==_iff k j)

  -- A cache whose list has the entry of `k` in front, with the same address.
  pub front-IsValid :
      (c : Cache K V) (k : K) (x x' : Element K V)
      → IsValid c
      → elem_of k c.ll ≡ some x
      → x'.addr ≡ x.addr
      → x'.key ≡ k
      → IsValid (record c { ll = x' ∷ without k c.ll })
  front-IsValid c k x x' v h a b = record {
    well_formed =
        IsWellFormed-front c.fresh k c.ll x x' v.well_formed h a b
          (elem_addr_lt c.fresh k c.ll x v.well_formed h);
    indexed = λ j. addr_of-indexed c k x x' j v h a b;
    live = v.live;
  }

  get_hit :
      (c : Cache K V) (k : K) (x : Element K V)
      → IsValid c
      → elem_of k c.ll ≡ some x
      → get c k ≡ (record c { ll = x ∷ without k c.ll }, some x.value)
  unfolding get get_at front
  get_hit c k x v h =
      let (p, q, r) = elem_addr c.fresh k c.ll x v.well_formed h in
      let there : load k c.index ≡ some x.addr = v.indexed k ∙ rw h refl in
      ap (get_at c) there ∙ rw (v.live, p, move_to_front_lem c.fresh k c.ll x v.well_formed h) refl

  get_miss : (c : Cache K V) (k : K) → IsValid c → elem_of k c.ll ≡ none → get c k ≡ (c, none)
  unfolding get get_at
  get_miss c k v h =
      let there : load k c.index ≡ none = v.indexed k ∙ rw h refl in ap (get_at c) there

  -- A read of a well-formed cache, hit or miss: it returns the value of the key, a hit puts the entry
  -- first and leaves the order of the others, a miss changes nothing, and the cache stays well formed.
  pub get_lem :
      (c : Cache K V) (k : K)
      → IsValid c
      → IsValid (get c k).0
        × ((get c k).1 ≡ map_some (λ (x : Element K V). x.value) (elem_of k c.ll))
        × ((x : Element K V) → elem_of k c.ll ≡ some x → (get c k).0.ll ≡ x ∷ without k c.ll)
        × (elem_of k c.ll ≡ none → (get c k).0 ≡ c)
  get_lem c k v = elim (Option-cases (elem_of k c.ll)) [
    | inl h ↦ rw (get_miss c k v h, h) (v, refl, (λ x l. absurd (ground arith)), (λ _. refl))
    | inr (x, h) ↦
        let r = (elem_addr c.fresh k c.ll x v.well_formed h).2 in
        rw (get_hit c k x v h, h)
          (
            front-IsValid c k x x v h refl r,
            refl,
            (λ y l. ground arith),
            (λ l. absurd (ground arith)),
          )
  ]

  -- A write to a key that is in a well-formed cache succeeds: the entry has the new value and comes
  -- first, the order of the others stays, and the cache stays well formed.
  pub add_hit :
      (c : Cache K V) (k : K) (w : V) (x : Element K V)
      → IsValid c
      → elem_of k c.ll ≡ some x
      → (add c k w ≡ some (record c { ll = record x { value = w } ∷ without k c.ll }))
        × IsValid (record c { ll = record x { value = w } ∷ without k c.ll })
  unfolding add add_at front set_value
  add_hit c k w x v h =
      let (p, q, r) = elem_addr c.fresh k c.ll x v.well_formed h in
      let there : load k c.index ≡ some x.addr = v.indexed k ∙ rw h refl in
      (
        ap (add_at c k w) there
            ∙ rw (v.live, move_to_front_lem c.fresh k c.ll x v.well_formed h) (ground arith),
        front-IsValid c k x (record x { value = w }) v h refl r,
      )
