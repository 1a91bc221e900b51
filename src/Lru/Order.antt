-- ===== src/Lru/Order.antt =====
-- The cache seen as its entries from the most to the least recently used, with the addresses and
-- the map gone.
use next_nps.Base.{
  if◌then◌else◌, Comparable, ◌==◌, ==_iff, Bool-cases, length, All, load, map_some, ℕ, ◌+◌, ◌≤◌,
  ◌<◌, ◌≡◌, refl, sym, ◌∙◌, subst, ◌≢◌, inl, inr, false, Option, none, some, List, [], ◌∷◌, arith,
  nat_eq, bytes_eq,
}
use next_nps.Lru.{Element, Cache, find_elem, remove_elem, to_front, move_to_front, back}

module _ {K V : Type 0} ⦃e : Comparable K⦄ where
  -- The element of a key.
  abbrev pub elem_of : K → List (Element K V) → Option (Element K V)
  elem_of k [] = none
  elem_of k (x ∷ xs) = if x.key == k then some x else elem_of k xs

  abbrev pub Absent : ℕ → List (Element K V) → Type 0
  Absent a = All (λ x. x.addr ≢ a)

  -- Addresses under `n`, and neither an address nor a key twice.
  abbrev pub IsWellFormed : ℕ → List (Element K V) → Type 0
  IsWellFormed n [] = Unit {0}
  IsWellFormed n (x ∷ xs) =
      (x.addr < n) × Absent x.addr xs × (elem_of x.key xs ≡ none) × IsWellFormed n xs

  abbrev pub addr_of : Option (Element K V) → Option ℕ
  addr_of = map_some (λ x. x.addr)

  pub record IsValid (c : Cache K V) : Type 0 where
    pub well_formed : IsWellFormed c.fresh c.ll
    pub indexed : (k : K) → load k c.index ≡ addr_of (elem_of k c.ll)
    pub live : c.cleared ≡ false

  -- The list without the entry of a key.
  abbrev pub without : K → List (Element K V) → List (Element K V)
  without k [] = []
  without k (x ∷ xs) = if x.key == k then xs else x ∷ without k xs

  find_elem-Absent : (a : ℕ) (xs : List (Element K V)) → Absent a xs → find_elem a xs ≡ none
  unfolding find_elem
  find_elem-Absent a [] h = refl
  find_elem-Absent a (x ∷ xs) h = ground (arith, find_elem-Absent a xs h.1)

  Absent-elem :
      (a : ℕ) (k : K) (xs : List (Element K V)) (x : Element K V)
      → Absent a xs
      → elem_of k xs ≡ some x
      → x.addr ≢ a
  Absent-elem a k [] x h l = absurd (ground arith)
  Absent-elem a k (y ∷ ys) x h l = ground (arith, Absent-elem a k ys x h.1)

  -- By its address an element is found as by its key.
  pub elem_addr :
      (n : ℕ) (k : K) (xs : List (Element K V)) (x : Element K V)
      → IsWellFormed n xs
      → elem_of k xs ≡ some x
      → (find_elem x.addr xs ≡ some x) × (remove_elem x.addr xs ≡ without k xs) × (x.key ≡ k)
  unfolding find_elem remove_elem
  elem_addr n k [] x w h = absurd (ground arith)
  elem_addr n k (y ∷ ys) x w h = elim (Bool-cases (y.key == k)) [
    | inl t ↦ let same : y ≡ x = ground arith in rw (← same) (ground (arith, ==_iff y.key k))
    | inr f ↦
        let l : elem_of k ys ≡ some x = ground arith in
        let (p, q, r) = elem_addr n k ys x w.3 l in
        ground (arith, Absent-elem y.addr k ys x w.1 l, p, q, r)
  ]

  -- The rest after a removal.
  Absent-without : (a : ℕ) (k : K) (xs : List (Element K V)) → Absent a xs → Absent a (without k xs)
  Absent-without a k [] h = tt
  Absent-without a k (y ∷ ys) h = elim (Bool-cases (y.key == k)) [
    | inl t ↦ rw t h.1
    | inr f ↦ rw f (h.0, Absent-without a k ys h.1)
  ]

  without-Absent :
      (n : ℕ) (k : K) (xs : List (Element K V)) (x : Element K V)
      → IsWellFormed n xs
      → elem_of k xs ≡ some x
      → Absent x.addr (without k xs)
  without-Absent n k [] x w h = tt
  without-Absent n k (y ∷ ys) x w h = elim (Bool-cases (y.key == k)) [
    | inl t ↦
        let same : y ≡ x = ground arith in
        rw t (subst (λ (z : Element K V). Absent z.addr ys) same w.1)
    | inr f ↦
        let l : elem_of k ys ≡ some x = ground arith in
        rw f ((λ q. Absent-elem y.addr k ys x w.1 l (sym q)), without-Absent n k ys x w.3 l)
  ]

  pub elem_of-without :
      (n : ℕ) (k j : K) (xs : List (Element K V))
      → IsWellFormed n xs
      → elem_of j (without k xs) ≡ (if k == j then none else elem_of j xs)
  elem_of-without n k j [] w = ground arith
  elem_of-without n k j (y ∷ ys) w =
      ground (arith, elem_of-without n k j ys w.3, ==_iff y.key k, ==_iff y.key j, ==_iff k j, w.2)

  pub IsWellFormed-without :
      (n : ℕ) (k : K) (xs : List (Element K V)) → IsWellFormed n xs → IsWellFormed n (without k xs)
  IsWellFormed-without n k [] w = tt
  IsWellFormed-without n k (y ∷ ys) w = elim (Bool-cases (y.key == k)) [
    | inl t ↦ rw t w.3
    | inr f ↦ rw f (
      w.0,
      Absent-without y.addr k ys w.1,
      ground (arith, elem_of-without n k y.key ys w.3, w.2),
      IsWellFormed-without n k ys w.3,
    )
  ]

  -- A hit: the element of the key, then the rest.
  pub move_to_front_lem :
      (n : ℕ) (k : K) (xs : List (Element K V)) (x : Element K V)
      → IsWellFormed n xs
      → elem_of k xs ≡ some x
      → move_to_front x.addr xs ≡ x ∷ without k xs
  unfolding move_to_front to_front
  move_to_front_lem n k xs x w h = let (p, q, r) = elem_addr n k xs x w h in rw (p, q) refl

  pub IsWellFormed-front :
      (n : ℕ) (k : K) (xs : List (Element K V)) (x x' : Element K V)
      → IsWellFormed n xs
      → elem_of k xs ≡ some x
      → x'.addr ≡ x.addr
      → x'.key ≡ k
      → x.addr < n
      → IsWellFormed n (x' ∷ without k xs)
  IsWellFormed-front n k xs x x' w h a b lt = (
    omega arith,
    rw a (without-Absent n k xs x w h),
    rw b (elem_of-without n k k xs w ∙ ground (arith, ==_iff k k)),
    IsWellFormed-without n k xs w,
  )

  pub elem_addr_lt :
      (n : ℕ) (k : K) (xs : List (Element K V)) (x : Element K V)
      → IsWellFormed n xs
      → elem_of k xs ≡ some x
      → x.addr < n
  elem_addr_lt n k [] x w h = absurd (ground arith)
  elem_addr_lt n k (y ∷ ys) x w h = ground (arith, elem_addr_lt n k ys x w.3)

  pub elem_of_mono :
      (n m : ℕ) (xs : List (Element K V)) → n ≤ m → IsWellFormed n xs → IsWellFormed m xs
  elem_of_mono n m [] h w = tt
  elem_of_mono n m (x ∷ xs) h w = (omega arith, w.1, w.2, elem_of_mono n m xs h w.3)

  pub fresh-Absent : (n : ℕ) (xs : List (Element K V)) → IsWellFormed n xs → Absent n xs
  fresh-Absent n [] w = tt
  fresh-Absent n (x ∷ xs) w = ((λ q. omega (arith, w.0, q)), fresh-Absent n xs w.3)

  pub elem_of-cons :
      (k : K) (x y : Element K V) (xs : List (Element K V))
      → elem_of x.key xs ≡ none
      → elem_of k xs ≡ some y
      → elem_of k (x ∷ xs) ≡ some y
  elem_of-cons k x y xs h l = ground (arith, ==_iff x.key k)

  pub back_elem :
      (n : ℕ) (x : Element K V) (xs : List (Element K V))
      → IsWellFormed n (x ∷ xs)
      → (y : Element K V) × (back (x ∷ xs) ≡ some y) × (elem_of y.key (x ∷ xs) ≡ some y)
  unfolding back
  back_elem n x [] w = (x, refl, ground (arith, ==_iff x.key x.key))
  back_elem n x (z ∷ zs) w =
      let (y, b, l) = back_elem n z zs w.3 in (y, b, elem_of-cons y.key x y (z ∷ zs) w.2 l)

  pub length-without :
      (k : K) (xs : List (Element K V)) (x : Element K V)
      → elem_of k xs ≡ some x
      → length (without k xs) + 1 ≡ length xs
  length-without k [] x h = absurd (ground arith)
  length-without k (y ∷ ys) x h = ground (arith, length-without k ys x)
