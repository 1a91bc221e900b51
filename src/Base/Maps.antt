-- ===== src/Base/Maps.antt =====
-- A Go map or `sync.Map` as an association list. `Range` visits the entries in list order; Go
-- promises no order, and the theorems hold for every list. A new key goes to the end.
use mathlib.Core.Path.{◌≡◌, refl, subst}
use mathlib.Core.Bool.{Bool, true, false, ◌||◌}
use mathlib.Core.List.{List, [], ◌∷◌}
use mathlib.Core.Option.{Option, none, some}
use mathlib.Core.Logic.{◌⊎◌, ◌≢◌, inl, inr}
use native.Mathlib.Omega.{arith}
use next_nps.Base.Bools.{Comparable, ◌==◌, if◌then◌else◌, ==_iff, Bool-cases}
use next_nps.Base.Lists.{All}

abbrev pub Store {ℓ κ} : Type ℓ → Type κ → Type (ℓ ⊔ κ)
Store K V = List (K × V)

abbrev pub map_some {ℓ κ} : {A : Type ℓ} {B : Type κ} → (A → B) → Option A → Option B
map_some f none = none
map_some f (some a) = some (f a)

module _ {ℓ κ} {K : Type ℓ} {V : Type κ} ⦃e : Comparable K⦄ where
  unfoldable pub load : K → Store K V → Option V
  load k [] = none
  load k ((j, v) ∷ m) = if j == k then some v else load k m

  unfoldable pub store : K → V → Store K V → Store K V
  store k v [] = (k, v) ∷ []
  store k v ((j, w) ∷ m) = if j == k then (j, v) ∷ m else (j, w) ∷ store k v m

  unfoldable pub delete : K → Store K V → Store K V
  delete k [] = []
  delete k ((j, w) ∷ m) = if j == k then delete k m else (j, w) ∷ delete k m

  pub load-store :
      (k j : K) (v : V) (m : Store K V)
      → load j (store k v m) ≡ (if k == j then some v else load j m)
  unfolding load store
  load-store k j v [] = refl
  load-store k j v ((i, w) ∷ m) =
      ground (arith, ==_iff k j, ==_iff i k, ==_iff i j, load-store k j v m)

  pub load-delete :
      (k j : K) (m : Store K V) → load j (delete k m) ≡ (if k == j then none else load j m)
  unfolding load delete
  load-delete k j [] = ground arith
  load-delete k j ((i, w) ∷ m) =
      ground (arith, ==_iff k j, ==_iff i k, ==_iff i j, load-delete k j m)

  -- `Range` with a callback that stops at the first value that passes.
  unfoldable pub any_value : (V → Bool) → Store K V → Bool
  any_value p [] = false
  any_value p ((j, w) ∷ m) = p w || any_value p m

  unfoldable pub find_value : (V → Bool) → Store K V → Option V
  find_value p [] = none
  find_value p ((j, w) ∷ m) = if p w then some w else find_value p m

  -- The values that pass, in the order of `Range`.
  unfoldable pub filter_values : (V → Bool) → Store K V → List V
  filter_values p [] = []
  filter_values p ((j, w) ∷ m) = let rest = filter_values p m in if p w then w ∷ rest else rest

  unfoldable pub map_values : (V → V) → Store K V → Store K V
  map_values f [] = []
  map_values f ((j, w) ∷ m) = (j, f w) ∷ map_values f m

  pub any_value-false :
      (p : V → Bool) (k : K) (m : Store K V) (v : V)
      → any_value p m ≡ false
      → load k m ≡ some v
      → p v ≡ false
  unfolding any_value load
  any_value-false p k [] v h l = cc
  any_value-false p k ((j, w) ∷ m) v h l = ground (arith, any_value-false p k m v)

  pub any_value-true :
      (p : V → Bool) (k : K) (m : Store K V) (v : V)
      → load k m ≡ some v
      → p v ≡ true
      → any_value p m ≡ true
  unfolding any_value load
  any_value-true p k [] v l h = cc
  any_value-true p k ((j, w) ∷ m) v l h = ground (arith, any_value-true p k m v)

  pub find_value-some :
      (p : V → Bool) (m : Store K V) (v : V) → find_value p m ≡ some v → p v ≡ true
  unfolding find_value
  find_value-some p [] v h = cc
  find_value-some p ((j, w) ∷ m) v h = ground (arith, find_value-some p m v)

  pub find_value-none :
      (p : V → Bool) (k : K) (m : Store K V) (v : V)
      → find_value p m ≡ none
      → load k m ≡ some v
      → p v ≡ false
  unfolding find_value load
  find_value-none p k [] v h l = cc
  find_value-none p k ((j, w) ∷ m) v h l = ground (arith, find_value-none p k m v)

  pub load-map_values :
      (f : V → V) (k : K) (m : Store K V) → load k (map_values f m) ≡ map_some f (load k m)
  unfolding map_values load
  load-map_values f k [] = refl
  load-map_values f k ((j, w) ∷ m) = ground (arith, load-map_values f k m)

  -- What a write leaves behind: the new entry, or an old one under another key.
  pub load-store_cases :
      (k j : K) (v w : V) (m : Store K V)
      → load j (store k v m) ≡ some w
      → ((k ≡ j) × (v ≡ w)) ⊎ ((k ≢ j) × (load j m ≡ some w))
  load-store_cases k j v w m h = ground (arith, load-store k j v m, ==_iff k j)

  pub load-delete_cases :
      (k j : K) (w : V) (m : Store K V)
      → load j (delete k m) ≡ some w
      → (k ≢ j) × (load j m ≡ some w)
  load-delete_cases k j w m h = ground (arith, load-delete k j m, ==_iff k j)

  pub filter_values-All : (p : V → Bool) (m : Store K V) → All (λ v. p v ≡ true) (filter_values p m)
  unfolding filter_values
  filter_values-All p [] = tt
  filter_values-All p ((j, w) ∷ m) = elim (Bool-cases (p w)) [
    | inl t ↦ rw t (t, filter_values-All p m)
    | inr f ↦ rw f (filter_values-All p m)
  ]

  pub load-filter_values {μ} :
      (P : V → Type μ) (p : V → Bool) (k : K) (m : Store K V) (v : V)
      → All P (filter_values p m)
      → load k m ≡ some v
      → p v ≡ true
      → P v
  unfolding filter_values load
  load-filter_values P p k [] v a l t = absurd (ground arith)
  load-filter_values P p k ((j, w) ∷ m) v a l t = elim (Bool-cases (p w)) [
    | inl y ↦
        let a' : All P (w ∷ filter_values p m) = rw y at a in
        elim (Bool-cases (j == k)) [
          | inl e ↦ let same : w ≡ v = ground arith in subst P same a'.0
          | inr n ↦ load-filter_values P p k m v a'.1 (rw n at l) t
        ]
    | inr y ↦ elim (Bool-cases (j == k)) [
      | inl e ↦ absurd (ground arith)
      | inr n ↦ load-filter_values P p k m v (rw y at a) (rw n at l) t
    ]
  ]

  -- No key stands twice, as in a Go map.
  abbrev pub IsMap : Store K V → Type κ
  IsMap [] = Unit
  IsMap ((j, w) ∷ m) = (load j m ≡ none) × IsMap m

  pub delete-IsMap : (k : K) (m : Store K V) → IsMap m → IsMap (delete k m)
  unfolding delete
  delete-IsMap k [] h = tt
  delete-IsMap k ((j, w) ∷ m) h = elim (Bool-cases (j == k)) [
    | inl e ↦ rw e (delete-IsMap k m h.1)
    | inr n ↦ rw n (ground (arith, load-delete k j m), delete-IsMap k m h.1)
  ]

  pub map_values-IsMap : (f : V → V) (m : Store K V) → IsMap m → IsMap (map_values f m)
  unfolding map_values
  map_values-IsMap f [] h = tt
  map_values-IsMap f ((j, w) ∷ m) h =
      (ground (arith, load-map_values f j m), map_values-IsMap f m h.1)

  pub store-IsMap : (k : K) (v : V) (m : Store K V) → IsMap m → IsMap (store k v m)
  unfolding store load
  store-IsMap k v [] h = (refl, tt)
  store-IsMap k v ((j, w) ∷ m) h = elim (Bool-cases (j == k)) [
    | inl e ↦ rw e h
    | inr n ↦
        rw n (ground (arith, load-store k j v m, ==_iff j k, ==_iff k j), store-IsMap k v m h.1)
  ]
