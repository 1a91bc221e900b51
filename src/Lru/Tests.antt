-- ===== src/Lru/Tests.antt =====
-- A cache of two entries.
use next_nps.Base.Int.{ℤ_eq}
use next_nps.Base.{
  Bytes, codes, bytes_beq, load, map_some, ℕ, ◌≡◌, refl, inr, true, false, none, some, [], ◌∷◌,
  arith, nat_eq, bytes_eq,
}
use next_nps.Lru.{Element, Cache, add, get}
use next_nps.Lru.Order.{elem_of, IsValid, without}
use next_nps.Lru.Hits.{get_lem}
use next_nps.Lru.Evictions.{Fits, add_miss}

abbrev old : Element Bytes ℕ
old = record { addr = 0; key = codes "a"; value = 1 }

abbrev young : Element Bytes ℕ
young = record { addr = 1; key = codes "b"; value = 2 }

abbrev two : Cache Bytes ℕ
two = record {
  max_entries = 2;
  ll = young ∷ old ∷ [];
  cleared = false;
  index = (codes "b", 1) ∷ (codes "a", 0) ∷ [];
  on_evicted = true;
  evicted = [];
  fresh = 2;
}

two-IsValid : IsValid two
unfolding load bytes_beq
two-IsValid = record {
  well_formed = (omega arith, ((λ e. omega (arith, e)), tt), refl, (omega arith, tt, refl, tt));
  indexed = λ k. ground arith;
  live = refl;
}

get_lem_example :
    IsValid (get two (codes "a")).0
    × ((get two (codes "a")).1
        ≡ map_some (λ (x : Element Bytes ℕ). x.value) (elem_of (codes "a") two.ll))
    × ((x : Element Bytes ℕ)
        → elem_of (codes "a") two.ll ≡ some x
        → (get two (codes "a")).0.ll ≡ x ∷ without (codes "a") two.ll)
    × (elem_of (codes "a") two.ll ≡ none → (get two (codes "a")).0 ≡ two)
get_lem_example = get_lem two (codes "a") two-IsValid

add_miss_example :
    (c' : Cache Bytes ℕ) × (add two (codes "c") 3 ≡ some c')
    × IsValid c'
    × Fits 2 c'.ll
    × (map_some (λ (x : Element Bytes ℕ). x.value) (elem_of (codes "c") c'.ll) ≡ some 3)
unfolding bytes_beq
add_miss_example = add_miss two (codes "c") 3 two-IsValid refl (inr (omega arith))
