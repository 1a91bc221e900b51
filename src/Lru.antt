-- ===== src/Lru.antt =====
-- lib/cache/lru.go. `container/list` is a list of elements, each with its address; the map takes a
-- key to the address of its element. After `Clear` the list pointer is nil, which `cleared` tells;
-- `ll` then still holds the elements that the map leads to.
mod Order
mod Tests
mod Hits
mod Evictions
use next_nps.Base.{
  ltb, nat_beq, if◌then◌else◌, Comparable, length, Store, load, store, delete, map_some, ℕ, ◌+◌,
  Bool, true, false, not, ◌&&◌, Option, none, some, List, [], ◌∷◌, ◌++◌, map, nat_eq, bytes_eq,
}

pub record Element (K V : Type 0) : Type 0 where
  pub addr : ℕ
  pub key : K
  pub value : V

-- `evicted` lists the calls of `OnEvicted`, which is set or not; `fresh` is the next address.
pub record Cache (K V : Type 0) : Type 0 where
  pub max_entries : ℕ
  pub ll : List (Element K V)
  pub cleared : Bool
  pub index : Store K ℕ
  pub on_evicted : Bool
  pub evicted : List (K × V)
  pub fresh : ℕ

module _ {K V : Type 0} ⦃e : Comparable K⦄ where
  pub new_cache : ℕ → Bool → Cache K V
  new_cache max_entries on_evicted = record {
    max_entries = max_entries;
    ll = [];
    cleared = false;
    index = [];
    on_evicted = on_evicted;
    evicted = [];
    fresh = 0;
  }

  -- The element at an address, and the list without it.
  pub find_elem : ℕ → List (Element K V) → Option (Element K V)
  find_elem a [] = none
  find_elem a (x ∷ xs) = if nat_beq x.addr a then some x else find_elem a xs

  pub remove_elem : ℕ → List (Element K V) → List (Element K V)
  remove_elem a [] = []
  remove_elem a (x ∷ xs) = if nat_beq x.addr a then xs else x ∷ remove_elem a xs

  pub to_front : ℕ → List (Element K V) → Option (Element K V) → List (Element K V)
  to_front a xs none = xs
  to_front a xs (some x) = x ∷ remove_elem a xs

  -- `MoveToFront`, which does nothing with an element of another list.
  pub move_to_front : ℕ → List (Element K V) → List (Element K V)
  unfolding to_front
  move_to_front a xs = to_front a xs (find_elem a xs)

  pub set_value : ℕ → V → List (Element K V) → List (Element K V)
  set_value a v [] = []
  set_value a v (x ∷ xs) =
      if nat_beq x.addr a then record x { value = v } ∷ xs else x ∷ set_value a v xs

  -- `Back`.
  pub back : List (Element K V) → Option (Element K V)
  back [] = none
  back (x ∷ []) = some x
  back (x ∷ y ∷ xs) = back (y ∷ xs)

  -- On a nil list, `Remove` leaves the element alone.
  pub remove_element : Cache K V → Element K V → Cache K V
  remove_element c x = record c {
    ll = remove_elem x.addr c.ll;
    index = delete x.key c.index;
    evicted = if c.on_evicted then c.evicted ++ (x.key, x.value) ∷ [] else c.evicted;
  }

  pub remove_back : Cache K V → Option (Element K V) → Cache K V
  remove_back c none = c
  remove_back c (some x) = remove_element c x

  -- `none` is a nil dereference, of a list pointer that is nil.
  pub remove_oldest : Cache K V → Option (Cache K V)
  remove_oldest c = if c.cleared then none else some (remove_back c (back c.ll))

  pub trim : Cache K V → Cache K V
  trim c =
      if not (nat_beq c.max_entries 0) && ltb c.max_entries (length c.ll)
      then remove_back c (back c.ll)
      else c

  pub add_new : Cache K V → K → V → Cache K V
  add_new c k v = trim (record c {
    ll = record { addr = c.fresh; key = k; value = v } ∷ c.ll;
    index = store k c.fresh c.index;
    fresh = c.fresh + 1;
  })

  -- `MoveToFront` of the cache's list: on a nil list it does nothing.
  front : Cache K V → ℕ → List (Element K V)
  front c a = if c.cleared then c.ll else move_to_front a c.ll

  add_at : Cache K V → K → V → Option ℕ → Option (Cache K V)
  add_at c k v (some a) = some (record c { ll = set_value a v (front c a) })
  add_at c k v none = if c.cleared then none else some (add_new c k v)

  pub add : Cache K V → K → V → Option (Cache K V)
  add c k v = add_at c k v (load k c.index)

  get_at : Cache K V → Option ℕ → Cache K V × Option V
  get_at c none = (c, none)
  get_at c (some a) =
      (record c { ll = front c a }, map_some (λ (x : Element K V). x.value) (find_elem a c.ll))

  pub get : Cache K V → K → Cache K V × Option V
  get c k = get_at c (load k c.index)

  remove_at : Cache K V → Option ℕ → Cache K V
  remove_at c none = c
  remove_at c (some a) = remove_back c (find_elem a c.ll)

  pub remove : Cache K V → K → Cache K V
  remove c k = remove_at c (load k c.index)

  pub len : Cache K V → Option ℕ
  len c = if c.cleared then none else some (length c.ll)

  -- `Clear` hands every entry to the callback and drops the list; the map keeps its entries. The
  -- callback runs in the order of the list here, that of the map in the source.
  pub clear : Cache K V → Cache K V
  clear c = record c {
    cleared = true;
    evicted = if c.on_evicted then c.evicted ++ map (λ x. (x.key, x.value)) c.ll else c.evicted;
  }
