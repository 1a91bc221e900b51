-- ===== src/Db/Routing.antt =====
-- `GetInfoByHost` of lib/file/db.go: which host entry serves a request.
use mathlib.Core.List.{Mem, mem-cons_self, mem-cons_of_mem}
use next_nps.Base.{
  ltb, if◌then◌else◌, ◌==◌, Bool-cases, length, All, Bytes, codes, bytes_beq_iff, has_prefix,
  contains, split, first_piece, Store, load, filter_values, map_values, load-map_values,
  load-filter_values, ◌≤◌, ◌≡◌, refl, ◌∙◌, subst, ◌⊎◌, inl, inr, Bool, true, false, not, ◌&&◌, ◌||◌,
  Option, none, some, List, [], ◌∷◌, map, arith, nat_eq, bytes_eq,
}
use next_nps.Base.Int.{ℤ, ℤ_eq}
use next_nps.File.{Host}
use next_nps.Db.{Db, default_location}

-- What the code reads of an `http.Request`.
pub record Request : Type 0 where
  pub scheme : Bytes
  pub request_uri : Bytes

-- `common.GetIpByAddr`.
unfoldable pub get_ip_by_addr : Bytes → Bytes
get_ip_by_addr addr = first_piece (split b':' addr)

-- `strings.Replace(s, "*", "", -1)`.
unfoldable pub drop_stars : Bytes → Bytes
drop_stars [] = []
drop_stars (c ∷ s) = let rest = drop_stars s in if c == b'*' then rest else c ∷ rest

-- A name with a star matches where the rest of it occurs in the host; any other must be equal.
unfoldable pub name_matches : Bytes → Bytes → Bool
unfolding drop_stars
name_matches pat host =
    if contains pat (codes "*") then contains host (drop_stars pat) else pat == host

-- The callback of `Range`: open, of the scheme of the request, and of its name.
unfoldable pub is_candidate : Bytes → Request → Host → Bool
unfolding name_matches
is_candidate host r v =
    not v.is_close && (v.scheme == codes "all" || v.scheme == r.scheme) && name_matches v.host host

-- The location of the first is longer than that of the entry found so far.
abbrev is_better : Host → Option Host → Bool
is_better v none = true
is_better v (some h) = ltb (length h.location) (length v.location)

-- One round of the second loop.
pick_step : Bytes → Host → Option Host → Option Host
pick_step uri v h = if has_prefix v.location uri && is_better v h then some v else h

unfoldable pub pick_longest : Bytes → List Host → Option Host → Option Host
unfolding pick_step
pick_longest uri [] h = h
pick_longest uri (v ∷ vs) h = pick_longest uri vs (pick_step uri v h)

-- The first loop gives a candidate without a location the root, in the table too.
unfoldable pub get_info_by_host : Db → Bytes → Request → Db × Option Host
unfolding is_candidate pick_longest default_location
get_info_by_host s addr r =
    let host = get_ip_by_addr addr in
    let fix = λ (v : Host). if is_candidate host r v then default_location v else v in
    let hosts' = map_values fix s.hosts in
    (
      record s { hosts = hosts' },
      pick_longest r.request_uri (filter_values (is_candidate host r) hosts') none,
    )

-- What the search has found, against the entries that it has seen.
abbrev pub Longest : Bytes → List Host → Option Host → Type 0
Longest uri seen none = All (λ v. has_prefix v.location uri ≡ false) seen
Longest uri seen (some h) =
    (has_prefix h.location uri ≡ true)
    × All (λ v. (has_prefix v.location uri ≡ false) ⊎ (length v.location ≤ length h.location)) seen

-- The entries seen stay covered when the result grows.
widen :
    (uri : Bytes) (seen : List Host) (v : Host) (h : Host)
    → length h.location ≤ length v.location
    → All (λ w. (has_prefix w.location uri ≡ false) ⊎ (length w.location ≤ length h.location)) seen
    → All (λ w. (has_prefix w.location uri ≡ false) ⊎ (length w.location ≤ length v.location)) seen
widen uri [] v h e a = tt
widen uri (w ∷ ws) v h e a = (ground arith, widen uri ws v h e a.1)

start :
    (uri : Bytes) (seen : List Host) (v : Host)
    → All (λ w. has_prefix w.location uri ≡ false) seen
    → All (λ w. (has_prefix w.location uri ≡ false) ⊎ (length w.location ≤ length v.location)) seen
start uri [] v a = tt
start uri (w ∷ ws) v a = (inl a.0, start uri ws v a.1)

pick_step-Longest :
    (uri : Bytes) (seen : List Host) (v : Host) (h : Option Host)
    → Longest uri seen h
    → Longest uri (v ∷ seen) (pick_step uri v h)
unfolding pick_step
pick_step-Longest uri seen v none l = elim (Bool-cases (has_prefix v.location uri)) [
  | inl t ↦ rw t (t, (inr (omega arith), start uri seen v l))
  | inr f ↦ rw f (f, l)
]
pick_step-Longest uri seen v (some h) (p, l) = elim (Bool-cases (has_prefix v.location uri)) [
  | inl t ↦ elim (Bool-cases (ltb (length h.location) (length v.location))) [
    | inl b ↦ rw (t, b) (t, (inr (omega arith), widen uri seen v h (ground arith) l))
    | inr b ↦ rw (t, b) (p, (inr (ground arith), l))
  ]
  | inr f ↦ rw f (p, (inl f, l))
]

-- The entries in the reverse order of the search.
abbrev reverse_onto : List Host → List Host → List Host
reverse_onto [] seen = seen
reverse_onto (v ∷ vs) seen = reverse_onto vs (v ∷ seen)

pick_longest-Longest :
    (uri : Bytes) (vs seen : List Host) (h : Option Host)
    → Longest uri seen h
    → Longest uri (reverse_onto vs seen) (pick_longest uri vs h)
unfolding pick_longest
pick_longest-Longest uri [] seen h l = l
pick_longest-Longest uri (v ∷ vs) seen h l =
    pick_longest-Longest uri vs (v ∷ seen) (pick_step uri v h) (pick_step-Longest uri seen v h l)

All-reverse_onto :
    (P : Host → Type 0) (vs seen : List Host) → All P (reverse_onto vs seen) → All P vs × All P seen
All-reverse_onto P [] seen a = (tt, a)
All-reverse_onto P (v ∷ vs) seen a =
    let (b, c) = All-reverse_onto P vs (v ∷ seen) a in ((c.0, b), c.1)

-- The result is one of the entries.
abbrev OptionAll : (Host → Type 0) → Option Host → Type 0
OptionAll P none = Unit {0}
OptionAll P (some h) = P h

pick_step-OptionAll :
    (P : Host → Type 0) (uri : Bytes) (v : Host) (h : Option Host)
    → P v
    → OptionAll P h
    → OptionAll P (pick_step uri v h)
unfolding pick_step
pick_step-OptionAll P uri v h p q = elim (Bool-cases (has_prefix v.location uri && is_better v h)) [
  | inl t ↦ rw t p
  | inr f ↦ rw f q
]

pick_longest-OptionAll :
    (P : Host → Type 0) (uri : Bytes) (vs : List Host) (h : Option Host)
    → All P vs
    → OptionAll P h
    → OptionAll P (pick_longest uri vs h)
unfolding pick_longest
pick_longest-OptionAll P uri [] h a q = q
pick_longest-OptionAll P uri (v ∷ vs) h a q =
    pick_longest-OptionAll P uri vs _ a.1 (pick_step-OptionAll P uri v h a.0 q)

is_candidate-default_location :
    (host : Bytes) (r : Request) (v : Host)
    → is_candidate host r (default_location v) ≡ is_candidate host r v
unfolding is_candidate default_location
is_candidate-default_location host r v = elim (Bool-cases (v.location == [])) [
  | inl t ↦ rw t refl
  | inr f ↦ rw f refl
]

-- The table as the second loop sees it.
abbrev served : Db → Bytes → Request → Store ℤ Host
served s addr r =
    map_values
      (λ (v : Host). if is_candidate (get_ip_by_addr addr) r v then default_location v else v)
      s.hosts

served_entry :
    (s : Db) (addr : Bytes) (r : Request) (k : ℤ) (v : Host)
    → load k s.hosts ≡ some v
    → is_candidate (get_ip_by_addr addr) r v ≡ true
    → load k (served s addr r) ≡ some (default_location v)
served_entry s addr r k v l t = load-map_values _ k s.hosts ∙ rw (l, t) refl

-- Whatever entry could serve the request, the one returned has a location at least as long.
abbrev Covers : Bytes → Host → Option Host → Type 0
Covers uri v none = has_prefix v.location uri ≡ false
Covers uri v (some h) =
    (has_prefix v.location uri ≡ false) ⊎ (length v.location ≤ length h.location)

Longest-Covers :
    (uri : Bytes) (vs : List Host) (h : Option Host)
    → Longest uri (reverse_onto vs []) h
    → All (λ v. Covers uri v h) vs
Longest-Covers uri vs none l = (All-reverse_onto _ vs [] l).0
Longest-Covers uri vs (some h) l = (All-reverse_onto _ vs [] l.1).0

-- An open entry whose scheme and name fit the request and whose location, "/" where none is set, is
-- a prefix of the URI: the search does not fail, and what it returns has a location at least as
-- long.
pub get_info_by_host_covers :
    (s : Db) (addr : Bytes) (r : Request) (k : ℤ) (v : Host)
    → load k s.hosts ≡ some v
    → is_candidate (get_ip_by_addr addr) r v ≡ true
    → has_prefix (default_location v).location r.request_uri ≡ true
    → (h : Host) × ((get_info_by_host s addr r).1 ≡ some h)
      × (length (default_location v).location ≤ length h.location)
unfolding get_info_by_host
get_info_by_host_covers s addr r k v l t p = found (get_info_by_host s addr r).1 refl (
    load-filter_values (λ w. Covers r.request_uri w (get_info_by_host s addr r).1)
      (is_candidate (get_ip_by_addr addr) r) k (served s addr r) (default_location v)
      (Longest-Covers r.request_uri candidates _
        (pick_longest-Longest r.request_uri candidates [] none tt))
      (served_entry s addr r k v l t) (is_candidate-default_location (get_ip_by_addr addr) r v ∙ t))
  where
    candidates : List Host
    candidates = filter_values (is_candidate (get_ip_by_addr addr) r) (served s addr r)

    found :
        (o : Option Host)
        → (get_info_by_host s addr r).1 ≡ o
        → Covers r.request_uri (default_location v) (get_info_by_host s addr r).1
        → (h : Host) × ((get_info_by_host s addr r).1 ≡ some h)
          × (length (default_location v).location ≤ length h.location)
    found none e c = absurd (ground arith)
    found (some h) e c = (h, e, ground arith)

-- What an entry must be to serve a request for the host: open, of the scheme, and of the name, or of
-- a name with a star whose rest occurs in the host.
abbrev Fits : Bytes → Request → Host → Type 0
Fits host r v =
    (v.is_close ≡ false)
    × ((v.scheme ≡ codes "all") ⊎ (v.scheme ≡ r.scheme))
    × ((v.host ≡ host)
        ⊎ (contains v.host (codes "*") ≡ true) × (contains host (drop_stars v.host) ≡ true))

is_candidate-Fits :
    (host : Bytes) (r : Request) (v : Host) → is_candidate host r v ≡ true → Fits host r v
unfolding is_candidate name_matches
is_candidate-Fits host r v h = ground (
  arith,
  h,
  bytes_beq_iff v.scheme (codes "all"),
  bytes_beq_iff v.scheme r.scheme,
  bytes_beq_iff v.host host,
)

-- An entry of the table that fits, with the root for a location where it has none.
abbrev pub FoundIn : Store ℤ Host → Bytes → Request → Host → Type 0
FoundIn m host r h =
    (v : Host) × Mem v (map (λ (e : ℤ × Host). e.1) m)
    × (h ≡ (if v.location == [] then record v { location = codes "/" } else v))
    × Fits host r v

FoundIn-cons :
    (m : Store ℤ Host) (e : ℤ × Host) (host : Bytes) (r : Request) (vs : List Host)
    → All (FoundIn m host r) vs
    → All (FoundIn (e ∷ m) host r) vs
FoundIn-cons m e host r [] a = tt
FoundIn-cons m e host r (h ∷ vs) ((v, i, d, f), a) =
    ((v, mem-cons_of_mem e.1 i, d, f), FoundIn-cons m e host r vs a)

candidates-FoundIn :
    (host : Bytes) (r : Request) (m : Store ℤ Host)
    → All (FoundIn m host r) (
        filter_values
          (is_candidate host r)
          (map_values (λ (v : Host). if is_candidate host r v then default_location v else v) m))
unfolding filter_values map_values default_location
candidates-FoundIn host r [] = tt
candidates-FoundIn host r ((k, v) ∷ m) =
    let rest = FoundIn-cons m (k, v) host r _ (candidates-FoundIn host r m) in
    elim (Bool-cases (is_candidate host r v)) [
      | inl t ↦
          let t' : is_candidate host r (default_location v) ≡ true =
            is_candidate-default_location host r v ∙ t in
          rw (t, t') ((v, mem-cons_self, refl, is_candidate-Fits host r v t), rest)
      | inr f ↦ rw (f, f) rest
    ]

-- What the search returns is an entry of the table, with the root for a location where it has none:
-- it is open, its scheme is that of the request or `all`, its name is the host that is asked for, or
-- has a star and its rest occurs in that host, and its location is a prefix of the URI.
pub get_info_by_host_sound :
    (s : Db) (addr : Bytes) (r : Request) (h : Host)
    → (get_info_by_host s addr r).1 ≡ some h
    → FoundIn s.hosts (get_ip_by_addr addr) r h × (has_prefix h.location r.request_uri ≡ true)
unfolding get_info_by_host
get_info_by_host_sound s addr r h e =
    let host = get_ip_by_addr addr in
    let vs = filter_values (is_candidate host r) (served s addr r) in
    (
      subst (OptionAll (FoundIn s.hosts host r)) e
          (pick_longest-OptionAll _ r.request_uri vs none (candidates-FoundIn host r s.hosts) tt),
      (subst (Longest r.request_uri (reverse_onto vs [])) e
          (pick_longest-Longest r.request_uri vs [] none tt)).0,
    )
