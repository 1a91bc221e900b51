-- ===== src/Pairing/Objects.antt =====
-- server/proxy/p2p.go: what the `p2p` of a key holds, and who waits.
use next_nps.Wire.{seq}
use next_nps.Pairing.{
  Addresses, Visit, P2pServer, Event, datagram, look, write_object, entry_of, enter, on_pieces,
  put_visit, visit_at,
}
use next_nps.Base.{
  nat_beq, if◌then◌else◌, ◌==◌, if_split, is_some, All, Bytes, codes, bytes_beq_iff, split_seq,
  load, ℕ, zero, suc, ◌≡◌, refl, sym, ap, ◌∙◌, subst, Bool, true, false, not, ◌&&◌, ◌||◌, Option,
  none, some, List, [], ◌∷◌, ◌++◌, arith, nat_eq, bytes_eq,
}

pieces_are : Bytes → Bool → List Bytes → Bool
pieces_are key visitor (k ∷ r ∷ rest) =
    k == key && (if visitor then r == codes "p2pv" else not (r == codes "p2pv"))
pieces_are key visitor _ = false

announces : Bytes → Bool → Bytes → Event → Bool
announces key visitor a (look i) = false
announces key visitor a (datagram addr str) =
    addr == a && pieces_are key visitor (split_seq 0 seq str)

-- Whether a visitor, or else a provider, with the key sent a datagram from the address.
pub heard : Bytes → Bool → Bytes → List Event → Bool
heard key visitor a [] = false
heard key visitor a (e ∷ es) = announces key visitor a e || heard key visitor a es

-- What a `p2p` of the key may hold.
abbrev pub Own : List Event → Bytes → Addresses → Type 0
Own es key o =
    ((a : Bytes) → o.visitor_addr ≡ some a → heard key true a es ≡ true)
    × ((a : Bytes) → o.provider_addr ≡ some a → heard key false a es ≡ true)

abbrev pub Known : List Event → (Bytes → ℕ → Addresses) → Type 0
Known es f = (key : Bytes) (n : ℕ) → Own es key (f key n)

-- The `p2p` of every visitor who waits has that visitor's address.
abbrev pub Waiting : (Bytes → ℕ → Addresses) → List Visit → Type 0
Waiting f = All (λ v. is_some (f v.key v.entry).visitor_addr ≡ true)

Own-later :
    (e : Event) (es : List Event) (key : Bytes) (o : Addresses) → Own es key o → Own (e ∷ es) key o
unfolding heard
Own-later e es key o (h, g) =
    (λ a p. let q = h a p in ground arith, λ a p. let q = g a p in ground arith)

Waiting-mono :
    (f g : Bytes → ℕ → Addresses) (vs : List Visit)
    → ((k : Bytes) (m : ℕ)
        → is_some (f k m).visitor_addr ≡ true
        → is_some (g k m).visitor_addr ≡ true)
    → Waiting f vs
    → Waiting g vs
Waiting-mono f g [] h w = w
Waiting-mono f g (v ∷ vs) h (p, w) = (h v.key v.entry p, Waiting-mono f g vs h w)

Waiting-append :
    (f : Bytes → ℕ → Addresses) (new vs : List Visit)
    → Waiting f new
    → Waiting f vs
    → Waiting f (new ++ vs)
Waiting-append f [] vs n w = w
Waiting-append f (v ∷ new) vs (p, n) w = (p, Waiting-append f new vs n w)

pub Waiting-put :
    (f : Bytes → ℕ → Addresses) (i : ℕ) (new vs : List Visit)
    → Waiting f new
    → Waiting f vs
    → Waiting f (put_visit i new vs)
unfolding put_visit
Waiting-put f i new [] n w = w
Waiting-put f zero new (v ∷ vs) n (p, w) = Waiting-append f new vs n w
Waiting-put f (suc i) new (v ∷ vs) n (p, w) = (p, Waiting-put f i new vs n w)

pub Waiting-at :
    (f : Bytes → ℕ → Addresses) (i : ℕ) (vs : List Visit) (v : Visit)
    → Waiting f vs
    → visit_at i vs ≡ some v
    → is_some (f v.key v.entry).visitor_addr ≡ true
unfolding visit_at
Waiting-at f i [] v w e = absurd (ground arith)
Waiting-at f zero (u ∷ vs) v (p, w) e =
    let q : u ≡ v = cc in subst (λ (x : Visit). is_some (f x.key x.entry).visitor_addr ≡ true) q p
Waiting-at f (suc i) (u ∷ vs) v (p, w) e = Waiting-at f i vs v w e

module _ (key : Bytes) (n : ℕ) (v : Addresses) (f : Bytes → ℕ → Addresses) where
  written_all :
      (P : Bytes → ℕ → Addresses → Type 0)
      → ((k : Bytes) (m : ℕ) → P k m (f k m))
      → P key n v
      → (k : Bytes) (m : ℕ) → P k m (write_object key n v f k m)
  unfolding write_object
  written_all P h p k m =
      if_split (P k m) (k == key && nat_beq m n) v (f k m)
        (λ e.
          let a : k ≡ key = ground (arith, bytes_beq_iff k key, e) in
          let b : m ≡ n = ground (arith, e) in
          subst (λ x. P x m v) (sym a) (subst (λ y. P key y v) (sym b) p))
        (λ e. h k m)

  pub written_self : write_object key n v f key n ≡ v
  unfolding write_object
  written_self = ground (arith, bytes_beq_iff key key)

  Waiting-write :
      (vs : List Visit)
      → (is_some (f key n).visitor_addr ≡ true → is_some v.visitor_addr ≡ true)
      → Waiting f vs
      → Waiting (write_object key n v f) vs
  Waiting-write vs h w =
      let P : Bytes → ℕ → Addresses → Type 0 =
        λ k m o. is_some (f k m).visitor_addr ≡ true → is_some o.visitor_addr ≡ true in
      Waiting-mono f (write_object key n v f) vs (λ k m. written_all P (λ k' m' q. q) h k m) w

abbrev pub Inv : List Event → P2pServer → Type 0
Inv es s = Known es s.objects × Waiting s.objects s.visits

module _ (es : List Event) (key role addr : Bytes) (s : P2pServer) (n : ℕ) where
  enter-Inv :
      heard key (role == codes "p2pv") addr es ≡ true
      → Inv es s
      → Inv es (enter key role addr (n, s))
  unfolding enter
  enter-Inv h (k, w) =
      if_split (Inv es) (role == codes "p2pv") _ _
        (λ e.
          let h' : heard key true addr es ≡ true = sym (ap (λ b. heard key b addr es) e) ∙ h in
          let o : Addresses = record (s.objects key n) { visitor_addr = some addr } in
          let here : is_some (write_object key n o s.objects key n).visitor_addr ≡ true =
            ap (λ x. is_some x.visitor_addr) (written_self key n o s.objects) in
          (
            written_all key n o s.objects (λ x m o. Own es x o) k
                (
                  λ a p. let q : addr ≡ a = cc in subst (λ x. heard key true x es ≡ true) q h',
                  (k key n).1,
                ),
            (here, Waiting-write key n o s.objects s.visits (λ q. refl) w),
          ))
        (λ e.
          let h' : heard key false addr es ≡ true = sym (ap (λ b. heard key b addr es) e) ∙ h in
          let o : Addresses = record (s.objects key n) { provider_addr = some addr } in
          (
            written_all key n o s.objects (λ x m o. Own es x o) k
                (
                  (k key n).0,
                  λ a p. let q : addr ≡ a = cc in subst (λ x. heard key false x es ≡ true) q h',
                ),
            Waiting-write key n o s.objects s.visits (λ q. q) w,
          ))

entry_of-Inv :
    (es : List Event) (key : Bytes) (o : Option ℕ) (s : P2pServer)
    → Inv es s
    → Inv es (entry_of key o s).1
unfolding entry_of
entry_of-Inv es key none s h = h
entry_of-Inv es key (some n) s h = h

pub Inv-later : (e : Event) (es : List Event) (s : P2pServer) → Inv es s → Inv (e ∷ es) s
Inv-later e es s (k, w) = (λ key n. Own-later e es key (s.objects key n) (k key n), w)

-- The role that a datagram gives is heard.
heard_now :
    (addr str key role : Bytes) (rest : List Bytes) (es : List Event)
    → split_seq 0 seq str ≡ key ∷ role ∷ rest
    → heard key (role == codes "p2pv") addr (datagram addr str ∷ es) ≡ true
unfolding heard announces pieces_are
heard_now addr str key role rest es e =
    rw e (ground (arith, bytes_beq_iff addr addr, bytes_beq_iff key key))

pub pieces-Inv :
    (es : List Event) (addr str : Bytes) (ps : List Bytes) (s : P2pServer)
    → split_seq 0 seq str ≡ ps
    → Inv es s
    → Inv (datagram addr str ∷ es) (on_pieces addr ps s)
unfolding on_pieces
pieces-Inv es addr str [] s e h = Inv-later (datagram addr str) es s h
pieces-Inv es addr str (x ∷ []) s e h = Inv-later (datagram addr str) es s h
pieces-Inv es addr str (key ∷ role ∷ rest) s e h =
    let es' = datagram addr str ∷ es in
    let (n, s') = entry_of key (load key s.p2p) s in
    enter-Inv es' key role addr s' n (heard_now addr str key role rest es e)
      (Inv-later (datagram addr str) es s' (entry_of-Inv es key (load key s.p2p) s h))
