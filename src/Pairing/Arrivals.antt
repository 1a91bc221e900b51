-- ===== src/Pairing/Arrivals.antt =====
-- server/proxy/p2p.go: a visitor and a provider with the same key, in either order.
use next_nps.Wire.{get_write_str}
use next_nps.Wire.RoundTrip.{get_write_str_pieces}
use next_nps.Pairing.{
  Addresses, Visit, P2pServer, Packet, Event, datagram, look, write_object, entry_of, enter,
  on_pieces, put_visit, visit_at, leave, introduce, look_for, on_round, on_look, handle_p2p,
}
use next_nps.Pairing.Objects.{written_self}
use next_nps.Base.{
  ◌==◌, if_both, Bytes, codes, bytes_beq, bytes_beq_iff, load, delete, load-store, load-delete,
  Lacks, ℕ, ◌≡◌, refl, sym, ap, ◌∙◌, subst, Option, none, some, List, [], ◌∷◌, arith, nat_eq,
  bytes_eq,
}

-- What the two ends send, by `GetWriteStr`.
abbrev pub visitor_from : Bytes → Bytes → Event
visitor_from addr key = datagram addr (get_write_str (key ∷ codes "p2pv" ∷ []))

abbrev pub provider_from : Bytes → Bytes → Event
provider_from addr key = datagram addr (get_write_str (key ∷ codes "p2pp" ∷ []))

-- Both are told, the key is free again, and no goroutine is left of the two.
pub HasMet : Bytes → Bytes → Bytes → List Visit → P2pServer × List Packet → Type 0
HasMet key a b vs (s, ps) =
    (ps ≡ record { text = b; to = some a } ∷ record { text = a; to = some b } ∷ [])
    × (load key s.p2p ≡ none)
    × (s.visits ≡ vs)

-- The entry that a datagram of the key finds or makes is the one that the next finds.
module _ (key : Bytes) (s : P2pServer) where
  found_again :
      (o : Option ℕ)
      → load key s.p2p ≡ o
      → load key (entry_of key o s).1.p2p ≡ some (entry_of key o s).0
  unfolding entry_of
  found_again (some n) e = e
  found_again none e = load-store key key s.made s.p2p ∙ ground (arith, bytes_beq_iff key key)

  kept_visits : (o : Option ℕ) → (entry_of key o s).1.visits ≡ s.visits
  unfolding entry_of
  kept_visits (some n) = refl
  kept_visits none = refl

-- Two datagrams on one entry.
abbrev entered : Bytes → ℕ → P2pServer → Bytes → Bytes → Bytes → Bytes → P2pServer
entered key n s role x role' y = enter key role' y (n, enter key role x (n, s))

module _ (key a b : Bytes) (n : ℕ) (vs : List Visit) where
  look_met :
      (s : P2pServer)
      → s.visits ≡ record { key = key; entry = n; looks = 20 } ∷ vs
      → s.objects key n ≡ record { visitor_addr = some a; provider_addr = some b }
      → HasMet key a b vs (handle_p2p (look 0) s)
  unfolding handle_p2p visit_at on_look on_round look_for leave put_visit introduce HasMet
  look_met s v e =
      let w : Visit = record { key = key; entry = n; looks = 20 } in
      let told : handle_p2p (look 0) s ≡ (leave 0 w s, introduce (some a) b) =
        ap (λ us. on_look 0 (visit_at 0 us) s) v
        ∙ ap (λ o. look_for 0 w 19 o.provider_addr s) e
        ∙ ap (λ o. (leave 0 w s, introduce o.visitor_addr b)) e in
      let gone : load key (delete key s.p2p) ≡ none =
        load-delete key key s.p2p ∙ ground (arith, bytes_beq_iff key key) in
      subst (HasMet key a b vs) (sym told) (refl, gone, ap (put_visit 0 []) v)

  enter_met :
      (s : P2pServer)
      → s.visits ≡ vs
      → HasMet key a b vs (handle_p2p (look 0) (entered key n s (codes "p2pv") a (codes "p2pp") b))
        × HasMet key a b vs
            (handle_p2p (look 0) (entered key n s (codes "p2pp") b (codes "p2pv") a))
  unfolding enter bytes_beq
  enter_met s e =
      let known = s.objects key n in
      let v : Addresses = record known { visitor_addr = some a } in
      let p : Addresses = record known { provider_addr = some b } in
      let u : Visit = record { key = key; entry = n; looks = 20 } in
      let w = ap (◌∷◌ u) e in
      let with_visitor : Addresses → Addresses = λ o. record o { visitor_addr = some a } in
      let with_provider : Addresses → Addresses = λ o. record o { provider_addr = some b } in
      (
        look_met _ w (
            written_self key n _ (write_object key n v s.objects)
            ∙ ap with_provider (written_self key n v s.objects)),
        look_met _ w (
            written_self key n _ (write_object key n p s.objects)
            ∙ ap with_visitor (written_self key n p s.objects)),
      )

on_pieces-handle :
    (addr key role : Bytes) (s : P2pServer)
    → Lacks b'*' key
    → Lacks b'*' role
    → (handle_p2p (datagram addr (get_write_str (key ∷ role ∷ []))) s).0
      ≡ enter key role addr (entry_of key (load key s.p2p) s)
unfolding handle_p2p on_pieces
on_pieces-handle addr key role s h k =
    ap (λ ps. on_pieces addr ps s) (get_write_str_pieces key role h k)

enter_p2p : (key role x : Bytes) (n : ℕ) (s : P2pServer) → (enter key role x (n, s)).p2p ≡ s.p2p
unfolding enter
enter_p2p key role x n s =
    if_both (λ (t : P2pServer). t.p2p ≡ s.p2p) (role == codes "p2pv") _ _ refl refl

-- Two datagrams of a key reach one entry.
module _ (s : P2pServer) (key : Bytes) (h : Lacks b'*' key) where
  both_entered :
      (role x role' y : Bytes)
      → Lacks b'*' role
      → Lacks b'*' role'
      → (handle_p2p
          (datagram y (get_write_str (key ∷ role' ∷ [])))
          (handle_p2p (datagram x (get_write_str (key ∷ role ∷ []))) s).0).0
        ≡ entered key
            (entry_of key (load key s.p2p) s).0
            (entry_of key (load key s.p2p) s).1
            role
            x
            role'
            y
  unfolding entry_of
  both_entered role x role' y k k' =
      let r = entry_of key (load key s.p2p) s in
      let t = enter key role x r in
      ap (λ u. (handle_p2p (datagram y (get_write_str (key ∷ role' ∷ []))) u).0)
        (on_pieces-handle x key role s h k)
      ∙ on_pieces-handle y key role' t h k'
      ∙ ap (λ o. enter key role' y (entry_of key o t))
          (ap (load key) (enter_p2p key role x r.0 r.1) ∙ found_again key s (load key s.p2p) refl)

  -- Whatever the server has seen before: a visitor and a provider send the same key, without a `*`,
  -- one right after the other and in either order. Once the visitor's goroutine looks, each is told
  -- the other's address, and neither the key nor the goroutine is left.
  pub handle_p2p-HasMet :
      (a b : Bytes)
      → HasMet key a b s.visits (
          handle_p2p
            (look 0)
            (handle_p2p (provider_from b key) (handle_p2p (visitor_from a key) s).0).0)
        × HasMet key a b s.visits (
            handle_p2p
              (look 0)
              (handle_p2p (visitor_from a key) (handle_p2p (provider_from b key) s).0).0)
  handle_p2p-HasMet a b =
      let r = entry_of key (load key s.p2p) s in
      let (m, m') = enter_met key a b r.0 s.visits r.1 (kept_visits key s (load key s.p2p)) in
      let P : P2pServer → Type 0 = λ t. HasMet key a b s.visits (handle_p2p (look 0) t) in
      (
        subst P (sym (both_entered (codes "p2pv") a (codes "p2pp") b (omega arith) (omega arith)))
            m,
        subst P (sym (both_entered (codes "p2pp") b (codes "p2pv") a (omega arith) (omega arith)))
            m',
      )
