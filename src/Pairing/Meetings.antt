-- ===== src/Pairing/Meetings.antt =====
-- server/proxy/p2p.go: who is told whose address.
use next_nps.Wire.{seq}
use next_nps.Pairing.{
  Visit, P2pServer, Packet, Event, datagram, look, address_text, visit_at, leave, introduce,
  look_for, on_round, on_look, handle_p2p, p2p_run,
}
use next_nps.Pairing.Objects.{heard, Inv, Waiting-put, Waiting-at, Inv-later, pieces-Inv}
use next_nps.Base.{
  is_some, Bytes, split_seq, ℕ, zero, suc, ◌≡◌, refl, ap, ◌∙◌, ◌⊎◌, inl, inr, true, false, Option,
  none, some, List, [], ◌∷◌, arith,
}

-- The two messages that go out, or none.
pub IsIntroduction : List Event → List Packet → Type 0
IsIntroduction es ps =
    (ps ≡ [])
    ⊎ (key : Bytes) × (a : Bytes) × (b : Bytes) × (ps
        ≡ record { text = b; to = some a } ∷ record { text = a; to = some b } ∷ [])
      × (heard key true a es ≡ true)
      × (heard key false b es ≡ true)

look_for-Inv :
    (es : List Event) (i : ℕ) (v : Visit) (left : ℕ) (o p : Option Bytes) (s : P2pServer)
    → Inv es s
    → is_some o ≡ true
    → (s.objects v.key v.entry).visitor_addr ≡ o
    → (s.objects v.key v.entry).provider_addr ≡ p
    → Inv es (look_for i v left p s).0 × IsIntroduction es (look_for i v left p s).1
unfolding look_for leave introduce IsIntroduction
look_for-Inv es i v left none p s h z e f = absurd (ground arith)
look_for-Inv es i v left (some a) none s (k, w) z e f =
    ((k, Waiting-put s.objects i _ s.visits (ap is_some e ∙ z, tt) w), inl refl)
look_for-Inv es i v left (some a) (some b) s (k, w) z e f = (
  (k, Waiting-put s.objects i [] s.visits tt w),
  inr (
    v.key,
    a,
    b,
    ap (λ x. record { text = b; to = x } ∷ record { text = address_text x; to = some b } ∷ []) e,
    (k v.key v.entry).0 a e,
    (k v.key v.entry).1 b f,
  ),
)

on_round-Inv :
    (es : List Event) (i : ℕ) (v : Visit) (looks : ℕ) (s : P2pServer)
    → is_some (s.objects v.key v.entry).visitor_addr ≡ true
    → Inv es s
    → Inv es (on_round i v looks s).0 × IsIntroduction es (on_round i v looks s).1
unfolding on_round leave IsIntroduction
on_round-Inv es i v zero s z (k, w) = ((k, Waiting-put s.objects i [] s.visits tt w), inl refl)
on_round-Inv es i v (suc left) s z h =
    let o = s.objects v.key v.entry in
    look_for-Inv es i v left o.visitor_addr o.provider_addr s h z refl refl

on_look-Inv :
    (es : List Event) (i : ℕ) (o : Option Visit) (s : P2pServer)
    → visit_at i s.visits ≡ o
    → Inv es s
    → Inv es (on_look i o s).0 × IsIntroduction es (on_look i o s).1
unfolding on_look IsIntroduction
on_look-Inv es i none s e h = (h, inl refl)
on_look-Inv es i (some v) s e h =
    on_round-Inv es i v v.looks s (Waiting-at s.objects i s.visits v h.1 e) h

look-Inv :
    (es : List Event) (i : ℕ) (s : P2pServer)
    → Inv es s
    → Inv es (handle_p2p (look i) s).0 × IsIntroduction es (handle_p2p (look i) s).1
unfolding handle_p2p
look-Inv es i s h = on_look-Inv es i (visit_at i s.visits) s refl h

run-Inv : (es : List Event) → Inv es (p2p_run es)
unfolding p2p_run handle_p2p
run-Inv [] = (λ key n. (λ a p. absurd (ground arith), λ a p. absurd (ground arith)), tt)
run-Inv (datagram addr str ∷ es) =
    pieces-Inv es addr str (split_seq 0 seq str) (p2p_run es) refl (run-Inv es)
run-Inv (look i ∷ es) =
    Inv-later (look i) es (handle_p2p (look i) (p2p_run es)).0
      (look-Inv es i (p2p_run es) (run-Inv es)).0

-- Whatever datagrams came and whatever goroutines looked before, in any order: a step sends nothing,
-- or tells a visitor and a provider that were heard under one key each other's address.
pub handle_p2p-IsIntroduction :
    (es : List Event) (e : Event) → IsIntroduction es (handle_p2p e (p2p_run es)).1
unfolding handle_p2p IsIntroduction
handle_p2p-IsIntroduction es (datagram addr str) = inl refl
handle_p2p-IsIntroduction es (look i) = (look-Inv es i (p2p_run es) (run-Inv es)).1
