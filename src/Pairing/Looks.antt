-- ===== src/Pairing/Looks.antt =====
-- server/proxy/p2p.go: how long the goroutines of visitors look for a provider.
use next_nps.Wire.{seq}
use next_nps.Pairing.{
  Visit, P2pServer, Event, datagram, look, entry_of, enter, on_pieces, put_visit, visit_at, leave,
  look_for, on_round, on_look, handle_p2p, p2p_run,
}
use next_nps.Base.{
  if◌then◌else◌, ◌==◌, if_both, is_some, Bytes, codes, split_seq, load, ℕ, zero, suc, ◌+◌, ◌*◌, ◌≤◌,
  ◌≡◌, refl, ap, Option, none, some, List, [], ◌∷◌, arith, nat_eq, bytes_eq,
}

-- The rounds of the loop that the goroutines can still go through, and the end of each.
pub looks_left : List Visit → ℕ
looks_left [] = 0
looks_left (v ∷ vs) = suc v.looks + looks_left vs

-- The looks of a run that are steps of a goroutine which is there.
pub looks_made : List Event → ℕ
looks_made [] = 0
looks_made (datagram addr str ∷ es) = looks_made es
looks_made (look i ∷ es) =
    (if is_some (visit_at i (p2p_run es).visits) then 1 else 0) + looks_made es

pub datagrams : List Event → ℕ
datagrams [] = 0
datagrams (datagram addr str ∷ es) = suc (datagrams es)
datagrams (look i ∷ es) = datagrams es

first_of : (u v : Visit) (vs : List Visit) → visit_at zero (u ∷ vs) ≡ some v → u ≡ v
unfolding visit_at
first_of u v vs e = cc

looks_left-taken :
    (i : ℕ) (v : Visit) (vs : List Visit)
    → visit_at i vs ≡ some v
    → looks_left (put_visit i [] vs) + suc v.looks ≡ looks_left vs
unfolding looks_left put_visit visit_at
looks_left-taken i v [] e = absurd (ground arith)
looks_left-taken zero v (u ∷ vs) e =
    let p : u.looks ≡ v.looks = ap Visit.looks (first_of u v vs e) in omega arith
looks_left-taken (suc i) v (u ∷ vs) e = let ih = looks_left-taken i v vs e in omega arith

looks_left-put :
    (i : ℕ) (v u : Visit) (vs : List Visit)
    → visit_at i vs ≡ some v
    → looks_left (put_visit i (u ∷ []) vs) + v.looks ≡ looks_left vs + u.looks
unfolding looks_left put_visit visit_at
looks_left-put i v u [] e = absurd (ground arith)
looks_left-put zero v u (w ∷ vs) e =
    let p : w.looks ≡ v.looks = ap Visit.looks (first_of w v vs e) in omega arith
looks_left-put (suc i) v u (w ∷ vs) e = let ih = looks_left-put i v u vs e in omega arith

-- A step of a goroutine that is there takes a look off.
look_for_less :
    (i : ℕ) (v : Visit) (left : ℕ) (p : Option Bytes) (s : P2pServer)
    → visit_at i s.visits ≡ some v
    → v.looks ≡ suc left
    → suc (looks_left (look_for i v left p s).0.visits) ≤ looks_left s.visits
unfolding look_for leave
look_for_less i v left none s e l =
    omega (arith, l, looks_left-put i v (record v { looks = left }) s.visits e)
look_for_less i v left (some p) s e l = omega (arith, l, looks_left-taken i v s.visits e)

on_round_less :
    (i : ℕ) (v : Visit) (n : ℕ) (s : P2pServer)
    → visit_at i s.visits ≡ some v
    → v.looks ≡ n
    → suc (looks_left (on_round i v n s).0.visits) ≤ looks_left s.visits
unfolding on_round leave
on_round_less i v zero s e l = omega (arith, l, looks_left-taken i v s.visits e)
on_round_less i v (suc left) s e l =
    look_for_less i v left (s.objects v.key v.entry).provider_addr s e l

on_look_less :
    (i : ℕ) (o : Option Visit) (s : P2pServer)
    → visit_at i s.visits ≡ o
    → (if is_some o then 1 else 0) + looks_left (on_look i o s).0.visits ≤ looks_left s.visits
unfolding on_look
on_look_less i none s e = omega arith
on_look_less i (some v) s e = omega (arith, on_round_less i v v.looks s e refl)

-- A datagram adds one goroutine at most, of 20 rounds.
enter_more :
    (key role addr : Bytes) (n : ℕ) (s : P2pServer)
    → looks_left (enter key role addr (n, s)).visits ≤ 21 + looks_left s.visits
unfolding enter looks_left
enter_more key role addr n s =
    if_both (λ (t : P2pServer). looks_left t.visits ≤ 21 + looks_left s.visits)
      (role == codes "p2pv") _ _ (omega arith) (omega arith)

entry_of_visits :
    (key : Bytes) (o : Option ℕ) (s : P2pServer) → (entry_of key o s).1.visits ≡ s.visits
unfolding entry_of
entry_of_visits key (some n) s = refl
entry_of_visits key none s = refl

on_pieces_more :
    (addr : Bytes) (ps : List Bytes) (s : P2pServer)
    → looks_left (on_pieces addr ps s).visits ≤ 21 + looks_left s.visits
unfolding on_pieces
on_pieces_more addr [] s = omega arith
on_pieces_more addr (x ∷ []) s = omega arith
on_pieces_more addr (key ∷ role ∷ rest) s =
    let (n, t) = entry_of key (load key s.p2p) s in
    let e : looks_left t.visits ≡ looks_left s.visits =
      ap looks_left (entry_of_visits key (load key s.p2p) s) in
    omega (arith, e, enter_more key role addr n t)

-- In every run of the server, whatever datagrams come, of providers or not, and whichever goroutines
-- look, in any order: the goroutines take no more than 21 steps for each datagram that came, counted
-- together with the rounds and ends that those who wait have still to take.
pub looks_made_bounded :
    (es : List Event) → looks_made es + looks_left (p2p_run es).visits ≤ 21 * datagrams es
unfolding looks_made datagrams p2p_run handle_p2p looks_left
looks_made_bounded [] = omega arith
looks_made_bounded (datagram addr str ∷ es) =
    omega (arith, looks_made_bounded es, on_pieces_more addr (split_seq 0 seq str) (p2p_run es))
looks_made_bounded (look i ∷ es) =
    let s = p2p_run es in
    omega (arith, looks_made_bounded es, on_look_less i (visit_at i s.visits) s refl)
