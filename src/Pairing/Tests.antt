-- ===== src/Pairing/Tests.antt =====
-- A visitor and a provider that meet, while a visitor of another key waits.
use next_nps.Pairing.{Event, look, p2p_run, handle_p2p}
use next_nps.Pairing.Looks.{looks_left, looks_made, datagrams, looks_made_bounded}
use next_nps.Pairing.Meetings.{IsIntroduction, handle_p2p-IsIntroduction}
use next_nps.Pairing.Arrivals.{visitor_from, provider_from, HasMet, handle_p2p-HasMet}
use next_nps.Base.{codes, ◌+◌, ◌*◌, ◌≤◌, List, [], ◌∷◌, arith}

-- The latest first.
abbrev two_visitors : List Event
two_visitors =
    provider_from (codes "c:3") (codes "k")
    ∷ visitor_from (codes "b:2") (codes "k")
    ∷ visitor_from (codes "a:1") (codes "j")
    ∷ []

handle_p2p-IsIntroduction_example :
    IsIntroduction two_visitors (handle_p2p (look 0) (p2p_run two_visitors)).1
handle_p2p-IsIntroduction_example = handle_p2p-IsIntroduction two_visitors (look 0)

handle_p2p-HasMet_example :
    let s = p2p_run (visitor_from (codes "a:1") (codes "j") ∷ []) in
    HasMet (codes "k") (codes "b:2") (codes "c:3") s.visits (
      handle_p2p
        (look 0)
        (handle_p2p
          (provider_from (codes "c:3") (codes "k"))
          (handle_p2p (visitor_from (codes "b:2") (codes "k")) s).0).0)
    × HasMet (codes "k") (codes "b:2") (codes "c:3") s.visits (
        handle_p2p
          (look 0)
          (handle_p2p
            (visitor_from (codes "b:2") (codes "k"))
            (handle_p2p (provider_from (codes "c:3") (codes "k")) s).0).0)
handle_p2p-HasMet_example =
    handle_p2p-HasMet (p2p_run (visitor_from (codes "a:1") (codes "j") ∷ [])) (codes "k")
      (omega arith) (codes "b:2") (codes "c:3")

looks_made_bounded_example :
    looks_made (look 0 ∷ two_visitors) + looks_left (p2p_run (look 0 ∷ two_visitors)).visits
    ≤ 21 * datagrams (look 0 ∷ two_visitors)
looks_made_bounded_example = looks_made_bounded (look 0 ∷ two_visitors)
