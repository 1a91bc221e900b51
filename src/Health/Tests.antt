-- ===== src/Health/Tests.antt =====
-- Three checks of two targets, of which one fails twice and comes back.
use next_nps.Health.{
  CheckedHealth, recovered, failed, count_of, count_answer, is_due, check_target, check_targets,
  check,
}
use next_nps.Health.Down.{Moves, is_down, about_target, check-Moves}
use next_nps.Base.{
  ◌==◌, Bytes, codes, bytes_beq, split, load, store, ◌≡◌, refl, Bool, true, [], ◌∷◌, arith, nat_eq,
  bytes_eq,
}

abbrev two_targets : CheckedHealth
two_targets = record { health_check_target = codes "a:1,b:2"; health_max_fail = 2; health_map = [] }

abbrev only_a : Bytes → Bool
only_a v = v == codes "a:1"

fails_and_returns :
    let (t1, r1) = check only_a two_targets in
    let (t2, r2) = check only_a t1 in
    let (t3, r3) = check (λ v. true) t2 in
    (r1 ≡ []) × (r2 ≡ failed (codes "b:2") ∷ []) × (r3 ≡ recovered (codes "b:2") ∷ [])
unfolding check check_targets check_target count_answer is_due count_of split load store bytes_beq
fails_and_returns = (refl, refl, refl)

check-Moves_example :
    let (t', rs) = check only_a two_targets in
    Moves
      (is_down 2 (codes "b:2") [])
      (about_target (codes "b:2") rs)
      (is_down 2 (codes "b:2") t'.health_map)
      (codes "b:2")
check-Moves_example = check-Moves only_a two_targets (codes "b:2") (omega arith)
