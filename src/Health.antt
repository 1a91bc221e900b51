-- ===== src/Health.antt =====
-- client/health.go: the check of a client's targets. `HealthMap` counts the failures of a target, and
-- the server is told of a target that failed often enough, and of one that is back. Whether a target
-- answers is an argument: for `tcp` that the connection opens, or else that the request gives 200.
mod Down
mod Tests
use next_nps.Base.{
  ltb, leb, nat_beq, if◌then◌else◌, Bytes, split, Store, load, store, ℕ, ◌+◌, ◌%◌, Bool, true,
  false, not, ◌&&◌, ◌||◌, Option, none, some, List, [], ◌∷◌, ◌++◌, nat_eq, bytes_eq,
}

-- What a check asks of `Health`: the targets, and the count at which one is reported.
pub record CheckedHealth : Type 0 where
  pub health_check_target : Bytes
  pub health_max_fail : ℕ
  pub health_map : Store Bytes ℕ

-- `SendHealthInfo(v, "1")` and `SendHealthInfo(v, "0")`.
pub data Report : Type 0 where
  recovered : Bytes → Report
  failed : Bytes → Report

-- A key that is missing counts 0.
unfoldable pub count_of : Option ℕ → ℕ
count_of none = 0
count_of (some n) = n

-- The count after one answer, and whether a recovery is sent.
unfoldable pub count_answer : ℕ → Bool → ℕ → ℕ × Bool
count_answer max up n =
    if not up then (n + 1, false) else if leb max n then (0, true) else (n, false)

abbrev when : Bool → Report → List Report
when true r = r ∷ []
when false r = []

-- A count of a multiple of the limit.
unfoldable pub is_due : ℕ → ℕ → Bool
is_due max n = ltb 0 n && nat_beq (n % max) 0

-- The body of the loop for one target. A count that is only read is not written.
unfoldable pub check_target :
    ℕ → (Bytes → Bool) → Bytes → Store Bytes ℕ → Store Bytes ℕ × List Report
check_target max up v m =
    let n = count_of (load v m) in
    let (n', back) = count_answer max (up v) n in
    (
      if not (up v) || back then store v n' m else m,
      when back (recovered v) ++ when (is_due max n') (failed v),
    )

unfoldable pub check_targets :
    ℕ → (Bytes → Bool) → List Bytes → Store Bytes ℕ → Store Bytes ℕ × List Report
check_targets max up [] m = (m, [])
check_targets max up (v ∷ vs) m =
    let (m', rs) = check_target max up v m in
    let (m'', rs') = check_targets max up vs m' in (m'', rs ++ rs')

-- `check`, for a limit above 0: `heathCheck` starts no others.
pub check : (Bytes → Bool) → CheckedHealth → CheckedHealth × List Report
check up t =
    let (m, rs) =
      check_targets t.health_max_fail up (split b',' t.health_check_target) t.health_map in
    (record t { health_map = m }, rs)
