-- ===== src/Rate/Tests.antt =====
-- A limiter of ten bytes a second.
use next_nps.Base.Int.{pos}
use next_nps.Base.{ℕ, ◌+◌, ◌≤◌, [], ◌∷◌, arith}
use next_nps.Rate.{new_rate, tick, take_bytes, Meter, meter_run}
use next_nps.Rate.Budget.{Holds, filled, meter_run_bounded, new_rate-Holds}

abbrev start : Meter
start = record { rate = new_rate (pos 10); granted = 0 }

meter_run_bounded_example :
    ((meter_run start (tick ∷ take_bytes 4 ∷ take_bytes 9 ∷ tick ∷ [])).granted
      ≤ 0 + 0 + filled 10 (tick ∷ take_bytes 4 ∷ take_bytes 9 ∷ tick ∷ []))
    × ((k : ℕ) × Holds 10 k (meter_run start (tick ∷ take_bytes 4 ∷ take_bytes 9 ∷ tick ∷ [])).rate)
meter_run_bounded_example =
    meter_run_bounded 10 0 start (tick ∷ take_bytes 4 ∷ take_bytes 9 ∷ tick ∷ []) (omega arith)
      (new_rate-Holds 10 (omega arith))
