-- ===== src/Rate/Budget.antt =====
-- How much the limiter of lib/rate/rate.go lets through.
use next_nps.Base.Int.{pos, ◌+ℤ◌, ◌-ℤ◌, ◌<ℤ◌, leb_ℤ, int64}
use next_nps.Base.{
  ltb, if◌then◌else◌, Bool-cases, ℕ, ◌+◌, ◌-◌, ◌≤◌, ◌<◌, ◌≡◌, refl, ◌⊎◌, inl, inr, none, some, List,
  [], ◌∷◌, arith,
}
use next_nps.Rate.{
  Rate, new_rate, add, return_bucket, try_get, session_tick, Event, tick, take_bytes, Meter,
  meter_step, meter_run,
}

-- A bucket of twice the size that is added, filled with `level` bytes of it.
pub record Holds (size level : ℕ) (r : Rate) : Type 0 where
  pub add_is : r.add_size ≡ pos size
  pub bucket_is : r.bucket_size ≡ pos (size + size)
  pub level_is : r.surplus ≡ pos level
  pub bounded : level ≤ size + size

-- Sizes that an int64 can add up.
abbrev pub max_size : ℕ
max_size = 1152921504606846976

session_tick-Holds :
    (size level : ℕ) (r : Rate)
    → size < max_size
    → Holds size level r
    → Holds size
        (if ltb (size + size - level) size then size + size else level + size)
        (session_tick r)
unfolding session_tick add int64 ◌+ℤ◌ ◌-ℤ◌
session_tick-Holds size level r h v = ground arith

try_get_cases :
    (size level n : ℕ) (r : Rate)
    → size < max_size
    → Holds size level r
    → ((try_get r (pos n) ≡ none) × (level < n))
      ⊎ ((r' : Rate) × (try_get r (pos n) ≡ some r') × (n ≤ level) × Holds size (level - n) r')
unfolding try_get int64 ◌-ℤ◌
try_get_cases size level n r h v = elim (Bool-cases (leb_ℤ (pos n) r.surplus)) [
  | inl t ↦ inr (
    record r { surplus = int64 (r.surplus -ℤ pos n) },
    rw t refl,
    ground (arith, v.level_is),
    record {
      add_is = v.add_is;
      bucket_is = v.bucket_is;
      level_is = ground (arith, v.level_is);
      bounded = omega (arith, v.bounded);
    },
  )
  | inr f ↦ inl (rw f refl, ground (arith, v.level_is))
]

-- The bytes that the ticks of a run add at most.
abbrev pub filled : ℕ → List Event → ℕ
filled size [] = 0
filled size (tick ∷ es) = size + filled size es
filled size (take_bytes n ∷ es) = filled size es

-- After a step: a level of the bucket that pays for what was let through.
abbrev Pays : ℕ → ℕ → Meter → Type 0
Pays size budget m = (level : ℕ) × Holds size level m.rate × (m.granted + level ≤ budget)

take_step :
    (size level n : ℕ) (m : Meter)
    → size < max_size
    → Holds size level m.rate
    → Pays size (m.granted + level) (meter_step m (take_bytes n))
unfolding meter_step
take_step size level n m h v = elim (try_get_cases size level n m.rate h v) [
  | inl (e, _) ↦ rw e (level, v, omega arith)
  | inr (r, e, le, w) ↦ rw e (level - n, w, omega arith)
]

tick_step :
    (size level : ℕ) (m : Meter)
    → size < max_size
    → Holds size level m.rate
    → Pays size (m.granted + level + size) (meter_step m tick)
unfolding meter_step
tick_step size level m h v = (
  (if ltb (size + size - level) size then size + size else level + size),
  session_tick-Holds size level m.rate h v,
  ground arith,
)

run-Pays :
    (size level : ℕ) (m : Meter) (es : List Event)
    → size < max_size
    → Holds size level m.rate
    → Pays size (m.granted + level + filled size es) (meter_run m es)
unfolding meter_run
run-Pays size level m [] h v = (level, v, omega arith)
run-Pays size level m (tick ∷ es) h v =
    let (k, u, c) = tick_step size level m h v in
    let (l, w, b) = run-Pays size k (meter_step m tick) es h u in (l, w, omega (arith, b, c))
run-Pays size level m (take_bytes n ∷ es) h v =
    let (k, u, c) = take_step size level n m h v in
    let (l, w, b) = run-Pays size k (meter_step m (take_bytes n)) es h u in
    (l, w, omega (arith, b, c))

-- Whatever the order of ticks and tries, no more bytes go through than the bucket held and the ticks
-- add, and the bucket never holds more than twice the size that is added. The size is under 2^60.
pub meter_run_bounded :
    (size level : ℕ) (m : Meter) (es : List Event)
    → size < max_size
    → Holds size level m.rate
    → ((meter_run m es).granted ≤ m.granted + level + filled size es)
      × ((k : ℕ) × Holds size k (meter_run m es).rate)
meter_run_bounded size level m es h v =
    let (l, w, b) = run-Pays size level m es h v in (omega (arith, b), (l, w))

-- A new limiter is an empty bucket.
pub new_rate-Holds : (size : ℕ) → size < max_size → Holds size 0 (new_rate (pos size))
unfolding new_rate int64 ◌+ℤ◌
new_rate-Holds size h = ground arith

-- A bucket that is at most half full takes a return of any size: one that is larger than the room
-- leaves it over its own size. The sizes are under 2^60.
pub return_bucket_overfills :
    (size level n : ℕ) (r : Rate)
    → size < max_size
    → n < max_size
    → Holds size level r
    → level ≤ size
    → size + size < level + n
    → pos (size + size) <ℤ (return_bucket r (pos n)).surplus
unfolding return_bucket add int64 ◌+ℤ◌ ◌-ℤ◌
return_bucket_overfills size level n r h k v l g = ground arith
