-- ===== src/Rate.antt =====
-- lib/rate/rate.go: the limiter of a client's bandwidth, a bucket that the session fills once a
-- second and that every read and write empties. Each call runs as one step here, though the source
-- guards only the additions by atomics. A wait in `Get` is a sequence of tries.
mod Budget
mod Tests
use next_nps.Base.Int.{ℤ, pos, ◌+ℤ◌, ◌-ℤ◌, ltb_ℤ, leb_ℤ, int64}
use next_nps.Base.{if◌then◌else◌, ℕ, ◌+◌, Option, none, some, List, [], ◌∷◌}

pub record Rate : Type 0 where
  pub bucket_size : ℤ
  pub surplus : ℤ
  pub add_size : ℤ
  pub now_rate : ℤ

-- `addSize * 2` on an int64.
abbrev pub twice : ℤ → ℤ
twice n = int64 (n +ℤ n)

unfoldable pub new_rate : ℤ → Rate
new_rate add_size = record {
  bucket_size = twice add_size;
  surplus = pos 0;
  add_size = add_size;
  now_rate = pos 0;
}

unfoldable pub add : Rate → ℤ → Rate
add s size =
    let res = int64 (s.bucket_size -ℤ s.surplus) in
    if ltb_ℤ res s.add_size
    then record s { surplus = int64 (s.surplus +ℤ res) }
    else record s { surplus = int64 (s.surplus +ℤ size) }

unfoldable pub return_bucket : Rate → ℤ → Rate
unfolding add
return_bucket s size = add s size

-- The test of `Get`, at the call and at each tick of its ticker: `none` is one more wait.
unfoldable pub try_get : Rate → ℤ → Option Rate
try_get s size =
    if leb_ℤ size s.surplus then some (record s { surplus = int64 (s.surplus -ℤ size) }) else none

-- One tick of `session`.
unfoldable pub session_tick : Rate → Rate
unfolding add
session_tick s =
    let rs = int64 (s.add_size -ℤ s.surplus) in
    let now = if ltb_ℤ (pos 0) rs then rs else int64 (s.bucket_size -ℤ s.surplus) in
    add (record s { now_rate = now }) s.add_size

-- What happens to a limiter: a tick, or a try to take some bytes.
pub data Event : Type 0 where
  tick : Event
  take_bytes : ℕ → Event

-- The limiter and the bytes that it has let through.
pub record Meter : Type 0 where
  pub rate : Rate
  pub granted : ℕ

abbrev taken : Meter → ℕ → Option Rate → Meter
taken m n none = m
taken m n (some r) = record { rate = r; granted = m.granted + n }

unfoldable pub meter_step : Meter → Event → Meter
unfolding session_tick try_get
meter_step m tick = record m { rate = session_tick m.rate }
meter_step m (take_bytes n) = taken m n (try_get m.rate (pos n))

unfoldable pub meter_run : Meter → List Event → Meter
unfolding meter_step
meter_run m [] = m
meter_run m (e ∷ es) = meter_run (meter_step m e) es
