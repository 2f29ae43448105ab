-- ===== src/Prelude/Clock.antt =====
-- Go's `time`: a `Time` is the number of nanoseconds since the zero time, so that the zero value is
-- 0; a `Duration` that is not negative is a number. `time.Now()` is an argument of the operations.
use Prim.Native.Nat.{ℕ, ◌-◌, ◌*◌, min}

abbrev pub Time : Type 0
Time = ℕ

abbrev pub Duration : Type 0
Duration = ℕ

abbrev pub second : Duration
second = 1000000000

abbrev pub minute : Duration
minute = 60 * second

abbrev pub hour : Duration
hour = 60 * minute

-- The largest int64, at which `Time.Sub` saturates.
abbrev pub max_duration : Duration
max_duration = 9223372036854775807

-- `now.Sub(t)`, used where it is compared with durations that are not negative: what is negative
-- there is 0 here.
abbrev pub elapsed : Time → Time → Duration
elapsed now t = min (now - t) max_duration
