-- ===== src/Limits/BackPressure.antt =====
-- server/webbou/pool.go, `BackPressureMonitor`. The water marks, which the source computes from
-- float64 thresholds, are arguments of the constructor; the thresholds are not read again.
use web_bou.Prelude.{ℕ, ◌≡◌, Bool, true, false, not, ltb, if◌then◌else◌, arith}

pub record BackPressureMonitor : Type 0 where
  pub high_water_mark : ℕ  -- uint64
  pub low_water_mark : ℕ  -- uint64
  pub enabled : Bool
  pub paused : Bool

unfoldable pub new_back_pressure_monitor : ℕ → ℕ → BackPressureMonitor
new_back_pressure_monitor low high = record {
  high_water_mark = high;
  low_water_mark = low;
  enabled = false;
  paused = false;
}

-- What is compared with the high water mark is the high water mark.
unfoldable check : BackPressureMonitor → Bool
check bpm =
    if not bpm.enabled
    then true
    else let current = bpm.high_water_mark in ltb current bpm.high_water_mark

unfoldable is_paused : BackPressureMonitor → Bool
is_paused bpm = bpm.paused

unfoldable pause : BackPressureMonitor → BackPressureMonitor
pause bpm = record bpm { paused = true }

unfoldable resume : BackPressureMonitor → BackPressureMonitor
resume bpm = record bpm { paused = false }

-- `Check` depends on nothing but whether the monitor is enabled: an enabled monitor refuses all load,
-- a disabled one none, paused or not and whatever its water marks.
check-not_enabled : (bpm : BackPressureMonitor) → check bpm ≡ not bpm.enabled
unfolding check
check-not_enabled bpm = ground arith
