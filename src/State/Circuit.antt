-- ===== src/State/Circuit.antt =====
-- server/webbou/state.go, `CircuitBreaker`. Its methods are actions under its lock; the callbacks
-- `onOpen` and `onClose` are known by whether they are set, and their calls are recorded.
pub mod Laws
pub mod Failures
pub mod Concurrent
use web_bou.Prelude.{ℕ, ◌+◌, Bool, true, false, List, [], ◌∷◌, ltb, leb, if◌then◌else◌}
use web_bou.Prelude.Words.{u64}
use web_bou.Prelude.Clock.{Time, Duration, elapsed}
use web_bou.Prelude.Lock.{Locked, ◌>>=◌, ◌>>◌, pure, read, write, rlock, runlock, lock, unlock}

pub data CircuitState : Type 0 where
  circuit_closed circuit_open circuit_half_open : CircuitState

pub data Called : Type 0 where
  on_open_called on_close_called : Called

pub record CircuitBreaker : Type 0 where
  pub failures : ℕ  -- uint64
  pub successes : ℕ  -- uint64
  pub state : CircuitState
  pub threshold : ℕ  -- uint64
  pub timeout : Duration
  pub last_fail : Time
  pub on_open : Bool
  pub on_close : Bool
  pub calls : List Called

-- The method `New`, which does not use its receiver.
unfoldable new : ℕ → Duration → CircuitBreaker
new threshold timeout = record {
  failures = 0;
  successes = 0;
  state = circuit_closed;
  threshold = threshold;
  timeout = timeout;
  last_fail = 0;
  on_open = false;
  on_close = false;
  calls = [];
}

-- The body of the `switch`, under the read lock.
abbrev admit : CircuitState → Time → Locked CircuitBreaker Bool
admit circuit_closed now = pure true
admit circuit_open now = do
  cb ← read
  if ltb cb.timeout (elapsed now cb.last_fail)
      then (do lock; write (record cb { state = circuit_half_open }); unlock; pure true)
      else pure false
admit circuit_half_open now = pure true

unfoldable allow : Time → Locked CircuitBreaker Bool
allow now = do rlock; cb ← read; allowed ← admit cb.state now; runlock; pure allowed

abbrev close_circuit : CircuitState → CircuitBreaker → CircuitBreaker
close_circuit circuit_half_open cb = record cb {
  state = circuit_closed;
  calls = if cb.on_close then on_close_called ∷ cb.calls else cb.calls;
}
close_circuit _ cb = cb

unfoldable success : Locked CircuitBreaker (Unit {0})
success = do
  cb ← read
  write (record cb { successes = u64 (cb.successes + 1); failures = 0 })
  lock
  cb' ← read
  write (close_circuit cb'.state cb')
  unlock

abbrev open_circuit : CircuitBreaker → CircuitBreaker
open_circuit cb = record cb {
  state = circuit_open;
  calls = if cb.on_open then on_open_called ∷ cb.calls else cb.calls;
}

unfoldable failure : Time → Locked CircuitBreaker (Unit {0})
failure now = do
  cb ← read
  write (record cb { failures = u64 (cb.failures + 1); last_fail = now })
  cb' ← read
  if leb cb'.threshold cb'.failures
      then (do lock; cb'' ← read; write (open_circuit cb''); unlock)
      else pure tt

-- `OnOpen` and `OnClose`.
unfoldable register_on_open : Locked CircuitBreaker (Unit {0})
register_on_open = do lock; cb ← read; write (record cb { on_open = true }); unlock

unfoldable register_on_close : Locked CircuitBreaker (Unit {0})
register_on_close = do lock; cb ← read; write (record cb { on_close = true }); unlock
