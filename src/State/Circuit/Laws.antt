-- ===== src/State/Circuit/Laws.antt =====
-- server/webbou/state.go, `CircuitBreaker`: when it opens, and what happens from then on.
use web_bou.Prelude.{
  ◌+◌, ◌≤◌, ◌<◌, ◌≡◌, ◌≢◌, refl, Bool, true, false, Option, none, some, List, [], ◌∷◌, inl, inr,
  arith, ltb, leb, if◌then◌else◌, Bool-cases,
}
use web_bou.Prelude.Words.{u64}
use web_bou.Prelude.Clock.{Time, elapsed}
use web_bou.Prelude.Lock.{RwMutex, free, Locked, ◌>>=◌, ◌>>◌, pure}
use web_bou.State.Circuit.{
  CircuitBreaker, CircuitState, circuit_open, allow, success, failure, open_circuit, close_circuit,
}

abbrev is_open : CircuitState → Bool
is_open circuit_open = true
is_open _ = false

-- The open breaker's timeout is over, so it is due to let a request through.
abbrev IsDue : Time → CircuitBreaker → Type 0
IsDue now cb = (cb.state ≡ circuit_open) × (cb.timeout < elapsed now cb.last_fail)

allow_due : (now : Time) (cb : CircuitBreaker) → IsDue now cb → allow now free cb ≡ none
unfolding allow
allow_due now cb due = ground (arith, due.0, due.1)

allow_waits :
    (now : Time) (cb : CircuitBreaker)
    → cb.state ≡ circuit_open
    → elapsed now cb.last_fail ≤ cb.timeout
    → allow now free cb ≡ some (false, free, cb)
unfolding allow
allow_waits now cb opened early = ground (arith, opened, early)

allow_shut :
    (now : Time) (cb : CircuitBreaker)
    → cb.state ≢ circuit_open
    → allow now free cb ≡ some (true, free, cb)
unfolding allow
allow_shut now cb shut = ground (arith, shut)

-- `Allow` returns at once while the breaker is not due: true if it is not open, false if it is, and
-- nothing changes. When an open breaker is due, `Allow` asks for the write lock under its own read
-- lock, and waits forever.
allow_lem :
    (now : Time) (cb : CircuitBreaker)
    → (cb.state ≢ circuit_open → allow now free cb ≡ some (true, free, cb))
      × (cb.state ≡ circuit_open
          → elapsed now cb.last_fail ≤ cb.timeout
          → allow now free cb ≡ some (false, free, cb))
      × (IsDue now cb → allow now free cb ≡ none)
allow_lem now cb = (allow_shut now cb, allow_waits now cb, allow_due now cb)

pub data Call : Type 0 where
  allow_call : Time → Call
  success_call : Call
  failure_call : Time → Call

unfoldable pub step : Call → Locked CircuitBreaker (Unit {0})
step (allow_call now) = do allow now; pure tt
step success_call = success
step (failure_call now) = failure now

-- One goroutine's calls, one after the other.
unfoldable pub run : List Call → Locked CircuitBreaker (Unit {0})
unfolding step
run [] = pure tt
run (c ∷ cs) = do step c; run cs

-- What `Success` and `Failure` make of a breaker.
abbrev succeeded : CircuitBreaker → CircuitBreaker
succeeded cb =
    close_circuit cb.state (record cb { successes = u64 (cb.successes + 1); failures = 0 })

abbrev pub failed : Time → CircuitBreaker → CircuitBreaker
failed now cb =
    let counted = record cb { failures = u64 (cb.failures + 1); last_fail = now } in
    if leb cb.threshold counted.failures then open_circuit counted else counted

success_lem : (cb : CircuitBreaker) → success free cb ≡ some (tt, free, succeeded cb)
unfolding success
success_lem cb = refl

pub failure_lem :
    (now : Time) (cb : CircuitBreaker) → failure now free cb ≡ some (tt, free, failed now cb)
unfolding failure
failure_lem now cb = ground arith

-- A call on a breaker that is open waits forever, or returns, releases the lock and leaves it open.
record Returns (mu : RwMutex) (cb : CircuitBreaker) : Type 0 where
  is_free : mu ≡ free
  still_open : cb.state ≡ circuit_open

abbrev BlocksOr : Option (Unit {0} × RwMutex × CircuitBreaker) → Type 0
BlocksOr none = Unit
BlocksOr (some (_, mu, cb)) = Returns mu cb

allow_open :
    (now : Time) (cb : CircuitBreaker)
    → cb.state ≡ circuit_open
    → BlocksOr (step (allow_call now) free cb)
unfolding step
allow_open now cb opened = elim (Bool-cases (ltb cb.timeout (elapsed now cb.last_fail))) [
  | inl over ↦ rw (allow_due now cb (opened, ground arith), ◌>>◌, ◌>>=◌) tt
  | inr early ↦
      rw (allow_waits now cb opened (ground arith), ◌>>◌, ◌>>=◌)
        (record { is_free = refl; still_open = opened })
]

step_open : (c : Call) (cb : CircuitBreaker) → cb.state ≡ circuit_open → BlocksOr (step c free cb)
step_open (allow_call now) cb opened = allow_open now cb opened
step_open success_call cb opened =
    unfold step in
    rw (success_lem cb) (record { is_free = refl; still_open = ground (arith, opened) })
step_open (failure_call now) cb opened =
    unfold step in
    rw (failure_lem now cb) (record { is_free = refl; still_open = ground (arith, opened) })

-- The run goes on from what its first call left.
run-cons :
    (c : Call) (cs : List Call) (cb : CircuitBreaker)
    (o : Option (Unit {0} × RwMutex × CircuitBreaker))
    → step c free cb ≡ o
    → BlocksOr o
    → ((cb' : CircuitBreaker) → cb'.state ≡ circuit_open → BlocksOr (run cs free cb'))
    → BlocksOr (run (c ∷ cs) free cb)
unfolding run
run-cons c cs cb none e b ih = rw (e, ◌>>◌, ◌>>=◌) tt
run-cons c cs cb (some (u, mu, cb')) e b ih =
    rw (e, ◌>>◌, ◌>>=◌) (rw b.is_free (ih cb' b.still_open))

run_open :
    (cs : List Call) (cb : CircuitBreaker) → cb.state ≡ circuit_open → BlocksOr (run cs free cb)
run_open [] cb opened = unfold run in record { is_free = refl; still_open = opened }
run_open (c ∷ cs) cb opened =
    run-cons c cs cb (step c free cb) refl (step_open c cb opened) (run_open cs)

-- An `Allow` that returned true.
abbrev Admits : Option (Bool × RwMutex × CircuitBreaker) → Type 0
Admits none = ⊥
Admits (some (allowed, mu, cb)) = allowed ≡ true

not_admitted :
    (now : Time) (cb : CircuitBreaker) → cb.state ≡ circuit_open → ¬ Admits (allow now free cb)
not_admitted now cb opened = elim (Bool-cases (ltb cb.timeout (elapsed now cb.last_fail))) [
  | inl over ↦ rw (allow_due now cb (opened, ground arith)) (λ a. a)
  | inr early ↦ rw (allow_waits now cb opened (ground arith)) (λ a. absurd (cc))
]

then_not_admitted :
    (now : Time) (m : Locked CircuitBreaker (Unit {0})) (cb : CircuitBreaker)
    (o : Option (Unit {0} × RwMutex × CircuitBreaker))
    → m free cb ≡ o
    → BlocksOr o
    → ¬ Admits ((m >> allow now) free cb)
then_not_admitted now m cb none e b = rw (e, ◌>>◌, ◌>>=◌) (λ a. a)
then_not_admitted now m cb (some (u, mu, cb')) e b =
    rw (e, ◌>>◌, ◌>>=◌) (rw b.is_free (not_admitted now cb' b.still_open))

-- A breaker that is open never lets a request through again, whatever calls one goroutine makes and
-- however much time passes: an `Allow` after them answers false, or one of them waits forever.
open_forever :
    (cs : List Call) (now : Time) (cb : CircuitBreaker)
    → cb.state ≡ circuit_open
    → ¬ Admits ((run cs >> allow now) free cb)
open_forever cs now cb opened =
    then_not_admitted now (run cs) cb (run cs free cb) refl (run_open cs cb opened)
