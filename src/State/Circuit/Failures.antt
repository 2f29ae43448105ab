-- ===== src/State/Circuit/Failures.antt =====
-- server/webbou/state.go, `CircuitBreaker.Failure`: how many failures open the breaker.
use web_bou.Prelude.{
  ℕ, suc, ◌+◌, ◌≤◌, ◌<◌, ◌≡◌, refl, some, List, [], ◌∷◌, inl, inr, arith, leb, length, map, ◌↔◌,
  Bool-cases,
}
use native.Mathlib.Nat.{add-zero}
use web_bou.Prelude.Words.{u64, u64_mod}
use web_bou.Prelude.Clock.{Time, Duration}
use web_bou.Prelude.Lock.{free, ◌>>=◌, ◌>>◌}
use web_bou.State.Circuit.{CircuitBreaker, circuit_closed, circuit_open, new}
use web_bou.State.Circuit.Laws.{step, run, failure_call, failed, failure_lem}

-- A run of failures, at the given times.
unfoldable failures_at : List Time → CircuitBreaker → CircuitBreaker
failures_at [] cb = cb
failures_at (now ∷ rest) cb = failures_at rest (failed now cb)

run_failures :
    (times : List Time) (cb : CircuitBreaker)
    → run (map failure_call times) free cb ≡ some (tt, free, failures_at times cb)
unfolding run step failures_at
run_failures [] cb = refl
run_failures (now ∷ rest) cb =
    rw (failure_lem now cb, ◌>>◌, ◌>>=◌) (run_failures rest (failed now cb))

-- The count of failures is exact, and the breaker is open exactly from the threshold on.
record Counts (threshold n : ℕ) (cb : CircuitBreaker) : Type 0 where
  count : cb.failures ≡ n
  limit : cb.threshold ≡ threshold
  opens : 0 < n → threshold ≤ n → cb.state ≡ circuit_open
  stays : n < threshold → cb.state ≡ circuit_closed

failed-Counts :
    (threshold n : ℕ) (now : Time) (cb : CircuitBreaker)
    → n + 1 < u64_mod
    → Counts threshold n cb
    → Counts threshold (n + 1) (failed now cb)
failed-Counts threshold n now cb word c =
    let next : u64 (cb.failures + 1) ≡ n + 1 = omega (arith, c.count) in
    record {
      count = ground (arith, next);
      limit = ground (arith, c.limit);
      opens = ground (arith, next, c.limit);
      stays = ground (arith, next, c.limit, c.stays);
    }

failures_at-Counts :
    (threshold n : ℕ) (times : List Time) (cb : CircuitBreaker)
    → n + length times < u64_mod
    → Counts threshold n cb
    → Counts threshold (n + length times) (failures_at times cb)
unfolding failures_at
failures_at-Counts threshold n [] cb word c = rw add-zero c
failures_at-Counts threshold n (now ∷ rest) cb word c =
    let regroup : n + suc (length rest) ≡ n + 1 + length rest = omega arith in
    rw regroup (
      failures_at-Counts threshold (n + 1) rest (failed now cb) (omega arith)
        (failed-Counts threshold n now cb (omega arith) c))

-- From a new breaker with a positive threshold, `Failure` called once for each of the given times
-- returns each time, and leaves the breaker open exactly if there were as many as the threshold.
failures_open :
    (threshold : ℕ) (timeout : Duration) (times : List Time)
    → 0 < threshold
    → length times < u64_mod
    → (cb : CircuitBreaker) × (run (map failure_call times) free (new threshold timeout)
        ≡ some (tt, free, cb))
      × ((cb.state ≡ circuit_open) ↔ (threshold ≤ length times))
unfolding new
failures_open threshold timeout times pos word =
    let start = new threshold timeout in
    let c = failures_at-Counts threshold 0 times start (omega arith) (record {
      count = refl;
      limit = refl;
      opens = λ h. absurd (omega arith);
      stays = λ h. refl;
    }) in
    (
      failures_at times start,
      run_failures times start,
      (λ o. at_least c o, λ h. c.opens (omega arith) (omega arith)),
    )
  where
    at_least :
        Counts threshold (0 + length times) (failures_at times (new threshold timeout))
        → (failures_at times (new threshold timeout)).state ≡ circuit_open
        → threshold ≤ length times
    at_least c o = elim (Bool-cases (leb threshold (length times))) [
      | inl enough ↦ ground arith
      | inr few ↦ absurd (let shut = c.stays (ground arith) in cc (shut, o))
    ]
