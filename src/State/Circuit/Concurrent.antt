-- ===== src/State/Circuit/Concurrent.antt =====
-- server/webbou/state.go, `CircuitBreaker` under many goroutines. A `sync.RWMutex` lets a writer in when
-- nobody holds it, and no new reader while a writer waits. The body of a write lock is one step, since
-- nothing that it does can wait. A call of `Success` or `Failure` may be counted as waiting before it asks
-- for the lock, so it does not keep readers out here. Each atomic counter and `lastFail` changes in a step
-- of its own. `OnOpen`, `OnClose` and `State` are no steps: they change none of these parts, and a reader
-- that `State` adds could only make the writers wait longer.
use web_bou.Prelude.{ℕ, suc, ◌+◌, ◌≤◌, ◌≡◌, ◌≢◌, refl, ◌∙◌, true, false, ltb, leb, arith}
use web_bou.Prelude.Words.{u64}
use web_bou.Prelude.Clock.{Time, Duration, elapsed}
use web_bou.State.Circuit.{
  CircuitBreaker, CircuitState, circuit_closed, circuit_open, circuit_half_open, new, close_circuit,
  open_circuit,
}

pub record System : Type 0 where
  pub breaker : CircuitBreaker
  pub reading : ℕ  -- the calls of `Allow` that hold the read lock
  pub upgrading : ℕ  -- the calls of `Allow` that hold it and wait for the write lock
  pub clearing : ℕ  -- the calls of `Success` that have counted it and not yet cleared the failures
  pub dating : ℕ  -- the calls of `Failure` that have counted it and not yet set `lastFail`
  pub comparing : ℕ  -- the calls of `Failure` that have set it and not yet loaded the count
  pub closing : ℕ  -- the calls of `Success` that wait for the write lock
  pub opening : ℕ  -- the calls of `Failure` that wait for the write lock
  pub granted : ℕ  -- the calls of `Allow` that have returned true
  pub answered : ℕ  -- the calls of `Allow` that have returned

pub data Step (s : System) : System → Type 0 where
  allow_begins : s.upgrading ≡ 0 → Step s (record s { reading = suc s.reading })
  allow_granted :
      (others : ℕ)
      → s.reading ≡ suc others
      → s.breaker.state ≢ circuit_open
      → Step s (record s { reading = others; granted = suc s.granted; answered = suc s.answered })
  allow_refused :
      (others : ℕ) (now : Time)
      → s.reading ≡ suc others
      → s.breaker.state ≡ circuit_open
      → ltb s.breaker.timeout (elapsed now s.breaker.last_fail) ≡ false
      → Step s (record s { reading = others; answered = suc s.answered })
  allow_asks :
      (others : ℕ) (now : Time)
      → s.reading ≡ suc others
      → s.breaker.state ≡ circuit_open
      → ltb s.breaker.timeout (elapsed now s.breaker.last_fail) ≡ true
      → Step s (record s { reading = others; upgrading = suc s.upgrading })
  -- Its own read lock is one of those that must be free.
  allow_upgraded :
      (others : ℕ)
      → s.upgrading ≡ suc others
      → s.reading + s.upgrading ≡ 0
      → Step s (record s {
        breaker = record s.breaker { state = circuit_half_open };
        upgrading = others;
        granted = suc s.granted;
        answered = suc s.answered;
      })
  success_counted : Step s (record s {
    breaker = record s.breaker { successes = u64 (s.breaker.successes + 1) };
    clearing = suc s.clearing;
  })
  success_cleared :
      (others : ℕ)
      → s.clearing ≡ suc others
      → Step s (record s {
        breaker = record s.breaker { failures = 0 };
        clearing = others;
        closing = suc s.closing;
      })
  success_locked :
      (others : ℕ)
      → s.closing ≡ suc others
      → s.reading + s.upgrading ≡ 0
      → Step s (record s { breaker = close_circuit s.breaker.state s.breaker; closing = others })
  failure_counted : Step s (record s {
    breaker = record s.breaker { failures = u64 (s.breaker.failures + 1) };
    dating = suc s.dating;
  })
  failure_dated :
      (others : ℕ) (now : Time)
      → s.dating ≡ suc others
      → Step s (record s {
        breaker = record s.breaker { last_fail = now };
        dating = others;
        comparing = suc s.comparing;
      })
  -- Below the threshold `Failure` returns.
  failure_below :
      (others : ℕ)
      → s.comparing ≡ suc others
      → leb s.breaker.threshold s.breaker.failures ≡ false
      → Step s (record s { comparing = others })
  failure_asks :
      (others : ℕ)
      → s.comparing ≡ suc others
      → leb s.breaker.threshold s.breaker.failures ≡ true
      → Step s (record s { comparing = others; opening = suc s.opening })
  failure_locked :
      (others : ℕ)
      → s.opening ≡ suc others
      → s.reading + s.upgrading ≡ 0
      → Step s (record s { breaker = open_circuit s.breaker; opening = others })

pub data Reach (s : System) : System → Type 0 where
  here : Reach s s
  next : {t u : System} → Reach s t → Step t u → Reach s u

abbrev new_system : ℕ → Duration → System
new_system threshold timeout = record {
  breaker = new threshold timeout;
  reading = 0;
  upgrading = 0;
  clearing = 0;
  dating = 0;
  comparing = 0;
  closing = 0;
  opening = 0;
  granted = 0;
  answered = 0;
}

close_open :
    (cb : CircuitBreaker) (state : CircuitState)
    → cb.state ≡ circuit_open
    → state ≡ circuit_open
    → (close_circuit state cb).state ≡ circuit_open
close_open cb circuit_closed e f = e
close_open cb circuit_open e f = e
close_open cb circuit_half_open e f = absurd (cc)

-- What an open breaker keeps.
Step-open :
    {s t : System}
    → Step s t
    → s.breaker.state ≡ circuit_open
    → (t.breaker.state ≡ circuit_open) × (t.granted ≡ s.granted)
Step-open (allow_begins quiet) o = (o, refl)
Step-open (allow_granted others e shut) o = absurd (shut o)
Step-open (allow_refused others now e opened early) o = (o, refl)
Step-open (allow_asks others now e opened due) o = (o, refl)
Step-open (allow_upgraded others e none_held) o = absurd (omega (arith, e, none_held))
Step-open success_counted o = (o, refl)
Step-open (success_cleared others e) o = (o, refl)
Step-open {s} (success_locked others e none_held) o =
    (close_open s.breaker s.breaker.state o o, refl)
Step-open failure_counted o = (o, refl)
Step-open (failure_dated others now e) o = (o, refl)
Step-open (failure_below others e few) o = (o, refl)
Step-open (failure_asks others e many) o = (o, refl)
Step-open (failure_locked others e none_held) o = (refl, refl)

-- A call waits for the write lock under its own read lock, and the calls that may still return are those
-- that began before.
abbrev pub Stopped : System → System → Type 0
Stopped s t =
    (1 ≤ t.upgrading)
    × (t.answered + t.reading ≤ s.answered + s.reading)
    × (s.closing ≤ t.closing)
    × (s.opening ≤ t.opening)

Step-Stopped : {s t : System} → Step s t → 1 ≤ s.upgrading → Stopped s t
Step-Stopped (allow_begins quiet) h = absurd (omega (arith, quiet, h))
Step-Stopped (allow_granted others e shut) h = omega (arith, e, h)
Step-Stopped (allow_refused others now e opened early) h = omega (arith, e, h)
Step-Stopped (allow_asks others now e opened due) h = omega (arith, e, h)
Step-Stopped (allow_upgraded others e none_held) h = absurd (omega (arith, e, none_held))
Step-Stopped success_counted h = omega (arith, h)
Step-Stopped (success_cleared others e) h = omega (arith, h)
Step-Stopped (success_locked others e none_held) h = absurd (omega (arith, h, none_held))
Step-Stopped failure_counted h = omega (arith, h)
Step-Stopped (failure_dated others now e) h = omega (arith, h)
Step-Stopped (failure_below others e few) h = omega (arith, h)
Step-Stopped (failure_asks others e many) h = omega (arith, h)
Step-Stopped (failure_locked others e none_held) h = absurd (omega (arith, h, none_held))

-- Whatever any number of goroutines call, and in every order of their steps: an open breaker stays open
-- and lets no request through again; and once a call of `Allow` waits for the write lock under its own
-- read lock, one always does, only those calls of `Allow` can still return that hold the read lock by
-- then, and no call of `Success` or `Failure` gets the write lock.
pub Reach-open :
    {s t : System}
    → s.breaker.state ≡ circuit_open
    → Reach s t
    → (t.breaker.state ≡ circuit_open) × (t.granted ≡ s.granted) × (1 ≤ s.upgrading → Stopped s t)
Reach-open o here = (o, refl, λ h. omega (arith, h))
Reach-open o (next r st) =
    let (opened, granted, stopped) = Reach-open o r in
    let (still, same) = Step-open st opened in
    (
      still,
      same ∙ granted,
      λ h.
          let before = stopped h in
          let after = Step-Stopped st before.0 in omega (arith, before, after),
    )

-- Such a call comes about: an open breaker whose timeout is over.
stops :
    (cb : CircuitBreaker) (now : Time)
    → cb.state ≡ circuit_open
    → ltb cb.timeout (elapsed now cb.last_fail) ≡ true
    → let start = record (new_system 0 0) { breaker = cb } in
      (t : System) × Reach start t × (1 ≤ t.upgrading)
stops cb now opened due =
    (_, next (next here (allow_begins refl)) (allow_asks 0 now refl opened due), omega arith)
