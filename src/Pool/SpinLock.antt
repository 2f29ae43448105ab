-- ===== src/Pool/SpinLock.antt =====
-- server/webbou/pool.go, `SpinLock`: any number of goroutines, each step of theirs one atomic access.
use web_bou.Prelude.{ℕ, ◌≡◌, ◌≢◌, Bool, true, false, eqb, if◌then◌else◌, arith}

-- `atomic.CompareAndSwapInt32(&sl.locked, 0, 1)`: the new value, and whether it was swapped.
unfoldable pub compare_and_swap : ℕ → ℕ × Bool
compare_and_swap locked = if eqb locked 0 then (1, true) else (locked, false)

-- Where a goroutine stands: outside, in the loop of `Lock`, or between `Lock` and `Unlock`.
pub data Pc : Type 0 where
  outside spinning inside : Pc

pub record System : Type 0 where
  pub locked : ℕ  -- int32
  pub pc : ℕ → Pc

abbrev pub update : (ℕ → Pc) → ℕ → Pc → ℕ → Pc
update pc i p j = if eqb i j then p else pc j

abbrev after_swap : Bool → Pc
after_swap true = inside
after_swap false = spinning

-- `Unlock` is called by the goroutine that holds the lock.
pub data Step (s : System) : System → Type 0 where
  lock : (i : ℕ) → s.pc i ≡ outside → Step s (record s { pc = update s.pc i spinning })
  swap :
      (i : ℕ)
      → s.pc i ≡ spinning
      → Step s (record {
        locked = (compare_and_swap s.locked).0;
        pc = update s.pc i (after_swap (compare_and_swap s.locked).1);
      })
  unlock : (i : ℕ) → s.pc i ≡ inside → Step s (record { locked = 0; pc = update s.pc i outside })

abbrev pub new_system : System
new_system = record { locked = 0; pc = λ i. outside }

pub data Reach (s : System) : System → Type 0 where
  here : Reach s s
  next : {t u : System} → Reach s t → Step t u → Reach s u

-- The lock is free or taken, and is taken exactly by the one goroutine that is inside.
record IsLocked (s : System) : Type 0 where
  free : (i : ℕ) → s.locked ≡ 0 → s.pc i ≢ inside
  alone : (i j : ℕ) → s.pc i ≡ inside → s.pc j ≡ inside → i ≡ j

Step-IsLocked : {s t : System} → Step s t → IsLocked s → IsLocked t
unfolding compare_and_swap
Step-IsLocked (lock i e) l = record {
  free = λ j. ground (arith, e, l.free j);
  alone = λ j k. ground (arith, e, l.alone j k);
}
Step-IsLocked (swap i e) l = record {
  free = λ j. ground (arith, e, l.free j);
  alone = λ j k. ground (arith, e, l.alone j k, l.free j, l.free k);
}
Step-IsLocked (unlock i e) l = record {
  free = λ j. ground (arith, e, l.alone i j);
  alone = λ j k. ground (arith, e, l.alone i j, l.alone i k);
}

Reach-IsLocked : {s : System} → Reach new_system s → IsLocked s
Reach-IsLocked here = record { free = λ i e. λ h. cc; alone = λ i j h k. absurd (cc) }
Reach-IsLocked (next r st) = Step-IsLocked st (Reach-IsLocked r)

-- However many goroutines use the lock, and in whatever order they step, no two are ever between
-- `Lock` and `Unlock` at once.
pub mutual_exclusion :
    {s : System} (i j : ℕ) → Reach new_system s → s.pc i ≡ inside → s.pc j ≡ inside → i ≡ j
mutual_exclusion i j r = (Reach-IsLocked r).alone i j
