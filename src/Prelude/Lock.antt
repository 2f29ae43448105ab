-- ===== src/Prelude/Lock.antt =====
-- One goroutine's use of a `sync.RWMutex` that guards a state. The lock is not reentrant: to lock it
-- again, or to ask for the write lock while one holds the read lock, waits forever, which is `none`.
use mathlib.Core.Path.{◌≡◌, ap}
use mathlib.Core.Bool.{Bool, true, false, ◌||◌, not}
use mathlib.Core.Option.{Option, none, some}
use Prim.Native.Nat.{ℕ, ◌+◌, ◌-◌}
use web_bou.Prelude.Tests.{eqb, if◌then◌else◌}

pub record RwMutex : Type 0 where
  pub readers : ℕ
  pub writer : Bool

abbrev pub free : RwMutex
free = record { readers = 0; writer = false }

abbrev pub Locked : Type 0 → Type 0 → Type 0
Locked S A = RwMutex → S → Option (A × RwMutex × S)

infixl 5 ◌>>=◌ ◌>>◌
abbrev pub ◌>>=◌ : {S A B : Type 0} → Locked S A → (A → Locked S B) → Locked S B
◌>>=◌ m f mu s = elim (m mu s) [ none ↦ none | some (a, mu', s') ↦ f a mu' s' ]

abbrev pub ◌>>◌ : {S A B : Type 0} → Locked S A → Locked S B → Locked S B
m >> k = m >>= λ _. k

-- What follows a call that returns.
pub bind_returns :
    {S A B : Type 0} (m : Locked S A) (f : A → Locked S B) {mu mu' : RwMutex} {s s' : S} {a : A}
    → m mu s ≡ some (a, mu', s')
    → (m >>= f) mu s ≡ f a mu' s'
bind_returns m f e = ap (λ r. elim r [ none ↦ none | some (a, mu', s') ↦ f a mu' s' ]) e

pub bind_waits :
    {S A B : Type 0} (m : Locked S A) (f : A → Locked S B) {mu : RwMutex} {s : S}
    → m mu s ≡ none
    → (m >>= f) mu s ≡ none
bind_waits m f e = ap (λ r. elim r [ none ↦ none | some (a, mu', s') ↦ f a mu' s' ]) e

module _ {S : Type 0} where
  abbrev pub pure : {A : Type 0} → A → Locked S A
  pure a mu s = some (a, mu, s)

  abbrev pub read : Locked S S
  read mu s = some (s, mu, s)

  abbrev pub write : S → Locked S (Unit {0})
  write s' mu s = some (tt, mu, s')

  abbrev pub rlock : Locked S (Unit {0})
  rlock mu s = if mu.writer then none else some (tt, record mu { readers = mu.readers + 1 }, s)

  abbrev pub runlock : Locked S (Unit {0})
  runlock mu s = some (tt, record mu { readers = mu.readers - 1 }, s)

  abbrev pub lock : Locked S (Unit {0})
  lock mu s =
      if mu.writer || not (eqb mu.readers 0)
      then none
      else some (tt, record mu { writer = true }, s)

  abbrev pub unlock : Locked S (Unit {0})
  unlock mu s = some (tt, record mu { writer = false }, s)
