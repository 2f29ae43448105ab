-- ===== src/Balancer/RoundRobin.antt =====
-- server/webbou/loadbalancer.go, `RoundRobin.Select`.
use web_bou.Prelude.{
  String, ℕ, zero, suc, ◌+◌, ◌-◌, ◌%◌, ◌<◌, ◌≡◌, refl, Bool-cases, inl, inr, true, Option, none,
  some, List, [], ◌∷◌, length, get_elem?, eqb, if◌then◌else◌, arith,
}
use mathlib.Core.Path.{ap₂}
use web_bou.Prelude.Clock.{Time, Duration}
use web_bou.Prelude.Words.{u32, u32_mod}
use web_bou.Balancer
use web_bou.Balancer.{Backend, has_addr}
use web_bou.Balancer.Registry.{found_first}

pub record RoundRobin : Type 0 where
  pub backends : List Backend
  pub index : ℕ  -- uint32

unfoldable pub new_round_robin : RoundRobin
new_round_robin = record { backends = []; index = 0 }

unfoldable pub register : RoundRobin → Backend → RoundRobin
register rr backend = record rr { backends = Balancer.register rr.backends backend }

unfoldable pub unregister : RoundRobin → String → RoundRobin
unregister rr addr = record rr { backends = Balancer.unregister rr.backends addr }

unfoldable pub record_success : Backend → Duration → Backend
record_success backend latency = Balancer.record_success backend latency

unfoldable pub record_failure : Backend → Time → Backend
record_failure backend now = Balancer.record_failure backend now

abbrev if_healthy : Option Backend → Option Backend
if_healthy none = none
if_healthy (some b) = if b.healthy then some b else none

-- The atomic counter is read back and 1 is subtracted, in uint32.
unfoldable pub select : RoundRobin → RoundRobin × Option Backend
select rr =
    if eqb (length rr.backends) 0
    then (rr, none)
    else let index = u32 (rr.index + 1) in
      let position = (index + u32_mod - 1) % u32_mod % u32 (length rr.backends) in
      (record rr { index = index }, if_healthy (get_elem? rr.backends position))

get_elem?-some {ℓ} :
    {A : Type ℓ} (xs : List A) (i : ℕ) → i < length xs → (a : A) × (get_elem? xs i ≡ some a)
get_elem?-some [] i h = elim h [ ]
get_elem?-some (x ∷ xs) zero h = (x, refl)
get_elem?-some (x ∷ xs) (suc i) h = get_elem?-some xs i (omega arith)

-- With backends registered, `Select` advances the counter and looks at the backend at the old
-- counter's place: it returns that backend if it is healthy, and otherwise nothing, whether or not
-- another backend is healthy.
select_lem :
    (rr : RoundRobin)
    → 0 < length rr.backends
    → length rr.backends < u32_mod
    → rr.index < u32_mod
    → (b : Backend) × (get_elem? rr.backends (rr.index % length rr.backends) ≡ some b)
      × ((select rr).1 ≡ (if b.healthy then some b else none))
      × ((select rr).0 ≡ record rr { index = (rr.index + 1) % u32_mod })
unfolding select
select_lem rr some_backend short word =
    let (b, at) = get_elem?-some rr.backends (rr.index % length rr.backends) (grind arith) in
    let old : (u32 (rr.index + 1) + u32_mod - 1) % u32_mod ≡ rr.index = omega arith in
    let len : u32 (length rr.backends) ≡ length rr.backends = omega arith in
    (b, at, ground (arith, some_backend, old, len, at), ground (arith, some_backend))

-- Every backend is healthy.
abbrev AllHealthy : List Backend → Type 0
AllHealthy [] = Unit
AllHealthy (b ∷ bs) = (b.healthy ≡ true) × AllHealthy bs

healthy_at :
    (bs : List Backend) (i : ℕ) (b : Backend)
    → AllHealthy bs
    → get_elem? bs i ≡ some b
    → b.healthy ≡ true
healthy_at [] i b h e = absurd (cc)
healthy_at (c ∷ bs) zero b h e = let same : c ≡ b = cc in rw (← same) h.0
healthy_at (c ∷ bs) (suc i) b h e = healthy_at bs i b h.1 e

-- The backends that a number of `Select` calls return.
unfoldable pub selects : ℕ → RoundRobin → List (Option Backend)
selects zero rr = []
selects (suc n) rr = let (rr', chosen) = select rr in chosen ∷ selects n rr'

-- The places in turn, from the counter on.
unfoldable pub in_turn : ℕ → List Backend → ℕ → List (Option Backend)
in_turn zero bs i = []
in_turn (suc n) bs i = get_elem? bs (i % length bs) ∷ in_turn n bs (i + 1)

-- While every backend is healthy and the counter does not wrap, `Select` takes the backends in
-- turn, none left out and none twice in a round.
pub selects-in_turn :
    (n : ℕ) (rr : RoundRobin)
    → 0 < length rr.backends
    → length rr.backends < u32_mod
    → rr.index + n < u32_mod
    → AllHealthy rr.backends
    → selects n rr ≡ in_turn n rr.backends rr.index
unfolding selects in_turn
selects-in_turn zero rr some_backend short room h = refl
selects-in_turn (suc n) rr some_backend short room h =
    let (b, at, chosen, moved) = select_lem rr some_backend short (omega arith) in
    let well = healthy_at rr.backends (rr.index % length rr.backends) b h at in
    let first : (select rr).1 ≡ get_elem? rr.backends (rr.index % length rr.backends) =
      ground (arith, chosen, well, at) in
    let next : (rr.index + 1) % u32_mod ≡ rr.index + 1 = omega arith in
    let later : selects n (select rr).0 ≡ in_turn n rr.backends (rr.index + 1) =
      rw (moved, next)
        (selects-in_turn n (record rr { index = rr.index + 1 }) some_backend short (omega arith)
          h) in
    ap₂ (λ c cs. c ∷ cs) first later

if_healthy-found :
    (bs : List Backend) (i : ℕ) (b : Backend)
    → if_healthy (get_elem? bs i) ≡ some b
    → (b.healthy ≡ true) × (has_addr bs b.addr ≡ true)
unfolding has_addr
if_healthy-found [] i b e = absurd (cc)
if_healthy-found (c ∷ bs) zero b e = elim (Bool-cases c.healthy) [
  | inl well ↦
      let same : c ≡ b = let g = rw well at e in cc in
      (rw (← same) well, rw same (found_first bs b))
  | inr ill ↦ absurd (let g = rw ill at e in cc)
]
if_healthy-found (c ∷ bs) (suc i) b e =
    let (healthy, known) = if_healthy-found bs i b e in (healthy, ground (arith, known))

-- What is selected is healthy and registered, and the backends stay as they are.
pub select-healthy :
    (rr : RoundRobin)
    → ((select rr).0.backends ≡ rr.backends)
      × ((b : Backend)
          → (select rr).1 ≡ some b
          → (b.healthy ≡ true) × (has_addr rr.backends b.addr ≡ true))
unfolding select
select-healthy rr = elim (Bool-cases (eqb (length rr.backends) 0)) [
  | inl e ↦ (rw (e), λ b f. let g = rw e at f in absurd (cc))
  | inr n ↦ (rw (n), λ b f. if_healthy-found rr.backends _ b (rw n at f))
]
