-- ===== src/Balancer.antt =====
-- server/webbou/loadbalancer.go: backends and the two strategies that choose among them. A method
-- that changes a backend through its pointer is a function on the backend.
pub mod RoundRobin
pub mod LeastConnections
pub mod Registry
pub mod Interface
pub mod Discovery
use web_bou.Prelude.{
  string_eq, ℕ, ◌+◌, Bool, true, false, Option, none, some, List, [], ◌∷◌, ◌++◌, String, ◌==◌, ltb,
  if◌then◌else◌,
}
use web_bou.Prelude.Int.{ℤ}
use web_bou.Prelude.Clock.{Time, Duration}

pub record Backend : Type 0 where
  pub addr : String
  pub weight : ℕ
  pub max_conns : ℤ
  pub active_conns : ℤ  -- int64
  pub failed_reqs : ℕ  -- int64, counted up from 0
  pub last_error : Time
  pub latency : Duration
  pub healthy : Bool

-- The search of `Register`: is there a backend with this address?
unfoldable pub has_addr : List Backend → String → Bool
has_addr [] addr = false
has_addr (b ∷ rest) addr = let later = has_addr rest addr in if b.addr == addr then true else later

-- `Register`, the same for both strategies.
unfoldable register : List Backend → Backend → List Backend
register backends backend =
    if has_addr backends backend.addr
    then backends
    else backends ++ record backend { healthy = true } ∷ []

-- `Unregister`, the same for both strategies: the first backend with the address goes.
unfoldable unregister : List Backend → String → List Backend
unregister [] addr = []
unregister (b ∷ rest) addr =
    let later = unregister rest addr in if b.addr == addr then rest else b ∷ later

unfoldable record_success : Backend → Duration → Backend
record_success b latency = record b { failed_reqs = 0; latency = latency; healthy = true }

unfoldable record_failure : Backend → Time → Backend
record_failure b now =
    let failed = record b { failed_reqs = b.failed_reqs + 1; last_error = now } in
    if ltb 5 failed.failed_reqs then record failed { healthy = false } else failed
