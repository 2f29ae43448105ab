-- ===== src/Limits/Ddos.antt =====
-- server/webbou/pool.go, `DDOSProtector`: requests in a window for each IP, under a `sync.RWMutex`
-- that is modelled, since the methods call one another. The readings of the clock are arguments.
pub mod Blocking
use web_bou.Prelude.{
  string_eq, ℕ, ◌+◌, ◌*◌, Bool, true, false, not, Option, none, some, List, [], ◌∷◌, String, ltb,
  if◌then◌else◌,
}
use web_bou.Prelude.Maps.{Map, get, put, delete, keep}
use web_bou.Prelude.Clock.{Time, Duration, elapsed, minute, second}
use web_bou.Prelude.Lock.{Locked, ◌>>=◌, ◌>>◌, pure, read, write, rlock, runlock, lock, unlock}
use web_bou.Limits.Float.{Float64}
use web_bou.Limits.RateLimiter
use web_bou.Limits.RateLimiter.{RateLimiter}

pub record RequestCounter : Type 0 where
  pub count : ℕ
  pub window_start : Time

module _ (fl : Float64) where
  pub record DdosProtector : Type 0 where
    pub max_requests_per_window : ℕ
    pub window_size : Duration
    pub request_counts : Map String RequestCounter
    pub blocked_ips : Map String Time
    pub limiter : RateLimiter fl

  -- `windowSec` is a whole number of seconds; a negative one is outside the model.
  unfoldable pub new_ddos_protector : ℕ → ℕ → Time → DdosProtector
  new_ddos_protector max_req window_sec now = record {
    max_requests_per_window = max_req;
    window_size = window_sec * second;
    request_counts = [];
    blocked_ips = [];
    limiter =
        RateLimiter.new_rate_limiter fl (fl.of_nat max_req)
          (fl.div (fl.of_nat max_req) (fl.of_nat window_sec)) now;
  }

  unfoldable pub block_ip : String → Duration → Time → Locked DdosProtector (Unit {0})
  block_ip ip duration now = do
    lock
    ddos ← read
    write (record ddos { blocked_ips = put ip (now + duration) ddos.blocked_ips })
    unlock

  -- `IsBlocked` and the first lines of `Allow`: `time.Now().Before(blocked)`.
  abbrev pub is_blocked_at : Option Time → Time → Bool
  is_blocked_at none now = false
  is_blocked_at (some blocked) now = ltb now blocked

  abbrev unblock_expired : Option Time → String → Locked DdosProtector (Unit {0})
  unblock_expired none ip = pure tt
  unblock_expired (some blocked) ip = do
    ddos ← read
    write (record ddos { blocked_ips = delete ip ddos.blocked_ips })

  -- A new counter has the zero time, which is outside every window.
  abbrev counter_of : Option RequestCounter → RequestCounter
  counter_of none = record { count = 0; window_start = 0 }
  counter_of (some counter) = counter

  abbrev counted : DdosProtector → RequestCounter → Time → RequestCounter
  counted ddos counter now =
      if ltb ddos.window_size (elapsed now counter.window_start)
      then record { count = 1; window_start = now }
      else record counter { count = counter.count + 1 }

  -- From the write lock on.
  unfoldable pub count_request : String → Time → Locked DdosProtector Bool
  count_request ip now = do
    lock
    ddos ← read
    let counter = counted ddos (counter_of (get ip ddos.request_counts)) now
    write (record ddos { request_counts = put ip counter ddos.request_counts })
    if ltb ddos.max_requests_per_window counter.count
        then (do block_ip ip (10 * minute) now; unlock; pure false)
        else (do unlock; pure true)

  unfoldable pub ask_limiter : Time → Locked DdosProtector Bool
  ask_limiter now = do
    ddos ← read
    let answer = RateLimiter.allow fl ddos.limiter now
    write (record ddos { limiter = answer.0 })
    pure answer.1

  -- The clock is read once for the whole call.
  unfoldable pub allow : String → Time → Locked DdosProtector Bool
  allow ip now = do
    rlock
    ddos ← read
    if is_blocked_at (get ip ddos.blocked_ips) now then (do runlock; pure false) else (do
      unblock_expired (get ip ddos.blocked_ips) ip
      runlock
      fine ← ask_limiter now
      if fine then count_request ip now else (do block_ip ip (5 * minute) now; pure false))

  unfoldable unblock_ip : String → Locked DdosProtector (Unit {0})
  unblock_ip ip = do
    lock
    ddos ← read
    write (record ddos {
      blocked_ips = delete ip ddos.blocked_ips;
      request_counts = delete ip ddos.request_counts;
    })
    unlock

  -- One tick of the goroutine `cleanup`.
  unfoldable cleanup : Time → Locked DdosProtector (Unit {0})
  cleanup now = do
    lock
    ddos ← read
    write (record ddos {
      blocked_ips = keep (λ blocked. not (ltb blocked now)) ddos.blocked_ips;
      request_counts =
          keep (λ counter. not (ltb (5 * ddos.window_size) (elapsed now counter.window_start)))
            ddos.request_counts;
    })
    unlock

  unfoldable is_blocked : String → Time → Locked DdosProtector Bool
  is_blocked ip now = do
    rlock
    ddos ← read
    runlock
    pure (is_blocked_at (get ip ddos.blocked_ips) now)
