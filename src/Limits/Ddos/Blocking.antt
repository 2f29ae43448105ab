-- ===== src/Limits/Ddos/Blocking.antt =====
-- server/webbou/pool.go, `DDOSProtector.Allow`: what happens at the limit.
use web_bou.Prelude.{
  string_eq, ℕ, ◌+◌, ◌*◌, ◌≤◌, ◌<◌, ◌≡◌, refl, ◌∙◌, Bool, true, false, Option, none, some, String,
  ltb, arith,
}
use web_bou.Prelude.Maps.{get, put, delete, get-put_self}
use web_bou.Prelude.Clock.{Time, minute}
use web_bou.Prelude.Lock.{free, Locked, ◌>>◌, pure}
use web_bou.Limits.Float.{Float64}
use web_bou.Limits.RateLimiter
use web_bou.Limits.Ddos.{
  DdosProtector, RequestCounter, block_ip, is_blocked_at, counter_of, counted, count_request,
  ask_limiter, allow,
}

module _ (fl : Float64) where
  -- The count that this request brings its IP to.
  abbrev pub next_count : DdosProtector fl → String → Time → ℕ
  next_count ddos ip now = (counted fl ddos (counter_of fl (get ip ddos.request_counts)) now).count

  count_request_over :
      (ip : String) (now : Time) (ddos : DdosProtector fl)
      → ddos.max_requests_per_window < next_count ddos ip now
      → count_request fl ip now free ddos ≡ none
  unfolding count_request block_ip
  count_request_over ip now ddos over =
      let full : ltb ddos.max_requests_per_window (next_count ddos ip now) ≡ true = ground arith in
      rw full

  count_request_within :
      (ip : String) (now : Time) (ddos : DdosProtector fl)
      → next_count ddos ip now ≤ ddos.max_requests_per_window
      → count_request fl ip now free ddos
        ≡ some (
          true,
          free,
          record ddos {
            request_counts =
                put ip
                  (counted fl ddos (counter_of fl (get ip ddos.request_counts)) now)
                  ddos.request_counts;
          },
        )
  unfolding count_request
  count_request_within ip now ddos within =
      let room : ltb ddos.max_requests_per_window (next_count ddos ip now) ≡ false = ground arith in
      rw room

  -- The part of `Allow` that follows the test of the block.
  abbrev then_count : Bool → String → Time → Locked (DdosProtector fl) Bool
  then_count true ip now = count_request fl ip now
  then_count false ip now = do block_ip fl ip (5 * minute) now; pure false

  -- What is left of a block that is over.
  abbrev cleared : Option Time → String → DdosProtector fl → DdosProtector fl
  cleared none ip ddos = ddos
  cleared (some blocked) ip ddos = record ddos { blocked_ips = delete ip ddos.blocked_ips }

  abbrev asked : Time → DdosProtector fl → DdosProtector fl
  asked now ddos = record ddos { limiter = (RateLimiter.allow fl ddos.limiter now).0 }

  allow_from :
      (ip : String) (now : Time) (ddos : DdosProtector fl) (o : Option Time) (fine : Bool)
      → get ip ddos.blocked_ips ≡ o
      → is_blocked_at fl o now ≡ false
      → (RateLimiter.allow fl ddos.limiter now).1 ≡ fine
      → allow fl ip now free ddos ≡ then_count fine ip now free (asked now (cleared o ip ddos))
  unfolding allow ask_limiter
  allow_from ip now ddos none true e b f = rw (e, f)
  allow_from ip now ddos none false e b f = rw (e, f)
  allow_from ip now ddos (some blocked) true e b f = rw (e, b, f)
  allow_from ip now ddos (some blocked) false e b f = rw (e, b, f)

  cleared_keeps_counts :
      (o : Option Time) (ip : String) (ddos : DdosProtector fl)
      → (cleared o ip ddos).request_counts ≡ ddos.request_counts
  cleared_keeps_counts none ip ddos = refl
  cleared_keeps_counts (some blocked) ip ddos = refl

  cleared_keeps_rest :
      (o : Option Time) (ip : String) (now : Time) (ddos : DdosProtector fl)
      → (next_count (asked now (cleared o ip ddos)) ip now ≡ next_count ddos ip now)
        × ((asked now (cleared o ip ddos)).max_requests_per_window ≡ ddos.max_requests_per_window)
  cleared_keeps_rest none ip now ddos = (refl, refl)
  cleared_keeps_rest (some blocked) ip now ddos = (refl, refl)

  -- While the IP's block lasts, `Allow` refuses at once and changes nothing.
  allow_blocked :
      (ip : String) (now : Time) (ddos : DdosProtector fl)
      → is_blocked_at fl (get ip ddos.blocked_ips) now ≡ true
      → allow fl ip now free ddos ≡ some (false, free, ddos)
  unfolding allow
  allow_blocked ip now ddos b = rw b

  module _ (ip : String) (now : Time) (ddos : DdosProtector fl)
      (open_to : is_blocked_at fl (get ip ddos.blocked_ips) now ≡ false) where
    -- An IP that is not blocked and whose request passes the global bucket: a request within the
    -- window's limit is allowed and counted.
    allow_within :
        (RateLimiter.allow fl ddos.limiter now).1 ≡ true
        → next_count ddos ip now ≤ ddos.max_requests_per_window
        → (ddos' : DdosProtector fl) × (allow fl ip now free ddos ≡ some (true, free, ddos'))
          × ((c : RequestCounter) × (get ip ddos'.request_counts ≡ some c)
              × (c.count ≡ next_count ddos ip now))
    allow_within fine within =
        let start = asked now (cleared (get ip ddos.blocked_ips) ip ddos) in
        let (count, limit) = cleared_keeps_rest (get ip ddos.blocked_ips) ip now ddos in
        let counter = counted fl start (counter_of fl (get ip start.request_counts)) now in
        (
          record start { request_counts = put ip counter start.request_counts },
          allow_from ip now ddos (get ip ddos.blocked_ips) true refl open_to fine
              ∙ count_request_within ip now start (omega (arith, count, limit, within)),
          (counter, get-put_self ip counter start.request_counts, count),
        )

    -- An IP that is not blocked and whose request passes the global bucket, but goes beyond the
    -- window's limit: `Allow` calls `BlockIP` under the lock that this asks for, and waits forever.
    pub allow_over :
        (RateLimiter.allow fl ddos.limiter now).1 ≡ true
        → ddos.max_requests_per_window < next_count ddos ip now
        → allow fl ip now free ddos ≡ none
    allow_over fine over =
        let start = asked now (cleared (get ip ddos.blocked_ips) ip ddos) in
        let (count, limit) = cleared_keeps_rest (get ip ddos.blocked_ips) ip now ddos in
        allow_from ip now ddos (get ip ddos.blocked_ips) true refl open_to fine
        ∙ count_request_over ip now start (omega (arith, count, limit, over))

    -- An IP that is not blocked and whose request finds the global bucket empty is refused, and is
    -- blocked for the five minutes that follow.
    allow_limited :
        (RateLimiter.allow fl ddos.limiter now).1 ≡ false
        → (ddos' : DdosProtector fl) × (allow fl ip now free ddos ≡ some (false, free, ddos'))
          × ((later : Time)
              → later < now + 5 * minute
              → is_blocked_at fl (get ip ddos'.blocked_ips) later ≡ true)
    unfolding block_ip
    allow_limited refused =
        let start = asked now (cleared (get ip ddos.blocked_ips) ip ddos) in
        (
          record start { blocked_ips = put ip (now + 5 * minute) start.blocked_ips },
          allow_from ip now ddos (get ip ddos.blocked_ips) false refl open_to refused,
          λ later h. rw (get-put_self ip (now + 5 * minute) start.blocked_ips) (ground arith),
        )
