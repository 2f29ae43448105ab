-- ===== src/Limits/RateLimiter.antt =====
-- server/webbou/ratelimit.go, `RateLimiter`: a token bucket for all requests, and one for each IP.
-- The readings of the clock are arguments.
pub mod Buckets
use web_bou.Prelude.{
  string_eq, ℕ, ◌*◌, Bool, true, false, not, Option, none, some, List, [], ◌∷◌, String, ltb,
  if◌then◌else◌,
}
use web_bou.Prelude.Maps.{Map, get, put, keep}
use web_bou.Prelude.Clock.{Time, elapsed, minute}
use web_bou.Limits.Float.{Float64}

module _ (fl : Float64) where
  open fl use {F, add, sub, mul, div, lt, le, of_nat, seconds}

  pub record IpRateLimiter : Type 0 where
    pub tokens : F
    pub last_access : Time

  pub record RateLimiter : Type 0 where
    pub tokens : F
    pub max_tokens : F
    pub refill_rate : F
    pub last_refill : Time
    pub per_ip_limiters : Map String IpRateLimiter

  unfoldable pub new_rate_limiter : F → F → Time → RateLimiter
  new_rate_limiter max_tokens refill_rate now = record {
    tokens = max_tokens;
    max_tokens = max_tokens;
    refill_rate = refill_rate;
    last_refill = now;
    per_ip_limiters = [];
  }

  -- `if tokens > cap { tokens = cap }`
  abbrev capped : F → F → F
  capped cap tokens = if lt cap tokens then cap else tokens

  -- The times that a process reads from Go's monotonic clock do not go back, so what has elapsed is not
  -- negative.
  unfoldable pub refill : RateLimiter → Time → RateLimiter
  refill rl now = record rl {
    tokens =
        capped rl.max_tokens
          (add rl.tokens (mul (seconds (elapsed now rl.last_refill)) rl.refill_rate));
    last_refill = now;
  }

  -- What `Allow` and `AllowN` do after the refill.
  abbrev take_tokens : RateLimiter → F → RateLimiter × Bool
  take_tokens rl n =
      if le n rl.tokens then (record rl { tokens = sub rl.tokens n }, true) else (rl, false)

  unfoldable pub allow : RateLimiter → Time → RateLimiter × Bool
  allow rl now = take_tokens (refill rl now) (of_nat 1)

  unfoldable allow_n : RateLimiter → F → Time → RateLimiter × Bool
  allow_n rl n now = take_tokens (refill rl now) n

  abbrev ip_cap : RateLimiter → F
  ip_cap rl = div rl.max_tokens (of_nat 10)

  -- The bucket of an IP that is asked for, filled as a new one is if it is not there.
  abbrev ip_bucket : RateLimiter → Option IpRateLimiter → Time → IpRateLimiter
  ip_bucket rl none now = record { tokens = ip_cap rl; last_access = now }
  ip_bucket rl (some limiter) now = limiter

  abbrev refill_ip : RateLimiter → IpRateLimiter → Time → Time → IpRateLimiter
  refill_ip rl limiter since now = record {
    tokens = capped (ip_cap rl) (
        add limiter.tokens
          (mul (seconds (elapsed since limiter.last_access)) (div rl.refill_rate (of_nat 10))));
    last_access = now;
  }

  abbrev take_ip : RateLimiter → String → IpRateLimiter → RateLimiter × Bool
  take_ip rl ip limiter =
      if le (of_nat 1) limiter.tokens
      then (
        record rl {
          per_ip_limiters =
              put ip (record limiter { tokens = sub limiter.tokens (of_nat 1) }) rl.per_ip_limiters;
        },
        true,
      )
      else (record rl { per_ip_limiters = put ip limiter rl.per_ip_limiters }, false)

  -- The three readings of the clock: at the creation of a bucket, for the time elapsed, and for the
  -- last access.
  pub allow_ip : RateLimiter → String → Time → Time → Time → RateLimiter × Bool
  allow_ip rl ip created since now =
      let limiter = ip_bucket rl (get ip rl.per_ip_limiters) created in
      take_ip rl ip (refill_ip rl limiter since now)

  -- One tick of the goroutine `cleanup`.
  unfoldable pub cleanup : RateLimiter → Time → RateLimiter
  cleanup rl now = record rl {
    per_ip_limiters =
        keep (λ limiter. not (ltb (5 * minute) (elapsed now limiter.last_access)))
          rl.per_ip_limiters;
  }

  unfoldable get_tokens : RateLimiter → F
  get_tokens rl = rl.tokens
