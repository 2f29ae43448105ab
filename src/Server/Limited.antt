-- ===== src/Server/Limited.antt =====
-- server/webbou/server.go with server/webbou/ratelimit.go: the server's rate limiter is the token
-- bucket of `RateLimiter`, together with the readings of the clock that it will make.
use web_bou.Prelude.{ℕ, ◌+◌, Bool, String}
use web_bou.Prelude.Clock.{Time}
use web_bou.Limits.Float.{Float64}
use web_bou.Limits.RateLimiter.{RateLimiter, allow_ip}
use web_bou.Server.Tcp.{Limiter}

-- The limiter, and how often the clock was read.
pub record Bucket (fl : Float64) : Type 0 where
  pub limiter : RateLimiter fl
  pub readings : ℕ

-- `AllowIP` reads the clock three times.
abbrev allow_bucket : (fl : Float64) → (ℕ → Time) → Bucket fl → String → Bucket fl × Bool
allow_bucket fl clock s ip =
    let n = s.readings in
    let (limiter', allowed) = allow_ip fl s.limiter ip (clock n) (clock (n + 1)) (clock (n + 2)) in
    (record { limiter = limiter'; readings = n + 3 }, allowed)

abbrev pub bucket_limiter : Float64 → (ℕ → Time) → Limiter
bucket_limiter fl clock = record { S = Bucket fl; allow_ip = allow_bucket fl clock }
