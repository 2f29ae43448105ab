-- ===== src/Examples/LimitRuns.antt =====
-- Tests of server/webbou/ratelimit.go and of the limits in server/webbou/pool.go.
use web_bou.Prelude.{string_eq, ℕ, ◌<◌, ◌≡◌, refl, true, false, none, List, [], ◌∷◌, arith}
use web_bou.Prelude.Maps.{get}
use web_bou.Prelude.Lock.{free}
use web_bou.Limits.Float.{whole}
use web_bou.Limits.RateLimiter
use web_bou.Limits.RateLimiter.{new_rate_limiter, refill}
use web_bou.Limits.RateLimiter.Buckets
use web_bou.Limits.RateLimiter.Buckets.{IsFilled, run-IsFilled}
use web_bou.Limits.Connections
use web_bou.Limits.Connections.{new_connection_rate_limiter, get_connection_count, run_limit}
use web_bou.Limits.Ddos.{DdosProtector, is_blocked_at, allow}
use web_bou.Limits.Ddos.Blocking.{next_count, allow_over}

abbrev requests : List (Buckets.Call whole)
requests =
    Buckets.allow_ip_call "10.0.0.1" 10 20 30
    ∷ Buckets.allow_n_call 7 40
    ∷ Buckets.sweep 50
    ∷ Buckets.allow_call 60
    ∷ []

run-IsFilled_example : IsFilled whole (Buckets.run whole (new_rate_limiter whole 100 5 1) requests)
run-IsFilled_example = run-IsFilled whole 100 5 1 requests (tt, (ground arith, (tt, (tt, tt))))

abbrev connections : List Connections.Call
connections =
    Connections.release_call "10.0.0.1"
    ∷ Connections.allow_call "10.0.0.1"
    ∷ Connections.allow_call "10.0.0.1"
    ∷ []

abbrev guarded : ℕ → DdosProtector whole
guarded tokens = record {
  max_requests_per_window = 2;
  window_size = 1000;
  request_counts = ("10.0.0.1", record { count = 2; window_start = 50 }) ∷ [];
  blocked_ips = [];
  limiter = record {
    tokens = tokens;
    max_tokens = 10;
    refill_rate = 1;
    last_refill = 60;
    per_ip_limiters = [];
  };
}

not_blocked :
    (tokens : ℕ) → is_blocked_at whole (get "10.0.0.1" (guarded tokens).blocked_ips) 60 ≡ false
unfolding get
not_blocked tokens = refl

bucket_full : (RateLimiter.allow whole (guarded 5).limiter 60).1 ≡ true
unfolding RateLimiter.allow refill
bucket_full = refl

one_too_many : 2 < next_count whole (guarded 5) "10.0.0.1" 60
unfolding get
one_too_many = omega arith

allow_over_example : allow whole "10.0.0.1" 60 free (guarded 5) ≡ none
allow_over_example =
    allow_over whole "10.0.0.1" 60 (guarded 5) (not_blocked 5) bucket_full one_too_many
