-- ===== src/Limits/Connections.antt =====
-- server/webbou/ratelimit.go, `ConnectionRateLimiter`. `maxPerIP` is not negative; the counts, which
-- are int in the source, are never negative, since they are counted down only from above 0.
use web_bou.Prelude.{
  string_eq, ℕ, ◌+◌, ◌-◌, ◌≤◌, ◌<◌, ◌≡◌, refl, Bool, true, false, Option, none, some, List, [], ◌∷◌,
  String, ltb, leb, eqb, if◌then◌else◌, arith, ◌==◌,
}
use text.Mathlib.TextEquality.{eq_iff}
use web_bou.Prelude.Maps.{Map, get, put, delete, get-put, get-delete}

pub record ConnectionRateLimiter : Type 0 where
  pub connections : Map String ℕ
  pub max_per_ip : ℕ

unfoldable pub new_connection_rate_limiter : ℕ → ConnectionRateLimiter
new_connection_rate_limiter max_per_ip = record { connections = []; max_per_ip = max_per_ip }

-- Go reads a missing key as 0.
abbrev or_zero : Option ℕ → ℕ
or_zero none = 0
or_zero (some n) = n

unfoldable pub get_connection_count : ConnectionRateLimiter → String → ℕ
get_connection_count crl ip = or_zero (get ip crl.connections)

unfoldable pub allow_connection : ConnectionRateLimiter → String → ConnectionRateLimiter × Bool
allow_connection crl ip =
    let count = or_zero (get ip crl.connections) in
    if leb crl.max_per_ip count
    then (crl, false)
    else (record crl { connections = put ip (count + 1) crl.connections }, true)

unfoldable pub release_connection : ConnectionRateLimiter → String → ConnectionRateLimiter
release_connection crl ip =
    let count = or_zero (get ip crl.connections) in
    if ltb 0 count
    then (let less = put ip (count - 1) crl.connections in
        if eqb (count - 1) 0
        then record crl { connections = delete ip less }
        else record crl { connections = less })
    else crl

-- What a successful `AllowConnection` and a `ReleaseConnection` do to every IP's count.
pub count-allow :
    (crl : ConnectionRateLimiter) (ip j : String)
    → (allow_connection crl ip).1 ≡ true
    → get_connection_count (allow_connection crl ip).0 j
      ≡ (if ip == j then get_connection_count crl ip + 1 else get_connection_count crl j)
unfolding get_connection_count allow_connection
count-allow crl ip j h =
    ground (arith, h, get-put ip j (or_zero (get ip crl.connections) + 1) crl.connections)

pub count-refused :
    (crl : ConnectionRateLimiter) (ip j : String)
    → (allow_connection crl ip).1 ≡ false
    → get_connection_count (allow_connection crl ip).0 j ≡ get_connection_count crl j
unfolding allow_connection
count-refused crl ip j h = ground (arith, h)

pub count-release :
    (crl : ConnectionRateLimiter) (ip j : String)
    → get_connection_count (release_connection crl ip) j
      ≡ (if ip == j then get_connection_count crl ip - 1 else get_connection_count crl j)
unfolding get_connection_count release_connection
count-release crl ip j =
    let n = or_zero (get ip crl.connections) in
    ground (
      arith,
      get-put ip j (n - 1) crl.connections,
      get-delete ip j (put ip (n - 1) crl.connections),
      eq_iff ip j,
    )

pub allow_below :
    (crl : ConnectionRateLimiter) (ip : String)
    → (allow_connection crl ip).1 ≡ true
    → get_connection_count crl ip < crl.max_per_ip
unfolding allow_connection get_connection_count
allow_below crl ip h = ground (arith, h)

-- Neither call changes the limit.
pub max_per_ip-allow :
    (crl : ConnectionRateLimiter) (ip : String)
    → (allow_connection crl ip).0.max_per_ip ≡ crl.max_per_ip
unfolding allow_connection
max_per_ip-allow crl ip = ground arith

pub max_per_ip-release :
    (crl : ConnectionRateLimiter) (ip : String)
    → (release_connection crl ip).max_per_ip ≡ crl.max_per_ip
unfolding release_connection
max_per_ip-release crl ip = ground arith

-- `ReleaseConnection` undoes a successful `AllowConnection`: every IP has the count that it had.
pub release-allow :
    (crl : ConnectionRateLimiter) (ip j : String)
    → (allow_connection crl ip).1 ≡ true
    → get_connection_count (release_connection (allow_connection crl ip).0 ip) j
      ≡ get_connection_count crl j
release-allow crl ip j h = ground (
  arith,
  count-allow crl ip j h,
  count-allow crl ip ip h,
  count-release (allow_connection crl ip).0 ip j,
  eq_iff ip j,
  eq_iff ip ip,
)

pub data Call : Type 0 where
  allow_call : String → Call
  release_call : String → Call

unfoldable step : ConnectionRateLimiter → Call → ConnectionRateLimiter
step crl (allow_call ip) = (allow_connection crl ip).0
step crl (release_call ip) = release_connection crl ip

unfoldable pub run : ConnectionRateLimiter → List Call → ConnectionRateLimiter
unfolding step
run crl [] = crl
run crl (c ∷ cs) = run (step crl c) cs

-- The limit is fixed and no count passes it.
record IsWithin (limit : ℕ) (crl : ConnectionRateLimiter) : Type 0 where
  fixed : crl.max_per_ip ≡ limit
  counts : (ip : String) → get_connection_count crl ip ≤ limit

step-IsWithin :
    (limit : ℕ) (crl : ConnectionRateLimiter) (c : Call)
    → IsWithin limit crl
    → IsWithin limit (step crl c)
unfolding step get_connection_count allow_connection release_connection
step-IsWithin limit crl (allow_call ip) w = record {
  fixed = ground (arith, w.fixed);
  counts = λ j. ground (
    arith,
    w.fixed,
    w.counts j,
    get-put ip j (or_zero (get ip crl.connections) + 1) crl.connections,
  );
}
step-IsWithin limit crl (release_call ip) w = record {
  fixed = ground (arith, w.fixed);
  counts = λ j.
      unfold get_connection_count in
      (let e = count-release crl ip j in ground (arith, e, w.counts j, w.counts ip));
}

run-IsWithin :
    (limit : ℕ) (cs : List Call) (crl : ConnectionRateLimiter)
    → IsWithin limit crl
    → IsWithin limit (run crl cs)
unfolding run
run-IsWithin limit [] crl w = w
run-IsWithin limit (c ∷ cs) crl w = run-IsWithin limit cs (step crl c) (step-IsWithin limit crl c w)

-- Over any sequence of calls, releases with no connection included, no IP ever has more connections
-- than the limit.
pub run_limit :
    (limit : ℕ) (cs : List Call) (ip : String)
    → get_connection_count (run (new_connection_rate_limiter limit) cs) ip ≤ limit
unfolding new_connection_rate_limiter get_connection_count get
run_limit limit cs ip =
    (run-IsWithin limit cs (new_connection_rate_limiter limit)
        (record { fixed = refl; counts = λ j. omega arith })).counts
      ip
