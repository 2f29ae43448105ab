-- ===== src/Security.antt =====
-- server/security.go: the tokens of the server program and its limiter of requests in a fixed window.
-- Every operation runs under the lock of the value it changes, and is one step here. The readings of the
-- clock and of `crypto/rand` are arguments; SHA-256 and base64 are parameters.
pub mod Tokens
pub mod Windows
pub mod Counters
use web_bou.Prelude.{
  string_eq, ℕ, ◌+◌, ◌*◌, Bool, true, false, not, Option, none, some, List, [], ◌∷◌, String, ltb,
  leb, if◌then◌else◌,
}
use web_bou.Prelude.Maps.{Map, get, put, keep}
use web_bou.Prelude.Clock.{Time, Duration, minute, hour}
use web_bou.Encoding.{Bytes}

pub record Token : Type 0 where
  pub value : String
  pub expires_at : Time
  pub session_id : String

pub record RequestCounter : Type 0 where
  pub count : ℕ
  pub reset_at : Time

pub record RateLimiter : Type 0 where
  pub requests : Map String RequestCounter
  pub max_requests : ℕ
  pub window : Duration

pub record SecurityManager : Type 0 where
  pub tokens : Map String Token
  pub rate_limiter : RateLimiter

unfoldable new_security_manager : SecurityManager
new_security_manager = record {
  tokens = [];
  rate_limiter = record { requests = []; max_requests = 1000; window = minute };
}

module _ (sum256 : Bytes → Bytes) (encode_to_string : Bytes → String) where
  -- A failed reading of random bytes is `none`; so is the error that it causes.
  unfoldable generate_token :
      SecurityManager → String → Option Bytes → Time → Option String × SecurityManager
  generate_token sm session_id none now = (none, sm)
  generate_token sm session_id (some token_bytes) now =
      let token_str = encode_to_string (sum256 token_bytes) in
      let token : Token = record {
        value = token_str;
        expires_at = now + 24 * hour;
        session_id = session_id;
      } in
      (some token_str, record sm { tokens = put token_str token sm.tokens })

abbrev is_before_expiry : Option Token → Time → Bool
is_before_expiry none now = false
is_before_expiry (some token) now = ltb now token.expires_at

unfoldable pub validate_token : SecurityManager → String → Time → Bool
validate_token sm token_str now = is_before_expiry (get token_str sm.tokens) now

-- One tick of the goroutine.
unfoldable cleanup_expired_tokens : SecurityManager → Time → SecurityManager
cleanup_expired_tokens sm now = record sm {
  tokens = keep (λ token. not (ltb token.expires_at now)) sm.tokens;
}

-- `!exists || now.After(counter.ResetAt)`
abbrev is_over : Option RequestCounter → Time → Bool
is_over none now = true
is_over (some counter) now = ltb counter.reset_at now

-- The counter read, where it exists.
abbrev counter_of : Option RequestCounter → RequestCounter
counter_of none = record { count = 0; reset_at = 0 }
counter_of (some counter) = counter

unfoldable allow : RateLimiter → String → Time → Bool × RateLimiter
allow rl client_id now =
    let counter = counter_of (get client_id rl.requests) in
    if is_over (get client_id rl.requests) now
    then (
      true,
      record rl {
        requests = put client_id (record { count = 1; reset_at = now + rl.window }) rl.requests;
      },
    )
    else if leb rl.max_requests counter.count
    then (false, rl)
    else (
      true,
      record rl {
        requests = put client_id (record counter { count = counter.count + 1 }) rl.requests;
      },
    )

unfoldable check_rate_limit : SecurityManager → String → Time → Bool × SecurityManager
check_rate_limit sm client_id now =
    let (allowed, rl) = allow sm.rate_limiter client_id now in
    (allowed, record sm { rate_limiter = rl })
