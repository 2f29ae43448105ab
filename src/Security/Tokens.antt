-- ===== src/Security/Tokens.antt =====
-- server/security.go: which tokens are valid after any calls.
use web_bou.Prelude.{
  string_eq, ◌+◌, ◌*◌, ◌≤◌, ◌≡◌, refl, Bool, true, false, not, Option, none, some, List, [], ◌∷◌,
  All, String, ltb, if◌then◌else◌, arith, ◌==◌,
}
use web_bou.Prelude.Maps.{get, kept, get-put, get-keep}
use web_bou.Prelude.Clock.{Time, hour}
use web_bou.Encoding.{Bytes}
use web_bou.Security.{
  Token, SecurityManager, new_security_manager, generate_token, is_before_expiry, validate_token,
  cleanup_expired_tokens, check_rate_limit,
}

module _ (sum256 : Bytes → Bytes) (encode_to_string : Bytes → String) where
  pub data Call : Type 0 where
    generate : String → Option Bytes → Time → Call
    tick : Time → Call
    ask : String → Time → Call

  abbrev call : Call → SecurityManager → SecurityManager
  call (generate session_id random now) sm =
      (generate_token sum256 encode_to_string sm session_id random now).1
  call (tick now) sm = cleanup_expired_tokens sm now
  call (ask client_id now) sm = (check_rate_limit sm client_id now).1

  -- Newest call first.
  abbrev pub run : List Call → SecurityManager
  run [] = new_security_manager
  run (c ∷ cs) = call c (run cs)

  -- The time of the last call that generated a token.
  abbrev pub issued : String → List Call → Option Time
  issued token_str [] = none
  issued token_str (generate session_id none now ∷ cs) = issued token_str cs
  issued token_str (generate session_id (some token_bytes) now ∷ cs) =
      let before = issued token_str cs in
      if encode_to_string (sum256 token_bytes) == token_str then some now else before
  issued token_str (tick now ∷ cs) = issued token_str cs
  issued token_str (ask client_id now ∷ cs) = issued token_str cs

  abbrev pub within_day : Option Time → Time → Bool
  within_day none now = false
  within_day (some t) now = ltb now (t + 24 * hour)

  -- The sweeps are not later than the time.
  abbrev IsSweptBy : Time → Call → Type 0
  IsSweptBy now (generate session_id random t) = Unit
  IsSweptBy now (tick t) = t ≤ now
  IsSweptBy now (ask client_id t) = Unit

  kept-is_before_expiry :
      (o : Option Token) (t now : Time)
      → t ≤ now
      → is_before_expiry (kept (λ token. not (ltb token.expires_at t)) o) now
        ≡ is_before_expiry o now
  kept-is_before_expiry none t now h = refl
  kept-is_before_expiry (some token) t now h = ground arith

  stored-within_day :
      (b : Bool) (o : Option Token) (i : Option Time) (token : Token) (t now : Time)
      → token.expires_at ≡ t + 24 * hour
      → is_before_expiry o now ≡ within_day i now
      → is_before_expiry (if b then some token else o) now
        ≡ within_day (if b then some t else i) now
  stored-within_day true o i token t now e h = rw (e)
  stored-within_day false o i token t now e h = h

  -- A token is valid exactly if the last call that generated it is less than 24 hours ago: no sweep that
  -- is not later removes a valid one, and no other string is valid.
  pub validate_token-run :
      (token_str : String) (cs : List Call) (now : Time)
      → All (IsSweptBy now) cs
      → validate_token (run cs) token_str now ≡ within_day (issued token_str cs) now
  unfolding validate_token get new_security_manager generate_token cleanup_expired_tokens
      check_rate_limit
  validate_token-run s [] now h = refl
  validate_token-run s (generate session_id none t ∷ cs) now (_, h) = validate_token-run s cs now h
  validate_token-run s (generate session_id (some b) t ∷ cs) now (_, h) =
      let sm = run cs in
      let token_str = encode_to_string (sum256 b) in
      rw (
        get-put token_str s
            (record { value = token_str; expires_at = t + 24 * hour; session_id = session_id })
            sm.tokens,
        stored-within_day (token_str == s) (get s sm.tokens) (issued s cs)
            (record { value = token_str; expires_at = t + 24 * hour; session_id = session_id }) t
            now refl (validate_token-run s cs now h),
      )
  validate_token-run s (tick t ∷ cs) now (le, h) = rw (
    get-keep (λ (token : Token). not (ltb token.expires_at t)) s (run cs).tokens,
    kept-is_before_expiry (get s (run cs).tokens) t now le,
    validate_token-run s cs now h,
  )
  validate_token-run s (ask client_id t ∷ cs) now (_, h) = validate_token-run s cs now h
