-- ===== src/Auth/Sessions.antt =====
-- server/webbou/auth.go, `SessionManager` and its tokens. The random bytes that the operating system
-- gives, or its refusal, are arguments; so is base64.URLEncoding.
pub mod Expiry
pub mod Traces
use web_bou.Prelude.{
  string_eq, ℕ, Bool, true, false, not, Option, none, some, List, [], ◌∷◌, String, ltb, length,
  if◌then◌else◌,
}
use web_bou.Prelude.Maps.{Map, get, put, delete, keep}
use web_bou.Prelude.Clock.{Time, Duration, elapsed}
use web_bou.Encoding.{Bytes}

pub record AuthSession : Type 0 where
  pub id : String
  pub token : String
  pub public_key : Bytes
  pub shared_secret : Bytes
  pub created_at : Time
  pub last_activity : Time
  pub authenticated : Bool

pub record SessionManager : Type 0 where
  pub sessions : Map String AuthSession
  pub timeout : Duration

pub data SessionError : Type 0 where
  rand_failed session_not_found session_expired : SessionError

pub data Result {ℓ} (A : Type ℓ) : Type ℓ where
  ok : A → Result A
  err : SessionError → Result A

unfoldable pub new_session_manager : Duration → SessionManager
new_session_manager timeout = record { sessions = []; timeout = timeout }

-- rand.Read gave these bytes, or failed.
unfoldable pub generate_secure_token : (Bytes → String) → Option Bytes → Result String
generate_secure_token encode none = err rand_failed
generate_secure_token encode (some bytes) = ok (encode bytes)

abbrev store_session :
    SessionManager → Bytes → Time → String → Result String → SessionManager × Result AuthSession
store_session sm public_key now session_id (err e) = (sm, err e)
store_session sm public_key now session_id (ok token) =
    let session : AuthSession = record {
      id = session_id;
      token = token;
      public_key = public_key;
      shared_secret = [];
      created_at = now;
      last_activity = now;
      authenticated = false;
    } in
    (record sm { sessions = put session_id session sm.sessions }, ok session)

abbrev with_id :
    SessionManager
    → Bytes
    → Time
    → Result String
    → Result String
    → SessionManager × Result AuthSession
with_id sm public_key now (err e) token = (sm, err e)
with_id sm public_key now (ok session_id) token = store_session sm public_key now session_id token

-- The two `time.Now()` of the literal are taken as one.
unfoldable pub create_session :
    (Bytes → String)
    → SessionManager
    → Bytes
    → Option Bytes
    → Option Bytes
    → Time
    → SessionManager × Result AuthSession
create_session encode sm public_key id_bytes token_bytes now =
    with_id sm public_key now (generate_secure_token encode id_bytes)
      (generate_secure_token encode token_bytes)

unfoldable pub delete_session : SessionManager → String → SessionManager
delete_session sm session_id = record sm { sessions = delete session_id sm.sessions }

abbrev is_expired : Duration → Time → AuthSession → Bool
is_expired timeout now session = ltb timeout (elapsed now session.last_activity)

unfoldable pub get_session : SessionManager → String → Time → SessionManager × Result AuthSession
get_session sm session_id now = elim (get session_id sm.sessions) [
  | none ↦ (sm, err session_not_found)
  | some session ↦
      if is_expired sm.timeout now session
      then (delete_session sm session_id, err session_expired)
      else (sm, ok session)
]

-- Rewrites a stored session, or reports that there is none.
abbrev with_session :
    SessionManager
    → String
    → (AuthSession → AuthSession)
    → Option AuthSession
    → SessionManager × Option SessionError
with_session sm session_id change none = (sm, some session_not_found)
with_session sm session_id change (some session) =
    (record sm { sessions = put session_id (change session) sm.sessions }, none)

unfoldable update_activity : SessionManager → String → Time → SessionManager × Option SessionError
update_activity sm session_id now =
    with_session sm session_id (λ session. record session { last_activity = now })
      (get session_id sm.sessions)

unfoldable pub authenticate_session :
    SessionManager → String → Bytes → Time → SessionManager × Option SessionError
authenticate_session sm session_id shared_secret now =
    with_session sm session_id
      (λ session. record session {
        shared_secret = shared_secret;
        authenticated = true;
        last_activity = now;
      })
      (get session_id sm.sessions)

-- One tick of the goroutine `cleanupExpired`.
unfoldable pub cleanup_expired : SessionManager → Time → SessionManager
cleanup_expired sm now = record sm {
  sessions = keep (λ session. not (is_expired sm.timeout now session)) sm.sessions;
}

unfoldable get_session_count : SessionManager → ℕ
get_session_count sm = length sm.sessions
