-- ===== src/Auth/ZeroRtt.antt =====
-- server/webbou/auth.go, `ZeroRTTManager`: pre-shared keys for early data. SHA-256 and the random
-- bytes are arguments; the order of the map's entries is that in which Go's `range` visits them.
pub mod Capacity
pub mod Concurrent
pub mod Dated
pub mod Keys
pub mod Traces
use web_bou.Prelude.{
  string_eq, ℕ, ◌+◌, ◌*◌, Bool, true, false, not, Option, none, some, List, [], ◌∷◌, String, ltb,
  leb, eqb, ◌&&◌, ◌||◌, ◌==◌, length, if◌then◌else◌,
}
use web_bou.Prelude.Maps.{Map, get, put, delete, keep}
use web_bou.Prelude.Clock.{Time, Duration, hour}
use web_bou.Encoding.{Bytes}

abbrev zero_rtt_lifetime : Duration
zero_rtt_lifetime = 24 * hour

abbrev pub max_zero_rtt_sessions : ℕ
max_zero_rtt_sessions = 1000

pub record ZeroRttSession : Type 0 where
  pub id : String
  pub psk : Bytes
  pub early_secret : Bytes
  pub created_at : Time
  pub expires_at : Time
  pub used : Bool
  pub resumed : Bool

-- `ZeroRTTManager`; its one field is the map.
abbrev Manager : Type 0
Manager = Map String ZeroRttSession

unfoldable pub new_zero_rtt_manager : Manager
new_zero_rtt_manager = []

-- The loop of `cleanupOldest`, over `oldestID` and `oldestTime`.
unfoldable oldest_from : String → Time → Manager → String
oldest_from oldest_id oldest_time [] = oldest_id
oldest_from oldest_id oldest_time ((id, session) ∷ rest) =
    let older = eqb oldest_time 0 || ltb session.created_at oldest_time in
    oldest_from (if older then id else oldest_id)
      (if older then session.created_at else oldest_time) rest

unfoldable cleanup_oldest : Manager → Manager
cleanup_oldest sessions =
    let oldest_id = oldest_from "" 0 sessions in
    if oldest_id == "" then sessions else delete oldest_id sessions

abbrev pub new_session : (Bytes → Bytes) → String → Bytes → Time → Bytes → ZeroRttSession
new_session sha256 identity secret now psk = record {
  id = identity;
  psk = psk;
  early_secret = sha256 secret;
  created_at = now;
  expires_at = now + zero_rtt_lifetime;
  used = false;
  resumed = false;
}

abbrev store_psk : (Bytes → Bytes) → Manager → String → Bytes → Time → Option Bytes → Manager × Bool
store_psk sha256 sessions identity secret now none = (sessions, false)
store_psk sha256 sessions identity secret now (some psk) =
    (put identity (new_session sha256 identity secret now psk) sessions, true)

-- The result is whether rand.Read gave the key, that is, whether no error is returned.
unfoldable create_psk :
    (Bytes → Bytes) → Manager → String → Bytes → Option Bytes → Time → Manager × Bool
create_psk sha256 sessions identity secret psk now =
    store_psk sha256
      (if leb max_zero_rtt_sessions (length sessions) then cleanup_oldest sessions else sessions)
      identity secret now psk

-- The comparison loop of `ValidatePSK`, over keys of one length.
unfoldable psk_equal : Bytes → Bytes → Bool
psk_equal (a ∷ as') (b ∷ bs) = let rest = psk_equal as' bs in if eqb a b then rest else false
psk_equal _ _ = true

abbrev check_psk : Manager → String → Bytes → Time → Option ZeroRttSession → Manager × Bool
check_psk sessions identity psk now none = (sessions, false)
check_psk sessions identity psk now (some session) =
    if ltb session.expires_at now
    then (delete identity sessions, false)
    else if not (eqb (length psk) (length session.psk))
    then (sessions, false)
    else if psk_equal psk session.psk
    then (put identity (record session { used = true; resumed = true }) sessions, true)
    else (sessions, false)

unfoldable validate_psk : Manager → String → Bytes → Time → Manager × Bool
validate_psk sessions identity psk now = check_psk sessions identity psk now (get identity sessions)

unfoldable get_early_secret : Manager → String → Time → Bytes × Bool
get_early_secret sessions identity now = elim (get identity sessions) [
  | none ↦ ([], false)
  | some session ↦
      if ltb session.expires_at now then ([], false) else (session.early_secret, not session.used)
]

unfoldable mark_used : Manager → String → Manager
mark_used sessions identity = elim (get identity sessions) [
  | none ↦ sessions
  | some session ↦ put identity (record session { used = true }) sessions
]

unfoldable is_available : Manager → String → Time → Bool
is_available sessions identity now = elim (get identity sessions) [
  | none ↦ false
  | some session ↦ not session.used && ltb now session.expires_at
]

unfoldable delete_psk : Manager → String → Manager
delete_psk sessions identity = delete identity sessions

-- One tick of the goroutine `cleanupExpired`.
unfoldable pub cleanup_expired : Manager → Time → Manager
cleanup_expired sessions now = keep (λ session. not (ltb session.expires_at now)) sessions
