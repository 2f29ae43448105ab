-- ===== src/Auth/Sessions/Expiry.antt =====
-- server/webbou/auth.go, `SessionManager`: what expires, and when.
use web_bou.Prelude.{
  string_eq, ◌≡◌, ◌≢◌, refl, not, Option, none, some, String, arith, if◌then◌else◌, inl, inr, ◌⊎◌,
}
use web_bou.Prelude.Maps.{get, kept, get-keep, get-delete_other, get-delete_self}
use web_bou.Prelude.Clock.{Time}
use web_bou.Auth.Sessions.{
  AuthSession, SessionManager, Result, ok, err, session_not_found, session_expired, get_session,
  is_expired, delete_session, cleanup_expired,
}

-- What `GetSession` answers, by what is stored.
abbrev looked_up : SessionManager → Time → Option AuthSession → Result AuthSession
looked_up sm now none = err session_not_found
looked_up sm now (some s) = if is_expired sm.timeout now s then err session_expired else ok s

looked_up_after :
    (sm : SessionManager) (now : Time) (o : Option AuthSession) (s : AuthSession)
    → looked_up sm now o ≡ ok s
    → looked_up sm now (kept (λ t. not (is_expired sm.timeout now t)) o) ≡ ok s
looked_up_after sm now none s e = absurd (cc)
looked_up_after sm now (some t) s e = ground (arith, e)

get_session-reply :
    (sm : SessionManager) (id : String) (now : Time)
    → (get_session sm id now).1 ≡ looked_up sm now (get id sm.sessions)
unfolding get_session
get_session-reply sm id now = ground arith

-- `GetSession` answers with the stored session exactly if it was active within the timeout, it
-- deletes a session that it finds expired, and it leaves every other session alone.
get_session_lem :
    (sm : SessionManager) (id : String) (now : Time)
    → ((get_session sm id now).1 ≡ looked_up sm now (get id sm.sessions))
      × ((get_session sm id now).1 ≡ err session_expired
          → get id (get_session sm id now).0.sessions ≡ none)
      × ((j : String) → id ≢ j → get j (get_session sm id now).0.sessions ≡ get j sm.sessions)
unfolding get_session delete_session
get_session_lem sm id now = (
  get_session-reply sm id now,
  ground (arith, get-delete_self id sm.sessions),
  λ j ne. ground (arith, get-delete_other id j sm.sessions ne),
)

cleanup_agrees :
    (sm : SessionManager) (now : Time) (o : Option AuthSession)
    → (looked_up sm now (kept (λ t. not (is_expired sm.timeout now t)) o) ≡ looked_up sm now o)
      ⊎ ((looked_up sm now o ≡ err session_expired)
          × (kept (λ t. not (is_expired sm.timeout now t)) o ≡ none))
cleanup_agrees sm now none = inl refl
cleanup_agrees sm now (some t) = ground arith

-- The sweep of expired sessions is invisible to `GetSession`: for every id it answers after the
-- sweep what it answered before, except that an expired session is now not found.
pub get_session-cleanup_expired :
    (sm : SessionManager) (id : String) (now : Time)
    → ((get_session (cleanup_expired sm now) id now).1 ≡ (get_session sm id now).1)
      ⊎ (((get_session sm id now).1 ≡ err session_expired)
          × ((get_session (cleanup_expired sm now) id now).1 ≡ err session_not_found))
unfolding cleanup_expired
get_session-cleanup_expired sm id now =
    let swept = cleanup_expired sm now in
    let found : get id swept.sessions
        ≡ kept (λ t. not (is_expired sm.timeout now t)) (get id sm.sessions) =
      get-keep (λ t. not (is_expired sm.timeout now t)) id sm.sessions in
    rw (get_session-reply swept id now, get_session-reply sm id now, found)
      (elim (cleanup_agrees sm now (get id sm.sessions)) [
        | inl same ↦ inl same
        | inr (gone, deleted) ↦ inr (gone, rw deleted)
      ])
