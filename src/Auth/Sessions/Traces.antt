-- ===== src/Auth/Sessions/Traces.antt =====
-- server/webbou/auth.go, `SessionManager`: what holds over any sequence of calls.
use web_bou.Prelude.{
  string_eq, ◌≡◌, refl, Bool, true, false, Option, none, some, List, [], ◌∷◌, String, arith,
  Bool-cases, inl, inr, ◌⊎◌, ◌==◌,
}
use text.Mathlib.TextEquality.{eq_iff}
use web_bou.Prelude.Maps.{Map, get, put, delete, kept, get-put, get-keep, get-delete}
use web_bou.Prelude.Clock.{Time, Duration}
use web_bou.Encoding.{Bytes}
use web_bou.Auth.Sessions.{
  AuthSession, SessionManager, Result, ok, err, get_session, delete_session, cleanup_expired,
  new_session_manager, create_session, update_activity, authenticate_session, generate_secure_token,
  with_id, with_session,
}

-- A call of one of the methods, and the tick of the sweep, with what the environment gives it.
pub data Call : Type 0 where
  create : Bytes → Option Bytes → Option Bytes → Time → Call
  fetch : String → Time → Call
  touch : String → Time → Call
  authenticate : String → Bytes → Time → Call
  remove : String → Call
  sweep : Time → Call

module _ (encode : Bytes → String) where
  unfoldable pub step : SessionManager → Call → SessionManager
  step sm (create key id token now) = (create_session encode sm key id token now).0
  step sm (fetch id now) = (get_session sm id now).0
  step sm (touch id now) = (update_activity sm id now).0
  step sm (authenticate id secret now) = (authenticate_session sm id secret now).0
  step sm (remove id) = delete_session sm id
  step sm (sweep now) = cleanup_expired sm now

  unfoldable pub run : SessionManager → List Call → SessionManager
  unfolding step
  run sm [] = sm
  run sm (c ∷ cs) = run (step sm c) cs

-- The flag of what is stored under an id.
abbrev is_authenticated : Option AuthSession → Bool
is_authenticated none = false
is_authenticated (some s) = s.authenticated

-- A call that authenticates this id.
abbrev Authenticates : String → Call → Type 0
Authenticates id (authenticate j secret now) = j ≡ id
Authenticates id _ = ⊥

-- The calls so far include one that authenticates this id.
pub data WasAuthenticated (id : String) : List Call → Type 0 where
  at_head : {c : Call} {cs : List Call} → Authenticates id c → WasAuthenticated id (c ∷ cs)
  in_tail : {c : Call} {cs : List Call} → WasAuthenticated id cs → WasAuthenticated id (c ∷ cs)

-- A write keeps the flags down, unless it raises that of its own id.
put_keeps :
    (j id : String) (v : AuthSession) (m : Map String AuthSession)
    → (j ≡ id → v.authenticated ≡ true → is_authenticated (get id m) ≡ true)
    → is_authenticated (get id (put j v m)) ≡ true
    → is_authenticated (get id m) ≡ true
put_keeps j id v m h k = elim (Bool-cases (j == id)) [
  | inl e ↦ h ((eq_iff j id).0 e) (rw (get-put j id v m, e) at k)
  | inr e ↦ rw (get-put j id v m, e) at k
]

kept_keeps :
    (p : AuthSession → Bool) (o : Option AuthSession)
    → is_authenticated (kept p o) ≡ true
    → is_authenticated o ≡ true
kept_keeps p none h = h
kept_keeps p (some s) h = ground (arith, h)

delete_keeps :
    (j id : String) (m : Map String AuthSession)
    → is_authenticated (get id (delete j m)) ≡ true
    → is_authenticated (get id m) ≡ true
delete_keeps j id m h = elim (Bool-cases (j == id)) [
  | inl e ↦ absurd (let f = rw (get-delete j id m, e) at h in cc f)
  | inr e ↦ rw (get-delete j id m, e) at h
]

create_keeps :
    (sm : SessionManager) (key : Bytes) (i t : Result String) (now : Time) (id : String)
    → is_authenticated (get id (with_id sm key now i t).0.sessions) ≡ true
    → is_authenticated (get id sm.sessions) ≡ true
create_keeps sm key (err e) t now id h = h
create_keeps sm key (ok j) (err e) now id h = h
create_keeps sm key (ok j) (ok t) now id h = put_keeps j id _ sm.sessions (λ _ f. absurd (cc)) h

-- A rewrite of a stored session keeps the flags down, unless it raises that of its own id.
with_session_keeps :
    (sm : SessionManager) (j id : String) (change : AuthSession → AuthSession)
    (o : Option AuthSession)
    → get j sm.sessions ≡ o
    → (j ≡ id → (s : AuthSession) → (change s).authenticated ≡ true → s.authenticated ≡ true)
    → is_authenticated (get id (with_session sm j change o).0.sessions) ≡ true
    → is_authenticated (get id sm.sessions) ≡ true
with_session_keeps sm j id change none e h k = k
with_session_keeps sm j id change (some s) e h k =
    put_keeps j id (change s) sm.sessions (λ same f. rw (← same, e) (h same s f)) k

fetch_keeps :
    (sm : SessionManager) (j id : String) (now : Time)
    → is_authenticated (get id (get_session sm j now).0.sessions) ≡ true
    → is_authenticated (get id sm.sessions) ≡ true
unfolding get_session delete_session
fetch_keeps sm j id now h = ground (arith, delete_keeps j id sm.sessions, h)

module _ (encode : Bytes → String) where
  step_authenticated :
      (sm : SessionManager) (c : Call) (id : String)
      → is_authenticated (get id (step encode sm c).sessions) ≡ true
      → Authenticates id c ⊎ (is_authenticated (get id sm.sessions) ≡ true)
  unfolding step create_session update_activity authenticate_session delete_session cleanup_expired
  step_authenticated sm (create key i t now) id h = inr (
      create_keeps sm key (generate_secure_token encode i) (generate_secure_token encode t) now id
        h)
  step_authenticated sm (fetch j now) id h = inr (fetch_keeps sm j id now h)
  step_authenticated sm (touch j now) id h =
      inr (with_session_keeps sm j id _ (get j sm.sessions) refl (λ _ s f. f) h)
  step_authenticated sm (authenticate j secret now) id h = elim (Bool-cases (j == id)) [
    | inl e ↦ inl ((eq_iff j id).0 e)
    | inr e ↦ inr (
        with_session_keeps sm j id _ (get j sm.sessions) refl
          (λ same. absurd (let t = (eq_iff j id).1 same in cc t)) h)
  ]
  step_authenticated sm (remove j) id h = inr (delete_keeps j id sm.sessions h)
  step_authenticated sm (sweep now) id h =
      inr (kept_keeps _ (get id sm.sessions) (rw get-keep at h))

  run_authenticated :
      (cs : List Call) (sm : SessionManager) (id : String)
      → is_authenticated (get id (run encode sm cs).sessions) ≡ true
      → WasAuthenticated id cs ⊎ (is_authenticated (get id sm.sessions) ≡ true)
  unfolding run
  run_authenticated [] sm id h = inr h
  run_authenticated (c ∷ cs) sm id h = elim (run_authenticated cs (step encode sm c) id h) [
    | inl w ↦ inl (in_tail w)
    | inr f ↦ elim (step_authenticated sm c id f) [ inl a ↦ inl (at_head a) | inr g ↦ inr g ]
  ]

  -- From a new manager, over any sequence of calls and sweeps, a stored session is authenticated only
  -- if `AuthenticateSession` was called with its id.
  pub authenticated_was_called :
      (timeout : Duration) (cs : List Call) (id : String) (s : AuthSession)
      → get id (run encode (new_session_manager timeout) cs).sessions ≡ some s
      → s.authenticated ≡ true
      → WasAuthenticated id cs
  unfolding new_session_manager get
  authenticated_was_called timeout cs id s found flag =
      elim (run_authenticated cs (new_session_manager timeout) id (rw found flag)) [
        | inl w ↦ w
        | inr f ↦ absurd (cc f)
      ]
