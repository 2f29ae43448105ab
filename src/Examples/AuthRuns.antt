-- ===== src/Examples/AuthRuns.antt =====
-- Tests of server/webbou/auth.go.
use web_bou.Prelude.{
  string_eq, nat_eq, ◌+◌, ◌<◌, ◌≤◌, ◌≡◌, ◌≢◌, ◌⊎◌, refl, true, false, none, some, List, [], ◌∷◌,
  String, length, arith,
}
use web_bou.Prelude.Maps.{get, put}
use web_bou.Prelude.Clock.{second}
use web_bou.Encoding.{Bytes}
use web_bou.Auth.FlowControl.{FlowControlManager, consume_stream_data}
use web_bou.Auth.FlowControl.Windows.{consume_run, consume_run_exact, consume_stream_data_wraps}
use web_bou.Auth.MultiPath.{NetPath, MultiPathManager, new_path, get_best_path}
use web_bou.Auth.MultiPath.Best.{BestAnswer, get_best_path-BestAnswer}
use web_bou.Auth.Sessions
use web_bou.Auth.Sessions.{
  AuthSession, SessionManager, err, session_not_found, session_expired, get_session,
  new_session_manager, create_session, generate_secure_token, authenticate_session,
}
use web_bou.Auth.Sessions.Expiry.{get_session-cleanup_expired}
use web_bou.Auth.Sessions.Traces as SessionTraces
use web_bou.Auth.Sessions.Traces.{WasAuthenticated, authenticated_was_called}
use web_bou.Auth.ZeroRtt.{new_zero_rtt_manager, max_zero_rtt_sessions, new_session}
use web_bou.Auth.ZeroRtt.Concurrent
use web_bou.Auth.ZeroRtt.Traces as KeyTraces
use web_bou.Auth.ZeroRtt.Traces.{run_within}

abbrev windows : FlowControlManager
windows = record {
  max_data = 1000;
  max_stream_data = 100;
  avail_data = 1000;
  avail_stream_data = (4, 60) ∷ [];
}

consume_run_exact_example :
    (consume_run windows (700 ∷ 400 ∷ 300 ∷ [])).0.avail_data
      + (consume_run windows (700 ∷ 400 ∷ 300 ∷ [])).1
    ≡ 1000
consume_run_exact_example = consume_run_exact windows (700 ∷ 400 ∷ 300 ∷ [])

stream_8_is_new : get 8 windows.avail_stream_data ≡ none
unfolding get
stream_8_is_new = refl

consume_stream_data_wraps_example :
    ((consume_stream_data windows 8 101).1 ≡ false)
    × ((consume_stream_data (consume_stream_data windows 8 101).0 8 5000000).1 ≡ true)
consume_stream_data_wraps_example =
    consume_stream_data_wraps windows 8 101 5000000 stream_8_is_new (omega arith) (omega arith)
      (omega arith)

abbrev slow_path : NetPath
slow_path = record (new_path 1 "10.0.0.1:9000" "10.0.0.2:9000" 5) { latency = 40 }

abbrev fast_path : NetPath
fast_path = record (new_path 2 "10.0.1.1:9000" "10.0.0.2:9000" 6) { latency = 10 }

abbrev two_paths : MultiPathManager
two_paths = record { paths = (1, slow_path) ∷ (2, fast_path) ∷ []; active_id = 2 }

get_best_path-BestAnswer_example : BestAnswer two_paths.paths (get_best_path two_paths)
get_best_path-BestAnswer_example =
    get_best_path-BestAnswer two_paths (ground arith, (ground arith, tt))

-- An encoding that tells two inputs apart.
abbrev encode : Bytes → String
encode [] = "id"
encode _ = "token"

abbrev login : List SessionTraces.Call
login =
    SessionTraces.create [] (some []) (some (1 ∷ [])) 10
    ∷ SessionTraces.authenticate "id" (7 ∷ []) 20
    ∷ []

abbrev logged_in : AuthSession
logged_in = record {
  id = "id";
  token = "token";
  public_key = [];
  shared_secret = 7 ∷ [];
  created_at = 10;
  last_activity = 20;
  authenticated = true;
}

login_stores :
    get "id" (SessionTraces.run encode (new_session_manager second) login).sessions ≡ some logged_in
unfolding get put SessionTraces.run SessionTraces.step new_session_manager create_session
    generate_secure_token authenticate_session
login_stores = refl

authenticated_was_called_example : WasAuthenticated "id" login
authenticated_was_called_example =
    authenticated_was_called encode second login "id" logged_in login_stores refl

get_session-cleanup_expired_example :
    let sm : SessionManager = record { sessions = ("id", logged_in) ∷ []; timeout = 100 } in
    ((get_session (Sessions.cleanup_expired sm 500) "id" 500).1 ≡ (get_session sm "id" 500).1)
    ⊎ (((get_session sm "id" 500).1 ≡ err session_expired)
        × ((get_session (Sessions.cleanup_expired sm 500) "id" 500).1 ≡ err session_not_found))
get_session-cleanup_expired_example =
    get_session-cleanup_expired (record { sessions = ("id", logged_in) ∷ []; timeout = 100 }) "id"
      500

abbrev same_bytes : Bytes → Bytes
same_bytes bytes = bytes

abbrev alice : String
alice = "alice"

abbrev bob : String
bob = "bob"

alice_named : alice ≢ ""
alice_named e = absurd (cc)

bob_named : bob ≢ ""
bob_named e = absurd (cc)

abbrev key_calls : List KeyTraces.Call
key_calls =
    KeyTraces.create "alice" (5 ∷ []) (some (1 ∷ [])) 10
    ∷ KeyTraces.validate "alice" (1 ∷ []) 20
    ∷ KeyTraces.create "bob" (6 ∷ []) (some (2 ∷ [])) 30
    ∷ []

run_within_example :
    length (KeyTraces.run (λ bytes. bytes) new_zero_rtt_manager key_calls) ≤ max_zero_rtt_sessions
run_within_example =
    run_within (λ bytes. bytes) key_calls
      ((alice_named, omega arith), (tt, ((bob_named, omega arith), tt)))

-- Two goroutines find room, and both store a key.
abbrev two_stored : Concurrent.System
two_stored = record {
  sessions =
      put "bob" (new_session same_bytes "bob" (6 ∷ []) 30 (2 ∷ []))
        (put "alice" (new_session same_bytes "alice" (5 ∷ []) 20 (1 ∷ [])) []);
  evicting = 0;
  storing = 0;
}

abbrev two_stored_reached : Concurrent.Reach same_bytes 2 Concurrent.new_system two_stored
two_stored_reached =
    let room = Concurrent.next Concurrent.here (Concurrent.found_room (omega arith) refl) in
    let both = Concurrent.next room (Concurrent.found_room (omega arith) refl) in
    let one = Concurrent.next both (Concurrent.store 1 "alice" (5 ∷ []) 20 (1 ∷ []) refl) in
    Concurrent.next one (Concurrent.store 0 "bob" (6 ∷ []) 30 (2 ∷ []) refl)

two_stored_named : Concurrent.AllNamed two_stored_reached
two_stored_named = ((((tt, tt), tt), (alice_named, omega arith)), (bob_named, omega arith))

Reach-length_example : length two_stored.sessions < max_zero_rtt_sessions + 2
Reach-length_example = Concurrent.Reach-length 2 two_stored_reached two_stored_named
