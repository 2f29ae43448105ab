-- ===== src/Examples/StateRuns.antt =====
-- Tests of server/webbou/state.go.
use web_bou.Prelude.{◌≤◌, string_eq, ◌+◌, ◌≡◌, ◌≢◌, ◌⊎◌, refl, false, none, List, [], ◌∷◌}
use web_bou.Prelude.Clock.{Time}
use web_bou.State.Machine.{
  ConnectionState, closed, connecting, connected, auth, ready, StateMachine, Ticks,
  new_state_machine, is_valid_transition, set_state, enter, call_back,
}
use web_bou.State.Machine.Log
use web_bou.State.Machine.Log.{
  Chain, Entered, run-Chain, ready_needs_handshake, set_state-ignores_last_change,
}
use web_bou.State.Server.{new_server_state_machine, become_ready, graceful_shutdown, is_draining}
use web_bou.State.Server.Reach
use web_bou.State.Server.Reach.{server_never_ready}
use web_bou.State.Circuit.{CircuitBreaker, circuit_open}
use web_bou.State.Circuit.Concurrent

abbrev at : Time → Ticks
at now = record { changed = now; logged = now + 1; measured = now + 2 }

abbrev machine : StateMachine (Unit {0})
machine = new_state_machine 5

abbrev handshake : List (ConnectionState × Ticks)
handshake =
    (connecting, at 10) ∷ (connected, at 20) ∷ (ready, at 25) ∷ (auth, at 30) ∷ (ready, at 40) ∷ []

handshake_is_ready : (Log.run machine tt handshake).0.state ≡ ready
unfolding new_state_machine Log.run set_state is_valid_transition enter call_back
handshake_is_ready = refl

ready_needs_handshake_example :
    let log = (Log.run machine tt handshake).0.transitions in
    Entered connecting log × Entered connected log × Entered auth log
unfolding new_state_machine
ready_needs_handshake_example =
    ready_needs_handshake handshake machine tt refl refl handshake_is_ready

set_state-ignores_last_change_example :
    (set_state (record machine { last_change = 9 }) tt connecting (at 10)).0.transitions
    ≡ (set_state machine tt connecting (at 10)).0.transitions
set_state-ignores_last_change_example =
    set_state-ignores_last_change machine tt connecting (at 10) 9

abbrev server_calls : List Reach.Call
server_calls = Reach.start_call (at 10) ∷ Reach.subscribe_call 7 ∷ Reach.ready_call (at 20) ∷ []

server_never_ready_example :
    let ssm = Reach.run (new_server_state_machine 1) server_calls in
    ((ssm.sm.state ≡ closed) ⊎ (ssm.sm.state ≡ connecting))
    × ((become_ready ssm (at 30)).1 ≢ none)
    × ((graceful_shutdown ssm (at 40) (at 50)).1 ≢ none)
    × (is_draining ssm ≡ false)
server_never_ready_example = server_never_ready 1 server_calls (at 30) (at 40) (at 50)

abbrev tripped : CircuitBreaker
tripped = record {
  failures = 3;
  successes = 0;
  state = circuit_open;
  threshold = 3;
  timeout = 100;
  last_fail = 50;
  on_open = false;
  on_close = false;
  calls = [];
}

abbrev tripped_system : Concurrent.System
tripped_system = record {
  breaker = tripped;
  reading = 0;
  upgrading = 0;
  clearing = 0;
  dating = 0;
  comparing = 0;
  closing = 0;
  opening = 0;
  granted = 0;
  answered = 0;
}

-- Two goroutines are inside `Allow` when the timeout is over, and a third one reports a success.
abbrev stuck : (s : Concurrent.System) × Concurrent.Reach tripped_system s
stuck =
    let one = Concurrent.next Concurrent.here (Concurrent.allow_begins refl) in
    let two = Concurrent.next one (Concurrent.allow_begins refl) in
    (_, Concurrent.next two (Concurrent.allow_asks 1 200 refl refl refl))

abbrev later : (s : Concurrent.System) × Concurrent.Reach stuck.0 s
later =
    let counted = Concurrent.next Concurrent.here Concurrent.success_counted in
    let success = Concurrent.next counted (Concurrent.success_cleared 0 refl) in
    (_, Concurrent.next success (Concurrent.allow_refused 0 120 refl refl refl))

Reach-open_example :
    (later.0.breaker.state ≡ circuit_open)
    × (later.0.granted ≡ stuck.0.granted)
    × (1 ≤ stuck.0.upgrading → Concurrent.Stopped stuck.0 later.0)
Reach-open_example = Concurrent.Reach-open refl later.1
