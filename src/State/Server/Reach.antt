-- ===== src/State/Server/Reach.antt =====
-- server/webbou/state.go, `ServerStateMachine`: the states that its methods reach.
use web_bou.Prelude.{ℕ, ◌≡◌, ◌≢◌, refl, false, Option, none, some, List, [], ◌∷◌, ◌⊎◌, inl, arith}
use web_bou.Prelude.Clock.{Time}
use web_bou.State.Machine.{closed, connecting, Error, Ticks, set_state, is_valid_transition}
use web_bou.State.Server.{
  ServerStateMachine, on_closed, new_server_state_machine, start, become_ready, graceful_shutdown,
  force_close, is_draining, subscribe,
}

pub data Call : Type 0 where
  start_call : Ticks → Call
  ready_call : Ticks → Call
  shutdown_call : Ticks → Ticks → Call
  close_call : Ticks → Call
  subscribe_call : ℕ → Call

unfoldable step : ServerStateMachine → Call → ServerStateMachine × Option Error
step ssm (start_call t) = start ssm t
step ssm (ready_call t) = become_ready ssm t
step ssm (shutdown_call before after) = graceful_shutdown ssm before after
step ssm (close_call t) = force_close ssm t
step ssm (subscribe_call ch) = (subscribe ssm ch, none)

unfoldable pub run : ServerStateMachine → List Call → ServerStateMachine
unfolding step
run ssm [] = ssm
run ssm (c ∷ cs) = run (step ssm c).0 cs

-- The server never got past CONNECTING, and its callbacks are those of the constructor.
record IsStuck (ssm : ServerStateMachine) : Type 0 where
  early : (ssm.sm.state ≡ closed) ⊎ (ssm.sm.state ≡ connecting)
  idle : ssm.drain.draining ≡ false
  quiet : ssm.sm.on_change connecting ≡ none
  closes : ssm.sm.on_change closed ≡ some on_closed

step-IsStuck : (ssm : ServerStateMachine) (c : Call) → IsStuck ssm → IsStuck (step ssm c).0
unfolding step start become_ready graceful_shutdown force_close subscribe set_state
    is_valid_transition
step-IsStuck ssm (start_call t) h = ground (arith, h.early, h.idle, h.quiet, h.closes)
step-IsStuck ssm c h = ground (arith, h.early, h.idle, h.quiet, h.closes)

new-IsStuck : (now : Time) → IsStuck (new_server_state_machine now)
unfolding new_server_state_machine
new-IsStuck now = record { early = inl refl; idle = refl; quiet = refl; closes = refl }

run-IsStuck : (cs : List Call) (ssm : ServerStateMachine) → IsStuck ssm → IsStuck (run ssm cs)
unfolding run
run-IsStuck [] ssm h = h
run-IsStuck (c ∷ cs) ssm h = run-IsStuck cs (step ssm c).0 (step-IsStuck ssm c h)

stuck_refuses :
    (ssm : ServerStateMachine) (t before after : Ticks)
    → IsStuck ssm
    → ((become_ready ssm t).1 ≢ none) × ((graceful_shutdown ssm before after).1 ≢ none)
unfolding become_ready graceful_shutdown set_state is_valid_transition
stuck_refuses ssm t before after h = (ground (arith, h.early), ground (arith, h.early))

-- Over any sequence of its own methods a new `ServerStateMachine` never gets past CONNECTING: `Ready`
-- and `GracefulShutdown` always return an error, and the server never drains.
pub server_never_ready :
    (now : Time) (cs : List Call) (t before after : Ticks)
    → let ssm = run (new_server_state_machine now) cs in
      ((ssm.sm.state ≡ closed) ⊎ (ssm.sm.state ≡ connecting))
      × ((become_ready ssm t).1 ≢ none)
      × ((graceful_shutdown ssm before after).1 ≢ none)
      × (is_draining ssm ≡ false)
unfolding is_draining
server_never_ready now cs t before after =
    let ssm = run (new_server_state_machine now) cs in
    let h = run-IsStuck cs (new_server_state_machine now) (new-IsStuck now) in
    let (not_ready, not_closing) = stuck_refuses ssm t before after h in
    (h.early, not_ready, not_closing, h.idle)
