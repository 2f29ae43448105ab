-- ===== src/State/Server.antt =====
-- server/webbou/state.go, `ServerStateMachine`: the server's life as a client of `StateMachine`. The
-- channels of `Subscribe`, which nothing sends to, are known by numbers.
pub mod Reach
use web_bou.Prelude.{ℕ, Bool, true, false, Option, none, some, List, [], ◌∷◌, ◌++◌}
use web_bou.Prelude.Clock.{Time, Duration, elapsed}
use web_bou.State.Machine.{
  ConnectionState, closed, connecting, ready, closing, Callback, StateMachine, Error, Ticks,
  new_state_machine, on_state_change, set_state,
}

-- What the callbacks change, and the time that they read.
pub record Drain : Type 0 where
  pub draining : Bool
  pub drain_start : Time
  pub now : Time

pub record ServerStateMachine : Type 0 where
  pub sm : StateMachine Drain
  pub uptime : Time
  pub drain : Drain
  pub shutdown : Bool  -- which no method uses
  pub listeners : List ℕ

abbrev on_ready : Callback Drain
on_ready s d = (d, none)

abbrev on_closing : Callback Drain
on_closing s d = (record d { draining = true; drain_start = d.now }, none)

abbrev on_closed : Callback Drain
on_closed s d = (record d { draining = false }, none)

unfoldable pub new_server_state_machine : Time → ServerStateMachine
unfolding new_state_machine on_state_change
new_server_state_machine now = record {
  sm =
      on_state_change
        (on_state_change (on_state_change (new_state_machine now) ready on_ready) closing
          on_closing)
        closed on_closed;
  uptime = now;
  drain = record { draining = false; drain_start = 0; now = now };
  shutdown = false;
  listeners = [];
}

-- `ssm.sm.SetState`, with the readings of the clock that it makes.
unfoldable change : ServerStateMachine → ConnectionState → Ticks → ServerStateMachine × Option Error
change ssm s t =
    let (sm', drain', failure) = set_state ssm.sm (record ssm.drain { now = t.changed }) s t in
    (record ssm { sm = sm'; drain = drain' }, failure)

unfoldable start : ServerStateMachine → Ticks → ServerStateMachine × Option Error
unfolding change
start ssm t = change ssm connecting t

unfoldable pub become_ready : ServerStateMachine → Ticks → ServerStateMachine × Option Error
unfolding change
become_ready ssm t = change ssm ready t

abbrev finish : ServerStateMachine × Option Error → Ticks → ServerStateMachine × Option Error
finish (ssm, some e) t = (ssm, some e)
finish (ssm, none) t = change (record ssm { drain = record ssm.drain { draining = true } }) closed t

-- The readings of the clock before and after the wait.
unfoldable pub graceful_shutdown :
    ServerStateMachine → Ticks → Ticks → ServerStateMachine × Option Error
unfolding change
graceful_shutdown ssm before after = finish (change ssm closing before) after

unfoldable force_close : ServerStateMachine → Ticks → ServerStateMachine × Option Error
unfolding change
force_close ssm t = change ssm closed t

unfoldable pub is_draining : ServerStateMachine → Bool
is_draining ssm = ssm.drain.draining

unfoldable uptime_at : ServerStateMachine → Time → Duration
uptime_at ssm now = elapsed now ssm.uptime

unfoldable subscribe : ServerStateMachine → ℕ → ServerStateMachine
subscribe ssm ch = record ssm { listeners = ssm.listeners ++ ch ∷ [] }
