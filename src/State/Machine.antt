-- ===== src/State/Machine.antt =====
-- server/webbou/state.go, `ConnectionState` and `StateMachine`. A callback may change what lies
-- outside the machine: that is the type `E`.
pub mod Log
use web_bou.Prelude.{
  ℕ, Bool, true, false, Option, none, some, List, [], ◌∷◌, ◌++◌, String, ◌||◌, if◌then◌else◌,
}
use web_bou.Prelude.Clock.{Time, Duration, elapsed}

pub data ConnectionState : Type 0 where
  closed connecting connected auth ready closing draining : ConnectionState

unfoldable string : ConnectionState → String
string closed = "CLOSED"
string connecting = "CONNECTING"
string connected = "CONNECTED"
string auth = "AUTH"
string ready = "READY"
string closing = "CLOSING"
string draining = "DRAINING"

-- Equality of states, Go's `==` on their numbers.
abbrev same_state : ConnectionState → ConnectionState → Bool
same_state closed closed = true
same_state connecting connecting = true
same_state connected connected = true
same_state auth auth = true
same_state ready ready = true
same_state closing closing = true
same_state draining draining = true
same_state _ _ = false

pub record StateTransition : Type 0 where
  pub from : ConnectionState
  pub to : ConnectionState
  pub time : Time
  pub duration : Duration

-- An error that a callback returns is some text.
pub data Error : Type 0 where
  invalid_transition : ConnectionState → ConnectionState → Error
  refused : String → Error

abbrev pub Callback : Type 0 → Type 0
Callback E = ConnectionState → E → E × Option String

pub record StateMachine (E : Type 0) : Type 0 where
  pub state : ConnectionState
  pub last_change : Time
  pub transitions : List StateTransition
  pub on_change : ConnectionState → Option (Callback E)

unfoldable pub new_state_machine : {E : Type 0} → Time → StateMachine E
new_state_machine now = record {
  state = closed;
  last_change = now;
  transitions = [];
  on_change = λ _. none;
}

-- The table of `isValidTransition`.
unfoldable valid_transitions : ConnectionState → List ConnectionState
valid_transitions closed = connecting ∷ []
valid_transitions connecting = connected ∷ closed ∷ []
valid_transitions connected = auth ∷ closed ∷ []
valid_transitions auth = ready ∷ closed ∷ []
valid_transitions ready = closing ∷ closed ∷ []
valid_transitions closing = draining ∷ closed ∷ []
valid_transitions draining = closed ∷ []

unfoldable contains : List ConnectionState → ConnectionState → Bool
contains [] to = false
contains (valid ∷ rest) to = same_state valid to || contains rest to

unfoldable pub is_valid_transition : ConnectionState → ConnectionState → Bool
unfolding valid_transitions contains
is_valid_transition from to = contains (valid_transitions from) to

-- The readings of the clock in one `SetState`, in the order in which they are made.
pub record Ticks : Type 0 where
  pub changed : Time
  pub logged : Time
  pub measured : Time

module _ {E : Type 0} where
  -- `sm.lastChange` is set before the duration is measured from it.
  unfoldable pub enter : StateMachine E → ConnectionState → Ticks → StateMachine E
  enter sm new_state t =
      let moved = record sm { state = new_state; last_change = t.changed } in
      record moved {
        transitions =
            sm.transitions
            ++ record {
              from = sm.state;
              to = new_state;
              time = t.logged;
              duration = elapsed t.measured moved.last_change;
            }
              ∷ [];
      }

  unfoldable pub call_back : Option (Callback E) → ConnectionState → E → E × Option String
  call_back none new_state env = (env, none)
  call_back (some fn) new_state env = fn new_state env

  unfoldable pub set_state :
      StateMachine E → E → ConnectionState → Ticks → StateMachine E × E × Option Error
  unfolding enter call_back
  set_state sm env new_state t =
      if is_valid_transition sm.state new_state
      then (let (env', failure) = call_back (sm.on_change new_state) new_state env in
          elim failure [
            | none ↦ (enter sm new_state t, env', none)
            | some e ↦ (sm, env', some (refused e))
          ])
      else (sm, env, some (invalid_transition sm.state new_state))

  unfoldable pub on_state_change : StateMachine E → ConnectionState → Callback E → StateMachine E
  on_state_change sm state fn = record sm {
    on_change = λ s. if same_state state s then some fn else sm.on_change s;
  }

  unfoldable is_ready : StateMachine E → Bool
  is_ready sm = same_state sm.state ready

  unfoldable can_close : StateMachine E → Bool
  can_close sm = same_state sm.state ready || same_state sm.state closing
