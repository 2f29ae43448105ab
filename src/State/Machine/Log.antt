-- ===== src/State/Machine/Log.antt =====
-- server/webbou/state.go, `SetState`: what the log of transitions records.
use web_bou.Prelude.{
  ◌≡◌, ◌≢◌, refl, sym, ◌∙◌, true, false, none, List, [], ◌∷◌, ◌++◌, ◌⊎◌, inl, inr, arith,
  Bool-cases, Option-cases,
}
use web_bou.Prelude.Clock.{Time}
use web_bou.State.Machine.{
  ConnectionState, closed, connecting, connected, auth, ready, StateTransition, StateMachine, Ticks,
  is_valid_transition, set_state, enter, call_back,
}

-- The transitions lead from `a` to `b`, each from where the last one ended and each in the table.
abbrev pub Chain : ConnectionState → List StateTransition → ConnectionState → Type 0
Chain a [] b = a ≡ b
Chain a (t ∷ ts) b = (t.from ≡ a) × (is_valid_transition t.from t.to ≡ true) × Chain t.to ts b

Chain-snoc :
    (a b : ConnectionState) (ts : List StateTransition) (t : StateTransition)
    → Chain a ts b
    → t.from ≡ b
    → is_valid_transition t.from t.to ≡ true
    → Chain a (ts ++ t ∷ []) t.to
Chain-snoc a b [] t c e v = (e ∙ sym c, v, refl)
Chain-snoc a b (u ∷ ts) t c e v = (c.0, c.1, Chain-snoc u.to b ts t c.2 e v)

module _ {E : Type 0} where
  -- `SetState` succeeds exactly if the table has the transition and the callback does not refuse it;
  -- then the machine enters the new state and logs the step, and otherwise it is left as it was.
  set_state_lem :
      (sm : StateMachine E) (env : E) (s : ConnectionState) (t : Ticks)
      → let (sm', env', failure) = set_state sm env s t in
        ((failure ≡ none)
          × (is_valid_transition sm.state s ≡ true)
          × ((call_back (sm.on_change s) s env).1 ≡ none)
          × (sm' ≡ enter sm s t))
        ⊎ ((failure ≢ none)
            × (sm' ≡ sm)
            × ((is_valid_transition sm.state s ≡ false)
                ⊎ ((call_back (sm.on_change s) s env).1 ≢ none)))
  unfolding set_state
  set_state_lem sm env s t = elim (Bool-cases (is_valid_transition sm.state s)) [
    | inl valid ↦ elim (Option-cases (call_back (sm.on_change s) s env).1) [
      | inl fine ↦ inl (ground arith, valid, fine, ground arith)
      | inr (e, bad) ↦ inr (ground arith, ground arith, inr (ground arith))
    ]
    | inr invalid ↦ inr (ground arith, ground arith, inl invalid)
  ]

  -- What a sequence of `SetState` calls makes of a machine.
  unfoldable pub run : StateMachine E → E → List (ConnectionState × Ticks) → StateMachine E × E
  run sm env [] = (sm, env)
  run sm env ((s, t) ∷ rest) = let (sm', env', _) = set_state sm env s t in run sm' env' rest

  enter-Chain :
      (sm : StateMachine E) (s : ConnectionState) (t : Ticks)
      → Chain closed sm.transitions sm.state
      → is_valid_transition sm.state s ≡ true
      → Chain closed (enter sm s t).transitions (enter sm s t).state
  unfolding enter
  enter-Chain sm s t c v = Chain-snoc closed sm.state sm.transitions _ c refl v

  set_state-Chain :
      (sm : StateMachine E) (env : E) (s : ConnectionState) (t : Ticks)
      → Chain closed sm.transitions sm.state
      → Chain closed (set_state sm env s t).0.transitions (set_state sm env s t).0.state
  set_state-Chain sm env s t c = elim (set_state_lem sm env s t) [
    | inl (_, valid, _, moved) ↦ rw moved (enter-Chain sm s t c valid)
    | inr (_, same, _) ↦ rw same c
  ]

  -- Over any sequence of `SetState` calls, whatever the callbacks do, the log is a chain of
  -- transitions of the table that leads from CLOSED to the current state.
  pub run-Chain :
      (calls : List (ConnectionState × Ticks)) (sm : StateMachine E) (env : E)
      → Chain closed sm.transitions sm.state
      → Chain closed (run sm env calls).0.transitions (run sm env calls).0.state
  unfolding run
  run-Chain [] sm env c = c
  run-Chain ((s, t) ∷ rest) sm env c =
      run-Chain rest (set_state sm env s t).0 (set_state sm env s t).1
        (set_state-Chain sm env s t c)

  -- The duration that `SetState` logs does not depend on when the machine entered the state that it
  -- leaves: the log is the same whatever `lastChange` was.
  pub set_state-ignores_last_change :
      (sm : StateMachine E) (env : E) (s : ConnectionState) (t : Ticks) (since : Time)
      → (set_state (record sm { last_change = since }) env s t).0.transitions
        ≡ (set_state sm env s t).0.transitions
  unfolding set_state enter
  set_state-ignores_last_change sm env s t since = ground arith

-- The log has a transition into this state.
pub data Entered (s : ConnectionState) : List StateTransition → Type 0 where
  at_head : {t : StateTransition} {ts : List StateTransition} → t.to ≡ s → Entered s (t ∷ ts)
  in_tail : {t : StateTransition} {ts : List StateTransition} → Entered s ts → Entered s (t ∷ ts)

Chain-Entered :
    (a b : ConnectionState) (ts : List StateTransition) → Chain a ts b → (a ≡ b) ⊎ Entered b ts
Chain-Entered a b [] c = inl c
Chain-Entered a b (t ∷ ts) c = elim (Chain-Entered t.to b ts c.2) [
  | inl e ↦ inr (at_head e)
  | inr e ↦ inr (in_tail e)
]

-- A state whose only way in is from `p` was entered after `p`.
module _ (p q : ConnectionState)
    (only : (s : ConnectionState) → is_valid_transition s q ≡ true → s ≡ p) where
  Entered-before :
      (a b : ConnectionState) (ts : List StateTransition)
      → Chain a ts b
      → Entered q ts
      → (a ≡ p) ⊎ Entered p ts
  Entered-before a b [] c e = elim e [ ]
  Entered-before a b (t ∷ ts) c (at_head e) = inl (sym c.0 ∙ only t.from (rw (← e) c.1))
  Entered-before a b (t ∷ ts) c (in_tail e) = elim (Entered-before t.to b ts c.2 e) [
    | inl now ↦ inr (at_head now)
    | inr later ↦ inr (in_tail later)
  ]

only_auth : (s : ConnectionState) → is_valid_transition s ready ≡ true → s ≡ auth
unfolding is_valid_transition
only_auth s h = ground arith

only_connected : (s : ConnectionState) → is_valid_transition s auth ≡ true → s ≡ connected
unfolding is_valid_transition
only_connected s h = ground arith

only_connecting : (s : ConnectionState) → is_valid_transition s connected ≡ true → s ≡ connecting
unfolding is_valid_transition
only_connecting s h = ground arith

from_closed :
    (p : ConnectionState) (l : List StateTransition)
    → closed ≢ p
    → (closed ≡ p) ⊎ Entered p l
    → Entered p l
from_closed p l n (inl e) = absurd (n e)
from_closed p l n (inr e) = e

Chain-ready :
    (ts : List StateTransition)
    → Chain closed ts ready
    → Entered connecting ts × Entered connected ts × Entered auth ts
Chain-ready ts c =
    let r = from_closed ready ts (λ e. cc e) (Chain-Entered closed ready ts c) in
    let a =
      from_closed auth ts (λ e. cc e) (Entered-before auth ready only_auth closed ready ts c r) in
    let d =
      from_closed connected ts (λ e. cc e)
        (Entered-before connected auth only_connected closed ready ts c a) in
    let g =
      from_closed connecting ts (λ e. cc e)
        (Entered-before connecting connected only_connecting closed ready ts c d) in
    (g, d, a)

-- A machine that was new and is now READY has entered CONNECTING, CONNECTED and AUTH, whatever calls
-- were made and whatever the callbacks do.
pub ready_needs_handshake :
    {E : Type 0} (calls : List (ConnectionState × Ticks)) (sm : StateMachine E) (env : E)
    → sm.state ≡ closed
    → sm.transitions ≡ []
    → (run sm env calls).0.state ≡ ready
    → let log = (run sm env calls).0.transitions in
      Entered connecting log × Entered connected log × Entered auth log
ready_needs_handshake calls sm env fresh empty done =
    Chain-ready (run sm env calls).0.transitions
      (rw done at (run-Chain calls sm env (rw (empty, fresh) refl)))
