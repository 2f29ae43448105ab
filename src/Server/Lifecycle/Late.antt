-- ===== src/Server/Lifecycle/Late.antt =====
-- server/webbou/server.go: a listener that is opened after `Shutdown` has looked for it, and two calls of
-- `Shutdown` at once.
use web_bou.Prelude.{◌≡◌, ◌≢◌, refl, sym, subst, ◌∙◌, ap, true, false, List, [], ◌∷◌, arith}
use web_bou.Server.Lifecycle.{
  Listener, quic_listener, tcp_listener, LoopState, accepting, returned, open_listener,
  closed_listener, Stopper, nobody, closing_tcp, closing_quic, waiting, finished, gave_up, Server,
  update, close_field, Step, listen_failed, listen, accept_connection, accept_closed,
  connection_done, shutdown_again, shutdown_selects, shutdown_closes, shutdown_panics, close_tcp,
  close_quic, wait_done, context_done, Reach, here, next, after_start,
}
use web_bou.Server.Lifecycle.Stopping.{running, IsCounted, Step-IsCounted}

-- `Shutdown` has looked at the listener's field already, and has not returned nil.
abbrev HasPassed : Stopper → Listener → Type 0
HasPassed closing_quic tcp_listener = Unit
HasPassed waiting l = Unit
HasPassed gave_up l = Unit
HasPassed _ _ = ⊥

-- A loop accepts on a listener that `Shutdown` will not close any more.
pub record IsLate (l : Listener) (s : Server) : Type 0 where
  pub counted : IsCounted s
  pub accepts : s.loops l ≡ accepting
  pub opened : s.fields l ≡ open_listener
  pub closed : s.shutdown_closed ≡ true
  pub passed : HasPassed s.stopper l

update-other :
    {A : Type 0} (f : Listener → A) (k l : Listener) (a : A) → k ≢ l → update f k a l ≡ f l
update-other f quic_listener quic_listener a n = absurd (n refl)
update-other f quic_listener tcp_listener a n = refl
update-other f tcp_listener quic_listener a n = refl
update-other f tcp_listener tcp_listener a n = absurd (n refl)

-- A loop in another state is another loop.
apart :
    (s : Server) (k l : Listener) {a b : LoopState} → s.loops k ≡ a → s.loops l ≡ b → a ≢ b → k ≢ l
apart s k l e f n = λ same. n (sym e ∙ ap s.loops same ∙ f)

-- The wait group counts the loop.
waits : (s : Server) (l : Listener) → IsLate l s → s.wait_group ≢ 0
waits s quic_listener h = λ e. omega (arith, h.counted, ap running h.accepts, e)
waits s tcp_listener h = λ e. omega (arith, h.counted, ap running h.accepts, e)

HasPassed-at :
    (s : Server) (l : Listener) (at : Stopper) → IsLate l s → s.stopper ≡ at → HasPassed at l
HasPassed-at s l at h e = subst (λ (at : Stopper). HasPassed at l) e h.passed

not_closing_tcp : (l : Listener) → HasPassed closing_tcp l → ⊥
not_closing_tcp quic_listener h = h
not_closing_tcp tcp_listener h = h

Step-IsLate : {s t : Server} (l : Listener) → Step s t → IsLate l s → IsLate l t
Step-IsLate {s} l st h = late st
  where
    -- Nothing about the loop has changed.
    still :
        {t : Server}
        → Step s t
        → t.loops l ≡ s.loops l
        → t.fields l ≡ s.fields l
        → t.shutdown_closed ≡ s.shutdown_closed
        → HasPassed t.stopper l
        → IsLate l t
    still st loops fields closed passed = record {
      counted = Step-IsCounted st h.counted;
      accepts = loops ∙ h.accepts;
      opened = fields ∙ h.opened;
      closed = closed ∙ h.closed;
      passed = passed;
    }

    late : {t : Server} → Step s t → IsLate l t
    late (listen_failed k e others w) =
        still (listen_failed k e others w)
          (update-other s.loops k l returned (apart s k l e h.accepts (λ n. cc))) refl refl h.passed
    late (listen k e) =
        let other = apart s k l e h.accepts (λ n. cc) in
        still (listen k e) (update-other s.loops k l accepting other)
          (update-other s.fields k l open_listener other) refl h.passed
    late (accept_connection k e o) = still (accept_connection k e o) refl refl refl h.passed
    late (accept_closed k e c others w) =
        let other : k ≢ l = λ same.
          let both : open_listener ≡ closed_listener = sym h.opened ∙ ap s.fields (sym same) ∙ c in
          cc in
        still (accept_closed k e c others w) (update-other s.loops k l returned other) refl refl
          h.passed
    late (connection_done fewer others e w) =
        still (connection_done fewer others e w) refl refl refl h.passed
    late (shutdown_again e) = still (shutdown_again e) refl refl refl h.passed
    late (shutdown_selects e) = still (shutdown_selects e) refl refl refl h.passed
    late (shutdown_closes others e c) = let both : true ≡ false = sym h.closed ∙ c in absurd (cc)
    late (shutdown_panics others e c) = still (shutdown_panics others e c) refl refl refl h.passed
    late (close_tcp e) = absurd (not_closing_tcp l (HasPassed-at s l closing_tcp h e))
    late (close_quic e) =
        let other : quic_listener ≢ l = λ same.
          subst (λ (k : Listener). HasPassed closing_quic k) (sym same)
            (HasPassed-at s l closing_quic h e) in
        still (close_quic e) refl
          (update-other s.fields quic_listener l (close_field (s.fields quic_listener)) other) refl
          tt
    late (wait_done e w) = absurd (waits s l h w)
    late (context_done e) = still (context_done e) refl refl refl tt

Reach-IsLate : {s t : Server} (l : Listener) → Reach s t → IsLate l s → IsLate l t
Reach-IsLate l here h = h
Reach-IsLate l (next r st) h = Step-IsLate l st (Reach-IsLate l r h)

not_finished : (at : Stopper) (l : Listener) → HasPassed at l → at ≢ finished
not_finished nobody l h = λ e. cc
not_finished closing_tcp l h = λ e. cc
not_finished closing_quic l h = λ e. cc
not_finished waiting l h = λ e. cc
not_finished finished l h = λ e. h
not_finished gave_up l h = λ e. cc

-- A listener that is opened after `Shutdown` has looked for it stays open: whatever happens from then
-- on, its loop accepts connections, and the call of `Shutdown` that closed the channel never returns nil.
pub late_listener :
    (l : Listener) {s t : Server}
    → IsLate l s
    → Reach s t
    → (t.loops l ≡ accepting) × (t.fields l ≡ open_listener) × (t.stopper ≢ finished)
late_listener l {s} {t} h r =
    let k = Reach-IsLate l r h in (k.accepts, k.opened, not_finished t.stopper l k.passed)

-- Such a listener comes about after any start that has its loop: `Shutdown` finds no listener, and then
-- the loop opens its own.
IsLate-reached : (s : Server) × Reach (after_start (tcp_listener ∷ [])) s × IsLate tcp_listener s
IsLate-reached =
    let selected = next here (shutdown_selects refl) in
    let shut = next selected (shutdown_closes 0 refl refl) in
    let looked = next shut (close_tcp refl) in
    (
      _,
      next looked (listen tcp_listener refl),
      record { counted = refl; accepts = refl; opened = refl; closed = refl; passed = tt },
    )

-- Two calls of `Shutdown` at once can both take the branch that closes the channel, and the second one
-- panics.
shutdown_twice :
    (ls : List Listener) → (s : Server) × Reach (after_start ls) s × (s.panicked ≡ true)
shutdown_twice ls =
    let first = next here (shutdown_selects refl) in
    let second = next first (shutdown_selects refl) in
    let shut = next second (shutdown_closes 1 refl refl) in
    (_, next shut (shutdown_panics 0 refl refl), refl)
