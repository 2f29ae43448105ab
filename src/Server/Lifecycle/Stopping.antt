-- ===== src/Server/Lifecycle/Stopping.antt =====
-- server/webbou/server.go: what the wait group counts, and when `Shutdown` stops the server.
use web_bou.Prelude.{
  string_eq, some, ◌++◌, ◌==◌, ◌&&◌, if◌then◌else◌, subst, ℕ, ◌+◌, ◌≤◌, ◌≡◌, refl, ap, Bool, true,
  false, List, [], ◌∷◌, arith,
}
use web_bou.Config.{ServerConfig}
use web_bou.Server.Lifecycle.{
  Listener, quic_listener, tcp_listener, LoopState, not_started, starting, accepting, returned,
  nobody, finished, Server, update, Step, listen_failed, listen, accept_connection, accept_closed,
  connection_done, shutdown_again, shutdown_selects, shutdown_closes, shutdown_panics, close_tcp,
  close_quic, wait_done, context_done, Reach, here, next, after_start, start, started, no_listeners,
  config_is_nil, StartResult,
}

-- Whether a loop runs.
abbrev pub running : LoopState → ℕ
running not_started = 0
running starting = 1
running accepting = 1
running returned = 0

abbrev pub loops_running : (Listener → LoopState) → ℕ
loops_running loops = running (loops quic_listener) + running (loops tcp_listener)

-- A loop that changes its state, in the number of those that run.
running-update :
    (loops : Listener → LoopState) (l : Listener) (after : LoopState)
    → loops_running (update loops l after) + running (loops l) ≡ loops_running loops + running after
running-update loops quic_listener after = omega arith
running-update loops tcp_listener after = omega arith

abbrev pub IsCounted : Server → Type 0
IsCounted s = s.wait_group ≡ loops_running s.loops + s.connections

pub Step-IsCounted : {s t : Server} → Step s t → IsCounted s → IsCounted t
Step-IsCounted {s} (listen_failed l e others w) c =
    omega (arith, c, w, running-update s.loops l returned, ap running e)
Step-IsCounted {s} (listen l e) c =
    omega (arith, c, running-update s.loops l accepting, ap running e)
Step-IsCounted (accept_connection l e f) c = omega (arith, c)
Step-IsCounted {s} (accept_closed l e f others w) c =
    omega (arith, c, w, running-update s.loops l returned, ap running e)
Step-IsCounted (connection_done fewer others e w) c = omega (arith, c, e, w)
Step-IsCounted (shutdown_again e) c = c
Step-IsCounted (shutdown_selects e) c = c
Step-IsCounted (shutdown_closes others e f) c = c
Step-IsCounted (shutdown_panics others e f) c = c
Step-IsCounted (close_tcp e) c = c
Step-IsCounted (close_quic e) c = c
Step-IsCounted (wait_done e w) c = c
Step-IsCounted (context_done e) c = c

-- A shutdown that has found the wait group empty has left nothing that could fill it again.
record IsSettled (s : Server) : Type 0 where
  counted : IsCounted s
  empty : s.stopper ≡ finished → s.wait_group ≡ 0
  once : s.shutdown_closed ≡ false → s.stopper ≡ nobody

Step-IsSettled : {s t : Server} → Step s t → IsSettled s → IsSettled t
Step-IsSettled {s} {t} st h = record {
  counted = Step-IsCounted st h.counted;
  empty = by_step st;
  once = closes st;
}
  where
    -- A loop that accepts is counted.
    accepts : (l : Listener) → s.loops l ≡ accepting → 1 ≤ s.wait_group
    accepts quic_listener e = omega (arith, h.counted, ap running e)
    accepts tcp_listener e = omega (arith, h.counted, ap running e)

    by_step : {t : Server} → Step s t → t.stopper ≡ finished → t.wait_group ≡ 0
    by_step (listen_failed l e others w) f = absurd (omega (arith, h.empty f, w))
    by_step (listen l e) f = h.empty f
    by_step (accept_connection l e o) f = absurd (omega (arith, h.empty f, accepts l e))
    by_step (accept_closed l e c others w) f = absurd (omega (arith, h.empty f, w))
    by_step (connection_done fewer others e w) f = absurd (omega (arith, h.empty f, w))
    by_step (shutdown_again e) f = h.empty f
    by_step (shutdown_selects e) f = h.empty f
    by_step (shutdown_closes others e c) f = absurd (cc)
    by_step (shutdown_panics others e c) f = h.empty f
    by_step (close_tcp e) f = absurd (cc)
    by_step (close_quic e) f = absurd (cc)
    by_step (wait_done e w) f = w
    by_step (context_done e) f = absurd (cc)

    closes : {t : Server} → Step s t → t.shutdown_closed ≡ false → t.stopper ≡ nobody
    closes (listen_failed l e others w) f = h.once f
    closes (listen l e) f = h.once f
    closes (accept_connection l e o) f = h.once f
    closes (accept_closed l e c others w) f = h.once f
    closes (connection_done fewer others e w) f = h.once f
    closes (shutdown_again e) f = h.once f
    closes (shutdown_selects e) f = h.once f
    closes (shutdown_closes others e c) f = absurd (cc)
    closes (shutdown_panics others e c) f = h.once f
    closes (close_tcp e) f = let n = h.once f in absurd (cc)
    closes (close_quic e) f = let n = h.once f in absurd (cc)
    closes (wait_done e w) f = let n = h.once f in absurd (cc)
    closes (context_done e) f = let n = h.once f in absurd (cc)

finished_stays :
    {s t : Server} → Step s t → IsSettled s → s.stopper ≡ finished → t.stopper ≡ finished
finished_stays (listen_failed l e others w) h f = f
finished_stays (listen l e) h f = f
finished_stays (accept_connection l e o) h f = f
finished_stays (accept_closed l e c others w) h f = f
finished_stays (connection_done fewer others e w) h f = f
finished_stays (shutdown_again e) h f = f
finished_stays (shutdown_selects e) h f = f
finished_stays (shutdown_closes others e c) h f = let n = h.once c in absurd (cc)
finished_stays (shutdown_panics others e c) h f = f
finished_stays (close_tcp e) h f = absurd (cc)
finished_stays (close_quic e) h f = absurd (cc)
finished_stays (wait_done e w) h f = refl
finished_stays (context_done e) h f = absurd (cc)

Reach-IsSettled : {s t : Server} → Reach s t → IsSettled s → IsSettled t
Reach-IsSettled here h = h
Reach-IsSettled (next r st) h = Step-IsSettled st (Reach-IsSettled r h)

abbrev listeners_of : StartResult → List Listener
listeners_of config_is_nil = []
listeners_of no_listeners = []
listeners_of (started ls) = ls

-- The wait group as `Start` leaves it.
start-IsCounted :
    {Tls : Type 0} (config : ServerConfig Tls) (ls : List Listener)
    → start (some config) ≡ started ls
    → IsCounted (after_start ls)
unfolding start
start-IsCounted config ls = by_tests (config.quic_addr == "") (config.tcp_addr == "")
  where
    by_tests :
        (q t : Bool)
        → (if q && t
            then no_listeners
            else started
                ((if q then [] else quic_listener ∷ []) ++ (if t then [] else tcp_listener ∷ [])))
          ≡ started ls
        → IsCounted (after_start ls)
    by_tests true true e = absurd (cc)
    by_tests true false e = subst (λ ls. IsCounted (after_start ls)) (ap listeners_of e) refl
    by_tests false true e = subst (λ ls. IsCounted (after_start ls)) (ap listeners_of e) refl
    by_tests false false e = subst (λ ls. IsCounted (after_start ls)) (ap listeners_of e) refl

none_running :
    (s : Server) (l : Listener) → IsCounted s → s.wait_group ≡ 0 → running (s.loops l) ≡ 0
none_running s quic_listener c e = omega (arith, c, e)
none_running s tcp_listener c e = omega (arith, c, e)

-- In every order of the goroutines' steps after a start: the wait group counts the accept loops and the
-- connections that run; and once the `Shutdown` that closed the listeners has returned nil, no loop
-- runs, no connection is left, and none ever comes again.
pub Reach-stopped :
    {Tls : Type 0} (config : ServerConfig Tls) (ls : List Listener) {s t : Server}
    → start (some config) ≡ started ls
    → Reach (after_start ls) s
    → Reach s t
    → (s.wait_group ≡ loops_running s.loops + s.connections)
      × (s.stopper ≡ finished → ((l : Listener) → running (t.loops l) ≡ 0) × (t.connections ≡ 0))
Reach-stopped config ls {s} {t} e r later =
    let first = Reach-IsSettled r (record {
      counted = start-IsCounted config ls e;
      empty = λ f. absurd (cc);
      once = λ f. refl;
    }) in
    (
      first.counted,
      λ f.
          let (settled, still) = stays later first f in
          let empty = settled.empty still in
          ((λ l. none_running t l settled.counted empty), omega (arith, settled.counted, empty)),
    )
  where
    stays :
        {s t : Server}
        → Reach s t
        → IsSettled s
        → s.stopper ≡ finished
        → IsSettled t × (t.stopper ≡ finished)
    stays here h f = (h, f)
    stays (next r st) h f = let (k, g) = stays r h f in (Step-IsSettled st k, finished_stays st k g)
