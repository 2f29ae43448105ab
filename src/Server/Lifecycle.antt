-- ===== src/Server/Lifecycle.antt =====
-- server/webbou/server.go, `Start`, `startTCP`, `startQUIC` and `Shutdown`: the goroutines of the server
-- and their wait group, in any order of their steps. What happens on a connection is in `Server/Network`;
-- here it only lasts. A listener is opened and assigned to its field in one step.
pub mod Stopping
pub mod Late
use web_bou.Prelude.{
  string_eq, ℕ, suc, ◌+◌, ◌≡◌, refl, Bool, true, false, Option, none, some, List, [], ◌∷◌, ◌++◌,
  String, length, if◌then◌else◌, ◌==◌, ◌&&◌,
}
use web_bou.Config.{ServerConfig}

pub data Listener : Type 0 where
  quic_listener tcp_listener : Listener

pub data StartResult : Type 0 where
  config_is_nil no_listeners : StartResult
  started : List Listener → StartResult

abbrev pub with_listeners : List Listener → StartResult
with_listeners [] = no_listeners
with_listeners (l ∷ ls) = started (l ∷ ls)

-- The accept loops that are started, each counted by the wait group.
abbrev pub if_set : String → Listener → List Listener
if_set addr l = if addr == "" then [] else l ∷ []

unfoldable pub start : {Tls : Type 0} → Option (ServerConfig Tls) → StartResult
start none = config_is_nil
start (some config) =
    if (config.quic_addr == "") && (config.tcp_addr == "")
    then no_listeners
    else started (if_set config.quic_addr quic_listener ++ if_set config.tcp_addr tcp_listener)

-- Where the goroutine of `startTCP` or `startQUIC` stands, and the field that it assigns.
pub data LoopState : Type 0 where
  not_started starting accepting returned : LoopState

pub data Field : Type 0 where
  unassigned open_listener closed_listener : Field

-- Where the call of `Shutdown` that closed the channel stands.
pub data Stopper : Type 0 where
  nobody closing_tcp closing_quic waiting : Stopper
  finished gave_up : Stopper

pub data ShutdownResult : Type 0 where
  stopped context_error : ShutdownResult

pub record Server : Type 0 where
  pub loops : Listener → LoopState
  pub fields : Listener → Field
  pub connections : ℕ
  pub wait_group : ℕ
  pub shutdown_closed : Bool  -- the channel
  pub past_select : ℕ  -- the calls of `Shutdown` that are about to close the channel
  pub stopper : Stopper
  pub results : List ShutdownResult
  pub panicked : Bool

abbrev update : {A : Type 0} → (Listener → A) → Listener → A → Listener → A
update f quic_listener a quic_listener = a
update f quic_listener a tcp_listener = f tcp_listener
update f tcp_listener a quic_listener = f quic_listener
update f tcp_listener a tcp_listener = a

-- `Close` of a field that may be nil.
abbrev close_field : Field → Field
close_field unassigned = unassigned
close_field open_listener = closed_listener
close_field closed_listener = closed_listener

pub data Step (s : Server) : Server → Type 0 where
  listen_failed :
      (l : Listener)
      → s.loops l ≡ starting
      → (others : ℕ) → s.wait_group ≡ suc others
      → Step s (record s { loops = update s.loops l returned; wait_group = others })
  listen :
      (l : Listener)
      → s.loops l ≡ starting
      → Step s (record s {
        loops = update s.loops l accepting;
        fields = update s.fields l open_listener;
      })
  accept_connection :
      (l : Listener)
      → s.loops l ≡ accepting
      → s.fields l ≡ open_listener
      → Step s (record s { connections = suc s.connections; wait_group = suc s.wait_group })
  -- `Accept` fails with `net.ErrClosed`; other errors change nothing.
  accept_closed :
      (l : Listener)
      → s.loops l ≡ accepting
      → s.fields l ≡ closed_listener
      → (others : ℕ) → s.wait_group ≡ suc others
      → Step s (record s { loops = update s.loops l returned; wait_group = others })
  connection_done :
      (fewer others : ℕ)
      → s.connections ≡ suc fewer
      → s.wait_group ≡ suc others
      → Step s (record s { connections = fewer; wait_group = others })
  shutdown_again : s.shutdown_closed ≡ true → Step s (record s { results = stopped ∷ s.results })
  shutdown_selects :
      s.shutdown_closed ≡ false → Step s (record s { past_select = suc s.past_select })
  shutdown_closes :
      (others : ℕ)
      → s.past_select ≡ suc others
      → s.shutdown_closed ≡ false
      → Step s (record s { past_select = others; shutdown_closed = true; stopper = closing_tcp })
  -- Closing a closed channel.
  shutdown_panics :
      (others : ℕ)
      → s.past_select ≡ suc others
      → s.shutdown_closed ≡ true
      → Step s (record s { past_select = others; panicked = true })
  close_tcp :
      s.stopper ≡ closing_tcp
      → Step s (record s {
        fields = update s.fields tcp_listener (close_field (s.fields tcp_listener));
        stopper = closing_quic;
      })
  close_quic :
      s.stopper ≡ closing_quic
      → Step s (record s {
        fields = update s.fields quic_listener (close_field (s.fields quic_listener));
        stopper = waiting;
      })
  wait_done :
      s.stopper ≡ waiting
      → s.wait_group ≡ 0
      → Step s (record s { stopper = finished; results = stopped ∷ s.results })
  context_done :
      s.stopper ≡ waiting
      → Step s (record s { stopper = gave_up; results = context_error ∷ s.results })

pub data Reach (s : Server) : Server → Type 0 where
  here : Reach s s
  next : {t u : Server} → Reach s t → Step t u → Reach s u

abbrev loop_in : List Listener → Listener → LoopState
loop_in [] l = not_started
loop_in (k ∷ ks) l = update (loop_in ks) k starting l

-- What `Start` leaves.
abbrev pub after_start : List Listener → Server
after_start ls = record {
  loops = loop_in ls;
  fields = λ l. unassigned;
  connections = 0;
  wait_group = length ls;
  shutdown_closed = false;
  past_select = 0;
  stopper = nobody;
  results = [];
  panicked = false;
}

-- A server is started with a loop for each address that is set, and refuses exactly a missing
-- configuration and one with neither.
pub start_lem :
    {Tls : Type 0} (config : ServerConfig Tls)
    → start (some config)
      ≡ with_listeners
          (if_set config.quic_addr quic_listener ++ if_set config.tcp_addr tcp_listener)
unfolding start
start_lem config = by_tests (config.quic_addr == "") (config.tcp_addr == "")
  where
    by_tests :
        (q t : Bool)
        → (if q && t
            then no_listeners
            else started
                ((if q then [] else quic_listener ∷ []) ++ (if t then [] else tcp_listener ∷ [])))
          ≡ with_listeners
              ((if q then [] else quic_listener ∷ []) ++ (if t then [] else tcp_listener ∷ []))
    by_tests true true = refl
    by_tests true false = refl
    by_tests false true = refl
    by_tests false false = refl
