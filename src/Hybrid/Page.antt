-- ===== src/Hybrid/Page.antt =====
-- experimental/main.go, `NewHybridServer` and `HandleMetrics`. The loading of the certificate and the printing
-- of a number by `fmt` are parameters.
use web_bou.Prelude.{sum, ◌+◌, ◌≡◌, Option, none, some, String, string_eq, ◌==◌, if◌then◌else◌}
use web_bou.Prelude.Int.{ℤ, pos}
use web_bou.Prelude.Words.{u64}
use web_bou.Hybrid.{Metrics, HybridServer, new_hybrid_server, Reach}
use web_bou.Hybrid.Loops.{sockets, messages}
use web_bou.Hybrid.Echoes.{Reach-hybrid}
use Prim.Native.String.{◌++◌}

-- What `NewHybridServer` gives for a key pair that loads, or its error.
unfoldable load_hybrid_server : {Cert : Type 0} → Option Cert → Option (Cert × HybridServer)
load_hybrid_server none = none
load_hybrid_server (some cert) = some (cert, new_hybrid_server)

-- The handlers that `main` registers for the paths; other paths are the library's.
data Handler : Type 0 where
  web_transport_handler web_socket_handler metrics_handler : Handler

unfoldable route : String → Option Handler
route path =
    if path == "/wt"
    then some web_transport_handler
    else if path == "/ws"
    then some web_socket_handler
    else if path == "/metrics"
    then some metrics_handler
    else none

-- The body of the answer, between the lines of the source's text.
unfoldable page : (ℤ → String) → ℤ → ℤ → ℤ → ℤ → String
page decimal active total web_transports web_sockets =
    "{\n\t\t\"active_sessions\": "
    ++ (decimal active
        ++ (",\n\t\t\"total_messages\": "
            ++ (decimal total
                ++ (",\n\t\t\"webtransport_sessions\": "
                    ++ (decimal web_transports
                        ++ (",\n\t\t\"websocket_sessions\": "
                            ++ (decimal web_sockets ++ "\n\t}")))))))

unfoldable handle_metrics : (ℤ → String) → Metrics → String
handle_metrics decimal m =
    page decimal m.active_sessions (pos m.total_messages) (pos m.web_transport_count)
      (pos m.web_socket_count)

-- The page, at any time: the sessions that are open and the messages that were read, modulo 2 ^ 64.
handle_metrics-Reach :
    (decimal : ℤ → String) {s : HybridServer}
    → Reach new_hybrid_server s
    → handle_metrics decimal s.metrics
      ≡ page decimal
          (pos (s.web_transports + sum sockets s.live))
          (pos (u64 (sum messages s.live + sum messages s.ended)))
          (pos s.metrics.web_transport_count)
          (pos s.metrics.web_socket_count)
unfolding handle_metrics
handle_metrics-Reach decimal {s} r =
    let (active, total, echoes, datagrams) = Reach-hybrid r in rw (active, total)
