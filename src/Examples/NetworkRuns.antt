-- ===== src/Examples/NetworkRuns.antt =====
-- Tests of server/webbou/server.go, over QUIC and for many connections, of server/webbou/batch.go and of
-- experimental/main.go.
use web_bou.Prelude.{
  sum, ℕ, ◌≤◌, ◌⊎◌, true, arith, string_eq, nat_eq, ◌+◌, ◌≡◌, refl, false, [], ◌∷◌, All,
}
use web_bou.Prelude.Int.{pos}
use web_bou.Prelude.Words.{u64}
use web_bou.Prelude.Maps.{get, put}
use web_bou.Protocol.{Frame, new_frame, frame_ping}
use web_bou.Protocol.Reader.{new_frame_reader}
use web_bou.Limits.Connections.{new_connection_rate_limiter, allow_connection}
use web_bou.Server.{new_session}
use web_bou.Server.Network
use web_bou.Server.Network.{System, ask, quic, serving}
use web_bou.Server.Tcp.{create_session}
use web_bou.Server.Network.Moves.{IsConsistent}
use web_bou.Server.Network.Invariant.{Reach-IsConsistent}
use web_bou.Batch
use web_bou.Batch.Delivery.{in_order, Reach-in_order}
use web_bou.Batch.Flushes.{everywhere, weight, Reach-weight, Reach-told}
use web_bou.Encoding.{Bytes}
use web_bou.Hybrid
use web_bou.Hybrid.{HybridServer, new_hybrid_server}
use web_bou.Hybrid.Loops.{sockets, messages, IsEcho}
use web_bou.Hybrid.Echoes.{Reach-hybrid}
use web_bou.Examples.ServerRuns.{plain, limiter, bucket}

abbrev quiet : System limiter
quiet = Network.new_system 2 (pos 100) bucket

-- A connection over TCP is admitted, opens its session and reads, and one over QUIC comes.
abbrev busy : System limiter
busy = record {
  server = (create_session (create_session (ask quiet.server "10.0.0.1:5000") "s1").0 "s2").0;
  live =
      quic "s2" (new_session "s2")
      ∷ serving "s1" "10.0.0.1:5000" (new_frame_reader (pos 100)) (new_session "s1")
      ∷ [];
}

unfoldable busy_reached : Network.Reach plain quiet busy
unfolding allow_connection new_connection_rate_limiter get ask create_session
busy_reached =
    let asked = Network.next Network.here (Network.allow "10.0.0.1:5000" refl) in
    let opened = Network.next asked (Network.open_session [] [] "10.0.0.1:5000" "s1" refl) in
    Network.next opened (Network.accept_quic "s2")

busy_fresh : Network.AllFresh busy_reached
unfolding get put busy_reached ask create_session
busy_fresh = (((tt, tt), refl), refl)

Reach-IsConsistent_example : IsConsistent 2 busy
Reach-IsConsistent_example = Reach-IsConsistent 2 (pos 100) bucket busy_reached busy_fresh

abbrev ping : Frame
ping = new_frame frame_ping 1 []

-- One frame is added, taken by the loop and passed on.
abbrev flushed_once : Batch.System
flushed_once = record {
  batcher = (Batch.take_batch (Batch.add (Batch.new_system 4).batcher ping)).0;
  loop = Batch.waiting;
  callers = [];
  flushed = (ping ∷ []) ∷ [];
  added = ping ∷ [];
}

flushed_once_reached : Batch.Reach false (Batch.new_system 4) flushed_once
unfolding Batch.take_batch Batch.add
flushed_once_reached =
    let added = Batch.next Batch.here (Batch.add_frame ping) in
    let woken = Batch.next added (Batch.tick refl) in
    let taken = Batch.next woken (Batch.loop_take refl) in
    Batch.next taken (Batch.loop_flush (ping ∷ []) refl)

Reach-in_order_example : in_order flushed_once ≡ flushed_once.added
Reach-in_order_example = Reach-in_order 4 flushed_once_reached

Reach-weight_example :
    everywhere (λ f. f.stream_id) flushed_once ≡ weight (λ f. f.stream_id) flushed_once.added
Reach-weight_example = Reach-weight (λ f. f.stream_id) 4 flushed_once_reached

abbrev text_message : Hybrid.Message
text_message = Hybrid.typed (pos 1) (1 ∷ [])

abbrev binary_message : Hybrid.Message
binary_message = Hybrid.typed (pos 2) (2 ∷ [])

-- A web socket has echoed one of two messages.
abbrev echoing : HybridServer
echoing = record new_hybrid_server {
  metrics =
      Hybrid.count_message
        (Hybrid.count_message (Hybrid.enter_web_socket new_hybrid_server.metrics));
  live =
      Hybrid.read_message
        (Hybrid.write_message (Hybrid.read_message (Hybrid.new_loop Hybrid.web_socket) text_message)
          text_message)
        binary_message
      ∷ [];
  datagrams_received = (3 ∷ []) ∷ [];
  datagrams_sent = (3 ∷ []) ∷ [];
}

echoing_reached : Hybrid.Reach new_hybrid_server echoing
unfolding new_hybrid_server Hybrid.read_message Hybrid.write_message Hybrid.new_loop
echoing_reached =
    let opened = Hybrid.next Hybrid.here Hybrid.web_socket_opened in
    let first = Hybrid.next opened (Hybrid.message_read [] _ [] text_message refl refl) in
    let answered = Hybrid.next first (Hybrid.message_written [] _ [] text_message refl refl) in
    let second = Hybrid.next answered (Hybrid.message_read [] _ [] binary_message refl refl) in
    let datagram = Hybrid.next second (Hybrid.datagram_received (3 ∷ [])) in
    Hybrid.next datagram (Hybrid.datagram_sent [] (3 ∷ []) [] refl)

Reach-hybrid_example :
    (echoing.metrics.active_sessions ≡ pos (echoing.web_transports + sum sockets echoing.live))
    × (echoing.metrics.total_messages
        ≡ u64 (sum messages echoing.live + sum messages echoing.ended))
    × (All IsEcho echoing.live × All IsEcho echoing.ended)
    × ((w : Bytes → ℕ) → sum w echoing.datagrams_sent ≤ sum w echoing.datagrams_received)
Reach-hybrid_example = Reach-hybrid echoing_reached

-- One frame fills a batch of one.
abbrev full : Batch.System
full = record (Batch.new_system 1) {
  batcher = Batch.add (Batch.new_system 1).batcher ping;
  added = ping ∷ [];
}

Reach-told_example : (full.batcher.flush_chan ≡ true) ⊎ (full.loop ≡ Batch.woken)
unfolding Batch.add
Reach-told_example =
    Reach-told {direct = false} 1 (omega arith) (Batch.next Batch.here (Batch.add_frame ping))
      (omega arith)
