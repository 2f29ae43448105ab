-- ===== src/Server/Quic.antt =====
-- server/webbou/server.go, `handleStream`, `handleDatagram` and `handleQUICConnection`. The streams of
-- a connection are served by goroutines of their own, one `handle_stream` each; the connection itself
-- reads datagrams, until `ReceiveDatagram` fails.
pub mod Answers
use web_bou.Prelude.{string_eq, Option, none, some, List, [], ◌∷◌, String}
use web_bou.Prelude.Int.{ℤ}
use web_bou.Encoding.{Bytes}
use web_bou.Protocol.{Frame, Outcome, ok, err, panic, unmarshal_frame}
use web_bou.Protocol.Reader.{new_frame_reader}
use web_bou.Server.{Payloads, Session, stream, nil_writer, handle_frame}
use web_bou.Server.Loop.{Round, serve_chunks}
use web_bou.Server.Tcp.{Limiter, Server, create_session, close_session}

module _ (p : Payloads) where
  -- The body of the inner loop: no rate limiter is asked.
  unfoldable pub serve_stream_frame : Session → Frame → Session
  serve_stream_frame s frame = handle_frame p s frame stream

  unfoldable pub handle_stream : ℤ → Session → List Bytes → Round Session
  handle_stream max_frame_size session chunks =
      serve_chunks serve_stream_frame chunks (new_frame_reader max_frame_size) session

  abbrev on_datagram : Session → Outcome Frame → Option Session
  on_datagram session (ok frame) = some (handle_frame p session frame nil_writer)
  on_datagram session (err e) = some session
  on_datagram session panic = none

  -- `none` is a panic, which ends the process.
  unfoldable pub handle_datagram : Session → Bytes → Option Session
  handle_datagram session bytes = on_datagram session (unmarshal_frame bytes)

  unfoldable handle_datagrams : Session → List Bytes → Option Session
  handle_datagrams session [] = some session
  handle_datagrams session (bytes ∷ rest) = elim (handle_datagram session bytes) [
    | none ↦ none
    | some session' ↦ handle_datagrams session' rest
  ]

  abbrev end_connection :
      {lim : Limiter} → Server lim → String → Option Session → Option (Server lim × Session)
  end_connection server id none = none
  end_connection server id (some session) = some (close_session server id, session)

  -- The session as the connection leaves it. Neither limiter is asked.
  unfoldable handle_quic_connection :
      {lim : Limiter} → Server lim → String → List Bytes → Option (Server lim × Session)
  handle_quic_connection server id datagrams =
      let (opened, session) = create_session server id in
      end_connection opened id (handle_datagrams session datagrams)
