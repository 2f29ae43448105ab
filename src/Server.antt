-- ===== src/Server.antt =====
-- server/webbou/server.go: the sessions and the frame handlers of the server.
-- What is written to a connection is recorded in the session, since nothing else reads it; an error
-- of a write is only logged by the source, so it changes nothing here.
pub mod Loop
pub mod Tcp
pub mod Replies
pub mod Delivery
pub mod Accounting
pub mod Streams
pub mod Lifecycle
pub mod Limited
pub mod Quic
pub mod Network
pub mod Create
pub mod Ids
pub mod Program
use web_bou.Prelude.{
  nat_eq, ℕ, ◌+◌, Bool, true, false, Option, none, some, List, [], ◌∷◌, ◌++◌, String, length, eqb,
  if◌then◌else◌,
}
use web_bou.Prelude.Int.{ℤ, pos, ◌+ℤ◌, ◌-ℤ◌}
use web_bou.Prelude.Words.{u64}
use web_bou.Prelude.Maps.{Map, put, delete}
use web_bou.Encoding.{Bytes}
use web_bou.Protocol.{
  Frame, new_frame, marshal, has_flag, frame_data, frame_ping, frame_pong, frame_stream_open,
  frame_stream_close, frame_hello, frame_hello_ack, flag_encrypted, flag_compressed,
}

-- What the handlers use of the crypto engine and of the compressors: `none` is an error.
pub record Payloads : Type 0 where
  pub decrypt : Bytes → Option Bytes
  pub decompress : Bytes → Option Bytes

-- The `writer interface{}` of the handlers: a connection, a QUIC stream, or nil for a datagram.
data Writer : Type 0 where
  conn stream nil_writer : Writer

pub record SessionStats : Type 0 where
  pub bytes_sent : ℕ  -- uint64
  pub bytes_recv : ℕ  -- uint64
  pub frames_sent : ℕ  -- uint64
  pub frames_recv : ℕ  -- uint64
  pub streams_active : ℤ

pub record Session : Type 0 where
  pub id : String
  pub streams : Map ℕ Bool
  pub stats : SessionStats
  pub written : List Bytes

abbrev new_stats : SessionStats
new_stats = record {
  bytes_sent = 0;
  bytes_recv = 0;
  frames_sent = 0;
  frames_recv = 0;
  streams_active = pos 0;
}

abbrev pub new_session : String → Session
new_session id = record { id = id; streams = []; stats = new_stats; written = [] }

abbrev deliver : Writer → Bytes → List Bytes → List Bytes
deliver nil_writer bytes written = written
deliver _ bytes written = written ++ bytes ∷ []

-- The text "WEBBOU/1 transport=tcp+tls".
abbrev hello_text : Bytes
hello_text =
    b'W' ∷ b'E' ∷ b'B' ∷ b'B' ∷ b'O' ∷ b'U' ∷ b'/' ∷ b'1' ∷ b' ' ∷ b't' ∷ b'r' ∷ b'a' ∷ b'n' ∷ b's'
    ∷ b'p' ∷ b'o' ∷ b'r' ∷ b't' ∷ b'=' ∷ b't' ∷ b'c' ∷ b'p' ∷ b'+' ∷ b't' ∷ b'l' ∷ b's' ∷ []

unfoldable send_frame : Session → Frame → Writer → Session
send_frame session frame writer =
    let bytes = marshal frame in
    let stats = session.stats in
    record session {
      stats = record stats {
        frames_sent = u64 (stats.frames_sent + 1);
        bytes_sent = u64 (stats.bytes_sent + length bytes);
      };
      written = deliver writer bytes session.written;
    }

unfoldable handle_hello_frame : Session → Frame → Writer → Session
handle_hello_frame session frame writer =
    send_frame session (new_frame frame_hello_ack 0 hello_text) writer

unfoldable handle_ping_frame : Session → Frame → Writer → Session
handle_ping_frame session frame writer =
    send_frame session (new_frame frame_pong frame.stream_id frame.payload) writer

unfoldable handle_stream_open : Session → Frame → Session
handle_stream_open session frame =
    let stats = session.stats in
    record session {
      streams = put frame.stream_id true session.streams;
      stats = record stats { streams_active = stats.streams_active +ℤ pos 1 };
    }

unfoldable handle_stream_close : Session → Frame → Session
handle_stream_close session frame =
    let stats = session.stats in
    record session {
      streams = delete frame.stream_id session.streams;
      stats = record stats { streams_active = stats.streams_active -ℤ pos 1 };
    }

-- A payload after decryption and decompression, each if its flag is set.
abbrev then_decompress : Payloads → Frame → Option Bytes → Option Bytes
then_decompress p frame none = none
then_decompress p frame (some payload) =
    if has_flag frame flag_compressed then p.decompress payload else some payload

unfoldable plain_payload : Payloads → Frame → Option Bytes
plain_payload p frame =
    then_decompress p frame
      (if has_flag frame flag_encrypted then p.decrypt frame.payload else some frame.payload)

abbrev echo : Session → Frame → Writer → Option Bytes → Session
echo session frame writer none = session
echo session frame writer (some payload) =
    send_frame session (new_frame frame_data frame.stream_id payload) writer

unfoldable handle_data_frame : Payloads → Session → Frame → Writer → Session
handle_data_frame p session frame writer = echo session frame writer (plain_payload p frame)

abbrev received : Session → Frame → Session
received session frame =
    let stats = session.stats in
    record session {
      stats = record stats {
        frames_recv = u64 (stats.frames_recv + 1);
        bytes_recv = u64 (stats.bytes_recv + length frame.payload);
      };
    }

unfoldable handle_frame : Payloads → Session → Frame → Writer → Session
handle_frame p session frame writer =
    let session' = received session frame in
    if eqb frame.frame_type frame_hello
    then handle_hello_frame session' frame writer
    else if eqb frame.frame_type frame_data
    then handle_data_frame p session' frame writer
    else if eqb frame.frame_type frame_ping
    then handle_ping_frame session' frame writer
    else if eqb frame.frame_type frame_stream_open
    then handle_stream_open session' frame
    else if eqb frame.frame_type frame_stream_close
    then handle_stream_close session' frame
    else session'
