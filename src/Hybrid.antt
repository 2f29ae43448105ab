-- ===== src/Hybrid.antt =====
-- experimental/main.go: the goroutines of the hybrid server, which echo messages and share its counts
-- under one lock. Each use of the lock is one step, and each message written. The libraries' sessions
-- and sockets appear by what they deliver, so that an error is a step too. To read a message and to
-- count it is one step.
pub mod Loops
pub mod Echoes
pub mod Page
use web_bou.Prelude.{ℕ, suc, ◌+◌, ◌≡◌, Option, none, some, List, [], ◌∷◌, ◌++◌}
use web_bou.Prelude.Int.{ℤ, pos, ◌+ℤ◌, ◌-ℤ◌}
use web_bou.Prelude.Words.{u64}
use web_bou.Encoding.{Bytes}

-- The counters of type `int` are without their wrap-around.
pub record Metrics : Type 0 where
  pub active_sessions : ℤ
  pub total_messages : ℕ
  pub web_transport_count : ℕ
  pub web_socket_count : ℕ

unfoldable pub enter_web_transport : Metrics → Metrics
enter_web_transport m = record m {
  active_sessions = m.active_sessions +ℤ pos 1;
  web_transport_count = m.web_transport_count + 1;
}

unfoldable pub enter_web_socket : Metrics → Metrics
enter_web_socket m = record m {
  active_sessions = m.active_sessions +ℤ pos 1;
  web_socket_count = m.web_socket_count + 1;
}

unfoldable pub leave_session : Metrics → Metrics
leave_session m = record m { active_sessions = m.active_sessions -ℤ pos 1 }

unfoldable pub count_message : Metrics → Metrics
count_message m = record m { total_messages = u64 (m.total_messages + 1) }

-- A loop that echoes: the body of `HandleWebSocket`, or `processStream` for a stream.
pub data Kind : Type 0 where
  web_socket : Kind
  stream : Kind

-- What a loop reads: from a web socket a message with its type, from a stream some bytes.
pub data Message : Type 0 where
  typed : ℤ → Bytes → Message
  chunk : Bytes → Message

-- `pending` is a message that is read and counted, and not yet written back.
pub record Loop : Type 0 where
  pub kind : Kind
  pub received : List Message
  pub echoed : List Message
  pub pending : Option Message

unfoldable pub new_loop : Kind → Loop
new_loop kind = record { kind = kind; received = []; echoed = []; pending = none }

unfoldable pub read_message : Loop → Message → Loop
read_message l msg = record l { received = l.received ++ msg ∷ []; pending = some msg }

unfoldable pub write_message : Loop → Message → Loop
write_message l msg = record l { echoed = l.echoed ++ msg ∷ []; pending = none }

-- What a loop does when it returns: only `HandleWebSocket` counts a session.
unfoldable pub finish : Kind → Metrics → Metrics
finish web_socket m = leave_session m
finish stream m = m

pub record HybridServer : Type 0 where
  pub metrics : Metrics
  -- The calls of `HandleWebTransport` that wait for their session to end.
  pub web_transports : ℕ
  pub live : List Loop
  pub ended : List Loop
  -- Datagrams: those that came, those that `processDatagram` holds, and those sent back.
  pub datagrams_received : List Bytes
  pub datagrams_held : List Bytes
  pub datagrams_sent : List Bytes

unfoldable pub new_hybrid_server : HybridServer
new_hybrid_server = record {
  metrics = record {
    active_sessions = pos 0;
    total_messages = 0;
    web_transport_count = 0;
    web_socket_count = 0;
  };
  web_transports = 0;
  live = [];
  ended = [];
  datagrams_received = [];
  datagrams_held = [];
  datagrams_sent = [];
}

-- A failed upgrade changes nothing. A loop returns on an error, of the reading or of the writing.
pub data Step (s : HybridServer) : HybridServer → Type 0 where
  web_transport_opened :
      Step s (record s {
        metrics = enter_web_transport s.metrics;
        web_transports = suc s.web_transports;
      })
  web_transport_done :
      (others : ℕ)
      → s.web_transports ≡ suc others
      → Step s (record s { metrics = leave_session s.metrics; web_transports = others })
  web_socket_opened :
      Step s
        (record s { metrics = enter_web_socket s.metrics; live = new_loop web_socket ∷ s.live })
  stream_accepted : Step s (record s { live = new_loop stream ∷ s.live })
  message_read :
      (before : List Loop) (l : Loop) (later : List Loop) (msg : Message)
      → s.live ≡ before ++ l ∷ later
      → l.pending ≡ none
      → Step s (record s {
        metrics = count_message s.metrics;
        live = before ++ read_message l msg ∷ later;
      })
  message_written :
      (before : List Loop) (l : Loop) (later : List Loop) (msg : Message)
      → s.live ≡ before ++ l ∷ later
      → l.pending ≡ some msg
      → Step s (record s { live = before ++ write_message l msg ∷ later })
  loop_returned :
      (before : List Loop) (l : Loop) (later : List Loop)
      → s.live ≡ before ++ l ∷ later
      → Step s (record s {
        metrics = finish l.kind s.metrics;
        live = before ++ later;
        ended = l ∷ s.ended;
      })
  datagram_received :
      (msg : Bytes)
      → Step s (record s {
        datagrams_received = msg ∷ s.datagrams_received;
        datagrams_held = msg ∷ s.datagrams_held;
      })
  datagram_sent :
      (before : List Bytes) (msg : Bytes) (later : List Bytes)
      → s.datagrams_held ≡ before ++ msg ∷ later
      → Step s
          (record s { datagrams_held = before ++ later; datagrams_sent = msg ∷ s.datagrams_sent })
  -- `SendDatagram` fails, which nothing looks at.
  datagram_lost :
      (before : List Bytes) (msg : Bytes) (later : List Bytes)
      → s.datagrams_held ≡ before ++ msg ∷ later
      → Step s (record s { datagrams_held = before ++ later })

pub data Reach (s : HybridServer) : HybridServer → Type 0 where
  here : Reach s s
  next : {t u : HybridServer} → Reach s t → Step t u → Reach s u
