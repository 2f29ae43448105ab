-- ===== src/Server/Network.antt =====
-- server/webbou/server.go, `startTCP`, `startQUIC` and the goroutines that they start: many connections
-- at once, their steps in any order. A step is what a goroutine does between two points where another
-- one may get in: each call that locks the limiter or the map of sessions, a read, the handling of one
-- frame. The map holds pointers to sessions, which nothing reads there: what a session has become is
-- with the goroutine that serves it. The source's `remoteIP` is the remote address, with its port. A read
-- may fail at any time, so the read deadline is one of the reasons. A stream that outlives its
-- connection changes only its session. A panic ends the process, and is no step.
pub mod Invariant
pub mod Moves
use web_bou.Prelude.{
  string_eq, ℕ, ◌≡◌, true, false, Option, some, none, List, [], ◌∷◌, ◌++◌, String,
}
use web_bou.Prelude.Int.{ℤ}
use web_bou.Prelude.Maps.{get}
use web_bou.Encoding.{Bytes}
use web_bou.Protocol.{Frame, Outcome, ok, err, Error}
use web_bou.Protocol.Reader.{FrameReader, new_frame_reader, feed, read_frame}
use web_bou.Limits.Connections.{new_connection_rate_limiter, allow_connection, release_connection}
use web_bou.Server.{Payloads, Session, new_session}
use web_bou.Server.Tcp.{Limiter, Served, Server, create_session, close_session, serve_frame}
use web_bou.Server.Quic.{serve_stream_frame, handle_datagram}

-- Where the goroutine of a connection stands: over TCP after `AllowConnection`, between `createSession`
-- and `closeSession`, and before `ReleaseConnection`.
pub data Live : Type 0 where
  admitted : String → Live
  serving : String → String → FrameReader → Session → Live
  leaving : String → Live
  quic : String → Session → Live

pub record System (lim : Limiter) : Type 0 where
  pub server : Server lim
  pub live : List Live

module _ {lim : Limiter} where
  -- `AllowConnection`, whichever its answer.
  unfoldable pub ask : Server lim → String → Server lim
  ask server addr = record server { conn_limiter = (allow_connection server.conn_limiter addr).0 }

  -- The deferred `ReleaseConnection`.
  unfoldable pub release : Server lim → String → Server lim
  release server addr = record server { conn_limiter = release_connection server.conn_limiter addr }

  -- One turn of the inner loop of `handleTCPConnection`.
  unfoldable pub serve : Payloads → Server lim → String → Session → Frame → Served lim
  serve p server addr session frame =
      serve_frame p lim addr (record { limiter = server.rate_limiter; session = session }) frame

  pub data Step (p : Payloads) (s : System lim) : System lim → Type 0 where
    allow :
        (addr : String)
        → (allow_connection s.server.conn_limiter addr).1 ≡ true
        → Step p s (record { server = ask s.server addr; live = admitted addr ∷ s.live })
    refuse :
        (addr : String)
        → (allow_connection s.server.conn_limiter addr).1 ≡ false
        → Step p s (record { server = ask s.server addr; live = s.live })
    -- `id` is drawn at random, or taken from the clock.
    open_session :
        (before later : List Live) (addr id : String)
        → s.live ≡ before ++ admitted addr ∷ later
        → Step p s (record {
          server = (create_session s.server id).0;
          live =
              before
              ++ serving id addr (new_frame_reader s.server.max_frame_size) (new_session id)
                ∷ later;
        })
    receive :
        (before later : List Live) (id addr : String) (reader : FrameReader) (session : Session)
        (chunk : Bytes)
        → s.live ≡ before ++ serving id addr reader session ∷ later
        → (read_frame reader).1 ≡ ok none
        → Step p s (record {
          server = s.server;
          live = before ++ serving id addr (feed reader chunk) session ∷ later;
        })
    serve_one :
        (before later : List Live) (id addr : String) (reader : FrameReader) (session : Session)
        (frame : Frame)
        → s.live ≡ before ++ serving id addr reader session ∷ later
        → (read_frame reader).1 ≡ ok (some frame)
        → Step p s (record {
          server = record s.server { rate_limiter = (serve p s.server addr session frame).limiter };
          live =
              before
              ++ serving id addr (read_frame reader).0 (serve p s.server addr session frame).session
                ∷ later;
        })
    -- `Read` fails, and the deferred `closeSession` runs.
    hang_up :
        (before later : List Live) (id addr : String) (reader : FrameReader) (session : Session)
        → s.live ≡ before ++ serving id addr reader session ∷ later
        → (read_frame reader).1 ≡ ok none
        → Step p s
            (record { server = close_session s.server id; live = before ++ leaving addr ∷ later })
    bad_frame :
        (before later : List Live) (id addr : String) (reader : FrameReader) (session : Session)
        (e : Error)
        → s.live ≡ before ++ serving id addr reader session ∷ later
        → (read_frame reader).1 ≡ err e
        → Step p s
            (record { server = close_session s.server id; live = before ++ leaving addr ∷ later })
    gone :
        (before later : List Live) (addr : String)
        → s.live ≡ before ++ leaving addr ∷ later
        → Step p s (record { server = release s.server addr; live = before ++ later })
    accept_quic :
        (id : String)
        → Step p s (record {
          server = (create_session s.server id).0;
          live = quic id (new_session id) ∷ s.live;
        })
    stream_frame :
        (before later : List Live) (id : String) (session : Session) (frame : Frame)
        → s.live ≡ before ++ quic id session ∷ later
        → Step p s (record {
          server = s.server;
          live = before ++ quic id (serve_stream_frame p session frame) ∷ later;
        })
    datagram :
        (before later : List Live) (id : String) (session session' : Session) (bytes : Bytes)
        → s.live ≡ before ++ quic id session ∷ later
        → handle_datagram p session bytes ≡ some session'
        → Step p s (record { server = s.server; live = before ++ quic id session' ∷ later })
    close_quic :
        (before later : List Live) (id : String) (session : Session)
        → s.live ≡ before ++ quic id session ∷ later
        → Step p s (record { server = close_session s.server id; live = before ++ later })

  -- A server as `NewServer` makes it, for any limit of connections.
  abbrev pub new_system : ℕ → ℤ → lim.S → System lim
  new_system max_per_ip max_frame_size limiter = record {
    server = record {
      sessions = [];
      conn_limiter = new_connection_rate_limiter max_per_ip;
      rate_limiter = limiter;
      max_frame_size = max_frame_size;
    };
    live = [];
  }

  pub data Reach (p : Payloads) (s : System lim) : System lim → Type 0 where
    here : Reach p s s
    next : {t u : System lim} → Reach p s t → Step p t u → Reach p s u

  module _ {p : Payloads} where
    -- An identifier that is drawn is not that of a stored session.
    abbrev pub DrawsFresh : {s t : System lim} → Step p s t → Type 0
    DrawsFresh {s} (open_session before later addr id e) = get id s.server.sessions ≡ none
    DrawsFresh {s} (accept_quic id) = get id s.server.sessions ≡ none
    DrawsFresh _ = Unit

    -- Every identifier of the run.
    abbrev pub AllFresh : {s t : System lim} → Reach p s t → Type 0
    AllFresh here = Unit
    AllFresh (next r st) = AllFresh r × DrawsFresh st
