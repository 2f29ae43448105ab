-- ===== src/Server/Tcp.antt =====
-- server/webbou/server.go, `handleTCPConnection`: what one connection does to the server.
use web_bou.Prelude.{
  string_eq, ◌+◌, ◌*◌, ltb, [], ◌∷◌, Bool, Option, none, some, List, String, if◌then◌else◌,
}
use web_bou.Prelude.Int.{ℤ}
use web_bou.Prelude.Maps.{Map, put, delete}
use web_bou.Encoding.{Bytes}
use web_bou.Protocol.{Frame}
use web_bou.Protocol.Reader.{new_frame_reader}
use web_bou.Limits.Connections.{ConnectionRateLimiter, allow_connection, release_connection}
use web_bou.Server.{Payloads, Session, conn, new_session, handle_frame}
use web_bou.Prelude.Clock.{Time, Duration, second}
use web_bou.Server.Loop.{Round, serve_chunks}

-- What the handler uses of the rate limiter; its clock is in its state.
pub record Limiter : Type 1 where
  pub S : Type 0
  pub allow_ip : S → String → S × Bool

-- The state of the loops: the rate limiter, which other connections share, and the session.
pub record Served (lim : Limiter) : Type 0 where
  pub limiter : lim.S
  pub session : Session

-- The parts of the server that a connection changes.
pub record Server (lim : Limiter) : Type 0 where
  pub sessions : Map String Session
  pub conn_limiter : ConnectionRateLimiter
  pub rate_limiter : lim.S
  pub max_frame_size : ℤ

-- `createSession` and `closeSession`, with the id that the source draws at random.
unfoldable pub create_session : {lim : Limiter} → Server lim → String → Server lim × Session
create_session server id =
    (record server { sessions = put id (new_session id) server.sessions }, new_session id)

unfoldable pub close_session : {lim : Limiter} → Server lim → String → Server lim
close_session server id = record server { sessions = delete id server.sessions }

-- `readIdleTimeout`
abbrev pub read_idle_timeout : Duration
read_idle_timeout = 60 * second

-- What a `Read` gives, and when it can give it: these bytes are there, and the loops ask for them.
pub record Arrival : Type 0 where
  pub at : Time
  pub chunk : Bytes

-- The chunks that are read: the deadline is set once, and from then on every `Read` fails, also where
-- bytes have arrived.
abbrev pub read_before : Time → List Arrival → List Bytes
read_before deadline [] = []
read_before deadline (a ∷ arrivals) =
    let rest = read_before deadline arrivals in if ltb a.at deadline then a.chunk ∷ rest else []

-- `ip` is the source's `remoteIP`: the remote address, with its port.
module _ (p : Payloads) (lim : Limiter) (ip : String) where
  open lim use {allow_ip}

  -- The body of the inner loop: a frame beyond the rate limit is dropped.
  unfoldable pub serve_frame : Served lim → Frame → Served lim
  serve_frame s frame =
      let (limiter', allowed) = allow_ip s.limiter ip in
      record {
        limiter = limiter';
        session = if allowed then handle_frame p s.session frame conn else s.session;
      }

  -- The read loops of an accepted connection.
  unfoldable pub read_frames : ℤ → Time → List Arrival → Served lim → Round (Served lim)
  read_frames max_frame_size accepted arrivals s =
      serve_chunks serve_frame (read_before (accepted + read_idle_timeout) arrivals)
        (new_frame_reader max_frame_size) s

  -- The session as the connection leaves it; `none` where the connection was refused. After what is
  -- read before the deadline the next `Read` fails, if no bad frame has ended the loops by then.
  unfoldable pub handle_tcp_connection :
      Server lim → String → Time → List Arrival → Server lim × Option Session
  handle_tcp_connection server id accepted arrivals =
      let (conn_limiter', admitted) = allow_connection server.conn_limiter ip in
      if admitted
      then (let (opened, session) =
            create_session (record server { conn_limiter = conn_limiter' }) id in
          let r =
            read_frames server.max_frame_size accepted arrivals
              (record { limiter = opened.rate_limiter; session = session }) in
          let closed = close_session (record opened { rate_limiter = r.served.limiter }) id in
          (
            record closed { conn_limiter = release_connection closed.conn_limiter ip },
            some r.served.session,
          ))
      else (record server { conn_limiter = conn_limiter' }, none)
