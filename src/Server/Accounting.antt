-- ===== src/Server/Accounting.antt =====
-- server/webbou/server.go, `handleTCPConnection`: what a connection leaves behind in the server.
use web_bou.Prelude.{string_eq, nat_eq, ◌≡◌, refl, none, List, String, Bool-cases, inl, inr}
use web_bou.Prelude.Maps.{get, get-delete-put}
use web_bou.Prelude.Clock.{Time}
use web_bou.Limits.Connections.{
  allow_connection, get_connection_count, count-refused, release-allow,
}
use web_bou.Server.{Payloads}
use web_bou.Server.Tcp.{
  Limiter, Arrival, Server, create_session, close_session, handle_tcp_connection,
}

module _ (p : Payloads) (lim : Limiter) (ip : String) where
  -- When `handleTCPConnection` returns, whatever bytes the connection delivered and whether it was
  -- admitted or refused, every IP has as many connections counted as before.
  count-handle_tcp_connection :
      (server : Server lim) (id : String) (accepted : Time) (arrivals : List Arrival) (j : String)
      → get_connection_count
          (handle_tcp_connection p lim ip server id accepted arrivals).0.conn_limiter
          j
        ≡ get_connection_count server.conn_limiter j
  unfolding handle_tcp_connection create_session close_session
  count-handle_tcp_connection server id accepted arrivals j =
      elim (Bool-cases (allow_connection server.conn_limiter ip).1) [
        | inl e ↦ rw (e) (release-allow server.conn_limiter ip j e)
        | inr e ↦ rw (e) (count-refused server.conn_limiter ip j e)
      ]

  -- When `handleTCPConnection` returns, the connection's session is gone if it was admitted, and every
  -- other session is as it was.
  sessions-handle_tcp_connection :
      (server : Server lim) (id other : String) (accepted : Time) (arrivals : List Arrival)
      → get id server.sessions ≡ none
      → get other (handle_tcp_connection p lim ip server id accepted arrivals).0.sessions
        ≡ get other server.sessions
  unfolding handle_tcp_connection create_session close_session
  sessions-handle_tcp_connection server id other accepted arrivals fresh =
      elim (Bool-cases (allow_connection server.conn_limiter ip).1) [
        | inl e ↦ rw (e) (get-delete-put id other _ server.sessions fresh)
        | inr e ↦ rw (e) refl
      ]
