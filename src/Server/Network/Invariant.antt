-- ===== src/Server/Network/Invariant.antt =====
-- server/webbou/server.go: what holds of the limits and sessions however the connections interleave.
use web_bou.Prelude.{string_eq, ℕ, ◌≡◌, refl, none, [], String, arith}
use web_bou.Prelude.Int.{ℤ}
use web_bou.Prelude.Maps.{get}
use web_bou.Limits.Connections.{new_connection_rate_limiter, get_connection_count}
use web_bou.Server.{Payloads}
use web_bou.Server.Tcp.{Limiter}
use web_bou.Server.Network.{
  System, Step, allow, refuse, open_session, receive, serve_one, hang_up, bad_frame, gone,
  accept_quic, stream_frame, datagram, close_quic, new_system, Reach, here, next, DrawsFresh,
  AllFresh,
}
use web_bou.Server.Network.Moves.{
  IsConsistent, move-IsConsistent, allow-IsConsistent, refuse-IsConsistent, release-IsConsistent,
  open-IsConsistent, accept-IsConsistent, close-IsConsistent, close_quic-IsConsistent,
}

module _ {p : Payloads} {lim : Limiter} {limit : ℕ} where
  Step-IsConsistent :
      {s t : System lim} (st : Step p s t)
      → DrawsFresh st
      → IsConsistent limit s
      → IsConsistent limit t
  Step-IsConsistent {s} (allow addr ok) fresh c = allow-IsConsistent s c addr ok
  Step-IsConsistent {s} (refuse addr refused) fresh c = refuse-IsConsistent s c addr refused
  Step-IsConsistent {s} (open_session before later addr id e) fresh c =
      open-IsConsistent s c before later addr id _ e fresh (λ a. refl) (λ j. refl)
  Step-IsConsistent {s} (receive before later id addr reader session chunk e waits) fresh c =
      move-IsConsistent s c s.server before later _ _ e refl refl (λ a. refl) (λ j. refl)
  Step-IsConsistent {s} (serve_one before later id addr reader session frame e some_frame) fresh c =
      move-IsConsistent s c _ before later _ _ e refl refl (λ a. refl) (λ j. refl)
  Step-IsConsistent {s} (hang_up before later id addr reader session e waits) fresh c =
      close-IsConsistent s c before later id addr _ e (λ a. refl) (λ j. refl)
  Step-IsConsistent {s} (bad_frame before later id addr reader session x e bad) fresh c =
      close-IsConsistent s c before later id addr _ e (λ a. refl) (λ j. refl)
  Step-IsConsistent {s} (gone before later addr e) fresh c =
      release-IsConsistent s c before later addr e
  Step-IsConsistent {s} (accept_quic id) fresh c = accept-IsConsistent s c id fresh
  Step-IsConsistent {s} (stream_frame before later id session frame e) fresh c =
      move-IsConsistent s c s.server before later _ _ e refl refl (λ a. refl) (λ j. refl)
  Step-IsConsistent {s} (datagram before later id session session' bytes e done) fresh c =
      move-IsConsistent s c s.server before later _ _ e refl refl (λ a. refl) (λ j. refl)
  Step-IsConsistent {s} (close_quic before later id session e) fresh c =
      close_quic-IsConsistent s c before later id session e

new-IsConsistent :
    {lim : Limiter} (limit : ℕ) (max_frame_size : ℤ) (limiter : lim.S)
    → IsConsistent limit (new_system {lim = lim} limit max_frame_size limiter)
unfolding new_connection_rate_limiter get_connection_count get
new-IsConsistent limit max_frame_size limiter = record {
  fixed = refl;
  within = λ a. omega arith;
  counted = λ a. refl;
  owned = λ id. refl;
}

-- However the steps of the connections interleave, from a new server on: if no identifier is drawn that a
-- stored session has, then for each remote address, which has the port in it, the limiter counts exactly
-- the TCP connections from `AllowConnection` to `ReleaseConnection`, which are never more than the limit;
-- and the stored sessions are exactly those of the TCP and QUIC connections from `createSession` to
-- `closeSession`, one for each.
pub Reach-IsConsistent :
    {p : Payloads} {lim : Limiter} (limit : ℕ) (max_frame_size : ℤ) (limiter : lim.S)
    {s : System lim} (r : Reach p (new_system limit max_frame_size limiter) s)
    → AllFresh r
    → IsConsistent limit s
Reach-IsConsistent limit max_frame_size limiter here fresh =
    new-IsConsistent limit max_frame_size limiter
Reach-IsConsistent limit max_frame_size limiter (next r st) (before, fresh) =
    Step-IsConsistent st fresh (Reach-IsConsistent limit max_frame_size limiter r before)

-- Under the same condition, when the last connection has gone nothing is left of any: no session is
-- stored, and no connection is counted.
Reach-idle :
    {p : Payloads} {lim : Limiter} (limit : ℕ) (max_frame_size : ℤ) (limiter : lim.S)
    {s : System lim} (r : Reach p (new_system limit max_frame_size limiter) s)
    → AllFresh r
    → s.live ≡ []
    → ((id : String) → get id s.server.sessions ≡ none)
      × ((a : String) → get_connection_count s.server.conn_limiter a ≡ 0)
Reach-idle limit max_frame_size limiter {s} r fresh idle =
    let c = Reach-IsConsistent limit max_frame_size limiter r fresh in
    (λ id. ground (arith, idle, c.owned id), λ a. ground (arith, idle, c.counted a))
