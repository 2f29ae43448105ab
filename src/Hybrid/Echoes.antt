-- ===== src/Hybrid/Echoes.antt =====
-- experimental/main.go: what the counts of the hybrid server say, and what each loop has echoed.
use web_bou.Prelude.{
  sum, sum-at, ℕ, suc, ◌+◌, ◌≤◌, ◌≡◌, refl, ap, subst, ◌∙◌, [], ◌∷◌, length-append, All, arith,
}
use web_bou.Prelude.Int.{ℤ, pos, ◌+ℤ◌, ◌-ℤ◌}
use web_bou.Prelude.Words.{u64}
use web_bou.Encoding.{Bytes}
use web_bou.Hybrid.{
  Metrics, enter_web_transport, enter_web_socket, leave_session, count_message, Kind, web_socket,
  stream, Loop, new_loop, read_message, write_message, finish, HybridServer, new_hybrid_server,
  Step, web_transport_opened, web_transport_done, web_socket_opened, stream_accepted, message_read,
  message_written, loop_returned, datagram_received, datagram_sent, datagram_lost, Reach, here,
  next,
}
use web_bou.Hybrid.Loops.{sockets, messages, IsEcho, All-at, read-IsEcho, write-IsEcho}

abbrev IsEchoing : HybridServer → Type 0
IsEchoing s = All IsEcho s.live × All IsEcho s.ended

Step-IsEchoing : {s t : HybridServer} → Step s t → IsEchoing s → IsEchoing t
unfolding new_loop
Step-IsEchoing web_transport_opened h = h
Step-IsEchoing (web_transport_done others e) h = h
Step-IsEchoing web_socket_opened (live, ended) = ((refl, live), ended)
Step-IsEchoing stream_accepted (live, ended) = ((refl, live), ended)
Step-IsEchoing (message_read before l later msg e pending) (live, ended) =
    let (own, put, rest) = All-at IsEcho before l later (subst (All IsEcho) e live) in
    (put (read_message l msg) (read-IsEcho l msg own pending), ended)
Step-IsEchoing (message_written before l later msg e pending) (live, ended) =
    let (own, put, rest) = All-at IsEcho before l later (subst (All IsEcho) e live) in
    (put (write_message l msg) (write-IsEcho l msg own pending), ended)
Step-IsEchoing (loop_returned before l later e) (live, ended) =
    let (own, put, rest) = All-at IsEcho before l later (subst (All IsEcho) e live) in
    (rest, (own, ended))
Step-IsEchoing (datagram_received msg) h = h
Step-IsEchoing (datagram_sent before msg later e) h = h
Step-IsEchoing (datagram_lost before msg later e) h = h

abbrev IsTallied : HybridServer → Type 0
IsTallied s = s.metrics.total_messages ≡ u64 (sum messages s.live + sum messages s.ended)

finish-total_messages :
    (kind : Kind) (m : Metrics) → (finish kind m).total_messages ≡ m.total_messages
unfolding finish leave_session
finish-total_messages web_socket m = refl
finish-total_messages stream m = refl

Step-IsTallied : {s t : HybridServer} → Step s t → IsTallied s → IsTallied t
unfolding enter_web_transport enter_web_socket leave_session count_message new_loop read_message
    write_message
Step-IsTallied web_transport_opened h = h
Step-IsTallied (web_transport_done others e) h = h
Step-IsTallied {s} web_socket_opened h = omega arith
Step-IsTallied {s} stream_accepted h = omega arith
Step-IsTallied {s} (message_read before l later msg e pending) h = omega (
  arith,
  sum-at messages s.live before l later e,
  sum-at messages _ before (read_message l msg) later refl,
  length-append l.received (msg ∷ []),
)
Step-IsTallied {s} (message_written before l later msg e pending) h = omega (
  arith,
  sum-at messages s.live before l later e,
  sum-at messages _ before (write_message l msg) later refl,
)
Step-IsTallied {s} (loop_returned before l later e) h =
    omega (arith, sum-at messages s.live before l later e, finish-total_messages l.kind s.metrics)
Step-IsTallied (datagram_received msg) h = h
Step-IsTallied (datagram_sent before msg later e) h = h
Step-IsTallied (datagram_lost before msg later e) h = h

-- The number of sessions, and that of all web sockets so far.
abbrev IsCounted : HybridServer → Type 0
IsCounted s =
    (s.metrics.active_sessions ≡ pos (s.web_transports + sum sockets s.live))
    × (s.metrics.web_socket_count ≡ sum sockets s.live + sum sockets s.ended)

active_up : (z : ℤ) (n : ℕ) → z ≡ pos n → z +ℤ pos 1 ≡ pos (n + 1)
unfolding ◌+ℤ◌
active_up z n e = rw (e) (ground arith)

active_down : (z : ℤ) (n : ℕ) → z ≡ pos (suc n) → z -ℤ pos 1 ≡ pos n
unfolding ◌-ℤ◌
active_down z n e = rw (e) (ground arith)

-- A loop that returns leaves its session, if it counts one.
finish-active_sessions :
    (l : Loop) (m : Metrics) (n : ℕ)
    → m.active_sessions ≡ pos (sockets l + n)
    → (finish l.kind m).active_sessions ≡ pos n
unfolding finish leave_session
finish-active_sessions l m n h = by_kind l.kind (h ∙ ap pos (omega arith))
  where
    by_kind :
        (kind : Kind)
        → m.active_sessions ≡ pos ((elim kind [ web_socket ↦ 1 | stream ↦ 0 ]) + n)
        → (finish kind m).active_sessions ≡ pos n
    by_kind web_socket k = active_down _ _ (k ∙ ap pos (omega arith))
    by_kind stream k = k ∙ ap pos (omega arith)

finish-web_socket_count :
    (kind : Kind) (m : Metrics) → (finish kind m).web_socket_count ≡ m.web_socket_count
unfolding finish leave_session
finish-web_socket_count web_socket m = refl
finish-web_socket_count stream m = refl

Step-IsCounted : {s t : HybridServer} → Step s t → IsCounted s → IsCounted t
unfolding enter_web_transport enter_web_socket leave_session count_message new_loop read_message
    write_message
Step-IsCounted {s} web_transport_opened (active, ever) =
    (active_up _ _ active ∙ ap pos (omega arith), ever)
Step-IsCounted {s} (web_transport_done others e) (active, ever) =
    (active_down _ _ (active ∙ ap pos (omega (arith, e))), ever)
Step-IsCounted {s} web_socket_opened (active, ever) =
    (active_up _ _ active ∙ ap pos (omega arith), omega (arith, ever))
Step-IsCounted {s} stream_accepted (active, ever) =
    (active ∙ ap pos (omega arith), omega (arith, ever))
Step-IsCounted {s} (message_read before l later msg e pending) (active, ever) =
    let same = sum-at sockets s.live before l later e in
    let after = sum-at sockets _ before (read_message l msg) later refl in
    (active ∙ ap pos (omega (arith, same, after)), omega (arith, ever, same, after))
Step-IsCounted {s} (message_written before l later msg e pending) (active, ever) =
    let same = sum-at sockets s.live before l later e in
    let after = sum-at sockets _ before (write_message l msg) later refl in
    (active ∙ ap pos (omega (arith, same, after)), omega (arith, ever, same, after))
Step-IsCounted {s} (loop_returned before l later e) (active, ever) =
    let same = sum-at sockets s.live before l later e in
    (
      finish-active_sessions l s.metrics _ (active ∙ ap pos (omega (arith, same))),
      omega (arith, ever, same, finish-web_socket_count l.kind s.metrics),
    )
Step-IsCounted (datagram_received msg) h = h
Step-IsCounted (datagram_sent before msg later e) h = h
Step-IsCounted (datagram_lost before msg later e) h = h

-- No datagram is made up, and none is sent twice.
abbrev IsReturned : HybridServer → Type 0
IsReturned s =
    (w : Bytes → ℕ) → sum w s.datagrams_held + sum w s.datagrams_sent ≤ sum w s.datagrams_received

Step-IsReturned : {s t : HybridServer} → Step s t → IsReturned s → IsReturned t
Step-IsReturned web_transport_opened h = h
Step-IsReturned (web_transport_done others e) h = h
Step-IsReturned web_socket_opened h = h
Step-IsReturned stream_accepted h = h
Step-IsReturned (message_read before l later msg e pending) h = h
Step-IsReturned (message_written before l later msg e pending) h = h
Step-IsReturned (loop_returned before l later e) h = h
Step-IsReturned (datagram_received msg) h = λ w. omega (arith, h w)
Step-IsReturned {s} (datagram_sent before msg later e) h =
    λ w. omega (arith, h w, sum-at w s.datagrams_held before msg later e)
Step-IsReturned {s} (datagram_lost before msg later e) h =
    λ w. omega (arith, h w, sum-at w s.datagrams_held before msg later e)

-- In every order of the steps of all handlers, from the start: the active sessions are the WebTransport
-- sessions and web sockets that are open; the messages are those read by all loops, modulo 2 ^ 64; and
-- every loop, open or ended, has written back what it read, in order and unchanged, the type of a web
-- socket's message included, but for a last message that is not written yet; and no datagram is sent
-- back more often than it came, for any way to count them.
pub Reach-hybrid :
    {s : HybridServer}
    → Reach new_hybrid_server s
    → (s.metrics.active_sessions ≡ pos (s.web_transports + sum sockets s.live))
      × (s.metrics.total_messages ≡ u64 (sum messages s.live + sum messages s.ended))
      × (All IsEcho s.live × All IsEcho s.ended)
      × ((w : Bytes → ℕ) → sum w s.datagrams_sent ≤ sum w s.datagrams_received)
unfolding new_hybrid_server
Reach-hybrid r =
    ((counted r).0, tallied r, echoing r, λ w. let h = returned r w in omega (arith, h))
  where
    counted : {s : HybridServer} → Reach new_hybrid_server s → IsCounted s
    counted here = (refl, refl)
    counted (next r st) = Step-IsCounted st (counted r)

    tallied : {s : HybridServer} → Reach new_hybrid_server s → IsTallied s
    tallied here = refl
    tallied (next r st) = Step-IsTallied st (tallied r)

    echoing : {s : HybridServer} → Reach new_hybrid_server s → IsEchoing s
    echoing here = (tt, tt)
    echoing (next r st) = Step-IsEchoing st (echoing r)

    returned : {s : HybridServer} → Reach new_hybrid_server s → IsReturned s
    returned here = λ w. omega arith
    returned (next r st) = Step-IsReturned st (returned r)
