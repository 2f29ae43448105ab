-- ===== src/Server/Streams.antt =====
-- server/webbou/server.go, `handleStreamOpen` and `handleStreamClose`: the count of active streams.
use web_bou.Prelude.{nat_eq, ℕ, ◌≡◌, true, none, eqb_iff, arith}
use web_bou.Prelude.Int.{ℤ, pos, ◌-ℤ◌, ◌+ℤ◌}
use web_bou.Prelude.Maps.{get, put, get-put, get-delete}
use web_bou.Protocol.{Frame}
use web_bou.Server.{Session, handle_stream_open, handle_stream_close}

regroup : (n : ℤ) → n +ℤ pos 1 +ℤ pos 1 -ℤ pos 1 ≡ n +ℤ pos 1
unfolding ◌+ℤ◌ ◌-ℤ◌
regroup n = ground arith

-- A stream that is opened twice and closed once is gone, and every other stream is as before, but
-- the count of active streams is one higher than it was.
streams_active-reopened :
    (s : Session) (f : Frame)
    → get f.stream_id s.streams ≡ none
    → let s' = handle_stream_close (handle_stream_open (handle_stream_open s f) f) f in
      ((j : ℕ) → get j s'.streams ≡ get j s.streams)
      × (s'.stats.streams_active ≡ s.stats.streams_active +ℤ pos 1)
unfolding handle_stream_close handle_stream_open
streams_active-reopened s f fresh =
    let k = f.stream_id in
    let once = put k true s.streams in
    (
      λ j. ground (
        arith,
        fresh,
        get-delete k j (put k true once),
        get-put k j true once,
        get-put k j true s.streams,
        eqb_iff k j,
      ),
      regroup s.stats.streams_active,
    )
