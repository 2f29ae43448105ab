-- ===== src/Protocol/Stream.antt =====
-- server/webbou/protocol.go and the read loops of server/webbou/server.go: the frames that a reader
-- yields do not depend on how the connection cuts the byte stream into chunks.
use web_bou.Prelude.{
  ℕ, zero, suc, ◌<◌, ◌≡◌, ◌≢◌, refl, sym, ap, ◌∙◌, Option, none, some, List, [], ◌∷◌, ◌++◌, length,
  arith, append-nil, append_assoc, flatten,
}
use web_bou.Encoding.{Bytes}
use web_bou.Protocol.{Frame, Outcome, ok, err, panic}
use web_bou.Protocol.Reader.{
  FrameReader, feed, read_frame, Stop, need_more, out_of_fuel, Drained, push, after, go_on, drain,
  drain_all, prepend, read_stream,
}
use web_bou.Protocol.Reading.{read_frame-feed, read_frame_shrinks, read_frame_waits}

-- Two rounds agree if they do where a frame was read.
after_cong :
    (fr : FrameReader) (o : Outcome (Option Frame)) (r s : Drained)
    → ((f : Frame) → o ≡ ok (some f) → r ≡ s)
    → after fr o r ≡ after fr o s
after_cong fr (ok none) r s h = refl
after_cong fr (ok (some f)) r s h = ap (push f) (h f refl)
after_cong fr (err e) r s h = refl
after_cong fr panic r s h = refl

-- Fuel above the buffer's length changes nothing.
drain-fuel :
    (n m : ℕ) (fr : FrameReader)
    → length fr.buffer < n
    → length fr.buffer < m
    → drain n fr ≡ drain m fr
unfolding drain
drain-fuel zero m fr h k = elim h [ ]
drain-fuel (suc n) zero fr h k = elim k [ ]
drain-fuel (suc n) (suc m) fr h k =
    after_cong (read_frame fr).0 (read_frame fr).1 (drain n (read_frame fr).0)
      (drain m (read_frame fr).0)
      (λ f e.
        drain-fuel n m (read_frame fr).0 (omega (arith, read_frame_shrinks fr f e))
          (omega (arith, read_frame_shrinks fr f e)))

-- The loop, one round at a time and with no fuel.
pub drain_all_lem :
    (fr : FrameReader)
    → drain_all fr ≡ after (read_frame fr).0 (read_frame fr).1 (drain_all (read_frame fr).0)
unfolding drain_all drain
drain_all_lem fr = after_cong (read_frame fr).0 (read_frame fr).1 _ _ (λ f e.
    drain-fuel (length fr.buffer) (suc (length (read_frame fr).0.buffer)) (read_frame fr).0
      (omega (arith, read_frame_shrinks fr f e)) (omega arith))

after_total :
    (fr : FrameReader) (o : Outcome (Option Frame)) (rest : Drained)
    → ((f : Frame) → o ≡ ok (some f) → rest.stop ≢ out_of_fuel)
    → (after fr o rest).stop ≢ out_of_fuel
after_total fr (ok none) rest h = grind arith
after_total fr (ok (some f)) rest h = h f refl
after_total fr (err e) rest h = grind arith
after_total fr panic rest h = grind arith

drain_total : (n : ℕ) (fr : FrameReader) → length fr.buffer < n → (drain n fr).stop ≢ out_of_fuel
unfolding drain
drain_total zero fr h = elim h [ ]
drain_total (suc n) fr h =
    after_total (read_frame fr).0 (read_frame fr).1 (drain n (read_frame fr).0)
      (λ f e. drain_total n (read_frame fr).0 (omega (arith, read_frame_shrinks fr f e)))

-- The loop around `ReadFrame` ends by itself: its fuel never runs out.
pub drain_all_total : (fr : FrameReader) → (drain_all fr).stop ≢ out_of_fuel
unfolding drain_all
drain_all_total fr = drain_total (suc (length fr.buffer)) fr (omega arith)

-- How a loop that ended goes on when `x` is fed.
abbrev resume_by : Stop → Bytes → Drained → Drained
resume_by need_more x d = prepend d.frames (drain_all (feed d.reader x))
resume_by _ x d = record d { reader = feed d.reader x }

abbrev resume : Bytes → Drained → Drained
resume x d = resume_by d.stop x d

resume_by-push :
    (s : Stop) (x : Bytes) (f : Frame) (d : Drained)
    → resume_by s x (push f d) ≡ push f (resume_by s x d)
resume_by-push need_more x f d = refl
resume_by-push _ x f d = refl

module _ (x : Bytes) where
  resumed : FrameReader → Outcome (Option Frame) → Drained → Drained
  resumed fr (ok none) rest = drain_all (feed fr x)
  resumed fr o rest = after (feed fr x) o (resume x rest)

  resume-after :
      (fr : FrameReader) (o : Outcome (Option Frame)) (rest : Drained)
      → resume x (after fr o rest) ≡ resumed fr o rest
  unfolding resumed
  resume-after fr (ok none) rest = refl
  resume-after fr (ok (some f)) rest = resume_by-push rest.stop x f rest
  resume-after fr (err e) rest = refl
  resume-after fr panic rest = refl

  module _ (fr : FrameReader) where
    -- One round of the loop over the longer buffer, where the shorter one did not ask for more.
    round-feed :
        (read_frame fr).1 ≢ ok none
        → ((f : Frame)
            → (read_frame fr).1 ≡ ok (some f)
            → drain_all (feed (read_frame fr).0 x) ≡ resume x (drain_all (read_frame fr).0))
        → drain_all (feed fr x)
          ≡ after
              (feed (read_frame fr).0 x)
              (read_frame fr).1
              (resume x (drain_all (read_frame fr).0))
    round-feed asks ih =
        drain_all_lem (feed fr x)
        ∙ ap (λ (p : FrameReader × Outcome (Option Frame)). after p.0 p.1 (drain_all p.0))
            (read_frame-feed fr x asks)
        ∙ after_cong (feed (read_frame fr).0 x) (read_frame fr).1 _ _ ih

    round_resumed :
        (o : Outcome (Option Frame))
        → (read_frame fr).1 ≡ o
        → ((f : Frame)
            → (read_frame fr).1 ≡ ok (some f)
            → drain_all (feed (read_frame fr).0 x) ≡ resume x (drain_all (read_frame fr).0))
        → drain_all (feed fr x) ≡ resumed (read_frame fr).0 o (drain_all (read_frame fr).0)
    unfolding resumed
    round_resumed (ok none) e ih = ap (λ r. drain_all (feed r x)) (sym (read_frame_waits fr e))
    round_resumed (ok (some f)) e ih =
        round-feed (λ n. grind (arith, e)) ih
        ∙ ap (λ o. after (feed (read_frame fr).0 x) o (resume x (drain_all (read_frame fr).0))) e
    round_resumed (err y) e ih =
        round-feed (λ n. grind (arith, e)) ih
        ∙ ap (λ o. after (feed (read_frame fr).0 x) o (resume x (drain_all (read_frame fr).0))) e
    round_resumed panic e ih =
        round-feed (λ n. grind (arith, e)) ih
        ∙ ap (λ o. after (feed (read_frame fr).0 x) o (resume x (drain_all (read_frame fr).0))) e

drain_all-feed_below :
    (n : ℕ) (fr : FrameReader) (x : Bytes)
    → length fr.buffer < n
    → drain_all (feed fr x) ≡ resume x (drain_all fr)
drain_all-feed_below zero fr x h = elim h [ ]
drain_all-feed_below (suc n) fr x h =
    round_resumed x fr (read_frame fr).1 refl
      (λ f e. drain_all-feed_below n (read_frame fr).0 x (omega (arith, read_frame_shrinks fr f e)))
    ∙ sym (resume-after x (read_frame fr).0 (read_frame fr).1 (drain_all (read_frame fr).0))
    ∙ ap (resume x) (sym (drain_all_lem fr))

-- Feeding more data before the loop is feeding it after the loop.
drain_all-feed : (fr : FrameReader) (x : Bytes) → drain_all (feed fr x) ≡ resume x (drain_all fr)
drain_all-feed fr x = drain_all-feed_below (suc (length fr.buffer)) fr x (omega arith)

after_waits :
    (fr : FrameReader) (o : Outcome (Option Frame)) (rest : Drained)
    → (o ≡ ok none → (read_frame fr).1 ≡ ok none)
    → ((f : Frame) → o ≡ ok (some f) → rest.stop ≡ need_more → (read_frame rest.reader).1 ≡ ok none)
    → (after fr o rest).stop ≡ need_more
    → (read_frame (after fr o rest).reader).1 ≡ ok none
after_waits fr (ok none) rest h k e = h refl
after_waits fr (ok (some f)) rest h k e = k f refl e
after_waits fr (err y) rest h k e = absurd (cc)
after_waits fr panic rest h k e = absurd (cc)

-- A loop that stopped for want of data left a reader that asks for more.
drain_waits :
    (n : ℕ) (fr : FrameReader)
    → (drain n fr).stop ≡ need_more
    → (read_frame (drain n fr).reader).1 ≡ ok none
unfolding drain
drain_waits zero fr e = absurd (cc)
drain_waits (suc n) fr e =
    after_waits (read_frame fr).0 (read_frame fr).1 (drain n (read_frame fr).0)
      (λ w. rw (read_frame_waits fr w) w) (λ f _. drain_waits n (read_frame fr).0) e

-- Two runs hand over the same frames and end alike.
pub record SameFrames (d e : Drained) : Type 0 where
  pub same_frames : d.frames ≡ e.frames
  pub same_stop : d.stop ≡ e.stop

prepend-SameFrames :
    (fs : List Frame) (d e : Drained) → SameFrames d e → SameFrames (prepend fs d) (prepend fs e)
prepend-SameFrames [] d e s = s
prepend-SameFrames (f ∷ fs) d e s =
    let t = prepend-SameFrames fs d e s in
    record { same_frames = ap (λ l. f ∷ l) t.same_frames; same_stop = t.same_stop }

-- The rest of the chunks: either the loop ended with an error, or it goes on alike.
go_on-SameFrames :
    (s : Stop) (d rest : Drained) (x : Bytes)
    → (s ≡ need_more → SameFrames rest (drain_all (feed d.reader x)))
    → SameFrames (go_on s d rest) (resume_by s x d)
go_on-SameFrames need_more d rest x h = prepend-SameFrames d.frames rest _ (h refl)
go_on-SameFrames _ d rest x h = record { same_frames = refl; same_stop = refl }

feed-nil : (fr : FrameReader) → feed fr [] ≡ fr
unfolding feed
feed-nil fr = ap (λ b. record fr { buffer = b }) (append-nil fr.buffer)

feed-feed : (fr : FrameReader) (x y : Bytes) → feed (feed fr x) y ≡ feed fr (x ++ y)
unfolding feed
feed-feed fr x y = ap (λ b. record fr { buffer = b }) (append_assoc fr.buffer x y)

drain_all_waiting :
    (fr : FrameReader)
    → (read_frame fr).1 ≡ ok none
    → drain_all fr ≡ record { frames = []; reader = fr; stop = need_more }
drain_all_waiting fr e =
    drain_all_lem fr
    ∙ ap (λ o. after (read_frame fr).0 o (drain_all (read_frame fr).0)) e
    ∙ ap (λ r. record { frames = []; reader = r; stop = need_more }) (read_frame_waits fr e)

-- However the connection cuts the bytes into chunks, a reader that waits for data hands over the
-- frames, and ends with the outcome, of one loop over all the bytes at once.
pub read_stream-flatten :
    (chunks : List Bytes) (fr : FrameReader)
    → (read_frame fr).1 ≡ ok none
    → SameFrames (read_stream fr chunks) (drain_all (feed fr (flatten chunks)))
unfolding read_stream drain drain_all
read_stream-flatten [] fr e =
    rw (feed-nil fr, drain_all_waiting fr e) (record { same_frames = refl; same_stop = refl })
read_stream-flatten (c ∷ cs) fr e =
    let d = drain_all (feed fr c) in
    rw (← feed-feed fr c (flatten cs), drain_all-feed (feed fr c) (flatten cs))
      (go_on-SameFrames d.stop d (read_stream d.reader cs) (flatten cs) (λ s.
        read_stream-flatten cs d.reader
          (drain_waits (suc (length (feed fr c).buffer)) (feed fr c) s)))
