-- ===== src/Protocol/Reading.antt =====
-- server/webbou/protocol.go, `ReadFrame`: the ways that it can go, and what more data changes.
use web_bou.Prelude.{
  ℕ, ◌+◌, ◌≤◌, ◌≡◌, ◌≢◌, refl, sym, ap, ◌∙◌, true, false, Option, none, some, ◌++◌, length, take,
  arith, length-append, take-append, drop-append, get_or-append, length-drop, Bool-cases, inl, inr,
  ltb,
}
use web_bou.Encoding.{Bytes, uint32_at}
use web_bou.Protocol.{frame_too_large, Frame, Outcome, ok, err, panic, unmarshal_frame}
use web_bou.Protocol.Reader.{FrameReader, feed, read_frame, consume, is_too_large}

uint32_at-append : (xs ys : Bytes) → 16 ≤ length xs → uint32_at (xs ++ ys) 8 ≡ uint32_at xs 8
uint32_at-append xs ys h = rw (
  get_or-append 8 0 xs ys (omega arith),
  get_or-append 9 0 xs ys (omega arith),
  get_or-append 10 0 xs ys (omega arith),
  get_or-append 11 0 xs ys (omega arith),
)

-- The size that the buffer's header announces.
abbrev pub total_size : FrameReader → ℕ
total_size fr = 16 + uint32_at fr.buffer 8

-- The buffer holds the whole of an admissible frame.
pub record IsComplete (fr : FrameReader) : Type 0 where
  pub small : is_too_large fr (uint32_at fr.buffer 8) ≡ false
  pub whole : total_size fr ≤ length fr.buffer

pub read_frame_complete :
    (fr : FrameReader)
    → IsComplete fr
    → read_frame fr ≡ consume fr (total_size fr) (unmarshal_frame (take (total_size fr) fr.buffer))
unfolding read_frame
read_frame_complete fr c = ground (arith, c.small, c.whole)

read_frame_oversized :
    (fr : FrameReader)
    → 16 ≤ length fr.buffer
    → is_too_large fr (uint32_at fr.buffer 8) ≡ true
    → read_frame fr ≡ (fr, err frame_too_large)
unfolding read_frame
read_frame_oversized fr long large = ground (arith, long, large)

-- The three ways that `read_frame` can go.
data Reading (fr : FrameReader) : Type 0 where
  partial : read_frame fr ≡ (fr, ok none) → Reading fr
  oversized : 16 ≤ length fr.buffer → is_too_large fr (uint32_at fr.buffer 8) ≡ true → Reading fr
  complete : IsComplete fr → Reading fr

small_frame_cases :
    (fr : FrameReader)
    → 16 ≤ length fr.buffer
    → is_too_large fr (uint32_at fr.buffer 8) ≡ false
    → Reading fr
unfolding read_frame
small_frame_cases fr long small = elim (Bool-cases (ltb (length fr.buffer) (total_size fr))) [
  | inl short ↦ partial (ground (arith, long, small, short))
  | inr whole ↦ complete (record { small = small; whole = ground (arith, whole) })
]

read_frame_cases : (fr : FrameReader) → Reading fr
unfolding read_frame
read_frame_cases fr = elim (Bool-cases (ltb (length fr.buffer) 16)) [
  | inl short ↦ partial (rw short)
  | inr long ↦ elim (Bool-cases (is_too_large fr (uint32_at fr.buffer 8))) [
    | inl large ↦ oversized (ground (arith, long)) large
    | inr small ↦ small_frame_cases fr (ground (arith, long)) small
  ]
]

-- More data behind a whole frame does not change how it is consumed.
consume-feed :
    (fr : FrameReader) (x : Bytes) (n : ℕ) (o : Outcome Frame)
    → n ≤ length fr.buffer
    → consume (feed fr x) n o ≡ (feed (consume fr n o).0 x, (consume fr n o).1)
unfolding feed
consume-feed fr x n (ok f) h =
    ap (λ b. (record fr { buffer = b }, ok (some f))) (drop-append n fr.buffer x h)
consume-feed fr x n (err e) h = refl
consume-feed fr x n panic h = refl

feed-IsComplete : (fr : FrameReader) (x : Bytes) → IsComplete fr → IsComplete (feed fr x)
unfolding feed
feed-IsComplete fr x c =
    let same = uint32_at-append fr.buffer x (omega (arith, c.whole)) in
    record {
      small = rw same c.small;
      whole = rw same (omega (arith, c.whole, length-append fr.buffer x));
    }

total_size-feed :
    (fr : FrameReader) (x : Bytes) → IsComplete fr → total_size (feed fr x) ≡ total_size fr
unfolding feed
total_size-feed fr x c = rw (uint32_at-append fr.buffer x (omega (arith, c.whole)))

unmarshal-feed :
    (fr : FrameReader) (x : Bytes)
    → IsComplete fr
    → unmarshal_frame (take (total_size (feed fr x)) (feed fr x).buffer)
      ≡ unmarshal_frame (take (total_size fr) fr.buffer)
unfolding feed
unmarshal-feed fr x c =
    rw (uint32_at-append fr.buffer x (omega (arith, c.whole)))
      (ap unmarshal_frame (take-append (total_size fr) fr.buffer x c.whole))

-- A `ReadFrame` that did not ask for more data goes the same way when more data follows.
pub read_frame-feed :
    (fr : FrameReader) (x : Bytes)
    → (read_frame fr).1 ≢ ok none
    → read_frame (feed fr x) ≡ (feed (read_frame fr).0 x, (read_frame fr).1)
read_frame-feed fr x asks = by_reading (read_frame_cases fr)
  where
    by_reading : Reading fr → read_frame (feed fr x) ≡ (feed (read_frame fr).0 x, (read_frame fr).1)
    by_reading (partial e) = absurd (asks (ap (λ p. p.1) e))
    by_reading (oversized long large) =
        let grown : 16 ≤ length (feed fr x).buffer =
          unfold feed in omega (arith, length-append fr.buffer x) in
        let still : is_too_large (feed fr x) (uint32_at (feed fr x).buffer 8) ≡ true =
          unfold feed in rw (uint32_at-append fr.buffer x long) large in
        rw (read_frame_oversized fr long large) (read_frame_oversized (feed fr x) grown still)
    by_reading (complete c) =
        read_frame_complete (feed fr x) (feed-IsComplete fr x c)
        ∙ ap (consume (feed fr x) (total_size (feed fr x))) (unmarshal-feed fr x c)
        ∙ ap (λ n. consume (feed fr x) n (unmarshal_frame (take (total_size fr) fr.buffer)))
            (total_size-feed fr x c)
        ∙ consume-feed fr x (total_size fr) _ c.whole
        ∙ ap (λ (p : FrameReader × Outcome (Option Frame)). (feed p.0 x, p.1))
            (sym (read_frame_complete fr c))

consume_shrinks :
    (fr : FrameReader) (n : ℕ) (o : Outcome Frame) (f : Frame)
    → n ≤ length fr.buffer
    → (consume fr n o).1 ≡ ok (some f)
    → length (consume fr n o).0.buffer + n ≡ length fr.buffer
consume_shrinks fr n (ok g) f h e = omega (arith, length-drop n fr.buffer)
consume_shrinks fr n (err x) f h e = absurd (cc)
consume_shrinks fr n panic f h e = absurd (cc)

-- A frame takes its header out of the buffer, at the least.
pub read_frame_shrinks :
    (fr : FrameReader) (f : Frame)
    → (read_frame fr).1 ≡ ok (some f)
    → length (read_frame fr).0.buffer + 16 ≤ length fr.buffer
read_frame_shrinks fr f e = by_reading (read_frame_cases fr)
  where
    by_reading : Reading fr → length (read_frame fr).0.buffer + 16 ≤ length fr.buffer
    by_reading (partial p) = absurd (cc)
    by_reading (oversized long large) = let p = read_frame_oversized fr long large in absurd (cc)
    by_reading (complete c) =
        let p = read_frame_complete fr c in
        rw p (
          omega (
            arith,
            consume_shrinks fr (total_size fr) (unmarshal_frame (take (total_size fr) fr.buffer)) f
                c.whole (rw p at e),
          ))

consume_answers : (fr : FrameReader) (n : ℕ) (o : Outcome Frame) → (consume fr n o).1 ≢ ok none
consume_answers fr n (ok f) = grind arith
consume_answers fr n (err e) = grind arith
consume_answers fr n panic = grind arith

-- A reader that asks for more data is left as it was.
pub read_frame_waits : (fr : FrameReader) → (read_frame fr).1 ≡ ok none → (read_frame fr).0 ≡ fr
read_frame_waits fr e = by_reading (read_frame_cases fr)
  where
    by_reading : Reading fr → (read_frame fr).0 ≡ fr
    by_reading (partial p) = ap (λ q. q.0) p
    by_reading (oversized long large) = let p = read_frame_oversized fr long large in absurd (cc)
    by_reading (complete c) =
        absurd (consume_answers fr (total_size fr) _ (rw (read_frame_complete fr c) at e))
