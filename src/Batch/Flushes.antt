-- ===== src/Batch/Flushes.antt =====
-- server/webbou/batch.go: batches that callers of `Flush` take beside the loop, and the loop's signal.
use web_bou.Prelude.{
  ℕ, ◌+◌, ◌<◌, ◌≤◌, ◌≡◌, ◌≢◌, ◌⊎◌, inr, refl, ap, Bool, true, List, [], ◌∷◌, ◌++◌, length, arith,
}
use web_bou.Protocol.{Frame}
use web_bou.Batch.{
  add, take_batch, woken, System, Step, add_frame, tick, wake, loop_take, loop_flush, call_take,
  call_flush, new_system, Reach, here, next,
}
use web_bou.Batch.Delivery.{held, held-after_take, frames-add}

module _ (w : Frame → ℕ) where
  -- The weight of frames; with the weight 1 for one frame and 0 for the others, how often it occurs.
  abbrev pub weight : List Frame → ℕ
  weight [] = 0
  weight (f ∷ fs) = w f + weight fs

  abbrev weights : List (List Frame) → ℕ
  weights [] = 0
  weights (b ∷ bs) = weight b + weights bs

  weight-append : (xs ys : List Frame) → weight (xs ++ ys) ≡ weight xs + weight ys
  weight-append [] ys = omega arith
  weight-append (x ∷ xs) ys = omega (arith, weight-append xs ys)

  weights-append : (xs ys : List (List Frame)) → weights (xs ++ ys) ≡ weights xs + weights ys
  weights-append [] ys = omega arith
  weights-append (x ∷ xs) ys = omega (arith, weights-append xs ys)

  abbrev pub everywhere : System → ℕ
  everywhere s =
      weights s.flushed + weights s.callers + weight (held s.loop) + weight s.batcher.frames

  Step-weight :
      {direct : Bool} {s t : System}
      → Step direct s t
      → everywhere s ≡ weight s.added
      → everywhere t ≡ weight t.added
  unfolding take_batch
  Step-weight {s} (add_frame f) h = omega (
    arith,
    ap weight (frames-add s.batcher f),
    weight-append s.batcher.frames (f ∷ []),
    weight-append s.added (f ∷ []),
  )
  Step-weight (tick e) h = omega (arith, ap (λ l. weight (held l)) e)
  Step-weight (wake e full) h = omega (arith, ap (λ l. weight (held l)) e)
  Step-weight {s} (loop_take e) h =
      omega (arith, ap (λ l. weight (held l)) e, ap weight (held-after_take s.batcher.frames))
  Step-weight {s} (loop_flush batch e) h =
      omega (arith, ap (λ l. weight (held l)) e, weights-append s.flushed (batch ∷ []))
  Step-weight {s} (call_take called some_frames) h = omega arith
  Step-weight {s} (call_flush before batch later e) h = omega (
    arith,
    ap weights e,
    weights-append before (batch ∷ later),
    weights-append before later,
    weights-append s.flushed (batch ∷ []),
  )

  -- Also with callers of `Flush`, in every order of the steps: each frame that was added is in exactly
  -- one place, passed to `onFlush`, held by the loop or a caller, or waiting, as often as it was added.
  pub Reach-weight :
      {direct : Bool} (max_frames : ℕ) {s : System}
      → Reach direct (new_system max_frames) s
      → everywhere s ≡ weight s.added
  Reach-weight max_frames here = refl
  Reach-weight max_frames (next r st) = Step-weight st (Reach-weight max_frames r)

-- The batcher is full only if the loop has been told.
abbrev IsTold : System → Type 0
IsTold s =
    s.batcher.max_frames ≤ length s.batcher.frames
    → (s.batcher.flush_chan ≡ true) ⊎ (s.loop ≡ woken)

record IsAwake (max_frames : ℕ) (s : System) : Type 0 where
  fixed : s.batcher.max_frames ≡ max_frames
  told : IsTold s

Step-IsAwake :
    {direct : Bool} {max_frames : ℕ} {s t : System}
    → 0 < max_frames
    → Step direct s t
    → IsAwake max_frames s
    → IsAwake max_frames t
unfolding take_batch add
Step-IsAwake pos (add_frame f) a = record {
  fixed = ground (arith, a.fixed);
  told = ground (arith, a.told);
}
Step-IsAwake pos (tick e) a = record { fixed = a.fixed; told = λ h. inr refl }
Step-IsAwake pos (wake e full) a = record { fixed = a.fixed; told = λ h. inr refl }
Step-IsAwake pos (loop_take e) a = record {
  fixed = a.fixed;
  told = λ h. absurd (omega (arith, a.fixed));
}
Step-IsAwake pos (loop_flush batch e) a = record {
  fixed = a.fixed;
  told = ground (arith, a.told, e);
}
Step-IsAwake pos (call_take called some_frames) a = record {
  fixed = a.fixed;
  told = λ h. absurd (omega (arith, a.fixed));
}
Step-IsAwake pos (call_flush before batch later e) a = record { fixed = a.fixed; told = a.told }

-- No wakeup is lost, in every order of the steps: while as many frames wait as make a batch, the
-- channel holds a signal for the loop, or the loop is on its way to take them.
pub Reach-told :
    {direct : Bool} (max_frames : ℕ) {s : System}
    → 0 < max_frames
    → Reach direct (new_system max_frames) s
    → max_frames ≤ length s.batcher.frames
    → (s.batcher.flush_chan ≡ true) ⊎ (s.loop ≡ woken)
Reach-told max_frames pos r full = let a = awake r in a.told (omega (arith, a.fixed))
  where
    awake :
        {direct : Bool} {s : System} → Reach direct (new_system max_frames) s → IsAwake max_frames s
    awake here = record { fixed = refl; told = λ h. absurd (omega arith) }
    awake (next later st) = Step-IsAwake pos st (awake later)

cons_ne_nil : (f : Frame) (fs : List Frame) → f ∷ fs ≢ []
cons_ne_nil f fs = λ e. cc

-- Where `Flush` is called by several goroutines the order can be lost: of two frames, the later one
-- can reach `onFlush` first, whatever the size of a batch.
flush_reorders :
    (max_frames : ℕ) (f g : Frame)
    → (s : System) × Reach true (new_system max_frames) s
      × (s.added ≡ f ∷ g ∷ [])
      × (s.flushed ≡ (g ∷ []) ∷ (f ∷ []) ∷ [])
unfolding take_batch
flush_reorders max_frames f g =
    let one = add (new_system max_frames).batcher f in
    let two = add (take_batch one).0 g in
    let one_is : one.frames ≡ f ∷ [] = frames-add (new_system max_frames).batcher f in
    let two_is : two.frames ≡ g ∷ [] = frames-add (take_batch one).0 g in
    let some_one : one.frames ≢ [] = rw one_is (cons_ne_nil f []) in
    let some_two : two.frames ≢ [] = rw two_is (cons_ne_nil g []) in
    let first = next (next here (add_frame f)) (call_take refl some_one) in
    let second = next (next first (add_frame g)) (call_take refl some_two) in
    let third = next second (call_flush [] two.frames (one.frames ∷ []) refl) in
    (_, next third (call_flush [] one.frames [] refl), refl, rw (one_is, two_is) refl)
