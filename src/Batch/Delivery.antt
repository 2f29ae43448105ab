-- ===== src/Batch/Delivery.antt =====
-- server/webbou/batch.go: what happens to the frames that are added.
use web_bou.Prelude.{
  ℕ, ◌≡◌, ◌≢◌, refl, ap, sym, ◌∙◌, false, List, [], ◌∷◌, ◌++◌, flatten, append_assoc, append-nil,
  arith,
}
use web_bou.Protocol.{Frame}
use web_bou.Batch.{
  FrameBatcher, add, take_batch, LoopState, waiting, woken, holding, System, after_take, Step,
  add_frame, tick, wake, loop_take, loop_flush, call_take, call_flush, new_system, Reach, here,
  next,
}

-- The batch that the loop has taken and not passed on.
abbrev pub held : LoopState → List Frame
held waiting = []
held woken = []
held (holding batch) = batch

flatten-append : (xs ys : List (List Frame)) → flatten (xs ++ ys) ≡ flatten xs ++ flatten ys
flatten-append [] ys = refl
flatten-append (x ∷ xs) ys =
    ap (λ l. x ++ l) (flatten-append xs ys) ∙ sym (append_assoc x (flatten xs) (flatten ys))

pub held-after_take : (batch : List Frame) → held (after_take batch) ≡ batch
held-after_take [] = refl
held-after_take (f ∷ batch) = refl

pub frames-add : (fb : FrameBatcher) (f : Frame) → (add fb f).frames ≡ fb.frames ++ f ∷ []
unfolding add
frames-add fb f = ground arith

-- All frames, in the order in which the loop passes them on.
abbrev pub in_order : System → List Frame
in_order s = flatten s.flushed ++ held s.loop ++ s.batcher.frames

record IsOrdered (s : System) : Type 0 where
  nobody : s.callers ≡ []
  ordered : in_order s ≡ s.added

append_ne_nil {ℓ} : {A : Type ℓ} (xs : List A) (y : A) (ys : List A) → xs ++ y ∷ ys ≢ []
append_ne_nil [] y ys = λ e. cc
append_ne_nil (x ∷ xs) y ys = λ e. cc

-- The loop holds nothing where it stands at its `select`, or is just past it.
idle_order :
    (s : System) (l : LoopState)
    → s.loop ≡ l
    → held l ≡ []
    → flatten s.flushed ++ [] ++ s.batcher.frames ≡ in_order s
idle_order s l e h = ap (λ b. flatten s.flushed ++ b ++ s.batcher.frames) (sym (ap held e ∙ h))

Step-IsOrdered : {s t : System} → Step false s t → IsOrdered s → IsOrdered t
unfolding take_batch
Step-IsOrdered {s} (add_frame f) o = record {
  nobody = o.nobody;
  ordered =
      ap (λ l. flatten s.flushed ++ held s.loop ++ l) (frames-add s.batcher f)
      ∙ sym (append_assoc (flatten s.flushed ++ held s.loop) s.batcher.frames (f ∷ []))
      ∙ ap (λ l. l ++ f ∷ []) o.ordered;
}
Step-IsOrdered {s} (tick e) o = record {
  nobody = o.nobody;
  ordered = idle_order s waiting e refl ∙ o.ordered;
}
Step-IsOrdered {s} (wake e full) o = record {
  nobody = o.nobody;
  ordered = idle_order s waiting e refl ∙ o.ordered;
}
Step-IsOrdered {s} (loop_take e) o = record {
  nobody = o.nobody;
  ordered =
      append-nil (flatten s.flushed ++ held (after_take s.batcher.frames))
      ∙ ap (λ b. flatten s.flushed ++ b) (held-after_take s.batcher.frames)
      ∙ ap (λ b. b ++ s.batcher.frames) (sym (append-nil (flatten s.flushed)))
      ∙ idle_order s woken e refl
      ∙ o.ordered;
}
Step-IsOrdered {s} (loop_flush batch e) o = record {
  nobody = o.nobody;
  ordered =
      ap (λ b. b ++ s.batcher.frames)
        (append-nil (flatten (s.flushed ++ batch ∷ []))
          ∙ flatten-append s.flushed (batch ∷ [])
          ∙ ap (λ b. flatten s.flushed ++ b) (append-nil batch ∙ sym (ap held e)))
      ∙ o.ordered;
}
Step-IsOrdered {s} (call_take called some_frames) o = absurd (cc)
Step-IsOrdered {s} (call_flush before batch later e) o =
    absurd (append_ne_nil before batch later (sym e ∙ o.nobody))

Reach-IsOrdered : {s t : System} → Reach false s t → IsOrdered s → IsOrdered t
Reach-IsOrdered here o = o
Reach-IsOrdered (next r st) o = Step-IsOrdered st (Reach-IsOrdered r o)

-- While nobody calls `Flush`, whatever the order of the steps: the batches that `onFlush` was called
-- with, the batch that the loop holds and the frames that wait are, one after the other, the frames
-- that were added, in their order, none lost and none twice.
pub Reach-in_order :
    (max_frames : ℕ) {s : System} → Reach false (new_system max_frames) s → in_order s ≡ s.added
Reach-in_order max_frames r = (Reach-IsOrdered r (record { nobody = refl; ordered = refl })).ordered
