-- ===== src/Batch.antt =====
-- server/webbou/batch.go: the frame batcher. `Add` and `Flush` are called by any goroutine, `flushLoop` runs
-- in one of its own; their steps interleave. `flush` gives up the lock before it calls `onFlush`, so the
-- batch that it took is held by its goroutine in between. Go passes the frames by a copy of the
-- slice, so a batch does not change once it is taken. `onFlush` is set; a batcher that was made without one
-- discards its batches, and is not modelled.
pub mod Delivery
pub mod Flushes
use web_bou.Prelude.{
  ℕ, ◌≡◌, ◌≢◌, Bool, true, false, List, [], ◌∷◌, ◌++◌, length, leb, if◌then◌else◌,
}
use web_bou.Protocol.{Frame}

pub record FrameBatcher : Type 0 where
  pub frames : List Frame
  pub max_frames : ℕ
  pub flush_chan : Bool  -- the channel's one place is taken

-- A send that does not block: if the place is taken, it is dropped.
unfoldable trigger_flush : FrameBatcher → FrameBatcher
trigger_flush fb = record fb { flush_chan = true }

unfoldable pub add : FrameBatcher → Frame → FrameBatcher
unfolding trigger_flush
add fb frame =
    let grown = record fb { frames = fb.frames ++ frame ∷ [] } in
    if leb grown.max_frames (length grown.frames) then trigger_flush grown else grown

-- What `flush` does under the lock: the batch is the one that it goes on with.
unfoldable pub take_batch : FrameBatcher → FrameBatcher × List Frame
take_batch fb = (record fb { frames = [] }, fb.frames)

-- Where `flushLoop` stands: at its `select`, past it, or before `onFlush`.
pub data LoopState : Type 0 where
  waiting woken : LoopState
  holding : List Frame → LoopState

pub record System : Type 0 where
  pub batcher : FrameBatcher
  pub loop : LoopState
  pub callers : List (List Frame)  -- the batches that callers of `Flush` hold
  pub flushed : List (List Frame)  -- what `onFlush` was called with
  pub added : List Frame  -- what `Add` was called with

-- `flush` returns at once if there is nothing to flush.
abbrev after_take : List Frame → LoopState
after_take [] = waiting
after_take batch = holding batch

-- `direct` says whether anyone calls `Flush`.
pub data Step (direct : Bool) (s : System) : System → Type 0 where
  add_frame :
      (frame : Frame)
      → Step direct s (record s { batcher = add s.batcher frame; added = s.added ++ frame ∷ [] })
  tick : s.loop ≡ waiting → Step direct s (record s { loop = woken })
  wake :
      s.loop ≡ waiting
      → s.batcher.flush_chan ≡ true
      → Step direct s (record s { batcher = record s.batcher { flush_chan = false }; loop = woken })
  loop_take :
      s.loop ≡ woken
      → Step direct s (record s {
        batcher = (take_batch s.batcher).0;
        loop = after_take (take_batch s.batcher).1;
      })
  loop_flush :
      (batch : List Frame)
      → s.loop ≡ holding batch
      → Step direct s (record s { loop = waiting; flushed = s.flushed ++ batch ∷ [] })
  call_take :
      direct ≡ true
      → s.batcher.frames ≢ []
      → Step direct s (record s {
        batcher = (take_batch s.batcher).0;
        callers = (take_batch s.batcher).1 ∷ s.callers;
      })
  call_flush :
      (before : List (List Frame)) (batch : List Frame) (later : List (List Frame))
      → s.callers ≡ before ++ batch ∷ later
      → Step direct s (record s { callers = before ++ later; flushed = s.flushed ++ batch ∷ [] })

abbrev pub new_system : ℕ → System
new_system max_frames = record {
  batcher = record { frames = []; max_frames = max_frames; flush_chan = false };
  loop = waiting;
  callers = [];
  flushed = [];
  added = [];
}

pub data Reach (direct : Bool) (s : System) : System → Type 0 where
  here : Reach direct s s
  next : {t u : System} → Reach direct s t → Step direct t u → Reach direct s u
