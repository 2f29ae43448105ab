-- ===== src/Protocol/Reader.antt =====
-- server/webbou/protocol.go: `FrameReader`, which cuts a byte stream into frames, and the loop that
-- its users write around `ReadFrame`.
use web_bou.Prelude.{
  ℕ, zero, suc, ◌+◌, Bool, Option, none, some, List, [], ◌∷◌, ◌++◌, length, take, drop, ltb, eqb,
  ◌&&◌, if◌then◌else◌,
}
use web_bou.Prelude.Int.{ℤ}
use web_bou.Prelude.Words.{u32_of_int}
use web_bou.Encoding.{Bytes, uint32_at}
use web_bou.Protocol.{
  Frame, Outcome, ok, err, panic, Error, frame_too_large, header_size, unmarshal_frame,
}

pub record FrameReader : Type 0 where
  pub buffer : Bytes
  pub max_length : ℕ  -- uint32

unfoldable pub new_frame_reader : ℤ → FrameReader
new_frame_reader max_frame_size =
    let max = u32_of_int max_frame_size in
    record { buffer = []; max_length = if eqb max 0 then 65536 else max }

unfoldable pub feed : FrameReader → Bytes → FrameReader
feed fr bytes = record fr { buffer = fr.buffer ++ bytes }

-- What the reader is left with and returns after a frame of `total_size` bytes was parsed.
abbrev pub consume : FrameReader → ℕ → Outcome Frame → FrameReader × Outcome (Option Frame)
consume fr total_size (ok frame) =
    (record fr { buffer = drop total_size fr.buffer }, ok (some frame))
consume fr total_size (err e) = (fr, err e)
consume fr total_size panic = (fr, panic)

abbrev pub is_too_large : FrameReader → ℕ → Bool
is_too_large fr length_field = ltb 0 fr.max_length && ltb fr.max_length length_field

-- `ok none` is Go's `nil, nil`: more data is needed.
unfoldable pub read_frame : FrameReader → FrameReader × Outcome (Option Frame)
read_frame fr =
    if ltb (length fr.buffer) header_size
    then (fr, ok none)
    else let length_field = uint32_at fr.buffer 8 in
      if is_too_large fr length_field
      then (fr, err frame_too_large)
      else let total_size = header_size + length_field in
        if ltb (length fr.buffer) total_size
        then (fr, ok none)
        else consume fr total_size (unmarshal_frame (take total_size fr.buffer))

-- How the loop `for { frame, err := reader.ReadFrame(); ... }` ends.
pub data Stop : Type 0 where
  need_more : Stop
  failed : Error → Stop
  crashed : Stop
  out_of_fuel : Stop

pub record Drained : Type 0 where
  pub frames : List Frame
  pub reader : FrameReader
  pub stop : Stop

abbrev pub push : Frame → Drained → Drained
push f d = record d { frames = f ∷ d.frames }

-- One round of the loop: `rest` is what the later rounds yield.
abbrev pub after : FrameReader → Outcome (Option Frame) → Drained → Drained
after fr (ok none) rest = record { frames = []; reader = fr; stop = need_more }
after fr (ok (some frame)) rest = push frame rest
after fr (err e) rest = record { frames = []; reader = fr; stop = failed e }
after fr panic rest = record { frames = []; reader = fr; stop = crashed }

-- The loop, with fuel: the frames that it hands to its body, in order, and how it ends.
unfoldable pub drain : ℕ → FrameReader → Drained
drain zero fr = record { frames = []; reader = fr; stop = out_of_fuel }
drain (suc fuel) fr =
    let (fr', outcome) = read_frame fr in let rest = drain fuel fr' in after fr' outcome rest

-- Each frame takes 16 bytes at least, so the buffer's length is fuel enough (Protocol/Stream).
unfoldable pub drain_all : FrameReader → Drained
drain_all fr = drain (suc (length fr.buffer)) fr

-- Frames that were read before.
abbrev pub prepend : List Frame → Drained → Drained
prepend [] d = d
prepend (f ∷ fs) d = push f (prepend fs d)

-- Where a bad frame does not end the handler, it goes on to the next chunk.
abbrev pub go_on : Stop → Drained → Drained → Drained
go_on need_more d rest = prepend d.frames rest
go_on _ d rest = d

-- What a handler does with the chunks that the connection delivers: feed one, read the frames that
-- are complete, and go on unless a frame was bad.
unfoldable pub read_stream : FrameReader → List Bytes → Drained
read_stream fr [] = record { frames = []; reader = fr; stop = need_more }
read_stream fr (chunk ∷ chunks) =
    let d = drain_all (feed fr chunk) in
    let rest = read_stream d.reader chunks in go_on d.stop d rest
