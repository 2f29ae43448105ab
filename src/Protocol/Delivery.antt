-- ===== src/Protocol/Delivery.antt =====
-- server/webbou/protocol.go: the frames that one side marshals onto a connection are the frames that
-- the other side's `FrameReader` hands over.
use web_bou.Prelude.{
  ℕ, ◌+◌, ◌<◌, ◌≤◌, ◌≡◌, refl, sym, ap, ◌∙◌, Option, none, some, List, [], ◌∷◌, ◌++◌, length, take,
  drop, arith, append-nil, flatten, All, length-append, take-append, drop-append, take_all,
  drop_all,
}
use web_bou.Prelude.Words.{u32_mod}
use web_bou.Encoding.{Bytes, be32-put, uint32_at}
use web_bou.Protocol.{Frame, IsFrame, Outcome, ok, validate, marshal, unmarshal_frame}
use web_bou.Protocol.RoundTrip.{length-marshal, unmarshal_frame-marshal, length_of_valid}
use web_bou.Protocol.Reader.{
  FrameReader, feed, read_frame, consume, need_more, push, after, drain_all, read_stream,
}
use web_bou.Protocol.Reading.{total_size, IsComplete, read_frame_complete}
use web_bou.Protocol.Stream.{drain_all_lem, read_stream-flatten}

-- A frame that a peer may send to a reader whose limit is `max`.
pub record IsSendable (max : ℕ) (f : Frame) : Type 0 where
  pub in_range : IsFrame f
  pub is_valid : validate f ≡ none
  pub size_word : 16 + length f.payload < u32_mod
  pub admitted : length f.payload ≤ max

-- The bytes of a sequence of frames.
abbrev pub wire : List Frame → Bytes
wire [] = []
wire (f ∷ fs) = marshal f ++ wire fs

uint32_at-marshal :
    (f : Frame) (rest : Bytes) → IsFrame f → uint32_at (marshal f ++ rest) 8 ≡ f.length
unfolding marshal
uint32_at-marshal f rest h = be32-put f.length h.length_word

module _ (max : ℕ) (f : Frame) (s : IsSendable max f) (rest : Bytes) where
  abbrev holding : FrameReader
  holding = record { buffer = marshal f ++ rest; max_length = max }

  exact_length : f.length ≡ length f.payload
  exact_length = omega (arith, length_of_valid f s.is_valid, s.size_word)

  total_size-marshal : total_size holding ≡ length (marshal f)
  total_size-marshal =
      omega (arith, uint32_at-marshal f rest s.in_range, exact_length, length-marshal f)

  holding-IsComplete : IsComplete holding
  holding-IsComplete = record {
    small = rw (uint32_at-marshal f rest s.in_range, exact_length) (ground (arith, s.admitted));
    whole = omega (arith, total_size-marshal, length-append (marshal f) rest);
  }

  -- A marshalled frame at the head of the buffer is read, and the rest is left.
  read_frame-marshal :
      read_frame holding ≡ (record { buffer = rest; max_length = max }, ok (some f))
  read_frame-marshal =
      let read : unmarshal_frame (marshal f) ≡ ok f =
        ap unmarshal_frame (sym (append-nil (marshal f)))
        ∙ unmarshal_frame-marshal f [] s.in_range s.is_valid s.size_word in
      let cut : take (length (marshal f)) (marshal f ++ rest) ≡ marshal f =
        take-append (length (marshal f)) (marshal f) rest (omega arith)
        ∙ take_all (length (marshal f)) (marshal f) refl in
      let left : drop (length (marshal f)) (marshal f ++ rest) ≡ rest =
        drop-append (length (marshal f)) (marshal f) rest (omega arith)
        ∙ ap (λ d. d ++ rest) (drop_all (length (marshal f)) (marshal f) refl) in
      read_frame_complete holding holding-IsComplete
      ∙ ap (λ n. consume holding n (unmarshal_frame (take n (marshal f ++ rest))))
          total_size-marshal
      ∙ ap (λ b. consume holding (length (marshal f)) (unmarshal_frame b)) cut
      ∙ ap (consume holding (length (marshal f))) read
      ∙ ap (λ (b : Bytes). (record { buffer = b; max_length = max }, ok (some f))) left

read_frame_empty :
    (max : ℕ)
    → read_frame (record { buffer = []; max_length = max })
      ≡ (record { buffer = []; max_length = max }, ok none)
unfolding read_frame
read_frame_empty max = refl

drain_all-wire :
    (max : ℕ) (fs : List Frame)
    → All (IsSendable max) fs
    → drain_all (record { buffer = wire fs; max_length = max })
      ≡ record { frames = fs; reader = record { buffer = []; max_length = max }; stop = need_more }
drain_all-wire max [] h =
    drain_all_lem _
    ∙ ap (λ (p : FrameReader × Outcome (Option Frame)). after p.0 p.1 (drain_all p.0))
        (read_frame_empty max)
drain_all-wire max (f ∷ fs) h =
    drain_all_lem _
    ∙ ap (λ (p : FrameReader × Outcome (Option Frame)). after p.0 p.1 (drain_all p.0))
        (read_frame-marshal max f h.0 (wire fs))
    ∙ ap (push f) (drain_all-wire max fs h.1)

-- Frames that are valid and within the reader's limit arrive, whole, in order and with no error,
-- however the connection cuts their bytes into chunks.
pub read_stream-wire :
    (max : ℕ) (fs : List Frame) (chunks : List Bytes)
    → All (IsSendable max) fs
    → flatten chunks ≡ wire fs
    → ((read_stream (record { buffer = []; max_length = max }) chunks).frames ≡ fs)
      × ((read_stream (record { buffer = []; max_length = max }) chunks).stop ≡ need_more)
unfolding feed
read_stream-wire max fs chunks h e =
    let same =
      read_stream-flatten chunks (record { buffer = []; max_length = max })
        (ap (λ p. p.1) (read_frame_empty max)) in
    let all : drain_all (record { buffer = flatten chunks; max_length = max }) ≡ record {
      frames = fs;
      reader = record { buffer = []; max_length = max };
      stop = need_more;
    } =
      rw e (drain_all-wire max fs h) in
    (same.same_frames ∙ ap (λ d. d.frames) all, same.same_stop ∙ ap (λ d. d.stop) all)
