-- ===== src/Server/Replies.antt =====
-- server/webbou/server.go: what the server writes in answer to a frame.
use web_bou.Prelude.{
  nat_eq, ◌+◌, ◌≤◌, ◌<◌, true, false, ltb, ◌≡◌, refl, ap, sym, ◌∙◌, Option, none, some, List, [],
  ◌∷◌, ◌++◌, String, flatten, All, eqb, Bool-cases, if◌then◌else◌, arith, append_assoc, append-nil,
  inl, inr,
}
use web_bou.Prelude.Int.{ℤ}
use web_bou.Prelude.Clock.{Time}
use web_bou.Encoding.{Bytes}
use web_bou.Protocol.{
  Frame, new_frame, marshal, frame_data, frame_ping, frame_pong, frame_hello, frame_hello_ack,
}
use web_bou.Protocol.Delivery.{IsSendable, wire}
use web_bou.Server.{
  Payloads, Writer, conn, stream, nil_writer, Session, received, handle_frame, handle_hello_frame,
  handle_data_frame, handle_ping_frame, handle_stream_open, handle_stream_close, send_frame,
  plain_payload, hello_text, echo,
}
use web_bou.Protocol.Reader.{need_more, new_frame_reader}
use web_bou.Server.Tcp.{
  Limiter, Served, serve_frame, Arrival, read_before, read_idle_timeout, read_frames,
}
use web_bou.Server.Delivery.{serve_frames, serve_chunks-wire}

abbrev with_payload : Frame → Option Bytes → List Frame
with_payload f none = []
with_payload f (some payload) = new_frame frame_data f.stream_id payload ∷ []

-- The handlers' answer to a frame: HELLO_ACK to HELLO, PONG with the same stream and payload to PING,
-- the plain payload back to DATA if it can be decoded, with or without a HELLO before, and nothing to
-- any other frame.
unfoldable pub replies : Payloads → Frame → List Frame
replies p f =
    if eqb f.frame_type frame_hello
    then new_frame frame_hello_ack 0 hello_text ∷ []
    else if eqb f.frame_type frame_data
    then with_payload f (plain_payload p f)
    else if eqb f.frame_type frame_ping
    then new_frame frame_pong f.stream_id f.payload ∷ []
    else []

-- The bytes of frames, each written by itself.
unfoldable pub marshals : List Frame → List Bytes
marshals [] = []
marshals (f ∷ fs) = marshal f ∷ marshals fs

pub marshals-append : (fs gs : List Frame) → marshals (fs ++ gs) ≡ marshals fs ++ marshals gs
unfolding marshals
marshals-append [] gs = refl
marshals-append (f ∷ fs) gs = ap (λ l. marshal f ∷ l) (marshals-append fs gs)

nothing_more : (written : List Bytes) → written ++ marshals [] ≡ written
unfolding marshals
nothing_more written = append-nil written

-- What reaches the peer: nothing is written for a datagram.
abbrev sent : Writer → List Frame → List Bytes
sent nil_writer fs = []
sent _ fs = marshals fs

nothing_sent : (w : Writer) (written : List Bytes) → written ++ sent w [] ≡ written
nothing_sent nil_writer written = append-nil written
nothing_sent _ written = nothing_more written

written-send_frame :
    (s : Session) (f : Frame) (w : Writer)
    → (send_frame s f w).written ≡ s.written ++ sent w (f ∷ [])
unfolding send_frame marshals
written-send_frame s f conn = refl
written-send_frame s f stream = refl
written-send_frame s f nil_writer = sym (append-nil s.written)

written-echo :
    (s : Session) (f : Frame) (w : Writer) (o : Option Bytes)
    → (echo s f w o).written ≡ s.written ++ sent w (with_payload f o)
written-echo s f w none = sym (nothing_sent w s.written)
written-echo s f w (some payload) =
    written-send_frame s (new_frame frame_data f.stream_id payload) w

-- Opening and closing a stream writes nothing.
written-open : (s : Session) (f : Frame) → (handle_stream_open s f).written ≡ s.written
unfolding handle_stream_open
written-open s f = refl

written-close : (s : Session) (f : Frame) → (handle_stream_close s f).written ≡ s.written
unfolding handle_stream_close
written-close s f = refl

-- What a handler writes is the answer to the frame, after what was written before.
pub written-handle_frame :
    (p : Payloads) (s : Session) (f : Frame) (w : Writer)
    → (handle_frame p s f w).written ≡ s.written ++ sent w (replies p f)
unfolding handle_frame replies handle_hello_frame handle_ping_frame handle_data_frame
written-handle_frame p s f w = elim (Bool-cases (eqb f.frame_type frame_hello)) [
  | inl e ↦ rw (e) (written-send_frame (received s f) (new_frame frame_hello_ack 0 hello_text) w)
  | inr e ↦ elim (Bool-cases (eqb f.frame_type frame_data)) [
    | inl d ↦ rw (e, d) (written-echo (received s f) f w (plain_payload p f))
    | inr d ↦ elim (Bool-cases (eqb f.frame_type frame_ping)) [
      | inl g ↦
          rw (e, d, g)
            (written-send_frame (received s f) (new_frame frame_pong f.stream_id f.payload) w)
      | inr g ↦ ground (
        arith,
        written-open (received s f) f,
        written-close (received s f) f,
        nothing_sent w s.written,
      )
    ]
  ]
]

unfoldable pub all_replies : Payloads → List Frame → List Frame
all_replies p [] = []
all_replies p (f ∷ fs) = replies p f ++ all_replies p fs

module _ (p : Payloads) (lim : Limiter) (ip : String) where
  open lim use {S, allow_ip}

  -- The frames that the rate limiter admits, when it is asked for each in turn.
  unfoldable pub admitted : S → List Frame → List Frame
  admitted l [] = []
  admitted l (f ∷ fs) =
      let (l', allowed) = allow_ip l ip in
      let rest = admitted l' fs in if allowed then f ∷ rest else rest

  written-serve_frames :
      (fs : List Frame) (s : Served lim)
      → (serve_frames (serve_frame p lim ip) s fs).session.written
        ≡ s.session.written ++ marshals (all_replies p (admitted s.limiter fs))
  unfolding serve_frames all_replies admitted serve_frame
  written-serve_frames [] s = sym (nothing_more s.session.written)
  written-serve_frames (f ∷ fs) s =
      let later = written-serve_frames fs (serve_frame p lim ip s f) in
      let (l', allowed) = allow_ip s.limiter ip in
      elim (Bool-cases allowed) [
        | inl e ↦
            let tail = all_replies p (admitted l' fs) in
            rw (e) (
              later
              ∙ rw (e) (
                  ap (λ w. w ++ marshals tail) (written-handle_frame p s.session f conn)
                  ∙ append_assoc s.session.written (marshals (replies p f)) (marshals tail)
                  ∙ ap (λ w. s.session.written ++ w) (sym (marshals-append (replies p f) tail))))
        | inr e ↦ rw (e) (later ∙ rw (e) refl)
      ]

  -- Whatever arrives at the deadline or later is not read.
  read_before-late :
      (deadline : Time) (arrivals late : List Arrival)
      → All (λ (a : Arrival). deadline ≤ a.at) late
      → read_before deadline (arrivals ++ late) ≡ read_before deadline arrivals
  read_before-late deadline [] [] h = refl
  read_before-late deadline [] (a ∷ late) (h, hs) =
      let after : ltb a.at deadline ≡ false = ground (arith, h) in rw after
  read_before-late deadline (a ∷ arrivals) late h = elim (Bool-cases (ltb a.at deadline)) [
    | inl e ↦ rw e (ap (λ rest. a.chunk ∷ rest) (read_before-late deadline arrivals late h))
    | inr e ↦ rw e
  ]

  abbrev pub chunks_of : List Arrival → List Bytes
  chunks_of [] = []
  chunks_of (a ∷ arrivals) = a.chunk ∷ chunks_of arrivals

  -- Whatever arrives before it is.
  read_before-early :
      (deadline : Time) (arrivals : List Arrival)
      → All (λ (a : Arrival). a.at < deadline) arrivals
      → read_before deadline arrivals ≡ chunks_of arrivals
  read_before-early deadline [] h = refl
  read_before-early deadline (a ∷ arrivals) (h, hs) =
      let early : ltb a.at deadline ≡ true = ground (arith, h) in
      rw early (ap (λ rest. a.chunk ∷ rest) (read_before-early deadline arrivals hs))

  -- A client whose frames are valid and within the reader's limit, and whose bytes are read less than
  -- 60 seconds after it was accepted, gets to those frames that the rate limiter admits, which no other
  -- connection uses meanwhile, in order and to no other, what the handlers answer: HELLO_ACK to HELLO,
  -- PONG to PING, the payload back to DATA that can be decoded, with or without a HELLO before, and
  -- nothing to other frames. This holds however the connection cuts the bytes into chunks, and whatever
  -- could be read from the 60 seconds on, which never is; none of the frames ends the loops.
  pub read_frames-replies :
      (max_frame_size : ℤ) (accepted : Time) (fs : List Frame) (arrivals late : List Arrival)
      (s : Served lim)
      → All (IsSendable (new_frame_reader max_frame_size).max_length) fs
      → flatten (chunks_of arrivals) ≡ wire fs
      → All (λ (a : Arrival). a.at < accepted + read_idle_timeout) arrivals
      → All (λ (a : Arrival). accepted + read_idle_timeout ≤ a.at) late
      → let r = read_frames p lim ip max_frame_size accepted (arrivals ++ late) s in
        (r.served.session.written
          ≡ s.session.written ++ marshals (all_replies p (admitted s.limiter fs)))
        × (r.stop ≡ need_more)
  unfolding read_frames new_frame_reader
  read_frames-replies max_frame_size accepted fs arrivals late s h e early over =
      let deadline = accepted + read_idle_timeout in
      let max = (new_frame_reader max_frame_size).max_length in
      let (served, stop) =
        serve_chunks-wire (serve_frame p lim ip) max fs (chunks_of arrivals) s h e in
      let chunks =
        read_before-late deadline arrivals late over ∙ read_before-early deadline arrivals early in
      rw chunks (ap (λ r. r.session.written) served ∙ written-serve_frames fs s, stop)
