-- ===== src/Server/Delivery.antt =====
-- server/webbou/server.go, `handleTCPConnection` and `handleStream`: their loops handle the frames of the byte stream, in
-- order, however it is cut into chunks.
use web_bou.Prelude.{
  ℕ, zero, suc, ◌≡◌, refl, ap, sym, ◌∙◌, Option, none, some, List, [], ◌∷◌, length, flatten, All,
}
use web_bou.Encoding.{Bytes}
use web_bou.Protocol.{Frame, Outcome, ok, err, panic}
use web_bou.Protocol.Reader.{
  FrameReader, feed, read_frame, Stop, need_more, Drained, drain, drain_all, after, prepend, go_on,
  read_stream,
}
use web_bou.Protocol.Delivery.{IsSendable, wire, read_stream-wire}
use web_bou.Server.Loop.{Round, end_round, next_round, serve_buffer, next_chunk, serve_chunks}

module _ {S : Type 0} (body : S → Frame → S) where
  -- The frames, handled one after the other.
  unfoldable pub serve_frames : S → List Frame → S
  serve_frames s [] = s
  serve_frames s (f ∷ fs) = serve_frames (body s f) fs

  abbrev of_drained : S → Drained → Round S
  of_drained s d = end_round d.stop (serve_frames s d.frames) d.reader

  next_round-after :
      (s : S) (fr : FrameReader) (o : Outcome (Option Frame)) (later : S → Round S) (rest : Drained)
      → ((f : Frame) → later (body s f) ≡ of_drained (body s f) rest)
      → next_round body s fr o later ≡ of_drained s (after fr o rest)
  unfolding serve_frames
  next_round-after s fr (ok none) later rest h = refl
  next_round-after s fr (ok (some f)) later rest h = h f
  next_round-after s fr (err e) later rest h = refl
  next_round-after s fr panic later rest h = refl

  -- The inner loop is the reader's loop, followed by the handling of its frames.
  serve_buffer-drain :
      (n : ℕ) (fr : FrameReader) (s : S) → serve_buffer body n fr s ≡ of_drained s (drain n fr)
  unfolding serve_buffer drain serve_frames
  serve_buffer-drain zero fr s = refl
  serve_buffer-drain (suc n) fr s =
      next_round-after s (read_frame fr).0 (read_frame fr).1 (serve_buffer body n (read_frame fr).0)
        (drain n (read_frame fr).0) (λ f. serve_buffer-drain n (read_frame fr).0 (body s f))

  of_drained-prepend :
      (fs : List Frame) (s : S) (d : Drained)
      → of_drained s (prepend fs d) ≡ of_drained (serve_frames s fs) d
  unfolding serve_frames
  of_drained-prepend [] s d = refl
  of_drained-prepend (f ∷ fs) s d = of_drained-prepend fs (body s f) d

  next_chunk-go_on :
      (stop : Stop) (s : S) (d rest : Drained)
      → next_chunk stop (of_drained s d) (of_drained (serve_frames s d.frames) rest)
        ≡ of_drained s (go_on stop d rest)
  next_chunk-go_on need_more s d rest = sym (of_drained-prepend d.frames s rest)
  next_chunk-go_on _ s d rest = refl

  -- The loops of a connection are `read_stream`, followed by the handling of its frames.
  serve_chunks-read_stream :
      (chunks : List Bytes) (fr : FrameReader) (s : S)
      → serve_chunks body chunks fr s ≡ of_drained s (read_stream fr chunks)
  unfolding serve_chunks read_stream drain_all
  serve_chunks-read_stream [] fr s = unfold serve_frames in refl
  serve_chunks-read_stream (c ∷ cs) fr s =
      let d = drain_all (feed fr c) in
      ap (λ (r : Round S). next_chunk r.stop r (serve_chunks body cs r.reader r.served))
        (serve_buffer-drain (suc (length (feed fr c).buffer)) (feed fr c) s)
      ∙ ap (next_chunk d.stop (of_drained s d))
          (serve_chunks-read_stream cs d.reader (serve_frames s d.frames))
      ∙ next_chunk-go_on d.stop s d (read_stream d.reader cs)

  -- Frames that are valid and within the reader's limit are handled, each once and in order, however
  -- the connection cuts their bytes into chunks, and no error ends the connection.
  pub serve_chunks-wire :
      (max : ℕ) (fs : List Frame) (chunks : List Bytes) (s : S)
      → All (IsSendable max) fs
      → flatten chunks ≡ wire fs
      → let r = serve_chunks body chunks (record { buffer = []; max_length = max }) s in
        (r.served ≡ serve_frames s fs) × (r.stop ≡ need_more)
  serve_chunks-wire max fs chunks s h e =
      let (frames, stop) = read_stream-wire max fs chunks h e in
      let whole = serve_chunks-read_stream chunks (record { buffer = []; max_length = max }) s in
      (ap (λ r. r.served) whole ∙ ap (serve_frames s) frames, ap (λ r. r.stop) whole ∙ stop)
