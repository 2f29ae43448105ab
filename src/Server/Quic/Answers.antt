-- ===== src/Server/Quic/Answers.antt =====
-- server/webbou/server.go, `handleStream` and `handleDatagram`: what a QUIC peer is answered.
use web_bou.Prelude.{
  take, drop, ◌+◌, ◌-◌, ◌<◌, ◌≡◌, ◌≢◌, refl, ◌∙◌, some, List, [], ◌∷◌, length, All, arith,
  append-nil,
}
use web_bou.Prelude.Words.{u32, u32_mod}
use web_bou.Encoding.{Bytes}
use web_bou.Protocol.{
  Frame, Outcome, ok, err, panic, unmarshal_frame, unmarshal_payload, parse_header, accept,
}
use web_bou.Server.{Payloads, Session, nil_writer, handle_frame}
use web_bou.Server.Replies.{written-handle_frame}
use web_bou.Server.Quic.{on_datagram, handle_datagram, handle_datagrams}

accept_ne_panic : (f : Frame) → accept f ≢ panic
unfolding accept
accept_ne_panic f = ground arith

payload_ne_panic :
    (bytes : Bytes) (f : Frame) → length bytes < u32_mod → unmarshal_payload bytes f ≢ panic
unfolding unmarshal_payload
payload_ne_panic bytes f short =
    let bound = u32 (16 + f.length) in
    ground (arith, accept_ne_panic (record f { payload = take (bound - 16) (drop 16 bytes) }))

unmarshal_ne_panic : (bytes : Bytes) → length bytes < u32_mod → unmarshal_frame bytes ≢ panic
unfolding unmarshal_frame
unmarshal_ne_panic bytes short = ground (arith, payload_ne_panic bytes (parse_header bytes) short)

module _ (p : Payloads) where
  written-on_datagram :
      (s : Session) (o : Outcome Frame)
      → o ≢ panic
      → (s' : Session) × (on_datagram p s o ≡ some s') × (s'.written ≡ s.written)
  written-on_datagram s (ok f) h = (
    handle_frame p s f nil_writer,
    refl,
    written-handle_frame p s f nil_writer ∙ append-nil s.written,
  )
  written-on_datagram s (err e) h = (s, refl, refl)
  written-on_datagram s panic h = absurd (h refl)

  -- Whatever datagrams arrive, if each is shorter than 2 ^ 32 bytes, the loop over them ends without a
  -- panic, and nothing is ever written back: no datagram is answered, not even a valid PING or HELLO.
  handle_datagrams-unanswered :
      (datagrams : List Bytes) (s : Session)
      → All (λ d. length d < u32_mod) datagrams
      → (s' : Session) × (handle_datagrams p s datagrams ≡ some s') × (s'.written ≡ s.written)
  unfolding handle_datagrams handle_datagram
  handle_datagrams-unanswered [] s h = (s, refl, refl)
  handle_datagrams-unanswered (d ∷ ds) s h =
      let (s₁, first, same) =
        written-on_datagram s (unmarshal_frame d) (unmarshal_ne_panic d h.0) in
      let (s₂, later, same') = handle_datagrams-unanswered ds s₁ h.1 in
      (s₂, rw (first, handle_datagrams) later, same' ∙ same)
