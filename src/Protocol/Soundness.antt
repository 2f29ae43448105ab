-- ===== src/Protocol/Soundness.antt =====
-- server/webbou/protocol.go: whatever `UnmarshalFrame` accepts is what `Marshal` writes.
use web_bou.Prelude.{
  ℕ, suc, ◌+◌, ◌-◌, ◌<◌, ◌≤◌, ◌≡◌, ap, ◌∙◌, none, ◌∷◌, ◌++◌, length, take, drop, get_or, arith,
  four-append-drop, take-append-drop, All-take, All-drop, Option-cases, inl, inr, subst,
}
use native.Mathlib.Numerals.{towards_suc}
use web_bou.Prelude.Words.{u32, u32_mod}
use web_bou.Encoding.{Bytes, put_uint32, uint32_at, put-be32, be32_lt, byte_at, IsBytes}
use web_bou.Protocol.{
  Frame, IsFrame, ok, validate, marshal, unmarshal_frame, accept, unmarshal_payload, parse_header,
}

accept_inversion : (f g : Frame) → accept f ≡ ok g → (f ≡ g) × (validate g ≡ none)
unfolding accept
accept_inversion f g h = elim (Option-cases (validate f)) [
  | inl v ↦ let e : f ≡ g = ground arith in (e, rw (← e) v)
  | inr (x, v) ↦ absurd (ground arith)
]

-- What an accepted input says of its header.
record Accepted (bytes : Bytes) (h f : Frame) : Type 0 where
  pub has_header : 16 ≤ length bytes
  pub has_payload : 16 + h.length ≤ length bytes
  pub no_wrap : 16 + h.length < u32_mod
  pub built : accept (record h { payload = take h.length (drop 16 bytes) }) ≡ ok f

unmarshal_payload_inversion :
    (bytes : Bytes) (h f : Frame)
    → 16 ≤ length bytes
    → h.length < u32_mod
    → unmarshal_payload bytes h ≡ ok f
    → Accepted bytes h f
unfolding unmarshal_payload
unmarshal_payload_inversion bytes h f long word e =
    let enough : 16 + h.length ≤ length bytes = ground arith in
    let fits : 16 + h.length < u32_mod = ground arith in
    let bound : u32 (16 + h.length) - 16 ≡ h.length = omega arith in
    record {
      has_header = long;
      has_payload = enough;
      no_wrap = fits;
      built = ground (arith, bound);
    }

length_word_at : (bytes : Bytes) → IsBytes bytes → (parse_header bytes).length < u32_mod
unfolding parse_header
length_word_at bytes b =
    be32_lt _ _ _ _ (byte_at bytes 8 b) (byte_at bytes 9 b) (byte_at bytes 10 b)
      (byte_at bytes 11 b)

unmarshal_frame_inversion :
    (bytes : Bytes) (f : Frame)
    → IsBytes bytes
    → unmarshal_frame bytes ≡ ok f
    → Accepted bytes (parse_header bytes) f
unfolding unmarshal_frame
unmarshal_frame_inversion bytes f b e =
    let long : 16 ≤ length bytes = ground arith in
    unmarshal_payload_inversion bytes (parse_header bytes) f long (length_word_at bytes b)
      (ground arith)

-- The word at `n`, written again, restores the four bytes that it was read from.
put-uint32_at :
    (n : ℕ) (bytes t : Bytes)
    → IsBytes bytes
    → suc (suc (suc (suc n))) ≤ length bytes
    → t ≡ drop (suc (suc (suc (suc n)))) bytes
    → put_uint32 (uint32_at bytes n) ++ t ≡ drop n bytes
put-uint32_at n bytes t b h e = simp towards_suc (
    ap (λ w. w ++ t)
      (put-be32 _ _ _ _ (byte_at bytes n b) (byte_at bytes (suc n) b)
        (byte_at bytes (suc (suc n)) b) (byte_at bytes (suc (suc (suc n))) b))
    ∙ ap
        (λ r.
          get_or bytes n 0
          ∷ get_or bytes (suc n) 0
          ∷ get_or bytes (suc (suc n)) 0
          ∷ get_or bytes (suc (suc (suc n))) 0
          ∷ r)
        e
    ∙ four-append-drop n 0 bytes h)

-- A parsed header, written again before the bytes that followed it, restores the input.
marshal-parse_header :
    (bytes p rest : Bytes)
    → IsBytes bytes
    → 16 ≤ length bytes
    → p ++ rest ≡ drop 16 bytes
    → marshal (record (parse_header bytes) { payload = p }) ++ rest ≡ bytes
unfolding marshal parse_header
marshal-parse_header bytes p rest b h e =
    ap (λ t. get_or bytes 0 0 ∷ get_or bytes 1 0 ∷ get_or bytes 2 0 ∷ get_or bytes 3 0 ∷ t)
      (put-uint32_at 4 bytes _ b (omega arith)
        (put-uint32_at 8 bytes _ b (omega arith) (put-uint32_at 12 bytes _ b (omega arith) e)))
    ∙ four-append-drop 0 0 bytes (omega arith)

parse_header-IsFrame :
    (bytes p : Bytes)
    → IsBytes bytes
    → IsBytes p
    → IsFrame (record (parse_header bytes) { payload = p })
unfolding parse_header
parse_header-IsFrame bytes p b hp = record {
  magic_byte = byte_at bytes 0 b;
  version_byte = byte_at bytes 1 b;
  type_byte = byte_at bytes 2 b;
  flags_byte = byte_at bytes 3 b;
  stream_word =
      be32_lt _ _ _ _ (byte_at bytes 4 b) (byte_at bytes 5 b) (byte_at bytes 6 b)
        (byte_at bytes 7 b);
  length_word =
      be32_lt _ _ _ _ (byte_at bytes 8 b) (byte_at bytes 9 b) (byte_at bytes 10 b)
        (byte_at bytes 11 b);
  checksum_word =
      be32_lt _ _ _ _ (byte_at bytes 12 b) (byte_at bytes 13 b) (byte_at bytes 14 b)
        (byte_at bytes 15 b);
  payload_bytes = hp;
}

-- Whatever `UnmarshalFrame` accepts is a valid frame with its fields in range, and the input is what
-- `Marshal` writes for it, followed by the bytes past the frame's length.
pub unmarshal_frame_sound :
    (bytes : Bytes) (f : Frame)
    → IsBytes bytes
    → unmarshal_frame bytes ≡ ok f
    → (validate f ≡ none) × IsFrame f × (marshal f ++ drop f.length (drop 16 bytes) ≡ bytes)
unmarshal_frame_sound bytes f b e =
    let acc = unmarshal_frame_inversion bytes f b e in
    let h = parse_header bytes in
    let p = take h.length (drop 16 bytes) in
    let (same, valid) = accept_inversion (record h { payload = p }) f acc.built in
    (
      valid,
      subst IsFrame same
          (parse_header-IsFrame bytes p b (All-take _ h.length _ (All-drop _ 16 bytes b))),
      subst (λ g. marshal g ++ drop g.length (drop 16 bytes) ≡ bytes) same
          (marshal-parse_header bytes p (drop h.length (drop 16 bytes)) b acc.has_header
            (take-append-drop h.length (drop 16 bytes))),
    )
