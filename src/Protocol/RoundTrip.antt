-- ===== src/Protocol/RoundTrip.antt =====
-- server/webbou/protocol.go: what `Marshal` writes, `UnmarshalFrame` reads back, and what it accepts
-- is what `Marshal` writes.
use web_bou.Prelude.{
  ℕ, ◌+◌, ◌-◌, ◌<◌, ◌≤◌, ◌≡◌, refl, ap, ◌∙◌, none, [], ◌++◌, length, take, drop, arith,
  length-append, take-append, take_all,
}
use web_bou.Prelude.Words.{u32, u32_mod}
use web_bou.Encoding.{Bytes, be32-put, IsBytes, crc32_lt}
use web_bou.Protocol.{
  Frame, IsFrame, ok, validate, marshal, unmarshal_frame, accept, unmarshal_payload, parse_header,
  calculate_checksum, new_frame,
}

pub length-marshal : (f : Frame) → length (marshal f) ≡ 16 + length f.payload
unfolding marshal
length-marshal f = omega arith

parse_header-marshal :
    (f : Frame) (rest : Bytes)
    → IsFrame f
    → parse_header (marshal f ++ rest) ≡ record f { payload = [] }
unfolding marshal parse_header
parse_header-marshal f rest h = rw (
  be32-put f.stream_id h.stream_word,
  be32-put f.length h.length_word,
  be32-put f.checksum h.checksum_word,
)

drop-marshal : (f : Frame) (rest : Bytes) → drop 16 (marshal f ++ rest) ≡ f.payload ++ rest
unfolding marshal
drop-marshal f rest = refl

pub length_of_valid : (f : Frame) → validate f ≡ none → f.length ≡ u32 (length f.payload)
unfolding validate
length_of_valid f v = ground arith

-- Where the buffer holds the whole frame, the slice is exact.
unmarshal_payload-eq_accept :
    (bytes : Bytes) (f : Frame)
    → 16 + f.length ≤ length bytes
    → 16 + f.length < u32_mod
    → unmarshal_payload bytes f ≡ accept (record f { payload = take f.length (drop 16 bytes) })
unfolding unmarshal_payload
unmarshal_payload-eq_accept bytes f enough small =
    let bound : u32 (16 + f.length) - 16 ≡ f.length = omega arith in ground (arith, bound)

unmarshal_frame-eq_payload :
    (bytes : Bytes)
    → 16 ≤ length bytes
    → unmarshal_frame bytes ≡ unmarshal_payload bytes (parse_header bytes)
unfolding unmarshal_frame
unmarshal_frame-eq_payload bytes h = ground arith

accept_of_valid : (f : Frame) → validate f ≡ none → accept f ≡ ok f
unfolding accept
accept_of_valid f v = rw (v, accept)

-- A frame that is valid and whose fields are in range is read back from what `Marshal` writes,
-- whatever follows it, if the frame's size is a uint32.
pub unmarshal_frame-marshal :
    (f : Frame) (rest : Bytes)
    → IsFrame f
    → validate f ≡ none
    → 16 + length f.payload < u32_mod
    → unmarshal_frame (marshal f ++ rest) ≡ ok f
unmarshal_frame-marshal f rest h v small =
    let whole : length (marshal f ++ rest) ≡ 16 + length f.payload + length rest =
      omega (arith, length-append (marshal f) rest, length-marshal f) in
    let exact : f.length ≡ length f.payload = omega (arith, length_of_valid f v) in
    let same : take f.length (drop 16 (marshal f ++ rest)) ≡ f.payload = rw (drop-marshal f rest) (
      take-append f.length f.payload rest (omega arith)
      ∙ take_all f.length f.payload (omega arith)) in
    unmarshal_frame-eq_payload (marshal f ++ rest) (omega arith)
    ∙ ap (unmarshal_payload (marshal f ++ rest)) (parse_header-marshal f rest h)
    ∙ unmarshal_payload-eq_accept (marshal f ++ rest) (record f { payload = [] }) (omega arith)
        (omega arith)
    ∙ ap (λ p. accept (record f { payload = p })) same
    ∙ accept_of_valid f v

-- A frame that `NewFrame` builds is valid.
pub new_frame-valid : (t s : ℕ) (p : Bytes) → validate (new_frame t s p) ≡ none
unfolding validate new_frame calculate_checksum
new_frame-valid t s p = ground arith

pub new_frame-IsFrame :
    (t s : ℕ) (p : Bytes) → t < 256 → s < u32_mod → IsBytes p → IsFrame (new_frame t s p)
unfolding new_frame calculate_checksum
new_frame-IsFrame t s p ht hs hp = record {
  magic_byte = omega arith;
  version_byte = omega arith;
  type_byte = ht;
  flags_byte = omega arith;
  stream_word = hs;
  length_word = omega arith;
  checksum_word = crc32_lt _;
  payload_bytes = hp;
}
