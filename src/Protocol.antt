-- ===== src/Protocol.antt =====
-- server/webbou/protocol.go: frames, their checksum, validation and wire format.
-- A slice index that Go would refuse at run time is the outcome `panic`.
pub mod Reader
pub mod Reading
pub mod RoundTrip
pub mod Soundness
pub mod Flags
pub mod Stream
pub mod Delivery
use Prim.Native.Nat.{bit_and, bit_or}
use web_bou.Prelude.{
  ℕ, ◌+◌, ◌-◌, ◌*◌, ◌<◌, ◌≡◌, refl, Bool, true, false, not, Option, none, some, List, [], ◌∷◌, ◌++◌,
  length, take, drop, get_or, arith, ltb, eqb, if◌then◌else◌,
}
use web_bou.Prelude.Words.{u32, u32_mod}
use web_bou.Encoding.{Bytes, put_uint32, uint32_at, IsBytes, crc32}

abbrev magic_byte : ℕ
magic_byte = 0xB0

abbrev protocol_version : ℕ
protocol_version = 0x01

abbrev header_size : ℕ
header_size = 16

abbrev pub frame_data : ℕ
frame_data = 0x01

abbrev pub frame_ping : ℕ
frame_ping = 0x02

abbrev pub frame_pong : ℕ
frame_pong = 0x03

abbrev pub frame_stream_open : ℕ
frame_stream_open = 0x04

abbrev pub frame_stream_close : ℕ
frame_stream_close = 0x05

abbrev pub frame_hello : ℕ
frame_hello = 0x10

abbrev pub frame_hello_ack : ℕ
frame_hello_ack = 0x11

abbrev pub flag_compressed : ℕ
flag_compressed = 0x01

abbrev pub flag_encrypted : ℕ
flag_encrypted = 0x02

pub record Frame : Type 0 where
  pub magic : ℕ  -- uint8
  pub version : ℕ  -- uint8
  pub frame_type : ℕ  -- uint8
  pub flags : ℕ  -- uint8
  pub stream_id : ℕ  -- uint32
  pub length : ℕ  -- uint32
  pub checksum : ℕ  -- uint32
  pub payload : Bytes

pub data Error : Type 0 where
  invalid_magic_byte unsupported_version length_mismatch checksum_mismatch : Error
  data_too_short incomplete_frame frame_too_large : Error

pub data Outcome {ℓ} (A : Type ℓ) : Type ℓ where
  ok : A → Outcome A
  err : Error → Outcome A
  panic : Outcome A

-- The bytes that both the checksum and the wire format start with.
abbrev header_bytes : Frame → Bytes
header_bytes f =
    f.magic ∷ f.version ∷ f.frame_type ∷ f.flags ∷ (put_uint32 f.stream_id ++ put_uint32 f.length)

unfoldable pub calculate_checksum : Frame → ℕ
calculate_checksum f = crc32 (header_bytes f ++ f.payload)

unfoldable pub new_frame : ℕ → ℕ → Bytes → Frame
new_frame frame_type stream_id payload =
    let frame : Frame = record {
      magic = magic_byte;
      version = protocol_version;
      frame_type = frame_type;
      flags = 0;
      stream_id = stream_id;
      length = u32 (length payload);
      checksum = 0;
      payload = payload;
    } in
    record frame { checksum = calculate_checksum frame }

unfoldable set_flag : Frame → ℕ → Frame
set_flag f flag = record f { flags = bit_or f.flags flag }

unfoldable pub has_flag : Frame → ℕ → Bool
has_flag f flag = not (eqb (bit_and f.flags flag) 0)

unfoldable pub validate : Frame → Option Error
validate f =
    if not (eqb f.magic magic_byte)
    then some invalid_magic_byte
    else if not (eqb f.version protocol_version)
    then some unsupported_version
    else if not (eqb f.length (u32 (length f.payload)))
    then some length_mismatch
    else if not (eqb f.checksum (calculate_checksum f))
    then some checksum_mismatch
    else none

unfoldable pub marshal : Frame → Bytes
marshal f = header_bytes f ++ put_uint32 f.checksum ++ f.payload

-- The frame that the first 16 bytes announce, with no payload yet.
unfoldable pub parse_header : Bytes → Frame
parse_header bytes = record {
  magic = get_or bytes 0 0;
  version = get_or bytes 1 0;
  frame_type = get_or bytes 2 0;
  flags = get_or bytes 3 0;
  stream_id = uint32_at bytes 4;
  length = uint32_at bytes 8;
  checksum = uint32_at bytes 12;
  payload = [];
}

unfoldable pub accept : Frame → Outcome Frame
accept f = elim (validate f) [ none ↦ ok f | some e ↦ err e ]

-- What follows the header. The bound of the payload's slice is computed in uint32, so it wraps.
unfoldable pub unmarshal_payload : Bytes → Frame → Outcome Frame
unmarshal_payload bytes frame =
    if ltb (length bytes) (header_size + frame.length)
    then err incomplete_frame
    else let bound = u32 (header_size + frame.length) in
      if ltb bound header_size
      then panic
      else accept (record frame { payload = take (bound - header_size) (drop header_size bytes) })

unfoldable pub unmarshal_frame : Bytes → Outcome Frame
unmarshal_frame bytes =
    if ltb (length bytes) header_size
    then err data_too_short
    else unmarshal_payload bytes (parse_header bytes)

-- The fields lie in the ranges of their types.
pub record IsFrame (f : Frame) : Type 0 where
  pub magic_byte : f.magic < 256
  pub version_byte : f.version < 256
  pub type_byte : f.frame_type < 256
  pub flags_byte : f.flags < 256
  pub stream_word : f.stream_id < u32_mod
  pub length_word : f.length < u32_mod
  pub checksum_word : f.checksum < u32_mod
  pub payload_bytes : IsBytes f.payload
