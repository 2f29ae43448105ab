-- ===== src/Examples/ProtocolRuns.antt =====
-- Tests of server/webbou/protocol.go: frames, their wire format, and the reader.
use web_bou.Prelude.{◌≡◌, ◌≢◌, refl, none, List, [], ◌∷◌, ◌++◌, take, drop, flatten, arith}
use web_bou.Encoding.{Bytes, IsBytes, crc32}
use web_bou.Protocol.{
  Frame, IsFrame, ok, new_frame, marshal, validate, unmarshal_frame, unmarshal_payload,
  parse_header, accept, calculate_checksum, frame_ping, frame_hello,
}
use web_bou.Protocol.RoundTrip.{unmarshal_frame-marshal, new_frame-valid, new_frame-IsFrame}
use web_bou.Protocol.Soundness.{unmarshal_frame_sound}
use web_bou.Protocol.Reader.{
  FrameReader, feed, read_frame, need_more, out_of_fuel, drain_all, read_stream,
}
use web_bou.Protocol.Stream.{SameFrames, drain_all_total, read_stream-flatten}
use web_bou.Protocol.Delivery.{IsSendable, wire, read_stream-wire}

-- "ping"
abbrev ping_text : Bytes
ping_text = b'p' ∷ b'i' ∷ b'n' ∷ b'g' ∷ []

abbrev ping_frame : Frame
ping_frame = new_frame frame_ping 7 ping_text

abbrev hello_frame : Frame
hello_frame = new_frame frame_hello 0 []

-- The 20 bytes that Go's `Marshal` gives for the ping.
abbrev ping_bytes : Bytes
ping_bytes =
    0xb0 ∷ 0x01 ∷ 0x02 ∷ 0 ∷ 0 ∷ 0 ∷ 0 ∷ 7 ∷ 0 ∷ 0 ∷ 0 ∷ 4 ∷ 0x8c ∷ 0xbb ∷ 0xd5 ∷ 0xef ∷ ping_text

marshal_golden : marshal ping_frame ≡ ping_bytes
unfolding marshal new_frame calculate_checksum crc32
marshal_golden = refl

ping-IsFrame : IsFrame ping_frame
ping-IsFrame =
    new_frame-IsFrame frame_ping 7 ping_text (omega arith) (omega arith)
      (omega arith, (omega arith, (omega arith, (omega arith, tt))))

pub ping-IsSendable : IsSendable 100 ping_frame
unfolding new_frame
ping-IsSendable = record {
  in_range = ping-IsFrame;
  is_valid = new_frame-valid frame_ping 7 ping_text;
  size_word = omega arith;
  admitted = omega arith;
}

pub hello-IsSendable : IsSendable 100 hello_frame
unfolding new_frame
hello-IsSendable = record {
  in_range = new_frame-IsFrame frame_hello 0 [] (omega arith) (omega arith) tt;
  is_valid = new_frame-valid frame_hello 0 [];
  size_word = omega arith;
  admitted = omega arith;
}

-- Two frames, cut in the middle of the second one's header.
abbrev pub two_frames : List Frame
two_frames = hello_frame ∷ ping_frame ∷ []

abbrev pub two_chunks : List Bytes
two_chunks = take 20 (wire two_frames) ∷ drop 20 (wire two_frames) ∷ []

pub two_chunks-flatten : flatten two_chunks ≡ wire two_frames
unfolding marshal new_frame
two_chunks-flatten = refl

read_stream-wire_example :
    ((read_stream (record { buffer = []; max_length = 100 }) two_chunks).frames ≡ two_frames)
    × ((read_stream (record { buffer = []; max_length = 100 }) two_chunks).stop ≡ need_more)
read_stream-wire_example =
    read_stream-wire 100 two_frames two_chunks (hello-IsSendable, (ping-IsSendable, tt))
      two_chunks-flatten

unmarshal_frame-marshal_example : unmarshal_frame (marshal ping_frame ++ 1 ∷ 2 ∷ []) ≡ ok ping_frame
unfolding new_frame
unmarshal_frame-marshal_example =
    unmarshal_frame-marshal ping_frame (1 ∷ 2 ∷ []) ping-IsFrame
      (new_frame-valid frame_ping 7 ping_text) (omega arith)

abbrev padded : Bytes
padded = ping_bytes ++ 1 ∷ 2 ∷ []

padded-IsBytes : IsBytes padded
padded-IsBytes = ground arith

padded_accepted : unmarshal_frame padded ≡ ok ping_frame
unfolding unmarshal_frame unmarshal_payload parse_header accept validate new_frame
    calculate_checksum crc32
padded_accepted = refl

unmarshal_frame_sound_example :
    (validate ping_frame ≡ none)
    × IsFrame ping_frame
    × (marshal ping_frame ++ drop ping_frame.length (drop 16 padded) ≡ padded)
unmarshal_frame_sound_example =
    unmarshal_frame_sound padded ping_frame padded-IsBytes padded_accepted

abbrev waiting : FrameReader
waiting = record { buffer = 0xb0 ∷ []; max_length = 100 }

waiting_waits : (read_frame waiting).1 ≡ ok none
unfolding read_frame
waiting_waits = refl

drain_all_total_example : (drain_all (feed waiting ping_text)).stop ≢ out_of_fuel
drain_all_total_example = drain_all_total (feed waiting ping_text)

abbrev tail_chunks : List Bytes
tail_chunks = take 9 (drop 1 ping_bytes) ∷ drop 10 ping_bytes ∷ []

read_stream-flatten_example :
    SameFrames (read_stream waiting tail_chunks) (drain_all (feed waiting (flatten tail_chunks)))
read_stream-flatten_example = read_stream-flatten tail_chunks waiting waiting_waits
