-- ===== src/Tests/Frames.antt =====
-- Frames and variable-length integers at concrete inputs.
use mathlib.Core.List.{map}
use libspaznet.Base.{
  Bytes, length, All, ◌≤◌, ◌<◌, ◌≡◌, refl, ◌≢◌, true, false, some, List, [], ◌∷◌, ◌++◌, arith,
}
use libspaznet.Wire.Writer.{for_each}
use libspaznet.Wire.Safe.{IsBuffer}
use libspaznet.Quic.VarInt.{encoded_size, write_case, write, append, decode_loop, decode}
use libspaznet.Quic.VarInt.RoundTrip.{decode-append}
use libspaznet.Quic.Frame.{Frame}
use libspaznet.Quic.Frame.Parse.{parse_body, parse_frame, parse_frames, frames, stuck}
use libspaznet.Quic.Frame.Encode.{encode_stream, encode_frame}
use libspaznet.Quic.Frame.Encodable.{IsEncodable, as_parsed}
use libspaznet.Quic.Frame.RoundTrip.{parse_frame-encode_frame}
use libspaznet.Quic.Frame.Payload.{parse_frames-encode_frame}
use libspaznet.Quic.Frame.Safety.{parse_frame_bounds, parse_frames-ne-stuck}

decode-append_example :
    (out' : Bytes) × (append 15293 (7 ∷ []) ≡ some out')
    × (decode (out' ++ 9 ∷ []) 1 ≡ some (15293, length out'))
decode-append_example = decode-append 15293 (7 ∷ []) (9 ∷ []) (omega arith) (omega arith)

-- RFC 9000, appendix A.1.
abbrev two_bytes : Bytes
two_bytes = 0x7b ∷ 0xbd ∷ []

two_bytes-IsBuffer : IsBuffer two_bytes
two_bytes-IsBuffer = ((omega arith, (omega arith, tt)), omega arith)

decode-two_bytes : decode two_bytes 0 ≡ some (15293, 2)
unfolding decode decode_loop
decode-two_bytes = refl

-- STREAM 4, offset 1, the end of the stream, and a close of the application.
abbrev stream_frame : Frame
stream_frame =
    Frame.stream
      (record { stream_id = 4; offset = 1; has_length = false; fin = true; bytes = 65 ∷ 66 ∷ [] })

abbrev stream_bytes : Bytes
stream_bytes = 0x0f ∷ 4 ∷ 1 ∷ 2 ∷ 65 ∷ 66 ∷ []

encode-stream_frame : encode_frame stream_frame (1 ∷ []) ≡ some (1 ∷ stream_bytes)
unfolding encode_frame encode_stream append write encoded_size write_case
encode-stream_frame = refl

parse_frame-encode_frame_example :
    parse_frame ((1 ∷ stream_bytes) ++ (1 ∷ [])) 1 ≡ some (as_parsed stream_frame, 7)
parse_frame-encode_frame_example =
    parse_frame-encode_frame stream_frame (1 ∷ []) (1 ∷ []) (omega arith, omega arith, omega arith)
      encode-stream_frame (omega arith) tt

abbrev two_frames : List Frame
two_frames = stream_frame ∷ Frame.padding (record { count = 2 }) ∷ []

two_frames-IsEncodable : All IsEncodable two_frames
two_frames-IsEncodable = ((omega arith, omega arith, omega arith), (omega arith, tt))

encode-two_frames : for_each encode_frame two_frames [] ≡ some (stream_bytes ++ 0 ∷ 0 ∷ [])
unfolding for_each encode_frame encode_stream append write encoded_size write_case
encode-two_frames = refl

parse_frames-encode_frame_example :
    parse_frames (stream_bytes ++ 0 ∷ 0 ∷ []) ≡ frames (map as_parsed two_frames)
parse_frames-encode_frame_example =
    parse_frames-encode_frame two_frames (stream_bytes ++ 0 ∷ 0 ∷ []) two_frames-IsEncodable
      (refl, tt) encode-two_frames (omega arith)

ping_bytes-IsBuffer : IsBuffer (1 ∷ 1 ∷ [])
ping_bytes-IsBuffer = ((omega arith, (omega arith, tt)), omega arith)

parse-ping : parse_frame (1 ∷ 1 ∷ []) 0 ≡ some (Frame.ping, 1)
unfolding parse_frame parse_body decode decode_loop
parse-ping = refl

abbrev two_pings : Bytes
two_pings = 1 ∷ 1 ∷ []

parse_frame_bounds_example : (0 < 1) × (1 ≤ length two_pings)
parse_frame_bounds_example =
    parse_frame_bounds two_pings 0 1 Frame.ping ping_bytes-IsBuffer parse-ping

parse_frames-ne-stuck_example : parse_frames (1 ∷ 1 ∷ []) ≢ stuck
parse_frames-ne-stuck_example = parse_frames-ne-stuck (1 ∷ 1 ∷ []) ping_bytes-IsBuffer
