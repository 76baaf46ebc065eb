-- ===== src/Http2/Frame.antt =====
-- `Frame` of example/http2/src/codec.cpp: 9 bytes of header, then the payload.
pub mod RoundTrip
use libspaznet.Base.{
  ltb, if◌then◌else◌, Bytes, length, get_or, take, drop, ℕ, ◌+◌, bit_and, Bool, true, false, Option,
  none, some, [], ◌∷◌, ◌++◌,
}
use libspaznet.Utils.Header.{same_text}
use libspaznet.Utils.Binary.{encode_uint24_be, encode_uint32_be, decode_uint24_be, decode_uint32_be}

-- `enum class FrameType : uint8_t`: a cast makes every byte one.
abbrev pub type_data : ℕ
type_data = 0x0

abbrev pub type_headers : ℕ
type_headers = 0x1

abbrev pub type_rst_stream : ℕ
type_rst_stream = 0x3

abbrev pub type_settings : ℕ
type_settings = 0x4

abbrev pub type_ping : ℕ
type_ping = 0x6

abbrev pub type_goaway : ℕ
type_goaway = 0x7

abbrev pub type_window_update : ℕ
type_window_update = 0x8

-- `namespace Flags`
abbrev pub end_stream : ℕ
end_stream = 0x1

abbrev pub end_headers : ℕ
end_headers = 0x4

abbrev pub ack : ℕ
ack = 0x1

pub record Frame : Type 0 where
  pub size : ℕ
  pub frame_type : ℕ
  pub flags : ℕ
  pub stream_id : ℕ
  pub payload : Bytes

unfoldable pub serialize : Frame → Bytes
serialize f =
    encode_uint24_be f.size
    ++ (f.frame_type ∷ f.flags ∷ (encode_uint32_be (bit_and f.stream_id 0x7FFFFFFF) ++ f.payload))

-- The frame and where it leaves the offset, which moves on two of the refusals as well. Vectors are
-- shorter than 2 ^ 63, so that `offset + 9` does not wrap.
unfoldable pub parse : Bytes → ℕ → Option Frame × ℕ
parse bytes offset =
    let size = decode_uint24_be (drop offset bytes) in
    if ltb (length bytes) (offset + 9)
    then (none, offset)
    else if ltb 16384 size
    then (none, offset + 3)
    else if ltb (length bytes) (offset + 9 + size)
    then (none, offset + 9)
    else (
      some (record {
        size = size;
        frame_type = get_or bytes (offset + 3) 0;
        flags = get_or bytes (offset + 4) 0;
        stream_id = bit_and (decode_uint32_be (drop (offset + 5) bytes)) 0x7FFFFFFF;
        payload = take size (drop (offset + 9) bytes);
      }),
      offset + 9 + size,
    )

-- `enum class ParseResult` of `Parser`.
pub data ParseResult : Type 0 where
  success incomplete error need_more_data : ParseResult

-- `Parser::parse_frame`: `frame` is written on success only.
unfoldable pub parse_frame : Bytes → ℕ → Frame → ParseResult × Frame × ℕ
parse_frame bytes offset frame = elim (parse bytes offset).0 [
  | none ↦ (incomplete, frame, (parse bytes offset).1)
  | some parsed ↦ (success, parsed, (parse bytes offset).1)
]

-- "PRI * HTTP/2.0\r\n\r\nSM\r\n\r\n"
abbrev pub connection_preface : Bytes
connection_preface =
    0x50 ∷ 0x52 ∷ 0x49 ∷ 0x20 ∷ 0x2a ∷ 0x20 ∷ 0x48 ∷ 0x54 ∷ 0x54 ∷ 0x50 ∷ 0x2f ∷ 0x32 ∷ 0x2e ∷ 0x30
    ∷ 0x0d ∷ 0x0a ∷ 0x0d ∷ 0x0a ∷ 0x53 ∷ 0x4d ∷ 0x0d ∷ 0x0a ∷ 0x0d ∷ 0x0a ∷ []

-- `Parser::parse_connection_preface`: the answer, and the offset.
unfoldable pub parse_connection_preface : Bytes → ℕ → Bool × ℕ
parse_connection_preface bytes offset =
    if ltb (length bytes) (offset + 24)
    then (false, offset)
    else if same_text (take 24 (drop offset bytes)) connection_preface
    then (true, offset + 24)
    else (false, offset)
