-- ===== src/Http3/H3Frame.antt =====
-- example/quic-http3/src/http3/h3frame.cpp and h3frame.hpp: the frames of RFC 9114, section 7.
pub mod RoundTrip
pub mod Safety
use libspaznet.Base.{◌==◌, if◌then◌else◌, Bytes, length, ℕ, Option, none, some, List, []}
use libspaznet.Wire.Reader.{Reader, ◌>>=◌, read_bytes}
use libspaznet.Wire.Writer.{Writer, ◌>>◌, insert, for_each}
use libspaznet.Wire.Loop.{Outcome, finished, refused, stuck, read_all}
use libspaznet.Quic.VarInt.{append, decode as read_varint}

-- `enum class H3FrameType` and its codes.
pub data H3FrameType : Type 0 where
  body headers cancel_push settings push_promise go_away max_push_id : H3FrameType

abbrev pub code_of : H3FrameType → ℕ
code_of H3FrameType.body = 0x00
code_of H3FrameType.headers = 0x01
code_of H3FrameType.cancel_push = 0x03
code_of H3FrameType.settings = 0x04
code_of H3FrameType.push_promise = 0x05
code_of H3FrameType.go_away = 0x07
code_of H3FrameType.max_push_id = 0x0d

-- The structs, and `using H3Frame = std::variant<...>`; H3Data is `body` here.
pub record H3Reserved : Type 0 where
  pub type_code : ℕ
  pub bytes : Bytes

pub data H3Frame : Type 0 where
  settings : (entries : List (ℕ × ℕ)) → H3Frame
  body : (bytes : Bytes) → H3Frame
  headers : (encoded_field_section : Bytes) → H3Frame
  go_away : (stream_or_push_id : ℕ) → H3Frame
  max_push_id : (value : ℕ) → H3Frame
  cancel_push : (push_id : ℕ) → H3Frame
  reserved : H3Reserved → H3Frame

-- One entry of a SETTINGS frame.
unfoldable pub read_setting : Reader (ℕ × ℕ)
read_setting = read_varint >>= λ id. (read_varint >>= λ value. λ buf off. some ((id, value), off))

unfoldable pub settings_of : Outcome (ℕ × ℕ) → Option H3Frame
settings_of (finished entries) = some (H3Frame.settings entries)
settings_of refused = none
settings_of stuck = none

unfoldable pub parse_settings : Bytes → Option H3Frame
parse_settings bytes = settings_of (read_all read_setting (length bytes) bytes 0 [])

-- A body that is one number: `!decode(...) || off != body.size()` is false.
unfoldable pub parse_number : Bytes → Option ℕ
parse_number bytes = elim (read_varint bytes 0) [
  | none ↦ none
  | some (v, off) ↦ if off == length bytes then some v else none
]

unfoldable pub parse_numbered : (ℕ → H3Frame) → Bytes → Option H3Frame
parse_numbered frame bytes = elim (parse_number bytes) [ none ↦ none | some v ↦ some (frame v) ]

-- The `switch` on the type.
unfoldable pub parse_body : ℕ → Bytes → Option H3Frame
parse_body type_code bytes =
    if type_code == code_of H3FrameType.body
    then some (H3Frame.body bytes)
    else if type_code == code_of H3FrameType.headers
    then some (H3Frame.headers bytes)
    else if type_code == code_of H3FrameType.settings
    then parse_settings bytes
    else if type_code == code_of H3FrameType.go_away
    then parse_numbered H3Frame.go_away bytes
    else if type_code == code_of H3FrameType.max_push_id
    then parse_numbered H3Frame.max_push_id bytes
    else if type_code == code_of H3FrameType.cancel_push
    then parse_numbered H3Frame.cancel_push bytes
    else some (H3Frame.reserved (record { type_code = type_code; bytes = bytes }))

-- The answer of the `switch`, with the offset where the frame ends.
unfoldable pub finish : ℕ → Bytes → Reader H3Frame
finish type_code bytes buf off = elim (parse_body type_code bytes) [
  | none ↦ none
  | some f ↦ some (f, off)
]

unfoldable pub parse_h3_frame : Reader H3Frame
parse_h3_frame =
    read_varint >>= λ type_code. (read_varint >>= λ size. (read_bytes size >>= finish type_code))

-- Type, length and content.
abbrev pub write_h3 : ℕ → Bytes → Writer
write_h3 type_code bytes = append type_code >> (append (length bytes) >> insert bytes)

-- A frame whose content is written to a vector of its own first.
unfoldable pub write_boxed : ℕ → Writer → Writer
write_boxed type_code w out = elim (w []) [
  | none ↦ none
  | some bytes ↦ write_h3 type_code bytes out
]

abbrev pub write_setting : ℕ × ℕ → Writer
write_setting (id, value) = append id >> append value

unfoldable pub encode_h3_frame : H3Frame → Writer
encode_h3_frame (H3Frame.body bytes) = write_h3 (code_of H3FrameType.body) bytes
encode_h3_frame (H3Frame.headers bytes) = write_h3 (code_of H3FrameType.headers) bytes
encode_h3_frame (H3Frame.settings entries) =
    write_boxed (code_of H3FrameType.settings) (for_each write_setting entries)
encode_h3_frame (H3Frame.go_away id) = write_boxed (code_of H3FrameType.go_away) (append id)
encode_h3_frame (H3Frame.max_push_id value) =
    write_boxed (code_of H3FrameType.max_push_id) (append value)
encode_h3_frame (H3Frame.cancel_push id) = write_boxed (code_of H3FrameType.cancel_push) (append id)
encode_h3_frame (H3Frame.reserved x) = write_h3 x.type_code x.bytes
