-- ===== src/Http2/Message.antt =====
-- `Request`, `Response` and the `Parser` of example/http2/src/codec.cpp: messages as frames.
pub mod Chunks
use libspaznet.Base.{
  ltb, leb, ◌==◌, if◌then◌else◌, Bytes, length, get_or, take, drop, replicate, ℕ, zero, suc, ◌+◌,
  ◌-◌, ◌%◌, ◌^◌, min, Bool, true, false, not, ◌&&◌, ◌||◌, Option, none, some, List, [], ◌∷◌, ◌++◌,
}
use libspaznet.Base.Text.{text}
use libspaznet.Base.Ints.{ℤ, pos}
use libspaznet.Utils.Number.{parse_int}
use libspaznet.Utils.Decimal.{to_string}
use libspaznet.Utils.Header.{Headers, same_text, find_by}
use libspaznet.Http2.Frame.{
  Frame, ParseResult, success, error, type_data, type_headers, type_rst_stream, type_settings,
  type_ping, type_goaway, type_window_update, end_stream, end_headers, ack,
}
use libspaznet.Http2.Settings.{Settings}
use libspaznet.Http2.Settings.{serialize as serialize_settings}
use libspaznet.Http2.Hpack.Encode.{encode_headers}
use libspaznet.Http2.Hpack.Decode.{assign, decode_headers}
use libspaznet.Utils.Binary.{encode_uint32_be}

pub record Request : Type 0 where
  pub stream_id : ℕ
  pub method : Bytes
  pub path : Bytes
  pub headers : Headers
  pub body : Bytes

pub record Response : Type 0 where
  pub stream_id : ℕ
  pub status_code : ℤ
  pub headers : Headers
  pub body : Bytes

-- `headers.find(name)`
abbrev pub find : Bytes → Headers → Option Bytes
find name headers = find_by (λ key. same_text key name) headers

-- `name[0]` of the key that was found is that of `name`.
unfoldable pub get_pseudo_header : Request → Bytes → Option Bytes
get_pseudo_header request name = elim (find name request.headers) [
  | none ↦ none
  | some value ↦ if get_or name 0 0 == 58 then some value else none
]

unfoldable pub regular_of : Headers → Headers → Headers
regular_of [] regular = regular
regular_of ((key, value) ∷ rest) regular =
    regular_of rest (if get_or key 0 0 == 58 then regular else assign key value regular)

unfoldable pub get_regular_headers : Request → Headers
get_regular_headers request = regular_of request.headers []

unfoldable pub set_status : Response → ℤ → Bytes → Response
set_status response code reason =
    let headers = assign (text ":status") (to_string code) response.headers in
    record response {
      status_code = code;
      headers = if length reason == 0 then headers else assign (text "reason") reason headers;
    }

-- `!`, `#`, `$`, `%`, `&`, `'`, `*`, `+`, `-`, `.`, `^`, `_`, the backquote, `|` and `~`.
abbrev pub other_tchars : Bytes
other_tchars = text "!#$%&'*+-.^_`|~"

unfoldable pub is_one_of : ℕ → Bytes → Bool
is_one_of c [] = false
is_one_of c (x ∷ xs) = (c == x) || is_one_of c xs

abbrev pub is_lower_tchar : ℕ → Bool
is_lower_tchar c = (leb 97 c && leb c 122) || ((leb 48 c && leb c 57) || is_one_of c other_tchars)

unfoldable pub all_lower_tchars : Bytes → Bool
all_lower_tchars [] = true
all_lower_tchars (c ∷ rest) = is_lower_tchar c && all_lower_tchars rest

unfoldable pub is_valid_http2_name : Bytes → Bool
is_valid_http2_name [] = false
is_valid_http2_name (c ∷ rest) =
    if c == 58
    then (if ltb (suc (length rest)) 2 then false else all_lower_tchars rest)
    else all_lower_tchars (c ∷ rest)

unfoldable pub is_valid_http2_value : Bytes → Bool
is_valid_http2_value [] = true
is_valid_http2_value (c ∷ rest) =
    not ((c == 13) || ((c == 10) || (c == 0))) && is_valid_http2_value rest

-- `emplace` of keys that are all different.
unfoldable pub sanitize_http2_headers : Headers → Headers
sanitize_http2_headers [] = []
sanitize_http2_headers ((k, v) ∷ rest) =
    let out = sanitize_http2_headers rest in
    if is_valid_http2_name k && is_valid_http2_value v then (k, v) ∷ out else out

abbrev pub headers_flags : Bool → Bool → ℕ
headers_flags headers_end stream_end =
    (if headers_end then end_headers else 0) + (if stream_end then end_stream else 0)

abbrev pub frame_with : ℕ → ℕ → ℕ → Bytes → Frame
frame_with frame_type flags stream_id payload = record {
  size = length payload % 2 ^ 32;
  frame_type = frame_type;
  flags = flags;
  stream_id = stream_id;
  payload = payload;
}

-- `Parser::build_headers_frame` of a request, and of a response.
unfoldable pub build_request_headers : Request → ℕ → Bool → Bool → Frame
build_request_headers request stream_id headers_end stream_end =
    frame_with type_headers (headers_flags headers_end stream_end) stream_id
      (encode_headers (sanitize_http2_headers request.headers))

abbrev pub with_status : Response → Headers → Headers
with_status response headers = elim (find (text ":status") headers) [
  | none ↦ assign (text ":status") (to_string response.status_code) headers
  | some status ↦ headers
]

unfoldable pub build_response_headers : Response → ℕ → Bool → Bool → Frame
build_response_headers response stream_id headers_end stream_end =
    frame_with type_headers (headers_flags headers_end stream_end) stream_id
      (encode_headers (with_status response (sanitize_http2_headers response.headers)))

unfoldable pub build_data_frame : ℕ → Bytes → Bool → Frame
build_data_frame stream_id bytes stream_end =
    frame_with type_data (if stream_end then end_stream else 0) stream_id bytes

unfoldable pub build_settings_frame : Settings → Bool → Frame
build_settings_frame settings is_ack =
    if is_ack
    then frame_with type_settings ack 0 []
    else frame_with type_settings 0 0 (serialize_settings settings)

unfoldable pub build_goaway_frame : ℕ → ℕ → Frame
build_goaway_frame last_stream_id error_code =
    frame_with type_goaway 0 0 (encode_uint32_be last_stream_id ++ encode_uint32_be error_code)

unfoldable pub build_rst_stream_frame : ℕ → ℕ → Frame
build_rst_stream_frame stream_id error_code =
    frame_with type_rst_stream 0 stream_id (encode_uint32_be error_code)

unfoldable pub build_window_update_frame : ℕ → ℕ → Frame
build_window_update_frame stream_id window_size_increment =
    frame_with type_window_update 0 stream_id (encode_uint32_be window_size_increment)

unfoldable pub build_ping_frame : Bytes → Bool → Frame
build_ping_frame opaque_data is_ack =
    frame_with type_ping (if is_ack then ack else 0) 0
      (if length opaque_data == 8 then opaque_data else replicate 8 0)

-- The loop of `Response::to_frames`. `none` is no answer of the source: the rounds ran out, as they
-- do for a frame size of 0, with which the source's loop does not end.
unfoldable pub chunks : ℕ → ℕ → Bytes → ℕ → ℕ → Option (List Frame)
chunks zero stream_id body max_frame_size offset =
    if ltb offset (length body) then none else some []
chunks (suc fuel) stream_id body max_frame_size offset =
    let chunk_size = min max_frame_size (length body - offset) in
    let chunk = take chunk_size (drop offset body) in
    let frame = build_data_frame stream_id chunk (leb (length body) (offset + chunk_size)) in
    let rest = chunks fuel stream_id body max_frame_size (offset + chunk_size) in
    if ltb offset (length body)
    then (elim rest [ none ↦ none | some frames ↦ some (frame ∷ frames) ])
    else some []

unfoldable pub to_frames : ℕ → Response → Option (List Frame)
to_frames max_frame_size r = elim (chunks (length r.body) r.stream_id r.body max_frame_size 0) [
  | none ↦ none
  | some frames ↦ some (build_response_headers r r.stream_id true (length r.body == 0) ∷ frames)
]

-- The headers that a payload decodes to; `decode_headers` always answers.
abbrev pub decoded : Bytes → Headers
decoded payload = elim (decode_headers payload) [ none ↦ [] | some headers ↦ headers ]

abbrev pub found_or : Option Bytes → Bytes → Bytes
found_or none old = old
found_or (some value) old = value

-- `Parser::parse_headers_frame` into a request, and into a response.
unfoldable pub parse_request_headers : Frame → Request → ParseResult × Request
parse_request_headers frame request =
    let headers = decoded frame.payload in
    if frame.frame_type == type_headers
    then (
      success,
      record request {
        stream_id = frame.stream_id;
        headers = headers;
        method = found_or (find (text ":method") headers) request.method;
        path = found_or (find (text ":path") headers) request.path;
      },
    )
    else (error, request)

abbrev pub status_of : Option Bytes → ℤ → ℤ
status_of none old = old
status_of (some value) old = elim (parse_int value) [ none ↦ pos 200 | some code ↦ code ]

unfoldable pub parse_response_headers : Frame → Response → ParseResult × Response
parse_response_headers frame response =
    let headers = decoded frame.payload in
    if frame.frame_type == type_headers
    then (
      success,
      record response {
        stream_id = frame.stream_id;
        headers = headers;
        status_code = status_of (find (text ":status") headers) response.status_code;
      },
    )
    else (error, response)
