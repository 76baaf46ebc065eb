-- ===== src/Quic/Frame/Parse.antt =====
-- `parse_frame` and `parse_frames` of example/quic-http3/src/quic/frame.cpp. Every failing path of
-- the source puts the offset back to where it was; the answer is `none`.
use libspaznet.Base.{
  ltb, leb, ◌==◌, if◌then◌else◌, Bytes, length, get_or, ℕ, zero, suc, ◌+◌, ◌-◌, ◌/◌, ◌%◌, bit_and,
  Bool, true, false, not, ◌&&◌, ◌||◌, none, some, List, [], ◌∷◌, ◌++◌,
}
use libspaznet.Wire.Reader.{
  ◌>>◌, Reader, return, fail, ◌>>=◌, guard, read_bytes, remaining, read_byte, read_many,
}
use libspaznet.Quic.VarInt.{decode as read_varint}
use libspaznet.Quic.Frame.{FrameType, Frame, code_of, AckRange}

-- `while (offset < buf.size() && buf[offset] == 0) { ++count; ++offset; }`: no more rounds than
-- bytes are left.
unfoldable pub skip_zeros : ℕ → Bytes → ℕ → ℕ → ℕ × ℕ
skip_zeros zero buf offset count = (count, offset)
skip_zeros (suc fuel) buf offset count =
    let rest = skip_zeros fuel buf (offset + 1) (count + 1) in
    if ltb offset (length buf) && get_or buf offset 0 == 0 then rest else (count, offset)

unfoldable pub parse_padding : Reader Frame
parse_padding buf offset =
    let (count, offset') = skip_zeros (length buf - offset) buf offset 1 in
    some (Frame.padding (record { count = count }), offset')

unfoldable pub parse_ack_range : Reader AckRange
parse_ack_range = do
  gap ← read_varint
  size ← read_varint
  return (record { gap = gap; length = size })

-- `ect0`, `ect1` and `ce`, which stay 0 without ECN.
unfoldable pub parse_ecn : Bool → Reader (ℕ × ℕ × ℕ)
parse_ecn false = return (0, 0, 0)
parse_ecn true = do
  ect0 ← read_varint
  ect1 ← read_varint
  ce ← read_varint
  return (ect0, ect1, ce)

unfoldable pub parse_ack : Bool → Reader Frame
parse_ack ecn = do
  largest_acked ← read_varint
  ack_delay ← read_varint
  ack_range_count ← read_varint
  first_range ← read_varint
  left ← remaining
  guard (leb ack_range_count (left / 2))
  ranges ← read_many parse_ack_range ack_range_count
  (ect0, ect1, ce) ← parse_ecn ecn
  return (
      Frame.ack (record {
        largest_acked = largest_acked;
        ack_delay = ack_delay;
        first_range = first_range;
        ranges = ranges;
        ecn = ecn;
        ect0 = ect0;
        ect1 = ect1;
        ce = ce;
      }))

unfoldable pub parse_reset_stream : Reader Frame
parse_reset_stream = do
  stream_id ← read_varint
  app_error ← read_varint
  final_size ← read_varint
  return (
      Frame.reset_stream
        (record { stream_id = stream_id; app_error = app_error; final_size = final_size }))

unfoldable pub parse_stop_sending : Reader Frame
parse_stop_sending = do
  stream_id ← read_varint
  app_error ← read_varint
  return (Frame.stop_sending (record { stream_id = stream_id; app_error = app_error }))

unfoldable pub parse_crypto : Reader Frame
parse_crypto = do
  offset ← read_varint
  size ← read_varint
  bytes ← read_bytes size
  return (Frame.crypto (record { offset = offset; bytes = bytes }))

unfoldable pub parse_new_token : Reader Frame
parse_new_token = do
  size ← read_varint
  token ← read_bytes size
  return (Frame.new_token (record { token = token }))

-- A field that is there under a flag, and 0 without it.
unfoldable pub read_if : Bool → Reader ℕ
read_if b = if b then read_varint else return 0

-- With no length field the data extends to the end of the payload.
unfoldable pub read_length : Bool → Reader ℕ
read_length b = if b then read_varint else remaining

-- Flags of the type byte: 0x04 an offset, 0x02 a length, 0x01 the end of the stream.
unfoldable pub parse_stream : ℕ → Reader Frame
parse_stream type_raw =
    let flags = type_raw % 256 in
    let fin = not (bit_and flags 0x01 == 0) in
    let has_off = not (bit_and flags 0x04 == 0) in
    let has_length = not (bit_and flags 0x02 == 0) in
    do
      stream_id ← read_varint
      offset ← read_if has_off
      data_len ← read_length has_length
      bytes ← read_bytes data_len
      return (
          Frame.stream (record {
            stream_id = stream_id;
            offset = offset;
            has_length = has_length;
            fin = fin;
            bytes = bytes;
          }))

unfoldable pub parse_max_data : Reader Frame
parse_max_data = do maximum ← read_varint; return (Frame.max_data (record { maximum = maximum }))

unfoldable pub parse_max_stream_data : Reader Frame
parse_max_stream_data = do
  stream_id ← read_varint
  maximum ← read_varint
  return (Frame.max_stream_data (record { stream_id = stream_id; maximum = maximum }))

unfoldable pub parse_max_streams : Bool → Reader Frame
parse_max_streams bidi = do
  maximum ← read_varint
  return (Frame.max_streams (record { bidi = bidi; maximum = maximum }))

unfoldable pub parse_data_blocked : Reader Frame
parse_data_blocked = do limit ← read_varint; return (Frame.data_blocked (record { limit = limit }))

unfoldable pub parse_stream_data_blocked : Reader Frame
parse_stream_data_blocked = do
  stream_id ← read_varint
  limit ← read_varint
  return (Frame.stream_data_blocked (record { stream_id = stream_id; limit = limit }))

unfoldable pub parse_streams_blocked : Bool → Reader Frame
parse_streams_blocked bidi = do
  limit ← read_varint
  return (Frame.streams_blocked (record { bidi = bidi; limit = limit }))

unfoldable pub parse_new_connection_id : Reader Frame
parse_new_connection_id = do
  sequence_number ← read_varint
  retire_prior_to ← read_varint
  cid_len ← read_byte
  guard (not (ltb cid_len 1 || ltb 20 cid_len))
  connection_id ← read_bytes cid_len
  stateless_reset_token ← read_bytes 16
  return (
      Frame.new_connection_id (record {
        sequence_number = sequence_number;
        retire_prior_to = retire_prior_to;
        connection_id = connection_id;
        stateless_reset_token = stateless_reset_token;
      }))

unfoldable pub parse_retire_connection_id : Reader Frame
parse_retire_connection_id = do
  sequence_number ← read_varint
  return (Frame.retire_connection_id (record { sequence_number = sequence_number }))

unfoldable pub parse_path : Bool → Reader Frame
parse_path challenge = do
  bytes ← read_bytes 8
  return (
      if challenge
      then Frame.path_challenge (record { bytes = bytes })
      else Frame.path_response (record { bytes = bytes }))

unfoldable pub parse_connection_close : Bool → Reader Frame
parse_connection_close application = do
  error_code ← read_varint
  frame_type ← read_if (not application)
  reason_len ← read_varint
  reason ← read_bytes reason_len
  return (
      Frame.connection_close (record {
        application = application;
        error_code = error_code;
        frame_type = frame_type;
        reason = reason;
      }))

-- The tests of the source from MAX_DATA on, in its order.
unfoldable pub parse_control : ℕ → Reader Frame
parse_control type_raw =
    if type_raw == code_of FrameType.max_data
    then parse_max_data
    else if type_raw == code_of FrameType.max_stream_data
    then parse_max_stream_data
    else if type_raw == code_of FrameType.max_streams_bidi
        || type_raw == code_of FrameType.max_streams_uni
    then parse_max_streams (type_raw == code_of FrameType.max_streams_bidi)
    else if type_raw == code_of FrameType.data_blocked
    then parse_data_blocked
    else if type_raw == code_of FrameType.stream_data_blocked
    then parse_stream_data_blocked
    else if type_raw == code_of FrameType.streams_blocked_bidi
        || type_raw == code_of FrameType.streams_blocked_uni
    then parse_streams_blocked (type_raw == code_of FrameType.streams_blocked_bidi)
    else if type_raw == code_of FrameType.new_connection_id
    then parse_new_connection_id
    else if type_raw == code_of FrameType.retire_connection_id
    then parse_retire_connection_id
    else if type_raw == code_of FrameType.path_challenge
        || type_raw == code_of FrameType.path_response
    then parse_path (type_raw == code_of FrameType.path_challenge)
    else if type_raw == code_of FrameType.connection_close_transport
        || type_raw == code_of FrameType.connection_close_application
    then parse_connection_close (type_raw == code_of FrameType.connection_close_application)
    else if type_raw == code_of FrameType.handshake_done
    then return Frame.handshake_done
    else fail

-- The chain of tests on the type, in the order of the source.
unfoldable pub parse_body : ℕ → Reader Frame
parse_body type_raw =
    if type_raw == code_of FrameType.padding
    then parse_padding
    else if type_raw == code_of FrameType.ping
    then return Frame.ping
    else if type_raw == code_of FrameType.ack || type_raw == code_of FrameType.ack_ecn
    then parse_ack (type_raw == code_of FrameType.ack_ecn)
    else if type_raw == code_of FrameType.reset_stream
    then parse_reset_stream
    else if type_raw == code_of FrameType.stop_sending
    then parse_stop_sending
    else if type_raw == code_of FrameType.crypto
    then parse_crypto
    else if type_raw == code_of FrameType.new_token
    then parse_new_token
    else if bit_and type_raw 0xf8 == code_of FrameType.stream
    then parse_stream type_raw
    else parse_control type_raw

unfoldable pub parse_frame : Reader Frame
parse_frame buf offset =
    if leb (length buf) offset then none else (read_varint >>= parse_body) buf offset

-- The answers of `parse_frames`; `stuck` is no answer of the source: the rounds ran out.
pub data Parsed : Type 0 where
  frames : List Frame → Parsed
  refused : Parsed
  stuck : Parsed

unfoldable pub parse_loop : ℕ → Bytes → ℕ → List Frame → Parsed
parse_loop zero payload off out = if ltb off (length payload) then stuck else frames out
parse_loop (suc fuel) payload off out =
    if ltb off (length payload)
    then (elim (parse_frame payload off) [
      | none ↦ refused
      | some (f, off') ↦ parse_loop fuel payload off' (out ++ f ∷ [])
    ])
    else frames out

-- Each round takes a byte at least.
unfoldable pub parse_frames : Bytes → Parsed
parse_frames payload = parse_loop (length payload) payload 0 []
