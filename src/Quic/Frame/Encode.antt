-- ===== src/Quic/Frame/Encode.antt =====
-- `encode_frame` of example/quic-http3/src/quic/frame.cpp.
use libspaznet.Base.{
  ◌==◌, if◌then◌else◌, Bytes, length, replicate, ℕ, ◌%◌, bit_or, Bool, not, [], ◌∷◌,
}
use libspaznet.Wire.Writer.{◌>>◌, Writer, insert, when, for_each}
use libspaznet.Quic.VarInt.{append}
use libspaznet.Quic.Frame.{
  FrameType, Frame, code_of, AckRange, AckFrame, StreamFrame, NewConnectionIdFrame,
  ConnectionCloseFrame,
}

abbrev pub write_type : FrameType → Writer
write_type t = append (code_of t)

-- `append(out, bytes.size())`, then the bytes.
abbrev pub write_sized : Bytes → Writer
write_sized bs = do append (length bs); insert bs

abbrev pub write_ack_range : AckRange → Writer
write_ack_range r = do append r.gap; append r.length

-- The type byte of a STREAM frame: 0x08 with the length flag always set.
abbrev pub stream_type_byte : Bool → Bool → ℕ
stream_type_byte has_off fin =
    let base = bit_or 0x08 0x02 in
    let with_off = if has_off then bit_or base 0x04 else base in
    if fin then bit_or with_off 0x01 else with_off

unfoldable pub encode_ack : AckFrame → Writer
encode_ack x = do
  write_type (if x.ecn then FrameType.ack_ecn else FrameType.ack)
  append x.largest_acked
  append x.ack_delay
  append (length x.ranges)
  append x.first_range
  for_each write_ack_range x.ranges
  when x.ecn (do append x.ect0; append x.ect1; append x.ce)

unfoldable pub encode_stream : StreamFrame → Writer
encode_stream x = do
  insert (stream_type_byte (not (x.offset == 0)) x.fin ∷ [])
  append x.stream_id
  when (not (x.offset == 0)) (append x.offset)
  write_sized x.bytes

unfoldable pub encode_new_connection_id : NewConnectionIdFrame → Writer
encode_new_connection_id x = do
  write_type FrameType.new_connection_id
  append x.sequence_number
  append x.retire_prior_to
  insert (length x.connection_id % 256 ∷ [])
  insert x.connection_id
  insert x.stateless_reset_token

unfoldable pub encode_connection_close : ConnectionCloseFrame → Writer
encode_connection_close x = do
  write_type (
      if x.application
      then FrameType.connection_close_application
      else FrameType.connection_close_transport)
  append x.error_code
  when (not x.application) (append x.frame_type)
  write_sized x.reason

-- The alternatives of `std::visit`; the longer ones are above.
unfoldable pub encode_frame : Frame → Writer
unfolding encode_ack encode_stream encode_new_connection_id encode_connection_close
encode_frame (Frame.padding x) = insert (replicate x.count 0)
encode_frame Frame.ping = write_type FrameType.ping
encode_frame (Frame.ack x) = encode_ack x
encode_frame (Frame.reset_stream x) = do
  write_type FrameType.reset_stream
  append x.stream_id
  append x.app_error
  append x.final_size
encode_frame (Frame.stop_sending x) = do
  write_type FrameType.stop_sending
  append x.stream_id
  append x.app_error
encode_frame (Frame.crypto x) = do write_type FrameType.crypto; append x.offset; write_sized x.bytes
encode_frame (Frame.new_token x) = do write_type FrameType.new_token; write_sized x.token
encode_frame (Frame.stream x) = encode_stream x
encode_frame (Frame.max_data x) = do write_type FrameType.max_data; append x.maximum
encode_frame (Frame.max_stream_data x) = do
  write_type FrameType.max_stream_data
  append x.stream_id
  append x.maximum
encode_frame (Frame.max_streams x) = do
  write_type (if x.bidi then FrameType.max_streams_bidi else FrameType.max_streams_uni)
  append x.maximum
encode_frame (Frame.data_blocked x) = do write_type FrameType.data_blocked; append x.limit
encode_frame (Frame.stream_data_blocked x) = do
  write_type FrameType.stream_data_blocked
  append x.stream_id
  append x.limit
encode_frame (Frame.streams_blocked x) = do
  write_type (if x.bidi then FrameType.streams_blocked_bidi else FrameType.streams_blocked_uni)
  append x.limit
encode_frame (Frame.new_connection_id x) = encode_new_connection_id x
encode_frame (Frame.retire_connection_id x) = do
  write_type FrameType.retire_connection_id
  append x.sequence_number
encode_frame (Frame.path_challenge x) = do write_type FrameType.path_challenge; insert x.bytes
encode_frame (Frame.path_response x) = do write_type FrameType.path_response; insert x.bytes
encode_frame (Frame.connection_close x) = encode_connection_close x
encode_frame Frame.handshake_done = write_type FrameType.handshake_done
