-- ===== src/Quic/Frame/Encodable.antt =====
-- Which frames `encode_frame` of frame.cpp can write without throwing and without losing a field,
-- and what `parse_frame` answers for them.
use libspaznet.Base.{
  if◌then◌else◌, Bytes, length, All, ℕ, ◌≤◌, ◌<◌, ◌≡◌, ◌≢◌, Bool, true, false, ◌∷◌,
}
use libspaznet.Quic.VarInt.{k_max}
use libspaznet.Quic.Frame.{Frame, AckRange}

abbrev pub IsVarint : ℕ → Type 0
IsVarint v = v ≤ k_max

abbrev pub IsRange : AckRange → Type 0
IsRange r = IsVarint r.gap × IsVarint r.length

-- Numbers below 2 ^ 62, arrays of their declared length, a connection ID of 1 to 20 bytes, and at
-- least one byte of padding.
abbrev pub IsEncodable : Frame → Type 0
IsEncodable (Frame.padding x) = 0 < x.count
IsEncodable Frame.ping = Unit
IsEncodable (Frame.ack x) =
    IsVarint x.largest_acked
    × IsVarint x.ack_delay
    × IsVarint (length x.ranges)
    × IsVarint x.first_range
    × All IsRange x.ranges
    × IsVarint x.ect0
    × IsVarint x.ect1
    × IsVarint x.ce
IsEncodable (Frame.reset_stream x) =
    IsVarint x.stream_id × IsVarint x.app_error × IsVarint x.final_size
IsEncodable (Frame.stop_sending x) = IsVarint x.stream_id × IsVarint x.app_error
IsEncodable (Frame.crypto x) = IsVarint x.offset × IsVarint (length x.bytes)
IsEncodable (Frame.new_token x) = IsVarint (length x.token)
IsEncodable (Frame.stream x) = IsVarint x.stream_id × IsVarint x.offset × IsVarint (length x.bytes)
IsEncodable (Frame.max_data x) = IsVarint x.maximum
IsEncodable (Frame.max_stream_data x) = IsVarint x.stream_id × IsVarint x.maximum
IsEncodable (Frame.max_streams x) = IsVarint x.maximum
IsEncodable (Frame.data_blocked x) = IsVarint x.limit
IsEncodable (Frame.stream_data_blocked x) = IsVarint x.stream_id × IsVarint x.limit
IsEncodable (Frame.streams_blocked x) = IsVarint x.limit
IsEncodable (Frame.new_connection_id x) =
    IsVarint x.sequence_number
    × IsVarint x.retire_prior_to
    × (1 ≤ length x.connection_id)
    × (length x.connection_id ≤ 20)
    × (length x.stateless_reset_token ≡ 16)
IsEncodable (Frame.retire_connection_id x) = IsVarint x.sequence_number
IsEncodable (Frame.path_challenge x) = length x.bytes ≡ 8
IsEncodable (Frame.path_response x) = length x.bytes ≡ 8
IsEncodable (Frame.connection_close x) =
    IsVarint x.error_code × IsVarint x.frame_type × IsVarint (length x.reason)
IsEncodable Frame.handshake_done = Unit

-- A STREAM frame comes back with its length flag set; the ECN counts of a plain ACK and the frame
-- type of an application's close are not on the wire and come back 0.
abbrev pub as_parsed : Frame → Frame
as_parsed (Frame.ack x) = Frame.ack (record x {
  ect0 = if x.ecn then x.ect0 else 0;
  ect1 = if x.ecn then x.ect1 else 0;
  ce = if x.ecn then x.ce else 0;
})
as_parsed (Frame.stream x) = Frame.stream (record x { has_length = true })
as_parsed (Frame.connection_close x) =
    Frame.connection_close (record x { frame_type = if x.application then 0 else x.frame_type })
as_parsed f = f

abbrev pub is_padding : Frame → Bool
is_padding (Frame.padding x) = true
is_padding _ = false

-- What may stand behind a frame: behind padding no further zero, which would join it.
abbrev pub Follows : Frame → Bytes → Type 0
Follows (Frame.padding x) (b ∷ rest) = b ≢ 0
Follows _ rest = Unit
