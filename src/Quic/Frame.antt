-- ===== src/Quic/Frame.antt =====
-- example/quic-http3/include/libspaznet/quic/frame.hpp: the frames of RFC 9000, section 19, and
-- `is_ack_eliciting` of frame.cpp. The children model the two codecs of frame.cpp.
pub mod Parse
pub mod Encode
pub mod Encodable
pub mod Codecs
pub mod FlagCodecs
pub mod CloseCodecs
pub mod Safety
pub mod RoundTrip
pub mod Payload
use libspaznet.Base.{Bytes, length, ℕ, Bool, true, false, List}

-- `enum class FrameType`; STREAM covers 0x08 to 0x0f.
pub data FrameType : Type 0 where
  padding ping ack ack_ecn reset_stream stop_sending crypto new_token stream : FrameType
  max_data max_stream_data max_streams_bidi max_streams_uni data_blocked : FrameType
  stream_data_blocked streams_blocked_bidi streams_blocked_uni new_connection_id : FrameType
  retire_connection_id path_challenge path_response connection_close_transport : FrameType
  connection_close_application handshake_done : FrameType

-- `static_cast<uint64_t>(t)`
abbrev pub code_of : FrameType → ℕ
code_of FrameType.padding = 0x00
code_of FrameType.ping = 0x01
code_of FrameType.ack = 0x02
code_of FrameType.ack_ecn = 0x03
code_of FrameType.reset_stream = 0x04
code_of FrameType.stop_sending = 0x05
code_of FrameType.crypto = 0x06
code_of FrameType.new_token = 0x07
code_of FrameType.stream = 0x08
code_of FrameType.max_data = 0x10
code_of FrameType.max_stream_data = 0x11
code_of FrameType.max_streams_bidi = 0x12
code_of FrameType.max_streams_uni = 0x13
code_of FrameType.data_blocked = 0x14
code_of FrameType.stream_data_blocked = 0x15
code_of FrameType.streams_blocked_bidi = 0x16
code_of FrameType.streams_blocked_uni = 0x17
code_of FrameType.new_connection_id = 0x18
code_of FrameType.retire_connection_id = 0x19
code_of FrameType.path_challenge = 0x1a
code_of FrameType.path_response = 0x1b
code_of FrameType.connection_close_transport = 0x1c
code_of FrameType.connection_close_application = 0x1d
code_of FrameType.handshake_done = 0x1e

-- The structs; a field `data` is `bytes` here. A `std::array` is a list, of the array's length in
-- what `IsEncodable` says.
pub record PaddingFrame : Type 0 where
  pub count : ℕ

pub record AckRange : Type 0 where
  pub gap : ℕ
  pub length : ℕ

pub record AckFrame : Type 0 where
  pub largest_acked : ℕ
  pub ack_delay : ℕ
  pub first_range : ℕ
  pub ranges : List AckRange
  pub ecn : Bool
  pub ect0 : ℕ
  pub ect1 : ℕ
  pub ce : ℕ

pub record ResetStreamFrame : Type 0 where
  pub stream_id : ℕ
  pub app_error : ℕ
  pub final_size : ℕ

pub record StopSendingFrame : Type 0 where
  pub stream_id : ℕ
  pub app_error : ℕ

pub record CryptoFrame : Type 0 where
  pub offset : ℕ
  pub bytes : Bytes

pub record NewTokenFrame : Type 0 where
  pub token : Bytes

pub record StreamFrame : Type 0 where
  pub stream_id : ℕ
  pub offset : ℕ
  pub has_length : Bool
  pub fin : Bool
  pub bytes : Bytes

pub record MaxDataFrame : Type 0 where
  pub maximum : ℕ

pub record MaxStreamDataFrame : Type 0 where
  pub stream_id : ℕ
  pub maximum : ℕ

pub record MaxStreamsFrame : Type 0 where
  pub bidi : Bool
  pub maximum : ℕ

pub record DataBlockedFrame : Type 0 where
  pub limit : ℕ

pub record StreamDataBlockedFrame : Type 0 where
  pub stream_id : ℕ
  pub limit : ℕ

pub record StreamsBlockedFrame : Type 0 where
  pub bidi : Bool
  pub limit : ℕ

pub record NewConnectionIdFrame : Type 0 where
  pub sequence_number : ℕ
  pub retire_prior_to : ℕ
  pub connection_id : Bytes
  pub stateless_reset_token : Bytes

pub record RetireConnectionIdFrame : Type 0 where
  pub sequence_number : ℕ

pub record PathChallengeFrame : Type 0 where
  pub bytes : Bytes

pub record PathResponseFrame : Type 0 where
  pub bytes : Bytes

pub record ConnectionCloseFrame : Type 0 where
  pub application : Bool
  pub error_code : ℕ
  pub frame_type : ℕ
  pub reason : Bytes

-- `using Frame = std::variant<...>`
pub data Frame : Type 0 where
  padding : PaddingFrame → Frame
  ping : Frame
  ack : AckFrame → Frame
  reset_stream : ResetStreamFrame → Frame
  stop_sending : StopSendingFrame → Frame
  crypto : CryptoFrame → Frame
  new_token : NewTokenFrame → Frame
  stream : StreamFrame → Frame
  max_data : MaxDataFrame → Frame
  max_stream_data : MaxStreamDataFrame → Frame
  max_streams : MaxStreamsFrame → Frame
  data_blocked : DataBlockedFrame → Frame
  stream_data_blocked : StreamDataBlockedFrame → Frame
  streams_blocked : StreamsBlockedFrame → Frame
  new_connection_id : NewConnectionIdFrame → Frame
  retire_connection_id : RetireConnectionIdFrame → Frame
  path_challenge : PathChallengeFrame → Frame
  path_response : PathResponseFrame → Frame
  connection_close : ConnectionCloseFrame → Frame
  handshake_done : Frame

unfoldable pub is_ack_eliciting : Frame → Bool
is_ack_eliciting (Frame.padding x) = false
is_ack_eliciting (Frame.ack x) = false
is_ack_eliciting (Frame.connection_close x) = false
is_ack_eliciting _ = true
