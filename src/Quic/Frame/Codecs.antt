-- ===== src/Quic/Frame/Codecs.antt =====
-- For each alternative of `Frame` but padding: what `encode_frame` appends, `parse_frame` takes.
use libspaznet.Base.{Bytes, length, ℕ, ◌%◌, ◌<◌, ◌≡◌, refl, Bool, true, false, [], ◌∷◌, arith}
use libspaznet.Wire.Reader.{return, ◌>>=◌, read_bytes}
use libspaznet.Wire.Writer.{insert}
use libspaznet.Wire.RoundTrip.{Emits-insert}
use libspaznet.Wire.Codec.{
  Codec, Codec-bind, Codec-map, Codec-insert, Codec-end, Codec-array, Codec-byte, Codec-guard,
}
use libspaznet.Quic.VarInt.{append, write_case, decode as read_varint}
use libspaznet.Quic.VarInt.RoundTrip.{varint, Emits-append, Parses-decode}
use libspaznet.Quic.Frame.{
  Frame, ResetStreamFrame, StopSendingFrame, CryptoFrame, NewTokenFrame, MaxDataFrame,
  PathChallengeFrame, NewConnectionIdFrame, RetireConnectionIdFrame, MaxStreamDataFrame,
  DataBlockedFrame, PathResponseFrame, StreamDataBlockedFrame,
}
use libspaznet.Quic.Frame.Parse.{
  parse_reset_stream, parse_stop_sending, parse_crypto, parse_new_token, parse_max_data,
  parse_control, parse_body, parse_stream_data_blocked, parse_streams_blocked,
  parse_retire_connection_id, parse_path, parse_max_streams, parse_max_stream_data,
  parse_new_connection_id, parse_data_blocked,
}
use libspaznet.Quic.Frame.Encode.{write_sized, encode_frame}
use libspaznet.Quic.Frame.Encodable.{IsVarint, IsEncodable, as_parsed}

pub Codec-varint : (v : ℕ) → IsVarint v → Codec (append v) read_varint v
Codec-varint v h = (varint v, Emits-append v h, Parses-decode v h)

-- The type, one byte.
pub Codec-type : (t : ℕ) → t < 64 → Codec (insert (t ∷ [])) read_varint t
unfolding write_case
Codec-type t h =
    let e : varint t ≡ t ∷ [] = ground arith in
    (t ∷ [], Emits-insert (t ∷ []), rw e at (Parses-decode t (omega arith)))

pub Codec-sized {ℓ} :
    {A : Type ℓ} (g : Bytes → A) (bs : Bytes)
    → IsVarint (length bs)
    → Codec (write_sized bs) (read_varint >>= λ n. (read_bytes n >>= λ b. return (g b))) (g bs)
Codec-sized g bs h = Codec-bind _ (Codec-varint (length bs) h) (Codec-map g (Codec-insert bs))

abbrev pub Decodes : Frame → Type 0
Decodes f = Codec (encode_frame f) (read_varint >>= parse_body) (as_parsed f)

pub Decodes-ping : Decodes Frame.ping
unfolding encode_frame parse_body
Decodes-ping = Codec-end _ (Codec-varint 1 (omega arith)) (λ buf off. refl)

pub Decodes-reset_stream :
    (x : ResetStreamFrame) → IsEncodable (Frame.reset_stream x) → Decodes (Frame.reset_stream x)
unfolding encode_frame parse_body parse_reset_stream
Decodes-reset_stream x (h₁, h₂, h₃) = Codec-bind _ (Codec-varint 4 (omega arith)) (
    Codec-bind _ (Codec-varint x.stream_id h₁) (
      Codec-bind _ (Codec-varint x.app_error h₂) (
        Codec-map (λ n. Frame.reset_stream (record x { final_size = n }))
          (Codec-varint x.final_size h₃))))

pub Decodes-stop_sending :
    (x : StopSendingFrame) → IsEncodable (Frame.stop_sending x) → Decodes (Frame.stop_sending x)
unfolding encode_frame parse_body parse_stop_sending
Decodes-stop_sending x (h₁, h₂) = Codec-bind _ (Codec-varint 5 (omega arith)) (
    Codec-bind _ (Codec-varint x.stream_id h₁) (
      Codec-map (λ n. Frame.stop_sending (record x { app_error = n }))
        (Codec-varint x.app_error h₂)))

pub Decodes-crypto : (x : CryptoFrame) → IsEncodable (Frame.crypto x) → Decodes (Frame.crypto x)
unfolding encode_frame parse_body parse_crypto
Decodes-crypto x (h₁, h₂) = Codec-bind _ (Codec-varint 6 (omega arith)) (
    Codec-bind _ (Codec-varint x.offset h₁)
      (Codec-sized (λ b. Frame.crypto (record x { bytes = b })) x.bytes h₂))

pub Decodes-new_token :
    (x : NewTokenFrame) → IsEncodable (Frame.new_token x) → Decodes (Frame.new_token x)
unfolding encode_frame parse_body parse_new_token
Decodes-new_token x h =
    Codec-bind _ (Codec-varint 7 (omega arith))
      (Codec-sized (λ b. Frame.new_token (record x { token = b })) x.token h)

pub Decodes-max_data :
    (x : MaxDataFrame) → IsEncodable (Frame.max_data x) → Decodes (Frame.max_data x)
unfolding encode_frame parse_body parse_control parse_max_data
Decodes-max_data x h =
    Codec-bind _ (Codec-varint 0x10 (omega arith))
      (Codec-map (λ n. Frame.max_data (record { maximum = n })) (Codec-varint x.maximum h))

pub Decodes-max_stream_data :
    (x : MaxStreamDataFrame)
    → IsEncodable (Frame.max_stream_data x)
    → Decodes (Frame.max_stream_data x)
unfolding encode_frame parse_body parse_control parse_max_stream_data
Decodes-max_stream_data x (h₁, h₂) = Codec-bind _ (Codec-varint 0x11 (omega arith)) (
    Codec-bind _ (Codec-varint x.stream_id h₁) (
      Codec-map (λ n. Frame.max_stream_data (record x { maximum = n }))
        (Codec-varint x.maximum h₂)))

pub Decodes-max_streams :
    (bidi : Bool) (n : ℕ)
    → IsVarint n
    → Decodes (Frame.max_streams (record { bidi = bidi; maximum = n }))
unfolding encode_frame parse_body parse_control parse_max_streams
Decodes-max_streams true n h =
    Codec-bind _ (Codec-varint 0x12 (omega arith))
      (Codec-map (λ m. Frame.max_streams (record { bidi = true; maximum = m })) (Codec-varint n h))
Decodes-max_streams false n h =
    Codec-bind _ (Codec-varint 0x13 (omega arith))
      (Codec-map (λ m. Frame.max_streams (record { bidi = false; maximum = m })) (Codec-varint n h))

pub Decodes-data_blocked :
    (x : DataBlockedFrame) → IsEncodable (Frame.data_blocked x) → Decodes (Frame.data_blocked x)
unfolding encode_frame parse_body parse_control parse_data_blocked
Decodes-data_blocked x h =
    Codec-bind _ (Codec-varint 0x14 (omega arith))
      (Codec-map (λ n. Frame.data_blocked (record { limit = n })) (Codec-varint x.limit h))

pub Decodes-stream_data_blocked :
    (x : StreamDataBlockedFrame)
    → IsEncodable (Frame.stream_data_blocked x)
    → Decodes (Frame.stream_data_blocked x)
unfolding encode_frame parse_body parse_control parse_stream_data_blocked
Decodes-stream_data_blocked x (h₁, h₂) = Codec-bind _ (Codec-varint 0x15 (omega arith)) (
    Codec-bind _ (Codec-varint x.stream_id h₁) (
      Codec-map (λ n. Frame.stream_data_blocked (record x { limit = n }))
        (Codec-varint x.limit h₂)))

pub Decodes-streams_blocked :
    (bidi : Bool) (n : ℕ)
    → IsVarint n
    → Decodes (Frame.streams_blocked (record { bidi = bidi; limit = n }))
unfolding encode_frame parse_body parse_control parse_streams_blocked
Decodes-streams_blocked true n h =
    Codec-bind _ (Codec-varint 0x16 (omega arith)) (
      Codec-map (λ m. Frame.streams_blocked (record { bidi = true; limit = m })) (Codec-varint n h))
Decodes-streams_blocked false n h =
    Codec-bind _ (Codec-varint 0x17 (omega arith)) (
      Codec-map (λ m. Frame.streams_blocked (record { bidi = false; limit = m }))
        (Codec-varint n h))

pub Decodes-new_connection_id :
    (x : NewConnectionIdFrame)
    → IsEncodable (Frame.new_connection_id x)
    → Decodes (Frame.new_connection_id x)
unfolding encode_frame parse_body parse_control parse_new_connection_id
Decodes-new_connection_id x (h₁, h₂, lo, hi, token) =
    let size : length x.connection_id % 256 ≡ length x.connection_id = omega arith in
    Codec-bind _ (Codec-varint 0x18 (omega arith)) (
      Codec-bind _ (Codec-varint x.sequence_number h₁) (
        Codec-bind _ (Codec-varint x.retire_prior_to h₂) (
          rw size (
            Codec-bind _ (Codec-byte (length x.connection_id)) (
              Codec-guard _ (ground arith) (
                Codec-bind _ (Codec-insert x.connection_id) (
                  Codec-map (λ t. Frame.new_connection_id (record x { stateless_reset_token = t }))
                    (Codec-array x.stateless_reset_token 16 token))))))))

pub Decodes-retire_connection_id :
    (x : RetireConnectionIdFrame)
    → IsEncodable (Frame.retire_connection_id x)
    → Decodes (Frame.retire_connection_id x)
unfolding encode_frame parse_body parse_control parse_retire_connection_id
Decodes-retire_connection_id x h = Codec-bind _ (Codec-varint 0x19 (omega arith)) (
    Codec-map (λ n. Frame.retire_connection_id (record { sequence_number = n }))
      (Codec-varint x.sequence_number h))

pub Decodes-path_challenge :
    (x : PathChallengeFrame)
    → IsEncodable (Frame.path_challenge x)
    → Decodes (Frame.path_challenge x)
unfolding encode_frame parse_body parse_control parse_path
Decodes-path_challenge x h =
    Codec-bind _ (Codec-varint 0x1a (omega arith))
      (Codec-map (λ b. Frame.path_challenge (record { bytes = b })) (Codec-array x.bytes 8 h))

pub Decodes-path_response :
    (x : PathResponseFrame) → IsEncodable (Frame.path_response x) → Decodes (Frame.path_response x)
unfolding encode_frame parse_body parse_control parse_path
Decodes-path_response x h =
    Codec-bind _ (Codec-varint 0x1b (omega arith))
      (Codec-map (λ b. Frame.path_response (record { bytes = b })) (Codec-array x.bytes 8 h))

pub Decodes-handshake_done : Decodes Frame.handshake_done
unfolding encode_frame parse_body parse_control
Decodes-handshake_done = Codec-end _ (Codec-varint 0x1e (omega arith)) (λ buf off. refl)
