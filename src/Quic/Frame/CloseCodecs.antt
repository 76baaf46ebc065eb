-- ===== src/Quic/Frame/CloseCodecs.antt =====
-- The alternatives of `Frame` whose fields depend on flags: STREAM and CONNECTION_CLOSE.
use libspaznet.Base.{◌==◌, if◌then◌else◌, ℕ, ◌<◌, ◌≡◌, refl, subst, Bool, true, false, not, arith}
use libspaznet.Wire.Reader.{◌>>=◌, read_bytes, return}
use libspaznet.Wire.Writer.{when}
use libspaznet.Wire.Codec.{Codec, Codec-bind, Codec-return}
use libspaznet.Quic.VarInt.{append, decode as read_varint}
use libspaznet.Quic.Frame.{FrameType, Frame, StreamFrame, code_of, ConnectionCloseFrame}
use libspaznet.Quic.Frame.Parse.{
  parse_body, parse_connection_close, parse_control, read_if, parse_stream, read_length,
}
use libspaznet.Quic.Frame.Encode.{encode_frame, stream_type_byte}
use libspaznet.Quic.Frame.Encodable.{IsVarint, IsEncodable}
use libspaznet.Quic.Frame.Codecs.{Codec-varint, Decodes, Codec-type, Codec-sized}
use libspaznet.Quic.Frame.FlagCodecs.{Codec-typed}

body_close :
    (application : Bool)
    → parse_body (
        code_of (
          if application
          then FrameType.connection_close_application
          else FrameType.connection_close_transport))
      ≡ parse_connection_close application
unfolding parse_body parse_control
body_close true = refl
body_close false = refl

-- A field that is written where `b` holds and is `d`, or 0, otherwise.
Codec-when :
    (b : Bool) (v : ℕ) → IsVarint v → Codec (when b (append v)) (read_if b) (if b then v else 0)
unfolding read_if
Codec-when true v h = Codec-varint v h
Codec-when false v h = Codec-return 0

kept :
    (application : Bool) (v : ℕ)
    → (if not application then v else 0) ≡ (if application then 0 else v)
kept true v = refl
kept false v = refl

pub Decodes-connection_close :
    (x : ConnectionCloseFrame)
    → IsEncodable (Frame.connection_close x)
    → Decodes (Frame.connection_close x)
unfolding encode_frame parse_connection_close
Decodes-connection_close x (h₁, h₂, h₃) =
    Codec-typed (Codec-varint _ (ground arith)) (body_close x.application) (
      Codec-bind _ (Codec-varint x.error_code h₁) (
        rw (← kept x.application x.frame_type) (
          Codec-bind _ (Codec-when (not x.application) x.frame_type h₂) (
            Codec-sized
              (λ b. Frame.connection_close (record x {
                frame_type = if not x.application then x.frame_type else 0;
                reason = b;
              }))
              x.reason h₃))))

-- The flags come back out of the type byte.
body_stream :
    (has_off fin : Bool)
    → parse_body (stream_type_byte has_off fin) ≡ (
        read_varint >>= λ stream_id.
        (read_if has_off >>= λ offset.
        (read_varint >>= λ data_len.
        (read_bytes data_len >>= λ bytes. return (
          Frame.stream (record {
            stream_id = stream_id;
            offset = offset;
            has_length = true;
            fin = fin;
            bytes = bytes;
          }))))))
unfolding parse_body parse_stream read_length
body_stream true true = refl
body_stream true false = refl
body_stream false true = refl
body_stream false false = refl

type_byte-lt : (has_off fin : Bool) → stream_type_byte has_off fin < 64
type_byte-lt true true = omega arith
type_byte-lt true false = omega arith
type_byte-lt false true = omega arith
type_byte-lt false false = omega arith

pub Decodes-stream : (x : StreamFrame) → IsEncodable (Frame.stream x) → Decodes (Frame.stream x)
unfolding encode_frame
Decodes-stream x (h₁, h₂, h₃) =
    Codec-typed (Codec-type (stream_type_byte has_off x.fin) (type_byte-lt has_off x.fin))
      (body_stream has_off x.fin)
      (Codec-bind _ (Codec-varint x.stream_id h₁) (
        Codec-bind _ offset
          (Codec-sized (λ b. Frame.stream (record x { has_length = true; bytes = b })) x.bytes h₃)))
  where
    has_off : Bool
    has_off = not (x.offset == 0)

    same : (if has_off then x.offset else 0) ≡ x.offset
    same = ground arith

    offset : Codec (when has_off (append x.offset)) (read_if has_off) x.offset
    offset =
        subst (λ n. Codec (when has_off (append x.offset)) (read_if has_off) n) same
          (Codec-when has_off x.offset h₂)
