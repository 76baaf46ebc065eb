-- ===== src/Tests/Packets.antt =====
-- HTTP/3 frames and packets at concrete inputs.
use libspaznet.Base.{Bytes, All, ◌%◌, ◌^◌, ◌≡◌, refl, some, [], ◌∷◌, ◌++◌, arith}
use libspaznet.Wire.Reader.{read_bytes, read_byte, guard}
use libspaznet.Wire.Writer.{for_each}
use libspaznet.Wire.Safe.{IsByte, IsBuffer}
use libspaznet.Quic.VarInt.{append, write, encoded_size, write_case, decode, decode_loop}
use libspaznet.Http3.H3Frame.{
  H3Frame, parse_h3_frame, parse_body, finish, encode_h3_frame, write_boxed,
}
use libspaznet.Http3.H3Frame.RoundTrip.{parse_h3_frame-encode_h3_frame}
use libspaznet.Quic.Packet.{
  LongType, long_type, LongHeader, word32, read_connection_id, read_ids, read_token, place_packet,
  finish_packet, finish_header, parse_long_header, decode_packet_number,
}
use libspaznet.Quic.Packet.Number.{decode_packet_number-low_bytes}
use libspaznet.Quic.Packet.Header.{parse_long_header-Sound, Sound}

abbrev two_settings : H3Frame
two_settings = H3Frame.settings ((1, 4096) ∷ (7, 16) ∷ [])

abbrev settings_bytes : Bytes
settings_bytes = 4 ∷ 5 ∷ 1 ∷ 0x50 ∷ 0 ∷ 7 ∷ 16 ∷ []

encode-two_settings : encode_h3_frame two_settings [] ≡ some settings_bytes
unfolding encode_h3_frame write_boxed for_each append write encoded_size write_case
encode-two_settings = refl

parse_h3_frame-encode_h3_frame_example :
    parse_h3_frame (settings_bytes ++ 0 ∷ []) 0 ≡ some (two_settings, 7)
parse_h3_frame-encode_h3_frame_example =
    parse_h3_frame-encode_h3_frame two_settings [] (0 ∷ [])
      (((omega arith, omega arith), ((omega arith, omega arith), tt)), omega arith)
      encode-two_settings (omega arith)

abbrev entry_bytes : Bytes
entry_bytes = 7 ∷ 16 ∷ []

entry_bytes-IsBuffer : IsBuffer entry_bytes
entry_bytes-IsBuffer = ((omega arith, (omega arith, tt)), omega arith)

abbrev data_bytes : Bytes
data_bytes = 0 ∷ 1 ∷ 65 ∷ []

data_bytes-IsBuffer : IsBuffer data_bytes
data_bytes-IsBuffer = ((omega arith, (omega arith, (omega arith, tt))), omega arith)

parse-data_bytes : parse_h3_frame data_bytes 0 ≡ some (H3Frame.body (65 ∷ []), 3)
unfolding parse_h3_frame decode decode_loop read_bytes finish parse_body
parse-data_bytes = refl

-- RFC 9000, appendix A.3.
decode_packet_number-low_bytes_example :
    decode_packet_number 0xa82f30ea (0xa82f9b32 % 2 ^ 16) 16 ≡ 0xa82f9b32
decode_packet_number-low_bytes_example =
    decode_packet_number-low_bytes 2 0xa82f30ea 0xa82f9b32 (omega arith) (omega arith)
      (omega arith, omega arith, omega arith, omega arith)

-- A Handshake packet of three bytes behind its header.
abbrev handshake_bytes : Bytes
handshake_bytes = 0xe0 ∷ 0 ∷ 0 ∷ 0 ∷ 1 ∷ 1 ∷ 9 ∷ 0 ∷ 3 ∷ 5 ∷ 6 ∷ 7 ∷ []

handshake_bytes-IsBuffer : IsBuffer handshake_bytes
handshake_bytes-IsBuffer = (bytes, omega arith)
  where
    bytes : All IsByte handshake_bytes
    bytes = (
      omega arith,
      (
        omega arith,
        (
          omega arith,
          (
            omega arith,
            (
              omega arith,
              (
                omega arith,
                (
                  omega arith,
                  (omega arith, (omega arith, (omega arith, (omega arith, (omega arith, tt))))),
                ),
              ),
            ),
          ),
        ),
      ),
    )

abbrev no_header : LongHeader
no_header = record {
  type_of = LongType.initial;
  version = 0;
  dcid = [];
  scid = [];
  token = [];
  size = 0;
  pn_offset = 0;
  packet_len = 0;
}

abbrev handshake_header : LongHeader
handshake_header = record {
  type_of = LongType.handshake;
  version = 1;
  dcid = 9 ∷ [];
  scid = [];
  token = [];
  size = 3;
  pn_offset = 9;
  packet_len = 12;
}

parse-handshake : parse_long_header no_header handshake_bytes 0 ≡ some (handshake_header, 12)
unfolding parse_long_header read_ids read_bytes read_connection_id read_byte guard word32 long_type
    finish_header finish_packet read_token decode decode_loop place_packet
parse-handshake = refl

parse_long_header-Sound_example : Sound handshake_bytes 0 handshake_header 12
parse_long_header-Sound_example =
    parse_long_header-Sound handshake_bytes 0 12 no_header handshake_header handshake_bytes-IsBuffer
      parse-handshake
