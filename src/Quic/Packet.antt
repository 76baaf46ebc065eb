-- ===== src/Quic/Packet.antt =====
-- example/quic-http3/src/quic/packet.cpp and packet.hpp: the long header and the packet number.
pub mod Number
pub mod Header
use libspaznet.Base.{
  ltb, leb, ◌==◌, if◌then◌else◌, Bytes, length, get_or, add64, sub64, ℕ, ◌+◌, ◌-◌, ◌*◌, ◌/◌, ◌^◌,
  bit_and, bit_or, Bool, true, false, ◌&&◌, Option, none, some,
}
use libspaznet.Wire.Reader.{Reader, return, ◌>>=◌, guard, slice, read_bytes, read_byte}
use libspaznet.Quic.VarInt.{decode as read_varint}

pub data LongType : Type 0 where
  initial zero_rtt handshake retry : LongType

-- `static_cast<LongType>((first & kLongTypeMask) >> kLongTypeShift)`
unfoldable pub long_type : ℕ → LongType
long_type first =
    let code = bit_and first 0x30 / 2 ^ 4 in
    if code == 0
    then LongType.initial
    else if code == 1
    then LongType.zero_rtt
    else if code == 2
    then LongType.handshake
    else LongType.retry

pub record LongHeader : Type 0 where
  pub type_of : LongType
  pub version : ℕ
  pub dcid : Bytes
  pub scid : Bytes
  pub token : Bytes
  pub size : ℕ
  pub pn_offset : ℕ
  pub packet_len : ℕ

abbrev pub k_max_connection_id_len : ℕ
k_max_connection_id_len = 20

-- `(uint32_t(b0) << 24) | (uint32_t(b1) << 16) | (uint32_t(b2) << 8) | uint32_t(b3)`
unfoldable pub word32 : Bytes → ℕ
word32 bs =
    bit_or
      (bit_or (bit_or (get_or bs 0 0 * 2 ^ 24) (get_or bs 1 0 * 2 ^ 16)) (get_or bs 2 0 * 2 ^ 8))
      (get_or bs 3 0)

-- A connection ID with its length in a byte.
unfoldable pub read_connection_id : Reader Bytes
read_connection_id =
    read_byte >>= λ n. (guard (leb n k_max_connection_id_len) >>= λ _. read_bytes n)

-- Version and connection IDs.
unfoldable pub read_ids : Reader (ℕ × Bytes × Bytes)
read_ids = read_bytes 4 >>= λ v.
    (read_connection_id >>= λ dcid. (read_connection_id >>= λ scid. return (word32 v, dcid, scid)))

-- Nothing follows that the header describes: the packet goes to the end of the datagram.
unfoldable pub to_the_end : ℕ → LongHeader → Bytes → Option (LongHeader × ℕ)
to_the_end start hdr datagram =
    some (record hdr { pn_offset = 0; packet_len = length datagram - start }, length datagram)

-- Retry: the token and a tag of 16 bytes.
unfoldable pub finish_retry : ℕ → LongHeader → Reader LongHeader
finish_retry start hdr datagram off =
    if ltb (length datagram) (add64 off 16)
    then none
    else to_the_end start (record hdr { token = slice datagram off (length datagram - 16 - off) })
        datagram

-- Only an Initial packet has a token; the member keeps what it had otherwise.
unfoldable pub read_token : LongType → Bytes → Reader Bytes
read_token LongType.initial before = read_varint >>= read_bytes
read_token LongType.zero_rtt before = return before
read_token LongType.handshake before = return before
read_token LongType.retry before = return before

-- The length, and the packet that it reaches over.
unfoldable pub place_packet : ℕ → LongHeader → ℕ → Reader LongHeader
place_packet start hdr size datagram off =
    if ltb (length datagram) (add64 off size)
    then none
    else some (
      record hdr { size = size; pn_offset = off; packet_len = add64 (sub64 off start) size },
      add64 off size,
    )

unfoldable pub finish_packet : ℕ → LongHeader → Reader LongHeader
finish_packet start hdr = read_token hdr.type_of hdr.token >>= λ token.
    (read_varint >>= place_packet start (record hdr { token = token }))

abbrev pub is_retry : LongType → Bool
is_retry LongType.initial = false
is_retry LongType.zero_rtt = false
is_retry LongType.handshake = false
is_retry LongType.retry = true

unfoldable pub finish_header : ℕ → LongHeader → Reader LongHeader
finish_header start hdr datagram off =
    if hdr.version == 0
    then to_the_end start hdr datagram
    else if is_retry hdr.type_of
    then finish_retry start hdr datagram off
    else finish_packet start hdr datagram off

-- `hdr` is the caller's; what the header does not set keeps its value.
unfoldable pub parse_long_header : LongHeader → Reader LongHeader
parse_long_header hdr datagram start =
    let first = get_or datagram start 0 in
    if leb (length datagram) start
    then none
    else if bit_and first 0x80 == 0
    then none
    else (read_ids >>= λ ids.
          finish_header start
            (record hdr { type_of = long_type first; version = ids.0; dcid = ids.1; scid = ids.2 }))
        datagram (start + 1)

-- `(expected_pn & ~pn_mask) | truncated_pn`
unfoldable pub candidate_pn : ℕ → ℕ → ℕ → ℕ
candidate_pn expected pn_nbits truncated =
    bit_or (bit_and expected (2 ^ 64 - 1 - (2 ^ pn_nbits - 1))) truncated

unfoldable pub decode_packet_number : ℕ → ℕ → ℕ → ℕ
decode_packet_number largest_pn truncated_pn pn_nbits =
    let expected = add64 largest_pn 1 in
    let win = 2 ^ pn_nbits in
    let hwin = win / 2 in
    let candidate = candidate_pn expected pn_nbits truncated_pn in
    if ltb hwin expected && (leb candidate (sub64 expected hwin) && ltb candidate (2 ^ 62 - win))
    then add64 candidate win
    else if ltb (add64 expected hwin) candidate && leb win candidate
    then candidate - win
    else candidate
