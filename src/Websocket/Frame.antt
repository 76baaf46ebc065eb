-- ===== src/Websocket/Frame.antt =====
-- `Frame` of example/http-websocket/src/handler.cpp: the wire format of RFC 6455, section 5.2.
pub mod Masking
pub mod RoundTrip
use libspaznet.Base.{
  ltb, ◌==◌, if◌then◌else◌, Bytes, length, get_or, take, drop, ℕ, zero, suc, ◌+◌, ◌-◌, ◌*◌, ◌/◌,
  ◌%◌, ◌^◌, bit_and, bit_or, bit_xor, Bool, not, ◌&&◌, ◌||◌, [], ◌∷◌, ◌++◌,
}
use libspaznet.Utils.Binary.{encode_uint32_be, decode_uint32_be}

-- `enum class Opcode : uint8_t`: a cast makes every byte one.
abbrev pub continuation : ℕ
continuation = 0x0

abbrev pub text : ℕ
text = 0x1

abbrev pub binary : ℕ
binary = 0x2

abbrev pub close : ℕ
close = 0x8

abbrev pub ping : ℕ
ping = 0x9

abbrev pub pong : ℕ
pong = 0xA

-- `Frame::kMaxPayloadBytes`
abbrev pub k_max_payload_bytes : ℕ
k_max_payload_bytes = 16777216

pub record Frame : Type 0 where
  pub fin : Bool
  pub rsv1 : Bool
  pub rsv2 : Bool
  pub rsv3 : Bool
  pub opcode : ℕ
  pub masked : Bool
  pub payload_length : ℕ
  pub masking_key : ℕ
  pub payload : Bytes

unfoldable pub is_known_opcode : ℕ → Bool
is_known_opcode op =
    (op == continuation)
    || (op == text)
    || (op == binary)
    || (op == close)
    || (op == ping)
    || (op == pong)

unfoldable pub is_control_opcode : ℕ → Bool
is_control_opcode op = (op == close) || (op == ping) || (op == pong)

-- The bits of a byte that a flag sets, and the test of one.
abbrev pub flag : Bool → ℕ → ℕ
flag b bits = if b then bits else 0

abbrev pub has : ℕ → ℕ → Bool
has byte bits = not (bit_and byte bits == 0)

unfoldable pub byte1 : Frame → ℕ
byte1 f =
    bit_or
      (bit_or (bit_or (bit_or (flag f.fin 0x80) (flag f.rsv1 0x40)) (flag f.rsv2 0x20))
        (flag f.rsv3 0x10))
      f.opcode

-- `(value >> (i * 8)) & 0xFF`, for `i` from `n - 1` down to 0.
unfoldable pub big_endian : ℕ → ℕ → Bytes
big_endian zero value = []
big_endian (suc i) value = value / 2 ^ (i * 8) % 256 ∷ big_endian i value

-- The second byte, and the bytes of the length behind it.
unfoldable pub length_bytes : Bool → ℕ → Bytes
length_bytes masked n =
    if ltb n 126
    then bit_or (flag masked 0x80) n ∷ []
    else if ltb n 65536
    then bit_or (flag masked 0x80) 126 ∷ n / 2 ^ 8 % 256 ∷ n % 256 ∷ []
    else bit_or (flag masked 0x80) 127 ∷ big_endian 8 n

-- `(masking_key >> ((3 - (i % 4)) * 8)) & 0xFF`
unfoldable pub key_byte : ℕ → ℕ → ℕ
key_byte masking_key i = masking_key / 2 ^ ((3 - i % 4) * 8) % 256

-- The payload from index `i` on under the mask.
unfoldable pub mask_from : ℕ → ℕ → Bytes → Bytes
mask_from masking_key i [] = []
mask_from masking_key i (b ∷ bs) =
    bit_xor b (key_byte masking_key i) ∷ mask_from masking_key (suc i) bs

unfoldable pub serialize : Frame → Bytes
serialize f =
    byte1 f
    ∷ (length_bytes f.masked f.payload_length
        ++ (if f.masked
            then encode_uint32_be f.masking_key ++ mask_from f.masking_key 0 f.payload
            else f.payload))

-- What `parse` throws.
pub data Problem : Type 0 where
  short_header reserved short_16_bit non_minimal_16_bit short_64_bit non_minimal_64_bit high_bit
        bad_control too_large short_key short_payload :
      Problem

pub data Outcome (A : Type 0) : Type 0 where
  answers : (value : A) → Outcome A
  throws : (problem : Problem) → Outcome A

-- `payload_length = (payload_length << 8) | byte`, for each byte.
unfoldable pub shift_in : ℕ → Bytes → ℕ
shift_in n [] = n
shift_in n (b ∷ bs) = shift_in (bit_or (n * 2 ^ 8 % 2 ^ 64) b) bs

-- The payload length and the size of the header so far.
unfoldable pub read_length : Bytes → Outcome (ℕ × ℕ)
read_length bytes =
    let code = bit_and (get_or bytes 1 0) 0x7F in
    let len16 = bit_or (get_or bytes 2 0 * 2 ^ 8) (get_or bytes 3 0) in
    let len64 = shift_in 0 (take 8 (drop 2 bytes)) in
    if ltb code 126
    then answers (code, 2)
    else if code == 126
    then (if ltb (length bytes) 4
        then throws short_16_bit
        else if ltb len16 126
        then throws non_minimal_16_bit
        else answers (len16, 4))
    else if ltb (length bytes) 10
    then throws short_64_bit
    else if ltb len64 65536
    then throws non_minimal_64_bit
    else if has len64 (2 ^ 63)
    then throws high_bit
    else answers (len64, 10)

-- The rest of `parse`, once the length is known.
unfoldable pub read_payload : Bytes → ℕ → ℕ → Outcome Frame
read_payload bytes payload_length header_size =
    let fin = has (get_or bytes 0 0) 0x80 in
    let opcode = bit_and (get_or bytes 0 0) 0x0F in
    let masked = has (get_or bytes 1 0) 0x80 in
    let masking_key = decode_uint32_be (drop header_size bytes) in
    let header_size' = if masked then header_size + 4 else header_size in
    let payload = take payload_length (drop header_size' bytes) in
    if is_control_opcode opcode && (not fin || ltb 125 payload_length)
    then throws bad_control
    else if ltb k_max_payload_bytes payload_length
    then throws too_large
    else if masked && ltb (length bytes) (header_size + 4)
    then throws short_key
    else if ltb (length bytes) (header_size' + payload_length)
    then throws short_payload
    else answers (record {
      fin = fin;
      rsv1 = has (get_or bytes 0 0) 0x40;
      rsv2 = has (get_or bytes 0 0) 0x20;
      rsv3 = has (get_or bytes 0 0) 0x10;
      opcode = opcode;
      masked = masked;
      payload_length = payload_length;
      masking_key = if masked then masking_key else 0;
      payload = if masked then mask_from masking_key 0 payload else payload;
    })

unfoldable pub parse : Bytes → Outcome Frame
parse bytes =
    let byte = get_or bytes 0 0 in
    if ltb (length bytes) 2
    then throws short_header
    else if not (is_known_opcode (bit_and byte 0x0F))
        || has byte 0x40
        || has byte 0x20
        || has byte 0x10
    then throws reserved
    else elim (read_length bytes) [
      | answers (payload_length, header_size) ↦ read_payload bytes payload_length header_size
      | throws problem ↦ throws problem
    ]
