-- ===== src/Websocket/Header.antt =====
-- The header of a frame, as `try_read_header` of example/http-websocket/src/dispatcher_reactor.cpp
-- reads it.
pub mod Within
use libspaznet.Base.{
  ltb, ◌==◌, if◌then◌else◌, Bytes, get_or, take, drop, ℕ, ◌+◌, ◌*◌, ◌^◌, bit_and, bit_or, Bool, not,
  ◌&&◌, ◌||◌, Option, none, some,
}
use libspaznet.Utils.Binary.{decode_uint32_be}
use libspaznet.Websocket.Frame.{
  is_known_opcode, is_control_opcode, k_max_payload_bytes, has, shift_in,
}

-- The size of the header without the key, of the header, and the mask bit.
unfoldable pub base_size : ℕ → ℕ
base_size code = if code == 126 then 4 else if code == 127 then 10 else 2

abbrev pub length_code : Bytes → ℕ
length_code bytes = bit_and (get_or bytes 1 0) 0x7F

abbrev pub is_masked : Bytes → Bool
is_masked bytes = has (get_or bytes 1 0) 0x80

unfoldable pub header_size : Bytes → ℕ
header_size bytes = base_size (length_code bytes) + (if is_masked bytes then 4 else 0)

-- The payload length, in a header of which `base` bytes come before the key.
unfoldable pub payload_length : ℕ → Bytes → Option ℕ
payload_length base bytes =
    let len16 = bit_or (get_or bytes 2 0 * 2 ^ 8) (get_or bytes 3 0) in
    let len64 = shift_in 0 (take 8 (drop 2 bytes)) in
    if base == 4
    then (if ltb len16 126 then none else some len16)
    else if base == 10
    then (if has len64 (2 ^ 63) then none else if ltb len64 65536 then none else some len64)
    else some (length_code bytes)

-- What `try_read_header` makes of a header: a close code, or the fields for the payload.
pub data Verdict : Type 0 where
  refuses : (code : ℕ) → Verdict
  accepts : (fin : Bool) (opcode masking_key size : ℕ) → Verdict

unfoldable pub judge : Bool → ℕ → ℕ → Option ℕ → Verdict
judge fin opcode masking_key none = refuses 1002
judge fin opcode masking_key (some size) =
    if is_control_opcode opcode && (not fin || ltb 125 size)
    then refuses 1002
    else if ltb k_max_payload_bytes size
    then refuses 1009
    else accepts fin opcode masking_key size

unfoldable pub read_header : Bytes → Verdict
read_header bytes =
    let first = get_or bytes 0 0 in
    let base = base_size (length_code bytes) in
    let opcode = bit_and first 0x0F in
    if has first 0x40 || has first 0x20 || has first 0x10
    then refuses 1002
    else if not (is_masked bytes)
    then refuses 1002
    else if not (is_known_opcode opcode)
    then refuses 1002
    else judge (has first 0x80) opcode (decode_uint32_be (drop base bytes))
        (payload_length base bytes)
