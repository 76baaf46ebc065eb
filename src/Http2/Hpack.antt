-- ===== src/Http2/Hpack.antt =====
-- HPACK in example/http2/src/codec.cpp: header lists as bytes, with the static table only.
pub mod StaticTable
pub mod Integers
pub mod Strings
pub mod Encode
pub mod Decode
pub mod Fields
pub mod Order
pub mod RoundTrip
use libspaznet.Base.{
  ltb, leb, ◌==◌, if◌then◌else◌, Bytes, length, get_or, take, drop, ℕ, zero, suc, ◌+◌, ◌-◌, ◌*◌,
  ◌/◌, ◌%◌, ◌^◌, bit_and, bit_or, Bool, not, ◌||◌, Option, none, some, [], ◌∷◌, ◌++◌,
}
use libspaznet.Wire.Reader.{Reader, return, fail, ◌>>=◌, read_bytes, guard}
use libspaznet.Utils.Header.{Headers, same_text}
use libspaznet.Codec.Huffman.{huffman_decode}
use libspaznet.Http2.Hpack.StaticTable.{static_table}

-- `HPACK::get_static_table_entry`, `get_static_table_size`
unfoldable pub get_static_table_entry : ℕ → Bytes × Bytes
get_static_table_entry index = get_or static_table index ([], [])

unfoldable pub get_static_table_size : ℕ
get_static_table_size = length static_table

-- The loop of `decode_prefix_int` over the bytes at `offset`. `v` and `m` are `uint32_t`.
unfoldable pub more_bytes : Bytes → ℕ → ℕ → ℕ → Option (ℕ × ℕ)
more_bytes [] offset m v = none
more_bytes (b ∷ rest) offset m v =
    let v' = (v + bit_and b 0x7F * 2 ^ m % 2 ^ 32) % 2 ^ 32 in
    let later = more_bytes rest (offset + 1) (m + 7) v' in
    if bit_and b 0x80 == 0 then some (v', offset + 1) else if ltb 28 (m + 7) then none else later

unfoldable pub decode_prefix_int : ℕ → Reader ℕ
decode_prefix_int prefix_bits bytes offset =
    let prefix_max = 2 ^ prefix_bits - 1 in
    let v = bit_and (get_or bytes offset 0) prefix_max in
    if leb (length bytes) offset || (ltb prefix_bits 1 || ltb 8 prefix_bits)
    then none
    else if ltb v prefix_max
    then some (v, offset + 1)
    else more_bytes (drop (offset + 1) bytes) (offset + 1) 0 v

-- What the encoders append to `out`. A `uint32_t` is below 128 after four rounds of `value >>= 7`.
unfoldable pub int_tail : ℕ → ℕ → Bytes
int_tail zero value = []
int_tail (suc fuel) value =
    let later = int_tail fuel (value / 2 ^ 7) in
    if ltb value 128 then value % 256 ∷ [] else bit_or (bit_and value 0x7F) 0x80 % 256 ∷ later

unfoldable pub encode_prefix_int : ℕ → ℕ → ℕ → Bytes
encode_prefix_int high_bits prefix_bits value =
    let prefix_max = 2 ^ prefix_bits - 1 in
    if ltb value prefix_max
    then bit_or high_bits (value % 256) ∷ []
    else bit_or high_bits (prefix_max % 256) ∷ int_tail 5 (value - prefix_max)

-- The bytes of a string, or what Huffman coding makes of them.
abbrev pub spelled : Bool → Bytes → Option Bytes
spelled huffman raw = if huffman then huffman_decode raw else some raw

unfoldable pub decode_string : Reader Bytes
decode_string bytes offset =
    let huffman = not (bit_and (get_or bytes offset 0) 0x80 == 0) in
    if leb (length bytes) offset then none else (elim (decode_prefix_int 7 bytes offset) [
      | none ↦ none
      | some (size, offset') ↦
          if ltb (length bytes) (offset' + size)
          then none
          else (elim (spelled huffman (take size (drop offset' bytes))) [
            | none ↦ none
            | some s ↦ some (s, offset' + size)
          ])
    ])

unfoldable pub encode_string : Bytes → Bytes
encode_string s = encode_prefix_int 0x00 7 (length s % 2 ^ 32) ++ s
