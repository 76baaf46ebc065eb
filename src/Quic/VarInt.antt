-- ===== src/Quic/VarInt.antt =====
-- example/quic-http3/src/quic/varint.cpp: the variable-length integers of RFC 9000, section 16.
-- A `uint64_t` is a number; `none` of `encoded_size`, `write`, `encode` and `append` stands for
-- the `std::out_of_range` that they throw. A masked byte, `(value >> k) & 0xFF`, is
-- `value / 2 ^ k % 256`.
pub mod Decode
pub mod RoundTrip
pub mod Bounds
use libspaznet.Base.{
  ltb, leb, ◌==◌, if◌then◌else◌, Bytes, length, get_or, add64, ℕ, zero, suc, ◌+◌, ◌-◌, ◌*◌, ◌/◌,
  ◌%◌, ◌^◌, bit_and, bit_or, Option, none, some, [], ◌∷◌, ◌++◌,
}
use libspaznet.Wire.Reader.{Reader}
use libspaznet.Wire.Writer.{Writer}

-- `VarInt::kMax`
abbrev pub k_max : ℕ
k_max = 2 ^ 62 - 1

unfoldable pub encoded_size : ℕ → Option ℕ
encoded_size value =
    if leb value (2 ^ 6 - 1)
    then some 1
    else if leb value (2 ^ 14 - 1)
    then some 2
    else if leb value (2 ^ 30 - 1)
    then some 4
    else if leb value k_max
    then some 8
    else none

-- The first byte: `prefix | ((value >> k) & 0x3F)`.
abbrev pub first_byte : ℕ → ℕ → ℕ → ℕ
first_byte prefix value k = bit_or prefix (bit_and (value / 2 ^ k) 0x3f) % 256

-- The `switch` of `VarInt::write`: what the case for `size` puts at `out[0]`, `out[1]`, ...
unfoldable pub write_case : ℕ → ℕ → Bytes
write_case size value =
    if size == 1
    then value % 256 ∷ []
    else if size == 2
    then first_byte 0x40 value 8 ∷ value % 256 ∷ []
    else if size == 4
    then first_byte 0x80 value 24 ∷ value / 2 ^ 16 % 256 ∷ value / 2 ^ 8 % 256 ∷ value % 256 ∷ []
    else first_byte 0xc0 value 56
      ∷ value / 2 ^ 48 % 256
      ∷ value / 2 ^ 40 % 256
      ∷ value / 2 ^ 32 % 256
      ∷ value / 2 ^ 24 % 256
      ∷ value / 2 ^ 16 % 256
      ∷ value / 2 ^ 8 % 256
      ∷ value % 256
      ∷ []

-- The bytes that `VarInt::write` puts at its pointer; `encode` returns them in a vector of their
-- own.
unfoldable pub write : ℕ → Option Bytes
unfolding encoded_size write_case
write value = elim (encoded_size value) [ none ↦ none | some size ↦ some (write_case size value) ]

unfoldable pub encode : ℕ → Option Bytes
unfolding write
encode value = write value

-- `out.resize(base + size)`, and the bytes go to the room behind the old end.
unfoldable pub append : ℕ → Writer
unfolding write
append value out = elim (write value) [ none ↦ none | some bytes ↦ some (out ++ bytes) ]

-- `result = (result << 8) | b`, in 64 bits
abbrev pub shift_in : ℕ → ℕ → ℕ
shift_in result b = bit_or (result * 2 ^ 8 % 2 ^ 64) b

-- `for (i = 1; i < size; ++i)`, with the rounds left for the counter's bound.
unfoldable pub decode_loop : ℕ → ℕ → Bytes → ℕ → ℕ → ℕ
decode_loop zero i buf offset result = result
decode_loop (suc n) i buf offset result =
    decode_loop n (i + 1) buf offset (shift_in result (get_or buf (offset + i) 0))

-- `1U << (first >> 6)`
abbrev pub length_of : ℕ → ℕ
length_of first = 2 ^ (first / 2 ^ 6)

unfoldable pub decode : Reader ℕ
decode buf offset =
    if leb (length buf) offset
    then none
    else (let first = get_or buf offset 0 in
        let size = length_of first in
        if ltb (length buf) (add64 offset size)
        then none
        else some (decode_loop (size - 1) 1 buf offset (bit_and first 0x3f), add64 offset size))
