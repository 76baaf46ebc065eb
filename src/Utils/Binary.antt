-- ===== src/Utils/Binary.antt =====
-- src/utils/binary_utils.cpp: numbers of 2, 3 and 4 bytes in network byte order.
use libspaznet.Base.{
  Bytes, get_or, ℕ, ◌+◌, ◌*◌, ◌/◌, ◌%◌, ◌^◌, ◌<◌, bit_or, ◌≡◌, ◌∙◌, [], ◌∷◌, ◌++◌, arith,
}
use libspaznet.Base.Bits.{bit_or-shifted}

unfoldable pub encode_uint16_be : ℕ → Bytes
encode_uint16_be value = value / 2 ^ 8 % 256 ∷ value % 256 ∷ []

unfoldable pub encode_uint24_be : ℕ → Bytes
encode_uint24_be value = value / 2 ^ 16 % 256 ∷ value / 2 ^ 8 % 256 ∷ value % 256 ∷ []

unfoldable pub encode_uint32_be : ℕ → Bytes
encode_uint32_be value =
    value / 2 ^ 24 % 256 ∷ value / 2 ^ 16 % 256 ∷ value / 2 ^ 8 % 256 ∷ value % 256 ∷ []

-- The bytes at `data`: the callers have checked that there are as many.
unfoldable pub decode_uint16_be : Bytes → ℕ
decode_uint16_be bs = bit_or (get_or bs 0 0 * 2 ^ 8) (get_or bs 1 0)

unfoldable pub decode_uint24_be : Bytes → ℕ
decode_uint24_be bs =
    bit_or (bit_or (get_or bs 0 0 * 2 ^ 16) (get_or bs 1 0 * 2 ^ 8)) (get_or bs 2 0)

unfoldable pub decode_uint32_be : Bytes → ℕ
decode_uint32_be bs =
    bit_or
      (bit_or (bit_or (get_or bs 0 0 * 2 ^ 24) (get_or bs 1 0 * 2 ^ 16)) (get_or bs 2 0 * 2 ^ 8))
      (get_or bs 3 0)

pub or16 : (a b : ℕ) → b < 256 → bit_or (a * 2 ^ 8) b ≡ a * 256 + b
or16 a b h = bit_or-shifted 8 a b h

or24 :
    (a b c : ℕ)
    → b < 256
    → c < 256
    → bit_or (bit_or (a * 2 ^ 16) (b * 2 ^ 8)) c ≡ a * 65536 + b * 256 + c
or24 a b c hb hc =
    let e : bit_or (a * 2 ^ 16) (b * 2 ^ 8) ≡ (a * 256 + b) * 2 ^ 8 =
      bit_or-shifted 16 a (b * 2 ^ 8) (omega arith) ∙ omega arith in
    rw e (bit_or-shifted 8 (a * 256 + b) c hc ∙ omega arith)

pub or32 :
    (a b c d : ℕ)
    → b < 256
    → c < 256
    → d < 256
    → bit_or (bit_or (bit_or (a * 2 ^ 24) (b * 2 ^ 16)) (c * 2 ^ 8)) d
      ≡ a * 16777216 + b * 65536 + c * 256 + d
or32 a b c d hb hc hd =
    let e : bit_or (a * 2 ^ 24) (b * 2 ^ 16) ≡ (a * 256 + b) * 2 ^ 16 =
      bit_or-shifted 24 a (b * 2 ^ 16) (omega arith) ∙ omega arith in
    rw e (or24 (a * 256 + b) c d hc hd ∙ omega arith)

-- The three widths, read from the front of what follows.
pub decode-encode_uint16_be :
    (v : ℕ) (rest : Bytes) → v < 2 ^ 16 → decode_uint16_be (encode_uint16_be v ++ rest) ≡ v
unfolding decode_uint16_be encode_uint16_be
decode-encode_uint16_be v rest h = or16 (v / 2 ^ 8 % 256) (v % 256) (omega arith) ∙ omega arith

pub decode-encode_uint24_be :
    (v : ℕ) (rest : Bytes) → v < 2 ^ 24 → decode_uint24_be (encode_uint24_be v ++ rest) ≡ v
unfolding decode_uint24_be encode_uint24_be
decode-encode_uint24_be v rest h =
    or24 (v / 2 ^ 16 % 256) (v / 2 ^ 8 % 256) (v % 256) (omega arith) (omega arith) ∙ omega arith

pub decode-encode_uint32_be :
    (v : ℕ) (rest : Bytes) → v < 2 ^ 32 → decode_uint32_be (encode_uint32_be v ++ rest) ≡ v
unfolding decode_uint32_be encode_uint32_be
decode-encode_uint32_be v rest h =
    or32 (v / 2 ^ 24 % 256) (v / 2 ^ 16 % 256) (v / 2 ^ 8 % 256) (v % 256) (omega arith)
      (omega arith) (omega arith)
    ∙ omega arith
