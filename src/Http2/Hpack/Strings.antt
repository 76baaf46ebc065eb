-- ===== src/Http2/Hpack/Strings.antt =====
-- A string is read back as it was written.
use libspaznet.Base.{
  ◌==◌, ltb-ge, leb-gt, Bytes, length, get_or, length-append, take-append, head_of_drop, ℕ, ◌+◌,
  ◌*◌, ◌/◌, ◌%◌, ◌^◌, ◌≤◌, ◌<◌, bit_and, ◌≡◌, refl, ap, ◌∙◌, true, some, ◌∷◌, ◌++◌, append_assoc,
  arith,
}
use Prim.Native.Nat.{bit_and-bitwise}
use native.Mathlib.Nat.{div-eq_of_lt}
use libspaznet.Base.Bits.{bit_and-shifted}
use libspaznet.Wire.RoundTrip.{At, Parses, At-skip}
use libspaznet.Http2.Hpack.{decode_prefix_int, encode_prefix_int, decode_string, encode_string}
use libspaznet.Http2.Hpack.Integers.{Parses-prefix_int, prefix_int_head}

-- A mask of bits from `n` on does not see a smaller number.
pub masked : (n c r : ℕ) → r < 2 ^ n → bit_and r (c * 2 ^ n) ≡ 0
masked n c r h =
    let e : r / 2 ^ n ≡ 0 = div-eq_of_lt h in
    let z : bit_and 0 c ≡ 0 = simp bit_and-bitwise refl in
    bit_and-shifted n r c ∙ rw (e, z) (omega arith)

-- Where the encoder's integer stands, its first byte is read.
pub first_of :
    (q k value : ℕ) (buf : Bytes) (off : ℕ) (rest : Bytes)
    → k ≤ 8
    → At buf off (encode_prefix_int (q * 2 ^ k) k value ++ rest)
    → (r : ℕ) × (r < 2 ^ k) × (get_or buf off 0 ≡ q * 2 ^ k + r) × (off < length buf)
first_of q k value buf off rest small at =
    let (r, tail, below, e) = prefix_int_head q k value small in
    let here : At buf off ((q * 2 ^ k + r) ∷ (tail ++ rest)) = rw e at at in
    (
      r,
      below,
      head_of_drop buf off (q * 2 ^ k + r) 0 (tail ++ rest) here.reads,
      omega (arith, here.ends),
    )

pub Parses-string : (s : Bytes) → length s < 2 ^ 32 → Parses decode_string (encode_string s) s
unfolding decode_string encode_string
Parses-string s fits buf off rest at =
    let n = length s in
    let e : n % 2 ^ 32 ≡ n = omega arith in
    let size = encode_prefix_int 0 7 n in
    let here : At buf off (size ++ (s ++ rest)) = rw (← append_assoc size s rest) (rw e at at) in
    let (r, below, byte, inside) = first_of 0 7 n buf off (s ++ rest) (omega arith) here in
    let flag : (bit_and (get_or buf off 0) 0x80 == 0) ≡ true =
      rw (byte, masked 7 1 (0 * 2 ^ 7 + r) (omega arith)) refl in
    let read : decode_prefix_int 7 buf off ≡ some (n, off + length size) =
      Parses-prefix_int 0 7 n (omega arith) (omega arith) fits buf off (s ++ rest) here in
    let behind = At-skip buf off size (s ++ rest) here in
    rw
      (
        e,
        leb-gt (length buf) off inside,
        read,
        flag,
        ltb-ge (length buf) (off + length size + n)
            (omega (arith, behind.ends, length-append s rest)),
        behind.reads,
        take-append s rest,
      )
      (ap (λ (k : ℕ). some (s, k)) (omega (arith, length-append size s)))
