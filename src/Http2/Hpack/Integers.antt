-- ===== src/Http2/Hpack/Integers.antt =====
-- Integers and strings: what the decoder reads is what the encoder wrote.
use libspaznet.Base.{
  ltb, ◌==◌, ltb→lt, lt→ltb, ltb-ge, leb-gt, Bool-cases, Bytes, length, get_or, drop, head_of_drop,
  tail_of_drop, ℕ, zero, suc, ◌+◌, ◌-◌, ◌*◌, ◌/◌, ◌%◌, ◌^◌, ◌≤◌, ◌<◌, bit_and, bit_or, ◌≡◌, refl,
  sym, ap, ◌∙◌, inl, inr, true, false, some, [], ◌∷◌, ◌++◌, arith,
}
use libspaznet.Base.Bits.{bit_or-shifted, bit_and-mask, bit_and-shifted, bit_or_comm}
use libspaznet.Wire.RoundTrip.{At, Parses}
use libspaznet.Http2.Hpack.{more_bytes, decode_prefix_int, int_tail, encode_prefix_int}
use libspaznet.Codec.Huffman.Bits.{pow_sum, pow_pos}
use native.Mathlib.Nat.{
  pow-le-pow_right, mul-add-mod_self_right, mod-eq_of_lt, add-mul, mul_assoc, mul_comm,
}

low7 : (a : ℕ) → bit_and a 0x7F ≡ a % 128
low7 a = bit_and-mask 7 a

high_bit : (a : ℕ) → bit_and a 0x80 ≡ a / 128 % 2 * 128
high_bit a = bit_and-shifted 7 a 1 ∙ ap (λ (k : ℕ). k * 2 ^ 7) (bit_and-mask 1 (a / 2 ^ 7))

-- The byte that says that more follow.
with_flag : (r : ℕ) → r < 128 → bit_or r 0x80 ≡ 128 + r
with_flag r h = bit_or_comm r 0x80 ∙ bit_or-shifted 7 1 r h

-- The lowest seven bits and the others, at a place.
seven_bits : (value m : ℕ) → value % 128 * 2 ^ m + value / 128 * 2 ^ (m + 7) ≡ value * 2 ^ m
seven_bits value m =
    let p : value / 128 * 2 ^ (m + 7) ≡ value / 128 * 128 * 2 ^ m =
      ap (λ (k : ℕ). value / 128 * k) (pow_sum m 7 ∙ mul_comm (2 ^ m) 128)
      ∙ sym (mul_assoc (value / 128) 128 (2 ^ m)) in
    let e : value / 128 * 128 + value % 128 ≡ value = omega arith in
    let d = add-mul (value / 128 * 128) (value % 128) (2 ^ m) in
    rw p (omega (arith, d, ap (λ (k : ℕ). k * 2 ^ m) e))

last_byte :
    (b : ℕ) (rest : Bytes) (offset m v : ℕ)
    → b < 128
    → v + b * 2 ^ m < 2 ^ 32
    → more_bytes (b ∷ rest) offset m v ≡ some (v + b * 2 ^ m, offset + 1)
unfolding more_bytes
last_byte b rest offset m v h small =
    let e : b % 128 ≡ b = omega arith in
    let z : (b / 128 % 2 * 128 == 0) ≡ true = ground arith in
    rw (low7 b, high_bit b, z, e) (ap (λ (k : ℕ). some (k, offset + 1)) (omega arith))

further_byte :
    (r : ℕ) (rest : Bytes) (offset m v : ℕ)
    → r < 128
    → m + 7 ≤ 28
    → v + r * 2 ^ m < 2 ^ 32
    → more_bytes (bit_or r 0x80 % 256 ∷ rest) offset m v
      ≡ more_bytes rest (offset + 1) (m + 7) (v + r * 2 ^ m)
unfolding more_bytes
further_byte r rest offset m v h room small =
    let b : bit_or r 0x80 % 256 ≡ 128 + r = with_flag' in
    let e : (128 + r) % 128 ≡ r = omega arith in
    let z : ((128 + r) / 128 % 2 * 128 == 0) ≡ false = ground arith in
    let n : (v + r * 2 ^ m % 2 ^ 32) % 2 ^ 32 ≡ v + r * 2 ^ m = omega arith in
    rw (b, low7 (128 + r), high_bit (128 + r), z, e, ltb-ge 28 (m + 7) room, n) refl
  where
    with_flag' : bit_or r 0x80 % 256 ≡ 128 + r
    with_flag' = rw (with_flag r h) (omega arith)

short_tail :
    (fuel value : ℕ) (rest : Bytes) (offset m v : ℕ)
    → value < 128
    → v + value * 2 ^ m < 2 ^ 32
    → more_bytes (int_tail (suc fuel) value ++ rest) offset m v
      ≡ some (v + value * 2 ^ m, offset + length (int_tail (suc fuel) value))
unfolding int_tail
short_tail fuel value rest offset m v last small =
    let same : value % 256 ≡ value = omega arith in
    rw (lt→ltb value 128 last, same) (last_byte value rest offset m v last small)

-- A tail whose value and place fit 32 bits is read back into the sum.
more_bytes-int_tail :
    (fuel value : ℕ) (rest : Bytes) (offset m v : ℕ)
    → value < 2 ^ (7 * suc fuel)
    → m + 7 * suc fuel ≤ 35
    → v + value * 2 ^ m < 2 ^ 32
    → more_bytes (int_tail (suc fuel) value ++ rest) offset m v
      ≡ some (v + value * 2 ^ m, offset + length (int_tail (suc fuel) value))
unfolding int_tail
more_bytes-int_tail zero value rest offset m v fits room small =
    short_tail zero value rest offset m v (omega arith) small
more_bytes-int_tail (suc fuel) value rest offset m v fits room small =
    elim (Bool-cases (ltb value 128)) [
      | inl last ↦ short_tail (suc fuel) value rest offset m v (ltb→lt value 128 last) small
      | inr more ↦
          let split = seven_bits value m in
          let e : 7 * suc (suc fuel) ≡ 7 * suc fuel + 7 = omega arith in
          let wide : 2 ^ (7 * suc (suc fuel)) ≡ 2 ^ (7 * suc fuel) * 128 =
            rw e (pow_sum (7 * suc fuel) 7) in
          let sum : v + value % 128 * 2 ^ m + value / 128 * 2 ^ (m + 7) ≡ v + value * 2 ^ m =
            omega (arith, split) in
          let later : more_bytes (int_tail (suc fuel) (value / 2 ^ 7) ++ rest) (offset + 1) (m + 7)
                (v + value % 128 * 2 ^ m)
              ≡ some
                  (v + value * 2 ^ m, offset + suc (length (int_tail (suc fuel) (value / 2 ^ 7)))) =
            more_bytes-int_tail fuel (value / 2 ^ 7) rest (offset + 1) (m + 7)
              (v + value % 128 * 2 ^ m) (omega (arith, wide)) (omega arith) (omega (arith, sum))
            ∙ rw sum (ap (λ (k : ℕ). some (v + value * 2 ^ m, k)) (omega arith)) in
          rw (more, low7 value)
            (further_byte (value % 128) (int_tail (suc fuel) (value / 2 ^ 7) ++ rest) offset m v
                (omega arith) (omega arith) (omega (arith, split))
              ∙ later)
    ]

-- The whole integer, behind the high bits of its first byte: a value of 32 bits.
first_byte : (q k r : ℕ) → r < 2 ^ k → bit_and (bit_or (q * 2 ^ k) r) (2 ^ k - 1) ≡ r
first_byte q k r h =
    rw (bit_or-shifted k q r h, bit_and-mask k (q * 2 ^ k + r))
      (mul-add-mod_self_right q (2 ^ k) r ∙ mod-eq_of_lt h)

pub Parses-prefix_int :
    (q k value : ℕ)
    → 0 < k
    → k ≤ 8
    → value < 2 ^ 32
    → Parses (decode_prefix_int k) (encode_prefix_int (q * 2 ^ k) k value) value
unfolding decode_prefix_int encode_prefix_int
Parses-prefix_int q k value some_bits small fits buf off rest at =
    elim (Bool-cases (ltb value (2 ^ k - 1))) [
      | inl short ↦
          let b = bit_or (q * 2 ^ k) (value % 256) in
          let here : At buf off (b ∷ rest) = rw short at at in
          let byte : get_or buf off 0 ≡ b = head_of_drop buf off b 0 rest here.reads in
          let e : value % 256 ≡ value = omega (arith, ltb→lt value (2 ^ k - 1) short, wide) in
          let low : bit_and b (2 ^ k - 1) ≡ value =
            rw e (first_byte q k value (omega (arith, ltb→lt value (2 ^ k - 1) short))) in
          rw
            (
              byte,
              low,
              leb-gt (length buf) off (omega (arith, here.ends)),
              ltb-ge k 1 some_bits,
              ltb-ge 8 k small,
              short,
            )
            refl
      | inr long ↦
          let max = 2 ^ k - 1 in
          let b = bit_or (q * 2 ^ k) (max % 256) in
          let tail = int_tail 5 (value - max) in
          let here : At buf off (b ∷ (tail ++ rest)) = rw long at at in
          let byte : get_or buf off 0 ≡ b = head_of_drop buf off b 0 (tail ++ rest) here.reads in
          let e : max % 256 ≡ max = omega (arith, wide, pow_pos k) in
          let low : bit_and b max ≡ max = rw e (first_byte q k max (omega (arith, pow_pos k))) in
          let behind : drop (off + 1) buf ≡ tail ++ rest =
            tail_of_drop buf off b (tail ++ rest) here.reads in
          let big : max ≤ value = ground (arith, long) in
          let sum : max + (value - max) * 2 ^ 0 ≡ value = omega arith in
          rw
            (
              byte,
              low,
              leb-gt (length buf) off (omega (arith, here.ends)),
              ltb-ge k 1 some_bits,
              ltb-ge 8 k small,
              ltb-ge max max (omega arith),
              behind,
              long,
            )
            (more_bytes-int_tail 4 (value - max) rest (off + 1) 0 max (omega (arith, fits))
                (omega arith) (omega (arith, fits, wide))
              ∙ rw sum (ap (λ (n : ℕ). some (value, n)) (omega arith)))
    ]
  where
    wide : 2 ^ k ≤ 2 ^ 8
    wide = pow-le-pow_right (omega arith) small

-- The first byte has the high bits and at most `k` more.
pub prefix_int_head :
    (q k value : ℕ)
    → k ≤ 8
    → (r : ℕ) × (tail : Bytes) × (r < 2 ^ k)
      × (encode_prefix_int (q * 2 ^ k) k value ≡ (q * 2 ^ k + r) ∷ tail)
unfolding encode_prefix_int
prefix_int_head q k value small = elim (Bool-cases (ltb value (2 ^ k - 1))) [
  | inl short ↦
      let e : value % 256 ≡ value = omega (arith, ltb→lt value (2 ^ k - 1) short, wide) in
      let r : value < 2 ^ k = omega (arith, ltb→lt value (2 ^ k - 1) short) in
      (value, [], r, rw (short, e, bit_or-shifted k q value r) refl)
  | inr long ↦
      let e : (2 ^ k - 1) % 256 ≡ 2 ^ k - 1 = omega (arith, wide, pow_pos k) in
      let r : 2 ^ k - 1 < 2 ^ k = omega (arith, pow_pos k) in
      (
        2 ^ k - 1,
        int_tail 5 (value - (2 ^ k - 1)),
        r,
        rw (long, e, bit_or-shifted k q (2 ^ k - 1) r) refl,
      )
]
  where
    wide : 2 ^ k ≤ 2 ^ 8
    wide = pow-le-pow_right (omega arith) small
