-- ===== src/Websocket/Frame/Masking.antt =====
-- The parts of a frame read back: the payload under its mask, the length and the two first bytes.
use libspaznet.Base.{
  Bytes, length, ℕ, zero, suc, ◌+◌, ◌*◌, ◌/◌, ◌%◌, ◌^◌, ◌≤◌, ◌<◌, bit_and, bit_or, ◌≡◌, refl, sym,
  ap, ◌∙◌, Bool, true, false, [], ◌∷◌, arith,
}
use libspaznet.Base.Bits.{bit_or-shifted, bit_and-mask, bit_and-shifted, bit_xor-twice}
use libspaznet.Websocket.Frame.{
  Frame, is_known_opcode, flag, has, big_endian, key_byte, mask_from, shift_in, byte1,
}
use native.Mathlib.Nat.{div-div-eq-div-mul, div-le_self}
use libspaznet.Codec.Huffman.Bits.{pow_sum}

pub length-mask_from : (key i : ℕ) (bs : Bytes) → length (mask_from key i bs) ≡ length bs
unfolding mask_from
length-mask_from key i [] = refl
length-mask_from key i (b ∷ bs) = ap suc (length-mask_from key (suc i) bs)

-- The mask undoes itself.
pub mask_from-twice : (key i : ℕ) (bs : Bytes) → mask_from key i (mask_from key i bs) ≡ bs
unfolding mask_from
mask_from-twice key i [] = refl
mask_from-twice key i (b ∷ bs) =
    rw (bit_xor-twice b (key_byte key i), mask_from-twice key (suc i) bs) refl

-- A number of 64 bits, from its bytes.
pub shift_in-big_endian : (n v : ℕ) → v < 2 ^ 64 → shift_in (v / 2 ^ (n * 8)) (big_endian n v) ≡ v
unfolding shift_in big_endian
shift_in-big_endian zero v small = omega arith
shift_in-big_endian (suc n) v small =
    let w = v / 2 ^ (n * 8) in
    let le : w ≤ v = div-le_self v (2 ^ (n * 8)) in
    let up : v / 2 ^ (suc n * 8) ≡ w / 2 ^ 8 =
      (let e : suc n * 8 ≡ n * 8 + 8 = omega arith in
        rw (e, pow_sum (n * 8) 8) (sym (div-div-eq-div-mul v (2 ^ (n * 8)) (2 ^ 8)))) in
    let whole : w / 2 ^ 8 * 2 ^ 8 % 2 ^ 64 ≡ w / 2 ^ 8 * 2 ^ 8 = omega (arith, le) in
    let joined : bit_or (w / 2 ^ 8 * 2 ^ 8) (w % 256) ≡ w =
      bit_or-shifted 8 (w / 2 ^ 8) (w % 256) (omega arith) ∙ omega arith in
    let first : bit_or (v / 2 ^ (suc n * 8) * 2 ^ 8 % 2 ^ 64) (w % 256) ≡ w =
      rw (up, whole) joined in
    ap (λ (x : ℕ). shift_in x (big_endian n v)) first ∙ shift_in-big_endian n v small

pub length-big_endian : (n v : ℕ) → length (big_endian n v) ≡ n
unfolding big_endian
length-big_endian zero v = refl
length-big_endian (suc n) v = ap suc (length-big_endian n v)

-- The bit for the mask and the seven of the length.
pub second_byte :
    (m : Bool) (n : ℕ)
    → n < 128
    → (bit_and (bit_or (flag m 0x80) n) 0x7F ≡ n) × (has (bit_or (flag m 0x80) n) 0x80 ≡ m)
second_byte true n small =
    let e : bit_or 128 n ≡ 128 + n = bit_or-shifted 7 1 n small in
    let q : (128 + n) / 2 ^ 7 ≡ 1 = omega arith in
    rw e (bit_and-mask 7 (128 + n) ∙ omega arith, rw (bit_and-shifted 7 (128 + n) 1, q) refl)
second_byte false n small =
    let e : bit_or 0 n ≡ n = bit_or-shifted 7 0 n small ∙ omega arith in
    let q : n / 2 ^ 7 ≡ 0 = omega arith in
    rw e (bit_and-mask 7 n ∙ omega arith, rw (bit_and-shifted 7 n 1, q) refl)

-- What the first byte says.
pub record Says (byte : ℕ) (f : Frame) : Type 0 where
  pub fin : has byte 0x80 ≡ f.fin
  pub rsv1 : has byte 0x40 ≡ f.rsv1
  pub rsv2 : has byte 0x20 ≡ f.rsv2
  pub rsv3 : has byte 0x10 ≡ f.rsv3
  pub opcode : bit_and byte 0x0F ≡ f.opcode

known_case :
    (P : ℕ → Type 0)
    → P 0
    → P 1
    → P 2
    → P 8
    → P 9
    → P 10
    → (op : ℕ) → is_known_opcode op ≡ true
    → P op
unfolding is_known_opcode
known_case P p0 p1 p2 p8 p9 p10 zero h = p0
known_case P p0 p1 p2 p8 p9 p10 (suc zero) h = p1
known_case P p0 p1 p2 p8 p9 p10 (suc (suc zero)) h = p2
known_case P p0 p1 p2 p8 p9 p10 (suc (suc (suc zero))) h = absurd (cc h)
known_case P p0 p1 p2 p8 p9 p10 (suc (suc (suc (suc zero)))) h = absurd (cc h)
known_case P p0 p1 p2 p8 p9 p10 (suc (suc (suc (suc (suc zero))))) h = absurd (cc h)
known_case P p0 p1 p2 p8 p9 p10 (suc (suc (suc (suc (suc (suc zero)))))) h = absurd (cc h)
known_case P p0 p1 p2 p8 p9 p10 (suc (suc (suc (suc (suc (suc (suc zero))))))) h = absurd (cc h)
known_case P p0 p1 p2 p8 p9 p10 (suc (suc (suc (suc (suc (suc (suc (suc zero)))))))) h = p8
known_case P p0 p1 p2 p8 p9 p10 (suc (suc (suc (suc (suc (suc (suc (suc (suc zero))))))))) h = p9
known_case P p0 p1 p2 p8 p9 p10 (suc (suc (suc (suc (suc (suc (suc (suc (suc (suc zero)))))))))) h =
    p10
known_case P p0 p1 p2 p8 p9 p10 (suc (suc (suc (suc (suc (suc (suc (suc (suc (suc (suc n)))))))))))
      h =
    absurd (ground (arith, h))

-- The first byte of a frame without reserved bits.
pub byte1-Says :
    (f : Frame)
    → is_known_opcode f.opcode ≡ true
    → f.rsv1 ≡ false
    → f.rsv2 ≡ false
    → f.rsv3 ≡ false
    → Says (byte1 f) f
unfolding byte1
byte1-Says f known no1 no2 no3 =
    let (h, r1, r2, r3, o) = head f.fin f.opcode known in
    rw (no1, no2, no3) (record { fin = h; rsv1 = r1; rsv2 = r2; rsv3 = r3; opcode = o })
  where
    Reads : Bool → ℕ → Type 0
    Reads b op =
        let byte = bit_or (bit_or (bit_or (bit_or (flag b 0x80) 0) 0) 0) op in
        (has byte 0x80 ≡ b)
        × (has byte 0x40 ≡ false)
        × (has byte 0x20 ≡ false)
        × (has byte 0x10 ≡ false)
        × (bit_and byte 0x0F ≡ op)

    all : (b : Bool) → Reads b 0 × Reads b 1 × Reads b 2 × Reads b 8 × Reads b 9 × Reads b 10
    all true = (
      (refl, refl, refl, refl, refl),
      (refl, refl, refl, refl, refl),
      (refl, refl, refl, refl, refl),
      (refl, refl, refl, refl, refl),
      (refl, refl, refl, refl, refl),
      (refl, refl, refl, refl, refl),
    )
    all false = (
      (refl, refl, refl, refl, refl),
      (refl, refl, refl, refl, refl),
      (refl, refl, refl, refl, refl),
      (refl, refl, refl, refl, refl),
      (refl, refl, refl, refl, refl),
      (refl, refl, refl, refl, refl),
    )

    head : (b : Bool) (op : ℕ) → is_known_opcode op ≡ true → Reads b op
    head b op h =
        let (a0, a1, a2, a8, a9, a10) = all b in known_case (Reads b) a0 a1 a2 a8 a9 a10 op h
