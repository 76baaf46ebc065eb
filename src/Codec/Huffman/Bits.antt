-- ===== src/Codec/Huffman/Bits.antt =====
-- Numbers as lists of bits, the highest first.
use libspaznet.Base.{
  Bytes, ℕ, zero, suc, ◌+◌, ◌-◌, ◌*◌, ◌/◌, ◌%◌, ◌^◌, ◌≤◌, ◌<◌, ◌≡◌, refl, sym, ap, ◌∙◌, List, [],
  ◌∷◌, ◌++◌, arith,
}
use libspaznet.Base.Bits.{double_shift}
use native.Mathlib.Nat.{
  div-div-eq-div-mul, div-eq_of_lt, mul_comm, mul_assoc, mul-add-div_right, one-le-pow, pow-suc,
}

abbrev pub bits : ℕ → ℕ → List ℕ
bits zero v = []
bits (suc n) v = v / 2 ^ n % 2 ∷ bits n v

abbrev pub ones : ℕ → List ℕ
ones zero = []
ones (suc n) = 1 ∷ ones n

-- The bits of bytes.
abbrev pub all_bits : Bytes → List ℕ
all_bits [] = []
all_bits (b ∷ bs) = bits 8 b ++ all_bits bs

pub pow_sum : (m n : ℕ) → 2 ^ (m + n) ≡ 2 ^ m * 2 ^ n
pow_sum zero n = let e : 0 + n ≡ n = omega arith in rw e (omega arith)
pow_sum (suc m) n =
    let e : suc m + n ≡ suc (m + n) = omega arith in
    rw e (
      pow-suc 2 (m + n)
      ∙ rw (pow_sum m n) (ground (arith, mul_assoc 2 (2 ^ m) (2 ^ n), pow-suc 2 m)))

pub pow_pos : (n : ℕ) → 0 < 2 ^ n
pow_pos n = one-le-pow n 2 (omega arith)

shifted_bit : (v h j : ℕ) → v / 2 ^ h / 2 ^ j ≡ v / 2 ^ (j + h)
shifted_bit v h j =
    div-div-eq-div-mul v (2 ^ h) (2 ^ j)
    ∙ ap (λ (m : ℕ). v / m) (mul_comm (2 ^ h) (2 ^ j) ∙ sym (pow_sum j h))

pub bits-add : (m n v : ℕ) → bits (m + n) v ≡ bits m (v / 2 ^ n) ++ bits n v
bits-add zero n v = let e : 0 + n ≡ n = omega arith in rw e refl
bits-add (suc m) n v =
    let e : suc m + n ≡ suc (m + n) = omega arith in rw (e, shifted_bit v n m, bits-add m n v) refl

-- A bit below those of a multiple of a higher power.
bit_below : (n d q r : ℕ) → (q * 2 ^ (suc d + n) + r) / 2 ^ n % 2 ≡ r / 2 ^ n % 2
bit_below n d q r =
    let e : q * 2 ^ (suc d + n) ≡ q * 2 ^ suc d * 2 ^ n =
      ap (λ (m : ℕ). q * m) (pow_sum (suc d) n) ∙ sym (mul_assoc q (2 ^ suc d) (2 ^ n)) in
    rw (e, mul-add-div_right (pow_pos n) (q * 2 ^ suc d) r) (omega (arith, double_shift q d))

pub bits_below : (n k a b : ℕ) → n ≤ k → bits n (a * 2 ^ k + b) ≡ bits n b
bits_below zero k a b h = refl
bits_below (suc n) k a b h =
    let e : suc (k - suc n) + n ≡ k = omega arith in
    let top : (a * 2 ^ k + b) / 2 ^ n % 2 ≡ b / 2 ^ n % 2 = rw e at (bit_below n (k - suc n) a b) in
    rw (top, bits_below n k a b (omega arith)) refl

pub bits-mod : (n k v : ℕ) → n ≤ k → bits n (v % 2 ^ k) ≡ bits n v
bits-mod n k v h =
    let e : v / 2 ^ k * 2 ^ k + v % 2 ^ k ≡ v = omega arith in
    rw e at (sym (bits_below n k (v / 2 ^ k) (v % 2 ^ k) h))

-- Two fields side by side.
pub bits-fields : (m n a b : ℕ) → b < 2 ^ n → bits (m + n) (a * 2 ^ n + b) ≡ bits m a ++ bits n b
bits-fields m n a b h =
    bits-add m n (a * 2 ^ n + b)
    ∙ (let e : (a * 2 ^ n + b) / 2 ^ n ≡ a =
          mul-add-div_right (pow_pos n) a b ∙ omega (arith, div-eq_of_lt h) in
        rw (e, bits_below n n a b (omega arith)) refl)

pub bits-ones : (n : ℕ) → bits n (2 ^ n - 1) ≡ ones n
bits-ones zero = refl
bits-ones (suc n) =
    let e : 2 ^ suc n - 1 ≡ 1 * 2 ^ n + (2 ^ n - 1) = omega (arith, pow-suc 2 n, pow_pos n) in
    let below : 2 ^ n - 1 < 2 ^ n = omega (arith, pow_pos n) in
    let one : (1 * 2 ^ n + (2 ^ n - 1)) / 2 ^ n ≡ 1 =
      mul-add-div_right (pow_pos n) 1 (2 ^ n - 1) ∙ omega (arith, div-eq_of_lt below) in
    rw (e, one, bits_below n n 1 (2 ^ n - 1) (omega arith), bits-ones n) refl
