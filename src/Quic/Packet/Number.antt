-- ===== src/Quic/Packet/Number.antt =====
-- Packet numbers from their low bytes.
use libspaznet.Base.{
  add64, ℕ, zero, suc, ◌+◌, ◌-◌, ◌*◌, ◌/◌, ◌%◌, ◌^◌, ◌≤◌, ◌<◌, bit_and, bit_or, ◌≡◌, refl, ap, ◌∙◌,
  arith,
}
use native.Mathlib.Nat.{mod-eq_of_lt}
use libspaznet.Base.Bits.{bit_and-mask, bit_and-shifted, bit_or-shifted}
use libspaznet.Quic.Packet.{candidate_pn, decode_packet_number}

-- The candidate has the high bits of the expected number and the low ones that were sent.
candidate-sum :
    (n m expected truncated : ℕ)
    → 2 ^ 64 - 1 - (2 ^ n - 1) ≡ (2 ^ m - 1) * 2 ^ n
    → expected / 2 ^ n < 2 ^ m
    → truncated < 2 ^ n
    → candidate_pn expected n truncated ≡ expected / 2 ^ n * 2 ^ n + truncated
unfolding candidate_pn
candidate-sum n m expected truncated shape small low =
    let kept : bit_and (expected / 2 ^ n) (2 ^ m - 1) ≡ expected / 2 ^ n =
      bit_and-mask m (expected / 2 ^ n) ∙ mod-eq_of_lt small in
    let high : bit_and expected (2 ^ 64 - 1 - (2 ^ n - 1)) ≡ expected / 2 ^ n * 2 ^ n =
      ap (bit_and expected) shape
      ∙ bit_and-shifted n expected (2 ^ m - 1)
      ∙ ap (λ x. x * 2 ^ n) kept in
    ap (λ x. bit_or x truncated) high ∙ bit_or-shifted n (expected / 2 ^ n) truncated low

-- The number `pn` is less than half a window of `2 ^ (8 * len)` away from the expected one.
abbrev pub Near : ℕ → ℕ → ℕ → Type 0
Near half largest pn =
    (largest + 1 < pn + half) × (pn < largest + 1 + half) × (pn < 2 ^ 62) × (largest < 2 ^ 62)

one_byte :
    (largest pn : ℕ) → Near (2 ^ 7) largest pn → decode_packet_number largest (pn % 2 ^ 8) 8 ≡ pn
unfolding decode_packet_number
one_byte largest pn (low, high, small, small') =
    let c = candidate-sum 8 56 (add64 largest 1) (pn % 2 ^ 8) refl (omega arith) (omega arith) in
    rw c (ground arith)

two_bytes :
    (largest pn : ℕ) → Near (2 ^ 15) largest pn → decode_packet_number largest (pn % 2 ^ 16) 16 ≡ pn
unfolding decode_packet_number
two_bytes largest pn (low, high, small, small') =
    let c = candidate-sum 16 48 (add64 largest 1) (pn % 2 ^ 16) refl (omega arith) (omega arith) in
    rw c (ground arith)

three_bytes :
    (largest pn : ℕ) → Near (2 ^ 23) largest pn → decode_packet_number largest (pn % 2 ^ 24) 24 ≡ pn
unfolding decode_packet_number
three_bytes largest pn (low, high, small, small') =
    let c = candidate-sum 24 40 (add64 largest 1) (pn % 2 ^ 24) refl (omega arith) (omega arith) in
    rw c (ground arith)

four_bytes :
    (largest pn : ℕ) → Near (2 ^ 31) largest pn → decode_packet_number largest (pn % 2 ^ 32) 32 ≡ pn
unfolding decode_packet_number
four_bytes largest pn (low, high, small, small') =
    let c = candidate-sum 32 32 (add64 largest 1) (pn % 2 ^ 32) refl (omega arith) (omega arith) in
    rw c (ground arith)

-- A packet number of which one to four low bytes were sent is reconstructed from them and the largest
-- number so far, if it is less than half a window away from the one after that; both are below
-- 2 ^ 62.
pub decode_packet_number-low_bytes :
    (len largest pn : ℕ)
    → 1 ≤ len
    → len ≤ 4
    → Near (2 ^ (len * 8 - 1)) largest pn
    → decode_packet_number largest (pn % 2 ^ (len * 8)) (len * 8) ≡ pn
decode_packet_number-low_bytes zero largest pn lo hi near = absurd (omega arith)
decode_packet_number-low_bytes (suc zero) largest pn lo hi near = one_byte largest pn near
decode_packet_number-low_bytes (suc (suc zero)) largest pn lo hi near = two_bytes largest pn near
decode_packet_number-low_bytes (suc (suc (suc zero))) largest pn lo hi near =
    three_bytes largest pn near
decode_packet_number-low_bytes (suc (suc (suc (suc zero)))) largest pn lo hi near =
    four_bytes largest pn near
decode_packet_number-low_bytes (suc (suc (suc (suc (suc n))))) largest pn lo hi near =
    absurd (omega arith)
