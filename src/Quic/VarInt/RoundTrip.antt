-- ===== src/Quic/VarInt/RoundTrip.antt =====
-- What `VarInt::append` writes, and that `VarInt::decode` reads it back.
use libspaznet.Base.{
  leb, if◌then◌else◌, Bool-cases, Bytes, length, length-append, ℕ, suc, ◌+◌, ◌*◌, ◌/◌, ◌%◌, ◌^◌,
  ◌≤◌, ◌<◌, ◌≡◌, refl, sym, ap, ◌∙◌, inl, inr, none, some, [], ◌∷◌, ◌++◌, arith,
}
use libspaznet.Base.Bits.{bit_or-shifted, bit_and-mask}
use libspaznet.Wire.RoundTrip.{Emits, Parses, At, At-behind}
use libspaznet.Quic.VarInt.{k_max, encoded_size, first_byte, write_case, write, append, decode}
use libspaznet.Quic.VarInt.Decode.{
  big_endian, decode-At, big_endian_one, big_endian_three, big_endian_seven,
}

-- The size class of a number, and its first byte, in plain arithmetic.
abbrev pub size_of : ℕ → ℕ
size_of v = if leb v 63 then 1 else if leb v 16383 then 2 else if leb v 1073741823 then 4 else 8

-- The bytes that stand for `v` on the wire.
abbrev pub varint : ℕ → Bytes
varint v = write_case (size_of v) v

pub encoded_size-size_of : (v : ℕ) → v ≤ k_max → encoded_size v ≡ some (size_of v)
unfolding encoded_size
encoded_size-size_of v h = ground arith

pub encoded_size-none : (v : ℕ) → k_max < v → encoded_size v ≡ none
unfolding encoded_size
encoded_size-none v h = ground arith

write-varint : (v : ℕ) → v ≤ k_max → write v ≡ some (varint v)
unfolding write write_case
write-varint v h = rw (encoded_size-size_of v h, write)

pub Emits-append : (v : ℕ) → v ≤ k_max → Emits (append v) (varint v)
unfolding append
Emits-append v h out = rw (write-varint v h, append)

write-none : (v : ℕ) → k_max < v → write v ≡ none
unfolding write
write-none v h = rw (encoded_size-none v h, write)

pub append-none : (v : ℕ) (out : Bytes) → k_max < v → append v out ≡ none
unfolding append
append-none v out h = rw (write-none v h, append)

-- The first byte carries the size class in its top bits and the number's top six bits.
first_byte-sum :
    (p u v k : ℕ) → p < 4 → v / 2 ^ k ≡ u → u < 64 → first_byte (p * 2 ^ 6) v k ≡ p * 64 + u
first_byte-sum p u v k hp e hu =
    let six : u % 2 ^ 6 ≡ u = omega arith in
    rw (e, bit_and-mask 6 u, six, bit_or-shifted 6 p u (omega arith)) (omega arith)

decode_first :
    (p u v : ℕ) (bs : Bytes)
    → u < 64
    → big_endian u bs ≡ v
    → 2 ^ p ≡ suc (length bs)
    → Parses decode ((p * 64 + u) ∷ bs) v
decode_first p u v bs hu e size buf off rest h =
    decode-At buf off (p * 64 + u) bs rest h (rw top size)
    ∙ ap (λ r. some (r, off + suc (length bs))) low
  where
    top : (p * 64 + u) / 2 ^ 6 ≡ p
    top = omega arith

    low : big_endian ((p * 64 + u) % 64) bs ≡ v
    low = let six : (p * 64 + u) % 64 ≡ u = omega arith in rw six e

case_one : (v : ℕ) → v < 2 ^ 6 → Parses decode (write_case 1 v) v
unfolding write_case
case_one v h =
    let e : v % 256 ≡ 0 * 64 + v = omega arith in
    rw e (decode_first 0 v v [] h (unfold big_endian in refl) refl)

case_two : (v : ℕ) → v < 2 ^ 14 → Parses decode (write_case 2 v) v
unfolding write_case
case_two v h =
    rw (first_byte-sum 1 (v / 2 ^ 8) v 8 (omega arith) refl (omega arith))
      (decode_first 1 (v / 2 ^ 8) v _ (omega arith) (big_endian_one v (omega arith)) refl)

case_four : (v : ℕ) → v < 2 ^ 30 → Parses decode (write_case 4 v) v
unfolding write_case
case_four v h =
    rw (first_byte-sum 2 (v / 2 ^ 24) v 24 (omega arith) refl (omega arith))
      (decode_first 2 (v / 2 ^ 24) v _ (omega arith) (big_endian_three v (omega arith)) refl)

case_eight : (v : ℕ) → v ≤ k_max → Parses decode (write_case 8 v) v
unfolding write_case
case_eight v h =
    rw (first_byte-sum 3 (v / 2 ^ 56) v 56 (omega arith) refl (omega arith))
      (decode_first 3 (v / 2 ^ 56) v _ (omega arith) (big_endian_seven v (omega arith)) refl)

pub Parses-decode : (v : ℕ) → v ≤ k_max → Parses decode (varint v) v
Parses-decode v h = elim (Bool-cases (leb v 63)) [
  | inl e ↦ rw e (case_one v (ground arith))
  | inr e₁ ↦ rw e₁ (elim (Bool-cases (leb v 16383)) [
    | inl e ↦ rw e (case_two v (ground arith))
    | inr e₂ ↦ rw e₂ (elim (Bool-cases (leb v 1073741823)) [
      | inl e ↦ rw e (case_four v (ground arith))
      | inr e₃ ↦ rw e₃ (case_eight v h)
    ])
  ])
]

pub length-varint : (v : ℕ) → length (varint v) ≤ 8
unfolding write_case
length-varint v = ground arith

pub length-varint_size : (v : ℕ) → length (varint v) ≡ size_of v
unfolding write_case
length-varint_size v = ground arith

-- `append` succeeds on every number up to 2 ^ 62 - 1, and decoding what it wrote, at the place
-- where it wrote it, gives the number back and moves the offset to the end of those bytes,
-- whatever stands before and behind, fewer than 2 ^ 62 bytes in all.
pub decode-append :
    (v : ℕ) (out rest : Bytes)
    → v ≤ k_max
    → length out + length rest < 2 ^ 62
    → (out' : Bytes) × (append v out ≡ some out')
      × (decode (out' ++ rest) (length out) ≡ some (v, length out'))
decode-append v out rest h room = (
  out ++ varint v,
  Emits-append v h out,
  Parses-decode v h _ (length out) rest placed
      ∙ ap (λ n. some (v, n)) (sym (length-append out (varint v))),
)
  where
    placed : At ((out ++ varint v) ++ rest) (length out) (varint v ++ rest)
    placed = At-behind out (varint v) rest (omega (arith, length-varint v))
