-- ===== src/Quic/VarInt/Bounds.antt =====
-- The range of what `VarInt::decode` answers, and how far it moves the offset.
use libspaznet.Base.{
  Bytes, length, get_or, All, length-append, ℕ, zero, suc, ◌+◌, ◌*◌, ◌/◌, ◌%◌, ◌^◌, ◌≤◌, ◌<◌, ◌≡◌,
  refl, ap, ◌⊎◌, inl, inr, none, some, [], ◌∷◌, ◌++◌, arith, dec_lt,
}
use libspaznet.Base.Bits.{bit_or-shifted, bit_and-mask}
use libspaznet.Quic.VarInt.{k_max, shift_in, decode_loop, length_of, decode, append, encoded_size}
use libspaznet.Wire.Safe.{IsByte, IsBuffer}
use libspaznet.Quic.VarInt.RoundTrip.{
  size_of, encoded_size-size_of, encoded_size-none, varint, Emits-append, length-varint_size,
  append-none,
}
use native.Mathlib.Nat.{pow-suc, one-le-pow}

pub byte_of : (buf : Bytes) (i : ℕ) → All IsByte buf → get_or buf i 0 < 256
byte_of [] i h = omega arith
byte_of (x ∷ xs) zero h = h.0
byte_of (x ∷ xs) (suc i) h = byte_of xs i h.1

shift_in-lt : (r b m : ℕ) → b < 256 → r < m → m * 256 ≤ 2 ^ 64 → shift_in r b < m * 256
shift_in-lt r b m hb hr hm =
    let fits : r * 2 ^ 8 % 2 ^ 64 ≡ r * 2 ^ 8 = omega arith in
    rw (fits, bit_or-shifted 8 r b hb) (omega arith)

decode_loop-lt :
    (n i : ℕ) (buf : Bytes) (offset r m : ℕ)
    → All IsByte buf
    → r < m
    → m * 256 ^ n ≤ 2 ^ 64
    → decode_loop n i buf offset r < m * 256 ^ n
unfolding decode_loop
decode_loop-lt zero i buf offset r m hb hr hm = omega arith
decode_loop-lt (suc n) i buf offset r m hb hr hm =
    let b = get_or buf (offset + i) 0 in
    let more : m * 256 * 256 ^ n ≡ m * 256 ^ suc n =
      omega (arith, ap (λ (t : ℕ). m * t) (pow-suc 256 n)) in
    rw more at (
      decode_loop-lt n (i + 1) buf offset (shift_in r b) (m * 256) hb
        (shift_in-lt r b m (byte_of buf (offset + i) hb) hr (omega (arith, hm, more, grow)))
        (omega (arith, more)))
  where
    grow : m * 256 * 1 ≤ m * 256 * 256 ^ n
    grow = grind (arith, one-le-pow n 256)

-- What the size class says of a first byte: the bytes that follow, and the numbers they can hold.
record SizeClass (first n : ℕ) : Type 0 where
  power : length_of first ≡ suc n
  few : n ≤ 7
  room : 64 * 256 ^ n ≤ 2 ^ 62
  short : (v : ℕ) → v < 64 * 256 ^ n → size_of v ≤ suc n

size_class : (first : ℕ) → first < 256 → (n : ℕ) × SizeClass first n
size_class first h = pick (first / 64) refl (omega arith)
  where
    pick : (p : ℕ) → first / 64 ≡ p → p < 4 → (n : ℕ) × SizeClass first n
    pick zero e lt = (
      0,
      record { power = rw e; few = omega arith; room = omega arith; short = λ v. ground arith },
    )
    pick (suc zero) e lt = (
      1,
      record { power = rw e; few = omega arith; room = omega arith; short = λ v. ground arith },
    )
    pick (suc (suc zero)) e lt = (
      3,
      record { power = rw e; few = omega arith; room = omega arith; short = λ v. ground arith },
    )
    pick (suc (suc (suc zero))) e lt = (
      7,
      record { power = rw e; few = omega arith; room = omega arith; short = λ v. ground arith },
    )
    pick (suc (suc (suc (suc p)))) e lt = absurd (omega arith)

decode_sized :
    (buf : Bytes) (off n : ℕ) {v off' : ℕ}
    → length buf < 2 ^ 63
    → SizeClass (get_or buf off 0) n
    → decode buf off ≡ some (v, off')
    → (off' ≡ off + suc n)
      × (off' ≤ length buf)
      × (v ≡ decode_loop n 1 buf off (get_or buf off 0 % 64))
unfolding decode
decode_sized buf off n sized c e = ground (arith, c.power, c.few, bit_and-mask 6 (get_or buf off 0))

-- On a buffer of fewer than 2 ^ 63 bytes, what `decode` answers is at most 2 ^ 62 - 1, the offset
-- has moved by at least the bytes that `append` needs for that number and by at most eight, and it
-- stays inside the buffer.
pub decode_bounds :
    (buf : Bytes) (off v off' : ℕ)
    → IsBuffer buf
    → decode buf off ≡ some (v, off')
    → (v ≤ k_max) × (off + size_of v ≤ off') × (off' ≤ off + 8) × (off' ≤ length buf)
decode_bounds buf off v off' (hb, sized) e =
    let (n, c) = size_class (get_or buf off 0) (byte_of buf off hb) in
    let (moved, inside, value) = decode_sized buf off n sized c e in
    let low : v < 64 * 256 ^ n =
      rw value (decode_loop-lt n 1 buf off _ 64 hb (omega arith) (omega (arith, c.room))) in
    (omega (arith, c.room), omega (arith, c.short v low), omega (arith, c.few), inside)

-- `append` writes exactly the numbers up to 2 ^ 62 - 1, in as many bytes as `encoded_size` says;
-- above, both throw.
pub append_throws :
    (v : ℕ) (out : Bytes)
    → ((v ≤ k_max)
        × (out' : Bytes) × (n : ℕ) × (append v out ≡ some out')
        × (encoded_size v ≡ some n)
        × (length out' ≡ length out + n))
      ⊎ ((k_max < v) × (append v out ≡ none) × (encoded_size v ≡ none))
append_throws v out = elim (dec_lt k_max v) [
  | yes h ↦ inr (h, append-none v out h, encoded_size-none v h)
  | no h ↦ inl (
    omega arith,
    out ++ varint v,
    size_of v,
    Emits-append v (omega arith) out,
    encoded_size-size_of v (omega arith),
    omega (arith, length-append out (varint v), length-varint_size v),
  )
]
