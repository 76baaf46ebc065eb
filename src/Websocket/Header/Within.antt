-- ===== src/Websocket/Header/Within.antt =====
-- A header is read alike whatever follows it in the buffer.
use libspaznet.Base.{
  ◌==◌, Bool-cases, Bytes, length, get_or, take, drop, length-drop, ℕ, zero, suc, ◌+◌, ◌≤◌, ◌<◌,
  ◌≡◌, refl, inl, inr, [], ◌∷◌, ◌++◌, arith,
}
use libspaznet.Wire.Slices.{take_within, drop_within}
use libspaznet.Utils.Binary.{decode_uint32_be}
use libspaznet.Websocket.Header.{
  base_size, length_code, is_masked, header_size, payload_length, read_header,
}

pub get_or-within :
    (xs ys : Bytes) (i d : ℕ) → i < length xs → get_or (xs ++ ys) i d ≡ get_or xs i d
get_or-within [] ys i d h = absurd (omega arith)
get_or-within (x ∷ xs) ys zero d h = refl
get_or-within (x ∷ xs) ys (suc i) d h = get_or-within xs ys i d (omega arith)

pub header_size-within : (xs ys : Bytes) → 2 ≤ length xs → header_size (xs ++ ys) ≡ header_size xs
unfolding header_size
header_size-within xs ys h = rw (get_or-within xs ys 1 0 (omega (arith, h))) refl

payload_length-within :
    (base : ℕ) (xs ys : Bytes)
    → 2 ≤ base
    → base ≤ length xs
    → payload_length base (xs ++ ys) ≡ payload_length base xs
unfolding payload_length
payload_length-within base xs ys two h = elim (Bool-cases (base == 4)) [
  | inl four ↦
      rw
        (
          four,
          get_or-within xs ys 2 0 (ground (arith, four)),
          get_or-within xs ys 3 0 (ground (arith, four)),
        )
        refl
  | inr not_four ↦ elim (Bool-cases (base == 10)) [
    | inl ten ↦
        let many : 10 ≤ length xs = ground (arith, ten) in
        let same : take 8 (drop 2 (xs ++ ys)) ≡ take 8 (drop 2 xs) =
          rw (drop_within 2 xs ys (omega (arith, many)))
            (take_within 8 (drop 2 xs) ys (omega (arith, many, length-drop 2 xs))) in
        rw (not_four, ten, same) refl
    | inr not_ten ↦ rw (not_four, not_ten, get_or-within xs ys 1 0 (omega (arith, h, two))) refl
  ]
]

key-within :
    (base : ℕ) (xs ys : Bytes)
    → base + 4 ≤ length xs
    → decode_uint32_be (drop base (xs ++ ys)) ≡ decode_uint32_be (drop base xs)
unfolding decode_uint32_be
key-within base xs ys h =
    let sized : 4 ≤ length (drop base xs) = omega (arith, length-drop base xs) in
    rw
      (
        drop_within base xs ys (omega (arith, h)),
        get_or-within (drop base xs) ys 0 0 (omega (arith, sized)),
        get_or-within (drop base xs) ys 1 0 (omega (arith, sized)),
        get_or-within (drop base xs) ys 2 0 (omega (arith, sized)),
        get_or-within (drop base xs) ys 3 0 (omega (arith, sized)),
      )
      refl

two≤base_size : (code : ℕ) → 2 ≤ base_size code
unfolding base_size
two≤base_size code = elim (Bool-cases (code == 126)) [
  | inl y ↦ rw y (omega arith)
  | inr n ↦ elim (Bool-cases (code == 127)) [
    | inl y ↦ rw (n, y) (omega arith)
    | inr n' ↦ rw (n, n') (omega arith)
  ]
]

pub two≤header_size : (xs : Bytes) → 2 ≤ header_size xs
unfolding header_size
two≤header_size xs = omega (arith, two≤base_size (length_code xs))

pub read_header-within :
    (xs ys : Bytes) → header_size xs ≤ length xs → read_header (xs ++ ys) ≡ read_header xs
unfolding read_header header_size
read_header-within xs ys h =
    let base = base_size (length_code xs) in
    let two : 2 ≤ base = two≤base_size (length_code xs) in
    let first = get_or-within xs ys 0 0 (omega (arith, h, two)) in
    let second = get_or-within xs ys 1 0 (omega (arith, h, two)) in
    elim (Bool-cases (is_masked xs)) [
      | inr bare ↦ rw (first, second, bare) refl
      | inl masked ↦
          let room : base + 4 ≤ length xs = rw masked at h in
          rw
            (
              first,
              second,
              payload_length-within base xs ys two (omega (arith, room)),
              key-within base xs ys room,
            )
            refl
    ]
