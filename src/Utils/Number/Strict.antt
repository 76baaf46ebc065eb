-- ===== src/Utils/Number/Strict.antt =====
-- What `parse_uint64` accepts, and the number it answers.
use libspaznet.Base.{
  Bytes, length, All, ℕ, ◌+◌, ◌-◌, ◌*◌, ◌%◌, ◌^◌, ◌≤◌, ◌<◌, ◌≡◌, refl, ap, ◌∙◌, ◌↔◌, some, [], ◌∷◌,
  arith,
}
use libspaznet.Utils.Number.{parse_digits, parse_uint64}

abbrev pub IsDigit : ℕ → Type 0
IsDigit c = (48 ≤ c) × (c ≤ 57)

-- The number that digits behind a value `n` denote.
abbrev pub decimal : ℕ → Bytes → ℕ
decimal n [] = n
decimal n (c ∷ cs) = decimal (n * 10 + (c - 48)) cs

pub le-decimal : (n : ℕ) (cs : Bytes) → n ≤ decimal n cs
le-decimal n [] = omega arith
le-decimal n (c ∷ cs) = omega (arith, le-decimal (n * 10 + (c - 48)) cs)

-- A non-empty run of digits for a number of 64 bits.
abbrev pub IsUint64 : Bytes → ℕ → Type 0
IsUint64 s n = (0 < length s) × All IsDigit s × (decimal 0 s ≡ n) × (n < 2 ^ 64)

digits_sound :
    (s : Bytes) (r n : ℕ)
    → r < 2 ^ 64
    → parse_digits s r ≡ some n
    → All IsDigit s × (decimal r s ≡ n) × (n < 2 ^ 64)
unfolding parse_digits
digits_sound [] r n h e = (tt, ground arith, ground arith)
digits_sound (c ∷ cs) r n h e =
    let (digit, fits, rest) : IsDigit c
        × (r * 10 + (c - 48) < 2 ^ 64)
        × (parse_digits cs ((r * 10 + (c - 48)) % 2 ^ 64) ≡ some n) =
      ground arith in
    let same : (r * 10 + (c - 48)) % 2 ^ 64 ≡ r * 10 + (c - 48) = omega arith in
    let (ds, value, small) = digits_sound cs (r * 10 + (c - 48)) n fits (rw same at rest) in
    ((digit, ds), value, small)

digits_complete :
    (s : Bytes) (r : ℕ)
    → All IsDigit s
    → decimal r s < 2 ^ 64
    → parse_digits s r ≡ some (decimal r s)
unfolding parse_digits
digits_complete [] r h small = refl
digits_complete (c ∷ cs) r (digit, ds) small =
    let fits : r * 10 + (c - 48) < 2 ^ 64 = omega (arith, le-decimal (r * 10 + (c - 48)) cs) in
    let same : (r * 10 + (c - 48)) % 2 ^ 64 ≡ r * 10 + (c - 48) = omega arith in
    rw same (ground (arith, digits_complete cs (r * 10 + (c - 48)) ds small))

-- `parse_uint64` answers a number exactly for a non-empty text of ASCII digits whose decimal value
-- is below 2 ^ 64, and answers that value: no sign, space, prefix or tail is let through, and
-- nothing wraps around.
pub parse_uint64_iff : (s : Bytes) (n : ℕ) → (parse_uint64 s ≡ some n) ↔ IsUint64 s n
unfolding parse_uint64
parse_uint64_iff [] n = ((λ e. cc e), λ h. absurd (omega (arith, h.0)))
parse_uint64_iff (c ∷ cs) n = (
  (λ e.
      let (ds, value, small) = digits_sound (c ∷ cs) 0 n (omega arith) e in
      (omega arith, ds, value, small)),
  λ (some_digit, ds, value, small). digits_complete (c ∷ cs) 0 ds (rw value small) ∙ ap some value,
)
