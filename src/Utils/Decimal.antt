-- ===== src/Utils/Decimal.antt =====
-- `std::to_string` of an `int`, and that `NumberUtils::parse_int` reads it back.
use libspaznet.Base.{
  ltb, if◌then◌else◌, ltb→lt, Bool-cases, Bytes, length, All, ℕ, zero, suc, ◌+◌, ◌/◌, ◌%◌, ◌^◌, ◌≤◌,
  ◌<◌, ◌≡◌, refl, sym, ap, ◌∙◌, inl, inr, some, [], ◌∷◌, arith,
}
use libspaznet.Base.Ints.{ℤ, pos, negsuc}
use libspaznet.Utils.Number.{parse_int, negate}
use libspaznet.Utils.Number.Strict.{IsDigit, decimal}
use libspaznet.Utils.Number.Signed.{Denotes, parse_int_iff}

-- The digits of a number, the last first; a number has at most as many digits as it counts.
unfoldable pub digits_before : ℕ → ℕ → Bytes → Bytes
digits_before zero n rest = rest
digits_before (suc fuel) n rest =
    let longer = digits_before fuel (n / 10) ((48 + n % 10) ∷ rest) in
    if ltb n 10 then (48 + n) ∷ rest else longer

unfoldable pub digits_of : ℕ → Bytes
digits_of n = digits_before (suc n) n []

unfoldable pub to_string : ℤ → Bytes
to_string (pos n) = digits_of n
to_string (negsuc n) = 45 ∷ digits_of (suc n)

digits_before_lem :
    (fuel n : ℕ) (rest : Bytes)
    → n < fuel
    → All IsDigit rest
    → (0 < length (digits_before fuel n rest))
      × All IsDigit (digits_before fuel n rest)
      × (decimal 0 (digits_before fuel n rest) ≡ decimal n rest)
unfolding digits_before
digits_before_lem zero n rest h ds = absurd (omega arith)
digits_before_lem (suc fuel) n rest h ds = elim (Bool-cases (ltb n 10)) [
  | inl last ↦
      let small = ltb→lt n 10 last in
      rw last (
        omega arith,
        ((omega arith, omega arith), ds),
        ap (λ (k : ℕ). decimal k rest) (omega arith),
      )
  | inr more ↦
      let big : 10 ≤ n = ground (arith, more) in
      let (some_digit, all, value) =
        digits_before_lem fuel (n / 10) ((48 + n % 10) ∷ rest) (omega arith)
          ((omega arith, omega arith), ds) in
      rw more (some_digit, all, value ∙ ap (λ (k : ℕ). decimal k rest) (omega arith))
]

pub digits_of_lem :
    (n : ℕ) → (0 < length (digits_of n)) × All IsDigit (digits_of n) × (decimal 0 (digits_of n) ≡ n)
unfolding digits_of
digits_of_lem n = digits_before_lem (suc n) n [] (omega arith) tt

-- A 32-bit `int`.
abbrev pub IsInt : ℤ → Type 0
IsInt (pos n) = n < 2 ^ 31
IsInt (negsuc n) = n < 2 ^ 31

-- `parse_int` reads what `std::to_string` prints, for every 32-bit `int`, the negative ones and the
-- lowest included.
pub parse_int-to_string : (z : ℤ) → IsInt z → parse_int (to_string z) ≡ some z
unfolding to_string
parse_int-to_string (pos n) h =
    let (some_digit, all, value) = digits_of_lem n in
    (parse_int_iff (digits_of n) (pos n)).1
      (Denotes.plain some_digit all (omega (arith, value)) (ap pos (sym value)))
parse_int-to_string (negsuc n) h =
    let (some_digit, all, value) = digits_of_lem (suc n) in
    (parse_int_iff (45 ∷ digits_of (suc n)) (negsuc n)).1 (
      Denotes.minus (digits_of (suc n)) refl some_digit all (omega (arith, value))
        (ap negate (sym value)))
