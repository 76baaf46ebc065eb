-- ===== src/Utils/Number.antt =====
-- src/utils/number_utils.cpp: strict decimal parsing. A text is its bytes; a `char` of the upper
-- half is above '9' here and below '0' where `char` is signed, and refused either way.
pub mod Strict
pub mod Signed
use libspaznet.Base.{
  ltb, ◌==◌, if◌then◌else◌, Bytes, ℕ, zero, suc, ◌+◌, ◌-◌, ◌*◌, ◌/◌, ◌%◌, ◌^◌, Bool, true, false,
  ◌||◌, Option, none, some, [], ◌∷◌,
}
use libspaznet.Base.Ints.{ℤ, pos, negsuc}

-- The loop of `parse_uint64`.
unfoldable pub parse_digits : Bytes → ℕ → Option ℕ
parse_digits [] result = some result
parse_digits (c ∷ cs) result =
    let digit = c - 48 in
    let rest = parse_digits cs ((result * 10 + digit) % 2 ^ 64) in
    if ltb c 48 || ltb 57 c
    then none
    else if ltb ((2 ^ 64 - 1 - digit) / 10) result
    then none
    else rest

unfoldable pub parse_uint64 : Bytes → Option ℕ
parse_uint64 [] = none
parse_uint64 (c ∷ cs) = parse_digits (c ∷ cs) 0

-- The loop of `parse_int`, whose accumulator is a `long long`.
unfoldable pub parse_magnitude : Bytes → ℕ → Option ℕ
parse_magnitude [] result = some result
parse_magnitude (c ∷ cs) result =
    let result' = result * 10 + (c - 48) in
    let rest = parse_magnitude cs result' in
    if ltb c 48 || ltb 57 c then none else if ltb 2147483648 result' then none else rest

abbrev pub negate : ℕ → ℤ
negate zero = pos 0
negate (suc n) = negsuc n

-- `-result` or `result`, if it is an `int`.
unfoldable pub signed : Bool → ℕ → Option ℤ
signed true result = if ltb 2147483648 result then none else some (negate result)
signed false result = if ltb 2147483647 result then none else some (pos result)

-- From the first digit on: `i >= value.size()` is the empty rest.
unfoldable pub parse_unsigned : Bool → Bytes → Option ℤ
parse_unsigned negative [] = none
parse_unsigned negative (c ∷ cs) = elim (parse_magnitude (c ∷ cs) 0) [
  | none ↦ none
  | some result ↦ signed negative result
]

unfoldable pub parse_int : Bytes → Option ℤ
parse_int [] = none
parse_int (c ∷ cs) =
    if c == 43 || c == 45 then parse_unsigned (c == 45) cs else parse_unsigned false (c ∷ cs)
