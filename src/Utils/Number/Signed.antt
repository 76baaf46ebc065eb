-- ===== src/Utils/Number/Signed.antt =====
-- What `parse_int` accepts, and the number it answers.
use libspaznet.Base.{
  ◌==◌, Bool-cases, Option-cases, Bytes, length, All, ℕ, ◌+◌, ◌-◌, ◌*◌, ◌^◌, ◌≤◌, ◌<◌, ◌≡◌, refl,
  sym, subst, ◌↔◌, inl, inr, Bool, true, false, some, [], ◌∷◌, arith,
}
use libspaznet.Utils.Number.{parse_int, signed, negate, parse_unsigned, parse_magnitude}
use libspaznet.Utils.Number.Strict.{IsDigit, decimal, le-decimal}
use libspaznet.Base.Ints.{ℤ, pos}

-- What a text denotes: digits with a sign or without, in the range of a 32-bit `int`.
pub data Denotes (s : Bytes) (z : ℤ) : Type 0 where
  plain : 0 < length s → All IsDigit s → decimal 0 s < 2 ^ 31 → z ≡ pos (decimal 0 s) → Denotes s z
  plus :
      (ds : Bytes)
      → s ≡ 43 ∷ ds
      → 0 < length ds
      → All IsDigit ds
      → decimal 0 ds < 2 ^ 31
      → z ≡ pos (decimal 0 ds)
      → Denotes s z
  minus :
      (ds : Bytes)
      → s ≡ 45 ∷ ds
      → 0 < length ds
      → All IsDigit ds
      → decimal 0 ds ≤ 2 ^ 31
      → z ≡ negate (decimal 0 ds)
      → Denotes s z

magnitude_sound :
    (s : Bytes) (r n : ℕ)
    → r ≤ 2 ^ 31
    → parse_magnitude s r ≡ some n
    → All IsDigit s × (decimal r s ≡ n) × (n ≤ 2 ^ 31)
unfolding parse_magnitude
magnitude_sound [] r n h e = (tt, ground arith, ground arith)
magnitude_sound (c ∷ cs) r n h e =
    let (digit, fits, rest) : IsDigit c
        × (r * 10 + (c - 48) ≤ 2 ^ 31)
        × (parse_magnitude cs (r * 10 + (c - 48)) ≡ some n) =
      ground arith in
    let (ds, value, small) = magnitude_sound cs (r * 10 + (c - 48)) n fits rest in
    ((digit, ds), value, small)

magnitude_complete :
    (s : Bytes) (r : ℕ)
    → All IsDigit s
    → decimal r s ≤ 2 ^ 31
    → parse_magnitude s r ≡ some (decimal r s)
unfolding parse_magnitude
magnitude_complete [] r h small = refl
magnitude_complete (c ∷ cs) r (digit, ds) small =
    ground
      (arith, le-decimal (r * 10 + (c - 48)) cs, magnitude_complete cs (r * 10 + (c - 48)) ds small)

-- The number behind a sign.
abbrev Fits : Bool → ℕ → ℤ → Type 0
Fits true n z = (n ≤ 2 ^ 31) × (z ≡ negate n)
Fits false n z = (n < 2 ^ 31) × (z ≡ pos n)

signed_iff : (b : Bool) (n : ℕ) (z : ℤ) → (signed b n ≡ some z) ↔ Fits b n z
unfolding signed
signed_iff true n z = ((λ e. (ground arith, ground arith)), λ (h, e). ground arith)
signed_iff false n z = ((λ e. (ground arith, ground arith)), λ (h, e). ground arith)

Fits-small : (b : Bool) (n : ℕ) (z : ℤ) → Fits b n z → n ≤ 2 ^ 31
Fits-small true n z h = h.0
Fits-small false n z h = omega (arith, h.0)

unsigned_sound :
    (b : Bool) (s : Bytes) (z : ℤ)
    → parse_unsigned b s ≡ some z
    → (0 < length s) × All IsDigit s × Fits b (decimal 0 s) z
unfolding parse_unsigned
unsigned_sound b [] z e = cc e
unsigned_sound b (c ∷ cs) z e = elim (Option-cases (parse_magnitude (c ∷ cs) 0)) [
  | inl failed ↦ cc (rw (failed, parse_unsigned) at e)
  | inr (n, found) ↦
      let (ds, value, small) = magnitude_sound (c ∷ cs) 0 n (omega arith) found in
      (
        omega arith,
        ds,
        subst (λ k. Fits b k z) (sym value)
            ((signed_iff b n z).0 (rw (found, parse_unsigned) at e)),
      )
]

unsigned_complete :
    (b : Bool) (s : Bytes) (z : ℤ)
    → 0 < length s
    → All IsDigit s
    → Fits b (decimal 0 s) z
    → parse_unsigned b s ≡ some z
unfolding parse_unsigned
unsigned_complete b [] z h ds fits = absurd (omega arith)
unsigned_complete b (c ∷ cs) z h ds fits =
    rw (magnitude_complete (c ∷ cs) 0 ds (Fits-small b _ z fits), parse_unsigned)
      ((signed_iff b (decimal 0 (c ∷ cs)) z).1 fits)

int_sound : (s : Bytes) (z : ℤ) → parse_int s ≡ some z → Denotes s z
unfolding parse_int
int_sound [] z e = cc e
int_sound (c ∷ cs) z e = elim (Bool-cases (c == 45)) [
  | inl m ↦
      let p : (c == 43) ≡ false = ground arith in
      let (h, ds, (small, value)) = unsigned_sound true cs z (rw (p, m) at e) in
      Denotes.minus cs (ground arith) h ds small value
  | inr m ↦ elim (Bool-cases (c == 43)) [
    | inl p ↦
        let (h, ds, (small, value)) = unsigned_sound false cs z (rw (p, m) at e) in
        Denotes.plus cs (ground arith) h ds small value
    | inr p ↦
        let (h, ds, (small, value)) = unsigned_sound false (c ∷ cs) z (rw (p, m) at e) in
        Denotes.plain h ds small value
  ]
]

int_complete : (s : Bytes) (z : ℤ) → Denotes s z → parse_int s ≡ some z
unfolding parse_int
int_complete [] z (Denotes.plain h ds small value) = absurd (omega arith)
int_complete (c ∷ cs) z (Denotes.plain h ds small value) =
    let p : (c == 43) ≡ false = ground arith in
    let m : (c == 45) ≡ false = ground arith in
    rw (p, m) (unsigned_complete false (c ∷ cs) z h ds (small, value))
int_complete s z (Denotes.plus ds e h all small value) =
    rw e (unsigned_complete false ds z h all (small, value))
int_complete s z (Denotes.minus ds e h all small value) =
    rw e (unsigned_complete true ds z h all (small, value))

-- `parse_int` answers a number exactly for an optional sign and a non-empty run of digits whose
-- value, with the sign, is in the range of a 32-bit `int`, the lowest number -2147483648 included,
-- and answers that value.
pub parse_int_iff : (s : Bytes) (z : ℤ) → (parse_int s ≡ some z) ↔ Denotes s z
parse_int_iff s z = (int_sound s z, int_complete s z)
