-- ===== src/Base/Bits.antt =====
-- `|` of disjoint fields and `&` with a mask of low ones, as arithmetic, at every width.
use Prim.Native.Nat.{
  ℕ, zero, suc, ◌+◌, ◌-◌, ◌*◌, ◌/◌, ◌%◌, ◌^◌, ◌≤◌, ◌<◌, min, max, digits, bit_and, bit_or, bit_xor,
  differ, bit_and-bitwise, bit_or-bitwise, bit_xor-bitwise,
}
use mathlib.Core.Path.{◌≡◌, refl, ap, sym, ◌∙◌}
use native.Mathlib.Nat.{div-div-eq-div-mul, mul_comm, pow-suc, one-le-pow}
use native.Mathlib.Omega.{arith}

-- The recursion that the native operations stand for does not depend on its fuel.
enough_fuel :
    (z : ℕ → ℕ) (f : ℕ → ℕ → ℕ) (n m a b : ℕ) → a ≤ n → a ≤ m → digits z f n a b ≡ digits z f m a b
enough_fuel z f zero zero a b p q = refl
enough_fuel z f (suc n) zero zero b p q = refl
enough_fuel z f zero (suc m) zero b p q = refl
enough_fuel z f (suc n) (suc m) zero b p q = refl
enough_fuel z f zero m (suc a) b p q = absurd (omega arith)
enough_fuel z f (suc n) zero (suc a) b p q = absurd (omega arith)
enough_fuel z f (suc n) (suc m) (suc a) b p q =
    rw (enough_fuel z f n m (suc a / 2) (b / 2) (omega arith) (omega arith))

pub bit_or_lowest : (a b : ℕ) → bit_or a b ≡ bit_or (a / 2) (b / 2) * 2 + max (a % 2) (b % 2)
bit_or_lowest zero b = simp bit_or-bitwise (omega arith)
bit_or_lowest (suc a) b = simp bit_or-bitwise (
    omega (
      arith,
      enough_fuel (λ y. y) max a (suc a / 2) (suc a / 2) (b / 2) (omega arith) (omega arith),
    ))

pub bit_and_lowest : (a b : ℕ) → bit_and a b ≡ bit_and (a / 2) (b / 2) * 2 + min (a % 2) (b % 2)
bit_and_lowest zero b = simp bit_and-bitwise (omega arith)
bit_and_lowest (suc a) b = simp bit_and-bitwise (
    omega (
      arith,
      enough_fuel (λ y. 0) min a (suc a / 2) (suc a / 2) (b / 2) (omega arith) (omega arith),
    ))

or_nothing : (n a : ℕ) → a ≤ n → bit_or a 0 ≡ a
or_nothing n zero h = refl
or_nothing zero (suc a) h = absurd (omega arith)
or_nothing (suc n) (suc a) h =
    omega (arith, bit_or_lowest (suc a) 0, or_nothing n (suc a / 2) (omega arith))

or_comm_below : (n a b : ℕ) → a ≤ n → bit_or a b ≡ bit_or b a
or_comm_below zero zero b h =
    let e : bit_or 0 b ≡ b = simp bit_or-bitwise (omega arith) in
    e ∙ sym (or_nothing b b (omega arith))
or_comm_below zero (suc a) b h = absurd (omega arith)
or_comm_below (suc n) a b h =
    omega
      (arith, bit_or_lowest a b, bit_or_lowest b a, or_comm_below n (a / 2) (b / 2) (omega arith))

pub bit_or_comm : (a b : ℕ) → bit_or a b ≡ bit_or b a
bit_or_comm a b = or_comm_below a a b (omega arith)

and_nothing : (n a : ℕ) → a ≤ n → bit_and a 0 ≡ 0
and_nothing n zero h = refl
and_nothing zero (suc a) h = absurd (omega arith)
and_nothing (suc n) (suc a) h =
    omega (arith, bit_and_lowest (suc a) 0, and_nothing n (suc a / 2) (omega arith))

pub double_shift : (q k : ℕ) → q * 2 ^ suc k ≡ 2 * (q * 2 ^ k)
double_shift q k = omega (arith, ap (λ (t : ℕ). q * t) (pow-suc 2 k))

-- `(q << k) | r`, for `r` of at most `k` bits.
pub bit_or-shifted : (k q r : ℕ) → r < 2 ^ k → bit_or (q * 2 ^ k) r ≡ q * 2 ^ k + r
bit_or-shifted zero q r h = ground (arith, or_nothing q q (omega arith))
bit_or-shifted (suc k) q r h = ground (
  arith,
  bit_or_lowest (q * 2 ^ suc k) r,
  double_shift q k,
  bit_or-shifted k q (r / 2) (omega arith),
)

mask_split : (k q r : ℕ) → r < 2 ^ k → bit_and (q * 2 ^ k + r) (2 ^ k - 1) ≡ r
mask_split zero q r h = ground (arith, and_nothing (q + r) (q + r) (omega arith))
mask_split (suc k) q r h = ground (
  arith,
  bit_and_lowest (q * 2 ^ suc k + r) (2 ^ suc k - 1),
  double_shift q k,
  pow-suc 2 k,
  mask_split k q (r / 2) (omega (arith, pow-suc 2 k)),
)

-- `a & ((1 << k) - 1)`.
pub bit_and-mask : (k a : ℕ) → bit_and a (2 ^ k - 1) ≡ a % 2 ^ k
bit_and-mask k a = ground (arith, one-le-pow k 2, mask_split k (a / 2 ^ k) (a % 2 ^ k))

halved : (a n : ℕ) → a / 2 / 2 ^ n ≡ a / 2 ^ suc n
halved a n =
    div-div-eq-div-mul a 2 (2 ^ n) ∙ ap (λ m. a / m) (mul_comm 2 (2 ^ n) ∙ sym (pow-suc 2 n))

-- `a & (c << n)` sees the bits of `a` from `n` on only.
pub bit_and-shifted : (n a c : ℕ) → bit_and a (c * 2 ^ n) ≡ bit_and (a / 2 ^ n) c * 2 ^ n
bit_and-shifted zero a c =
    let e : c * 1 ≡ c = omega arith in let e' : a / 1 ≡ a = omega arith in rw (e, e') (omega arith)
bit_and-shifted (suc n) a c =
    let half : c * 2 ^ suc n / 2 ≡ c * 2 ^ n = omega (arith, double_shift c n) in
    let even : min (a % 2) (c * 2 ^ suc n % 2) ≡ 0 = omega (arith, double_shift c n) in
    let low : bit_and a (c * 2 ^ suc n) ≡ bit_and (a / 2) (c * 2 ^ n) * 2 =
      bit_and_lowest a (c * 2 ^ suc n) ∙ rw (half, even) (omega arith) in
    low
    ∙ ap (λ x. x * 2) (bit_and-shifted n (a / 2) c)
    ∙ (let h : a / 2 / 2 ^ n ≡ a / 2 ^ suc n = halved a n in
        rw h (omega (arith, double_shift (bit_and (a / 2 ^ suc n) c) n)))

bit_xor_lowest : (a b : ℕ) → bit_xor a b ≡ bit_xor (a / 2) (b / 2) * 2 + differ (a % 2) (b % 2)
bit_xor_lowest zero b = simp bit_xor-bitwise (rw (digit (b % 2)) (omega arith))
  where
    digit : (d : ℕ) → differ 0 d ≡ d
    digit d = refl
bit_xor_lowest (suc a) b = simp bit_xor-bitwise (
    omega (
      arith,
      enough_fuel (λ y. y) differ a (suc a / 2) (suc a / 2) (b / 2) (omega arith) (omega arith),
    ))

xor_digits : (a b : ℕ) → a < 2 → b < 2 → (differ a b < 2) × (differ (differ a b) b ≡ a)
xor_digits zero zero ha hb = (omega arith, refl)
xor_digits zero (suc zero) ha hb = (omega arith, refl)
xor_digits (suc zero) zero ha hb = (omega arith, refl)
xor_digits (suc zero) (suc zero) ha hb = (omega arith, refl)
xor_digits zero (suc (suc b)) ha hb = absurd (omega arith)
xor_digits (suc zero) (suc (suc b)) ha hb = absurd (omega arith)
xor_digits (suc (suc a)) b ha hb = absurd (omega arith)

xor_twice_below : (n a b : ℕ) → a ≤ n → b ≤ n → bit_xor (bit_xor a b) b ≡ a
xor_twice_below zero zero zero ha hb = refl
xor_twice_below zero (suc a) b ha hb = absurd (omega arith)
xor_twice_below zero zero (suc b) ha hb = absurd (omega arith)
xor_twice_below (suc n) a b ha hb =
    let x = bit_xor a b in
    let (small, same) = xor_digits (a % 2) (b % 2) (omega arith) (omega arith) in
    let low : x ≡ bit_xor (a / 2) (b / 2) * 2 + differ (a % 2) (b % 2) = bit_xor_lowest a b in
    let half : x / 2 ≡ bit_xor (a / 2) (b / 2) = omega (arith, low, small) in
    let last : x % 2 ≡ differ (a % 2) (b % 2) = omega (arith, low, small) in
    bit_xor_lowest x b
    ∙ rw (half, last, xor_twice_below n (a / 2) (b / 2) (omega arith) (omega arith), same)
        (omega arith)

-- `^` undoes itself.
pub bit_xor-twice : (a b : ℕ) → bit_xor (bit_xor a b) b ≡ a
bit_xor-twice a b = xor_twice_below (a + b) a b (omega arith) (omega arith)
