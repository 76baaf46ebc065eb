-- ===== src/Wire/Slices.antt =====
-- Parts of a byte string by their offset.
use libspaznet.Base.{
  Bytes, length, take, drop, length-append, length-drop, drop-add, ℕ, zero, suc, ◌+◌, ◌-◌, ◌≤◌, ◌≡◌,
  refl, sym, ap, [], ◌∷◌, ◌++◌, arith,
}
use libspaznet.Wire.Reader.{slice}

take_nothing : (n : ℕ) → take {A = ℕ} n [] ≡ []
take_nothing zero = refl
take_nothing (suc n) = refl

take-add : (m n : ℕ) (xs : Bytes) → take (m + n) xs ≡ take m xs ++ take n (drop m xs)
take-add zero n xs = let e : 0 + n ≡ n = omega arith in rw e refl
take-add (suc m) n [] = let e : suc m + n ≡ suc (m + n) = omega arith in rw (e, take_nothing n) refl
take-add (suc m) n (x ∷ xs) =
    let e : suc m + n ≡ suc (m + n) = omega arith in rw (e, take-add m n xs) refl

pub drop-take : (j n : ℕ) (xs : Bytes) → drop j (take n xs) ≡ take (n - j) (drop j xs)
drop-take zero n xs = let e : n - 0 ≡ n = omega arith in rw e refl
drop-take (suc j) zero xs = let e : 0 - suc j ≡ 0 = omega arith in rw e refl
drop-take (suc j) (suc n) [] = sym (take_nothing (suc n - suc j))
drop-take (suc j) (suc n) (x ∷ xs) =
    let e : suc n - suc j ≡ n - j = omega arith in rw (e, drop-take j n xs) refl

pub drop_all : (n : ℕ) (xs : Bytes) → length xs ≤ n → drop n xs ≡ []
drop_all zero [] h = refl
drop_all zero (x ∷ xs) h = absurd (omega arith)
drop_all (suc n) [] h = refl
drop_all (suc n) (x ∷ xs) h = drop_all n xs (omega arith)

pub take_within : (n : ℕ) (xs ys : Bytes) → n ≤ length xs → take n (xs ++ ys) ≡ take n xs
take_within zero xs ys h = refl
take_within (suc n) [] ys h = absurd (omega arith)
take_within (suc n) (x ∷ xs) ys h = ap (◌∷◌ x) (take_within n xs ys (omega arith))

pub drop_within : (n : ℕ) (xs ys : Bytes) → n ≤ length xs → drop n (xs ++ ys) ≡ drop n xs ++ ys
drop_within zero xs ys h = refl
drop_within (suc n) [] ys h = absurd (omega arith)
drop_within (suc n) (x ∷ xs) ys h = drop_within n xs ys (omega arith)

-- `c` is what `whole` has at offset `k`.
pub record IsSlice (whole : Bytes) (k : ℕ) (c : Bytes) : Type 0 where
  pub inside : k + length c ≤ length whole
  pub same : slice whole k (length c) ≡ c

pub IsSlice-append :
    (whole : Bytes) (k : ℕ) (c d : Bytes)
    → IsSlice whole k c
    → IsSlice whole (k + length c) d
    → IsSlice whole k (c ++ d)
IsSlice-append whole k c d hc hd = record {
  inside = omega (arith, hd.inside, length-append c d);
  same =
      rw
        (
          length-append c d,
          take-add (length c) (length d) (drop k whole),
          hc.same,
          ← drop-add k (length c) whole,
          hd.same,
        )
        refl;
}

pub IsSlice-drop :
    (whole : Bytes) (k j : ℕ) (c : Bytes)
    → j ≤ length c
    → IsSlice whole k c
    → IsSlice whole (k + j) (drop j c)
IsSlice-drop whole k j c h hc = record {
  inside = omega (arith, hc.inside, length-drop j c);
  same =
      rw (length-drop j c, drop-add k j whole, ← drop-take j (length c) (drop k whole), hc.same)
        refl;
}
