-- ===== src/Quic/PnSpace/Ranges.antt =====
-- The order that the ranges keep, and the numbers that they hold.
use libspaznet.Base.{
  leb, Bool-cases, length, take, ℕ, zero, suc, ◌+◌, ◌^◌, ◌≤◌, ◌<◌, ◌≡◌, refl, ◌⊎◌, inl, inr, Bool,
  true, false, ◌&&◌, ◌||◌, List, [], ◌∷◌, arith,
}
use libspaznet.Quic.PnSpace.{Range, rejoin}

-- Packet numbers are below 2 ^ 62 (RFC 9000, section 12.3).
abbrev pub IsPn : ℕ → Type 0
IsPn pn = pn < 2 ^ 62

-- Ranges below `top`, descending, none of them empty, with a number missing between neighbours.
abbrev pub Descending : ℕ → List Range → Type 0
Descending top [] = Unit
Descending top (r ∷ rs) = (r.hi + 1 < top) × (r.lo ≤ r.hi) × Descending r.lo rs

-- The bound above all packet numbers.
abbrev pub ceiling : ℕ
ceiling = 2 ^ 62 + 1

abbrev pub in_range : Range → ℕ → Bool
in_range r q = leb r.lo q && leb q r.hi

abbrev pub covers : List Range → ℕ → Bool
covers [] q = false
covers (r ∷ rs) q = in_range r q || covers rs q

-- The ranges before an iterator, nearest first: all above `low`, with no number missing required
-- next to `low`.
abbrev pub Ascending : ℕ → ℕ → List Range → Type 0
Ascending top low [] = low < top
Ascending top low (b ∷ bs) = (low < b.lo) × (b.lo ≤ b.hi) × Ascending top (b.hi + 1) bs

pub covers-rejoin :
    (before rest : List Range) (q : ℕ)
    → covers (rejoin before rest) q ≡ (covers before q || covers rest q)
unfolding rejoin
covers-rejoin [] rest q = refl
covers-rejoin (b ∷ before) rest q = ground (arith, covers-rejoin before (b ∷ rest) q)

pub Descending-rejoin :
    (top : ℕ) (before : List Range) (r : Range) (rs : List Range)
    → Ascending top (r.hi + 1) before
    → r.lo ≤ r.hi
    → Descending r.lo rs
    → Descending top (rejoin before (r ∷ rs))
unfolding rejoin
Descending-rejoin top [] r rs up h down = (up, h, down)
Descending-rejoin top (b ∷ before) r rs (above, nonempty, up) h down =
    Descending-rejoin top before b (r ∷ rs) up nonempty (above, h, down)

-- The least number of the ranges before an iterator.
abbrev pub lowest : List Range → ℕ
lowest [] = ceiling
lowest (b ∷ bs) = b.lo

pub Ascending-low :
    (low low' : ℕ) (bs : List Range)
    → low' < lowest bs
    → Ascending ceiling low bs
    → Ascending ceiling low' bs
Ascending-low low low' [] h up = h
Ascending-low low low' (b ∷ bs) h (above, nonempty, up) = (h, nonempty, up)

pub Descending-mono :
    (top top' : ℕ) (rs : List Range) → top ≤ top' → Descending top rs → Descending top' rs
Descending-mono top top' [] h d = tt
Descending-mono top top' (r ∷ rs) h (below, nonempty, d) = (omega arith, nonempty, d)

pub Descending-take : (n top : ℕ) (rs : List Range) → Descending top rs → Descending top (take n rs)
Descending-take zero top rs d = tt
Descending-take (suc n) top [] d = tt
Descending-take (suc n) top (r ∷ rs) (below, nonempty, d) =
    (below, nonempty, Descending-take n r.lo rs d)

pub length-rejoin :
    (before rest : List Range) → length (rejoin before rest) ≡ length before + length rest
unfolding rejoin
length-rejoin [] rest = omega arith
length-rejoin (b ∷ before) rest = omega (arith, length-rejoin before (b ∷ rest))

-- Nothing at or above `top` is held.
pub covers-lt :
    (top : ℕ) (rs : List Range) (q : ℕ) → Descending top rs → covers rs q ≡ true → q + 1 < top
covers-lt top [] q d e = cc
covers-lt top (r ∷ rs) q (below, nonempty, d) e = ground (arith, covers-lt r.lo rs q d)

-- What is dropped from the tail is below all that is kept.
pub covers-take :
    (n top : ℕ) (rs : List Range) (q : ℕ)
    → Descending top rs
    → covers rs q ≡ true
    → (covers (take n rs) q ≡ true) ⊎ ((p : ℕ) → covers (take n rs) p ≡ true → q < p)
covers-take zero top rs q d e = inr (λ p h. cc)
covers-take (suc n) top [] q d e = cc
covers-take (suc n) top (r ∷ rs) q (below, nonempty, d) e = elim (Bool-cases (in_range r q)) [
  | inl here ↦ inl (rw here)
  | inr past ↦ elim (covers-take n r.lo rs q d (rw past at e)) [
    | inl kept ↦ inl (ground (arith, kept))
    | inr lower ↦ inr (λ p h. ground (arith, lower p, covers-lt r.lo rs q d (rw past at e)))
  ]
]

pub covers-of_take :
    (n : ℕ) (rs : List Range) (q : ℕ) → covers (take n rs) q ≡ true → covers rs q ≡ true
covers-of_take zero rs q e = cc
covers-of_take (suc n) [] q e = cc
covers-of_take (suc n) (r ∷ rs) q e = ground (arith, covers-of_take n rs q)
