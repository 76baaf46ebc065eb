-- ===== src/Quic/PnSpace/Trim.antt =====
-- What `trim_below` makes of a packet number space.
use libspaznet.Base.{leb, length, ℕ, ◌+◌, ◌≤◌, ◌<◌, ◌≡◌, true, ◌&&◌, List, [], ◌∷◌, arith}
use libspaznet.Quic.PnSpace.{Range, PnSpace, rejoin, pop_below, clip_back, turn, trim_below}
use libspaznet.Quic.PnSpace.Ranges.{
  Descending, ceiling, covers, Ascending, covers-rejoin, Descending-rejoin, lowest, length-rejoin,
}
use libspaznet.Quic.PnSpace.Insert.{IsValid}

-- The ranges from the back: rising, with a number missing between neighbours.
abbrev Apart : List Range → Type 0
Apart [] = Unit
Apart (b ∷ bs) = (b.lo ≤ b.hi) × Ascending ceiling (b.hi + 1) bs

Apart-under :
    (r : Range) (acc : List Range)
    → r.hi + 1 < lowest acc
    → r.lo ≤ r.hi
    → Apart acc
    → Apart (r ∷ acc)
Apart-under r [] h nonempty a = (nonempty, h)
Apart-under r (b ∷ bs) h nonempty (wide, up) = (nonempty, (h, wide, up))

Apart-rejoin :
    (rs acc : List Range) → Apart acc → Descending (lowest acc) rs → Apart (rejoin rs acc)
unfolding rejoin
Apart-rejoin [] acc a d = a
Apart-rejoin (r ∷ rs) acc a (below, nonempty, d) =
    Apart-rejoin rs (r ∷ acc) (Apart-under r acc below nonempty a) d

Descending-turn : (bs : List Range) → Apart bs → Descending ceiling (turn bs)
unfolding turn rejoin
Descending-turn [] a = tt
Descending-turn (b ∷ bs) (wide, up) = Descending-rejoin ceiling bs b [] up wide tt

Apart-rest : (low : ℕ) (bs : List Range) → Ascending ceiling low bs → Apart bs
Apart-rest low [] up = tt
Apart-rest low (b ∷ bs) (h, wide, up) = (wide, up)

Ascending-above :
    (low : ℕ) (bs : List Range) (q : ℕ) → Ascending ceiling low bs → covers bs q ≡ true → low < q
Ascending-above low [] q up e = cc
Ascending-above low (b ∷ bs) q (h, wide, up) e = ground (arith, Ascending-above (b.hi + 1) bs q up)

covers-trimmed :
    (pn : ℕ) (bs : List Range) (q : ℕ)
    → Apart bs
    → covers (clip_back pn (pop_below pn bs)) q ≡ (leb pn q && covers bs q)
unfolding clip_back pop_below
covers-trimmed pn [] q a = ground arith
covers-trimmed pn (b ∷ bs) q (wide, up) = ground (
  arith,
  covers-trimmed pn bs q (Apart-rest (b.hi + 1) bs up),
  Ascending-above (b.hi + 1) bs q up,
)

Apart-trimmed : (pn : ℕ) (bs : List Range) → Apart bs → Apart (clip_back pn (pop_below pn bs))
unfolding clip_back pop_below
Apart-trimmed pn [] a = tt
Apart-trimmed pn (b ∷ bs) (wide, up) =
    ground (arith, Apart-trimmed pn bs (Apart-rest (b.hi + 1) bs up))

length-trimmed : (pn : ℕ) (bs : List Range) → length (clip_back pn (pop_below pn bs)) ≤ length bs
unfolding clip_back pop_below
length-trimmed pn [] = ground arith
length-trimmed pn (b ∷ bs) = ground (arith, length-trimmed pn bs)

-- `trim_below` forgets the numbers below its bound, and no other: where the ranges are in order, a
-- number is held afterwards just if it was held before and is at least the bound.
pub covers-trim_below :
    (pn : ℕ) (s : PnSpace) (q : ℕ)
    → IsValid s
    → covers (trim_below pn s).ranges q ≡ (leb pn q && covers s.ranges q)
unfolding trim_below turn
covers-trim_below pn s q (down, few) = ground (
  arith,
  covers-rejoin (clip_back pn (pop_below pn (rejoin s.ranges []))) [] q,
  covers-rejoin s.ranges [] q,
  covers-trimmed pn (rejoin s.ranges []) q (Apart-rejoin s.ranges [] tt down),
)

-- `trim_below` leaves the ranges in order, apart and at most 32.
pub trim_below-IsValid : (pn : ℕ) (s : PnSpace) → IsValid s → IsValid (trim_below pn s)
unfolding trim_below turn
trim_below-IsValid pn s (down, few) = (
  Descending-turn (clip_back pn (pop_below pn (rejoin s.ranges [])))
      (Apart-trimmed pn (rejoin s.ranges []) (Apart-rejoin s.ranges [] tt down)),
  omega (
    arith,
    length-rejoin (clip_back pn (pop_below pn (rejoin s.ranges []))) [],
    length-rejoin s.ranges [],
    length-trimmed pn (rejoin s.ranges []),
  ),
)
