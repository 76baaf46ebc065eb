-- ===== src/Quic/PnSpace/Receive.antt =====
-- `on_received` keeps the ranges in order and adds the number, and nothing else.
use libspaznet.Base.{
  leb, ◌==◌, Bool-cases, length, take, ℕ, suc, ◌+◌, ◌≤◌, ◌<◌, ◌≡◌, refl, ◌⊎◌, inl, inr, true, ◌||◌,
  Option, none, some, List, [], ◌∷◌, arith,
}
use libspaznet.Quic.PnSpace.{
  Range, walk, rejoin, k_max_ack_ranges, insert_single, extend_lower, succ64, extend_higher, place,
}
use libspaznet.Quic.PnSpace.Ranges.{
  Descending, ceiling, covers, Ascending, lowest, Ascending-low, IsPn, Descending-rejoin,
  covers-rejoin, length-rejoin,
}

-- The number lies above the ranges from the iterator on.
abbrev pub Under : ℕ → List Range → Type 0
Under pn [] = Unit
Under pn (r ∷ rs) = r.hi < pn

-- The iterator stands between the ranges above `pn` and those below it.
pub record Stands (pn : ℕ) (before rest : List Range) : Type 0 where
  above : Ascending ceiling pn before
  behind : Descending (lowest before) rest
  under : Under pn rest

stopped :
    (pn : ℕ) (before rest : List Range) {before' rest' : List Range}
    → Ascending ceiling pn before
    → Descending (lowest before) rest
    → Under pn rest
    → ◌≡◌ {A = Option (List Range × List Range)} (some (before, rest)) (some (before', rest'))
    → Stands pn before' rest' × (rejoin before' rest' ≡ rejoin before rest)
stopped pn before rest {before'} {rest'} up down under e =
    let eb : before ≡ before' = cc in
    let er : rest ≡ rest' = cc in
    rw (← eb, ← er) (record { above = up; behind = down; under = under }, refl)

-- The walk stops there, and has not changed a range.
pub walk-Stands :
    (pn : ℕ) (before rs before' rest : List Range)
    → Ascending ceiling pn before
    → Descending (lowest before) rs
    → walk pn before rs ≡ some (before', rest)
    → Stands pn before' rest × (rejoin before' rest ≡ rejoin before rs)
unfolding walk rejoin
walk-Stands pn before [] before' rest up down e = stopped pn before [] up tt tt e
walk-Stands pn before (r ∷ rs) before' rest up down e = elim (Bool-cases (leb pn r.hi)) [
  | inr past ↦ stopped pn before (r ∷ rs) up down (ground arith) (rw past at e)
  | inl on ↦ elim (Bool-cases (leb r.lo pn)) [
    | inl held ↦ absurd (cc (rw (on, held) at e))
    | inr below ↦
        walk-Stands pn (r ∷ before) rs before' rest
          (ground arith, down.1, Ascending-low pn (r.hi + 1) before (omega (arith, down.0)) up)
          down.2 (rw (on, below) at e)
  ]
]

pub walk-covers : (pn : ℕ) (before rs : List Range) → walk pn before rs ≡ none → covers rs pn ≡ true
unfolding walk
walk-covers pn before [] e = cc
walk-covers pn before (r ∷ rs) e = ground (arith, walk-covers pn (r ∷ before) rs)

-- What placing the number makes of the ranges, before the bound on their count is applied.
pub record Placed (pn : ℕ) (before rest full : List Range) : Type 0 where
  pub ordered : Descending ceiling full
  pub held : (q : ℕ) → covers full q ≡ (q == pn || (covers before q || covers rest q))
  pub counted : length full ≤ suc (length before + length rest)

-- The answer is all of that, or its first 32 ranges.
abbrev pub Bounded : List Range → List Range → Type 0
Bounded result full =
    (result ≡ full × (length full ≤ k_max_ack_ranges)
      ⊎ (result ≡ take k_max_ack_ranges full × (k_max_ack_ranges < length full)))

pub record Result (pn : ℕ) (before rest result : List Range) : Type 0 where
  pub full : List Range
  pub placed : Placed pn before rest full
  pub bounded : Bounded result full

-- The range before the iterator does not touch `pn`; nor, for a new range, does the one behind.
module _ (pn : ℕ) (before : List Range) (small : IsPn pn) (apart : pn + 1 < lowest before) where
  up_from : (rest : List Range) → Stands pn before rest → Ascending ceiling (pn + 1) before
  up_from rest s = Ascending-low pn (pn + 1) before apart s.above

  single :
      (rest : List Range)
      → Stands pn before rest
      → Descending pn rest
      → Result pn before rest (insert_single pn before rest)
  unfolding insert_single
  single rest s down = record {
    full = full;
    placed = record {
      ordered = Descending-rejoin ceiling before one rest (up_from rest s) (omega arith) down;
      held = λ q. ground (arith, covers-rejoin before (one ∷ rest) q);
      counted = omega (arith, length-rejoin before (one ∷ rest));
    };
    bounded = ground arith;
  }
    where
      one : Range
      one = record { lo = pn; hi = pn }

      full : List Range
      full = rejoin before (one ∷ rest)

  grown :
      (r : Range) (rs : List Range)
      → Stands pn before (r ∷ rs)
      → r.hi + 1 ≡ pn
      → length before + length (r ∷ rs) ≤ k_max_ack_ranges
      → Result pn before (r ∷ rs) (rejoin before (record r { hi = pn } ∷ rs))
  grown r rs s touches few = record {
    full = rejoin before (wide ∷ rs);
    placed = record {
      ordered =
          Descending-rejoin ceiling before wide rs (up_from (r ∷ rs) s) (omega (arith, s.behind.1))
            s.behind.2;
      held = λ q. ground (arith, covers-rejoin before (wide ∷ rs) q, s.behind.1);
      counted = omega (arith, length-rejoin before (wide ∷ rs));
    };
    bounded = inl (refl, omega (arith, length-rejoin before (wide ∷ rs)));
  }
    where
      wide : Range
      wide = record r { hi = pn }

  lower :
      (rest : List Range)
      → Stands pn before rest
      → length before + length rest ≤ k_max_ack_ranges
      → Result pn before rest (extend_lower pn before rest)
  unfolding extend_lower
  lower [] s few = single [] s tt
  lower (r ∷ rs) s few = elim (Bool-cases (succ64 r.hi == pn)) [
    | inl touches ↦ rw touches (grown r rs s (ground arith) few)
    | inr free ↦ rw free (single (r ∷ rs) s (ground (arith, s.under), s.behind.1, s.behind.2))
  ]

-- The number stands right below the higher neighbour.
module _ (pn : ℕ) (higher : Range) (before : List Range) (touches : higher.lo ≡ pn + 1) where
  down_to :
      (rest : List Range)
      → Stands pn (higher ∷ before) rest
      → Descending pn rest
      → length before + length rest < k_max_ack_ranges
      → Result pn (higher ∷ before) rest (rejoin before (record higher { lo = pn } ∷ rest))
  down_to rest s down few = record {
    full = rejoin before (wide ∷ rest);
    placed = record {
      ordered =
          Descending-rejoin ceiling before wide rest s.above.2 (omega (arith, s.above.1)) down;
      held = λ q. ground (arith, covers-rejoin before (wide ∷ rest) q, s.above.1);
      counted = omega (arith, length-rejoin before (wide ∷ rest));
    };
    bounded = inl (refl, omega (arith, length-rejoin before (wide ∷ rest)));
  }
    where
      wide : Range
      wide = record higher { lo = pn }

  bridged :
      (r : Range) (rs : List Range)
      → Stands pn (higher ∷ before) (r ∷ rs)
      → r.hi + 1 ≡ pn
      → length before + length (r ∷ rs) < k_max_ack_ranges
      → Result pn (higher ∷ before) (r ∷ rs) (rejoin before (record higher { lo = r.lo } ∷ rs))
  bridged r rs s meets few = record {
    full = rejoin before (wide ∷ rs);
    placed = record {
      ordered =
          Descending-rejoin ceiling before wide rs s.above.2 (omega (arith, s.above.1, s.behind.1))
            s.behind.2;
      held = λ q. ground (arith, covers-rejoin before (wide ∷ rs) q, s.above.1, s.behind.1);
      counted = omega (arith, length-rejoin before (wide ∷ rs));
    };
    bounded = inl (refl, omega (arith, length-rejoin before (wide ∷ rs)));
  }
    where
      wide : Range
      wide = record higher { lo = r.lo }

  upper :
      (rest : List Range)
      → IsPn pn
      → Stands pn (higher ∷ before) rest
      → length before + length rest < k_max_ack_ranges
      → Result pn (higher ∷ before) rest (rejoin before (extend_higher pn higher rest))
  unfolding extend_higher
  upper [] small s few = down_to [] s tt few
  upper (r ∷ rs) small s few = elim (Bool-cases (succ64 r.hi == pn)) [
    | inl meets ↦ rw meets (bridged r rs s (ground (arith, s.under)) few)
    | inr free ↦ rw free (down_to (r ∷ rs) s (ground (arith, s.under), s.behind.1, s.behind.2) few)
  ]

pub place-Result :
    (pn : ℕ) (before rest : List Range)
    → IsPn pn
    → Stands pn before rest
    → length before + length rest ≤ k_max_ack_ranges
    → Result pn before rest (place pn before rest)
unfolding place
place-Result pn [] rest small s few = lower pn [] small (omega arith) rest s few
place-Result pn (higher ∷ before) rest small s few = elim (Bool-cases (higher.lo == succ64 pn)) [
  | inl touches ↦ rw touches (upper pn higher before (ground arith) rest small s (omega arith))
  | inr free ↦ rw free (lower pn (higher ∷ before) small (ground (arith, s.above.0)) rest s few)
]
