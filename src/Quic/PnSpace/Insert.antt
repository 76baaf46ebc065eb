-- ===== src/Quic/PnSpace/Insert.antt =====
-- What `on_received` makes of a packet number space.
use libspaznet.Base.{
  ◌==◌, ==_iff, Bool-cases, Option-cases, length, length-take, ℕ, ◌≤◌, ◌<◌, ◌≡◌, refl, ap, ◌⊎◌, inl,
  inr, Bool, true, false, ◌||◌, List, [], arith,
}
use libspaznet.Quic.PnSpace.{
  Range, PnSpace, k_max_ack_ranges, walk, receive, on_received, rejoin, place,
}
use libspaznet.Quic.PnSpace.Ranges.{
  IsPn, Descending, ceiling, covers, Descending-take, covers-rejoin, length-rejoin, covers-of_take,
  covers-take,
}
use libspaznet.Quic.PnSpace.Receive.{walk-covers, Result, walk-Stands, place-Result}

-- The state that all operations keep: the ranges are descending and apart, at most 32 of them.
abbrev pub IsValid : PnSpace → Type 0
IsValid s = Descending ceiling s.ranges × (length s.ranges ≤ k_max_ack_ranges)

-- The two sides of the iterator, taken together, are the ranges.
joined :
    (pn : ℕ) (before rest rs result : List Range)
    → rejoin before rest ≡ rs
    → Result pn before rest result
    → Result pn [] rs result
joined pn before rest rs result e r = record {
  full = r.full;
  placed = record {
    ordered = r.placed.ordered;
    held =
        λ q. ground (arith, r.placed.held q, covers-rejoin before rest q, ap (λ x. covers x q) e);
    counted = omega (arith, r.placed.counted, length-rejoin before rest, ap length e);
  };
  bounded = r.bounded;
}

-- Either the number is held already and nothing changes, or the number is put in its place.
pub received :
    (pn : ℕ) (rs : List Range)
    → IsPn pn
    → Descending ceiling rs
    → length rs ≤ k_max_ack_ranges
    → (receive pn rs ≡ rs × (covers rs pn ≡ true)) ⊎ Result pn [] rs (receive pn rs)
unfolding receive rejoin
received pn rs small down few = elim (Option-cases (walk pn [] rs)) [
  | inl e ↦ inl (rw (e, receive) refl, walk-covers pn [] rs e)
  | inr ((before, rest), e) ↦
      let (stands, same) = walk-Stands pn [] rs before rest (omega arith) down e in
      inr (
        rw (e, receive)
          (joined pn before rest rs (place pn before rest) same (
            place-Result pn before rest small stands
              (omega (arith, length-rejoin before rest, ap length same)))))
]

-- `on_received` of a packet number below 2 ^ 62 keeps the ranges in descending order, with a
-- number missing between neighbours, and at most 32 of them.
pub on_received-IsValid :
    (pn : ℕ) (ack_eliciting : Bool) (s : PnSpace)
    → IsPn pn
    → IsValid s
    → IsValid (on_received pn ack_eliciting s)
unfolding on_received
on_received-IsValid pn ack_eliciting s small (down, few) =
    elim (received pn s.ranges small down few) [
      | inl (same, held) ↦ rw same (down, few)
      | inr r ↦ elim r.bounded [
        | inl (all, few') ↦ rw all (r.placed.ordered, few')
        | inr (cut, more) ↦ rw cut (
          Descending-take k_max_ack_ranges ceiling r.full r.placed.ordered,
          omega (arith, length-take k_max_ack_ranges r.full),
        )
      ]
    ]

held_already :
    (pn : ℕ) (rs : List Range) (q : ℕ)
    → covers rs pn ≡ true
    → covers rs q ≡ ((q == pn) || covers rs q)
held_already pn rs q held = elim (Bool-cases (q == pn)) [
  | inl same ↦ rw same (rw ((==_iff q pn).0 same) held)
  | inr other ↦ rw other refl
]

-- With fewer than 32 ranges in order, `on_received` adds its packet number, below 2 ^ 62, to the
-- numbers held, and changes nothing else about them.
pub covers-on_received :
    (pn : ℕ) (ack_eliciting : Bool) (s : PnSpace) (q : ℕ)
    → IsPn pn
    → IsValid s
    → length s.ranges < k_max_ack_ranges
    → covers (on_received pn ack_eliciting s).ranges q ≡ ((q == pn) || covers s.ranges q)
unfolding on_received
covers-on_received pn ack_eliciting s q small (down, few) room =
    elim (received pn s.ranges small down few) [
      | inl (same, held) ↦ rw same (held_already pn s.ranges q held)
      | inr r ↦ elim r.bounded [
        | inl (all, few') ↦ rw all (r.placed.held q)
        | inr (cut, more) ↦ absurd (omega (arith, r.placed.counted))
      ]
    ]

sorted_out :
    (pn : ℕ) (rs result : List Range) (q : ℕ)
    → Result pn [] rs result
    → (covers result q ≡ true → ((q == pn) || covers rs q) ≡ true)
      × (((q == pn) || covers rs q) ≡ true
          → covers result q ≡ false
          → (p : ℕ) → covers result p ≡ true
          → q < p)
sorted_out pn rs result q r = elim r.bounded [
  | inl (all, few) ↦
      rw all (λ h. rw (← r.placed.held q) h, λ h gone p k. absurd (cc (r.placed.held q, h, gone)))
  | inr (cut, more) ↦ rw cut (
    λ h. rw (← r.placed.held q) (covers-of_take k_max_ack_ranges r.full q h),
    λ h gone p k.
        elim (covers-take k_max_ack_ranges ceiling r.full q r.placed.ordered
          (rw (r.placed.held q) h)) [ inl kept ↦ absurd (cc (kept, gone)) | inr below ↦ below p k ],
  )
]

-- On ranges in order, 32 or fewer, `on_received` of a packet number below 2 ^ 62 makes it hold no
-- number that was not held or received.
pub covers-of_on_received :
    (pn : ℕ) (ack_eliciting : Bool) (s : PnSpace) (q : ℕ)
    → IsPn pn
    → IsValid s
    → covers (on_received pn ack_eliciting s).ranges q ≡ true
    → ((q == pn) || covers s.ranges q) ≡ true
unfolding on_received
covers-of_on_received pn ack_eliciting s q small (down, few) h =
    elim (received pn s.ranges small down few) [
      | inl (same, held) ↦ rw (← held_already pn s.ranges q held) (rw same at h)
      | inr r ↦ (sorted_out pn s.ranges (receive pn s.ranges) q r).0 h
    ]

-- A number that `on_received` drops, to keep at most 32 ranges, is below all the numbers that it
-- keeps, where the ranges were in order and the packet number is below 2 ^ 62.
pub on_received-drops_lowest :
    (pn : ℕ) (ack_eliciting : Bool) (s : PnSpace) (q p : ℕ)
    → IsPn pn
    → IsValid s
    → ((q == pn) || covers s.ranges q) ≡ true
    → covers (on_received pn ack_eliciting s).ranges q ≡ false
    → covers (on_received pn ack_eliciting s).ranges p ≡ true
    → q < p
unfolding on_received
on_received-drops_lowest pn ack_eliciting s q p small (down, few) was gone kept =
    elim (received pn s.ranges small down few) [
      | inl (same, held) ↦ absurd (cc (held_already pn s.ranges q held, was, rw same at gone))
      | inr r ↦ (sorted_out pn s.ranges (receive pn s.ranges) q r).1 was gone p kept
    ]
