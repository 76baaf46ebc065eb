-- ===== src/Codec/Huffman/Paths.antt =====
-- The decoder, seen as one walk over the bits of the input, and what the tree of the code looks like
-- along each code.
use libspaznet.Base.{
  ltb, leb, ◌==◌, ==_iff, Bool-cases, Option-cases, Bytes, length, ℕ, zero, suc, ◌+◌, ◌/◌, ◌%◌, ◌^◌,
  ◌≤◌, ◌<◌, ◌≡◌, refl, sym, ◌∙◌, inl, inr, Bool, true, false, ◌&&◌, Option, none, some, List, [],
  ◌∷◌, ◌++◌, arith,
}
use libspaznet.Codec.Huffman.Bits.{bits, ones, all_bits}
use libspaznet.Codec.Huffman.Table.{table}
use libspaznet.Codec.Huffman.{
  Nodes, Walk, code_of, bits_of, step, symbol_at, arrive, take_bit, take_bits, take_all, along_ones,
  tree, insert_all, insert, change,
}

abbrev pub walk : Nodes → List ℕ → Walk → Option Walk
walk t [] w = some w
walk t (bit ∷ rest) w = elim (take_bit t bit w) [ none ↦ none | some w' ↦ walk t rest w' ]

pub walk-append :
    (t : Nodes) (xs ys : List ℕ) (w w' : Walk)
    → walk t xs w ≡ some w'
    → walk t (xs ++ ys) w ≡ walk t ys w'
walk-append t [] ys w w' e = let same : w ≡ w' = cc e in rw same refl
walk-append t (x ∷ xs) ys w w' e = elim (Option-cases (take_bit t x w)) [
  | inl failed ↦ absurd (cc (rw (failed, walk) at e))
  | inr (v, found) ↦ rw (found, walk) (walk-append t xs ys v w' (rw (found, walk) at e))
]

take_bits-walk : (t : Nodes) (b j : ℕ) (w : Walk) → take_bits t b j w ≡ walk t (bits j b) w
unfolding take_bits
take_bits-walk t b zero w = refl
take_bits-walk t b (suc j) w = elim (Option-cases (take_bit t (b / 2 ^ j % 2) w)) [
  | inl failed ↦ rw (failed, take_bits, walk) refl
  | inr (v, found) ↦ rw (found, take_bits, walk) (take_bits-walk t b j v)
]

walk_failed :
    (t : Nodes) (xs ys : List ℕ) (w : Walk) → walk t xs w ≡ none → walk t (xs ++ ys) w ≡ none
walk_failed t [] ys w e = cc e
walk_failed t (x ∷ xs) ys w e = elim (Option-cases (take_bit t x w)) [
  | inl failed ↦ rw (failed, walk) refl
  | inr (v, found) ↦ rw (found, walk) (walk_failed t xs ys v (rw (found, walk) at e))
]

pub take_all-walk : (t : Nodes) (bs : Bytes) (w : Walk) → take_all t bs w ≡ walk t (all_bits bs) w
unfolding take_all
take_all-walk t [] w = refl
take_all-walk t (b ∷ rest) w = elim (Option-cases (take_bits t b 8 w)) [
  | inl failed ↦
      rw (failed, take_all)
        (sym (walk_failed t (bits 8 b) (all_bits rest) w (sym (take_bits-walk t b 8 w) ∙ failed)))
  | inr (v, found) ↦
      rw (found, take_all)
        (take_all-walk t rest v
          ∙ sym
              (walk-append t (bits 8 b) (all_bits rest) w v (sym (take_bits-walk t b 8 w) ∙ found)))
]

-- Whether `code`, from `node` on, leads to the leaf of `sym` and past no other.
abbrev pub leads : Nodes → List ℕ → ℕ → ℕ → Bool
leads t [] node sym = false
leads t (bit ∷ rest) node sym = elim (step t node bit) [
  | none ↦ false
  | some next ↦ elim (symbol_at t next) [
    | none ↦ leads t rest next sym
    | some s ↦ elim rest [ [] ↦ s == sym | _ ∷ _ ↦ false ]
  ]
]

abbrev pub all_below : ℕ → (ℕ → Bool) → Bool
all_below zero p = true
all_below (suc n) p = p n && all_below n p

all_below-lt : (n : ℕ) (p : ℕ → Bool) (i : ℕ) → all_below n p ≡ true → i < n → p i ≡ true
all_below-lt zero p i h lt = absurd (omega arith)
all_below-lt (suc n) p i h lt = elim (Bool-cases (i == n)) [
  | inl e ↦ rw ((==_iff i n).0 e) (ground (arith, h))
  | inr e ↦ all_below-lt n p i (ground (arith, h)) (ground arith)
]

-- Every byte's code leads to its leaf, in the tree that the constructor builds.
codes_lead : all_below 256 (λ s. leads tree (bits (bits_of s) (code_of s)) 0 s) ≡ true
unfolding tree insert_all insert change table
codes_lead = refl

pub code_leads : (s : ℕ) → s < 256 → leads tree (bits (bits_of s) (code_of s)) 0 s ≡ true
code_leads s h =
    all_below-lt 256 (λ s. leads tree (bits (bits_of s) (code_of s)) 0 s) s codes_lead h

-- No code is longer than 30 bits or shorter than 5, and each fits its length.
sized :
    all_below 256
      (λ s. leb 5 (bits_of s) && (leb (bits_of s) 30 && ltb (code_of s) (2 ^ bits_of s)))
    ≡ true
unfolding table
sized = refl

pub code_sized :
    (s : ℕ) → s < 256 → (5 ≤ bits_of s) × (bits_of s ≤ 30) × (code_of s < 2 ^ bits_of s)
code_sized s h =
    let e =
      all_below-lt 256
        (λ s. leb 5 (bits_of s) && (leb (bits_of s) 30 && ltb (code_of s) (2 ^ bits_of s))) s sized
        h in
    ground arith

-- A walk along the code of a byte puts out the byte and is at the root again.
abbrev pub emitted : Walk → ℕ → ℕ → Walk
emitted w n s = record {
  node = 0;
  bit_count = w.bit_count + n;
  pad_start_node = 0;
  pad_start_bit = w.bit_count + n;
  out = w.out ++ s ∷ [];
}

-- One bit to a node that is a leaf, or none.
take_bit-at :
    (t : Nodes) (bit next : ℕ) (w : Walk)
    → step t w.node bit ≡ some next
    → take_bit t bit w ≡ arrive next (symbol_at t next) w
unfolding take_bit
take_bit-at t bit next w e = rw (e, take_bit) refl

pub walk-leads :
    (t : Nodes) (xs : List ℕ) (w : Walk) (s : ℕ)
    → s < 256
    → leads t xs w.node s ≡ true
    → walk t xs w ≡ some (emitted w (length xs) s)
unfolding arrive
walk-leads t [] w s h e = cc e
walk-leads t (bit ∷ rest) w s h e = elim (Option-cases (step t w.node bit)) [
  | inl failed ↦ absurd (cc (rw (failed, leads) at e))
  | inr (next, found) ↦ elim (Option-cases (symbol_at t next)) [
    | inl inner ↦
        let there : walk t rest (record w { node = next; bit_count = w.bit_count + 1 })
            ≡ some (emitted w (suc (length rest)) s) =
          walk-leads t rest (record w { node = next; bit_count = w.bit_count + 1 }) s h
            (rw (found, inner, leads) at e)
          ∙ (let n : w.bit_count + 1 + length rest ≡ w.bit_count + suc (length rest) =
                omega arith in
              rw n refl) in
        rw (take_bit-at t bit next w found, inner, walk) there
    | inr (sym', leaf) ↦
        let (last, same) : (rest ≡ []) × (sym' ≡ s) =
          at_leaf rest sym' (rw (found, leaf, leads) at e) in
        let small : sym' % 256 ≡ s = omega arith in
        let other : (sym' == 256) ≡ false = ground arith in
        rw (take_bit-at t bit next w found, leaf, other, last, small, walk) refl
  ]
]
  where
    at_leaf :
        (rest : List ℕ) (sym' : ℕ)
        → elim rest as (λ _. Bool) [ [] ↦ sym' == s | _ ∷ _ ↦ false ] ≡ true
        → (rest ≡ []) × (sym' ≡ s)
    at_leaf [] sym' e = (refl, (==_iff sym' s).0 e)
    at_leaf (x ∷ xs) sym' e = cc e

-- Bits 1 that reach no leaf.
abbrev pub quiet : Nodes → ℕ → ℕ → Bool
quiet t zero node = true
quiet t (suc n) node = elim (step t node 1) [
  | none ↦ false
  | some next ↦ elim (symbol_at t next) [ none ↦ quiet t n next | some s ↦ false ]
]

seven_quiet : all_below 8 (λ n. quiet tree n 0) ≡ true
unfolding tree insert_all insert change table
seven_quiet = refl

pub padding_quiet : (n : ℕ) → n < 8 → quiet tree n 0 ≡ true
padding_quiet n h = all_below-lt 8 (λ n. quiet tree n 0) n seven_quiet h

pub walk-quiet :
    (t : Nodes) (n : ℕ) (w : Walk)
    → quiet t n w.node ≡ true
    → (end : ℕ) × (walk t (ones n) w ≡ some (record w { node = end; bit_count = w.bit_count + n }))
      × (along_ones t n w.node ≡ some end)
unfolding arrive along_ones
walk-quiet t zero w e =
    (w.node, (let n : w.bit_count + 0 ≡ w.bit_count = omega arith in rw n refl), refl)
walk-quiet t (suc n) w e = elim (Option-cases (step t w.node 1)) [
  | inl failed ↦ absurd (cc (rw (failed, quiet) at e))
  | inr (next, found) ↦ elim (Option-cases (symbol_at t next)) [
    | inr (s, leaf) ↦ absurd (cc (rw (found, leaf, quiet) at e))
    | inl inner ↦
        let (end, there, along) =
          walk-quiet t n (record w { node = next; bit_count = w.bit_count + 1 })
            (rw (found, inner, quiet) at e) in
        (
          end,
          rw (take_bit-at t 1 next w found, inner, walk)
              (there
                ∙ (let m : w.bit_count + 1 + n ≡ w.bit_count + suc n = omega arith in rw m refl)),
          rw (found, along_ones) along,
        )
  ]
]
