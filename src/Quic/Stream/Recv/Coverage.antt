-- ===== src/Quic/Stream/Recv/Coverage.antt =====
-- Which offsets the reassembly holds after bytes were put into it.
use libspaznet.Base.{
  ltb, leb, ◌==◌, Bool-cases, Bytes, length, drop, length-append, length-drop, add64, sub64, ℕ, ◌+◌,
  ◌-◌, ◌^◌, ◌≤◌, ◌<◌, max, ◌≡◌, refl, ◌∙◌, inl, inr, Bool, false, ◌&&◌, ◌||◌, List, [], ◌∷◌, ◌++◌,
  arith,
}
use libspaznet.Quic.Stream.Recv.{
  end_of, absorb, merge, emplace, put_behind, put_after, put_some, put,
}

-- Chunks from `low` on, in the order of their offsets, all below 2 ^ 62.
abbrev pub Sorted : ℕ → List (ℕ × Bytes) → Type 0
Sorted low [] = Unit
Sorted low ((k, c) ∷ rest) = (low ≤ k) × (k + length c < 2 ^ 62) × Sorted k rest

abbrev pub in_chunk : ℕ → Bytes → ℕ → Bool
in_chunk k c q = leb k q && ltb q (k + length c)

abbrev pub covers : List (ℕ × Bytes) → ℕ → Bool
covers [] q = false
covers ((k, c) ∷ rest) q = in_chunk k c q || covers rest q

abbrev pub starts_at : ℕ → List (ℕ × Bytes) → Bool
starts_at off [] = false
starts_at off ((k, c) ∷ rest) = (k == off) || starts_at off rest

Sorted-low : (low low' : ℕ) (cs : List (ℕ × Bytes)) → low' ≤ low → Sorted low cs → Sorted low' cs
Sorted-low low low' [] h s = tt
Sorted-low low low' ((k, c) ∷ rest) h (le, small, s) = (omega arith, small, s)

-- The merged chunk reaches to the further of the two ends.
absorb-end :
    (k : ℕ) (c : Bytes) (n : ℕ) (d : Bytes)
    → n ≤ k + length c
    → k + length c < 2 ^ 62
    → n + length d < 2 ^ 62
    → k + length (absorb k c n d) ≡ max (k + length c) (n + length d)
unfolding absorb
absorb-end k c n d touch small small' = elim (Bool-cases (ltb (end_of k c) (end_of n d))) [
  | inr inner ↦ rw inner (ground arith)
  | inl outer ↦
      let longer : k + length c < n + length d = ground arith in
      let skip : sub64 (length d) (sub64 (end_of n d) (end_of k c)) ≡ k + length c - n =
        omega arith in
      rw (outer, skip)
        (omega
          (arith, length-append c (drop (k + length c - n) d), length-drop (k + length c - n) d))
]

merge-covers :
    (k : ℕ) (c : Bytes) (rest : List (ℕ × Bytes)) (q : ℕ)
    → k + length c < 2 ^ 62
    → Sorted k rest
    → covers (merge k c rest) q ≡ (in_chunk k c q || covers rest q)
unfolding merge
merge-covers k c [] q small s = refl
merge-covers k c ((n, d) ∷ rest) q small (le, small', s) = elim (Bool-cases (leb n (end_of k c))) [
  | inr apart ↦ rw apart refl
  | inl touch ↦
      let meets : n ≤ k + length c = ground arith in
      let far = absorb-end k c n d meets small small' in
      rw touch (
        merge-covers k (absorb k c n d) rest q (omega (arith, far)) (Sorted-low n k rest le s)
        ∙ wider k c n d (absorb k c n d) (covers rest q) q le meets far)
]
  where
    wider :
        (k : ℕ) (c : Bytes) (n : ℕ) (d e : Bytes) (b : Bool) (q : ℕ)
        → k ≤ n
        → n ≤ k + length c
        → k + length e ≡ max (k + length c) (n + length d)
        → (in_chunk k e q || b) ≡ (in_chunk k c q || (in_chunk n d q || b))
    wider k c n d e b q le meets far = ground arith

emplace-covers :
    (off : ℕ) (bytes : Bytes) (rest : List (ℕ × Bytes)) (q : ℕ)
    → off + length bytes < 2 ^ 62
    → Sorted off rest
    → starts_at off rest ≡ false
    → covers (emplace off bytes rest) q ≡ (in_chunk off bytes q || covers rest q)
unfolding emplace
emplace-covers off bytes [] q small s free = refl
emplace-covers off bytes ((n, d) ∷ rest) q small s free = elim (Bool-cases (n == off)) [
  | inl taken ↦ absurd (cc (rw taken at free))
  | inr open_ ↦ rw open_ (merge-covers off bytes ((n, d) ∷ rest) q small s)
]

put_behind-covers :
    (off : ℕ) (bytes : Bytes) (k : ℕ) (c : Bytes) (rest : List (ℕ × Bytes)) (q : ℕ)
    → k ≤ off
    → off + length bytes < 2 ^ 62
    → k + length c < 2 ^ 62
    → Sorted off rest
    → starts_at off rest ≡ false
    → covers (put_behind off bytes k c rest) q
      ≡ (in_chunk off bytes q || (in_chunk k c q || covers rest q))
unfolding put_behind
put_behind-covers off bytes k c rest q le small small' s free =
    elim (Bool-cases (leb off (end_of k c))) [
      | inr apart ↦ rw apart (ground (arith, emplace-covers off bytes rest q small s free))
      | inl touch ↦ rw touch (elim (Bool-cases (leb (add64 off (length bytes)) (end_of k c))) [
        | inl covered ↦ rw covered (ground arith)
        | inr longer ↦
            let meets : off ≤ k + length c = ground arith in
            let more : k + length c < off + length bytes = ground arith in
            let skip : sub64 (end_of k c) off ≡ k + length c - off = omega arith in
            let far : k + length (c ++ drop (k + length c - off) bytes) ≡ off + length bytes =
              omega (
                arith,
                length-append c (drop (k + length c - off) bytes),
                length-drop (k + length c - off) bytes,
              ) in
            rw (longer, skip)
              (merge-covers k (c ++ drop (k + length c - off) bytes) rest q (omega (arith, far))
                  (Sorted-low off k rest le s)
                ∙ ground (arith, far))
      ])
    ]

put_after-covers :
    (off : ℕ) (bytes : Bytes) (k : ℕ) (c : Bytes) (rest : List (ℕ × Bytes)) (q : ℕ)
    → k ≤ off
    → off + length bytes < 2 ^ 62
    → k + length c < 2 ^ 62
    → Sorted k rest
    → starts_at off rest ≡ false
    → covers (put_after off bytes k c rest) q
      ≡ (in_chunk off bytes q || (in_chunk k c q || covers rest q))
unfolding put_after
put_after-covers off bytes k c [] q le small small' s free =
    put_behind-covers off bytes k c [] q le small small' tt free
put_after-covers off bytes k c ((n, d) ∷ rest) q le small small' (up, size, s) free =
    elim (Bool-cases (ltb n off)) [
      | inl further ↦ rw further (
          ground (
            arith,
            put_after-covers off bytes n d rest q (ground arith) small size s
                (later n off rest free),
          ))
      | inr here ↦ rw here (
          put_behind-covers off bytes k c ((n, d) ∷ rest) q le small small' (ground arith, size, s)
            free)
    ]
  where
    later :
        (n off : ℕ) (rest : List (ℕ × Bytes))
        → ((n == off) || starts_at off rest) ≡ false
        → starts_at off rest ≡ false
    later n off rest h = elim (Bool-cases (n == off)) [
      | inl same ↦ absurd (cc (rw same at h))
      | inr other ↦ rw other at h
    ]

pub put_some-covers :
    (off : ℕ) (bytes : Bytes) (chunks : List (ℕ × Bytes)) (q : ℕ)
    → off + length bytes < 2 ^ 62
    → Sorted 0 chunks
    → starts_at off chunks ≡ false
    → covers (put_some off bytes chunks) q ≡ (in_chunk off bytes q || covers chunks q)
unfolding put_some put
put_some-covers off [] chunks q small s free = ground arith
put_some-covers off (b ∷ bytes) [] q small s free =
    emplace-covers off (b ∷ bytes) [] q small tt free
put_some-covers off (b ∷ bytes) ((n, d) ∷ rest) q small (up, size, s) free =
    elim (Bool-cases (ltb n off)) [
      | inl lower ↦ rw lower (
          put_after-covers off (b ∷ bytes) n d rest q (ground arith) small size s
            (ground (arith, free)))
      | inr upper ↦
          rw upper
            (emplace-covers off (b ∷ bytes) ((n, d) ∷ rest) q small (ground arith, size, s) free)
    ]
