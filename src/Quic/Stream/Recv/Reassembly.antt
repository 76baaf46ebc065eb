-- ===== src/Quic/Stream/Recv/Reassembly.antt =====
-- Every chunk of the reassembly holds what the stream has at its offset.
use libspaznet.Base.{
  ltb, leb, ◌==◌, Bool-cases, Bytes, length, drop, add64, sub64, ℕ, ◌+◌, ◌-◌, ◌^◌, ◌≤◌, ◌<◌, ◌≡◌,
  inl, inr, List, [], ◌∷◌, ◌++◌, arith, dec_lt,
}
use libspaznet.Wire.Slices.{drop_all, IsSlice, IsSlice-append, IsSlice-drop}
use libspaznet.Quic.Stream.Recv.{
  end_of, absorb, merge, emplace, put_behind, put_after, put, put_some, trim_put,
}

-- The chunks all stand in the stream `whole` at their offsets.
abbrev pub AllSlices : Bytes → List (ℕ × Bytes) → Type 0
AllSlices whole [] = Unit
AllSlices whole ((k, c) ∷ rest) = IsSlice whole k c × AllSlices whole rest

module _ (whole : Bytes) (short : length whole < 2 ^ 62) where
  end-slice : (k : ℕ) (c : Bytes) → IsSlice whole k c → end_of k c ≡ k + length c
  end-slice k c h = omega (arith, h.inside)

  absorb-IsSlice :
      (k : ℕ) (c : Bytes) (n : ℕ) (d : Bytes)
      → n ≤ k + length c
      → IsSlice whole k c
      → IsSlice whole n d
      → IsSlice whole k (absorb k c n d)
  unfolding absorb
  absorb-IsSlice k c n d touch hc hd = elim (Bool-cases (ltb (end_of k c) (end_of n d))) [
    | inr inner ↦ rw inner hc
    | inl outer ↦
        let longer : k + length c < n + length d =
          ground (arith, end-slice k c hc, end-slice n d hd) in
        let skip : sub64 (length d) (sub64 (end_of n d) (end_of k c)) ≡ k + length c - n =
          omega (arith, end-slice k c hc, end-slice n d hd, hd.inside) in
        let meet : n + (k + length c - n) ≡ k + length c = omega arith in
        rw (outer, skip)
          (IsSlice-append whole k c (drop (k + length c - n) d) hc
            (rw meet at (IsSlice-drop whole n (k + length c - n) d (omega arith) hd)))
  ]

  merge-AllSlices :
      (k : ℕ) (c : Bytes) (rest : List (ℕ × Bytes))
      → IsSlice whole k c
      → AllSlices whole rest
      → AllSlices whole (merge k c rest)
  unfolding merge
  merge-AllSlices k c [] hc h = (hc, tt)
  merge-AllSlices k c ((n, d) ∷ rest) hc (hd, h) = elim (Bool-cases (leb n (end_of k c))) [
    | inl touch ↦ rw touch (
        merge-AllSlices k (absorb k c n d) rest
          (absorb-IsSlice k c n d (ground (arith, end-slice k c hc)) hc hd) h)
    | inr apart ↦ rw apart (hc, (hd, h))
  ]

  emplace-AllSlices :
      (off : ℕ) (bytes : Bytes) (rest : List (ℕ × Bytes))
      → IsSlice whole off bytes
      → AllSlices whole rest
      → AllSlices whole (emplace off bytes rest)
  unfolding emplace
  emplace-AllSlices off bytes [] hb h = (hb, tt)
  emplace-AllSlices off bytes ((n, d) ∷ rest) hb (hd, h) = elim (Bool-cases (n == off)) [
    | inl taken ↦ rw taken (merge-AllSlices n d rest hd h)
    | inr free ↦ rw free (merge-AllSlices off bytes ((n, d) ∷ rest) hb (hd, h))
  ]

  put_behind-AllSlices :
      (off : ℕ) (bytes : Bytes) (k : ℕ) (c : Bytes) (rest : List (ℕ × Bytes))
      → k ≤ off
      → IsSlice whole off bytes
      → IsSlice whole k c
      → AllSlices whole rest
      → AllSlices whole (put_behind off bytes k c rest)
  unfolding put_behind
  put_behind-AllSlices off bytes k c rest le hb hc h = elim (Bool-cases (leb off (end_of k c))) [
    | inr apart ↦ rw apart (hc, emplace-AllSlices off bytes rest hb h)
    | inl touch ↦ rw touch (elim (Bool-cases (leb (add64 off (length bytes)) (end_of k c))) [
      | inl covered ↦ rw covered (hc, h)
      | inr longer ↦
          let touches : off ≤ k + length c = ground (arith, end-slice k c hc) in
          let more : k + length c < off + length bytes =
            ground (arith, end-slice k c hc, end-slice off bytes hb) in
          let skip : sub64 (end_of k c) off ≡ k + length c - off =
            omega (arith, end-slice k c hc, hc.inside) in
          let meet : off + (k + length c - off) ≡ k + length c = omega arith in
          rw (longer, skip)
            (merge-AllSlices k (c ++ drop (k + length c - off) bytes) rest
              (IsSlice-append whole k c (drop (k + length c - off) bytes) hc
                (rw meet at (IsSlice-drop whole off (k + length c - off) bytes (omega arith) hb)))
              h)
    ])
  ]

  put_after-AllSlices :
      (off : ℕ) (bytes : Bytes) (k : ℕ) (c : Bytes) (rest : List (ℕ × Bytes))
      → k ≤ off
      → IsSlice whole off bytes
      → IsSlice whole k c
      → AllSlices whole rest
      → AllSlices whole (put_after off bytes k c rest)
  unfolding put_after
  put_after-AllSlices off bytes k c [] le hb hc h =
      put_behind-AllSlices off bytes k c [] le hb hc tt
  put_after-AllSlices off bytes k c ((n, d) ∷ rest) le hb hc (hd, h) =
      elim (Bool-cases (ltb n off)) [
        | inl further ↦
            rw further (hc, put_after-AllSlices off bytes n d rest (ground arith) hb hd h)
        | inr here ↦ rw here (put_behind-AllSlices off bytes k c ((n, d) ∷ rest) le hb hc (hd, h))
      ]

  put_some-AllSlices :
      (off : ℕ) (bytes : Bytes) (chunks : List (ℕ × Bytes))
      → IsSlice whole off bytes
      → AllSlices whole chunks
      → AllSlices whole (put_some off bytes chunks)
  unfolding put_some put
  put_some-AllSlices off [] chunks hb h = h
  put_some-AllSlices off (b ∷ bytes) [] hb h = emplace-AllSlices off (b ∷ bytes) [] hb tt
  put_some-AllSlices off (b ∷ bytes) ((n, d) ∷ rest) hb (hd, h) = elim (Bool-cases (ltb n off)) [
    | inl lower ↦ rw lower (put_after-AllSlices off (b ∷ bytes) n d rest (ground arith) hb hd h)
    | inr upper ↦ rw upper (emplace-AllSlices off (b ∷ bytes) ((n, d) ∷ rest) hb (hd, h))
  ]

  pub trim_put-AllSlices :
      (cursor off : ℕ) (bytes : Bytes) (chunks : List (ℕ × Bytes))
      → cursor ≤ length whole
      → IsSlice whole off bytes
      → AllSlices whole chunks
      → AllSlices whole (trim_put cursor off bytes chunks)
  unfolding trim_put put_some
  trim_put-AllSlices cursor off bytes chunks small hb h = elim (Bool-cases (ltb off cursor)) [
    | inr fresh ↦ rw fresh (put_some-AllSlices off bytes chunks hb h)
    | inl old ↦
        let late : off < cursor = ground arith in
        let skip : sub64 cursor off ≡ cursor - off = omega arith in
        let meet : off + (cursor - off) ≡ cursor = omega arith in
        rw (old, skip)
          (elim (dec_lt (length bytes) (cursor - off)) [
            | yes over ↦ rw (drop_all (cursor - off) bytes (omega arith)) h
            | no within ↦
                put_some-AllSlices cursor (drop (cursor - off) bytes) chunks
                  (rw meet at (IsSlice-drop whole off (cursor - off) bytes (omega arith) hb)) h
          ])
  ]
