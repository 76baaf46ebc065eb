-- ===== src/Utils/Text/Trim.antt =====
-- What `trim_ows` leaves.
use libspaznet.Base.{
  ltb, ◌==◌, ==_iff, Bool-cases, Bytes, length, get_or, take, drop, All, length-take, length-drop,
  take-append-drop, get_or-drop, ℕ, zero, suc, ◌+◌, ◌-◌, ◌≤◌, ◌<◌, ◌≡◌, refl, sym, ◌∙◌, inl, inr,
  true, false, [], ◌∷◌, ◌++◌, arith,
}
use libspaznet.Utils.Text.{skip_ows, end_ows, trim_ows, is_ows}

abbrev pub IsBlank : Bytes → Type 0
IsBlank s = All (λ c. is_ows c ≡ true) s

skip-IsBlank : (s : Bytes) → IsBlank (take (skip_ows s) s)
unfolding skip_ows
skip-IsBlank [] = tt
skip-IsBlank (c ∷ cs) = elim (Bool-cases (is_ows c)) [
  | inl e ↦ rw e (e, skip-IsBlank cs)
  | inr e ↦ rw e tt
]

-- The first byte that is left.
skip_stops : (s : Bytes) → skip_ows s < length s → is_ows (get_or s (skip_ows s) 0) ≡ false
unfolding skip_ows
skip_stops [] h = absurd (omega arith)
skip_stops (c ∷ cs) h = elim (Bool-cases (is_ows c)) [
  | inl e ↦ rw e (skip_stops cs (omega (arith, rw e at h)))
  | inr e ↦ rw e e
]

le-skip : (s : Bytes) → skip_ows s ≤ length s
unfolding skip_ows
le-skip [] = omega arith
le-skip (c ∷ cs) = ground (arith, le-skip cs)

-- Where `end` stops: within bounds, only blanks above it, and none at it.
record Ends (s : Bytes) (start e end : ℕ) : Type 0 where
  below : end ≤ e
  above : start ≤ end
  blank : (i : ℕ) → end ≤ i → i < e → is_ows (get_or s i 0) ≡ true
  stops : start < end → is_ows (get_or s (end - 1) 0) ≡ false

end-Ends : (s : Bytes) (start e : ℕ) → start ≤ e → Ends s start e (end_ows s start e)
unfolding end_ows
end-Ends s start zero h = record {
  below = omega arith;
  above = h;
  blank = λ i lo hi. absurd (omega arith);
  stops = λ lt. absurd (omega arith);
}
end-Ends s start (suc e) h = elim (Bool-cases (ltb start (suc e))) [
  | inr n ↦ rw n (record {
    below = omega arith;
    above = h;
    blank = λ i lo hi. absurd (omega arith);
    stops = λ lt. absurd (ground arith);
  })
  | inl more ↦ rw more (elim (Bool-cases (is_ows (get_or s e 0))) [
    | inr n ↦ rw n (record {
      below = omega arith;
      above = h;
      blank = λ i lo hi. absurd (omega arith);
      stops = λ lt. (let same : suc e - 1 ≡ e = omega arith in rw same n);
    })
    | inl y ↦
        let ih = end-Ends s start e (ground arith) in
        rw y (record {
          below = omega (arith, ih.below);
          above = ih.above;
          blank = λ i lo hi. elim (Bool-cases (i == e)) [
            | inl same ↦ rw ((==_iff i e).0 same) y
            | inr other ↦ ih.blank i lo (ground arith)
          ];
          stops = ih.stops;
        })
  ])
]

All-get : (P : ℕ → Type 0) (s : Bytes) → ((i : ℕ) → i < length s → P (get_or s i 0)) → All P s
All-get P [] h = tt
All-get P (c ∷ cs) h = (h 0 (omega arith), All-get P cs λ i lt. h (suc i) (omega arith))

get_or-take : (n i : ℕ) (s : Bytes) → i < n → get_or (take n s) i 0 ≡ get_or s i 0
get_or-take zero i s h = absurd (omega arith)
get_or-take (suc n) i [] h = refl
get_or-take (suc n) zero (c ∷ cs) h = refl
get_or-take (suc n) (suc i) (c ∷ cs) h = get_or-take n i cs (omega arith)

-- `t` is `s` without the blanks at its ends, and has none at its own.
pub record Trims (s t : Bytes) : Type 0 where
  pub front : Bytes
  pub back : Bytes
  pub whole : s ≡ front ++ (t ++ back)
  pub blank_front : IsBlank front
  pub blank_back : IsBlank back
  pub starts : 0 < length t → is_ows (get_or t 0 0) ≡ false
  pub stops : 0 < length t → is_ows (get_or t (length t - 1) 0) ≡ false

-- `trim_ows` cuts a run of blanks (space or tab) off either end and nothing else: the text is the
-- front, the result and the back, and a result that is not empty starts and stops with a byte that
-- is no blank.
pub trim_ows-Trims : (s : Bytes) → Trims s (trim_ows s)
unfolding trim_ows
trim_ows-Trims s =
    let start = skip_ows s in
    let end = end_ows s start (length s) in
    let ends : Ends s start (length s) end = end-Ends s start (length s) (le-skip s) in
    let n = end - start in
    let t = take n (drop start s) in
    let size : length t ≡ n =
      omega (arith, length-take n (drop start s), length-drop start s, ends.below, ends.above) in
    let at : (i : ℕ) → i < n → get_or t i 0 ≡ get_or s (start + i) 0 =
      λ i lt. get_or-take n i (drop start s) lt ∙ get_or-drop start i s 0 in
    record {
      front = take start s;
      back = drop n (drop start s);
      whole = sym (rw (take-append-drop n (drop start s)) (take-append-drop start s));
      blank_front = skip-IsBlank s;
      blank_back =
          All-get (λ c. is_ows c ≡ true) (drop n (drop start s))
            λ i lt.
              rw (get_or-drop n i (drop start s) 0, get_or-drop start (n + i) s 0)
                (ends.blank (start + (n + i)) (omega (arith, ends.above))
                  (omega (arith, lt, length-drop n (drop start s), length-drop start s)));
      starts = λ some_byte. rw (at 0 (omega arith)) (
          let e : start + 0 ≡ start = omega arith in
          rw e (skip_stops s (omega (arith, ends.below))));
      stops = λ some_byte. rw (at (length t - 1) (omega arith)) (
          let e : start + (length t - 1) ≡ end - 1 = omega (arith, ends.above) in
          rw e (ends.stops (omega arith)));
    }
