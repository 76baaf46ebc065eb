-- ===== src/Quic/Stream/Send/Known.antt =====
-- Which bytes `on_acked` releases, and which it keeps.
use libspaznet.Base.{
  ltb, leb, ◌==◌, if◌then◌else◌, ==_iff, Bool-cases, Bytes, length, drop, add64, ℕ, ◌+◌, ◌*◌, ◌^◌,
  ◌≤◌, ◌<◌, ◌≡◌, refl, sym, ap, ◌∙◌, inl, inr, Bool, true, false, ◌&&◌, ◌||◌, List, [], ◌∷◌, ◌++◌,
  arith,
}
use libspaznet.Quic.Stream.Send.{
  SendSide, before, insert_sorted, sort, release, k_compact_threshold, compact,
  try_advance_send_state_after_ack, on_fin_acked, note_fin_acked, on_acked,
}
use libspaznet.Quic.Stream.Send.Buffer.{Represents, AllSent}
use libspaznet.Quic.Stream.Send.Acked.{sort-AllSent, AllSent-append, on_acked-Represents}

-- Whether offset `j` is one of the `size` from `first` on, and whether it is in one of some ranges.
abbrev pub in_range : ℕ → ℕ → ℕ → Bool
in_range first size j = leb first j && ltb j (first + size)

unfoldable pub in_ranges : List (ℕ × ℕ) → ℕ → Bool
in_ranges [] j = false
in_ranges ((first, size) ∷ rest) j = in_range first size j || in_ranges rest j

-- Whether offset `j` is taken as acknowledged: released from the buffer, or held as a range.
abbrev pub is_acked : SendSide → ℕ → Bool
is_acked s j = ltb j s.buf_base_offset || in_ranges s.acked_ranges j

swap : (a b c : Bool) → (a || (b || c)) ≡ (b || (a || c))
swap true true c = refl
swap true false c = refl
swap false true c = refl
swap false false c = refl

insert_sorted-in_ranges :
    (first size : ℕ) (rs : List (ℕ × ℕ)) (j : ℕ)
    → in_ranges (insert_sorted (first, size) rs) j ≡ (in_range first size j || in_ranges rs j)
unfolding insert_sorted in_ranges
insert_sorted-in_ranges first size [] j = refl
insert_sorted-in_ranges first size ((a, b) ∷ rs) j =
    elim (Bool-cases (before (first, size) (a, b))) [
      | inl front ↦ rw front refl
      | inr behind ↦
          rw (behind, insert_sorted-in_ranges first size rs j)
            (swap (in_range a b j) (in_range first size j) (in_ranges rs j))
    ]

sort-in_ranges : (rs : List (ℕ × ℕ)) (j : ℕ) → in_ranges (sort rs) j ≡ in_ranges rs j
unfolding sort in_ranges
sort-in_ranges [] j = refl
sort-in_ranges ((a, b) ∷ rs) j =
    insert_sorted-in_ranges a b (sort rs) j ∙ rw (sort-in_ranges rs j) refl

in_ranges-append :
    (rs : List (ℕ × ℕ)) (first size j : ℕ)
    → in_ranges (rs ++ (first, size) ∷ []) j ≡ (in_ranges rs j || in_range first size j)
unfolding in_ranges
in_ranges-append [] first size j = or_false (in_range first size j)
  where
    or_false : (b : Bool) → (b || false) ≡ b
    or_false true = refl
    or_false false = refl
in_ranges-append ((a, b) ∷ rs) first size j =
    rw (in_ranges-append rs first size j)
      (assoc (in_range a b j) (in_ranges rs j) (in_range first size j))
  where
    assoc : (a b c : Bool) → (a || (b || c)) ≡ ((a || b) || c)
    assoc true b c = refl
    assoc false b c = refl

-- The range that starts at the base moves from the ranges to what is released.
moved :
    (base size j : ℕ) (rest : Bool)
    → (ltb j (base + size) || rest) ≡ (ltb j base || (in_range base size j || rest))
moved base size j rest = elim (Bool-cases (ltb j (base + size))) [
  | inl low ↦ elim (Bool-cases (ltb j base)) [
    | inl lower ↦ rw (low, lower) refl
    | inr high ↦ (let from : leb base j ≡ true = ground (arith, high) in rw (low, high, from) refl)
  ]
  | inr high ↦
      (let above : ltb j base ≡ false = ground (arith, high) in
        rw (high, above) (no_range (leb base j)))
]
  where
    no_range : (b : Bool) → rest ≡ ((b && false) || rest)
    no_range true = refl
    no_range false = refl

-- `t` is the side that sent the ranges; a release moves none of its offsets.
module _ (t : SendSide) (short : t.next_offset < 2 ^ 62) where
  release-is_acked :
      (ranges : List (ℕ × ℕ)) (s : SendSide) (j : ℕ)
      → AllSent t ranges
      → is_acked (release ranges s) j ≡ (ltb j s.buf_base_offset || in_ranges ranges j)
  unfolding release in_ranges
  release-is_acked [] s j sent = refl
  release-is_acked ((first, size) ∷ rest) s j (here, sent) =
      elim (Bool-cases (first == s.buf_base_offset)) [
        | inr apart ↦ rw apart refl
        | inl starts ↦
            let same : first ≡ s.buf_base_offset = (==_iff first s.buf_base_offset).0 starts in
            let base : add64 s.buf_base_offset size ≡ s.buf_base_offset + size =
              omega (arith, same, here, short) in
            let next = record s {
              buf_head = add64 s.buf_head size;
              buf_base_offset = add64 s.buf_base_offset size;
            } in
            let later : is_acked (release rest next) j
                ≡ (ltb j (s.buf_base_offset + size) || in_ranges rest j) =
              release-is_acked rest next j sent
              ∙ ap (λ (n : ℕ). ltb j n || in_ranges rest j) base in
            rw (starts, release)
              (later ∙ rw same (moved s.buf_base_offset size j (in_ranges rest j)))
      ]

  release-AllSent :
      (ranges : List (ℕ × ℕ)) (s : SendSide)
      → AllSent t ranges
      → AllSent t (release ranges s).acked_ranges
  unfolding release
  release-AllSent [] s sent = tt
  release-AllSent ((first, size) ∷ rest) s (here, sent) =
      elim (Bool-cases (first == s.buf_base_offset)) [
        | inr apart ↦ rw apart (here, sent)
        | inl starts ↦
            rw (starts, release)
              (release-AllSent rest
                (record s {
                  buf_head = add64 s.buf_head size;
                  buf_base_offset = add64 s.buf_base_offset size;
                })
                sent)
      ]

-- What the steps behind the release leave as it is.
record Same (s u : SendSide) : Type 0 where
  base : u.buf_base_offset ≡ s.buf_base_offset
  acked : u.acked_ranges ≡ s.acked_ranges
  next : u.next_offset ≡ s.next_offset

compact-Same : (s : SendSide) → Same s (compact s)
unfolding compact
compact-Same s = pick (ltb k_compact_threshold s.buf_head || ltb (length s.buf) (s.buf_head * 2))
  where
    pick :
        (b : Bool)
        → Same s (if b then record s { buf = drop s.buf_head s.buf; buf_head = 0 } else s)
    pick true = record { base = refl; acked = refl; next = refl }
    pick false = record { base = refl; acked = refl; next = refl }

on_fin_acked-Same : (s : SendSide) → Same s (on_fin_acked s)
unfolding on_fin_acked try_advance_send_state_after_ack
on_fin_acked-Same s = pick s.fin_sent
  where
    pick :
        (b : Bool)
        → Same s (if b then try_advance_send_state_after_ack (record s { fin_acked = true }) else s)
    pick true = record { base = refl; acked = refl; next = refl }
    pick false = record { base = refl; acked = refl; next = refl }

release-next :
    (ranges : List (ℕ × ℕ)) (s : SendSide) → (release ranges s).next_offset ≡ s.next_offset
unfolding release
release-next [] s = refl
release-next ((first, size) ∷ rest) s = elim (Bool-cases (first == s.buf_base_offset)) [
  | inr apart ↦ rw apart refl
  | inl starts ↦
      rw (starts, release)
        (release-next rest (record s {
          buf_head = add64 s.buf_head size;
          buf_base_offset = add64 s.buf_base_offset size;
        }))
]

AllSent-below :
    (s u : SendSide) (rs : List (ℕ × ℕ))
    → u.next_offset ≡ s.next_offset
    → AllSent s rs
    → AllSent u rs
AllSent-below s u [] e h = tt
AllSent-below s u ((a, b) ∷ rs) e (h, hs) = (omega (arith, e), AllSent-below s u rs e hs)

-- `u` takes over the ranges and the base of `v`, which are good.
Same-Keeps :
    (s v u : SendSide) (j : ℕ) (known : Bool)
    → Same v u
    → v.next_offset ≡ s.next_offset
    → AllSent s v.acked_ranges
    → is_acked v j ≡ known
    → AllSent u u.acked_ranges × (is_acked u j ≡ known)
Same-Keeps s v u j known same next sent e = (
  rw same.acked (AllSent-below s u v.acked_ranges (same.next ∙ next) sent),
  rw (same.base, same.acked) e,
)

known_after : (a b c : Bool) → (a || (b || c)) ≡ ((a || b) || c)
known_after true b c = refl
known_after false b c = refl

on_acked-known :
    (whole : Bytes) (offset size j : ℕ) (s : SendSide)
    → offset + size ≤ s.next_offset
    → AllSent s s.acked_ranges
    → Represents whole s
    → AllSent (on_acked offset size s) (on_acked offset size s).acked_ranges
      × (is_acked (on_acked offset size s) j ≡ (is_acked s j || in_range offset size j))
unfolding on_acked try_advance_send_state_after_ack note_fin_acked
on_acked-known whole offset size j s here sent r = elim (Bool-cases (size == 0)) [
  | inl none_new ↦
      let same = on_fin_acked-Same s in
      let nothing_new : in_range offset size j ≡ false = empty ((==_iff size 0).0 none_new) in
      rw none_new (
        Same-Keeps s s (on_fin_acked s) j (is_acked s j || in_range offset size j) same refl sent
          (rw nothing_new (sym (or_false (is_acked s j)))))
  | inr some_new ↦
      let all : List (ℕ × ℕ) = s.acked_ranges ++ (offset, size) ∷ [] in
      let v = release (sort all) s in
      let sent_all : AllSent s (sort all) =
        sort-AllSent s all (AllSent-append s offset size s.acked_ranges here sent) in
      let short : s.next_offset < 2 ^ 62 = omega (arith, r.next, r.high, r.short) in
      let known : is_acked v j ≡ (is_acked s j || in_range offset size j) =
        release-is_acked s short (sort all) s j sent_all
        ∙ ap (λ (b : Bool). ltb j s.buf_base_offset || b)
            (sort-in_ranges all j ∙ in_ranges-append s.acked_ranges offset size j)
        ∙ known_after (ltb j s.buf_base_offset) (in_ranges s.acked_ranges j)
            (in_range offset size j) in
      let same = compact-Same v in
      let kept =
        Same-Keeps s v (compact v) j (is_acked s j || in_range offset size j) same
          (release-next (sort all) s) (release-AllSent s short (sort all) s sent_all) known in
      rw some_new (
        AllSent-below (compact v)
            (try_advance_send_state_after_ack (note_fin_acked (add64 offset size) (compact v)))
            (compact v).acked_ranges refl kept.0,
        kept.1,
      )
]
  where
    or_false : (b : Bool) → (b || false) ≡ b
    or_false true = refl
    or_false false = refl

    empty : size ≡ 0 → in_range offset size j ≡ false
    empty e = ground arith

-- An acknowledgement of bytes that were sent, in any order with others of such bytes, repeated or
-- overlapping: an offset counts as acknowledged afterwards, released or held as a range, exactly
-- where it did before or is one of those in the acknowledgement, so that no other byte is given up
-- and no acknowledgement is forgotten; and the buffer has exactly the written bytes from its base
-- offset on, compacted or not, so that only the bytes before it, acknowledged all, were released. The
-- ranges that are held are again of bytes that were sent.
pub on_acked-Keeps :
    (whole : Bytes) (offset size j : ℕ) (s : SendSide)
    → offset + size ≤ s.next_offset
    → AllSent s s.acked_ranges
    → Represents whole s
    → Represents whole (on_acked offset size s)
      × AllSent (on_acked offset size s) (on_acked offset size s).acked_ranges
      × (is_acked (on_acked offset size s) j ≡ (is_acked s j || in_range offset size j))
on_acked-Keeps whole offset size j s here sent r =
    let (ranges, known) = on_acked-known whole offset size j s here sent r in
    (on_acked-Represents whole offset size s here sent r, ranges, known)
