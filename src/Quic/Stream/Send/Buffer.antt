-- ===== src/Quic/Stream/Send/Buffer.antt =====
-- The send buffer against all that the application has written: after `write`, `release` and `compact`
-- it has the written bytes from the base offset on.
use libspaznet.Base.{
  ltb, ◌==◌, if◌then◌else◌, ==_iff, Bool-cases, Bytes, length, drop, length-append, length-drop,
  drop-add, add64, ℕ, zero, suc, ◌+◌, ◌-◌, ◌*◌, ◌^◌, ◌≤◌, ◌<◌, ◌≡◌, refl, sym, ap, ◌∙◌, inl, inr,
  Bool, ◌||◌, List, [], ◌∷◌, ◌++◌, arith,
}
use libspaznet.Quic.Stream.Send.{SendSide, is_closed, write, release, k_compact_threshold, compact}

-- `whole` is all that was written, fewer than 2 ^ 62 bytes; the buffer has its end, from the base offset on.
pub record Represents (whole : Bytes) (s : SendSide) : Type 0 where
  pub short : length whole < 2 ^ 62
  pub stored : length s.buf < 2 ^ 63
  pub live : drop s.buf_head s.buf ≡ drop s.buf_base_offset whole
  pub head : s.buf_head ≤ length s.buf
  pub base : s.buf_base_offset ≤ s.next_offset
  pub next : s.next_offset ≤ s.high_water
  pub high : s.high_water ≡ length whole

drop_append : (n : ℕ) (xs ys : Bytes) → n ≤ length xs → drop n (xs ++ ys) ≡ drop n xs ++ ys
drop_append zero xs ys h = refl
drop_append (suc n) [] ys h = absurd (omega arith)
drop_append (suc n) (x ∷ xs) ys h = drop_append n xs ys (omega arith)

-- `write` on a stream that is not closed appends to what the buffer represents; on a closed one it
-- changes nothing. The bytes written so far and these are fewer than 2 ^ 62, and the buffer with
-- them is shorter than 2 ^ 63.
pub write-Represents :
    (whole bytes : Bytes) (fin : Bool) (s : SendSide)
    → length whole + length bytes < 2 ^ 62
    → length s.buf + length bytes < 2 ^ 63
    → Represents whole s
    → Represents (if is_closed s.state then whole else whole ++ bytes) (write bytes fin s)
unfolding write
write-Represents whole bytes fin s room room' r = elim (Bool-cases (is_closed s.state)) [
  | inl closed ↦ rw closed r
  | inr open_ ↦ rw open_ (record {
    short = omega (arith, length-append whole bytes);
    stored = omega (arith, length-append s.buf bytes);
    live =
        drop_append s.buf_head s.buf bytes r.head
        ∙ ap (λ (xs : Bytes). xs ++ bytes) r.live
        ∙ sym (drop_append s.buf_base_offset whole bytes (omega (arith, r.base, r.next, r.high)));
    head = omega (arith, r.head, length-append s.buf bytes);
    base = r.base;
    next = omega (arith, r.next, r.high);
    high = omega (arith, r.high, length-append whole bytes);
  })
]

-- Ranges that were sent.
abbrev pub AllSent : SendSide → List (ℕ × ℕ) → Type 0
AllSent s [] = Unit
AllSent s ((first, size) ∷ rest) = (first + size ≤ s.next_offset) × AllSent s rest

-- The live bytes and those before them are as many as were written.
live-length :
    (whole : Bytes) (s : SendSide)
    → Represents whole s
    → length s.buf - s.buf_head ≡ length whole - s.buf_base_offset
live-length whole s r =
    sym (length-drop s.buf_head s.buf)
    ∙ ap (length {A = ℕ}) r.live
    ∙ length-drop s.buf_base_offset whole

pub release-Represents :
    (whole : Bytes) (ranges : List (ℕ × ℕ)) (s : SendSide)
    → AllSent s ranges
    → Represents whole s
    → Represents whole (release ranges s)
unfolding release
release-Represents whole [] s sent r = record {
  short = r.short;
  stored = r.stored;
  live = r.live;
  head = r.head;
  base = r.base;
  next = r.next;
  high = r.high;
}
release-Represents whole ((first, size) ∷ rest) s (here, sent) r =
    elim (Bool-cases (first == s.buf_base_offset)) [
      | inr apart ↦ rw apart (record {
        short = r.short;
        stored = r.stored;
        live = r.live;
        head = r.head;
        base = r.base;
        next = r.next;
        high = r.high;
      })
      | inl starts ↦
          let same : first ≡ s.buf_base_offset = (==_iff first s.buf_base_offset).0 starts in
          let base' : add64 s.buf_base_offset size ≡ s.buf_base_offset + size =
            omega (arith, same, here, r.next, r.high, r.short) in
          let head' : add64 s.buf_head size ≡ s.buf_head + size =
            omega (arith, same, here, r.next, r.high, r.short, r.stored, r.head) in
          rw starts (
            release-Represents whole rest
              (record s {
                buf_head = add64 s.buf_head size;
                buf_base_offset = add64 s.buf_base_offset size;
              })
              (AllSent-same rest sent)
              (record {
                short = r.short;
                stored = r.stored;
                live =
                    rw (base', head', drop-add, r.live, ← drop-add s.buf_base_offset size whole)
                      refl;
                head = omega (
                  arith,
                  head',
                  live-length whole s r,
                  same,
                  here,
                  r.next,
                  r.high,
                  r.base,
                  r.head,
                );
                base = omega (arith, base', same, here);
                next = r.next;
                high = r.high;
              }))
    ]
  where
    AllSent-same :
        (rs : List (ℕ × ℕ))
        → AllSent s rs
        → AllSent
            (record s {
              buf_head = add64 s.buf_head size;
              buf_base_offset = add64 s.buf_base_offset size;
            })
            rs
    AllSent-same [] h = tt
    AllSent-same ((a, b) ∷ rs) (h, hs) = (h, AllSent-same rs hs)

pub compact-Represents :
    (whole : Bytes) (s : SendSide) → Represents whole s → Represents whole (compact s)
unfolding compact
compact-Represents whole s r =
    elim (Bool-cases (ltb k_compact_threshold s.buf_head || ltb (length s.buf) (s.buf_head * 2))) [
      | inr small ↦ rw small r
      | inl large ↦ rw large (record {
        short = r.short;
        stored = omega (arith, r.stored, length-drop s.buf_head s.buf);
        live = r.live;
        head = omega arith;
        base = r.base;
        next = r.next;
        high = r.high;
      })
    ]
