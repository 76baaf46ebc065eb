-- ===== src/Quic/Stream/Send/Pull.antt =====
-- What `pull_send` puts on the wire.
use libspaznet.Base.{
  leb, ◌==◌, if◌then◌else◌, ==_iff, Bool-cases, Bytes, length, take, drop, length-take, length-drop,
  drop-add, add64, sub64, ℕ, ◌+◌, ◌-◌, ◌^◌, ◌≤◌, ◌<◌, min, max, ◌≡◌, refl, sym, ap, ◌∙◌, inl, inr,
  Bool, true, false, not, ◌&&◌, ◌||◌, Option, none, some, List, [], ◌∷◌, arith,
}
use libspaznet.Wire.Reader.{slice}
use libspaznet.Quic.Stream.Send.{
  SendSide, Pulled, nothing, at_offset, send_fin, retransmit, fin_only, send_fresh, fresh_size,
  pull_fresh, pull_from, pull_send,
}
use libspaznet.Quic.Stream.Send.Buffer.{Represents}

-- Lost ranges that are still in the buffer and were sent.
abbrev pub InFlight : SendSide → List (ℕ × ℕ) → Type 0
InFlight s [] = Unit
InFlight s ((first, size) ∷ rest) =
    (s.buf_base_offset ≤ first) × (first + size ≤ s.next_offset) × InFlight s rest

-- `size` bytes from `offset` on were written, and `bytes` are just these; a FIN comes with the last
-- of them.
pub record Shows (whole : Bytes) (offset size : ℕ) (bytes : Bytes) (fin : Bool) : Type 0 where
  pub inside : offset + size ≤ length whole
  pub same : bytes ≡ slice whole offset size
  pub counted : length bytes ≡ size
  pub last : fin ≡ true → offset + size ≡ length whole

-- What a pull answers; without an offset it is nothing.
abbrev pub ShowsAt : Bytes → Option ℕ → ℕ → Bytes → Bool → Type 0
ShowsAt whole none size bytes fin = (size ≡ 0) × (bytes ≡ []) × (fin ≡ false)
ShowsAt whole (some offset) size bytes fin = Shows whole offset size bytes fin

abbrev pub Pulls : Bytes → Pulled → Type 0
Pulls whole p = ShowsAt whole p.offset_out p.taken p.data_out p.fin_out

at_offset-slice :
    (whole : Bytes) (offset size : ℕ) (s : SendSide)
    → s.buf_base_offset ≤ offset
    → offset ≤ s.next_offset
    → Represents whole s
    → at_offset s offset size ≡ slice whole offset size
unfolding at_offset
at_offset-slice whole offset size s low high r =
    let index : add64 s.buf_head (sub64 offset s.buf_base_offset)
        ≡ s.buf_head + (offset - s.buf_base_offset) =
      omega (arith, r.head, r.stored, r.next, r.high, r.short) in
    let back : s.buf_base_offset + (offset - s.buf_base_offset) ≡ offset = omega arith in
    rw index (
      ap (take size) (
        drop-add s.buf_head (offset - s.buf_base_offset) s.buf
        ∙ ap (drop (offset - s.buf_base_offset)) r.live
        ∙ sym (drop-add s.buf_base_offset (offset - s.buf_base_offset) whole)
        ∙ ap (λ n. drop n whole) back))

-- The bytes of the buffer at an offset of the stream are as many as were asked for.
at_offset-Shows :
    (whole : Bytes) (offset size : ℕ) (fin : Bool) (s : SendSide)
    → s.buf_base_offset ≤ offset
    → offset + size ≤ s.high_water
    → offset ≤ s.next_offset
    → (fin ≡ true → add64 offset size ≡ s.high_water)
    → Represents whole s
    → Shows whole offset size (at_offset s offset size) fin
at_offset-Shows whole offset size fin s low inside sent last r =
    let same = at_offset-slice whole offset size s low sent r in
    record {
      inside = omega (arith, inside, r.high);
      same = same;
      counted = rw same (
          omega (
            arith,
            length-take size (drop offset whole),
            length-drop offset whole,
            inside,
            r.high,
          ));
      last = λ e. omega (arith, last e, inside, r.high, r.short);
    }

fin_only-Pulls : (whole : Bytes) (s : SendSide) → Represents whole s → Pulls whole (fin_only s).1
unfolding fin_only
fin_only-Pulls whole s r =
    elim (Bool-cases ((s.fin_queued && not s.fin_sent) && s.next_offset == s.high_water)) [
      | inl due ↦ rw due (record {
        inside = omega (arith, r.next, r.high);
        same = refl;
        counted = refl;
        last = λ e. omega (arith, at_end s.fin_queued s.fin_sent due, r.high);
      })
      | inr not_due ↦ rw not_due (refl, refl, refl)
    ]
  where
    at_end :
        (a b : Bool)
        → ((a && not b) && s.next_offset == s.high_water) ≡ true
        → s.next_offset ≡ s.high_water
    at_end true false e = (==_iff s.next_offset s.high_water).0 e
    at_end true true e = absurd (cc e)
    at_end false b e = absurd (cc e)

pull_from-Pulls :
    (whole : Bytes) (lost : List (ℕ × ℕ)) (max_bytes max_fresh : ℕ) (s : SendSide)
    → InFlight s lost
    → Represents whole s
    → Pulls whole (pull_from lost max_bytes max_fresh s).1
unfolding pull_from pull_fresh retransmit send_fresh
pull_from-Pulls whole ((first, second) ∷ rest) max_bytes max_fresh s (low, high, _) r =
    at_offset-Shows whole first (min max_bytes second) _ s low (omega (arith, high, r.next))
      (omega arith)
      (λ e.
        (==_iff (add64 first (min max_bytes second)) s.high_water).0 (second-true s.fin_queued _ e))
      r
  where
    second-true : (a b : Bool) → (a && b) ≡ true → b ≡ true
    second-true true b e = e
    second-true false b e = absurd (cc e)
pull_from-Pulls whole [] max_bytes max_fresh s h r =
    elim (Bool-cases (leb s.limit s.next_offset || fresh_size max_bytes max_fresh s == 0)) [
      | inl blocked ↦ rw blocked (fin_only-Pulls whole s r)
      | inr free ↦ rw free (
          at_offset-Shows whole s.next_offset (fresh_size max_bytes max_fresh s) _ s r.base
            (omega (arith, r.next, r.high, r.short)) (omega arith)
            (λ e.
              (==_iff (add64 s.next_offset (fresh_size max_bytes max_fresh s)) s.high_water).0
                (middle s.fin_queued _ s.fin_sent e))
            r)
    ]
  where
    middle : (a b c : Bool) → ((a && b) && not c) ≡ true → b ≡ true
    middle true true c e = refl
    middle true false c e = absurd (cc e)
    middle false b c e = absurd (cc e)

-- What `pull_send` hands out, a retransmission or fresh bytes, are `taken` bytes that were written at
-- the offset that it answers, so that no read goes past the end of the buffer, and a FIN comes with
-- the last byte that was written; without an offset it is nothing. The buffer represents all that was
-- written and has all lost ranges.
pub pull_send-Pulls :
    (whole : Bytes) (max_bytes max_fresh : ℕ) (s : SendSide)
    → InFlight s s.lost_ranges
    → Represents whole s
    → Pulls whole (pull_send max_bytes max_fresh s).1
unfolding pull_send
pull_send-Pulls whole max_bytes max_fresh s h r = elim (Bool-cases (max_bytes == 0)) [
  | inl no_room ↦ rw no_room (refl, refl, refl)
  | inr room ↦ rw room (pull_from-Pulls whole s.lost_ranges max_bytes max_fresh s h r)
]

-- At most `max_bytes` taken, and the next fresh offset moved on by at most `max_fresh`, not past what
-- was written, and not past the limit, unless it was there already.
pub record Moves (max_bytes max_fresh : ℕ) (s s' : SendSide) (p : Pulled) : Type 0 where
  pub taken : p.taken ≤ max_bytes
  pub forward : s.next_offset ≤ s'.next_offset
  pub budget : s'.next_offset ≤ s.next_offset + max_fresh
  pub written : s'.next_offset ≤ s.high_water
  pub window : s'.next_offset ≤ max s.next_offset s.limit

stays :
    (max_bytes max_fresh : ℕ) (s s' : SendSide) (p : Pulled)
    → s'.next_offset ≡ s.next_offset
    → s.next_offset ≤ s.high_water
    → p.taken ≤ max_bytes
    → Moves max_bytes max_fresh s s' p
stays max_bytes max_fresh s s' p same high few = record {
  taken = few;
  forward = omega (arith, same);
  budget = omega (arith, same);
  written = omega (arith, same);
  window = omega (arith, same);
}

fin_only-Moves :
    (max_bytes max_fresh : ℕ) (s : SendSide)
    → s.next_offset ≤ s.high_water
    → Moves max_bytes max_fresh s (fin_only s).0 (fin_only s).1
unfolding fin_only send_fin
fin_only-Moves max_bytes max_fresh s high =
    elim (Bool-cases ((s.fin_queued && not s.fin_sent) && s.next_offset == s.high_water)) [
      | inl due ↦ rw due (stays max_bytes max_fresh s _ _ refl high (omega arith))
      | inr not_due ↦ rw not_due (stays max_bytes max_fresh s _ _ refl high (omega arith))
    ]

same_offset : (b : Bool) (s : SendSide) → (if b then send_fin s else s).next_offset ≡ s.next_offset
unfolding send_fin
same_offset true s = refl
same_offset false s = refl

fresh-Moves :
    (whole : Bytes) (max_bytes max_fresh : ℕ) (s : SendSide)
    → s.limit < 2 ^ 62
    → s.next_offset < s.limit
    → Represents whole s
    → Moves max_bytes max_fresh s
        (send_fresh (fresh_size max_bytes max_fresh s) s).0
        (send_fresh (fresh_size max_bytes max_fresh s) s).1
unfolding send_fresh
fresh-Moves whole max_bytes max_fresh s small free r = record {
  taken = omega arith;
  forward = omega (arith, moved, bounds.0, bounds.1, bounds.2, r.next);
  budget = omega (arith, moved, bounds.0, bounds.1, bounds.2, r.next);
  written = omega (arith, moved, bounds.0, bounds.1, bounds.2, r.next);
  window = omega (arith, moved, bounds.0, bounds.1, bounds.2, r.next);
}
  where
    take' : ℕ
    take' = fresh_size max_bytes max_fresh s

    bounds :
        (take' ≤ max_fresh)
        × (take' ≤ s.high_water - s.next_offset)
        × (take' ≤ s.limit - s.next_offset)
    bounds = (omega arith, omega (arith, r.next, r.high, r.short), omega arith)

    moved : (send_fresh take' s).0.next_offset ≡ s.next_offset + take'
    moved =
        same_offset _ (record s { next_offset = add64 s.next_offset take' })
        ∙ omega (arith, bounds.1, r.next, r.high, r.short)

-- A pull takes at most `max_bytes`, and moves the next fresh offset on by at most `max_fresh`, not past
-- what was written, and not past the peer's limit (below 2 ^ 62), unless it was there already, where the
-- buffer represents all that was written.
pub pull_send-Moves :
    (whole : Bytes) (max_bytes max_fresh : ℕ) (s : SendSide)
    → s.limit < 2 ^ 62
    → Represents whole s
    → Moves max_bytes max_fresh s
        (pull_send max_bytes max_fresh s).0
        (pull_send max_bytes max_fresh s).1
unfolding pull_send pull_from pull_fresh retransmit
pull_send-Moves whole max_bytes max_fresh s small r = elim (Bool-cases (max_bytes == 0)) [
  | inl no_room ↦ rw no_room (stays max_bytes max_fresh s s nothing refl r.next (omega arith))
  | inr room ↦ rw room (from s.lost_ranges)
]
  where
    from :
        (lost : List (ℕ × ℕ))
        → Moves max_bytes max_fresh s
            (pull_from lost max_bytes max_fresh s).0
            (pull_from lost max_bytes max_fresh s).1
    from [] =
        elim (Bool-cases (leb s.limit s.next_offset || fresh_size max_bytes max_fresh s == 0)) [
          | inl blocked ↦ rw (blocked, pull_fresh) (fin_only-Moves max_bytes max_fresh s r.next)
          | inr free ↦
              rw (free, pull_fresh) (fresh-Moves whole max_bytes max_fresh s small (ground arith) r)
        ]
    from ((first, second) ∷ rest) = stays max_bytes max_fresh s _ _ refl r.next (omega arith)
