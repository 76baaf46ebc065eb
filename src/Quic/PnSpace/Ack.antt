-- ===== src/Quic/PnSpace/Ack.antt =====
-- The ACK frame that `build_ack_frame` makes, read back as RFC 9000, section 19.3.1, reads it.
use libspaznet.Base.{
  length, All, sub64, ℕ, ◌+◌, ◌-◌, ◌≤◌, ◌<◌, ◌≡◌, refl, ap, ◌≢◌, Bool, false, List, [], ◌∷◌, arith,
}
use libspaznet.Quic.Frame.{AckRange, AckFrame, Frame}
use libspaznet.Quic.Frame.Encodable.{IsVarint, IsRange, IsEncodable}
use libspaznet.Quic.PnSpace.{
  Range, gaps, ack_of, still_needed, build_ack_frame, PnSpace, k_max_ack_ranges,
}
use libspaznet.Quic.PnSpace.Ranges.{Descending, ceiling}
use libspaznet.Quic.PnSpace.Insert.{IsValid}

-- The next range ends `gap + 2` below the smallest number of the one before it, and starts `length`
-- below that.
abbrev reported : ℕ → List AckRange → List Range
reported smallest [] = []
reported smallest (r ∷ rs) =
    let hi = smallest - r.gap - 2 in
    record { lo = hi - r.length; hi = hi } ∷ reported (hi - r.length) rs

abbrev pub acknowledged : AckFrame → List Range
acknowledged f =
    let lo = f.largest_acked - f.first_range in
    record { lo = lo; hi = f.largest_acked } ∷ reported lo f.ranges

-- No subtraction of `build_ack_frame` wraps.
sub64-hi : (lo hi : ℕ) → lo < ceiling → hi + 1 < lo → lo - sub64 (sub64 lo hi) 2 - 2 ≡ hi
sub64-hi lo hi small below = omega arith

sub64-lo : (lo hi : ℕ) → hi < ceiling → lo ≤ hi → hi - sub64 hi lo ≡ lo
sub64-lo lo hi small wide = omega arith

reported-gaps :
    (prev : Range) (rs : List Range)
    → prev.lo < ceiling
    → Descending prev.lo rs
    → reported prev.lo (gaps prev rs) ≡ rs
unfolding gaps
reported-gaps prev [] small d = refl
reported-gaps prev (r ∷ rs) small (below, wide, d) =
    rw
      (
        sub64-hi prev.lo r.hi small below,
        sub64-lo r.lo r.hi (omega arith) wide,
        reported-gaps r rs (omega arith) d,
      )
      refl

IsRange-gaps :
    (prev : Range) (rs : List Range)
    → prev.lo < ceiling
    → Descending prev.lo rs
    → All IsRange (gaps prev rs)
unfolding gaps
IsRange-gaps prev [] small d = tt
IsRange-gaps prev (r ∷ rs) small (below, wide, d) =
    ((omega arith, omega arith), IsRange-gaps r rs (omega arith) d)

length-gaps : (prev : Range) (rs : List Range) → length (gaps prev rs) ≡ length rs
unfolding gaps
length-gaps prev [] = refl
length-gaps prev (r ∷ rs) = omega (arith, length-gaps r rs)

ack_of-acknowledged :
    (delay : ℕ) (rs : List Range)
    → Descending ceiling rs
    → rs ≢ []
    → acknowledged (ack_of delay rs) ≡ rs
unfolding ack_of
ack_of-acknowledged delay [] d some_held = absurd (some_held refl)
ack_of-acknowledged delay (r ∷ rs) (below, wide, d) some_held =
    rw (sub64-lo r.lo r.hi (omega arith) wide, reported-gaps r rs (omega arith) d) refl

quiet : (rs : List Range) (needs : Bool) → rs ≢ [] → still_needed rs needs ≡ false
unfolding still_needed
quiet [] needs h = absurd (h refl)
quiet (r ∷ rs) needs h = refl

-- The ACK frame of `build_ack_frame`, read as RFC 9000 says, acknowledges just the ranges that are
-- held, where there are any and they are in order; the space then needs no ACK, and is otherwise
-- unchanged.
pub acknowledged-build_ack_frame :
    (delay : ℕ) (s : PnSpace)
    → IsValid s
    → s.ranges ≢ []
    → (acknowledged (build_ack_frame delay s).1 ≡ s.ranges)
      × ((build_ack_frame delay s).0 ≡ record s { needs_ack = false })
unfolding build_ack_frame
acknowledged-build_ack_frame delay s (down, few) some_held = (
  ack_of-acknowledged delay s.ranges down some_held,
  ap (λ b. record s { needs_ack = b }) (quiet s.ranges s.needs_ack some_held),
)

IsEncodable-ack_of :
    (delay : ℕ) (rs : List Range)
    → IsVarint delay
    → Descending ceiling rs
    → length rs ≤ k_max_ack_ranges
    → IsEncodable (Frame.ack (ack_of delay rs))
unfolding ack_of
IsEncodable-ack_of delay [] small d few =
    (omega arith, omega arith, omega arith, omega arith, tt, omega arith, omega arith, omega arith)
IsEncodable-ack_of delay (r ∷ rs) small (below, wide, d) few = (
  omega arith,
  small,
  omega (arith, length-gaps r rs),
  omega arith,
  IsRange-gaps r rs (omega arith) d,
  omega arith,
  omega arith,
  omega arith,
)

-- The ACK frame of `build_ack_frame` has only numbers below 2 ^ 62, so `encode_frame` can write
-- it, where the delay is below 2 ^ 62 and the ranges are in order.
pub build_ack_frame-IsEncodable :
    (delay : ℕ) (s : PnSpace)
    → IsVarint delay
    → IsValid s
    → IsEncodable (Frame.ack (build_ack_frame delay s).1)
unfolding build_ack_frame
build_ack_frame-IsEncodable delay s small (down, few) =
    IsEncodable-ack_of delay s.ranges small down few
