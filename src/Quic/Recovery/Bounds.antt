-- ===== src/Quic/Recovery/Bounds.antt =====
-- How far the estimate and the timeouts can go.
use libspaznet.Base.{
  ◌==◌, leb-gt, ==_iff, Bool-cases, if_true, ℕ, ◌+◌, ◌*◌, ◌/◌, ◌^◌, ◌≤◌, ◌<◌, min, max, ◌≡◌, refl,
  inl, inr, true, false, Option, none, some, List, [], ◌∷◌, arith,
}
use libspaznet.Quic.Recovery.{
  Recovery, k_granularity, initial, overflows, distance, adjusted_rtt, first_sample, next_sample,
  on_rtt_sample, pto_timeout, loss_time_threshold,
}
use native.Mathlib.Nat.{mul-le-mul_left, pow-le-pow_right}

-- The estimate after samples from `low` to `high`.
pub record Within (low high : ℕ) (r : Recovery) : Type 0 where
  pub sampled : r.have_sample ≡ true
  pub least : low ≤ r.min_rtt
  pub least_latest : r.min_rtt ≤ r.latest_rtt
  pub latest_high : r.latest_rtt ≤ high
  pub smoothed_low : low ≤ r.smoothed_rtt
  pub smoothed_high : r.smoothed_rtt ≤ high
  pub variation : r.rttvar ≤ high

adjusted-between :
    (low high latest delay least : ℕ)
    → low ≤ least
    → least ≤ latest
    → latest ≤ high
    → (low ≤ adjusted_rtt latest delay least) × (adjusted_rtt latest delay least ≤ high)
unfolding adjusted_rtt
adjusted-between low high latest delay least a b c = ground arith

distance-high : (high a b : ℕ) → a ≤ high → b ≤ high → distance a b ≤ high
unfolding distance
distance-high high a b ha hb = ground arith

-- Sizes with which nothing overflows: times below 2 ^ 59 ns, which is 18 years, and delays below
-- 2 ^ 62 ns.
next_sample-Within :
    (low high latest delay : ℕ) (r : Recovery)
    → high < 2 ^ 59
    → low ≤ latest
    → latest ≤ high
    → delay < 2 ^ 62
    → Within low high r
    → (r' : Recovery) × (next_sample latest delay r ≡ some r') × Within low high r'
unfolding next_sample
next_sample-Within low high latest delay r small above below short w =
    let least' = min r.min_rtt latest in
    let adjusted = adjusted_rtt latest delay least' in
    let b : (low ≤ adjusted) × (adjusted ≤ high) =
      adjusted-between low high latest delay least' (ground (arith, w.least)) (ground arith)
        below in
    let smoothed = (7 * r.smoothed_rtt + adjusted) / 8 in
    let far : distance smoothed adjusted ≤ high =
      distance-high high smoothed adjusted (omega (arith, b.1, w.smoothed_high)) b.1 in
    let fits₁ : overflows (least' + delay) ≡ false =
      leb-gt (2 ^ 63) (least' + delay) (omega (arith, small, below, short)) in
    let fits₂ : overflows (7 * r.smoothed_rtt + adjusted) ≡ false =
      leb-gt (2 ^ 63) (7 * r.smoothed_rtt + adjusted)
        (omega (arith, small, b.1, w.smoothed_high)) in
    let fits₃ : overflows (3 * r.rttvar + distance smoothed adjusted) ≡ false =
      leb-gt (2 ^ 63) (3 * r.rttvar + distance smoothed adjusted)
        (omega (arith, small, far, w.variation)) in
    (
      record r {
        latest_rtt = latest;
        min_rtt = least';
        smoothed_rtt = smoothed;
        rttvar = (3 * r.rttvar + distance smoothed adjusted) / 4;
      },
      rw (fits₁, fits₂, fits₃) refl,
      record {
        sampled = w.sampled;
        least = ground (arith, w.least);
        least_latest = ground arith;
        latest_high = below;
        smoothed_low = omega (arith, b.0, w.smoothed_low);
        smoothed_high = omega (arith, b.1, w.smoothed_high);
        variation = omega (arith, w.variation, far);
      },
    )

first_sample-Within :
    (low high latest : ℕ) (r : Recovery)
    → low ≤ latest
    → latest ≤ high
    → Within low high (first_sample latest r)
unfolding first_sample
first_sample-Within low high latest r above below = record {
  sampled = refl;
  least = above;
  least_latest = omega arith;
  latest_high = below;
  smoothed_low = above;
  smoothed_high = below;
  variation = omega arith;
}

-- The samples so far, the latest first, each with its ACK delay.
abbrev pub after_samples : List (ℕ × ℕ) → Option Recovery
after_samples [] = some initial
after_samples ((latest, delay) ∷ samples) = elim (after_samples samples) [
  | none ↦ none
  | some r ↦ on_rtt_sample latest delay r
]

-- Samples from `low` to `high`, with delays below 2 ^ 62 ns.
abbrev pub AllWithin : ℕ → ℕ → List (ℕ × ℕ) → Type 0
AllWithin low high [] = Unit
AllWithin low high ((latest, delay) ∷ samples) =
    (low ≤ latest) × (latest ≤ high) × (delay < 2 ^ 62) × AllWithin low high samples

estimated :
    (low high latest delay : ℕ) (samples : List (ℕ × ℕ))
    → high < 2 ^ 59
    → AllWithin low high ((latest, delay) ∷ samples)
    → (r : Recovery) × (after_samples ((latest, delay) ∷ samples) ≡ some r) × Within low high r
unfolding on_rtt_sample
estimated low high latest delay [] small (above, below, short, rest) =
    (first_sample latest initial, refl, first_sample-Within low high latest initial above below)
estimated low high latest delay ((latest', delay') ∷ samples) small (above, below, short, rest) =
    let (r, found, w) = estimated low high latest' delay' samples small rest in
    let (r', next, w') = next_sample-Within low high latest delay r small above below short w in
    (
      r',
      rw (found, after_samples)
          (if_true (λ (t : Option Recovery). t ≡ some r') r.have_sample _ _ w.sampled next),
      w',
    )

threshold-fits :
    (low high : ℕ) (r : Recovery)
    → high < 2 ^ 59
    → Within low high r
    → loss_time_threshold r ≡ some (max r.smoothed_rtt r.latest_rtt * 9 / 8)
unfolding loss_time_threshold
threshold-fits low high r small w =
    let fits : overflows (max r.smoothed_rtt r.latest_rtt * 9) ≡ false =
      leb-gt (2 ^ 63) (max r.smoothed_rtt r.latest_rtt * 9)
        (omega (arith, small, w.smoothed_high, w.latest_high)) in
    rw fits refl

-- After samples from `low` to `high`, at least one, with times below 2 ^ 59 ns and ACK delays below
-- 2 ^ 62 ns: no sum has left 63 bits, the minimum is between `low` and the latest sample, the smoothed
-- time is between `low` and `high`, and the variation is at most `high`; and the time threshold for
-- losses fits as well, and is at least the smoothed time and the latest sample.
pub after_samples-Within :
    (low high latest delay : ℕ) (samples : List (ℕ × ℕ))
    → high < 2 ^ 59
    → AllWithin low high ((latest, delay) ∷ samples)
    → (r : Recovery) × (threshold : ℕ) × (after_samples ((latest, delay) ∷ samples) ≡ some r)
      × Within low high r
      × (loss_time_threshold r ≡ some threshold)
      × (r.smoothed_rtt ≤ threshold)
      × (r.latest_rtt ≤ threshold)
after_samples-Within low high latest delay samples small h =
    let (r, found, w) = estimated low high latest delay samples small h in
    (
      r,
      max r.smoothed_rtt r.latest_rtt * 9 / 8,
      found,
      w,
      threshold-fits low high r small w,
      omega arith,
      omega arith,
    )

shift_small : (a n : ℕ) → a < 2 ^ 33 → n ≤ 30 → a * 2 ^ n < 2 ^ 63
shift_small a n small few =
    omega (arith, mul-le-mul_left a (pow-le-pow_right {n = 2} (omega arith) few))

-- The timeout before it is known to fit.
abbrev pub shifted : ℕ → Recovery → ℕ
shifted max_ack_delay r =
    (r.smoothed_rtt + max (r.rttvar * 4) k_granularity + max_ack_delay) * 2 ^ min r.pto_count 30

-- The probe timeout fits into 63 bits if the smoothed time, four times the variation and the ACK delay
-- add up to less than 2 ^ 33 ns (8.5 s), the granularity of 1 ms taken in; it is their sum, doubled
-- for each timeout so far, up to the thirtieth.
pub pto_timeout_bounds :
    (max_ack_delay : ℕ) (r : Recovery)
    → r.smoothed_rtt + max (r.rttvar * 4) k_granularity + max_ack_delay < 2 ^ 33
    → pto_timeout max_ack_delay r ≡ some (shifted max_ack_delay r)
unfolding pto_timeout
pto_timeout_bounds max_ack_delay r small =
    let base = r.smoothed_rtt + max (r.rttvar * 4) k_granularity + max_ack_delay in
    let fits : overflows (shifted max_ack_delay r) ≡ false =
      leb-gt (2 ^ 63) (shifted max_ack_delay r)
        (shift_small base (min r.pto_count 30) small (omega arith)) in
    elim (Bool-cases (r.pto_count == 0)) [
      | inl first ↦
          let zero_count : r.pto_count ≡ 0 = (==_iff r.pto_count 0).0 first in
          let plain : base * 2 ^ min r.pto_count 30 ≡ base = rw zero_count (omega arith) in
          let fits' : overflows base ≡ false = leb-gt (2 ^ 63) base (omega arith) in
          rw (first, fits', plain) refl
      | inr later ↦ rw (later, fits) refl
    ]
