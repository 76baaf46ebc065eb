-- ===== src/Quic/Recovery.antt =====
-- example/quic-http3/src/quic/recovery.cpp and recovery.hpp: the round-trip estimate of RFC 9002 and
-- the timeouts that it gives. A `Duration` is a signed 64-bit count of nanoseconds, here one that is not
-- negative, as are those that are passed in. The answer `none` stands for a sum, a product or a shift
-- that does not fit into 63 bits; Recovery/Bounds has sizes for which there is none.
pub mod Bounds
use libspaznet.Base.{
  ltb, leb, ◌==◌, if◌then◌else◌, ℕ, ◌+◌, ◌-◌, ◌*◌, ◌/◌, ◌%◌, ◌^◌, min, max, Bool, true, false, ◌||◌,
  Option, none, some,
}

pub record Recovery : Type 0 where
  pub latest_rtt : ℕ
  pub smoothed_rtt : ℕ
  pub rttvar : ℕ
  pub min_rtt : ℕ
  pub have_sample : Bool
  pub pto_count : ℕ

-- 333 ms and 1 ms.
abbrev pub k_initial_rtt : ℕ
k_initial_rtt = 333000000

abbrev pub k_granularity : ℕ
k_granularity = 1000000

-- `Duration::max()`.
abbrev pub duration_max : ℕ
duration_max = 2 ^ 63 - 1

abbrev pub initial : Recovery
initial = record {
  latest_rtt = 0;
  smoothed_rtt = k_initial_rtt;
  rttvar = k_initial_rtt / 2;
  min_rtt = duration_max;
  have_sample = false;
  pto_count = 0;
}

abbrev pub overflows : ℕ → Bool
overflows n = leb (2 ^ 63) n

-- The difference of two counts, taken from the larger one.
unfoldable pub distance : ℕ → ℕ → ℕ
distance a b = if ltb b a then a - b else b - a

unfoldable pub adjusted_rtt : ℕ → ℕ → ℕ → ℕ
adjusted_rtt latest ack_delay min_rtt =
    if leb (min_rtt + ack_delay) latest then latest - ack_delay else latest

-- The branch of `!have_sample_`.
unfoldable pub first_sample : ℕ → Recovery → Recovery
first_sample latest r = record r {
  latest_rtt = latest;
  min_rtt = latest;
  smoothed_rtt = latest;
  rttvar = latest / 2;
  have_sample = true;
}

-- The rest of the handler: the sums `min_rtt_ + ack_delay`, `7 * sm_ns + adj_ns` and
-- `3 * rv_ns + diff` have to fit.
unfoldable pub next_sample : ℕ → ℕ → Recovery → Option Recovery
next_sample latest ack_delay r =
    let min_rtt = min r.min_rtt latest in
    let adjusted = adjusted_rtt latest ack_delay min_rtt in
    let smoothed = (7 * r.smoothed_rtt + adjusted) / 8 in
    let varied = 3 * r.rttvar + distance smoothed adjusted in
    if overflows (min_rtt + ack_delay)
      || (overflows (7 * r.smoothed_rtt + adjusted) || overflows varied)
    then none
    else some (record r {
      latest_rtt = latest;
      min_rtt = min_rtt;
      smoothed_rtt = smoothed;
      rttvar = varied / 4;
    })

unfoldable pub on_rtt_sample : ℕ → ℕ → Recovery → Option Recovery
on_rtt_sample latest ack_delay r =
    if r.have_sample then next_sample latest ack_delay r else some (first_sample latest r)

-- The base, which is no longer than the timeout, fits where that does.
unfoldable pub pto_timeout : ℕ → Recovery → Option ℕ
pto_timeout max_ack_delay r =
    let base = r.smoothed_rtt + max (r.rttvar * 4) k_granularity + max_ack_delay in
    let timeout = if r.pto_count == 0 then base else base * 2 ^ min r.pto_count 30 in
    if overflows timeout then none else some timeout

-- `++pto_count_` of `uint32_t`.
unfoldable pub on_pto_fired : Recovery → Recovery
on_pto_fired r = record r { pto_count = (r.pto_count + 1) % 2 ^ 32 }

unfoldable pub reset_pto : Recovery → Recovery
reset_pto r = record r { pto_count = 0 }

unfoldable pub loss_time_threshold : Recovery → Option ℕ
loss_time_threshold r =
    let scaled = max r.smoothed_rtt r.latest_rtt * 9 in
    if overflows scaled then none else some (scaled / 8)
