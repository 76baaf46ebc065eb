-- ===== src/Tests/Numbers.antt =====
-- Packet numbers, round-trip times and windows at concrete inputs.
use libspaznet.Base.{
  leb, ◌==◌, ℕ, zero, suc, ◌+◌, ◌*◌, ◌≤◌, ◌≡◌, refl, ◌≢◌, true, false, ◌&&◌, ◌||◌, some, List, [],
  ◌∷◌, arith,
}
use libspaznet.Quic.PnSpace.{
  PnSpace, on_received, build_ack_frame, trim_below, receive, Range, walk, place, extend_lower,
  rejoin, insert_single,
}
use libspaznet.Quic.PnSpace.Ranges.{covers, Descending-mono, Descending, ceiling}
use libspaznet.Quic.PnSpace.Insert.{IsValid, on_received-IsValid, covers-on_received}
use libspaznet.Quic.PnSpace.Ack.{acknowledged, acknowledged-build_ack_frame}
use libspaznet.Quic.PnSpace.Trim.{covers-trim_below}
use libspaznet.Quic.Recovery.{Recovery, loss_time_threshold}
use libspaznet.Quic.Recovery.Bounds.{Within, after_samples, after_samples-Within}
use libspaznet.Quic.Congestion.{make, run, Event}
use libspaznet.Quic.Congestion.Window.{run_bounds}

abbrev two_ranges : PnSpace
two_ranges = record {
  ranges = record { lo = 6; hi = 9 } ∷ record { lo = 2; hi = 3 } ∷ [];
  largest_received = some 9;
  needs_ack = true;
}

two_ranges-IsValid : IsValid two_ranges
two_ranges-IsValid = ((omega arith, omega arith, (omega arith, omega arith, tt)), omega arith)

on_received-IsValid_example : IsValid (on_received 4 true two_ranges)
on_received-IsValid_example = on_received-IsValid 4 true two_ranges (omega arith) two_ranges-IsValid

covers-on_received_example :
    covers (on_received 4 true two_ranges).ranges 5 ≡ ((5 == 4) || covers two_ranges.ranges 5)
covers-on_received_example =
    covers-on_received 4 true two_ranges 5 (omega arith) two_ranges-IsValid (omega arith)

held-three : covers (on_received 4 true two_ranges).ranges 3 ≡ true
unfolding on_received receive walk place extend_lower rejoin
held-three = refl

-- 32 ranges of one number each, from 64 down to 2.
abbrev even_ranges : ℕ → List Range
even_ranges zero = []
even_ranges (suc n) = record { lo = 2 * suc n; hi = 2 * suc n } ∷ even_ranges n

abbrev full : PnSpace
full = record { ranges = even_ranges 32; largest_received = some 64; needs_ack = false }

even_ranges-Descending : (n : ℕ) → Descending (2 * n + 2) (even_ranges n)
even_ranges-Descending zero = tt
even_ranges-Descending (suc n) = (
  omega arith,
  omega arith,
  Descending-mono (2 * n + 2) (2 * suc n) (even_ranges n) (omega arith) (even_ranges-Descending n),
)

full-IsValid : IsValid full
full-IsValid = (
  Descending-mono 66 ceiling (even_ranges 32) (omega arith) (even_ranges-Descending 32),
  omega arith,
)

dropped-two : covers (on_received 66 true full).ranges 2 ≡ false
unfolding on_received receive walk place extend_lower insert_single rejoin
dropped-two = refl

kept-four : covers (on_received 66 true full).ranges 4 ≡ true
unfolding on_received receive walk place extend_lower insert_single rejoin
kept-four = refl

two_ranges-held : two_ranges.ranges ≢ []
two_ranges-held e = cc e

acknowledged-build_ack_frame_example :
    (acknowledged (build_ack_frame 8 two_ranges).1 ≡ two_ranges.ranges)
    × ((build_ack_frame 8 two_ranges).0 ≡ record two_ranges { needs_ack = false })
acknowledged-build_ack_frame_example =
    acknowledged-build_ack_frame 8 two_ranges two_ranges-IsValid two_ranges-held

covers-trim_below_example :
    covers (trim_below 7 two_ranges).ranges 6 ≡ (leb 7 6 && covers two_ranges.ranges 6)
covers-trim_below_example = covers-trim_below 7 two_ranges 6 two_ranges-IsValid

after_samples-Within_example :
    (r : Recovery) × (threshold : ℕ) × (after_samples ((50, 5) ∷ (20, 0) ∷ []) ≡ some r)
    × Within 10 90 r
    × (loss_time_threshold r ≡ some threshold)
    × (r.smoothed_rtt ≤ threshold)
    × (r.latest_rtt ≤ threshold)
after_samples-Within_example =
    after_samples-Within 10 90 50 5 ((20, 0) ∷ []) (omega arith)
      (omega arith, omega arith, omega arith, (omega arith, omega arith, omega arith, tt))

abbrev measured : Recovery
measured = record {
  latest_rtt = 50000000;
  smoothed_rtt = 40000000;
  rttvar = 10000000;
  min_rtt = 30000000;
  have_sample = true;
  pto_count = 2;
}

abbrev reports : List Event
reports = Event.sent 1 6000 ∷ Event.acked 2 1200 ∷ Event.lost 3 1200 1 ∷ Event.acked 9 3600 ∷ []

run_bounds_example :
    (1200 * 2 ≤ (run reports (make 1200)).cwnd)
    × ((run reports (make 1200)).cwnd ≤ 1200 * 10 + 4800)
run_bounds_example = run_bounds 1200 reports (omega arith) (omega arith) (omega arith)
