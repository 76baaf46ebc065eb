-- ===== src/Quic/Congestion.antt =====
-- example/quic-http3/src/quic/congestion.cpp and congestion.hpp: the NewReno window of RFC 9002,
-- section 7. A `TimePoint` is a count on the steady clock. `cwnd_ * 0.5` is done in `double`, which is
-- exact below 2 ^ 53; the model halves and rounds down.
pub mod Window
use libspaznet.Base.{
  ltb, leb, if◌then◌else◌, ℕ, ◌+◌, ◌-◌, ◌*◌, ◌/◌, ◌%◌, ◌^◌, max, Bool, false, Option, none, some,
  List, [], ◌∷◌,
}

pub record Congestion : Type 0 where
  pub max_datagram_size : ℕ
  pub cwnd : ℕ
  pub bytes_in_flight : ℕ
  pub ssthresh : ℕ
  pub recovery_start_time : Option ℕ

abbrev pub k_initial_window_packets : ℕ
k_initial_window_packets = 10

abbrev pub k_min_window_packets : ℕ
k_min_window_packets = 2

-- `ssthresh_` starts at `SIZE_MAX`.
abbrev pub make : ℕ → Congestion
make max_datagram_size = record {
  max_datagram_size = max_datagram_size;
  cwnd = max_datagram_size * k_initial_window_packets % 2 ^ 64;
  bytes_in_flight = 0;
  ssthresh = 2 ^ 64 - 1;
  recovery_start_time = none;
}

unfoldable pub on_packet_sent : ℕ → ℕ → Congestion → Congestion
on_packet_sent now bytes c = record c { bytes_in_flight = (c.bytes_in_flight + bytes) % 2 ^ 64 }

-- The bytes that leave the flight, at most all of them.
unfoldable pub leave : ℕ → Congestion → Congestion
leave bytes c = record c {
  bytes_in_flight = if ltb c.bytes_in_flight bytes then 0 else c.bytes_in_flight - bytes;
}

unfoldable pub in_recovery : ℕ → Congestion → Bool
in_recovery now c = elim c.recovery_start_time [ none ↦ false | some start ↦ ltb start now ]

-- Slow start, or congestion avoidance.
unfoldable pub grow : ℕ → Congestion → Congestion
grow bytes_acked c =
    if ltb c.cwnd c.ssthresh
    then record c { cwnd = (c.cwnd + bytes_acked) % 2 ^ 64 }
    else record c { cwnd = (c.cwnd + c.max_datagram_size * bytes_acked % 2 ^ 64 / c.cwnd) % 2 ^ 64 }

unfoldable pub on_packets_acked : ℕ → ℕ → Congestion → Congestion
on_packets_acked now bytes_acked c =
    let left = leave bytes_acked c in if in_recovery now left then left else grow bytes_acked left

unfoldable pub enter_recovery : ℕ → Congestion → Congestion
enter_recovery now c =
    let ssthresh = c.cwnd / 2 in
    record c {
      ssthresh = ssthresh;
      cwnd = max ssthresh (c.max_datagram_size * k_min_window_packets % 2 ^ 64);
      recovery_start_time = some now;
    }

-- `recovery_start_time_ && largest_lost_time <= *recovery_start_time_`
unfoldable pub counted_already : ℕ → Congestion → Bool
counted_already largest_lost_time c = elim c.recovery_start_time [
  | none ↦ false
  | some start ↦ leb largest_lost_time start
]

unfoldable pub on_packets_lost : ℕ → ℕ → ℕ → Congestion → Congestion
on_packets_lost now bytes_lost largest_lost_time c =
    let left = leave bytes_lost c in
    if counted_already largest_lost_time left then left else enter_recovery now left

unfoldable pub can_send : ℕ → Congestion → Bool
can_send bytes c = leb ((c.bytes_in_flight + bytes) % 2 ^ 64) c.cwnd

-- What the connection reports, in the order of the reports.
pub data Event : Type 0 where
  sent : (now bytes : ℕ) → Event
  acked : (now bytes_acked : ℕ) → Event
  lost : (now bytes_lost largest_lost_time : ℕ) → Event

unfoldable pub step : Event → Congestion → Congestion
step (Event.sent now bytes) c = on_packet_sent now bytes c
step (Event.acked now bytes_acked) c = on_packets_acked now bytes_acked c
step (Event.lost now bytes_lost largest_lost_time) c =
    on_packets_lost now bytes_lost largest_lost_time c

unfoldable pub run : List Event → Congestion → Congestion
run [] c = c
run (e ∷ es) c = run es (step e c)
