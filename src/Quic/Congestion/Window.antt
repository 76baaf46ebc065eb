-- ===== src/Quic/Congestion/Window.antt =====
-- How small and how large the window can become.
use libspaznet.Base.{
  ltb, Bool-cases, ℕ, ◌+◌, ◌*◌, ◌/◌, ◌%◌, ◌^◌, ◌≤◌, ◌<◌, ◌≡◌, refl, subst, inl, inr, List, [], ◌∷◌,
  arith,
}
use native.Mathlib.Nat.{mul-le-mul_right, mod-le, div-le_of_le-mul}
use libspaznet.Quic.Congestion.{
  Congestion, k_min_window_packets, grow, enter_recovery, Event, leave, run, step, make,
  on_packet_sent, on_packets_acked, on_packets_lost, in_recovery, counted_already,
}

-- The window is at least two datagrams, and at most `top`.
pub record Fits (size top : ℕ) (c : Congestion) : Type 0 where
  pub same : c.max_datagram_size ≡ size
  pub bounded : size ≤ 65527
  pub positive : 0 < size
  pub low : size * k_min_window_packets ≤ c.cwnd
  pub high : c.cwnd ≤ top

share : (a b c : ℕ) → a ≤ c → a * b % 2 ^ 64 / c ≤ b
share a b c h =
    div-le_of_le-mul c (omega (arith, mul-le-mul_right {m = a} b h, mod-le (a * b) (2 ^ 64)))

grow-Fits :
    (size top bytes : ℕ) (c : Congestion)
    → top + bytes < 2 ^ 64
    → Fits size top c
    → Fits size (top + bytes) (grow bytes c)
unfolding grow
grow-Fits size top bytes c small f = elim (Bool-cases (ltb c.cwnd c.ssthresh)) [
  | inl slow ↦ rw slow (record {
    same = f.same;
    bounded = f.bounded;
    positive = f.positive;
    low = omega (arith, f.low, f.high);
    high = omega (arith, f.high);
  })
  | inr avoiding ↦ rw avoiding (record {
    same = f.same;
    bounded = f.bounded;
    positive = f.positive;
    low = omega (arith, f.low, f.high, added);
    high = omega (arith, f.high, added);
  })
]
  where
    added : c.max_datagram_size * bytes % 2 ^ 64 / c.cwnd ≤ bytes
    added = share c.max_datagram_size bytes c.cwnd (omega (arith, f.low, f.same))

leave-Fits : (size top bytes : ℕ) (c : Congestion) → Fits size top c → Fits size top (leave bytes c)
unfolding leave
leave-Fits size top bytes c f = record {
  same = f.same;
  bounded = f.bounded;
  positive = f.positive;
  low = f.low;
  high = f.high;
}

Fits-more : (size top more : ℕ) (c : Congestion) → Fits size top c → Fits size (top + more) c
Fits-more size top more c f = record {
  same = f.same;
  bounded = f.bounded;
  positive = f.positive;
  low = f.low;
  high = omega (arith, f.high);
}

-- A loss halves the window, but not below two datagrams.
enter_recovery-Fits :
    (size top now : ℕ) (c : Congestion) → Fits size top c → Fits size top (enter_recovery now c)
unfolding enter_recovery
enter_recovery-Fits size top now c f = record {
  same = f.same;
  bounded = f.bounded;
  positive = f.positive;
  low = omega (arith, f.same, f.bounded);
  high = omega (arith, f.same, f.bounded, f.low, f.high);
}

abbrev acked_bytes : Event → ℕ
acked_bytes (Event.sent now bytes) = 0
acked_bytes (Event.acked now bytes) = bytes
acked_bytes (Event.lost now bytes largest) = 0

abbrev pub all_acked_bytes : List Event → ℕ
all_acked_bytes [] = 0
all_acked_bytes (e ∷ es) = acked_bytes e + all_acked_bytes es

step-Fits :
    (size top : ℕ) (e : Event) (c : Congestion)
    → top + acked_bytes e < 2 ^ 64
    → Fits size top c
    → Fits size (top + acked_bytes e) (step e c)
unfolding step on_packet_sent on_packets_acked on_packets_lost
step-Fits size top (Event.sent now bytes) c small f = record {
  same = f.same;
  bounded = f.bounded;
  positive = f.positive;
  low = f.low;
  high = omega (arith, f.high);
}
step-Fits size top (Event.acked now bytes) c small f =
    elim (Bool-cases (in_recovery now (leave bytes c))) [
      | inl held ↦
          rw held (Fits-more size top bytes (leave bytes c) (leave-Fits size top bytes c f))
      | inr free ↦
          rw free (grow-Fits size top bytes (leave bytes c) small (leave-Fits size top bytes c f))
    ]
step-Fits size top (Event.lost now bytes largest) c small f =
    elim (Bool-cases (counted_already largest (leave bytes c))) [
      | inl held ↦ rw held (Fits-more size top 0 (leave bytes c) (leave-Fits size top bytes c f))
      | inr free ↦ rw free (
          Fits-more size top 0 (enter_recovery now (leave bytes c))
            (enter_recovery-Fits size top now (leave bytes c) (leave-Fits size top bytes c f)))
    ]

run-Fits :
    (size top : ℕ) (es : List Event) (c : Congestion)
    → top + all_acked_bytes es < 2 ^ 64
    → Fits size top c
    → Fits size (top + all_acked_bytes es) (run es c)
unfolding run
run-Fits size top [] c small f = Fits-more size top 0 c f
run-Fits size top (e ∷ es) c small f =
    subst (λ t. Fits size t (run es (step e c))) (omega arith)
      (run-Fits size (top + acked_bytes e) es (step e c) (omega arith)
        (step-Fits size top e c (omega arith) f))

-- From a new controller for datagrams of 1 to 65527 bytes, whatever is sent, acknowledged and lost, the
-- window stays at least two datagrams, and at most ten datagrams and the bytes acknowledged, as long
-- as those are less than 2 ^ 63.
pub run_bounds :
    (max_datagram_size : ℕ) (es : List Event)
    → 0 < max_datagram_size
    → max_datagram_size ≤ 65527
    → all_acked_bytes es < 2 ^ 63
    → (max_datagram_size * 2 ≤ (run es (make max_datagram_size)).cwnd)
      × ((run es (make max_datagram_size)).cwnd ≤ max_datagram_size * 10 + all_acked_bytes es)
run_bounds max_datagram_size es positive size small =
    let f =
      run-Fits max_datagram_size (max_datagram_size * 10) es (make max_datagram_size) (omega arith)
        (record {
          same = refl;
          bounded = size;
          positive = positive;
          low = omega arith;
          high = omega arith;
        }) in
    (f.low, f.high)
