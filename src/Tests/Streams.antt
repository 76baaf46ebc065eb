-- ===== src/Tests/Streams.antt =====
-- Streams at concrete inputs.
use libspaznet.Base.{Bytes, take, ◌≤◌, ◌≡◌, refl, true, false, ◌||◌, some, List, [], ◌∷◌, arith}
use libspaznet.Quic.Stream.Send.{SendSide, SendState, pull_send, on_acked}
use libspaznet.Quic.Stream.Send.Buffer.{Represents, AllSent}
use libspaznet.Quic.Stream.Send.Known.{in_range, is_acked, on_acked-Keeps}
use libspaznet.Quic.Stream.Send.Pull.{Pulls, pull_send-Pulls, Moves, pull_send-Moves}
use libspaznet.Quic.Stream.Recv.{
  no_data_received, RecvSide, RecvState, deliver, is_reset, breaks_final_size, accept, advance,
  trim_put, put_some, put, emplace, merge, absorb,
}
use libspaznet.Quic.Stream.Recv.Coverage.{covers, in_chunk}
use libspaznet.Quic.Stream.Recv.Delivered.{deliver-covers}
use libspaznet.Quic.Stream.Recv.InOrder.{RecvStep, run, run-in_order}
use libspaznet.Quic.Stream.Recv.Flow.{Within, farthest, run-inside_window}

abbrev written : Bytes
written = 65 ∷ 66 ∷ 67 ∷ []

-- Three bytes written, two of them sent.
abbrev sending : SendSide
sending = record {
  buf = written;
  buf_head = 0;
  buf_base_offset = 0;
  next_offset = 2;
  high_water = 3;
  limit = 100;
  fin_queued = true;
  fin_sent = false;
  fin_acked = false;
  acked_ranges = [];
  lost_ranges = [];
  state = SendState.send;
}

sending-Represents : Represents written sending
sending-Represents = record {
  short = omega arith;
  stored = omega arith;
  live = refl;
  head = omega arith;
  base = omega arith;
  next = omega arith;
  high = refl;
}

-- The second byte was acknowledged before the first.
abbrev half_acked : SendSide
half_acked = record sending { acked_ranges = (1, 1) ∷ [] }

half_acked-Represents : Represents written half_acked
half_acked-Represents = record {
  short = omega arith;
  stored = omega arith;
  live = refl;
  head = omega arith;
  base = omega arith;
  next = omega arith;
  high = refl;
}

on_acked-Keeps_example :
    Represents written (on_acked 0 1 half_acked)
    × AllSent (on_acked 0 1 half_acked) (on_acked 0 1 half_acked).acked_ranges
    × (is_acked (on_acked 0 1 half_acked) 1 ≡ (is_acked half_acked 1 || in_range 0 1 1))
on_acked-Keeps_example =
    on_acked-Keeps written 0 1 1 half_acked (omega arith) (omega arith, tt) half_acked-Represents

pull_send-Pulls_example : Pulls written (pull_send 10 10 sending).1
pull_send-Pulls_example = pull_send-Pulls written 10 10 sending tt sending-Represents

pull_send-Moves_example :
    Moves 10 10 sending (pull_send 10 10 sending).0 (pull_send 10 10 sending).1
pull_send-Moves_example = pull_send-Moves written 10 10 sending (omega arith) sending-Represents

-- The end first, then an overlapping beginning.
abbrev arrivals : List RecvStep
arrivals =
    RecvStep.delivered 1 (66 ∷ 67 ∷ []) true
    ∷ RecvStep.read
    ∷ RecvStep.delivered 0 (65 ∷ 66 ∷ []) false
    ∷ RecvStep.read
    ∷ []

run-in_order_example :
    (run arrivals (no_data_received 100) []).1
    ≡ take (run arrivals (no_data_received 100) []).0.read_offset written
run-in_order_example = run-in_order written 100 arrivals (omega arith) (
  record { inside = omega arith; same = refl },
  (tt, (record { inside = omega arith; same = refl }, (tt, tt))),
)

run-inside_window_example :
    (farthest arrivals (no_data_received 100) ≤ (run arrivals (no_data_received 100) []).0.limit)
    × ((run arrivals (no_data_received 100) []).0.high_water
        ≡ farthest arrivals (no_data_received 100))
    × Within
        (run arrivals (no_data_received 100) []).0.final_size
        (run arrivals (no_data_received 100) []).0.limit
run-inside_window_example =
    run-inside_window 100 arrivals
      ((omega arith, omega arith), (tt, ((omega arith, omega arith), (tt, tt))))

-- The bytes 3 and 4 are there; a frame with 1 and 2 arrives.
abbrev with_hole : RecvSide
with_hole = record (no_data_received 100) {
  chunks = (3, 67 ∷ 68 ∷ []) ∷ [];
  read_offset = 1;
  high_water = 5;
}

abbrev filled : RecvSide
filled = record with_hole { chunks = (1, 65 ∷ 66 ∷ 67 ∷ 68 ∷ []) ∷ [] }

deliver-with_hole : deliver 1 (65 ∷ 66 ∷ []) false with_hole ≡ some filled
unfolding deliver is_reset breaks_final_size accept advance trim_put put_some put emplace merge
    absorb
deliver-with_hole = refl

not_reset : is_reset RecvState.recv ≡ false
unfolding is_reset
not_reset = refl

deliver-covers_example :
    covers filled.chunks 2 ≡ (in_chunk 1 (65 ∷ 66 ∷ []) 2 || covers with_hole.chunks 2)
deliver-covers_example =
    deliver-covers 1 (65 ∷ 66 ∷ []) false with_hole filled 2 not_reset (omega arith) (omega arith)
      (omega arith, omega arith, tt) refl deliver-with_hole (omega arith)
