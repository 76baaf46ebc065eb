-- ===== src/Quic/Stream/Recv/Flow.antt =====
-- Flow control on the receive side: data that is accepted ends inside the window.
use libspaznet.Base.{
  ltb, leb, ◌==◌, if◌then◌else◌, Bool-cases, Option-cases, Bytes, length, All, add64, ℕ, ◌+◌, ◌^◌,
  ◌≤◌, ◌<◌, max, ◌≡◌, refl, ◌∙◌, subst, inl, inr, Bool, true, false, Option, none, some, List, [],
  ◌∷◌, ◌++◌, arith,
}
use libspaznet.Quic.Stream.Recv.{
  RecvSide, no_data_received, is_reset, breaks_final_size, advance, accept, deliver, note_read,
  read_chunks, read_contiguous, set_recv_limit, other_size, after_reset, take_reset,
}
use libspaznet.Quic.Stream.Recv.InOrder.{RecvStep, step, run}

-- The end of all that came, and the final size with it, is inside the window.
record Fits (r : RecvSide) : Type 0 where
  window : r.high_water ≤ r.limit
  size : (n : ℕ) → r.final_size ≡ some n → n ≤ r.high_water

accept-Fits :
    (offset : ℕ) (bytes : Bytes) (fin : Bool) (r : RecvSide)
    → add64 offset (length bytes) ≤ r.limit
    → Fits r
    → Fits (accept offset bytes fin r)
unfolding accept advance
accept-Fits offset bytes true r inside f = record {
  window = ground (arith, f.window);
  size = λ n e. ground arith;
}
accept-Fits offset bytes false r inside f = record {
  window = ground (arith, f.window);
  size = λ n e. ground (arith, f.size n e);
}

deliver-Fits :
    (offset : ℕ) (bytes : Bytes) (fin : Bool) (r r' : RecvSide)
    → Fits r
    → deliver offset bytes fin r ≡ some r'
    → Fits r'
unfolding deliver
deliver-Fits offset bytes fin r r' f e = elim (Bool-cases (is_reset r.state)) [
  | inl closed ↦ subst Fits (cc (rw closed at e)) f
  | inr open_ ↦ elim (Bool-cases (ltb r.limit (add64 offset (length bytes)))) [
    | inl over ↦ absurd (cc (rw (open_, over) at e))
    | inr fits ↦
        elim (Bool-cases (breaks_final_size (add64 offset (length bytes)) fin r.final_size)) [
          | inl broken ↦ absurd (cc (rw (open_, fits, broken) at e))
          | inr sound ↦
              let same : accept offset bytes fin r ≡ r' = cc (rw (open_, fits, sound) at e) in
              subst Fits same (accept-Fits offset bytes fin r (ground arith) f)
        ]
  ]
]

take_reset-Fits :
    (size error : ℕ) (r r' : RecvSide) → Fits r → take_reset size error r ≡ some r' → Fits r'
unfolding take_reset after_reset
take_reset-Fits size error r r' f e = elim (Bool-cases (other_size size r.final_size)) [
  | inl other ↦ absurd (cc (rw other at e))
  | inr agreed ↦ elim (Bool-cases (ltb r.limit size)) [
    | inl over ↦ absurd (cc (rw (agreed, over) at e))
    | inr fits ↦
        let same : after_reset size error r ≡ r' = cc (rw (agreed, fits) at e) in
        subst Fits same (record { window = ground (arith, f.window); size = λ n h. ground arith })
  ]
]

read_chunks-Fits :
    (chunks : List (ℕ × Bytes)) (r : RecvSide) → Fits r → Fits (read_chunks chunks r).0
unfolding read_chunks note_read
read_chunks-Fits [] r f = record { window = f.window; size = f.size }
read_chunks-Fits ((k, c) ∷ rest) r f = elim (Bool-cases (k == r.read_offset)) [
  | inl here ↦ rw here (record { window = f.window; size = f.size })
  | inr hole ↦ rw hole f
]

step-Fits : (s : RecvStep) (r : RecvSide) → Fits r → Fits (step s r).0
unfolding read_contiguous set_recv_limit
step-Fits (RecvStep.delivered offset bytes fin) r f =
    elim (Option-cases (deliver offset bytes fin r)) [
      | inl failed ↦ rw (failed, step) f
      | inr (r', e) ↦ rw (e, step) (deliver-Fits offset bytes fin r r' f e)
    ]
step-Fits RecvStep.read r f = read_chunks-Fits r.chunks r f
step-Fits (RecvStep.limited new_limit) r f = elim (Bool-cases (leb new_limit r.limit)) [
  | inl less ↦ rw (less, step) f
  | inr more ↦ rw (more, step) (record { window = ground (arith, f.window); size = f.size })
]
step-Fits (RecvStep.was_reset size error) r f = elim (Option-cases (take_reset size error r)) [
  | inl failed ↦ rw (failed, step) f
  | inr (r', e) ↦ rw (e, step) (take_reset-Fits size error r r' f e)
]

run-Fits : (ss : List RecvStep) (r : RecvSide) (out : Bytes) → Fits r → Fits (run ss r out).0
run-Fits [] r out f = f
run-Fits (s ∷ ss) r out f = run-Fits ss (step s r).0 (out ++ (step s r).1) (step-Fits s r f)

abbrev pub Within : Option ℕ → ℕ → Type 0
Within none limit = Unit
Within (some n) limit = n ≤ limit

size-Within :
    (size : Option ℕ) (limit : ℕ) → ((n : ℕ) → size ≡ some n → n ≤ limit) → Within size limit
size-Within none limit h = tt
size-Within (some n) limit h = h n refl

-- Frames whose offset and length are below 2 ^ 62, as the wire has them.
abbrev pub IsFrame : RecvStep → Type 0
IsFrame (RecvStep.delivered offset bytes fin) = (offset < 2 ^ 62) × (length bytes < 2 ^ 62)
IsFrame RecvStep.read = Unit
IsFrame (RecvStep.limited new_limit) = Unit
IsFrame (RecvStep.was_reset final_size app_error) = Unit

-- How far a step says that the stream goes: the end of data that is accepted, on a stream that is not
-- reset, or the final size of a reset that is accepted; 0 for any other step.
abbrev pub reach : RecvStep → RecvSide → ℕ
reach (RecvStep.delivered offset bytes fin) r = elim (deliver offset bytes fin r) [
  | none ↦ 0
  | some r' ↦ if is_reset r.state then 0 else offset + length bytes
]
reach RecvStep.read r = 0
reach (RecvStep.limited new_limit) r = 0
reach (RecvStep.was_reset final_size app_error) r = elim (take_reset final_size app_error r) [
  | none ↦ 0
  | some r' ↦ final_size
]

-- The farthest of them, over all steps.
abbrev pub farthest : List RecvStep → RecvSide → ℕ
farthest [] r = 0
farthest (s ∷ ss) r = max (reach s r) (farthest ss (step s r).0)

deliver-high :
    (offset : ℕ) (bytes : Bytes) (fin : Bool) (r : RecvSide)
    → offset < 2 ^ 62
    → length bytes < 2 ^ 62
    → (step (RecvStep.delivered offset bytes fin) r).0.high_water
      ≡ max r.high_water (reach (RecvStep.delivered offset bytes fin) r)
unfolding deliver accept advance
deliver-high offset bytes fin r small short =
    let whole : add64 offset (length bytes) ≡ offset + length bytes = omega arith in
    elim (Bool-cases (is_reset r.state)) [
      | inl closed ↦ rw (closed, step, reach, closed) (omega arith)
      | inr open_ ↦ elim (Bool-cases (ltb r.limit (add64 offset (length bytes)))) [
        | inl over ↦ rw (open_, over, step, reach) (omega arith)
        | inr fits ↦
            elim (Bool-cases (breaks_final_size (add64 offset (length bytes)) fin r.final_size)) [
              | inl broken ↦ rw (open_, fits, broken, step, reach) (omega arith)
              | inr sound ↦ rw (open_, fits, sound, step, reach) (ground (arith, whole))
            ]
      ]
    ]

reset-high :
    (size error : ℕ) (r : RecvSide)
    → (step (RecvStep.was_reset size error) r).0.high_water
      ≡ max r.high_water (reach (RecvStep.was_reset size error) r)
unfolding take_reset after_reset
reset-high size error r = elim (Bool-cases (other_size size r.final_size)) [
  | inl other ↦ rw (other, step, reach) (omega arith)
  | inr agreed ↦ elim (Bool-cases (ltb r.limit size)) [
    | inl over ↦ rw (agreed, over, step, reach) (omega arith)
    | inr fits ↦ rw (agreed, fits, step, reach) refl
  ]
]

read_chunks-high :
    (chunks : List (ℕ × Bytes)) (r : RecvSide) → (read_chunks chunks r).0.high_water ≡ r.high_water
unfolding read_chunks note_read
read_chunks-high [] r = refl
read_chunks-high ((k, c) ∷ rest) r = elim (Bool-cases (k == r.read_offset)) [
  | inl here ↦ rw here refl
  | inr hole ↦ rw hole refl
]

step-high :
    (s : RecvStep) (r : RecvSide)
    → IsFrame s
    → (step s r).0.high_water ≡ max r.high_water (reach s r)
unfolding read_contiguous set_recv_limit
step-high (RecvStep.delivered offset bytes fin) r (small, short) =
    deliver-high offset bytes fin r small short
step-high RecvStep.read r h = read_chunks-high r.chunks r ∙ omega arith
step-high (RecvStep.limited new_limit) r h = elim (Bool-cases (leb new_limit r.limit)) [
  | inl less ↦ rw (less, step) (omega arith)
  | inr more ↦ rw (more, step) (omega arith)
]
step-high (RecvStep.was_reset size error) r h = reset-high size error r

run-high :
    (ss : List RecvStep) (r : RecvSide) (out : Bytes)
    → All IsFrame ss
    → (run ss r out).0.high_water ≡ max r.high_water (farthest ss r)
run-high [] r out h = omega arith
run-high (s ∷ ss) r out (here, rest) =
    omega (arith, run-high ss (step s r).0 (out ++ (step s r).1) rest, step-high s r here)

-- After any steps, whatever the peer sends, with offsets and lengths as the wire has them, below
-- 2 ^ 62: no data that was accepted ends behind the window, nor does a reset that was accepted; the
-- side's high water mark is exactly where the farthest of them ends; and the final size is inside the
-- window, if it is known.
pub run-inside_window :
    (initial_max_recv : ℕ) (steps : List RecvStep)
    → All IsFrame steps
    → (farthest steps (no_data_received initial_max_recv)
        ≤ (run steps (no_data_received initial_max_recv) []).0.limit)
      × ((run steps (no_data_received initial_max_recv) []).0.high_water
          ≡ farthest steps (no_data_received initial_max_recv))
      × Within
          (run steps (no_data_received initial_max_recv) []).0.final_size
          (run steps (no_data_received initial_max_recv) []).0.limit
run-inside_window initial_max_recv steps frames =
    let start = no_data_received initial_max_recv in
    let f = run-Fits steps start [] (record { window = omega arith; size = λ n e. cc e }) in
    let high : (run steps start []).0.high_water ≡ farthest steps start =
      run-high steps start [] frames ∙ omega arith in
    (
      omega (arith, high, f.window),
      high,
      size-Within _ _ (λ n e. omega (arith, f.window, f.size n e)),
    )
