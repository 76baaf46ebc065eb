-- ===== src/Quic/Stream/Recv/InOrder.antt =====
-- What the application reads is what the peer wrote, in order.
use libspaznet.Base.{
  ltb, leb, ◌==◌, ==_iff, Bool-cases, Option-cases, Bytes, length, take, All, length-append, add64,
  ℕ, ◌+◌, ◌^◌, ◌≤◌, ◌<◌, ◌≡◌, refl, sym, ap, subst, inl, inr, Bool, none, some, List, [], ◌∷◌, ◌++◌,
  arith,
}
use libspaznet.Wire.Slices.{IsSlice, IsSlice-append}
use libspaznet.Quic.Stream.Recv.{
  RecvSide, no_data_received, is_reset, breaks_final_size, advance, accept, deliver, at_end,
  note_read, read_chunks, read_contiguous, set_recv_limit, other_size, take_reset, after_reset,
}
use libspaznet.Quic.Stream.Recv.Reassembly.{AllSlices, trim_put-AllSlices}

-- A frame of the peer, a read of the application, or one of the two changes of the connection.
pub data RecvStep : Type 0 where
  delivered : (offset : ℕ) (bytes : Bytes) (fin : Bool) → RecvStep
  read : RecvStep
  limited : (new_limit : ℕ) → RecvStep
  was_reset : (final_size app_error : ℕ) → RecvStep

-- The side afterwards and the bytes that the step gives the application; a refused step changes
-- nothing.
abbrev pub step : RecvStep → RecvSide → RecvSide × Bytes
step (RecvStep.delivered offset bytes fin) r = elim (deliver offset bytes fin r) [
  | none ↦ (r, [])
  | some r' ↦ (r', [])
]
step RecvStep.read r = ((read_contiguous r).0, (read_contiguous r).1)
step (RecvStep.limited new_limit) r = ((set_recv_limit new_limit r).0, [])
step (RecvStep.was_reset final_size app_error) r = elim (take_reset final_size app_error r) [
  | none ↦ (r, [])
  | some r' ↦ (r', [])
]

-- All steps in order, with what the application has read so far.
abbrev pub run : List RecvStep → RecvSide → Bytes → RecvSide × Bytes
run [] r out = (r, out)
run (s ∷ ss) r out = run ss (step s r).0 (out ++ (step s r).1)

-- The data of every frame is what the stream `whole` has at its offset.
abbrev pub FromStream : Bytes → RecvStep → Type 0
FromStream whole (RecvStep.delivered offset bytes fin) = IsSlice whole offset bytes
FromStream whole RecvStep.read = Unit
FromStream whole (RecvStep.limited new_limit) = Unit
FromStream whole (RecvStep.was_reset final_size app_error) = Unit

module _ (whole : Bytes) (short : length whole < 2 ^ 62) where
  -- The chunks stand in the stream, and the cursor inside it.
  record Holds (r : RecvSide) : Type 0 where
    slices : AllSlices whole r.chunks
    cursor : r.read_offset ≤ length whole

  deliver-Holds :
      (offset : ℕ) (bytes : Bytes) (fin : Bool) (r r' : RecvSide)
      → IsSlice whole offset bytes
      → Holds r
      → deliver offset bytes fin r ≡ some r'
      → Holds r' × (r'.read_offset ≡ r.read_offset)
  unfolding deliver accept advance
  deliver-Holds offset bytes fin r r' hb h e = elim (Bool-cases (is_reset r.state)) [
    | inl closed ↦
        let same : r ≡ r' = cc (rw closed at e) in
        (subst Holds same h, ap (λ x. x.read_offset) (sym same))
    | inr open_ ↦ elim (Bool-cases (ltb r.limit (add64 offset (length bytes)))) [
      | inl over ↦ absurd (cc (rw (open_, over) at e))
      | inr fits ↦
          elim (Bool-cases (breaks_final_size (add64 offset (length bytes)) fin r.final_size)) [
            | inl broken ↦ absurd (cc (rw (open_, fits, broken) at e))
            | inr sound ↦
                let same : accept offset bytes fin r ≡ r' = cc (rw (open_, fits, sound) at e) in
                (
                  subst Holds same (record {
                    slices =
                        trim_put-AllSlices whole short r.read_offset offset bytes r.chunks h.cursor
                          hb h.slices;
                    cursor = h.cursor;
                  }),
                  ap (λ x. x.read_offset) (sym same),
                )
          ]
    ]
  ]

  nothing_read : (r : RecvSide) → Holds r → IsSlice whole r.read_offset []
  nothing_read r h = record { inside = omega (arith, h.cursor); same = refl }

  -- What is read is what the stream has at the cursor.
  read_chunks-Holds :
      (chunks : List (ℕ × Bytes)) (r : RecvSide)
      → AllSlices whole chunks
      → r.chunks ≡ chunks
      → Holds r
      → Holds (read_chunks chunks r).0
        × IsSlice whole r.read_offset (read_chunks chunks r).1
        × ((read_chunks chunks r).0.read_offset ≡ r.read_offset + length (read_chunks chunks r).1)
  unfolding read_chunks note_read
  read_chunks-Holds [] r hs same h =
      (record { slices = h.slices; cursor = h.cursor }, nothing_read r h, omega arith)
  read_chunks-Holds ((k, c) ∷ rest) r (hc, hs) same h = elim (Bool-cases (k == r.read_offset)) [
    | inr hole ↦ rw hole (h, nothing_read r h, omega arith)
    | inl here ↦
        let at_cursor : k ≡ r.read_offset = (==_iff k r.read_offset).0 here in
        let moved : add64 r.read_offset (length c) ≡ r.read_offset + length c =
          omega (arith, at_cursor, hc.inside) in
        rw here (
          record { slices = hs; cursor = omega (arith, moved, at_cursor, hc.inside) },
          rw (← at_cursor) hc,
          moved,
        )
  ]

  take_reset-Holds :
      (size error : ℕ) (r r' : RecvSide)
      → Holds r
      → take_reset size error r ≡ some r'
      → Holds r' × (r'.read_offset ≡ r.read_offset)
  unfolding take_reset after_reset
  take_reset-Holds size error r r' h e = elim (Bool-cases (other_size size r.final_size)) [
    | inl other ↦ absurd (cc (rw other at e))
    | inr agreed ↦ elim (Bool-cases (ltb r.limit size)) [
      | inl over ↦ absurd (cc (rw (agreed, over) at e))
      | inr fits ↦
          let same : after_reset size error r ≡ r' = cc (rw (agreed, fits) at e) in
          (
            subst Holds same (record { slices = tt; cursor = h.cursor }),
            ap (λ x. x.read_offset) (sym same),
          )
    ]
  ]

  -- A step gives the application what the stream has at the cursor.
  record Advances (r : RecvSide) (after : RecvSide × Bytes) : Type 0 where
    next : Holds after.0
    piece : IsSlice whole r.read_offset after.1
    moved : after.0.read_offset ≡ r.read_offset + length after.1

  unmoved :
      (r r' : RecvSide) → Holds r → Holds r' → r'.read_offset ≡ r.read_offset → Advances r (r', [])
  unmoved r r' h h' e = record { next = h'; piece = nothing_read r h; moved = omega (arith, e) }

  step-Advances :
      (s : RecvStep) (r : RecvSide) → FromStream whole s → Holds r → Advances r (step s r)
  unfolding read_contiguous set_recv_limit
  step-Advances (RecvStep.delivered offset bytes fin) r hb h =
      elim (Option-cases (deliver offset bytes fin r)) [
        | inl failed ↦ rw (failed, step) (unmoved r r h h refl)
        | inr (r', e) ↦
            let (h', same) = deliver-Holds offset bytes fin r r' hb h e in
            rw (e, step) (unmoved r r' h h' same)
      ]
  step-Advances RecvStep.read r hs h =
      let (next, piece, moved) = read_chunks-Holds r.chunks r h.slices refl h in
      record { next = next; piece = piece; moved = moved }
  step-Advances (RecvStep.limited new_limit) r hs h = elim (Bool-cases (leb new_limit r.limit)) [
    | inl less ↦ rw (less, step) (unmoved r r h h refl)
    | inr more ↦
        rw (more, step)
          (unmoved r (record r { limit = new_limit }) h
            (record { slices = h.slices; cursor = h.cursor }) refl)
  ]
  step-Advances (RecvStep.was_reset size error) r hs h =
      elim (Option-cases (take_reset size error r)) [
        | inl failed ↦ rw (failed, step) (unmoved r r h h refl)
        | inr (r', e) ↦
            let (h', same) = take_reset-Holds size error r r' h e in
            rw (e, step) (unmoved r r' h h' same)
      ]

  run-prefix :
      (ss : List RecvStep) (r : RecvSide) (out : Bytes)
      → All (FromStream whole) ss
      → Holds r
      → IsSlice whole 0 out
      → r.read_offset ≡ length out
      → IsSlice whole 0 (run ss r out).1 × ((run ss r out).0.read_offset ≡ length (run ss r out).1)
  run-prefix [] r out hs h ho e = (ho, e)
  run-prefix (s ∷ ss) r out (hb, hs) h ho e =
      let a = step-Advances s r hb h in
      let base : r.read_offset ≡ 0 + length out = omega (arith, e) in
      run-prefix ss (step s r).0 (out ++ (step s r).1) hs a.next
        (IsSlice-append whole 0 out (step s r).1 ho
          (subst (λ k. IsSlice whole k (step s r).1) base a.piece))
        (omega (arith, a.moved, e, length-append out (step s r).1))

-- Whatever frames arrive, in whatever order, repeated or overlapping, with reads, new limits and resets
-- in between: as long as the data of each frame is what the peer's stream of fewer than 2 ^ 62 bytes
-- has at its offset, what the application has read in all is the stream's beginning, up to the
-- read offset.
pub run-in_order :
    (whole : Bytes) (initial_max_recv : ℕ) (steps : List RecvStep)
    → length whole < 2 ^ 62
    → All (FromStream whole) steps
    → (run steps (no_data_received initial_max_recv) []).1
      ≡ take (run steps (no_data_received initial_max_recv) []).0.read_offset whole
run-in_order whole initial_max_recv steps short hs =
    let (piece, at_end) =
      run-prefix whole short steps (no_data_received initial_max_recv) [] hs
        (record { slices = tt; cursor = omega arith })
        (record { inside = omega arith; same = refl }) refl in
    rw at_end (sym piece.same)
