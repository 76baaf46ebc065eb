-- ===== src/Websocket/Session/Steps.antt =====
-- A step either waits, or does the same with more bytes behind it.
use libspaznet.Base.{
  ltb, ltb-ge, Bool-cases, Bytes, length, take, drop, length-append, length-drop, ℕ, ◌+◌, ◌*◌, ◌≤◌,
  ◌<◌, ◌≡◌, refl, sym, ap, ◌∙◌, subst, ◌⊎◌, inl, inr, Bool, true, false, ◌++◌, arith,
}
use libspaznet.Wire.Slices.{take_within, drop_within}
use libspaznet.Websocket.Frame.{mask_from}
use libspaznet.Websocket.Header.{header_size, Verdict, read_header, refuses, accepts}
use libspaznet.Websocket.Header.Within.{header_size-within, two≤header_size, read_header-within}
use libspaznet.Websocket.Session.{
  Phase, Session, fail_close, handle_frame, with_header, try_read_header, try_read_payload,
  try_read, receive, reading_header, reading_payload,
}
use libspaznet.Websocket.Session.Pieces.{later, fail_close-later, handle_frame-Same}

unfoldable pub turn : Phase → ℕ
turn reading_header = 0
turn reading_payload = 1

-- How many steps are left at most.
abbrev pub steps_left : Session → ℕ
steps_left s = 2 * length s.buffer + turn s.phase

-- A step that is taken: with bytes behind it as without, closing where it stops, and nearer to the
-- end where it goes on.
pub record Goes (ys : Bytes) (s : Session) : Type 0 where
  pub same : try_read s.phase (receive ys s) ≡ later ys (try_read s.phase s)
  pub stopped : (try_read s.phase s).0 ≡ false → (try_read s.phase s).1.closing ≡ true
  pub less : (try_read s.phase s).0 ≡ true → steps_left (try_read s.phase s).1 < steps_left s

with_header-later :
    (ys : Bytes) (v : Verdict) (s : Session)
    → 2 ≤ length s.buffer
    → header_size s.buffer ≤ length s.buffer
    → with_header v (receive ys s) ≡ later ys (with_header v s)
unfolding with_header
with_header-later ys (refuses code) s two room =
    ap (λ (t : Session). (false, t)) (fail_close-later ys code s)
with_header-later ys (accepts fin opcode masking_key size) s two room =
    let rest : drop (header_size (s.buffer ++ ys)) (s.buffer ++ ys)
        ≡ drop (header_size s.buffer) s.buffer ++ ys =
      rw (header_size-within s.buffer ys two)
        (drop_within (header_size s.buffer) s.buffer ys room) in
    ap
      (λ (bs : Bytes). (
        true,
        record s {
          pending_masking_key = masking_key;
          pending_fin = fin;
          pending_opcode = opcode;
          pending_payload_len = size;
          buffer = bs;
          phase = reading_payload;
        },
      ))
      rest

with_header-stopped :
    (v : Verdict) (s : Session) → (with_header v s).0 ≡ false → (with_header v s).1.closing ≡ true
unfolding with_header fail_close
with_header-stopped (refuses code) s e = refl
with_header-stopped (accepts fin opcode masking_key size) s e = absurd (cc e)

with_header-less :
    (v : Verdict) (s : Session)
    → header_size s.buffer ≤ length s.buffer
    → (with_header v s).0 ≡ true
    → steps_left (with_header v s).1 < 2 * length s.buffer
unfolding with_header turn
with_header-less (refuses code) s room e = absurd (cc e)
with_header-less (accepts fin opcode masking_key size) s room e =
    omega (arith, room, two≤header_size s.buffer, length-drop (header_size s.buffer) s.buffer)

pub read_header-step :
    (s : Session)
    → 2 ≤ length s.buffer
    → header_size s.buffer ≤ length s.buffer
    → try_read_header s ≡ with_header (read_header s.buffer) s
unfolding try_read_header
read_header-step s two room =
    rw (ltb-ge (length s.buffer) 2 two, ltb-ge (length s.buffer) (header_size s.buffer) room) refl

header-Goes :
    (ys : Bytes) (s : Session)
    → s.phase ≡ reading_header
    → 2 ≤ length s.buffer
    → header_size s.buffer ≤ length s.buffer
    → Goes ys s
unfolding try_read turn
header-Goes ys s at_header two room =
    let plain : try_read s.phase s ≡ with_header (read_header s.buffer) s =
      ap (λ (p : Phase). try_read p s) at_header ∙ read_header-step s two room in
    let v = read_header s.buffer in
    let more : try_read s.phase (receive ys s) ≡ with_header v (receive ys s) =
      ap (λ (p : Phase). try_read p (receive ys s)) at_header
      ∙ (read_header-step (receive ys s) (omega (arith, two, length-append s.buffer ys)) (
            rw (header_size-within s.buffer ys two)
              (omega (arith, room, length-append s.buffer ys)))
          ∙ ap (λ (w : Verdict). with_header w (receive ys s))
              (read_header-within s.buffer ys room)) in
    record {
      same = more ∙ with_header-later ys v s two room ∙ ap (later ys) (sym plain);
      stopped =
          subst (λ (r : Bool × Session). r.0 ≡ false → r.1.closing ≡ true) (sym plain)
            (with_header-stopped v s);
      less =
          subst (λ (r : Bool × Session). r.0 ≡ true → steps_left r.1 < steps_left s) (sym plain)
            (λ e. omega (arith, with_header-less v s room e));
    }

-- The frame whose payload is there.
abbrev pub whole_frame : Session → Bool × Session
whole_frame s =
    handle_frame s.pending_opcode s.pending_fin
      (mask_from s.pending_masking_key 0 (take s.pending_payload_len s.buffer))
      (record s { buffer = drop s.pending_payload_len s.buffer; phase = reading_header })

pub payload-step :
    (s : Session) → s.pending_payload_len ≤ length s.buffer → try_read_payload s ≡ whole_frame s
unfolding try_read_payload
payload-step s room = rw (ltb-ge (length s.buffer) s.pending_payload_len room) refl

payload-Goes :
    (ys : Bytes) (s : Session)
    → s.phase ≡ reading_payload
    → s.closing ≡ false
    → s.pending_payload_len ≤ length s.buffer
    → Goes ys s
unfolding try_read turn
payload-Goes ys s at_payload open_still room =
    let n = s.pending_payload_len in
    let plain : try_read s.phase s ≡ whole_frame s =
      ap (λ (p : Phase). try_read p s) at_payload ∙ payload-step s room in
    let payload = mask_from s.pending_masking_key 0 (take n s.buffer) in
    let t = record s { buffer = drop n s.buffer; phase = reading_header } in
    let h = handle_frame-Same ys s.pending_opcode s.pending_fin payload t open_still in
    let more : try_read s.phase (receive ys s) ≡ later ys (whole_frame s) =
      ap (λ (p : Phase). try_read p (receive ys s)) at_payload
      ∙ payload-step (receive ys s) (omega (arith, room, length-append s.buffer ys))
      ∙ ap
          (λ (bs : Bytes).
            handle_frame s.pending_opcode s.pending_fin (mask_from s.pending_masking_key 0 bs)
              (record s { buffer = drop n (s.buffer ++ ys); phase = reading_header }))
          (take_within n s.buffer ys room)
      ∙ ap
          (λ (bs : Bytes).
            handle_frame s.pending_opcode s.pending_fin payload
              (record s { buffer = bs; phase = reading_header }))
          (drop_within n s.buffer ys room)
      ∙ h.same in
    record {
      same = more ∙ ap (later ys) (sym plain);
      stopped =
          subst (λ (r : Bool × Session). r.0 ≡ false → r.1.closing ≡ true) (sym plain)
            h.stops.stopped;
      less =
          subst (λ (r : Bool × Session). r.0 ≡ true → steps_left r.1 < steps_left s) (sym plain)
            (λ e.
              rw (h.stops.buffer_kept, h.stops.phase_kept, at_payload)
                (omega (arith, length-drop n s.buffer)));
    }

pub step_cases :
    (ys : Bytes) (s : Session) → s.closing ≡ false → (try_read s.phase s ≡ (false, s)) ⊎ Goes ys s
unfolding try_read try_read_header try_read_payload
step_cases ys s open_still = by_phase s.phase refl
  where
    by_phase : (p : Phase) → s.phase ≡ p → (try_read s.phase s ≡ (false, s)) ⊎ Goes ys s
    by_phase reading_header e = elim (Bool-cases (ltb (length s.buffer) 2)) [
      | inl few ↦ inl (rw (e, few) refl)
      | inr two ↦ elim (Bool-cases (ltb (length s.buffer) (header_size s.buffer))) [
        | inl few ↦ inl (rw (e, two, few) refl)
        | inr room ↦ inr (header-Goes ys s e (ground (arith, two)) (ground (arith, room)))
      ]
    ]
    by_phase reading_payload e = elim (Bool-cases (ltb (length s.buffer) s.pending_payload_len)) [
      | inl few ↦ inl (rw (e, few) refl)
      | inr room ↦ inr (payload-Goes ys s e open_still (ground (arith, room)))
    ]
