-- ===== src/Websocket/Session/Cuts.antt =====
-- How the bytes of the stream are cut into reads makes no difference.
use libspaznet.Base.{
  if◌then◌else◌, Bool-cases, if_true, if_false, Bytes, length, length-append, ℕ, zero, suc, ◌+◌,
  ◌*◌, ◌<◌, ◌≡◌, refl, sym, ap, ◌∙◌, inl, inr, Bool, true, false, [], ◌++◌, append_assoc, arith,
}
use libspaznet.Websocket.Session.{
  Phase, Session, try_read, process, fuel_for, receive, on_data, reading_header, reading_payload,
}
use libspaznet.Websocket.Session.Steps.{turn, steps_left, step_cases}

-- What the loop makes of a step.
abbrev next : ℕ → Bool × Session → Session
next n r = if r.0 then process n r.1 else r.1

pub process-closed : (n : ℕ) (s : Session) → s.closing ≡ true → process n s ≡ s
unfolding process
process-closed zero s shut = refl
process-closed (suc n) s shut = if_true (λ (t : Session). t ≡ s) s.closing s _ shut refl

process-open :
    (n : ℕ) (s : Session) → s.closing ≡ false → process (suc n) s ≡ next n (try_read s.phase s)
unfolding process
process-open n s open_still =
    if_false (λ (t : Session). t ≡ next n (try_read s.phase s)) s.closing s _ open_still refl

-- Where a step waits, the loop ends.
pub process-waits :
    (n : ℕ) (s : Session)
    → s.closing ≡ false
    → try_read s.phase s ≡ (false, s)
    → process (suc n) s ≡ s
process-waits n s open_still waits = process-open n s open_still ∙ ap (next n) waits

pub process-on :
    (n : ℕ) (s : Session)
    → s.closing ≡ false
    → (try_read s.phase s).0 ≡ true
    → process (suc n) s ≡ process n (try_read s.phase s).1
process-on n s open_still on = process-open n s open_still ∙ rw on refl

pub process-off :
    (n : ℕ) (s : Session)
    → s.closing ≡ false
    → (try_read s.phase s).0 ≡ false
    → process (suc n) s ≡ (try_read s.phase s).1
process-off n s open_still off = process-open n s open_still ∙ rw off refl

-- The fuel does not matter, where there is enough.
pub process-enough :
    (k m : ℕ) (s : Session) → steps_left s < k → steps_left s < m → process k s ≡ process m s
process-enough zero m s hk hm = absurd (omega (arith, hk))
process-enough (suc k) zero s hk hm = absurd (omega (arith, hm))
process-enough (suc k) (suc m) s hk hm = elim (Bool-cases s.closing) [
  | inl shut ↦ process-closed (suc k) s shut ∙ sym (process-closed (suc m) s shut)
  | inr open_still ↦ elim (step_cases [] s open_still) [
    | inl waits ↦ process-waits k s open_still waits ∙ sym (process-waits m s open_still waits)
    | inr goes ↦ elim (Bool-cases (try_read s.phase s).0) [
      | inr off ↦ process-off k s open_still off ∙ sym (process-off m s open_still off)
      | inl on ↦
          let less = goes.less on in
          process-on k s open_still on
          ∙ process-enough k m (try_read s.phase s).1 (omega (arith, less, hk))
              (omega (arith, less, hm))
          ∙ sym (process-on m s open_still on)
    ]
  ]
]

pub enough : (s : Session) → steps_left s < fuel_for s
unfolding turn
enough s = by_phase s.phase
  where
    by_phase : (p : Phase) → 2 * length s.buffer + turn p < fuel_for s
    by_phase reading_header = omega arith
    by_phase reading_payload = omega arith

-- To go on with bytes that come later is to have had them from the start.
process-cut :
    (n m : ℕ) (ys : Bytes) (s : Session)
    → steps_left s < n
    → steps_left (receive ys s) < m
    → process (fuel_for (receive ys (process n s))) (receive ys (process n s))
      ≡ process m (receive ys s)
process-cut zero m ys s hn hm = absurd (omega (arith, hn))
process-cut (suc n) zero ys s hn hm = absurd (omega (arith, hm))
process-cut (suc n) (suc m) ys s hn hm = elim (Bool-cases s.closing) [
  | inl shut ↦
      ap from (process-closed (suc n) s shut)
      ∙ process-closed (fuel_for (receive ys s)) (receive ys s) shut
      ∙ sym (process-closed (suc m) (receive ys s) shut)
  | inr open_still ↦ elim (step_cases ys s open_still) [
    | inl waits ↦
        ap from (process-waits n s open_still waits)
        ∙ process-enough (fuel_for (receive ys s)) (suc m) (receive ys s) (enough (receive ys s)) hm
    | inr goes ↦
        let r = try_read s.phase s in
        elim (Bool-cases r.0) [
          | inl on ↦
              let less = goes.less on in
              let on' : (try_read s.phase (receive ys s)).0 ≡ true =
                ap (λ (q : Bool × Session). q.0) goes.same ∙ on in
              ap from (process-on n s open_still on)
              ∙ process-cut n m ys r.1 (omega (arith, less, hn))
                  (omega (arith, less, hm, length-append s.buffer ys, length-append r.1.buffer ys))
              ∙ ap (λ (q : Bool × Session). process m q.1) (sym goes.same)
              ∙ sym (process-on m (receive ys s) open_still on')
          | inr off ↦
              let off' : (try_read s.phase (receive ys s)).0 ≡ false =
                ap (λ (q : Bool × Session). q.0) goes.same ∙ off in
              ap from (process-off n s open_still off)
              ∙ process-closed (fuel_for (receive ys r.1)) (receive ys r.1) (goes.stopped off)
              ∙ ap (λ (q : Bool × Session). q.1) (sym goes.same)
              ∙ sym (process-off m (receive ys s) open_still off')
        ]
  ]
]
  where
    from : Session → Session
    from t = process (fuel_for (receive ys t)) (receive ys t)

pub on_data-process :
    (ys : Bytes) (s : Session) → on_data ys s ≡ process (fuel_for (receive ys s)) (receive ys s)
unfolding on_data
on_data-process ys s = elim (Bool-cases s.closing) [
  | inl shut ↦
      if_true (λ (t : Session). t ≡ process (fuel_for (receive ys s)) (receive ys s)) s.closing _ _
        shut (sym (process-closed (fuel_for (receive ys s)) (receive ys s) shut))
  | inr open_still ↦
      if_false (λ (t : Session). t ≡ process (fuel_for (receive ys s)) (receive ys s)) s.closing _ _
        open_still refl
]

-- Bytes that arrive in two reads are handled as in one, on every connection: whatever the bytes are
-- and wherever they are cut, in a header, a key or a payload, or behind a frame that made the server
-- close, the same messages are delivered, the same bytes written and the same state is left.
pub on_data-on_data :
    (xs ys : Bytes) (s : Session) → on_data ys (on_data xs s) ≡ on_data (xs ++ ys) s
on_data-on_data xs ys s =
    let joined : receive ys (receive xs s) ≡ receive (xs ++ ys) s =
      ap (λ (bs : Bytes). record s { buffer = bs }) (append_assoc s.buffer xs ys) in
    let first = process (fuel_for (receive xs s)) (receive xs s) in
    ap (on_data ys) (on_data-process xs s)
    ∙ on_data-process ys first
    ∙ process-cut (fuel_for (receive xs s)) (fuel_for (receive ys (receive xs s))) ys (receive xs s)
        (enough (receive xs s)) (enough (receive ys (receive xs s)))
    ∙ ap (λ (t : Session). process (fuel_for t) t) joined
    ∙ sym (on_data-process (xs ++ ys) s)
