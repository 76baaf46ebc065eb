-- ===== src/Websocket/Session/Pieces.antt =====
-- How the bytes of the stream are cut into reads makes no difference.
use libspaznet.Base.{
  ltb, ◌==◌, if◌then◌else◌, Bytes, length, ℕ, ◌+◌, ◌≡◌, refl, ap, Bool, true, false, not, [], ◌++◌,
}
use libspaznet.Websocket.Frame.{
  continuation, close, ping, pong, k_max_payload_bytes, is_control_opcode,
}
use libspaznet.Websocket.Session.{
  Phase, Session, send_frame, send_close, give_up, fail_close, finish_frame, handle_control,
  handle_data, handle_frame, receive,
}

-- Bytes that come later stay behind what a step leaves.
abbrev pub later : Bytes → Bool × Session → Bool × Session
later ys r = (r.0, receive ys r.1)

-- A step says to stop only when the connection is closing, and leaves the bytes that it was given.
pub record Stops (buffer : Bytes) (phase : Phase) (r : Bool × Session) : Type 0 where
  pub stopped : r.0 ≡ false → r.1.closing ≡ true
  pub buffer_kept : r.1.buffer ≡ buffer
  pub phase_kept : r.1.phase ≡ phase

send_close-later :
    (ys payload : Bytes) (code : ℕ) (s : Session)
    → send_close payload code (receive ys s) ≡ receive ys (send_close payload code s)
unfolding send_close send_frame
send_close-later ys payload code s = pick s.sent_close
  where
    pick :
        (b : Bool)
        → (if b
            then receive ys s
            else send_frame close payload code (record (receive ys s) { sent_close = true }))
          ≡ receive ys
              (if b then s else send_frame close payload code (record s { sent_close = true }))
    pick true = refl
    pick false = refl

pub fail_close-later :
    (ys : Bytes) (code : ℕ) (s : Session)
    → fail_close code (receive ys s) ≡ receive ys (fail_close code s)
unfolding fail_close
fail_close-later ys code s = ap give_up (send_close-later ys [] code s)

send_close-keeps :
    (payload : Bytes) (code : ℕ) (s : Session)
    → ((send_close payload code s).buffer ≡ s.buffer)
      × ((send_close payload code s).phase ≡ s.phase)
unfolding send_close send_frame
send_close-keeps payload code s = pick s.sent_close
  where
    pick :
        (b : Bool)
        → ((if b then s else send_frame close payload code (record s { sent_close = true })).buffer
            ≡ s.buffer)
          × ((if b then s else send_frame close payload code (record s { sent_close = true })).phase
              ≡ s.phase)
    pick true = (refl, refl)
    pick false = (refl, refl)

-- A step that does the same with more bytes behind it.
pub record Same (ys : Bytes) (s : Session) (f : Session → Bool × Session) : Type 0 where
  pub same : f (receive ys s) ≡ later ys (f s)
  pub stops : Stops s.buffer s.phase (f s)

fail_close-Same :
    (ys : Bytes) (code : ℕ) (s : Session) → Same ys s (λ t. (false, fail_close code t))
unfolding fail_close
fail_close-Same ys code s =
    let (b, p) = send_close-keeps [] code s in
    record {
      same = ap (λ (t : Session). (false, t)) (fail_close-later ys code s);
      stops = record { stopped = λ e. refl; buffer_kept = b; phase_kept = p };
    }

-- A test that does not look at the buffer.
if-Same :
    (ys : Bytes) (s : Session) (b : Bool) (f g : Session → Bool × Session)
    → Same ys s f
    → Same ys s g
    → Same ys s (λ t. if b then f t else g t)
if-Same ys s true f g hf hg = hf
if-Same ys s false f g hf hg = hg

finish_frame-Same :
    (ys : Bytes) (fin : Bool) (s : Session) → s.closing ≡ false → Same ys s (finish_frame fin)
unfolding finish_frame
finish_frame-Same ys true s h = record {
  same = refl;
  stops = record { stopped = λ e. absurd (cc (rw h at e)); buffer_kept = refl; phase_kept = refl };
}
finish_frame-Same ys false s h = record {
  same = refl;
  stops = record { stopped = λ e. absurd (cc (rw h at e)); buffer_kept = refl; phase_kept = refl };
}

handle_control-Same :
    (ys : Bytes) (opcode : ℕ) (payload : Bytes) (s : Session)
    → Same ys s (handle_control opcode payload)
unfolding handle_control send_frame
handle_control-Same ys opcode payload s =
    let (b, p) = send_close-keeps payload 0 s in
    if-Same ys s (opcode == close) (λ t. (false, give_up (send_close payload 0 t)))
      (λ t. if opcode == ping then (true, send_frame pong payload 0 t) else (true, t))
      (record {
        same = ap (λ (t : Session). (false, give_up t)) (send_close-later ys payload 0 s);
        stops = record { stopped = λ e. refl; buffer_kept = b; phase_kept = p };
      })
      (if-Same ys s (opcode == ping) (λ t. (true, send_frame pong payload 0 t)) (λ t. (true, t))
        (record {
          same = refl;
          stops = record { stopped = λ e. absurd (cc e); buffer_kept = refl; phase_kept = refl };
        })
        (record {
          same = refl;
          stops = record { stopped = λ e. absurd (cc e); buffer_kept = refl; phase_kept = refl };
        }))

handle_data-Same :
    (ys : Bytes) (opcode : ℕ) (fin : Bool) (payload : Bytes) (s : Session)
    → s.closing ≡ false
    → Same ys s (handle_data opcode fin payload)
unfolding handle_data
handle_data-Same ys opcode fin payload s h =
    let start = λ (t : Session). record t {
      current_message_opcode = opcode;
      message_buffer = payload;
      fragmented = not fin;
    } in
    let add = λ (t : Session). record t { message_buffer = t.message_buffer ++ payload } in
    let first = finish_frame-Same ys fin (start s) h in
    let more = finish_frame-Same ys fin (add s) h in
    let refused = fail_close-Same ys 1002 s in
    let full = ltb k_max_payload_bytes (length s.message_buffer + length payload) in
    let result =
      if-Same ys s (not (opcode == continuation))
        (λ t. if s.fragmented then (false, fail_close 1002 t) else finish_frame fin (start t))
        (λ t.
          if not s.fragmented
          then (false, fail_close 1002 t)
          else if full
          then (false, fail_close 1009 t)
          else finish_frame fin (add t))
        (if-Same ys s s.fragmented (λ t. (false, fail_close 1002 t))
          (λ t. finish_frame fin (start t)) refused
          (record {
            same = first.same;
            stops = record {
              stopped = first.stops.stopped;
              buffer_kept = first.stops.buffer_kept;
              phase_kept = first.stops.phase_kept;
            };
          }))
        (if-Same ys s (not s.fragmented) (λ t. (false, fail_close 1002 t))
          (λ t. if full then (false, fail_close 1009 t) else finish_frame fin (add t)) refused
          (if-Same ys s full (λ t. (false, fail_close 1009 t)) (λ t. finish_frame fin (add t))
            (fail_close-Same ys 1009 s)
            (record {
              same = more.same;
              stops = record {
                stopped = more.stops.stopped;
                buffer_kept = more.stops.buffer_kept;
                phase_kept = more.stops.phase_kept;
              };
            }))) in
    record { same = result.same; stops = result.stops }

pub handle_frame-Same :
    (ys : Bytes) (opcode : ℕ) (fin : Bool) (payload : Bytes) (s : Session)
    → s.closing ≡ false
    → Same ys s (handle_frame opcode fin payload)
unfolding handle_frame
handle_frame-Same ys opcode fin payload s h =
    if-Same ys s (is_control_opcode opcode) (handle_control opcode payload)
      (handle_data opcode fin payload) (handle_control-Same ys opcode payload s)
      (handle_data-Same ys opcode fin payload s h)
