-- ===== src/Websocket/Session/Frames.antt =====
-- A connection handles just the frames that its peer writes.
use libspaznet.Base.{
  ltb, ◌==◌, Bool-cases, if_true, Bytes, length, take, drop, take-append, ℕ, zero, suc, ◌≡◌, refl,
  sym, ap, ◌∙◌, inl, inr, Bool, true, false, [], ◌∷◌, ◌++◌, append-nil, arith,
}
use libspaznet.Wire.Slices.{drop_all}
use libspaznet.Websocket.Frame.{continuation, Frame, is_control_opcode, mask_from, serialize}
use libspaznet.Websocket.Frame.Masking.{length-mask_from, mask_from-twice}
use libspaznet.Websocket.Frame.RoundTrip.{IsFrame}
use libspaznet.Websocket.Header.{Verdict}
use libspaznet.Websocket.Session.{
  Phase, Session, finish_frame, handle_data, handle_frame, with_header, try_read_header, try_read,
  process, fuel_for, receive, on_data, reading_header, reading_payload,
}
use libspaznet.Websocket.Session.Pieces.{handle_frame-Same}
use libspaznet.Websocket.Session.Steps.{read_header-step, payload-step}
use libspaznet.Websocket.Session.Cuts.{
  process-closed, process-waits, process-on, process-off, process-enough, enough, on_data-process,
}
use libspaznet.Websocket.Session.Delivery.{serialize-Reads}

-- An open connection between two frames.
abbrev pub ready : Session → Session
ready s = record s { buffer = []; phase = reading_header; closing = false }

-- The same, with the fields that a header of `f` sets.
abbrev pub announced : Frame → Session → Session
announced f s = record (ready s) {
  pending_masking_key = f.masking_key;
  pending_fin = f.fin;
  pending_opcode = f.opcode;
  pending_payload_len = f.payload_length;
}

-- With nothing to read the loop does nothing.
process-idle : (n : ℕ) (s : Session) → s.buffer ≡ [] → s.phase ≡ reading_header → process n s ≡ s
unfolding process try_read try_read_header
process-idle zero s none_left at_header = refl
process-idle (suc n) s none_left at_header = elim (Bool-cases s.closing) [
  | inl shut ↦ process-closed (suc n) s shut
  | inr open_still ↦ process-waits n s open_still (
      ap (λ (p : Phase). try_read p s) at_header
      ∙ if_true (λ (r : Bool × Session). r ≡ (false, s)) (ltb (length s.buffer) 2) _ _
          (ap (λ (bs : Bytes). ltb (length bs) 2) none_left) refl)
]

-- A header and its payload, and then nothing.
two_steps :
    (n : ℕ) (s t : Session)
    → s.closing ≡ false
    → try_read s.phase s ≡ (true, t)
    → t.closing ≡ false
    → (try_read t.phase t).1.buffer ≡ []
    → (try_read t.phase t).1.phase ≡ reading_header
    → process (suc (suc n)) s ≡ (try_read t.phase t).1
two_steps n s t open_s first open_t none_left at_header =
    let r = try_read t.phase t in
    process-on (suc n) s open_s (ap (λ (q : Bool × Session). q.0) first)
    ∙ ap (λ (q : Bool × Session). process (suc n) q.1) first
    ∙ elim (Bool-cases r.0) [
      | inl on ↦ process-on n t open_t on ∙ process-idle n r.1 none_left at_header
      | inr off ↦ process-off n t open_t off
    ]

-- A frame that a peer may send, masked as a client must, arrives on an open connection between two
-- frames, in one read or, by `on_data-on_data`, in any: the connection reads it whole and does what
-- `handle_frame` does with its opcode, its `fin` and its payload, the mask taken off; nothing of it is
-- left in the buffer.
pub on_data-serialize :
    (f : Frame) (s : Session)
    → IsFrame f
    → f.masked ≡ true
    → (on_data (serialize f) (ready s) ≡ (handle_frame f.opcode f.fin f.payload (announced f s)).1)
      × ((on_data (serialize f) (ready s)).buffer ≡ [])
unfolding try_read with_header
on_data-serialize f s is masked =
    let reads = serialize-Reads f is masked in
    let hidden = mask_from f.masking_key 0 f.payload in
    let s1 = receive (serialize f) (ready s) in
    let s2 = record (announced f s) { buffer = hidden; phase = reading_payload } in
    let first : try_read s1.phase s1 ≡ (true, s2) =
      read_header-step s1 reads.long reads.room
      ∙ ap (λ (v : Verdict). with_header v s1) reads.verdict
      ∙ ap (λ (bs : Bytes). (true, record (announced f s) { buffer = bs; phase = reading_payload }))
          reads.behind in
    let sized : length hidden ≡ f.payload_length =
      length-mask_from f.masking_key 0 f.payload ∙ sym is.counted in
    let all : take f.payload_length hidden ≡ hidden = rw (← sized) (take_whole hidden) in
    let none_left : drop f.payload_length hidden ≡ [] =
      drop_all f.payload_length hidden (omega (arith, sized)) in
    let second : try_read s2.phase s2 ≡ handle_frame f.opcode f.fin f.payload (announced f s) =
      payload-step s2 (omega (arith, sized))
      ∙ ap
          (λ (bs : Bytes).
            handle_frame f.opcode f.fin (mask_from f.masking_key 0 bs)
              (record (announced f s) { buffer = drop f.payload_length hidden }))
          all
      ∙ ap
          (λ (bs : Bytes).
            handle_frame f.opcode f.fin bs
              (record (announced f s) { buffer = drop f.payload_length hidden }))
          (mask_from-twice f.masking_key 0 f.payload)
      ∙ ap
          (λ (bs : Bytes).
            handle_frame f.opcode f.fin f.payload (record (announced f s) { buffer = bs }))
          none_left in
    let stops = (handle_frame-Same [] f.opcode f.fin f.payload (announced f s) refl).stops in
    let empty : (try_read s2.phase s2).1.buffer ≡ [] =
      ap (λ (q : Bool × Session). q.1.buffer) second ∙ stops.buffer_kept in
    let again : (try_read s2.phase s2).1.phase ≡ reading_header =
      ap (λ (q : Bool × Session). q.1.phase) second ∙ stops.phase_kept in
    let whole : on_data (serialize f) (ready s)
        ≡ (handle_frame f.opcode f.fin f.payload (announced f s)).1 =
      on_data-process (serialize f) (ready s)
      ∙ process-enough (fuel_for s1) (suc (suc (fuel_for s1))) s1 (enough s1)
          (omega (arith, enough s1))
      ∙ two_steps (fuel_for s1) s1 s2 refl first refl empty again
      ∙ ap (λ (q : Bool × Session). q.1) second in
    (whole, ap (λ (t : Session). t.buffer) whole ∙ stops.buffer_kept)
  where
    take_whole : (xs : Bytes) → take (length xs) xs ≡ xs
    take_whole xs = rw append-nil at (take-append xs [])

-- A message in one piece, of text or of bytes, that arrives on an open connection between two frames
-- and outside of a fragmented message, is delivered to the handler with its opcode and its payload;
-- nothing is written, and the connection stays open.
pub on_data-delivers :
    (f : Frame) (s : Session)
    → IsFrame f
    → f.masked ≡ true
    → f.fin ≡ true
    → is_control_opcode f.opcode ≡ false
    → (f.opcode == continuation) ≡ false
    → s.fragmented ≡ false
    → ((on_data (serialize f) (ready s)).messages
        ≡ s.messages ++ (record { opcode = f.opcode; content = f.payload } ∷ []))
      × ((on_data (serialize f) (ready s)).written ≡ s.written)
      × ((on_data (serialize f) (ready s)).closing ≡ false)
unfolding handle_frame handle_data finish_frame
on_data-delivers f s is masked last data_frame new plain =
    let t = announced f s in
    let done : handle_frame f.opcode f.fin f.payload t ≡ (
      true,
      record t {
        current_message_opcode = f.opcode;
        fragmented = false;
        message_buffer = [];
        messages = s.messages ++ (record { opcode = f.opcode; content = f.payload } ∷ []);
      },
    ) =
      rw (data_frame, new, plain, last) refl in
    let whole = (on_data-serialize f s is masked).0 ∙ ap (λ (q : Bool × Session). q.1) done in
    (
      ap (λ (u : Session). u.messages) whole,
      ap (λ (u : Session). u.written) whole,
      ap (λ (u : Session). u.closing) whole,
    )
