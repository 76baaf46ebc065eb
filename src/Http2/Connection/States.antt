-- ===== src/Http2/Connection/States.antt =====
-- What frames make of the state of a stream.
use libspaznet.Base.{
  ◌==◌, if◌then◌else◌, ==_iff, Bool-cases, ℕ, ◌≤◌, bit_and, ◌≡◌, refl, ap, ◌∙◌, inl, inr, Bool,
  true, false, not, ◌&&◌, ◌||◌, none, some, List, [], ◌∷◌, arith,
}
use libspaznet.Http2.Frame.{Frame, success, type_headers, end_stream}
use libspaznet.Http2.Connection.{
  StreamState, idle, opened, closed, Connection, lookup, insert, lookup-insert, get_stream_state,
  initialize_stream, close_stream, is_idle, after_type, after_flags, process_frame, run,
}

-- The state of stream `j` after a frame, by its state before: END_STREAM closes the frame's stream,
-- HEADERS opens it where it was idle, and nothing else changes.
abbrev pub next : Frame → ℕ → StreamState → StreamState
next f j s =
    if (f.stream_id == 0) || not (f.stream_id == j)
    then s
    else if not (bit_and f.flags end_stream == 0)
    then closed
    else if (f.frame_type == type_headers) && is_idle s
    then opened
    else s

state-insert :
    (id j : ℕ) (s : StreamState) (c : Connection)
    → get_stream_state j (record c { streams = insert id s c.streams })
      ≡ (if id == j then s else get_stream_state j c)
unfolding get_stream_state
state-insert id j s c = rw (lookup-insert id j s c.streams, get_stream_state) (pick (id == j))
  where
    pick :
        (b : Bool)
        → elim (if b then some s else lookup j c.streams) as (λ _. StreamState) [
          | none ↦ idle
          | some t ↦ t
        ]
          ≡ (if b then s else get_stream_state j c)
    pick true = refl
    pick false = refl

state-after_type :
    (f : Frame) (j : ℕ) (c : Connection)
    → get_stream_state j (after_type f c) ≡ (
        if (f.stream_id == j) && ((f.frame_type == type_headers) && is_idle (get_stream_state j c))
        then opened
        else get_stream_state j c)
unfolding after_type initialize_stream
state-after_type f j c = elim (Bool-cases (f.frame_type == type_headers)) [
  | inr other ↦ rw (other, after_type) (keep (f.stream_id == j))
  | inl headers ↦ elim (Bool-cases (is_idle (get_stream_state f.stream_id c))) [
    | inl fresh ↦ rw (headers, fresh, after_type) (state-insert f.stream_id j opened c ∙ own fresh)
    | inr known ↦ rw (headers, known, after_type) (own_known known)
  ]
]
  where
    keep : (b : Bool) → get_stream_state j c ≡ (if b && false then opened else get_stream_state j c)
    keep true = refl
    keep false = refl

    own :
        is_idle (get_stream_state f.stream_id c) ≡ true
        → (if f.stream_id == j then opened else get_stream_state j c) ≡ (
            if (f.stream_id == j) && is_idle (get_stream_state j c)
            then opened
            else get_stream_state j c)
    own fresh = elim (Bool-cases (f.stream_id == j)) [
      | inr n ↦ rw n refl
      | inl e ↦
          (let h : is_idle (get_stream_state j c) ≡ true =
              rw ((==_iff f.stream_id j).0 e) at fresh in
            rw (e, h) refl)
    ]

    own_known :
        is_idle (get_stream_state f.stream_id c) ≡ false
        → get_stream_state j c ≡ (
            if (f.stream_id == j) && is_idle (get_stream_state j c)
            then opened
            else get_stream_state j c)
    own_known known = elim (Bool-cases (f.stream_id == j)) [
      | inr n ↦ rw n refl
      | inl e ↦
          (let h : is_idle (get_stream_state j c) ≡ false =
              rw ((==_iff f.stream_id j).0 e) at known in
            rw (e, h) refl)
    ]

state-after_flags :
    (f : Frame) (j : ℕ) (c : Connection)
    → get_stream_state j (after_flags f c) ≡ (
        if (f.stream_id == j) && not (bit_and f.flags end_stream == 0)
        then closed
        else get_stream_state j c)
unfolding after_flags close_stream
state-after_flags f j c = elim (Bool-cases (bit_and f.flags end_stream == 0)) [
  | inl more ↦ rw (more, after_flags) (keep (f.stream_id == j))
  | inr last ↦
      rw (last, after_flags) (state-insert f.stream_id j closed c ∙ drop_true (f.stream_id == j))
]
  where
    keep : (b : Bool) → get_stream_state j c ≡ (if b && false then closed else get_stream_state j c)
    keep true = refl
    keep false = refl

    drop_true :
        (b : Bool)
        → (if b then closed else get_stream_state j c)
          ≡ (if b && true then closed else get_stream_state j c)
    drop_true true = refl
    drop_true false = refl

-- `process_frame` moves each stream as `next` says, and refuses no frame, DATA on a stream that is
-- idle or closed among them, although its comment asks for a check.
pub process_frame-next :
    (f : Frame) (c : Connection) (j : ℕ)
    → ((process_frame f c).0 ≡ success)
      × (get_stream_state j (process_frame f c).1 ≡ next f j (get_stream_state j c))
unfolding process_frame
process_frame-next f c j = elim (Bool-cases (f.stream_id == 0)) [
  | inl whole ↦ rw (whole, process_frame) (refl, refl)
  | inr stream ↦
      rw (stream, process_frame)
        (
          refl,
          state-after_flags f j (after_type f c)
              ∙ rw (state-after_type f j c)
                  (choose (f.stream_id == j) (bit_and f.flags end_stream == 0)),
        )
]
  where
    choose :
        (mine more : Bool)
        → (if mine && not more
            then closed
            else if mine && ((f.frame_type == type_headers) && is_idle (get_stream_state j c))
            then opened
            else get_stream_state j c)
          ≡ (if false || not mine
              then get_stream_state j c
              else if not more
              then closed
              else if (f.frame_type == type_headers) && is_idle (get_stream_state j c)
              then opened
              else get_stream_state j c)
    choose true true = refl
    choose true false = refl
    choose false more = refl

-- How far a stream is: the states that this connection gives, in their order.
abbrev pub stage : StreamState → ℕ
stage StreamState.idle = 0
stage StreamState.closed = 2
stage _ = 1

next-stage : (f : Frame) (j : ℕ) (s : StreamState) → stage s ≤ stage (next f j s)
next-stage f j s =
    pick ((f.stream_id == 0) || not (f.stream_id == j)) (not (bit_and f.flags end_stream == 0))
      (f.frame_type == type_headers) s
  where
    at_most : (s : StreamState) → stage s ≤ 2
    at_most StreamState.idle = omega arith
    at_most StreamState.reserved_local = omega arith
    at_most StreamState.reserved_remote = omega arith
    at_most StreamState.opened = omega arith
    at_most StreamState.half_closed_local = omega arith
    at_most StreamState.half_closed_remote = omega arith
    at_most StreamState.closed = omega arith

    fresh : (b : Bool) (s : StreamState) → is_idle s ≡ b → stage s ≤ stage (if b then opened else s)
    fresh false s e = omega arith
    fresh true StreamState.idle e = omega arith
    fresh true StreamState.reserved_local e = cc e
    fresh true StreamState.reserved_remote e = cc e
    fresh true StreamState.opened e = cc e
    fresh true StreamState.half_closed_local e = cc e
    fresh true StreamState.half_closed_remote e = cc e
    fresh true StreamState.closed e = cc e

    pick :
        (b₁ b₂ b₃ : Bool) (s : StreamState)
        → stage s
          ≤ stage (if b₁ then s else if b₂ then closed else if b₃ && is_idle s then opened else s)
    pick true b₂ b₃ s = omega arith
    pick false true b₃ s = at_most s
    pick false false true s = fresh (is_idle s) s refl
    pick false false false s = omega arith

-- Over any frames, in any order, a stream only goes on, from idle to open to closed: it is never
-- opened a second time.
pub run-stage :
    (fs : List Frame) (c : Connection) (j : ℕ)
    → stage (get_stream_state j c) ≤ stage (get_stream_state j (run fs c))
unfolding run
run-stage [] c j = omega arith
run-stage (f ∷ fs) c j =
    let step = (process_frame-next f c j).1 in
    omega (
      arith,
      run-stage fs (process_frame f c).1 j,
      next-stage f j (get_stream_state j c),
      ap stage step,
    )
