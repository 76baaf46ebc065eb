-- ===== src/Reactor/Connection/Events.antt =====
-- Whatever the event loop, the socket and the owner do, a connection stays sound.
use libspaznet.Base.{
  Bool-cases, if_true, if_false, ◌<◌, ◌≡◌, refl, sym, ◌∙◌, ◌≢◌, inl, inr, Bool, true, false, ◌||◌,
  List, [], ◌∷◌, arith,
}
use libspaznet.Reactor.InputBuffer.{receive}
use libspaznet.Reactor.OutputBuffer.{pending, SendAnswer, Result, flushed, would_block, error}
use libspaznet.Reactor.Connection.{
  BufferedConnection, report_buffered_delta, start, flush_output, after_flush, on_writable, Action,
  act_all, ReceiveAnswer, received, eof, again, fatal, rearm, read_loop, on_readable, Event, happen,
  run, fresh,
}
use libspaznet.Reactor.Connection.Invariant.{
  Running, Woken, IsSound, close-Ended, report-Running, flush-Running,
}
use libspaznet.Reactor.Connection.Steps.{close-IsSound, act-IsSound, act_all-IsSound}

-- After the flush of a connection whose write registration was taken away by the event.
after_flush-IsSound :
    (result : Result) (c : BufferedConnection)
    → Running (pending c.output) c
    → c.world.wants_write ≡ false
    → c.write_interest_armed ≡ true
    → (result ≡ flushed → pending c.output ≡ 0)
    → (result ≢ flushed → 0 < pending c.output)
    → IsSound true (after_flush result c)
unfolding after_flush
after_flush-IsSound error c r fired armed done left = inr (close-Ended c r)
after_flush-IsSound would_block c r fired armed done left = inl (
  record {
    open_still = r.open_still;
    out = r.out;
    order = r.order;
    gauge = r.gauge;
    never = r.never;
    held = r.held;
  },
  record {
    armed = sym armed;
    wakes = λ h. refl;
    listens = λ h. refl;
    flushing = λ e. left (λ q. cc q);
  },
)
after_flush-IsSound flushed c r fired armed done left = elim (Bool-cases c.close_after_flush) [
  | inl closing ↦ if_true (IsSound true) c.close_after_flush _ _ closing (inr (close-Ended c r))
  | inr staying ↦ if_false (IsSound true) c.close_after_flush _ _ staying (
      inl (
        record {
          open_still = r.open_still;
          out = r.out;
          order = r.order;
          gauge = r.gauge;
          never = r.never;
          held = r.held;
        },
        record {
          armed = fired;
          wakes = λ h. absurd (omega (arith, done refl));
          listens = λ h. refl;
          flushing = λ e. absurd (cc (staying, e));
        },
      ))
]

on_writable-IsSound :
    (answers : List SendAnswer) (c : BufferedConnection)
    → Running (pending c.output) c
    → c.world.wants_write ≡ false
    → c.write_interest_armed ≡ true
    → IsSound true (on_writable answers c)
unfolding on_writable flush_output report_buffered_delta
on_writable-IsSound answers c r fired armed =
    let before = pending c.output in
    let (sent, done, left) = flush-Running answers before c r in
    if_false (IsSound true) c.closed c _ r.open_still (
      after_flush-IsSound (flush_output answers c).0
        (report_buffered_delta before (flush_output answers c).1)
        (report-Running before (flush_output answers c).1 sent) fired armed done left)

rearm-IsSound :
    (c : BufferedConnection) → Running (pending c.output) c → Woken false c → IsSound true (rearm c)
unfolding rearm
rearm-IsSound c r w = inl (
  record {
    open_still = r.open_still;
    out = r.out;
    order = r.order;
    gauge = r.gauge;
    never = r.never;
    held = r.held;
  },
  record {
    armed = rw w.armed (same c.write_interest_armed);
    wakes = λ h. rw (w.wakes h) (or_true c.write_interest_armed);
    listens = λ h. refl;
    flushing = w.flushing;
  },
)
  where
    same : (b : Bool) → (b || b) ≡ b
    same true = refl
    same false = refl

    or_true : (b : Bool) → (b || true) ≡ true
    or_true true = refl
    or_true false = refl

module _ (on_data : BufferedConnection → List Action) where
  read_loop-IsSound :
      (answers : List ReceiveAnswer) (c : BufferedConnection)
      → Running (pending c.output) c
      → Woken false c
      → IsSound true (read_loop on_data answers c)
  unfolding read_loop
  read_loop-IsSound [] c r w = rearm-IsSound c r w
  read_loop-IsSound (again ∷ rest) c r w = rearm-IsSound c r w
  read_loop-IsSound (eof ∷ rest) c r w = inr (close-Ended c r)
  read_loop-IsSound (fatal ∷ rest) c r w = inr (close-Ended c r)
  read_loop-IsSound (received first others ∷ rest) c r w =
      let c' = record c { input = receive 4096 (first ∷ others) c.input } in
      let c'' = act_all (on_data c') c' in
      let sound : IsSound false c'' = act_all-IsSound false (on_data c') c' (
        inl (
          record {
            open_still = r.open_still;
            out = r.out;
            order = r.order;
            gauge = r.gauge;
            never = r.never;
            held = r.held;
          },
          record { armed = w.armed; wakes = w.wakes; listens = w.listens; flushing = w.flushing },
        )) in
      elim sound [
        | inr ended ↦ if_true (IsSound true) c''.closed c'' _ ended.shut (inr ended)
        | inl (r', w') ↦
            if_false (IsSound true) c''.closed c'' _ r'.open_still
              (read_loop-IsSound rest c'' r' w')
      ]

  happen-IsSound :
      (e : Event) (c : BufferedConnection) → IsSound true c → IsSound true (happen on_data e c)
  unfolding happen on_readable
  happen-IsSound (Event.called action) c h = act-IsSound true action c h
  happen-IsSound Event.failed c h = inr (close-IsSound true c h)
  happen-IsSound (Event.readable answers) c (inr e) =
      if_false (IsSound true) c.world.wants_read _ c e.no_read (inr e)
  happen-IsSound (Event.readable answers) c (inl (r, w)) =
      if_true (IsSound true) c.world.wants_read _ c (w.listens refl) (
        if_false (IsSound true) c.closed _ _ r.open_still (
          read_loop-IsSound answers (record c { world = record c.world { wants_read = false } })
            (record {
              open_still = r.open_still;
              out = r.out;
              order = r.order;
              gauge = r.gauge;
              never = r.never;
              held = r.held;
            })
            (record {
              armed = w.armed;
              wakes = w.wakes;
              listens = λ e. absurd (cc e);
              flushing = w.flushing;
            })))
  happen-IsSound (Event.writable answers) c (inr e) =
      if_false (IsSound true) c.world.wants_write _ c e.no_write (inr e)
  happen-IsSound (Event.writable answers) c (inl (r, w)) = elim (Bool-cases c.world.wants_write) [
    | inr other ↦ if_false (IsSound true) c.world.wants_write _ c other (inl (r, w))
    | inl fired ↦ if_true (IsSound true) c.world.wants_write _ c fired (
        on_writable-IsSound answers (record c { world = record c.world { wants_write = false } })
          (record {
            open_still = r.open_still;
            out = r.out;
            order = r.order;
            gauge = r.gauge;
            never = r.never;
            held = r.held;
          })
          refl (sym w.armed ∙ fired))
  ]

  -- Whatever the events are, what the socket answers and what the callback and the owner call, a
  -- connection that was sound and had its read interest registered is so again: open, with the
  -- bytes that were written on the socket or waiting, in order and once each, the gauge counting
  -- exactly those that wait, write interest registered wherever some wait, read interest always, and
  -- a close that waits for a flush only while there is something to flush; or closed, once, with
  -- nothing registered and nothing counted.
  pub run-IsSound :
      (events : List Event) (c : BufferedConnection)
      → IsSound true c
      → IsSound true (run on_data events c)
  unfolding run
  run-IsSound [] c h = h
  run-IsSound (e ∷ rest) c h = run-IsSound rest (happen on_data e c) (happen-IsSound e c h)

-- A connection that was made and started.
pub start-IsSound : IsSound true (start fresh)
unfolding start
start-IsSound = inl (
  record {
    open_still = refl;
    out = omega arith;
    order = refl;
    gauge = refl;
    never = refl;
    held = refl;
  },
  record {
    armed = refl;
    wakes = λ h. absurd (omega arith);
    listens = λ h. refl;
    flushing = λ e. cc e;
  },
)
