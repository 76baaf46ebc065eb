-- ===== src/Reactor/Connection/Steps.antt =====
-- Every event keeps a connection sound.
use libspaznet.Base.{
  ◌==◌, if◌then◌else◌, Bool-cases, if_true, if_false, Bytes, length, ℕ, ◌<◌, ◌≡◌, refl, ◌∙◌, inl,
  inr, Bool, true, false, ◌||◌, List, [], ◌∷◌, arith,
}
use libspaznet.Reactor.OutputBuffer.{pending, SendAnswer, Result, flushed, would_block, error}
use libspaznet.Reactor.Connection.{
  BufferedConnection, set_io_handler, report_buffered_delta, close, flush_output, arm_write,
  after_write, take_over, write, close_when_flushed, Action, act, act_all,
}
use libspaznet.Reactor.Connection.Invariant.{
  Running, Woken, Ended, IsSound, close-Ended, report-Running, flush-Running, arm-Running,
  take_over-Running,
}

pub close-IsSound : (b : Bool) (c : BufferedConnection) → IsSound b c → Ended (close c)
unfolding close
close-IsSound b c (inl (r, w)) = close-Ended c r
close-IsSound b c (inr e) = if_true Ended c.closed c _ e.shut e

-- Write interest that is armed, or becomes so.
arm-Woken :
    (b : Bool) (c : BufferedConnection)
    → c.world.wants_write ≡ c.write_interest_armed
    → (b ≡ true → c.world.wants_read ≡ true)
    → (c.close_after_flush ≡ true → 0 < pending c.output)
    → Woken b (arm_write c)
unfolding arm_write
arm-Woken b c armed listens flushing = pick c.write_interest_armed refl
  where
    pick :
        (a : Bool)
        → c.write_interest_armed ≡ a
        → Woken b
            (if a then c else set_io_handler true true (record c { write_interest_armed = true }))
    pick true e = record {
      armed = armed;
      wakes = λ h. armed ∙ e;
      listens = listens;
      flushing = flushing;
    }
    pick false e = record {
      armed = refl;
      wakes = λ h. refl;
      listens = λ h. refl;
      flushing = flushing;
    }

pub report-Woken :
    (b : Bool) (before : ℕ) (c : BufferedConnection)
    → Woken b c
    → Woken b (report_buffered_delta before c)
unfolding report_buffered_delta
report-Woken b before c w = record {
  armed = w.armed;
  wakes = w.wakes;
  listens = w.listens;
  flushing = w.flushing;
}

-- The optimistic flush of `write`, which only happens where nothing waited.
after_write-IsSound :
    (b : Bool) (before : ℕ) (result : Result) (c : BufferedConnection)
    → Running before c
    → c.world.wants_write ≡ c.write_interest_armed
    → (b ≡ true → c.world.wants_read ≡ true)
    → c.close_after_flush ≡ false
    → (result ≡ flushed → pending c.output ≡ 0)
    → IsSound b (after_write before result c)
unfolding after_write report_buffered_delta
after_write-IsSound b before error c r armed listens stays done =
    inr (close-Ended (report_buffered_delta before c) (report-Running before c r))
after_write-IsSound b before flushed c r armed listens stays done = inl (
  report-Running before c r,
  report-Woken b before c (record {
    armed = armed;
    wakes = λ h. absurd (omega (arith, done refl));
    listens = listens;
    flushing = λ e. absurd (cc (stays, e));
  }),
)
after_write-IsSound b before would_block c r armed listens stays done = inl (
  report-Running before (arm_write c) (arm-Running before c r),
  report-Woken b before (arm_write c) (arm-Woken b c armed listens (λ e. absurd (cc (stays, e)))),
)

pub write-IsSound :
    (b : Bool) (bytes : Bytes) (answers : List SendAnswer) (c : BufferedConnection)
    → IsSound b c
    → IsSound b (write bytes answers c)
unfolding write flush_output take_over report_buffered_delta arm_write
write-IsSound b bytes answers c (inr e) =
    if_true (IsSound b) (c.closed || (length bytes == 0)) c _ (rw e.shut refl) (inr e)
write-IsSound b bytes answers c (inl (r, w)) = elim (Bool-cases (length bytes == 0)) [
  | inl none_new ↦
      if_true (IsSound b) (c.closed || (length bytes == 0)) c _ (rw (r.open_still, none_new) refl)
        (inl (r, w))
  | inr some_new ↦
      let before = pending c.output in
      let (taken, more) = take_over-Running bytes before c r in
      let (sent, done, left) = flush-Running answers before (take_over bytes c) taken in
      if_false (IsSound b) (c.closed || (length bytes == 0)) c _ (rw (r.open_still, some_new) refl)
        (elim (Bool-cases (before == 0)) [
          | inl idle ↦ if_true (IsSound b) (before == 0) _ _ idle (
              after_write-IsSound b before (flush_output answers (take_over bytes c)).0
                (flush_output answers (take_over bytes c)).1 sent w.armed w.listens
                (not_closing c.close_after_flush (λ e. w.flushing e) idle) done)
          | inr busy ↦ if_false (IsSound b) (before == 0) _ _ busy (
              inl (
                report-Running before (arm_write (take_over bytes c))
                    (arm-Running before (take_over bytes c) taken),
                report-Woken b before (arm_write (take_over bytes c)) (
                    arm-Woken b (take_over bytes c) w.armed w.listens
                      (λ e. omega (arith, more, w.flushing e))),
              ))
        ])
]
  where
    not_closing :
        (f : Bool) → (f ≡ true → 0 < pending c.output) → (pending c.output == 0) ≡ true → f ≡ false
    not_closing true h idle = absurd (ground (arith, h refl, idle))
    not_closing false h idle = refl

close_when_flushed-IsSound :
    (b : Bool) (c : BufferedConnection) → IsSound b c → IsSound b (close_when_flushed c)
unfolding close_when_flushed
close_when_flushed-IsSound b c (inr e) = if_true (IsSound b) c.closed c _ e.shut (inr e)
close_when_flushed-IsSound b c (inl (r, w)) =
    if_false (IsSound b) c.closed c _ r.open_still (elim (Bool-cases (pending c.output == 0)) [
      | inl idle ↦ if_true (IsSound b) (pending c.output == 0) _ _ idle (inr (close-Ended c r))
      | inr busy ↦ if_false (IsSound b) (pending c.output == 0) _ _ busy (
          inl (
            record {
              open_still = r.open_still;
              out = r.out;
              order = r.order;
              gauge = r.gauge;
              never = r.never;
              held = r.held;
            },
            record {
              armed = w.armed;
              wakes = w.wakes;
              listens = w.listens;
              flushing = λ e. ground (arith, busy);
            },
          ))
    ])

pub act-IsSound :
    (b : Bool) (a : Action) (c : BufferedConnection) → IsSound b c → IsSound b (act a c)
unfolding act
act-IsSound b (Action.consumes n) c (inl (r, w)) = inl (
  record {
    open_still = r.open_still;
    out = r.out;
    order = r.order;
    gauge = r.gauge;
    never = r.never;
    held = r.held;
  },
  record { armed = w.armed; wakes = w.wakes; listens = w.listens; flushing = w.flushing },
)
act-IsSound b (Action.consumes n) c (inr e) = inr (record {
  shut = e.shut;
  out = e.out;
  order = e.order;
  gauge = e.gauge;
  once = e.once;
  freed = e.freed;
  no_read = e.no_read;
  no_write = e.no_write;
})
act-IsSound b (Action.writes bytes answers) c h = write-IsSound b bytes answers c h
act-IsSound b Action.closes c h = inr (close-IsSound b c h)
act-IsSound b Action.closes_when_flushed c h = close_when_flushed-IsSound b c h

pub act_all-IsSound :
    (b : Bool) (actions : List Action) (c : BufferedConnection)
    → IsSound b c
    → IsSound b (act_all actions c)
unfolding act_all
act_all-IsSound b [] c h = h
act_all-IsSound b (a ∷ rest) c h = act_all-IsSound b rest (act a c) (act-IsSound b a c h)
