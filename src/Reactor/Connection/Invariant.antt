-- ===== src/Reactor/Connection/Invariant.antt =====
-- What holds of a connection whenever the event loop is between two events.
use libspaznet.Base.{
  if◌then◌else◌, Bytes, length, length-append, ℕ, ◌+◌, ◌<◌, ◌≡◌, refl, sym, ap, ◌∙◌, ◌≢◌, ◌⊎◌, Bool,
  true, false, List, ◌++◌, append_assoc, arith,
}
use libspaznet.Reactor.OutputBuffer.{pending, append, SendAnswer, flushed}
use libspaznet.Reactor.OutputBuffer.Sends.{
  queued, IsOutput, length-queued, try_flush-Sends, append-queued,
}
use libspaznet.Reactor.Connection.{
  BufferedConnection, set_io_handler, report_buffered_delta, close, flush_output, arm_write,
  take_over,
}

-- An open connection: what was written is what the socket took and then what waits, in this order;
-- and the gauge counts `n` bytes for it.
pub record Running (n : ℕ) (c : BufferedConnection) : Type 0 where
  pub open_still : c.closed ≡ false
  pub out : IsOutput c.output
  pub order : c.world.wire ++ queued c.output ≡ c.world.written
  pub gauge : c.world.gauge_up ≡ c.world.gauge_down + n
  pub never : c.world.closings ≡ 0
  pub held : c.world.releases ≡ 0

-- Its registrations: write interest exactly where the flag says so, and always where bytes wait;
-- read interest where `listening` says that it is due. And a close that waits has something to wait
-- for.
pub record Woken (listening : Bool) (c : BufferedConnection) : Type 0 where
  pub armed : c.world.wants_write ≡ c.write_interest_armed
  pub wakes : 0 < pending c.output → c.world.wants_write ≡ true
  pub listens : listening ≡ true → c.world.wants_read ≡ true
  pub flushing : c.close_after_flush ≡ true → 0 < pending c.output

-- A closed connection: the socket took a beginning of what was written, the gauge counts nothing
-- for it, it was closed and reported once, and nothing is registered.
pub record Ended (c : BufferedConnection) : Type 0 where
  pub shut : c.closed ≡ true
  pub out : IsOutput c.output
  pub order : c.world.wire ++ queued c.output ≡ c.world.written
  pub gauge : c.world.gauge_up ≡ c.world.gauge_down
  pub once : c.world.closings ≡ 1
  pub freed : c.world.releases ≡ 1
  pub no_read : c.world.wants_read ≡ false
  pub no_write : c.world.wants_write ≡ false

abbrev pub IsSound : Bool → BufferedConnection → Type 0
IsSound listening c = (Running (pending c.output) c × Woken listening c) ⊎ Ended c

pub close-Ended : (c : BufferedConnection) → Running (pending c.output) c → Ended (close c)
unfolding close
close-Ended c r = rw r.open_still (record {
  shut = refl;
  out = r.out;
  order = r.order;
  gauge = r.gauge;
  once = omega (arith, r.never);
  freed = omega (arith, r.held);
  no_read = refl;
  no_write = refl;
})

pub report-Running :
    (before : ℕ) (c : BufferedConnection)
    → Running before c
    → Running (pending c.output) (report_buffered_delta before c)
unfolding report_buffered_delta
report-Running before c r = record {
  open_still = r.open_still;
  out = r.out;
  order = r.order;
  gauge = omega (arith, r.gauge);
  never = r.never;
  held = r.held;
}

-- A flush keeps the order, and its result says whether anything is left.
pub flush-Running :
    (answers : List SendAnswer) (n : ℕ) (c : BufferedConnection)
    → Running n c
    → Running n (flush_output answers c).1
      × ((flush_output answers c).0 ≡ flushed → pending (flush_output answers c).1.output ≡ 0)
      × ((flush_output answers c).0 ≢ flushed → 0 < pending (flush_output answers c).1.output)
unfolding flush_output
flush-Running answers n c r =
    let s = try_flush-Sends answers c.output c.world.wire r.out in
    (
      record {
        open_still = r.open_still;
        out = s.is;
        order = s.kept ∙ r.order;
        gauge = r.gauge;
        never = r.never;
        held = r.held;
      },
      s.done,
      s.left,
    )

pub arm-Running : (n : ℕ) (c : BufferedConnection) → Running n c → Running n (arm_write c)
unfolding arm_write
arm-Running n c r = pick c.write_interest_armed
  where
    pick :
        (b : Bool)
        → Running n
            (if b then c else set_io_handler true true (record c { write_interest_armed = true }))
    pick true = r
    pick false = record {
      open_still = r.open_still;
      out = r.out;
      order = r.order;
      gauge = r.gauge;
      never = r.never;
      held = r.held;
    }

pub take_over-Running :
    (bytes : Bytes) (n : ℕ) (c : BufferedConnection)
    → Running n c
    → Running n (take_over bytes c)
      × (pending (take_over bytes c).output ≡ pending c.output + length bytes)
unfolding take_over
take_over-Running bytes n c r =
    let (is, same) = append-queued bytes c.output r.out in
    (
      record {
        open_still = r.open_still;
        out = is;
        order = rw same (
            sym (append_assoc c.world.wire (queued c.output) bytes)
            ∙ ap (λ (xs : Bytes). xs ++ bytes) r.order);
        gauge = r.gauge;
        never = r.never;
        held = r.held;
      },
      sym (length-queued (append bytes c.output))
          ∙ ap (λ (xs : Bytes). length xs) same
          ∙ length-append (queued c.output) bytes
          ∙ ap (λ (k : ℕ). k + length bytes) (length-queued c.output),
    )
