-- ===== src/Reactor/Connection/Drains.antt =====
-- What was written reaches the socket, as long as the socket takes something when it says it can.
use libspaznet.Base.{
  Bool-cases, if_true, if_false, length, ℕ, ◌-◌, ◌≤◌, ◌<◌, ◌≡◌, refl, sym, ◌∙◌, ◌≢◌, inl, inr, Bool,
  true, false, ◌&&◌, List, [], ◌∷◌, ◌++◌, append-nil, arith,
}
use libspaznet.Wire.Slices.{drop_all}
use libspaznet.Reactor.OutputBuffer.{
  pending, SendAnswer, Result, accepted, flushed, would_block, error,
}
use libspaznet.Reactor.OutputBuffer.Sends.{queued, try_flush-Sends}
use libspaznet.Reactor.OutputBuffer.Progress.{unbroken, try_flush-progress}
use libspaznet.Reactor.Connection.{
  BufferedConnection, report_buffered_delta, close, flush_output, after_flush, on_writable, Action,
  Event, happen, run,
}
use libspaznet.Reactor.Connection.Invariant.{Running, IsSound}
use libspaznet.Reactor.Connection.Events.{run-IsSound}

-- A time at which the socket is writable: it takes `1 + more` bytes, or those that there are, and
-- then answers what `answers` says.
pub record Turn : Type 0 where
  pub more : ℕ
  pub answers : List SendAnswer

unfoldable pub turns : List Turn → List Event
turns [] = []
turns (t ∷ rest) = Event.writable (accepted t.more ∷ t.answers) ∷ turns rest

-- No answer of these times says that the socket is broken.
unfoldable pub all_unbroken : List Turn → Bool
all_unbroken [] = true
all_unbroken (t ∷ rest) = unbroken t.answers && all_unbroken rest

-- From the first connection to the second, the bytes that wait became fewer, where there were any,
-- and it was closed only where that was asked for and nothing is left.
record Towards (few : ℕ) (c d : BufferedConnection) : Type 0 where
  written : d.world.written ≡ c.world.written
  fewer : pending d.output ≤ few
  flag : d.close_after_flush ≡ c.close_after_flush
  asked : c.close_after_flush ≡ false → d.closed ≡ c.closed
  spent : d.closed ≡ true → pending d.output ≡ 0

after_flush-Towards :
    (result : Result) (few : ℕ) (c : BufferedConnection)
    → c.closed ≡ false
    → result ≢ error
    → pending c.output ≤ few
    → (result ≡ flushed → pending c.output ≡ 0)
    → Towards few c (after_flush result c)
unfolding after_flush close
after_flush-Towards error few c open_still fine less done = absurd (fine refl)
after_flush-Towards would_block few c open_still fine less done = record {
  written = refl;
  fewer = less;
  flag = refl;
  asked = λ e. refl;
  spent = λ e. absurd (cc (open_still, e));
}
after_flush-Towards flushed few c open_still fine less done =
    elim (Bool-cases c.close_after_flush) [
      | inl closing ↦ if_true (Towards few c) c.close_after_flush _ _ closing (
          if_false (Towards few c) c.closed _ _ open_still (record {
            written = refl;
            fewer = less;
            flag = refl;
            asked = λ e. absurd (cc (closing, e));
            spent = λ e. done refl;
          }))
      | inr staying ↦ if_false (Towards few c) c.close_after_flush _ _ staying (record {
        written = refl;
        fewer = less;
        flag = refl;
        asked = λ e. refl;
        spent = λ e. absurd (cc (open_still, e));
      })
    ]

on_writable-Towards :
    (t : Turn) (c : BufferedConnection)
    → Running (pending c.output) c
    → unbroken t.answers ≡ true
    → Towards (pending c.output - 1) c (on_writable (accepted t.more ∷ t.answers) c)
unfolding on_writable report_buffered_delta flush_output
on_writable-Towards t c r whole =
    let answers : List SendAnswer = accepted t.more ∷ t.answers in
    let (fine, less) = try_flush-progress t.more t.answers c.output c.world.wire whole in
    let sends = try_flush-Sends answers c.output c.world.wire r.out in
    let (_, sent) = flush_output answers c in
    let moved =
      after_flush-Towards (flush_output answers c).0 (pending c.output - 1)
        (report_buffered_delta (pending c.output) sent) r.open_still fine less sends.done in
    if_false (Towards (pending c.output - 1) c) c.closed _ _ r.open_still (record {
      written = moved.written;
      fewer = moved.fewer;
      flag = moved.flag;
      asked = moved.asked;
      spent = moved.spent;
    })

module _ (on_data : BufferedConnection → List Action) where
  happen-Towards :
      (t : Turn) (c : BufferedConnection)
      → IsSound true c
      → (c.closed ≡ true → pending c.output ≡ 0)
      → unbroken t.answers ≡ true
      → Towards
          (pending c.output - 1)
          c
          (happen on_data (Event.writable (accepted t.more ∷ t.answers)) c)
  unfolding happen
  happen-Towards t c (inr e) spent whole =
      if_false (Towards (pending c.output - 1) c) c.world.wants_write _ _ e.no_write (record {
        written = refl;
        fewer = omega (arith, spent e.shut);
        flag = refl;
        asked = λ h. refl;
        spent = spent;
      })
  happen-Towards t c (inl (r, w)) spent whole = elim (Bool-cases c.world.wants_write) [
    | inl fired ↦ if_true (Towards (pending c.output - 1) c) c.world.wants_write _ _ fired (
        let moved =
          on_writable-Towards t (record c { world = record c.world { wants_write = false } })
            (record {
              open_still = r.open_still;
              out = r.out;
              order = r.order;
              gauge = r.gauge;
              never = r.never;
              held = r.held;
            })
            whole in
        record {
          written = moved.written;
          fewer = moved.fewer;
          flag = moved.flag;
          asked = moved.asked;
          spent = moved.spent;
        })
    | inr idle ↦ if_false (Towards (pending c.output - 1) c) c.world.wants_write _ _ idle (record {
      written = refl;
      fewer = less (pending c.output) (λ h. cc (idle, w.wakes h));
      flag = refl;
      asked = λ h. refl;
      spent = spent;
    })
  ]
    where
      less : (n : ℕ) → ¬ (0 < n) → n ≤ n - 1
      less n none_left = omega (arith, none_left)

  turns-Towards :
      (ts : List Turn) (c : BufferedConnection)
      → IsSound true c
      → (c.closed ≡ true → pending c.output ≡ 0)
      → all_unbroken ts ≡ true
      → Towards (pending c.output - length ts) c (run on_data (turns ts) c)
  unfolding run turns all_unbroken
  turns-Towards [] c h spent whole = record {
    written = refl;
    fewer = omega arith;
    flag = refl;
    asked = λ e. refl;
    spent = spent;
  }
  turns-Towards (t ∷ rest) c h spent whole =
      let e : Event = Event.writable (accepted t.more ∷ t.answers) in
      let (first, others) = and-both (unbroken t.answers) (all_unbroken rest) whole in
      let step = happen-Towards t c h spent first in
      let sound = run-IsSound on_data (e ∷ []) c h in
      let later = turns-Towards rest (happen on_data e c) sound step.spent others in
      record {
        written = later.written ∙ step.written;
        fewer = omega (arith, later.fewer, step.fewer);
        flag = later.flag ∙ step.flag;
        asked = λ n. later.asked (step.flag ∙ n) ∙ step.asked n;
        spent = later.spent;
      }
    where
      and-both : (a b : Bool) → (a && b) ≡ true → (a ≡ true) × (b ≡ true)
      and-both true b e = (refl, e)
      and-both false b e = absurd (cc e)

  -- An open connection, with a socket that is writable as often as there are bytes that wait, takes
  -- at least a byte each time and does not break: then every byte that was written is on the socket,
  -- in order and once, nothing waits, and the connection is closed exactly where that was asked for.
  pub turns-drains :
      (ts : List Turn) (c : BufferedConnection)
      → IsSound true c
      → c.closed ≡ false
      → all_unbroken ts ≡ true
      → pending c.output ≤ length ts
      → ((run on_data (turns ts) c).world.wire ≡ c.world.written)
        × (pending (run on_data (turns ts) c).output ≡ 0)
        × ((run on_data (turns ts) c).closed ≡ c.close_after_flush)
  turns-drains ts c h open_still whole enough =
      let d = run on_data (turns ts) c in
      let moved = turns-Towards ts c h (λ e. absurd (cc (open_still, e))) whole in
      let none_left : pending d.output ≡ 0 = omega (arith, moved.fewer, enough) in
      let sound : IsSound true d = run-IsSound on_data (turns ts) c h in
      (
        all_sent d sound none_left ∙ moved.written,
        none_left,
        elim (Bool-cases c.close_after_flush) [
          | inl closing ↦ shut d sound none_left (moved.flag ∙ closing) ∙ sym closing
          | inr staying ↦ moved.asked staying ∙ open_still ∙ sym staying
        ],
      )
    where
      all_sent :
          (d : BufferedConnection)
          → IsSound true d
          → pending d.output ≡ 0
          → d.world.wire ≡ d.world.written
      all_sent d h none_left =
          let ordered : d.world.wire ++ queued d.output ≡ d.world.written = elim h [
            | inl (r, w) ↦ r.order
            | inr e ↦ e.order
          ] in
          rw (drop_all d.output.read_pos d.output.buf (omega (arith, none_left)), append-nil) at
            ordered

      shut :
          (d : BufferedConnection)
          → IsSound true d
          → pending d.output ≡ 0
          → d.close_after_flush ≡ true
          → d.closed ≡ true
      shut d (inl (r, w)) none_left closing = absurd (omega (arith, w.flushing closing, none_left))
      shut d (inr e) none_left closing = e.shut
