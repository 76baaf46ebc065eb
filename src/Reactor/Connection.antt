-- ===== src/Reactor/Connection.antt =====
-- `BufferedConnection` of src/reactor/buffered_connection.cpp, without TLS.
pub mod Invariant
pub mod Steps
pub mod Events
pub mod Drains
use libspaznet.Base.{
  ◌==◌, if◌then◌else◌, Bytes, length, ℕ, ◌+◌, ◌-◌, Bool, true, false, ◌||◌, List, [], ◌∷◌, ◌++◌,
}
use libspaznet.Reactor.InputBuffer.{InputBuffer, empty_input, consume, receive}
use libspaznet.Reactor.OutputBuffer.{
  OutputBuffer, empty_output, pending, append, SendAnswer, Result, flushed, would_block, error,
  Flush, try_flush,
}

-- What the calls out of the connection have done. `gauge_up` and `gauge_down` are the sums of the
-- positive and negative amounts passed to `adjust_bytes_buffered`; `wants_read` and `wants_write` the
-- directions for which the handler is registered (`set_io_handler` adds to them, an event takes its
-- own away before the handler runs, `remove_io` takes both); `written` the bytes that `write` took
-- over and `wire` those that the socket took; `closings` the calls of `on_closed_`, and `releases`
-- those of `close_socket_fd`.
pub record World : Type 0 where
  pub wants_read : Bool
  pub wants_write : Bool
  pub gauge_up : ℕ
  pub gauge_down : ℕ
  pub written : Bytes
  pub wire : Bytes
  pub closings : ℕ
  pub releases : ℕ

pub record BufferedConnection : Type 0 where
  pub input : InputBuffer
  pub output : OutputBuffer
  pub closed : Bool
  pub write_interest_armed : Bool
  pub close_after_flush : Bool
  pub world : World

abbrev pub fresh : BufferedConnection
fresh = record {
  input = empty_input;
  output = empty_output;
  closed = false;
  write_interest_armed = false;
  close_after_flush = false;
  world = record {
    wants_read = false;
    wants_write = false;
    gauge_up = 0;
    gauge_down = 0;
    written = [];
    wire = [];
    closings = 0;
    releases = 0;
  };
}

abbrev pub set_io_handler : Bool → Bool → BufferedConnection → BufferedConnection
set_io_handler readable writable c = record c {
  world = record c.world {
    wants_read = readable || c.world.wants_read;
    wants_write = writable || c.world.wants_write;
  };
}

unfoldable pub report_buffered_delta : ℕ → BufferedConnection → BufferedConnection
report_buffered_delta before c =
    let after = pending c.output in
    record c {
      world = record c.world {
        gauge_up = c.world.gauge_up + (after - before);
        gauge_down = c.world.gauge_down + (before - after);
      };
    }

unfoldable pub close : BufferedConnection → BufferedConnection
close c = if c.closed then c else record c {
  closed = true;
  world = record c.world {
    gauge_down = c.world.gauge_down + pending c.output;
    wants_read = false;
    wants_write = false;
    releases = c.world.releases + 1;
    closings = c.world.closings + 1;
  };
}

unfoldable pub start : BufferedConnection → BufferedConnection
start c = if c.closed then c else set_io_handler true false c

-- A flush of the output, with the answers of the socket.
unfoldable pub flush_output : List SendAnswer → BufferedConnection → Result × BufferedConnection
flush_output answers c =
    let f = try_flush answers c.output c.world.wire in
    (f.result, record c { output = f.output; world = record c.world { wire = f.wire } })

unfoldable pub arm_write : BufferedConnection → BufferedConnection
arm_write c =
    if c.write_interest_armed
    then c
    else set_io_handler true true (record c { write_interest_armed = true })

-- What `write` does with the result of the optimistic flush.
unfoldable pub after_write : ℕ → Result → BufferedConnection → BufferedConnection
after_write before error c = close (report_buffered_delta before c)
after_write before flushed c = report_buffered_delta before c
after_write before would_block c = report_buffered_delta before (arm_write c)

unfoldable pub take_over : Bytes → BufferedConnection → BufferedConnection
take_over bytes c = record c {
  output = append bytes c.output;
  world = record c.world { written = c.world.written ++ bytes };
}

unfoldable pub write : Bytes → List SendAnswer → BufferedConnection → BufferedConnection
write bytes answers c =
    let before = pending c.output in
    let queued = take_over bytes c in
    let (result, sent) = flush_output answers queued in
    if c.closed || (length bytes == 0)
    then c
    else if before == 0
    then after_write before result sent
    else report_buffered_delta before (arm_write queued)

unfoldable pub close_when_flushed : BufferedConnection → BufferedConnection
close_when_flushed c =
    if c.closed
    then c
    else if pending c.output == 0
    then close c
    else record c { close_after_flush = true }

-- What `on_writable` does with the result of the flush.
unfoldable pub after_flush : Result → BufferedConnection → BufferedConnection
after_flush error c = close c
after_flush flushed c =
    if c.close_after_flush
    then close c
    else set_io_handler true false (record c { write_interest_armed = false })
after_flush would_block c = set_io_handler true true c

unfoldable pub on_writable : List SendAnswer → BufferedConnection → BufferedConnection
on_writable answers c =
    let before = pending c.output in
    let (result, sent) = flush_output answers c in
    if c.closed then c else after_flush result (report_buffered_delta before sent)

-- What the owner of a connection may do with it, `on_data_` included: the calls of its public
-- methods.
pub data Action : Type 0 where
  consumes : (n : ℕ) → Action
  writes : (bytes : Bytes) → (answers : List SendAnswer) → Action
  closes closes_when_flushed : Action

unfoldable pub act : Action → BufferedConnection → BufferedConnection
act (Action.consumes n) c = record c { input = consume n c.input }
act (Action.writes bytes answers) c = write bytes answers c
act Action.closes c = close c
act Action.closes_when_flushed c = close_when_flushed c

unfoldable pub act_all : List Action → BufferedConnection → BufferedConnection
act_all [] c = c
act_all (a ∷ rest) c = act_all rest (act a c)

-- What `recv` answers: bytes, one at least; the end of the stream; or an error.
pub data ReceiveAnswer : Type 0 where
  received : (first : ℕ) → (others : Bytes) → ReceiveAnswer
  eof again fatal : ReceiveAnswer

-- Read interest, and write interest where it is armed.
unfoldable pub rearm : BufferedConnection → BufferedConnection
rearm c = set_io_handler true c.write_interest_armed c

-- What the event loop and the owner do to a connection. An event comes for a registered direction
-- only, and takes the registration away. Where the loop finds both directions ready at once it takes
-- both registrations away before the first of the two handlers runs; the events here are of one
-- direction each.
pub data Event : Type 0 where
  readable : (answers : List ReceiveAnswer) → Event
  writable : (answers : List SendAnswer) → Event
  failed : Event
  called : (action : Action) → Event

-- The callback `on_data_` sees the connection and decides what to call.
module _ (on_data : BufferedConnection → List Action) where
  -- The loop of `on_readable`; a socket that has no more answers says to try again.
  unfoldable pub read_loop : List ReceiveAnswer → BufferedConnection → BufferedConnection
  read_loop [] c = rearm c
  read_loop (received first others ∷ rest) c =
      let c' = record c { input = receive 4096 (first ∷ others) c.input } in
      let c'' = act_all (on_data c') c' in
      let later = read_loop rest c'' in if c''.closed then c'' else later
  read_loop (eof ∷ rest) c = close c
  read_loop (again ∷ rest) c = rearm c
  read_loop (fatal ∷ rest) c = close c

  unfoldable pub on_readable : List ReceiveAnswer → BufferedConnection → BufferedConnection
  on_readable answers c = if c.closed then c else read_loop answers c

  unfoldable pub happen : Event → BufferedConnection → BufferedConnection
  happen (Event.readable answers) c =
      if c.world.wants_read
      then on_readable answers (record c { world = record c.world { wants_read = false } })
      else c
  happen (Event.writable answers) c =
      if c.world.wants_write
      then on_writable answers (record c { world = record c.world { wants_write = false } })
      else c
  happen Event.failed c = close c
  happen (Event.called action) c = act action c

  unfoldable pub run : List Event → BufferedConnection → BufferedConnection
  run [] c = c
  run (e ∷ rest) c = run rest (happen e c)
