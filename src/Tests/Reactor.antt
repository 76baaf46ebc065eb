-- ===== src/Tests/Reactor.antt =====
-- A connection at concrete inputs.
use libspaznet.Base.{take, ◌≤◌, ◌≡◌, refl, true, List, [], ◌∷◌, ◌++◌, arith}
use libspaznet.Reactor.InputBuffer.{
  InputBuffer, compact_if, grow, prepare, room, fill, commit, consume, contents, receive,
}
use libspaznet.Reactor.InputBuffer.View.{IsInput, receive-contents}
use libspaznet.Reactor.OutputBuffer.{
  pending, append_copy, append, try_flush, accepted, nothing, retry,
}
use libspaznet.Reactor.Connection.{
  BufferedConnection, fresh, report_buffered_delta, close, start, flush_output, arm_write,
  after_write, take_over, write, close_when_flushed, Action, act, act_all, rearm, Event, read_loop,
  on_readable, happen, run, received, again,
}
use libspaznet.Reactor.Connection.Invariant.{IsSound}
use libspaznet.Reactor.Connection.Steps.{write-IsSound, act-IsSound}
use libspaznet.Reactor.Connection.Events.{run-IsSound, start-IsSound}
use libspaznet.Reactor.Connection.Drains.{Turn, turns, all_unbroken, turns-drains}
use libspaznet.Reactor.OutputBuffer.Progress.{unbroken}

-- A callback that sends back what came, through a socket that takes two bytes, and wants to close.
abbrev echo : BufferedConnection → List Action
echo c =
    Action.writes (contents c.input) (accepted 1 ∷ [])
    ∷ Action.consumes 4
    ∷ Action.closes_when_flushed
    ∷ []

abbrev request : Event
request = Event.readable (received 7 (8 ∷ 9 ∷ []) ∷ again ∷ [])

-- The answer is on its way, and the connection still open.
run_test : (run echo (request ∷ []) (start fresh)).world.wire ≡ 7 ∷ 8 ∷ []
unfolding run happen on_readable read_loop rearm receive prepare compact_if grow commit fill
    contents consume act act_all write take_over append append_copy try_flush flush_output
    after_write arm_write report_buffered_delta close_when_flushed close start
run_test = refl

run-IsSound_example :
    IsSound true
      (run echo (request ∷ Event.writable (accepted 0 ∷ []) ∷ Event.failed ∷ []) (start fresh))
run-IsSound_example =
    run-IsSound echo (request ∷ Event.writable (accepted 0 ∷ []) ∷ Event.failed ∷ []) (start fresh)
      start-IsSound

-- Three bytes of which the socket took none.
abbrev loaded : BufferedConnection
loaded = close_when_flushed (write (1 ∷ 2 ∷ 3 ∷ []) [] (start fresh))

loaded-IsSound : IsSound true loaded
unfolding act close_when_flushed
loaded-IsSound =
    act-IsSound true Action.closes_when_flushed (write (1 ∷ 2 ∷ 3 ∷ []) [] (start fresh))
      (write-IsSound true (1 ∷ 2 ∷ 3 ∷ []) [] (start fresh) start-IsSound)

abbrev slow_turns : List Turn
slow_turns =
    record { more = 0; answers = retry ∷ [] }
    ∷ record { more = 0; answers = nothing ∷ [] }
    ∷ record { more = 5; answers = [] }
    ∷ []

turns-drains_example :
    ((run echo (turns slow_turns) loaded).world.wire ≡ 1 ∷ 2 ∷ 3 ∷ [])
    × (pending (run echo (turns slow_turns) loaded).output ≡ 0)
    × ((run echo (turns slow_turns) loaded).closed ≡ true)
unfolding start write take_over append append_copy try_flush flush_output after_write arm_write
    report_buffered_delta close_when_flushed close unbroken all_unbroken
turns-drains_example = turns-drains echo slow_turns loaded loaded-IsSound refl refl (omega arith)

abbrev half_read : InputBuffer
half_read = record { buf = 1 ∷ 2 ∷ 3 ∷ []; read_pos = 1; write_pos = 2 }

receive-contents_example :
    IsInput (receive 2 (4 ∷ 5 ∷ 6 ∷ []) half_read)
    × (contents (receive 2 (4 ∷ 5 ∷ 6 ∷ []) half_read)
        ≡ contents half_read ++ take (room (prepare 2 half_read)) (4 ∷ 5 ∷ 6 ∷ []))
    × (2 ≤ room (prepare 2 half_read))
receive-contents_example =
    receive-contents 2 (4 ∷ 5 ∷ 6 ∷ []) half_read
      (record { forward = omega arith; inside = omega arith })
