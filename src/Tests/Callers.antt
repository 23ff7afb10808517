-- ===== src/Tests/Callers.antt =====
-- A Flush that is served while a producer goes on, and a Stop after it.
use bcrstracking.Prelude.{◌≡◌, refl, true, none, some, List, [], ◌∷◌}
use bcrstracking.Batch.{
  BatchBuffer, new_batch_buffer, step, enqueue_rvm, enqueues_rvm, works, drain, answer, stopped,
  stop_requested, draining_rvms, acknowledge,
}
use bcrstracking.Batch.Callers.{
  Session, Turn, new_session, run_turns, take_turn, offering, awaiting, acknowledged, joined,
  hand_over, hear_ack, close_stop, join, calls_flush, calls_stop, acts, moves, done,
}
use bcrstracking.Batch.Callers.Flush.{Collects, flush-Collects}
use bcrstracking.Batch.Callers.Halting.{Rests}
use bcrstracking.Batch.Callers.Stop.{stop_ends_writing}
use bcrstracking.Tests.Data.{machine}

abbrev start : BatchBuffer
start = new_batch_buffer none none true

-- One row waits in its channel, and a caller is at the first select of Flush.
abbrev asked : List Turn
asked = calls_flush ∷ moves (enqueues_rvm (machine 1 "RUNNING" "Hall")) ∷ []

abbrev one_row : BatchBuffer
one_row = record start {
  rvms = record { chan = machine 1 "RUNNING" "Hall" ∷ []; pending = []; committed = [] };
}

abbrev asking : Session
asking = record (new_session one_row) { waiters = offering ∷ [] }

abbrev taken : Session
taken = record (new_session (record one_row { phase = draining_rvms acknowledge })) {
  waiters = awaiting 0 ∷ [];
}

taken_test : take_turn (acts 0 hand_over) asking ≡ some taken
unfolding take_turn step new_batch_buffer
taken_test = refl

-- The worker drains, a producer sends a second row, and the worker flushes and closes the ack.
abbrev served : List Turn
served =
    moves (works drain)
    ∷ moves (works drain)
    ∷ moves (works drain)
    ∷ moves (works drain)
    ∷ moves (enqueues_rvm (machine 2 "FULL" "Mall"))
    ∷ moves (works (answer true 5))
    ∷ moves (works (answer true 5))
    ∷ moves (works (answer true 5))
    ∷ acts 0 hear_ack
    ∷ []

abbrev flushed : BatchBuffer
flushed = record start {
  rvms = record {
    chan = machine 2 "FULL" "Mall" ∷ [];
    pending = [];
    committed = machine 1 "RUNNING" "Hall" ∷ [];
  };
  acks = 1;
}

abbrev answered : Session
answered = record (new_session flushed) { waiters = acknowledged ∷ [] }

served_test : run_turns served taken ≡ some answered
unfolding run_turns new_batch_buffer enqueue_rvm step
served_test = refl

flush-Collects_example :
    Collects one_row.rvms flushed.rvms
    × Collects one_row.events flushed.events
    × Collects one_row.bins flushed.bins
unfolding new_batch_buffer
flush-Collects_example =
    flush-Collects 0 served asking taken answered refl taken_test served_test refl

-- A Stop of the new buffer.
abbrev stops : List Turn
stops =
    calls_stop
    ∷ acts 0 close_stop
    ∷ moves (works stop_requested)
    ∷ moves (works drain)
    ∷ moves (works drain)
    ∷ moves (works drain)
    ∷ moves (works (answer true 5))
    ∷ moves (works (answer true 5))
    ∷ moves (works (answer true 5))
    ∷ acts 0 join
    ∷ []

abbrev stopped_session : Session
stopped_session = record {
  buffer = record start { phase = stopped };
  stop_closed = true;
  once = done;
  waiters = joined ∷ [];
}

stops_test : run_turns stops (new_session start) ≡ some stopped_session
unfolding run_turns new_batch_buffer step
stops_test = refl

-- A row that comes too late.
abbrev late_session : Session
late_session = record stopped_session { buffer = record one_row { phase = stopped } }

late_test :
    run_turns (moves (enqueues_rvm (machine 1 "RUNNING" "Hall")) ∷ []) stopped_session
    ≡ some late_session
unfolding run_turns new_batch_buffer enqueue_rvm step
late_test = refl

stop_ends_writing_example : Rests stopped_session.buffer late_session.buffer
unfolding new_batch_buffer
stop_ends_writing_example =
    stop_ends_writing start stops (moves (enqueues_rvm (machine 1 "RUNNING" "Hall")) ∷ [])
      stopped_session late_session 0 refl stops_test refl late_test
