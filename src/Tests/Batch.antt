-- ===== src/Tests/Batch.antt =====
-- The batch buffer on short schedules.
use bcrstracking.Prelude.{◌≡◌, refl, true, false, none, some, List, [], ◌∷◌, ◌++◌}
use bcrstracking.Batch.{
  BatchBuffer, Event, selecting, flushing_events, continue, empty_stream, new_batch_buffer, run,
  step, enqueue_rvm, enqueue_bin, enqueues_rvm, enqueues_bin, works, receive_rvm, ticked, answer,
}
use bcrstracking.Batch.Conservation.{
  backlog, rvm_taken, event_taken, bin_taken, taken_by, run_conserves,
}
use bcrstracking.Batch.Bounds.{FitsChannels, Collected, run_bounds}
use bcrstracking.Batch.Shutdown.{stop, drain_and_flush, IsSettled, drain_and_flush_settles}
use bcrstracking.Tests.Data.{machine, bin, some_event}

abbrev start : BatchBuffer
start = new_batch_buffer none none true

-- A row is collected, the ticker starts a flush, the sink refuses it, and a second flush is taken.
abbrev refused_once : List Event
refused_once =
    enqueues_rvm (machine 1 "RUNNING" "Hall")
    ∷ works receive_rvm
    ∷ enqueues_bin (bin 1 "PET" 100 3)
    ∷ works ticked
    ∷ works (answer false 5)
    ∷ enqueues_rvm (machine 2 "FULL" "Mall")
    ∷ works (answer true 5)
    ∷ works (answer true 5)
    ∷ works ticked
    ∷ works (answer true 5)
    ∷ []

-- The buffer after that schedule: the first row is committed, the others wait in their channels.
abbrev retried : BatchBuffer
retried = record {
  rvms = record {
    chan = machine 2 "FULL" "Mall" ∷ [];
    pending = [];
    committed = machine 1 "RUNNING" "Hall" ∷ [];
  };
  events = empty_stream;
  bins = record { chan = bin 1 "PET" 100 3 ∷ []; pending = []; committed = [] };
  has_sink = true;
  metrics = none;
  batch_size = 500;
  flush_interval = 5000000000;
  acks = 0;
  phase = flushing_events continue;
}

refused_once_retries : run refused_once start ≡ some retried
unfolding run step new_batch_buffer enqueue_rvm enqueue_bin
refused_once_retries = refl

run_conserves_example :
    (backlog retried.rvms ≡ backlog start.rvms ++ taken_by rvm_taken refused_once start)
    × (backlog retried.events ≡ backlog start.events ++ taken_by event_taken refused_once start)
    × (backlog retried.bins ≡ backlog start.bins ++ taken_by bin_taken refused_once start)
unfolding new_batch_buffer
run_conserves_example = run_conserves refused_once start retried refl refused_once_retries

-- The same with a sink that takes everything.
abbrev accepted : List Event
accepted =
    enqueues_rvm (machine 1 "RUNNING" "Hall")
    ∷ works receive_rvm
    ∷ works ticked
    ∷ works (answer true 5)
    ∷ enqueues_rvm (machine 2 "FULL" "Mall")
    ∷ enqueues_bin (bin 1 "PET" 100 3)
    ∷ []

accepted-run : run accepted start ≡ some retried
unfolding run step new_batch_buffer enqueue_rvm enqueue_bin
accepted-run = refl

run_bounds_example : FitsChannels retried × Collected retried.phase retried
run_bounds_example =
    run_bounds none none true accepted retried (tt, (tt, (tt, (refl, (tt, (tt, tt)))))) accepted-run

-- Rows in the channels and in a batch, with the worker at its select.
abbrev queued : BatchBuffer
queued = record retried {
  rvms = record {
    chan = machine 2 "FULL" "Mall" ∷ [];
    pending = machine 3 "FULL" "Shop" ∷ [];
    committed = machine 1 "RUNNING" "Hall" ∷ [];
  };
  events = record { chan = some_event ∷ []; pending = []; committed = [] };
  phase = selecting;
}

drain_and_flush_settles_example :
    (b : BatchBuffer) × (run (drain_and_flush stop queued (true, false, true) 5) queued ≡ some b)
    × IsSettled stop (true, false, true) queued b
drain_and_flush_settles_example =
    drain_and_flush_settles stop queued (true, false, true) 5 refl refl
