-- ===== src/Batch.antt =====
-- internal/storage/batch_writer.go: three bounded channels, the worker goroutine that collects their
-- rows, and the sink that it flushes them to. Producers and the worker interleave: one step is one
-- send of a producer, one ready case of the worker's select, one round of drainChannels, or one of
-- the three sections of flush, whose insert is answered by the environment.
pub mod Conservation
pub mod Bounds
pub mod Shutdown
pub mod Callers
use bcrstracking.Prelude.{
  ℕ, suc, ◌+◌, string_keys, String, Option, none, some, Bool, true, false, not, List, [], ◌∷◌, ◌++◌,
  ltb, leb, if◌then◌else◌, length, ℤ, is_positive, magnitude,
}
use bcrstracking.Model.{Duration, Rvm, RvmEvent, BinStatus}
use bcrstracking.Config.{Config}
use bcrstracking.Metrics.{Metrics, on, record_click_house_insert, set_click_house_buffer_depth}

-- The rows of one table: those in the channel, those that the worker has collected (`rvms`, `events`
-- or `bins`), and those of the inserts that the sink has answered with no error. Oldest first.
pub record Stream {ℓ} (A : Type ℓ) : Type ℓ where
  pub chan : List A
  pub pending : List A
  pub committed : List A

abbrev pub empty_stream {ℓ} : {A : Type ℓ} → Stream A
empty_stream = record { chan = []; pending = []; committed = [] }

-- What the worker does after a flush: it goes on, it closes the `ack` of a Flush, or it returns.
pub data Resume : Type 0 where
  continue acknowledge finish : Resume

-- Where the worker stands.
pub data Phase : Type 0 where
  selecting : Phase
  draining_rvms draining_events draining_bins : Resume → Phase
  flushing_rvms flushing_events flushing_bins : Resume → Phase
  stopped : Phase

pub record BatchBuffer : Type 0 where
  pub rvms : Stream Rvm
  pub events : Stream RvmEvent
  pub bins : Stream BinStatus
  pub has_sink : Bool
  pub metrics : Option Metrics
  pub batch_size : ℕ
  pub flush_interval : ℕ
  pub acks : ℕ
  pub phase : Phase

abbrev pub rvm_capacity : ℕ
rvm_capacity = 5000

abbrev pub event_capacity : ℕ
event_capacity = 5000

abbrev pub bin_capacity : ℕ
bin_capacity = 10000

abbrev positive_or : ℕ → ℤ → ℕ
positive_or default v = if is_positive v then magnitude v else default

-- NewBatchBuffer; it also starts the worker.
unfoldable pub new_batch_buffer : Option Config → Option Metrics → Bool → BatchBuffer
new_batch_buffer cfg metrics has_sink = record {
  rvms = empty_stream;
  events = empty_stream;
  bins = empty_stream;
  has_sink = has_sink;
  metrics = metrics;
  batch_size = elim cfg [ none ↦ 500 | some c ↦ positive_or 500 c.click_house_batch_size ];
  flush_interval = elim cfg [
    | none ↦ 5000000000
    | some c ↦ positive_or 5000000000 c.click_house_flush_interval
  ];
  acks = 0;
  phase = selecting;
}

-- A send to a buffered channel, if it has room.
abbrev pub send {ℓ} : {A : Type ℓ} → A → Stream A → Stream A
send a s = record s { chan = s.chan ++ a ∷ [] }

unfoldable pub enqueue_rvm : Rvm → BatchBuffer → BatchBuffer
enqueue_rvm r b =
    if ltb (length b.rvms.chan) rvm_capacity
    then record b {
      rvms = send r b.rvms;
      metrics =
          on b.metrics (set_click_house_buffer_depth "rvm_current" (length (send r b.rvms).chan));
    }
    else b

unfoldable pub enqueue_event : RvmEvent → BatchBuffer → BatchBuffer
enqueue_event e b =
    if ltb (length b.events.chan) event_capacity
    then record b {
      events = send e b.events;
      metrics =
          on b.metrics (set_click_house_buffer_depth "rvm_events" (length (send e b.events).chan));
    }
    else b

unfoldable pub enqueue_bin : BinStatus → BatchBuffer → BatchBuffer
enqueue_bin x b =
    if ltb (length b.bins.chan) bin_capacity
    then record b {
      bins = send x b.bins;
      metrics =
          on b.metrics
            (set_click_house_buffer_depth "rvm_bin_snapshots" (length (send x b.bins).chan));
    }
    else b

-- `rvms = append(rvms, r)` for a row received from the channel.
abbrev pub receive {ℓ} : {A : Type ℓ} → A → List A → Stream A → Stream A
receive a rest s = record s { chan = rest; pending = s.pending ++ a ∷ [] }

-- One section of flush: `ok` and `duration` are the answer of the sink, if it is called.
unfoldable pub flush_section {ℓ} :
    {A : Type ℓ}
    → String
    → Bool
    → Bool
    → Duration
    → Stream A × Option Metrics
    → Stream A × Option Metrics
flush_section table has_sink ok duration (s, metrics) =
    if ltb 0 (length s.pending)
    then (if has_sink
        then (
          (if ok then record s { pending = []; committed = s.committed ++ s.pending } else s),
          on metrics (record_click_house_insert table (length s.pending) duration (not ok)),
        )
        else (record s { pending = [] }, metrics))
    else (s, metrics)

-- The gauges that flush sets at its end.
pub set_depths : BatchBuffer → Option Metrics
set_depths b = on b.metrics λ m.
    set_click_house_buffer_depth "rvm_bin_snapshots" (length b.bins.chan + length b.bins.pending) (
      set_click_house_buffer_depth "rvm_events" (length b.events.chan + length b.events.pending)
        (set_click_house_buffer_depth "rvm_current" (length b.rvms.chan + length b.rvms.pending) m))

pub resume : Resume → BatchBuffer → BatchBuffer
resume continue b = record b { phase = selecting }
resume acknowledge b = record b { phase = selecting; acks = suc b.acks }
resume finish b = record b { phase = stopped }

-- What the worker is offered: a case of its select, a round of a drain loop, an answer of the sink.
pub data Act : Type 0 where
  receive_rvm receive_event receive_bin ticked flush_requested stop_requested : Act
  drain : Act
  answer : Bool → Duration → Act

-- `flush()` starts if the batch is full.
abbrev flush_if_full : ℕ → BatchBuffer → BatchBuffer
flush_if_full n b = if leb b.batch_size n then record b { phase = flushing_rvms continue } else b

-- A step of the worker; `none` if it is not at a place where it can make it.
pub work : Phase → Act → BatchBuffer → Option BatchBuffer
unfolding flush_section set_depths resume
work selecting receive_rvm b = elim b.rvms.chan [
  | [] ↦ none
  | r ∷ rest ↦
      some (flush_if_full (suc (length b.rvms.pending)) (record b { rvms = receive r rest b.rvms }))
]
work selecting receive_event b = elim b.events.chan [
  | [] ↦ none
  | e ∷ rest ↦ some (
      flush_if_full (suc (length b.events.pending)) (record b { events = receive e rest b.events }))
]
work selecting receive_bin b = elim b.bins.chan [
  | [] ↦ none
  | x ∷ rest ↦
      some (flush_if_full (suc (length b.bins.pending)) (record b { bins = receive x rest b.bins }))
]
work selecting ticked b = some (record b { phase = flushing_rvms continue })
work selecting flush_requested b = some (record b { phase = draining_rvms acknowledge })
work selecting stop_requested b = some (record b { phase = draining_rvms finish })
work (draining_rvms k) drain b = elim b.rvms.chan [
  | [] ↦ some (record b { phase = draining_events k })
  | r ∷ rest ↦ some (record b { rvms = receive r rest b.rvms })
]
work (draining_events k) drain b = elim b.events.chan [
  | [] ↦ some (record b { phase = draining_bins k })
  | e ∷ rest ↦ some (record b { events = receive e rest b.events })
]
work (draining_bins k) drain b = elim b.bins.chan [
  | [] ↦ some (record b { phase = flushing_rvms k })
  | x ∷ rest ↦ some (record b { bins = receive x rest b.bins })
]
work (flushing_rvms k) (answer ok d) b =
    let (s, m) = flush_section "rvm_current" b.has_sink ok d (b.rvms, b.metrics) in
    some (record b { rvms = s; metrics = m; phase = flushing_events k })
work (flushing_events k) (answer ok d) b =
    let (s, m) = flush_section "rvm_events" b.has_sink ok d (b.events, b.metrics) in
    some (record b { events = s; metrics = m; phase = flushing_bins k })
work (flushing_bins k) (answer ok d) b =
    let (s, m) = flush_section "rvm_bin_snapshots" b.has_sink ok d (b.bins, b.metrics) in
    let b' = record b { bins = s; metrics = m } in
    some (resume k (record b' { metrics = set_depths b' }))
work _ _ b = none

-- A step of the whole: a producer sends, or the worker moves.
pub data Event : Type 0 where
  enqueues_rvm : Rvm → Event
  enqueues_event : RvmEvent → Event
  enqueues_bin : BinStatus → Event
  works : Act → Event

unfoldable pub step : Event → BatchBuffer → Option BatchBuffer
unfolding work
step (enqueues_rvm r) b = some (enqueue_rvm r b)
step (enqueues_event e) b = some (enqueue_event e b)
step (enqueues_bin x) b = some (enqueue_bin x b)
step (works act) b = work b.phase act b

-- A schedule of steps; `none` if one of them cannot be made.
unfoldable pub run : List Event → BatchBuffer → Option BatchBuffer
run [] b = some b
run (e ∷ es) b = elim (step e b) [ none ↦ none | some b' ↦ run es b' ]
