-- ===== src/Batch/Shutdown.antt =====
-- Stop and Flush: the worker drains the three channels and flushes what it holds.
use bcrstracking.Prelude.{
  ℕ, suc, String, Option, some, Bool, true, List, [], ◌∷◌, ◌++◌, if◌then◌else◌, length, replicate,
  ◌≡◌, refl, ◌∙◌, arith, append-nil, append_assoc,
}
use bcrstracking.Model.{Duration, Rvm, RvmEvent, BinStatus}
use bcrstracking.Metrics.{Metrics}
use bcrstracking.Batch.Conservation.{backlog}
use bcrstracking.Batch.{
  Stream, BatchBuffer, Act, Event, Resume, flush_section, work, step, run, selecting, draining_rvms,
  draining_events, draining_bins, flushing_rvms, stopped, flush_requested, stop_requested, drain,
  answer, acknowledge, finish, works,
}

abbrev stream {ℓ} : {A : Type ℓ} → List A → List A → List A → Stream A
stream chan pending committed = record { chan = chan; pending = pending; committed = committed }

-- The rounds of one drain loop: one for each row, and the one that finds the channel empty.
abbrev pub rounds : ℕ → List Event
rounds n = replicate (suc n) (works drain)

drain_rvms :
    (chan pending committed : List Rvm) (b : BatchBuffer) (k : Resume) (es : List Event)
    → run
        (rounds (length chan) ++ es)
        (record b { rvms = stream chan pending committed; phase = draining_rvms k })
      ≡ run es
          (record b { rvms = stream [] (pending ++ chan) committed; phase = draining_events k })
unfolding run step work
drain_rvms [] pending committed b k es = rw append-nil
drain_rvms (r ∷ chan) pending committed b k es =
    drain_rvms chan (pending ++ r ∷ []) committed b k es ∙ rw append_assoc

drain_events :
    (chan pending committed : List RvmEvent) (b : BatchBuffer) (k : Resume) (es : List Event)
    → run
        (rounds (length chan) ++ es)
        (record b { events = stream chan pending committed; phase = draining_events k })
      ≡ run es
          (record b { events = stream [] (pending ++ chan) committed; phase = draining_bins k })
unfolding run step work
drain_events [] pending committed b k es = rw append-nil
drain_events (r ∷ chan) pending committed b k es =
    drain_events chan (pending ++ r ∷ []) committed b k es ∙ rw append_assoc

drain_bins :
    (chan pending committed : List BinStatus) (b : BatchBuffer) (k : Resume) (es : List Event)
    → run
        (rounds (length chan) ++ es)
        (record b { bins = stream chan pending committed; phase = draining_bins k })
      ≡ run es (record b { bins = stream [] (pending ++ chan) committed; phase = flushing_rvms k })
unfolding run step work
drain_bins [] pending committed b k es = rw append-nil
drain_bins (r ∷ chan) pending committed b k es =
    drain_bins chan (pending ++ r ∷ []) committed b k es ∙ rw append_assoc

-- A table after the drain and its section of flush: with no error from the sink, all its rows are
-- committed; with an error, all rows that were not committed are in the worker's batch.
abbrev pub settled {ℓ} : {A : Type ℓ} → Bool → Stream A → Stream A
settled ok s = if ok then stream [] [] (backlog s) else stream [] (s.pending ++ s.chan) s.committed

section_settled {ℓ} :
    {A : Type ℓ} (table : String) (ok : Bool) (d : Duration) (rows committed : List A)
    (m : Option Metrics)
    → (flush_section table true ok d (stream [] rows committed, m)).0
      ≡ (if ok then stream [] [] (committed ++ rows) else stream [] rows committed)
unfolding flush_section
section_settled table ok d [] committed m = ground (arith, append-nil committed)
section_settled table ok d (x ∷ rows) committed m = ground arith

-- The two requests that make the worker drain: that of Flush and that of Stop.
pub data Request : Type 0 where
  flush stop : Request

abbrev pub request : Request → Act
request flush = flush_requested
request stop = stop_requested

abbrev answered_by : Request → Resume
answered_by flush = acknowledge
answered_by stop = finish

-- Where the worker stands after the flush, and how many acks it has closed.
abbrev pub Resumed : Request → BatchBuffer → BatchBuffer → Type 0
Resumed flush b b' = (b'.phase ≡ selecting) × (b'.acks ≡ suc b.acks)
Resumed stop b b' = (b'.phase ≡ stopped) × (b'.acks ≡ b.acks)

-- The steps of the worker from such a request on, with the answers of the sink to the three inserts.
abbrev pub drain_and_flush : Request → BatchBuffer → Bool × Bool × Bool → Duration → List Event
drain_and_flush k b oks d =
    works (request k)
    ∷ (rounds (length b.rvms.chan)
        ++ (rounds (length b.events.chan)
            ++ (rounds (length b.bins.chan)
                ++ works (answer oks.0 d) ∷ works (answer oks.1 d) ∷ works (answer oks.2 d) ∷ [])))

pub record IsSettled (k : Request) (oks : Bool × Bool × Bool) (b b' : BatchBuffer) : Type 0 where
  pub rvms : b'.rvms ≡ settled oks.0 b.rvms
  pub events : b'.events ≡ settled oks.1 b.events
  pub bins : b'.bins ≡ settled oks.2 b.bins
  pub resumed : Resumed k b b'

drained : Resume → BatchBuffer → BatchBuffer
drained k b = record b {
  rvms = stream [] (b.rvms.pending ++ b.rvms.chan) b.rvms.committed;
  events = stream [] (b.events.pending ++ b.events.chan) b.events.committed;
  bins = stream [] (b.bins.pending ++ b.bins.chan) b.bins.committed;
  phase = flushing_rvms k;
}

run_drains :
    (k : Resume) (b : BatchBuffer) (es : List Event)
    → run
        (rounds (length b.rvms.chan)
          ++ (rounds (length b.events.chan) ++ (rounds (length b.bins.chan) ++ es)))
        (record b { phase = draining_rvms k })
      ≡ run es (drained k b)
unfolding drained
run_drains k b es =
    drain_rvms b.rvms.chan b.rvms.pending b.rvms.committed b k _
    ∙ drain_events b.events.chan b.events.pending b.events.committed
        (record b { rvms = stream [] (b.rvms.pending ++ b.rvms.chan) b.rvms.committed }) k _
    ∙ drain_bins b.bins.chan b.bins.pending b.bins.committed
        (record b {
          rvms = stream [] (b.rvms.pending ++ b.rvms.chan) b.rvms.committed;
          events = stream [] (b.events.pending ++ b.events.chan) b.events.committed;
        })
        k es

run_answers :
    (k : Request) (b : BatchBuffer) (oks : Bool × Bool × Bool) (d : Duration)
    → b.has_sink ≡ true
    → (b' : BatchBuffer) × (run
          (works (answer oks.0 d) ∷ works (answer oks.1 d) ∷ works (answer oks.2 d) ∷ [])
          (drained (answered_by k) b)
        ≡ some b')
      × IsSettled k oks b b'
unfolding run step work drained
run_answers flush b oks d h = (
  _,
  refl,
  record {
    rvms =
        rw h (
          section_settled "rvm_current" oks.0 d (b.rvms.pending ++ b.rvms.chan) b.rvms.committed _);
    events = rw h (
        section_settled "rvm_events" oks.1 d (b.events.pending ++ b.events.chan) b.events.committed
          _);
    bins = rw h (
        section_settled "rvm_bin_snapshots" oks.2 d (b.bins.pending ++ b.bins.chan) b.bins.committed
          _);
    resumed = (refl, refl);
  },
)
run_answers stop b oks d h = (
  _,
  refl,
  record {
    rvms =
        rw h (
          section_settled "rvm_current" oks.0 d (b.rvms.pending ++ b.rvms.chan) b.rvms.committed _);
    events = rw h (
        section_settled "rvm_events" oks.1 d (b.events.pending ++ b.events.chan) b.events.committed
          _);
    bins = rw h (
        section_settled "rvm_bin_snapshots" oks.2 d (b.bins.pending ++ b.bins.chan) b.bins.committed
          _);
    resumed = (refl, refl);
  },
)

requested :
    (k : Request) (b : BatchBuffer) (es : List Event)
    → b.phase ≡ selecting
    → run (works (request k) ∷ es) b ≡ run es (record b { phase = draining_rvms (answered_by k) })
unfolding run step work
requested flush b es h = rw (h, work)
requested stop b es h = rw (h, work)

-- A worker that takes the request of a Flush or a Stop at its select, with no producer in between,
-- drains the three channels, flushes, and then closes the ack or returns. The channels are empty
-- then; the rows of each table whose insert the sink accepted are all committed, in order, and those
-- of a table whose insert it refused are all in the worker's batch. The buffer has a sink.
pub drain_and_flush_settles :
    (k : Request) (b : BatchBuffer) (oks : Bool × Bool × Bool) (d : Duration)
    → b.has_sink ≡ true
    → b.phase ≡ selecting
    → (b' : BatchBuffer) × (run (drain_and_flush k b oks d) b ≡ some b') × IsSettled k oks b b'
drain_and_flush_settles k b oks d sink h =
    let (b', ran, s) = run_answers k b oks d sink in
    (b', requested k b _ h ∙ run_drains (answered_by k) b _ ∙ ran, s)
