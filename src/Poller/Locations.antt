-- ===== src/Poller/Locations.antt =====
-- PollLocations of internal/poller/poller.go.
pub mod Gauges
pub mod Queue
pub mod History
use bcrstracking.Prelude.{
  ℕ, suc, length, ◌+◌, nat_keys, string_keys, String, Option, none, some, Bool, true, false, List,
  [], ◌∷◌, if◌then◌else◌,
}
use bcrstracking.Prelude.GoMap.{Entries, lookup, insert, get_or}
use bcrstracking.Model.{Time, Duration, Uuid, Rvm, RvmEvent}
use bcrstracking.Model.Index.{index_from}
use bcrstracking.Metrics.{Metrics, on, record_poll_cycle, reset_rvm_total, set_rvm_total}
use bcrstracking.Batch.{BatchBuffer, enqueue_rvm, enqueue_event}
use bcrstracking.Diff.{DiffResult, diff_state}
use bcrstracking.Poller.{Poller}
use bcrstracking.Poller.Counts.{Counts, accumulate, set_gauges}

-- The first loop, where statusCounts[loc.Status][loc.SupplierID]++.
unfoldable pub count_statuses : List Rvm → Counts → Counts
unfolding accumulate
count_statuses [] counts = counts
count_statuses (loc ∷ rest) counts =
    count_statuses rest (accumulate loc.status loc.supplier_id 1 counts)

-- p.metrics.SetRVMTotal(status, supplier, label, count); the polls and the hydration differ in the
-- label.
abbrev pub put_rvm_total : String → String → String → ℕ → Metrics → Metrics
put_rvm_total label status supplier count = set_rvm_total status supplier label count

-- The loops that hand rows to the buffer. Its worker and the pool of workers run at the same time:
-- `meanwhile n` is what they make of the buffer before the n-th row of the poll is sent.
unfoldable pub enqueue_rvms :
    (ℕ → BatchBuffer → BatchBuffer) → ℕ → List Rvm → BatchBuffer → BatchBuffer
enqueue_rvms meanwhile n [] buf = buf
enqueue_rvms meanwhile n (rvm ∷ rest) buf =
    enqueue_rvms meanwhile (suc n) rest (enqueue_rvm rvm (meanwhile n buf))

unfoldable pub enqueue_events :
    (ℕ → BatchBuffer → BatchBuffer) → ℕ → List RvmEvent → BatchBuffer → BatchBuffer
enqueue_events meanwhile n [] buf = buf
enqueue_events meanwhile n (evt ∷ rest) buf =
    enqueue_events meanwhile (suc n) rest (enqueue_event evt (meanwhile n buf))

unfoldable pub enqueue_diff :
    (ℕ → BatchBuffer → BatchBuffer) → DiffResult → BatchBuffer → BatchBuffer
unfolding enqueue_rvms enqueue_events
enqueue_diff meanwhile diff buf =
    let added = length diff.added in
    let updated = added + length diff.updated in
    enqueue_events meanwhile (updated + length diff.removed) diff.events (
      enqueue_rvms meanwhile updated diff.removed
        (enqueue_rvms meanwhile added diff.updated (enqueue_rvms meanwhile 0 diff.added buf)))

-- The clock as one poll reads it: `now` for DiffState, and what RecordPollCycle reads; and what the
-- other goroutines do to the buffer before each of its sends.
pub record PollClock : Type 0 where
  pub now : Time
  pub duration : Duration
  pub unix : ℕ
  pub meanwhile : ℕ → BatchBuffer → BatchBuffer

module _ (new_uuid : ℕ → Uuid) where
  -- After GetLocations has returned a directory.
  pub accept_locations : Poller → List Rvm → PollClock → Poller
  unfolding count_statuses set_gauges enqueue_diff
  accept_locations p locations clock =
      let diff = diff_state new_uuid p.active_rvms locations clock.now in
      record p {
        active_rvms = index_from locations [];
        metrics =
            on p.metrics (λ m.
              set_gauges (put_rvm_total "") (count_statuses locations []) (reset_rvm_total m));
        buffer = elim p.buffer [
          | none ↦ none
          | some buf ↦ some (enqueue_diff clock.meanwhile diff buf)
        ];
      }

  -- `reply` is what GetLocations returns; `none` is an error.
  unfoldable pub poll_locations : Poller → Option (List Rvm) → PollClock → Poller
  unfolding accept_locations
  poll_locations p none clock =
      if p.has_client
      then record p {
        metrics = on p.metrics (record_poll_cycle "locations" clock.duration true clock.unix);
      }
      else p
  poll_locations p (some locations) clock =
      if p.has_client
      then accept_locations
          (record p {
            metrics = on p.metrics (record_poll_cycle "locations" clock.duration false clock.unix);
          })
          locations clock
      else p
