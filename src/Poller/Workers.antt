-- ===== src/Poller/Workers.antt =====
-- The worker pool of PollBins in internal/poller/poller.go: the workers share the channel of jobs,
-- and hand what they scrape to the buffer and, over a channel, to the collector. One step is one
-- move of a worker, one receive of the collector, the cancellation of the context, or a move of the
-- buffer, which other goroutines use at the same time.
pub mod Harvest
pub mod Jobs
pub mod Completion
pub mod Effort
use bcrstracking.Prelude.{
  get_elem?, set, sum_of, sum_of-append, sum_of-set, ℕ, zero, suc, Option, none, some, Bool, true,
  false, List, [], ◌∷◌, ◌++◌, ◌&&◌, map, length, replicate, ltb, if◌then◌else◌, ℤ, is_positive,
  magnitude,
}
use bcrstracking.Model.{Time, Rvm, BinStatus}
use bcrstracking.Config.{Config}
use bcrstracking.Batch.{BatchBuffer, Event, step, enqueue_bin}
use bcrstracking.Poller.Bins.{ScrapedBin}

-- Where a worker stands: before its next job, in GetBinStatus, at the top of the loop over the bins
-- that are left, at the send of a bin, or after its return.
pub data Worker : Type 0 where
  idle : Worker
  asking : Rvm → Worker
  handing : List ScrapedBin → Worker
  sending : ScrapedBin → List ScrapedBin → Worker
  returned : Worker

-- Whether a worker has returned; and all of them, for which wg.Wait waits.
abbrev pub has_returned : Worker → Bool
has_returned returned = true
has_returned _ = false

abbrev pub all_returned : List Worker → Bool
all_returned [] = true
all_returned (x ∷ rest) = has_returned x && all_returned rest

-- `scraped` is scrapedCh.
pub record Pool : Type 0 where
  pub jobs : List Rvm
  pub workers : List Worker
  pub scraped : List ScrapedBin
  pub all_bins : List ScrapedBin
  pub buffer : Option BatchBuffer
  pub cancelled : Bool

abbrev pub scraped_capacity : ℕ
scraped_capacity = 1000

abbrev pub worker_count : Option Config → ℕ
worker_count none = 8
worker_count (some cfg) =
    if is_positive cfg.bin_worker_concurrency then magnitude cfg.bin_worker_concurrency else 8

unfoldable pub start_pool : Option Config → Option BatchBuffer → List Rvm → Pool
start_pool cfg buffer rvm_list = record {
  jobs = rvm_list;
  workers = replicate (worker_count cfg) idle;
  scraped = [];
  all_bins = [];
  buffer = buffer;
  cancelled = false;
}

abbrev pub on_buffer : (BatchBuffer → BatchBuffer) → Option BatchBuffer → Option BatchBuffer
on_buffer method none = none
on_buffer method (some buf) = some (method buf)

-- The step of the schedule.
pub data Act : Type 0 where
  works : ℕ → Act
  collects cancels : Act
  buffer_moves : Event → Act

-- Whether there is a client, what GetBinStatus answers for each machine (`none` for an error), and
-- the time after the answer.
module _ (has_client : Bool) (api : Rvm → Option (List BinStatus)) (clock : Rvm → Time) where
  -- The fields that the worker overwrites.
  abbrev pub stamp_bin : Rvm → BinStatus → ScrapedBin
  stamp_bin rvm b = record {
    bin = record b { rvm_id = rvm.id; serial_number = rvm.serial_number; polled_at = clock rvm };
    supplier = rvm.supplier_id;
  }

  abbrev pub answer : Rvm → Option (List BinStatus) → Worker
  answer rvm none = idle
  answer rvm (some bins) = handing (map (stamp_bin rvm) bins)

  -- What the worker does after it has received a job.
  abbrev pub begin : Bool → Rvm → Worker
  begin cancelled rvm = if cancelled then returned else if has_client then asking rvm else idle

  -- The next step of worker `i`; `none` if it has returned, or its send finds the channel full.
  unfoldable pub advance : Worker → ℕ → Pool → Option Pool
  advance idle i s = elim s.jobs [
    | [] ↦ some (record s { workers = set s.workers i returned })
    | rvm ∷ rest ↦
        some (record s { jobs = rest; workers = set s.workers i (begin s.cancelled rvm) })
  ]
  advance (asking rvm) i s = some (record s { workers = set s.workers i (answer rvm (api rvm)) })
  advance (handing []) i s = some (record s { workers = set s.workers i idle })
  advance (handing (item ∷ rest)) i s = some (record s {
    workers = set s.workers i (sending item rest);
    buffer = on_buffer (enqueue_bin item.bin) s.buffer;
  })
  advance (sending item rest) i s =
      if ltb (length s.scraped) scraped_capacity
      then some
          (record s { workers = set s.workers i (handing rest); scraped = s.scraped ++ item ∷ [] })
      else none
  advance returned i s = none

  unfoldable pub move : Act → Pool → Option Pool
  unfolding advance
  move (works i) s = elim (get_elem? s.workers i) [ none ↦ none | some x ↦ advance x i s ]
  move collects s = elim s.scraped [
    | [] ↦ none
    | item ∷ rest ↦ some (record s { scraped = rest; all_bins = s.all_bins ++ item ∷ [] })
  ]
  move cancels s = some (record s { cancelled = true })
  move (buffer_moves e) s = elim s.buffer [
    | none ↦ none
    | some buf ↦ elim (step e buf) [
      | none ↦ none
      | some buf' ↦ some (record s { buffer = some buf' })
    ]
  ]

  unfoldable pub run_pool : List Act → Pool → Option Pool
  unfolding move
  run_pool [] s = some s
  run_pool (act ∷ acts) s = elim (move act s) [ none ↦ none | some s' ↦ run_pool acts s' ]
