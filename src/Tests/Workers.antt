-- ===== src/Tests/Workers.antt =====
-- A worker pool of PollBins: one worker scrapes the only machine, and all workers return.
use mathlib.Core.Option
use bcrstracking.Prelude.{
  ◌+◌, ◌≤◌, nat_keys, string_keys, list_keys, Option, none, some, true, false, List, [], ◌∷◌,
  replicate, length, ◌≡◌, ◌⊎◌, refl, sum_of,
}
use bcrstracking.Prelude.GoMap.{get_or}
use bcrstracking.Model.{Time, Rvm, BinStatus}
use bcrstracking.Metrics.{new_metrics}
use bcrstracking.Poller.{Poller, new_poller}
use bcrstracking.Poller.Bins.{ScrapedBin, active_list, poll_bins}
use bcrstracking.Poller.Workers.{
  Pool, Act, works, collects, returned, start_pool, run_pool, stamp_bin,
}
use bcrstracking.Poller.Workers.Harvest.{harvest}
use bcrstracking.Poller.Workers.Completion.{IsFinished, run_pool_collects, bin_current_count-pool}
use bcrstracking.Poller.Workers.Effort.{effort, CanMove, run_pool_settles}
use bcrstracking.Tests.Data.{machine, bin}

abbrev poller : Poller
poller = record (new_poller none true none (some new_metrics)) {
  active_rvms = (1, machine 1 "RUNNING" "Hall") ∷ [];
}

abbrev api : Rvm → Option (List BinStatus)
api rvm = some (bin 0 "CAN" 500 30 ∷ [])

abbrev clock : Rvm → Time
clock rvm = 77

-- The first worker scrapes the machine, and then each worker finds no more jobs.
abbrev schedule : List Act
schedule =
    works 0
    ∷ works 0
    ∷ works 0
    ∷ works 0
    ∷ collects
    ∷ works 0
    ∷ works 0
    ∷ works 1
    ∷ works 2
    ∷ works 3
    ∷ works 4
    ∷ works 5
    ∷ works 6
    ∷ works 7
    ∷ []

abbrev scraped : List ScrapedBin
scraped = stamp_bin true api clock (machine 1 "RUNNING" "Hall") (bin 0 "CAN" 500 30) ∷ []

abbrev finished_pool : Pool
finished_pool = record {
  jobs = [];
  workers = replicate 8 returned;
  scraped = [];
  all_bins = scraped;
  buffer = none;
  cancelled = false;
}

schedule_test :
    run_pool true api clock schedule (start_pool none none (active_list poller))
    ≡ some finished_pool
unfolding run_pool start_pool active_list new_poller
schedule_test = refl

finished : IsFinished finished_pool
finished = record { workers = refl; scraped = refl }

-- Every bin counts for one.
run_pool_collects_example :
    sum_of (λ (item : ScrapedBin). 1) finished_pool.all_bins
    ≡ sum_of
        (λ rvm. sum_of (λ (item : ScrapedBin). 1) (harvest true api clock rvm))
        (active_list poller)
unfolding new_poller
run_pool_collects_example =
    run_pool_collects true api clock (λ item. 1) none none (active_list poller) schedule
      finished_pool schedule_test finished refl

bin_current_count-pool_example :
    Option.map
      (λ m. get_or 0 ("CAN" ∷ "RVMS001" ∷ []) m.bin_current_count)
      (poll_bins poller finished_pool.all_bins finished_pool.buffer finished_pool.cancelled 5
        1700000000).metrics
    ≡ some 30
unfolding new_poller active_list
bin_current_count-pool_example =
    bin_current_count-pool true api clock poller new_metrics schedule finished_pool 5 1700000000
      "CAN" "RVMS001" refl refl schedule_test finished refl

run_pool_settles_example :
    (length schedule + effort true api clock finished_pool
      ≤ effort true api clock (start_pool none none (active_list poller)))
    × (IsFinished finished_pool ⊎ CanMove true api clock finished_pool)
run_pool_settles_example =
    run_pool_settles true api clock schedule (start_pool none none (active_list poller))
      finished_pool
      (
        refl,
        (
          refl,
          (
            refl,
            (
              refl,
              (refl, (refl, (refl, (refl, (refl, (refl, (refl, (refl, (refl, (refl, tt)))))))))),
            ),
          ),
        ),
      )
      schedule_test
