-- ===== src/Tests/Loops.antt =====
-- The two loops of Start.
use bcrstracking.Prelude.{arith, nat_keys, string_keys, none, some, true, List, [], ◌∷◌, map, refl}
use bcrstracking.Prelude.GoMap.{value_or, insert}
use bcrstracking.Model.Index.{index_from}
use bcrstracking.Storage.{rvm_row, load_active_rvms, scan_rvms, scan_rvm}
use bcrstracking.Poller.{Poller, new_poller}
use bcrstracking.Poller.Bins.{active_list}
use bcrstracking.Poller.Workers.{start_pool, move, advance}
use bcrstracking.Poller.Hydration.{hydrate_from_storage}
use bcrstracking.Poller.Loops.{
  Service, Step, start, take_steps, located, lists_bins, worker_moves, locations_tick,
  locations_repeat, locations_leave, cancel,
}
use bcrstracking.Poller.Loops.Agreement.{Follows, written_by}
use bcrstracking.Storage.Merge.{IsUntil-entries}
use bcrstracking.Poller.Loops.Restart.{start-Follows}
use bcrstracking.Poller.Loops.Return.{Returns, start-Returns}
use bcrstracking.Tests.Data.{uuid, yesterday, today}
use bcrstracking.Tests.Diff.{merge_row, merge_row-IsReplacing, today-HasDistinctIds, today_fresh}
use bcrstracking.Tests.Hydration.{clock, snapshots}
use bcrstracking.Tests.Storage.{fault}

abbrev quiet_poller : Poller
quiet_poller = record (new_poller none true none none) { active_rvms = [] }

abbrev first : Service
first = start (
    hydrate_from_storage
      (some (
        load_active_rvms fault true
            (record { error = none; rows = map rvm_row yesterday; rows_error = none }),
        (snapshots, none),
      ))
      quiet_poller)

-- The bins of the loaded machines are listed, and a worker takes a job while the machines are polled
-- twice.
abbrev schedule : List Step
schedule =
    lists_bins
    ∷ located (some today) (clock 9)
    ∷ worker_moves 0 (λ r. some []) (λ r. 9)
    ∷ locations_tick
    ∷ cancel
    ∷ locations_repeat
    ∷ located none (clock 20)
    ∷ locations_leave
    ∷ []

abbrev last : Service
last = value_or first (take_steps uuid schedule first)

start-Follows_example :
    Follows uuid merge_row last.poller
      (written_by uuid merge_row schedule first (index_from yesterday []))
unfolding new_poller start hydrate_from_storage take_steps load_active_rvms scan_rvms scan_rvm
    active_list start_pool insert rvm_row index_from move advance
start-Follows_example =
    start-Follows uuid merge_row fault yesterday (snapshots, none) quiet_poller
      (index_from yesterday []) 0 schedule last merge_row-IsReplacing refl refl (λ id. refl)
      (IsUntil-entries 0 (index_from yesterday [])
        (omega arith, (omega arith, (omega arith, (omega arith, tt)))))
      (tt, ((today-HasDistinctIds, today_fresh), (tt, (tt, (tt, (tt, (tt, (tt, tt))))))))
      (
        omega arith,
        (
          omega arith,
          (
            omega arith,
            (omega arith, (omega arith, (omega arith, (omega arith, (omega arith, tt))))),
          ),
        ),
      )
      refl

-- The context ended before the first polls.
abbrev halted : Service
halted = record (start quiet_poller) { cancelled = true }

start-Returns_example : Returns uuid (some today) (clock 9) (λ r. some []) (λ r. 9) halted
start-Returns_example =
    start-Returns uuid (some today) (clock 9) (λ r. some []) (λ r. 9) halted refl
