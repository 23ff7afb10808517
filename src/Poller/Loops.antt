-- ===== src/Poller/Loops.antt =====
-- Start of internal/poller/poller.go: the two loops that poll the locations and the bins, each with a
-- ticker, until the context ends. One step is the end of one section of a poll, a step of the pool of
-- PollBins, one ready case of a select, a tick, the end of the context, or a step of the buffer. What
-- the API answers and what the clock shows come with the steps.
pub mod Agreement
pub mod Restart
pub mod Return
use bcrstracking.Prelude.{
  ℕ, ◌*◌, ℤ, pos, is_positive, Option, none, some, Bool, true, false, List, [], ◌∷◌, if◌then◌else◌,
  ◌≡◌, refl, arith,
}
use bcrstracking.Model.{Time, Duration, Uuid, Rvm, BinStatus}
use bcrstracking.Config.{Config, second}
use bcrstracking.Batch.{Event, step}
use bcrstracking.Poller.{Poller}
use bcrstracking.Poller.Locations.{PollClock, poll_locations}
use bcrstracking.Poller.Bins.{active_list, finish_bins}
use bcrstracking.Poller.Workers.{Pool, Act, start_pool, move, works, collects, all_returned}

-- A setting that is not positive leaves the default.
abbrev interval_or : ℤ → ℤ → ℤ
interval_or default setting = if is_positive setting then setting else default

-- locInterval and binInterval, for which NewTicker wants a positive number.
unfoldable pub intervals : Option Config → ℤ × ℤ
intervals none = (pos (15 * 60 * second), pos (5 * 60 * second))
intervals (some cfg) = (
  interval_or (pos (15 * 60 * second)) cfg.location_poll_interval,
  interval_or (pos (5 * 60 * second)) cfg.bin_poll_interval,
)

intervals_positive :
    (cfg : Option Config)
    → (is_positive (intervals cfg).0 ≡ true) × (is_positive (intervals cfg).1 ≡ true)
unfolding intervals
intervals_positive none = (refl, refl)
intervals_positive (some cfg) = ground arith

-- Where a loop stands: at its poll, at its select, or after its return.
pub data Stage : Type 0 where
  calling selecting ended : Stage

-- A ticker is made after the first poll; its channel holds one tick at most.
pub data Ticker : Type 0 where
  absent quiet due : Ticker

-- `pool` is the pool of a poll of the bins that has listed its machines.
pub record Service : Type 0 where
  pub poller : Poller
  pub locations : Stage
  pub locations_ticker : Ticker
  pub bins : Stage
  pub bins_ticker : Ticker
  pub pool : Option Pool
  pub cancelled : Bool

-- The two loops when Start has hydrated the poller.
unfoldable pub start : Poller → Service
start p = record {
  poller = p;
  locations = calling;
  locations_ticker = absent;
  bins = calling;
  bins_ticker = absent;
  pool = none;
  cancelled = false;
}

pub data Step : Type 0 where
  located : Option (List Rvm) → PollClock → Step
  lists_bins : Step
  worker_moves : ℕ → (Rvm → Option (List BinStatus)) → (Rvm → Time) → Step
  collector_moves : Step
  binned : Duration → ℕ → Step
  locations_tick bins_tick locations_repeat bins_repeat locations_leave bins_leave cancel : Step
  buffer_moves : Event → Step

abbrev made : Ticker → Ticker
made absent = quiet
made t = t

abbrev fired : Ticker → Option Ticker
fired absent = none
fired _ = some due

-- The workers have returned, and the collector has received everything.
abbrev pub is_settled : Pool → Bool
is_settled pool = elim pool.scraped [ [] ↦ all_returned pool.workers | item ∷ rest ↦ false ]

-- A step of the pool, which shares the buffer and the context with the rest.
unfoldable pub pool_step :
    (Rvm → Option (List BinStatus)) → (Rvm → Time) → Act → Service → Option Service
pool_step api clock act s = elim s.pool [
  | none ↦ none
  | some pool ↦
      elim (move s.poller.has_client api clock act
        (record pool { buffer = s.poller.buffer; cancelled = s.cancelled })) [
          | none ↦ none
          | some pool' ↦
              some
                (record s { pool = some pool'; poller = record s.poller { buffer = pool'.buffer } })
        ]
]

module _ (new_uuid : ℕ → Uuid) where
  pub take_step : Step → Service → Option Service
  unfolding pool_step start_pool
  take_step (located reply clock) s = elim s.locations [
    | calling ↦ some (record s {
      poller = poll_locations new_uuid s.poller reply clock;
      locations = selecting;
      locations_ticker = made s.locations_ticker;
    })
    | _ ↦ none
  ]
  take_step lists_bins s = elim s.bins [
    | calling ↦ elim s.pool [
      | some pool ↦ none
      | none ↦ elim (active_list s.poller) [
        | [] ↦ some (record s { bins = selecting; bins_ticker = made s.bins_ticker })
        | r ∷ rest ↦ some (record s {
          pool = some (start_pool s.poller.cfg s.poller.buffer (active_list s.poller));
        })
      ]
    ]
    | _ ↦ none
  ]
  take_step (worker_moves i api clock) s = pool_step api clock (works i) s
  take_step collector_moves s = pool_step (λ r. none) (λ r. 0) collects s
  take_step (binned duration unix) s = elim s.pool [
    | none ↦ none
    | some pool ↦
        if is_settled pool
        then some (record s {
          poller = finish_bins s.poller pool.all_bins s.poller.buffer s.cancelled duration unix;
          bins = selecting;
          bins_ticker = made s.bins_ticker;
          pool = none;
        })
        else none
  ]
  take_step locations_tick s = elim (fired s.locations_ticker) [
    | none ↦ none
    | some t ↦ some (record s { locations_ticker = t })
  ]
  take_step bins_tick s = elim (fired s.bins_ticker) [
    | none ↦ none
    | some t ↦ some (record s { bins_ticker = t })
  ]
  take_step locations_repeat s = elim s.locations [
    | selecting ↦ elim s.locations_ticker [
      | due ↦ some (record s { locations = calling; locations_ticker = quiet })
      | _ ↦ none
    ]
    | _ ↦ none
  ]
  take_step bins_repeat s = elim s.bins [
    | selecting ↦ elim s.bins_ticker [
      | due ↦ some (record s { bins = calling; bins_ticker = quiet })
      | _ ↦ none
    ]
    | _ ↦ none
  ]
  take_step locations_leave s = elim s.locations [
    | selecting ↦ if s.cancelled then some (record s { locations = ended }) else none
    | _ ↦ none
  ]
  take_step bins_leave s = elim s.bins [
    | selecting ↦ if s.cancelled then some (record s { bins = ended }) else none
    | _ ↦ none
  ]
  take_step cancel s = some (record s { cancelled = true })
  take_step (buffer_moves e) s = elim s.poller.buffer [
    | none ↦ none
    | some buf ↦ elim (step e buf) [
      | none ↦ none
      | some buf' ↦ some (record s { poller = record s.poller { buffer = some buf' } })
    ]
  ]

  unfoldable pub take_steps : List Step → Service → Option Service
  unfolding take_step
  take_steps [] s = some s
  take_steps (t ∷ ts) s = elim (take_step t s) [ none ↦ none | some s' ↦ take_steps ts s' ]
