-- ===== src/Poller/Loops/Return.antt =====
-- The return of Start of internal/poller/poller.go once the context has ended.
use bcrstracking.Prelude.{
  ℕ, zero, suc, ◌<◌, Option, none, some, Bool, true, false, List, [], ◌∷◌, ◌≡◌, ◌⊎◌, inl, inr, refl,
  arith, All, List-cases, Option-cases,
}
use bcrstracking.Model.{Time, Uuid, Rvm, BinStatus}
use bcrstracking.Poller.Bins.{active_list}
use bcrstracking.Poller.Workers.{
  Act, Pool, move, start_pool, works, collects, cancels, buffer_moves as pool_buffer_moves,
}
use bcrstracking.Poller.Workers.Completion.{IsFinished}
use bcrstracking.Poller.Workers.Effort.{effort, move_total, move-effort}
use bcrstracking.Poller.Locations.{PollClock}
use bcrstracking.Poller.Loops.{
  Service, Step, Stage, take_step, take_steps, pool_step, located, lists_bins, worker_moves,
  collector_moves, binned, locations_leave, bins_leave, locations_tick, bins_tick, cancel,
  buffer_moves, calling, selecting, ended,
}

-- A step of one of the loops or of the pool, and not a tick, the end of the context, or the buffer.
abbrev pub is_own : Step → Bool
is_own locations_tick = false
is_own bins_tick = false
is_own cancel = false
is_own (buffer_moves e) = false
is_own _ = true

-- Start has returned from its wg.Wait.
abbrev pub HasEnded : Service → Type 0
HasEnded s = (s.locations ≡ ended) × (s.bins ≡ ended)

Stage-cases : (x : Stage) → (x ≡ calling) ⊎ (x ≡ selecting) ⊎ (x ≡ ended)
Stage-cases calling = inl refl
Stage-cases selecting = inr (inl refl)
Stage-cases ended = inr (inr refl)

-- What the API answers and what the clock shows from now on.
module _ (new_uuid : ℕ → Uuid) (reply : Option (List Rvm)) (clock : PollClock)
    (api : Rvm → Option (List BinStatus)) (times : Rvm → Time) where
  -- A schedule of steps of the loops and of the pool leads to the return of Start.
  abbrev pub Returns : Service → Type 0
  Returns s =
      (ts : List Step) × (s' : Service) × All (λ t. is_own t ≡ true) ts
      × (take_steps new_uuid ts s ≡ some s')
      × HasEnded s'

  step_first :
      (t : Step) (s next : Service)
      → is_own t ≡ true
      → take_step new_uuid t s ≡ some next
      → Returns next
      → Returns s
  unfolding take_steps
  step_first t s next own went (ts, s', all_own, ran, over) =
      (t ∷ ts, s', (own, all_own), rw (went, take_steps) ran, over)

  -- The context has ended, and the loop of the locations has returned.
  record IsHalfDone (s : Service) : Type 0 where
    over : s.cancelled ≡ true
    gone : s.locations ≡ ended

  bins_selecting : (s : Service) → IsHalfDone s → s.bins ≡ selecting → Returns s
  unfolding take_step take_steps
  bins_selecting s h here =
      step_first bins_leave s (record s { bins = ended }) refl (ground (arith, h.over))
        ([], record s { bins = ended }, tt, refl, (h.gone, refl))

  -- A step of the pool in the service.
  pool_step-move :
      (asked : Rvm → Option (List BinStatus)) (at : Rvm → Time) (act : Act) (s : Service)
      (pool pool' : Pool)
      → s.pool ≡ some pool
      → move s.poller.has_client asked at act
          (record pool { buffer = s.poller.buffer; cancelled = s.cancelled })
        ≡ some pool'
      → pool_step asked at act s
        ≡ some (record s { pool = some pool'; poller = record s.poller { buffer = pool'.buffer } })
  unfolding pool_step
  pool_step-move asked at act s pool pool' here moved = ground (arith, moved)

  -- The poll of the bins ends when its pool has finished.
  pool_finished :
      (s : Service) (pool : Pool) → IsHalfDone s → s.pool ≡ some pool → IsFinished pool → Returns s
  unfolding take_step
  pool_finished s pool h here finished = elim (Option-cases (take_step new_uuid (binned 0 0) s)) [
    | inl stuck ↦ absurd (ground (arith, finished.scraped, finished.workers))
    | inr (next, went) ↦ step_first (binned 0 0) s next refl went (
        bins_selecting next
          (record {
            over = ground (arith, h.over, finished.scraped, finished.workers);
            gone = ground (arith, h.gone, finished.scraped, finished.workers);
          })
          (ground (arith, finished.scraped, finished.workers)))
  ]

  pool-Returns :
      (n : ℕ) (s : Service) (pool : Pool)
      → effort s.poller.has_client api times pool < n
      → IsHalfDone s
      → s.pool ≡ some pool
      → Returns s
  unfolding take_step move
  pool-Returns zero s pool small h here = absurd (omega arith)
  pool-Returns (suc n) s pool small h here =
      let shared : Pool = record pool { buffer = s.poller.buffer; cancelled = s.cancelled } in
      elim (move_total s.poller.has_client api times shared) [
        | inl finished ↦
            pool_finished s pool h here
              (record { workers = finished.workers; scraped = finished.scraped })
        | inr (works i, pool', own, moved) ↦
            step_first (worker_moves i api times) s _ refl
              (pool_step-move api times (works i) s pool pool' here moved)
              (pool-Returns n _ pool'
                (omega (
                  arith,
                  move-effort s.poller.has_client api times (works i) shared pool' refl moved,
                ))
                (record { over = h.over; gone = h.gone }) refl)
        | inr (collects, pool', own, moved) ↦
            step_first collector_moves s _ refl
              (pool_step-move (λ r. none) (λ r. 0) collects s pool pool' here moved)
              (pool-Returns n _ pool'
                (omega (
                  arith,
                  move-effort s.poller.has_client api times collects shared pool' refl moved,
                ))
                (record { over = h.over; gone = h.gone }) refl)
        | inr (cancels, pool', own, moved) ↦ absurd (ground arith)
        | inr (pool_buffer_moves e, pool', own, moved) ↦ absurd (ground arith)
      ]

  bins_pooling : (s : Service) (pool : Pool) → IsHalfDone s → s.pool ≡ some pool → Returns s
  bins_pooling s pool =
      pool-Returns (suc (effort s.poller.has_client api times pool)) s pool (omega arith)

  bins_calling : (s : Service) → IsHalfDone s → s.bins ≡ calling → Returns s
  unfolding take_step
  bins_calling s h here = elim (Option-cases s.pool) [
    | inr (pool, found) ↦ bins_pooling s pool h found
    | inl nobody ↦ elim (Option-cases (take_step new_uuid lists_bins s)) [
      | inl stuck ↦ absurd (elim (List-cases (active_list s.poller)) [
        | inl none_left ↦ ground arith
        | inr (r, rest, more) ↦ ground arith
      ])
      | inr (next, went) ↦
          step_first lists_bins s next refl went (elim (List-cases (active_list s.poller)) [
            | inl none_left ↦
                bins_selecting next
                  (record { over = ground (arith, h.over); gone = ground (arith, h.gone) })
                  (ground arith)
            | inr (r, rest, more) ↦
                bins_pooling next (start_pool s.poller.cfg s.poller.buffer (active_list s.poller))
                  (record { over = ground (arith, h.over); gone = ground (arith, h.gone) })
                  (ground arith)
          ])
    ]
  ]

  half_done : (s : Service) → IsHalfDone s → Returns s
  unfolding take_steps
  half_done s h = elim (Stage-cases s.bins) [
    | inl here ↦ bins_calling s h here
    | inr (inl here) ↦ bins_selecting s h here
    | inr (inr here) ↦ ([], s, tt, refl, (h.gone, here))
  ]

  locations_selecting : (s : Service) → s.cancelled ≡ true → s.locations ≡ selecting → Returns s
  unfolding take_step
  locations_selecting s over here =
      step_first locations_leave s (record s { locations = ended }) refl (ground arith)
        (half_done (record s { locations = ended }) (record { over = over; gone = refl }))

  -- When the context has ended, Start can return wherever its loops and its pool stand: whatever
  -- the API answers, some steps of the loops, the workers and the collector, with no further tick,
  -- lead to the return of both loops, for which Start waits.
  pub start-Returns : (s : Service) → s.cancelled ≡ true → Returns s
  unfolding take_step
  start-Returns s over = elim (Stage-cases s.locations) [
    | inr (inl here) ↦ locations_selecting s over here
    | inr (inr here) ↦ half_done s (record { over = over; gone = here })
    | inl here ↦ elim (Option-cases (take_step new_uuid (located reply clock) s)) [
      | inl stuck ↦ absurd (ground arith)
      | inr (next, went) ↦
          step_first (located reply clock) s next refl went
            (locations_selecting next (ground (arith, over)) (ground arith))
    ]
  ]
