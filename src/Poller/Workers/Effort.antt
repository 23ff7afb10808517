-- ===== src/Poller/Workers/Effort.antt =====
-- The worker pool of PollBins ends: a bound on its moves, and no deadlock before the end.
use bcrstracking.Prelude.{
  get_elem?, sum_of, sum_of-set, ℕ, suc, ◌+◌, ◌*◌, ◌≤◌, ◌<◌, Option, none, some, Bool, true, false,
  List, [], ◌∷◌, ◌++◌, length, ◌≡◌, ◌≢◌, refl, arith, Option-cases, List-cases, Bool-cases, inl,
  inr, ◌⊎◌, length-append, length-map, All,
}
use bcrstracking.Model.{Time, Rvm, BinStatus}
use bcrstracking.Poller.Workers.{
  Worker, idle, asking, handing, sending, returned, Pool, Act, works, collects, cancels,
  buffer_moves, answer, stamp_bin, begin, advance, move, run_pool,
}
use bcrstracking.Poller.Workers.{all_returned}
use bcrstracking.Poller.Workers.Completion.{IsFinished}

-- The moves of the pool itself, and not of its surroundings.
abbrev pub is_internal : Act → Bool
is_internal (works i) = true
is_internal collects = true
is_internal cancels = false
is_internal (buffer_moves event) = false

-- How many bins an answer brings.
abbrev pub answered : Option (List BinStatus) → ℕ
answered none = 0
answered (some bins) = length bins

module _ (has_client : Bool) (api : Rvm → Option (List BinStatus)) (clock : Rvm → Time) where
  -- At most so many moves of the workers and the collector a machine, a worker or a pool still takes.
  abbrev pub job_effort : Rvm → ℕ
  job_effort rvm = 3 + 3 * answered (api rvm)

  abbrev pub worker_effort : Worker → ℕ
  worker_effort idle = 1
  worker_effort (asking rvm) = 3 + 3 * answered (api rvm)
  worker_effort (handing items) = 2 + 3 * length items
  worker_effort (sending item rest) = 4 + 3 * length rest
  worker_effort returned = 0

  abbrev pub effort : Pool → ℕ
  effort s = length s.scraped + (sum_of worker_effort s.workers + sum_of job_effort s.jobs)

  effort-begin :
      (cancelled : Bool) (rvm : Rvm)
      → worker_effort (begin has_client api clock cancelled rvm) ≤ job_effort rvm
  effort-begin cancelled rvm = ground arith

  effort-answer :
      (rvm : Rvm) (reply : Option (List BinStatus))
      → worker_effort (answer has_client api clock rvm reply) ≤ 2 + 3 * answered reply
  effort-answer rvm none = omega arith
  effort-answer rvm (some bins) =
      omega (arith, length-map (stamp_bin has_client api clock rvm) bins)

  advance-effort :
      (x : Worker) (i : ℕ) (s s' : Pool)
      → get_elem? s.workers i ≡ some x
      → advance has_client api clock x i s ≡ some s'
      → effort s' < effort s
  unfolding advance
  advance-effort idle i s s' h e = elim (List-cases s.jobs) [
    | inl none_left ↦ ground (arith, sum_of-set worker_effort i idle returned s.workers h)
    | inr (rvm, rest, next) ↦ ground (
      arith,
      sum_of-set worker_effort i idle (begin has_client api clock s.cancelled rvm) s.workers h,
      effort-begin s.cancelled rvm,
    )
  ]
  advance-effort (asking rvm) i s s' h e = ground (
    arith,
    sum_of-set worker_effort i (asking rvm) (answer has_client api clock rvm (api rvm)) s.workers h,
    effort-answer rvm (api rvm),
  )
  advance-effort (handing []) i s s' h e =
      ground (arith, sum_of-set worker_effort i (handing []) idle s.workers h)
  advance-effort (handing (item ∷ rest)) i s s' h e =
      ground
        (arith, sum_of-set worker_effort i (handing (item ∷ rest)) (sending item rest) s.workers h)
  advance-effort (sending item rest) i s s' h e = ground (
    arith,
    sum_of-set worker_effort i (sending item rest) (handing rest) s.workers h,
    length-append s.scraped (item ∷ []),
  )
  advance-effort returned i s s' h e = ground arith

  pub move-effort :
      (act : Act) (s s' : Pool)
      → is_internal act ≡ true
      → move has_client api clock act s ≡ some s'
      → effort s' < effort s
  unfolding move
  move-effort (works i) s s' own e = elim (Option-cases (get_elem? s.workers i)) [
    | inl nobody ↦ absurd (ground arith)
    | inr (x, found) ↦ advance-effort x i s s' found (rw (found, move) at e)
  ]
  move-effort collects s s' own e = elim (List-cases s.scraped) [
    | inl none_left ↦ absurd (ground arith)
    | inr (item, rest, next) ↦ ground arith
  ]
  move-effort cancels s s' own e = cc own
  move-effort (buffer_moves event) s s' own e = cc own

  run_pool-effort :
      (acts : List Act) (s s' : Pool)
      → All (λ act. is_internal act ≡ true) acts
      → run_pool has_client api clock acts s ≡ some s'
      → length acts + effort s' ≤ effort s
  unfolding run_pool
  run_pool-effort [] s s' own e = ground arith
  run_pool-effort (act ∷ acts) s s' own e = elim (Option-cases (move has_client api clock act s)) [
    | inl stuck ↦ absurd (ground arith)
    | inr (next, moved) ↦ omega (
      arith,
      run_pool-effort acts next s' own.1 (rw (moved, run_pool) at e),
      move-effort act s next own.0 moved,
    )
  ]

  -- A worker that has not returned, and its number.
  active_worker :
      (pool : List Worker)
      → all_returned pool ≡ false
      → (i : ℕ) × (x : Worker) × (get_elem? pool i ≡ some x) × (x ≢ returned)
  active_worker [] h = cc h
  active_worker (returned ∷ rest) h =
      let (i, x, found, active) = active_worker rest h in (suc i, x, found, active)
  active_worker (idle ∷ rest) h = (0, idle, refl, λ e. cc e)
  active_worker (asking rvm ∷ rest) h = (0, asking rvm, refl, λ e. cc e)
  active_worker (handing items ∷ rest) h = (0, handing items, refl, λ e. cc e)
  active_worker (sending item items ∷ rest) h = (0, sending item items, refl, λ e. cc e)

  -- While the channel of bins is empty, every worker that has not returned can move.
  advance-ne-none :
      (x : Worker) (i : ℕ) (s : Pool)
      → x ≢ returned
      → s.scraped ≡ []
      → advance has_client api clock x i s ≢ none
  unfolding advance
  advance-ne-none idle i s active empty e = elim (List-cases s.jobs) [
    | inl none_left ↦ ground arith
    | inr (rvm, rest, next) ↦ ground arith
  ]
  advance-ne-none (asking rvm) i s active empty e = cc e
  advance-ne-none (handing []) i s active empty e = cc e
  advance-ne-none (handing (item ∷ rest)) i s active empty e = cc e
  advance-ne-none (sending item rest) i s active empty e =
      let stuck = rw (empty, advance) at e in cc stuck
  advance-ne-none returned i s active empty e = active refl

  -- A move of the pool's own from `s`.
  abbrev pub CanMove : Pool → Type 0
  CanMove s =
      (act : Act) × (s' : Pool) × (is_internal act ≡ true)
      × (move has_client api clock act s ≡ some s')

  worker-Moves :
      (s : Pool) (i : ℕ) (x : Worker)
      → get_elem? s.workers i ≡ some x
      → x ≢ returned
      → s.scraped ≡ []
      → CanMove s
  unfolding move
  worker-Moves s i x found active empty = elim (Option-cases (advance has_client api clock x i s)) [
    | inl stuck ↦ absurd (advance-ne-none x i s active empty stuck)
    | inr (s', made) ↦ (works i, s', refl, rw (found, move) made)
  ]

  pub move_total : (s : Pool) → IsFinished s ⊎ CanMove s
  unfolding move
  move_total s = elim (List-cases s.scraped) [
    | inr (item, rest, next) ↦ inr (
      collects,
      record s { scraped = rest; all_bins = s.all_bins ++ item ∷ [] },
      refl,
      rw (next, move) refl,
    )
    | inl empty ↦ elim (Bool-cases (all_returned s.workers)) [
      | inl done ↦ inl (record { workers = done; scraped = empty })
      | inr busy ↦
          let (i, x, found, active) = active_worker s.workers busy in
          inr (worker-Moves s i x found active empty)
    ]
  ]

  -- From every state, the workers and the collector together make at most `effort` moves before they
  -- have finished, in whatever order, and a pool that has not finished can always make another: it
  -- neither runs for ever nor comes to a deadlock. The API answers every request, and the
  -- surroundings make no move in between.
  pub run_pool_settles :
      (acts : List Act) (s s' : Pool)
      → All (λ act. is_internal act ≡ true) acts
      → run_pool has_client api clock acts s ≡ some s'
      → (length acts + effort s' ≤ effort s) × (IsFinished s' ⊎ CanMove s')
  run_pool_settles acts s s' own e = (run_pool-effort acts s s' own e, move_total s')
