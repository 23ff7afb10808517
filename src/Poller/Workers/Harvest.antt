-- ===== src/Poller/Workers/Harvest.antt =====
-- What the pool collects, whatever the order in which its goroutines run.
use bcrstracking.Prelude.{
  get_elem?, sum_of, sum_of-append, sum_of-set, ℕ, ◌+◌, Option, none, some, Bool, false, List, [],
  ◌∷◌, map, if◌then◌else◌, ◌≡◌, refl, ◌∙◌, arith, Option-cases, List-cases, inl, inr,
}
use bcrstracking.Model.{Time, Rvm, BinStatus}
use bcrstracking.Batch.{step}
use bcrstracking.Poller.Bins.{ScrapedBin}
use bcrstracking.Poller.Workers.{
  Worker, idle, asking, handing, sending, returned, Pool, Act, works, collects, cancels,
  buffer_moves, answer, stamp_bin, begin, advance, move, run_pool,
}

module _ (has_client : Bool) (api : Rvm → Option (List BinStatus)) (clock : Rvm → Time) where
  -- What an answer makes a worker deliver.
  abbrev pub delivery : Rvm → Option (List BinStatus) → List ScrapedBin
  delivery rvm none = []
  delivery rvm (some bins) = map (stamp_bin has_client api clock rvm) bins

  abbrev pub harvest : Rvm → List ScrapedBin
  harvest rvm = if has_client then delivery rvm (api rvm) else []

  -- Any measure of scraped bins.
  module _ (weight : ScrapedBin → ℕ) where
    abbrev pub job_weight : Rvm → ℕ
    job_weight rvm = sum_of weight (harvest rvm)

    abbrev pub worker_weight : Worker → ℕ
    worker_weight idle = 0
    worker_weight (asking rvm) = sum_of weight (delivery rvm (api rvm))
    worker_weight (handing items) = sum_of weight items
    worker_weight (sending item rest) = weight item + sum_of weight rest
    worker_weight returned = 0

    -- Collected, on the way, and still to be asked for.
    abbrev pub pool_weight : Pool → ℕ
    pool_weight s =
        sum_of weight s.all_bins
        + (sum_of weight s.scraped + (sum_of worker_weight s.workers + sum_of job_weight s.jobs))

    weight-begin :
        (rvm : Rvm) → worker_weight (begin has_client api clock false rvm) ≡ job_weight rvm
    weight-begin rvm = ground arith

    weight-answer :
        (rvm : Rvm) (reply : Option (List BinStatus))
        → worker_weight (answer has_client api clock rvm reply) ≡ sum_of weight (delivery rvm reply)
    weight-answer rvm none = refl
    weight-answer rvm (some bins) = refl

    advance-weight :
        (x : Worker) (i : ℕ) (s s' : Pool)
        → get_elem? s.workers i ≡ some x
        → advance has_client api clock x i s ≡ some s'
        → s.cancelled ≡ false
        → pool_weight s' ≡ pool_weight s
    unfolding advance
    advance-weight idle i s s' h e c = elim (List-cases s.jobs) [
      | inl none_left ↦ ground (arith, sum_of-set worker_weight i idle returned s.workers h)
      | inr (rvm, rest, next) ↦ ground (
        arith,
        sum_of-set worker_weight i idle (begin has_client api clock false rvm) s.workers h,
        weight-begin rvm,
      )
    ]
    advance-weight (asking rvm) i s s' h e c = ground (
      arith,
      sum_of-set worker_weight i (asking rvm) (answer has_client api clock rvm (api rvm)) s.workers
          h,
      weight-answer rvm (api rvm),
    )
    advance-weight (handing []) i s s' h e c =
        ground (arith, sum_of-set worker_weight i (handing []) idle s.workers h)
    advance-weight (handing (item ∷ rest)) i s s' h e c =
        ground (
          arith,
          sum_of-set worker_weight i (handing (item ∷ rest)) (sending item rest) s.workers h,
        )
    advance-weight (sending item rest) i s s' h e c = ground (
      arith,
      sum_of-set worker_weight i (sending item rest) (handing rest) s.workers h,
      sum_of-append weight s.scraped (item ∷ []),
    )
    advance-weight returned i s s' h e c = ground arith

    advance-cancelled :
        (x : Worker) (i : ℕ) (s s' : Pool)
        → advance has_client api clock x i s ≡ some s'
        → s'.cancelled ≡ false
        → s.cancelled ≡ false
    unfolding advance
    advance-cancelled idle i s s' e c = elim (List-cases s.jobs) [
      | inl none_left ↦ ground arith
      | inr (rvm, rest, next) ↦ ground arith
    ]
    advance-cancelled (asking rvm) i s s' e c = ground arith
    advance-cancelled (handing []) i s s' e c = ground arith
    advance-cancelled (handing (item ∷ rest)) i s s' e c = ground arith
    advance-cancelled (sending item rest) i s s' e c = ground arith
    advance-cancelled returned i s s' e c = ground arith

    move-weight :
        (act : Act) (s s' : Pool)
        → move has_client api clock act s ≡ some s'
        → s'.cancelled ≡ false
        → (s.cancelled ≡ false) × (pool_weight s' ≡ pool_weight s)
    unfolding move
    move-weight (works i) s s' e c = elim (Option-cases (get_elem? s.workers i)) [
      | inl nobody ↦ cc (e, nobody)
      | inr (x, found) ↦
          let moved = rw (found, move) at e in
          let uncancelled = advance-cancelled x i s s' moved c in
          (uncancelled, advance-weight x i s s' found moved uncancelled)
    ]
    move-weight collects s s' e c = elim (List-cases s.scraped) [
      | inl none_left ↦ ground arith
      | inr (item, rest, next) ↦ ground (arith, sum_of-append weight s.all_bins (item ∷ []))
    ]
    move-weight cancels s s' e c = ground arith
    move-weight (buffer_moves event) s s' e c = elim (Option-cases s.buffer) [
      | inl no_buffer ↦ ground arith
      | inr (buf, present) ↦ elim (Option-cases (step event buf)) [
        | inl stuck ↦ ground arith
        | inr (next, made) ↦ ground arith
      ]
    ]

    pub run_pool-weight :
        (acts : List Act) (s s' : Pool)
        → run_pool has_client api clock acts s ≡ some s'
        → s'.cancelled ≡ false
        → (s.cancelled ≡ false) × (pool_weight s' ≡ pool_weight s)
    unfolding run_pool
    run_pool-weight [] s s' e c = ground arith
    run_pool-weight (act ∷ acts) s s' e c = elim (Option-cases (move has_client api clock act s)) [
      | inl stuck ↦ ground arith
      | inr (next, moved) ↦
          let rest = run_pool-weight acts next s' (rw (moved, run_pool) at e) c in
          let first = move-weight act s next moved rest.0 in (first.0, rest.1 ∙ first.1)
    ]
