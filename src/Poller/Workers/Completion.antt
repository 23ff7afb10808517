-- ===== src/Poller/Workers/Completion.antt =====
-- PollBins of internal/poller/poller.go as a whole: a worker pool that has finished, and what follows.
use mathlib.Core.Option
use bcrstracking.Prelude.{
  sum_of, ℕ, string_keys, list_keys, String, Option, some, Bool, true, false, ◌&&◌, List, [], ◌∷◌,
  length, ◌≡◌, refl, sym, sym, ap, ◌∙◌, arith, replicate, if◌then◌else◌, zero, suc, ◌==◌, ◌<◌,
  fun_ext, map, keep_if, none, Bool-cases, inl, inr, nat_keys, ◌+◌,
}
use bcrstracking.Prelude.GoMap.{Entries, get_or}
use bcrstracking.Model.{Time, Duration, Rvm, BinStatus}
use bcrstracking.Config.{Config}
use bcrstracking.Metrics.{Metrics}
use bcrstracking.Batch.{BatchBuffer}
use bcrstracking.Poller.{Poller}
use bcrstracking.Poller.Bins.{ScrapedBin, poll_bins, active_list}
use bcrstracking.Poller.Bins.Contents.{has_label, held, reported, reported_in, has_live}
use bcrstracking.Poller.Bins.Totals.{containers, bin_current_count-poll_bins}
use bcrstracking.Poller.Workers.{
  all_returned, Worker, idle, asking, handing, sending, returned, Pool, Act, run_pool, start_pool,
  worker_count, stamp_bin,
}
use bcrstracking.Poller.Workers.Harvest.{
  harvest, delivery, run_pool-weight, worker_weight, pool_weight, job_weight,
}
use bcrstracking.Poller.Workers.Jobs.{any_returned, run_pool-IsServed, start_pool-IsServed}

-- wg.Wait() has passed, and the collector has emptied the closed channel.
pub record IsFinished (s : Pool) : Type 0 where
  pub workers : all_returned s.workers ≡ true
  pub scraped : s.scraped ≡ []

any_returned-all_returned :
    (pool : List Worker) → all_returned pool ≡ true → 0 < length pool → any_returned pool ≡ true
any_returned-all_returned [] h staffed = absurd (omega arith)
any_returned-all_returned (x ∷ rest) h staffed = ground arith

active_list_lem :
    (p : Poller)
    → active_list p ≡ keep_if (λ r. r.is_deleted == 0) (map (λ entry. entry.1) p.active_rvms)
unfolding active_list
active_list_lem p = refl

-- With a live machine in the map there is a first one to poll.
active_list-live :
    (m : Entries ℕ Rvm)
    → has_live m ≡ true
    → (first : Rvm) × (others : List Rvm) × (keep_if
          (λ x. x.is_deleted == 0)
          (map (λ entry. entry.1) m)
        ≡ first ∷ others)
active_list-live [] h = cc h
active_list-live ((id, rvm) ∷ rest) h = elim (Bool-cases (rvm.is_deleted == 0)) [
  | inl alive ↦ (rvm, keep_if (λ x. x.is_deleted == 0) (map (λ entry. entry.1) rest), rw alive refl)
  | inr gone ↦ rw gone (active_list-live rest (ground arith))
]

module _ (has_client : Bool) (api : Rvm → Option (List BinStatus)) (clock : Rvm → Time) where
  module _ (weight : ScrapedBin → ℕ) where
    weight-idle :
        (n : ℕ) → sum_of (worker_weight has_client api clock weight) (replicate n idle) ≡ 0
    weight-idle zero = refl
    weight-idle (suc n) = omega (arith, weight-idle n)

    weight-all_returned :
        (pool : List Worker)
        → all_returned pool ≡ true
        → sum_of (worker_weight has_client api clock weight) pool ≡ 0
    weight-all_returned [] h = refl
    weight-all_returned (returned ∷ rest) h = omega (arith, weight-all_returned rest h)
    weight-all_returned (idle ∷ rest) h = cc h
    weight-all_returned (asking rvm ∷ rest) h = cc h
    weight-all_returned (handing items ∷ rest) h = cc h
    weight-all_returned (sending item items ∷ rest) h = cc h

    weight-finished :
        (s : Pool)
        → IsFinished s
        → s.jobs ≡ []
        → pool_weight has_client api clock weight s ≡ sum_of weight s.all_bins
    weight-finished s finished served =
        rw (finished.scraped, served, weight-all_returned s.workers finished.workers) (omega arith)

    weight-start_pool :
        (cfg : Option Config) (buffer : Option BatchBuffer) (rvm_list : List Rvm)
        → pool_weight has_client api clock weight (start_pool cfg buffer rvm_list)
          ≡ sum_of (job_weight has_client api clock weight) rvm_list
    unfolding start_pool
    weight-start_pool cfg buffer rvm_list = rw (weight-idle (worker_count cfg)) (omega arith)

    -- Whatever the order in which its goroutines run, a pool that has finished with no cancellation
    -- has collected exactly the bins that the machines of the list answer with: every measure of
    -- bins has the same sum over both, so each bin is collected as often as it is answered.
    pub run_pool_collects :
        (cfg : Option Config) (buffer : Option BatchBuffer) (rvm_list : List Rvm) (acts : List Act)
        (s : Pool)
        → run_pool has_client api clock acts (start_pool cfg buffer rvm_list) ≡ some s
        → IsFinished s
        → s.cancelled ≡ false
        → sum_of weight s.all_bins
          ≡ sum_of (λ rvm. sum_of weight (harvest has_client api clock rvm)) rvm_list
    run_pool_collects cfg buffer rvm_list acts s ran finished c =
        let h =
          run_pool-IsServed has_client api clock acts (start_pool cfg buffer rvm_list) s ran
            (start_pool-IsServed cfg buffer rvm_list) in
        let served = h.served c (any_returned-all_returned s.workers finished.workers h.staffed) in
        omega (
          arith,
          weight-finished s finished served,
          weight-start_pool cfg buffer rvm_list,
          run_pool-weight has_client api clock weight acts (start_pool cfg buffer rvm_list) s ran c,
        )

  -- What a bin adds to a gauge.
  abbrev share : String → String → ScrapedBin → ℕ
  share c_type supplier item =
      if has_label item.bin.compartment_type c_type && has_label item.supplier supplier
      then held item.bin.capacity item.bin.current_count item.bin.threshold_level
      else 0

  containers-sum_of :
      (c_type supplier : String) (items : List ScrapedBin)
      → containers c_type supplier items ≡ sum_of (share c_type supplier) items
  containers-sum_of c_type supplier [] = refl
  containers-sum_of c_type supplier (item ∷ rest) =
      ground (arith, containers-sum_of c_type supplier rest)

  -- The containers that the API reports of a machine under two labels.
  abbrev pub reported_of : String → String → Rvm → ℕ
  reported_of c_type supplier rvm =
      if has_client then reported_in c_type supplier rvm.supplier_id (api rvm) else 0

  -- The containers that it reports of the live machines of a map.
  abbrev pub reported_live : String → String → Entries ℕ Rvm → ℕ
  reported_live c_type supplier [] = 0
  reported_live c_type supplier ((id, rvm) ∷ rest) =
      let others = reported_live c_type supplier rest in
      if rvm.is_deleted == 0 then reported_of c_type supplier rvm + others else others

  containers-stamp_bin :
      (c_type supplier : String) (rvm : Rvm) (bins : List BinStatus)
      → containers c_type supplier (map (stamp_bin has_client api clock rvm) bins)
        ≡ reported c_type supplier rvm.supplier_id bins
  containers-stamp_bin c_type supplier rvm [] = refl
  containers-stamp_bin c_type supplier rvm (b ∷ rest) =
      ground (arith, containers-stamp_bin c_type supplier rvm rest)

  containers-delivery :
      (c_type supplier : String) (rvm : Rvm) (answer : Option (List BinStatus))
      → containers c_type supplier (delivery has_client api clock rvm answer)
        ≡ reported_in c_type supplier rvm.supplier_id answer
  containers-delivery c_type supplier rvm none = refl
  containers-delivery c_type supplier rvm (some bins) =
      containers-stamp_bin c_type supplier rvm bins

  containers-harvest :
      (c_type supplier : String) (rvm : Rvm)
      → containers c_type supplier (harvest has_client api clock rvm)
        ≡ reported_of c_type supplier rvm
  containers-harvest c_type supplier rvm =
      ground (arith, containers-delivery c_type supplier rvm (api rvm))

  reported-active :
      (c_type supplier : String) (m : Entries ℕ Rvm)
      → sum_of
          (reported_of c_type supplier)
          (keep_if (λ r. r.is_deleted == 0) (map (λ entry. entry.1) m))
        ≡ reported_live c_type supplier m
  reported-active c_type supplier [] = refl
  reported-active c_type supplier ((id, rvm) ∷ rest) =
      ground (arith, reported-active c_type supplier rest)

  -- After a poll of the bins by a poller with metrics, whose workers ran in any order, finished, and
  -- were not cancelled, the gauge of every compartment type and supplier is the number of containers
  -- that the API's answers report for the machines of the poller's map that are not deleted, in the
  -- bins of this compartment type and the machines of this supplier, an empty label read as UNKNOWN:
  -- the count of a bin with a capacity, and ten for each percent of the level of one with none. The
  -- map has a machine that is not deleted.
  pub bin_current_count-pool :
      (p : Poller) (m : Metrics) (acts : List Act) (s : Pool) (duration : Duration) (unix : ℕ)
      (c_type supplier : String)
      → has_live p.active_rvms ≡ true
      → p.metrics ≡ some m
      → run_pool has_client api clock acts (start_pool p.cfg p.buffer (active_list p)) ≡ some s
      → IsFinished s
      → s.cancelled ≡ false
      → Option.map
          (λ m'. get_or 0 (c_type ∷ supplier ∷ []) m'.bin_current_count)
          (poll_bins p s.all_bins s.buffer s.cancelled duration unix).metrics
        ≡ some (reported_live c_type supplier p.active_rvms)
  bin_current_count-pool p m acts s duration unix c_type supplier live e ran finished c =
      let (first, others, active) = active_list-live p.active_rvms live in
      bin_current_count-poll_bins p s.all_bins s.buffer s.cancelled duration unix m first others
        c_type supplier (active_list_lem p ∙ active) e
      ∙ ap some (
          containers-sum_of c_type supplier s.all_bins
          ∙ run_pool_collects (share c_type supplier) p.cfg p.buffer (active_list p) acts s ran
              finished c
          ∙ ap (λ f. sum_of f (active_list p))
              (fun_ext λ rvm.
                sym (containers-sum_of c_type supplier (harvest has_client api clock rvm))
                ∙ containers-harvest c_type supplier rvm)
          ∙ ap (sum_of (reported_of c_type supplier)) (active_list_lem p)
          ∙ reported-active c_type supplier p.active_rvms)
