-- ===== src/Poller/Bins/Totals.antt =====
-- The gauge bcrs_bin_current_count after a poll of the bins.
use mathlib.Core.Option
use bcrstracking.Prelude.{
  ℕ, ◌+◌, nat_keys, string_keys, pair_keys, list_keys, String, Option, some, Bool, List, [], ◌∷◌,
  if◌then◌else◌, ◌==◌, ◌&&◌, ◌≡◌, refl, ap, ◌∙◌, arith,
}
use bcrstracking.Prelude.GoMap.{get_or, get_or-insert, get_or-empty}
use bcrstracking.Model.{Duration, Rvm}
use bcrstracking.Metrics.{
  Metrics, on, set_bin_current_count, reset_bin_current_counts, record_poll_cycle,
}
use bcrstracking.Batch.{BatchBuffer}
use bcrstracking.Poller.{Poller}
use bcrstracking.Poller.Counts.{set_gauges}
use bcrstracking.Poller.Counts.Gauges.{
  count_at, count_at-empty, count_at-accumulate, IsNested, accumulate-IsNested, gauge-set_gauges,
}
use bcrstracking.Poller.Bins.Contents.{has_label, held}
use bcrstracking.Poller.Bins.{
  ScrapedBin, Pass, or_unknown, in_bin, collect_bin, collect_bins, active_list, finish_bins,
  poll_bins,
}

-- The containers of the scraped bins with the compartment type and the supplier.
abbrev pub containers : String → String → List ScrapedBin → ℕ
containers c_type supplier [] = 0
containers c_type supplier (item ∷ rest) =
    let others = containers c_type supplier rest in
    if has_label item.bin.compartment_type c_type && has_label item.supplier supplier
    then held item.bin.capacity item.bin.current_count item.bin.threshold_level + others
    else others

count_at-collect_bin :
    (c_type supplier : String) (item : ScrapedBin) (pass : Pass)
    → count_at c_type supplier (collect_bin item pass).current_counts
      ≡ count_at c_type supplier pass.current_counts + containers c_type supplier (item ∷ [])
unfolding collect_bin in_bin
count_at-collect_bin c_type supplier item pass = ground (
  arith,
  count_at-accumulate (or_unknown item.bin.compartment_type) (or_unknown item.supplier)
      (in_bin item.bin.capacity item.bin.current_count item.bin.threshold_level) c_type supplier
      pass.current_counts,
)

count_at-collect_bins :
    (c_type supplier : String) (items : List ScrapedBin) (pass : Pass)
    → count_at c_type supplier (collect_bins items pass).current_counts
      ≡ count_at c_type supplier pass.current_counts + containers c_type supplier items
unfolding collect_bins
count_at-collect_bins c_type supplier [] pass = omega arith
count_at-collect_bins c_type supplier (item ∷ rest) pass = ground (
  arith,
  count_at-collect_bins c_type supplier rest (collect_bin item pass),
  count_at-collect_bin c_type supplier item pass,
)

collect_bins-IsNested :
    (items : List ScrapedBin) (pass : Pass)
    → IsNested pass.current_counts
    → IsNested (collect_bins items pass).current_counts
unfolding collect_bins collect_bin
collect_bins-IsNested [] pass n = n
collect_bins-IsNested (item ∷ rest) pass n =
    collect_bins-IsNested rest _ (accumulate-IsNested _ _ _ pass.current_counts n)

on-some :
    (method : Metrics → Metrics) (o : Option Metrics)
    → (m : Metrics) × (o ≡ some m)
    → (m : Metrics) × (on o method ≡ some m)
on-some method o (m, e) = (method m, ap (λ old. on old method) e)

-- A pass that records in metrics still does so at its end.
collect_bins-metrics :
    (items : List ScrapedBin) (pass : Pass)
    → (m : Metrics) × (pass.metrics ≡ some m)
    → (m : Metrics) × ((collect_bins items pass).metrics ≡ some m)
unfolding collect_bins collect_bin
collect_bins-metrics [] pass h = h
collect_bins-metrics (item ∷ rest) pass h = collect_bins-metrics rest _ (on-some _ pass.metrics h)

abbrev pub gauge : String → String → Metrics → ℕ
gauge c_type supplier m = get_or 0 (c_type ∷ supplier ∷ []) m.bin_current_count

pub gauge-set_bin_current_count :
    (s u c_type supplier : String) (count : ℕ) (m : Metrics)
    → gauge c_type supplier (set_bin_current_count s u count m)
      ≡ (if s == c_type && u == supplier then count else gauge c_type supplier m)
unfolding set_bin_current_count
gauge-set_bin_current_count s u c_type supplier count m =
    rw (get_or-insert 0 count (s ∷ u ∷ []) (c_type ∷ supplier ∷ []) m.bin_current_count)
      (ground arith)

-- The last loops of PollBins leave each gauge with the containers that it stands for.
gauge-collect_bins :
    (c_type supplier : String) (items : List ScrapedBin) (pass : Pass) (m : Metrics)
    → pass.current_counts ≡ []
    → gauge c_type supplier (
        set_gauges set_bin_current_count
          (collect_bins items pass).current_counts
          (reset_bin_current_counts m))
      ≡ containers c_type supplier items
unfolding reset_bin_current_counts
gauge-collect_bins c_type supplier items pass m fresh =
    gauge-set_gauges set_bin_current_count gauge gauge-set_bin_current_count c_type supplier
      (collect_bins items pass).current_counts (reset_bin_current_counts m)
      (collect_bins-IsNested items pass (rw fresh (tt, tt)))
      (get_or-empty 0 (c_type ∷ supplier ∷ []))
    ∙ count_at-collect_bins c_type supplier items pass
    ∙ rw fresh (omega (arith, count_at-empty c_type supplier))

poll_bins-active :
    (p : Poller) (all_bins : List ScrapedBin) (buffer : Option BatchBuffer) (cancelled : Bool)
    (duration : Duration) (unix : ℕ) (r : Rvm) (others : List Rvm)
    → active_list p ≡ r ∷ others
    → poll_bins p all_bins buffer cancelled duration unix
      ≡ finish_bins p all_bins buffer cancelled duration unix
unfolding poll_bins
poll_bins-active p all_bins buffer cancelled duration unix r others active =
    ap
      (λ list. elim list as (λ _. Poller) [
        | [] ↦ p
        | first ∷ rest ↦ finish_bins p all_bins buffer cancelled duration unix
      ])
      active

-- After a poll of the bins by a poller that has a machine to poll and metrics, the gauge of every
-- compartment type and supplier is the number of containers in the scraped bins with these labels,
-- an empty label read as UNKNOWN: 0 for a pair that no bin has, whatever the gauge was before.
pub bin_current_count-poll_bins :
    (p : Poller) (all_bins : List ScrapedBin) (buffer : Option BatchBuffer) (cancelled : Bool)
    (duration : Duration) (unix : ℕ) (m : Metrics) (r : Rvm) (others : List Rvm)
    (c_type supplier : String)
    → active_list p ≡ r ∷ others
    → p.metrics ≡ some m
    → Option.map
        (λ m'. get_or 0 (c_type ∷ supplier ∷ []) m'.bin_current_count)
        (poll_bins p all_bins buffer cancelled duration unix).metrics
      ≡ some (containers c_type supplier all_bins)
unfolding finish_bins record_poll_cycle
bin_current_count-poll_bins p all_bins buffer cancelled duration unix m r others c_type supplier
      active e =
    let start : Pass = record {
      last_bin_counts = p.last_bin_counts;
      current_counts = [];
      metrics = p.metrics;
    } in
    let (m', e') = collect_bins-metrics all_bins start (m, e) in
    rw (poll_bins-active p all_bins buffer cancelled duration unix r others active, e')
      (ap some (gauge-collect_bins c_type supplier all_bins start m' refl))
