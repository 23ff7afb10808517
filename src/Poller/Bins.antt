-- ===== src/Poller/Bins.antt =====
-- PollBins of internal/poller/poller.go, from the point where the worker pool has finished: the
-- ingestion deltas and the gauges.
pub mod Deltas
pub mod Totals
pub mod Contents
use bcrstracking.Prelude.{
  ℕ, ◌-◌, ◌*◌, ◌/◌, nat_keys, string_keys, pair_keys, String, Option, none, some, Bool, List, [],
  ◌∷◌, ◌==◌, ◌&&◌, ltb, leb, map, keep_if, if◌then◌else◌,
}
use bcrstracking.Prelude.GoMap.{Entries, lookup, insert}
use bcrstracking.Model.{Duration, Rvm, BinStatus}
use bcrstracking.Metrics.{
  Metrics, on, record_containers_ingested, set_bin_current_count, reset_bin_current_counts,
  record_poll_cycle,
}
use bcrstracking.Batch.{BatchBuffer}
use bcrstracking.Poller.{Poller, BinKey}
use bcrstracking.Poller.Counts.{Counts, accumulate, set_gauges}

pub record ScrapedBin : Type 0 where
  pub bin : BinStatus
  pub supplier : String

-- An empty label is reported as "UNKNOWN".
abbrev pub or_unknown : String → String
or_unknown s = if s == "" then "UNKNOWN" else s

-- A machine with no capacity reports a fill percentage, taken as tens of containers.
unfoldable pub in_bin : ℕ → ℕ → ℕ → ℕ
in_bin capacity current_count threshold_level =
    if ltb 0 capacity then current_count else threshold_level * 10

-- The lifetime odometer of a machine with no capacity.
unfoldable pub odometer_delta : ℕ → ℕ → ℕ
odometer_delta prev current =
    if ltb 0 prev && leb prev current
    then (if leb (current - prev) 200 then current - prev else 0)
    else 0

-- The physical count of a bin, which falls when the bin is emptied.
unfoldable pub content_delta : ℕ → ℕ → ℕ
content_delta prev current =
    if ltb prev current
    then (if leb (current - prev) 200 then current - prev else 0)
    else if ltb current prev
    then (if leb 50 prev && leb current (prev / 2)
        then (if leb current 200 then current else 0)
        else 0)
    else 0

-- `previous` is the count of the last cycle, if there was one.
unfoldable pub ingested : Option ℕ → ℕ → ℕ → ℕ
unfolding odometer_delta content_delta
ingested none capacity current = 0
ingested (some prev) capacity current =
    if capacity == 0 then odometer_delta prev current else content_delta prev current

-- The variables of the loop over allBins.
pub record Pass : Type 0 where
  pub last_bin_counts : Entries BinKey ℕ
  pub current_counts : Counts
  pub metrics : Option Metrics

abbrev pub key_of : BinStatus → BinKey
key_of b = (b.rvm_id, b.compartment_type)

unfoldable pub collect_bin : ScrapedBin → Pass → Pass
unfolding in_bin ingested accumulate
collect_bin item pass =
    let b = item.bin in
    let c_type = or_unknown b.compartment_type in
    let supplier = or_unknown item.supplier in
    let delta = ingested (lookup (key_of b) pass.last_bin_counts) b.capacity b.current_count in
    record {
      current_counts =
          accumulate c_type supplier (in_bin b.capacity b.current_count b.threshold_level)
            pass.current_counts;
      last_bin_counts = insert (key_of b) b.current_count pass.last_bin_counts;
      metrics = on pass.metrics (record_containers_ingested c_type supplier delta);
    }

unfoldable pub collect_bins : List ScrapedBin → Pass → Pass
collect_bins [] pass = pass
collect_bins (item ∷ rest) pass = collect_bins rest (collect_bin item pass)

-- The machines whose bins are polled.
unfoldable pub active_list : Poller → List Rvm
active_list p = keep_if (λ r. r.is_deleted == 0) (map (λ entry. entry.1) p.active_rvms)

-- After the pool: `all_bins` in the order in which the collector received them, `buffer` as the
-- workers left it, and whether the context was cancelled.
unfoldable pub finish_bins :
    Poller → List ScrapedBin → Option BatchBuffer → Bool → Duration → ℕ → Poller
unfolding collect_bins set_gauges
finish_bins p all_bins buffer cancelled duration unix =
    let pass =
      collect_bins all_bins (record {
        last_bin_counts = p.last_bin_counts;
        current_counts = [];
        metrics = p.metrics;
      }) in
    record p {
      last_bin_counts = pass.last_bin_counts;
      buffer = buffer;
      metrics = on pass.metrics λ m.
          record_poll_cycle "bins" duration cancelled unix
            (set_gauges set_bin_current_count pass.current_counts (reset_bin_current_counts m));
    }

-- PollBins; with no machine to poll it returns at once.
unfoldable pub poll_bins :
    Poller → List ScrapedBin → Option BatchBuffer → Bool → Duration → ℕ → Poller
unfolding finish_bins
poll_bins p all_bins buffer cancelled duration unix = elim (active_list p) [
  | [] ↦ p
  | r ∷ rest ↦ finish_bins p all_bins buffer cancelled duration unix
]
