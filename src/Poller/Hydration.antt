-- ===== src/Poller/Hydration.antt =====
-- HydrateFromStorage and applyHydratedBinSnapshots of internal/poller/poller.go: the state that the
-- poller starts from, out of the rows that ClickHouse kept.
pub mod Restart
pub mod Snapshots
use bcrstracking.Prelude.{
  ℕ, ◌*◌, nat_keys, string_keys, pair_keys, String, Option, none, some, Bool, List, [], ◌∷◌, ◌==◌,
  ltb, map, if◌then◌else◌,
}
use bcrstracking.Prelude.GoMap.{Entries, lookup, insert}
use bcrstracking.Model.{Rvm}
use bcrstracking.Errors.{Error}
use bcrstracking.Metrics.{
  Metrics, on, reset_rvm_total, set_bin_current_count, reset_bin_current_counts,
}
use bcrstracking.Storage.{LatestBinInfo}
use bcrstracking.Poller.{Poller, BinKey}
use bcrstracking.Poller.Counts.{Counts, accumulate, set_gauges}
use bcrstracking.Poller.Locations.{count_statuses, put_rvm_total}
use bcrstracking.Poller.Bins.{or_unknown, in_bin}

abbrev pub machines : Entries ℕ Rvm → List Rvm
machines rvms = map (λ entry. entry.1) rvms

-- The branch for a load of machines with no error: an empty one changes nothing.
unfoldable pub hydrate_rvms : Entries ℕ Rvm → Poller → Poller
unfolding count_statuses set_gauges
hydrate_rvms [] p = p
hydrate_rvms (entry ∷ rest) p = record p {
  active_rvms = entry ∷ rest;
  metrics = on p.metrics λ m.
      set_gauges (put_rvm_total "Default") (count_statuses (machines (entry ∷ rest)) [])
        (reset_rvm_total m);
}

-- The supplier of a machine that is known and has one.
abbrev pub supplier_or_unknown : Option Rvm → String
supplier_or_unknown none = "UNKNOWN"
supplier_or_unknown (some rvm) = or_unknown rvm.supplier_id

abbrev pub snapshot_key : LatestBinInfo → BinKey
snapshot_key b = (b.rvm_id, b.compartment_type)

-- The loop of applyHydratedBinSnapshots over lastBinCounts and binCounts.
unfoldable pub hydrate_counts :
    Entries ℕ Rvm → List LatestBinInfo → Entries BinKey ℕ × Counts → Entries BinKey ℕ × Counts
unfolding in_bin accumulate
hydrate_counts active [] (last, counts) = (last, counts)
hydrate_counts active (b ∷ rest) (last, counts) = hydrate_counts active rest (
  insert (snapshot_key b) b.current_count last,
  accumulate (or_unknown b.compartment_type) (supplier_or_unknown (lookup b.rvm_id active))
      (in_bin b.capacity b.current_count b.threshold_level) counts,
)

unfoldable pub apply_hydrated_bin_snapshots : List LatestBinInfo → Poller → Poller
unfolding hydrate_counts set_gauges
apply_hydrated_bin_snapshots bin_list p =
    let (last, counts) = hydrate_counts p.active_rvms bin_list (p.last_bin_counts, []) in
    record p {
      last_bin_counts = last;
      metrics =
          on p.metrics (λ m. set_gauges set_bin_current_count counts (reset_bin_current_counts m));
    }

-- The branch for a load of bins with no error.
unfoldable pub hydrate_bins : List LatestBinInfo → Poller → Poller
unfolding apply_hydrated_bin_snapshots
hydrate_bins [] p = p
hydrate_bins (b ∷ rest) p = apply_hydrated_bin_snapshots (b ∷ rest) p

abbrev pub if_loaded {ℓ} : {A : Type ℓ} → A × Option Error → (A → Poller → Poller) → Poller → Poller
if_loaded (value, none) use_it p = use_it value p
if_loaded (value, some e) use_it p = p

-- HydrateFromStorage. `loads` is what LoadActiveRVMs and LoadLatestBinSnapshots return, and `none`
-- stands for a nil p.storage.
unfoldable pub hydrate_from_storage :
    Option ((Entries ℕ Rvm × Option Error) × (List LatestBinInfo × Option Error)) → Poller → Poller
unfolding hydrate_rvms hydrate_bins
hydrate_from_storage none p = p
hydrate_from_storage (some (rvms, bins)) p =
    if_loaded bins hydrate_bins (if_loaded rvms hydrate_rvms p)
