-- ===== src/Tests/Hydration.antt =====
-- A restart: the machines of the table are loaded, and two polls follow.
use mathlib.Core.Option
use bcrstracking.Prelude.{
  ℕ, nat_keys, string_keys, pair_keys, list_keys, String, none, some, true, List, [], ◌∷◌, map, ◌≡◌,
  refl,
}
use bcrstracking.Prelude.GoMap.{lookup, get_or}
use bcrstracking.Metrics.{new_metrics}
use bcrstracking.Storage.{rvm_row, LatestBinInfo, load_active_rvms}
use bcrstracking.Poller.{Poller, new_poller}
use bcrstracking.Poller.Locations.{PollClock}
use bcrstracking.Poller.Hydration.{hydrate_from_storage, apply_hydrated_bin_snapshots}
use bcrstracking.Poller.Hydration.Snapshots.{apply_hydrated_bin_snapshots_lem}
use bcrstracking.Tests.Data.{known, yesterday}
use bcrstracking.Tests.Storage.{fault}

abbrev snapshot : ℕ → String → ℕ → ℕ → LatestBinInfo
snapshot rvm_id compartment_type capacity current_count = record {
  rvm_id = rvm_id;
  serial_number = "S";
  compartment_type = compartment_type;
  capacity = capacity;
  current_count = current_count;
  threshold_level = 40;
}

abbrev pub snapshots : List LatestBinInfo
snapshots = snapshot 1 "CAN" 500 30 ∷ snapshot 2 "CAN" 0 9000 ∷ snapshot 9 "CAN" 500 7 ∷ []

abbrev fresh_poller : Poller
fresh_poller = record (new_poller none true none (some new_metrics)) { active_rvms = [] }

abbrev pub clock : ℕ → PollClock
clock n = record { now = n; duration = 5; unix = n; meanwhile = λ i buf. buf }

abbrev loaded_poller : Poller
loaded_poller =
    hydrate_from_storage
      (some (
        load_active_rvms fault true
            (record { error = none; rows = map rvm_row yesterday; rows_error = none }),
        (snapshots, none),
      ))
      fresh_poller

abbrev known_poller : Poller
known_poller = record (new_poller none true none (some new_metrics)) { active_rvms = known }

-- Machine 2 has no capacity and is 40 percent full; machine 9 is not known.
apply_hydrated_bin_snapshots_example :
    (lookup (2, "CAN") (apply_hydrated_bin_snapshots snapshots known_poller).last_bin_counts
      ≡ some 9000)
    × (Option.map
          (λ m. get_or 0 ("CAN" ∷ "RVMS001" ∷ []) m.bin_current_count)
          (apply_hydrated_bin_snapshots snapshots known_poller).metrics
        ≡ some 430)
unfolding new_poller lookup
apply_hydrated_bin_snapshots_example =
    apply_hydrated_bin_snapshots_lem snapshots known_poller new_metrics (2, "CAN") "CAN" "RVMS001"
      refl
