-- ===== src/Tests/Bins.antt =====
-- Polls of the bins.
use bcrstracking.Prelude.{ℕ, ◌+◌, ◌*◌, ◌≤◌, ◌<◌, nat_keys, string_keys, list_keys, ◌≡◌, ◌⊎◌, some}
use bcrstracking.Poller.Bins.{ingested}
use bcrstracking.Poller.Bins.Deltas.{ingested_bounds}

ingested_bounds_example :
    (ingested (some 120) 500 30 ≤ 200)
    × (ingested (some 120) 500 30 ≤ 30)
    × (0 < ingested (some 120) 500 30
        → (prev : ℕ) × (some 120 ≡ some prev)
          × ((prev + ingested (some 120) 500 30 ≡ 30)
              ⊎ ((ingested (some 120) 500 30 ≡ 30) × (0 < 500) × (50 ≤ prev) × (2 * 30 ≤ prev))))
ingested_bounds_example = ingested_bounds (some 120) 500 30
