-- ===== src/Poller/Counts.antt =====
-- The two-level maps of internal/poller/poller.go: statusCounts of machines by status and supplier,
-- and binCounts and currentCounts of containers by compartment type and supplier.
pub mod Gauges
use bcrstracking.Prelude.{ℕ, ◌+◌, string_keys, String, List, [], ◌∷◌}
use bcrstracking.Prelude.GoMap.{Entries, insert, get_or}
use bcrstracking.Metrics.{Metrics}

-- map[string]map[string]V for a V that counts.
abbrev pub Counts : Type 0
Counts = Entries String (Entries String ℕ)

-- counts[group][supplier] += n, with the inner map made on first use.
unfoldable pub accumulate : String → String → ℕ → Counts → Counts
accumulate group supplier n counts =
    let inner = get_or [] group counts in
    insert group (insert supplier (get_or 0 supplier inner + n) inner) counts

-- The loops over such a map that set one gauge for each pair; `put` is the gauge's setter.
module _ (put : String → String → ℕ → Metrics → Metrics) where
  unfoldable pub set_suppliers : String → Entries String ℕ → Metrics → Metrics
  set_suppliers group [] m = m
  set_suppliers group ((supplier, count) ∷ rest) m =
      set_suppliers group rest (put group supplier count m)

  unfoldable pub set_gauges : Counts → Metrics → Metrics
  unfolding set_suppliers
  set_gauges [] m = m
  set_gauges ((group, suppliers) ∷ rest) m = set_gauges rest (set_suppliers group suppliers m)
