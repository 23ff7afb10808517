-- ===== src/Poller/Bins/Contents.antt =====
-- What the gauge bcrs_bin_current_count of internal/poller is meant to show of a bin.
use bcrstracking.Prelude.{
  ℕ, ◌+◌, ◌*◌, nat_keys, string_keys, String, Option, none, some, Bool, false, List, [], ◌∷◌,
  if◌then◌else◌, ◌==◌, ◌&&◌, ◌||◌,
}
use bcrstracking.Prelude.GoMap.{Entries}
use bcrstracking.Model.{Rvm, BinStatus}

-- A text is shown under its own label, the empty one under UNKNOWN.
abbrev pub has_label : String → String → Bool
has_label text label = if text == "" then "UNKNOWN" == label else text == label

-- The containers in a bin: its count, or ten for each percent of its level if it has no capacity.
abbrev pub held : ℕ → ℕ → ℕ → ℕ
held capacity current_count threshold_level =
    if capacity == 0 then threshold_level * 10 else current_count

-- The containers in the bins of a machine that are shown under two labels.
abbrev pub reported : String → String → String → List BinStatus → ℕ
reported c_type supplier owner [] = 0
reported c_type supplier owner (b ∷ rest) =
    let others = reported c_type supplier owner rest in
    if has_label b.compartment_type c_type && has_label owner supplier
    then held b.capacity b.current_count b.threshold_level + others
    else others

abbrev pub reported_in : String → String → String → Option (List BinStatus) → ℕ
reported_in c_type supplier owner none = 0
reported_in c_type supplier owner (some bins) = reported c_type supplier owner bins

-- A machine of the map is not deleted.
abbrev pub has_live : Entries ℕ Rvm → Bool
has_live [] = false
has_live ((id, rvm) ∷ rest) = rvm.is_deleted == 0 || has_live rest
