-- ===== src/Poller/Hydration/Snapshots.antt =====
-- The counts and gauges of bins that applyHydratedBinSnapshots of internal/poller/poller.go leaves.
use mathlib.Core.Option
use bcrstracking.Prelude.{
  ℕ, ◌+◌, nat_keys, string_keys, pair_keys, list_keys, String, Bool, Option, none, some, List, [],
  ◌∷◌, if◌then◌else◌, ◌==◌, ◌&&◌, ◌≡◌, refl, ap, ◌∙◌, arith,
}
use bcrstracking.Prelude.GoMap.{Entries, lookup, insert, lookup-insert, get_or, get_or-empty}
use bcrstracking.Model.{Rvm}
use bcrstracking.Metrics.{Metrics, set_bin_current_count, reset_bin_current_counts}
use bcrstracking.Storage.{LatestBinInfo}
use bcrstracking.Poller.{Poller, BinKey}
use bcrstracking.Poller.Counts.{Counts, accumulate, set_gauges}
use bcrstracking.Poller.Counts.Gauges.{
  count_at, count_at-empty, count_at-accumulate, IsNested, accumulate-IsNested, gauge-set_gauges,
}
use bcrstracking.Poller.Bins.Contents.{has_label, held}
use bcrstracking.Poller.Bins.{or_unknown, in_bin}
use bcrstracking.Poller.Bins.Totals.{gauge, gauge-set_bin_current_count}
use bcrstracking.Poller.Hydration.{
  supplier_or_unknown, snapshot_key, hydrate_counts, apply_hydrated_bin_snapshots,
}

-- The count of the last snapshot with the key, or what was known before.
abbrev pub last_count : BinKey → List LatestBinInfo → Option ℕ → Option ℕ
last_count key [] known = known
last_count key (b ∷ rest) known =
    last_count key rest
      (if b.rvm_id == key.0 && b.compartment_type == key.1 then some b.current_count else known)

-- The supplier of the machine of a snapshot, if the machine is known and has one.
abbrev pub owner_of : Option Rvm → String
owner_of none = ""
owner_of (some rvm) = rvm.supplier_id

-- The containers of the snapshots with the compartment type and the supplier.
abbrev pub contents : Entries ℕ Rvm → String → String → List LatestBinInfo → ℕ
contents active c_type supplier [] = 0
contents active c_type supplier (b ∷ rest) =
    let others = contents active c_type supplier rest in
    if has_label b.compartment_type c_type && has_label (owner_of (lookup b.rvm_id active)) supplier
    then held b.capacity b.current_count b.threshold_level + others
    else others

-- The labels and counts of the code are the ones that it means.
or_unknown_label : (text label : String) → (or_unknown text == label) ≡ has_label text label
or_unknown_label text label = ground arith

supplier_label :
    (known : Option Rvm) (label : String)
    → (supplier_or_unknown known == label) ≡ has_label (owner_of known) label
supplier_label none label = refl
supplier_label (some rvm) label = or_unknown_label rvm.supplier_id label

in_bin-held :
    (capacity current_count threshold_level : ℕ)
    → in_bin capacity current_count threshold_level ≡ held capacity current_count threshold_level
unfolding in_bin
in_bin-held capacity current_count threshold_level = ground arith

last-hydrate_counts :
    (active : Entries ℕ Rvm) (bin_list : List LatestBinInfo) (last : Entries BinKey ℕ)
    (counts : Counts) (key : BinKey)
    → lookup key (hydrate_counts active bin_list (last, counts)).0
      ≡ last_count key bin_list (lookup key last)
unfolding hydrate_counts
last-hydrate_counts active [] last counts key = refl
last-hydrate_counts active (b ∷ rest) last counts key =
    last-hydrate_counts active rest (insert (snapshot_key b) b.current_count last) _ key
    ∙ ap (last_count key rest) (lookup-insert (snapshot_key b) key b.current_count last)

tally :
    (typed supplied : Bool) (before here others : ℕ)
    → (if typed && supplied then before + here else before) + others
      ≡ before + (if typed && supplied then here + others else others)
tally typed supplied before here others = ground arith

count_at-hydrate_counts :
    (active : Entries ℕ Rvm) (bin_list : List LatestBinInfo) (last : Entries BinKey ℕ)
    (counts : Counts) (c_type supplier : String)
    → count_at c_type supplier (hydrate_counts active bin_list (last, counts)).1
      ≡ count_at c_type supplier counts + contents active c_type supplier bin_list
unfolding hydrate_counts
count_at-hydrate_counts active [] last counts c_type supplier = omega arith
count_at-hydrate_counts active (b ∷ rest) last counts c_type supplier =
    rw
      (
        count_at-hydrate_counts active rest (insert (snapshot_key b) b.current_count last)
            (accumulate (or_unknown b.compartment_type)
              (supplier_or_unknown (lookup b.rvm_id active))
              (in_bin b.capacity b.current_count b.threshold_level) counts)
            c_type supplier,
        count_at-accumulate (or_unknown b.compartment_type)
            (supplier_or_unknown (lookup b.rvm_id active))
            (in_bin b.capacity b.current_count b.threshold_level) c_type supplier counts,
        or_unknown_label b.compartment_type c_type,
        supplier_label (lookup b.rvm_id active) supplier,
        in_bin-held b.capacity b.current_count b.threshold_level,
      )
      (tally (has_label b.compartment_type c_type)
        (has_label (owner_of (lookup b.rvm_id active)) supplier) _ _ _)

hydrate_counts-IsNested :
    (active : Entries ℕ Rvm) (bin_list : List LatestBinInfo) (last : Entries BinKey ℕ)
    (counts : Counts)
    → IsNested counts
    → IsNested (hydrate_counts active bin_list (last, counts)).1
unfolding hydrate_counts
hydrate_counts-IsNested active [] last counts n = n
hydrate_counts-IsNested active (b ∷ rest) last counts n =
    hydrate_counts-IsNested active rest _ _ (accumulate-IsNested _ _ _ counts n)

gauge-hydrate_counts :
    (active : Entries ℕ Rvm) (bin_list : List LatestBinInfo) (last : Entries BinKey ℕ) (m : Metrics)
    (c_type supplier : String)
    → gauge c_type supplier (
        set_gauges set_bin_current_count
          (hydrate_counts active bin_list (last, [])).1
          (reset_bin_current_counts m))
      ≡ contents active c_type supplier bin_list
unfolding reset_bin_current_counts
gauge-hydrate_counts active bin_list last m c_type supplier =
    gauge-set_gauges set_bin_current_count gauge gauge-set_bin_current_count c_type supplier
      (hydrate_counts active bin_list (last, [])).1 (reset_bin_current_counts m)
      (hydrate_counts-IsNested active bin_list last [] (tt, tt))
      (get_or-empty 0 (c_type ∷ supplier ∷ []))
    ∙ count_at-hydrate_counts active bin_list last [] c_type supplier
    ∙ omega (arith, count_at-empty c_type supplier)

-- After the snapshots of the bins have been applied to a poller with metrics, the last known count of
-- each machine and compartment is that of its last snapshot, or what was known before if it has
-- none; and the gauge of each compartment type and supplier is the number of containers in the
-- snapshots with these labels, the count of a bin with a capacity and ten for each percent of the
-- level of one with none, where an empty compartment type, and the supplier of a machine that is not
-- known or has none, is read as UNKNOWN.
pub apply_hydrated_bin_snapshots_lem :
    (bin_list : List LatestBinInfo) (p : Poller) (m : Metrics) (key : BinKey)
    (c_type supplier : String)
    → p.metrics ≡ some m
    → let next = apply_hydrated_bin_snapshots bin_list p in
      (lookup key next.last_bin_counts ≡ last_count key bin_list (lookup key p.last_bin_counts))
      × (Option.map (λ m'. get_or 0 (c_type ∷ supplier ∷ []) m'.bin_current_count) next.metrics
          ≡ some (contents p.active_rvms c_type supplier bin_list))
unfolding apply_hydrated_bin_snapshots
apply_hydrated_bin_snapshots_lem bin_list p m key c_type supplier e = (
  last-hydrate_counts p.active_rvms bin_list p.last_bin_counts [] key,
  rw e (ap some (gauge-hydrate_counts p.active_rvms bin_list p.last_bin_counts m c_type supplier)),
)
