-- ===== src/Tests/Schema.antt =====
-- Batches and loads against the tables.
use bcrstracking.Prelude.{
  ℕ, ◌<◌, ◌^◌, String, nat_keys, string_keys, none, true, List, [], ◌∷◌, map, ◌≡◌, refl, arith,
}
use bcrstracking.Model.{Rvm}
use bcrstracking.Model.Index.{index_from}
use bcrstracking.Storage.{
  Row, rvm_row, insert_rvms, insert_events, insert_bins, LatestBinInfo, load_active_rvms,
  load_latest_bin_snapshots, uint, text,
}
use bcrstracking.Storage.Schema.{
  takes, takes_row, rvm_current, latest_bin_columns, insert_rvms_text, insert_events_text,
  insert_bins_text, load_rvms_text, select_statement,
}
use bcrstracking.Storage.Typing.{FitsRvm, IsWellTyped, inserts-IsWellTyped}
use bcrstracking.Storage.Scans.{info_row, loads-takes_row}
use bcrstracking.Tests.Data.{machine, yesterday, some_event, bin}
use bcrstracking.Tests.Storage.{fault, accepting}

machine-FitsRvm :
    (id : ℕ) (status location_name : String)
    → id < 2 ^ 32
    → FitsRvm (machine id status location_name)
machine-FitsRvm id status location_name h = (h, omega arith, omega arith, refl, omega arith)

inserts-IsWellTyped_example :
    IsWellTyped insert_rvms_text (insert_rvms true accepting yesterday)
    × IsWellTyped insert_events_text (insert_events true accepting (some_event ∷ []))
    × IsWellTyped insert_bins_text (insert_bins true accepting (bin 1 "CAN" 500 30 ∷ []))
inserts-IsWellTyped_example =
    inserts-IsWellTyped true accepting yesterday (some_event ∷ []) (bin 1 "CAN" 500 30 ∷ [])
      (
        machine-FitsRvm 1 "RUNNING" "Hall" (omega arith),
        (
          machine-FitsRvm 2 "RUNNING" "Mall" (omega arith),
          (
            machine-FitsRvm 3 "FULL" "Shop" (omega arith),
            (machine-FitsRvm 4 "FULL" "Park" (omega arith), tt),
          ),
        ),
      )
      ((omega arith, omega arith), tt)
      ((omega arith, omega arith, omega arith, omega arith, omega arith), tt)

abbrev bin_info_row : Row
bin_info_row = uint 32 7 ∷ text "S7" ∷ text "CAN" ∷ uint 32 500 ∷ uint 32 30 ∷ uint 8 6 ∷ []

loads-takes_row_example :
    (load_rvms_text ≡ select_statement rvm_current)
    × ((rs : List Rvm) × (map rvm_row yesterday ≡ map rvm_row rs)
        × (load_active_rvms fault true
              (record { error = none; rows = map rvm_row yesterday; rows_error = none })
            ≡ (index_from rs [], none)))
    × ((infos : List LatestBinInfo) × (bin_info_row ∷ [] ≡ map info_row infos)
        × (load_latest_bin_snapshots fault true
              (record { error = none; rows = bin_info_row ∷ []; rows_error = none })
            ≡ (infos, none)))
unfolding takes takes_row rvm_current latest_bin_columns rvm_row
loads-takes_row_example =
    loads-takes_row fault (map rvm_row yesterday) (bin_info_row ∷ []) none none
      (refl, (refl, (refl, (refl, tt)))) (refl, tt)
