-- ===== src/Storage/Loads.antt =====
-- The load of the machines in internal/storage/clickhouse.go against the insert: the columns of the
-- two statements stand in one order.
use bcrstracking.Prelude.{ℕ, none, some, true, List, [], ◌∷◌, map, ◌≡◌, refl, nat_keys}
use bcrstracking.Prelude.GoMap.{Entries, insert}
use bcrstracking.Model.{Rvm}
use bcrstracking.Model.Index.{index_from}
use bcrstracking.Errors.{Error, ok}
use bcrstracking.Storage.{Row, rvm_row, scan_rvm, scan_rvms, load_active_rvms}

scan_rvm-rvm_row : (r : Rvm) → scan_rvm (rvm_row r) ≡ some r
unfolding scan_rvm rvm_row
scan_rvm-rvm_row r = refl

pub scan_rvms-rvm_row :
    (fault : Row → Error) (rs : List Rvm) (active : Entries ℕ Rvm)
    → scan_rvms fault (map rvm_row rs) active ≡ ok (index_from rs active)
unfolding scan_rvms index_from
scan_rvms-rvm_row fault [] active = refl
scan_rvms-rvm_row fault (r ∷ rest) active =
    rw (scan_rvm-rvm_row r, scan_rvms) (scan_rvms-rvm_row fault rest (insert r.id r active))

-- When the database answers the query of LoadActiveRVMs with rows of InsertRVMs, in any choice and
-- order, then the load gives back these machines, each with every field, by number and the last row
-- of a number winning, and no error.
pub load_active_rvms-rvm_row :
    (fault : Row → Error) (rs : List Rvm)
    → load_active_rvms fault true
        (record { error = none; rows = map rvm_row rs; rows_error = none })
      ≡ (index_from rs [], none)
unfolding load_active_rvms
load_active_rvms-rvm_row fault rs = rw (scan_rvms-rvm_row fault rs [], load_active_rvms)
