-- ===== src/Storage/Scans.antt =====
-- The loads of internal/storage/clickhouse.go: every row of the columns' types is scanned.
use bcrstracking.Prelude.{
  ℕ, ◌++◌, String, string_keys, nat_keys, Option, none, some, true, List, [], ◌∷◌, map, ◌≡◌, refl,
  sym, ap, nat_beq_iff, ◌∙◌, arith, All, append_assoc, append-nil,
}
use bcrstracking.Model.{Rvm, Time, Uuid}
use bcrstracking.Model.Index.{index_from}
use bcrstracking.Errors.{Error, ok}
use bcrstracking.Storage.{
  Row, Value, rvm_row, scan_rvms, load_active_rvms, LatestBinInfo, scan_bin, scan_bins,
  load_latest_bin_snapshots, uint, float, text, uuid, uints, instant, nullable,
}
use bcrstracking.Storage.Loads.{scan_rvms-rvm_row}
use bcrstracking.Storage.Schema.{
  ColumnType, Column, load_rvms_text, select_statement, latest_bin_columns, takes, takes_row,
  rvm_current, unsigned, float64, characters, low_cardinality, uuid128, unsigned_array, date_time,
  nullable_date_time,
}

-- What a column holds, as a field of a Go struct.
abbrev Held : ColumnType → Type 0
Held (unsigned width) = ℕ
Held float64 = ℕ
Held characters = String
Held low_cardinality = String
Held uuid128 = Uuid
Held unsigned_array = List ℕ
Held date_time = Time
Held nullable_date_time = Option Time

abbrev to_value : (c : ColumnType) → Held c → Value
to_value (unsigned width) n = uint width n
to_value float64 n = float n
to_value characters s = text s
to_value low_cardinality s = text s
to_value uuid128 n = uuid n
to_value unsigned_array ns = uints ns
to_value date_time t = instant t
to_value nullable_date_time o = nullable o

abbrev Fields : List Column → Type 0
Fields [] = Unit {0}
Fields (c ∷ cs) = Held c.column_type × Fields cs

abbrev to_row : (cs : List Column) → Fields cs → Row
to_row [] vs = []
to_row (c ∷ cs) (v, vs) = to_value c.column_type v ∷ to_row cs vs

held : (c : ColumnType) (v : Value) → takes c v ≡ true → (h : Held c) × (v ≡ to_value c h)
unfolding takes
held (unsigned width) (uint w n) e =
    (n, ap (λ bits. uint bits n) ((nat_beq_iff w width).0 (ground arith)))
held float64 (float n) e = (n, refl)
held characters (text s) e = (s, refl)
held low_cardinality (text s) e = (s, refl)
held uuid128 (uuid n) e = (n, refl)
held unsigned_array (uints ns) e = (ns, refl)
held date_time (instant t) e = (t, refl)
held nullable_date_time (nullable o) e = (o, refl)
held _ _ e = absurd (ground arith)

-- The values of a bin in the order of the columns of LoadLatestBinSnapshots.
abbrev pub info_row : LatestBinInfo → Row
info_row info =
    uint 32 info.rvm_id
    ∷ text info.serial_number
    ∷ text info.compartment_type
    ∷ uint 32 info.capacity
    ∷ uint 32 info.current_count
    ∷ uint 8 info.threshold_level
    ∷ []

-- A row that the columns take holds a field for each.
Fields-of :
    (cs : List Column) (row : Row)
    → takes_row cs row ≡ true
    → (vs : Fields cs) × (row ≡ to_row cs vs)
unfolding takes_row
Fields-of [] [] e = (tt, refl)
Fields-of [] (v ∷ row) e = absurd (ground arith)
Fields-of (c ∷ cs) [] e = absurd (ground arith)
Fields-of (c ∷ cs) (v ∷ row) e =
    let (h, same) = held c.column_type v (ground arith) in
    let (vs, others) = Fields-of cs row (ground arith) in ((h, vs), cc)

machine_of : Fields rvm_current.columns → Rvm
unfolding rvm_current
machine_of vs = record {
  id = vs.0;
  serial_number = vs.1.0;
  supplier_id = vs.1.1.0;
  location_name = vs.1.1.1.0;
  latitude = vs.1.1.1.1.0;
  longitude = vs.1.1.1.1.1.0;
  coords_color = vs.1.1.1.1.1.1.0;
  address = vs.1.1.1.1.1.1.1.0;
  postal_code = vs.1.1.1.1.1.1.1.1.0;
  status = vs.1.1.1.1.1.1.1.1.1.0;
  rvm_remarks = vs.1.1.1.1.1.1.1.1.1.1.0;
  model = vs.1.1.1.1.1.1.1.1.1.1.1.0;
  rvm_type = vs.1.1.1.1.1.1.1.1.1.1.1.1.0;
  group_ids = vs.1.1.1.1.1.1.1.1.1.1.1.1.1.0;
  opening_hours = vs.1.1.1.1.1.1.1.1.1.1.1.1.1.1.0;
  raw_json = vs.1.1.1.1.1.1.1.1.1.1.1.1.1.1.1.0;
  first_seen_at = vs.1.1.1.1.1.1.1.1.1.1.1.1.1.1.1.1.0;
  updated_at = vs.1.1.1.1.1.1.1.1.1.1.1.1.1.1.1.1.1.0;
  is_deleted = vs.1.1.1.1.1.1.1.1.1.1.1.1.1.1.1.1.1.1.0;
}

-- A row that the table of machines takes is the row of a machine.
eq-rvm_row : (row : Row) → takes_row rvm_current.columns row ≡ true → (r : Rvm) × (row ≡ rvm_row r)
unfolding rvm_current rvm_row machine_of
eq-rvm_row row h = let (vs, same) = Fields-of rvm_current.columns row h in (machine_of vs, same)

info_of : Fields latest_bin_columns → LatestBinInfo
unfolding latest_bin_columns
info_of vs = record {
  rvm_id = vs.0;
  serial_number = vs.1.0;
  compartment_type = vs.1.1.0;
  capacity = vs.1.1.1.0;
  current_count = vs.1.1.1.1.0;
  threshold_level = vs.1.1.1.1.1.0;
}

scan_bin-takes_row :
    (row : Row)
    → takes_row latest_bin_columns row ≡ true
    → (info : LatestBinInfo) × (scan_bin row ≡ some info) × (row ≡ info_row info)
unfolding latest_bin_columns scan_bin info_of
scan_bin-takes_row row h =
    let (vs, same) = Fields-of latest_bin_columns row h in (info_of vs, ap scan_bin same, same)

rows-rvm_row :
    (rows : List Row)
    → All (λ row. takes_row rvm_current.columns row ≡ true) rows
    → (rs : List Rvm) × (rows ≡ map rvm_row rs)
rows-rvm_row [] h = ([], refl)
rows-rvm_row (row ∷ rest) h =
    let (r, same) = eq-rvm_row row h.0 in let (rs, others) = rows-rvm_row rest h.1 in (r ∷ rs, cc)

scan_bins-takes_row :
    (fault : Row → Error) (rows : List Row) (list : List LatestBinInfo)
    → All (λ row. takes_row latest_bin_columns row ≡ true) rows
    → (infos : List LatestBinInfo) × (scan_bins fault rows list ≡ ok (list ++ infos))
      × (rows ≡ map info_row infos)
unfolding scan_bins
scan_bins-takes_row fault [] list h = ([], ap ok (sym (append-nil list)), refl)
scan_bins-takes_row fault (row ∷ rest) list h =
    let (info, here, held_here) = scan_bin-takes_row row h.0 in
    let (infos, done, behind) = scan_bins-takes_row fault rest (list ++ info ∷ []) h.1 in
    (info ∷ infos, rw (here, scan_bins) (done ∙ ap ok (append_assoc list (info ∷ []) infos)), cc)

-- No row stops a load: if the database answers with rows that fit the columns asked for, each load
-- gives back all of them, in order, and its only error is the one that ends the rows. The machines
-- are those whose rows were read, by number; the bins are those whose values
-- the rows hold, in the order of the columns.
pub loads-takes_row :
    (fault : Row → Error) (machines bins : List Row) (e e' : Option Error)
    → All (λ row. takes_row rvm_current.columns row ≡ true) machines
    → All (λ row. takes_row latest_bin_columns row ≡ true) bins
    → (load_rvms_text ≡ select_statement rvm_current)
      × ((rs : List Rvm) × (machines ≡ map rvm_row rs)
          × (load_active_rvms fault true (record { error = none; rows = machines; rows_error = e })
              ≡ (index_from rs [], e)))
      × ((infos : List LatestBinInfo) × (bins ≡ map info_row infos)
          × (load_latest_bin_snapshots fault true
                (record { error = none; rows = bins; rows_error = e' })
              ≡ (infos, e')))
unfolding load_active_rvms load_latest_bin_snapshots load_rvms_text select_statement rvm_current
loads-takes_row fault machines bins e e' h k =
    let (rs, same) = rows-rvm_row machines h in
    let (infos, done, read) = scan_bins-takes_row fault bins [] k in
    (
      refl,
      (
        rs,
        same,
        rw
            (
              ap (λ rows. scan_rvms fault rows []) same ∙ scan_rvms-rvm_row fault rs [],
              load_active_rvms,
            )
            refl,
      ),
      (infos, read, rw (done, load_latest_bin_snapshots) refl),
    )
