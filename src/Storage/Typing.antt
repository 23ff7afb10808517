-- ===== src/Storage/Typing.antt =====
-- The batches and the loads of internal/storage/clickhouse.go against the tables of SchemaDDL.
use Prim.Native.String.{◌++◌}
use bcrstracking.Prelude.{
  ◌^◌, ◌<◌, String, string_keys, nat_keys, none, some, Bool, true, List, [], ◌∷◌, map, ◌≡◌, inl,
  inr, refl, arith, All,
}
use bcrstracking.Model.{Rvm, RvmEvent, BinStatus}
use bcrstracking.Storage.{
  Row, Inserted, BatchReply, rvm_row, event_row, bin_row, insert_rvms, insert_events, insert_bins,
}
use bcrstracking.Storage.Sink.{IsAtomic, inserts-IsAtomic}
use bcrstracking.Storage.Schema.{
  Column, Table, tables, find_table, takes, takes_row, all_below, rvm_current, rvm_events,
  rvm_bin_snapshots, insert_rvms_text, insert_events_text, insert_bins_text,
}

-- The widths of the Go types of the fields.
abbrev pub FitsRvm : Rvm → Type 0
FitsRvm r =
    (r.id < 2 ^ 32)
    × (r.latitude < 2 ^ 64)
    × (r.longitude < 2 ^ 64)
    × (all_below (2 ^ 32) r.group_ids ≡ true)
    × (r.is_deleted < 2 ^ 8)

abbrev pub FitsEvent : RvmEvent → Type 0
FitsEvent e = (e.event_id < 2 ^ 128) × (e.rvm_id < 2 ^ 32)

abbrev pub FitsBin : BinStatus → Type 0
FitsBin b =
    (b.id < 2 ^ 64)
    × (b.rvm_id < 2 ^ 32)
    × (b.capacity < 2 ^ 32)
    × (b.current_count < 2 ^ 32)
    × (b.threshold_level < 2 ^ 8)

names_text : List Column → String
names_text [] = ")"
names_text (c ∷ rest) = elim rest [
  | [] ↦ c.name ++ ")"
  | d ∷ others ↦ c.name ++ ", " ++ names_text rest
]

-- The statement that names all columns of a table in their order.
pub insert_statement : Table → String
unfolding names_text
insert_statement t = "INSERT INTO " ++ t.table_name ++ " (" ++ names_text t.columns

rvm_row-takes_row : (r : Rvm) → FitsRvm r → takes_row rvm_current.columns (rvm_row r) ≡ true
unfolding takes_row takes rvm_current rvm_row
rvm_row-takes_row r fits = ground arith

event_row-takes_row :
    (e : RvmEvent) → FitsEvent e → takes_row rvm_events.columns (event_row e) ≡ true
unfolding takes_row takes rvm_events event_row
event_row-takes_row e fits = ground arith

bin_row-takes_row :
    (b : BinStatus) → FitsBin b → takes_row rvm_bin_snapshots.columns (bin_row b) ≡ true
unfolding takes_row takes rvm_bin_snapshots bin_row
bin_row-takes_row b fits = ground arith

-- What an insert has sent: its table is one of SchemaDDL, its statement names all columns of that
-- table in their order, and each row has a value for every column that the column takes.
abbrev pub IsWellTyped : String → Inserted → Type 0
IsWellTyped statement out = elim out.sent [
  | none ↦ Unit
  | some (name, rows) ↦
      (t : Table) × (find_table name tables ≡ some t)
      × (statement ≡ insert_statement t)
      × All (λ row. takes_row t.columns row ≡ true) rows
]

All-takes_row {ℓ} :
    {A : Type ℓ} (Fits : A → Type 0) (row : A → Row) (columns : List Column)
    → ((x : A) → Fits x → takes_row columns (row x) ≡ true)
    → (xs : List A) → All Fits xs
    → All (λ values. takes_row columns values ≡ true) (map row xs)
All-takes_row Fits row columns fits [] h = tt
All-takes_row Fits row columns fits (x ∷ xs) h =
    (fits x h.0, All-takes_row Fits row columns fits xs h.1)

module _ {ℓ} {A : Type ℓ} (Fits : A → Type 0) (row : A → Row) (t : Table) (statement : String)
    (named : find_table t.table_name tables ≡ some t) (complete : statement ≡ insert_statement t)
    (fits : (x : A) → Fits x → takes_row t.columns (row x) ≡ true) where
  IsAtomic-IsWellTyped :
      (reply : BatchReply) (xs : List A) (out : Inserted)
      → All Fits xs
      → IsAtomic t.table_name row reply xs out
      → IsWellTyped statement out
  IsAtomic-IsWellTyped reply xs out h (inl nothing, taken) = rw nothing tt
  IsAtomic-IsWellTyped reply xs out h (inr all_rows, taken) =
      rw all_rows (t, named, complete, All-takes_row Fits row t.columns fits xs h)

-- Every batch that an insert sends fits the tables that InitSchema makes: its table is one of them,
-- its statement names all the columns of the table in their order, and each row has for each column
-- a value of the column's type and width, in that order. The numbers of the records have the widths
-- of their Go types.
pub inserts-IsWellTyped :
    (has_conn : Bool) (reply : BatchReply) (rvms : List Rvm) (events : List RvmEvent)
    (bins : List BinStatus)
    → All FitsRvm rvms
    → All FitsEvent events
    → All FitsBin bins
    → IsWellTyped insert_rvms_text (insert_rvms has_conn reply rvms)
      × IsWellTyped insert_events_text (insert_events has_conn reply events)
      × IsWellTyped insert_bins_text (insert_bins has_conn reply bins)
unfolding find_table insert_statement insert_rvms_text insert_events_text insert_bins_text
    rvm_current rvm_events rvm_bin_snapshots
inserts-IsWellTyped has_conn reply rvms events bins r e b =
    let (rvms_sent, events_sent, bins_sent) = inserts-IsAtomic has_conn reply rvms events bins in
    (
      IsAtomic-IsWellTyped FitsRvm rvm_row rvm_current insert_rvms_text refl refl rvm_row-takes_row
          reply rvms _ r rvms_sent,
      IsAtomic-IsWellTyped FitsEvent event_row rvm_events insert_events_text refl refl
          event_row-takes_row reply events _ e events_sent,
      IsAtomic-IsWellTyped FitsBin bin_row rvm_bin_snapshots insert_bins_text refl refl
          bin_row-takes_row reply bins _ b bins_sent,
    )
