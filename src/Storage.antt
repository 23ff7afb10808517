-- ===== src/Storage.antt =====
-- internal/storage/clickhouse.go: the inserts and the loads of Storage, over a connection of the
-- ClickHouse driver. What the connection answers is an argument: `none` for a nil error. A row is the
-- list of the values that Append is given or that Scan fills in, in the order of the statement.
mod Rows
pub mod Merge
pub mod Sink
pub mod Loads
pub mod Schema
pub mod Typing
pub mod Scans
pub mod Lifecycle
unfoldable pub use Rows.*
use bcrstracking.Prelude.{
  ℕ, zero, suc, String, Option, none, some, Bool, true, false, List, [], ◌∷◌, ◌++◌, nat_keys,
}
use bcrstracking.Prelude.GoMap.{Entries, insert}
use bcrstracking.Model.{Rvm, RvmEvent, BinStatus}
use bcrstracking.Errors.{Error, other, wrapped, Result, ok, err}

-- The answers of PrepareBatch, of the n-th Append, counted from 0, and of Send.
pub record BatchReply : Type 0 where
  pub prepare : Option Error
  pub append : ℕ → Option Error
  pub send : Option Error

-- What an insert returns, and the table and rows of the batch if it came to Send.
pub record Inserted : Type 0 where
  pub error : Option Error
  pub sent : Option (String × List Row)

-- The loop of Appends: the rows of the batch, or the first error.
unfoldable pub append_rows {ℓ} :
    {A : Type ℓ} → String → (A → Row) → (ℕ → Option Error) → ℕ → List A → Result (List Row)
append_rows failure row answers n [] = ok []
append_rows failure row answers n (x ∷ rest) =
    let behind = append_rows failure row answers (suc n) rest in
    elim (answers n) [
      | some e ↦ err (wrapped failure e)
      | none ↦ elim behind [ err e ↦ err e | ok rows ↦ ok (row x ∷ rows) ]
    ]

-- The body that InsertRVMs, InsertEvents and InsertBins share.
unfoldable pub insert_rows {ℓ} :
    {A : Type ℓ} → String → String → String → (A → Row) → Bool → BatchReply → List A → Inserted
unfolding append_rows
insert_rows table unprepared failure row has_conn reply [] = record { error = none; sent = none }
insert_rows table unprepared failure row false reply (x ∷ rest) = record {
  error = some (other "clickhouse connection is nil");
  sent = none;
}
insert_rows table unprepared failure row true reply (x ∷ rest) = elim reply.prepare [
  | some e ↦ record { error = some (wrapped unprepared e); sent = none }
  | none ↦ elim (append_rows failure row reply.append 0 (x ∷ rest)) [
    | err e ↦ record { error = some e; sent = none }
    | ok rows ↦ record { error = reply.send; sent = some (table, rows) }
  ]
]

unfoldable pub insert_rvms : Bool → BatchReply → List Rvm → Inserted
unfolding insert_rows rvm_row
insert_rvms =
    insert_rows "rvm_current" "failed to prepare rvm_current batch" "failed appending rvm row"
      rvm_row

unfoldable pub insert_events : Bool → BatchReply → List RvmEvent → Inserted
unfolding insert_rows event_row
insert_events =
    insert_rows "rvm_events" "failed to prepare rvm_events batch" "failed appending event row"
      event_row

unfoldable pub insert_bins : Bool → BatchReply → List BinStatus → Inserted
unfolding insert_rows bin_row
insert_bins =
    insert_rows "rvm_bin_snapshots" "failed to prepare rvm_bin_snapshots batch"
      "failed appending bin row" bin_row

-- What Query brings: an error, or the rows, and the error that ends them if there is one.
pub record QueryReply : Type 0 where
  pub error : Option Error
  pub rows : List Row
  pub rows_error : Option Error

-- The loop over the rows of LoadActiveRVMs; the driver names the fault of a row that does not fit.
unfoldable pub scan_rvms : (Row → Error) → List Row → Entries ℕ Rvm → Result (Entries ℕ Rvm)
unfolding scan_rvm
scan_rvms fault [] active = ok active
scan_rvms fault (row ∷ rest) active = elim (scan_rvm row) [
  | none ↦ err (wrapped "failed to scan rvm_current row" (fault row))
  | some r ↦ scan_rvms fault rest (insert r.id r active)
]

-- LoadActiveRVMs: the map, which is nil with an early error, and the error.
unfoldable pub load_active_rvms : (Row → Error) → Bool → QueryReply → Entries ℕ Rvm × Option Error
unfolding scan_rvms
load_active_rvms fault false reply = ([], some (other "clickhouse connection is nil"))
load_active_rvms fault true reply = elim reply.error [
  | some e ↦ ([], some (wrapped "failed to query active RVMs from ClickHouse" e))
  | none ↦ elim (scan_rvms fault reply.rows []) [
    | err e ↦ ([], some e)
    | ok active ↦ (active, reply.rows_error)
  ]
]

-- The loop over the rows of LoadLatestBinSnapshots.
unfoldable pub scan_bins :
    (Row → Error) → List Row → List LatestBinInfo → Result (List LatestBinInfo)
unfolding scan_bin
scan_bins fault [] list = ok list
scan_bins fault (row ∷ rest) list = elim (scan_bin row) [
  | none ↦ err (wrapped "failed to scan bin snapshot row" (fault row))
  | some info ↦ scan_bins fault rest (list ++ info ∷ [])
]

-- LoadLatestBinSnapshots
unfoldable pub load_latest_bin_snapshots :
    (Row → Error) → Bool → QueryReply → List LatestBinInfo × Option Error
unfolding scan_bins
load_latest_bin_snapshots fault false reply = ([], some (other "clickhouse connection is nil"))
load_latest_bin_snapshots fault true reply = elim reply.error [
  | some e ↦ ([], some (wrapped "failed to query latest bin snapshots from ClickHouse" e))
  | none ↦ elim (scan_bins fault reply.rows []) [
    | err e ↦ ([], some e)
    | ok list ↦ (list, reply.rows_error)
  ]
]

-- InitSchema over the statements of SchemaDDL: it stops at the first error. The result has the
-- statements that were run.
unfoldable pub init_schema :
    Bool → (String → Option Error) → List String → Option Error × List String
init_schema false exec ddl = (some (other "clickhouse connection is nil"), [])
init_schema true exec [] = (none, [])
init_schema true exec (q ∷ rest) =
    let (error, run) = init_schema true exec rest in
    elim (exec q) [
      | some e ↦ (some (wrapped "failed executing schema query" e), q ∷ [])
      | none ↦ (error, q ∷ run)
    ]
