-- ===== src/Tests/Storage.antt =====
-- Inserts and loads of the storage.
use bcrstracking.Prelude.{nat_keys, none, true, List, [], ◌∷◌, ◌++◌, map, ◌≡◌, is_none}
use bcrstracking.Model.Index.{index_from}
use bcrstracking.Errors.{Error, other}
use bcrstracking.Batch.{Stream, flush_section}
use bcrstracking.Storage.{
  Row, rvm_row, event_row, bin_row, BatchReply, insert_rvms, insert_events, insert_bins,
  load_active_rvms,
}
use bcrstracking.Storage.Sink.{accepted, IsAtomic, inserts-IsAtomic, flush_section-accepted}
use bcrstracking.Storage.Loads.{load_active_rvms-rvm_row}
use bcrstracking.Tests.Data.{yesterday, some_event, bin}

-- The connection takes every row.
abbrev pub accepting : BatchReply
accepting = record { prepare = none; append = λ n. none; send = none }

abbrev held {ℓ} : {A : Type ℓ} → List A → Stream A
held rows = record { chan = []; pending = rows; committed = [] }

inserts-IsAtomic_example :
    IsAtomic "rvm_current" rvm_row accepting yesterday (insert_rvms true accepting yesterday)
    × IsAtomic "rvm_events" event_row accepting
        (some_event ∷ [])
        (insert_events true accepting (some_event ∷ []))
    × IsAtomic "rvm_bin_snapshots" bin_row accepting
        (bin 1 "CAN" 500 30 ∷ [])
        (insert_bins true accepting (bin 1 "CAN" 500 30 ∷ []))
inserts-IsAtomic_example =
    inserts-IsAtomic true accepting yesterday (some_event ∷ []) (bin 1 "CAN" 500 30 ∷ [])

flush_section-accepted_example :
    (map rvm_row
        (flush_section "rvm_current" true
          (is_none (insert_rvms true accepting yesterday).error)
          4
          (held yesterday, none)).0.committed
      ≡ [] ++ accepted accepting (insert_rvms true accepting yesterday))
    × (map event_row
          (flush_section "rvm_events" true
            (is_none (insert_events true accepting (some_event ∷ [])).error)
            4
            (held (some_event ∷ []), none)).0.committed
        ≡ [] ++ accepted accepting (insert_events true accepting (some_event ∷ [])))
    × (map bin_row
          (flush_section "rvm_bin_snapshots" true
            (is_none (insert_bins true accepting []).error)
            4
            (held [], none)).0.committed
        ≡ [] ++ accepted accepting (insert_bins true accepting []))
flush_section-accepted_example =
    flush_section-accepted true accepting 4 none (held yesterday) (held (some_event ∷ [])) (held [])

abbrev pub fault : Row → Error
fault row = other "type mismatch"

load_active_rvms-rvm_row_example :
    load_active_rvms fault true
      (record { error = none; rows = map rvm_row yesterday; rows_error = none })
    ≡ (index_from yesterday [], none)
load_active_rvms-rvm_row_example = load_active_rvms-rvm_row fault yesterday
