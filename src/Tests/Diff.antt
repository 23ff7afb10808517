-- ===== src/Tests/Diff.antt =====
-- DiffState on two directories.
use bcrstracking.Prelude.{
  nat_keys, string_keys, ◌≡◌, ◌↔◌, refl, [], ◌∷◌, map, All, arith, none, some, ltb, if◌then◌else◌,
}
use bcrstracking.Prelude.GoMap.{lookup, insert, lookup-insert, HasDistinctKeys}
use bcrstracking.Model.{machine_added, machine_removed, status_changed, metadata_updated}
use bcrstracking.Model.Index.{index_from, HasDistinctIds, IsKeyed}
use bcrstracking.Text.{decimal, marshal_transition}
use bcrstracking.Diff.{DiffResult, diff_state}
use bcrstracking.Diff.Spec.{additions, revisions, removals}
use bcrstracking.Diff.Rows.{diff_state-rows}
use bcrstracking.Diff.Events.{IsTrue, diff_state-IsTrue}
use bcrstracking.Diff.Replica.{Agrees, rows, diff_state-Agrees}
use bcrstracking.Storage.Merge.{Write, IsReplacing, IsUntil, IsUntil-entries, write_all, millis}
use bcrstracking.Diff.Quiet.{diff_state_quiet_iff}
use bcrstracking.Tests.Data.{today, known, uuid}

abbrev change : DiffResult
change = diff_state uuid known today 9

changed_ids :
    ((map (λ r. r.id) change.added) ≡ 5 ∷ [])
    × (map (λ r. r.id) change.updated ≡ 2 ∷ 3 ∷ [])
    × (map (λ r. r.id) change.removed ≡ 4 ∷ [])
unfolding diff_state lookup insert decimal marshal_transition
changed_ids = (refl, refl, refl)

event_types :
    map (λ e. e.event_type) change.events
    ≡ machine_added ∷ status_changed ∷ metadata_updated ∷ machine_removed ∷ []
unfolding diff_state lookup insert decimal marshal_transition
event_types = refl

pub known-HasDistinctKeys : HasDistinctKeys known
unfolding lookup
known-HasDistinctKeys = (refl, (refl, (refl, (refl, tt))))

pub known-IsKeyed : IsKeyed known
known-IsKeyed = (refl, (refl, (refl, (refl, tt))))

known-IsUntil : IsUntil 9 known
known-IsUntil =
    IsUntil-entries 9 known (omega arith, (omega arith, (omega arith, (omega arith, tt))))

pub today-HasDistinctIds : HasDistinctIds today
today-HasDistinctIds = (refl, (refl, (refl, (refl, tt))))

pub today_fresh : All (λ r. r.is_deleted ≡ 0) today
today_fresh = (refl, (refl, (refl, (refl, tt))))

diff_state-rows_example :
    (change.added ≡ additions known 9 today)
    × (change.updated ≡ revisions known 9 today)
    × (change.removed ≡ removals known 9 today)
diff_state-rows_example = diff_state-rows uuid known today 9

diff_state-IsTrue_example : All (IsTrue known today 9) change.events
diff_state-IsTrue_example = diff_state-IsTrue uuid known today 9 known-HasDistinctKeys known-IsKeyed

-- A table with the engine of rvm_current.
pub merge_row : Write
merge_row rvm table = elim (lookup rvm.id table) [
  | none ↦ insert rvm.id rvm table
  | some old ↦
      if ltb (millis rvm.updated_at) (millis old.updated_at) then table else insert rvm.id rvm table
]

pub merge_row-IsReplacing : IsReplacing merge_row
unfolding merge_row
merge_row-IsReplacing rvm table id = ground (arith, lookup-insert rvm.id id rvm table)

diff_state-Agrees_example :
    Agrees (write_all merge_row (rows uuid known today 9) known) (index_from today [])
diff_state-Agrees_example =
    diff_state-Agrees uuid known today 9 merge_row known merge_row-IsReplacing today-HasDistinctIds
      today_fresh known-HasDistinctKeys known-IsKeyed known-IsUntil (λ id. refl)

diff_state_quiet_iff_example : (change.events ≡ []) ↔ Agrees known (index_from today [])
diff_state_quiet_iff_example =
    diff_state_quiet_iff uuid known today 9 today-HasDistinctIds today_fresh known-HasDistinctKeys
      known-IsKeyed
