-- ===== src/Diff.antt =====
-- internal/poller/diff.go: DiffState, which compares the machines of a new location directory with
-- those known before. The maps are lists of entries, in the order in which Go ranges over them.
pub mod Spec
mod Induction
pub mod Rows
pub mod Events
pub mod Replica
pub mod Quiet
use Prim.Native.String.{◌++◌ as str_append}
use bcrstracking.Prelude.{
  nat_keys, string_keys, ℕ, String, Option, none, some, List, [], ◌∷◌, ◌++◌, ◌==◌, ◌||◌, not,
  if◌then◌else◌, length,
}
use bcrstracking.Prelude.GoMap.{Entries, lookup, insert}
use bcrstracking.Model.{
  Time, Uuid, Rvm, RvmEvent, machine_added, machine_removed, status_changed, metadata_updated,
}
use bcrstracking.Text.{decimal, marshal_transition}

pub record DiffResult : Type 0 where
  pub added : List Rvm
  pub updated : List Rvm
  pub removed : List Rvm
  pub events : List RvmEvent

abbrev pub no_change : DiffResult
no_change = record { added = []; updated = []; removed = []; events = [] }

-- fmt.Sprintf(`{"deleted_id": %d}`, id)
pub deletion_payload : ℕ → String
deletion_payload id = str_append "{\"deleted_id\": " (str_append (decimal id) "}")

-- A machine that was not known, or was known as deleted.
unfoldable pub stamp_added : Time → Rvm → Rvm
stamp_added now rvm = record rvm { first_seen_at = now; updated_at = now; is_deleted = 0 }

-- A machine that was known already keeps the time at which it was first seen.
unfoldable pub stamp_known : Time → Rvm → Rvm → Rvm
stamp_known now prev rvm = record rvm {
  first_seen_at = prev.first_seen_at;
  updated_at = now;
  is_deleted = 0;
}

unfoldable pub stamp_removed : Time → Rvm → Rvm
stamp_removed now prev = record prev { is_deleted = 1; updated_at = now }

-- `new_uuid n` is what the n-th call of uuid.New returns, counted from 0 in one call of DiffState.
-- Each event draws one, so the next number is the number of events so far.
module _ (new_uuid : ℕ → Uuid) where
  pub add_machine : Time → DiffResult → Rvm → DiffResult
  unfolding stamp_added
  add_machine now result rvm = record result {
    added = result.added ++ stamp_added now rvm ∷ [];
    events =
        result.events
        ++ record {
          event_id = new_uuid (length result.events);
          rvm_id = rvm.id;
          serial_number = rvm.serial_number;
          supplier_id = rvm.supplier_id;
          event_type = machine_added;
          previous_status = "";
          current_status = rvm.status;
          payload_diff = rvm.raw_json;
          recorded_at = now;
        }
          ∷ [];
  }

  pub change_status : Time → DiffResult → Rvm → Rvm → DiffResult
  unfolding stamp_known
  change_status now result prev rvm = record result {
    updated = result.updated ++ stamp_known now prev rvm ∷ [];
    events =
        result.events
        ++ record {
          event_id = new_uuid (length result.events);
          rvm_id = rvm.id;
          serial_number = rvm.serial_number;
          supplier_id = rvm.supplier_id;
          event_type = status_changed;
          previous_status = prev.status;
          current_status = rvm.status;
          payload_diff = marshal_transition prev.status rvm.status;
          recorded_at = now;
        }
          ∷ [];
  }

  pub change_metadata : Time → DiffResult → Rvm → Rvm → DiffResult
  unfolding stamp_known
  change_metadata now result prev rvm = record result {
    updated = result.updated ++ stamp_known now prev rvm ∷ [];
    events =
        result.events
        ++ record {
          event_id = new_uuid (length result.events);
          rvm_id = rvm.id;
          serial_number = rvm.serial_number;
          supplier_id = rvm.supplier_id;
          event_type = metadata_updated;
          previous_status = prev.status;
          current_status = rvm.status;
          payload_diff = rvm.raw_json;
          recorded_at = now;
        }
          ∷ [];
  }

  -- The `else` branch: the machine is known and not deleted.
  pub compare_machine : Time → DiffResult → Rvm → Rvm → DiffResult
  unfolding change_status change_metadata
  compare_machine now result prev rvm =
      if not (prev.status == rvm.status)
      then change_status now result prev rvm
      else if not (prev.location_name == rvm.location_name) || not (prev.address == rvm.address)
      then change_metadata now result prev rvm
      else result

  pub visit_known : Time → DiffResult → Rvm → Option Rvm → DiffResult
  unfolding add_machine compare_machine
  visit_known now result rvm none = add_machine now result rvm
  visit_known now result rvm (some prev) =
      if prev.is_deleted == 1
      then add_machine now result rvm
      else compare_machine now result prev rvm

  -- The first loop, with `currentMap` and `result` as its variables.
  pub scan_current :
      Entries ℕ Rvm → Time → List Rvm → DiffResult → Entries ℕ Rvm → DiffResult × Entries ℕ Rvm
  unfolding visit_known
  scan_current previous now [] result current_map = (result, current_map)
  scan_current previous now (rvm ∷ rest) result current_map =
      scan_current previous now rest (visit_known now result rvm (lookup rvm.id previous))
        (insert rvm.id rvm current_map)

  pub remove_machine : Time → DiffResult → Rvm → DiffResult
  unfolding stamp_removed deletion_payload
  remove_machine now result prev = record result {
    removed = result.removed ++ stamp_removed now prev ∷ [];
    events =
        result.events
        ++ record {
          event_id = new_uuid (length result.events);
          rvm_id = prev.id;
          serial_number = prev.serial_number;
          supplier_id = prev.supplier_id;
          event_type = machine_removed;
          previous_status = prev.status;
          current_status = "DELETED";
          payload_diff = deletion_payload prev.id;
          recorded_at = now;
        }
          ∷ [];
  }

  pub visit_previous : Entries ℕ Rvm → Time → DiffResult → ℕ → Rvm → DiffResult
  unfolding remove_machine
  visit_previous current_map now result prev_id prev =
      if prev.is_deleted == 1 then result else elim (lookup prev_id current_map) [
        | none ↦ remove_machine now result prev
        | some _ ↦ result
      ]

  -- The second loop, over the map of known machines.
  pub scan_previous : Entries ℕ Rvm → Time → Entries ℕ Rvm → DiffResult → DiffResult
  unfolding visit_previous
  scan_previous current_map now [] result = result
  scan_previous current_map now ((prev_id, prev) ∷ rest) result =
      scan_previous current_map now rest (visit_previous current_map now result prev_id prev)

  unfoldable pub diff_state : Entries ℕ Rvm → List Rvm → Time → DiffResult
  unfolding scan_current scan_previous
  diff_state previous current now =
      let (result, current_map) = scan_current previous now current no_change [] in
      scan_previous current_map now previous result
