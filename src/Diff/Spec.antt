-- ===== src/Diff/Spec.antt =====
-- What DiffState is meant to find, said without its loops.
use bcrstracking.Prelude.{
  ℕ, nat_keys, string_keys, Option, none, some, Bool, true, false, List, map, ◌==◌, ◌&&◌, not,
  keep_if,
}
use bcrstracking.Prelude.GoMap.{Entries, lookup}
use bcrstracking.Model.{Time, Rvm}
use bcrstracking.Model.Index.{is_listed}

-- The row of a machine that is seen for the first time.
abbrev pub as_new : Time → Rvm → Rvm
as_new now rvm = record rvm { first_seen_at = now; updated_at = now; is_deleted = 0 }

-- The row of a machine that was seen before: its first-seen time is that of the known entry.
abbrev pub as_known : Time → Rvm → Rvm → Rvm
as_known now prev rvm = record rvm {
  first_seen_at = prev.first_seen_at;
  updated_at = now;
  is_deleted = 0;
}

-- The row of a machine that is no longer listed: the known entry, marked as deleted.
abbrev pub as_gone : Time → Rvm → Rvm
as_gone now prev = record prev { updated_at = now; is_deleted = 1 }

-- Nothing live is known under the machine's number.
abbrev pub is_new : Option Rvm → Bool
is_new none = true
is_new (some prev) = prev.is_deleted == 1

-- The fields whose change DiffState reports.
abbrev pub same_facts : Rvm → Rvm → Bool
same_facts prev rvm =
    prev.status == rvm.status
    && (prev.location_name == rvm.location_name && prev.address == rvm.address)

abbrev pub has_changed : Option Rvm → Rvm → Bool
has_changed none rvm = false
has_changed (some prev) rvm = not (prev.is_deleted == 1) && not (same_facts prev rvm)

abbrev pub additions : Entries ℕ Rvm → Time → List Rvm → List Rvm
additions previous now current =
    map (as_new now) (keep_if (λ rvm. is_new (lookup rvm.id previous)) current)

-- The row of a known machine.
abbrev pub known_row : Time → Option Rvm → Rvm → Rvm
known_row now none rvm = rvm
known_row now (some prev) rvm = as_known now prev rvm

abbrev pub revisions : Entries ℕ Rvm → Time → List Rvm → List Rvm
revisions previous now current =
    map (λ rvm. known_row now (lookup rvm.id previous) rvm)
      (keep_if (λ rvm. has_changed (lookup rvm.id previous) rvm) current)

abbrev pub is_gone : List Rvm → ℕ × Rvm → Bool
is_gone current entry = not (entry.1.is_deleted == 1) && not (is_listed entry.0 current)

abbrev pub removals : Entries ℕ Rvm → Time → List Rvm → List Rvm
removals previous now current =
    map (λ entry. as_gone now entry.1) (keep_if (is_gone current) previous)
