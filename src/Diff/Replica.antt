-- ===== src/Diff/Replica.antt =====
-- The table rvm_current as a replica of the poller's map. ClickHouse keeps, of the rows with one
-- number, the latest version (ReplacingMergeTree, see Storage/Merge.antt); the table is the map of
-- those rows.
use bcrstracking.Prelude.{
  is_none, ℕ, nat_keys, string_keys, String, ◌≡◌, refl, ap, sym, ◌∙◌, Option, none, some, true,
  false, List, [], ◌∷◌, ◌++◌, ◌==◌, if◌then◌else◌, arith, Option-cases, inl, inr, All, All-append,
  All-map-keep_if, All-intro,
}
use bcrstracking.Prelude.GoMap.{Entries, lookup, HasDistinctKeys}
use bcrstracking.Model.{Time, Uuid, Rvm}
use bcrstracking.Model.Index.{
  is_listed, find_last, index_from, lookup-index_from, is_none-find_last, find_last-append,
  find_last-map, find_last-All, HasDistinctIds, IsKeyed, row_or,
}
use bcrstracking.Diff.Spec.{
  is_new, has_changed, is_gone, known_row, as_new, as_gone, additions, revisions, removals,
}
use bcrstracking.Diff.Rows.{diff_state-rows}
use bcrstracking.Diff.{diff_state}
use bcrstracking.Storage.Merge.{Write, IsReplacing, IsUntil, write_all, lookup-write_all}

-- What DiffState compares of a machine, if the entry is there and not deleted.
abbrev pub live_facts : Option Rvm → Option (String × String × String)
live_facts none = none
live_facts (some r) =
    if r.is_deleted == 1 then none else some (r.status, r.location_name, r.address)

-- Two maps show the same live machines, with the same status, name and address.
abbrev pub Agrees : Entries ℕ Rvm → Entries ℕ Rvm → Type 0
Agrees table active = (id : ℕ) → live_facts (lookup id table) ≡ live_facts (lookup id active)

-- The row made of an entry of the map of known machines.
abbrev removal_or : Time → List Rvm → ℕ → Option Rvm → Option Rvm → Option Rvm
removal_or now current id none found = found
removal_or now current id (some prev) found =
    if is_gone current (id, prev) then some (as_gone now prev) else found

-- A key that is in no entry of the map is in no removal.
find_last-removals-none :
    (now : Time) (current : List Rvm) (id : ℕ) (previous : Entries ℕ Rvm) (found : Option Rvm)
    → IsKeyed previous
    → lookup id previous ≡ none
    → find_last id (removals previous now current) found ≡ found
unfolding find_last lookup
find_last-removals-none now current id [] found keyed e = refl
find_last-removals-none now current id ((k, prev) ∷ rest) found keyed e =
    ground (arith, find_last-removals-none now current id rest found keyed.1, keyed.0)

find_last-removals :
    (now : Time) (current : List Rvm) (id : ℕ) (previous : Entries ℕ Rvm) (found : Option Rvm)
    → HasDistinctKeys previous
    → IsKeyed previous
    → find_last id (removals previous now current) found
      ≡ removal_or now current id (lookup id previous) found
unfolding find_last lookup
find_last-removals now current id [] found distinct keyed = refl
find_last-removals now current id ((k, prev) ∷ rest) found distinct keyed = ground (
  arith,
  keyed.0,
  find_last-removals now current id rest found distinct.1 keyed.1,
  find_last-removals-none now current id rest (some (as_gone now prev)) keyed.1,
)

-- A revised machine is a known one.
known_row_stamped :
    (now : Time) (known : Option Rvm) (r : Rvm)
    → has_changed known r ≡ true
    → (known_row now known r).updated_at ≡ now
known_row_stamped now none r e = cc
known_row_stamped now (some prev) r e = refl

module _ (new_uuid : ℕ → Uuid) (previous : Entries ℕ Rvm) (current : List Rvm) (now : Time) where
  abbrev pub rows : List Rvm
  rows =
      let result = diff_state new_uuid previous current now in
      result.added ++ (result.updated ++ result.removed)

  module _ (distinct : HasDistinctIds current) (fresh : All (λ r. r.is_deleted ≡ 0) current)
      (keys : HasDistinctKeys previous) (keyed : IsKeyed previous) where
    known_row-id : (known : Option Rvm) (r : Rvm) → (known_row now known r).id ≡ r.id
    known_row-id none r = refl
    known_row-id (some prev) r = refl

    as_new-id : (r : Rvm) → (as_new now r).id ≡ r.id
    as_new-id r = refl

    -- The last row that the diff writes for a number.
    find_last-rows :
        (id : ℕ) (found : Option Rvm)
        → find_last id rows found
          ≡ removal_or now current id (lookup id previous) (
              row_or
                (λ rvm. has_changed (lookup rvm.id previous) rvm)
                (λ rvm. known_row now (lookup rvm.id previous) rvm)
                (find_last id current none)
                (row_or
                  (λ rvm. is_new (lookup rvm.id previous))
                  (as_new now)
                  (find_last id current none)
                  found))
    find_last-rows id found =
        rw
          (
            (diff_state-rows new_uuid previous current now).0,
            (diff_state-rows new_uuid previous current now).1,
            (diff_state-rows new_uuid previous current now).2,
            find_last-append id (additions previous now current),
            find_last-append id (revisions previous now current),
            find_last-removals now current id previous _ keys keyed,
            find_last-map (λ rvm. has_changed (lookup rvm.id previous) rvm)
                (λ rvm. known_row now (lookup rvm.id previous) rvm)
                (λ rvm. known_row-id (lookup rvm.id previous) rvm) id current _ distinct,
            find_last-map (λ rvm. is_new (lookup rvm.id previous)) (as_new now) as_new-id id current
                found distinct,
          )
          refl

  -- Without the number in the directory, a live entry is overwritten by its removal.
  facts-unlisted :
      (id : ℕ) (table known : Option Rvm)
      → is_listed id current ≡ false
      → live_facts table ≡ live_facts known
      → live_facts (removal_or now current id known table) ≡ none
  facts-unlisted id table none e agree = agree
  facts-unlisted id table (some prev) e agree = ground arith

  -- With it, the row is written, or the facts are those of the known entry.
  facts-listed :
      (id : ℕ) (r : Rvm) (table known : Option Rvm)
      → r.is_deleted ≡ 0
      → is_listed id current ≡ true
      → live_facts table ≡ live_facts known
      → live_facts (
          removal_or now current id known (
            if has_changed known r
            then some (known_row now known r)
            else if is_new known
            then some (as_new now r)
            else table))
        ≡ live_facts (some r)
  facts-listed id r table none live e agree = ground arith
  facts-listed id r table (some prev) live e agree = ground (
    arith,
    string_keys.equals_iff prev.status r.status,
    string_keys.equals_iff prev.location_name r.location_name,
    string_keys.equals_iff prev.address r.address,
  )

  -- Every row of the diff is updated now.
  rows_stamped : All (λ r. r.updated_at ≡ now) rows
  rows_stamped =
      let all_rows = diff_state-rows new_uuid previous current now in
      rw (all_rows.0, all_rows.1, all_rows.2)
        (All-append (λ r. r.updated_at ≡ now) _ _
          (All-map-keep_if (λ r. r.updated_at ≡ now) (λ rvm. is_new (lookup rvm.id previous))
            (as_new now) current (All-intro (λ r e. refl) current))
          (All-append (λ r. r.updated_at ≡ now) _ _
            (All-map-keep_if (λ r. r.updated_at ≡ now)
              (λ rvm. has_changed (lookup rvm.id previous) rvm)
              (λ rvm. known_row now (lookup rvm.id previous) rvm) current
              (All-intro (λ r e. known_row_stamped now (lookup r.id previous) r e) current))
            (All-map-keep_if (λ r. r.updated_at ≡ now) (is_gone current)
              (λ entry. as_gone now entry.1) previous (All-intro (λ r e. refl) previous))))

  -- What the writes of the rows leave of the table is what was written last.
  pub write_all-rows :
      (write : Write) (table : Entries ℕ Rvm)
      → IsReplacing write
      → IsUntil now table
      → ((id : ℕ) → lookup id (write_all write rows table) ≡ find_last id rows (lookup id table))
        × IsUntil now (write_all write rows table)
  write_all-rows write table replaces = lookup-write_all write replaces now rows table rows_stamped

  -- The same for a table that keeps the last row written, whatever their versions.
  pub index_from-rows-Agrees :
      (table : Entries ℕ Rvm)
      → HasDistinctIds current
      → All (λ r. r.is_deleted ≡ 0) current
      → HasDistinctKeys previous
      → IsKeyed previous
      → Agrees table previous
      → Agrees (index_from rows table) (index_from current [])
  unfolding lookup
  index_from-rows-Agrees table distinct fresh keys keyed agree id =
      rw
        (
          lookup-index_from id rows table,
          lookup-index_from id current [],
          find_last-rows distinct fresh keys keyed id (lookup id table),
        )
        (elim (Option-cases (find_last id current none)) [
          | inl e ↦ rw e (
              facts-unlisted id (lookup id table) (lookup id previous)
                (ground (arith, ap is_none e, is_none-find_last id current none)) (agree id))
          | inr (r, e) ↦
              let (same, live) =
                find_last-All (λ r. r.is_deleted ≡ 0) id current none r fresh (λ q. cc) e in
              rw (e, ap (λ j. lookup j previous) same)
                (facts-listed id r (lookup id table) (lookup id previous) live
                  (ground (arith, ap is_none e, is_none-find_last id current none)) (agree id))
        ])

  -- If the table agrees with the known machines, and the rows of the diff are written to it in the
  -- order Added, Updated, Removed, then it agrees with the new directory: it shows the same live
  -- machines with the same status, location name and address. The table keeps for each number the row
  -- with the latest updated_at, as ReplacingMergeTree(updated_at) does. The directory has distinct
  -- machine numbers and no machine marked as deleted; the map of known machines has distinct keys,
  -- with each machine under its own number; and no row of the table is newer than the time of the
  -- diff.
  pub diff_state-Agrees :
      (write : Write) (table : Entries ℕ Rvm)
      → IsReplacing write
      → HasDistinctIds current
      → All (λ r. r.is_deleted ≡ 0) current
      → HasDistinctKeys previous
      → IsKeyed previous
      → IsUntil now table
      → Agrees table previous
      → Agrees (write_all write rows table) (index_from current [])
  diff_state-Agrees write table replaces distinct fresh keys keyed until agree id =
      ap live_facts
        ((write_all-rows write table replaces until).0 id ∙ sym (lookup-index_from id rows table))
      ∙ index_from-rows-Agrees table distinct fresh keys keyed agree id
