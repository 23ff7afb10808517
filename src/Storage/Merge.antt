-- ===== src/Storage/Merge.antt =====
-- The table rvm_current as the SchemaDDL of internal/storage declares it, with the engine
-- ReplacingMergeTree(updated_at). The engine is ClickHouse's, so the write of a row is an argument, and
-- IsReplacing states its documented behaviour, as a query with FINAL sees it.
use bcrstracking.Prelude.{
  ℕ, ◌/◌, ◌≤◌, ◌≡◌, refl, nat_keys, Option, none, some, List, [], ◌∷◌, ◌==◌, ◌∙◌, ap, sym, ltb,
  if◌then◌else◌, arith, All, Bool-cases, inl, inr,
}
use bcrstracking.Prelude.GoMap.{Entries, lookup}
use bcrstracking.Model.{Time, Rvm}
use bcrstracking.Model.Index.{find_last}

-- The write of one row.
abbrev pub Write : Type 0
Write = Rvm → Entries ℕ Rvm → Entries ℕ Rvm

-- The value of a DateTime64(3) column, in milliseconds.
abbrev pub millis : Time → ℕ
millis t = t / 1000000

-- Of two rows with one number the one with the later version stays, and of two with the same version
-- the one that is written last.
abbrev pub replaced : Rvm → Option Rvm → Option Rvm
replaced rvm none = some rvm
replaced rvm (some old) =
    if ltb (millis rvm.updated_at) (millis old.updated_at) then some old else some rvm

abbrev pub IsReplacing : Write → Type 0
IsReplacing write =
    (rvm : Rvm) (table : Entries ℕ Rvm) (id : ℕ)
    → lookup id (write rvm table)
      ≡ (if rvm.id == id then replaced rvm (lookup id table) else lookup id table)

-- No row of the table is newer than the time.
abbrev pub IsUntil : Time → Entries ℕ Rvm → Type 0
IsUntil now table = (id : ℕ) (old : Rvm) → lookup id table ≡ some old → old.updated_at ≤ now

pub IsUntil-entries :
    (now : Time) (table : Entries ℕ Rvm)
    → All (λ entry. entry.1.updated_at ≤ now) table
    → IsUntil now table
unfolding lookup
IsUntil-entries now [] h id old e = absurd (ground arith)
IsUntil-entries now ((k, r) ∷ rest) h id old e = elim (Bool-cases (k == id)) [
  | inl same ↦ ground (arith, h.0)
  | inr other ↦ IsUntil-entries now rest h.1 id old (ground arith)
]

pub IsUntil-mono :
    (last now : Time) (table : Entries ℕ Rvm) → last ≤ now → IsUntil last table → IsUntil now table
IsUntil-mono last now table le h id old e = omega (arith, h id old e)

module _ (write : Write) where
  pub write_all : List Rvm → Entries ℕ Rvm → Entries ℕ Rvm
  write_all [] table = table
  write_all (rvm ∷ rest) table = write_all rest (write rvm table)

  module _ (replaces : IsReplacing write) where
    -- A row that is stamped with a time that the table does not exceed replaces what it has.
    replaced_stamped :
        (now : Time) (rvm : Rvm) (known : Option Rvm)
        → rvm.updated_at ≡ now
        → ((old : Rvm) → known ≡ some old → old.updated_at ≤ now)
        → replaced rvm known ≡ some rvm
    replaced_stamped now rvm none stamped h = refl
    replaced_stamped now rvm (some old) stamped h = ground (arith, h old refl)

    lookup-write :
        (now : Time) (rvm : Rvm) (table : Entries ℕ Rvm) (id : ℕ)
        → rvm.updated_at ≡ now
        → IsUntil now table
        → lookup id (write rvm table) ≡ (if rvm.id == id then some rvm else lookup id table)
    lookup-write now rvm table id stamped h =
        replaces rvm table id
        ∙ ap (λ o. if rvm.id == id then o else lookup id table)
            (replaced_stamped now rvm (lookup id table) stamped (h id))

    IsUntil-write :
        (now : Time) (rvm : Rvm) (table : Entries ℕ Rvm)
        → rvm.updated_at ≡ now
        → IsUntil now table
        → IsUntil now (write rvm table)
    IsUntil-write now rvm table stamped h id old e =
        let found = sym (lookup-write now rvm table id stamped h) ∙ e in
        elim (Bool-cases (rvm.id == id)) [
          | inl same ↦ ground arith
          | inr other ↦ h id old (ground arith)
        ]

    -- Rows that are stamped so are found in the table as they were written last.
    pub lookup-write_all :
        (now : Time) (rows : List Rvm) (table : Entries ℕ Rvm)
        → All (λ r. r.updated_at ≡ now) rows
        → IsUntil now table
        → ((id : ℕ) → lookup id (write_all rows table) ≡ find_last id rows (lookup id table))
          × IsUntil now (write_all rows table)
    unfolding write_all find_last
    lookup-write_all now [] table stamped h = (λ id. refl, h)
    lookup-write_all now (rvm ∷ rest) table stamped h =
        let (found, until) =
          lookup-write_all now rest (write rvm table) stamped.1
            (IsUntil-write now rvm table stamped.0 h) in
        (λ id. found id ∙ ap (find_last id rest) (lookup-write now rvm table id stamped.0 h), until)
