-- ===== src/Diff/Rows.antt =====
-- The rows of a DiffResult: which machines are added, updated and removed.
use bcrstracking.Prelude.{
  ℕ, nat_keys, string_keys, ◌≡◌, refl, sym, ap, ◌∙◌, Option, none, some, List, [], ◌∷◌, ◌++◌,
  if◌then◌else◌, arith, append-nil, append_assoc,
}
use bcrstracking.Prelude.GoMap.{Entries, lookup, insert}
use bcrstracking.Model.{Time, Uuid, Rvm}
use bcrstracking.Model.Index.{index_from, lookup-index_from, is_none-find_last}
use bcrstracking.Diff.Spec.{
  is_new, has_changed, is_gone, known_row, as_new, as_gone, additions, revisions, removals,
}
use bcrstracking.Diff.{
  DiffResult, no_change, stamp_added, stamp_known, stamp_removed, visit_known, scan_current,
  visit_previous, scan_previous, diff_state,
}

module _ (new_uuid : ℕ → Uuid) where
  -- One machine of the new directory.
  added-visit_known :
      (now : Time) (result : DiffResult) (rvm : Rvm) (known : Option Rvm)
      → (visit_known new_uuid now result rvm known).added
        ≡ result.added ++ (if is_new known then as_new now rvm ∷ [] else [])
  unfolding visit_known stamp_added stamp_known
  added-visit_known now result rvm none = refl
  added-visit_known now result rvm (some prev) = ground (arith, append-nil result.added)

  updated-visit_known :
      (now : Time) (result : DiffResult) (rvm : Rvm) (known : Option Rvm)
      → (visit_known new_uuid now result rvm known).updated
        ≡ result.updated ++ (if has_changed known rvm then known_row now known rvm ∷ [] else [])
  unfolding visit_known stamp_added stamp_known
  updated-visit_known now result rvm none = sym (append-nil result.updated)
  updated-visit_known now result rvm (some prev) = ground (arith, append-nil result.updated)

  removed-visit_known :
      (now : Time) (result : DiffResult) (rvm : Rvm) (known : Option Rvm)
      → (visit_known new_uuid now result rvm known).removed ≡ result.removed
  unfolding visit_known stamp_added stamp_known
  removed-visit_known now result rvm none = refl
  removed-visit_known now result rvm (some prev) = ground arith

  module _ (previous : Entries ℕ Rvm) (now : Time) where
    added-scan_current :
        (current : List Rvm) (result : DiffResult) (m : Entries ℕ Rvm)
        → (scan_current new_uuid previous now current result m).0.added
          ≡ result.added ++ additions previous now current
    unfolding scan_current
    added-scan_current [] result m = sym (append-nil result.added)
    added-scan_current (rvm ∷ rest) result m =
        rw
          (
            added-scan_current rest (visit_known new_uuid now result rvm (lookup rvm.id previous))
                (insert rvm.id rvm m),
            added-visit_known now result rvm (lookup rvm.id previous),
            append_assoc,
          )
          (ground arith)

    updated-scan_current :
        (current : List Rvm) (result : DiffResult) (m : Entries ℕ Rvm)
        → (scan_current new_uuid previous now current result m).0.updated
          ≡ result.updated ++ revisions previous now current
    unfolding scan_current
    updated-scan_current [] result m = sym (append-nil result.updated)
    updated-scan_current (rvm ∷ rest) result m =
        rw
          (
            updated-scan_current rest (visit_known new_uuid now result rvm (lookup rvm.id previous))
                (insert rvm.id rvm m),
            updated-visit_known now result rvm (lookup rvm.id previous),
            append_assoc,
          )
          (ground arith)

    removed-scan_current :
        (current : List Rvm) (result : DiffResult) (m : Entries ℕ Rvm)
        → (scan_current new_uuid previous now current result m).0.removed ≡ result.removed
    unfolding scan_current
    removed-scan_current [] result m = refl
    removed-scan_current (rvm ∷ rest) result m =
        removed-scan_current rest (visit_known new_uuid now result rvm (lookup rvm.id previous))
          (insert rvm.id rvm m)
        ∙ removed-visit_known now result rvm (lookup rvm.id previous)

    pub map-scan_current :
        (current : List Rvm) (result : DiffResult) (m : Entries ℕ Rvm)
        → (scan_current new_uuid previous now current result m).1 ≡ index_from current m
    unfolding scan_current index_from
    map-scan_current [] result m = refl
    map-scan_current (rvm ∷ rest) result m =
        map-scan_current rest (visit_known new_uuid now result rvm (lookup rvm.id previous))
          (insert rvm.id rvm m)

  -- One machine known before; it stays if the new directory lists its key.
  added-scan_previous :
      (m : Entries ℕ Rvm) (now : Time) (previous : Entries ℕ Rvm) (result : DiffResult)
      → (scan_previous new_uuid m now previous result).added ≡ result.added
  unfolding scan_previous
  added-scan_previous m now [] result = refl
  added-scan_previous m now ((id, prev) ∷ rest) result =
      added-scan_previous m now rest (visit_previous new_uuid m now result id prev) ∙ ground arith

  updated-scan_previous :
      (m : Entries ℕ Rvm) (now : Time) (previous : Entries ℕ Rvm) (result : DiffResult)
      → (scan_previous new_uuid m now previous result).updated ≡ result.updated
  unfolding scan_previous
  updated-scan_previous m now [] result = refl
  updated-scan_previous m now ((id, prev) ∷ rest) result =
      updated-scan_previous m now rest (visit_previous new_uuid m now result id prev) ∙ ground arith

  removed-visit_previous :
      (current : List Rvm) (now : Time) (result : DiffResult) (id : ℕ) (prev : Rvm)
      → (visit_previous new_uuid (index_from current []) now result id prev).removed
        ≡ result.removed ++ (if is_gone current (id, prev) then as_gone now prev ∷ [] else [])
  unfolding visit_previous lookup stamp_removed
  removed-visit_previous current now result id prev = ground (
    arith,
    append-nil result.removed,
    lookup-index_from id current [],
    is_none-find_last id current none,
  )

  removed-scan_previous :
      (current : List Rvm) (now : Time) (previous : Entries ℕ Rvm) (result : DiffResult)
      → (scan_previous new_uuid (index_from current []) now previous result).removed
        ≡ result.removed ++ removals previous now current
  unfolding scan_previous
  removed-scan_previous current now [] result = sym (append-nil result.removed)
  removed-scan_previous current now ((id, prev) ∷ rest) result =
      rw
        (
          removed-scan_previous current now rest
              (visit_previous new_uuid (index_from current []) now result id prev),
          removed-visit_previous current now result id prev,
          append_assoc,
        )
        (ground arith)

  module _ (previous : Entries ℕ Rvm) (current : List Rvm) (now : Time) where
    -- Added holds the machines with no live entry among those known before, in directory order,
    -- first seen and updated now and not deleted; Updated holds the known live ones whose status, name
    -- or address differs, updated now and not deleted, with the first-seen time of the known entry; and
    -- Removed holds the live entries of the map that the directory does not list, in map order, as they
    -- were but updated now and deleted.
    pub diff_state-rows :
        ((diff_state new_uuid previous current now).added ≡ additions previous now current)
        × ((diff_state new_uuid previous current now).updated ≡ revisions previous now current)
        × ((diff_state new_uuid previous current now).removed ≡ removals previous now current)
    unfolding diff_state
    diff_state-rows = (
      added-scan_previous _ now previous _ ∙ added-scan_current previous now current no_change [],
      updated-scan_previous _ now previous _
          ∙ updated-scan_current previous now current no_change [],
      rw
          (
            map-scan_current previous now current no_change [],
            removed-scan_previous current now previous _,
          )
          (ap (λ rs. rs ++ removals previous now current)
            (removed-scan_current previous now current no_change [])),
    )
