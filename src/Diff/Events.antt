-- ===== src/Diff/Events.antt =====
-- The events of a DiffResult: one for each row, numbered as they are drawn, and true.
use bcrstracking.Prelude.{
  ℕ, suc, ◌+◌, nat_keys, string_keys, ◌≡◌, ◌≢◌, refl, ap, ◌∙◌, Option, none, some, true, false,
  List, [], ◌∷◌, ◌++◌, arith, length, length-append, All, All-snoc, All-both, All-Unit,
}
use bcrstracking.Prelude.GoMap.{Entries, lookup, HasDistinctKeys, entries-lookup}
use bcrstracking.Model.{
  Time, Uuid, Rvm, RvmEvent, EventType, machine_added, machine_removed, status_changed,
  metadata_updated,
}
use bcrstracking.Model.Index.{IsKeyed, is_listed}
use bcrstracking.Diff.Spec.{is_new}
use bcrstracking.Diff.Induction.{diff_state_cases}
use bcrstracking.Diff.{
  DiffResult, add_machine, change_status, change_metadata, remove_machine, diff_state,
}

-- As many events as rows, and the k-th event has the k-th UUID drawn.
abbrev pub IsNumbered : (ℕ → Uuid) → ℕ → List RvmEvent → Type 0
IsNumbered new_uuid k [] = Unit {0}
IsNumbered new_uuid k (event ∷ rest) =
    (event.event_id ≡ new_uuid k) × IsNumbered new_uuid (suc k) rest

IsNumbered-snoc :
    (new_uuid : ℕ → Uuid) (k : ℕ) (events : List RvmEvent) (event : RvmEvent)
    → IsNumbered new_uuid k events
    → event.event_id ≡ new_uuid (k + length events)
    → IsNumbered new_uuid k (events ++ event ∷ [])
IsNumbered-snoc new_uuid k [] event h e = (e ∙ ap new_uuid (omega arith), tt)
IsNumbered-snoc new_uuid k (x ∷ rest) event h e =
    (h.0, IsNumbered-snoc new_uuid (suc k) rest event h.1 (e ∙ ap new_uuid (omega arith)))

record IsBalanced (new_uuid : ℕ → Uuid) (result : DiffResult) : Type 0 where
  numbered : IsNumbered new_uuid 0 result.events
  balanced :
      length result.events ≡ length result.added + length result.updated + length result.removed

module _ (new_uuid : ℕ → Uuid) where
  IsBalanced-snoc :
      (result new : DiffResult) (event : RvmEvent)
      → new.events ≡ result.events ++ event ∷ []
      → event.event_id ≡ new_uuid (length result.events)
      → length new.added + length new.updated + length new.removed
        ≡ suc (length result.added + length result.updated + length result.removed)
      → IsBalanced new_uuid result
      → IsBalanced new_uuid new
  IsBalanced-snoc result new event e id rows b = record {
    numbered = rw e (
        IsNumbered-snoc new_uuid 0 result.events event b.numbered (id ∙ ap new_uuid (omega arith)));
    balanced = rw (e, length-append result.events) (omega (arith, b.balanced));
  }

  diff_state-IsBalanced :
      (previous : Entries ℕ Rvm) (current : List Rvm) (now : Time)
      → IsBalanced new_uuid (diff_state new_uuid previous current now)
  unfolding add_machine change_status change_metadata remove_machine
  diff_state-IsBalanced previous current now =
      diff_state_cases new_uuid previous current now (IsBalanced new_uuid) (λ _. Unit {0})
        (λ r rvm _ b. IsBalanced-snoc r _ _ refl refl (omega (arith, length-append r.added)) b)
        (λ r prev rvm _ _ _ b.
          IsBalanced-snoc r _ _ refl refl (omega (arith, length-append r.updated)) b)
        (λ r prev rvm _ _ _ b.
          IsBalanced-snoc r _ _ refl refl (omega (arith, length-append r.updated)) b)
        (λ r id prev _ _ _ b.
          IsBalanced-snoc r _ _ refl refl (omega (arith, length-append r.removed)) b)
        (All-Unit previous) (record { numbered = tt; balanced = refl })

  -- DiffState produces exactly as many events as rows, and the event at position k carries what the
  -- k-th call of uuid.New returned.
  pub diff_state-events :
      (previous : Entries ℕ Rvm) (current : List Rvm) (now : Time)
      → let result = diff_state new_uuid previous current now in
        (length result.events ≡ length result.added + length result.updated + length result.removed)
        × IsNumbered new_uuid 0 result.events
  diff_state-events previous current now =
      let b = diff_state-IsBalanced previous current now in (b.balanced, b.numbered)

-- What an event of each kind says, against the machine known under its number and the directory.
abbrev pub Tells : EventType → Option Rvm → List Rvm → RvmEvent → Type 0
Tells machine_added known current event = (is_new known ≡ true) × (event.previous_status ≡ "")
Tells status_changed none current event = ⊥
Tells status_changed (some prev) current event =
    (prev.is_deleted ≢ 1)
    × (event.previous_status ≡ prev.status)
    × (event.current_status ≢ prev.status)
Tells metadata_updated none current event = ⊥
Tells metadata_updated (some prev) current event =
    (prev.is_deleted ≢ 1)
    × (event.previous_status ≡ prev.status)
    × (event.current_status ≡ prev.status)
Tells machine_removed none current event = ⊥
Tells machine_removed (some prev) current event =
    (prev.is_deleted ≢ 1)
    × (event.previous_status ≡ prev.status)
    × (event.current_status ≡ "DELETED")
    × (is_listed event.rvm_id current ≡ false)

abbrev pub IsTrue : Entries ℕ Rvm → List Rvm → Time → RvmEvent → Type 0
IsTrue previous current now event =
    Tells event.event_type (lookup event.rvm_id previous) current event × (event.recorded_at ≡ now)

module _ (new_uuid : ℕ → Uuid) (previous : Entries ℕ Rvm) (current : List Rvm) (now : Time) where
  -- Every event that DiffState produces is true of its inputs: an addition names a machine with no
  -- live entry; a status change and a metadata update name a live entry, with its status as the
  -- previous one, and the new status differs from it or is equal to it; a removal names a live entry
  -- that the directory does not list. All are recorded at `now`. The map has distinct keys, and each
  -- machine in it stands under its own number.
  pub diff_state-IsTrue :
      HasDistinctKeys previous
      → IsKeyed previous
      → All (IsTrue previous current now) (diff_state new_uuid previous current now).events
  unfolding add_machine change_status change_metadata remove_machine
  diff_state-IsTrue distinct keyed =
      diff_state_cases new_uuid previous current now
        (λ result. All (IsTrue previous current now) result.events)
        (λ entry. (lookup entry.0 previous ≡ some entry.1) × (entry.1.id ≡ entry.0))
        (λ r rvm new h. All-snoc _ r.events _ h ((new, refl), refl))
        (λ r prev rvm known live differs h.
          All-snoc _ r.events _ h (rw known (live, refl, differs), refl))
        (λ r prev rvm known live same h.
          All-snoc _ r.events _ h (rw known (live, refl, same), refl))
        (λ r id prev entry live unlisted h.
          All-snoc _ r.events _ h (rw (entry.1, entry.0) (live, refl, refl, unlisted), refl))
        (All-both _ _ previous (entries-lookup previous distinct) keyed) tt
