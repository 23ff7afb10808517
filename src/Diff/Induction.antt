-- ===== src/Diff/Induction.antt =====
-- A property of the result holds after DiffState if it holds of the empty result and each of the four
-- changes keeps it. Each case says what the code has tested when it makes the change.
use bcrstracking.Prelude.{
  is_none, ℕ, nat_keys, string_keys, ◌≡◌, ◌≢◌, sym, ap, Bool-elim, none, some, true, false, List,
  [], ◌∷◌, ◌==◌, ◌||◌, not, if◌then◌else◌, arith, Bool-cases, Option-cases, inl, inr, All,
}
use bcrstracking.Prelude.GoMap.{Entries, lookup, insert}
use bcrstracking.Model.{Time, Uuid, Rvm}
use bcrstracking.Model.Index.{is_listed, index_from, lookup-index_from, is_none-find_last}
use bcrstracking.Diff.Spec.{is_new}
use bcrstracking.Diff.Rows.{map-scan_current}
use bcrstracking.Diff.{
  DiffResult, no_change, add_machine, change_status, change_metadata, compare_machine, visit_known,
  scan_current, remove_machine, visit_previous, scan_previous, diff_state,
}

module _ (new_uuid : ℕ → Uuid) (previous : Entries ℕ Rvm) (current : List Rvm) (now : Time)
    (P : DiffResult → Type 0) (Q : ℕ × Rvm → Type 0)
    (add : (result : DiffResult) (rvm : Rvm)
      → is_new (lookup rvm.id previous) ≡ true
      → P result
      → P (add_machine new_uuid now result rvm))
    (status : (result : DiffResult) (prev rvm : Rvm)
      → lookup rvm.id previous ≡ some prev
      → prev.is_deleted ≢ 1
      → rvm.status ≢ prev.status
      → P result
      → P (change_status new_uuid now result prev rvm))
    (metadata : (result : DiffResult) (prev rvm : Rvm)
      → lookup rvm.id previous ≡ some prev
      → prev.is_deleted ≢ 1
      → rvm.status ≡ prev.status
      → P result
      → P (change_metadata new_uuid now result prev rvm))
    (remove : (result : DiffResult) (id : ℕ) (prev : Rvm)
      → Q (id, prev)
      → prev.is_deleted ≢ 1
      → is_listed id current ≡ false
      → P result
      → P (remove_machine new_uuid now result prev)) where
  compare_machine_cases :
      (result : DiffResult) (prev rvm : Rvm)
      → lookup rvm.id previous ≡ some prev
      → prev.is_deleted ≢ 1
      → P result
      → P (compare_machine new_uuid now result prev rvm)
  unfolding compare_machine
  compare_machine_cases result prev rvm known live p =
      elim (Bool-cases (prev.status == rvm.status)) [
        | inr e ↦ rw e (
            status result prev rvm known live
              (λ q. cc (e, (string_keys.equals_iff prev.status rvm.status).1 (sym q))) p)
        | inl e ↦ rw e (
            Bool-elim
              (not (prev.location_name == rvm.location_name) || not (prev.address == rvm.address))
              (λ b. P (if b then change_metadata new_uuid now result prev rvm else result))
              (metadata result prev rvm known live
                (sym ((string_keys.equals_iff prev.status rvm.status).0 e)) p)
              p)
      ]

  visit_known_cases :
      (result : DiffResult) (rvm : Rvm)
      → P result
      → P (visit_known new_uuid now result rvm (lookup rvm.id previous))
  unfolding visit_known
  visit_known_cases result rvm p = elim (Option-cases (lookup rvm.id previous)) [
    | inl e ↦ rw e (add result rvm (rw e) p)
    | inr (prev, e) ↦ rw e (elim (Bool-cases (prev.is_deleted == 1)) [
      | inl gone ↦ rw gone (add result rvm (rw e gone) p)
      | inr live ↦ rw live (compare_machine_cases result prev rvm e (ground arith) p)
    ])
  ]

  scan_current_cases :
      (rvms : List Rvm) (result : DiffResult) (m : Entries ℕ Rvm)
      → P result
      → P (scan_current new_uuid previous now rvms result m).0
  unfolding scan_current
  scan_current_cases [] result m p = p
  scan_current_cases (rvm ∷ rest) result m p =
      scan_current_cases rest _ (insert rvm.id rvm m) (visit_known_cases result rvm p)

  listed : (id : ℕ) → lookup id (index_from current []) ≡ none → is_listed id current ≡ false
  unfolding lookup
  listed id e = ground (
    arith,
    ap is_none e,
    ap is_none (lookup-index_from id current []),
    is_none-find_last id current none,
  )

  visit_previous_cases :
      (result : DiffResult) (id : ℕ) (prev : Rvm)
      → Q (id, prev)
      → P result
      → P (visit_previous new_uuid (index_from current []) now result id prev)
  unfolding visit_previous
  visit_previous_cases result id prev q p = elim (Bool-cases (prev.is_deleted == 1)) [
    | inl gone ↦ rw gone p
    | inr live ↦ rw live (elim (Option-cases (lookup id (index_from current []))) [
      | inl e ↦ rw e (remove result id prev q (ground arith) (listed id e) p)
      | inr (rvm, e) ↦ rw e p
    ])
  ]

  scan_previous_cases :
      (entries : Entries ℕ Rvm) (result : DiffResult)
      → All Q entries
      → P result
      → P (scan_previous new_uuid (index_from current []) now entries result)
  unfolding scan_previous
  scan_previous_cases [] result q p = p
  scan_previous_cases ((id, prev) ∷ rest) result q p =
      scan_previous_cases rest _ q.1 (visit_previous_cases result id prev q.0 p)

  pub diff_state_cases : All Q previous → P no_change → P (diff_state new_uuid previous current now)
  unfolding diff_state
  diff_state_cases q start =
      rw (map-scan_current new_uuid previous now current no_change [])
        (scan_previous_cases previous _ q (scan_current_cases current no_change [] start))
