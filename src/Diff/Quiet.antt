-- ===== src/Diff/Quiet.antt =====
-- When DiffState reports nothing.
use bcrstracking.Prelude.{
  is_none, ℕ, nat_keys, string_keys, ◌≡◌, ◌↔◌, refl, sym, ap, ◌∙◌, Option, none, some, false, List,
  [], ◌∷◌, ◌++◌, map, not, subst, arith, All, All-mono, All-both, keep_if-nil, length, ◌+◌,
}
use bcrstracking.Prelude.GoMap.{Entries, lookup, HasDistinctKeys, entries-lookup}
use bcrstracking.Model.{Time, Uuid, Rvm}
use bcrstracking.Model.Index.{
  is_listed, find_last, index_from, lookup-index_from, is_none-find_last, HasDistinctIds, IsKeyed,
  find_last_self,
}
use bcrstracking.Diff.Spec.{is_new, has_changed, is_gone, additions, revisions, removals}
use bcrstracking.Diff.Rows.{diff_state-rows}
use bcrstracking.Diff.Events.{diff_state-events}
use bcrstracking.Diff.Replica.{live_facts, Agrees, index_from-rows-Agrees}
use bcrstracking.Diff.{diff_state}

nil_of_length {ℓ} : {A : Type ℓ} (xs : List A) → length xs ≡ 0 → xs ≡ []
nil_of_length [] h = refl
nil_of_length (x ∷ xs) h = absurd (omega arith)

no_rows {ℓ} :
    {A : Type ℓ} (xs ys zs : List A) → length xs + length ys + length zs ≡ 0 → xs ++ (ys ++ zs) ≡ []
no_rows [] [] [] h = refl
no_rows [] [] (z ∷ zs) h = absurd (omega arith)
no_rows [] (y ∷ ys) zs h = absurd (omega arith)
no_rows (x ∷ xs) ys zs h = absurd (omega arith)

-- A machine whose live facts are known is neither added nor updated.
settled :
    (known : Option Rvm) (r : Rvm)
    → r.is_deleted ≡ 0
    → live_facts known ≡ live_facts (some r)
    → (is_new known ≡ false) × (has_changed known r ≡ false)
settled none r live e = ground arith
settled (some prev) r live e = ground (
  arith,
  string_keys.equals_iff prev.status r.status,
  string_keys.equals_iff prev.location_name r.location_name,
  string_keys.equals_iff prev.address r.address,
)

-- An entry whose key shows the same facts in the directory is not removed.
kept :
    (current : List Rvm) (id : ℕ) (prev : Rvm) (found : Option Rvm)
    → is_none found ≡ not (is_listed id current)
    → live_facts (some prev) ≡ live_facts found
    → is_gone current (id, prev) ≡ false
kept current id prev none h e = ground arith
kept current id prev (some r) h e = ground arith

module _ (new_uuid : ℕ → Uuid) (previous : Entries ℕ Rvm) (current : List Rvm) (now : Time)
    (distinct : HasDistinctIds current) (fresh : All (λ r. r.is_deleted ≡ 0) current)
    (keys : HasDistinctKeys previous) (keyed : IsKeyed previous) where
  quiet-rows :
      Agrees previous (index_from current [])
      → (additions previous now current ≡ [])
        × (revisions previous now current ≡ [])
        × (removals previous now current ≡ [])
  unfolding lookup
  quiet-rows agree = (
    ap (map _) (keep_if-nil _ current (All-mono (λ r h. h.0) current all_settled)),
    ap (map _) (keep_if-nil _ current (All-mono (λ r h. h.1) current all_settled)),
    ap (map _) (keep_if-nil _ previous (All-mono stays previous (entries-lookup previous keys))),
  )
    where
      all_settled :
          All
            (λ r.
              (is_new (lookup r.id previous) ≡ false)
              × (has_changed (lookup r.id previous) r ≡ false))
            current
      all_settled =
          All-mono
            (λ r h.
              settled (lookup r.id previous) r h.0
                (agree r.id ∙ ap live_facts (lookup-index_from r.id current [] ∙ h.1 none)))
            current (All-both _ _ current fresh (find_last_self current distinct))

      stays :
          (entry : ℕ × Rvm) → lookup entry.0 previous ≡ some entry.1 → is_gone current entry ≡ false
      stays entry e =
          kept current entry.0 entry.1 (find_last entry.0 current none)
            (is_none-find_last entry.0 current none)
            (ap live_facts (sym e)
              ∙ agree entry.0
              ∙ ap live_facts (lookup-index_from entry.0 current []))

  -- DiffState reports no event exactly when the known machines and the directory show the same live
  -- machines with the same status, location name and address. The directory has distinct numbers and
  -- no machine marked as deleted; the map has distinct keys, each machine under its own number.
  pub diff_state_quiet_iff :
      ((diff_state new_uuid previous current now).events ≡ [])
      ↔ Agrees previous (index_from current [])
  unfolding index_from
  diff_state_quiet_iff =
      let rows = diff_state-rows new_uuid previous current now in
      let count = (diff_state-events new_uuid previous current now).0 in
      (
        λ none_reported.
            let empty = no_rows _ _ _ (sym count ∙ ap length none_reported) in
            subst (λ rs. Agrees (index_from rs previous) (index_from current [])) empty
              (index_from-rows-Agrees new_uuid previous current now previous distinct fresh keys
                keyed (λ id. refl)),
        λ agree.
            let quiet = quiet-rows agree in
            nil_of_length _ (
              count
              ∙ omega (
                arith,
                ap length (rows.0 ∙ quiet.0),
                ap length (rows.1 ∙ quiet.1),
                ap length (rows.2 ∙ quiet.2),
              )),
      )
