-- ===== src/Metrics/Change.antt =====
-- What one call of a method of internal/metrics/metrics.go does to one series of one vector.
use bcrstracking.Prelude.{
  ℕ, ◌≤◌, ◌+◌, string_keys, list_keys, Option, none, some, Bool, true, false, List, [], ◌∷◌, ◌++◌,
  ◌==◌, ◌≡◌, ◌⊎◌, inl, inr, refl, sym, ap, subst, list_beq_iff, ◌∙◌, arith, length, length-append,
  Bool-cases,
}
use bcrstracking.Prelude.GoMap.{lookup, get_or, lookup-insert, value_or}
use bcrstracking.Model.{Duration}
use bcrstracking.Text.{decimal}
use bcrstracking.Metrics.{
  Metrics, Labels, Vec, HistogramVec, add, set, observe, record_http_request,
  record_rate_limit_backoff, record_auth_error, set_rvm_total, reset_rvm_total, record_poll_cycle,
  record_containers_ingested, set_bin_current_count, reset_bin_current_counts,
  record_click_house_insert, set_click_house_buffer_depth,
}
use bcrstracking.Metrics.Vectors.{
  Vector, observations, reading, describe, arity, may_fall, http_requests_total,
  http_request_duration, rate_limit_backoffs_total, auth_errors_total, rvm_total,
  poll_cycle_duration, poll_cycle_last_duration, poll_cycle_total, poll_cycle_last_success,
  click_house_rows_inserted, click_house_insert_duration, click_house_errors_total,
  click_house_buffer_depth, containers_ingested_total, bin_current_count,
}
use bcrstracking.Metrics.Calls.{
  Call, perform, http_request, rate_limit_backoff, auth_error, rvm_totals, rvm_totals_reset,
  poll_cycle, containers_ingested, bin_count, bin_counts_reset, click_house_insert, buffer_depth,
}

-- The series is as it was; or it is deleted, if it may fall; or it was moved under label values as
-- many as its vector has names, and no lower unless it may fall.
abbrev pub Change : ℕ → Bool → Labels → Option ℕ → Option ℕ → Type 0
Change k falls labels old new =
    (new ≡ old)
    ⊎ (((falls ≡ true) × (new ≡ none))
        ⊎ ((length labels ≡ k)
            × (n : ℕ) × (new ≡ some n)
            × ((falls ≡ true) ⊎ (value_or 0 old ≤ n))))

observed :
    (old : Option (List Duration)) (d : Duration)
    → value_or 0 (observations old) ≤ length (value_or [] old ++ d ∷ [])
observed none d = ground arith
observed (some ds) d = ground (arith, length-append ds (d ∷ []))

eq-labels : (at labels : Labels) → (at == labels) ≡ true → at ≡ labels
eq-labels at labels = (list_beq_iff at labels).0

module _ (k : ℕ) (at labels : Labels) (fits : length at ≡ k) where
  add-Change :
      (falls : Bool) (n : ℕ) (vec : Vec)
      → Change k falls labels (lookup labels vec) (lookup labels (add at n vec))
  unfolding add get_or
  add-Change falls n vec = elim (Bool-cases (at == labels)) [
    | inr other ↦ inl (ground (arith, lookup-insert at labels (get_or 0 at vec + n) vec))
    | inl same ↦
        let here : at ≡ labels = eq-labels at labels same in
        inr (
          inr (
            sym (ap length here) ∙ fits,
            get_or 0 at vec + n,
            ground (arith, lookup-insert at labels (get_or 0 at vec + n) vec),
            inr (subst (λ l. get_or 0 l vec ≤ get_or 0 at vec + n) here (omega arith)),
          ))
  ]

  set-Change :
      (n : ℕ) (vec : Vec) → Change k true labels (lookup labels vec) (lookup labels (set at n vec))
  unfolding set
  set-Change n vec = elim (Bool-cases (at == labels)) [
    | inr other ↦ inl (ground (arith, lookup-insert at labels n vec))
    | inl same ↦ inr (
        inr (
          sym (ap length (eq-labels at labels same)) ∙ fits,
          n,
          ground (arith, lookup-insert at labels n vec),
          inl refl,
        ))
  ]

  observe-Change :
      (falls : Bool) (d : Duration) (vec : HistogramVec)
      → Change k falls labels
          (observations (lookup labels vec))
          (observations (lookup labels (observe at d vec)))
  unfolding observe get_or
  observe-Change falls d vec =
      let made = get_or [] at vec ++ d ∷ [] in
      elim (Bool-cases (at == labels)) [
        | inr other ↦ inl (ground (arith, lookup-insert at labels made vec))
        | inl same ↦
            let here : at ≡ labels = eq-labels at labels same in
            inr (
              inr (
                sym (ap length here) ∙ fits,
                length made,
                ground (arith, lookup-insert at labels made vec),
                inr (
                    subst (λ l. value_or 0 (observations (lookup l vec)) ≤ length made) here
                      (observed (lookup at vec) d)),
              ))
      ]

-- The change of one series by one call.
abbrev pub Moves : Vector → Labels → Metrics → Metrics → Type 0
Moves v labels m m' =
    Change (arity v) (may_fall (describe v).kind) labels (reading v labels m) (reading v labels m')

pub perform-Moves :
    (c : Call) (v : Vector) (labels : Labels) (m : Metrics) → Moves v labels m (perform c m)
unfolding perform reading describe record_http_request record_rate_limit_backoff record_auth_error
    set_rvm_total reset_rvm_total record_poll_cycle record_containers_ingested set_bin_current_count
    reset_bin_current_counts record_click_house_insert set_click_house_buffer_depth lookup
perform-Moves (http_request e c d) http_requests_total labels m =
    add-Change _ (e ∷ decimal c ∷ []) labels refl false 1 m.http_requests_total
perform-Moves (http_request e c d) http_request_duration labels m =
    observe-Change _ (e ∷ []) labels refl false d m.http_request_duration
perform-Moves (http_request e c d) _ labels m = inl refl
perform-Moves (rate_limit_backoff e) rate_limit_backoffs_total labels m =
    add-Change _ (e ∷ []) labels refl false 1 m.rate_limit_backoffs_total
perform-Moves (rate_limit_backoff e) _ labels m = inl refl
perform-Moves (auth_error e) auth_errors_total labels m =
    add-Change _ (e ∷ []) labels refl false 1 m.auth_errors_total
perform-Moves (auth_error e) _ labels m = inl refl
perform-Moves (rvm_totals s p c n) rvm_total labels m =
    set-Change _ (s ∷ p ∷ c ∷ []) labels refl n m.rvm_total
perform-Moves (rvm_totals s p c n) _ labels m = inl refl
perform-Moves (rvm_totals_reset) rvm_total labels m = inr (inl (refl, refl))
perform-Moves (rvm_totals_reset) _ labels m = inl refl
perform-Moves (containers_ingested c s n) containers_ingested_total labels m =
    add-Change _ (c ∷ s ∷ []) labels refl false n m.containers_ingested_total
perform-Moves (containers_ingested c s n) _ labels m = inl refl
perform-Moves (bin_count c s n) bin_current_count labels m =
    set-Change _ (c ∷ s ∷ []) labels refl n m.bin_current_count
perform-Moves (bin_count c s n) _ labels m = inl refl
perform-Moves (bin_counts_reset) bin_current_count labels m = inr (inl (refl, refl))
perform-Moves (bin_counts_reset) _ labels m = inl refl
perform-Moves (buffer_depth t n) click_house_buffer_depth labels m =
    set-Change _ (t ∷ []) labels refl n m.click_house_buffer_depth
perform-Moves (buffer_depth t n) _ labels m = inl refl
perform-Moves (click_house_insert t n d true) click_house_errors_total labels m =
    add-Change _ (t ∷ []) labels refl false 1 m.click_house_errors_total
perform-Moves (click_house_insert t n d true) _ labels m = inl refl
perform-Moves (click_house_insert t n d false) click_house_rows_inserted labels m =
    add-Change _ (t ∷ []) labels refl false n m.click_house_rows_inserted
perform-Moves (click_house_insert t n d false) click_house_insert_duration labels m =
    observe-Change _ (t ∷ []) labels refl false d m.click_house_insert_duration
perform-Moves (click_house_insert t n d false) _ labels m = inl refl
perform-Moves (poll_cycle t d true n) poll_cycle_total labels m =
    add-Change _ (t ∷ "error" ∷ []) labels refl false 1 m.poll_cycle_total
perform-Moves (poll_cycle t d true n) poll_cycle_duration labels m =
    observe-Change _ (t ∷ []) labels refl false d m.poll_cycle_duration
perform-Moves (poll_cycle t d true n) poll_cycle_last_duration labels m =
    set-Change _ (t ∷ []) labels refl d m.poll_cycle_last_duration
perform-Moves (poll_cycle t d true n) _ labels m = inl refl
perform-Moves (poll_cycle t d false n) poll_cycle_total labels m =
    add-Change _ (t ∷ "success" ∷ []) labels refl false 1 m.poll_cycle_total
perform-Moves (poll_cycle t d false n) poll_cycle_duration labels m =
    observe-Change _ (t ∷ []) labels refl false d m.poll_cycle_duration
perform-Moves (poll_cycle t d false n) poll_cycle_last_duration labels m =
    set-Change _ (t ∷ []) labels refl d m.poll_cycle_last_duration
perform-Moves (poll_cycle t d false n) poll_cycle_last_success labels m =
    set-Change _ (t ∷ []) labels refl n m.poll_cycle_last_success
perform-Moves (poll_cycle t d false n) _ labels m = inl refl
