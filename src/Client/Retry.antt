-- ===== src/Client/Retry.antt =====
-- Which body doWithRetry of internal/client/bcrs_client.go returns, said without its loop.
use bcrstracking.Prelude.{
  ℕ, zero, suc, ◌+◌, ◌≤◌, ◌<◌, String, Option, none, some, Bool, true, List, nat_keys, string_keys,
  ℤ, ◌≡◌, ◌↔◌, arith, inl, inr, sym, ◌∙◌, ap, subst, Option-cases,
}
use native.Mathlib.Decide.{dec_lt}
use native.Mathlib.Nat.{le_refl}
use bcrstracking.Errors.{Error, wrapped, Result, ok, err}
use bcrstracking.Metrics.{Metrics}
use bcrstracking.Client.Rounds.{
  is_admitted, goes_on, Answers, Verdict-cases, verdict-ok, verdict-retries, Answers-verdict,
  is_transient-verdict,
}
use bcrstracking.Text.{sprintf_d}
use bcrstracking.Client.{
  Attempt, Loop, returns, retries, verdict, record_attempt, sleep, double, attempt_from,
  do_with_retry,
}

module _ (endpoint : String) (require_auth : Bool) (max_retries : ℕ) where
  -- The three ways in which a round of the loop ends.
  pub attempt_from_over :
      (answers : ℕ → Attempt) (left n : ℕ) (st : Loop) (result : Result (List ℕ))
      → verdict require_auth (answers n) ≡ returns result
      → attempt_from endpoint require_auth max_retries answers left n st
        ≡ (result, record_attempt endpoint require_auth (answers n) st)
  unfolding attempt_from
  attempt_from_over answers zero n st result over = rw (over, attempt_from)
  attempt_from_over answers (suc left) n st result over = rw (over, attempt_from)

  pub attempt_from_again :
      (answers : ℕ → Attempt) (left n : ℕ) (st : Loop) (e : Error)
      → verdict require_auth (answers n) ≡ retries e
      → (answers n).interrupted ≡ none
      → attempt_from endpoint require_auth max_retries answers (suc left) n st
        ≡ attempt_from endpoint require_auth max_retries answers left
            (suc n)
            (double (sleep (answers n) (record_attempt endpoint require_auth (answers n) st)))
  unfolding attempt_from
  attempt_from_again answers left n st e again slept = simp (again, slept, attempt_from)

  pub attempt_from_exhausted :
      (answers : ℕ → Attempt) (n : ℕ) (st : Loop) (e : Error)
      → verdict require_auth (answers n) ≡ retries e
      → attempt_from endpoint require_auth max_retries answers 0 n st ≡ (
        err (wrapped (sprintf_d "request failed after " max_retries " retries") e),
        record_attempt endpoint require_auth (answers n) st,
      )
  unfolding attempt_from
  attempt_from_exhausted answers n st e again = rw (again, attempt_from)

  pub attempt_from_stopped :
      (answers : ℕ → Attempt) (left n : ℕ) (st : Loop) (e stopped : Error)
      → verdict require_auth (answers n) ≡ retries e
      → (answers n).interrupted ≡ some stopped
      → attempt_from endpoint require_auth max_retries answers (suc left) n st
        ≡ (err stopped, sleep (answers n) (record_attempt endpoint require_auth (answers n) st))
  unfolding attempt_from
  attempt_from_stopped answers left n st e stopped again ended = simp (again, ended, attempt_from)

  abbrev result_from : (ℕ → Attempt) → ℕ → ℕ → Loop → Result (List ℕ)
  result_from answers left n st =
      (attempt_from endpoint require_auth max_retries answers left n st).0

  -- Between the attempts `n` and `n + left`, one is answered with the body, and all before it go on.
  abbrev Delivers : (ℕ → Attempt) → ℕ → ℕ → List ℕ → Type 0
  Delivers answers left n body =
      (k : ℕ) × (n ≤ k)
      × (k ≤ n + left)
      × ((m : ℕ) → n ≤ m → m < k → goes_on require_auth (answers m) ≡ true)
      × (is_admitted require_auth (answers k) ≡ true)
      × Answers (answers k).reply body

  Delivers-later :
      (answers : ℕ → Attempt) (left n : ℕ) (body : List ℕ)
      → goes_on require_auth (answers n) ≡ true
      → Delivers answers left (suc n) body
      → Delivers answers (suc left) n body
  Delivers-later answers left n body first (k, low, high, before, admitted, served) = (
    k,
    omega arith,
    omega arith,
    λ m from below. elim (dec_lt n m) [
      | yes later ↦ before m later below
      | no here ↦ subst (λ i. goes_on require_auth (answers i) ≡ true) (omega arith) first
    ],
    admitted,
    served,
  )

  Delivers-now :
      (answers : ℕ → Attempt) (left n : ℕ) (body : List ℕ)
      → verdict require_auth (answers n) ≡ returns (ok body)
      → Delivers answers left n body
  Delivers-now answers left n body over =
      let (admitted, served) = verdict-ok require_auth (answers n) body over in
      (n, le_refl n, omega arith, λ m low high. absurd (omega arith), admitted, served)

  Delivers-attempt_from :
      (answers : ℕ → Attempt) (left n : ℕ) (st : Loop) (body : List ℕ)
      → result_from answers left n st ≡ ok body
      → Delivers answers left n body
  unfolding attempt_from
  Delivers-attempt_from answers zero n st body e =
      elim (Verdict-cases (verdict require_auth (answers n))) [
        | inr (why, again) ↦ absurd (ground arith)
        | inl (result, over) ↦ Delivers-now answers zero n body (ground arith)
      ]
  Delivers-attempt_from answers (suc left) n st body e =
      elim (Verdict-cases (verdict require_auth (answers n))) [
        | inl (result, over) ↦ Delivers-now answers (suc left) n body (ground arith)
        | inr (why, again) ↦ elim (Option-cases (answers n).interrupted) [
          | inr (stopped, ended) ↦ absurd (ground arith)
          | inl slept ↦
              Delivers-later answers left n body
                (ground (arith, verdict-retries require_auth (answers n) why again))
                (Delivers-attempt_from answers left (suc n) _ body
                  (sym (ap (λ r. r.0) (attempt_from_again answers left n st why again slept)) ∙ e))
        ]
      ]

  attempt_from_now :
      (answers : ℕ → Attempt) (left n : ℕ) (st : Loop) (body : List ℕ)
      → verdict require_auth (answers n) ≡ returns (ok body)
      → result_from answers left n st ≡ ok body
  attempt_from_now answers left n st body over =
      ap (λ r. r.0) (attempt_from_over answers left n st (ok body) over)

  attempt_from-Delivers :
      (answers : ℕ → Attempt) (left n : ℕ) (st : Loop) (body : List ℕ)
      → Delivers answers left n body
      → result_from answers left n st ≡ ok body
  unfolding attempt_from
  attempt_from-Delivers answers zero n st body (k, low, high, before, admitted, served) =
      attempt_from_now answers zero n st body (
        subst (λ i. verdict require_auth (answers i) ≡ returns (ok body)) (omega arith)
          (Answers-verdict require_auth (answers k) body admitted served))
  attempt_from-Delivers answers (suc left) n st body (k, low, high, before, admitted, served) =
      elim (dec_lt n k) [
        | no here ↦ attempt_from_now answers (suc left) n st body (
            subst (λ i. verdict require_auth (answers i) ≡ returns (ok body)) (omega arith)
              (Answers-verdict require_auth (answers k) body admitted served))
        | yes later ↦
            let first = before n (le_refl n) later in
            let (why, again) =
              is_transient-verdict require_auth (answers n) (ground arith) (ground arith) in
            let slept : (answers n).interrupted ≡ none = ground arith in
            let rest =
              attempt_from-Delivers answers left (suc n)
                (double (sleep (answers n) (record_attempt endpoint require_auth (answers n) st)))
                body (k, later, omega arith, λ m from. before m (omega arith), admitted, served) in
            ap (λ r. r.0) (attempt_from_again answers left n st why again slept) ∙ rest
      ]

  -- doWithRetry returns a body exactly when one of its attempts, at most max_retries + 1, is
  -- answered with a status from 200 to 299 and that body, of at most 10 MB, and every attempt before
  -- it failed at the transport or with status 403, 429 or 500 and above, and slept undisturbed. All
  -- of these attempts came to their request: with a token that is not empty, if one is required.
  pub do_with_retry_iff :
      (initial_backoff : ℤ) (answers : ℕ → Attempt) (metrics : Option Metrics) (body : List ℕ)
      → ((do_with_retry endpoint require_auth max_retries initial_backoff answers metrics).0
          ≡ ok body)
        ↔ ((k : ℕ) × (k ≤ max_retries)
            × ((m : ℕ) → m < k → goes_on require_auth (answers m) ≡ true)
            × (is_admitted require_auth (answers k) ≡ true)
            × Answers (answers k).reply body)
  unfolding do_with_retry
  do_with_retry_iff initial_backoff answers metrics body = (
    λ e.
        let (k, low, high, before, admitted, served) =
          Delivers-attempt_from answers max_retries 0 _ body e in
        (k, omega arith, λ m below. before m (omega arith) below, admitted, served),
    λ h.
        let (k, high, before, admitted, served) = h in
        attempt_from-Delivers answers max_retries 0 _ body
          (k, omega arith, omega arith, λ m low below. before m below, admitted, served),
  )
