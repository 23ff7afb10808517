-- ===== src/Client/Delays.antt =====
-- The delays that doWithRetry of internal/client/bcrs_client.go asks for between its attempts.
use bcrstracking.Prelude.{
  ℕ, zero, suc, ◌+◌, ◌*◌, ◌%◌, ◌^◌, ◌≤◌, ◌<◌, String, Option, Bool, List, [], ◌∷◌, ◌++◌, ltb, ℤ,
  is_positive, magnitude, length, ◌≡◌, sym, subst, arith, inl, inr, Option-cases, append-nil,
  append_assoc, if◌then◌else◌, ◌∙◌, nat_keys,
}
use bcrstracking.Model.{Duration}
use bcrstracking.Metrics.{Metrics}
use bcrstracking.Client.{
  Attempt, Loop, second, int64_modulus, compute_jitter, verdict, record_attempt, sleep, double,
  attempt_from, do_with_retry,
}
use bcrstracking.Client.Rounds.{Verdict-cases}
use bcrstracking.Client.Retry.{
  attempt_from_over, attempt_from_again, attempt_from_exhausted, attempt_from_stopped,
}

-- The largest jitter: the backoff, and a second at most.
abbrev pub jitter_bound : Duration → Duration
jitter_bound backoff = if ltb second backoff then second else backoff

-- Each delay is the backoff and a jitter, and the backoff doubles.
abbrev pub BacksOff : Duration → List Duration → Type 0
BacksOff backoff [] = Unit {0}
BacksOff backoff (delay ∷ rest) =
    (backoff ≤ delay) × (delay ≤ backoff + jitter_bound backoff) × BacksOff (backoff * 2) rest

-- The backoff, doubled so many times, is in the range of int64.
abbrev IsShort : ℕ → Duration → Type 0
IsShort left backoff = backoff * 2 ^ left < 2 ^ 63

mul-pow : (backoff left : ℕ) → backoff * 2 ^ suc left ≡ backoff * 2 * 2 ^ left
mul-pow backoff left = grind arith

le_mul-pow : (left backoff : ℕ) → backoff ≤ backoff * 2 ^ left
le_mul-pow zero backoff = omega arith
le_mul-pow (suc left) backoff = omega (arith, le_mul-pow left (backoff * 2), mul-pow backoff left)

IsShort-double :
    (left : ℕ) (backoff : Duration)
    → IsShort (suc left) backoff
    → IsShort left (backoff * 2) × (backoff * 2 < 2 ^ 63)
IsShort-double left backoff short =
    let e = mul-pow backoff left in (omega arith, omega (arith, le_mul-pow left (backoff * 2)))

-- rand.Int63n(n) is below n.
abbrev pub IsRandom : (ℕ → ℕ) → Type 0
IsRandom random = (n : ℕ) → 0 < n → random n < n

compute_jitter-le :
    (random : ℕ → ℕ) (backoff : Duration)
    → IsRandom random
    → compute_jitter random backoff ≤ jitter_bound backoff
unfolding compute_jitter
compute_jitter-le random backoff below = ground (arith, below (jitter_bound backoff + 1))

record_attempt_keeps :
    (endpoint : String) (require_auth : Bool) (a : Attempt) (st : Loop)
    → ((record_attempt endpoint require_auth a st).delays ≡ st.delays)
      × ((record_attempt endpoint require_auth a st).backoff ≡ st.backoff)
unfolding record_attempt
record_attempt_keeps endpoint require_auth a st = ground arith

module _ (endpoint : String) (require_auth : Bool) (max_retries : ℕ) (answers : ℕ → Attempt)
    (random : (n : ℕ) → IsRandom (answers n).random) where
  -- A loop that ends has asked for some more delays, each after the backoff of its round.
  abbrev Delayed : Duration → List Duration → ℕ → List Duration → Type 0
  Delayed backoff before left after =
      (more : List Duration) × (after ≡ before ++ more)
      × BacksOff backoff more
      × (length more ≤ left)

  Delayed-none :
      (left n : ℕ) (st : Loop)
      → Delayed st.backoff st.delays left
          (record_attempt endpoint require_auth (answers n) st).delays
  Delayed-none left n st = (
    [],
    (record_attempt_keeps endpoint require_auth (answers n) st).0 ∙ sym (append-nil st.delays),
    tt,
    omega arith,
  )

  -- The delay of one round.
  delay_of : ℕ → Loop → Duration
  delay_of n st = (st.backoff + compute_jitter (answers n).random st.backoff) % int64_modulus

  delay_of_bounds :
      (n : ℕ) (st : Loop)
      → st.backoff * 2 < 2 ^ 63
      → (st.backoff ≤ delay_of n st) × (delay_of n st ≤ st.backoff + jitter_bound st.backoff)
  unfolding delay_of
  delay_of_bounds n st short =
      ground (arith, compute_jitter-le (answers n).random st.backoff (random n))

  sleep_lem :
      (n : ℕ) (st : Loop)
      → (sleep (answers n) (record_attempt endpoint require_auth (answers n) st)).delays
        ≡ st.delays ++ delay_of n st ∷ []
  unfolding sleep delay_of
  sleep_lem n st =
      let (same_delays, same_backoff) = record_attempt_keeps endpoint require_auth (answers n) st in
      rw (same_delays, same_backoff)

  double_lem :
      (n : ℕ) (st : Loop)
      → ((double (sleep (answers n) (record_attempt endpoint require_auth (answers n) st))).delays
          ≡ st.delays ++ delay_of n st ∷ [])
        × ((double
              (sleep (answers n) (record_attempt endpoint require_auth (answers n) st))).backoff
            ≡ st.backoff * 2 % int64_modulus)
  unfolding double sleep delay_of
  double_lem n st =
      let (same_delays, same_backoff) = record_attempt_keeps endpoint require_auth (answers n) st in
      (rw (same_delays, same_backoff), rw same_backoff)

  -- A delay in front of those of the rounds that follow.
  Delayed-cons :
      (left n : ℕ) (st : Loop) (after : List Duration)
      → st.backoff * 2 < 2 ^ 63
      → Delayed (st.backoff * 2) (st.delays ++ delay_of n st ∷ []) left after
      → Delayed st.backoff st.delays (suc left) after
  Delayed-cons left n st after short (more, e, backs_off, fits) =
      let (low, high) = delay_of_bounds n st short in
      (
        delay_of n st ∷ more,
        e ∙ append_assoc st.delays (delay_of n st ∷ []) more,
        (low, high, backs_off),
        omega arith,
      )

  Delayed-attempt_from :
      (left n : ℕ) (st : Loop)
      → IsShort left st.backoff
      → Delayed st.backoff st.delays left
          (attempt_from endpoint require_auth max_retries answers left n st).1.delays
  Delayed-attempt_from zero n st short = elim (Verdict-cases (verdict require_auth (answers n))) [
    | inl (result, over) ↦
        rw (attempt_from_over endpoint require_auth max_retries answers 0 n st result over)
          (Delayed-none 0 n st)
    | inr (e, again) ↦
        rw (attempt_from_exhausted endpoint require_auth max_retries answers n st e again)
          (Delayed-none 0 n st)
  ]
  Delayed-attempt_from (suc left) n st short =
      elim (Verdict-cases (verdict require_auth (answers n))) [
        | inl (result, over) ↦
            rw
              (attempt_from_over endpoint require_auth max_retries answers (suc left) n st result
                over)
              (Delayed-none (suc left) n st)
        | inr (e, again) ↦ elim (Option-cases (answers n).interrupted) [
          | inr (stopped, ended) ↦
              rw
                (attempt_from_stopped endpoint require_auth max_retries answers left n st e stopped
                  again ended)
                (Delayed-cons left n st _ (IsShort-double left st.backoff short).1 (
                  [],
                  sleep_lem n st ∙ sym (append-nil (st.delays ++ delay_of n st ∷ [])),
                  tt,
                  omega arith,
                ))
          | inl slept ↦
              let next =
                double (sleep (answers n) (record_attempt endpoint require_auth (answers n) st)) in
              let (delays, wrapped) = double_lem n st in
              let (shorter, small) = IsShort-double left st.backoff short in
              let backoff : next.backoff ≡ st.backoff * 2 = omega arith in
              let rest =
                Delayed-attempt_from left (suc n) next
                  (subst (IsShort left) (sym backoff) shorter) in
              rw
                (attempt_from_again endpoint require_auth max_retries answers left n st e again
                  slept)
                (Delayed-cons left n st _ (IsShort-double left st.backoff short).1 (
                  subst
                    (λ b.
                      Delayed b (st.delays ++ delay_of n st ∷ []) left
                        (attempt_from endpoint require_auth max_retries answers left (suc n)
                          next).1.delays)
                    backoff
                    (subst
                      (λ d.
                        Delayed next.backoff d left
                          (attempt_from endpoint require_auth max_retries answers left (suc n)
                            next).1.delays)
                      delays rest)))
        ]
      ]

  -- doWithRetry asks for at most max_retries delays. The first lies between the initial backoff, or
  -- 10 ms where that is not positive, and the same with a jitter of at most itself and of at most a
  -- second; each further one so from twice the backoff of the one before. The random numbers are
  -- below their bound, and the first backoff, doubled max_retries times, is in the range of int64.
  pub do_with_retry_delays :
      (initial_backoff : ℤ) (metrics : Option Metrics)
      → (if is_positive initial_backoff then magnitude initial_backoff else 10000000)
          * 2 ^ max_retries
        < 2 ^ 63
      → let delays =
          (do_with_retry endpoint require_auth max_retries initial_backoff answers
            metrics).1.delays in
        BacksOff
          (if is_positive initial_backoff then magnitude initial_backoff else 10000000)
          delays
        × (length delays ≤ max_retries)
  unfolding do_with_retry
  do_with_retry_delays initial_backoff metrics short =
      let (more, e, backs_off, fits) =
        Delayed-attempt_from max_retries 0
          (record {
            backoff = if is_positive initial_backoff then magnitude initial_backoff else 10000000;
            metrics = metrics;
            delays = [];
            invalidated = [];
          })
          short in
      (rw e backs_off, rw e fits)
