-- ===== src/Client/Effects.antt =====
-- What doWithRetry of internal/client/bcrs_client.go records and invalidates, said by the list of the
-- attempts that send a request.
use bcrstracking.Prelude.{
  ℕ, zero, suc, String, some, Bool, true, false, List, [], ◌∷◌, ◌++◌, string_keys, list_keys, ℤ,
  ◌≡◌, refl, sym, ap, arith, inl, inr, Option-cases, Bool-cases, append-nil, append_assoc,
  keep_if-append, length-append, map-append, if◌then◌else◌, ◌∙◌, nat_keys, map, keep_if,
}
use bcrstracking.Errors.{Result-cases, Error, Result, ok, err}
use bcrstracking.Metrics.{Metrics}
use bcrstracking.Client.{
  Attempt, Loop, verdict, returns, admit, record_attempt, sleep, double, attempt_from,
  do_with_retry,
}
use bcrstracking.Client.Rounds.{
  is_admitted, goes_on, Verdict-cases, verdict-retries, is_admitted-admit, admit-is_admitted,
  is_transient-verdict,
}
use bcrstracking.Client.Retry.{
  attempt_from_over, attempt_from_again, attempt_from_exhausted, attempt_from_stopped,
}
use bcrstracking.Client.Records.{
  has_status, used_token, durations, IsRecorded, refused_tokens, HasEffects,
  record_reply-HasEffects,
}

-- The attempts that send a request: those up to the first that does not go on, if it comes so far.
abbrev pub rounds : Bool → (ℕ → Attempt) → ℕ → ℕ → List Attempt
rounds require_auth answers zero n =
    if is_admitted require_auth (answers n) then answers n ∷ [] else []
rounds require_auth answers (suc left) n =
    let rest = rounds require_auth answers left (suc n) in
    if is_admitted require_auth (answers n)
    then answers n ∷ (if goes_on require_auth (answers n) then rest else [])
    else []

module _ (endpoint : String) where
  -- The request of one round, if it sends one.
  abbrev sent_by : Bool → Attempt → List Attempt
  sent_by require_auth a = if is_admitted require_auth a then a ∷ [] else []

  acquire-used_token : (a : Attempt) (tok : String) → admit true a ≡ ok tok → tok ≡ used_token a
  unfolding admit
  acquire-used_token a tok h = ground arith

  token_of :
      (require_auth : Bool) (a : Attempt) (tok : String)
      → admit require_auth a ≡ ok tok
      → require_auth ≡ true
      → tok ≡ used_token a
  token_of true a tok h e = acquire-used_token a tok h
  token_of false a tok h e = cc e

  not_admitted :
      (require_auth : Bool) (a : Attempt) (e : Error)
      → admit require_auth a ≡ err e
      → is_admitted require_auth a ≡ false
  not_admitted require_auth a e h = elim (Bool-cases (is_admitted require_auth a)) [
    | inl admitted ↦ absurd (admit-is_admitted require_auth a e admitted h)
    | inr refused ↦ refused
  ]

  nothing-IsRecorded : (m : Metrics) → IsRecorded endpoint [] m m
  nothing-IsRecorded m = record {
    timed = sym (append-nil (durations endpoint m));
    forbidden = omega arith;
    limited = omega arith;
  }

  refused_none :
      (require_auth : Bool) (before : List String)
      → before ≡ before ++ refused_tokens require_auth []
  refused_none false before = sym (append-nil before)
  refused_none true before = sym (append-nil before)

  record_attempt-HasEffects :
      (require_auth : Bool) (a : Attempt) (m : Metrics) (st : Loop)
      → st.metrics ≡ some m
      → HasEffects endpoint require_auth
          (sent_by require_auth a)
          m
          st
          (record_attempt endpoint require_auth a st)
  unfolding record_attempt
  record_attempt-HasEffects require_auth a m st e = elim (Result-cases (admit require_auth a)) [
    | inr (why, failed) ↦
        rw (failed, record_attempt, not_admitted require_auth a why failed)
          (record {
            after = m;
            kept = e;
            recorded = nothing-IsRecorded m;
            refused = refused_none require_auth st.invalidated;
          })
    | inl (tok, got) ↦
        rw (got, record_attempt, is_admitted-admit require_auth a tok got)
          (record_reply-HasEffects endpoint require_auth a tok m st e
            (token_of require_auth a tok got))
  ]

  refused_tokens-append :
      (require_auth : Bool) (sent more : List Attempt)
      → refused_tokens require_auth (sent ++ more)
        ≡ refused_tokens require_auth sent ++ refused_tokens require_auth more
  refused_tokens-append false sent more = refl
  refused_tokens-append true sent more = simp (keep_if-append, map-append)

  IsRecorded-trans :
      (sent more : List Attempt) (m m' m'' : Metrics)
      → IsRecorded endpoint sent m m'
      → IsRecorded endpoint more m' m''
      → IsRecorded endpoint (sent ++ more) m m''
  IsRecorded-trans sent more m m' m'' h k = record {
    timed =
        k.timed
        ∙ ap (λ before. before ++ map (λ a. a.duration) more) h.timed
        ∙ append_assoc (durations endpoint m) (map (λ a. a.duration) sent)
            (map (λ a. a.duration) more)
        ∙ ap (λ all. durations endpoint m ++ all) (sym (map-append (λ a. a.duration) sent more));
    forbidden = rw (keep_if-append (has_status 403) sent more) (
        omega (
          arith,
          h.forbidden,
          k.forbidden,
          length-append (keep_if (has_status 403) sent) (keep_if (has_status 403) more),
        ));
    limited = rw (keep_if-append (has_status 429) sent more) (
        omega (
          arith,
          h.limited,
          k.limited,
          length-append (keep_if (has_status 429) sent) (keep_if (has_status 429) more),
        ));
  }

  -- A state with the same metrics and the same invalidated tokens has the same effects.
  HasEffects-trans :
      (require_auth : Bool) (sent more : List Attempt) (m : Metrics) (st st' next st'' : Loop)
      (h : HasEffects endpoint require_auth sent m st st')
      → next.metrics ≡ st'.metrics
      → next.invalidated ≡ st'.invalidated
      → ((m' : Metrics)
          → next.metrics ≡ some m'
          → HasEffects endpoint require_auth more m' next st'')
      → HasEffects endpoint require_auth (sent ++ more) m st st''
  HasEffects-trans require_auth sent more m st st' next st'' h same kept rest =
      let k = rest h.after (same ∙ h.kept) in
      record {
        after = k.after;
        kept = k.kept;
        recorded = IsRecorded-trans sent more m h.after k.after h.recorded k.recorded;
        refused =
            k.refused
            ∙ ap (λ before. before ++ refused_tokens require_auth more) (kept ∙ h.refused)
            ∙ append_assoc st.invalidated (refused_tokens require_auth sent)
                (refused_tokens require_auth more)
            ∙ ap (λ all. st.invalidated ++ all)
                (sym (refused_tokens-append require_auth sent more));
      }

  goes_on_over :
      (require_auth : Bool) (a : Attempt) (result : Result (List ℕ))
      → verdict require_auth a ≡ returns result
      → goes_on require_auth a ≡ false
  goes_on_over require_auth a result over = elim (Bool-cases (goes_on require_auth a)) [
    | inr stays ↦ stays
    | inl on_it_goes ↦
        let (e, again) = is_transient-verdict require_auth a (ground arith) (ground arith) in
        absurd (ground arith)
  ]

  -- The requests of the rounds, by the way in which the first one ends.
  rounds_over :
      (require_auth : Bool) (answers : ℕ → Attempt) (left n : ℕ)
      → goes_on require_auth (answers n) ≡ false
      → rounds require_auth answers left n ≡ sent_by require_auth (answers n)
  rounds_over require_auth answers zero n stays = refl
  rounds_over require_auth answers (suc left) n stays = rw stays

  rounds_again :
      (require_auth : Bool) (answers : ℕ → Attempt) (left n : ℕ)
      → goes_on require_auth (answers n) ≡ true
      → rounds require_auth answers (suc left) n
        ≡ sent_by require_auth (answers n) ++ rounds require_auth answers left (suc n)
  rounds_again require_auth answers left n on_it_goes = ground arith

  HasEffects-attempt_from :
      (require_auth : Bool) (max_retries : ℕ) (answers : ℕ → Attempt) (left n : ℕ) (m : Metrics)
      (st : Loop)
      → st.metrics ≡ some m
      → HasEffects endpoint require_auth
          (rounds require_auth answers left n)
          m
          st
          (attempt_from endpoint require_auth max_retries answers left n st).1
  HasEffects-attempt_from require_auth max_retries answers zero n m st e =
      elim (Verdict-cases (verdict require_auth (answers n))) [
        | inl (result, over) ↦
            rw (attempt_from_over endpoint require_auth max_retries answers 0 n st result over)
              (record_attempt-HasEffects require_auth (answers n) m st e)
        | inr (why, again) ↦
            rw (attempt_from_exhausted endpoint require_auth max_retries answers n st why again)
              (record_attempt-HasEffects require_auth (answers n) m st e)
      ]
  HasEffects-attempt_from require_auth max_retries answers (suc left) n m st e =
      let first = record_attempt-HasEffects require_auth (answers n) m st e in
      elim (Verdict-cases (verdict require_auth (answers n))) [
        | inl (result, over) ↦
            rw
              (
                attempt_from_over endpoint require_auth max_retries answers (suc left) n st result
                    over,
                rounds_over require_auth answers (suc left) n
                    (goes_on_over require_auth (answers n) result over),
              )
              first
        | inr (why, again) ↦ elim (Option-cases (answers n).interrupted) [
          | inr (stopped, ended) ↦
              rw
                (
                  attempt_from_stopped endpoint require_auth max_retries answers left n st why
                      stopped again ended,
                  rounds_over require_auth answers (suc left) n (ground arith),
                )
                (unfold sleep in
                  record {
                    after = first.after;
                    kept = first.kept;
                    recorded = first.recorded;
                    refused = first.refused;
                  })
          | inl slept ↦
              let st' = record_attempt endpoint require_auth (answers n) st in
              rw
                (
                  attempt_from_again endpoint require_auth max_retries answers left n st why again
                      slept,
                  rounds_again require_auth answers left n
                      (ground (arith, verdict-retries require_auth (answers n) why again)),
                )
                (HasEffects-trans require_auth (sent_by require_auth (answers n))
                  (rounds require_auth answers left (suc n)) m st st'
                  (double (sleep (answers n) st')) _ first (unfold sleep double in refl)
                  (unfold sleep double in refl)
                  (λ m' e'.
                    HasEffects-attempt_from require_auth max_retries answers left (suc n) m' _ e'))
        ]
      ]

  -- doWithRetry records the requests that it sends, and no others: each with its duration, one
  -- authentication error for each answer 403 and one backoff for each 429; and where it sends a
  -- token, it invalidates the token of each attempt that was answered with 403, in order. The client
  -- has metrics.
  pub do_with_retry_effects :
      (require_auth : Bool) (max_retries : ℕ) (initial_backoff : ℤ) (answers : ℕ → Attempt)
      (m : Metrics)
      → let st =
          (do_with_retry endpoint require_auth max_retries initial_backoff answers (some m)).1 in
        let sent = rounds require_auth answers max_retries 0 in
        (m' : Metrics) × (st.metrics ≡ some m')
        × IsRecorded endpoint sent m m'
        × (st.invalidated ≡ refused_tokens require_auth sent)
  unfolding do_with_retry
  do_with_retry_effects require_auth max_retries initial_backoff answers m =
      let h = HasEffects-attempt_from require_auth max_retries answers max_retries 0 m _ refl in
      (h.after, h.kept, h.recorded, h.refused)
