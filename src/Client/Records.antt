-- ===== src/Client/Records.antt =====
-- What one round of doWithRetry in internal/client/bcrs_client.go records of a reply, and the tokens that
-- it invalidates.
use bcrstracking.Prelude.{
  ℕ, ◌+◌, String, some, Bool, true, false, List, [], ◌∷◌, ◌++◌, string_keys, list_keys, ◌≡◌, refl,
  arith, inl, inr, append-nil, if◌then◌else◌, ◌∙◌, ◌==◌, nat_keys, map, beq_self, keep_if, length,
}
use bcrstracking.Prelude.GoMap.{get_or, get_or-insert}
use bcrstracking.Errors.{Result-cases, Result, ok, err}
use bcrstracking.Model.{Duration}
use bcrstracking.Metrics.{
  Metrics, record_http_request, record_auth_error, record_rate_limit_backoff,
}
use bcrstracking.Client.{Attempt, Response, Loop, record_reply}

-- The reply has the status.
abbrev pub has_status : ℕ → Attempt → Bool
has_status status a = elim a.reply [ err e ↦ false | ok resp ↦ resp.status_code == status ]

abbrev pub used_token : Attempt → String
used_token a = elim a.token [ err e ↦ "" | ok tok ↦ tok ]

abbrev pub auth_errors : String → Metrics → ℕ
auth_errors endpoint m = get_or 0 (endpoint ∷ []) m.auth_errors_total

abbrev pub backoffs : String → Metrics → ℕ
backoffs endpoint m = get_or 0 (endpoint ∷ []) m.rate_limit_backoffs_total

abbrev pub durations : String → Metrics → List Duration
durations endpoint m = get_or [] (endpoint ∷ []) m.http_request_duration

-- From the metrics `m`, the requests of the list have been recorded in `m'`, each with its duration,
-- and each answer 403 and 429 in its counter.
pub record IsRecorded (endpoint : String) (sent : List Attempt) (m m' : Metrics) : Type 0 where
  pub timed : durations endpoint m' ≡ durations endpoint m ++ map (λ a. a.duration) sent
  pub forbidden :
      auth_errors endpoint m' ≡ auth_errors endpoint m + length (keep_if (has_status 403) sent)
  pub limited : backoffs endpoint m' ≡ backoffs endpoint m + length (keep_if (has_status 429) sent)

-- The tokens that the answers 403 make invalid.
abbrev pub refused_tokens : Bool → List Attempt → List String
refused_tokens require_auth sent =
    if require_auth then map used_token (keep_if (has_status 403) sent) else []

module _ (endpoint : String) where
  record_http_request-IsRecorded :
      (status : ℕ) (d : Duration) (m : Metrics)
      → (durations endpoint (record_http_request endpoint status d m)
          ≡ durations endpoint m ++ d ∷ [])
        × (auth_errors endpoint (record_http_request endpoint status d m) ≡ auth_errors endpoint m)
        × (backoffs endpoint (record_http_request endpoint status d m) ≡ backoffs endpoint m)
  unfolding record_http_request
  record_http_request-IsRecorded status d m = (
    get_or-insert [] (durations endpoint m ++ d ∷ []) (endpoint ∷ []) (endpoint ∷ [])
          m.http_request_duration
        ∙ rw (beq_self endpoint),
    refl,
    refl,
  )

  record_auth_error_lem :
      (m : Metrics)
      → (durations endpoint (record_auth_error endpoint m) ≡ durations endpoint m)
        × (auth_errors endpoint (record_auth_error endpoint m) ≡ auth_errors endpoint m + 1)
        × (backoffs endpoint (record_auth_error endpoint m) ≡ backoffs endpoint m)
  unfolding record_auth_error
  record_auth_error_lem m = (
    refl,
    get_or-insert 0 (auth_errors endpoint m + 1) (endpoint ∷ []) (endpoint ∷ []) m.auth_errors_total
        ∙ rw (beq_self endpoint),
    refl,
  )

  record_rate_limit_backoff_lem :
      (m : Metrics)
      → (durations endpoint (record_rate_limit_backoff endpoint m) ≡ durations endpoint m)
        × (auth_errors endpoint (record_rate_limit_backoff endpoint m) ≡ auth_errors endpoint m)
        × (backoffs endpoint (record_rate_limit_backoff endpoint m) ≡ backoffs endpoint m + 1)
  unfolding record_rate_limit_backoff
  record_rate_limit_backoff_lem m = (
    refl,
    refl,
    get_or-insert 0 (backoffs endpoint m + 1) (endpoint ∷ []) (endpoint ∷ [])
          m.rate_limit_backoffs_total
        ∙ rw (beq_self endpoint),
  )

  -- What the loop has done from one state to another, as a list of requests sent.
  pub record HasEffects (require_auth : Bool) (sent : List Attempt) (m : Metrics) (st st' : Loop)
      : Type 0 where
    pub after : Metrics
    pub kept : st'.metrics ≡ some after
    pub recorded : IsRecorded endpoint sent m after
    pub refused : st'.invalidated ≡ st.invalidated ++ refused_tokens require_auth sent

  -- The metrics after one reply.
  after_reply : Result Response → Duration → Metrics → Metrics
  after_reply (err e) d m = record_http_request endpoint 0 d m
  after_reply (ok resp) d m =
      let counted = record_http_request endpoint resp.status_code d m in
      if resp.status_code == 403
      then record_auth_error endpoint counted
      else if resp.status_code == 429
      then record_rate_limit_backoff endpoint counted
      else counted

  metrics-record_reply :
      (require_auth : Bool) (tok : String) (reply : Result Response) (d : Duration) (m : Metrics)
      (st : Loop)
      → st.metrics ≡ some m
      → (record_reply endpoint require_auth tok reply d st).metrics ≡ some (after_reply reply d m)
  unfolding record_reply after_reply
  metrics-record_reply require_auth tok (err e) d m st h = rw h
  metrics-record_reply require_auth tok (ok resp) d m st h = ground arith

  after_reply-IsRecorded :
      (a : Attempt) (m : Metrics)
      → IsRecorded endpoint (a ∷ []) m (after_reply a.reply a.duration m)
  unfolding after_reply
  after_reply-IsRecorded a m = elim (Result-cases a.reply) [
    | inr (e, failed) ↦
        let (t, f, l) = record_http_request-IsRecorded 0 a.duration m in
        record { timed = ground arith; forbidden = ground arith; limited = ground arith }
    | inl (resp, answered) ↦
        let counted = record_http_request endpoint resp.status_code a.duration m in
        let (t, f, l) = record_http_request-IsRecorded resp.status_code a.duration m in
        let (t1, f1, l1) = record_auth_error_lem counted in
        let (t2, f2, l2) = record_rate_limit_backoff_lem counted in
        record { timed = ground arith; forbidden = ground arith; limited = ground arith }
  ]

  invalidated-record_reply :
      (require_auth : Bool) (a : Attempt) (tok : String) (st : Loop)
      → (require_auth ≡ true → tok ≡ used_token a)
      → (record_reply endpoint require_auth tok a.reply a.duration st).invalidated
        ≡ st.invalidated ++ refused_tokens require_auth (a ∷ [])
  unfolding record_reply
  invalidated-record_reply false a tok st same = ground (arith, append-nil st.invalidated)
  invalidated-record_reply true a tok st same = ground (arith, append-nil st.invalidated, same refl)

  pub record_reply-HasEffects :
      (require_auth : Bool) (a : Attempt) (tok : String) (m : Metrics) (st : Loop)
      → st.metrics ≡ some m
      → (require_auth ≡ true → tok ≡ used_token a)
      → HasEffects require_auth
          (a ∷ [])
          m
          st
          (record_reply endpoint require_auth tok a.reply a.duration st)
  record_reply-HasEffects require_auth a tok m st e same = record {
    after = after_reply a.reply a.duration m;
    kept = metrics-record_reply require_auth tok a.reply a.duration m st e;
    recorded = after_reply-IsRecorded a m;
    refused = invalidated-record_reply require_auth a tok st same;
  }
