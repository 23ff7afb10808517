-- ===== src/Requests/Tokens.antt =====
-- What fetchAccessToken and getAccessToken of internal/client/bcrs_client.go promise of a token.
use bcrstracking.Prelude.{
  ℕ, ℤ, ◌+◌, ◌<◌, ◌≤◌, String, Option, some, Bool, false, List, ◌≡◌, inl, inr, refl, sym, ap, subst,
  nat_keys, string_keys, ◌==◌, ◌||◌, not, ltb, arith, Option-cases, if◌then◌else◌, get_elem?, All,
  All-mono,
}
use bcrstracking.Errors.{ok, err, Result-cases}
use bcrstracking.Model.{Time}
use bcrstracking.Metrics.{Metrics}
use bcrstracking.Client.{Attempt, do_with_retry}
use bcrstracking.AccessToken.{
  Bytes, Readers, AccessTokenResponse, unmarshal_json, unmarshal_response,
}
use bcrstracking.AccessToken.Source.{unmarshal_json-IsTokenOf}
use bcrstracking.TokenCache.{finished, fetched, Event, moves, run, new_system, System}
use bcrstracking.TokenCache.Provenance.{Fetches, run_returns}
use bcrstracking.Requests.{Clock, hour, read_access_token, fetch_access_token}

pair_of {ℓ κ} : {A : Type ℓ} {B : Type κ} {a : A} (p : A × B) → p.0 ≡ a → p ≡ (a, p.1)
pair_of p e = ap (λ x. (x, p.1)) e

token-unmarshal_response :
    (readers : Readers) (now : Time) (body : Bytes) (r : AccessTokenResponse)
    → unmarshal_response readers now body ≡ ok r
    → (r.token == "") ≡ false
unfolding unmarshal_response
token-unmarshal_response readers now body r e = elim (Option-cases (readers.syntax_error body)) [
  | inr (why, failed) ↦ absurd (ground (arith, rw (failed, unmarshal_response) at e))
  | inl json ↦
      let start : AccessTokenResponse = record { status = ""; token = ""; expires_at = 0 } in
      elim (Option-cases (unmarshal_json readers now body start).0) [
        | inr (why, failed) ↦ absurd (ground (arith, rw (json, failed, unmarshal_response) at e))
        | inl done ↦
            let token =
              ap (λ x. elim x [ err e' ↦ "" | ok r' ↦ r'.token ])
                (rw (json, done, unmarshal_response) at e) in
            subst (λ tok. (tok == "") ≡ false) token
              (unmarshal_json-IsTokenOf readers now body start
                (unmarshal_json readers now body start).1 (pair_of _ done)).0
      ]
]

later_expiry :
    (clock : Clock) (expires_at : Time)
    → clock.tested ≤ clock.extended
    → clock.tested < (
        if expires_at == 0 || not (ltb clock.tested expires_at)
        then clock.extended + hour
        else expires_at)
later_expiry clock expires_at ordered = ground arith

module _ (is_html_payload : Bytes → Bool) (readers : Readers) (clock : Clock) where
  fetch_access_token_fetches :
      (initial_backoff : ℤ) (answers : ℕ → Attempt) (metrics : Option Metrics) (tok : String)
      (expiry : Time)
      → (fetch_access_token is_html_payload readers clock initial_backoff answers metrics).0
        ≡ ok (tok, expiry)
      → ((tok == "") ≡ false) × (clock.tested ≤ clock.extended → clock.tested < expiry)
  unfolding fetch_access_token
  fetch_access_token_fetches initial_backoff answers metrics tok expiry e =
      elim (Result-cases
        (do_with_retry "/locations/access-token" false 3 initial_backoff answers metrics).0) [
          | inr (why, failed) ↦
              absurd (ground (arith, rw (failed, fetch_access_token, read_access_token) at e))
          | inl (body, done) ↦ elim (Result-cases (unmarshal_response readers clock.decoded body)) [
            | inr (why, failed) ↦
                absurd
                  (ground (arith, rw (done, failed, fetch_access_token, read_access_token) at e))
            | inl (r, read) ↦
                let result = rw (done, read, fetch_access_token, read_access_token) at e in
                let token =
                  ap (λ x. elim x [ err e' ↦ "" | ok fetched_token ↦ fetched_token.0 ]) result in
                let time =
                  ap (λ x. elim x [ err e' ↦ 0 | ok fetched_token ↦ fetched_token.1 ]) result in
                (
                  rw (sym token) (token-unmarshal_response readers clock.decoded body r read),
                  λ ordered.
                      subst (λ t. clock.tested < t) time (later_expiry clock r.expires_at ordered),
                )
          ]
        ]

  -- A fetchAccessToken that succeeds brings a token with a character and an expiry that is later than
  -- the time at which it was tested, so that the cache can use the token. The clock does not go back
  -- between the test and the extension.
  pub fetch_access_token_fresh :
      (initial_backoff : ℤ) (answers : ℕ → Attempt) (metrics : Option Metrics) (tok : String)
      (expiry : Time)
      → clock.tested ≤ clock.extended
      → (fetch_access_token is_html_payload readers clock initial_backoff answers metrics).0
        ≡ ok (tok, expiry)
      → ((tok == "") ≡ false) × (clock.tested < expiry)
  fetch_access_token_fresh initial_backoff answers metrics tok expiry ordered e =
      let h = fetch_access_token_fetches initial_backoff answers metrics tok expiry e in
      (h.0, h.1 ordered)

-- What the event says that fetchAccessToken has brought, it has brought.
abbrev pub IsFetched : Event → Type 0
IsFetched (moves i (fetched (ok (tok, expiry)))) =
    (is_html_payload : Bytes → Bool) × (readers : Readers) × (clock : Clock) × (initial_backoff : ℤ)
    × (answers : ℕ → Attempt) × (metrics : Option Metrics) × ((fetch_access_token is_html_payload
          readers clock initial_backoff answers metrics).0
        ≡ ok (tok, expiry))
IsFetched _ = Unit {0}

Fetches-IsFetched : (e : Event) → IsFetched e → Fetches (λ tok. (tok == "") ≡ false) e
Fetches-IsFetched (moves i (fetched (ok (tok, expiry))))
      (is_html_payload, readers, clock, initial_backoff, answers, metrics, e) =
    (fetch_access_token_fetches is_html_payload readers clock initial_backoff answers metrics tok
      expiry e).0
Fetches-IsFetched _ h = h

-- On a client that starts with no token, however its goroutines interleave, getAccessToken returns no empty
-- token, if every token that its fetches bring comes from fetchAccessToken.
pub access_token_present :
    (events : List Event) (s : System) (i : ℕ) (tok : String)
    → All IsFetched events
    → run events (new_system "" 0) ≡ some s
    → get_elem? s.callers i ≡ some (finished (ok tok))
    → (tok == "") ≡ false
access_token_present events s i tok fetches ran found =
    run_returns (λ t. (t == "") ≡ false) "" 0 events s i tok (λ not_empty. absurd (not_empty refl))
      (All-mono Fetches-IsFetched events fetches) ran found
