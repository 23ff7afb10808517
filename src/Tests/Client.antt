-- ===== src/Tests/Client.antt =====
-- Requests of the client: a token that is refused, a server error, and a success.
use bcrstracking.Prelude.{
  ℕ, zero, suc, ◌≤◌, ◌<◌, ◌-◌, String, none, some, true, [], ◌∷◌, ◌≡◌, ◌↔◌, pos, refl, arith,
  length,
}
use bcrstracking.Errors.{Result, ok}
use bcrstracking.Metrics.{Metrics, new_metrics}
use bcrstracking.Client.{Response, Attempt, do_with_retry}
use bcrstracking.Client.Rounds.{is_admitted, goes_on, Answers}
use bcrstracking.Client.Retry.{do_with_retry_iff}
use bcrstracking.Client.Delays.{BacksOff, IsRandom, do_with_retry_delays}
use bcrstracking.Client.Records.{IsRecorded, refused_tokens}
use bcrstracking.Client.Effects.{rounds, do_with_retry_effects}

abbrev attempt : String → Result Response → Attempt
attempt tok reply = record {
  token = ok tok;
  limiter = none;
  request = none;
  reply = reply;
  duration = 7;
  random = λ n. n - 1;
  interrupted = none;
}

abbrev status : ℕ → Result Response
status code = ok (record { status_code = code; body = ok (123 ∷ 125 ∷ []) })

-- The token "old" is refused, the server fails once, and the third attempt brings the body `{}`.
abbrev answers : ℕ → Attempt
answers zero = attempt "old" (status 403)
answers (suc zero) = attempt "new" (status 502)
answers _ = attempt "new" (status 200)

returns_body :
    (do_with_retry "/locations" true 3 (pos 500000000) answers none).0 ≡ ok (123 ∷ 125 ∷ [])
unfolding do_with_retry
returns_body = refl

invalidates_old :
    (do_with_retry "/locations" true 3 (pos 500000000) answers none).1.invalidated ≡ "old" ∷ []
unfolding do_with_retry
invalidates_old = refl

doubles :
    (do_with_retry "/locations" true 3 (pos 500000000) answers none).1.delays
    ≡ 1000000000 ∷ 2000000000 ∷ []
unfolding do_with_retry
doubles = refl

do_with_retry_iff_example :
    ((do_with_retry "/locations" true 3 (pos 500000000) answers none).0 ≡ ok (123 ∷ 125 ∷ [])) ↔ (
      (k : ℕ) × (k ≤ 3)
      × ((m : ℕ) → m < k → goes_on true (answers m) ≡ true)
      × (is_admitted true (answers k) ≡ true)
      × Answers (answers k).reply (123 ∷ 125 ∷ []))
do_with_retry_iff_example =
    do_with_retry_iff "/locations" true 3 (pos 500000000) answers none (123 ∷ 125 ∷ [])

random_answers : (n : ℕ) → IsRandom (answers n).random
random_answers zero m h = omega arith
random_answers (suc zero) m h = omega arith
random_answers (suc (suc n)) m h = omega arith

do_with_retry_delays_example :
    BacksOff 500000000 (do_with_retry "/locations" true 3 (pos 500000000) answers none).1.delays
    × (length (do_with_retry "/locations" true 3 (pos 500000000) answers none).1.delays ≤ 3)
do_with_retry_delays_example =
    do_with_retry_delays "/locations" true 3 answers random_answers (pos 500000000) none
      (omega arith)

do_with_retry_effects_example :
    (m' : Metrics) × ((do_with_retry "/locations" true 3
        (pos 500000000)
        answers
        (some new_metrics)).1.metrics
      ≡ some m')
    × IsRecorded "/locations" (rounds true answers 3 0) new_metrics m'
    × ((do_with_retry "/locations" true 3 (pos 500000000) answers (some new_metrics)).1.invalidated
        ≡ refused_tokens true (rounds true answers 3 0))
do_with_retry_effects_example =
    do_with_retry_effects "/locations" true 3 (pos 500000000) answers new_metrics
