-- ===== src/Client.antt =====
-- internal/client/bcrs_client.go: the settings of a client, and doWithRetry, the loop through which
-- every request goes. What the access token, the rate limiter, the HTTP library, the random numbers
-- and the timers answer in each attempt is an argument. A body is a list of bytes, a status code an
-- int that is not negative. A delay is an int64 number of nanoseconds, written as its value
-- modulo 2^64.

pub mod Rounds
pub mod Retry
pub mod Delays
pub mod Records
pub mod Effects
use bcrstracking.Prelude.{
  ℕ, zero, suc, ◌+◌, ◌*◌, ◌^◌, ◌%◌, not, ◌&&◌, String, Option, none, some, Bool, true, false, ◌||◌,
  List, [], ◌∷◌, ◌++◌, ◌==◌, nat_keys, string_keys, ltb, leb, if◌then◌else◌, ℤ, is_positive,
  magnitude, length, take,
}
use bcrstracking.Errors.{Error, wrapped, other, Result, ok, err}
use bcrstracking.Text.{sprintf_d}
use bcrstracking.Model.{Duration}
use bcrstracking.Metrics.{
  Metrics, on, record_http_request, record_auth_error, record_rate_limit_backoff,
}

pub record Response : Type 0 where
  pub status_code : ℕ
  pub body : Result (List ℕ)

-- What one round of the loop meets: the answers of getAccessToken, rateLimiter.Wait,
-- http.NewRequestWithContext and httpClient.Do, how long the last took, the random number below its
-- bound, and whether the context ended the sleep.
pub record Attempt : Type 0 where
  pub token : Result String
  pub limiter : Option Error
  pub request : Option Error
  pub reply : Result Response
  pub duration : Duration
  pub random : ℕ → ℕ
  pub interrupted : Option Error

-- The variables of the loop, with what it does to its surroundings: the delays that it asks for and
-- the tokens that it invalidates, the oldest first.
pub record Loop : Type 0 where
  pub backoff : Duration
  pub metrics : Option Metrics
  pub delays : List Duration
  pub invalidated : List String

abbrev pub second : Duration
second = 1000000000

-- time.Duration is int64. A backoff is its value modulo 2^64, which is negative from 2^63 on.
abbrev pub int64_modulus : ℕ
int64_modulus = 2 ^ 64

abbrev pub is_int64_positive : ℕ → Bool
is_int64_positive n = ltb 0 n && ltb n (2 ^ 63)

-- computeJitter
unfoldable pub compute_jitter : (ℕ → ℕ) → Duration → Duration
compute_jitter random backoff =
    if not (is_int64_positive backoff)
    then 0
    else random ((if ltb second backoff then second else backoff) + 1)

abbrev pub max_body_size : ℕ
max_body_size = 10 * 2 ^ 20

-- io.ReadAll over io.LimitReader, and the test of the size.
unfoldable pub read_body : Result (List ℕ) → Result (List ℕ)
read_body (err e) = err (wrapped "failed to read response body" e)
read_body (ok stream) =
    let body = take (max_body_size + 1) stream in
    if ltb max_body_size (length body)
    then err (other "response body exceeded 10485760 byte limit")
    else ok body

-- The token to use, the turn at the limiter and the request: what comes before httpClient.Do.
unfoldable pub acquire : Bool → Attempt → Result String
acquire false a = ok ""
acquire true a = elim a.token [
  | err e ↦ err (wrapped "failed to obtain access token" e)
  | ok tok ↦ if tok == "" then err (other "obtained empty access token") else ok tok
]

unfoldable pub admit : Bool → Attempt → Result String
unfolding acquire
admit require_auth a = elim (acquire require_auth a) [
  | err e ↦ err e
  | ok tok ↦ elim a.limiter [
    | some e ↦ err (wrapped "rate limiter wait failed" e)
    | none ↦ elim a.request [ some e ↦ err (wrapped "failed to create request" e) | none ↦ ok tok ]
  ]
]

-- What the loop makes of a reply: it returns, or it keeps an error and tries again.
pub data Verdict : Type 0 where
  returns : Result (List ℕ) → Verdict
  retries : Error → Verdict

unfoldable pub judge_status : ℕ → Result (List ℕ) → Verdict
judge_status status body =
    if status == 403
    then retries (other "upstream forbidden 403 received")
    else if status == 429
    then retries (other "upstream rate limit 429 received")
    else if leb 500 status
    then retries (other (sprintf_d "upstream server error: " status ""))
    else if ltb status 200 || leb 300 status
    then returns (err (other (sprintf_d "upstream returned unexpected status code: " status "")))
    else returns (read_body body)

unfoldable pub judge : Result Response → Verdict
unfolding judge_status read_body
judge (err e) = retries e
judge (ok resp) = judge_status resp.status_code resp.body

-- What the loop records of a reply.
unfoldable pub record_reply : String → Bool → String → Result Response → Duration → Loop → Loop
record_reply endpoint require_auth tok (err e) d st = record st {
  metrics = on st.metrics (record_http_request endpoint 0 d);
}
record_reply endpoint require_auth tok (ok resp) d st =
    let counted = on st.metrics (record_http_request endpoint resp.status_code d) in
    if resp.status_code == 403
    then record st {
      metrics = on counted (record_auth_error endpoint);
      invalidated = if require_auth then st.invalidated ++ tok ∷ [] else st.invalidated;
    }
    else if resp.status_code == 429
    then record st { metrics = on counted (record_rate_limit_backoff endpoint) }
    else record st { metrics = counted }

-- One round of the loop up to its sleep: what it comes to, and what it records.
unfoldable pub verdict : Bool → Attempt → Verdict
unfolding admit judge
verdict require_auth a = elim (admit require_auth a) [
  | err e ↦ returns (err e)
  | ok tok ↦ judge a.reply
]

unfoldable pub record_attempt : String → Bool → Attempt → Loop → Loop
unfolding admit record_reply
record_attempt endpoint require_auth a st = elim (admit require_auth a) [
  | err e ↦ st
  | ok tok ↦ record_reply endpoint require_auth tok a.reply a.duration st
]

-- sleepWithContext(ctx, backoff+jitter)
unfoldable pub sleep : Attempt → Loop → Loop
unfolding compute_jitter
sleep a st = record st {
  delays = st.delays ++ (st.backoff + compute_jitter a.random st.backoff) % int64_modulus ∷ [];
}

-- backoff *= 2
unfoldable pub double : Loop → Loop
double st = record st { backoff = st.backoff * 2 % int64_modulus }

module _ (endpoint : String) (require_auth : Bool) (max_retries : ℕ) where
  -- The loop with `left` retries left, from attempt `n` on. A sleep that the context ends returns
  -- the context's error.
  unfoldable pub attempt_from : (ℕ → Attempt) → ℕ → ℕ → Loop → Result (List ℕ) × Loop
  unfolding verdict record_attempt sleep double
  attempt_from answers zero n st =
      let st' = record_attempt endpoint require_auth (answers n) st in
      elim (verdict require_auth (answers n)) [
        | returns result ↦ (result, st')
        | retries e ↦
            (err (wrapped (sprintf_d "request failed after " max_retries " retries") e), st')
      ]
  attempt_from answers (suc left) n st =
      let st' = record_attempt endpoint require_auth (answers n) st in
      elim (verdict require_auth (answers n)) [
        | returns result ↦ (result, st')
        | retries e ↦ elim (answers n).interrupted [
          | some stopped ↦ (err stopped, sleep (answers n) st')
          | none ↦ attempt_from answers left (suc n) (double (sleep (answers n) st'))
        ]
      ]

  -- doWithRetry
  unfoldable pub do_with_retry : ℤ → (ℕ → Attempt) → Option Metrics → Result (List ℕ) × Loop
  unfolding attempt_from
  do_with_retry initial_backoff answers metrics = attempt_from answers max_retries 0 (record {
    backoff = if is_positive initial_backoff then magnitude initial_backoff else 10000000;
    metrics = metrics;
    delays = [];
    invalidated = [];
  })
