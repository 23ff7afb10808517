-- ===== src/Client/Rounds.antt =====
-- One round of the loop of doWithRetry in internal/client/bcrs_client.go: when it comes to its request,
-- when its failure is worth another attempt, and what a success is.
use bcrstracking.Prelude.{
  ℕ, suc, ◌≤◌, ◌<◌, String, Option, none, some, Bool, true, false, ◌&&◌, ◌||◌, not, List, ◌==◌,
  nat_keys, string_keys, ltb, leb, if◌then◌else◌, length, take, ◌≡◌, ◌↔◌, refl, arith, Bool-cases,
  inl, inr, ◌⊎◌, take_of_length-le, length-take_long, ltb→lt, ltb-false, ◌∙◌, ap,
}
use bcrstracking.Errors.{Result-cases, Error, Result, ok, err}
use bcrstracking.Client.{
  Response, Attempt, max_body_size, read_body, admit, Verdict, returns, retries, judge_status,
  judge, verdict,
}

abbrev pub is_usable : Result String → Bool
is_usable (ok tok) = not (tok == "")
is_usable (err e) = false

abbrev pub is_nil : Option Error → Bool
is_nil none = true
is_nil (some e) = false

-- The attempt comes to its request: it has a token if it wants one, its turn, and a request.
abbrev pub is_admitted : Bool → Attempt → Bool
is_admitted require_auth a =
    (if require_auth then is_usable a.token else true) && (is_nil a.limiter && is_nil a.request)

-- The failures after which another attempt may do better.
abbrev pub is_transient : Result Response → Bool
is_transient (err e) = true
is_transient (ok resp) =
    resp.status_code == 403 || (resp.status_code == 429 || leb 500 resp.status_code)

-- The attempt fails in such a way, and the context lives through the sleep.
abbrev pub goes_on : Bool → Attempt → Bool
goes_on require_auth a =
    is_admitted require_auth a && (is_transient a.reply && is_nil a.interrupted)

-- The attempt is answered with a success and a body within the limit.
abbrev pub Answers : Result Response → List ℕ → Type 0
Answers (err e) body = ⊥
Answers (ok resp) body =
    (200 ≤ resp.status_code)
    × (resp.status_code < 300)
    × (resp.body ≡ ok body)
    × (length body ≤ max_body_size)

pub is_admitted-admit :
    (require_auth : Bool) (a : Attempt) (tok : String)
    → admit require_auth a ≡ ok tok
    → is_admitted require_auth a ≡ true
unfolding admit
is_admitted-admit false a tok e = ground arith
is_admitted-admit true a tok e = ground arith

pub admit-is_admitted :
    (require_auth : Bool) (a : Attempt) (e : Error)
    → is_admitted require_auth a ≡ true
    → admit require_auth a ≡ err e
    → ⊥
unfolding admit
admit-is_admitted false a e h failed = ground arith
admit-is_admitted true a e h failed = ground arith

is_transient-judge :
    (reply : Result Response) (e : Error) → judge reply ≡ retries e → is_transient reply ≡ true
unfolding judge
is_transient-judge reply e h = ground arith

judge-is_transient :
    (reply : Result Response) (result : Result (List ℕ))
    → is_transient reply ≡ true
    → judge reply ≡ returns result
    → ⊥
unfolding judge
judge-is_transient reply result h e = ground arith

-- A reader that stops one past its limit tells a body within the limit from a longer one.
within_limit_iff :
    (n : ℕ) (e : Error) (stream body : List ℕ)
    → ((if ltb n (length (take (suc n) stream)) then err e else ok (take (suc n) stream)) ≡ ok body)
      ↔ ((stream ≡ body) × (length body ≤ n))
within_limit_iff n e stream body = elim (Bool-cases (ltb n (length stream))) [
  | inr short ↦
      rw (take_of_length-le (suc n) stream (omega (arith, ltb-false n (length stream) short)))
        (ground arith)
  | inl long ↦ (
    λ h. absurd (ground (arith, length-take_long (suc n) stream (ltb→lt n (length stream) long))),
    λ h. absurd (ground arith),
  )
]

read_body_iff :
    (stream body : List ℕ)
    → (read_body (ok stream) ≡ ok body) ↔ ((stream ≡ body) × (length body ≤ max_body_size))
unfolding read_body
read_body_iff stream body = within_limit_iff max_body_size _ stream body

judge_status-read_body :
    (status : ℕ) (stream : Result (List ℕ))
    → 200 ≤ status
    → status < 300
    → judge_status status stream ≡ returns (read_body stream)
unfolding judge_status
judge_status-read_body status stream low high = ground arith

judge_status_success :
    (status : ℕ) (stream : Result (List ℕ)) (body : List ℕ)
    → judge_status status stream ≡ returns (ok body)
    → (200 ≤ status) × (status < 300) × (read_body stream ≡ ok body)
unfolding judge_status
judge_status_success status stream body h = ground arith

read_body_ok :
    (stream : Result (List ℕ)) (body : List ℕ)
    → read_body stream ≡ ok body
    → (stream ≡ ok body) × (length body ≤ max_body_size)
unfolding read_body
read_body_ok (ok stream) body h =
    let (same, fits) = (read_body_iff stream body).0 h in (rw same, fits)
read_body_ok (err e) body h = cc h

judge-Answers :
    (reply : Result Response) (body : List ℕ) → judge reply ≡ returns (ok body) → Answers reply body
unfolding judge
judge-Answers (err e) body h = cc h
judge-Answers (ok resp) body h =
    let (low, high, read) = judge_status_success resp.status_code resp.body body h in
    let (same, fits) = read_body_ok resp.body body read in (low, high, same, fits)

Answers-judge :
    (reply : Result Response) (body : List ℕ) → Answers reply body → judge reply ≡ returns (ok body)
unfolding judge
Answers-judge (err e) body h = absurd h
Answers-judge (ok resp) body (low, high, same, fits) =
    judge_status-read_body resp.status_code resp.body low high
    ∙ ap returns (rw same ((read_body_iff body body).1 (refl, fits)))

pub Verdict-cases :
    (v : Verdict) → ((r : Result (List ℕ)) × (v ≡ returns r)) ⊎ ((e : Error) × (v ≡ retries e))
Verdict-cases (returns r) = inl (r, refl)
Verdict-cases (retries e) = inr (e, refl)

pub verdict-ok :
    (require_auth : Bool) (a : Attempt) (body : List ℕ)
    → verdict require_auth a ≡ returns (ok body)
    → (is_admitted require_auth a ≡ true) × Answers a.reply body
unfolding verdict
verdict-ok require_auth a body h = elim (Result-cases (admit require_auth a)) [
  | inr (e, failed) ↦ absurd (ground arith)
  | inl (tok, got) ↦ (
    is_admitted-admit require_auth a tok got,
    judge-Answers a.reply body (rw (got, verdict) at h),
  )
]

pub verdict-retries :
    (require_auth : Bool) (a : Attempt) (e : Error)
    → verdict require_auth a ≡ retries e
    → (is_admitted require_auth a && is_transient a.reply) ≡ true
unfolding verdict
verdict-retries require_auth a e h = elim (Result-cases (admit require_auth a)) [
  | inr (why, failed) ↦ absurd (ground arith)
  | inl (tok, got) ↦ rw (
    is_admitted-admit require_auth a tok got,
    is_transient-judge a.reply e (rw (got, verdict) at h),
  )
]

pub Answers-verdict :
    (require_auth : Bool) (a : Attempt) (body : List ℕ)
    → is_admitted require_auth a ≡ true
    → Answers a.reply body
    → verdict require_auth a ≡ returns (ok body)
unfolding verdict
Answers-verdict require_auth a body admitted served = elim (Result-cases (admit require_auth a)) [
  | inr (e, failed) ↦ absurd (admit-is_admitted require_auth a e admitted failed)
  | inl (tok, got) ↦ rw (got, verdict) (Answers-judge a.reply body served)
]

pub is_transient-verdict :
    (require_auth : Bool) (a : Attempt)
    → is_admitted require_auth a ≡ true
    → is_transient a.reply ≡ true
    → (e : Error) × (verdict require_auth a ≡ retries e)
unfolding verdict
is_transient-verdict require_auth a admitted again = elim (Result-cases (admit require_auth a)) [
  | inr (e, failed) ↦ absurd (admit-is_admitted require_auth a e admitted failed)
  | inl (tok, got) ↦ elim (Verdict-cases (judge a.reply)) [
    | inl (result, over) ↦ absurd (judge-is_transient a.reply result again over)
    | inr (e, more) ↦ (e, rw (got, verdict) more)
  ]
]
