-- ===== src/TokenCache/Followers.antt =====
-- Every run of getAccessToken in internal/client/bcrs_client.go keeps to one fetch at a time, and no
-- goroutine waits for a call that nobody will close.
use bcrstracking.Prelude.{
  ℕ, suc, ◌+◌, ◌≤◌, ◌<◌, String, Option, none, some, Bool, true, false, List, [], ◌∷◌, ◌==◌,
  nat_keys, string_keys, if◌then◌else◌, length, get_elem?, set, sum_of, sum_of-append, All,
  All-mono, All-snoc, All-get_elem?, lt-get_elem?, get_elem?-lt, Bool-elim, ◌%◌, ◌^◌, ◌||◌, ◌≡◌,
  ◌⊎◌, inl, inr, refl, sym, ap, subst, ◌∙◌, arith, Option-cases, Bool-cases, eq_of-some,
}
use bcrstracking.Model.{Time}
use bcrstracking.Errors.{Error, Result, ok, err}
use bcrstracking.TokenCache.{
  Cache, Caller, entering, reading, writing, waiting, fetching, closing, finished, panicked, Move,
  runs, context_ends, call_ends, fetched, fetch_panics, is_valid, is_retried, is_context_error,
  is_worth_another, invalidate_token, store_token, follow, conclude, lead_or_wait, act, System,
  Event, arrives, moves, invalidates, step, run, new_system,
}
use bcrstracking.TokenCache.Flight.{
  is_fetching, flights, Leads, Waits, IsCoherent, IsCoherent-calls_kept, IsCoherent-lead,
  IsCoherent-close,
}

-- Neither a leader, nor the follower of a call that was not made.
abbrev IsIdle : ℕ → Caller → Type 0
IsIdle made x = (is_fetching x ≡ 0) × Waits made x

if-IsIdle :
    (b : Bool) (made : ℕ) (x y : Caller)
    → IsIdle made x
    → IsIdle made y
    → IsIdle made (if b then x else y)
if-IsIdle true made x y h k = h
if-IsIdle false made x y h k = k

follow-IsIdle :
    (result : Result String) (ended : Option Error) (made : ℕ) → IsIdle made (follow result ended)
follow-IsIdle (ok tok) ended made = (refl, tt)
follow-IsIdle (err e) (some stopped) made = (refl, tt)
follow-IsIdle (err e) none made =
    if-IsIdle (is_retried e) made entering (finished (err e)) (refl, tt) (refl, tt)

conclude-IsIdle :
    (result : Result String) (changed : Bool) (ended : Option Error) (made : ℕ)
    → IsIdle made (conclude result changed ended)
conclude-IsIdle (ok tok) changed ended made = (refl, tt)
conclude-IsIdle (err e) changed ended made =
    if-IsIdle (is_context_error e) made (finished (err e))
      (if is_worth_another e changed ended then entering else finished (err e)) (refl, tt)
      (if-IsIdle (is_worth_another e changed ended) made entering (finished (err e)) (refl, tt)
        (refl, tt))

-- A state of the system after caller `i` has moved.
abbrev moved : System → ℕ → Caller × Cache → System
moved s i p = record { cache = p.1; callers = set s.callers i p.0 }

module _ (s : System) (i : ℕ) (h : IsCoherent s) where
  abbrev Kept : Caller × Cache → Type 0
  Kept p = IsCoherent (moved s i p)

  -- The goroutine moves and the cache stays.
  stays :
      (x y : Caller)
      → get_elem? s.callers i ≡ some x
      → is_fetching x ≡ 0
      → IsIdle (length s.cache.calls) y
      → IsCoherent (moved s i (y, s.cache))
  stays x y found was (is_now, waits) =
      IsCoherent-calls_kept s i x y found h s.cache refl refl was is_now waits

  lead_or_wait-IsCoherent :
      get_elem? s.callers i ≡ some writing → IsCoherent (moved s i (lead_or_wait s.cache))
  lead_or_wait-IsCoherent found = elim (Option-cases s.cache.in_flight) [
    | inl idle ↦
        rw (idle, lead_or_wait)
          (IsCoherent-lead s i writing writing found h idle refl s.cache.epoch)
    | inr (k, flying) ↦
        rw (flying, lead_or_wait)
          (stays writing (waiting k) found refl
            (refl, get_elem?-lt s.cache.calls k none ((h.open_iff k).1 flying)))
  ]

  store_token-IsCoherent :
      (k e : ℕ) (tok : String) (expiry : Time)
      → get_elem? s.callers i ≡ some (fetching k e)
      → IsCoherent (moved s i (store_token k e tok expiry s.cache))
  unfolding store_token
  store_token-IsCoherent k e tok expiry found = elim (Bool-cases (s.cache.epoch == e)) [
    | inl current ↦
        rw current
          (IsCoherent-close s i (fetching k e) _ found h k e (ok tok) _ refl refl tt refl refl)
    | inr dropped ↦
        rw dropped (IsCoherent-close s i (fetching k e) _ found h k e _ _ refl refl tt refl refl)
  ]

  act-IsCoherent :
      (x : Caller) (m : Move) (p : Caller × Cache)
      → get_elem? s.callers i ≡ some x
      → act x m s.cache ≡ some p
      → IsCoherent (moved s i p)
  unfolding act
  act-IsCoherent entering (runs (some stopped) now) p found e =
      subst Kept (eq_of-some e) (stays entering _ found refl (refl, tt))
  act-IsCoherent entering (runs none now) p found e =
      subst Kept (eq_of-some e) (stays entering _ found refl (refl, tt))
  act-IsCoherent reading (runs ended now) p found e = subst Kept (eq_of-some e) (
      stays reading _ found refl (
        if-IsIdle (is_valid now s.cache) _ (finished (ok s.cache.token)) writing (refl, tt)
          (refl, tt)))
  act-IsCoherent writing (runs (some stopped) now) p found e =
      subst Kept (eq_of-some e) (stays writing _ found refl (refl, tt))
  act-IsCoherent writing (runs none now) p found e = subst Kept (eq_of-some e) (
      Bool-elim (is_valid now s.cache)
        (λ b. Kept (if b then (finished (ok s.cache.token), s.cache) else lead_or_wait s.cache))
        (stays writing _ found refl (refl, tt)) (lead_or_wait-IsCoherent found))
  act-IsCoherent (waiting k) (context_ends stopped) p found e =
      subst Kept (eq_of-some e) (stays (waiting k) _ found refl (refl, tt))
  act-IsCoherent (waiting k) (call_ends ended) p found e =
      elim (Option-cases (get_elem? s.cache.calls k)) [
        | inl unknown ↦ absurd (ground arith)
        | inr (call, made) ↦ elim (Option-cases call) [
          | inl open_call ↦ absurd (ground arith)
          | inr (result, closed) ↦
              subst Kept (eq_of-some (rw (made, closed, act) at e))
                (stays (waiting k) _ found refl (follow-IsIdle result ended (length s.cache.calls)))
        ]
      ]
  act-IsCoherent (fetching k from) (fetched (ok (tok, expiry))) p found e =
      subst Kept (eq_of-some e) (store_token-IsCoherent k from tok expiry found)
  act-IsCoherent (fetching k from) (fetched (err failed)) p found e =
      subst Kept (eq_of-some e)
        (IsCoherent-close s i (fetching k from) _ found h k from _ _ refl refl tt refl refl)
  act-IsCoherent (fetching k from) (fetch_panics text) p found e =
      subst Kept (eq_of-some e)
        (IsCoherent-close s i (fetching k from) _ found h k from _ _ refl refl tt refl refl)
  act-IsCoherent (closing result changed) (runs ended now) p found e = subst Kept (eq_of-some e) (
      stays (closing result changed) _ found refl
        (conclude-IsIdle result changed ended (length s.cache.calls)))
  act-IsCoherent x m p found e = cc e

step-IsCoherent :
    (event : Event) (s s' : System) → step event s ≡ some s' → IsCoherent s → IsCoherent s'
unfolding step invalidate_token
step-IsCoherent arrives s s' e h = subst IsCoherent (eq_of-some e) (record {
  single = omega (arith, sum_of-append is_fetching s.callers (entering ∷ []), h.single);
  leading = All-snoc (Leads s.cache.in_flight) s.callers entering h.leading tt;
  waiting_for = All-snoc (Waits (length s.cache.calls)) s.callers entering h.waiting_for tt;
  open_iff = h.open_iff;
})
step-IsCoherent (moves i m) s s' e h = elim (Option-cases (get_elem? s.callers i)) [
  | inl nobody ↦ absurd (ground arith)
  | inr (x, found) ↦ elim (Option-cases (act x m s.cache)) [
    | inl stuck ↦ absurd (ground arith)
    | inr (p, made) ↦
        subst IsCoherent (eq_of-some (rw (found, made, step) at e))
          (act-IsCoherent s i h x m p found made)
  ]
]
step-IsCoherent (invalidates bad_token) s s' e h = subst IsCoherent (eq_of-some e) (
    Bool-elim (bad_token == "" || s.cache.token == bad_token)
      (λ b. IsCoherent (record s {
        cache =
            if b
            then record s.cache {
              token = "";
              expiry = 0;
              epoch = if bad_token == "" then (s.cache.epoch + 1) % 2 ^ 64 else s.cache.epoch;
            }
            else s.cache;
      }))
      (record {
        single = h.single;
        leading = h.leading;
        waiting_for = h.waiting_for;
        open_iff = h.open_iff;
      })
      h)

pub run-IsCoherent :
    (events : List Event) (s s' : System) → run events s ≡ some s' → IsCoherent s → IsCoherent s'
unfolding run
run-IsCoherent [] s s' e h = subst IsCoherent (eq_of-some e) h
run-IsCoherent (event ∷ events) s s' e h = elim (Option-cases (step event s)) [
  | inl stuck ↦ absurd (ground arith)
  | inr (next, made) ↦
      run-IsCoherent events next s' (rw (made, run) at e) (step-IsCoherent event s next made h)
]

new_system-IsCoherent : (token : String) (expiry : Time) → IsCoherent (new_system token expiry)
unfolding new_system
new_system-IsCoherent token expiry = record {
  single = refl;
  leading = tt;
  waiting_for = tt;
  open_iff = λ k. (λ e. cc e, λ e. cc e);
}

-- One that fetches.
abbrev Leader : List Caller → Type 0
Leader callers = (j : ℕ) × (k : ℕ) × (e : ℕ) × (get_elem? callers j ≡ some (fetching k e))

Leader-behind : (x : Caller) (rest : List Caller) → Leader rest → Leader (x ∷ rest)
Leader-behind x rest (j, k, e, found) = (suc j, k, e, found)

Leader-of : (callers : List Caller) → sum_of is_fetching callers ≡ 1 → Leader callers
Leader-of [] h = absurd (omega arith)
Leader-of (fetching k e ∷ rest) h = (0, k, e, refl)
Leader-of (entering ∷ rest) h = Leader-behind entering rest (Leader-of rest (omega arith))
Leader-of (reading ∷ rest) h = Leader-behind reading rest (Leader-of rest (omega arith))
Leader-of (writing ∷ rest) h = Leader-behind writing rest (Leader-of rest (omega arith))
Leader-of (waiting k ∷ rest) h = Leader-behind (waiting k) rest (Leader-of rest (omega arith))
Leader-of (closing r c ∷ rest) h = Leader-behind (closing r c) rest (Leader-of rest (omega arith))
Leader-of (finished r ∷ rest) h = Leader-behind (finished r) rest (Leader-of rest (omega arith))
Leader-of (panicked ∷ rest) h = Leader-behind panicked rest (Leader-of rest (omega arith))

-- A call is closed, or a goroutine fetches for it.
abbrev pub IsServed : System → ℕ → Type 0
IsServed s k =
    ((result : Result String) × (get_elem? s.cache.calls k ≡ some (some result)))
    ⊎ ((j : ℕ) × (e : ℕ) × (get_elem? s.callers j ≡ some (fetching k e)))

IsServed-in_flight : (s : System) (k : ℕ) → IsCoherent s → s.cache.in_flight ≡ some k → IsServed s k
IsServed-in_flight s k h flying =
    let (j, k', e, found) = Leader-of s.callers (h.single ∙ ap flights flying) in
    let leads =
      All-get_elem? (Leads s.cache.in_flight) s.callers j (fetching k' e) h.leading found in
    let same : k' ≡ k = eq_of-some (sym leads ∙ flying) in
    inr (j, e, subst (λ n. get_elem? s.callers j ≡ some (fetching n e)) same found)

IsServed-made : (s : System) (k : ℕ) → IsCoherent s → k < length s.cache.calls → IsServed s k
IsServed-made s k h made =
    let (call, found) = lt-get_elem? s.cache.calls k made in
    elim (Option-cases call) [
      | inr (result, closed) ↦ inl (result, found ∙ ap some closed)
      | inl unanswered ↦ IsServed-in_flight s k h ((h.open_iff k).0 (found ∙ ap some unanswered))
    ]

flights_bounds : (in_flight : Option ℕ) → flights in_flight ≤ 1
flights_bounds none = omega arith
flights_bounds (some k) = omega arith

-- A goroutine that waits for a call is served.
abbrev pub Serves : System → Caller → Type 0
Serves s (waiting k) = IsServed s k
Serves s _ = Unit {0}

Serves-Waits :
    (s : System) → IsCoherent s → (x : Caller) → Waits (length s.cache.calls) x → Serves s x
Serves-Waits s h (waiting k) made = IsServed-made s k h made
Serves-Waits s h _ made = tt

-- In every state that the goroutines in getAccessToken come to, however they interleave, with cancelled
-- contexts, failed and panicking fetches and invalidations: at most one of them fetches a token,
-- whether others wait or not, and for each goroutine that waits the call is closed, or a goroutine
-- is fetching for it.
pub run-IsServed :
    (token : String) (expiry : Time) (events : List Event) (s : System)
    → run events (new_system token expiry) ≡ some s
    → (sum_of is_fetching s.callers ≤ 1) × All (Serves s) s.callers
run-IsServed token expiry events s ran =
    let h =
      run-IsCoherent events (new_system token expiry) s ran (new_system-IsCoherent token expiry) in
    (
      subst (λ n. n ≤ 1) (sym h.single) (flights_bounds s.cache.in_flight),
      All-mono (Serves-Waits s h) s.callers h.waiting_for,
    )
