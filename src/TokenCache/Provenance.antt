-- ===== src/TokenCache/Provenance.antt =====
-- Where the tokens come from that getAccessToken of internal/client/bcrs_client.go returns.
use bcrstracking.Prelude.{
  ℕ, String, Option, none, some, Bool, true, false, List, [], ◌∷◌, ◌==◌, nat_keys, string_keys,
  if◌then◌else◌, get_elem?, ◌||◌, ◌≡◌, ◌≢◌, inl, inr, refl, subst, arith, Option-cases, Bool-cases,
  eq_of-some, All, All-set, All-snoc, All-get_elem?,
}
use bcrstracking.Model.{Time}
use bcrstracking.Errors.{Error, Result, ok, err}
use bcrstracking.TokenCache.{
  Cache, Caller, entering, reading, writing, waiting, fetching, closing, finished, Move, runs,
  context_ends, call_ends, fetched, fetch_panics, is_valid, is_retried, is_context_error,
  is_worth_another, invalidate_token, close_call, store_token, follow, conclude, lead_or_wait, act,
  System, Event, arrives, moves, invalidates, step, run, new_system,
}

module _ (P : String → Type 0) where
  -- What a result, a goroutine, a call, a move and an event hold is a token with the property.
  abbrev Holds : Result String → Type 0
  Holds (ok tok) = P tok
  Holds (err e) = Unit {0}

  abbrev Returns : Caller → Type 0
  Returns (finished result) = Holds result
  Returns (closing result changed) = Holds result
  Returns _ = Unit {0}

  abbrev Answered : Option (Result String) → Type 0
  Answered none = Unit {0}
  Answered (some result) = Holds result

  abbrev pub Fetches : Event → Type 0
  Fetches (moves i (fetched (ok (tok, expiry)))) = P tok
  Fetches _ = Unit {0}

  -- An empty token is none.
  abbrev pub IsCached : String → Type 0
  IsCached token = token ≢ "" → P token

  record IsSourced (s : System) : Type 0 where
    cached : IsCached s.cache.token
    answered : All Answered s.cache.calls
    returned : All Returns s.callers

  valid_token : (now : Time) (c : Cache) → IsCached c.token → is_valid now c ≡ true → P c.token
  valid_token now c h valid =
      h (λ empty. ground (arith, (string_keys.equals_iff c.token "").1 empty))

  if-Returns : (b : Bool) (x y : Caller) → Returns x → Returns y → Returns (if b then x else y)
  if-Returns true x y h k = h
  if-Returns false x y h k = k

  -- What a step of a goroutine leaves.
  abbrev Sourced : Cache → Caller × Cache → Type 0
  Sourced c p = Returns p.0 × IsCached p.1.token × All Answered p.1.calls

  lead_or_wait-Sourced :
      (c : Cache) → IsCached c.token → All Answered c.calls → Sourced c (lead_or_wait c)
  lead_or_wait-Sourced c h a = elim (Option-cases c.in_flight) [
    | inl idle ↦ rw (idle, lead_or_wait) (tt, h, All-snoc Answered c.calls none a tt)
    | inr (k, flying) ↦ rw (flying, lead_or_wait) (tt, h, a)
  ]

  store_token-Sourced :
      (k from : ℕ) (tok : String) (expiry : Time) (c : Cache)
      → P tok
      → IsCached c.token
      → All Answered c.calls
      → Sourced c (store_token k from tok expiry c)
  unfolding store_token close_call
  store_token-Sourced k from tok expiry c p h a = elim (Bool-cases (c.epoch == from)) [
    | inl current ↦ rw current (p, λ some_token. p, All-set Answered c.calls k _ a p)
    | inr dropped ↦ rw dropped (tt, h, All-set Answered c.calls k _ a tt)
  ]

  follow-Returns :
      (result : Result String) (ended : Option Error) → Holds result → Returns (follow result ended)
  follow-Returns (ok tok) ended p = p
  follow-Returns (err e) (some stopped) p = tt
  follow-Returns (err e) none p = if-Returns (is_retried e) entering (finished (err e)) tt tt

  conclude-Returns :
      (result : Result String) (changed : Bool) (ended : Option Error)
      → Holds result
      → Returns (conclude result changed ended)
  conclude-Returns (ok tok) changed ended p = p
  conclude-Returns (err e) changed ended p =
      if-Returns (is_context_error e) (finished (err e))
        (if is_worth_another e changed ended then entering else finished (err e)) tt
        (if-Returns (is_worth_another e changed ended) entering (finished (err e)) tt tt)

  act-Sourced :
      (i : ℕ) (x : Caller) (m : Move) (c : Cache) (p : Caller × Cache)
      → Returns x
      → Fetches (moves i m)
      → IsCached c.token
      → All Answered c.calls
      → act x m c ≡ some p
      → Sourced c p
  unfolding act
  act-Sourced i entering (runs (some stopped) now) c p r f h a e =
      subst (Sourced c) (eq_of-some e) (tt, h, a)
  act-Sourced i entering (runs none now) c p r f h a e = subst (Sourced c) (eq_of-some e) (tt, h, a)
  act-Sourced i reading (runs ended now) c p r f h a e = elim (Bool-cases (is_valid now c)) [
    | inl valid ↦
        subst (Sourced c) (eq_of-some (rw (valid, act) at e)) (valid_token now c h valid, h, a)
    | inr stale ↦ subst (Sourced c) (eq_of-some (rw (stale, act) at e)) (tt, h, a)
  ]
  act-Sourced i writing (runs (some stopped) now) c p r f h a e =
      subst (Sourced c) (eq_of-some e) (tt, h, a)
  act-Sourced i writing (runs none now) c p r f h a e = elim (Bool-cases (is_valid now c)) [
    | inl valid ↦
        subst (Sourced c) (eq_of-some (rw (valid, act) at e)) (valid_token now c h valid, h, a)
    | inr stale ↦ subst (Sourced c) (eq_of-some (rw (stale, act) at e)) (lead_or_wait-Sourced c h a)
  ]
  act-Sourced i (waiting k) (context_ends stopped) c p r f h a e =
      subst (Sourced c) (eq_of-some e) (tt, h, a)
  act-Sourced i (waiting k) (call_ends ended) c p r f h a e =
      elim (Option-cases (get_elem? c.calls k)) [
        | inl unknown ↦ absurd (ground arith)
        | inr (call, made) ↦ elim (Option-cases call) [
          | inl open_call ↦ absurd (ground arith)
          | inr (result, closed) ↦ subst (Sourced c) (eq_of-some (rw (made, closed, act) at e)) (
            follow-Returns result ended
                (subst Answered closed (All-get_elem? Answered c.calls k call a made)),
            h,
            a,
          )
        ]
      ]
  act-Sourced i (fetching k from) (fetched (ok (tok, expiry))) c p r f h a e =
      subst (Sourced c) (eq_of-some e) (store_token-Sourced k from tok expiry c f h a)
  act-Sourced i (fetching k from) (fetched (err failed)) c p r f h a e =
      subst (Sourced c) (eq_of-some e) (tt, h, All-set Answered c.calls k _ a tt)
  act-Sourced i (fetching k from) (fetch_panics text) c p r f h a e =
      subst (Sourced c) (eq_of-some e) (tt, h, All-set Answered c.calls k _ a tt)
  act-Sourced i (closing result changed) (runs ended now) c p r f h a e =
      subst (Sourced c) (eq_of-some e) (conclude-Returns result changed ended r, h, a)
  act-Sourced i x m c p r f h a e = cc e

  step-IsSourced :
      (event : Event) (s s' : System)
      → step event s ≡ some s'
      → Fetches event
      → IsSourced s
      → IsSourced s'
  unfolding step invalidate_token
  step-IsSourced arrives s s' e f h = subst IsSourced (eq_of-some e) (record {
    cached = h.cached;
    answered = h.answered;
    returned = All-snoc Returns s.callers entering h.returned tt;
  })
  step-IsSourced (moves i m) s s' e f h = elim (Option-cases (get_elem? s.callers i)) [
    | inl nobody ↦ absurd (ground arith)
    | inr (x, found) ↦ elim (Option-cases (act x m s.cache)) [
      | inl stuck ↦ absurd (ground arith)
      | inr (p, made) ↦
          let (returned, cached, answered) =
            act-Sourced i x m s.cache p (All-get_elem? Returns s.callers i x h.returned found) f
              h.cached h.answered made in
          subst IsSourced (eq_of-some (rw (found, made, step) at e)) (record {
            cached = cached;
            answered = answered;
            returned = All-set Returns s.callers i p.0 h.returned returned;
          })
    ]
  ]
  step-IsSourced (invalidates bad_token) s s' e f h =
      elim (Bool-cases (bad_token == "" || s.cache.token == bad_token)) [
        | inl dropped ↦ subst IsSourced (eq_of-some (rw (dropped, step) at e)) (record {
          cached = λ some_token. absurd (some_token refl);
          answered = h.answered;
          returned = h.returned;
        })
        | inr kept ↦
            subst IsSourced (eq_of-some (rw (kept, step) at e))
              (record { cached = h.cached; answered = h.answered; returned = h.returned })
      ]

  run-IsSourced :
      (events : List Event) (s s' : System)
      → run events s ≡ some s'
      → All Fetches events
      → IsSourced s
      → IsSourced s'
  unfolding run
  run-IsSourced [] s s' e f h = subst IsSourced (eq_of-some e) h
  run-IsSourced (event ∷ events) s s' e f h = elim (Option-cases (step event s)) [
    | inl stuck ↦ absurd (ground arith)
    | inr (next, made) ↦
        run-IsSourced events next s' (rw (made, run) at e) f.1
          (step-IsSourced event s next made f.0 h)
  ]

  -- Whatever the goroutines do, every token that getAccessToken returns was brought by a fetch, or is
  -- the one that the client was made with, if that is not empty: it has each property that these
  -- have, such as not to be empty.
  pub run_returns :
      (token : String) (expiry : Time) (events : List Event) (s : System) (i : ℕ) (tok : String)
      → IsCached token
      → All Fetches events
      → run events (new_system token expiry) ≡ some s
      → get_elem? s.callers i ≡ some (finished (ok tok))
      → P tok
  unfolding new_system
  run_returns token expiry events s i tok initial fetches ran found =
      let start : IsSourced (new_system token expiry) = record {
        cached = initial;
        answered = tt;
        returned = tt;
      } in
      All-get_elem? Returns s.callers i (finished (ok tok))
        (run-IsSourced events (new_system token expiry) s ran fetches start).returned found
