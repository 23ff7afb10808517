-- ===== src/TokenCache/Invalidation.antt =====
-- A token that was requested before InvalidateToken of internal/client/bcrs_client.go was called does
-- not come into use after it.
use bcrstracking.Prelude.{
  ℕ, ◌+◌, ◌%◌, ◌^◌, ◌<◌, String, none, some, true, List, [], ◌∷◌, ◌==◌, nat_keys, string_keys,
  if◌then◌else◌, get_elem?, set, ◌≡◌, ◌≢◌, inl, inr, refl, sym, ap, ◌∙◌, arith, Option-cases,
  Bool-cases, eq_of-some, nat_beq_iff, get_elem?-set,
}
use bcrstracking.Model.{Time}
use bcrstracking.Errors.{ok, err, sentinel, token_invalidated}
use bcrstracking.TokenCache.{
  Cache, Caller, entering, reading, writing, waiting, fetching, closing, Move, runs, context_ends,
  call_ends, fetched, fetch_panics, invalidate_token, close_call, store_token, lead_or_wait, act,
  System, Event, arrives, moves, invalidates, step, run,
}

-- The calls of InvalidateToken among the events.
abbrev pub invalidations : List Event → ℕ
invalidations [] = 0
invalidations (invalidates bad_token ∷ rest) =
    (if bad_token == "" then 1 else 0) + invalidations rest
invalidations (arrives ∷ rest) = invalidations rest
invalidations (moves i m ∷ rest) = invalidations rest

invalidations-cons :
    (event : Event) (rest : List Event)
    → invalidations (event ∷ rest) ≡ invalidations (event ∷ []) + invalidations rest
invalidations-cons arrives rest = omega arith
invalidations-cons (moves i m) rest = omega arith
invalidations-cons (invalidates bad_token) rest = omega arith

epoch-lead_or_wait : (c : Cache) → (lead_or_wait c).1.epoch ≡ c.epoch
epoch-lead_or_wait c = ground arith

epoch-act :
    (x : Caller) (m : Move) (c : Cache) (p : Caller × Cache)
    → act x m c ≡ some p
    → p.1.epoch ≡ c.epoch
unfolding act
epoch-act entering (runs (some stopped) now) c p e = ground arith
epoch-act entering (runs none now) c p e = ground arith
epoch-act reading (runs ended now) c p e = ground arith
epoch-act writing (runs (some stopped) now) c p e = ground arith
epoch-act writing (runs none now) c p e = ground (arith, epoch-lead_or_wait c)
epoch-act (waiting k) (context_ends stopped) c p e = ground arith
epoch-act (waiting k) (call_ends ended) c p e = ground arith
epoch-act (fetching k from) (fetched (ok (tok, expiry))) c p e = ground arith
epoch-act (fetching k from) (fetched (err failed)) c p e = ground arith
epoch-act (fetching k from) (fetch_panics text) c p e = ground arith
epoch-act (closing result changed) (runs ended now) c p e = ground arith
epoch-act x m c p e = cc e

epoch-step :
    (event : Event) (s s' : System)
    → step event s ≡ some s'
    → s.cache.epoch < 2 ^ 64
    → (s'.cache.epoch ≡ (s.cache.epoch + invalidations (event ∷ [])) % 2 ^ 64)
      × (s'.cache.epoch < 2 ^ 64)
unfolding step invalidate_token
epoch-step arrives s s' e h = ground arith
epoch-step (moves i m) s s' e h = elim (Option-cases (get_elem? s.callers i)) [
  | inl nobody ↦ absurd (ground arith)
  | inr (x, found) ↦ elim (Option-cases (act x m s.cache)) [
    | inl stuck ↦ absurd (ground arith)
    | inr (p, made) ↦
        let same : s'.cache.epoch ≡ s.cache.epoch =
          sym (ap (λ t. t.cache.epoch) (eq_of-some (rw (found, made, step) at e)))
          ∙ epoch-act x m s.cache p made in
        omega arith
  ]
]
epoch-step (invalidates bad_token) s s' e h = elim (Bool-cases (bad_token == "")) [
  | inl all ↦ ground arith
  | inr one ↦ ground arith
]

epoch-run :
    (events : List Event) (s s' : System)
    → run events s ≡ some s'
    → s.cache.epoch < 2 ^ 64
    → s'.cache.epoch ≡ (s.cache.epoch + invalidations events) % 2 ^ 64
unfolding run
epoch-run [] s s' e h = ground arith
epoch-run (event ∷ events) s s' e h = elim (Option-cases (step event s)) [
  | inl stuck ↦ absurd (ground arith)
  | inr (next, made) ↦
      let (first, small) = epoch-step event s next made h in
      let rest = epoch-run events next s' (rw (made, run) at e) small in
      omega (arith, invalidations-cons event events)
]

changed_mod : (e n : ℕ) → e < 2 ^ 64 → 0 < n → n < 2 ^ 64 → (e + n) % 2 ^ 64 ≢ e
changed_mod e n small some_calls few = omega arith

store_token_stale :
    (k e : ℕ) (tok : String) (expiry : Time) (c : Cache)
    → c.epoch ≢ e
    → ((store_token k e tok expiry c).1.token ≡ c.token)
      × ((store_token k e tok expiry c).1.expiry ≡ c.expiry)
      × ((store_token k e tok expiry c).0 ≡ closing (err (sentinel token_invalidated)) true)
unfolding store_token close_call
store_token_stale k e tok expiry c stale = ground (arith, nat_beq_iff c.epoch e)

get_elem?-set_self :
    (callers : List Caller) (i : ℕ) (x y : Caller)
    → get_elem? callers i ≡ some x
    → get_elem? (set callers i y) i ≡ some y
get_elem?-set_self callers i x y found =
    rw (get_elem?-set callers i i x y found, (nat_beq_iff i i).1 refl)

-- If InvalidateToken is called while a goroutine fetches a token, and fewer than 2^64 times, then the
-- token that the fetch brings is not kept, whatever else happens in between: the cache has the token
-- and the expiry that it had before the answer, and the goroutine goes on with ErrTokenInvalidated.
-- The fetch began in the epoch of the state at the start.
pub stale_fetch_dropped :
    (events : List Event) (s s' s'' : System) (i k : ℕ) (tok : String) (expiry : Time)
    → s.cache.epoch < 2 ^ 64
    → get_elem? s.callers i ≡ some (fetching k s.cache.epoch)
    → run events s ≡ some s'
    → 0 < invalidations events
    → invalidations events < 2 ^ 64
    → get_elem? s'.callers i ≡ some (fetching k s.cache.epoch)
    → step (moves i (fetched (ok (tok, expiry)))) s' ≡ some s''
    → (s''.cache.token ≡ s'.cache.token)
      × (s''.cache.expiry ≡ s'.cache.expiry)
      × (get_elem? s''.callers i ≡ some (closing (err (sentinel token_invalidated)) true))
unfolding step act
stale_fetch_dropped events s s' s'' i k tok expiry small began ran some_calls few still answered =
    let later = epoch-run events s s' ran small in
    let stale : s'.cache.epoch ≢ s.cache.epoch = λ same.
      changed_mod s.cache.epoch (invalidations events) small some_calls few (sym later ∙ same) in
    let p = store_token k s.cache.epoch tok expiry s'.cache in
    let (same_token, same_expiry, goes_on) =
      store_token_stale k s.cache.epoch tok expiry s'.cache stale in
    let final : record { cache = p.1; callers = set s'.callers i p.0 } ≡ s'' =
      eq_of-some (rw (still, step) at answered) in
    (
      ap (λ t. t.cache.token) (sym final) ∙ same_token,
      ap (λ t. t.cache.expiry) (sym final) ∙ same_expiry,
      ap (λ t. get_elem? t.callers i) (sym final)
          ∙ get_elem?-set_self s'.callers i (fetching k s.cache.epoch) p.0 still
          ∙ ap some goes_on,
    )
