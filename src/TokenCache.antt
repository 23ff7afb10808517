-- ===== src/TokenCache.antt =====
-- The access token that the requests of internal/client/bcrs_client.go share: getAccessToken,
-- invalidateToken and the fields token, tokenExpiry, tokenEpoch and inFlightCall. Any number of
-- goroutines are in getAccessToken at once; one step is one section under tokenMu, one test of the
-- context, one ready case of a select, or one answer of fetchAccessToken, whose result, like the
-- clock and the context, comes with the step.
pub mod Flight
pub mod Followers
pub mod Invalidation
pub mod Provenance
use bcrstracking.Prelude.{
  ℕ, ◌+◌, ◌%◌, ◌^◌, String, Option, none, some, Bool, true, false, ◌&&◌, ◌||◌, not, List, [], ◌∷◌,
  ◌++◌, ◌==◌, nat_keys, string_keys, ltb, if◌then◌else◌, length, get_elem?, set, is_none,
}
use bcrstracking.Model.{Time}
use bcrstracking.Errors.{
  Error, other, sentinel, canceled, deadline_exceeded, token_invalidated, is_error, Result, ok, err,
}

-- A tokenCall is a position in `calls`: `none` until `done` is closed, and then its token or error.
pub record Cache : Type 0 where
  pub token : String
  pub expiry : Time
  pub epoch : ℕ
  pub in_flight : Option ℕ
  pub calls : List (Option (Result String))

-- Where a goroutine stands in the loop of getAccessToken: at its top, before the section that only
-- reads, before the section that writes, in the select on a call of another goroutine, in its own
-- fetch for a call and from an epoch, after the section that closes the call, with whether the epoch
-- has changed, or after its return. A fetch that panics ends in `panicked`.
pub data Caller : Type 0 where
  entering reading writing : Caller
  waiting : ℕ → Caller
  fetching : ℕ → ℕ → Caller
  closing : Result String → Bool → Caller
  finished : Result String → Caller
  panicked : Caller

-- What comes with a step: the context's error and the clock; the end of the context or of the call in
-- the select; the answer of fetchAccessToken, or
-- its panic, with the text of the error that the call then gets.
pub data Move : Type 0 where
  runs : Option Error → Time → Move
  context_ends : Error → Move
  call_ends : Option Error → Move
  fetched : Result (String × Time) → Move
  fetch_panics : String → Move

-- c.token != "" && time.Now().Before(c.tokenExpiry)
abbrev pub is_valid : Time → Cache → Bool
is_valid now c = not (c.token == "") && ltb now c.expiry

-- invalidateToken; InvalidateToken calls it with the empty text.
unfoldable pub invalidate_token : String → Cache → Cache
invalidate_token bad_token c =
    if bad_token == "" || c.token == bad_token
    then record c {
      token = "";
      expiry = 0;
      epoch = if bad_token == "" then (c.epoch + 1) % 2 ^ 64 else c.epoch;
    }
    else c

-- The errors of another goroutine's fetch after which a follower tries by itself.
abbrev pub is_retried : Error → Bool
is_retried e = is_error canceled e || (is_error deadline_exceeded e || is_error token_invalidated e)

-- The errors with which a leader gives up at once.
abbrev pub is_context_error : Error → Bool
is_context_error e = is_error canceled e || is_error deadline_exceeded e

-- Whether a leader tries again: the token was invalidated meanwhile, and the context lives.
abbrev pub is_worth_another : Error → Bool → Option Error → Bool
is_worth_another e changed ended = (changed || is_error token_invalidated e) && is_none ended

-- The section that closes a call.
unfoldable pub close_call : ℕ → Result String → Cache → Cache
close_call k result c = record c { in_flight = none; calls = set c.calls k (some result) }

-- After a fetch from the epoch `e` with no error: the token is kept if it was not invalidated.
unfoldable pub store_token : ℕ → ℕ → String → Time → Cache → Caller × Cache
unfolding close_call
store_token k e tok expiry c =
    if c.epoch == e
    then (closing (ok tok) false, close_call k (ok tok) (record c { token = tok; expiry = expiry }))
    else (
      closing (err (sentinel token_invalidated)) true,
      close_call k (err (sentinel token_invalidated)) c,
    )

-- What the follower of a closed call does.
abbrev pub follow : Result String → Option Error → Caller
follow (ok tok) ended = finished (ok tok)
follow (err e) (some stopped) = finished (err stopped)
follow (err e) none = if is_retried e then entering else finished (err e)

-- What the leader returns after its fetch.
abbrev pub conclude : Result String → Bool → Option Error → Caller
conclude (ok tok) changed ended = finished (ok tok)
conclude (err e) changed ended =
    if is_context_error e
    then finished (err e)
    else if is_worth_another e changed ended
    then entering
    else finished (err e)

-- The section under the write lock.
abbrev pub lead_or_wait : Cache → Caller × Cache
lead_or_wait c = elim c.in_flight [
  | some k ↦ (waiting k, c)
  | none ↦ (
    fetching (length c.calls) c.epoch,
    record c { in_flight = some (length c.calls); calls = c.calls ++ none ∷ [] },
  )
]

-- A step of a goroutine; `none` if it is not at a place where it can make it.
unfoldable pub act : Caller → Move → Cache → Option (Caller × Cache)
unfolding store_token close_call
act entering (runs (some e) now) c = some (finished (err e), c)
act entering (runs none now) c = some (reading, c)
act reading (runs ended now) c =
    some ((if is_valid now c then finished (ok c.token) else writing), c)
act writing (runs (some e) now) c = some (finished (err e), c)
act writing (runs none now) c =
    some (if is_valid now c then (finished (ok c.token), c) else lead_or_wait c)
act (waiting k) (context_ends e) c = some (finished (err e), c)
act (waiting k) (call_ends ended) c = elim (get_elem? c.calls k) [
  | none ↦ none
  | some call ↦ elim call [ none ↦ none | some result ↦ some (follow result ended, c) ]
]
act (fetching k e) (fetched (ok (tok, expiry))) c = some (store_token k e tok expiry c)
act (fetching k e) (fetched (err failed)) c =
    some (closing (err failed) (not (c.epoch == e)), close_call k (err failed) c)
act (fetching k e) (fetch_panics r) c = some (panicked, close_call k (err (other r)) c)
act (closing result changed) (runs ended now) c = some (conclude result changed ended, c)
act _ _ c = none

pub record System : Type 0 where
  pub cache : Cache
  pub callers : List Caller

-- A goroutine calls getAccessToken, one makes a step, or one calls invalidateToken.
pub data Event : Type 0 where
  arrives : Event
  moves : ℕ → Move → Event
  invalidates : String → Event

unfoldable pub step : Event → System → Option System
unfolding act invalidate_token
step arrives s = some (record s { callers = s.callers ++ entering ∷ [] })
step (moves i m) s = elim (get_elem? s.callers i) [
  | none ↦ none
  | some caller ↦ elim (act caller m s.cache) [
    | none ↦ none
    | some (caller', cache') ↦ some (record { cache = cache'; callers = set s.callers i caller' })
  ]
]
step (invalidates bad_token) s = some (record s { cache = invalidate_token bad_token s.cache })

unfoldable pub run : List Event → System → Option System
unfolding step
run [] s = some s
run (e ∷ es) s = elim (step e s) [ none ↦ none | some s' ↦ run es s' ]

-- A client that New has made, with WithToken or without, and no request yet.
unfoldable pub new_system : String → Time → System
new_system token expiry = record {
  cache = record { token = token; expiry = expiry; epoch = 0; in_flight = none; calls = [] };
  callers = [];
}
