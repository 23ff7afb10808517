-- ===== src/Tests/Tokens.antt =====
-- Goroutines in getAccessToken: a leader, a follower, and an invalidation in between.
use bcrstracking.Prelude.{
  ◌≤◌, String, none, some, Bool, true, List, [], ◌∷◌, ◌≡◌, ◌≢◌, refl, arith, get_elem?, sum_of, All,
}
use bcrstracking.Errors.{ok, err, sentinel, token_invalidated}
use bcrstracking.TokenCache.{
  waiting, fetching, closing, finished, runs, call_ends, fetched, System, Event, arrives, moves,
  invalidates, run, step, new_system,
}
use bcrstracking.TokenCache.Flight.{is_fetching}
use bcrstracking.TokenCache.Followers.{Serves, run-IsServed}
use bcrstracking.TokenCache.Invalidation.{stale_fetch_dropped}
use bcrstracking.TokenCache.Provenance.{run_returns}

-- Two goroutines arrive; the first leads and the second waits.
abbrev two_requests : List Event
two_requests =
    arrives
    ∷ arrives
    ∷ moves 0 (runs none 5)
    ∷ moves 0 (runs none 5)
    ∷ moves 0 (runs none 5)
    ∷ moves 1 (runs none 6)
    ∷ moves 1 (runs none 6)
    ∷ moves 1 (runs none 6)
    ∷ []

abbrev waiting_system : System
waiting_system = record {
  cache = record { token = ""; expiry = 0; epoch = 0; in_flight = some 0; calls = none ∷ [] };
  callers = fetching 0 0 ∷ waiting 0 ∷ [];
}

two_requests_test : run two_requests (new_system "" 0) ≡ some waiting_system
unfolding run new_system
two_requests_test = refl

run-IsServed_example :
    (sum_of is_fetching waiting_system.callers ≤ 1)
    × All (Serves waiting_system) waiting_system.callers
run-IsServed_example = run-IsServed "" 0 two_requests waiting_system two_requests_test

-- InvalidateToken while the first goroutine fetches.
abbrev invalidated_system : System
invalidated_system = record {
  cache = record { token = ""; expiry = 0; epoch = 1; in_flight = some 0; calls = none ∷ [] };
  callers = fetching 0 0 ∷ waiting 0 ∷ [];
}

abbrev dropped_system : System
dropped_system = record {
  cache = record {
    token = "";
    expiry = 0;
    epoch = 1;
    in_flight = none;
    calls = some (err (sentinel token_invalidated)) ∷ [];
  };
  callers = closing (err (sentinel token_invalidated)) true ∷ waiting 0 ∷ [];
}

invalidates_test : run (invalidates "" ∷ []) waiting_system ≡ some invalidated_system
unfolding run
invalidates_test = refl

drops_test : step (moves 0 (fetched (ok ("old", 99)))) invalidated_system ≡ some dropped_system
unfolding step
drops_test = refl

stale_fetch_dropped_example :
    (dropped_system.cache.token ≡ invalidated_system.cache.token)
    × (dropped_system.cache.expiry ≡ invalidated_system.cache.expiry)
    × (get_elem? dropped_system.callers 0 ≡ some (closing (err (sentinel token_invalidated)) true))
stale_fetch_dropped_example =
    stale_fetch_dropped (invalidates "" ∷ []) waiting_system invalidated_system dropped_system 0 0
      "old" 99 (omega arith) refl invalidates_test (omega arith) (omega arith) refl drops_test

-- The leader's token reaches the follower.
abbrev served_events : List Event
served_events =
    arrives
    ∷ arrives
    ∷ moves 0 (runs none 5)
    ∷ moves 0 (runs none 5)
    ∷ moves 0 (runs none 5)
    ∷ moves 1 (runs none 6)
    ∷ moves 1 (runs none 6)
    ∷ moves 1 (runs none 6)
    ∷ moves 0 (fetched (ok ("fresh", 99)))
    ∷ moves 1 (call_ends none)
    ∷ []

abbrev served_system : System
served_system = record {
  cache = record {
    token = "fresh";
    expiry = 99;
    epoch = 0;
    in_flight = none;
    calls = some (ok "fresh") ∷ [];
  };
  callers = closing (ok "fresh") (Bool.false) ∷ finished (ok "fresh") ∷ [];
}

served_test : run served_events (new_system "" 0) ≡ some served_system
unfolding run new_system
served_test = refl

-- A token of this text is none.
not_empty : String.◌∷◌ "f" "resh" ≢ String.[]
not_empty e = cc e

run_returns_example : ◌≢◌ {A = String} "fresh" ""
run_returns_example =
    run_returns (λ tok. tok ≢ "") "" 0 served_events served_system 1 "fresh"
      (λ some_token. some_token)
      (tt, (tt, (tt, (tt, (tt, (tt, (tt, (tt, (not_empty, (tt, tt)))))))))) served_test refl
