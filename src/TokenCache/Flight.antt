-- ===== src/TokenCache/Flight.antt =====
-- One fetch at a time: the goroutines of getAccessToken in internal/client/bcrs_client.go, and the
-- calls that they wait for.
use bcrstracking.Prelude.{
  ℕ, ◌≤◌, ◌<◌, String, Option, none, some, List, [], ◌∷◌, ◌++◌, nat_keys, string_keys, length,
  get_elem?, set, sum_of, sum_of-set, All, All-set, All-mono, All-get_elem?, get_elem?-set,
  get_elem?-snoc, length-set, length-append, ◌≡◌, ◌↔◌, refl, ap, subst, ◌∙◌, arith,
}
use bcrstracking.Errors.{Result}
use bcrstracking.TokenCache.{
  Cache, Caller, entering, reading, writing, waiting, fetching, closing, finished, panicked, System,
}

abbrev pub is_fetching : Caller → ℕ
is_fetching (fetching k e) = 1
is_fetching _ = 0

abbrev pub flights : Option ℕ → ℕ
flights none = 0
flights (some k) = 1

-- A goroutine that fetches does so for the call in flight.
abbrev pub Leads : Option ℕ → Caller → Type 0
Leads in_flight (fetching k e) = in_flight ≡ some k
Leads in_flight _ = Unit {0}

-- A goroutine that waits does so for a call that was made.
abbrev pub Waits : ℕ → Caller → Type 0
Waits made (waiting k) = k < made
Waits made _ = Unit {0}

pub record IsCoherent (s : System) : Type 0 where
  pub single : sum_of is_fetching s.callers ≡ flights s.cache.in_flight
  pub leading : All (Leads s.cache.in_flight) s.callers
  pub waiting_for : All (Waits (length s.cache.calls)) s.callers
  pub open_iff : (k : ℕ) → (get_elem? s.cache.calls k ≡ some none) ↔ (s.cache.in_flight ≡ some k)

Leads-none_fetching :
    (in_flight : Option ℕ) (callers : List Caller)
    → sum_of is_fetching callers ≡ 0
    → All (Leads in_flight) callers
Leads-none_fetching in_flight [] h = tt
Leads-none_fetching in_flight (fetching k e ∷ rest) h = absurd (omega arith)
Leads-none_fetching in_flight (entering ∷ rest) h =
    (tt, Leads-none_fetching in_flight rest (omega arith))
Leads-none_fetching in_flight (reading ∷ rest) h =
    (tt, Leads-none_fetching in_flight rest (omega arith))
Leads-none_fetching in_flight (writing ∷ rest) h =
    (tt, Leads-none_fetching in_flight rest (omega arith))
Leads-none_fetching in_flight (waiting k ∷ rest) h =
    (tt, Leads-none_fetching in_flight rest (omega arith))
Leads-none_fetching in_flight (closing result changed ∷ rest) h =
    (tt, Leads-none_fetching in_flight rest (omega arith))
Leads-none_fetching in_flight (finished result ∷ rest) h =
    (tt, Leads-none_fetching in_flight rest (omega arith))
Leads-none_fetching in_flight (panicked ∷ rest) h =
    (tt, Leads-none_fetching in_flight rest (omega arith))

Waits-mono : (made more : ℕ) (x : Caller) → made ≤ more → Waits made x → Waits more x
Waits-mono made more (waiting k) le h = omega arith
Waits-mono made more (fetching k e) le h = tt
Waits-mono made more entering le h = tt
Waits-mono made more reading le h = tt
Waits-mono made more writing le h = tt
Waits-mono made more (closing result changed) le h = tt
Waits-mono made more (finished result) le h = tt
Waits-mono made more panicked le h = tt

-- Caller `i` moves from `x` to `y` and the calls stay.
module _ (s : System) (i : ℕ) (x y : Caller) (found : get_elem? s.callers i ≡ some x)
    (h : IsCoherent s) where
  pub IsCoherent-calls_kept :
      (c : Cache)
      → c.in_flight ≡ s.cache.in_flight
      → c.calls ≡ s.cache.calls
      → is_fetching x ≡ 0
      → is_fetching y ≡ 0
      → Waits (length s.cache.calls) y
      → IsCoherent (record { cache = c; callers = set s.callers i y })
  IsCoherent-calls_kept c same_flight same_calls was is_now waits = record {
    single =
        omega
          (arith, sum_of-set is_fetching i x y s.callers found, h.single, ap flights same_flight);
    leading = rw same_flight (
        All-set (Leads s.cache.in_flight) s.callers i y h.leading (Leads-of_not_fetching y is_now));
    waiting_for =
        rw same_calls (All-set (Waits (length s.cache.calls)) s.callers i y h.waiting_for waits);
    open_iff = rw (same_flight, same_calls) h.open_iff;
  }
    where
      Leads-of_not_fetching : (z : Caller) → is_fetching z ≡ 0 → Leads s.cache.in_flight z
      Leads-of_not_fetching z e = (Leads-none_fetching s.cache.in_flight (z ∷ []) (omega arith)).0

  -- The goroutine becomes the leader of a new call.
  pub IsCoherent-lead :
      s.cache.in_flight ≡ none
      → is_fetching x ≡ 0
      → (e : ℕ)
      → IsCoherent (record {
        cache = record s.cache {
          in_flight = some (length s.cache.calls);
          calls = s.cache.calls ++ none ∷ [];
        };
        callers = set s.callers i (fetching (length s.cache.calls) e);
      })
  IsCoherent-lead idle was e = record {
    single = omega (
      arith,
      sum_of-set is_fetching i x (fetching (length s.cache.calls) e) s.callers found,
      h.single,
      ap flights idle,
    );
    leading =
        All-set (Leads (some (length s.cache.calls))) s.callers i
          (fetching (length s.cache.calls) e)
          (Leads-none_fetching (some (length s.cache.calls)) s.callers (h.single ∙ ap flights idle))
          refl;
    waiting_for =
        All-set (Waits (length (s.cache.calls ++ none ∷ []))) s.callers i
          (fetching (length s.cache.calls) e)
          (All-mono
            (λ z.
              Waits-mono (length s.cache.calls) (length (s.cache.calls ++ none ∷ [])) z
                (omega (arith, length-append s.cache.calls (none ∷ []))))
            s.callers h.waiting_for)
          tt;
    open_iff = λ k. (
      λ e'. ground (arith, get_elem?-snoc s.cache.calls none k, h.open_iff k),
      λ e'. ground (arith, get_elem?-snoc s.cache.calls none k),
    );
  }

  -- The leader closes its call.
  pub IsCoherent-close :
      (k e : ℕ) (result : Result String) (c : Cache)
      → x ≡ fetching k e
      → is_fetching y ≡ 0
      → Waits (length s.cache.calls) y
      → c.in_flight ≡ none
      → c.calls ≡ set s.cache.calls k (some result)
      → IsCoherent (record { cache = c; callers = set s.callers i y })
  IsCoherent-close k e result c leader is_now waits no_flight closed =
      let flying : s.cache.in_flight ≡ some k =
        subst (Leads s.cache.in_flight) leader
          (All-get_elem? (Leads s.cache.in_flight) s.callers i x h.leading found) in
      let idle : sum_of is_fetching (set s.callers i y) ≡ 0 = omega (
        arith,
        sum_of-set is_fetching i x y s.callers found,
        h.single,
        ap flights flying,
        ap is_fetching leader,
      ) in
      let was_open = (h.open_iff k).1 flying in
      record {
        single = rw no_flight idle;
        leading = Leads-none_fetching c.in_flight (set s.callers i y) idle;
        waiting_for =
            rw (closed, length-set s.cache.calls k (some result))
              (All-set (Waits (length s.cache.calls)) s.callers i y h.waiting_for waits);
        open_iff = λ j. (
          λ e'.
              ground
                (arith, get_elem?-set s.cache.calls k j none (some result) was_open, h.open_iff j),
          λ e'. cc (no_flight, e'),
        );
      }
