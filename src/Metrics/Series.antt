-- ===== src/Metrics/Series.antt =====
-- Every series of internal/metrics/metrics.go after any calls of the methods.
use bcrstracking.Prelude.{
  ℕ, ◌≤◌, string_keys, list_keys, list_beq_iff, Option, none, some, Bool, true, false, List, [],
  ◌∷◌, ◌==◌, ◌&&◌, ◌≡◌, ◌⊎◌, inl, inr, refl, ap, subst, arith, length, nat_keys, Bool-cases,
}
use bcrstracking.Prelude.GoMap.{Entries, lookup, insert}
use bcrstracking.Metrics.{Metrics, Labels, HistogramVec, new_metrics}
use bcrstracking.Metrics.Vectors.{
  Vector, observations, reading, describe, arity, may_fall, rate_limit_backoffs_total,
  auth_errors_total, poll_cycle_duration, poll_cycle_last_duration, poll_cycle_total,
  poll_cycle_last_success, containers_ingested_total, bin_current_count,
}
use bcrstracking.Metrics.Calls.{Call, perform, perform_all}
use bcrstracking.Metrics.Change.{Change, perform-Moves}

-- Whether each key of a vector has so many values.
abbrev fits_all {ℓ} : {V : Type ℓ} → ℕ → Entries Labels V → Bool
fits_all k [] = true
fits_all k ((labels, v) ∷ rest) = length labels == k && fits_all k rest

lookup-fits {ℓ} :
    {V : Type ℓ} (k : ℕ) (labels : Labels) (vec : Entries Labels V)
    → fits_all k vec ≡ true
    → (lookup labels vec ≡ none) ⊎ (length labels ≡ k)
unfolding lookup
lookup-fits k labels [] h = inl refl
lookup-fits k labels ((at, v) ∷ rest) h = elim (Bool-cases (at == labels)) [
  | inl same ↦ inr (ground (arith, (list_beq_iff at labels).0 same))
  | inr other ↦ rw other (lookup-fits k labels rest (ground arith))
]

-- A series that exists has as many label values as its vector has label names.
abbrev HasArity : Vector → Labels → Metrics → Type 0
HasArity v labels m = (reading v labels m ≡ none) ⊎ (length labels ≡ arity v)

observations-fits :
    (k : ℕ) (labels : Labels) (vec : HistogramVec)
    → fits_all k vec ≡ true
    → (observations (lookup labels vec) ≡ none) ⊎ (length labels ≡ k)
observations-fits k labels vec h = elim (lookup-fits k labels vec h) [
  | inl missing ↦ inl (ap observations missing)
  | inr fits ↦ inr fits
]

new_metrics-HasArity : (v : Vector) (labels : Labels) → HasArity v labels new_metrics
unfolding new_metrics reading describe lookup insert
new_metrics-HasArity rate_limit_backoffs_total labels =
    lookup-fits 1 labels new_metrics.rate_limit_backoffs_total refl
new_metrics-HasArity auth_errors_total labels =
    lookup-fits 1 labels new_metrics.auth_errors_total refl
new_metrics-HasArity poll_cycle_duration labels =
    observations-fits 1 labels new_metrics.poll_cycle_duration refl
new_metrics-HasArity poll_cycle_last_duration labels =
    lookup-fits 1 labels new_metrics.poll_cycle_last_duration refl
new_metrics-HasArity poll_cycle_total labels =
    lookup-fits 2 labels new_metrics.poll_cycle_total refl
new_metrics-HasArity poll_cycle_last_success labels =
    lookup-fits 1 labels new_metrics.poll_cycle_last_success refl
new_metrics-HasArity containers_ingested_total labels =
    lookup-fits 2 labels new_metrics.containers_ingested_total refl
new_metrics-HasArity bin_current_count labels =
    lookup-fits 2 labels new_metrics.bin_current_count refl
new_metrics-HasArity _ labels = inl refl

perform_all-HasArity :
    (cs : List Call) (m : Metrics) (v : Vector) (labels : Labels)
    → HasArity v labels m
    → HasArity v labels (perform_all cs m)
unfolding perform_all
perform_all-HasArity [] m v labels h = h
perform_all-HasArity (c ∷ rest) m v labels h =
    perform_all-HasArity rest (perform c m) v labels (elim (perform-Moves c v labels m) [
      | inl same ↦ rw same h
      | inr (inl (falls, gone)) ↦ inl gone
      | inr (inr (fits, n, now, more)) ↦ inr fits
    ])

-- A reading does not fall.
abbrev pub Grows : Option ℕ → Option ℕ → Type 0
Grows none new = Unit {0}
Grows (some n) new = (n' : ℕ) × (new ≡ some n') × (n ≤ n')

Grows-Change :
    (k : ℕ) (labels : Labels) (old new last : Option ℕ)
    → Change k false labels old new
    → Grows new last
    → Grows old last
Grows-Change k labels none new last change h = tt
Grows-Change k labels (some n) none last change h = absurd (elim change [
  | inl same ↦ ground arith
  | inr (inl (falls, gone)) ↦ ground arith
  | inr (inr (fits, n', now, more)) ↦ ground arith
])
Grows-Change k labels (some n) (some n') last change (n'', e, up) = (
  n'',
  e,
  elim change [
    | inl same ↦ ground arith
    | inr (inl (falls, gone)) ↦ ground arith
    | inr (inr (fits, x, now, inl falls)) ↦ ground arith
    | inr (inr (fits, x, now, inr more)) ↦ ground arith
  ],
)

Grows-refl : (o : Option ℕ) → Grows o o
Grows-refl none = tt
Grows-refl (some n) = (n, refl, omega arith)

-- The label values fit the vector: whatever methods are called in whatever order and with whatever
-- arguments after New, a series that a scrape reads from a vector has as many label values as New
-- has declared label names for it.
pub reading-arity :
    (cs : List Call) (v : Vector) (labels : Labels) (n : ℕ)
    → reading v labels (perform_all cs new_metrics) ≡ some n
    → length labels ≡ length (describe v).labels
reading-arity cs v labels n e =
    elim (perform_all-HasArity cs new_metrics v labels (new_metrics-HasArity v labels)) [
      | inl missing ↦ absurd (ground arith)
      | inr fits ↦ fits
    ]

-- Counters and histograms only rise: for a vector that is no gauge, whatever methods are called, a
-- series that exists stays, and neither the value of a counter nor the number of observations of a
-- histogram is lower afterwards.
pub perform_all-Grows :
    (cs : List Call) (m : Metrics) (v : Vector) (labels : Labels)
    → may_fall (describe v).kind ≡ false
    → Grows (reading v labels m) (reading v labels (perform_all cs m))
unfolding perform_all
perform_all-Grows [] m v labels rises = Grows-refl (reading v labels m)
perform_all-Grows (c ∷ rest) m v labels rises =
    Grows-Change (arity v) labels (reading v labels m) (reading v labels (perform c m)) _
      (subst (λ b. Change (arity v) b labels (reading v labels m) (reading v labels (perform c m)))
        rises (perform-Moves c v labels m))
      (perform_all-Grows rest (perform c m) v labels rises)
