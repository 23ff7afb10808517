-- ===== src/Poller/Bins/Deltas.antt =====
-- How many containers a pass counts as returned.
use bcrstracking.Prelude.{
  ℕ, ◌+◌, ◌*◌, ◌≤◌, ◌<◌, nat_keys, string_keys, pair_keys, list_keys, Option, none, some, ◌==◌, ◌≡◌,
  ◌⊎◌, refl, arith, Bool-cases, inl, inr,
}
use bcrstracking.Poller.Bins.{ingested, odometer_delta, content_delta}

odometer_delta-bounds :
    (prev current : ℕ)
    → (odometer_delta prev current ≤ 200)
      × (odometer_delta prev current ≤ current)
      × (0 < odometer_delta prev current → prev + odometer_delta prev current ≡ current)
unfolding odometer_delta
odometer_delta-bounds prev current = (ground arith, ground arith, λ h. ground arith)

content_delta-bounds :
    (prev current : ℕ)
    → (content_delta prev current ≤ 200)
      × (content_delta prev current ≤ current)
      × (0 < content_delta prev current
          → (prev + content_delta prev current ≡ current)
            ⊎ ((content_delta prev current ≡ current) × (50 ≤ prev) × (2 * current ≤ prev)))
unfolding content_delta
content_delta-bounds prev current = (ground arith, ground arith, λ h. ground arith)

-- No bin is credited with more than 200 containers in one cycle, nor with more than its count
-- shows, and a bin that is seen for the first time with none. A positive delta is the rise of the
-- count, or, for a machine with a capacity, the whole count after the bin was emptied from 50 or more
-- to at most half.
pub ingested_bounds :
    (previous : Option ℕ) (capacity current : ℕ)
    → (ingested previous capacity current ≤ 200)
      × (ingested previous capacity current ≤ current)
      × (0 < ingested previous capacity current
          → (prev : ℕ) × (previous ≡ some prev)
            × ((prev + ingested previous capacity current ≡ current)
                ⊎ ((ingested previous capacity current ≡ current)
                    × (0 < capacity)
                    × (50 ≤ prev)
                    × (2 * current ≤ prev))))
unfolding ingested
ingested_bounds none capacity current = (omega arith, omega arith, λ h. absurd (omega arith))
ingested_bounds (some prev) capacity current =
    let rising = odometer_delta-bounds prev current in
    let emptying = content_delta-bounds prev current in
    elim (Bool-cases (capacity == 0)) [
      | inl e ↦ rw e (rising.0, rising.1, λ h. (prev, refl, inl (rising.2 h)))
      | inr e ↦
          rw e (emptying.0, emptying.1, λ h. (prev, refl, content (ground arith) (emptying.2 h)))
    ]
  where
    content :
        {prev delta : ℕ}
        → 0 < capacity
        → (prev + delta ≡ current) ⊎ ((delta ≡ current) × (50 ≤ prev) × (2 * current ≤ prev))
        → (prev + delta ≡ current)
          ⊎ ((delta ≡ current) × (0 < capacity) × (50 ≤ prev) × (2 * current ≤ prev))
    content positive (inl rise) = inl rise
    content positive (inr emptied) = inr (emptied.0, positive, emptied.1, emptied.2)
