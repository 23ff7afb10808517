-- ===== src/Settings/Limits.antt =====
-- What Load of internal/config/config.go and New of internal/client/bcrs_client.go promise together.
use bcrstracking.Prelude.{
  ℕ, ℤ, pos, negsuc, ◌+◌, ◌^◌, ◌<◌, String, some, Bool, true, false, ◌≡◌, ◌⊎◌, inl, inr, refl, ap,
  subst, nat_keys, ◌||◌, ◌&&◌, ltb, is_positive, magnitude, magnitude_pos, arith, Bool-cases,
  if◌then◌else◌,
}
use bcrstracking.Errors.{ok, err}
use bcrstracking.Config.{
  Config, Parsers, infinity, sign_bit, eight, is_positive_float, is_not_positive, read_config, load,
}
use bcrstracking.Poller.Workers.{worker_count}
use bcrstracking.Settings.{new_settings}

abbrev pub is_nan : ℕ → Bool
is_nan f = ltb infinity f && ltb f sign_bit || ltb (sign_bit + infinity) f

rate_cases :
    (f : ℕ)
    → f < 2 ^ 64
    → is_not_positive f ≡ false
    → (is_positive_float f ≡ true) ⊎ (is_nan f ≡ true × is_positive_float f ≡ false)
rate_cases f small h = ground arith

load-guards :
    (p : Parsers) (env : String → String) (cfg : Config)
    → load p env ≡ ok cfg
    → (is_positive cfg.bin_worker_concurrency ≡ true) × (is_not_positive cfg.rate_limit_rps ≡ false)
unfolding load
load-guards p env cfg e =
    let c = read_config p env in
    elim (Bool-cases (is_positive c.bin_worker_concurrency)) [
      | inr few ↦ absurd (ground (arith, rw (few, load) at e))
      | inl staffed ↦ elim (Bool-cases (is_not_positive c.rate_limit_rps)) [
        | inl slow ↦ absurd (ground (arith, rw (staffed, slow, load) at e))
        | inr fast ↦
            let same =
              ap (λ r. elim r [ err e' ↦ c | ok c' ↦ c' ]) (rw (staffed, fast, load) at e) in
            subst
              (λ c'.
                (is_positive c'.bin_worker_concurrency ≡ true)
                × (is_not_positive c'.rate_limit_rps ≡ false))
              same (staffed, fast)
      ]
    ]

default_positive :
    (v d : ℤ) → is_positive d ≡ true → is_positive (if is_positive v then v else d) ≡ true
default_positive v d h = elim (Bool-cases (is_positive v)) [
  | inl own ↦ rw own own
  | inr other ↦ rw other h
]

rate_usable :
    (f : ℕ)
    → f < 2 ^ 64
    → is_not_positive f ≡ false
    → (is_positive_float (if is_positive_float f then f else eight) ≡ true)
      × (((if is_positive_float f then f else eight) ≡ f) ⊎ (is_nan f ≡ true))
rate_usable f small h = elim (rate_cases f small h) [
  | inl own ↦ rw own (own, inl refl)
  | inr (nan, other) ↦ rw other (refl, inr nan)
]

count_usable : (v : ℤ) → is_positive v ≡ true → (pos (magnitude v) ≡ v) × (0 < magnitude v)
count_usable (pos n) h = (refl, magnitude_pos (pos n) h)
count_usable (negsuc n) h = absurd (ground arith)

-- After a Load that succeeds, the settings are usable: New takes a positive rate, burst and timeout,
-- the rate being the configured one unless that is a NaN; and the pool of the bin polls has the
-- configured number of workers, at least one. The rate is a 64-bit pattern.
pub load-new_settings :
    (p : Parsers) (env : String → String) (cfg : Config)
    → load p env ≡ ok cfg
    → cfg.rate_limit_rps < 2 ^ 64
    → let settings = new_settings (some cfg) in
      (is_positive_float settings.rps ≡ true)
      × (is_positive settings.burst ≡ true)
      × (is_positive settings.timeout ≡ true)
      × ((settings.rps ≡ cfg.rate_limit_rps) ⊎ (is_nan cfg.rate_limit_rps ≡ true))
      × (pos (worker_count (some cfg)) ≡ cfg.bin_worker_concurrency)
      × (0 < worker_count (some cfg))
unfolding new_settings
load-new_settings p env cfg e small =
    let (staffed, fast) = load-guards p env cfg e in
    let (rate, own) = rate_usable cfg.rate_limit_rps small fast in
    let (count, some_workers) = count_usable cfg.bin_worker_concurrency staffed in
    (
      rate,
      default_positive cfg.rate_limit_burst (pos 16) refl,
      default_positive cfg.http_timeout (pos 10000000000) refl,
      own,
      rw staffed count,
      rw staffed some_workers,
    )
