-- ===== src/Startup/Ready.antt =====
-- When cmd/tracker/main.go comes to run the poller.
use bcrstracking.Prelude.{
  ℕ, zero, suc, ◌+◌, ◌≤◌, ◌<◌, String, Option, none, some, Bool, true, false, List, [], ◌∷◌, ◌≡◌,
  ◌↔◌, inl, inr, refl, arith, subst, ◌∙◌, Option-cases, Bool-cases, All, is_none,
}
use native.Mathlib.Decide.{dec_lt}
use native.Mathlib.Nat.{le_refl}
use bcrstracking.Errors.{Error, other}
use bcrstracking.Storage.{init_schema}
use bcrstracking.Startup.{Outcome, running, connect_from, prepare_tables, start_up}

-- The k-th attempt connects, and those before it, from the i-th on, failed and were waited out.
abbrev pub Connects : (ℕ → Option Error) → (ℕ → Bool) → ℕ → ℕ → Type 0
Connects new_storage ends i k =
    (new_storage k ≡ none)
    × ((m : ℕ) → i ≤ m → m < k → (is_none (new_storage m) ≡ false) × (ends m ≡ false))

init_schema_iff :
    (exec : String → Option Error) (ddl : List String)
    → ((init_schema true exec ddl).0 ≡ none) ↔ All (λ q. exec q ≡ none) ddl
unfolding init_schema
init_schema_iff exec [] = (λ e. tt, λ h. refl)
init_schema_iff exec (q ∷ rest) = elim (Option-cases (exec q)) [
  | inr (e, refused) ↦ (
    λ h. absurd (ground (arith, rw (refused, init_schema) at h)),
    λ h. absurd (ground (arith, h.0)),
  )
  | inl done ↦
      let ih = init_schema_iff exec rest in
      (λ h. (done, ih.0 (rw (done, init_schema) at h)), λ h. rw (done, init_schema) (ih.1 h.1))
]

prepare_tables_iff :
    (exec : String → Option Error) (ddl : List String)
    → (prepare_tables exec ddl ≡ running) ↔ ((init_schema true exec ddl).0 ≡ none)
unfolding prepare_tables
prepare_tables_iff exec ddl = elim (Option-cases (init_schema true exec ddl).0) [
  | inr (e, refused) ↦
      (λ h. absurd (ground (arith, rw (refused, prepare_tables) at h)), λ h. absurd (ground arith))
  | inl done ↦ (λ h. done, λ h. rw (done, prepare_tables) refl)
]

-- An attempt that failed and was waited out, in front of those from the next one on.
failed_before :
    (new_storage : ℕ → Option Error) (ends : ℕ → Bool) (i m : ℕ) (e : Error)
    → new_storage i ≡ some e
    → ends i ≡ false
    → i ≤ m
    → ¬ (i < m)
    → (is_none (new_storage m) ≡ false) × (ends m ≡ false)
failed_before new_storage ends i m e refused waited from here =
    subst (λ x. (is_none (new_storage x) ≡ false) × (ends x ≡ false)) (omega arith)
      (rw refused refl, waited)

module _ (next : Outcome) (new_storage : ℕ → Option Error) (ends : ℕ → Bool) where
  Connects-connect_from :
      (left i : ℕ) (e : Error)
      → connect_from next new_storage ends left i e ≡ running
      → (next ≡ running) × (k : ℕ) × (i ≤ k) × (k < i + left) × Connects new_storage ends i k
  unfolding connect_from
  Connects-connect_from zero i e h = absurd (ground arith)
  Connects-connect_from (suc left) i e h = elim (Option-cases (new_storage i)) [
    | inl connected ↦ (
      (rw (connected, connect_from) at h),
      i,
      le_refl i,
      omega arith,
      (connected, λ m low high. absurd (omega arith)),
    )
    | inr (e', refused) ↦ elim (Bool-cases (ends i)) [
      | inl ended ↦ absurd (ground (arith, rw (refused, ended, connect_from) at h))
      | inr waited ↦
          let (ready, k, low, high, later_on) =
            Connects-connect_from left (suc i) e' (rw (refused, waited, connect_from) at h) in
          (
            ready,
            k,
            omega arith,
            omega arith,
            (
              later_on.0,
              λ m from below. elim (dec_lt i m) [
                | yes later ↦ later_on.1 m later below
                | no here ↦ failed_before new_storage ends i m e' refused waited from here
              ],
            ),
          )
    ]
  ]

  connect_from-Connects :
      (left i : ℕ) (e : Error) (k : ℕ)
      → i ≤ k
      → k < i + left
      → Connects new_storage ends i k
      → connect_from next new_storage ends left i e ≡ next
  unfolding connect_from
  connect_from-Connects zero i e k low high h = absurd (omega arith)
  connect_from-Connects (suc left) i e k low high h = elim (dec_lt i k) [
    | no here ↦
        let connected : new_storage i ≡ none =
          subst (λ x. new_storage x ≡ none) (omega arith) h.0 in
        rw (connected, connect_from) refl
    | yes later ↦
        let (refused, waited) = h.1 i (le_refl i) later in
        elim (Option-cases (new_storage i)) [
          | inl connected ↦ absurd (ground (arith, rw connected at refused))
          | inr (e', failed_first) ↦
              rw (failed_first, waited, connect_from)
                (connect_from-Connects left (suc i) e' k later (omega arith)
                  (h.0, λ m from below. h.1 m (omega arith) below))
        ]
  ]

-- The process comes to run the poller exactly when one of the ten attempts connects, each attempt
-- before it failed and was waited out, and the connection accepts every statement of the schema.
pub start_up_iff :
    (new_storage : ℕ → Option Error) (ends : ℕ → Bool) (exec : String → Option Error)
    (ddl : List String)
    → (start_up new_storage ends exec ddl ≡ running)
      ↔ (All (λ q. exec q ≡ none) ddl × (k : ℕ) × (k < 10) × Connects new_storage ends 0 k)
unfolding start_up
start_up_iff new_storage ends exec ddl =
    let next = prepare_tables exec ddl in
    (
      λ e.
          let (ready, k, low, high, connects) =
            Connects-connect_from next new_storage ends 10 0 (other "") e in
          (
            (init_schema_iff exec ddl).0 ((prepare_tables_iff exec ddl).0 ready),
            k,
            omega arith,
            connects,
          ),
      λ (accepted, k, high, connects).
          connect_from-Connects next new_storage ends 10 0 (other "") k (omega arith) (omega arith)
            connects
          ∙ (prepare_tables_iff exec ddl).1 ((init_schema_iff exec ddl).1 accepted),
    )
