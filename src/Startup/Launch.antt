-- ===== src/Startup/Launch.antt =====
-- When cmd/tracker/main.go comes to run the poller, from the environment on.
use bcrstracking.Prelude.{
  ℕ, ◌<◌, String, Option, none, some, Bool, ◌≡◌, ◌↔◌, inl, inr, arith, All, Option-cases,
}
use bcrstracking.Errors.{Error, ok, Result-cases}
use bcrstracking.Config.{Config, Parsers, load}
use bcrstracking.Metrics.{Metrics, new_metrics}
use bcrstracking.Storage.Schema.{schema_ddl}
use bcrstracking.Storage.Lifecycle.{NewReply, new_storage}
use bcrstracking.Startup.{running, attempt, launch}
use bcrstracking.Startup.Ready.{Connects, start_up_iff}

-- An attempt has no error when the driver opens the connection and the database answers the ping.
attempt_iff :
    (cfg : Config) (metrics : Option Metrics) (replies : ℕ → NewReply) (i : ℕ)
    → (attempt cfg metrics replies i ≡ none)
      ↔ (((replies i).opened ≡ none) × ((replies i).pinged ≡ none))
unfolding new_storage
attempt_iff cfg metrics replies i = elim (Option-cases (replies i).opened) [
  | inr (e, failed) ↦ ground arith
  | inl opened ↦ elim (Option-cases (replies i).pinged) [
    | inr (e, failed) ↦ ground arith
    | inl pinged ↦ ground arith
  ]
]

-- The k-th attempt opens a connection whose ping is answered, and each one before it failed and was
-- waited out.
pub record Reaches (cfg : Config) (replies : ℕ → NewReply) (ends : ℕ → Bool) (k : ℕ) : Type 0 where
  pub opened : (replies k).opened ≡ none
  pub pinged : (replies k).pinged ≡ none
  pub earlier : Connects (attempt cfg (some new_metrics) replies) ends 0 k

-- main comes to run the poller exactly when Load accepts the environment, one of ten attempts opens a
-- connection whose ping is answered, each attempt before it failed and was waited out, and the
-- database accepts every statement of SchemaDDL.
pub launch_iff :
    (to_lower : String → String) (parsers : Parsers) (env : String → String)
    (replies : ℕ → NewReply) (ends : ℕ → Bool) (exec : String → Option Error)
    → ((launch to_lower parsers env replies ends exec).0 ≡ running) ↔ (
        (cfg : Config) × (load parsers env ≡ ok cfg)
        × All (λ q. exec q ≡ none) schema_ddl
        × (k : ℕ) × (k < 10)
        × Reaches cfg replies ends k)
unfolding launch
launch_iff to_lower parsers env replies ends exec = elim (Result-cases (load parsers env)) [
  | inr (e, refused) ↦ (λ h. absurd (ground arith), λ h. absurd (ground (arith, h.1)))
  | inl (cfg, accepted) ↦
      let ready = start_up_iff (attempt cfg (some new_metrics) replies) ends exec schema_ddl in
      (
        λ h.
            let (statements, k, low, connects) = ready.0 (rw (accepted, launch) at h) in
            let (opened, pinged) = (attempt_iff cfg (some new_metrics) replies k).0 connects.0 in
            (
              cfg,
              accepted,
              statements,
              k,
              low,
              record { opened = opened; pinged = pinged; earlier = connects },
            ),
        λ (cfg', accepted', statements, k, low, reaches).
            rw (accepted', launch)
              ((start_up_iff (attempt cfg' (some new_metrics) replies) ends exec schema_ddl).1
                (statements, k, low, reaches.earlier)),
      )
]
