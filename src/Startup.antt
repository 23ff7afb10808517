-- ===== src/Startup.antt =====
-- cmd/tracker/main.go, from its beginning to the start of the poller: the settings, the loop that waits
-- for the database, and the set-up of its tables. The environment, what the driver answers, and
-- whether the context ends the wait after an attempt, are arguments.
pub mod Ready
pub mod Launch
use bcrstracking.Prelude.{
  ℕ, zero, suc, String, Option, none, some, Bool, true, List, if◌then◌else◌, string_keys, ◌==◌,
  ◌||◌,
}
use bcrstracking.Errors.{Error, other, ok, err}
use bcrstracking.Config.{Config, Parsers, load}
use bcrstracking.Metrics.{Metrics, new_metrics}
use bcrstracking.Storage.{init_schema}
use bcrstracking.Storage.Schema.{schema_ddl}
use bcrstracking.Storage.Lifecycle.{NewReply, new_storage}

-- The process runs the poller, or exits: with the context, or with an error.
pub data Outcome : Type 0 where
  running interrupted : Outcome
  failed : Error → Outcome

-- The attempts that the loop has left, from the i-th on, with the error of the one before: what
-- follows a success, or how the process exits.
unfoldable pub connect_from : Outcome → (ℕ → Option Error) → (ℕ → Bool) → ℕ → ℕ → Error → Outcome
connect_from next new_storage ends zero i e = failed e
connect_from next new_storage ends (suc left) i e = elim (new_storage i) [
  | none ↦ next
  | some e' ↦
      let rest = connect_from next new_storage ends left (suc i) e' in
      if ends i then interrupted else rest
]

unfoldable pub prepare_tables : (String → Option Error) → List String → Outcome
unfolding init_schema
prepare_tables exec ddl = elim (init_schema true exec ddl).0 [ some e ↦ failed e | none ↦ running ]

-- main, up to `go pollService.Start(ctx)`. There is always an attempt before the loop gives up, so
-- the first error is not used.
unfoldable pub start_up :
    (ℕ → Option Error) → (ℕ → Bool) → (String → Option Error) → List String → Outcome
unfolding connect_from prepare_tables
start_up new_storage ends exec ddl =
    connect_from (prepare_tables exec ddl) new_storage ends 10 0 (other "")

-- The level of the log.
pub data Level : Type 0 where
  debug info warn error : Level

-- `to_lower` is strings.ToLower.
unfoldable pub level_of : (String → String) → String → Level
level_of to_lower text =
    let lower = to_lower text in
    if lower == "debug"
    then debug
    else if lower == "warn" || lower == "warning"
    then warn
    else if lower == "error"
    then error
    else info

-- The error of storage.New at an attempt.
abbrev pub attempt : Config → Option Metrics → (ℕ → NewReply) → ℕ → Option Error
attempt cfg metrics replies i = elim (new_storage cfg metrics (replies i)).0 [
  | err e ↦ some e
  | ok handle ↦ none
]

-- main from its beginning, with the outcome and the level that it has set.
unfoldable pub launch :
    (String → String)
    → Parsers
    → (String → String)
    → (ℕ → NewReply)
    → (ℕ → Bool)
    → (String → Option Error)
    → Outcome × Level
unfolding level_of
launch to_lower parsers env replies ends exec = elim (load parsers env) [
  | err e ↦ (failed e, info)
  | ok cfg ↦ (
    start_up (attempt cfg (some new_metrics) replies) ends exec schema_ddl,
    level_of to_lower cfg.log_level,
  )
]
