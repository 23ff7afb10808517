-- ===== src/Tests/Startup.antt =====
-- A database that comes up while the process waits for it.
use bcrstracking.Prelude.{
  List, String, ℕ, zero, suc, ◌<◌, Option, none, some, false, [], ◌∷◌, ◌≡◌, ◌↔◌, refl, All,
  string_keys, ◌==◌, if◌then◌else◌,
}
use bcrstracking.Errors.{Error, other, ok}
use bcrstracking.Startup.{running, failed, start_up, launch, level_of, warn}
use bcrstracking.Storage.Schema.{schema_ddl}
use bcrstracking.Storage.Lifecycle.{NewReply, new_storage}
use bcrstracking.Config.{Config, load}
use bcrstracking.Startup.Launch.{Reaches, launch_iff}
use bcrstracking.Tests.Settings.{parsers, unset}

abbrev third_time : ℕ → Option Error
third_time zero = some (other "refused")
third_time (suc zero) = some (other "refused")
third_time _ = none

abbrev statements : List String
statements = "CREATE TABLE" ∷ []

abbrev exec : String → Option Error
exec q = none

starts_test : start_up third_time (λ i. false) exec statements ≡ running
unfolding start_up
starts_test = refl

gives_up_test :
    start_up (λ i. some (other "refused")) (λ i. false) exec [] ≡ failed (other "refused")
unfolding start_up
gives_up_test = refl

abbrev third_reply : ℕ → NewReply
third_reply zero = record { opened = none; pinged = some (other "refused") }
third_reply (suc zero) = record { opened = some (other "no route"); pinged = none }
third_reply _ = record { opened = none; pinged = none }

abbrev lower : String → String
lower text = if text == "WARN" then "warn" else text

level_test : level_of lower "WARN" ≡ warn
unfolding level_of
level_test = refl

launch_test : (launch lower parsers unset third_reply (λ i. false) exec).0 ≡ running
unfolding launch start_up load schema_ddl new_storage
launch_test = refl

launch_iff_example : ((launch lower parsers unset third_reply (λ i. false) exec).0 ≡ running) ↔ (
    (cfg : Config) × (load parsers unset ≡ ok cfg)
    × All (λ q. exec q ≡ none) schema_ddl
    × (k : ℕ) × (k < 10)
    × Reaches cfg third_reply (λ i. false) k)
launch_iff_example = launch_iff lower parsers unset third_reply (λ i. false) exec
