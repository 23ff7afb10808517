-- ===== src/Poller/Loops/Agreement.antt =====
-- The poller's map while the two loops run, against the table that the rows of its diffs are written to.
use bcrstracking.Prelude.{
  ℕ, nat_keys, Option, none, some, Bool, true, List, [], ◌∷◌, ◌≡◌, refl, ◌∙◌, arith, All,
  Option-cases, List-cases, inl, inr, ◌≢◌, eq_of-some, ◌≤◌,
}
use bcrstracking.Prelude.GoMap.{Entries}
use bcrstracking.Model.{Time, Duration, Uuid, Rvm, BinStatus}
use bcrstracking.Model.Index.{index_from-HasDistinctKeys, index_from-IsKeyed}
use bcrstracking.Batch.{BatchBuffer, step}
use bcrstracking.Storage.Merge.{Write, IsReplacing, write_all, IsUntil, IsUntil-mono}
use bcrstracking.Diff.Replica.{Agrees, rows, write_all-rows, diff_state-Agrees}
use bcrstracking.Poller.{Poller}
use bcrstracking.Poller.Locations.{PollClock, poll_locations}
use bcrstracking.Poller.Locations.History.{
  IsWellFormed, IsDirectory, active-poll_locations, active-poll_failed, client-poll_locations,
}
use bcrstracking.Poller.Bins.{finish_bins, active_list, ScrapedBin}
use bcrstracking.Poller.Workers.{Act, move, works, collects}
use bcrstracking.Poller.Loops.{
  Service, Step, take_step, take_steps, pool_step, located, lists_bins, worker_moves,
  collector_moves, binned, locations_tick, bins_tick, locations_repeat, bins_repeat,
  locations_leave, bins_leave, cancel, buffer_moves,
}

-- The map and the client of a poller are those of another.
record Keeps (p p' : Poller) : Type 0 where
  active : p'.active_rvms ≡ p.active_rvms
  client : p'.has_client ≡ p.has_client

finish_bins-Keeps :
    (p : Poller) (all_bins : List ScrapedBin) (buffer : Option BatchBuffer) (cancelled : Bool)
    (duration : Duration) (unix : ℕ)
    → Keeps p (finish_bins p all_bins buffer cancelled duration unix)
unfolding finish_bins
finish_bins-Keeps p all_bins buffer cancelled duration unix = record {
  active = refl;
  client = refl;
}

pool_step-Keeps :
    (api : Rvm → Option (List BinStatus)) (clock : Rvm → Time) (act : Act) (s s' : Service)
    → pool_step api clock act s ≡ some s'
    → Keeps s.poller s'.poller
unfolding pool_step
pool_step-Keeps api clock act s s' e = elim (Option-cases s.pool) [
  | inl nobody ↦ absurd (ground arith)
  | inr (pool, here) ↦
      elim (Option-cases (
        move s.poller.has_client api clock act
          (record pool { buffer = s.poller.buffer; cancelled = s.cancelled }))) [
            | inl stuck ↦ absurd (ground arith)
            | inr (pool', moved) ↦ ground arith
          ]
]

module _ (new_uuid : ℕ → Uuid) (write : Write) where
  take_step-Keeps :
      (t : Step) (s s' : Service)
      → ((reply : Option (List Rvm)) (clock : PollClock) → t ≢ located reply clock)
      → take_step new_uuid t s ≡ some s'
      → Keeps s.poller s'.poller
  unfolding take_step
  take_step-Keeps (located reply clock) s s' other e = absurd (other reply clock refl)
  take_step-Keeps lists_bins s s' other e = elim (List-cases (active_list s.poller)) [
    | inl none_left ↦ record { active = ground arith; client = ground arith }
    | inr (r, rest, more) ↦ record { active = ground arith; client = ground arith }
  ]
  take_step-Keeps (worker_moves i api clock) s s' other e =
      pool_step-Keeps api clock (works i) s s' (ground arith)
  take_step-Keeps collector_moves s s' other e =
      pool_step-Keeps (λ r. none) (λ r. 0) collects s s' (ground arith)
  take_step-Keeps (binned duration unix) s s' other e = elim (Option-cases s.pool) [
    | inl nobody ↦ absurd (ground arith)
    | inr (pool, here) ↦
        let kept =
          finish_bins-Keeps s.poller pool.all_bins s.poller.buffer s.cancelled duration unix in
        record { active = ground (arith, kept.active); client = ground (arith, kept.client) }
  ]
  take_step-Keeps locations_tick s s' other e = record {
    active = ground arith;
    client = ground arith;
  }
  take_step-Keeps bins_tick s s' other e = record { active = ground arith; client = ground arith }
  take_step-Keeps locations_repeat s s' other e = record {
    active = ground arith;
    client = ground arith;
  }
  take_step-Keeps bins_repeat s s' other e = record { active = ground arith; client = ground arith }
  take_step-Keeps locations_leave s s' other e = record {
    active = ground arith;
    client = ground arith;
  }
  take_step-Keeps bins_leave s s' other e = record { active = ground arith; client = ground arith }
  take_step-Keeps cancel s s' other e = record { active = ground arith; client = ground arith }
  take_step-Keeps (buffer_moves event) s s' other e = elim (Option-cases s.poller.buffer) [
    | inl nobody ↦ absurd (ground arith)
    | inr (buf, found) ↦ elim (Option-cases (step event buf)) [
      | inl stuck ↦ absurd (ground arith)
      | inr (buf', moved) ↦ record { active = ground arith; client = ground arith }
    ]
  ]

  -- The table after the rows of the diff of a poll.
  pub written : Step → Service → Entries ℕ Rvm → Entries ℕ Rvm
  written (located (some locations) clock) s table =
      write_all write (rows new_uuid s.poller.active_rvms locations clock.now) table
  written _ s table = table

  pub written_by : List Step → Service → Entries ℕ Rvm → Entries ℕ Rvm
  unfolding written
  written_by [] s table = table
  written_by (t ∷ ts) s table = elim (take_step new_uuid t s) [
    | none ↦ table
    | some s' ↦ written_by ts s' (written t s table)
  ]

  abbrev pub Answers : Step → Type 0
  Answers (located (some locations) clock) = IsDirectory locations
  Answers _ = Unit {0}

  pub record Follows (p : Poller) (table : Entries ℕ Rvm) : Type 0 where
    pub client : p.has_client ≡ true
    pub well_formed : IsWellFormed p
    pub agrees : Agrees table p.active_rvms

  Follows-Keeps :
      (p p' : Poller) (table : Entries ℕ Rvm) → Keeps p p' → Follows p table → Follows p' table
  Follows-Keeps p p' table k h = record {
    client = k.client ∙ h.client;
    well_formed = rw k.active h.well_formed;
    agrees = rw k.active h.agrees;
  }

  Follows-poll_locations :
      (p : Poller) (locations : List Rvm) (clock : PollClock) (table : Entries ℕ Rvm)
      → IsReplacing write
      → IsDirectory locations
      → IsUntil clock.now table
      → Follows p table
      → Follows
          (poll_locations new_uuid p (some locations) clock)
          (write_all write (rows new_uuid p.active_rvms locations clock.now) table)
  Follows-poll_locations p locations clock table replaces answer until h =
      let same = active-poll_locations new_uuid p locations clock h.client in
      record {
        client = client-poll_locations new_uuid p locations clock ∙ h.client;
        well_formed =
            rw same
              (index_from-HasDistinctKeys locations [] tt, index_from-IsKeyed locations [] tt);
        agrees = rw same (
            diff_state-Agrees new_uuid p.active_rvms locations clock.now write table replaces
              answer.0 answer.1 h.well_formed.0 h.well_formed.1 until h.agrees);
      }

  poller-located :
      (reply : Option (List Rvm)) (clock : PollClock) (s s' : Service)
      → take_step new_uuid (located reply clock) s ≡ some s'
      → s'.poller ≡ poll_locations new_uuid s.poller reply clock
  unfolding take_step
  poller-located reply clock s s' e = ground arith

  -- The time of the last diff, if the step is one of a poll that the API has answered.
  abbrev pub last_diff : Time → Step → Time
  last_diff last (located (some locations) clock) = clock.now
  last_diff last _ = last

  -- The clock of the diffs does not run backwards.
  abbrev pub Ascends : Time → List Step → Type 0
  Ascends last [] = Unit {0}
  Ascends last (t ∷ ts) = (last ≤ last_diff last t) × Ascends (last_diff last t) ts

  take_step-Follows :
      (t : Step) (s s' : Service) (last : Time) (table : Entries ℕ Rvm)
      → IsReplacing write
      → take_step new_uuid t s ≡ some s'
      → Answers t
      → last ≤ last_diff last t
      → IsUntil last table
      → Follows s.poller table
      → Follows s'.poller (written t s table) × IsUntil (last_diff last t) (written t s table)
  unfolding written
  take_step-Follows (located none clock) s s' last table replaces e answer le until h =
      let (active, client) = active-poll_failed new_uuid s.poller clock in
      (
        rw (poller-located none clock s s' e)
            (Follows-Keeps s.poller _ table (record { active = active; client = client }) h),
        until,
      )
  take_step-Follows (located (some locations) clock) s s' last table replaces e answer le until h =
      let later = IsUntil-mono last clock.now table le until in
      (
        rw (poller-located (some locations) clock s s' e)
            (Follows-poll_locations s.poller locations clock table replaces answer later h),
        (write_all-rows new_uuid s.poller.active_rvms locations clock.now write table replaces
            later).1,
      )
  take_step-Follows t s s' last table replaces e answer le until h = (
    Follows-Keeps s.poller s'.poller table (take_step-Keeps t s s' (λ reply clock q. cc q) e) h,
    until,
  )

  pub take_steps-Follows :
      (ts : List Step) (s s' : Service) (last : Time) (table : Entries ℕ Rvm)
      → IsReplacing write
      → take_steps new_uuid ts s ≡ some s'
      → All Answers ts
      → Ascends last ts
      → IsUntil last table
      → Follows s.poller table
      → Follows s'.poller (written_by ts s table)
  unfolding take_steps written_by
  take_steps-Follows [] s s' last table replaces ran answers ascends until h =
      let same : s ≡ s' = eq_of-some ran in rw⁻¹ same h
  take_steps-Follows (t ∷ ts) s s' last table replaces ran answers ascends until h =
      elim (Option-cases (take_step new_uuid t s)) [
        | inl stuck ↦ absurd (ground arith)
        | inr (next, went) ↦
            let (follows, later) =
              take_step-Follows t s next last table replaces went answers.0 ascends.0 until h in
            rw (went, written_by)
              (take_steps-Follows ts next s' (last_diff last t) (written t s table) replaces
                (rw (went, take_steps) at ran) answers.1 ascends.1 later follows)
      ]
