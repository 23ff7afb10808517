-- ===== src/Poller/Loops/Restart.antt =====
-- Start of internal/poller/poller.go from the rows of ClickHouse on.
use bcrstracking.Prelude.{ℕ, nat_keys, Option, none, some, true, List, [], map, ◌≡◌, ◌∙◌, All}
use bcrstracking.Prelude.GoMap.{Entries}
use bcrstracking.Model.{Time, Uuid, Rvm}
use bcrstracking.Model.Index.{index_from, index_from-HasDistinctKeys, index_from-IsKeyed}
use bcrstracking.Errors.{Error}
use bcrstracking.Storage.{Row, rvm_row, LatestBinInfo, load_active_rvms}
use bcrstracking.Storage.Merge.{Write, IsReplacing, IsUntil}
use bcrstracking.Diff.Replica.{Agrees}
use bcrstracking.Poller.{Poller}
use bcrstracking.Poller.Hydration.{hydrate_from_storage}
use bcrstracking.Poller.Hydration.Restart.{active-hydrate_from_storage}
use bcrstracking.Poller.Loops.{Service, Step, start, take_steps}
use bcrstracking.Poller.Loops.Agreement.{Follows, Answers, Ascends, written_by, take_steps-Follows}

module _ (new_uuid : ℕ → Uuid) (write : Write) where
  -- Start keeps the table in step with the poller's map: a poller that starts with no machines loads
  -- those that the table shows as live, and then its two loops run, with their tickers, the pool of
  -- workers, the buffer and the end of the context interleaved in any order, failed polls among them.
  -- At every point, if the rows of every diff so far have been written to the table, which keeps for
  -- each number the row with the latest updated_at, as ReplacingMergeTree(updated_at) does, status, name
  -- and address of all live machines in the table agree with the poller's map, which is well-formed.
  -- The poller has a client, the answers are directories with distinct numbers and nothing deleted,
  -- the rows that the database answers with show the live machines of its table, which has no row
  -- newer than the start, the clock of the diffs does not run backwards from the start on, and the
  -- load of the bins may bring anything.
  pub start-Follows :
      (fault : Row → Error) (rs : List Rvm) (bins : List LatestBinInfo × Option Error) (p : Poller)
      (table : Entries ℕ Rvm) (begin : Time) (ts : List Step) (s : Service)
      → IsReplacing write
      → p.active_rvms ≡ []
      → p.has_client ≡ true
      → Agrees table (index_from rs [])
      → IsUntil begin table
      → All (Answers new_uuid write) ts
      → Ascends new_uuid write begin ts
      → let loaded =
          load_active_rvms fault true
            (record { error = none; rows = map rvm_row rs; rows_error = none }) in
        let first = start (hydrate_from_storage (some (loaded, bins)) p) in
        take_steps new_uuid ts first ≡ some s
        → Follows new_uuid write s.poller (written_by new_uuid write ts first table)
  unfolding start
  start-Follows fault rs bins p table begin ts s replaces fresh client shown until answers ascends
        ran =
      let (active, kept) = active-hydrate_from_storage fault rs bins p fresh in
      take_steps-Follows new_uuid write ts _ s begin table replaces ran answers ascends until
        (record {
          client = kept ∙ client;
          well_formed =
              rw active (index_from-HasDistinctKeys rs [] tt, index_from-IsKeyed rs [] tt);
          agrees = rw active shown;
        })
