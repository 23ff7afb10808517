-- ===== src/Poller/Locations/History.antt =====
-- Polls one after another: the poller's map, and when a machine was first seen.
use bcrstracking.Prelude.{
  ℕ, nat_keys, Option, none, some, true, List, [], ◌≡◌, refl, sym, ◌∙◌, arith, All, All-mono,
  All-map-keep_if, All-intro,
}
use bcrstracking.Prelude.GoMap.{lookup, HasDistinctKeys, entries-lookup}
use bcrstracking.Model.{Time, Uuid, Rvm}
use bcrstracking.Model.Index.{
  index_from, lookup-index_from, find_last-All, HasDistinctIds, IsKeyed, index_from-HasDistinctKeys,
}
use bcrstracking.Diff.Spec.{has_changed, known_row, as_gone, is_gone}
use bcrstracking.Diff.Rows.{diff_state-rows}
use bcrstracking.Diff.{diff_state}
use bcrstracking.Poller.{Poller}
use bcrstracking.Poller.Locations.{poll_locations, accept_locations, PollClock}

-- The poller's map has distinct keys, and each machine stands under its own number.
abbrev pub IsWellFormed : Poller → Type 0
IsWellFormed p = HasDistinctKeys p.active_rvms × IsKeyed p.active_rvms

-- A directory as the API and the decoder give it: distinct numbers, and nothing marked as deleted.
abbrev pub IsDirectory : List Rvm → Type 0
IsDirectory locations = HasDistinctIds locations × All (λ r. r.is_deleted ≡ 0) locations

module _ (new_uuid : ℕ → Uuid) where
  pub active-poll_locations :
      (p : Poller) (locations : List Rvm) (clock : PollClock)
      → p.has_client ≡ true
      → (poll_locations new_uuid p (some locations) clock).active_rvms ≡ index_from locations []
  unfolding poll_locations accept_locations
  active-poll_locations p locations clock client = rw client refl

  pub active-poll_failed :
      (p : Poller) (clock : PollClock)
      → ((poll_locations new_uuid p none clock).active_rvms ≡ p.active_rvms)
        × ((poll_locations new_uuid p none clock).has_client ≡ p.has_client)
  unfolding poll_locations
  active-poll_failed p clock = ground arith

  pub client-poll_locations :
      (p : Poller) (locations : List Rvm) (clock : PollClock)
      → (poll_locations new_uuid p (some locations) clock).has_client ≡ p.has_client
  unfolding poll_locations accept_locations
  client-poll_locations p locations clock = ground arith

lookup_All :
    (P : Rvm → Type 0) (locations : List Rvm) (id : ℕ) (r : Rvm)
    → All P locations
    → lookup id (index_from locations []) ≡ some r
    → P r
unfolding lookup
lookup_All P locations id r all e =
    (find_last-All P id locations none r all (λ q. cc)
      (sym (lookup-index_from id locations []) ∙ e)).1

-- The known entry of a machine that is revised.
revised_row :
    (now : Time) (known : Option Rvm) (r : Rvm)
    → ((prev : Rvm) → known ≡ some prev → prev.first_seen_at ≡ 0)
    → has_changed known r ≡ true
    → (known_row now known r).first_seen_at ≡ 0
revised_row now none r seen e = cc
revised_row now (some prev) r seen e = seen prev refl

module _ (new_uuid : ℕ → Uuid) where
  -- A machine's first-seen time does not survive a poll: the poll keeps the machines as they were
  -- decoded, with no first-seen time, so whatever time was known before, every row that the diff of
  -- the next directory updates or removes has the zero time as its first-seen time.
  pub first_seen_forgotten :
      (p : Poller) (first second : List Rvm) (clock : PollClock) (now : Time)
      → p.has_client ≡ true
      → All (λ r. r.first_seen_at ≡ 0) first
      → let next = poll_locations new_uuid p (some first) clock in
        let diff = diff_state new_uuid next.active_rvms second now in
        All (λ r. r.first_seen_at ≡ 0) diff.updated × All (λ r. r.first_seen_at ≡ 0) diff.removed
  first_seen_forgotten p first second clock now client decoded =
      let m = index_from first [] in
      let all_rows = diff_state-rows new_uuid m second now in
      rw (active-poll_locations new_uuid p first clock client, all_rows.1, all_rows.2)
        (
          All-map-keep_if (λ r. r.first_seen_at ≡ 0) (λ r. has_changed (lookup r.id m) r)
              (λ r. known_row now (lookup r.id m) r) second
              (All-intro
                (λ r e.
                  revised_row now (lookup r.id m) r
                    (λ prev. lookup_All (λ x. x.first_seen_at ≡ 0) first r.id prev decoded) e)
                second),
          All-map-keep_if (λ r. r.first_seen_at ≡ 0) (is_gone second) (λ entry. as_gone now entry.1)
              m
              (All-mono
                (λ entry found e.
                  lookup_All (λ x. x.first_seen_at ≡ 0) first entry.0 entry.1 decoded found)
                m (entries-lookup m (index_from-HasDistinctKeys first [] tt))),
        )
