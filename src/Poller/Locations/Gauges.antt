-- ===== src/Poller/Locations/Gauges.antt =====
-- The gauge bcrs_rvm_total after a poll.
use mathlib.Core.Option
use bcrstracking.Prelude.{
  ℕ, suc, ◌+◌, string_keys, list_keys, nat_keys, String, some, true, List, [], ◌∷◌, if◌then◌else◌,
  ◌==◌, ◌&&◌, ◌≡◌, ap, ◌∙◌, arith, beq_self,
}
use bcrstracking.Prelude.GoMap.{get_or, get_or-insert, get_or-empty}
use bcrstracking.Model.{Uuid, Rvm}
use bcrstracking.Metrics.{Metrics, set_rvm_total, reset_rvm_total}
use bcrstracking.Poller.{Poller}
use bcrstracking.Poller.Counts.{Counts, accumulate, set_gauges}
use bcrstracking.Poller.Counts.Gauges.{
  count_at, count_at-empty, count_at-accumulate, IsNested, accumulate-IsNested, gauge-set_gauges,
}
use bcrstracking.Poller.Locations.{
  count_statuses, put_rvm_total, accept_locations, poll_locations, PollClock,
}

-- How many machines of the list have the status and the supplier.
abbrev pub tally : String → String → List Rvm → ℕ
tally status supplier [] = 0
tally status supplier (loc ∷ rest) =
    let others = tally status supplier rest in
    if loc.status == status && loc.supplier_id == supplier then suc others else others

count_at-count_statuses :
    (status supplier : String) (locs : List Rvm) (counts : Counts)
    → count_at status supplier (count_statuses locs counts)
      ≡ count_at status supplier counts + tally status supplier locs
unfolding count_statuses
count_at-count_statuses status supplier [] counts = omega arith
count_at-count_statuses status supplier (loc ∷ rest) counts = ground (
  arith,
  count_at-count_statuses status supplier rest (accumulate loc.status loc.supplier_id 1 counts),
  count_at-accumulate loc.status loc.supplier_id 1 status supplier counts,
)

count_statuses-IsNested :
    (locs : List Rvm) (counts : Counts) → IsNested counts → IsNested (count_statuses locs counts)
unfolding count_statuses
count_statuses-IsNested [] counts n = n
count_statuses-IsNested (loc ∷ rest) counts n =
    count_statuses-IsNested rest _ (accumulate-IsNested loc.status loc.supplier_id 1 counts n)

abbrev gauge : String → String → String → Metrics → ℕ
gauge label status supplier m = get_or 0 (status ∷ supplier ∷ label ∷ []) m.rvm_total

gauge-set_rvm_total :
    (label s u status supplier : String) (count : ℕ) (m : Metrics)
    → gauge label status supplier (put_rvm_total label s u count m)
      ≡ (if s == status && u == supplier then count else gauge label status supplier m)
unfolding set_rvm_total
gauge-set_rvm_total label s u status supplier count m =
    rw
      (
        get_or-insert 0 count (s ∷ u ∷ label ∷ []) (status ∷ supplier ∷ label ∷ []) m.rvm_total,
        beq_self label,
      )
      (ground arith)

-- The loops over statusCounts leave each gauge with the number of machines that it stands for.
pub gauge-count_statuses :
    (label status supplier : String) (locs : List Rvm) (m : Metrics)
    → gauge label status supplier
        (set_gauges (put_rvm_total label) (count_statuses locs []) (reset_rvm_total m))
      ≡ tally status supplier locs
unfolding reset_rvm_total
gauge-count_statuses label status supplier locs m =
    gauge-set_gauges (put_rvm_total label) (gauge label) (gauge-set_rvm_total label) status supplier
      (count_statuses locs []) (reset_rvm_total m) (count_statuses-IsNested locs [] (tt, tt))
      (get_or-empty 0 (status ∷ supplier ∷ label ∷ []))
    ∙ count_at-count_statuses status supplier locs []
    ∙ omega (arith, count_at-empty status supplier)

-- After a successful poll with metrics, the gauge of every status and supplier, under the empty
-- coordinate colour, is the number of machines of the directory with that status and supplier: 0 for
-- a pair that the directory no longer has, whatever the gauge was before.
pub rvm_total-poll_locations :
    (new_uuid : ℕ → Uuid) (p : Poller) (locations : List Rvm) (clock : PollClock) (m : Metrics)
    (status supplier : String)
    → p.has_client ≡ true
    → p.metrics ≡ some m
    → Option.map
        (λ m'. get_or 0 (status ∷ supplier ∷ "" ∷ []) m'.rvm_total)
        (poll_locations new_uuid p (some locations) clock).metrics
      ≡ some (tally status supplier locations)
unfolding poll_locations accept_locations
rvm_total-poll_locations new_uuid p locations clock m status supplier client e =
    rw (client, e) (ap some (gauge-count_statuses "" status supplier locations _))
