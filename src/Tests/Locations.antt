-- ===== src/Tests/Locations.antt =====
-- Polls of the location directory.
use mathlib.Core.Option
use bcrstracking.Prelude.{
  nat_keys, string_keys, list_keys, ◌≡◌, refl, true, none, some, [], ◌∷◌, ◌++◌, All,
}
use bcrstracking.Prelude.GoMap.{get_or}
use bcrstracking.Metrics.{new_metrics}
use bcrstracking.Batch.{BatchBuffer, new_batch_buffer, enqueue_bin, enqueues_bin, run, step}
use bcrstracking.Diff.{diff_state}
use bcrstracking.Poller.{Poller, new_poller}
use bcrstracking.Poller.Locations.{PollClock, poll_locations}
use bcrstracking.Poller.Locations.Gauges.{rvm_total-poll_locations}
use bcrstracking.Poller.Locations.Queue.{IsBystander, Sends, poll_locations_queue}
use bcrstracking.Poller.Locations.History.{first_seen_forgotten}
use bcrstracking.Tests.Data.{yesterday, today, known, uuid, bin}

abbrev buffer : BatchBuffer
buffer = new_batch_buffer none none true

-- A poller that knows yesterday's machines.
abbrev poller : Poller
poller = record (new_poller none true (some buffer) (some new_metrics)) { active_rvms = known }

abbrev clock : PollClock
clock = record {
  now = 9;
  duration = 4;
  unix = 1700000000;
  meanwhile = λ n buf. enqueue_bin (bin n "CAN" 500 30) buf;
}

rvm_total-poll_locations_example :
    Option.map
      (λ m. get_or 0 ("FULL" ∷ "RVMS001" ∷ "" ∷ []) m.rvm_total)
      (poll_locations uuid poller (some today) clock).metrics
    ≡ some 2
unfolding new_poller
rvm_total-poll_locations_example =
    rvm_total-poll_locations uuid poller today clock new_metrics "FULL" "RVMS001" refl refl

-- The pool sends a bin before each row of the poll.
clock-IsBystander : IsBystander clock.meanwhile
unfolding run step
clock-IsBystander n b = record {
  schedule = enqueues_bin (bin n "CAN" 500 30) ∷ [];
  ran = refl;
  machines = refl;
  changes = refl;
}

poll_locations_queue_example :
    let diff = diff_state uuid known today 9 in
    (buf : BatchBuffer) × ((poll_locations uuid poller (some today) clock).buffer ≡ some buf)
    × Sends (diff.added ++ (diff.updated ++ diff.removed)) diff.events buffer buf
unfolding new_poller
poll_locations_queue_example =
    poll_locations_queue uuid poller today clock buffer refl refl clock-IsBystander

first_seen_forgotten_example :
    let next = poll_locations uuid poller (some yesterday) clock in
    let diff = diff_state uuid next.active_rvms today 20 in
    All (λ r. r.first_seen_at ≡ 0) diff.updated × All (λ r. r.first_seen_at ≡ 0) diff.removed
unfolding new_poller
first_seen_forgotten_example =
    first_seen_forgotten uuid poller yesterday today clock 20 refl
      (refl, (refl, (refl, (refl, tt))))
