-- ===== src/Poller/Locations/Queue.antt =====
-- What a poll hands to the batch buffer, while the other goroutines use the buffer too.
use bcrstracking.Prelude.{
  ℕ, suc, ◌+◌, some, true, List, [], ◌∷◌, ◌++◌, length, ◌≡◌, refl, ap, ◌∙◌, arith, append-nil,
  Option-cases, inl, inr, eq_of-some, subst,
}
use bcrstracking.Model.{Uuid, Rvm, RvmEvent}
use bcrstracking.Batch.{
  BatchBuffer, Event, run, step, enqueue_rvm, enqueue_event, enqueues_rvm, enqueues_event, works,
  enqueues_bin,
}
use bcrstracking.Diff.{DiffResult, diff_state}
use bcrstracking.Poller.{Poller}
use bcrstracking.Poller.Locations.{
  enqueue_rvms, enqueue_events, enqueue_diff, poll_locations, accept_locations, PollClock,
}

-- The machines and the events that a schedule sends.
abbrev pub sent_rvms : List Event → List Rvm
sent_rvms [] = []
sent_rvms (enqueues_rvm r ∷ es) = r ∷ sent_rvms es
sent_rvms (enqueues_event x ∷ es) = sent_rvms es
sent_rvms (enqueues_bin x ∷ es) = sent_rvms es
sent_rvms (works act ∷ es) = sent_rvms es

abbrev pub sent_events : List Event → List RvmEvent
sent_events [] = []
sent_events (enqueues_event x ∷ es) = x ∷ sent_events es
sent_events (enqueues_rvm r ∷ es) = sent_events es
sent_events (enqueues_bin x ∷ es) = sent_events es
sent_events (works act ∷ es) = sent_events es

-- A schedule of the buffer leads from one state to another, and sends these rows in this order.
pub record Sends (rvms : List Rvm) (events : List RvmEvent) (b b' : BatchBuffer) : Type 0 where
  pub schedule : List Event
  pub ran : run schedule b ≡ some b'
  pub machines : sent_rvms schedule ≡ rvms
  pub changes : sent_events schedule ≡ events

run-append :
    (es fs : List Event) (b b' : BatchBuffer) → run es b ≡ some b' → run (es ++ fs) b ≡ run fs b'
unfolding run
run-append [] fs b b' ran = ap (run fs) (eq_of-some ran)
run-append (e ∷ es) fs b b' ran = elim (Option-cases (step e b)) [
  | inl stuck ↦ absurd (ground arith)
  | inr (next, made) ↦ rw (made, run) (run-append es fs next b' (rw (made, run) at ran))
]

sent_rvms-append : (es fs : List Event) → sent_rvms (es ++ fs) ≡ sent_rvms es ++ sent_rvms fs
sent_rvms-append [] fs = refl
sent_rvms-append (enqueues_rvm r ∷ es) fs = ap (◌∷◌ r) (sent_rvms-append es fs)
sent_rvms-append (enqueues_event x ∷ es) fs = sent_rvms-append es fs
sent_rvms-append (enqueues_bin x ∷ es) fs = sent_rvms-append es fs
sent_rvms-append (works act ∷ es) fs = sent_rvms-append es fs

sent_events-append :
    (es fs : List Event) → sent_events (es ++ fs) ≡ sent_events es ++ sent_events fs
sent_events-append [] fs = refl
sent_events-append (enqueues_event x ∷ es) fs = ap (◌∷◌ x) (sent_events-append es fs)
sent_events-append (enqueues_rvm r ∷ es) fs = sent_events-append es fs
sent_events-append (enqueues_bin x ∷ es) fs = sent_events-append es fs
sent_events-append (works act ∷ es) fs = sent_events-append es fs

Sends-trans :
    (rs rs' : List Rvm) (xs xs' : List RvmEvent) (b b' b'' : BatchBuffer)
    → Sends rs xs b b'
    → Sends rs' xs' b' b''
    → Sends (rs ++ rs') (xs ++ xs') b b''
Sends-trans rs rs' xs xs' b b' b'' h k = record {
  schedule = h.schedule ++ k.schedule;
  ran = run-append h.schedule k.schedule b b' h.ran ∙ k.ran;
  machines =
      sent_rvms-append h.schedule k.schedule
      ∙ ap (λ l. l ++ sent_rvms k.schedule) h.machines
      ∙ ap (λ l. rs ++ l) k.machines;
  changes =
      sent_events-append h.schedule k.schedule
      ∙ ap (λ l. l ++ sent_events k.schedule) h.changes
      ∙ ap (λ l. xs ++ l) k.changes;
}

Sends-nothing : (b : BatchBuffer) → Sends [] [] b b
unfolding run
Sends-nothing b = record { schedule = []; ran = refl; machines = refl; changes = refl }

Sends-enqueue_rvm : (r : Rvm) (b : BatchBuffer) → Sends (r ∷ []) [] b (enqueue_rvm r b)
unfolding run step
Sends-enqueue_rvm r b = record {
  schedule = enqueues_rvm r ∷ [];
  ran = refl;
  machines = refl;
  changes = refl;
}

Sends-enqueue_event : (x : RvmEvent) (b : BatchBuffer) → Sends [] (x ∷ []) b (enqueue_event x b)
unfolding run step
Sends-enqueue_event x b = record {
  schedule = enqueues_event x ∷ [];
  ran = refl;
  machines = refl;
  changes = refl;
}

-- The other goroutines take steps of the buffer, and send no machine and no event.
abbrev pub IsBystander : (ℕ → BatchBuffer → BatchBuffer) → Type 0
IsBystander meanwhile = (n : ℕ) (b : BatchBuffer) → Sends [] [] b (meanwhile n b)

module _ (meanwhile : ℕ → BatchBuffer → BatchBuffer) (others : IsBystander meanwhile) where
  Sends-enqueue_rvms :
      (n : ℕ) (rows : List Rvm) (buf : BatchBuffer)
      → Sends rows [] buf (enqueue_rvms meanwhile n rows buf)
  unfolding enqueue_rvms
  Sends-enqueue_rvms n [] buf = Sends-nothing buf
  Sends-enqueue_rvms n (r ∷ rows) buf =
      let b = meanwhile n buf in
      Sends-trans (r ∷ []) rows [] [] buf (enqueue_rvm r b) _
        (Sends-trans [] (r ∷ []) [] [] buf b (enqueue_rvm r b) (others n buf)
          (Sends-enqueue_rvm r b))
        (Sends-enqueue_rvms (suc n) rows (enqueue_rvm r b))

  Sends-enqueue_events :
      (n : ℕ) (events : List RvmEvent) (buf : BatchBuffer)
      → Sends [] events buf (enqueue_events meanwhile n events buf)
  unfolding enqueue_events
  Sends-enqueue_events n [] buf = Sends-nothing buf
  Sends-enqueue_events n (x ∷ events) buf =
      let b = meanwhile n buf in
      Sends-trans [] [] (x ∷ []) events buf (enqueue_event x b) _
        (Sends-trans [] [] [] (x ∷ []) buf b (enqueue_event x b) (others n buf)
          (Sends-enqueue_event x b))
        (Sends-enqueue_events (suc n) events (enqueue_event x b))

  Sends-enqueue_diff :
      (diff : DiffResult) (buf : BatchBuffer)
      → Sends
          (diff.added ++ (diff.updated ++ diff.removed))
          diff.events
          buf
          (enqueue_diff meanwhile diff buf)
  unfolding enqueue_diff
  Sends-enqueue_diff diff buf =
      let rows = diff.added ++ (diff.updated ++ diff.removed) in
      let n = length diff.added in
      let m = n + length diff.updated in
      let b1 = enqueue_rvms meanwhile 0 diff.added buf in
      let b2 = enqueue_rvms meanwhile n diff.updated b1 in
      let b3 = enqueue_rvms meanwhile m diff.removed b2 in
      subst (λ rs. Sends rs diff.events buf (enqueue_diff meanwhile diff buf)) (append-nil rows)
        (Sends-trans rows [] [] diff.events buf b3 _
          (Sends-trans diff.added (diff.updated ++ diff.removed) [] [] buf b1 b3
            (Sends-enqueue_rvms 0 diff.added buf)
            (Sends-trans diff.updated diff.removed [] [] b1 b2 b3
              (Sends-enqueue_rvms n diff.updated b1) (Sends-enqueue_rvms m diff.removed b2)))
          (Sends-enqueue_events (m + length diff.removed) diff.events b3))

-- A successful poll hands every row of its diff to the buffer, once and in this order: the added, the
-- updated and the removed machines to the channel of machines, and the events to that of events. The
-- buffer goes from its state before to its state after the poll through a schedule of its own steps
-- that sends exactly these, with whatever the worker and the pool do to the buffer in between. The
-- poller has a client and a buffer, and what the others do is a schedule of the buffer that sends no
-- machine and no event.
pub poll_locations_queue :
    (new_uuid : ℕ → Uuid) (p : Poller) (locations : List Rvm) (clock : PollClock)
    (buf : BatchBuffer)
    → p.has_client ≡ true
    → p.buffer ≡ some buf
    → IsBystander clock.meanwhile
    → let diff = diff_state new_uuid p.active_rvms locations clock.now in
      (buf' : BatchBuffer) × ((poll_locations new_uuid p (some locations) clock).buffer ≡ some buf')
      × Sends (diff.added ++ (diff.updated ++ diff.removed)) diff.events buf buf'
unfolding poll_locations accept_locations
poll_locations_queue new_uuid p locations clock buf client e others =
    let diff = diff_state new_uuid p.active_rvms locations clock.now in
    (
      enqueue_diff clock.meanwhile diff buf,
      rw (client, e) refl,
      Sends-enqueue_diff clock.meanwhile others diff buf,
    )
