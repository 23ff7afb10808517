-- ===== src/Batch/Bounds.antt =====
-- How much the channels and the worker hold.
use bcrstracking.Prelude.{
  ◌≤◌, ◌<◌, string_keys, Option, none, some, Bool, true, List, [], ◌∷◌, ltb, length, length-append,
  ◌≡◌, refl, subst, arith, inl, inr, Bool-cases, Option-cases, List-cases, ltb→lt, All, ℤ, pos,
  negsuc,
}
use bcrstracking.Model.{Rvm, RvmEvent, BinStatus}
use bcrstracking.Config.{Config}
use bcrstracking.Metrics.{Metrics}
use bcrstracking.Batch.{
  BatchBuffer, Phase, Act, Event, work, step, run, enqueue_rvm, enqueue_event, enqueue_bin,
  rvm_capacity, event_capacity, bin_capacity, new_batch_buffer, positive_or, selecting,
  draining_rvms, flushing_rvms, flushing_events, flushing_bins, stopped, receive_rvm, receive_event,
  receive_bin, ticked, drain, answer, continue, acknowledge, finish, enqueues_rvm, enqueues_event,
  enqueues_bin, works,
}

-- No channel holds more than it was made for.
pub record FitsChannels (b : BatchBuffer) : Type 0 where
  pub rvms : length b.rvms.chan ≤ rvm_capacity
  pub events : length b.events.chan ≤ event_capacity
  pub bins : length b.bins.chan ≤ bin_capacity

unwrapped {ℓ} : {A : Type ℓ} {x y : A} → some x ≡ some y → x ≡ y
unwrapped e = cc

-- What the worker has collected, by the place where it stands: at the select each batch is short of
-- full, and a section of flush that is over has left nothing behind.
abbrev pub Collected : Phase → BatchBuffer → Type 0
Collected selecting b =
    (length b.rvms.pending < b.batch_size)
    × (length b.events.pending < b.batch_size)
    × (length b.bins.pending < b.batch_size)
Collected (flushing_events k) b = b.rvms.pending ≡ []
Collected (flushing_bins k) b = (b.rvms.pending ≡ []) × (b.events.pending ≡ [])
Collected stopped b = (b.rvms.pending ≡ []) × (b.events.pending ≡ []) × (b.bins.pending ≡ [])
Collected _ b = Unit {0}

pub record IsBounded (b : BatchBuffer) : Type 0 where
  pub batch : 0 < b.batch_size
  pub fits : FitsChannels b
  pub collected : Collected b.phase b

-- The sink takes what it is asked to insert.
abbrev pub IsAccepting : Event → Type 0
IsAccepting (works (answer ok d)) = ok ≡ true
IsAccepting _ = Unit {0}

work-FitsChannels :
    (p : Phase) (act : Act) (b b' : BatchBuffer)
    → FitsChannels b
    → work p act b ≡ some b'
    → FitsChannels b'
unfolding work
work-FitsChannels selecting ticked b b' f e = ground arith
work-FitsChannels (draining_rvms k) drain b b' f e = ground arith
work-FitsChannels (flushing_rvms k) (answer ok d) b b' f e = ground arith
work-FitsChannels _ _ b b' f e = ground arith

work-Collected :
    (p : Phase) (act : Act) (b b' : BatchBuffer)
    → b.phase ≡ p
    → 0 < b.batch_size
    → IsAccepting (works act)
    → Collected p b
    → work p act b ≡ some b'
    → (0 < b'.batch_size) × Collected b'.phase b'
unfolding work
work-Collected selecting receive_rvm b b' at s a c e = elim (List-cases b.rvms.chan) [
  | inl none_left ↦ ground arith
  | inr (x, rest, next) ↦ ground (arith, length-append {0} b.rvms.pending (x ∷ []))
]
work-Collected selecting receive_event b b' at s a c e = elim (List-cases b.events.chan) [
  | inl none_left ↦ ground arith
  | inr (x, rest, next) ↦ ground (arith, length-append {0} b.events.pending (x ∷ []))
]
work-Collected selecting receive_bin b b' at s a c e = elim (List-cases b.bins.chan) [
  | inl none_left ↦ ground arith
  | inr (x, rest, next) ↦ ground (arith, length-append {0} b.bins.pending (x ∷ []))
]
work-Collected selecting ticked b b' at s a c e = ground arith
work-Collected (draining_rvms k) drain b b' at s a c e = ground arith
work-Collected (flushing_rvms k) (answer ok d) b b' at s a c e = ground arith
work-Collected (flushing_events k) (answer ok d) b b' at s a c e = ground arith
work-Collected (flushing_bins continue) (answer ok d) b b' at s a c e = ground arith
work-Collected (flushing_bins acknowledge) (answer ok d) b b' at s a c e = ground arith
work-Collected (flushing_bins finish) (answer ok d) b b' at s a c e = ground arith
work-Collected _ _ b b' at s a c e = ground arith

-- A send leaves alone what the worker has collected.
moved-Collected :
    (p : Phase) (b b' : BatchBuffer)
    → b'.batch_size ≡ b.batch_size
    → b'.rvms.pending ≡ b.rvms.pending
    → b'.events.pending ≡ b.events.pending
    → b'.bins.pending ≡ b.bins.pending
    → Collected p b
    → Collected p b'
moved-Collected selecting b b' n r e x c = ground arith
moved-Collected _ b b' n r e x c = ground arith

enqueue_rvm-IsBounded : (r : Rvm) (b : BatchBuffer) → IsBounded b → IsBounded (enqueue_rvm r b)
unfolding enqueue_rvm
enqueue_rvm-IsBounded r b h = elim (Bool-cases (ltb (length b.rvms.chan) rvm_capacity)) [
  | inl room ↦ rw room (record {
    batch = h.batch;
    fits = record {
      rvms = omega (arith, length-append {0} b.rvms.chan, ltb→lt _ _ room);
      events = h.fits.events;
      bins = h.fits.bins;
    };
    collected = moved-Collected b.phase b _ refl refl refl refl h.collected;
  })
  | inr full ↦ rw full h
]

enqueue_event-IsBounded :
    (r : RvmEvent) (b : BatchBuffer) → IsBounded b → IsBounded (enqueue_event r b)
unfolding enqueue_event
enqueue_event-IsBounded r b h = elim (Bool-cases (ltb (length b.events.chan) event_capacity)) [
  | inl room ↦ rw room (record {
    batch = h.batch;
    fits = record {
      events = omega (arith, length-append {0} b.events.chan, ltb→lt _ _ room);
      rvms = h.fits.rvms;
      bins = h.fits.bins;
    };
    collected = moved-Collected b.phase b _ refl refl refl refl h.collected;
  })
  | inr full ↦ rw full h
]

enqueue_bin-IsBounded :
    (r : BinStatus) (b : BatchBuffer) → IsBounded b → IsBounded (enqueue_bin r b)
unfolding enqueue_bin
enqueue_bin-IsBounded r b h = elim (Bool-cases (ltb (length b.bins.chan) bin_capacity)) [
  | inl room ↦ rw room (record {
    batch = h.batch;
    fits = record {
      bins = omega (arith, length-append {0} b.bins.chan, ltb→lt _ _ room);
      rvms = h.fits.rvms;
      events = h.fits.events;
    };
    collected = moved-Collected b.phase b _ refl refl refl refl h.collected;
  })
  | inr full ↦ rw full h
]

step-IsBounded :
    (e : Event) (b b' : BatchBuffer)
    → IsAccepting e
    → IsBounded b
    → step e b ≡ some b'
    → IsBounded b'
unfolding step
step-IsBounded (works act) b b' a h e =
    let (s, c) = work-Collected b.phase act b b' refl h.batch a h.collected e in
    record { batch = s; fits = work-FitsChannels b.phase act b b' h.fits e; collected = c }
step-IsBounded (enqueues_rvm r) b b' a h e =
    subst IsBounded (unwrapped e) (enqueue_rvm-IsBounded r b h)
step-IsBounded (enqueues_event r) b b' a h e =
    subst IsBounded (unwrapped e) (enqueue_event-IsBounded r b h)
step-IsBounded (enqueues_bin r) b b' a h e =
    subst IsBounded (unwrapped e) (enqueue_bin-IsBounded r b h)

-- A schedule in which the sink answers every insert with no error.
abbrev pub AllAccepting : List Event → Type 0
AllAccepting = All IsAccepting

run-IsBounded :
    (es : List Event) (b b' : BatchBuffer)
    → AllAccepting es
    → IsBounded b
    → run es b ≡ some b'
    → IsBounded b'
unfolding run
run-IsBounded [] b b' a h q = subst IsBounded (unwrapped q) h
run-IsBounded (e ∷ es) b b' a h q = elim (Option-cases (step e b)) [
  | inl stuck ↦ cc (q, stuck)
  | inr (next, made) ↦
      run-IsBounded es next b' a.1 (step-IsBounded e b next a.0 h made) (rw (made, run) at q)
]

some_size : (v : ℤ) → 0 < positive_or 500 v
some_size (pos n) = ground arith
some_size (negsuc n) = omega arith

new_batch_buffer-IsBounded :
    (cfg : Option Config) (metrics : Option Metrics) (has_sink : Bool)
    → IsBounded (new_batch_buffer cfg metrics has_sink)
unfolding new_batch_buffer
new_batch_buffer-IsBounded none metrics has_sink = record {
  batch = omega arith;
  fits = omega arith;
  collected = omega arith;
}
new_batch_buffer-IsBounded (some c) metrics has_sink =
    let n = some_size c.click_house_batch_size in
    record { batch = n; fits = omega arith; collected = (n, n, n) }

-- From NewBatchBuffer on, along every schedule in which the sink accepts what it is asked to insert
-- (or there is no sink): no channel holds more than its capacity, each batch is short of the batch
-- size whenever the worker is at its select, and nothing is left in a batch when the worker returns.
pub run_bounds :
    (cfg : Option Config) (metrics : Option Metrics) (has_sink : Bool) (es : List Event)
    (b : BatchBuffer)
    → AllAccepting es
    → run es (new_batch_buffer cfg metrics has_sink) ≡ some b
    → FitsChannels b × Collected b.phase b
run_bounds cfg metrics has_sink es b accepting q =
    let h = run-IsBounded es _ b accepting (new_batch_buffer-IsBounded cfg metrics has_sink) q in
    (h.fits, h.collected)
