-- ===== src/Batch/Callers/Halting.antt =====
-- A worker that returns: when stopChan is closed, and nothing is written afterwards.
use bcrstracking.Prelude.{some, Bool, true, ◌≡◌, refl, subst, arith}
use bcrstracking.Batch.{
  BatchBuffer, Phase, Act, Event, step, work, works, flush_requested, stop_requested, selecting,
  draining_rvms, draining_events, draining_bins, flushing_rvms, flushing_events, flushing_bins,
  stopped, continue, acknowledge, finish, receive_rvm, receive_event, receive_bin, ticked, drain,
  answer, enqueues_rvm, enqueues_event, enqueues_bin, enqueue_rvm, enqueue_event, enqueue_bin,
}
use bcrstracking.Batch.Callers.{is_open, has_stopped}

-- A worker that stops has found stopChan closed.
abbrev pub Halts : Phase → Bool → Type 0
Halts (draining_rvms k) closed = k ≡ finish → closed ≡ true
Halts (draining_events k) closed = k ≡ finish → closed ≡ true
Halts (draining_bins k) closed = k ≡ finish → closed ≡ true
Halts (flushing_rvms k) closed = k ≡ finish → closed ≡ true
Halts (flushing_events k) closed = k ≡ finish → closed ≡ true
Halts (flushing_bins k) closed = k ≡ finish → closed ≡ true
Halts stopped closed = closed ≡ true
Halts selecting closed = Unit {0}

pub work-Halts :
    (p : Phase) (act : Act) (b b' : BatchBuffer) (closed : Bool)
    → b.phase ≡ p
    → Halts p closed
    → is_open closed (works act) ≡ true
    → work p act b ≡ some b'
    → Halts b'.phase closed
unfolding work
work-Halts selecting receive_rvm b b' closed here h opened made = ground arith
work-Halts selecting receive_event b b' closed here h opened made = ground arith
work-Halts selecting receive_bin b b' closed here h opened made = ground arith
work-Halts selecting ticked b b' closed here h opened made = ground arith
work-Halts selecting flush_requested b b' closed here h opened made = absurd (ground arith)
work-Halts selecting stop_requested b b' closed here h opened made = ground arith
work-Halts (draining_rvms k) drain b b' closed here h opened made = ground arith
work-Halts (draining_events k) drain b b' closed here h opened made = ground arith
work-Halts (draining_bins k) drain b b' closed here h opened made = ground arith
work-Halts (flushing_rvms k) (answer ok d) b b' closed here h opened made = ground arith
work-Halts (flushing_events k) (answer ok d) b b' closed here h opened made = ground arith
work-Halts (flushing_bins continue) (answer ok d) b b' closed here h opened made = ground arith
work-Halts (flushing_bins acknowledge) (answer ok d) b b' closed here h opened made = ground arith
work-Halts (flushing_bins finish) (answer ok d) b b' closed here h opened made =
    ground (arith, h refl)
work-Halts _ _ b b' closed here h opened made = absurd (ground arith)

pub step-Halts :
    (ev : Event) (b b' : BatchBuffer) (closed : Bool)
    → Halts b.phase closed
    → is_open closed ev ≡ true
    → step ev b ≡ some b'
    → Halts b'.phase closed
unfolding step enqueue_rvm enqueue_event enqueue_bin
step-Halts (enqueues_rvm r) b b' closed h opened made = subst (λ p. Halts p closed) (ground arith) h
step-Halts (enqueues_event r) b b' closed h opened made =
    subst (λ p. Halts p closed) (ground arith) h
step-Halts (enqueues_bin r) b b' closed h opened made = subst (λ p. Halts p closed) (ground arith) h
step-Halts (works act) b b' closed h opened made =
    work-Halts b.phase act b b' closed refl h opened made

-- Nothing reaches the sink from a worker that has returned.
pub record Rests (b b' : BatchBuffer) : Type 0 where
  pub phase : b'.phase ≡ stopped
  pub rvms : b'.rvms.committed ≡ b.rvms.committed
  pub events : b'.events.committed ≡ b.events.committed
  pub bins : b'.bins.committed ≡ b.bins.committed

pub work-stopped : (act : Act) (b b' : BatchBuffer) → work stopped act b ≡ some b' → ⊥
unfolding work
work-stopped drain b b' made = ground arith
work-stopped _ b b' made = ground arith

pub step-Rests :
    (ev : Event) (b b' : BatchBuffer) → b.phase ≡ stopped → step ev b ≡ some b' → Rests b b'
unfolding step enqueue_rvm enqueue_event enqueue_bin
step-Rests (works act) b b' rest made =
    absurd (work-stopped act b b' (subst (λ p. work p act b ≡ some b') rest made))
step-Rests (enqueues_rvm r) b b' rest made = ground arith
step-Rests (enqueues_event r) b b' rest made = ground arith
step-Rests (enqueues_bin r) b b' rest made = ground arith

pub eq-stopped : (p : Phase) → has_stopped p ≡ true → p ≡ stopped
eq-stopped stopped h = refl
eq-stopped (draining_rvms k) h = absurd (ground arith)
eq-stopped _ h = absurd (ground arith)

pub work-flush-Halts :
    (p : Phase) (b b' : BatchBuffer) (closed : Bool)
    → work p flush_requested b ≡ some b'
    → Halts b'.phase closed
unfolding work
work-flush-Halts selecting b b' closed made = ground arith
work-flush-Halts (draining_rvms k) b b' closed made = absurd (ground arith)
work-flush-Halts _ b b' closed made = absurd (ground arith)

pub handed-Halts :
    (b b' : BatchBuffer) (closed : Bool)
    → step (works flush_requested) b ≡ some b'
    → Halts b'.phase closed
unfolding step
handed-Halts b b' closed made = work-flush-Halts b.phase b b' closed made

pub Halts-closed : (p : Phase) → Halts p true
Halts-closed selecting = tt
Halts-closed stopped = refl
Halts-closed (draining_rvms k) = λ _. refl
Halts-closed (draining_events k) = λ _. refl
Halts-closed (draining_bins k) = λ _. refl
Halts-closed (flushing_rvms k) = λ _. refl
Halts-closed (flushing_events k) = λ _. refl
Halts-closed (flushing_bins k) = λ _. refl
