-- ===== src/Batch/Callers/Served.antt =====
-- The worker's way from the request of a Flush to the end of its ack.
use bcrstracking.Prelude.{
  ℕ, suc, ◌+◌, ◌≤◌, ◌<◌, string_keys, String, Option, some, Bool, true, List, [], ◌∷◌, length,
  length-append, ◌≡◌, ◌⊎◌, refl, arith, inl, inr, List-cases,
}
use bcrstracking.Model.{Duration}
use bcrstracking.Metrics.{Metrics}
use bcrstracking.Batch.{
  Stream, BatchBuffer, Phase, Act, Event, send, receive, flush_section, work, step, enqueue_rvm,
  enqueue_event, enqueue_bin, selecting, draining_rvms, draining_events, draining_bins,
  flushing_rvms, flushing_events, flushing_bins, receive_rvm, receive_event, receive_bin, drain,
  answer, continue, acknowledge, finish, enqueues_rvm, enqueues_event, enqueues_bin, works,
}

-- The rows of a table that the worker has received, and all that its channel has taken.
abbrev pub held {ℓ} : {A : Type ℓ} → Stream A → ℕ
held s = length s.committed + length s.pending

abbrev pub seen {ℓ} : {A : Type ℓ} → Stream A → ℕ
seen s = held s + length s.chan

module _ {ℓ} {A : Type ℓ} where
  held-receive : (a : A) (rest : List A) (s : Stream A) → held (receive a rest s) ≡ suc (held s)
  held-receive a rest s = omega (arith, length-append s.pending (a ∷ []))

  seen-send : (a : A) (s : Stream A) → seen (send a s) ≡ suc (seen s)
  seen-send a s = omega (arith, length-append s.chan (a ∷ []))

  held-flush_section :
      (table : String) (ok : Bool) (d : Duration) (s : Stream A) (m : Option Metrics)
      → held (flush_section table true ok d (s, m)).0 ≡ held s
  unfolding flush_section
  held-flush_section table ok d s m = ground (arith, length-append s.committed s.pending)

  chan-flush_section :
      (table : String) (ok : Bool) (d : Duration) (s : Stream A) (m : Option Metrics)
      → (flush_section table true ok d (s, m)).0.chan ≡ s.chan
  unfolding flush_section
  chan-flush_section table ok d s m = ground arith

-- The first `r`, `e` and `b` rows of the tables are received, by the place where a worker stands that
-- has taken the request.
module _ (n r e x : ℕ) where
  abbrev pub AllReceived : BatchBuffer → Type 0
  AllReceived b = (r ≤ held b.rvms) × (e ≤ held b.events) × (x ≤ held b.bins)

  abbrev pub Received : Phase → BatchBuffer → Type 0
  Received (draining_rvms k) b = k ≡ acknowledge
  Received (draining_events k) b = (k ≡ acknowledge) × (r ≤ held b.rvms)
  Received (draining_bins k) b = (k ≡ acknowledge) × (r ≤ held b.rvms) × (e ≤ held b.events)
  Received (flushing_rvms k) b = (k ≡ acknowledge) × AllReceived b
  Received (flushing_events k) b = (k ≡ acknowledge) × AllReceived b
  Received (flushing_bins k) b = (k ≡ acknowledge) × AllReceived b
  Received _ b = ⊥

  -- The n-th request is being served by a worker at `p`, or its ack is closed.
  pub record IsServing (p : Phase) (b : BatchBuffer) : Type 0 where
    pub sink : b.has_sink ≡ true
    pub rvms : r ≤ seen b.rvms
    pub events : e ≤ seen b.events
    pub bins : x ≤ seen b.bins
    pub received : ((b.acks ≡ n) × Received p b) ⊎ ((n < b.acks) × AllReceived b)

  work-IsServing :
      (p : Phase) (act : Act) (b b' : BatchBuffer)
      → b.phase ≡ p
      → IsServing p b
      → work p act b ≡ some b'
      → IsServing b'.phase b'
  unfolding work
  work-IsServing selecting receive_rvm b b' here h made = elim (List-cases b.rvms.chan) [
    | inl none_left ↦ absurd (ground arith)
    | inr (row, rest, next) ↦ ground (arith, held-receive row rest b.rvms)
  ]
  work-IsServing selecting receive_event b b' here h made = elim (List-cases b.events.chan) [
    | inl none_left ↦ absurd (ground arith)
    | inr (row, rest, next) ↦ ground (arith, held-receive row rest b.events)
  ]
  work-IsServing selecting receive_bin b b' here h made = elim (List-cases b.bins.chan) [
    | inl none_left ↦ absurd (ground arith)
    | inr (row, rest, next) ↦ ground (arith, held-receive row rest b.bins)
  ]
  work-IsServing (draining_rvms k) drain b b' here h made = elim (List-cases b.rvms.chan) [
    | inl none_left ↦ ground arith
    | inr (row, rest, next) ↦ ground (arith, held-receive row rest b.rvms)
  ]
  work-IsServing (draining_events k) drain b b' here h made = elim (List-cases b.events.chan) [
    | inl none_left ↦ ground arith
    | inr (row, rest, next) ↦ ground (arith, held-receive row rest b.events)
  ]
  work-IsServing (draining_bins k) drain b b' here h made = elim (List-cases b.bins.chan) [
    | inl none_left ↦ ground arith
    | inr (row, rest, next) ↦ ground (arith, held-receive row rest b.bins)
  ]
  work-IsServing (flushing_rvms k) (answer ok d) b b' here h made = ground (
    arith,
    held-flush_section {0} "rvm_current" ok d b.rvms b.metrics,
    chan-flush_section {0} "rvm_current" ok d b.rvms b.metrics,
  )
  work-IsServing (flushing_events k) (answer ok d) b b' here h made = ground (
    arith,
    held-flush_section {0} "rvm_events" ok d b.events b.metrics,
    chan-flush_section {0} "rvm_events" ok d b.events b.metrics,
  )
  work-IsServing (flushing_bins continue) (answer ok d) b b' here h made = ground (
    arith,
    held-flush_section {0} "rvm_bin_snapshots" ok d b.bins b.metrics,
    chan-flush_section {0} "rvm_bin_snapshots" ok d b.bins b.metrics,
  )
  work-IsServing (flushing_bins acknowledge) (answer ok d) b b' here h made = ground (
    arith,
    held-flush_section {0} "rvm_bin_snapshots" ok d b.bins b.metrics,
    chan-flush_section {0} "rvm_bin_snapshots" ok d b.bins b.metrics,
  )
  work-IsServing (flushing_bins finish) (answer ok d) b b' here h made = ground (
    arith,
    held-flush_section {0} "rvm_bin_snapshots" ok d b.bins b.metrics,
    chan-flush_section {0} "rvm_bin_snapshots" ok d b.bins b.metrics,
  )
  work-IsServing _ _ b b' here h made = ground arith

  pub step-IsServing :
      (ev : Event) (b b' : BatchBuffer)
      → IsServing b.phase b
      → step ev b ≡ some b'
      → IsServing b'.phase b'
  unfolding step enqueue_rvm enqueue_event enqueue_bin
  step-IsServing (enqueues_rvm row) b b' h made = ground (arith, seen-send {0} row b.rvms)
  step-IsServing (enqueues_event row) b b' h made = ground (arith, seen-send {0} row b.events)
  step-IsServing (enqueues_bin row) b b' h made = ground (arith, seen-send {0} row b.bins)
  step-IsServing (works act) b b' h made = work-IsServing b.phase act b b' refl h made

work-acks : (p : Phase) (act : Act) (b b' : BatchBuffer) → work p act b ≡ some b' → b.acks ≤ b'.acks
unfolding work
work-acks (draining_rvms k) drain b b' made = ground arith
work-acks (draining_events k) drain b b' made = ground arith
work-acks (draining_bins k) drain b b' made = ground arith
work-acks (flushing_rvms k) (answer ok d) b b' made = ground arith
work-acks (flushing_bins continue) (answer ok d) b b' made = ground arith
work-acks _ _ b b' made = ground arith

pub step-acks : (ev : Event) (b b' : BatchBuffer) → step ev b ≡ some b' → b.acks ≤ b'.acks
unfolding step enqueue_rvm enqueue_event enqueue_bin
step-acks (works act) b b' made = work-acks b.phase act b b' made
step-acks _ b b' made = ground arith
