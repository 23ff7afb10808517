-- ===== src/Batch/Conservation.antt =====
-- With a sink, no row that entered a channel is lost, repeated or reordered.
use bcrstracking.Prelude.{
  string_keys, String, Option, none, some, Bool, true, List, [], ◌∷◌, ◌++◌, ltb, if◌then◌else◌,
  length, ◌≡◌, refl, sym, ap, ◌∙◌, arith, append-nil, append_assoc, inl, inr, Option-cases,
  List-cases,
}
use bcrstracking.Model.{Duration, Rvm, RvmEvent, BinStatus}
use bcrstracking.Metrics.{Metrics}
use bcrstracking.Batch.{
  Stream, BatchBuffer, Phase, Act, Event, send, receive, flush_section, work, step, run,
  enqueue_rvm, enqueue_event, enqueue_bin, rvm_capacity, event_capacity, bin_capacity, selecting,
  draining_rvms, draining_events, draining_bins, flushing_rvms, flushing_events, flushing_bins,
  receive_rvm, receive_event, receive_bin, drain, answer, enqueues_rvm, enqueues_event,
  enqueues_bin, works,
}

-- All rows of a table that are accounted for, oldest first.
abbrev pub backlog {ℓ} : {A : Type ℓ} → Stream A → List A
backlog s = s.committed ++ (s.pending ++ s.chan)

module _ {ℓ} {A : Type ℓ} where
  backlog-receive :
      (a : A) (rest : List A) (s : Stream A)
      → s.chan ≡ a ∷ rest
      → backlog (receive a rest s) ≡ backlog s
  backlog-receive a rest s e = rw (e, append_assoc) refl

  backlog-send : (a : A) (s : Stream A) → backlog (send a s) ≡ backlog s ++ a ∷ []
  backlog-send a s = simp append_assoc

  backlog-flush_section :
      (table : String) (ok : Bool) (d : Duration) (s : Stream A) (m : Option Metrics)
      → backlog (flush_section table true ok d (s, m)).0 ≡ backlog s
  unfolding flush_section
  backlog-flush_section table ok d s m = ground (arith, append_assoc s.committed s.pending s.chan)

record Keeps (b b' : BatchBuffer) : Type 0 where
  pub sink : b'.has_sink ≡ true
  pub rvms : backlog b'.rvms ≡ backlog b.rvms
  pub events : backlog b'.events ≡ backlog b.events
  pub bins : backlog b'.bins ≡ backlog b.bins

work-Keeps :
    (p : Phase) (act : Act) (b b' : BatchBuffer)
    → b.has_sink ≡ true
    → work p act b ≡ some b'
    → Keeps b b'
unfolding work
work-Keeps selecting receive_rvm b b' h e = elim (List-cases b.rvms.chan) [
  | inl none_left ↦ ground arith
  | inr (x, rest, next) ↦ ground (arith, backlog-receive x rest b.rvms next)
]
work-Keeps selecting receive_event b b' h e = elim (List-cases b.events.chan) [
  | inl none_left ↦ ground arith
  | inr (x, rest, next) ↦ ground (arith, backlog-receive x rest b.events next)
]
work-Keeps selecting receive_bin b b' h e = elim (List-cases b.bins.chan) [
  | inl none_left ↦ ground arith
  | inr (x, rest, next) ↦ ground (arith, backlog-receive x rest b.bins next)
]
work-Keeps (draining_rvms k) drain b b' h e = elim (List-cases b.rvms.chan) [
  | inl none_left ↦ ground arith
  | inr (x, rest, next) ↦ ground (arith, backlog-receive x rest b.rvms next)
]
work-Keeps (draining_events k) drain b b' h e = elim (List-cases b.events.chan) [
  | inl none_left ↦ ground arith
  | inr (x, rest, next) ↦ ground (arith, backlog-receive x rest b.events next)
]
work-Keeps (draining_bins k) drain b b' h e = elim (List-cases b.bins.chan) [
  | inl none_left ↦ ground arith
  | inr (x, rest, next) ↦ ground (arith, backlog-receive x rest b.bins next)
]
work-Keeps (flushing_rvms k) (answer ok d) b b' h e =
    ground (arith, backlog-flush_section {0} "rvm_current" ok d b.rvms b.metrics)
work-Keeps (flushing_events k) (answer ok d) b b' h e =
    ground (arith, backlog-flush_section {0} "rvm_events" ok d b.events b.metrics)
work-Keeps (flushing_bins k) (answer ok d) b b' h e =
    ground (arith, backlog-flush_section {0} "rvm_bin_snapshots" ok d b.bins b.metrics)
work-Keeps _ _ b b' h e = ground arith

-- The rows that a step takes into a channel: the row sent, if the channel has room.
abbrev pub rvm_taken : Event → BatchBuffer → List Rvm
rvm_taken (enqueues_rvm r) b = if ltb (length b.rvms.chan) rvm_capacity then r ∷ [] else []
rvm_taken _ b = []

abbrev pub event_taken : Event → BatchBuffer → List RvmEvent
event_taken (enqueues_event x) b = if ltb (length b.events.chan) event_capacity then x ∷ [] else []
event_taken _ b = []

abbrev pub bin_taken : Event → BatchBuffer → List BinStatus
bin_taken (enqueues_bin x) b = if ltb (length b.bins.chan) bin_capacity then x ∷ [] else []
bin_taken _ b = []

-- The rows that a schedule takes into a channel, in order.
abbrev pub taken_by {ℓ} :
    {A : Type ℓ} → (Event → BatchBuffer → List A) → List Event → BatchBuffer → List A
taken_by taken [] b = []
taken_by taken (e ∷ es) b =
    taken e b ++ elim (step e b) [ none ↦ [] | some b' ↦ taken_by taken es b' ]

record Accounts (e : Event) (b b' : BatchBuffer) : Type 0 where
  pub sink : b'.has_sink ≡ true
  pub rvms : backlog b'.rvms ≡ backlog b.rvms ++ rvm_taken e b
  pub events : backlog b'.events ≡ backlog b.events ++ event_taken e b
  pub bins : backlog b'.bins ≡ backlog b.bins ++ bin_taken e b

step-Accounts :
    (e : Event) (b b' : BatchBuffer) → b.has_sink ≡ true → step e b ≡ some b' → Accounts e b b'
unfolding step enqueue_rvm enqueue_event enqueue_bin
step-Accounts (enqueues_rvm r) b b' h e = ground (
  arith,
  backlog-send {0} r b.rvms,
  append-nil (backlog b.rvms),
  append-nil (backlog b.events),
  append-nil (backlog b.bins),
)
step-Accounts (enqueues_event r) b b' h e = ground (
  arith,
  backlog-send {0} r b.events,
  append-nil (backlog b.rvms),
  append-nil (backlog b.events),
  append-nil (backlog b.bins),
)
step-Accounts (enqueues_bin r) b b' h e = ground (
  arith,
  backlog-send {0} r b.bins,
  append-nil (backlog b.rvms),
  append-nil (backlog b.events),
  append-nil (backlog b.bins),
)
step-Accounts (works act) b b' h e =
    let k = work-Keeps b.phase act b b' h e in
    record {
      sink = k.sink;
      rvms = k.rvms ∙ sym (append-nil (backlog b.rvms));
      events = k.events ∙ sym (append-nil (backlog b.events));
      bins = k.bins ∙ sym (append-nil (backlog b.bins));
    }

-- The rows of one step, then those of the rest of a schedule.
joined {ℓ} :
    {A : Type ℓ} {now before next all : List A} (later : List A)
    → now ≡ next ++ later
    → next ≡ before
    → before ++ later ≡ all
    → now ≡ all
joined later p q r = p ∙ ap (λ l. l ++ later) q ∙ r

-- Along every schedule of the producers and the worker, whatever the sink answers, each table's
-- committed, collected and queued rows, in this order, are those at the start followed by the rows
-- that the channel took, in the order in which it took them. The buffer has a sink.
pub run_conserves :
    (es : List Event) (b b' : BatchBuffer)
    → b.has_sink ≡ true
    → run es b ≡ some b'
    → (backlog b'.rvms ≡ backlog b.rvms ++ taken_by rvm_taken es b)
      × (backlog b'.events ≡ backlog b.events ++ taken_by event_taken es b)
      × (backlog b'.bins ≡ backlog b.bins ++ taken_by bin_taken es b)
unfolding run
run_conserves [] b b' h e =
    let same : b ≡ b' = cc in
    (
      ap (λ x. backlog x.rvms) (sym same) ∙ sym (append-nil (backlog b.rvms)),
      ap (λ x. backlog x.events) (sym same) ∙ sym (append-nil (backlog b.events)),
      ap (λ x. backlog x.bins) (sym same) ∙ sym (append-nil (backlog b.bins)),
    )
run_conserves (e ∷ es) b b' h q = elim (Option-cases (step e b)) [
  | inl stuck ↦ cc (q, stuck)
  | inr (next, made) ↦
      let a = step-Accounts e b next h made in
      let (rvms, events, bins) = run_conserves es next b' a.sink (rw (made, run) at q) in
      rw made (
        joined _ rvms a.rvms (append_assoc (backlog b.rvms) (rvm_taken e b) _),
        joined _ events a.events (append_assoc (backlog b.events) (event_taken e b) _),
        joined _ bins a.bins (append_assoc (backlog b.bins) (bin_taken e b) _),
      )
]
