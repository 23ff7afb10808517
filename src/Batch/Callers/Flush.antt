-- ===== src/Batch/Callers/Flush.antt =====
-- What a Flush that has returned with its ack closed promises.
use bcrstracking.Prelude.{
  ℕ, ◌≤◌, ◌<◌, some, true, List, [], ◌∷◌, ◌++◌, ◌≡◌, ◌⊎◌, inl, inr, refl, sym, ap, subst, ◌∙◌,
  arith, get_elem?, length, length-append, append_assoc, Option-cases, take, take-append_long,
  take-append_full, get_elem?-set, nat_beq_iff,
}
use native.Mathlib.Nat.{le_refl}
use bcrstracking.Batch.{
  Stream, BatchBuffer, Phase, step, work, selecting, flush_requested, draining_rvms, acknowledge,
}
use bcrstracking.Batch.Conservation.{
  backlog, run_conserves, taken_by, rvm_taken, event_taken, bin_taken,
}
use bcrstracking.Batch.Callers.{
  Waiter, Session, Deed, Turn, deed, take_turn, run_turns, offering, awaiting, acknowledged,
  abandoned, hand_over, hear_ack, hear_stop, give_up, acts,
}
use bcrstracking.Batch.Callers.Steps.{Steps, take_turn-Steps, run_turns-run, take_turn-waiter}
use bcrstracking.Batch.Callers.Served.{
  held, seen, AllReceived, IsServing, step-IsServing, step-acks,
}

-- A caller whose request was the n-th: it waits, has heard the ack, or has left without it.
abbrev Waits : ℕ → ℕ → Session → Type 0
Waits n i s =
    (get_elem? s.waiters i ≡ some (awaiting n))
    ⊎ (((get_elem? s.waiters i ≡ some acknowledged) × (n < s.buffer.acks))
        ⊎ (get_elem? s.waiters i ≡ some abandoned))

record IsFollowed (n r e x i : ℕ) (s : Session) : Type 0 where
  waits : Waits n i s
  serving : IsServing n r e x s.buffer.phase s.buffer

Steps-acks : (b b' : BatchBuffer) → Steps b b' → b.acks ≤ b'.acks
Steps-acks b b' (inl same) = ground (arith, ap (λ x. x.acks) same)
Steps-acks b b' (inr (ev, made)) = step-acks ev b b' made

Steps-IsServing :
    (n r e x : ℕ) (b b' : BatchBuffer)
    → Steps b b'
    → IsServing n r e x b.phase b
    → IsServing n r e x b'.phase b'
Steps-IsServing n r e x b b' (inl same) h = subst (λ y. IsServing n r e x y.phase y) (sym same) h
Steps-IsServing n r e x b b' (inr (ev, made)) h = step-IsServing n r e x ev b b' h made

-- What a caller can do that waits for its ack.
deed-awaiting :
    (n : ℕ) (d : Deed) (s : Session) (w' : Waiter) (s' : Session)
    → deed (awaiting n) d s ≡ some (w', s')
    → ((w' ≡ acknowledged) × (n < s'.buffer.acks)) ⊎ (w' ≡ abandoned)
unfolding deed
deed-awaiting n hear_ack s w' s' e = ground arith
deed-awaiting n hear_stop s w' s' e = inr (ground arith)
deed-awaiting n give_up s w' s' e = inr (ground arith)
deed-awaiting n _ s w' s' e = absurd (ground arith)

deed-acknowledged :
    (d : Deed) (s : Session) (w' : Waiter) (s' : Session)
    → deed acknowledged d s ≡ some (w', s')
    → ⊥
unfolding deed
deed-acknowledged hand_over s w' s' e = ground arith
deed-acknowledged _ s w' s' e = ground arith

deed-abandoned :
    (d : Deed) (s : Session) (w' : Waiter) (s' : Session) → deed abandoned d s ≡ some (w', s') → ⊥
unfolding deed
deed-abandoned hand_over s w' s' e = ground arith
deed-abandoned _ s w' s' e = ground arith

take_turn-Waits :
    (n i : ℕ) (t : Turn) (s s' : Session) → take_turn t s ≡ some s' → Waits n i s → Waits n i s'
take_turn-Waits n i t s s' e (inl waiting) =
    elim (take_turn-waiter t s s' i (awaiting n) e waiting) [
      | inl still ↦ inl still
      | inr (d, w', next, made, now, buffer) ↦ elim (deed-awaiting n d s w' next made) [
        | inl (heard, closed) ↦
            inr (inl (rw (sym heard) now, subst (λ b. n < b.acks) (sym buffer) closed))
        | inr gone ↦ inr (inr (rw (sym gone) now))
      ]
    ]
take_turn-Waits n i t s s' e (inr (inl (heard, closed))) =
    elim (take_turn-waiter t s s' i acknowledged e heard) [
      | inl still ↦
          inr (inl (still, omega (arith, Steps-acks s.buffer s'.buffer (take_turn-Steps t s s' e))))
      | inr (d, w', next, made, now, buffer) ↦ absurd (deed-acknowledged d s w' next made)
    ]
take_turn-Waits n i t s s' e (inr (inr gone)) = elim (take_turn-waiter t s s' i abandoned e gone) [
  | inl still ↦ inr (inr still)
  | inr (d, w', next, made, now, buffer) ↦ absurd (deed-abandoned d s w' next made)
]

run_turns-IsFollowed :
    (n r e x i : ℕ) (ts : List Turn) (s s' : Session)
    → run_turns ts s ≡ some s'
    → IsFollowed n r e x i s
    → IsFollowed n r e x i s'
unfolding run_turns
run_turns-IsFollowed n r e x i [] s s' ran h = subst (IsFollowed n r e x i) (ground arith) h
run_turns-IsFollowed n r e x i (t ∷ ts) s s' ran h = elim (Option-cases (take_turn t s)) [
  | inl stuck ↦ absurd (ground arith)
  | inr (next, made) ↦
      run_turns-IsFollowed n r e x i ts next s' (rw (made, run_turns) at ran) (record {
        waits = take_turn-Waits n i t s next made h.waits;
        serving =
            Steps-IsServing n r e x s.buffer next.buffer (take_turn-Steps t s next made) h.serving;
      })
]

work-flush_requested :
    (p : Phase) (b b' : BatchBuffer)
    → work p flush_requested b ≡ some b'
    → b' ≡ record b { phase = draining_rvms acknowledge }
unfolding work
work-flush_requested selecting b b' e = ground arith
work-flush_requested (draining_rvms k) b b' e = absurd (ground arith)
work-flush_requested _ b b' e = absurd (ground arith)

pub deed-hand_over :
    (w : Waiter) (s : Session) (w' : Waiter) (s' : Session)
    → deed w hand_over s ≡ some (w', s')
    → (w' ≡ awaiting s.buffer.acks)
      × (s'.buffer ≡ record s.buffer { phase = draining_rvms acknowledge })
unfolding deed step
deed-hand_over offering s w' s' e =
    elim (Option-cases (work s.buffer.phase flush_requested s.buffer)) [
      | inl stuck ↦ absurd (ground arith)
      | inr (b, made) ↦ ground (arith, work-flush_requested s.buffer.phase s.buffer b made)
    ]
deed-hand_over (awaiting n) s w' s' e = absurd (ground arith)
deed-hand_over _ s w' s' e = absurd (ground arith)

AllReceived-acknowledged :
    (n r e x i : ℕ) (s : Session)
    → IsFollowed n r e x i s
    → get_elem? s.waiters i ≡ some acknowledged
    → AllReceived n r e x s.buffer
AllReceived-acknowledged n r e x i s h heard = elim h.waits [
  | inl waiting ↦ absurd (ground arith)
  | inr (inr gone) ↦ absurd (ground arith)
  | inr (inl (same, closed)) ↦ elim h.serving.received [
    | inl (open_yet, where_it_is) ↦ absurd (omega arith)
    | inr (after, all) ↦ all
  ]
]

-- The session after a worker has taken the request of the i-th caller.
hand_over_starts :
    (i : ℕ) (s s' : Session)
    → take_turn (acts i hand_over) s ≡ some s'
    → (get_elem? s'.waiters i ≡ some (awaiting s.buffer.acks))
      × (s'.buffer ≡ record s.buffer { phase = draining_rvms acknowledge })
unfolding take_turn
hand_over_starts i s s' e = elim (Option-cases (get_elem? s.waiters i)) [
  | inl missing ↦ absurd (ground arith)
  | inr (w, found) ↦ elim (Option-cases (deed w hand_over s)) [
    | inl stuck ↦ absurd (ground arith)
    | inr ((w', next), made) ↦
        let (awaits, buffer) = deed-hand_over w s w' next made in
        ground (arith, get_elem?-set s.waiters i i w w' found, (nat_beq_iff i i).1 refl)
  ]
]

-- The first rows that the worker has received are those that its channel had taken before.
abbrev pub Collects {ℓ} : {A : Type ℓ} → Stream A → Stream A → Type ℓ
Collects before after =
    take (length (backlog before)) (after.committed ++ after.pending) ≡ backlog before

Collects-backlog {ℓ} :
    {A : Type ℓ} (before after : Stream A) (more : List A)
    → backlog after ≡ backlog before ++ more
    → seen before ≤ held after
    → Collects before after
Collects-backlog before after more grown enough =
    let n = length (backlog before) in
    let whole : (after.committed ++ after.pending) ++ after.chan ≡ backlog before ++ more =
      append_assoc after.committed after.pending after.chan ∙ grown in
    let long : n ≤ length (after.committed ++ after.pending) = omega (
      arith,
      length-append before.committed (before.pending ++ before.chan),
      length-append before.pending before.chan,
      length-append after.committed after.pending,
    ) in
    sym (take-append_long n (after.committed ++ after.pending) after.chan long)
    ∙ ap (take n) whole
    ∙ take-append_full n (backlog before) more refl

-- When a Flush returns because its ack was closed, every row that the three channels held when the
-- worker took its request has left its channel, whatever producers, other callers and the sink did
-- meanwhile: the committed and collected rows of each table begin with all rows that the table had
-- then, in order. The buffer has a sink.
pub flush-Collects :
    (i : ℕ) (ts : List Turn) (s taken s' : Session)
    → s.buffer.has_sink ≡ true
    → take_turn (acts i hand_over) s ≡ some taken
    → run_turns ts taken ≡ some s'
    → get_elem? s'.waiters i ≡ some acknowledged
    → Collects s.buffer.rvms s'.buffer.rvms
      × Collects s.buffer.events s'.buffer.events
      × Collects s.buffer.bins s'.buffer.bins
flush-Collects i ts s taken s' sink handed ran heard =
    let (awaits, started) = hand_over_starts i s taken handed in
    let b = s.buffer in
    let start : IsFollowed b.acks (seen b.rvms) (seen b.events) (seen b.bins) i taken = record {
      waits = inl awaits;
      serving =
          subst (λ y. IsServing b.acks (seen b.rvms) (seen b.events) (seen b.bins) y.phase y)
            (sym started)
            (record {
              sink = sink;
              rvms = le_refl (seen b.rvms);
              events = le_refl (seen b.events);
              bins = le_refl (seen b.bins);
              received = inl (refl, refl);
            });
    } in
    let h =
      run_turns-IsFollowed b.acks (seen b.rvms) (seen b.events) (seen b.bins) i ts taken s' ran
        start in
    let (es, made) = run_turns-run ts taken s' ran in
    let (rvms, events, bins) =
      run_conserves es taken.buffer s'.buffer (ap (λ y. y.has_sink) started ∙ sink) made in
    let (held_rvms, held_events, held_bins) =
      AllReceived-acknowledged b.acks (seen b.rvms) (seen b.events) (seen b.bins) i s' h heard in
    (
      Collects-backlog b.rvms s'.buffer.rvms (taken_by rvm_taken es taken.buffer)
          (rvms ∙ ap (λ y. backlog y.rvms ++ taken_by rvm_taken es taken.buffer) started) held_rvms,
      Collects-backlog b.events s'.buffer.events (taken_by event_taken es taken.buffer)
          (events ∙ ap (λ y. backlog y.events ++ taken_by event_taken es taken.buffer) started)
          held_events,
      Collects-backlog b.bins s'.buffer.bins (taken_by bin_taken es taken.buffer)
          (bins ∙ ap (λ y. backlog y.bins ++ taken_by bin_taken es taken.buffer) started) held_bins,
    )
