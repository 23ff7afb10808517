-- ===== src/Batch/Callers/Awaiting.antt =====
-- A caller of Flush that waits for its ack: the worker serves its request, or has closed the ack.
use bcrstracking.Prelude.{
  ℕ, ◌<◌, some, List, [], ◌∷◌, ◌≡◌, ◌⊎◌, inl, inr, refl, sym, subst, arith, get_elem?, set, All,
  All-mono, All-set, All-snoc, eq_of-some, Option-cases, Bool-cases, List-cases,
}
use bcrstracking.Batch.{
  BatchBuffer, Phase, Act, Event, step, work, works, draining_rvms, draining_events, draining_bins,
  flushing_rvms, flushing_events, flushing_bins, continue, acknowledge, finish, drain, answer,
  enqueues_rvm, enqueues_event, enqueues_bin, enqueue_rvm, enqueue_event, enqueue_bin,
}
use bcrstracking.Batch.Callers.{
  Waiter, Session, Deed, Turn, deed, take_turn, run_turns, is_open, offering, awaiting,
  acknowledged, abandoned, stopping, joining, joined, hand_over, hear_ack, hear_stop, give_up,
  close_stop, join, follow, calls_flush, calls_stop, acts, moves,
}
use bcrstracking.Batch.Callers.Steps.{Steps, deed-Steps}
use bcrstracking.Batch.Callers.Flush.{deed-hand_over}

-- The worker is on its way to close an ack.
abbrev pub Acknowledges : Phase → Type 0
Acknowledges (draining_rvms k) = k ≡ acknowledge
Acknowledges (draining_events k) = k ≡ acknowledge
Acknowledges (draining_bins k) = k ≡ acknowledge
Acknowledges (flushing_rvms k) = k ≡ acknowledge
Acknowledges (flushing_events k) = k ≡ acknowledge
Acknowledges (flushing_bins k) = k ≡ acknowledge
Acknowledges _ = ⊥

-- The n-th request is served by a worker at `p`, or its ack is closed.
abbrev pub IsAnswered : ℕ → Phase → BatchBuffer → Type 0
IsAnswered n p b = (n < b.acks) ⊎ ((b.acks ≡ n) × Acknowledges p)

work-IsAnswered :
    (n : ℕ) (p : Phase) (act : Act) (b b' : BatchBuffer)
    → b.phase ≡ p
    → IsAnswered n p b
    → work p act b ≡ some b'
    → IsAnswered n b'.phase b'
unfolding work
work-IsAnswered n (draining_rvms k) drain b b' here h made = elim (List-cases b.rvms.chan) [
  | inl empty ↦ ground arith
  | inr (row, rest, next) ↦ ground arith
]
work-IsAnswered n (draining_events k) drain b b' here h made = elim (List-cases b.events.chan) [
  | inl empty ↦ ground arith
  | inr (row, rest, next) ↦ ground arith
]
work-IsAnswered n (draining_bins k) drain b b' here h made = elim (List-cases b.bins.chan) [
  | inl empty ↦ ground arith
  | inr (row, rest, next) ↦ ground arith
]
work-IsAnswered n (flushing_rvms k) (answer ok d) b b' here h made = ground arith
work-IsAnswered n (flushing_events k) (answer ok d) b b' here h made = ground arith
work-IsAnswered n (flushing_bins continue) (answer ok d) b b' here h made = ground arith
work-IsAnswered n (flushing_bins acknowledge) (answer ok d) b b' here h made = ground arith
work-IsAnswered n (flushing_bins finish) (answer ok d) b b' here h made = ground arith
work-IsAnswered n _ _ b b' here h made = ground arith

step-IsAnswered :
    (n : ℕ) (ev : Event) (b b' : BatchBuffer)
    → IsAnswered n b.phase b
    → step ev b ≡ some b'
    → IsAnswered n b'.phase b'
unfolding step enqueue_rvm enqueue_event enqueue_bin
step-IsAnswered n (works act) b b' h made = work-IsAnswered n b.phase act b b' refl h made
step-IsAnswered n (enqueues_rvm row) b b' h made = ground arith
step-IsAnswered n (enqueues_event row) b b' h made = ground arith
step-IsAnswered n (enqueues_bin row) b b' h made = ground arith

-- A caller that waits for its ack is answered.
abbrev pub IsAwaited : BatchBuffer → Waiter → Type 0
IsAwaited b (awaiting n) = IsAnswered n b.phase b
IsAwaited b _ = Unit {0}

Steps-IsAwaited : (b b' : BatchBuffer) (w : Waiter) → Steps b b' → IsAwaited b w → IsAwaited b' w
Steps-IsAwaited b b' w (inl same) h = subst (λ y. IsAwaited y w) (sym same) h
Steps-IsAwaited b b' (awaiting n) (inr (ev, made)) h = step-IsAnswered n ev b b' h made
Steps-IsAwaited b b' _ (inr (ev, made)) h = tt

became-IsAwaited : (b : BatchBuffer) (w w' : Waiter) → w ≡ w' → IsAwaited b w → IsAwaited b w'
became-IsAwaited b w w' same h = subst (IsAwaited b) same h

deed-IsAwaited :
    (w : Waiter) (d : Deed) (s : Session) (w' : Waiter) (s' : Session)
    → deed w d s ≡ some (w', s')
    → IsAwaited s'.buffer w'
deed-IsAwaited w hand_over s w' s' e =
    let (awaits, buffer) = deed-hand_over w s w' s' e in
    let b = record s.buffer { phase = draining_rvms acknowledge } in
    subst (λ y. IsAwaited y w') (sym buffer)
      (became-IsAwaited b (awaiting s.buffer.acks) w' (sym awaits) (inr (refl, refl)))
deed-IsAwaited offering hear_stop s w' s' e =
    became-IsAwaited s'.buffer abandoned w' (unfold deed in ground arith) tt
deed-IsAwaited offering give_up s w' s' e =
    became-IsAwaited s'.buffer abandoned w' (unfold deed in ground arith) tt
deed-IsAwaited (awaiting n) hear_ack s w' s' e =
    became-IsAwaited s'.buffer acknowledged w' (unfold deed in ground arith) tt
deed-IsAwaited (awaiting n) hear_stop s w' s' e =
    became-IsAwaited s'.buffer abandoned w' (unfold deed in ground arith) tt
deed-IsAwaited (awaiting n) give_up s w' s' e =
    became-IsAwaited s'.buffer abandoned w' (unfold deed in ground arith) tt
deed-IsAwaited stopping close_stop s w' s' e =
    became-IsAwaited s'.buffer joining w' (unfold deed in ground arith) tt
deed-IsAwaited joining join s w' s' e =
    became-IsAwaited s'.buffer joined w' (unfold deed in ground arith) tt
deed-IsAwaited stopping follow s w' s' e =
    became-IsAwaited s'.buffer joined w' (unfold deed in ground arith) tt
deed-IsAwaited _ _ s w' s' e = absurd (unfold deed in ground arith)

abbrev pub AllAwaited : Session → Type 0
AllAwaited s = All (IsAwaited s.buffer) s.waiters

take_turn-AllAwaited :
    (t : Turn) (s s' : Session) → take_turn t s ≡ some s' → AllAwaited s → AllAwaited s'
unfolding take_turn
take_turn-AllAwaited calls_flush s s' e h =
    subst AllAwaited (eq_of-some e) (All-snoc (IsAwaited s.buffer) s.waiters offering h tt)
take_turn-AllAwaited calls_stop s s' e h =
    subst AllAwaited (eq_of-some e) (All-snoc (IsAwaited s.buffer) s.waiters stopping h tt)
take_turn-AllAwaited (acts i d) s s' e h = elim (Option-cases (get_elem? s.waiters i)) [
  | inl missing ↦ absurd (ground arith)
  | inr (w, found) ↦ elim (Option-cases (deed w d s)) [
    | inl stuck ↦ absurd (ground arith)
    | inr ((w', next), made) ↦
        let result : record next { waiters = set s.waiters i w' } ≡ s' = ground arith in
        let others =
          All-mono (λ v k. Steps-IsAwaited s.buffer next.buffer v (deed-Steps w d s w' next made) k)
            s.waiters h in
        subst AllAwaited result (
          All-set (IsAwaited next.buffer) s.waiters i w' others (deed-IsAwaited w d s w' next made))
  ]
]
take_turn-AllAwaited (moves ev) s s' e h = elim (Bool-cases (is_open s.stop_closed ev)) [
  | inr shut ↦ absurd (ground arith)
  | inl opened ↦ elim (Option-cases (step ev s.buffer)) [
    | inl stuck ↦ absurd (ground arith)
    | inr (b, made) ↦
        let result : record s { buffer = b } ≡ s' = ground arith in
        subst AllAwaited result
          (All-mono (λ v k. Steps-IsAwaited s.buffer b v (inr (ev, made)) k) s.waiters h)
  ]
]

pub run_turns-AllAwaited :
    (ts : List Turn) (s s' : Session) → run_turns ts s ≡ some s' → AllAwaited s → AllAwaited s'
unfolding run_turns
run_turns-AllAwaited [] s s' ran h = subst AllAwaited (eq_of-some ran) h
run_turns-AllAwaited (t ∷ ts) s s' ran h = elim (Option-cases (take_turn t s)) [
  | inl stuck ↦ absurd (ground arith)
  | inr (next, made) ↦
      run_turns-AllAwaited ts next s' (rw (made, run_turns) at ran)
        (take_turn-AllAwaited t s next made h)
]
