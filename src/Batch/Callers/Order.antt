-- ===== src/Batch/Callers/Order.antt =====
-- The order that stopOnce, stopChan and the worker keep to.
use bcrstracking.Prelude.{
  ℕ, ◌+◌, some, Bool, true, false, List, [], ◌∷◌, ◌≡◌, ◌⊎◌, inl, inr, refl, subst, arith, get_elem?,
  set, sum_of, sum_of-append, sum_of-set, All, All-mono, All-set, All-snoc, eq_of-some,
  Option-cases, Bool-cases, ltb,
}
use bcrstracking.Batch.{BatchBuffer, Phase, Event, step, works, flush_requested, stopped}
use bcrstracking.Batch.Callers.{
  Waiter, Once, Session, Deed, Turn, deed, take_turn, run_turns, is_open, has_stopped, offering,
  awaiting, acknowledged, abandoned, stopping, joining, joined, unused, running, done, hand_over,
  hear_ack, hear_stop, give_up, close_stop, join, follow, calls_flush, calls_stop, acts, moves,
}
use bcrstracking.Batch.Callers.Halting.{
  Halts, step-Halts, step-Rests, handed-Halts, Halts-closed, eq-stopped,
}

abbrev pub is_joining : Waiter → ℕ
is_joining joining = 1
is_joining _ = 0

abbrev pub in_once : Once → ℕ
in_once running = 1
in_once _ = 0

abbrev pub Closed : Once → Bool → Type 0
Closed unused closed = closed ≡ false
Closed _ closed = closed ≡ true

abbrev pub Finished : Once → Phase → Type 0
Finished done p = p ≡ stopped
Finished _ p = Unit {0}

abbrev pub Joined : Once → Waiter → Type 0
Joined once joined = once ≡ done
Joined once _ = Unit {0}

pub record IsOrderly (s : Session) : Type 0 where
  pub joiners : sum_of is_joining s.waiters ≡ in_once s.once
  pub closed : Closed s.once s.stop_closed
  pub finished : Finished s.once s.buffer.phase
  pub returned : All (Joined s.once) s.waiters
  pub halts : Halts s.buffer.phase s.stop_closed

step-Finished :
    (once : Once) (ev : Event) (b b' : BatchBuffer)
    → Finished once b.phase
    → step ev b ≡ some b'
    → Finished once b'.phase
step-Finished unused ev b b' h made = tt
step-Finished running ev b b' h made = tt
step-Finished done ev b b' h made = (step-Rests ev b b' h made).phase

Joined-running : (w : Waiter) → Joined unused w → Joined running w
Joined-running joined h = absurd (ground arith)
Joined-running _ h = tt

Joined-done : (w : Waiter) → Joined running w → Joined done w
Joined-done joined h = refl
Joined-done _ h = tt

pub Once-cases : (o : Once) → (o ≡ unused) ⊎ ((o ≡ running) ⊎ (o ≡ done))
Once-cases unused = inl refl
Once-cases running = inr (inl refl)
Once-cases done = inr (inr refl)

-- A caller at bb.wg.Wait is the one in the stopOnce.
pub running-joiner :
    (i : ℕ) (s : Session) → IsOrderly s → get_elem? s.waiters i ≡ some joining → s.once ≡ running
running-joiner i s h here = elim (Once-cases s.once) [
  | inr (inl busy) ↦ busy
  | inl fresh ↦ absurd (ground (arith, sum_of-set is_joining i joining joined s.waiters here))
  | inr (inr over) ↦ absurd (ground (arith, sum_of-set is_joining i joining joined s.waiters here))
]

-- A caller goes from one place to another, with what it does to the rest.
IsOrderly-set :
    (i : ℕ) (s next : Session) (w w' : Waiter)
    → IsOrderly s
    → get_elem? s.waiters i ≡ some w
    → in_once s.once + is_joining w' ≡ in_once next.once + is_joining w
    → Closed next.once next.stop_closed
    → Finished next.once next.buffer.phase
    → All (Joined next.once) s.waiters
    → Joined next.once w'
    → Halts next.buffer.phase next.stop_closed
    → IsOrderly (record next { waiters = set s.waiters i w' })
IsOrderly-set i s next w w' h here joiners closed finished others own halts = record {
  joiners = omega (arith, sum_of-set is_joining i w w' s.waiters here, h.joiners);
  closed = closed;
  finished = finished;
  returned = All-set (Joined next.once) s.waiters i w' others own;
  halts = halts;
}

-- A caller that is in Flush leaves it.
IsOrderly-left :
    (i : ℕ) (s : Session) (w w' : Waiter)
    → IsOrderly s
    → get_elem? s.waiters i ≡ some w
    → is_joining w ≡ is_joining w'
    → Joined s.once w'
    → IsOrderly (record s { waiters = set s.waiters i w' })
IsOrderly-left i s w w' h here same own =
    IsOrderly-set i s s w w' h here (omega arith) h.closed h.finished h.returned own h.halts

abbrev Placed : ℕ → Session → Waiter × Session → Type 0
Placed i s p = IsOrderly (record p.1 { waiters = set s.waiters i p.0 })

-- A deed of the i-th caller.
deed-IsOrderly :
    (w : Waiter) (d : Deed) (i : ℕ) (s : Session) (p : Waiter × Session)
    → IsOrderly s
    → get_elem? s.waiters i ≡ some w
    → deed w d s ≡ some p
    → Placed i s p
unfolding deed
deed-IsOrderly offering hand_over i s p h here e =
    elim (Option-cases (step (works flush_requested) s.buffer)) [
      | inl stuck ↦ absurd (ground arith)
      | inr (b, made) ↦ subst (Placed i s) (eq_of-some (rw (made, deed) at e)) (
          IsOrderly-set i s (record s { buffer = b }) offering (awaiting s.buffer.acks) h here refl
            h.closed (step-Finished s.once (works flush_requested) s.buffer b h.finished made)
            h.returned tt (handed-Halts s.buffer b s.stop_closed made))
    ]
deed-IsOrderly (awaiting n) hear_ack i s p h here e = elim (Bool-cases (ltb n s.buffer.acks)) [
  | inr early ↦ absurd (ground arith)
  | inl closed ↦
      let result : (acknowledged, s) ≡ p = ground arith in
      subst (Placed i s) result (IsOrderly-left i s (awaiting n) acknowledged h here refl tt)
]
deed-IsOrderly offering hear_stop i s p h here e = elim (Bool-cases s.stop_closed) [
  | inr early ↦ absurd (ground arith)
  | inl closed ↦
      let result : (abandoned, s) ≡ p = ground arith in
      subst (Placed i s) result (IsOrderly-left i s offering abandoned h here refl tt)
]
deed-IsOrderly (awaiting n) hear_stop i s p h here e = elim (Bool-cases s.stop_closed) [
  | inr early ↦ absurd (ground arith)
  | inl closed ↦
      let result : (abandoned, s) ≡ p = ground arith in
      subst (Placed i s) result (IsOrderly-left i s (awaiting n) abandoned h here refl tt)
]
deed-IsOrderly offering give_up i s p h here e =
    subst (Placed i s) (eq_of-some e) (IsOrderly-left i s offering abandoned h here refl tt)
deed-IsOrderly (awaiting n) give_up i s p h here e =
    subst (Placed i s) (eq_of-some e) (IsOrderly-left i s (awaiting n) abandoned h here refl tt)
deed-IsOrderly stopping close_stop i s p h here e = elim (Once-cases s.once) [
  | inr (inl busy) ↦ absurd (ground arith)
  | inr (inr over) ↦ absurd (ground arith)
  | inl fresh ↦
      let next : Session = record s { stop_closed = true; once = running } in
      let result : (joining, next) ≡ p = ground arith in
      subst (Placed i s) result (
        IsOrderly-set i s next stopping joining h here (ground arith) refl tt
          (All-mono Joined-running s.waiters
            (subst (λ o. All (Joined o) s.waiters) fresh h.returned))
          tt (Halts-closed s.buffer.phase))
]
deed-IsOrderly joining join i s p h here e = elim (Bool-cases (has_stopped s.buffer.phase)) [
  | inr busy ↦ absurd (ground arith)
  | inl rest ↦
      let at_rest : s.buffer.phase ≡ stopped = eq-stopped s.buffer.phase rest in
      let next : Session = record s { once = done } in
      let result : (joined, next) ≡ p = ground arith in
      let now : s.once ≡ running = running-joiner i s h here in
      subst (Placed i s) result (
        IsOrderly-set i s next joining joined h here (ground arith)
          (subst (λ o. Closed o s.stop_closed) now h.closed) at_rest
          (All-mono Joined-done s.waiters (subst (λ o. All (Joined o) s.waiters) now h.returned))
          refl h.halts)
]
deed-IsOrderly stopping follow i s p h here e = elim (Once-cases s.once) [
  | inr (inl busy) ↦ absurd (ground arith)
  | inl fresh ↦ absurd (ground arith)
  | inr (inr over) ↦
      let result : (joined, s) ≡ p = ground arith in
      subst (Placed i s) result (IsOrderly-left i s stopping joined h here refl over)
]
deed-IsOrderly _ _ i s p h here e = absurd (ground arith)

pub take_turn-IsOrderly :
    (t : Turn) (s s' : Session) → take_turn t s ≡ some s' → IsOrderly s → IsOrderly s'
unfolding take_turn
take_turn-IsOrderly calls_flush s s' e h = subst IsOrderly (eq_of-some e) (record {
  joiners = omega (arith, sum_of-append is_joining s.waiters (offering ∷ []), h.joiners);
  closed = h.closed;
  finished = h.finished;
  returned = All-snoc (Joined s.once) s.waiters offering h.returned tt;
  halts = h.halts;
})
take_turn-IsOrderly calls_stop s s' e h = subst IsOrderly (eq_of-some e) (record {
  joiners = omega (arith, sum_of-append is_joining s.waiters (stopping ∷ []), h.joiners);
  closed = h.closed;
  finished = h.finished;
  returned = All-snoc (Joined s.once) s.waiters stopping h.returned tt;
  halts = h.halts;
})
take_turn-IsOrderly (acts i d) s s' e h = elim (Option-cases (get_elem? s.waiters i)) [
  | inl missing ↦ absurd (ground arith)
  | inr (w, found) ↦ elim (Option-cases (deed w d s)) [
    | inl stuck ↦ absurd (ground arith)
    | inr (p, made) ↦
        let result : record p.1 { waiters = set s.waiters i p.0 } ≡ s' = ground arith in
        subst IsOrderly result (deed-IsOrderly w d i s p h found made)
  ]
]
take_turn-IsOrderly (moves ev) s s' e h = elim (Bool-cases (is_open s.stop_closed ev)) [
  | inr shut ↦ absurd (ground arith)
  | inl opened ↦ elim (Option-cases (step ev s.buffer)) [
    | inl stuck ↦ absurd (ground arith)
    | inr (b, made) ↦
        let result : record s { buffer = b } ≡ s' = ground arith in
        subst IsOrderly result (record {
          joiners = h.joiners;
          closed = h.closed;
          finished = step-Finished s.once ev s.buffer b h.finished made;
          returned = h.returned;
          halts = step-Halts ev s.buffer b s.stop_closed h.halts opened made;
        })
  ]
]

pub run_turns-IsOrderly :
    (ts : List Turn) (s s' : Session) → run_turns ts s ≡ some s' → IsOrderly s → IsOrderly s'
unfolding run_turns
run_turns-IsOrderly [] s s' ran h = subst IsOrderly (eq_of-some ran) h
run_turns-IsOrderly (t ∷ ts) s s' ran h = elim (Option-cases (take_turn t s)) [
  | inl stuck ↦ absurd (ground arith)
  | inr (next, made) ↦
      run_turns-IsOrderly ts next s' (rw (made, run_turns) at ran)
        (take_turn-IsOrderly t s next made h)
]
