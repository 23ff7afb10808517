-- ===== src/Batch/Callers/Steps.antt =====
-- What the callers of Flush and Stop do to the buffer: nothing but steps of its own.
use bcrstracking.Prelude.{
  ℕ, some, List, [], ◌∷◌, ◌≡◌, ◌⊎◌, inl, inr, sym, ap, subst, arith, get_elem?, get_elem?-snoc,
  get_elem?-set, get_elem?-lt, Option-cases, Bool-cases,
}
use native.Mathlib.Decide.{ℕ_discrete}
use bcrstracking.Batch.{BatchBuffer, Event, step, run, works, flush_requested}
use bcrstracking.Batch.Callers.{
  Waiter, Session, Deed, Turn, deed, take_turn, run_turns, is_open, offering, awaiting, stopping,
  joining, hand_over, hear_ack, hear_stop, give_up, close_stop, join, follow, calls_flush,
  calls_stop, acts, moves,
}

-- A step of the whole is one of the buffer, or leaves it as it is.
abbrev pub Steps : BatchBuffer → BatchBuffer → Type 0
Steps b b' = (b' ≡ b) ⊎ ((e : Event) × (step e b ≡ some b'))

pub deed-Steps :
    (w : Waiter) (d : Deed) (s : Session) (w' : Waiter) (s' : Session)
    → deed w d s ≡ some (w', s')
    → Steps s.buffer s'.buffer
unfolding deed
deed-Steps offering hand_over s w' s' e =
    elim (Option-cases (step (works flush_requested) s.buffer)) [
      | inl stuck ↦ absurd (ground arith)
      | inr (b, made) ↦ inr (works flush_requested, ground arith)
    ]
deed-Steps (awaiting n) hear_ack s w' s' e = inl (ground arith)
deed-Steps offering hear_stop s w' s' e = inl (ground arith)
deed-Steps (awaiting n) hear_stop s w' s' e = inl (ground arith)
deed-Steps offering give_up s w' s' e = inl (ground arith)
deed-Steps (awaiting n) give_up s w' s' e = inl (ground arith)
deed-Steps stopping close_stop s w' s' e = inl (ground arith)
deed-Steps joining join s w' s' e = inl (ground arith)
deed-Steps stopping follow s w' s' e = inl (ground arith)
deed-Steps _ _ s w' s' e = absurd (ground arith)

pub take_turn-Steps :
    (t : Turn) (s s' : Session) → take_turn t s ≡ some s' → Steps s.buffer s'.buffer
unfolding take_turn
take_turn-Steps calls_flush s s' e = inl (ground arith)
take_turn-Steps calls_stop s s' e = inl (ground arith)
take_turn-Steps (acts i d) s s' e = elim (Option-cases (get_elem? s.waiters i)) [
  | inl missing ↦ absurd (ground arith)
  | inr (w, found) ↦ elim (Option-cases (deed w d s)) [
    | inl stuck ↦ absurd (ground arith)
    | inr ((w', next), made) ↦ elim (deed-Steps w d s w' next made) [
      | inl same ↦ inl (ground arith)
      | inr (ev, moved) ↦ inr (ev, ground arith)
    ]
  ]
]
take_turn-Steps (moves ev) s s' e = elim (Bool-cases (is_open s.stop_closed ev)) [
  | inr shut ↦ absurd (ground arith)
  | inl opened ↦ elim (Option-cases (step ev s.buffer)) [
    | inl stuck ↦ absurd (ground arith)
    | inr (b, made) ↦ inr (ev, ground arith)
  ]
]

-- Whatever the callers do, the buffer goes through a schedule of its own steps.
pub run_turns-run :
    (ts : List Turn) (s s' : Session)
    → run_turns ts s ≡ some s'
    → (es : List Event) × (run es s.buffer ≡ some s'.buffer)
unfolding run_turns run
run_turns-run [] s s' e = ([], ground arith)
run_turns-run (t ∷ ts) s s' e = elim (Option-cases (take_turn t s)) [
  | inl stuck ↦ absurd (ground arith)
  | inr (next, made) ↦
      let (es, ran) = run_turns-run ts next s' (rw (made, run_turns) at e) in
      elim (take_turn-Steps t s next made) [
        | inl same ↦ (es, rw (sym same) ran)
        | inr (ev, moved) ↦ (ev ∷ es, rw (moved, run) ran)
      ]
]

-- A turn leaves a caller where it stands, or the caller acts.
pub take_turn-waiter :
    (t : Turn) (s s' : Session) (i : ℕ) (w : Waiter)
    → take_turn t s ≡ some s'
    → get_elem? s.waiters i ≡ some w
    → (get_elem? s'.waiters i ≡ some w)
      ⊎ ((d : Deed) × (w' : Waiter) × (next : Session) × (deed w d s ≡ some (w', next))
          × (get_elem? s'.waiters i ≡ some w')
          × (s'.buffer ≡ next.buffer))
unfolding take_turn
take_turn-waiter calls_flush s s' i w e here =
    inl (ground (arith, get_elem?-snoc s.waiters offering i, get_elem?-lt s.waiters i w here))
take_turn-waiter calls_stop s s' i w e here =
    inl (ground (arith, get_elem?-snoc s.waiters stopping i, get_elem?-lt s.waiters i w here))
take_turn-waiter (acts j d) s s' i w e here = elim (Option-cases (get_elem? s.waiters j)) [
  | inl missing ↦ absurd (ground arith)
  | inr (v, found) ↦ elim (Option-cases (deed v d s)) [
    | inl stuck ↦ absurd (ground arith)
    | inr ((w', next), made) ↦ elim (ℕ_discrete j i) [
      | yes own ↦
          let same : v ≡ w = ground (arith, ap (get_elem? s.waiters) own) in
          inr (
            d,
            w',
            next,
            subst (λ x. deed x d s ≡ some (w', next)) same made,
            ground (arith, get_elem?-set s.waiters j i v w' found),
            ground arith,
          )
      | no other ↦ inl (ground (arith, get_elem?-set s.waiters j i v w' found))
    ]
  ]
]
take_turn-waiter (moves ev) s s' i w e here = elim (Bool-cases (is_open s.stop_closed ev)) [
  | inr shut ↦ absurd (ground arith)
  | inl opened ↦ elim (Option-cases (step ev s.buffer)) [
    | inl stuck ↦ absurd (ground arith)
    | inr (b, made) ↦ inl (ground arith)
  ]
]
