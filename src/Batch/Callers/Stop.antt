-- ===== src/Batch/Callers/Stop.antt =====
-- What Stop promises.
use bcrstracking.Prelude.{
  ℕ, some, false, List, [], ◌∷◌, ◌≡◌, inl, inr, refl, sym, ap, subst, ◌∙◌, arith, get_elem?,
  eq_of-some, All-get_elem?, Option-cases,
}
use bcrstracking.Batch.{BatchBuffer, selecting, stopped}
use bcrstracking.Batch.Callers.{Session, Turn, take_turn, run_turns, new_session, joined}
use bcrstracking.Batch.Callers.Steps.{Steps, take_turn-Steps}
use bcrstracking.Batch.Callers.Halting.{Halts, Rests, step-Rests}
use bcrstracking.Batch.Callers.Order.{IsOrderly, Joined, Finished, run_turns-IsOrderly}

pub new_session-IsOrderly : (b : BatchBuffer) → b.phase ≡ selecting → IsOrderly (new_session b)
new_session-IsOrderly b here = record {
  joiners = refl;
  closed = refl;
  finished = tt;
  returned = tt;
  halts = subst (λ p. Halts p false) (sym here) tt;
}

pub Rests-Steps : (b b' : BatchBuffer) → b.phase ≡ stopped → Steps b b' → Rests b b'
Rests-Steps b b' rest (inl same) =
    subst (Rests b) (sym same) (record { phase = rest; rvms = refl; events = refl; bins = refl })
Rests-Steps b b' rest (inr (ev, made)) = step-Rests ev b b' rest made

Rests-trans : (b b' b'' : BatchBuffer) → Rests b b' → Rests b' b'' → Rests b b''
Rests-trans b b' b'' h k = record {
  phase = k.phase;
  rvms = k.rvms ∙ h.rvms;
  events = k.events ∙ h.events;
  bins = k.bins ∙ h.bins;
}

run_turns-Rests :
    (ts : List Turn) (s s' : Session)
    → s.buffer.phase ≡ stopped
    → run_turns ts s ≡ some s'
    → Rests s.buffer s'.buffer
unfolding run_turns
run_turns-Rests [] s s' rest ran =
    Rests-Steps s.buffer s'.buffer rest (inl (ap (λ x. x.buffer) (sym (eq_of-some ran))))
run_turns-Rests (t ∷ ts) s s' rest ran = elim (Option-cases (take_turn t s)) [
  | inl stuck ↦ absurd (ground arith)
  | inr (next, made) ↦
      let now = Rests-Steps s.buffer next.buffer rest (take_turn-Steps t s next made) in
      Rests-trans s.buffer next.buffer s'.buffer now
        (run_turns-Rests ts next s' now.phase (rw (made, run_turns) at ran))
]

-- Once a call of Stop has returned, whatever is done then, the worker has returned, and the rows that
-- were committed when the Stop returned are all that are ever committed. The worker was at its select when the first caller came.
pub stop_ends_writing :
    (b : BatchBuffer) (ts later : List Turn) (s s' : Session) (i : ℕ)
    → b.phase ≡ selecting
    → run_turns ts (new_session b) ≡ some s
    → get_elem? s.waiters i ≡ some joined
    → run_turns later s ≡ some s'
    → Rests s.buffer s'.buffer
stop_ends_writing b ts later s s' i here ran back ran_on =
    let h = run_turns-IsOrderly ts (new_session b) s ran (new_session-IsOrderly b here) in
    let over = All-get_elem? (Joined s.once) s.waiters i joined h.returned back in
    run_turns-Rests later s s' (subst (λ o. Finished o s.buffer.phase) over h.finished) ran_on
