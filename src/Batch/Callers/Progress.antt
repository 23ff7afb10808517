-- ===== src/Batch/Callers/Progress.antt =====
-- That no caller of Flush or Stop hangs.
use bcrstracking.Prelude.{ℕ, nat_keys, some, Bool, true, false, ◌==◌, ◌≡◌}
use bcrstracking.Batch.{works, drain, answer, stop_requested}
use bcrstracking.Batch.Callers.{
  Waiter, Session, Turn, take_turn, acknowledged, abandoned, stopping, joined, join, give_up, acts,
  moves,
}

-- A caller that has not returned.
abbrev pub is_waiting : Waiter → Bool
is_waiting acknowledged = false
is_waiting abandoned = false
is_waiting joined = false
is_waiting _ = true

-- What helps the i-th caller at `w`: its own turn, but not the end of its context; the worker's round
-- of a drain, its flush, and its receipt of the stop, but no tick and no receipt of a row; and, for a
-- caller that waits for the stopOnce, the turn of the caller in it.
abbrev pub helps : ℕ → Waiter → Turn → Bool
helps i w (acts j give_up) = false
helps i stopping (acts j join) = true
helps i w (acts j d) = j == i
helps i w (moves (works drain)) = true
helps i w (moves (works (answer ok duration))) = true
helps i w (moves (works stop_requested)) = true
helps i w _ = false

abbrev pub Progresses : ℕ → Waiter → Session → Type 0
Progresses i w s = (t : Turn) × (s' : Session) × (helps i w t ≡ true) × (take_turn t s ≡ some s')
