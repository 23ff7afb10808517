-- ===== src/Storage/Lifecycle/Shutdown.antt =====
-- Close of internal/storage/clickhouse.go: the connection outlives the inserts.
use bcrstracking.Prelude.{
  ℕ, Option, some, Bool, true, false, List, [], ◌∷◌, ◌≡◌, ◌⊎◌, inl, inr, refl, sym, ap, ◌∙◌, arith,
  subst, get_elem?, Option-cases, Bool-cases, All-get_elem?, eq_of-some,
}
use bcrstracking.Config.{Config}
use bcrstracking.Metrics.{Metrics}
use bcrstracking.Errors.{ok}
use bcrstracking.Batch.{BatchBuffer, new_batch_buffer, Act, step, works, selecting, stopped}
use bcrstracking.Batch.Callers.{Session, Turn, take_turn, joined, calls_stop}
use bcrstracking.Batch.Callers.Steps.{take_turn-Steps}
use bcrstracking.Batch.Callers.Halting.{work-stopped}
use bcrstracking.Batch.Callers.Order.{IsOrderly, Joined, Finished, take_turn-IsOrderly}
use bcrstracking.Batch.Callers.Stop.{new_session-IsOrderly, Rests-Steps}
use bcrstracking.Storage.Lifecycle.{
  Handle, NewReply, new_storage, Lifecycle, Happening, Closer, in_service, happen, happen_all,
  in_use, stopping_buffer, released, uses, closes, disconnects,
}

-- A connection is closed only when the worker has returned.
record IsSafe (l : Lifecycle) : Type 0 where
  orderly : IsOrderly l.session
  closed : (l.connected ≡ false) → l.session.buffer.phase ≡ stopped

-- A turn after the connection was closed finds the worker gone, and leaves it so.
take_turn-stopped :
    (t : Turn) (s s' : Session)
    → take_turn t s ≡ some s'
    → s.buffer.phase ≡ stopped
    → s'.buffer.phase ≡ stopped
take_turn-stopped t s s' e rest =
    (Rests-Steps s.buffer s'.buffer rest (take_turn-Steps t s s' e)).phase

IsSafe-take_turn :
    (t : Turn) (l : Lifecycle) (s : Session) (closer : Closer)
    → take_turn t l.session ≡ some s
    → IsSafe l
    → IsSafe (record l { session = s; closer = closer })
IsSafe-take_turn t l s closer e h = record {
  orderly = take_turn-IsOrderly t l.session s e h.orderly;
  closed = λ off. take_turn-stopped t l.session s e (h.closed off);
}

Closer-cases : (c : Closer) → (c ≡ in_use) ⊎ ((i : ℕ) × (c ≡ stopping_buffer i)) ⊎ (c ≡ released)
Closer-cases in_use = inl refl
Closer-cases (stopping_buffer i) = inr (inl (i, refl))
Closer-cases released = inr (inr refl)

-- What the step of s.conn.Close tells.
disconnected :
    (l l' : Lifecycle)
    → happen disconnects l ≡ some l'
    → (i : ℕ) × (get_elem? l.session.waiters i ≡ some joined) × (l'.session ≡ l.session)
unfolding happen
disconnected l l' e = elim (Closer-cases l.closer) [
  | inl here ↦ absurd (ground arith)
  | inr (inr here) ↦ absurd (ground arith)
  | inr (inl (i, here)) ↦ elim (Option-cases (get_elem? l.session.waiters i)) [
    | inl nobody ↦ absurd (ground arith)
    | inr (w, found) ↦ (i, ground arith, ground arith)
  ]
]

happen-IsSafe : (h : Happening) (l l' : Lifecycle) → happen h l ≡ some l' → IsSafe l → IsSafe l'
unfolding happen
happen-IsSafe (uses t) l l' e safe = elim (Option-cases (take_turn t l.session)) [
  | inl stuck ↦ absurd (ground arith)
  | inr (s, went) ↦ subst IsSafe (ground arith) (IsSafe-take_turn t l s l.closer went safe)
]
happen-IsSafe closes l l' e safe = elim (Option-cases (take_turn calls_stop l.session)) [
  | inl stuck ↦ absurd (ground arith)
  | inr (s, went) ↦
      subst IsSafe (ground arith) (IsSafe-take_turn calls_stop l s l'.closer went safe)
]
happen-IsSafe disconnects l l' e safe =
    let (i, back, same) = disconnected l l' e in
    let orderly : IsOrderly l.session = safe.orderly in
    let over =
      All-get_elem? (Joined l.session.once) l.session.waiters i joined orderly.returned back in
    let rest : l.session.buffer.phase ≡ stopped =
      subst (λ o. Finished o l.session.buffer.phase) over orderly.finished in
    record {
      orderly = subst IsOrderly (sym same) orderly;
      closed = λ off. ap (λ (s : Session). s.buffer.phase) same ∙ rest;
    }

happen_all-IsSafe :
    (hs : List Happening) (l l' : Lifecycle) → happen_all hs l ≡ some l' → IsSafe l → IsSafe l'
unfolding happen_all
happen_all-IsSafe [] l l' ran safe = subst IsSafe (eq_of-some ran) safe
happen_all-IsSafe (h ∷ hs) l l' ran safe = elim (Option-cases (happen h l)) [
  | inl stuck ↦ absurd (ground arith)
  | inr (next, went) ↦
      happen_all-IsSafe hs next l' (rw (went, happen_all) at ran) (happen-IsSafe h l next went safe)
]

-- What New gives back with no error.
new_storage_ok :
    (cfg : Config) (metrics : Option Metrics) (reply : NewReply) (h : Handle) (shut : Bool)
    (b : BatchBuffer)
    → new_storage cfg metrics reply ≡ (ok h, shut)
    → h.buffer ≡ some b
    → (shut ≡ false) × (b.phase ≡ selecting)
unfolding new_storage new_batch_buffer
new_storage_ok cfg metrics reply h shut b made here = elim (Option-cases reply.opened) [
  | inr (e, failed) ↦ absurd (ground arith)
  | inl opened ↦ elim (Option-cases reply.pinged) [
    | inr (e, failed) ↦ absurd (ground arith)
    | inl pinged ↦ (ground arith, ground arith)
  ]
]

-- No batch is sent over a closed connection: New gives back a storage whose connection it has left
-- open, and whatever its worker, the producers, the callers of Flush and Stop, and the caller of Close
-- do then, in any order, when the worker can make a step of its own, in particular an insert, the
-- connection is open, since Close waits for the worker before it closes the connection.
pub worker_connected :
    (cfg : Config) (metrics : Option Metrics) (reply : NewReply) (h : Handle) (shut : Bool)
    (b b' : BatchBuffer) (hs : List Happening) (l : Lifecycle) (act : Act)
    → new_storage cfg metrics reply ≡ (ok h, shut)
    → h.buffer ≡ some b
    → happen_all hs (in_service b) ≡ some l
    → step (works act) l.session.buffer ≡ some b'
    → (shut ≡ false) × (l.connected ≡ true)
unfolding step
worker_connected cfg metrics reply h shut b b' hs l act new here ran made =
    let (kept, first) = new_storage_ok cfg metrics reply h shut b new here in
    let safe =
      happen_all-IsSafe hs (in_service b) l ran (record {
        orderly = new_session-IsOrderly b first;
        closed = λ off. absurd (ground arith);
      }) in
    elim (Bool-cases l.connected) [
      | inl on ↦ (kept, on)
      | inr off ↦ absurd (work-stopped act l.session.buffer b' (rw (safe.closed off) at made))
    ]
