-- ===== src/Batch/Callers.antt =====
-- Flush and Stop of internal/storage/batch_writer.go: the goroutines that call them, beside the
-- worker and the producers of Batch. One step is one ready case of a select, one part of a
-- sync.Once, or one step of the buffer. The worker receives a request of Flush when a caller hands
-- it over, and sees a stop when stopChan is closed.
pub mod Steps
pub mod Served
pub mod Flush
pub mod Halting
pub mod Order
pub mod Stop
pub mod Awaiting
pub mod Progress
use bcrstracking.Prelude.{
  ℕ, Option, none, some, Bool, true, false, List, [], ◌∷◌, ◌++◌, ltb, if◌then◌else◌, get_elem?, set,
}
use bcrstracking.Batch.{
  BatchBuffer, Phase, Event, step, works, flush_requested, stop_requested, stopped,
}

-- Where a caller stands. In Flush: at its first select, at the second with the number of the acks
-- that the worker had closed before it took this one, or after its return, with the ack closed or
-- without. In Stop: before the function of the stopOnce, at its bb.wg.Wait, or after the return.
pub data Waiter : Type 0 where
  offering : Waiter
  awaiting : ℕ → Waiter
  acknowledged abandoned : Waiter
  stopping joining joined : Waiter

-- stopOnce
pub data Once : Type 0 where
  unused running done : Once

-- `stop_closed` is whether stopChan is closed.
pub record Session : Type 0 where
  pub buffer : BatchBuffer
  pub stop_closed : Bool
  pub once : Once
  pub waiters : List Waiter

-- Whether the worker has returned, for which bb.wg.Wait waits.
abbrev pub has_stopped : Phase → Bool
has_stopped stopped = true
has_stopped _ = false

-- What a caller does: it sends its ack to the worker, receives from the ack or from stopChan, or its
-- context ends; it closes stopChan as the first in stopOnce, finds the worker gone, or finds the
-- stopOnce done.
pub data Deed : Type 0 where
  hand_over hear_ack hear_stop give_up close_stop join follow : Deed

unfoldable pub deed : Waiter → Deed → Session → Option (Waiter × Session)
deed offering hand_over s = elim (step (works flush_requested) s.buffer) [
  | none ↦ none
  | some b ↦ some (awaiting s.buffer.acks, record s { buffer = b })
]
deed (awaiting n) hear_ack s = if ltb n s.buffer.acks then some (acknowledged, s) else none
deed offering hear_stop s = if s.stop_closed then some (abandoned, s) else none
deed (awaiting n) hear_stop s = if s.stop_closed then some (abandoned, s) else none
deed offering give_up s = some (abandoned, s)
deed (awaiting n) give_up s = some (abandoned, s)
deed stopping close_stop s = elim s.once [
  | unused ↦ some (joining, record s { stop_closed = true; once = running })
  | _ ↦ none
]
deed joining join s =
    if has_stopped s.buffer.phase then some (joined, record s { once = done }) else none
deed stopping follow s = elim s.once [ done ↦ some (joined, s) | _ ↦ none ]
deed _ _ s = none

-- Whether the worker or a producer can make a step of the buffer by itself.
abbrev pub is_open : Bool → Event → Bool
is_open closed (works flush_requested) = false
is_open closed (works stop_requested) = closed
is_open closed _ = true

-- A goroutine calls Flush or Stop, one of them acts, or the buffer makes a step.
pub data Turn : Type 0 where
  calls_flush calls_stop : Turn
  acts : ℕ → Deed → Turn
  moves : Event → Turn

unfoldable pub take_turn : Turn → Session → Option Session
unfolding deed
take_turn calls_flush s = some (record s { waiters = s.waiters ++ offering ∷ [] })
take_turn calls_stop s = some (record s { waiters = s.waiters ++ stopping ∷ [] })
take_turn (acts i d) s = elim (get_elem? s.waiters i) [
  | none ↦ none
  | some w ↦ elim (deed w d s) [
    | none ↦ none
    | some (w', s') ↦ some (record s' { waiters = set s.waiters i w' })
  ]
]
take_turn (moves e) s =
    if is_open s.stop_closed e
    then elim (step e s.buffer) [ none ↦ none | some b ↦ some (record s { buffer = b }) ]
    else none

unfoldable pub run_turns : List Turn → Session → Option Session
unfolding take_turn
run_turns [] s = some s
run_turns (t ∷ ts) s = elim (take_turn t s) [ none ↦ none | some s' ↦ run_turns ts s' ]

-- A buffer that nobody has asked to flush or to stop.
abbrev pub new_session : BatchBuffer → Session
new_session b = record { buffer = b; stop_closed = false; once = unused; waiters = [] }
