-- ===== src/Storage/Lifecycle.antt =====
-- New, NewWithConn, the methods that pass a row on to the buffer, and Close of
-- internal/storage/clickhouse.go. What the driver answers is an argument.
pub mod Shutdown
use bcrstracking.Prelude.{
  ℕ, Option, none, some, Bool, true, false, List, [], ◌∷◌, ◌++◌, get_elem?, length,
}
use bcrstracking.Errors.{Error, wrapped, Result, ok, err}
use bcrstracking.Config.{Config}
use bcrstracking.Metrics.{Metrics}
use bcrstracking.Batch.{BatchBuffer, new_batch_buffer}
use bcrstracking.Batch.Callers.{
  Waiter, Session, Turn, take_turn, new_session, stopping, joined, calls_stop,
}

-- `has_conn` is whether s.conn is not nil.
pub record Handle : Type 0 where
  pub has_conn : Bool
  pub buffer : Option BatchBuffer

-- NewWithConn
unfoldable pub new_with_conn : Bool → Option Config → Option Metrics → Handle
new_with_conn has_conn cfg metrics = record {
  has_conn = has_conn;
  buffer = some (new_batch_buffer cfg metrics true);
}

-- What clickhouse.Open and Ping answer.
pub record NewReply : Type 0 where
  pub opened : Option Error
  pub pinged : Option Error

-- New, and whether it has closed a connection that it had opened.
unfoldable pub new_storage : Config → Option Metrics → NewReply → Result Handle × Bool
unfolding new_with_conn
new_storage cfg metrics reply = elim reply.opened [
  | some e ↦ (err (wrapped "failed to connect to ClickHouse" e), false)
  | none ↦ elim reply.pinged [
    | some e ↦ (err (wrapped "ClickHouse ping failed" e), true)
    | none ↦ (ok (new_with_conn true (some cfg) metrics), false)
  ]
]

-- EnqueueRVM, EnqueueEvent and EnqueueBin, which pass their row on to a method of the buffer.
unfoldable pub pass_on {ℓ} : {A : Type ℓ} → (A → BatchBuffer → BatchBuffer) → A → Handle → Handle
pass_on method row h = elim h.buffer [
  | none ↦ h
  | some b ↦ record h { buffer = some (method row b) }
]

-- Where the goroutine that calls Close stands: before it, in the Stop of the buffer as the caller
-- with a number, or after it.
pub data Closer : Type 0 where
  in_use : Closer
  stopping_buffer : ℕ → Closer
  released : Closer

-- A storage in use: the buffer with its callers, and whether the connection is open.
pub record Lifecycle : Type 0 where
  pub session : Session
  pub connected : Bool
  pub closer : Closer

abbrev pub in_service : BatchBuffer → Lifecycle
in_service b = record { session = new_session b; connected = true; closer = in_use }

-- A turn of the buffer or of its callers, the call of Close, or its s.conn.Close, which it comes to
-- when its Stop has returned.
pub data Happening : Type 0 where
  uses : Turn → Happening
  closes disconnects : Happening

unfoldable pub happen : Happening → Lifecycle → Option Lifecycle
happen (uses t) l = elim (take_turn t l.session) [
  | none ↦ none
  | some s ↦ some (record l { session = s })
]
happen closes l = elim l.closer [
  | in_use ↦ elim (take_turn calls_stop l.session) [
    | none ↦ none
    | some s ↦ some (record l { session = s; closer = stopping_buffer (length l.session.waiters) })
  ]
  | _ ↦ none
]
happen disconnects l = elim l.closer [
  | stopping_buffer i ↦ elim (get_elem? l.session.waiters i) [
    | some joined ↦ some (record l { connected = false; closer = released })
    | _ ↦ none
  ]
  | _ ↦ none
]

unfoldable pub happen_all : List Happening → Lifecycle → Option Lifecycle
unfolding happen
happen_all [] l = some l
happen_all (h ∷ hs) l = elim (happen h l) [ none ↦ none | some l' ↦ happen_all hs l' ]
