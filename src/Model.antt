-- ===== src/Model.antt =====
-- The records of internal/model: machines (rvm.go), bins (bin.go) and lifecycle events (event.go).
-- Their JSON decoding is in Decode. A float64 coordinate is its 64-bit pattern: this code
-- only copies it. An unsigned field is a natural number; its width shows in `FitsBin`.
pub mod Index
use bcrstracking.Prelude.{ℕ, ◌^◌, ◌<◌, String, Option, List, Comparable}

-- time.Time in nanoseconds since its zero value: 0 is `time.Time{}`.
abbrev pub Time : Type 0
Time = ℕ

-- time.Duration in nanoseconds, where the program only uses positive ones.
abbrev pub Duration : Type 0
Duration = ℕ

-- uuid.UUID, 128 bits.
abbrev pub Uuid : Type 0
Uuid = ℕ

pub record Rvm : Type 0 where
  pub id : ℕ
  pub serial_number : String
  pub supplier_id : String
  pub location_name : String
  pub latitude : ℕ
  pub longitude : ℕ
  pub coords_color : String
  pub address : String
  pub postal_code : String
  pub status : String
  pub rvm_remarks : String
  pub model : String
  pub rvm_type : String
  pub group_ids : List ℕ
  pub opening_hours : String
  pub raw_json : String
  pub first_seen_at : Time
  pub updated_at : Time
  pub is_deleted : ℕ

pub record BinStatus : Type 0 where
  pub id : ℕ
  pub rvm_id : ℕ
  pub serial_number : String
  pub compartment_type : String
  pub capacity : ℕ
  pub current_count : ℕ
  pub threshold_level : ℕ
  pub last_updated : Option Time
  pub polled_at : Time
  pub raw_json : String

pub data EventType : Type 0 where
  machine_added machine_removed status_changed metadata_updated : EventType

-- string(e.EventType)
unfoldable pub event_type_name : EventType → String
event_type_name machine_added = "MACHINE_ADDED"
event_type_name machine_removed = "MACHINE_REMOVED"
event_type_name status_changed = "STATUS_CHANGED"
event_type_name metadata_updated = "METADATA_UPDATED"

pub record RvmEvent : Type 0 where
  pub event_id : Uuid
  pub rvm_id : ℕ
  pub serial_number : String
  pub supplier_id : String
  pub event_type : EventType
  pub previous_status : String
  pub current_status : String
  pub payload_diff : String
  pub recorded_at : Time
