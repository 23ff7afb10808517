-- ===== src/Storage/Rows.antt =====
-- The rows that internal/storage/clickhouse.go exchanges with the driver: what Append is given, and
-- what Scan makes of them.
use bcrstracking.Prelude.{
  ℕ, String, Option, none, some, List, [], ◌∷◌, nat_keys, ◌==◌, if◌then◌else◌,
}
use bcrstracking.Model.{Time, Uuid, Rvm, RvmEvent, BinStatus, event_type_name}

-- `uint w n` is a number of an unsigned type of w bits.
pub data Value : Type 0 where
  uint : ℕ → ℕ → Value
  float : ℕ → Value
  text : String → Value
  uuid : Uuid → Value
  uints : List ℕ → Value
  instant : Time → Value
  nullable : Option Time → Value

abbrev pub Row : Type 0
Row = List Value

-- What batch.Append is given for a machine; a nil slice of groups and an empty one are one here.
unfoldable pub rvm_row : Rvm → Row
rvm_row r =
    uint 32 r.id
    ∷ text r.serial_number
    ∷ text r.supplier_id
    ∷ text r.location_name
    ∷ float r.latitude
    ∷ float r.longitude
    ∷ text r.coords_color
    ∷ text r.address
    ∷ text r.postal_code
    ∷ text r.status
    ∷ text r.rvm_remarks
    ∷ text r.model
    ∷ text r.rvm_type
    ∷ uints r.group_ids
    ∷ text r.opening_hours
    ∷ text r.raw_json
    ∷ instant r.first_seen_at
    ∷ instant r.updated_at
    ∷ uint 8 r.is_deleted
    ∷ []

unfoldable pub event_row : RvmEvent → Row
unfolding event_type_name
event_row e =
    uuid e.event_id
    ∷ uint 32 e.rvm_id
    ∷ text e.serial_number
    ∷ text e.supplier_id
    ∷ text (event_type_name e.event_type)
    ∷ text e.previous_status
    ∷ text e.current_status
    ∷ text e.payload_diff
    ∷ instant e.recorded_at
    ∷ []

unfoldable pub bin_row : BinStatus → Row
bin_row b =
    uint 64 b.id
    ∷ uint 32 b.rvm_id
    ∷ text b.serial_number
    ∷ text b.compartment_type
    ∷ uint 32 b.capacity
    ∷ uint 32 b.current_count
    ∷ uint 8 b.threshold_level
    ∷ nullable b.last_updated
    ∷ instant b.polled_at
    ∷ text b.raw_json
    ∷ []

-- One value that Scan copies into a field, and the rest of the row; `none` where the types differ.
-- An unsigned number goes into a field of its own width only.
abbrev pub take_uint : ℕ → Row → Option (ℕ × Row)
take_uint width (uint w n ∷ rest) = if w == width then some (n, rest) else none
take_uint width _ = none

abbrev pub take_float : Row → Option (ℕ × Row)
take_float (float n ∷ rest) = some (n, rest)
take_float _ = none

abbrev pub take_text : Row → Option (String × Row)
take_text (text s ∷ rest) = some (s, rest)
take_text _ = none

abbrev pub take_uints : Row → Option (List ℕ × Row)
take_uints (uints ns ∷ rest) = some (ns, rest)
take_uints _ = none

abbrev pub take_instant : Row → Option (Time × Row)
take_instant (instant t ∷ rest) = some (t, rest)
take_instant _ = none

infixl 5 ◌>>=◌
abbrev ◌>>=◌ {ℓ κ} : {A : Type ℓ} {B : Type κ} → Option A → (A → Option B) → Option B
none >>= f = none
some a >>= f = f a

-- The end of a row.
abbrev finish_row {ℓ} : {A : Type ℓ} → A → Row → Option A
finish_row a [] = some a
finish_row a (v ∷ rest) = none

-- rows.Scan into the fields of a machine, in the order of the SELECT of LoadActiveRVMs.
unfoldable pub scan_rvm : Row → Option Rvm
scan_rvm row = do
  (id, r1) ← take_uint 32 row
  (serial_number, r2) ← take_text r1
  (supplier_id, r3) ← take_text r2
  (location_name, r4) ← take_text r3
  (latitude, r5) ← take_float r4
  (longitude, r6) ← take_float r5
  (coords_color, r7) ← take_text r6
  (address, r8) ← take_text r7
  (postal_code, r9) ← take_text r8
  (status, r10) ← take_text r9
  (rvm_remarks, r11) ← take_text r10
  (model, r12) ← take_text r11
  (rvm_type, r13) ← take_text r12
  (group_ids, r14) ← take_uints r13
  (opening_hours, r15) ← take_text r14
  (raw_json, r16) ← take_text r15
  (first_seen_at, r17) ← take_instant r16
  (updated_at, r18) ← take_instant r17
  (is_deleted, r19) ← take_uint 8 r18
  finish_row
      (record {
        id = id;
        serial_number = serial_number;
        supplier_id = supplier_id;
        location_name = location_name;
        latitude = latitude;
        longitude = longitude;
        coords_color = coords_color;
        address = address;
        postal_code = postal_code;
        status = status;
        rvm_remarks = rvm_remarks;
        model = model;
        rvm_type = rvm_type;
        group_ids = group_ids;
        opening_hours = opening_hours;
        raw_json = raw_json;
        first_seen_at = first_seen_at;
        updated_at = updated_at;
        is_deleted = is_deleted;
      })
      r19

pub record LatestBinInfo : Type 0 where
  pub rvm_id : ℕ
  pub serial_number : String
  pub compartment_type : String
  pub capacity : ℕ
  pub current_count : ℕ
  pub threshold_level : ℕ

unfoldable pub scan_bin : Row → Option LatestBinInfo
scan_bin row = do
  (rvm_id, r1) ← take_uint 32 row
  (serial_number, r2) ← take_text r1
  (compartment_type, r3) ← take_text r2
  (capacity, r4) ← take_uint 32 r3
  (current_count, r5) ← take_uint 32 r4
  (threshold_level, r6) ← take_uint 8 r5
  finish_row
      (record {
        rvm_id = rvm_id;
        serial_number = serial_number;
        compartment_type = compartment_type;
        capacity = capacity;
        current_count = current_count;
        threshold_level = threshold_level;
      })
      r6
