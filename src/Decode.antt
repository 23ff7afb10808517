-- ===== src/Decode.antt =====
-- The decoding of machines and bins: UnmarshalJSON of internal/model/rvm.go and internal/model/bin.go.
-- What encoding/json reads into the tagged fields, and the readers of strconv and time, are
-- arguments; a text that comes with the fields is the JSON that they were read from.
use bcrstracking.Prelude.{
  ℕ, String, Option, none, some, List, [], map, string_keys, ◌==◌, if◌then◌else◌,
}
use bcrstracking.Prelude.GoMap.{value_or}
use bcrstracking.Errors.{Result, ok, err}
use bcrstracking.Model.{Time, Rvm, BinStatus}
use bcrstracking.AccessToken.{Bytes, or_else}

-- The fields of an RVM that have a JSON name, as json.Unmarshal leaves them, with the coordinates as
-- the texts of `aux`.
pub record RvmFields : Type 0 where
  pub id : ℕ
  pub serial_number : String
  pub supplier_id : String
  pub location_name : String
  pub lat : String
  pub lng : String
  pub coords_color : String
  pub address : String
  pub postal_code : String
  pub status : String
  pub rvm_remarks : String
  pub model : String
  pub rvm_type : String
  pub group_ids : List ℕ
  pub opening_hours : String

-- A coordinate stays as it was if the text is empty or no number.
abbrev pub coordinate : (String → Option ℕ) → String → ℕ → ℕ
coordinate parse_float text before =
    if text == "" then before else value_or before (parse_float text)

-- UnmarshalJSON of an RVM into `receiver`: what has no JSON name (`json:"-"`) stays as it was, but
-- for the coordinates and raw_json.
unfoldable pub unmarshal_rvm : (String → Option ℕ) → RvmFields × String → Rvm → Rvm
unmarshal_rvm parse_float (aux, raw) receiver = record receiver {
  id = aux.id;
  serial_number = aux.serial_number;
  supplier_id = aux.supplier_id;
  location_name = aux.location_name;
  latitude = coordinate parse_float aux.lat receiver.latitude;
  longitude = coordinate parse_float aux.lng receiver.longitude;
  coords_color = aux.coords_color;
  address = aux.address;
  postal_code = aux.postal_code;
  status = aux.status;
  rvm_remarks = aux.rvm_remarks;
  model = aux.model;
  rvm_type = aux.rvm_type;
  group_ids = aux.group_ids;
  opening_hours = aux.opening_hours;
  raw_json = raw;
}

-- The zero value, into which encoding/json decodes an element of a slice.
abbrev pub zero_rvm : Rvm
zero_rvm = record {
  id = 0;
  serial_number = "";
  supplier_id = "";
  location_name = "";
  latitude = 0;
  longitude = 0;
  coords_color = "";
  address = "";
  postal_code = "";
  status = "";
  rvm_remarks = "";
  model = "";
  rvm_type = "";
  group_ids = [];
  opening_hours = "";
  raw_json = "";
  first_seen_at = 0;
  updated_at = 0;
  is_deleted = 0;
}

-- The fields of a BinStatus that have a JSON name, as json.Unmarshal leaves them; `last_updated_str`
-- is none for a missing or null one.
pub record BinFields : Type 0 where
  pub id : ℕ
  pub rvm_id : ℕ
  pub compartment_type : String
  pub capacity : ℕ
  pub current_count : ℕ
  pub threshold_level : ℕ
  pub last_updated_str : Option String

-- The two layouts of last_updated; `parse_time` is time.Parse, with the layout first. Without a time
-- the field stays as it was.
abbrev pub last_update : (String → String → Option Time) → Option String → Option Time → Option Time
last_update parse_time none before = before
last_update parse_time (some text) before =
    if text == ""
    then before
    else or_else (parse_time "2006-01-02T15:04:05Z07:00" text)
        (or_else (parse_time "2006-01-02T15:04:05.000Z" text) before)

-- UnmarshalJSON of a BinStatus into `receiver`.
unfoldable pub unmarshal_bin :
    (String → String → Option Time) → BinFields × String → BinStatus → BinStatus
unmarshal_bin parse_time (aux, raw) receiver = record receiver {
  id = aux.id;
  rvm_id = aux.rvm_id;
  compartment_type = aux.compartment_type;
  capacity = aux.capacity;
  current_count = aux.current_count;
  threshold_level = aux.threshold_level;
  last_updated = last_update parse_time aux.last_updated_str receiver.last_updated;
  raw_json = raw;
}

abbrev pub zero_bin : BinStatus
zero_bin = record {
  id = 0;
  rvm_id = 0;
  serial_number = "";
  compartment_type = "";
  capacity = 0;
  current_count = 0;
  threshold_level = 0;
  last_updated = none;
  polled_at = 0;
  raw_json = "";
}

-- The data of a LocationsResponse and of a BinStatusResponse: each element is decoded into the zero
-- value. `read` is what encoding/json reads.
unfoldable pub unmarshal_all {ℓ κ} :
    {A : Type ℓ} {B : Type κ}
    → (A → B → B)
    → B
    → (Bytes → Result (List A))
    → Bytes
    → Result (List B)
unmarshal_all unmarshal zero_value read body = elim (read body) [
  | err e ↦ err e
  | ok elements ↦ ok (map (λ element. unmarshal element zero_value) elements)
]
