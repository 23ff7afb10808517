-- ===== src/Tests/Data.antt =====
-- Machines, directories and rows for the tests.
use bcrstracking.Prelude.{ℕ, ◌+◌, String, none, List, [], ◌∷◌}
use bcrstracking.Prelude.GoMap.{Entries}
use bcrstracking.Model.{Uuid, Rvm, RvmEvent, BinStatus, machine_added}

abbrev pub machine : ℕ → String → String → Rvm
machine id status location_name = record {
  id = id;
  serial_number = "S";
  supplier_id = "RVMS001";
  location_name = location_name;
  latitude = 0;
  longitude = 0;
  coords_color = "";
  address = "1 Road";
  postal_code = "000001";
  status = status;
  rvm_remarks = "";
  model = "";
  rvm_type = "";
  group_ids = [];
  opening_hours = "";
  raw_json = "{}";
  first_seen_at = 0;
  updated_at = 0;
  is_deleted = 0;
}

-- Machine 1 keeps its facts, 2 changes its status, 3 its name, 4 goes and 5 comes.
abbrev pub yesterday : List Rvm
yesterday =
    machine 1 "RUNNING" "Hall"
    ∷ machine 2 "RUNNING" "Mall"
    ∷ machine 3 "FULL" "Shop"
    ∷ machine 4 "FULL" "Park"
    ∷ []

abbrev pub today : List Rvm
today =
    machine 5 "RUNNING" "Zoo"
    ∷ machine 1 "RUNNING" "Hall"
    ∷ machine 2 "FULL" "Mall"
    ∷ machine 3 "FULL" "Store"
    ∷ []

abbrev pub known : Entries ℕ Rvm
known =
    (1, machine 1 "RUNNING" "Hall")
    ∷ (2, machine 2 "RUNNING" "Mall")
    ∷ (3, machine 3 "FULL" "Shop")
    ∷ (4, machine 4 "FULL" "Park")
    ∷ []

abbrev pub uuid : ℕ → Uuid
uuid n = n + 100

abbrev pub some_event : RvmEvent
some_event = record {
  event_id = 1;
  rvm_id = 1;
  serial_number = "S";
  supplier_id = "RVMS001";
  event_type = machine_added;
  previous_status = "";
  current_status = "RUNNING";
  payload_diff = "{}";
  recorded_at = 3;
}

abbrev pub bin : ℕ → String → ℕ → ℕ → BinStatus
bin rvm_id compartment_type capacity current_count = record {
  id = 1;
  rvm_id = rvm_id;
  serial_number = "S";
  compartment_type = compartment_type;
  capacity = capacity;
  current_count = current_count;
  threshold_level = 40;
  last_updated = none;
  polled_at = 3;
  raw_json = "{}";
}
