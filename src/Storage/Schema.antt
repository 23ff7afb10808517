-- ===== src/Storage/Schema.antt =====
-- SchemaDDL of internal/storage/clickhouse.go: the tables with their columns, the statements that make
-- them, and what a column takes.
use Prim.Native.String.{◌++◌}
use bcrstracking.Prelude.{
  ℕ, ◌^◌, String, string_keys, nat_keys, Option, none, some, Bool, true, false, List, [], ◌∷◌, ◌==◌,
  ◌&&◌, ltb, map, if◌then◌else◌, ◌≡◌, refl,
}
use bcrstracking.Text.{decimal}
use bcrstracking.Storage.{Value, Row, uint, float, text, uuid, uints, instant, nullable}

-- The types of the columns; a number has its width.
pub data ColumnType : Type 0 where
  unsigned : ℕ → ColumnType
  float64 characters low_cardinality uuid128 unsigned_array date_time nullable_date_time :
      ColumnType

-- `options` is what follows the type.
pub record Column : Type 0 where
  pub name : String
  pub column_type : ColumnType
  pub options : String

pub record Table : Type 0 where
  pub table_name : String
  pub columns : List Column
  pub engine : String

abbrev plain : String → ColumnType → Column
plain name column_type = record { name = name; column_type = column_type; options = "" }

abbrev zipped : String → Column
zipped name = record { name = name; column_type = characters; options = " CODEC(ZSTD(3))" }

unfoldable pub rvm_current : Table
rvm_current = record {
  table_name = "rvm_current";
  columns =
      plain "id" (unsigned 32)
      ∷ plain "serial_number" low_cardinality
      ∷ plain "supplier_id" low_cardinality
      ∷ plain "location_name" characters
      ∷ plain "latitude" float64
      ∷ plain "longitude" float64
      ∷ plain "coords_color" low_cardinality
      ∷ plain "address" characters
      ∷ plain "postal_code" low_cardinality
      ∷ plain "status" low_cardinality
      ∷ plain "rvm_remarks" characters
      ∷ plain "model" low_cardinality
      ∷ plain "rvm_type" low_cardinality
      ∷ plain "group_ids" unsigned_array
      ∷ plain "opening_hours" characters
      ∷ zipped "raw_json"
      ∷ plain "first_seen_at" date_time
      ∷ plain "updated_at" date_time
      ∷ record { name = "is_deleted"; column_type = unsigned 8; options = " DEFAULT 0" }
      ∷ [];
  engine =
      "ENGINE = ReplacingMergeTree(updated_at)" ++ "\n\t\tPRIMARY KEY (id)"
      ++ "\n\t\tORDER BY (id);";
}

unfoldable pub rvm_events : Table
rvm_events = record {
  table_name = "rvm_events";
  columns =
      plain "event_id" uuid128
      ∷ plain "rvm_id" (unsigned 32)
      ∷ plain "serial_number" low_cardinality
      ∷ plain "supplier_id" low_cardinality
      ∷ plain "event_type" low_cardinality
      ∷ plain "previous_status" low_cardinality
      ∷ plain "current_status" low_cardinality
      ∷ zipped "payload_diff"
      ∷ plain "recorded_at" date_time
      ∷ [];
  engine =
      "ENGINE = MergeTree()" ++ "\n\t\tPARTITION BY toYYYYMM(recorded_at)"
      ++ "\n\t\tORDER BY (recorded_at, rvm_id, event_type);";
}

unfoldable pub rvm_bin_snapshots : Table
rvm_bin_snapshots = record {
  table_name = "rvm_bin_snapshots";
  columns =
      plain "bin_record_id" (unsigned 64)
      ∷ plain "rvm_id" (unsigned 32)
      ∷ plain "serial_number" low_cardinality
      ∷ plain "compartment_type" low_cardinality
      ∷ plain "capacity" (unsigned 32)
      ∷ plain "current_count" (unsigned 32)
      ∷ plain "threshold_level" (unsigned 8)
      ∷ plain "upstream_last_updated" nullable_date_time
      ∷ plain "polled_at" date_time
      ∷ zipped "raw_json"
      ∷ [];
  engine =
      "ENGINE = MergeTree()" ++ "\n\t\tPARTITION BY toYYYYMM(polled_at)"
      ++ "\n\t\tORDER BY (compartment_type, rvm_id, polled_at)"
      ++ "\n\t\tTTL polled_at + INTERVAL 2 YEAR;";
}

abbrev pub tables : List Table
tables = rvm_current ∷ rvm_events ∷ rvm_bin_snapshots ∷ []

type_text : ColumnType → String
type_text (unsigned width) = "UInt" ++ decimal width
type_text float64 = "Float64"
type_text characters = "String"
type_text low_cardinality = "LowCardinality(String)"
type_text uuid128 = "UUID"
type_text unsigned_array = "Array(UInt32)"
type_text date_time = "DateTime64(3, 'UTC')"
type_text nullable_date_time = "Nullable(DateTime64(3, 'UTC'))"

columns_text : List Column → String
unfolding type_text
columns_text [] = ""
columns_text (c ∷ rest) =
    let behind = columns_text rest in
    "\n\t\t\t"
    ++ c.name
    ++ " "
    ++ type_text c.column_type
    ++ c.options
    ++ (if behind == "" then "" else ",")
    ++ behind

table_text : Table → String
unfolding columns_text
table_text t =
    "CREATE TABLE IF NOT EXISTS "
    ++ t.table_name
    ++ " ("
    ++ columns_text t.columns
    ++ "\n\t\t) "
    ++ t.engine

unfoldable pub schema_ddl : List String
unfolding table_text
schema_ddl = map table_text tables

-- The statements of PrepareBatch.
unfoldable pub insert_rvms_text : String
insert_rvms_text =
    "INSERT INTO rvm_current (id, serial_number, supplier_id, location_name, latitude, "
    ++ "longitude, coords_color, address, postal_code, status, rvm_remarks, model, "
    ++ "rvm_type, group_ids, opening_hours, raw_json, first_seen_at, updated_at, " ++ "is_deleted)"

unfoldable pub insert_events_text : String
insert_events_text =
    "INSERT INTO rvm_events (event_id, rvm_id, serial_number, supplier_id, event_type, "
    ++ "previous_status, current_status, payload_diff, recorded_at)"

unfoldable pub insert_bins_text : String
insert_bins_text =
    "INSERT INTO rvm_bin_snapshots (bin_record_id, rvm_id, serial_number, "
    ++ "compartment_type, capacity, current_count, threshold_level, "
    ++ "upstream_last_updated, polled_at, raw_json)"

-- The query of LoadActiveRVMs.
unfoldable pub load_rvms_text : String
load_rvms_text =
    "\n\t\tSELECT\n\t\t\tid,\n\t\t\tserial_number,\n\t\t\tsupplier_id,"
    ++ "\n\t\t\tlocation_name,\n\t\t\tlatitude,\n\t\t\tlongitude,\n\t\t\tcoords_color,"
    ++ "\n\t\t\taddress,\n\t\t\tpostal_code,\n\t\t\tstatus,\n\t\t\trvm_remarks,"
    ++ "\n\t\t\tmodel,\n\t\t\trvm_type,\n\t\t\tgroup_ids,\n\t\t\topening_hours,"
    ++ "\n\t\t\traw_json,\n\t\t\tfirst_seen_at,\n\t\t\tupdated_at,\n\t\t\tis_deleted"
    ++ "\n\t\tFROM rvm_current FINAL\n\t\tWHERE is_deleted = 0\n\t"

selected_text : List Column → String
selected_text [] = ""
selected_text (c ∷ rest) = elim rest [
  | [] ↦ "\n\t\t\t" ++ c.name
  | d ∷ others ↦ "\n\t\t\t" ++ c.name ++ "," ++ selected_text rest
]

-- The query for all columns of a table in their order, for the rows that are not marked as deleted.
unfoldable pub select_statement : Table → String
unfolding selected_text
select_statement t =
    "\n\t\tSELECT"
    ++ selected_text t.columns
    ++ "\n\t\tFROM "
    ++ t.table_name
    ++ " FINAL\n\t\tWHERE is_deleted = 0\n\t"

-- The query of LoadLatestBinSnapshots, whose columns are `latest_bin_columns`.
unfoldable pub load_bins_text : String
load_bins_text =
    "\n\t\tSELECT\n\t\t\trvm_id," ++ "\n\t\t\targMax(serial_number, polled_at) AS serial_number,"
    ++ "\n\t\t\tcompartment_type,\n\t\t\targMax(capacity, polled_at) AS capacity,"
    ++ "\n\t\t\targMax(current_count, polled_at) AS latest_count,"
    ++ "\n\t\t\targMax(threshold_level, polled_at) AS threshold_level"
    ++ "\n\t\tFROM rvm_bin_snapshots\n\t\tGROUP BY rvm_id, compartment_type\n\t"

unfoldable pub latest_bin_columns : List Column
latest_bin_columns =
    plain "rvm_id" (unsigned 32)
    ∷ plain "serial_number" low_cardinality
    ∷ plain "compartment_type" low_cardinality
    ∷ plain "capacity" (unsigned 32)
    ∷ plain "latest_count" (unsigned 32)
    ∷ plain "threshold_level" (unsigned 8)
    ∷ []

abbrev pub all_below : ℕ → List ℕ → Bool
all_below bound [] = true
all_below bound (n ∷ rest) = ltb n bound && all_below bound rest

-- Whether a column takes a value as it is: the kind fits, an unsigned number has its width, and no number
-- has more bits.
unfoldable pub takes : ColumnType → Value → Bool
takes (unsigned width) (uint w n) = w == width && ltb n (2 ^ width)
takes float64 (float n) = ltb n (2 ^ 64)
takes characters (text s) = true
takes low_cardinality (text s) = true
takes uuid128 (uuid n) = ltb n (2 ^ 128)
takes unsigned_array (uints ns) = all_below (2 ^ 32) ns
takes date_time (instant t) = true
takes nullable_date_time (nullable t) = true
takes _ _ = false

unfoldable pub takes_row : List Column → Row → Bool
unfolding takes
takes_row [] [] = true
takes_row (c ∷ cs) (v ∷ row) = takes c.column_type v && takes_row cs row
takes_row _ _ = false

-- The table with a name.
unfoldable pub find_table : String → List Table → Option Table
find_table name [] = none
find_table name (t ∷ rest) = if t.table_name == name then some t else find_table name rest

rvm_current_test :
    table_text rvm_current
    ≡ "CREATE TABLE IF NOT EXISTS rvm_current (\n\t\t\tid UInt32,\n\t\t\tserial_number LowCardinality(String),\n\t\t\tsupplier_id LowCardinality(String),\n\t\t\tlocation_name String,\n\t\t\tlatitude Float64,\n\t\t\tlongitude Float64,\n\t\t\tcoords_color LowCardinality(String),\n\t\t\taddress String,\n\t\t\tpostal_code LowCardinality(String),\n\t\t\tstatus LowCardinality(String),\n\t\t\trvm_remarks String,\n\t\t\tmodel LowCardinality(String),\n\t\t\trvm_type LowCardinality(String),\n\t\t\tgroup_ids Array(UInt32),\n\t\t\topening_hours String,\n\t\t\traw_json String CODEC(ZSTD(3)),\n\t\t\tfirst_seen_at DateTime64(3, 'UTC'),\n\t\t\tupdated_at DateTime64(3, 'UTC'),\n\t\t\tis_deleted UInt8 DEFAULT 0\n\t\t) ENGINE = ReplacingMergeTree(updated_at)\n\t\tPRIMARY KEY (id)\n\t\tORDER BY (id);"
unfolding table_text columns_text type_text decimal rvm_current
rvm_current_test = refl

rvm_events_test :
    table_text rvm_events
    ≡ "CREATE TABLE IF NOT EXISTS rvm_events (\n\t\t\tevent_id UUID,\n\t\t\trvm_id UInt32,\n\t\t\tserial_number LowCardinality(String),\n\t\t\tsupplier_id LowCardinality(String),\n\t\t\tevent_type LowCardinality(String),\n\t\t\tprevious_status LowCardinality(String),\n\t\t\tcurrent_status LowCardinality(String),\n\t\t\tpayload_diff String CODEC(ZSTD(3)),\n\t\t\trecorded_at DateTime64(3, 'UTC')\n\t\t) ENGINE = MergeTree()\n\t\tPARTITION BY toYYYYMM(recorded_at)\n\t\tORDER BY (recorded_at, rvm_id, event_type);"
unfolding table_text columns_text type_text decimal rvm_events
rvm_events_test = refl

rvm_bin_snapshots_test :
    table_text rvm_bin_snapshots
    ≡ "CREATE TABLE IF NOT EXISTS rvm_bin_snapshots (\n\t\t\tbin_record_id UInt64,\n\t\t\trvm_id UInt32,\n\t\t\tserial_number LowCardinality(String),\n\t\t\tcompartment_type LowCardinality(String),\n\t\t\tcapacity UInt32,\n\t\t\tcurrent_count UInt32,\n\t\t\tthreshold_level UInt8,\n\t\t\tupstream_last_updated Nullable(DateTime64(3, 'UTC')),\n\t\t\tpolled_at DateTime64(3, 'UTC'),\n\t\t\traw_json String CODEC(ZSTD(3))\n\t\t) ENGINE = MergeTree()\n\t\tPARTITION BY toYYYYMM(polled_at)\n\t\tORDER BY (compartment_type, rvm_id, polled_at)\n\t\tTTL polled_at + INTERVAL 2 YEAR;"
unfolding table_text columns_text type_text decimal rvm_bin_snapshots
rvm_bin_snapshots_test = refl
