-- ===== src/Metrics/Vectors.antt =====
-- The vectors that New of internal/metrics/metrics.go makes: their names, help texts and label names,
-- and what a scrape reads from a series. The buckets of the histograms are left out.
use bcrstracking.Prelude.{
  ℕ, String, string_keys, list_keys, Option, none, some, Bool, true, false, List, [], ◌∷◌, length,
}
use bcrstracking.Prelude.GoMap.{lookup}
use bcrstracking.Metrics.{Metrics, Labels}

pub data Vector : Type 0 where
  http_requests_total http_request_duration rate_limit_backoffs_total auth_errors_total rvm_total
        poll_cycle_duration poll_cycle_last_duration poll_cycle_total poll_cycle_last_success
        click_house_rows_inserted click_house_insert_duration click_house_errors_total
        click_house_buffer_depth containers_ingested_total bin_current_count :
      Vector

pub data Kind : Type 0 where
  counter histogram gauge : Kind

pub record Desc : Type 0 where
  pub kind : Kind
  pub name : String
  pub help : String
  pub labels : List String

-- What New hands to NewCounterVec, NewHistogramVec and NewGaugeVec.
unfoldable pub describe : Vector → Desc
describe http_requests_total = record {
  kind = counter;
  name = "bcrs_http_requests_total";
  help = "Total HTTP requests sent to upstream BCRS APIs";
  labels = "endpoint" ∷ "status_code" ∷ [];
}
describe http_request_duration = record {
  kind = histogram;
  name = "bcrs_http_request_duration_seconds";
  help = "Upstream HTTP request latency distribution";
  labels = "endpoint" ∷ [];
}
describe rate_limit_backoffs_total = record {
  kind = counter;
  name = "bcrs_rate_limit_backoffs_total";
  help = "Total 429 rate limit backoff events triggered";
  labels = "endpoint" ∷ [];
}
describe auth_errors_total = record {
  kind = counter;
  name = "bcrs_auth_errors_total";
  help = "Total 403 Forbidden authentication errors encountered";
  labels = "endpoint" ∷ [];
}
describe rvm_total = record {
  kind = gauge;
  name = "bcrs_rvm_total";
  help = "Current count of active RVMs grouped by status and supplier";
  labels = "status" ∷ "supplier" ∷ "coords_color" ∷ [];
}
describe poll_cycle_duration = record {
  kind = histogram;
  name = "bcrs_poll_cycle_duration_seconds";
  help = "Duration of completed scrape cycles";
  labels = "type" ∷ [];
}
describe poll_cycle_last_duration = record {
  kind = gauge;
  name = "bcrs_poll_cycle_last_duration_seconds";
  help = "Duration in seconds of the most recent scrape cycle";
  labels = "type" ∷ [];
}
describe poll_cycle_total = record {
  kind = counter;
  name = "bcrs_poll_cycle_total";
  help = "Total poll cycles completed";
  labels = "type" ∷ "result" ∷ [];
}
describe poll_cycle_last_success = record {
  kind = gauge;
  name = "bcrs_poll_cycle_last_success_timestamp_seconds";
  help = "Unix timestamp of last successful poll cycle";
  labels = "type" ∷ [];
}
describe click_house_rows_inserted = record {
  kind = counter;
  name = "bcrs_clickhouse_rows_inserted_total";
  help = "Total rows committed to ClickHouse";
  labels = "table" ∷ [];
}
describe click_house_insert_duration = record {
  kind = histogram;
  name = "bcrs_clickhouse_insert_duration_seconds";
  help = "ClickHouse batch insert latency";
  labels = "table" ∷ [];
}
describe click_house_errors_total = record {
  kind = counter;
  name = "bcrs_clickhouse_errors_total";
  help = "Total ClickHouse query and insertion errors";
  labels = "table" ∷ [];
}
describe click_house_buffer_depth = record {
  kind = gauge;
  name = "bcrs_clickhouse_buffer_depth";
  help = "Current pending rows in the batch channel";
  labels = "table" ∷ [];
}
describe containers_ingested_total = record {
  kind = counter;
  name = "bcrs_containers_ingested_total";
  help = "Cumulative total of containers (bottles/cans) returned to RVMs";
  labels = "compartment_type" ∷ "supplier" ∷ [];
}
describe bin_current_count = record {
  kind = gauge;
  name = "bcrs_bin_current_count";
  help = "Current instantaneous count of containers sitting in RVM bins";
  labels = "compartment_type" ∷ "supplier" ∷ [];
}

-- The vectors in the order of MustRegister.
abbrev pub registered : List Vector
registered =
    http_requests_total ∷ http_request_duration ∷ rate_limit_backoffs_total ∷ auth_errors_total
    ∷ rvm_total ∷ poll_cycle_duration ∷ poll_cycle_last_duration ∷ poll_cycle_total
    ∷ poll_cycle_last_success ∷ click_house_rows_inserted ∷ click_house_insert_duration
    ∷ click_house_errors_total ∷ click_house_buffer_depth ∷ containers_ingested_total
    ∷ bin_current_count ∷ []

-- What a scrape reads from a series: the value of a counter or a gauge, the number of observations of
-- a histogram, and nothing from a series that does not exist.
abbrev pub observations : Option (List ℕ) → Option ℕ
observations none = none
observations (some ds) = some (length ds)

unfoldable pub reading : Vector → Labels → Metrics → Option ℕ
reading http_requests_total labels m = lookup labels m.http_requests_total
reading http_request_duration labels m = observations (lookup labels m.http_request_duration)
reading rate_limit_backoffs_total labels m = lookup labels m.rate_limit_backoffs_total
reading auth_errors_total labels m = lookup labels m.auth_errors_total
reading rvm_total labels m = lookup labels m.rvm_total
reading poll_cycle_duration labels m = observations (lookup labels m.poll_cycle_duration)
reading poll_cycle_last_duration labels m = lookup labels m.poll_cycle_last_duration
reading poll_cycle_total labels m = lookup labels m.poll_cycle_total
reading poll_cycle_last_success labels m = lookup labels m.poll_cycle_last_success
reading click_house_rows_inserted labels m = lookup labels m.click_house_rows_inserted
reading click_house_insert_duration labels m =
    observations (lookup labels m.click_house_insert_duration)
reading click_house_errors_total labels m = lookup labels m.click_house_errors_total
reading click_house_buffer_depth labels m = lookup labels m.click_house_buffer_depth
reading containers_ingested_total labels m = lookup labels m.containers_ingested_total
reading bin_current_count labels m = lookup labels m.bin_current_count

-- The number of label values that a series of a vector has.
abbrev pub arity : Vector → ℕ
arity v = length (describe v).labels

-- Whether a series of the kind may fall, and be deleted.
abbrev pub may_fall : Kind → Bool
may_fall gauge = true
may_fall _ = false
