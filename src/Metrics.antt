-- ===== src/Metrics.antt =====
-- internal/metrics/metrics.go: the Prometheus vectors and the methods that move them. A vector is the
-- map of its series by their label values. A counter or gauge value is a natural number: the program
-- adds and sets whole float64 values, which are exact below 2^53. A duration is kept in nanoseconds,
-- and a histogram is the list of its observations, the first one first. New makes every vector, so
-- the nil tests of the methods on a vector never fail; the nil test on the receiver is `on`.
pub mod Vectors
pub mod Calls
pub mod Change
pub mod Series
use bcrstracking.Prelude.{
  refl, ◌≡◌, ℕ, ◌+◌, nat_keys, string_keys, list_keys, String, Option, none, some, Bool, List, [],
  ◌∷◌, ◌++◌, if◌then◌else◌,
}
use bcrstracking.Prelude.GoMap.{Entries, lookup, insert, get_or}
use bcrstracking.Model.{Duration}
use bcrstracking.Text.{decimal}

abbrev pub Labels : Type 0
Labels = List String

abbrev pub Vec : Type 0
Vec = Entries Labels ℕ

abbrev pub HistogramVec : Type 0
HistogramVec = Entries Labels (List Duration)

pub record Metrics : Type 0 where
  pub http_requests_total : Vec
  pub http_request_duration : HistogramVec
  pub rate_limit_backoffs_total : Vec
  pub auth_errors_total : Vec
  pub rvm_total : Vec
  pub poll_cycle_duration : HistogramVec
  pub poll_cycle_last_duration : Vec
  pub poll_cycle_total : Vec
  pub poll_cycle_last_success : Vec
  pub click_house_rows_inserted : Vec
  pub click_house_insert_duration : HistogramVec
  pub click_house_errors_total : Vec
  pub click_house_buffer_depth : Vec
  pub containers_ingested_total : Vec
  pub bin_current_count : Vec

-- vec.WithLabelValues(labels).Add(n); the series starts at 0.
unfoldable pub add : Labels → ℕ → Vec → Vec
add labels n vec = insert labels (get_or 0 labels vec + n) vec

-- vec.WithLabelValues(labels).Set(n)
unfoldable pub set : Labels → ℕ → Vec → Vec
set labels n vec = insert labels n vec

-- vec.WithLabelValues(labels) with nothing recorded: the series exists from then on.
unfoldable pub touch : Labels → HistogramVec → HistogramVec
touch labels vec = insert labels (get_or [] labels vec) vec

unfoldable pub observe : Labels → Duration → HistogramVec → HistogramVec
observe labels d vec = insert labels (get_or [] labels vec ++ d ∷ []) vec

-- A method on a receiver that may be nil.
abbrev pub on : Option Metrics → (Metrics → Metrics) → Option Metrics
on none method = none
on (some m) method = some (method m)

empty_metrics : Metrics
empty_metrics = record {
  http_requests_total = [];
  http_request_duration = [];
  rate_limit_backoffs_total = [];
  auth_errors_total = [];
  rvm_total = [];
  poll_cycle_duration = [];
  poll_cycle_last_duration = [];
  poll_cycle_total = [];
  poll_cycle_last_success = [];
  click_house_rows_inserted = [];
  click_house_insert_duration = [];
  click_house_errors_total = [];
  click_house_buffer_depth = [];
  containers_ingested_total = [];
  bin_current_count = [];
}

-- The three loops of New that make series visible at startup.
init_poll_types : List String → Metrics → Metrics
unfolding touch set add
init_poll_types [] m = m
init_poll_types (p_type ∷ rest) m = init_poll_types rest (record m {
  poll_cycle_duration = touch (p_type ∷ []) m.poll_cycle_duration;
  poll_cycle_last_duration = set (p_type ∷ []) 0 m.poll_cycle_last_duration;
  poll_cycle_total =
      add (p_type ∷ "error" ∷ []) 0 (add (p_type ∷ "success" ∷ []) 0 m.poll_cycle_total);
  poll_cycle_last_success = set (p_type ∷ []) 0 m.poll_cycle_last_success;
})

init_compartments : String → List String → Metrics → Metrics
unfolding set add
init_compartments supp [] m = m
init_compartments supp (c_type ∷ rest) m = init_compartments supp rest (record m {
  containers_ingested_total = add (c_type ∷ supp ∷ []) 0 m.containers_ingested_total;
  bin_current_count = set (c_type ∷ supp ∷ []) 0 m.bin_current_count;
})

init_suppliers : List String → Metrics → Metrics
unfolding init_compartments
init_suppliers [] m = m
init_suppliers (supp ∷ rest) m = init_suppliers rest (
    init_compartments supp
      ("PLASTIC" ∷ "ALUMINIUM" ∷ "CAN" ∷ "BOTTLE" ∷ "CAN PET" ∷ "PET" ∷ "Bottle Can" ∷ "UNKNOWN"
        ∷ [])
      m)

init_endpoints : List String → Metrics → Metrics
unfolding add
init_endpoints [] m = m
init_endpoints (ep ∷ rest) m = init_endpoints rest (record m {
  auth_errors_total = add (ep ∷ []) 0 m.auth_errors_total;
  rate_limit_backoffs_total = add (ep ∷ []) 0 m.rate_limit_backoffs_total;
})

unfoldable pub new_metrics : Metrics
unfolding empty_metrics init_poll_types init_suppliers init_endpoints
new_metrics = init_endpoints ("/locations" ∷ "/bin-status" ∷ "/locations/access-token" ∷ []) (
    init_suppliers ("TOMRA001" ∷ "SGRECYCLE001" ∷ "RVMS001" ∷ [])
      (init_poll_types ("locations" ∷ "bins" ∷ []) empty_metrics))

unfoldable pub record_http_request : String → ℕ → Duration → Metrics → Metrics
unfolding add observe
record_http_request endpoint status_code duration m = record m {
  http_requests_total = add (endpoint ∷ decimal status_code ∷ []) 1 m.http_requests_total;
  http_request_duration = observe (endpoint ∷ []) duration m.http_request_duration;
}

unfoldable pub record_rate_limit_backoff : String → Metrics → Metrics
unfolding add
record_rate_limit_backoff endpoint m = record m {
  rate_limit_backoffs_total = add (endpoint ∷ []) 1 m.rate_limit_backoffs_total;
}

unfoldable pub record_auth_error : String → Metrics → Metrics
unfolding add
record_auth_error endpoint m = record m {
  auth_errors_total = add (endpoint ∷ []) 1 m.auth_errors_total;
}

unfoldable pub set_rvm_total : String → String → String → ℕ → Metrics → Metrics
unfolding set
set_rvm_total status supplier coords_color count m = record m {
  rvm_total = set (status ∷ supplier ∷ coords_color ∷ []) count m.rvm_total;
}

-- `failed` is `err != nil`, and `now` is time.Now().Unix().
unfoldable pub record_poll_cycle : String → Duration → Bool → ℕ → Metrics → Metrics
unfolding add set observe
record_poll_cycle poll_type duration failed now m = record m {
  poll_cycle_total =
      add (poll_type ∷ (if failed then "error" else "success") ∷ []) 1 m.poll_cycle_total;
  poll_cycle_duration = observe (poll_type ∷ []) duration m.poll_cycle_duration;
  poll_cycle_last_duration = set (poll_type ∷ []) duration m.poll_cycle_last_duration;
  poll_cycle_last_success =
      if failed
      then m.poll_cycle_last_success
      else set (poll_type ∷ []) now m.poll_cycle_last_success;
}

unfoldable pub record_containers_ingested : String → String → ℕ → Metrics → Metrics
unfolding add
record_containers_ingested compartment_type supplier delta m = record m {
  containers_ingested_total =
      add (compartment_type ∷ supplier ∷ []) delta m.containers_ingested_total;
}

unfoldable pub set_bin_current_count : String → String → ℕ → Metrics → Metrics
unfolding set
set_bin_current_count compartment_type supplier count m = record m {
  bin_current_count = set (compartment_type ∷ supplier ∷ []) count m.bin_current_count;
}

unfoldable pub reset_bin_current_counts : Metrics → Metrics
reset_bin_current_counts m = record m { bin_current_count = [] }

-- m.RVMTotal.Reset()
unfoldable pub reset_rvm_total : Metrics → Metrics
reset_rvm_total m = record m { rvm_total = [] }

unfoldable pub record_click_house_insert : String → ℕ → Duration → Bool → Metrics → Metrics
unfolding add observe
record_click_house_insert table rows duration failed m =
    if failed
    then record m { click_house_errors_total = add (table ∷ []) 1 m.click_house_errors_total }
    else record m {
      click_house_rows_inserted = add (table ∷ []) rows m.click_house_rows_inserted;
      click_house_insert_duration = observe (table ∷ []) duration m.click_house_insert_duration;
    }

unfoldable pub set_click_house_buffer_depth : String → ℕ → Metrics → Metrics
unfolding set
set_click_house_buffer_depth table depth m = record m {
  click_house_buffer_depth = set (table ∷ []) depth m.click_house_buffer_depth;
}

new_metrics_test : get_or 7 ("CAN" ∷ "RVMS001" ∷ []) new_metrics.bin_current_count ≡ 0
unfolding new_metrics get_or lookup insert
new_metrics_test = refl
