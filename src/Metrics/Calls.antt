-- ===== src/Metrics/Calls.antt =====
-- Any sequence of calls of the methods of internal/metrics/metrics.go.
use bcrstracking.Prelude.{ℕ, String, string_keys, list_keys, Bool, List, [], ◌∷◌}
use bcrstracking.Model.{Duration}
use bcrstracking.Metrics.{
  Metrics, record_http_request, record_rate_limit_backoff, record_auth_error, set_rvm_total,
  reset_rvm_total, record_poll_cycle, record_containers_ingested, set_bin_current_count,
  reset_bin_current_counts, record_click_house_insert, set_click_house_buffer_depth,
}

-- A call with its arguments.
pub data Call : Type 0 where
  http_request : String → ℕ → Duration → Call
  rate_limit_backoff auth_error : String → Call
  rvm_totals : String → String → String → ℕ → Call
  rvm_totals_reset : Call
  poll_cycle : String → Duration → Bool → ℕ → Call
  containers_ingested : String → String → ℕ → Call
  bin_count : String → String → ℕ → Call
  bin_counts_reset : Call
  click_house_insert : String → ℕ → Duration → Bool → Call
  buffer_depth : String → ℕ → Call

unfoldable pub perform : Call → Metrics → Metrics
perform (http_request endpoint status_code duration) =
    record_http_request endpoint status_code duration
perform (rate_limit_backoff endpoint) = record_rate_limit_backoff endpoint
perform (auth_error endpoint) = record_auth_error endpoint
perform (rvm_totals status supplier coords_color count) =
    set_rvm_total status supplier coords_color count
perform rvm_totals_reset = reset_rvm_total
perform (poll_cycle poll_type duration failed now) = record_poll_cycle poll_type duration failed now
perform (containers_ingested compartment_type supplier delta) =
    record_containers_ingested compartment_type supplier delta
perform (bin_count compartment_type supplier count) =
    set_bin_current_count compartment_type supplier count
perform bin_counts_reset = reset_bin_current_counts
perform (click_house_insert table rows duration failed) =
    record_click_house_insert table rows duration failed
perform (buffer_depth table depth) = set_click_house_buffer_depth table depth

unfoldable pub perform_all : List Call → Metrics → Metrics
unfolding perform
perform_all [] m = m
perform_all (c ∷ rest) m = perform_all rest (perform c m)
