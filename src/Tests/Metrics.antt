-- ===== src/Tests/Metrics.antt =====
-- Calls of the methods of the metrics, and the vectors of New.
use bcrstracking.Prelude.{
  String, string_keys, some, Bool, true, false, List, [], ◌∷◌, ◌==◌, ◌||◌, ◌&&◌, not, ◌≡◌, refl,
  length,
}
use bcrstracking.Prelude.GoMap.{lookup, insert, get_or}
use bcrstracking.Text.{decimal}
use bcrstracking.Metrics.{
  Labels, new_metrics, add, observe, set, record_http_request, record_poll_cycle,
  reset_bin_current_counts,
}
use bcrstracking.Metrics.Vectors.{
  Vector, describe, reading, registered, http_requests_total, http_request_duration,
}
use bcrstracking.Metrics.Calls.{
  Call, perform, perform_all, http_request, poll_cycle, bin_counts_reset,
}
use bcrstracking.Metrics.Series.{Grows, reading-arity, perform_all-Grows}

abbrev labels_of_200 : Labels
labels_of_200 = "/locations" ∷ "200" ∷ []

abbrev calls : List Call
calls =
    http_request "/locations" 200 7
    ∷ http_request "/locations" 503 9
    ∷ poll_cycle "locations" 20 false 1700000000
    ∷ bin_counts_reset
    ∷ http_request "/locations" 200 4
    ∷ []

reading_test : reading http_requests_total labels_of_200 (perform_all calls new_metrics) ≡ some 2
unfolding reading perform_all perform new_metrics lookup insert get_or add observe set
    record_http_request record_poll_cycle reset_bin_current_counts decimal
reading_test = refl

reading-arity_example : length labels_of_200 ≡ length (describe http_requests_total).labels
reading-arity_example = reading-arity calls http_requests_total labels_of_200 2 reading_test

-- After one more call a histogram has more observations.
perform_all-Grows_example :
    Grows (reading http_request_duration ("/locations" ∷ []) (perform_all calls new_metrics)) (
      reading http_request_duration
        ("/locations" ∷ [])
        (perform_all (http_request "/locations" 404 5 ∷ []) (perform_all calls new_metrics)))
unfolding describe
perform_all-Grows_example =
    perform_all-Grows (http_request "/locations" 404 5 ∷ []) (perform_all calls new_metrics)
      http_request_duration ("/locations" ∷ []) refl

abbrev is_among : String → List Vector → Bool
is_among name [] = false
is_among name (v ∷ rest) = (describe v).name == name || is_among name rest

abbrev has_distinct_names : List Vector → Bool
has_distinct_names [] = true
has_distinct_names (v ∷ rest) = not (is_among (describe v).name rest) && has_distinct_names rest

-- MustRegister meets no name twice.
registered_test : has_distinct_names registered ≡ true
unfolding describe
registered_test = refl
