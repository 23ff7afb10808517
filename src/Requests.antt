-- ===== src/Requests.antt =====
-- The requests of internal/client/bcrs_client.go on top of doWithRetry: EndpointURL,
-- fetchAccessToken, GetLocations and GetBinStatus. The decoding of the two lists by encoding/json,
-- url.Parse and isHTMLPayload, which only chooses the text of an error, are arguments.
pub mod Tokens
pub mod Urls
use bcrstracking.Prelude.{
  ℕ, ℤ, ◌+◌, ◌*◌, String, Option, none, some, Bool, true, false, List, nat_keys, string_keys, ◌==◌,
  ◌||◌, not, ltb, if◌then◌else◌,
}
use bcrstracking.Errors.{Error, wrapped, Result, ok, err}
use bcrstracking.Model.{Time, Rvm, BinStatus}
use bcrstracking.Metrics.{Metrics}
use bcrstracking.Client.{Attempt, Loop, second, do_with_retry}
use bcrstracking.AccessToken.{Bytes, Readers, unmarshal_response}
use bcrstracking.Strings.{trim_left, trim_right, is_slash, has_suffix, append}

abbrev pub has_no_path : Option String → Bool
has_no_path none = false
has_no_path (some path) = path == "" || path == "/"

-- EndpointURL; `url_path` is the path of url.Parse, `none` for an error.
unfoldable pub endpoint_url : (String → Option String) → String → String → String
unfolding append has_suffix trim_left trim_right
endpoint_url url_path base_url subpath =
    let base = trim_right is_slash base_url in
    let path = append "/" (trim_left is_slash subpath) in
    if has_suffix "/forapi/v2" base
    then append base path
    else if has_no_path (url_path base)
    then append (append base "/forapi/v2") path
    else append base path

abbrev pub hour : ℕ
hour = 3600 * second

-- The answers of time.Now in UnmarshalJSON, in the test of the expiry, and in its extension.
pub record Clock : Type 0 where
  pub decoded : Time
  pub tested : Time
  pub extended : Time

module _ (is_html_payload : Bytes → Bool) where
  abbrev pub parse_failure : String → Bytes → Error → Error
  parse_failure what body e =
      wrapped
        (if is_html_payload body
          then "upstream returned HTML instead of JSON (possible Cloudflare challenge or WAF block)"
          else what)
        e

  -- What fetchAccessToken makes of the answer of doWithRetry.
  unfoldable pub read_access_token : Readers → Clock → Result Bytes → Result (String × Time)
  unfolding unmarshal_response
  read_access_token readers clock (err e) = err (wrapped "failed to fetch access token" e)
  read_access_token readers clock (ok body) = elim (unmarshal_response readers clock.decoded body) [
    | err e ↦ err (parse_failure "failed to parse access token response" body e)
    | ok r ↦ ok (
      r.token,
      if r.expires_at == 0 || not (ltb clock.tested r.expires_at)
          then clock.extended + hour
          else r.expires_at,
    )
  ]

  -- fetchAccessToken
  unfoldable pub fetch_access_token :
      Readers → Clock → ℤ → (ℕ → Attempt) → Option Metrics → Result (String × Time) × Loop
  unfolding read_access_token do_with_retry
  fetch_access_token readers clock initial_backoff answers metrics =
      let (reply, st) =
        do_with_retry "/locations/access-token" false 3 initial_backoff answers metrics in
      (read_access_token readers clock reply, st)

  -- What GetLocations and GetBinStatus make of the answer of doWithRetry.
  unfoldable pub read_list {ℓ} :
      {A : Type ℓ} → (Bytes → Result (List A)) → String → Result Bytes → Result (List A)
  read_list decode what (err e) = err e
  read_list decode what (ok body) = elim (decode body) [
    | err e ↦ err (parse_failure what body e)
    | ok xs ↦ ok xs
  ]

  unfoldable pub get_locations :
      (Bytes → Result (List Rvm)) → ℤ → (ℕ → Attempt) → Option Metrics → Result (List Rvm) × Loop
  unfolding read_list do_with_retry
  get_locations decode initial_backoff answers metrics =
      let (reply, st) = do_with_retry "/locations" true 3 initial_backoff answers metrics in
      (read_list decode "failed to unmarshal locations response" reply, st)

  unfoldable pub get_bin_status :
      (Bytes → Result (List BinStatus))
      → ℤ
      → (ℕ → Attempt)
      → Option Metrics
      → Result (List BinStatus) × Loop
  unfolding read_list do_with_retry
  get_bin_status decode initial_backoff answers metrics =
      let (reply, st) = do_with_retry "/bin-status" true 3 initial_backoff answers metrics in
      (read_list decode "failed to unmarshal bin status response" reply, st)
