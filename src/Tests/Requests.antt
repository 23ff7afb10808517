-- ===== src/Tests/Requests.antt =====
-- The request for an access token: an answer with the token in a wrapper, and its way to a caller.
use bcrstracking.Prelude.{
  ℕ, ◌<◌, ◌-◌, ◌==◌, nat_keys, string_keys, String, Option, none, some, false, List, [], ◌∷◌, ◌≡◌,
  pos, refl, arith,
}
use bcrstracking.Prelude.GoMap.{Entries, lookup}
use bcrstracking.Errors.{other, Result, ok, err}
use bcrstracking.Client.{Attempt}
use bcrstracking.AccessToken.{Bytes, Readers, AccessTokenResponse, unmarshal_json}
use bcrstracking.AccessToken.Source.{IsTokenOf, unmarshal_json-IsTokenOf}
use bcrstracking.TokenCache.{
  finished, runs, fetched, System, Event, arrives, moves, run, new_system,
}
use bcrstracking.Requests.{Clock, endpoint_url, fetch_access_token}
use bcrstracking.Requests.Tokens.{fetch_access_token_fresh, access_token_present}

-- {"data": {"accessToken": " \"abc\" ", "expires_in": 60}}, where the length of a text stands for it.
abbrev object_of : Bytes → Result (Entries String Bytes)
object_of (a ∷ []) = ok (("data", 0 ∷ 0 ∷ []) ∷ [])
object_of (a ∷ b ∷ []) =
    ok (("accessToken", 0 ∷ 0 ∷ 0 ∷ []) ∷ ("expires_in", 0 ∷ 0 ∷ 0 ∷ 0 ∷ []) ∷ [])
object_of _ = err (other "not an object")

abbrev abc : String
abc = "abc"

abbrev string_of : Bytes → Result String
string_of (a ∷ b ∷ c ∷ []) = ok " \"abc\" "
string_of _ = err (other "not a string")

-- 60.0 by its pattern.
abbrev number_of : Bytes → Result ℕ
number_of (a ∷ b ∷ c ∷ d ∷ []) = ok 0x404E000000000000
number_of _ = err (other "not a number")

abbrev readers : Readers
readers = record {
  syntax_error = λ body. none;
  as_object = object_of;
  as_string = string_of;
  as_number = number_of;
  parse_time = λ layout text. none;
  parse_float = λ text. none;
  parse_duration = λ text. none;
  unix_milli = λ f. 0;
  unix = λ f. 0;
  seconds = λ f. 60000000000;
}

abbrev empty_response : AccessTokenResponse
empty_response = record { status = ""; token = ""; expires_at = 0 }

abbrev decoded_response : AccessTokenResponse
decoded_response = record { status = ""; token = "abc"; expires_at = 60000000005 }

decodes_test : unmarshal_json readers 5 (0 ∷ []) empty_response ≡ (none, decoded_response)
unfolding unmarshal_json lookup
decodes_test = refl

-- {"token": "\"\"", "accessToken": "abc"}: the first text ends the search, with no token.
abbrev quoting_readers : Readers
quoting_readers = record readers {
  as_object = λ body. ok (("token", []) ∷ ("accessToken", 0 ∷ []) ∷ []);
  as_string = λ raw. elim raw [ [] ↦ ok "\"\"" | a ∷ rest ↦ ok "abc" ];
}

quotes_only_test :
    (unmarshal_json quoting_readers 5 [] empty_response).0
    ≡ some (other "token not found in access token response")
unfolding unmarshal_json lookup
quotes_only_test = refl

unmarshal_json-IsTokenOf_example :
    ((decoded_response.token == "") ≡ false)
    × (whole : Entries String Bytes) × (readers.as_object (0 ∷ []) ≡ ok whole)
    × IsTokenOf readers whole decoded_response.token
unmarshal_json-IsTokenOf_example =
    unmarshal_json-IsTokenOf readers 5 (0 ∷ []) empty_response decoded_response decodes_test

abbrev answers : ℕ → Attempt
answers n = record {
  token = ok "";
  limiter = none;
  request = none;
  reply = ok (record { status_code = 200; body = ok (0 ∷ []) });
  duration = 7;
  random = λ bound. bound - 1;
  interrupted = none;
}

abbrev clock : Clock
clock = record { decoded = 5; tested = 6; extended = 7 }

fetches_test :
    (fetch_access_token (λ body. false) readers clock (pos 1) answers none).0
    ≡ ok ("abc", 60000000005)
unfolding fetch_access_token lookup
fetches_test = refl

fetch_access_token_fresh_example : ((abc == "") ≡ false) × (6 < 60000000005)
fetch_access_token_fresh_example =
    fetch_access_token_fresh (λ body. false) readers clock (pos 1) answers none "abc" 60000000005
      (omega arith) fetches_test

-- One goroutine that finds no token and fetches one.
abbrev one_request : List Event
one_request =
    arrives
    ∷ moves 0 (runs none 5)
    ∷ moves 0 (runs none 5)
    ∷ moves 0 (runs none 5)
    ∷ moves 0 (fetched (ok ("abc", 60000000005)))
    ∷ moves 0 (runs none 8)
    ∷ []

abbrev served_system : System
served_system = record {
  cache = record {
    token = "abc";
    expiry = 60000000005;
    epoch = 0;
    in_flight = none;
    calls = some (ok "abc") ∷ [];
  };
  callers = finished (ok "abc") ∷ [];
}

served_test : run one_request (new_system "" 0) ≡ some served_system
unfolding run new_system
served_test = refl

access_token_present_example : (abc == "") ≡ false
access_token_present_example =
    access_token_present one_request served_system 0 "abc"
      (
        tt,
        (
          tt,
          (
            tt,
            (tt, (((λ body. false), readers, clock, pos 1, answers, none, fetches_test), (tt, tt))),
          ),
        ),
      )
      served_test refl

-- A host without a path, with a slash at its end.
abbrev url_path : String → Option String
url_path url = some ""

endpoint_url_test :
    endpoint_url url_path "https://bts.bcrs.sg/" "/locations"
    ≡ "https://bts.bcrs.sg/forapi/v2/locations"
unfolding endpoint_url
endpoint_url_test = refl
