-- ===== src/Tests/Decode.antt =====
-- One machine in the answer of GetLocations.
use bcrstracking.Prelude.{ℕ, ◌-◌, String, Option, none, some, false, List, [], ◌∷◌, ◌≡◌, pos, refl}
use bcrstracking.Errors.{Result, ok}
use bcrstracking.Model.{Rvm}
use bcrstracking.Client.{Attempt}
use bcrstracking.AccessToken.{Bytes}
use bcrstracking.Requests.{get_locations}
use bcrstracking.Decode.{RvmFields, unmarshal_rvm, unmarshal_all, zero_rvm}

abbrev aux : RvmFields
aux = record {
  id = 7;
  serial_number = "S7";
  supplier_id = "RVMS001";
  location_name = "Hall";
  lat = "1.5";
  lng = "";
  coords_color = "green";
  address = "1 Road";
  postal_code = "100001";
  status = "Active";
  rvm_remarks = "";
  model = "T9";
  rvm_type = "Single";
  group_ids = 1 ∷ [];
  opening_hours = "24h";
}

abbrev read_one : Bytes → Result (List (RvmFields × String))
read_one body = ok ((aux, "{}") ∷ [])

-- 1.5 by its pattern.
abbrev parse_float : String → Option ℕ
parse_float text = some 0x3FF8000000000000

abbrev answers : ℕ → Attempt
answers n = record {
  token = ok "abc";
  limiter = none;
  request = none;
  reply = ok (record { status_code = 200; body = ok (123 ∷ []) });
  duration = 7;
  random = λ bound. bound - 1;
  interrupted = none;
}

abbrev decoded_rvm : Rvm
decoded_rvm = record {
  id = 7;
  serial_number = "S7";
  supplier_id = "RVMS001";
  location_name = "Hall";
  latitude = 0x3FF8000000000000;
  longitude = 0;
  coords_color = "green";
  address = "1 Road";
  postal_code = "100001";
  status = "Active";
  rvm_remarks = "";
  model = "T9";
  rvm_type = "Single";
  group_ids = 1 ∷ [];
  opening_hours = "24h";
  raw_json = "{}";
  first_seen_at = 0;
  updated_at = 0;
  is_deleted = 0;
}

get_locations_test :
    (get_locations
      (λ body. false)
      (unmarshal_all (unmarshal_rvm parse_float) zero_rvm read_one)
      (pos 1)
      answers
      none).0
    ≡ ok (decoded_rvm ∷ [])
unfolding get_locations unmarshal_all unmarshal_rvm
get_locations_test = refl
