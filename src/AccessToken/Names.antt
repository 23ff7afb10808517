-- ===== src/AccessToken/Names.antt =====
-- The names and the time formats that UnmarshalJSON of internal/model/token.go tries.
use bcrstracking.Prelude.{String, List, [], ◌∷◌}

-- The lists of names, in the order in which they are tried.
abbrev pub wrapper_keys : List String
wrapper_keys = "data" ∷ "result" ∷ "response" ∷ "payload" ∷ []

abbrev pub raw_token_keys : List String
raw_token_keys =
    "token" ∷ "accessToken" ∷ "access_token" ∷ "mapToken" ∷ "map_token" ∷ "x-bcrs-map-token"
    ∷ "x_bcrs_map_token" ∷ []

abbrev pub token_keys : List String
token_keys =
    "token" ∷ "accessToken" ∷ "access_token" ∷ "mapToken" ∷ "map_token" ∷ "x-bcrs-map-token"
    ∷ "x_bcrs_map_token" ∷ "jwt" ∷ "id_token" ∷ []

abbrev pub expires_at_keys : List String
expires_at_keys =
    "expiresAt" ∷ "expires_at" ∷ "expireAt" ∷ "expire_at" ∷ "expiration" ∷ "exp" ∷ "expiry"
    ∷ "expires_on" ∷ "not_after" ∷ "valid_to" ∷ []

abbrev pub expires_in_keys : List String
expires_in_keys =
    "expires_in" ∷ "expiresIn" ∷ "ttl" ∷ "max_age" ∷ "maxAge" ∷ "expires_in_seconds"
    ∷ "expires_in_sec" ∷ []

abbrev pub layouts : List String
layouts =
    "2006-01-02T15:04:05.999999999Z07:00" ∷ "2006-01-02T15:04:05Z07:00" ∷ "2006-01-02T15:04:05.000Z"
    ∷ "2006-01-02T15:04:05.999999999" ∷ "2006-01-02T15:04:05-0700" ∷ "2006-01-02T15:04:05"
    ∷ "2006-01-02 15:04:05.999999999" ∷ "2006-01-02 15:04:05 -0700" ∷ "2006-01-02 15:04:05-07:00"
    ∷ "2006-01-02 15:04:05" ∷ "Mon, 02 Jan 2006 15:04:05 -0700" ∷ "Mon, 02 Jan 2006 15:04:05 MST"
    ∷ []
