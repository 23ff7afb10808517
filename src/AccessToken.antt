-- ===== src/AccessToken.antt =====
-- internal/model/token.go: the decoding of the answer to a request for an access token. The readers
-- of encoding/json, time and strconv are arguments, and so is the conversion of a float64, which is
-- its 64-bit pattern, to a time. A time before the zero time counts as the zero time.
pub mod Source
mod Names
pub use Names.*
use bcrstracking.Prelude.{
  ℕ, ℤ, ◌+◌, String, Option, none, some, Bool, List, [], ◌∷◌, string_keys, ◌==◌, ◌&&◌, ltb, leb,
  is_positive, magnitude, if◌then◌else◌,
}
use bcrstracking.Prelude.GoMap.{Entries, lookup, value_or}
use bcrstracking.Errors.{Error, wrapped, other, Result, ok, err}
use bcrstracking.Model.{Time, Duration}
use bcrstracking.Config.{infinity, is_positive_float}
use bcrstracking.Strings.{trim_space, trim_quotes}

abbrev pub Bytes : Type 0
Bytes = List ℕ

-- The error of json.Unmarshal for a text that is not JSON, which comes before any decoding;
-- json.Unmarshal into a map[string]json.RawMessage, a string and a float64; time.Parse, with the
-- layout first, strconv.ParseFloat and time.ParseDuration; and of a number f, time.UnixMilli of its
-- whole part, time.Unix of its whole and its fractional part, and the duration of f seconds.
pub record Readers : Type 0 where
  pub syntax_error : Bytes → Option Error
  pub as_object : Bytes → Result (Entries String Bytes)
  pub as_string : Bytes → Result String
  pub as_number : Bytes → Result ℕ
  pub parse_time : String → String → Option Time
  pub parse_float : String → Option ℕ
  pub parse_duration : String → Option ℤ
  pub unix_milli : ℕ → Time
  pub unix : ℕ → Time
  pub seconds : ℕ → Duration

pub record AccessTokenResponse : Type 0 where
  pub status : String
  pub token : String
  pub expires_at : Time

-- 1e11 and 1e8, by their patterns.
abbrev pub hundred_billion : ℕ
hundred_billion = 0x42374876E8000000

abbrev pub hundred_million : ℕ
hundred_million = 0x4197D78400000000

-- f > c and f >= c, for a positive c.
abbrev pub exceeds : ℕ → ℕ → Bool
exceeds c f = ltb c f && leb f infinity

abbrev pub reaches : ℕ → ℕ → Bool
reaches c f = leb c f && leb f infinity

abbrev pub or_else {ℓ} : {A : Type ℓ} → Option A → Option A → Option A
or_else none b = b
or_else (some a) b = some a

module _ (readers : Readers) where
  -- The object to search: the one under the first wrapper that is there, if it is one that is not
  -- empty, or else the whole.
  abbrev pub unwrap : Entries String Bytes → Result (Entries String Bytes) → Entries String Bytes
  unwrap raw (err e) = raw
  unwrap raw (ok []) = raw
  unwrap raw (ok (entry ∷ rest)) = entry ∷ rest

  unfoldable pub target_from : List String → Entries String Bytes → Entries String Bytes
  target_from [] raw = raw
  target_from (key ∷ rest) raw = elim (lookup key raw) [
    | none ↦ target_from rest raw
    | some wrapped_raw ↦ unwrap raw (readers.as_object wrapped_raw)
  ]

  -- A text that is not blank, without the spaces and then the quotes around it.
  unfoldable pub read_text : Bytes → Option String
  unfolding trim_space trim_quotes
  read_text raw = elim (readers.as_string raw) [
    | err e ↦ none
    | ok text ↦ if trim_space text == "" then none else some (trim_quotes (trim_space text))
  ]

  -- The loop over the names of the token: the first value that is such a text.
  unfoldable pub find_text : List String → Entries String Bytes → Option String
  unfolding read_text
  find_text [] object = none
  find_text (key ∷ rest) object = elim (lookup key object) [
    | none ↦ find_text rest object
    | some raw ↦ or_else (read_text raw) (find_text rest object)
  ]

  -- The three searches; a token without a character counts as none.
  unfoldable pub find_token : Entries String Bytes → Entries String Bytes → String
  unfolding find_text
  find_token target raw =
      let first = value_or "" (find_text token_keys target) in
      let second = value_or "" (find_text raw_token_keys raw) in
      if first == ""
      then (if second == "" then value_or "" (find_text wrapper_keys raw) else second)
      else first

  -- A number that stands for a time since 1970, in milliseconds or seconds.
  abbrev pub absolute : ℕ → Time
  absolute f = if exceeds hundred_billion f then readers.unix_milli f else readers.unix f

  abbrev pub positive_time : (ℕ → Time) → ℕ → Option Time
  positive_time time_of f = if is_positive_float f then some (time_of f) else none

  -- The loop over the formats of a time.
  unfoldable pub parse_layouts : List String → String → Option Time
  parse_layouts [] text = none
  parse_layouts (layout ∷ rest) text =
      or_else (readers.parse_time layout text) (parse_layouts rest text)

  unfoldable pub number_at : (ℕ → Time) → Bytes → Option Time
  number_at time_of raw = elim (readers.as_number raw) [
    | err e ↦ none
    | ok f ↦ positive_time time_of f
  ]

  abbrev pub parse_number : (ℕ → Time) → String → Option Time
  parse_number time_of text = elim (readers.parse_float text) [
    | none ↦ none
    | some f ↦ positive_time time_of f
  ]

  -- The text of a value, if it is one that is not empty, read by `parse`.
  abbrev pub string_at : (String → Option Time) → Bytes → Option Time
  string_at parse raw = elim (readers.as_string raw) [
    | err e ↦ none
    | ok text ↦ if text == "" then none else parse (trim_quotes (trim_space text))
  ]

  -- A value under one of the names of expiresAt.
  unfoldable pub read_expires_at : Bytes → Option Time
  unfolding parse_layouts number_at trim_space trim_quotes
  read_expires_at raw =
      or_else
        (string_at (λ text. or_else (parse_layouts layouts text) (parse_number absolute text)) raw)
        (number_at absolute raw)

  -- A number of seconds from now, or, from 1e8 on, a time.
  abbrev pub relative : Time → ℕ → Time
  relative now f = if reaches hundred_million f then absolute f else now + readers.seconds f

  abbrev pub parse_from_now : Time → String → Option Time
  parse_from_now now text = elim (readers.parse_duration text) [
    | none ↦ none
    | some d ↦ if is_positive d then some (now + magnitude d) else none
  ]

  -- A value under one of the names of expires_in.
  unfoldable pub read_expires_in : Time → Bytes → Option Time
  unfolding number_at trim_space trim_quotes
  read_expires_in now raw =
      or_else (number_at (relative now) raw) (
        string_at (λ text. or_else (parse_from_now now text) (parse_number (relative now) text))
          raw)

  -- The loop over the names of an expiry, in the target and then in the whole.
  unfoldable pub find_expiry :
      (Bytes → Option Time)
      → List String
      → Entries String Bytes
      → Entries String Bytes
      → Option Time
  find_expiry read [] target raw = none
  find_expiry read (key ∷ rest) target raw = elim (or_else (lookup key target) (lookup key raw)) [
    | none ↦ find_expiry read rest target raw
    | some value ↦ or_else (read value) (find_expiry read rest target raw)
  ]

  abbrev pub read_status : Entries String Bytes → String → String
  read_status raw before = elim (lookup "status" raw) [
    | none ↦ before
    | some value ↦ elim (readers.as_string value) [ err e ↦ before | ok status ↦ status ]
  ]

  -- UnmarshalJSON at the time `now`: its error, and what it leaves in the response.
  unfoldable pub unmarshal_json :
      Time → Bytes → AccessTokenResponse → Option Error × AccessTokenResponse
  unfolding target_from find_token read_expires_at read_expires_in find_expiry
  unmarshal_json now body r = elim (readers.as_object body) [
    | err e ↦ (some (wrapped "failed to unmarshal access token response" e), r)
    | ok raw ↦
        let target = target_from wrapper_keys raw in
        let token = find_token target raw in
        let seen = record r { status = read_status raw r.status } in
        if token == "" then (some (other "token not found in access token response"), seen) else (
          none,
          record seen {
            token = token;
            expires_at = value_or r.expires_at (
                or_else (find_expiry read_expires_at expires_at_keys target raw)
                  (find_expiry (read_expires_in now) expires_in_keys target raw));
          },
        )
  ]

  -- json.Unmarshal into an AccessTokenResponse, which is empty before.
  unfoldable pub unmarshal_response : Time → Bytes → Result AccessTokenResponse
  unfolding unmarshal_json
  unmarshal_response now body = elim (readers.syntax_error body) [
    | some e ↦ err e
    | none ↦
        let (error, r) =
          unmarshal_json now body (record { status = ""; token = ""; expires_at = 0 }) in
        elim error [ some e ↦ err e | none ↦ ok r ]
  ]
