-- ===== src/AccessToken/Source.antt =====
-- Where the token that UnmarshalJSON of internal/model/token.go finds comes from.
use bcrstracking.Prelude.{
  String, none, some, Bool, true, false, List, [], ◌∷◌, ◌≡◌, ◌⊎◌, inl, inr, refl, sym, ap, subst,
  string_keys, ◌==◌, ◌||◌, arith, Option-cases, Bool-cases,
}
use bcrstracking.Prelude.GoMap.{Entries, lookup, value_or}
use bcrstracking.Errors.{ok, Result-cases}
use bcrstracking.Model.{Time}
use bcrstracking.Strings.{trim_space, trim_quotes}
use bcrstracking.AccessToken.{
  Bytes, Readers, AccessTokenResponse, wrapper_keys, raw_token_keys, token_keys, unwrap,
  target_from, read_text, find_text, find_token, unmarshal_json,
}

abbrev pub contains : List String → String → Bool
contains [] key = false
contains (k ∷ rest) key = k == key || contains rest key

contains_self : (key : String) (keys : List String) → contains (key ∷ keys) key ≡ true
contains_self key keys = rw ((string_keys.equals_iff key key).1 refl) refl

contains_behind :
    (k : String) (keys : List String) (key : String)
    → contains keys key ≡ true
    → contains (k ∷ keys) key ≡ true
contains_behind k keys key h = ground (arith, h)

module _ (readers : Readers) where
  -- Under one of the names, the object has a text that is the token once trimmed.
  pub record IsTextOf (keys : List String) (object : Entries String Bytes) (token : String)
      : Type 0 where
    pub key : String
    pub raw : Bytes
    pub text : String
    pub listed : contains keys key ≡ true
    pub found : lookup key object ≡ some raw
    pub read : readers.as_string raw ≡ ok text
    pub trimmed : token ≡ trim_quotes (trim_space text)

  -- The object is the whole answer or stands in it under the name of a wrapper.
  abbrev pub IsPartOf : Entries String Bytes → Entries String Bytes → Type 0
  IsPartOf object whole =
      (object ≡ whole)
      ⊎ ((key : String) × (raw : Bytes) × (contains wrapper_keys key ≡ true)
          × (lookup key whole ≡ some raw)
          × (readers.as_object raw ≡ ok object))

  text-read_text :
      (raw : Bytes) (token : String)
      → read_text readers raw ≡ some token
      → (text : String) × (readers.as_string raw ≡ ok text)
        × (token ≡ trim_quotes (trim_space text))
  unfolding read_text
  text-read_text raw token e = elim (Result-cases (readers.as_string raw)) [
    | inr (why, failed) ↦ absurd (ground arith)
    | inl (text, done) ↦ elim (Bool-cases (trim_space text == "")) [
      | inl blank ↦ absurd (ground arith)
      | inr full ↦ (text, done, ground arith)
    ]
  ]

  IsTextOf-behind :
      (k : String) (keys : List String) (object : Entries String Bytes) (token : String)
      → IsTextOf keys object token
      → IsTextOf (k ∷ keys) object token
  IsTextOf-behind k keys object token h = record {
    key = h.key;
    raw = h.raw;
    text = h.text;
    listed = contains_behind k keys h.key h.listed;
    found = h.found;
    read = h.read;
    trimmed = h.trimmed;
  }

  find_text-IsTextOf :
      (keys : List String) (object : Entries String Bytes) (token : String)
      → find_text readers keys object ≡ some token
      → IsTextOf keys object token
  unfolding find_text
  find_text-IsTextOf [] object token e = absurd (ground arith)
  find_text-IsTextOf (k ∷ keys) object token e = elim (Option-cases (lookup k object)) [
    | inl missing ↦
        IsTextOf-behind k keys object token (find_text-IsTextOf keys object token (ground arith))
    | inr (raw, found) ↦ elim (Option-cases (read_text readers raw)) [
      | inl blank ↦
          IsTextOf-behind k keys object token (find_text-IsTextOf keys object token (ground arith))
      | inr (t, taken) ↦
          let (text, read, trimmed) = text-read_text raw token (ground arith) in
          record {
            key = k;
            raw = raw;
            text = text;
            listed = contains_self k keys;
            found = found;
            read = read;
            trimmed = trimmed;
          }
    ]
  ]

  unwrap-IsPartOf :
      (whole : Entries String Bytes) (key : String) (raw : Bytes)
      → contains wrapper_keys key ≡ true
      → lookup key whole ≡ some raw
      → IsPartOf (unwrap readers whole (readers.as_object raw)) whole
  unwrap-IsPartOf whole key raw listed found = elim (Result-cases (readers.as_object raw)) [
    | inr (why, failed) ↦ rw failed (inl refl)
    | inl ([], done) ↦ rw done (inl refl)
    | inl (entry ∷ rest, done) ↦ rw done (inr (key, raw, listed, found, done))
  ]

  target_from-IsPartOf :
      (keys : List String) (whole : Entries String Bytes)
      → ((k : String) → contains keys k ≡ true → contains wrapper_keys k ≡ true)
      → IsPartOf (target_from readers keys whole) whole
  unfolding target_from
  target_from-IsPartOf [] whole among = inl refl
  target_from-IsPartOf (k ∷ keys) whole among = elim (Option-cases (lookup k whole)) [
    | inl missing ↦
        rw (missing, target_from)
          (target_from-IsPartOf keys whole (λ key h. among key (contains_behind k keys key h)))
    | inr (raw, found) ↦
        rw (found, target_from) (unwrap-IsPartOf whole k raw (among k (contains_self k keys)) found)
  ]

  -- The text that a search has found, if it has a character.
  found-IsTextOf :
      (keys : List String) (object : Entries String Bytes)
      → (value_or "" (find_text readers keys object) == "") ≡ false
      → IsTextOf keys object (value_or "" (find_text readers keys object))
  found-IsTextOf keys object full = elim (Option-cases (find_text readers keys object)) [
    | inl none_found ↦ absurd (ground (arith, rw none_found at full))
    | inr (token, found) ↦ rw found (find_text-IsTextOf keys object token found)
  ]

  -- Where the token of an answer stands.
  abbrev pub IsTokenOf : Entries String Bytes → String → Type 0
  IsTokenOf whole token =
      ((object : Entries String Bytes) × IsPartOf object whole × IsTextOf token_keys object token)
      ⊎ (IsTextOf raw_token_keys whole token ⊎ IsTextOf wrapper_keys whole token)

  find_token-IsTokenOf :
      (target whole : Entries String Bytes)
      → IsPartOf target whole
      → (find_token readers target whole == "") ≡ false
      → IsTokenOf whole (find_token readers target whole)
  unfolding find_token
  find_token-IsTokenOf target whole part full =
      elim (Bool-cases (value_or "" (find_text readers token_keys target) == "")) [
        | inr first ↦ rw first (inl (target, part, found-IsTextOf token_keys target first))
        | inl no_first ↦
            elim (Bool-cases (value_or "" (find_text readers raw_token_keys whole) == "")) [
              | inr second ↦
                  rw (no_first, second) (inr (inl (found-IsTextOf raw_token_keys whole second)))
              | inl no_second ↦
                  rw (no_first, no_second)
                    (inr
                      (inr (found-IsTextOf wrapper_keys whole (rw (no_first, no_second) at full))))
            ]
      ]

  -- When UnmarshalJSON succeeds, the token has a character, and it is a text of the answer without
  -- the spaces and the quotes around it: one under a name of a token in the answer or in the object
  -- in it under the name of a wrapper, or one under the name of a wrapper itself.
  pub unmarshal_json-IsTokenOf :
      (now : Time) (body : Bytes) (before after : AccessTokenResponse)
      → unmarshal_json readers now body before ≡ (none, after)
      → ((after.token == "") ≡ false)
        × (whole : Entries String Bytes) × (readers.as_object body ≡ ok whole)
        × IsTokenOf whole after.token
  unfolding unmarshal_json
  unmarshal_json-IsTokenOf now body before after e = elim (Result-cases (readers.as_object body)) [
    | inr (why, failed) ↦ absurd (ground (arith, rw (failed, unmarshal_json) at e))
    | inl (whole, done) ↦
        elim (Bool-cases
          (find_token readers (target_from readers wrapper_keys whole) whole == "")) [
            | inl empty ↦ absurd (ground (arith, rw (done, empty, unmarshal_json) at e))
            | inr full ↦
                let token = ap (λ r. r.1.token) (rw (done, full, unmarshal_json) at e) in
                let part = target_from-IsPartOf wrapper_keys whole (λ key listed. listed) in
                (
                  rw (sym token) full,
                  whole,
                  done,
                  subst (IsTokenOf whole) token (
                      find_token-IsTokenOf (target_from readers wrapper_keys whole) whole part
                        full),
                )
          ]
  ]
