-- ===== src/Requests/Urls.antt =====
-- EndpointURL of internal/client/bcrs_client.go.
use Prim.Native.Char.{Char}
use bcrstracking.Prelude.{
  String, Option, Bool, true, false, ◌≡◌, refl, ap, string_keys, ◌==◌, arith, Bool-cases, inl, inr,
}
use bcrstracking.Strings.{trim_right, is_slash, has_suffix, append}
use bcrstracking.Requests.{has_no_path, endpoint_url}

has_suffix_self : (s : String) → has_suffix s s ≡ true
unfolding has_suffix
has_suffix_self String.[] = refl
has_suffix_self (String.◌∷◌ c s) =
    ground (arith, (string_keys.equals_iff (String.◌∷◌ c s) (String.◌∷◌ c s)).1 refl)

has_suffix-append : (suffix s : String) → has_suffix suffix (append s suffix) ≡ true
unfolding has_suffix append
has_suffix-append suffix String.[] = has_suffix_self suffix
has_suffix-append suffix (String.◌∷◌ c s) = ground (arith, has_suffix-append suffix s)

abbrev has_character : String → Bool
has_character String.[] = false
has_character (String.◌∷◌ c s) = true

cons_not_empty : (c : Char) (s : String) → String.◌∷◌ c s ≡ "" → ⊥
cons_not_empty c s e = ground (arith, ap has_character e)

not_empty : (s : String) → (append s "/forapi/v2" == "") ≡ false
unfolding append
not_empty String.[] = refl
not_empty (String.◌∷◌ c s) = elim (Bool-cases (append (String.◌∷◌ c s) "/forapi/v2" == "")) [
  | inr full ↦ full
  | inl empty ↦ absurd (
      cons_not_empty c (append s "/forapi/v2")
        ((string_keys.equals_iff (append (String.◌∷◌ c s) "/forapi/v2") "").0 empty))
]

trim_right-append_prefix :
    (s : String) → trim_right is_slash (append s "/forapi/v2") ≡ append s "/forapi/v2"
unfolding trim_right append
trim_right-append_prefix String.[] = refl
trim_right-append_prefix (String.◌∷◌ c s) = rw (trim_right-append_prefix s, not_empty s) refl

-- A base URL without a path and the same with the API's path name the same endpoints, whatever slashes
-- follow the first or precede the subpath.
pub endpoint_url-prefixed :
    (url_path : String → Option String) (base_url subpath : String)
    → has_suffix "/forapi/v2" (trim_right is_slash base_url) ≡ false
    → has_no_path (url_path (trim_right is_slash base_url)) ≡ true
    → endpoint_url url_path (append (trim_right is_slash base_url) "/forapi/v2") subpath
      ≡ endpoint_url url_path base_url subpath
unfolding endpoint_url
endpoint_url-prefixed url_path base_url subpath bare no_path =
    let base = trim_right is_slash base_url in
    rw (trim_right-append_prefix base, has_suffix-append "/forapi/v2" base, bare, no_path) refl
