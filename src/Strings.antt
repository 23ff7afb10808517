-- ===== src/Strings.antt =====
-- Go's package strings, as internal/model/token.go and internal/client/bcrs_client.go use it. A text
-- is a list of code points.
use Prim.Native.Char.{code}
use bcrstracking.Prelude.{
  ℕ, String, Bool, nat_keys, string_keys, ◌==◌, ◌||◌, ◌&&◌, leb, if◌then◌else◌, ◌≡◌, refl,
}

-- unicode.IsSpace
abbrev pub is_space : ℕ → Bool
is_space c =
    leb 9 c && leb c 13
    || (c == 0x20
        || (c == 0x85
            || (c == 0xA0
                || (c == 0x1680
                    || (leb 0x2000 c && leb c 0x200A
                        || (c == 0x2028
                            || (c == 0x2029 || (c == 0x202F || (c == 0x205F || c == 0x3000)))))))))

abbrev pub is_quote : ℕ → Bool
is_quote c = c == 0x22

-- Without the characters of a class at the front, or at the end.
unfoldable pub trim_left : (ℕ → Bool) → String → String
trim_left drops String.[] = ""
trim_left drops (String.◌∷◌ c s) =
    let rest = trim_left drops s in if drops (code c) then rest else String.◌∷◌ c s

unfoldable pub trim_right : (ℕ → Bool) → String → String
trim_right drops String.[] = ""
trim_right drops (String.◌∷◌ c s) =
    let rest = trim_right drops s in if rest == "" && drops (code c) then "" else String.◌∷◌ c rest

-- strings.TrimSpace(s), and strings.Trim(s, "\"")
unfoldable pub trim_space : String → String
unfolding trim_left trim_right
trim_space s = trim_right is_space (trim_left is_space s)

unfoldable pub trim_quotes : String → String
unfolding trim_left trim_right
trim_quotes s = trim_right is_quote (trim_left is_quote s)

-- s + t
unfoldable pub append : String → String → String
append String.[] t = t
append (String.◌∷◌ c s) t = String.◌∷◌ c (append s t)

-- strings.TrimRight(s, "/"), strings.TrimLeft(s, "/") and strings.HasSuffix(s, suffix)
abbrev pub is_slash : ℕ → Bool
is_slash c = c == 0x2F

unfoldable pub has_suffix : String → String → Bool
has_suffix suffix String.[] = suffix == ""
has_suffix suffix (String.◌∷◌ c s) =
    let longer = has_suffix suffix s in String.◌∷◌ c s == suffix || longer

trim_test : trim_quotes (trim_space " \t\"a b\" \n") ≡ "a b"
unfolding trim_space trim_quotes
trim_test = refl
