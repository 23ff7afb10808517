-- ===== src/Text.antt =====
-- The text that the program builds with Go's fmt and encoding/json: `%d` of an unsigned integer, and
-- json.Marshal of a map[string]string with the keys "from" and "to".
use Prim.Native.Char.{Char, code}
use Prim.Native.String.{◌++◌}
use native.Mathlib.Nat.{pow-suc}
use bcrstracking.Prelude.{
  ltb-false, ltb→lt, Bool-cases, inl, inr, ap, ◌∙◌, ℕ, zero, suc, ◌+◌, ◌*◌, ◌-◌, ◌/◌, ◌%◌, ◌^◌, ◌<◌,
  ◌≡◌, refl, String, ltb, nat_beq, if◌then◌else◌, ◌||◌, arith,
}

digit : ℕ → Char
digit zero = "0"
digit (suc zero) = "1"
digit (suc (suc zero)) = "2"
digit (suc (suc (suc zero))) = "3"
digit (suc (suc (suc (suc zero)))) = "4"
digit (suc (suc (suc (suc (suc zero))))) = "5"
digit (suc (suc (suc (suc (suc (suc zero)))))) = "6"
digit (suc (suc (suc (suc (suc (suc (suc zero))))))) = "7"
digit (suc (suc (suc (suc (suc (suc (suc (suc zero)))))))) = "8"
digit _ = "9"

-- The decimal digits of `n` in front of `rest`, the last digit first; `fuel` bounds their number.
print_digits : ℕ → ℕ → String → String
unfolding digit
print_digits zero n rest = rest
print_digits (suc fuel) n rest =
    let longer = print_digits fuel (n / 10) (String.◌∷◌ (digit (n % 10)) rest) in
    if ltb n 10 then String.◌∷◌ (digit n) rest else longer

-- fmt.Sprintf("%d", n) for a uint32, which has at most ten digits.
unfoldable pub decimal : ℕ → String
unfolding print_digits
decimal n = print_digits 10 n ""

decimal_test : decimal 4294967295 ≡ "4294967295"
unfolding decimal
decimal_test = refl

-- The decimal value of a text of digits, read from the left.
pub read_digits : ℕ → String → ℕ
read_digits acc String.[] = acc
read_digits acc (String.◌∷◌ c s) = read_digits (acc * 10 + (code c - 48)) s

-- `digit` writes the digit that `read_digits` reads.
code-digit : (n : ℕ) → n < 10 → code (digit n) - 48 ≡ n
unfolding digit
code-digit zero h = refl
code-digit (suc zero) h = refl
code-digit (suc (suc zero)) h = refl
code-digit (suc (suc (suc zero))) h = refl
code-digit (suc (suc (suc (suc zero)))) h = refl
code-digit (suc (suc (suc (suc (suc zero))))) h = refl
code-digit (suc (suc (suc (suc (suc (suc zero)))))) h = refl
code-digit (suc (suc (suc (suc (suc (suc (suc zero))))))) h = refl
code-digit (suc (suc (suc (suc (suc (suc (suc (suc zero)))))))) h = refl
code-digit (suc (suc (suc (suc (suc (suc (suc (suc (suc zero))))))))) h = refl
code-digit (suc (suc (suc (suc (suc (suc (suc (suc (suc (suc n)))))))))) h = absurd (omega arith)

shorter : (fuel n : ℕ) → n < 10 ^ suc (suc fuel) → n / 10 < 10 ^ suc fuel
shorter fuel n h = omega (arith, pow-suc 10 (suc fuel))

-- What `print_digits` writes in front of `rest` reads back as `n`, if the fuel covers its digits.
read_digits-print_digits :
    (fuel n : ℕ) (rest : String)
    → n < 10 ^ suc fuel
    → read_digits 0 (print_digits (suc fuel) n rest) ≡ read_digits n rest
unfolding print_digits read_digits
read_digits-print_digits zero n rest h = elim (Bool-cases (ltb n 10)) [
  | inl small ↦
      rw small (ap (λ k. read_digits k rest) (omega (arith, code-digit n (ltb→lt n 10 small))))
  | inr large ↦ absurd (omega (arith, ltb-false n 10 large))
]
read_digits-print_digits (suc fuel) n rest h = elim (Bool-cases (ltb n 10)) [
  | inl small ↦
      rw small (ap (λ k. read_digits k rest) (omega (arith, code-digit n (ltb→lt n 10 small))))
  | inr large ↦ rw large (
      read_digits-print_digits fuel (n / 10) (String.◌∷◌ (digit (n % 10)) rest) (shorter fuel n h)
      ∙ ap (λ k. read_digits k rest) (omega (arith, code-digit (n % 10) (omega arith))))
]

-- The text that `decimal` prints for a number below 2^32 reads back as that number.
pub read_digits-decimal : (n : ℕ) → n < 2 ^ 32 → read_digits 0 (decimal n) ≡ n
unfolding decimal read_digits
read_digits-decimal n h = read_digits-print_digits 9 n "" (omega arith)

hex_digit : ℕ → Char
unfolding digit
hex_digit n =
    if nat_beq n 10
    then "a"
    else if nat_beq n 11
    then "b"
    else if nat_beq n 12
    then "c"
    else if nat_beq n 13
    then "d"
    else if nat_beq n 14
    then "e"
    else if nat_beq n 15
    then "f"
    else digit n

-- A backslash, `u00` and two hexadecimal digits.
hex_escape : ℕ → String
unfolding hex_digit
hex_escape n = "\\u00" ++ String.◌∷◌ (hex_digit (n / 16)) (String.◌∷◌ (hex_digit (n % 16)) "")

-- One character inside a JSON string as json.Marshal writes it, HTML escaping on.
json_char : Char → String
unfolding hex_escape
json_char c =
    let n = code c in
    if nat_beq n b'"' || nat_beq n b'\\'
    then String.◌∷◌ "\\" (String.◌∷◌ c "")
    else if nat_beq n 8
    then "\\b"
    else if nat_beq n 9
    then "\\t"
    else if nat_beq n 10
    then "\\n"
    else if nat_beq n 12
    then "\\f"
    else if nat_beq n 13
    then "\\r"
    else if ltb n 32 || (nat_beq n b'<' || (nat_beq n b'>' || nat_beq n b'&'))
    then hex_escape n
    else if nat_beq n 0x2028
    then "\\u2028"
    else if nat_beq n 0x2029
    then "\\u2029"
    else String.◌∷◌ c ""

json_chars : String → String
unfolding json_char
json_chars String.[] = ""
json_chars (String.◌∷◌ c s) = json_char c ++ json_chars s

json_string : String → String
unfolding json_chars
json_string s = "\"" ++ json_chars s ++ "\""

-- json.Marshal(map[string]string{"from": from, "to": to}); the keys come in sorted order, and
-- encoding a map of strings does not fail.
unfoldable pub marshal_transition : String → String → String
unfolding json_string
marshal_transition from to = "{\"from\":" ++ json_string from ++ ",\"to\":" ++ json_string to ++ "}"

marshal_transition_test :
    marshal_transition "A<B" "say \"hi\"\n"
    ≡ "{\"from\":\"A\\u003cB\",\"to\":\"say \\\"hi\\\"\\n\"}"
unfolding marshal_transition
marshal_transition_test = refl

-- fmt.Sprintf of a text with one `%d` in it.
unfoldable pub sprintf_d : String → ℕ → String → String
unfolding decimal
sprintf_d before n after = before ++ decimal n ++ after
