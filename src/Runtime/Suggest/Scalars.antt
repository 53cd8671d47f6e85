-- ===== src/Runtime/Suggest/Scalars.antt =====
-- The values of a filter's text: `coerce_value` and `parse_scalar` of suggest.rs.
use graphnight.Base.{
  ℕ, zero, suc, ◌+◌, ◌-◌, ◌*◌, ◌^◌, Char, code, String, Bool, true, false, ◌&&◌, ◌||◌, not, Option,
  none, some, List, [], ◌∷◌, map, ◌+s◌, ◌==◌, ◌=ℕ=◌, leb, ltb, if◌then◌else◌, trim, split_once,
  split_char, strip_prefix, strip_suffix_char, unwrap_or, all_chars, is_ascii_digit, show, keep,
  or_option,
}
use graphnight.Core.Models.{
  Value, FilterOperator, null, bool, number, string, array, of_list, needs_two_values,
}

-- `to_ascii_lowercase`.
char_at : ℕ → Char → String → Char
char_at n c String.[] = c
char_at zero c (String.◌∷◌ d s) = d
char_at (suc n) c (String.◌∷◌ d s) = char_at n c s

lower_char : Char → Char
unfolding char_at
lower_char c =
    if leb b'A' (code c) && leb (code c) b'Z'
    then char_at (code c - b'A') c "abcdefghijklmnopqrstuvwxyz"
    else c

unfoldable pub lower : String → String
unfolding lower_char
lower String.[] = ""
lower (String.◌∷◌ c s) = String.◌∷◌ (lower_char c) (lower s)

-- `str::parse::<i64>`: a sign, if any, and digits, within the range.
digits_value : ℕ → String → ℕ
digits_value n String.[] = n
digits_value n (String.◌∷◌ c s) = digits_value (10 * n + (code c - b'0')) s

unsigned : String → Option ℕ
unfolding digits_value
unsigned s = if not (s == "") && all_chars is_ascii_digit s then some (digits_value 0 s) else none

negative : Option ℕ → Option Value
negative none = none
negative (some n) =
    if n =ℕ= 0
    then some (number "0")
    else if leb n (2 ^ 63)
    then some (number ("-" +s show n))
    else none

positive : Option ℕ → Option Value
positive none = none
positive (some n) = if ltb n (2 ^ 63) then some (number (show n)) else none

unfoldable pub parse_i64 : String → Option Value
unfolding unsigned negative positive
parse_i64 String.[] = none
parse_i64 (String.◌∷◌ c s) =
    if code c =ℕ= b'-'
    then negative (unsigned s)
    else if code c =ℕ= b'+'
    then positive (unsigned s)
    else positive (unsigned (String.◌∷◌ c s))

word_of : String → Value
word_of s =
    if lower s == "true"
    then bool true
    else if lower s == "false"
    then bool false
    else if lower s == "null" || lower s == "none"
    then null
    else string s

scalar_of : (String → Option Value) → String → Value
unfolding word_of
scalar_of parse_f64 s =
    if s == "" then string "" else unwrap_or (or_option (parse_i64 s) (parse_f64 s)) (word_of s)

unfoldable pub parse_scalar : (String → Option Value) → String → Value
unfolding scalar_of
parse_scalar parse_f64 s = scalar_of parse_f64 (trim s)

unquote : String → String
unquote raw = elim (strip_prefix raw "'") [
  | none ↦ raw
  | some r ↦ unwrap_or (strip_suffix_char r 0x27) raw
]

is_null_value : Value → Bool
is_null_value null = true
is_null_value _ = false

-- A null has no Boolean, so that the second test of the filter adds nothing.
items : (String → Option Value) → List String → List Value
unfolding is_null_value
items parse_f64 parts =
    keep (λ v. not (is_null_value v)) (map (λ s. parse_scalar parse_f64 (trim s)) parts)

unfoldable pub coerce_value : (String → Option Value) → FilterOperator → String → Value
unfolding unquote items
coerce_value parse_f64 FilterOperator.is_null raw = null
coerce_value parse_f64 FilterOperator.is_not_null raw = null
coerce_value parse_f64 FilterOperator.in_list raw =
    array (of_list (items parse_f64 (split_char b',' (unquote (trim raw)))))
coerce_value parse_f64 FilterOperator.not_in raw =
    array (of_list (items parse_f64 (split_char b',' (unquote (trim raw)))))
coerce_value parse_f64 operator raw =
    let unquoted = unquote (trim raw) in
    let (a, b) = unwrap_or (split_once b',' unquoted) (unquoted, "") in
    if needs_two_values operator
    then array (of_list (parse_scalar parse_f64 a ∷ parse_scalar parse_f64 b ∷ []))
    else parse_scalar parse_f64 unquoted
