-- ===== src/Core/Models/Aggregation.antt =====
-- `AggregationType` and `is_plain_identifier` of models.rs.
use graphnight.Base.{
  ℕ, String, code, Bool, true, false, ◌&&◌, ◌||◌, Option, none, some, ◌==◌, ◌=ℕ=◌, if◌then◌else◌,
  Result, ok, err, all, all_chars, is_ascii_alphabetic, is_ascii_alphanumeric, split_char, trim,
  eq_ignore_ascii_case,
}

pub data AggregationType : Type 0 where
  sum avg count min max count_distinct : AggregationType
  custom : String → AggregationType

-- The two messages of `parse_strict`, with the input that they quote.
pub data AggregationError : Type 0 where
  empty : AggregationError
  not_valid : String → AggregationError

is_first : ℕ → Bool
is_first c = is_ascii_alphabetic c || c =ℕ= b'_'

unfoldable pub is_identifier_char : ℕ → Bool
is_identifier_char c = is_ascii_alphanumeric c || c =ℕ= b'_' || c =ℕ= b'$'

unfoldable pub is_plain_identifier : String → Bool
unfolding is_first is_identifier_char all_chars
is_plain_identifier String.[] = false
is_plain_identifier (String.◌∷◌ c s) = is_first (code c) && all_chars is_identifier_char s

-- The `match` on the upper-cased text.
known_aggregation : String → Option AggregationType
known_aggregation s =
    if eq_ignore_ascii_case s "SUM"
    then some sum
    else if eq_ignore_ascii_case s "AVG" || eq_ignore_ascii_case s "AVERAGE"
    then some avg
    else if eq_ignore_ascii_case s "COUNT"
    then some count
    else if eq_ignore_ascii_case s "MIN"
    then some min
    else if eq_ignore_ascii_case s "MAX"
    then some max
    else if eq_ignore_ascii_case s "COUNT_DISTINCT" || eq_ignore_ascii_case s "COUNTDISTINCT"
    then some count_distinct
    else none

checked_custom : String → String → Result AggregationError AggregationType
checked_custom input trimmed =
    if all is_plain_identifier (split_char b'.' trimmed)
    then ok (custom trimmed)
    else err (not_valid input)

parse_known : Option AggregationType → String → String → Result AggregationError AggregationType
parse_known (some known) input trimmed = ok known
parse_known none input trimmed = checked_custom input trimmed

-- `AggregationType::parse_strict`.
unfoldable pub parse_strict_aggregation : String → Result AggregationError AggregationType
unfolding known_aggregation checked_custom parse_known
parse_strict_aggregation input =
    let trimmed = trim input in
    if trimmed == "" then err empty else parse_known (known_aggregation trimmed) input trimmed

unfoldable pub sql_function : AggregationType → String
sql_function sum = "SUM"
sql_function avg = "AVG"
sql_function count = "COUNT"
sql_function min = "MIN"
sql_function max = "MAX"
sql_function count_distinct = "COUNT(DISTINCT "
sql_function (custom name) = name

abbrev pub needs_closing_paren : AggregationType → Bool
needs_closing_paren count_distinct = true
needs_closing_paren _ = false
