-- ===== src/Core/Formula.antt =====
-- crates/graphnight-core/src/formula.rs: the measure shorthand. The calls of allow-listed functions
-- are in Functions, the proofs in its children and in Fuel.
pub mod Functions
pub mod Fuel
use Prim.Native.String
use Prim.Native.String.{[], ◌∷◌}
use graphnight.Base.{
  ℕ, zero, suc, ◌+◌, ◌*◌, ◌-◌, ◌^◌, String, code, Bool, true, false, ◌&&◌, ◌||◌, Option, none, some,
  Result, ok, err, ◌>>=◌, ok_or, ◌==◌, ◌=ℕ=◌, leb, if◌then◌else◌, ◌+s◌, trim, starts_with,
  contains_char, contains_text, eq_lowercase, is_ascii_digit, show, count,
}
use graphnight.Core.Models.{
  AggregationType, sum, avg, min, max, count_distinct, sql_function, TimeGranularity, second,
  minute, hour, day, week, month, quarter, year, Formula, Measure, new_formula, with_label,
  simple_measure, measure_label, FilterOperator, parse_strict_operator,
}

-- The captures of the three regular expressions of `FormulaParser`, which the regex crate finds:
-- `^([\w*]+):(\w+)$`, `time_shift\(([^,]+),\s*(-?\d+),\s*'(\w+)'\)` and
-- `ratio\(([^,]+),\s*([^)]+)\)`.
pub record Captures : Type 0 where
  pub agg : String → Option (String × String)
  pub time_shift : String → Option (String × String × String)
  pub ratio : String → Option (String × String)

pub data FormulaError : Type 0 where
  empty_expression : FormulaError
  bad_offset unknown_aggregation unknown_granularity : String → FormulaError
  out_of_fuel : FormulaError

unfoldable pub needs_parse : String → Bool
needs_parse text =
    let expr = trim text in
    if expr == ""
    then false
    else contains_char b':' expr
      || starts_with expr "time_shift("
      || starts_with expr "ratio("
      || starts_with expr "pct_change("
      || starts_with expr "running_total("

parse_aggregation : String → Result FormulaError AggregationType
parse_aggregation s =
    if eq_lowercase s "sum"
    then ok sum
    else if eq_lowercase s "avg" || eq_lowercase s "average"
    then ok avg
    else if eq_lowercase s "count"
    then ok AggregationType.count
    else if eq_lowercase s "min"
    then ok min
    else if eq_lowercase s "max"
    then ok max
    else if eq_lowercase s "count_distinct" || eq_lowercase s "countd"
    then ok count_distinct
    else err (unknown_aggregation s)

unfoldable pub parse_granularity : String → Result FormulaError TimeGranularity
parse_granularity s =
    let is = λ (w : String). eq_lowercase s w in
    if is "second" || is "seconds" || is "sec"
    then ok second
    else if is "minute" || is "minutes" || is "min"
    then ok minute
    else if is "hour" || is "hours" || is "hr"
    then ok hour
    else if is "day" || is "days" || is "d"
    then ok day
    else if is "week" || is "weeks" || is "w"
    then ok week
    else if is "month" || is "months" || is "mon"
    then ok month
    else if is "quarter" || is "quarters" || is "qtr"
    then ok quarter
    else if is "year" || is "years" || is "yr"
    then ok year
    else err (unknown_granularity s)

-- `parser.parse_operator`, which keeps the message of `parse_strict`.
unfoldable pub parse_operator : String → Result String FilterOperator
parse_operator s = parse_strict_operator s

-- `str::parse::<i32>`, and the text that `{}` prints of its result.
decimal : ℕ → String → Option ℕ
decimal n [] = some n
decimal n (c ∷ s) =
    let rest = decimal (n * 10 + (code c - 48)) s in if is_ascii_digit (code c) then rest else none

magnitude : ℕ → String → Option ℕ
magnitude bound [] = none
magnitude bound (c ∷ s) = elim (decimal 0 (c ∷ s)) [
  | none ↦ none
  | some n ↦ if leb n bound then some n else none
]

signed : Bool → Option ℕ → Result FormulaError String
signed negative none = err (bad_offset "")
signed negative (some n) = ok (if negative && (leb 1 n) then "-" +s show n else show n)

parse_i32 : String → Result FormulaError String
parse_i32 [] = err (bad_offset "")
parse_i32 (c ∷ s) =
    if code c =ℕ= b'-'
    then signed true (magnitude (2 ^ 31) s)
    else if code c =ℕ= b'+'
    then signed false (magnitude (2 ^ 31 - 1) s)
    else signed false (magnitude (2 ^ 31 - 1) (c ∷ s))

-- `Display` of an aggregation is its SQL function.
shifted : Measure → String → String → Measure
shifted inner offset granularity = record {
  formula =
      with_label
        (new_formula (
          "LAG("
          +s inner.formula.expression
          +s "::"
          +s sql_function inner.aggregation
          +s ") OVER (ORDER BY "
          +s granularity
          +s ")"))
        (measure_label inner +s "_shift_" +s offset);
  aggregation = inner.aggregation;
}

ratio_of : Measure → Measure → Measure
ratio_of num denom = record {
  formula =
      with_label
        (new_formula (
          "("
          +s num.formula.expression
          +s "::"
          +s sql_function num.aggregation
          +s ") / NULLIF("
          +s denom.formula.expression
          +s "::"
          +s sql_function denom.aggregation
          +s ", 0)"))
        (measure_label num +s "_per_" +s measure_label denom);
  aggregation = avg;
}

module _ (re : Captures) where
  -- The last two cases of `parse_measure`: the shorthand, and a plain expression.
  parse_simple : String → Option (String × String) → Result FormulaError Measure
  parse_simple expr (some (field, agg_str)) = do
    aggregation ← parse_aggregation agg_str
    ok (simple_measure field aggregation)
  parse_simple expr none = ok (simple_measure expr sum)

  -- The three matches in turn; `recur` parses what a capture holds.
  parse_captured :
      (String → Result FormulaError Measure)
      → String
      → Option (String × String × String)
      → Option (String × String)
      → Result FormulaError Measure
  parse_captured recur expr (some (inner, offset_text, granularity)) ratio = do
    offset ← parse_i32 offset_text
    inner_measure ← recur inner
    ok (shifted inner_measure offset granularity)
  parse_captured recur expr none (some (num, denom)) = do
    num_measure ← recur num
    denom_measure ← recur denom
    ok (ratio_of num_measure denom_measure)
  parse_captured recur expr none none = parse_simple expr (re.agg expr)

  -- `parse_measure` on fuel.
  pub parse_measure_from : ℕ → String → Result FormulaError Measure
  parse_measure_from zero text = err out_of_fuel
  parse_measure_from (suc fuel) text =
      let expr = trim text in
      let recur = parse_measure_from fuel in
      if expr == ""
      then err empty_expression
      else parse_captured recur expr (re.time_shift expr) (re.ratio expr)

  -- A capture is shorter than the text that it is found in, so one call for each character and one
  -- more are enough.
  unfoldable pub parse_measure : String → Result FormulaError Measure
  unfolding parse_measure_from parse_captured parse_simple parse_aggregation parse_i32 signed
      magnitude decimal shifted ratio_of
  parse_measure expr = parse_measure_from (suc (count expr)) expr

-- `FormulaParser::is_compiled_sql`.
unfoldable pub is_compiled_sql : String → Bool
is_compiled_sql expression =
    contains_text " OVER " expression
    || contains_text "NULLIF(" expression
    || contains_text "::" expression
