-- ===== src/Runtime/Suggest.antt =====
-- crates/graphnight-runtime/src/suggest.rs: the shorthand in which an agent writes a query. The quoting of
-- `{:?}` and the reading of a floating-point number are parameters.
pub mod Distance
pub mod Scalars
pub mod Table
pub mod Words
pub mod Queries
use graphnight.Base.{
  ℕ, String, Bool, true, false, ◌&&◌, ◌||◌, not, Option, none, some, List, [], ◌∷◌, ◌++◌, map,
  Result, ok, err, ◌>>=◌, ok_or, ◌+s◌, ◌==◌, if◌then◌else◌, trim, split_once, rsplit_once,
  unwrap_or, eq_ignore_ascii_case, is_some, join,
}
use graphnight.Core.Models.{
  Value, AggregationType, TimeGranularity, FilterOperator, Formula, Measure, Dimension,
  TimeDimension, Filter, OrderBy, Query, Model, sql_function, needs_value,
}
use graphnight.Runtime.Agent.{ToolError}
use graphnight.Runtime.Suggest.Words.{
  new_error, hinted, aggregation_of, granularity_of, operator_of, split_filter,
}
use graphnight.Runtime.Suggest.Scalars.{lower, coerce_value}
use graphnight.Runtime.Suggest.Distance.{closest_matches}

-- The hints of the parsers.
abbrev aggregations_hint : String
aggregations_hint =
    "Use '<column>:<aggregation>'. Valid aggregations: sum, avg, count, min, max, count_distinct."

abbrev granularities : String
granularities = "Valid granularities: second, minute, hour, day, week, month, quarter, year."

module _ (debug : String → String) (parse_f64 : String → Option Value) where
  measure_with : String → String → Result ToolError Measure
  unfolding aggregation_of
  measure_with expression aggregation = do
    a ← ok_or (aggregation_of (lower (trim aggregation))) (
        hinted "UNKNOWN_AGGREGATION" ("unknown aggregation " +s debug (lower (trim aggregation)))
          "Valid aggregations: sum, avg, count, min, max, count_distinct. Or use '*' alone to count rows.")
    ok (record {
      formula = record {
        expression = trim expression;
        label = some (sql_function a);
        format = none;
      };
      aggregation = a;
    })

  measure_of : String → Result ToolError Measure
  unfolding measure_with
  measure_of spec =
      if spec == ""
      then err (
          hinted "INVALID_MEASURE" "measure spec is empty"
            "Use '<column>:<aggregation>', e.g. revenue:sum or *:count.")
      else if spec == "*"
      then ok (record {
        formula = record { expression = "*"; label = some "row_count"; format = none };
        aggregation = AggregationType.count;
      })
      else do
        parts ← ok_or (rsplit_once b':' spec) (
            hinted "INVALID_MEASURE" ("measure " +s debug spec +s " is missing an aggregation")
              aggregations_hint)
        if trim parts.0 == ""
            then err (
                hinted "INVALID_MEASURE" ("measure " +s debug spec +s " has no column")
                  "Use '<column>:<aggregation>', e.g. revenue:sum.")
            else measure_with parts.0 parts.1

  unfoldable pub parse_measure : String → Result ToolError Measure
  unfolding measure_of
  parse_measure spec = measure_of (trim spec)

  unfoldable pub parse_time_dimension : String → Result ToolError TimeDimension
  unfolding granularity_of
  parse_time_dimension spec = do
    parts ← ok_or (split_once b'@' spec) (
        hinted "INVALID_TIME_DIMENSION"
          ("time dimension " +s debug spec +s " is missing a granularity")
          ("Use 'column@granularity', e.g. created_at@month. " +s granularities))
    g ← ok_or (granularity_of (lower (trim parts.1))) (
        hinted "UNKNOWN_GRANULARITY" ("unknown granularity " +s debug (lower (trim parts.1)))
          granularities)
    ok (record { dimension = trim parts.0; granularity = g; label = none })

  checked_operator : String → Result ToolError FilterOperator
  unfolding operator_of
  checked_operator name =
      if name == "not_like" || name == "nlike"
      then err (
          hinted "UNKNOWN_OPERATOR" "not_like is not supported"
            "Use 'ilike' with a leading '%' to express a negated match, e.g. status:ilike:'%draft%' negated via neq.")
      else ok_or (operator_of name) (
          hinted "UNKNOWN_OPERATOR" ("unknown filter operator " +s debug name)
            "Valid operators: eq, neq, gt, gte, lt, lte, in, not_in, like, ilike, is_null, is_not_null, between, not_between.")

  filter_with : String → String → String → String → Result ToolError Filter
  unfolding checked_operator
  filter_with spec field name raw_value = do
    operator ← checked_operator name
    if needs_value operator && raw_value == ""
        then err (
            hinted "INVALID_FILTER" ("filter " +s debug spec +s " needs a value")
              (name +s " requires a value, e.g. " +s field +s ":" +s name +s ":some_value"))
        else ok (record {
          field = field;
          operator = operator;
          value = coerce_value parse_f64 operator raw_value;
          or_condition = false;
        })

  unfoldable pub parse_filter : String → Result ToolError Filter
  unfolding filter_with
  parse_filter spec =
      let (field, operator, raw_value) = split_filter spec in
      if trim field == ""
      then err (
          hinted "INVALID_FILTER" ("filter " +s debug spec +s " has no field")
            "Use 'field:operator:value', e.g. status:eq:completed.")
      else if trim operator == ""
      then err (
          hinted "INVALID_FILTER" ("filter " +s debug spec +s " is missing an operator")
            "Use 'field:operator:value'. Valid operators: eq, neq, gt, gte, lt, lte, in, not_in, like, ilike, not_like, is_null, is_not_null, between, not_between.")
      else filter_with spec (trim field) (lower (trim operator)) raw_value

  unfoldable pub parse_dimension : String → Result ToolError Dimension
  parse_dimension d =
      if trim d == ""
      then err (new_error "INVALID_DIMENSION" "dimension name is empty")
      else ok (record { name = trim d; label = none })

  direction_of : Option (String × String) → Option (String × Bool)
  direction_of none = none
  direction_of (some (f, d)) =
      if eq_ignore_ascii_case d "desc"
      then some (f, true)
      else if eq_ignore_ascii_case d "asc"
      then some (f, false)
      else none

  unfoldable pub parse_order : String → Result ToolError OrderBy
  unfolding direction_of
  parse_order spec = do
    parts ← ok_or (direction_of (rsplit_once b':' (trim spec))) (
        hinted "INVALID_ORDER" ("order " +s debug (trim spec) +s " needs a direction")
          "Use 'field:asc' or 'field:desc'.")
    if trim parts.0 == ""
        then err (new_error "INVALID_ORDER" ("order " +s debug (trim spec) +s " has no field"))
        else ok (record { field = trim parts.0; descending = parts.1 })
