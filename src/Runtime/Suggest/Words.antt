-- ===== src/Runtime/Suggest/Words.antt =====
-- The words of the shorthand of suggest.rs, and the parts of a filter.
use graphnight.Base.{String, ◌||◌, Option, none, some, ◌==◌, if◌then◌else◌, split_once}
use graphnight.Core.Models.{AggregationType, TimeGranularity, FilterOperator}
use graphnight.Runtime.Agent.{ToolError}

-- `ToolError::new` and `with_hint`.
abbrev pub new_error : String → String → ToolError
new_error code message = record { code = code; message = message; hint = none }

abbrev pub hinted : String → String → String → ToolError
hinted code message hint = record { code = code; message = message; hint = some hint }

unfoldable pub aggregation_of : String → Option AggregationType
aggregation_of s =
    if s == "sum"
    then some AggregationType.sum
    else if s == "avg" || s == "average" || s == "mean"
    then some AggregationType.avg
    else if s == "count"
    then some AggregationType.count
    else if s == "min"
    then some AggregationType.min
    else if s == "max"
    then some AggregationType.max
    else if s == "count_distinct" || s == "countdistinct" || s == "distinct"
    then some AggregationType.count_distinct
    else none

unfoldable pub granularity_of : String → Option TimeGranularity
granularity_of s =
    if s == "second" || s == "sec"
    then some TimeGranularity.second
    else if s == "minute" || s == "min"
    then some TimeGranularity.minute
    else if s == "hour" || s == "hr"
    then some TimeGranularity.hour
    else if s == "day"
    then some TimeGranularity.day
    else if s == "week" || s == "wk"
    then some TimeGranularity.week
    else if s == "month" || s == "mo"
    then some TimeGranularity.month
    else if s == "quarter" || s == "qtr"
    then some TimeGranularity.quarter
    else if s == "year" || s == "yr"
    then some TimeGranularity.year
    else none

unfoldable pub operator_of : String → Option FilterOperator
operator_of s =
    if s == "eq" || s == "="
    then some FilterOperator.eq
    else if s == "neq" || s == "!=" || s == "ne"
    then some FilterOperator.neq
    else if s == "gt" || s == ">"
    then some FilterOperator.gt
    else if s == "gte" || s == ">=" || s == "ge"
    then some FilterOperator.gte
    else if s == "lt" || s == "<"
    then some FilterOperator.lt
    else if s == "lte" || s == "<=" || s == "le"
    then some FilterOperator.lte
    else if s == "like"
    then some FilterOperator.like
    else if s == "ilike"
    then some FilterOperator.ilike
    else if s == "in"
    then some FilterOperator.in_list
    else if s == "not_in" || s == "nin"
    then some FilterOperator.not_in
    else if s == "is_null" || s == "isnull"
    then some FilterOperator.is_null
    else if s == "is_not_null" || s == "isnotnull"
    then some FilterOperator.is_not_null
    else if s == "between"
    then some FilterOperator.between
    else if s == "not_between" || s == "notbetween"
    then some FilterOperator.not_between
    else none

-- The parts of `splitn(3, ':')`, a missing one being empty.
unfoldable pub split_filter : String → String × String × String
split_filter spec = elim (split_once b':' spec) [
  | none ↦ (spec, "", "")
  | some (field, rest) ↦ elim (split_once b':' rest) [
    | none ↦ (field, rest, "")
    | some (operator, value) ↦ (field, operator, value)
  ]
]
