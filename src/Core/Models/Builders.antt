-- ===== src/Core/Models/Builders.antt =====
-- The constructors and builder methods of the records in models.rs.
use graphnight.Base.{
  ℕ, ◌+s◌, String, true, false, Option, none, some, [], ◌∷◌, ◌++◌, unwrap_or, split_once,
}
use graphnight.Core.Models.Json.{Value}
use graphnight.Core.Models.Aggregation.{AggregationType}
use graphnight.Core.Models.Operators.{FilterOperator, date_trunc_unit}
use graphnight.Core.Models.Records.{
  Formula, Measure, Dimension, TimeDimension, OrderBy, Filter, SourceSpec, Query,
}

abbrev pub new_formula : String → Formula
new_formula expression = record { expression = expression; label = none; format = none }

abbrev pub with_label : Formula → String → Formula
with_label f label = record f { label = some label }

formula_of_parts : String → Option (String × String) → Formula
formula_of_parts s (some (expr, agg)) = with_label (new_formula expr) agg
formula_of_parts s none = new_formula s

-- `Formula::parse_shorthand`.
unfoldable pub parse_shorthand : String → Formula
unfolding formula_of_parts
parse_shorthand s = formula_of_parts s (split_once b':' s)

-- `Measure::simple`, and the `label` methods of the three records.
abbrev pub simple_measure : String → AggregationType → Measure
simple_measure expression aggregation = record {
  formula = new_formula expression;
  aggregation = aggregation;
}

abbrev pub measure_label : Measure → String
measure_label m = unwrap_or m.formula.label m.formula.expression

abbrev pub dimension_label : Dimension → String
dimension_label d = unwrap_or d.label d.name

abbrev pub new_filter : String → FilterOperator → Value → Filter
new_filter field operator value = record {
  field = field;
  operator = operator;
  value = value;
  or_condition = false;
}

-- `Filter::or`.
abbrev pub or_filter : Filter → Filter
or_filter f = record f { or_condition = true }

-- `Query::default`, `Query::new`.
abbrev pub new_query : Query
new_query = record {
  name = none;
  source_model = none;
  measures = [];
  dimensions = [];
  time_dimensions = [];
  filters = [];
  order = [];
  limit = none;
  offset = none;
  whole_periods_only = none;
  distinct_dimension_values = none;
  stage_ref = none;
}

abbrev pub with_name : Query → String → Query
with_name q name = record q { name = some name }

abbrev pub with_source_model : Query → SourceSpec → Query
with_source_model q source = record q { source_model = some source }

abbrev pub add_filter : Query → Filter → Query
add_filter q f = record q { filters = q.filters ++ f ∷ [] }

abbrev pub add_measure : Query → Measure → Query
add_measure q m = record q { measures = q.measures ++ m ∷ [] }

abbrev pub add_dimension : Query → Dimension → Query
add_dimension q dim = record q { dimensions = q.dimensions ++ dim ∷ [] }

abbrev pub add_time_dimension : Query → TimeDimension → Query
add_time_dimension q td = record q { time_dimensions = q.time_dimensions ++ td ∷ [] }

abbrev pub add_order : Query → OrderBy → Query
add_order q order = record q { order = q.order ++ order ∷ [] }

abbrev pub with_limit : Query → ℕ → Query
with_limit q limit = record q { limit = some limit }

abbrev pub with_offset : Query → ℕ → Query
with_offset q offset = record q { offset = some offset }

abbrev pub with_format : Formula → String → Formula
with_format f format = record f { format = some format }

-- `TimeDimension::sql_expression`.
unfoldable pub sql_expression : TimeDimension → Option String → String
sql_expression td table_alias =
    let column : String = elim table_alias [
      | some alias ↦ alias +s "." +s td.dimension
      | none ↦ td.dimension
    ] in
    "DATE_TRUNC('" +s date_trunc_unit td.granularity +s "', " +s column +s ")"
