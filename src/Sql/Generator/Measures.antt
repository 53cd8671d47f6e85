-- ===== src/Sql/Generator/Measures.antt =====
-- The expressions of the SELECT list: `build_measure_expression` and the functions below it, and
-- `build_select_items`. The captures of the regular expressions are a parameter.
use graphnight.Base.{
  String, Option, none, some, List, [], ◌∷◌, ◌++◌, Result, ok, err, ok_or, ◌>>=◌, if◌then◌else◌,
  ◌+s◌, unwrap_or, trim, starts_with, strip_prefix, strip_suffix_char, join,
}
use graphnight.Core.Models.{
  Measure, Dimension, TimeDimension, Query, AggregationType, sql_function, needs_closing_paren,
  date_trunc_unit,
}
use graphnight.Core.Formula.{Captures, needs_parse, parse_measure}
use graphnight.Core.Formula.Functions.{
  FunctionArg, column, number, FunctionCall, parse_function_call,
}
use graphnight.Sql.Plan.{SelectItem}
use graphnight.Sql.Dialects.{Dialect, geometry_as_geojson}
use graphnight.Sql.Generator.{
  SqlGenerator, SqlError, invalid_formula, invalid_call, malformed, geometry_unsupported,
}
use graphnight.Sql.Generator.Fields.{qualify_field, field_is_geometry, time_dim_expr}

-- `map_err`.
abbrev pub map_err {ℓ} : {A E F : Type ℓ} → (E → F) → Result E A → Result F A
map_err f (ok a) = ok a
map_err f (err e) = err (f e)

aggregated : AggregationType → String → String
aggregated agg column_sql =
    if needs_closing_paren agg
    then sql_function agg +s column_sql +s ")"
    else sql_function agg +s "(" +s column_sql +s ")"

module _ (re : Captures) (g : SqlGenerator) (d : Dialect)
    (source_alias base_model_name : String) where
  render_args : List FunctionArg → List String
  render_args [] = []
  render_args (column col ∷ args) =
      qualify_field g d base_model_name col source_alias ∷ render_args args
  render_args (number n ∷ args) = n ∷ render_args args

  render_call : String → Option FunctionCall → String
  render_call expr none = qualify_field g d base_model_name expr source_alias
  render_call expr (some call) = call.name +s "(" +s join ", " (render_args call.args) +s ")"

  pub resolve_expression : String → Result SqlError String
  unfolding render_call render_args
  resolve_expression expr = do
    call ← map_err (invalid_call expr) (parse_function_call expr)
    ok (render_call expr call)

  pub build_standard_aggregation : Measure → Result SqlError String
  unfolding aggregated
  build_standard_aggregation m = do
    column_sql ← resolve_expression m.formula.expression
    ok (aggregated m.aggregation column_sql)

  aggregate_column : Measure → String
  unfolding aggregated
  aggregate_column m =
      aggregated m.aggregation (qualify_field g d base_model_name m.formula.expression source_alias)

  -- `parser.parse_measure(part.trim())?`, and the column of the measure.
  inner_sql : String → String → Result SqlError String
  inner_sql expr part = do
    m ← map_err (invalid_formula expr) (parse_measure re (trim part))
    ok (aggregate_column m)

  build_time_shift_expression : String → Result SqlError String
  build_time_shift_expression expr = do
    caps ← ok_or (re.time_shift expr) (malformed "time_shift")
    sql ← inner_sql expr caps.0
    ok ("LAG(" +s sql +s ") OVER (ORDER BY " +s source_alias +s ")")

  build_ratio_expression : String → Result SqlError String
  build_ratio_expression expr = do
    caps ← ok_or (re.ratio expr) (malformed "ratio")
    num ← inner_sql expr caps.0
    denom ← inner_sql expr caps.1
    ok ("(" +s num +s " / NULLIF(" +s denom +s ", 0))")

  -- `strip_prefix(name).and_then(|s| s.strip_suffix(')'))`.
  body_of : String → String → Option String
  body_of prefix expr = elim (strip_prefix expr prefix) [
    | none ↦ none
    | some s ↦ strip_suffix_char s b')'
  ]

  build_pct_change_expression : String → Result SqlError String
  build_pct_change_expression expr = do
    inner ← ok_or (body_of "pct_change(" expr) (malformed "pct_change")
    current ← inner_sql expr inner
    ok (
        "((" +s current +s " - LAG(" +s current +s ") OVER (ORDER BY " +s source_alias
        +s ")) / NULLIF(LAG(" +s current +s ") OVER (ORDER BY " +s source_alias +s "), 0)) * 100")

  build_running_total_expression : String → Result SqlError String
  build_running_total_expression expr = do
    inner ← ok_or (body_of "running_total(" expr) (malformed "running_total")
    sql ← inner_sql expr inner
    ok ("SUM(" +s sql +s ") OVER (ORDER BY " +s source_alias +s " ROWS UNBOUNDED PRECEDING)")

  build_shorthand : String → Result SqlError String
  build_shorthand expr = do
    parsed ← map_err (invalid_formula expr) (parse_measure re expr)
    build_standard_aggregation parsed

  unfoldable pub build_measure_expression : Measure → Result SqlError String
  unfolding inner_sql aggregate_column build_time_shift_expression build_ratio_expression body_of
      build_pct_change_expression build_running_total_expression build_shorthand
  build_measure_expression m =
      let expr = trim m.formula.expression in
      if needs_parse expr
      then if starts_with expr "time_shift("
        then build_time_shift_expression expr
        else if starts_with expr "ratio("
        then build_ratio_expression expr
        else if starts_with expr "pct_change("
        then build_pct_change_expression expr
        else if starts_with expr "running_total("
        then build_running_total_expression expr
        else build_shorthand expr
      else build_standard_aggregation m

  measure_items : List Measure → Result SqlError (List SelectItem)
  measure_items [] = ok []
  measure_items (m ∷ ms) = do
    expr ← build_measure_expression m
    items ← measure_items ms
    ok (
        record { expression = expr; alias = some (unwrap_or m.formula.label m.formula.expression) }
        ∷ items)

  dimension_expr : Dimension → Result SqlError String
  dimension_expr dim =
      let expr = qualify_field g d base_model_name dim.name source_alias in
      if field_is_geometry g base_model_name dim.name
      then ok_or (geometry_as_geojson d expr) (geometry_unsupported dim.name d)
      else ok expr

  dimension_items : List Dimension → Result SqlError (List SelectItem)
  dimension_items [] = ok []
  dimension_items (dim ∷ dims) = do
    expr ← dimension_expr dim
    items ← dimension_items dims
    ok (record { expression = expr; alias = some (unwrap_or dim.label dim.name) } ∷ items)

  time_items : List TimeDimension → List SelectItem
  time_items [] = []
  time_items (td ∷ tds) =
      record {
        expression = time_dim_expr d td (some source_alias);
        alias = some (unwrap_or td.label (td.dimension +s "_" +s date_trunc_unit td.granularity));
      }
      ∷ time_items tds

  unfoldable pub build_select_items : Query → Result SqlError (List SelectItem)
  unfolding measure_items dimension_items dimension_expr time_items
  build_select_items query = do
    measures ← measure_items query.measures
    dimensions ← dimension_items query.dimensions
    ok (measures ++ (dimensions ++ time_items query.time_dimensions))
