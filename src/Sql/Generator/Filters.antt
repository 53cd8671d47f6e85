-- ===== src/Sql/Generator/Filters.antt =====
-- `build_where_clause` and `render_value` of generator.rs. The parameters collected so far are passed
-- from one value to the next.
pub mod Parameters
pub mod Shapes
pub mod Groups
pub mod Precedence
pub mod Policies
use graphnight.Base.{
  ℕ, zero, suc, ◌+◌, String, Bool, true, false, not, ◌&&◌, ◌||◌, Option, none, some, List, [], ◌∷◌,
  ◌++◌, Result, ok, err, ok_or, ◌>>=◌, if◌then◌else◌, ◌+s◌, join, length,
}
use graphnight.Core.Models.{
  Value, null, bool, number, string, array, object, values, as_array, Filter, FilterOperator,
  sql_operator, spatial_function, needs_value, needs_two_values, is_membership,
}
use graphnight.Sql.Plan.{ValueMode, placeholder, literal}
use graphnight.Sql.Dialects
use graphnight.Sql.Dialects.{Dialect, spatial_geometry}
use graphnight.Sql.Dialects.Literals.{format_value}
use graphnight.Sql.Generator.{
  SqlGenerator, SqlError, needs_geometry, spatial_unsupported, no_rendering, requires_array,
  requires_two_values, index_panic,
}
use graphnight.Sql.Generator.Fields.{qualify_field}

-- A text, and the parameters after it is rendered.
abbrev pub Rendered : Type 0
Rendered = String × List Value

-- A string is taken as WKT and an object as GeoJSON.
abbrev from_wkt : Value → Option Bool
from_wkt (string s) = some true
from_wkt (object fs) = some false
from_wkt null = none
from_wkt (bool b) = none
from_wkt (number n) = none
from_wkt (array vs) = none

abbrev pub separator : Bool → Filter → String
separator first f = if first then "" else if f.or_condition then " OR " else " AND "

module _ (to_string : Value → String) (g : SqlGenerator) (d : Dialect)
    (source_alias base_model_name : String) (mode : ValueMode) where
  unfoldable pub render_value : List Value → Value → Rendered
  render_value params value = elim mode [
    | placeholder ↦ (Dialects.placeholder d (length params + 1), params ++ value ∷ [])
    | literal ↦ (format_value to_string d value, params)
  ]

  pub render_values : List Value → List Value → List String × List Value
  render_values params [] = ([], params)
  render_values params (v ∷ vs) =
      let (text, params') = render_value params v in
      let (texts, params'') = render_values params' vs in (text ∷ texts, params'')

  spatial_condition : String → String → Filter → List Value → Result SqlError Rendered
  spatial_condition function column_sql f params = do
    wkt ← ok_or (from_wkt f.value) (needs_geometry function f.field f.value)
    let rendered = render_value params f.value
    geometry ← ok_or (spatial_geometry d rendered.0 wkt) (spatial_unsupported function d)
    ok (function +s "(" +s column_sql +s ", " +s geometry +s ")", rendered.1)

  membership_condition : String → String → Filter → List Value → Result SqlError Rendered
  membership_condition op column_sql f params = do
    items ← ok_or (as_array f.value) (requires_array op f.value)
    let rendered = render_values params items
    ok (column_sql +s " " +s op +s " (" +s join ", " rendered.0 +s ")", rendered.1)

  -- `vals[0]` and `vals[1]`.
  between_values : String → String → List Value → List Value → Result SqlError Rendered
  between_values op column_sql params (low ∷ high ∷ more) =
      let a = render_value params low in
      let b = render_value a.1 high in
      ok (column_sql +s " " +s op +s " BETWEEN " +s a.0 +s " AND " +s b.0, b.1)
  between_values op column_sql params (low ∷ []) = err index_panic
  between_values op column_sql params [] = err index_panic

  between_condition : String → String → Filter → List Value → Result SqlError Rendered
  between_condition op column_sql f params = do
    vals ← ok_or (as_array f.value) requires_two_values
    between_values op column_sql params vals

  value_condition : String → String → Filter → List Value → Result SqlError Rendered
  value_condition op column_sql f params =
      let rendered = render_value params f.value in
      ok (column_sql +s " " +s op +s " " +s rendered.0, rendered.1)

  plain_condition : String → String → Filter → List Value → Result SqlError Rendered
  plain_condition op column_sql f params =
      if is_membership f.operator
      then membership_condition op column_sql f params
      else if needs_value f.operator && needs_two_values f.operator
      then between_condition op column_sql f params
      else if needs_value f.operator
      then value_condition op column_sql f params
      else ok (column_sql +s " " +s op, params)

  -- One round of the loop, without the separator.
  unfoldable pub condition : Filter → List Value → Result SqlError Rendered
  unfolding spatial_condition membership_condition between_condition between_values value_condition
      plain_condition render_values render_value
  condition f params =
      let column_sql = qualify_field g d base_model_name f.field source_alias in
      elim (spatial_function f.operator) [
        | some function ↦ spatial_condition function column_sql f params
        | none ↦ do
          op ← ok_or (sql_operator f.operator) (no_rendering f.operator)
          plain_condition op column_sql f params
      ]

  -- The loop, from the filter at which it stands; `first` is `i == 0`.
  pub conditions : Bool → List Filter → List Value → Result SqlError (List String × List Value)
  conditions first [] params = ok ([], params)
  conditions first (f ∷ fs) params = do
    rendered ← condition f params
    rest ← conditions false fs rendered.1
    ok ((separator first f +s rendered.0) ∷ rest.0, rest.1)

  unfoldable pub build_where_clause : List Filter → Result SqlError (Option String × List Value)
  unfolding conditions
  build_where_clause [] = ok (none, [])
  build_where_clause (f ∷ fs) = do
    rendered ← conditions true (f ∷ fs) []
    ok (some (join "" rendered.0), rendered.1)
