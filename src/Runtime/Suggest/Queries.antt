-- ===== src/Runtime/Suggest/Queries.antt =====
-- `to_core_query`, `field_names` and `unknown_field_error` of suggest.rs.
use graphnight.Base.{
  ℕ, String, Bool, true, false, ◌&&◌, Option, none, some, List, [], ◌∷◌, ◌++◌, map, Result, ok, err,
  ◌>>=◌, ok_or, ◌+s◌, ◌==◌, if◌then◌else◌, trim, join,
}
use graphnight.Core.Models.{Value, Measure, Dimension, TimeDimension, Query, Model}
use graphnight.Runtime.Agent.{ToolError}
use graphnight.Runtime.Suggest.Words.{hinted}
use graphnight.Runtime.Suggest.Distance.{closest_matches}
use graphnight.Runtime.Suggest.{
  parse_measure, parse_time_dimension, parse_filter, parse_dimension, parse_order,
}

-- The input of a tool that takes a query.
pub record ToolQuery : Type 0 where
  pub name : Option String
  pub measures : List String
  pub dimensions : List String
  pub time_dimensions : List String
  pub filters : List String
  pub order : List String
  pub limit : Option ℕ
  pub offset : Option ℕ
  pub stage_ref : Option String

-- `map` and `collect` into a result: the first error ends it.
collect {ℓ} : {E A B : Type ℓ} → (A → Result E B) → List A → Result E (List B)
collect f [] = ok []
collect f (x ∷ xs) = do y ← f x; ys ← collect f xs; ok (y ∷ ys)

is_empty {ℓ} : {A : Type ℓ} → List A → Bool
is_empty [] = true
is_empty (x ∷ xs) = false

-- A name of white space only counts as none.
named : Option String → Option String
named none = none
named (some n) = if trim n == "" then none else some n

selects : List Measure → List Dimension → List TimeDimension → Result ToolError Unit
unfolding is_empty
selects measures dimensions time_dimensions =
    if is_empty measures && is_empty dimensions && is_empty time_dimensions
    then err (
        hinted "EMPTY_QUERY" "query selects nothing"
          "Add at least one measure (e.g. \"revenue:sum\") or dimension (e.g. \"status\").")
    else ok tt

unfoldable pub to_core_query :
    (String → String) → (String → Option Value) → ToolQuery → Result ToolError Query
unfolding collect selects named
to_core_query debug parse_f64 input = do
  measures ← collect (parse_measure debug parse_f64) input.measures
  dimensions ← collect (parse_dimension debug parse_f64) input.dimensions
  time_dimensions ← collect (parse_time_dimension debug parse_f64) input.time_dimensions
  filters ← collect (parse_filter debug parse_f64) input.filters
  order ← collect (parse_order debug parse_f64) input.order
  _ ← selects measures dimensions time_dimensions
  model ← ok_or (named input.name) (
      hinted "MISSING_MODEL" "query does not name a model"
        "Set `name` to the model to query, e.g. \"orders\".")
  ok (record {
    name = some model;
    source_model = none;
    measures = measures;
    dimensions = dimensions;
    time_dimensions = time_dimensions;
    filters = filters;
    order = order;
    limit = input.limit;
    offset = input.offset;
    whole_periods_only = none;
    distinct_dimension_values = none;
    stage_ref = input.stage_ref;
  })

unfoldable pub field_names : Model → List String
field_names m =
    map (λ (x : Measure). x.formula.expression) m.measures
    ++ map (λ (x : Dimension). x.name) m.dimensions
    ++ map (λ (x : TimeDimension). x.dimension) m.time_dimensions

hint_of : List String → List String → String → String
hint_of [] suggestions role = "Call get_model to see this model's fields."
hint_of (k ∷ known) [] role =
    "Valid "
    +s role
    +s "s on this model: "
    +s join ", " (k ∷ known)
    +s ". All fields: "
    +s join ", " (k ∷ known)
    +s "."
hint_of (k ∷ known) (s ∷ suggestions) role =
    "Did you mean: "
    +s join ", " (s ∷ suggestions)
    +s "? All fields: "
    +s join ", " (k ∷ known)
    +s "."

unfoldable pub unknown_field_error : (String → String) → String → List String → String → ToolError
unfolding hint_of
unknown_field_error debug field known role =
    hinted "UNKNOWN_FIELD" ("unknown " +s role +s " " +s debug field)
      (hint_of known (closest_matches field known 3) role)
