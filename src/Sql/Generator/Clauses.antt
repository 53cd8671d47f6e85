-- ===== src/Sql/Generator/Clauses.antt =====
-- `build_group_by`, `build_order_by`, `build_joins` and the quoting of join conditions in generator.rs.
-- The order in which `HashMap::values` hands out the models is a parameter.
use mathlib.Core.Option
use graphnight.Base.{
  ℕ, zero, suc, ◌-◌, String, true, false, Option, none, some, List, [], ◌∷◌, ◌++◌, map, Result, ok,
  ◌>>=◌, if◌then◌else◌, ◌+s◌, unwrap_or, or_option, trim, join, split_char, contains_char,
  starts_with, count, prepend,
}
use graphnight.Core.Models.{Query, Model, OrderBy}
use graphnight.Core.JoinGraph.{WalkedClause, new_graph, build_join_clauses}
use graphnight.Sql.Plan.{OrderByItem, JoinClause}
use graphnight.Sql.Dialects.{Dialect, quote_ident}
use graphnight.Sql.Generator.{SqlGenerator, SqlError, join_error, model}
use graphnight.Sql.Generator.Measures.{map_err}
use graphnight.Sql.Generator.Fields.{qualify_field, time_dim_expr}

unfoldable pub build_group_by : SqlGenerator → Dialect → String → String → Query → List String
build_group_by g d source_alias base_model_name query =
    map (λ dim. qualify_field g d base_model_name dim.name source_alias) query.dimensions
    ++ map (λ td. time_dim_expr d td (some source_alias)) query.time_dimensions

order_column : Dialect → String → OrderBy → String
order_column d source_alias order =
    if contains_char b'.' order.field
    then order.field
    else source_alias +s "." +s quote_ident d order.field

unfoldable pub build_order_by : Dialect → String → Query → List OrderByItem
unfolding order_column
build_order_by d source_alias query =
    map
      (λ order. record {
        column = order_column d source_alias order;
        descending = order.descending;
      })
      query.order

-- `s.split(sep)` for a text that is not empty; the first argument counts the characters of a
-- separator that are still to skip.
split_from : ℕ → String → String → List String
split_from skip sep String.[] = "" ∷ []
split_from (suc skip) sep (String.◌∷◌ c s) = split_from skip sep s
split_from zero sep (String.◌∷◌ c s) = elim (starts_with (String.◌∷◌ c s) sep) [
  | true ↦ "" ∷ split_from (count sep - 1) sep s
  | false ↦ prepend c (split_from zero sep s)
]

-- The first two parts between dots.
quote_parts : Dialect → String → List String → String
quote_parts d qualified (alias ∷ col ∷ more) = alias +s "." +s quote_ident d col
quote_parts d qualified (alias ∷ []) = quote_ident d qualified
quote_parts d qualified [] = quote_ident d qualified

unfoldable pub quote_qualified : Dialect → String → String
unfolding quote_parts
quote_qualified d qualified = quote_parts d qualified (split_char b'.' qualified)

quote_sides : Dialect → String → List String → String
quote_sides d cond (left ∷ right ∷ []) = quote_qualified d left +s " = " +s quote_qualified d right
quote_sides d cond (left ∷ right ∷ other ∷ more) = cond
quote_sides d cond (left ∷ []) = cond
quote_sides d cond [] = cond

abbrev quote_condition : Dialect → String → String
quote_condition d cond = quote_sides d cond (map trim (split_char b'=' cond))

unfoldable pub quote_join_on : Dialect → String → String
unfolding split_from quote_sides
quote_join_on d on = join " AND " (map (quote_condition d) (split_from zero " AND " on))

quoted_clause : Dialect → WalkedClause → JoinClause
quoted_clause d c = record {
  join_type = c.join_type;
  table = c.table;
  alias = c.alias;
  on = quote_join_on d c.on;
}

model_joins :
    (List Model → List Model)
    → SqlGenerator
    → Dialect
    → String
    → String
    → Option Model
    → Result SqlError (List JoinClause)
model_joins values g d base_model_name source_alias none = ok []
model_joins values g d base_model_name source_alias (some m) =
    let required = map (λ j. j.model) m.joins in
    elim m.joins [
      | [] ↦ ok []
      | j ∷ js ↦ do
        clauses ← map_err join_error (
            build_join_clauses (new_graph (values g.model_registry)) base_model_name required
              source_alias)
        ok (map (quoted_clause d) clauses)
    ]

unfoldable pub build_joins :
    (List Model → List Model)
    → SqlGenerator
    → Dialect
    → Query
    → String
    → String
    → Result SqlError (List JoinClause)
unfolding model_joins quoted_clause
build_joins values g d query source_table source_alias =
    let base_model_name =
      unwrap_or (or_option (Option.map (λ s. s.model) query.source_model) query.name)
        source_table in
    model_joins values g d base_model_name source_alias (model g base_model_name)
