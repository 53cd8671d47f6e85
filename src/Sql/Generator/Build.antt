-- ===== src/Sql/Generator/Build.antt =====
-- `build_logical_plan` and `generate` of generator.rs: both forms of a statement, by one code path.
use graphnight.Base.{
  String, false, Option, none, some, List, Result, ok, ◌>>=◌, if◌then◌else◌, ◌==◌, unwrap_or, trim,
  is_some, ◌≡◌, ap, sym, bind-Steps, ok_inj,
}
use graphnight.Core.Models.{Value, Model, Query}
use graphnight.Core.Formula.{Captures}
use graphnight.Sql.Plan.{ValueMode, placeholder, literal, GeneratedSql, LogicalPlan}
use graphnight.Sql.Dialects.{Dialect}
use graphnight.Sql.Dialects.Statement.{generate_sql}
use graphnight.Sql.Generator.{SqlGenerator, SqlError, model, resolve_source, dialect_for}
use graphnight.Sql.Generator.Measures.{build_select_items}
use graphnight.Sql.Generator.Filters.{build_where_clause}
use graphnight.Sql.Generator.Clauses.{build_group_by, build_order_by, build_joins}

-- What the generator takes from other crates: the captures of the regular expressions, the text of a
-- JSON value, and the order in which a `HashMap` hands out its values.
pub record Libraries : Type 0 where
  pub captures : Captures
  pub to_string : Value → String
  pub values : List Model → List Model

non_empty : String → Option String
non_empty sql = if trim sql == "" then none else some (trim sql)

source_override : Option Model → Option String
unfolding non_empty
source_override none = none
source_override (some m) = elim m.sql [ none ↦ none | some sql ↦ non_empty sql ]

base_name : Option Model → String → String
base_name none source_table = source_table
base_name (some m) source_table = m.name

module _ (lib : Libraries) (g : SqlGenerator) where
  unfoldable pub build_logical_plan :
      Query → Dialect → String → String → ValueMode → Result SqlError LogicalPlan
  unfolding base_name source_override
  build_logical_plan query d source_table source_alias mode =
      let base_model_name = base_name (model g source_table) source_table in
      let override = source_override (model g source_table) in
      do
        select_items ← build_select_items lib.captures g d source_alias base_model_name query
        where_clause ←
            build_where_clause lib.to_string g d source_alias base_model_name mode query.filters
        joins ← build_joins lib.values g d query source_table source_alias
        ok (record {
          source_table = unwrap_or override source_table;
          source_is_sql = is_some override;
          source_alias = source_alias;
          select_items = select_items;
          where_clause = where_clause.0;
          group_by = build_group_by g d source_alias base_model_name query;
          order_by = build_order_by d source_alias query;
          limit = query.limit;
          offset = query.offset;
          joins = joins;
          distinct = unwrap_or query.distinct_dimension_values false;
          params = where_clause.1;
        })

  generate_from : Query → String × String → Result SqlError GeneratedSql
  generate_from query (source_table, source_alias) =
      let d = dialect_for g source_table in
      do
        bound ← build_logical_plan query d source_table source_alias placeholder
        shown ← build_logical_plan query d source_table source_alias literal
        ok (record {
          sql = generate_sql d bound;
          params = bound.params;
          display = generate_sql d shown;
        })

  unfoldable pub generate : Query → Result SqlError GeneratedSql
  unfolding generate_from
  generate query = do source ← resolve_source g query; generate_from query source

-- A generated statement is that of a plan for the model that the query reads.
pub generate-planned :
    (lib : Libraries) (g : SqlGenerator) (query : Query) (p : GeneratedSql)
    → generate lib g query ≡ ok p
    → (table : String) × (alias : String) × (plan : LogicalPlan) × (resolve_source g query
        ≡ ok (table, alias))
      × (build_logical_plan lib g query (dialect_for g table) table alias placeholder ≡ ok plan)
      × (p.sql ≡ generate_sql (dialect_for g table) plan)
unfolding generate generate_from
generate-planned lib g query p h =
    let ((table, alias), r, h₁) = bind-Steps (resolve_source g query) _ h in
    let d = dialect_for g table in
    let (plan, b, h₂) =
      bind-Steps (build_logical_plan lib g query d table alias placeholder) _ h₁ in
    let (shown, b', h₃) = bind-Steps (build_logical_plan lib g query d table alias literal) _ h₂ in
    (table, alias, plan, r, b, ap (λ x. x.sql) (sym (ok_inj h₃)))
