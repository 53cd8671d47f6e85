-- ===== src/Tests/Sql.antt =====
-- The theorems about crates/graphnight-sql at concrete inputs.
use graphnight.Base.{
  ℕ, ◌≡◌, refl, sym, ap, String, Bool, true, false, ◌&&◌, ◌||◌, Option, none, some, List, [], ◌∷◌,
  ◌++◌, Result, ok, err, ◌+s◌, ◌==◌, All, all, show, arith,
}
use graphnight.Core.Models
use graphnight.Core.Models.{
  Value, string, array, of_list, Filter, Query, TimeGranularity, eq, between, date_trunc_unit,
}
use graphnight.Core.Security.{SessionPolicy, default_policy, apply_rls, apply_forced_filters}
use graphnight.Core.Security.Access.{with_filters, policy_filters}
use graphnight.Sql.Plan.{placeholder}
use graphnight.Sql.Dialects.{
  Dialect, mysql, postgres, sqlite, duckdb, quote_ident, limit_offset, date_trunc, sqlite_format,
}
use graphnight.Sql.Dialects.Literals.{text_literal}
use graphnight.Sql.Dialects.Quoting.{
  read_ident, read_literal, read_ident-quote_ident, read_literal-text_literal,
}
use graphnight.Sql.Generator.{SqlGenerator, new_generator}
use graphnight.Sql.Generator.Filters.{build_where_clause}
use graphnight.Sql.Generator.Filters.Parameters.{all_arguments, build_where_clause-params}
use graphnight.Sql.Generator.Filters.Shapes.{text_of, build_where_clause-text}
use graphnight.Sql.Generator.Filters.Groups.{Written, filters_of, groups_text}
use graphnight.Sql.Generator.Filters.Precedence.{AreConditions, build_where_clause-groups}
use graphnight.Sql.Generator.Filters.Policies.{keeps, apply_rls-keeps}

read_ident-quote_ident_example :
    read_ident mysql (quote_ident mysql "a`b" +s " x") ≡ some ("a`b", " x")
read_ident-quote_ident_example = read_ident-quote_ident mysql "a`b" " x" (λ e. omega (arith, e))

read_literal-text_literal_example :
    read_literal postgres (text_literal postgres "it's" +s " OR 1") ≡ some ("it's", " OR 1")
read_literal-text_literal_example =
    read_literal-text_literal postgres "it's" " OR 1" (λ e. omega (arith, e))

abbrev no_text : Value → String
no_text v = ""

abbrev by_name : Filter
by_name = record {
  field = "name";
  operator = eq;
  value = string "x' OR '1'='1";
  or_condition = false;
}

abbrev by_city : Filter
by_city = record { field = "city"; operator = eq; value = string "Rome"; or_condition = true }

abbrev tenant_filter : Filter
tenant_filter = record { field = "tenant"; operator = eq; value = string "a"; or_condition = false }

abbrev tenants : SessionPolicy
tenants = record default_policy { row_filter = some tenant_filter }

abbrev generator : SqlGenerator
generator = new_generator postgres

abbrev query : Query
query = Models.with_name Models.new_query "orders"

clause_built :
    build_where_clause no_text generator postgres "o" "orders" placeholder (by_name ∷ by_city ∷ [])
    ≡ ok (some "o.\"name\" = $1 OR o.\"city\" = $2", string "x' OR '1'='1" ∷ string "Rome" ∷ [])
unfolding build_where_clause show graphnight.Sql.Generator.Filters.condition Models.spatial_function
    Models.sql_operator Models.is_membership Models.needs_value Models.needs_two_values
    graphnight.Base.join graphnight.Sql.Generator.Fields.qualify_field
    graphnight.Sql.Generator.model quote_ident graphnight.Base.replace_char
    graphnight.Sql.Dialects.placeholder
clause_built = refl

build_where_clause-params_example :
    string "x' OR '1'='1" ∷ string "Rome" ∷ [] ≡ all_arguments (by_name ∷ by_city ∷ [])
build_where_clause-params_example =
    build_where_clause-params no_text generator postgres "o" "orders" (by_name ∷ by_city ∷ [])
      (some "o.\"name\" = $1 OR o.\"city\" = $2") (string "x' OR '1'='1" ∷ string "Rome" ∷ [])
      clause_built

build_where_clause-text_example :
    text_of (build_where_clause no_text generator postgres "o" "orders" placeholder (by_name ∷ []))
    ≡ text_of (
        build_where_clause no_text generator postgres "o" "orders" placeholder
          (record by_name { value = string "y" } ∷ []))
build_where_clause-text_example =
    build_where_clause-text no_text generator postgres "o" "orders" ((by_name, string "y") ∷ [])
      ((refl, refl), tt)

build_where_clause-groups_example :
    (cs : List Written) × (filters_of cs ≡ by_name ∷ by_city ∷ [])
    × AreConditions no_text generator postgres "o" "orders" placeholder cs []
        (string "x' OR '1'='1" ∷ string "Rome" ∷ [])
    × ("o.\"name\" = $1 OR o.\"city\" = $2" ≡ groups_text cs)
build_where_clause-groups_example =
    build_where_clause-groups no_text generator postgres "o" "orders" placeholder
      (by_name ∷ by_city ∷ []) "o.\"name\" = $1 OR o.\"city\" = $2"
      (string "x' OR '1'='1" ∷ string "Rome" ∷ []) clause_built

-- A row of another tenant with the right name.
abbrev foreign_row : Filter → Bool
foreign_row f = f.field == "name"

apply_rls-keeps_example :
    (keeps foreign_row
        (apply_rls tenants
          (apply_forced_filters tenants (with_filters query (by_name ∷ [])))).filters
      ≡ (all foreign_row (by_name ∷ []) && all foreign_row (policy_filters tenants)))
    × (keeps foreign_row
          (apply_rls tenants
            (apply_forced_filters tenants (with_filters query (by_name ∷ by_city ∷ [])))).filters
        ≡ (keeps foreign_row (by_name ∷ [])
            || (foreign_row by_city && all foreign_row (policy_filters tenants))))
apply_rls-keeps_example =
    apply_rls-keeps tenants (with_filters query (by_name ∷ [])) foreign_row by_name [] by_city
      (refl, tt) refl (refl, tt)
