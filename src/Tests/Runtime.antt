-- ===== src/Tests/Runtime.antt =====
-- The theorems about crates/graphnight-runtime at concrete inputs.
use graphnight.Base.{
  ◌≡◌, ◌≤◌, refl, String, true, false, none, some, List, [], ◌∷◌, Result, ok, All, trim,
  contains_char,
}
use graphnight.Core.Models
use graphnight.Core.Models.{Value, Filter, Query, Model, DataSource, SourceSpec, string}
use graphnight.Core.Security.{
  SessionPolicy, default_policy, enforce_row_limit, check_model_access, check_datasource_access,
  apply_rls, apply_forced_filters,
}
use graphnight.Sql.Dialects.{postgres}
use graphnight.Sql.Generator.{SqlGenerator, new_generator, resolve_source, model}
use graphnight.Runtime.Errors.{ServiceError}
use graphnight.Runtime.Stages.{Stage, topological_order}
use graphnight.Runtime.Stages.Order.{Verdict, topological_order-Verdict}
use graphnight.Runtime.Context.{
  CallContext, anonymous, executing, dry_run_options, QueryOutcome, Environment,
  require_authenticated, session_policy,
}
use graphnight.Runtime.Governance.{
  apply_row_cap, execute, checked_name, apply_policy, mask_row, audit, effective_cap,
}
use graphnight.Runtime.Governance.Guard.{IsGoverned, execute-IsGoverned}
use graphnight.Runtime.Governance.Guard.{governed}
use graphnight.Runtime.Governance.Reporting.{IsReported, execute-IsReported}
use graphnight.Runtime.Governance.Caps.{Within, apply_row_cap-Within}
use graphnight.Runtime.Governance.Discovery.{
  Catalog, SearchResult, IsFound, admits, search, search-IsVisible,
}
use graphnight.Runtime.Governance.Names.{planning, execute-resolve_source}
use graphnight.Sql.Generator.Build.{Libraries, build_logical_plan}
use graphnight.Sql.Generator.{SqlError, dialect_for}
use graphnight.Sql.Plan.{LogicalPlan, placeholder}
use graphnight.Sql.Dialects.Statement.{generate_sql}
use graphnight.Core.Security.Access.{Admits, Spares}
use graphnight.Core.Security.Masks.{ssn_mask}
use graphnight.Runtime.Governance.Masking.{cell, shown, cell-mask_row}
use graphnight.Core.Security.{MaskFn}
use graphnight.Runtime.Context.{Row, AuditEntry}
use graphnight.Runtime.Governance.Pipeline.{
  IsExecuted, apply_stage_ref, execute_multi_stage, execute_multi_stage-IsExecuted,
}

abbrev orders : Model
orders = record {
  name = "orders";
  datasource = "shop";
  description = none;
  measures = [];
  dimensions = [];
  time_dimensions = [];
  joins = [];
  sql = none;
  meta = [];
}

abbrev salaries : Model
salaries = record orders { name = "salaries" }

abbrev shop : DataSource
shop = record {
  name = "shop";
  driver = "sqlite";
  connection_string = "shop.db";
  description = none;
  models = [];
  pool_size = none;
  meta = [];
}

abbrev tenant_filter : Filter
tenant_filter = record {
  field = "tenant";
  operator = Models.eq;
  value = string "a";
  or_condition = false;
}

abbrev policy : SessionPolicy
policy = record default_policy {
  allowed_models = some ("orders" ∷ []);
  row_filter = some tenant_filter;
  max_rows = some 20;
}

abbrev caller : CallContext
caller = record anonymous { user_id = some "ann"; auth_required = true; policy = some policy }

abbrev query : Query
query = Models.with_name Models.new_query "orders"

-- A backend that has the orders, and an engine that writes one statement.
abbrev environment : Environment
environment = record {
  get_model = λ n. ok (some orders);
  get_datasource = λ n. ok (some shop);
  generate_sql = λ q. ok "SELECT 1";
  dialect_name_for_model = λ n. "sqlite";
  execute_sqlx = λ t d sql. some (ok ((("a", string "x") ∷ []) ∷ []));
  elapsed_ms = 3;
  write_audit = λ entries entry. true;
  now = 7;
}

abbrev answer : QueryOutcome
answer = record {
  rows = (("a", string "x") ∷ []) ∷ [];
  columns = "a" ∷ [];
  sql = none;
  population = some 1;
  population_inferred = true;
  execution_time_ms = 3;
  truncated = false;
  row_count = 1;
  next_offset = none;
  dialect = "sqlite";
}

executed : execute environment caller query executing none ≡ ok (answer, none)
unfolding execute require_authenticated checked_name apply_policy check_model_access session_policy
    check_datasource_access mask_row apply_row_cap audit apply_rls apply_forced_filters
    effective_cap
executed = refl

execute-IsGoverned_example : IsGoverned environment caller query executing
execute-IsGoverned_example =
    execute-IsGoverned environment caller query executing none (answer, none) executed

abbrev dry_answer : QueryOutcome
dry_answer = record {
  rows = [];
  columns = [];
  sql = some "SELECT 1";
  population = none;
  population_inferred = false;
  execution_time_ms = 3;
  truncated = false;
  row_count = 0;
  next_offset = none;
  dialect = "sqlite";
}

dry_run : execute environment caller query dry_run_options (some []) ≡ ok (dry_answer, some [])
unfolding execute require_authenticated checked_name apply_policy check_model_access session_policy
    check_datasource_access
dry_run = refl

apply_row_cap-Within_example :
    ((apply_row_cap policy query (some 5)).0.limit ≡ some (apply_row_cap policy query (some 5)).1)
    × ((apply_row_cap policy query (some 5)).1 ≤ 20)
    × Within (apply_row_cap policy query (some 5)).1 (some 5)
    × Within (apply_row_cap policy query (some 5)).1 none
    × ((apply_row_cap policy query none).0.limit ≡ (enforce_row_limit policy query).limit)
apply_row_cap-Within_example = apply_row_cap-Within policy query (some 5)

abbrev hit : String → SearchResult
hit n = record {
  model_name = n;
  datasource = "shop";
  score = "1";
  matched_fields = [];
  snippet = "";
}

abbrev catalog : Catalog
catalog = record {
  list_models = λ d. ok (orders ∷ salaries ∷ []);
  get_model = λ n d. ok (some orders);
  list_datasources = ok (shop ∷ []);
  search = λ q n. ok (hit "salaries" ∷ hit "orders" ∷ []);
}

searched : search catalog caller "pay" 5 ≡ ok (hit "orders" ∷ [])
unfolding search require_authenticated trim admits check_model_access session_policy
    check_datasource_access
searched = refl

search-IsVisible_example : IsFound catalog caller (trim "pay") 5 (hit "orders" ∷ [])
search-IsVisible_example = search-IsVisible catalog caller "pay" 5 (hit "orders" ∷ []) searched

abbrev source : SourceSpec
source = record { model = "salaries"; datasource = none; alias = none }

abbrev two_faced : Query
two_faced = Models.with_source_model query source

abbrev generator : SqlGenerator
generator = record (new_generator postgres) { model_registry = orders ∷ salaries ∷ [] }

abbrev libraries : Libraries
libraries = record {
  captures = record { agg = λ e. none; time_shift = λ e. none; ratio = λ e. none };
  to_string = λ v. "";
  values = λ models. models;
}

abbrev no_message : SqlError → String
no_message e = ""

abbrev planner : Environment
planner = planning libraries no_message generator environment

-- The caller may read no model but the orders.
abbrev two_faced_answer : QueryOutcome
two_faced_answer = record dry_answer {
  sql = some "SELECT  FROM \"salaries\" \"salaries\"  WHERE salaries.\"tenant\" = $1  LIMIT 20";
}

two_faced_run : execute planner caller two_faced dry_run_options none ≡ ok (two_faced_answer, none)
unfolding execute planning require_authenticated checked_name apply_policy check_model_access
    session_policy check_datasource_access graphnight.Sql.Generator.Build.generate resolve_source
    apply_row_cap apply_rls apply_forced_filters model build_logical_plan
    graphnight.Sql.Generator.Measures.build_select_items
    graphnight.Sql.Generator.Filters.build_where_clause graphnight.Sql.Generator.Filters.condition
    Models.spatial_function contains_char graphnight.Base.contains_text graphnight.Base.join
    graphnight.Base.prepend graphnight.Base.replace_char graphnight.Base.show
    graphnight.Base.split_char graphnight.Base.starts_with graphnight.Base.strip_prefix
    graphnight.Base.strip_suffix_char trim graphnight.Core.Formula.needs_parse
    graphnight.Core.Formula.parse_measure graphnight.Core.JoinGraph.add_model
    graphnight.Core.JoinGraph.build_join_clauses graphnight.Core.JoinGraph.find_path
    graphnight.Core.JoinGraph.new_graph graphnight.Core.JoinGraph.resolve_joins Models.sql_function
    graphnight.Core.Models.Geometry.get_meta graphnight.Core.Models.Geometry.is_geometry_column
    Models.date_trunc_unit Models.is_membership Models.is_valueless Models.needs_two_values
    Models.needs_value Models.sql_operator effective_cap
    graphnight.Sql.Dialects.Literals.escape_literal graphnight.Sql.Dialects.Literals.format_value
    graphnight.Sql.Dialects.Literals.text_literal generate_sql
    graphnight.Sql.Dialects.Statement.render_source graphnight.Sql.Dialects.date_trunc
    graphnight.Sql.Dialects.geometry_as_geojson graphnight.Sql.Dialects.limit_offset
    graphnight.Sql.Dialects.name graphnight.Sql.Dialects.placeholder
    graphnight.Sql.Dialects.quote_ident graphnight.Sql.Dialects.spatial_geometry
    graphnight.Sql.Generator.Clauses.build_group_by graphnight.Sql.Generator.Clauses.build_joins
    graphnight.Sql.Generator.Clauses.build_order_by graphnight.Sql.Generator.Clauses.quote_join_on
    graphnight.Sql.Generator.Clauses.quote_qualified
    graphnight.Sql.Generator.Fields.field_is_geometry graphnight.Sql.Generator.Fields.qualify_field
    graphnight.Sql.Generator.Fields.time_dim_expr graphnight.Sql.Generator.Filters.render_value
    graphnight.Sql.Generator.Measures.build_measure_expression dialect_for
    graphnight.Sql.Generator.source_of graphnight.Sql.Generator.Fields.model_has_plain_field
    graphnight.Base.rsplit_once
two_faced_run = refl

execute-resolve_source_example :
    (c : IsGoverned planner caller two_faced dry_run_options) × (c.model_name ≡ "orders")
    × Admits (session_policy caller).allowed_models "orders"
    × Spares (session_policy caller).denied_models "orders"
    × (m : Model) × (model generator "salaries" ≡ some m)
    × (alias : String) × (plan : LogicalPlan) × (build_logical_plan libraries generator
          (governed caller dry_run_options two_faced).0
          (dialect_for generator m.name)
          m.name
          alias
          placeholder
        ≡ ok plan)
    × (c.sql ≡ generate_sql (dialect_for generator m.name) plan)
execute-resolve_source_example =
    execute-resolve_source libraries no_message generator environment caller two_faced
      dry_run_options none (two_faced_answer, none) "orders" source refl refl two_faced_run

abbrev stages : List Stage
stages = ("second", record query { stage_ref = some "first" }) ∷ ("first", query) ∷ []

topological_order-Verdict_example :
    (r : Result ServiceError (List String)) × (topological_order stages ≡ some r) × Verdict stages r
topological_order-Verdict_example = topological_order-Verdict stages

piped : execute_multi_stage environment caller stages false none ≡ ok (answer ∷ answer ∷ [], none)
unfolding execute_multi_stage topological_order apply_stage_ref contains_char execute
    require_authenticated checked_name apply_policy check_model_access session_policy
    check_datasource_access mask_row apply_row_cap audit apply_rls apply_forced_filters
    effective_cap
piped = refl

execute_multi_stage-IsExecuted_example :
    All (IsExecuted environment caller executing) (answer ∷ answer ∷ [])
execute_multi_stage-IsExecuted_example =
    execute_multi_stage-IsExecuted environment caller stages false none (answer ∷ answer ∷ [], none)
      piped

abbrev masks : List (String × MaskFn)
masks = ("ssn", ssn_mask) ∷ []

abbrev person : Row
person = ("name", string "Ann") ∷ ("ssn", string "123-45-6789") ∷ []

cell-mask_row_example : cell (mask_row masks person) "ssn" ≡ shown masks "ssn" (cell person "ssn")
cell-mask_row_example = cell-mask_row masks person "ssn"

abbrev entry : AuditEntry
entry = record {
  timestamp = 7;
  user_id = some "ann";
  tenant_id = none;
  action = "query";
  model = some "orders";
  query_hash = none;
  row_count = some 1;
  duration_ms = 3;
  success = true;
  error = none;
}

audited : execute environment caller query executing (some []) ≡ ok (answer, some (entry ∷ []))
unfolding execute require_authenticated checked_name apply_policy check_model_access session_policy
    check_datasource_access mask_row apply_row_cap audit apply_rls apply_forced_filters
    effective_cap
audited = refl

execute-IsReported_example :
    (c : IsGoverned environment caller query executing) × IsReported environment caller
      (governed caller executing query).1
      c.model_name
      c.model
      c.sql
      (some [])
      (answer, some (entry ∷ []))
execute-IsReported_example =
    execute-IsReported environment caller query executing (some []) (answer, some (entry ∷ [])) refl
      audited
