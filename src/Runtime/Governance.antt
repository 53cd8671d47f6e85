-- ===== src/Runtime/Governance.antt =====
-- `CallContext` and `QueryService` of crates/graphnight-runtime/src/governance.rs, up to `execute`. The
-- storage backend, the SQL engine and its driver, and the clock are the fields of an environment. The
-- pipelines of stages and the other operations are in the children.
pub mod Guard
pub mod Caps
pub mod Discovery
pub mod Names
pub mod Pipeline
pub mod Reporting
pub mod Masking
pub mod Registration
use mathlib.Core.Option
use graphnight.Base.{
  ℕ, ◌+◌, min, String, Bool, true, false, not, ◌&&◌, Option, none, some, List, [], ◌∷◌, ◌++◌, map,
  Result, ok, err, ok_or, ◌>>=◌, if◌then◌else◌, ◌==◌, unwrap_or, or_option, is_some, leb, length,
  head_option,
}
use graphnight.Core.Models.{Value, string, Model, DataSource, Query, SourceSpec}
use graphnight.Core.Security.{
  SessionPolicy, default_policy, AccessError, MaskFn, check_model_access, check_datasource_access,
  apply_forced_filters, apply_rls,
}
use graphnight.Runtime.Errors.{
  ServiceError, model_not_found, datasource_not_found, unauthenticated, policy_violation,
  admin_required, invalid_query, no_source, timeout, execution, storage,
}
use graphnight.Runtime.Context.{
  ExecuteOptions, dry_run_options, executing, with_max_rows, default_max_rows, CallContext,
  anonymous, session_policy, principal, require_authenticated, require_admin, Row, QueryOutcome,
  AuditEntry, Environment, access, stored,
}

generated : Result String String → Result ServiceError String
generated (ok sql) = ok sql
generated (err e) = err (invalid_query e)

unfoldable pub apply_policy : SessionPolicy → Query → String → String → Result ServiceError Query
apply_policy policy query model_name datasource = do
  _ ← access (check_model_access policy model_name)
  _ ← access (check_datasource_access policy datasource)
  ok (apply_rls policy (apply_forced_filters policy query))

-- The tighter of the two caps.
unfoldable pub effective_cap : SessionPolicy → Option ℕ → ℕ
effective_cap policy none = unwrap_or policy.max_rows default_max_rows
effective_cap policy (some call_cap) = min (unwrap_or policy.max_rows default_max_rows) call_cap

limit_within : ℕ → Option ℕ → ℕ
limit_within effective none = effective
limit_within effective (some l) = min l effective

-- The query with its limit, and the limit.
unfoldable pub apply_row_cap : SessionPolicy → Query → Option ℕ → Query × ℕ
unfolding limit_within
apply_row_cap policy query per_call =
    let limit = limit_within (effective_cap policy per_call) query.limit in
    (record query { limit = some limit }, limit)

-- `map.get(col)` that is a string, and `map.insert` of the masked text.
abbrev pub masked_value : MaskFn → Value → Value
masked_value mask_fn (string val) = string (mask_fn val)
masked_value mask_fn v = v

mask_column : String → MaskFn → Row → Row
mask_column col mask_fn [] = []
mask_column col mask_fn ((key, value) ∷ row) =
    let rest = mask_column col mask_fn row in
    if key == col then (key, masked_value mask_fn value) ∷ row else (key, value) ∷ rest

unfoldable pub mask_row : List (String × MaskFn) → Row → Row
unfolding mask_column
mask_row [] row = row
mask_row ((col, mask_fn) ∷ masks) row = mask_row masks (mask_column col mask_fn row)

-- The sink, if there is one: the entries that it has.
abbrev pub AuditSink : Type 0
AuditSink = Option (List AuditEntry)

-- `sink.write`, whose failure is only a warning.
written : Environment → List AuditEntry → AuditEntry → List AuditEntry
written env entries entry = if env.write_audit entries entry then entries ++ entry ∷ [] else entries

unfoldable pub audit :
    Environment → CallContext → String → ℕ → ℕ → Bool → Option String → AuditSink → AuditSink
unfolding written
audit env ctx model row_count duration_ms success error none = none
audit env ctx model row_count duration_ms success error (some entries) = some (
    written env entries (record {
      timestamp = env.now;
      user_id = ctx.user_id;
      tenant_id = ctx.tenant_id;
      action = unwrap_or ctx.principal_label "query";
      model = some model;
      query_hash = none;
      row_count = some row_count;
      duration_ms = duration_ms;
      success = success;
      error = error;
    }))

columns_of : Option Row → List String
columns_of none = []
columns_of (some row) = map (λ c. c.0) row

rows_of : ℕ → Option (Result String (List Row)) → Result ServiceError (List Row)
rows_of timeout_secs none = err (timeout timeout_secs)
rows_of timeout_secs (some (err e)) = err (execution e)
rows_of timeout_secs (some (ok rows)) = ok rows

-- The name that the service looks up: the name of the query, and else that of its source.
unfoldable pub checked_name : Query → Option String
checked_name query = or_option query.name (Option.map (λ s. s.model) query.source_model)

module _ (env : Environment) where
  dry_outcome : String → String → QueryOutcome
  dry_outcome sql dialect = record {
    rows = [];
    columns = [];
    sql = some sql;
    population = none;
    population_inferred = false;
    execution_time_ms = env.elapsed_ms;
    truncated = false;
    row_count = 0;
    next_offset = none;
    dialect = dialect;
  }

  outcome_of :
      SessionPolicy → ExecuteOptions → Query → ℕ → String → String → List Row → QueryOutcome
  outcome_of policy options query effective_limit sql dialect rows =
      let row_count = length rows in
      let truncated = leb effective_limit row_count in
      record {
        rows = map (mask_row policy.column_masks) rows;
        columns = columns_of (head_option rows);
        sql = if options.explain then some sql else none;
        population = some row_count;
        population_inferred = true;
        execution_time_ms = env.elapsed_ms;
        truncated = truncated;
        row_count = row_count;
        next_offset = if truncated then some (unwrap_or query.offset 0 + row_count) else none;
        dialect = dialect;
      }

  -- The part of `execute` that touches the database.
  run :
      CallContext
      → SessionPolicy
      → ExecuteOptions
      → Query
      → ℕ
      → String
      → Model
      → String
      → AuditSink
      → Result ServiceError (QueryOutcome × AuditSink)
  unfolding rows_of outcome_of columns_of
  run ctx policy options query effective_limit model_name model sql sink = do
    found ← stored (env.get_datasource model.datasource)
    datasource ← ok_or found (datasource_not_found model.datasource)
    let timeout_secs = unwrap_or policy.query_timeout_secs 300
    rows ← rows_of timeout_secs (env.execute_sqlx timeout_secs datasource sql)
    let outcome =
        outcome_of policy options query effective_limit sql (env.dialect_name_for_model model_name)
          rows
    ok (outcome, audit env ctx model_name outcome.row_count env.elapsed_ms true none sink)

  pub answer :
      CallContext
      → SessionPolicy
      → ExecuteOptions
      → Query
      → ℕ
      → String
      → Model
      → String
      → AuditSink
      → Result ServiceError (QueryOutcome × AuditSink)
  answer ctx policy options query effective_limit model_name model sql sink =
      if options.dry_run
      then ok (dry_outcome sql (env.dialect_name_for_model model_name), sink)
      else run ctx policy options query effective_limit model_name model sql sink

  -- The outcome, and what the sink has then; the sink stays as it is when the call fails.
  unfoldable pub execute :
      CallContext
      → Query
      → ExecuteOptions
      → AuditSink
      → Result ServiceError (QueryOutcome × AuditSink)
  unfolding answer run dry_outcome generated
  execute ctx query options sink = do
    _ ← require_authenticated ctx
    model_name ← ok_or (checked_name query) no_source
    found ← stored (env.get_model model_name)
    model ← ok_or found (model_not_found model_name)
    governed ← apply_policy (session_policy ctx) query model_name model.datasource
    let capped = apply_row_cap (session_policy ctx) governed options.max_rows
    sql ← generated (env.generate_sql capped.0)
    answer ctx (session_policy ctx) options capped.0 capped.1 model_name model sql sink
