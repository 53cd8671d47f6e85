-- ===== src/Core/Security.antt =====
-- crates/graphnight-core/src/security.rs: session policies and their enforcement on a query. The
-- mask functions and the audit buffer are in the children, and so are the proofs.
pub mod Masks
pub mod AuditLog
pub mod Access
pub mod Limits
use graphnight.Base.{
  ℕ, String, Bool, Option, none, some, List, [], ◌∷◌, ◌++◌, not, Result, ok, err, ◌>>=◌, contains,
  if◌then◌else◌, unwrap_or, ltb,
}
use graphnight.Core.Models.{Filter, Query}

abbrev pub MaskFn : Type 0
MaskFn = String → String

-- `column_masks` has one entry for each column.
pub record SessionPolicy : Type 0 where
  pub forced_filters : List Filter
  pub allowed_models : Option (List String)
  pub denied_models : Option (List String)
  pub column_masks : List (String × MaskFn)
  pub row_filter : Option Filter
  pub max_rows : Option ℕ
  pub allowed_datasources : Option (List String)
  pub query_timeout_secs : Option ℕ

-- `SessionPolicy::new`, `SessionPolicy::default`.
abbrev pub default_policy : SessionPolicy
default_policy = record {
  forced_filters = [];
  allowed_models = none;
  denied_models = none;
  column_masks = [];
  row_filter = none;
  max_rows = some 10000;
  allowed_datasources = none;
  query_timeout_secs = some 300;
}

-- The messages of the two checks, with the name that they quote.
pub data AccessError : Type 0 where
  model_not_allowed model_denied datasource_not_allowed : String → AccessError

-- `Some(list)` that lacks, or has, the name.
abbrev pub excludes : Option (List String) → String → Bool
excludes none name = Bool.false
excludes (some allowed) name = not (contains allowed name)

abbrev pub includes : Option (List String) → String → Bool
includes none name = Bool.false
includes (some denied) name = contains denied name

unfoldable pub check_model_access : SessionPolicy → String → Result AccessError Unit
check_model_access policy model_name =
    if excludes policy.allowed_models model_name
    then err (model_not_allowed model_name)
    else if includes policy.denied_models model_name
    then err (model_denied model_name)
    else ok tt

unfoldable pub check_datasource_access : SessionPolicy → String → Result AccessError Unit
check_datasource_access policy datasource =
    if excludes policy.allowed_datasources datasource
    then err (datasource_not_allowed datasource)
    else ok tt

-- The loop pushes the forced filters one by one.
push_filters : List Filter → Query → Query
push_filters [] query = query
push_filters (filter ∷ filters) query =
    push_filters filters (record query { filters = query.filters ++ filter ∷ [] })

unfoldable pub apply_forced_filters : SessionPolicy → Query → Query
unfolding push_filters
apply_forced_filters policy query = push_filters policy.forced_filters query

push_row_filter : Option Filter → Query → Query
push_row_filter none query = query
push_row_filter (some rls_filter) query = record query {
  filters = query.filters ++ rls_filter ∷ [];
}

unfoldable pub apply_rls : SessionPolicy → Query → Query
unfolding push_row_filter
apply_rls policy query = push_row_filter policy.row_filter query

-- The `match` on `query.limit`.
capped : ℕ → Option ℕ → Option ℕ
capped max_rows none = some max_rows
capped max_rows (some limit) = if ltb max_rows limit then some max_rows else some limit

unfoldable pub enforce_row_limit : SessionPolicy → Query → Query
unfolding capped
enforce_row_limit policy query = record query {
  limit = capped (unwrap_or policy.max_rows 10000) query.limit;
}

unfoldable pub query_timeout : SessionPolicy → ℕ
query_timeout policy = unwrap_or policy.query_timeout_secs 300
