-- ===== src/Runtime/Context.antt =====
-- The context of a call, its options and outcome, and what the service is built on, of
-- crates/graphnight-runtime/src/governance.rs.
use graphnight.Base.{
  ℕ, String, Bool, true, false, not, ◌&&◌, Option, none, some, List, Result, ok, err, if◌then◌else◌,
  unwrap_or, or_option, is_some,
}
use graphnight.Core.Models.{Value, Model, DataSource, Query}
use graphnight.Core.Security.{SessionPolicy, default_policy, AccessError}
use graphnight.Runtime.Errors.{
  ServiceError, unauthenticated, policy_violation, admin_required, storage,
}

pub record ExecuteOptions : Type 0 where
  pub dry_run : Bool
  pub explain : Bool
  pub max_rows : Option ℕ

abbrev pub dry_run_options : ExecuteOptions
dry_run_options = record { dry_run = true; explain = true; max_rows = none }

-- `ExecuteOptions::executing` and `ExecuteOptions::live`, which set the same fields.
abbrev pub executing : ExecuteOptions
executing = record { dry_run = false; explain = false; max_rows = none }

abbrev pub with_max_rows : ExecuteOptions → ℕ → ExecuteOptions
with_max_rows options max_rows = record options { max_rows = some max_rows }

abbrev pub default_max_rows : ℕ
default_max_rows = 10000

pub record CallContext : Type 0 where
  pub user_id : Option String
  pub tenant_id : Option String
  pub is_admin : Bool
  pub auth_required : Bool
  pub policy : Option SessionPolicy
  pub principal_label : Option String

abbrev pub anonymous : CallContext
anonymous = record {
  user_id = none;
  tenant_id = none;
  is_admin = false;
  auth_required = false;
  policy = none;
  principal_label = none;
}

unfoldable pub session_policy : CallContext → SessionPolicy
session_policy ctx = unwrap_or ctx.policy default_policy

unfoldable pub principal : CallContext → String
principal ctx = unwrap_or (or_option ctx.user_id ctx.principal_label) "anonymous"

unfoldable pub require_authenticated : CallContext → Result ServiceError Unit
require_authenticated ctx =
    if ctx.auth_required && not (is_some ctx.user_id) then err unauthenticated else ok tt

unfoldable pub require_admin : CallContext → Result ServiceError Unit
require_admin ctx = if ctx.is_admin then ok tt else err admin_required

-- A row of a result: the map of its columns.
abbrev pub Row : Type 0
Row = List (String × Value)

pub record QueryOutcome : Type 0 where
  -- `data`
  pub rows : List Row
  pub columns : List String
  pub sql : Option String
  pub population : Option ℕ
  pub population_inferred : Bool
  pub execution_time_ms : ℕ
  pub truncated : Bool
  pub row_count : ℕ
  pub next_offset : Option ℕ
  pub dialect : String

pub record AuditEntry : Type 0 where
  pub timestamp : ℕ
  pub user_id : Option String
  pub tenant_id : Option String
  pub action : String
  pub model : Option String
  pub query_hash : Option String
  pub row_count : Option ℕ
  pub duration_ms : ℕ
  pub success : Bool
  pub error : Option String

-- What the service is built on. Running a statement gives the rows, or nothing if it takes longer
-- than a number of seconds. Writing an entry to a sink that has some entries succeeds or fails.
pub record Environment : Type 0 where
  pub get_model : String → Result String (Option Model)
  pub get_datasource : String → Result String (Option DataSource)
  pub generate_sql : Query → Result String String
  pub dialect_name_for_model : String → String
  pub execute_sqlx : ℕ → DataSource → String → Option (Result String (List Row))
  pub elapsed_ms : ℕ
  pub write_audit : List AuditEntry → AuditEntry → Bool
  pub now : ℕ

abbrev pub access : {A : Type 0} → Result AccessError A → Result ServiceError A
access (ok a) = ok a
access (err e) = err (policy_violation e)

abbrev pub stored : {A : Type 0} → Result String A → Result ServiceError A
stored (ok a) = ok a
stored (err e) = err (storage e)
