-- ===== src/Runtime/Errors.antt =====
-- `ServiceError` of crates/graphnight-runtime/src/governance.rs. The messages that list stages carry
-- the list in place of its text.
use graphnight.Base.{ℕ, String, List}
use graphnight.Core.Security.{AccessError}

pub data ServiceError : Type 0 where
  model_not_found datasource_not_found : String → ServiceError
  unauthenticated : ServiceError
  -- the refusals of the enforcer, and "Admin privileges required"
  policy_violation : AccessError → ServiceError
  admin_required : ServiceError
  invalid_query : String → ServiceError
  no_source no_stages search_empty stage_loop empty_memory : ServiceError
  duplicate_stage unknown_stage stage_not_run : String → ServiceError
  cycle : List String → ServiceError
  timeout : ℕ → ServiceError
  execution storage : String → ServiceError
