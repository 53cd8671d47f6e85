-- ===== src/Runtime/Governance/Registration.antt =====
-- `QueryService::register_model` and `unregister_model` of governance.rs, on the registry of the
-- generator that the engine holds.
use graphnight.Base.{String, Result, ok, ◌>>=◌}
use graphnight.Core.Models.{Model}
use graphnight.Sql.Generator
use graphnight.Sql.Generator.{SqlGenerator}
use graphnight.Runtime.Errors.{ServiceError}
use graphnight.Runtime.Context.{CallContext, require_admin}

unfoldable pub register_model :
    CallContext → Model → SqlGenerator → Result ServiceError SqlGenerator
register_model ctx m g = do _ ← require_admin ctx; ok (Generator.register_model g m)

unfoldable pub unregister_model :
    CallContext → String → SqlGenerator → Result ServiceError SqlGenerator
unregister_model ctx name g = do _ ← require_admin ctx; ok (Generator.unregister_model g name)
