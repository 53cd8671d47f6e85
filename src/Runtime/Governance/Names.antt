-- ===== src/Runtime/Governance/Names.antt =====
-- The model that `execute` checks and the model that its statement reads, for a query that names both.
use graphnight.Base.{
  ◌≡◌, sym, ap, ◌∙◌, String, some, Result, ok, err, ok_or, ok_inj, bind-Steps, refl, subst,
}
use graphnight.Core.Models.{Model, Query, SourceSpec}
use graphnight.Sql.Plan.{GeneratedSql, LogicalPlan, placeholder}
use graphnight.Sql.Dialects.Statement.{generate_sql}
use graphnight.Sql.Generator.{
  SqlGenerator, SqlError, model, dialect_for, resolve_source, source_of, model_not_found,
}
use graphnight.Sql.Generator.Build.{Libraries, build_logical_plan, generate, generate-planned}
use graphnight.Core.Security.{check_model_access}
use graphnight.Core.Security.Access.{Admits, Spares, check_access_iff}
use graphnight.Runtime.Context.{
  CallContext, ExecuteOptions, QueryOutcome, Environment, session_policy,
}
use graphnight.Runtime.Governance.{AuditSink, apply_row_cap, checked_name, execute}
use graphnight.Runtime.Governance.Guard.{ok_or-eq-ok, IsGoverned, governed, execute-IsGoverned}

-- The text of a statement, or of an error.
statement : (SqlError → String) → Result SqlError GeneratedSql → Result String String
statement message (ok p) = ok p.sql
statement message (err e) = err (message e)

-- The service whose engine plans with a generator.
unfoldable pub planning : Libraries → (SqlError → String) → SqlGenerator → Environment → Environment
unfolding statement
planning lib message g env = record env {
  generate_sql = λ query. statement message (generate lib g query);
}

statement-ok :
    (message : SqlError → String) (r : Result SqlError GeneratedSql) (sql : String)
    → statement message r ≡ ok sql
    → (p : GeneratedSql) × (r ≡ ok p) × (p.sql ≡ sql)
unfolding statement
statement-ok message (ok p) sql h = (p, refl, ok_inj h)
statement-ok message (err e) sql h = cc

some_inj : {A : Type 0} {a b : A} → some a ≡ some b → a ≡ b
some_inj e = cc

checked_name-both : (q : Query) (n : String) → q.name ≡ some n → checked_name q ≡ some n
unfolding checked_name
checked_name-both q n h = rw h (refl)

resolve_source-named :
    (g : SqlGenerator) (q : Query) (s : SourceSpec) (table alias : String)
    → q.source_model ≡ some s
    → resolve_source g q ≡ ok (table, alias)
    → (m : Model) × (model g s.model ≡ some m) × (table ≡ m.name)
unfolding resolve_source source_of
resolve_source-named g q s table alias sourced h =
    let r : ◌≡◌ {A = Result SqlError (String × String)} (source_of g (some s) q.name)
        (ok (table, alias)) =
      rw sourced at h in
    let (m, found, h₁) = bind-Steps (ok_or (model g s.model) (model_not_found s.model)) _ r in
    (m, ok_or-eq-ok _ _ found, ap (λ x. x.0) (sym (ok_inj h₁)))

-- A call that succeeds for a query with a name and a source besides, with an engine that plans by the
-- generator, has passed the checks for the name, so the policy admits that name, while its statement is
-- planned for the model that is registered under the name of the source.
pub execute-resolve_source :
    (lib : Libraries) (message : SqlError → String) (g : SqlGenerator) (env : Environment)
    (ctx : CallContext) (q : Query) (options : ExecuteOptions) (sink : AuditSink)
    (result : QueryOutcome × AuditSink) (n : String) (s : SourceSpec)
    → q.name ≡ some n
    → q.source_model ≡ some s
    → execute (planning lib message g env) ctx q options sink ≡ ok result
    → (c : IsGoverned (planning lib message g env) ctx q options) × (c.model_name ≡ n)
      × Admits (session_policy ctx).allowed_models n
      × Spares (session_policy ctx).denied_models n
      × (m : Model) × (model g s.model ≡ some m)
      × (alias : String) × (plan : LogicalPlan) × (build_logical_plan lib g
            (governed ctx options q).0
            (dialect_for g m.name)
            m.name
            alias
            placeholder
          ≡ ok plan)
      × (c.sql ≡ generate_sql (dialect_for g m.name) plan)
unfolding planning apply_row_cap
execute-resolve_source lib message g env ctx q options sink result n s named sourced h =
    let c = execute-IsGoverned (planning lib message g env) ctx q options sink result h in
    let same : c.model_name ≡ n = some_inj (sym c.named ∙ checked_name-both q n named) in
    let q' = (governed ctx options q).0 in
    let (p, made, text) = statement-ok message (generate lib g q') c.sql c.planned in
    let (table, alias, plan, r, b, e) = generate-planned lib g q' p made in
    let (m, found, t) = resolve_source-named g q' s table alias sourced r in
    let (admitted, spared) =
      (check_access_iff (session_policy ctx) n "").0.0
        (subst (λ x. check_model_access (session_policy ctx) x ≡ ok tt) same c.model_allowed) in
    (
      c,
      same,
      admitted,
      spared,
      m,
      found,
      alias,
      plan,
      subst (λ x. build_logical_plan lib g q' (dialect_for g x) x alias placeholder ≡ ok plan) t b,
      sym text ∙ subst (λ x. p.sql ≡ generate_sql (dialect_for g x) plan) t e,
    )
