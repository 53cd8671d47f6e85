-- ===== src/Runtime/Governance/Guard.antt =====
-- What a success of `execute` implies: the checks it has passed and the query that was generated.
use graphnight.Base.{
  ℕ, ◌≡◌, ◌≢◌, refl, sym, ap, ◌∙◌, subst, String, true, Option, none, some, [], ◌++◌, Result, ok,
  err, ok_or, bind-Steps, ok_inj, if◌then◌else◌,
}
use graphnight.Core.Models.{Model, Query}
use graphnight.Core.Security.{
  SessionPolicy, AccessError, check_model_access, check_datasource_access,
}
use graphnight.Core.Security.Access.{policy_filters, with_filters, apply_rls-apply_forced_filters}
use graphnight.Runtime.Errors.{ServiceError}
use graphnight.Runtime.Context.{
  CallContext, ExecuteOptions, QueryOutcome, Environment, session_policy, require_authenticated,
  access, stored,
}
use graphnight.Runtime.Governance.{
  AuditSink, checked_name, generated, apply_policy, apply_row_cap, answer, run, dry_outcome,
  execute,
}

-- The query that the engine is asked for, that of the caller with the filters of the policy behind its
-- own and with the row cap as its limit; and that limit.
abbrev pub governed : CallContext → ExecuteOptions → Query → Query × ℕ
governed ctx options query =
    apply_row_cap (session_policy ctx)
      (with_filters query (query.filters ++ policy_filters (session_policy ctx))) options.max_rows

-- The checks that a call has passed.
pub record IsGoverned (env : Environment) (ctx : CallContext) (query : Query)
    (options : ExecuteOptions) : Type 0 where
  pub authenticated : require_authenticated ctx ≡ ok tt
  pub model_name : String
  pub model : Model
  pub sql : String
  pub named : checked_name query ≡ some model_name
  pub registered : env.get_model model_name ≡ ok (some model)
  pub model_allowed : check_model_access (session_policy ctx) model_name ≡ ok tt
  pub datasource_allowed : check_datasource_access (session_policy ctx) model.datasource ≡ ok tt
  pub planned : env.generate_sql (governed ctx options query).0 ≡ ok sql

pub ok_or-eq-ok : {E A : Type 0} (o : Option A) (e : E) {a : A} → ok_or o e ≡ ok a → o ≡ some a
ok_or-eq-ok none e h = cc
ok_or-eq-ok (some a) e h = cc

access-eq-ok : (r : Result AccessError Unit) {a : Unit} → access r ≡ ok a → r ≡ ok tt
access-eq-ok (ok a) h = refl
access-eq-ok (err e) h = cc

pub stored-eq-ok : {A : Type 0} (r : Result String A) {a : A} → stored r ≡ ok a → r ≡ ok a
stored-eq-ok (ok a) h = cc
stored-eq-ok (err e) h = cc

generated-eq-ok : (r : Result String String) {a : String} → generated r ≡ ok a → r ≡ ok a
unfolding generated
generated-eq-ok (ok a) h = cc
generated-eq-ok (err e) h = cc

apply_policy-eq-ok :
    (policy : SessionPolicy) (query : Query) (name datasource : String) {q : Query}
    → apply_policy policy query name datasource ≡ ok q
    → (check_model_access policy name ≡ ok tt)
      × (check_datasource_access policy datasource ≡ ok tt)
      × (q ≡ with_filters query (query.filters ++ policy_filters policy))
unfolding apply_policy
apply_policy-eq-ok policy query name datasource h =
    let (_, m, h₁) = bind-Steps (access (check_model_access policy name)) _ h in
    let (_, d, h₂) = bind-Steps (access (check_datasource_access policy datasource)) _ h₁ in
    (
      access-eq-ok _ m,
      access-eq-ok _ d,
      ok_inj (sym h₂) ∙ apply_rls-apply_forced_filters policy query,
    )

-- The checks of a call that succeeds, and the answer that it then gives.
pub execute-answer :
    (env : Environment) (ctx : CallContext) (query : Query) (options : ExecuteOptions)
    (sink : AuditSink) (result : QueryOutcome × AuditSink)
    → execute env ctx query options sink ≡ ok result
    → (c : IsGoverned env ctx query options) × (answer env ctx
          (session_policy ctx)
          options
          (governed ctx options query).0
          (governed ctx options query).1
          c.model_name
          c.model
          c.sql
          sink
        ≡ ok result)
unfolding execute
execute-answer env ctx query options sink result h =
    let policy = session_policy ctx in
    let (_, a, h₁) = bind-Steps (require_authenticated ctx) _ h in
    let (name, n, h₂) = bind-Steps (ok_or (checked_name query) ServiceError.no_source) _ h₁ in
    let (found, s, h₃) = bind-Steps (stored (env.get_model name)) _ h₂ in
    let (model, f, h₄) = bind-Steps (ok_or found (ServiceError.model_not_found name)) _ h₃ in
    let (admitted, p, h₅) = bind-Steps (apply_policy policy query name model.datasource) _ h₄ in
    let (sql, g, h₆) =
      bind-Steps (generated (env.generate_sql (apply_row_cap policy admitted options.max_rows).0)) _
        h₅ in
    let (allowed, there, same) = apply_policy-eq-ok policy query name model.datasource p in
    (
      record {
        authenticated = a;
        model_name = name;
        model = model;
        sql = sql;
        named = ok_or-eq-ok _ _ n;
        registered = stored-eq-ok _ s ∙ ap ok (ok_or-eq-ok _ _ f);
        model_allowed = allowed;
        datasource_allowed = there;
        planned =
            ap (λ q. env.generate_sql (apply_row_cap policy q options.max_rows).0) (sym same)
            ∙ generated-eq-ok _ g;
      },
      ap
            (λ q.
              answer env ctx policy options (apply_row_cap policy q options.max_rows).0
                (apply_row_cap policy q options.max_rows).1 name model sql sink)
            (sym same)
          ∙ h₆,
    )

-- A call that succeeds has an authenticated caller where the deployment requires one, a registered
-- model which the policy admits with its datasource, and a statement that was generated from the
-- query with all filters of the policy and with the row cap.
pub execute-IsGoverned :
    (env : Environment) (ctx : CallContext) (query : Query) (options : ExecuteOptions)
    (sink : AuditSink) (result : QueryOutcome × AuditSink)
    → execute env ctx query options sink ≡ ok result
    → IsGoverned env ctx query options
execute-IsGoverned env ctx query options sink result h =
    (execute-answer env ctx query options sink result h).0

-- The answer of a dry run.
IsDry : AuditSink → QueryOutcome × AuditSink → Type 0
IsDry sink result = (result.0.rows ≡ []) × (result.0.sql ≢ none) × (result.1 ≡ sink)

answer-IsDry :
    (env : Environment) (ctx : CallContext) (policy : SessionPolicy) (options : ExecuteOptions)
    (query : Query) (limit : ℕ) (name : String) (model : Model) (sql : String) (sink : AuditSink)
    (result : QueryOutcome × AuditSink)
    → options.dry_run ≡ true
    → answer env ctx policy options query limit name model sql sink ≡ ok result
    → IsDry sink result
unfolding answer dry_outcome IsDry
answer-IsDry env ctx policy options query limit name model sql sink result dry h =
    subst (IsDry sink)
      (ok_inj (
        subst
          (λ b.
            (if b
              then ok (dry_outcome env sql (env.dialect_name_for_model name), sink)
              else run env ctx policy options query limit name model sql sink)
            ≡ ok result)
          dry h))
      (refl, (λ e. cc), refl)

-- A dry run that succeeds returns no rows and its statement, and leaves the audit log as it is.
execute-dry_run :
    (env : Environment) (ctx : CallContext) (query : Query) (options : ExecuteOptions)
    (sink : AuditSink) (result : QueryOutcome × AuditSink)
    → options.dry_run ≡ true
    → execute env ctx query options sink ≡ ok result
    → (result.0.rows ≡ []) × (result.0.sql ≢ none) × (result.1 ≡ sink)
unfolding IsDry
execute-dry_run env ctx query options sink result dry h =
    let (c, e) = execute-answer env ctx query options sink result h in
    let query' = governed ctx options query in
    answer-IsDry env ctx (session_policy ctx) options query'.0 query'.1 c.model_name c.model c.sql
      sink result dry e
