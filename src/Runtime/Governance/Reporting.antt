-- ===== src/Runtime/Governance/Reporting.antt =====
-- What a call of `execute` that is no dry run reports to the caller and to the audit log.
use graphnight.Base.{
  ℕ, ◌≡◌, refl, sym, ap, ◌∙◌, String, true, false, Option, none, some, List, map, Result, ok, err,
  ok_or, bind-Steps, ok_inj, unwrap_or, leb, length, [], ◌∷◌, ◌++◌, ◌⊎◌, inl, inr, false,
  Bool-cases, if_true, if_false, subst,
}
use graphnight.Core.Models.{Model, DataSource, Query}
use graphnight.Core.Security.{SessionPolicy}
use graphnight.Runtime.Errors.{ServiceError}
use graphnight.Runtime.Context.{
  CallContext, ExecuteOptions, QueryOutcome, Row, AuditEntry, Environment, session_policy, stored,
}
use graphnight.Runtime.Governance.{
  AuditSink, rows_of, outcome_of, mask_row, written, audit, answer, run, execute,
}
use graphnight.Runtime.Governance.Guard.{
  IsGoverned, governed, execute-answer, ok_or-eq-ok, stored-eq-ok,
}

-- What an audit log says of the success of a call.
abbrev pub success_entry : Environment → CallContext → String → ℕ → AuditEntry
success_entry env ctx model_name row_count = record {
  timestamp = env.now;
  user_id = ctx.user_id;
  tenant_id = ctx.tenant_id;
  action = unwrap_or ctx.principal_label "query";
  model = some model_name;
  query_hash = none;
  row_count = some row_count;
  duration_ms = env.elapsed_ms;
  success = true;
  error = none;
}

-- The sink has the entry behind its own, unless writing it failed, and then it is as it was.
abbrev pub IsLogged : Environment → AuditEntry → AuditSink → AuditSink → Type 0
IsLogged env entry none after = after ≡ none
IsLogged env entry (some entries) after =
    ((env.write_audit entries entry ≡ true) × (after ≡ some (entries ++ entry ∷ [])))
    ⊎ ((env.write_audit entries entry ≡ false) × (after ≡ some entries))

audit-IsLogged :
    (env : Environment) (ctx : CallContext) (model_name : String) (n : ℕ) (sink : AuditSink)
    → IsLogged env
        (success_entry env ctx model_name n)
        sink
        (audit env ctx model_name n env.elapsed_ms true none sink)
unfolding audit written
audit-IsLogged env ctx model_name n none = refl
audit-IsLogged env ctx model_name n (some entries) =
    let entry = success_entry env ctx model_name n in
    elim (Bool-cases (env.write_audit entries entry)) [
      | inl e ↦ inl (e, ap some (if_true (λ l. l ≡ entries ++ entry ∷ []) _ _ _ e refl))
      | inr e ↦ inr (e, ap some (if_false (λ l. l ≡ entries) _ _ _ e refl))
    ]

-- The report of a call: the rows that answer its statement, masked and counted, and the log.
pub record IsReported (env : Environment) (ctx : CallContext) (limit : ℕ) (model_name : String)
    (model : Model) (sql : String) (sink : AuditSink) (result : QueryOutcome × AuditSink)
    : Type 0 where
  pub datasource : DataSource
  pub rows : List Row
  pub found : env.get_datasource model.datasource ≡ ok (some datasource)
  pub answered :
      env.execute_sqlx (unwrap_or (session_policy ctx).query_timeout_secs 300) datasource sql
      ≡ some (ok rows)
  pub masked : result.0.rows ≡ map (mask_row (session_policy ctx).column_masks) rows
  pub counted : result.0.row_count ≡ length rows
  pub full_page : result.0.truncated ≡ leb limit (length rows)
  pub logged : IsLogged env (success_entry env ctx model_name (length rows)) sink result.1

rows_of-eq-ok :
    (n : ℕ) (o : Option (Result String (List Row))) {rows : List Row}
    → rows_of n o ≡ ok rows
    → o ≡ some (ok rows)
unfolding rows_of
rows_of-eq-ok n none h = cc
rows_of-eq-ok n (some (err e)) h = cc
rows_of-eq-ok n (some (ok rows)) h = cc

run-IsReported :
    (env : Environment) (ctx : CallContext) (options : ExecuteOptions) (query : Query) (limit : ℕ)
    (name : String) (model : Model) (sql : String) (sink : AuditSink)
    (result : QueryOutcome × AuditSink)
    → run env ctx (session_policy ctx) options query limit name model sql sink ≡ ok result
    → IsReported env ctx limit name model sql sink result
unfolding run outcome_of
run-IsReported env ctx options query limit name model sql sink result h =
    let (found, s, h₁) = bind-Steps (stored (env.get_datasource model.datasource)) _ h in
    let (datasource, f, h₂) =
      bind-Steps (ok_or found (ServiceError.datasource_not_found model.datasource)) _ h₁ in
    let seconds = unwrap_or (session_policy ctx).query_timeout_secs 300 in
    let (rows, r, h₃) =
      bind-Steps (rows_of seconds (env.execute_sqlx seconds datasource sql)) _ h₂ in
    record {
      datasource = datasource;
      rows = rows;
      found = stored-eq-ok _ s ∙ ap ok (ok_or-eq-ok _ _ f);
      answered = rows_of-eq-ok seconds _ r;
      masked = ap (λ x. x.0.rows) (sym (ok_inj h₃));
      counted = ap (λ x. x.0.row_count) (sym (ok_inj h₃));
      full_page = ap (λ x. x.0.truncated) (sym (ok_inj h₃));
      logged =
          subst (IsLogged env (success_entry env ctx name (length rows)) sink)
            (ap (λ x. x.1) (ok_inj h₃)) (audit-IsLogged env ctx name (length rows) sink);
    }

answer-run :
    (env : Environment) (ctx : CallContext) (policy : SessionPolicy) (options : ExecuteOptions)
    (query : Query) (limit : ℕ) (name : String) (model : Model) (sql : String) (sink : AuditSink)
    → options.dry_run ≡ false
    → answer env ctx policy options query limit name model sql sink
      ≡ run env ctx policy options query limit name model sql sink
unfolding answer
answer-run env ctx policy options query limit name model sql sink wet = rw wet (refl)

-- A call that succeeds and is no dry run has passed the checks, and `execute_sqlx` has answered the
-- statement that was generated, on the datasource of the checked model. The rows of the call are those of
-- that answer, each with the masks of the policy, its count is their number, and it is marked as truncated
-- exactly when they are as many as the limit or more. If there is an audit sink, it has one entry more, with
-- the caller, the checked model and that count, unless writing the entry failed: then it is as it was.
pub execute-IsReported :
    (env : Environment) (ctx : CallContext) (query : Query) (options : ExecuteOptions)
    (sink : AuditSink) (result : QueryOutcome × AuditSink)
    → options.dry_run ≡ false
    → execute env ctx query options sink ≡ ok result
    → (c : IsGoverned env ctx query options) × IsReported env ctx
        (governed ctx options query).1
        c.model_name
        c.model
        c.sql
        sink
        result
execute-IsReported env ctx query options sink result wet h =
    let (c, e) = execute-answer env ctx query options sink result h in
    let query' = governed ctx options query in
    (
      c,
      run-IsReported env ctx options query'.0 query'.1 c.model_name c.model c.sql sink result (
          sym (
            answer-run env ctx (session_policy ctx) options query'.0 query'.1 c.model_name c.model
              c.sql sink wet)
          ∙ e),
    )
