-- ===== src/Runtime/Governance/Pipeline.antt =====
-- `apply_stage_ref` and `execute_multi_stage` of governance.rs. `by_name` is an association list, and
-- `out` has a slot for each stage, under the name that `position` finds it by.
use graphnight.Base.{
  ◌≡◌, String, Bool, false, ◌||◌, Option, none, some, List, [], ◌∷◌, ◌++◌, map, Result, ok, err,
  ok_or, ◌>>=◌, bind-Steps, ok_inj, subst, if◌then◌else◌, ◌==◌, contains, contains_char, All,
  Bool-cases, inl, inr,
}
use graphnight.Core.Models.{Value, Query, Filter, eq}
use graphnight.Runtime.Errors.{
  ServiceError, no_stages, duplicate_stage, unknown_stage, stage_not_run, stage_loop,
}
use graphnight.Runtime.Stages.{Stage, names, topological_order}
use graphnight.Runtime.Context.{
  CallContext, ExecuteOptions, dry_run_options, executing, QueryOutcome, Row, Environment,
}
use graphnight.Runtime.Governance.{AuditSink, execute}

stage_filter : String × Value → Filter
stage_filter (column, value) = record {
  field = column;
  operator = eq;
  value = value;
  or_condition = false;
}

row_filters : Row → List Filter
row_filters [] = []
row_filters (cell ∷ row) =
    let rest = row_filters row in
    if contains_char b' ' cell.0 || cell.0 == "" then rest else stage_filter cell ∷ rest

-- The first row of the earlier stage restricts the query.
unfoldable pub apply_stage_ref : Query → QueryOutcome → Query
unfolding row_filters stage_filter
apply_stage_ref query previous = elim previous.rows [
  | [] ↦ query
  | first ∷ rows ↦ record query { filters = query.filters ++ row_filters first }
]

find_stage : List Stage → String → Option Query
find_stage [] name = none
find_stage ((n, q) ∷ stages) name = if n == name then some q else find_stage stages name

abbrev Done : Type 0
Done = List (String × QueryOutcome)

outcome_named : Done → String → Option QueryOutcome
outcome_named [] name = none
outcome_named ((n, o) ∷ by_name) name = if n == name then some o else outcome_named by_name name

check_names : List String → List String → Result ServiceError Unit
check_names seen [] = ok tt
check_names seen (name ∷ rest) =
    let later = check_names (name ∷ seen) rest in
    if contains seen name then err (duplicate_stage name) else later

abbrev Slots : Type 0
Slots = List (String × Option QueryOutcome)

fill : Slots → String → QueryOutcome → Slots
fill [] name outcome = []
fill ((n, slot) ∷ slots) name outcome =
    let rest = fill slots name outcome in
    if n == name then (n, some outcome) ∷ slots else (n, slot) ∷ rest

flatten : Slots → List QueryOutcome
flatten [] = []
flatten ((n, none) ∷ slots) = flatten slots
flatten ((n, some outcome) ∷ slots) = outcome ∷ flatten slots

refer : Done → Query → Option String → Result ServiceError Query
refer by_name query none = ok query
refer by_name query (some reference) = do
  previous ← ok_or (outcome_named by_name reference) (stage_not_run reference)
  ok (apply_stage_ref query previous)

-- A query without a model is one of the model with the stage's name.
named_query : String → Query → Query
named_query name query = elim query.name [
  | some n ↦ query
  | none ↦ elim query.source_model [ some s ↦ query | none ↦ record query { name = some name } ]
]

module _ (env : Environment) (ctx : CallContext) (options : ExecuteOptions)
    (stages : List Stage) where
  -- The loop over the order, with `by_name`, `out` and the sink.
  run_stages :
      List String → Done → Slots → AuditSink → Result ServiceError (List QueryOutcome × AuditSink)
  run_stages [] by_name out sink = ok (flatten out, sink)
  run_stages (name ∷ order) by_name out sink = do
    found ← ok_or (find_stage stages name) (unknown_stage name)
    referred ← refer by_name found found.stage_ref
    result ← execute env ctx (named_query name referred) options sink
    run_stages order ((name, result.0) ∷ by_name) (fill out name result.0) result.1

-- The order of the stages; running out of fuel, which does not happen, is an error of its own.
ordered : Option (Result ServiceError (List String)) → Result ServiceError (List String)
ordered none = err stage_loop
ordered (some r) = r

abbrev pub stage_options : Bool → ExecuteOptions
stage_options dry_run = if dry_run then dry_run_options else executing

unfoldable pub execute_multi_stage :
    Environment
    → CallContext
    → List Stage
    → Bool
    → AuditSink
    → Result ServiceError (List QueryOutcome × AuditSink)
unfolding run_stages find_stage outcome_named check_names fill flatten refer named_query ordered
execute_multi_stage env ctx [] dry_run sink = err no_stages
execute_multi_stage env ctx (s ∷ stages) dry_run sink = do
  order ← ordered (topological_order (s ∷ stages))
  _ ← check_names [] (names (s ∷ stages))
  run_stages env ctx (stage_options dry_run) (s ∷ stages) order []
      (map (λ n. (n, none)) (names (s ∷ stages))) sink

module _ (env : Environment) (ctx : CallContext) (options : ExecuteOptions) where
  -- An outcome of a governed call: `execute` returned it for some query.
  pub IsExecuted : QueryOutcome → Type 0
  IsExecuted outcome =
      (query : Query) × (before : AuditSink) × (after : AuditSink) × (execute env ctx query options
          before
        ≡ ok (outcome, after))

  IsFilled : String × Option QueryOutcome → Type 0
  IsFilled (name, none) = Unit
  IsFilled (name, some outcome) = IsExecuted outcome

  fill-IsFilled :
      (out : Slots) (name : String) (outcome : QueryOutcome)
      → All IsFilled out
      → IsExecuted outcome
      → All IsFilled (fill out name outcome)
  unfolding fill IsFilled
  fill-IsFilled [] name outcome h k = tt
  fill-IsFilled ((n, slot) ∷ out) name outcome (h, more) k = elim (Bool-cases (n == name)) [
    | inl e ↦ rw e ((k, more))
    | inr e ↦ rw e ((h, fill-IsFilled out name outcome more k))
  ]

  flatten-IsExecuted : (out : Slots) → All IsFilled out → All IsExecuted (flatten out)
  unfolding flatten IsFilled
  flatten-IsExecuted [] h = tt
  flatten-IsExecuted ((n, none) ∷ out) (h, more) = flatten-IsExecuted out more
  flatten-IsExecuted ((n, some outcome) ∷ out) (h, more) = (h, flatten-IsExecuted out more)

  empty-IsFilled : (ns : List String) → All IsFilled (map (λ n. (n, none)) ns)
  unfolding IsFilled
  empty-IsFilled [] = tt
  empty-IsFilled (n ∷ ns) = (tt, empty-IsFilled ns)

  run_stages-IsExecuted :
      (stages : List Stage) (order : List String) (by_name : Done) (out : Slots) (sink : AuditSink)
      (result : List QueryOutcome × AuditSink)
      → All IsFilled out
      → run_stages env ctx options stages order by_name out sink ≡ ok result
      → All IsExecuted result.0
  unfolding run_stages IsExecuted
  run_stages-IsExecuted stages [] by_name out sink result h e =
      subst (λ r. All IsExecuted r.0) (ok_inj e) (flatten-IsExecuted out h)
  run_stages-IsExecuted stages (name ∷ order) by_name out sink result h e =
      let (found, f, e₁) = bind-Steps (ok_or (find_stage stages name) (unknown_stage name)) _ e in
      let (referred, r, e₂) = bind-Steps (refer by_name found found.stage_ref) _ e₁ in
      let (one, x, e₃) =
        bind-Steps (execute env ctx (named_query name referred) options sink) _ e₂ in
      run_stages-IsExecuted stages order ((name, one.0) ∷ by_name) (fill out name one.0) one.1
        result (fill-IsFilled out name one.0 h (named_query name referred, sink, one.1, x)) e₃

-- Every outcome of a pipeline that succeeds is one that a governed call of `execute`, in the same
-- context, returned: no stage goes round the policy.
pub execute_multi_stage-IsExecuted :
    (env : Environment) (ctx : CallContext) (stages : List Stage) (dry_run : Bool)
    (sink : AuditSink) (result : List QueryOutcome × AuditSink)
    → execute_multi_stage env ctx stages dry_run sink ≡ ok result
    → All (IsExecuted env ctx (stage_options dry_run)) result.0
unfolding execute_multi_stage
execute_multi_stage-IsExecuted env ctx [] dry_run sink result e = absurd (cc)
execute_multi_stage-IsExecuted env ctx (s ∷ stages) dry_run sink result e =
    let (order, o, e₁) = bind-Steps (ordered (topological_order (s ∷ stages))) _ e in
    let (_, c, e₂) = bind-Steps (check_names [] (names (s ∷ stages))) _ e₁ in
    run_stages-IsExecuted env ctx (stage_options dry_run) (s ∷ stages) order []
      (map (λ n. (n, none)) (names (s ∷ stages))) sink result
      (empty-IsFilled env ctx (stage_options dry_run) (names (s ∷ stages))) e₂
