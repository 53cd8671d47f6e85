-- ===== src/Runtime/Tools/Changes.antt =====
-- The tools of tools.rs that change models and datasources, over the storage as an interface and the
-- registry of the generator. An object has its fields in alphabetical order.
pub mod Outcomes
pub mod Steps
pub mod Allowed
use graphnight.Base.{
  ℕ, String, Bool, true, false, ◌&&◌, Option, none, some, List, [], ◌∷◌, map, keep, length, Result,
  ok, err, ◌>>=◌, ok_or, ◌+s◌, ◌==◌, if◌then◌else◌, show, join, or_option, unwrap_or,
}
use graphnight.Core.Models.{
  Value, Fields, null, bool, number, string, object, end, field, Model, DataSource, Measure,
  Dimension, TimeDimension, Formula, AggregationType, TimeGranularity,
}
use graphnight.Core.Models
use graphnight.Sql.Generator.{SqlGenerator}
use graphnight.Runtime.Agent.{ToolError}
use graphnight.Runtime.Context.{CallContext}
use graphnight.Runtime.Suggest.Words.{new_error, hinted}
use graphnight.Runtime.Suggest.Scalars.{lower}
use graphnight.Runtime.Tools.Inputs.{
  CreateModelInput, UpdateModelInput, CreateDatasourceInput, UpdateDatasourceInput, new_model,
  changed_model,
}
use graphnight.Runtime.Governance.Registration.{register_model, unregister_model}

-- The tools with their inputs.
pub data Change : Type 0 where
  create_model : CreateModelInput → Change
  update_model : UpdateModelInput → Change
  delete_model : String → Option String → Change
  create_datasource : CreateDatasourceInput → Change
  update_datasource : UpdateDatasourceInput → Change
  delete_datasource : String → Change

-- The part of the trait `StorageBackend` that the tools use, with its errors as texts.
pub record Backend (B : Type 0) : Type 0 where
  pub list_models : B → Result String (List Model) × B
  pub get_model : String → B → Result String (Option Model) × B
  pub create_model : Model → B → Result String Model × B
  pub update_model : String → Model → B → Result String Model × B
  pub delete_model : String → Option String → B → Result String Bool × B
  pub get_datasource : String → B → Result String (Option DataSource) × B
  pub create_datasource : DataSource → B → Result String DataSource × B
  pub update_datasource : String → DataSource → B → Result String DataSource × B
  pub delete_datasource : String → B → Result String Bool × B

-- The storage and the registry of the engine.
pub record Catalogue (B : Type 0) : Type 0 where
  pub storage : B
  pub generator : SqlGenerator

abbrev pub Step : Type 0 → Type 0 → Type 0
Step S A = Result ToolError A × S

-- The operator `?` behind a step.
infixl 5 ◌after◌
unfoldable pub ◌after◌ : {S A C : Type 0} → Step S A → (A → S → Step S C) → Step S C
(err e, s) after next = (err e, s)
(ok a, s) after next = next a s

abbrev pub pure : {S A : Type 0} → Result ToolError A → S → Step S A
pure r s = (r, s)

abbrev reported : {A : Type 0} → String → Result String A → Result ToolError A
reported code (err e) = err (new_error code e)
reported code (ok a) = ok a

abbrev named : String → String → Value
named name done = object (field done (bool true) (field "name" (string name) end))

no_model : String → ToolError
no_model name =
    hinted "MODEL_NOT_FOUND" ("no model named " +s name) "Call list_models to see what exists."

no_datasource : String → ToolError
no_datasource name = new_error "DATASOURCE_NOT_FOUND" ("no datasource named " +s name)

is_empty : {A : Type 0} → List A → Bool
is_empty [] = true
is_empty (a ∷ as_) = false

-- The models that read from a datasource.
abbrev pub orphans : String → List Model → List Model
orphans name = keep (λ (m : Model). m.datasource == name)

pool_size_json : Option ℕ → Value
pool_size_json none = null
pool_size_json (some n) = number (show n)

-- `ToolError::from` of "Admin privileges required", whose message comes from another crate's macro.
abbrev pub admin_error : String → ToolError
admin_error message =
    hinted "POLICY_VIOLATION" message
      "This caller is not permitted to access that model or datasource. Do not retry; report the restriction."

module _ {B : Type 0} (backend : Backend B) (denied : String) where
  stored : {A : Type 0} → String → (B → Result String A × B) → Catalogue B → Step (Catalogue B) A
  stored code f s = let (r, b) = f s.storage in (reported code r, record s { storage = b })

  registered : CallContext → Model → Value → Catalogue B → Step (Catalogue B) Value
  registered ctx m v s = elim (register_model ctx m s.generator) [
    | ok g ↦ (ok v, record s { generator = g })
    | err e ↦ (err (new_error "MODEL_REGISTER_FAILED" denied), s)
  ]

  unregistered : CallContext → String → Value → Catalogue B → Step (Catalogue B) Value
  unregistered ctx name v s = elim (unregister_model ctx name s.generator) [
    | ok g ↦ (ok v, record s { generator = g })
    | err e ↦ (err (new_error "MODEL_UNREGISTER_FAILED" denied), s)
  ]

  unused : String → List Model → Catalogue B → Step (Catalogue B) Value
  unfolding no_datasource
  unused name [] s =
      stored "DATASOURCE_DELETE_FAILED" (backend.delete_datasource name) s after λ deleted s.
      pure (if deleted then ok (named name "deleted") else err (no_datasource name)) s
  unused name (m ∷ ms) s =
      pure
        (err (
          hinted "DATASOURCE_IN_USE"
            (show (length (m ∷ ms))
              +s " model(s) still read from "
              +s name
              +s ": "
              +s join ", " (map (λ (x : Model). x.name) (m ∷ ms)))
            "Delete or repoint those models first, so you do not strand them."))
        s

  -- What an administrator's call does.
  change_as_admin : CallContext → Change → Catalogue B → Step (Catalogue B) Value
  unfolding new_model changed_model registered unregistered unused no_model no_datasource is_empty
      pool_size_json
  change_as_admin ctx (create_model input) s =
      if is_empty input.measures && is_empty input.dimensions
      then pure
          (err (
            hinted "EMPTY_MODEL" "a model needs at least one measure or dimension"
              "Add a measure (e.g. {formula: \"amount\", aggregation: \"sum\"}) or a dimension."))
          s
      else (pure (new_model input) s after λ model s.
          stored "MODEL_CREATE_FAILED" (backend.create_model model) s after λ saved s.
          registered ctx saved
            (object (field "created" (bool true) (field "name" (string saved.name) end))) s)
  change_as_admin ctx (update_model input) s =
      stored "MODEL_NOT_FOUND" (backend.get_model input.name) s after λ found s.
      pure (ok_or found (no_model input.name)) s after λ model s.
      pure (changed_model input model) s after λ model s.
      stored "MODEL_UPDATE_FAILED" (backend.update_model input.name model) s after λ saved s.
      registered ctx saved
        (object (field "name" (string saved.name) (field "updated" (bool true) end))) s
  change_as_admin ctx (delete_model name datasource) s =
      stored "MODEL_DELETE_FAILED" (backend.delete_model name datasource) s after λ deleted s.
      if deleted
      then unregistered ctx name (named name "deleted") s
      else pure (err (no_model name)) s
  change_as_admin ctx (create_datasource input) s =
      stored "DATASOURCE_CREATE_FAILED"
        (backend.create_datasource (record {
          name = input.name;
          driver = input.driver;
          connection_string = input.connection_string;
          description = input.description;
          models = [];
          pool_size = input.pool_size;
          meta = [];
        }))
        s
      after λ saved s.
          pure
            (ok (
              object (
                field "created" (bool true) (
                  field "driver" (string saved.driver) (
                    field "name" (string saved.name)
                      (field "pool_size" (pool_size_json saved.pool_size) end))))))
            s
  change_as_admin ctx (update_datasource input) s =
      stored "DATASOURCE_READ_FAILED" (backend.get_datasource input.name) s after λ found s.
      pure (ok_or found (no_datasource input.name)) s after λ ds s.
      stored "DATASOURCE_UPDATE_FAILED"
        (backend.update_datasource input.name (record ds {
          description = or_option input.description ds.description;
          connection_string = unwrap_or input.connection_string ds.connection_string;
          pool_size = or_option input.pool_size ds.pool_size;
        }))
        s
      after λ saved s.
          pure (ok (object (field "name" (string input.name) (field "updated" (bool true) end)))) s
  change_as_admin ctx (delete_datasource name) s =
      stored "DATASOURCE_DELETE_FAILED" backend.list_models s after λ models s.
      unused name (orphans name models) s

  unfoldable pub change : CallContext → Change → Catalogue B → Step (Catalogue B) Value
  unfolding change_as_admin stored
  change ctx c s =
      if ctx.is_admin then change_as_admin ctx c s else pure (err (admin_error denied)) s
