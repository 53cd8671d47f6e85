-- ===== src/Runtime/Tools/Changes/Outcomes.antt =====
-- What the tools of tools.rs that change models and datasources are meant to do, and why they may fail.
use graphnight.Base.{
  ◌≡◌, String, false, true, Option, none, some, List, [], ok, err, All, ◌==◌, or_option, unwrap_or,
}
use graphnight.Core.Models.{Value, Model, DataSource}
use graphnight.Sql.Generator
use graphnight.Runtime.Agent.{ToolError}
use graphnight.Runtime.Tools.Inputs.{
  CreateModelInput, UpdateModelInput, CreateDatasourceInput, UpdateDatasourceInput, new_model,
  changed_model,
}
use graphnight.Runtime.Tools.Changes.{
  Change, create_model, update_model, delete_model, create_datasource, update_datasource,
  delete_datasource, Backend, Catalogue, Step,
}

-- No listed model reads from the datasource.
abbrev pub IsUnread : String → List Model → Type 0
IsUnread name = All (λ (m : Model). (m.datasource == name) ≡ false)

-- The datasource that the input describes, and a datasource with the changes of the input.
abbrev pub described : CreateDatasourceInput → DataSource
described input = record {
  name = input.name;
  driver = input.driver;
  connection_string = input.connection_string;
  description = input.description;
  models = [];
  pool_size = input.pool_size;
  meta = [];
}

abbrev pub redescribed : UpdateDatasourceInput → DataSource → DataSource
redescribed input old = record {
  name = old.name;
  driver = old.driver;
  connection_string = unwrap_or input.connection_string old.connection_string;
  description = or_option input.description old.description;
  models = old.models;
  pool_size = or_option input.pool_size old.pool_size;
  meta = old.meta;
}

module _ {B : Type 0} (backend : Backend B) where
  -- What a change has done to the storage and to the registry of the engine.
  abbrev pub HasDone : Change → Catalogue B → Step (Catalogue B) Value → Type 0
  HasDone (create_model input) s out =
      (m saved : Model) × (new_model input ≡ ok m)
      × (backend.create_model m s.storage ≡ (ok saved, out.1.storage))
      × (Generator.model out.1.generator saved.name ≡ some saved)
  HasDone (update_model input) s out =
      (old m saved : Model) × (b : B) × (backend.get_model input.name s.storage
        ≡ (ok (some old), b))
      × (changed_model input old ≡ ok m)
      × (backend.update_model input.name m b ≡ (ok saved, out.1.storage))
      × (Generator.model out.1.generator saved.name ≡ some saved)
  HasDone (delete_model name datasource) s out =
      (backend.delete_model name datasource s.storage ≡ (ok true, out.1.storage))
      × (Generator.model out.1.generator name ≡ none)
  HasDone (create_datasource input) s out =
      (saved : DataSource) × (backend.create_datasource (described input) s.storage
        ≡ (ok saved, out.1.storage))
      × (out.1.generator ≡ s.generator)
  HasDone (update_datasource input) s out =
      (old saved : DataSource) × (b : B) × (backend.get_datasource input.name s.storage
        ≡ (ok (some old), b))
      × (backend.update_datasource input.name (redescribed input old) b ≡ (ok saved, out.1.storage))
      × (out.1.generator ≡ s.generator)
  HasDone (delete_datasource name) s out =
      (ms : List Model) × (b : B) × (backend.list_models s.storage ≡ (ok ms, b))
      × IsUnread name ms
      × (backend.delete_datasource name b ≡ (ok true, out.1.storage))
      × (out.1.generator ≡ s.generator)

  -- Why a change has failed that was allowed: the input is refused, a call of the storage has failed, what is
  -- to be changed is not there, or a datasource is in use.
  pub data Failed : Change → Catalogue B → Type 0 where
    no_fields :
        {input : CreateModelInput} {s : Catalogue B}
        → input.measures ≡ []
        → input.dimensions ≡ []
        → Failed (create_model input) s
    bad_input :
        {input : CreateModelInput} {s : Catalogue B} {e : ToolError}
        → new_model input ≡ err e
        → Failed (create_model input) s
    not_created :
        {input : CreateModelInput} {s : Catalogue B} {m : Model} {e : String}
        → new_model input ≡ ok m
        → (backend.create_model m s.storage).0 ≡ err e
        → Failed (create_model input) s
    not_read :
        {input : UpdateModelInput} {s : Catalogue B} {e : String}
        → (backend.get_model input.name s.storage).0 ≡ err e
        → Failed (update_model input) s
    not_found :
        {input : UpdateModelInput} {s : Catalogue B}
        → (backend.get_model input.name s.storage).0 ≡ ok none
        → Failed (update_model input) s
    bad_changes :
        {input : UpdateModelInput} {s : Catalogue B} {old : Model} {e : ToolError}
        → (backend.get_model input.name s.storage).0 ≡ ok (some old)
        → changed_model input old ≡ err e
        → Failed (update_model input) s
    not_updated :
        {input : UpdateModelInput} {s : Catalogue B} {old m : Model} {b : B} {e : String}
        → backend.get_model input.name s.storage ≡ (ok (some old), b)
        → changed_model input old ≡ ok m
        → (backend.update_model input.name m b).0 ≡ err e
        → Failed (update_model input) s
    not_deleted :
        {name : String} {datasource : Option String} {s : Catalogue B} {e : String}
        → (backend.delete_model name datasource s.storage).0 ≡ err e
        → Failed (delete_model name datasource) s
    absent :
        {name : String} {datasource : Option String} {s : Catalogue B}
        → (backend.delete_model name datasource s.storage).0 ≡ ok false
        → Failed (delete_model name datasource) s
    datasource_not_created :
        {input : CreateDatasourceInput} {s : Catalogue B} {e : String}
        → (backend.create_datasource (described input) s.storage).0 ≡ err e
        → Failed (create_datasource input) s
    datasource_not_read :
        {input : UpdateDatasourceInput} {s : Catalogue B} {e : String}
        → (backend.get_datasource input.name s.storage).0 ≡ err e
        → Failed (update_datasource input) s
    datasource_not_found :
        {input : UpdateDatasourceInput} {s : Catalogue B}
        → (backend.get_datasource input.name s.storage).0 ≡ ok none
        → Failed (update_datasource input) s
    datasource_not_updated :
        {input : UpdateDatasourceInput} {s : Catalogue B} {old : DataSource} {b : B} {e : String}
        → backend.get_datasource input.name s.storage ≡ (ok (some old), b)
        → (backend.update_datasource input.name (redescribed input old) b).0 ≡ err e
        → Failed (update_datasource input) s
    models_not_listed :
        {name : String} {s : Catalogue B} {e : String}
        → (backend.list_models s.storage).0 ≡ err e
        → Failed (delete_datasource name) s
    in_use :
        {name : String} {s : Catalogue B} {ms : List Model}
        → (backend.list_models s.storage).0 ≡ ok ms
        → ¬ IsUnread name ms
        → Failed (delete_datasource name) s
    datasource_not_deleted :
        {name : String} {s : Catalogue B} {ms : List Model} {b : B} {e : String}
        → backend.list_models s.storage ≡ (ok ms, b)
        → (backend.delete_datasource name b).0 ≡ err e
        → Failed (delete_datasource name) s
    datasource_absent :
        {name : String} {s : Catalogue B} {ms : List Model} {b : B}
        → backend.list_models s.storage ≡ (ok ms, b)
        → (backend.delete_datasource name b).0 ≡ ok false
        → Failed (delete_datasource name) s
