-- ===== src/Storage/Yaml/Calls.antt =====
-- The operations of `StorageBackend` as `YamlStorage` implements them, in yaml.rs, and sequences of them.
use graphnight.Base.{ℕ, String, Bool, Option, List, [], ◌∷◌, Result, ok, is_some}
use graphnight.Core.Models.{Model, DataSource}
use graphnight.Runtime.Memory.{Memory}
use graphnight.Storage.Backend.{StorageError, MemoryFilter, SearchResult}
use graphnight.Storage.Table.{table_values}
use graphnight.Storage.Locks.{Run, finished, ◌then◌, settled, Cell, with_read}
use graphnight.Storage.Files.{Host, create, update, delete, save, lookup}
use graphnight.Storage.Search.{exists_in, model_in, models_in, memories_of, search_models}
use graphnight.Storage.Yaml.{
  YamlStorage, Libraries, model_kind, datasource_kind, memory_kind, models_path, datasources_path,
  memories_path, priority_path, at_models, at_datasources, at_memories, at_priority, load, backup,
  restore, set_priority,
}

-- The methods with their arguments, `load` included; a backup takes the time of the call.
pub data Operation : Type 0 where
  load_all : Operation
  list_models : Option String → Operation
  get_model : String → Option String → Operation
  create_model : Model → Operation
  update_model : String → Model → Operation
  delete_model : String → Option String → Operation
  list_datasources : Operation
  get_datasource : String → Operation
  create_datasource : DataSource → Operation
  update_datasource : String → DataSource → Operation
  delete_datasource : String → Operation
  get_datasource_priority : Operation
  set_datasource_priority : List String → Operation
  save_memory : Memory → Operation
  get_memory : String → Operation
  list_memories : MemoryFilter → Operation
  delete_memory : String → Operation
  index_model : Model → Operation
  search : String → ℕ → Operation
  backup_to : ℕ → String → Operation
  restore_from : String → Operation

-- What they answer.
pub data Answer : Type 0 where
  models : List Model → Answer
  maybe_model : Option Model → Answer
  model : Model → Answer
  datasources : List DataSource → Answer
  maybe_datasource : Option DataSource → Answer
  datasource : DataSource → Answer
  names : List String → Answer
  maybe_memory : Option Memory → Answer
  memories : List Memory → Answer
  memory : Memory → Answer
  was_there : Bool → Answer
  results : List SearchResult → Answer
  done : Answer

abbrev pub answer : {S A : Type 0} → (A → Answer) → Run S A → Run S Answer
answer f run = run then λ a s. finished (ok (f a)) s

-- An operation that reads one map.
abbrev pub read_values : {V D A : Type 0} → Host D → (V → A) → Cell V D → Run (Cell V D) A
read_values host f c = with_read host.locks c (λ c. finished (ok (f c.lock.content)) c)

module _ {D : Type 0} (libs : Libraries D) where
  unfoldable pub perform : Operation → YamlStorage D → Run (YamlStorage D) Answer
  perform load_all s = answer (λ u. done) (load libs s)
  perform (list_models ds) s =
      answer models (at_models s (read_values libs.host (λ t. models_in ds (table_values t))))
  perform (get_model name ds) s =
      answer maybe_model (at_models s (lookup libs.host (model_in ds) name))
  perform (create_model m) s =
      answer model (at_models s (create libs.host (models_path libs s) (model_kind libs) m))
  perform (update_model name m) s =
      answer model (at_models s (update libs.host (models_path libs s) (model_kind libs) name m))
  perform (delete_model name ds) s =
      answer was_there
        (at_models s (delete libs.host (models_path libs s) (model_kind libs) (exists_in ds) name))
  perform list_datasources s =
      answer datasources (at_datasources s (read_values libs.host table_values))
  perform (get_datasource name) s =
      answer maybe_datasource (at_datasources s (lookup libs.host (λ o. o) name))
  perform (create_datasource d) s =
      answer datasource
        (at_datasources s (create libs.host (datasources_path libs s) (datasource_kind libs) d))
  perform (update_datasource name d) s =
      answer datasource (
        at_datasources s (update libs.host (datasources_path libs s) (datasource_kind libs) name d))
  perform (delete_datasource name) s = answer was_there (
      at_datasources s
        (delete libs.host (datasources_path libs s) (datasource_kind libs) is_some name))
  perform get_datasource_priority s = answer names (at_priority s (read_values libs.host (λ p. p)))
  perform (set_datasource_priority p) s =
      answer (λ u. done) (at_priority s (λ c. set_priority libs p c (priority_path libs s)))
  perform (save_memory m) s =
      answer memory (at_memories s (save libs.host (memories_path libs s) (memory_kind libs) m))
  perform (get_memory id) s = answer maybe_memory (at_memories s (lookup libs.host (λ o. o) id))
  perform (list_memories filter) s = answer memories (
      at_memories s
        (read_values libs.host (λ t. memories_of libs.lowercase filter (table_values t))))
  perform (delete_memory id) s =
      answer was_there
        (at_memories s (delete libs.host (memories_path libs s) (memory_kind libs) is_some id))
  perform (index_model m) s = finished (ok done) s
  perform (search query limit) s = answer results (
      at_models s
        (read_values libs.host (λ t. search_models libs.lowercase query limit (table_values t))))
  perform (backup_to now path) s = answer (λ u. done) (backup libs now path s)
  perform (restore_from path) s = answer (λ u. done) (restore libs path s)

  -- One operation behind the other, whatever each answers: the answers, and whether one waits.
  unfoldable pub perform_all :
      List Operation → YamlStorage D → Run (YamlStorage D) (List (Result StorageError Answer))
  perform_all [] s = finished (ok []) s
  perform_all (op ∷ ops) s =
      settled (perform op s) (λ r s. perform_all ops s then λ rs s. finished (ok (r ∷ rs)) s)
