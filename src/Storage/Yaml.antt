-- ===== src/Storage/Yaml.antt =====
-- The storage of crates/graphnight-storage/src/yaml.rs: three maps and a list behind locks, each with its
-- file. `YamlStorage::new` also makes the directory, which the disk is taken to have.
pub mod Calls
pub mod Live
pub mod Stuck
use graphnight.Base.{
  ℕ, String, Bool, Option, some, none, List, [], Result, ok, err, ◌==◌, ◌+s◌, if◌then◌else◌,
  is_some,
}
use graphnight.Core.Models.{Model, DataSource}
use graphnight.Runtime.Memory.{Memory}
use graphnight.Storage.Backend.{
  StorageError, model_not_found, model_exists, datasource_not_found, datasource_exists,
  backend_error, serialization, io, internal, StorageBackup, MemoryFilter, SearchResult,
}
use graphnight.Storage.Table.{Table, table_values, fill}
use graphnight.Storage.Locks.{
  RwLock, new_lock, Run, waiting, finished, ◌then◌, with_state, Cell, set_content, release,
  released, with_read, with_write,
}
use graphnight.Storage.Files.{Host, Codec, Kind, persist, load_file, restore_table}
use graphnight.Storage.Search.{models_in, memories_of, search_models}

pub record YamlStorage (D : Type 0) : Type 0 where
  pub base_path : String
  pub models : RwLock (Table Model)
  pub datasources : RwLock (Table DataSource)
  pub memories : RwLock (Table Memory)
  pub priority : RwLock (List String)
  pub disk : D

abbrev pub new_storage : {D : Type 0} → String → D → YamlStorage D
new_storage base_path d = record {
  base_path = base_path;
  models = new_lock [];
  datasources = new_lock [];
  memories = new_lock [];
  priority = new_lock [];
  disk = d;
}

-- The formats of the files, the lower case of a text and the disk.
pub record Libraries (D : Type 0) : Type 0 where
  pub host : Host D
  pub models : Codec (List Model)
  pub datasources : Codec (List DataSource)
  pub memories : Codec (List Memory)
  pub priority : Codec (List String)
  pub backup : Codec StorageBackup
  pub lowercase : String → String

module _ {D : Type 0} (libs : Libraries D) where
  abbrev pub model_kind : Kind Model
  model_kind = record {
    codec = libs.models;
    name = λ m. m.name;
    exists = model_exists;
    not_found = model_not_found;
  }

  abbrev pub datasource_kind : Kind DataSource
  datasource_kind = record {
    codec = libs.datasources;
    name = λ d. d.name;
    exists = datasource_exists;
    not_found = datasource_not_found;
  }

  -- A memory is saved whatever is there, so that its errors are never used.
  abbrev pub memory_kind : Kind Memory
  memory_kind = record {
    codec = libs.memories;
    name = λ m. m.id;
    exists = internal;
    not_found = internal;
  }

  abbrev pub models_path : YamlStorage D → String
  models_path s = libs.host.path s.base_path "models.yaml"

  abbrev pub datasources_path : YamlStorage D → String
  datasources_path s = libs.host.path s.base_path "datasources.yaml"

  abbrev pub memories_path : YamlStorage D → String
  memories_path s = libs.host.path s.base_path "memories.yaml"

  abbrev pub priority_path : YamlStorage D → String
  priority_path s = libs.host.path s.base_path "priority.yaml"

module _ {D A : Type 0} where
  -- A step on one of the locks and the disk.
  unfoldable pub at_models :
      YamlStorage D → (Cell (Table Model) D → Run (Cell (Table Model) D) A) → Run (YamlStorage D) A
  at_models s f =
      with_state (λ c. record s { models = c.lock; disk = c.disk })
        (f (record { lock = s.models; disk = s.disk }))

  unfoldable pub at_datasources :
      YamlStorage D
      → (Cell (Table DataSource) D → Run (Cell (Table DataSource) D) A)
      → Run (YamlStorage D) A
  at_datasources s f =
      with_state (λ c. record s { datasources = c.lock; disk = c.disk })
        (f (record { lock = s.datasources; disk = s.disk }))

  unfoldable pub at_memories :
      YamlStorage D
      → (Cell (Table Memory) D → Run (Cell (Table Memory) D) A)
      → Run (YamlStorage D) A
  at_memories s f =
      with_state (λ c. record s { memories = c.lock; disk = c.disk })
        (f (record { lock = s.memories; disk = s.disk }))

  unfoldable pub at_priority :
      YamlStorage D → (Cell (List String) D → Run (Cell (List String) D) A) → Run (YamlStorage D) A
  at_priority s f =
      with_state (λ c. record s { priority = c.lock; disk = c.disk })
        (f (record { lock = s.priority; disk = s.disk }))

module _ {D : Type 0} (libs : Libraries D) where
  unfoldable pub load : YamlStorage D → Run (YamlStorage D) Unit
  load s =
      at_models s
        (load_file libs.host (models_path libs s) libs.models (fill (λ (m : Model). m.name)))
      then λ u s.
          at_datasources s (
            load_file libs.host (datasources_path libs s) libs.datasources
              (fill (λ (d : DataSource). d.name)))
          then λ u s.
              at_memories s (
                load_file libs.host (memories_path libs s) libs.memories
                  (fill (λ (m : Memory). m.id)))
              then λ u s.
                  at_priority s
                    (load_file libs.host (priority_path libs s) libs.priority (λ new old. new))

  -- `set_datasource_priority` and the last step of `restore`: the former drops its guard at once.
  unfoldable pub set_priority :
      List String → Cell (List String) D → String → Run (Cell (List String) D) Unit
  set_priority names c path =
      with_write libs.host.locks c
        (λ c. persist libs.host path libs.priority (λ x. x) (release (set_content names c)))

  unfoldable pub restore_priority :
      List String → Cell (List String) D → String → Run (Cell (List String) D) Unit
  restore_priority names c path =
      with_write libs.host.locks c
        (λ c. released (persist libs.host path libs.priority (λ x. x) (set_content names c)))

  backed_up : Result String Unit × D → YamlStorage D → Run (YamlStorage D) Unit
  backed_up (ok u, d) s = finished (ok u) (record s { disk = d })
  backed_up (err e, d) s = finished (err (io e)) (record s { disk = d })

  backup_text : String → Result String String → YamlStorage D → Run (YamlStorage D) Unit
  unfolding backed_up
  backup_text path (err e) s = finished (err (serialization e)) s
  backup_text path (ok text) s = backed_up (libs.host.write path text s.disk) s

  abbrev pub backup_of : ℕ → YamlStorage D → StorageBackup
  backup_of now s = record {
    version = "1";
    created_at = now;
    models = table_values s.models.content;
    datasources = table_values s.datasources.content;
    memories = table_values s.memories.content;
    datasource_priority = s.priority.content;
  }

  -- `lock.read().await` of a guard that is kept.
  unfoldable pub reading :
      {V A : Type 0} → RwLock V → YamlStorage D → Run (YamlStorage D) A → Run (YamlStorage D) A
  reading lock s next =
      if libs.host.locks.grants_read lock.readers lock.writing then next else waiting s

  unfoldable pub backup : ℕ → String → YamlStorage D → Run (YamlStorage D) Unit
  unfolding backup_text
  backup now path s = reading s.models s (
      reading s.datasources s (
        reading s.memories s
          (reading s.priority s (backup_text path (libs.backup.print (backup_of now s)) s))))

  unfoldable pub restore_backup : StorageBackup → YamlStorage D → Run (YamlStorage D) Unit
  restore_backup b s =
      at_models s (restore_table libs.host (models_path libs s) (model_kind libs) b.models)
      then λ u s.
          at_datasources s
            (restore_table libs.host (datasources_path libs s) (datasource_kind libs) b.datasources)
          then λ u s.
              at_memories s
                (restore_table libs.host (memories_path libs s) (memory_kind libs) b.memories)
              then λ u s.
                  at_priority s
                    (λ c. restore_priority b.datasource_priority c (priority_path libs s))

  restore_parsed : Result String StorageBackup → YamlStorage D → Run (YamlStorage D) Unit
  restore_parsed (err e) s = finished (err (serialization e)) s
  restore_parsed (ok b) s =
      if b.version == "1"
      then restore_backup b s
      else finished (err (backend_error ("Unsupported backup version: " +s b.version))) s

  restore_text : Result String String → YamlStorage D → Run (YamlStorage D) Unit
  unfolding restore_parsed
  restore_text (err e) s = finished (err (io e)) s
  restore_text (ok text) s = restore_parsed (libs.backup.parse text) s

  unfoldable pub restore : String → YamlStorage D → Run (YamlStorage D) Unit
  unfolding restore_text
  restore path s = restore_text (libs.host.read_to_string path s.disk) s
