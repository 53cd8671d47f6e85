-- ===== src/Storage/Backend.antt =====
-- The data of crates/graphnight-storage/src/backend.rs, and `StorageError` of
-- crates/graphnight-core/src/errors.rs, where the errors of other crates are their texts.
use graphnight.Base.{ℕ, String, Option, List}
use graphnight.Core.Models.{Model, DataSource}
use graphnight.Runtime.Memory.{Memory}

pub data StorageError : Type 0 where
  model_not_found model_exists datasource_not_found datasource_exists : String → StorageError
  invalid_query backend_error serialization yaml_serialization io sql : String → StorageError
  internal tantivy query_parser : String → StorageError

pub record StorageBackup : Type 0 where
  pub version : String
  pub created_at : ℕ
  pub models : List Model
  pub datasources : List DataSource
  pub memories : List Memory
  pub datasource_priority : List String

pub record MemoryFilter : Type 0 where
  pub query : Option String
  pub entity : Option String
  pub limit : Option ℕ
  pub offset : Option ℕ

-- The score is a sum of the whole numbers 10, 5, 3 and 2, which floating-point numbers of 32 bits add
-- exactly below 2 ^ 24.
pub record SearchResult : Type 0 where
  pub model_name : String
  pub datasource : String
  pub score : ℕ
  pub matched_fields : List String
  pub snippet : String
