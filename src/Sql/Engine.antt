-- ===== src/Sql/Engine.antt =====
-- crates/graphnight-sql/src/lib.rs: the engine, which plans a statement through the plan
-- cache and runs it through the result cache. The text of a query, the maps of the caches and the
-- executor are the engine's environment.
pub mod Metrics
pub mod Plans
pub mod Keys
pub mod Stale
pub mod Recent
pub mod Results
use graphnight.Base.{
  ℕ, ◌+◌, ◌%◌, ◌^◌, String, Option, none, some, List, [], ◌∷◌, Result, ok, err, ◌+s◌, show,
  unwrap_or, or_option, length,
}
use graphnight.Core.Models.{Value, Model, DataSource, Query, SourceSpec}
use graphnight.Sql.Plan.{GeneratedSql}
use graphnight.Sql.Dialects.{Dialect}
use graphnight.Sql.Generator
use graphnight.Sql.Generator.{SqlGenerator, SqlError, new_generator, resolved_dialect_name}
use graphnight.Sql.Generator.Build.{Libraries, generate}
use graphnight.Sql.Cache.{
  PlanCache, ResultCache, ResultEntry, fetch_add, new_plan_cache, plan_get, plan_insert,
  new_result_cache, get_maps, insert_maps, invalidate_all,
}
use graphnight.Sql.Engine.Metrics.{QueryMetrics, new_metrics, inc_queries, inc_errors, add_rows}
use graphnight.Sql.Cache.Store.{Lru}
use graphnight.Sql.Cache.Keys.{new_hasher, feed_str, hash_bytes, canonical_query_bytes, hex16}

pub data EngineError : Type 0 where
  not_serialized : String → EngineError
  not_generated : SqlError → EngineError

-- `serde_json::to_string` of a query, and the crates that the generator uses.
pub record PlanEnv : Type 0 where
  pub query_json : Query → Result String String
  pub libraries : Libraries

-- The state of a `SqlEngine`; `S` and `T` are the maps of its caches.
pub record SqlEngine (S T : Type 0) : Type 0 where
  pub generator : SqlGenerator
  pub plan_cache : PlanCache S
  pub result_cache : ResultCache T
  pub metrics : QueryMetrics
  pub policy_fingerprint : String

abbrev pub new_engine :
    {S T R : Type 0} → Lru S GeneratedSql → Lru T (ResultEntry R) → Dialect → SqlEngine S T
new_engine plans results dialect = record {
  generator = new_generator dialect;
  plan_cache = new_plan_cache plans 512;
  result_cache = new_result_cache results 256 60_000;
  metrics = new_metrics;
  policy_fingerprint = "";
}

-- The hash of three texts, one behind the other.
unfoldable pub key_of : String → String → String → ℕ
key_of a b c = feed_str (feed_str (feed_str new_hasher a) b) c

module _ {S T : Type 0} where
  abbrev pub with_policy_fingerprint : String → SqlEngine S T → SqlEngine S T
  with_policy_fingerprint fingerprint e = record e { policy_fingerprint = fingerprint }

  unfoldable pub register_model : Model → SqlEngine S T → SqlEngine S T
  register_model m e = record e { generator = Generator.register_model e.generator m }

  unfoldable pub unregister_model : String → SqlEngine S T → SqlEngine S T
  unregister_model name e = record e { generator = Generator.unregister_model e.generator name }

  abbrev pub with_models : List Model → SqlEngine S T → SqlEngine S T
  with_models models e = record e { generator = Generator.with_models e.generator models }

  abbrev pub with_datasources : List DataSource → SqlEngine S T → SqlEngine S T
  with_datasources sources e = record e {
    generator = Generator.with_datasources e.generator sources;
  }

  unfoldable pub plan_key : SqlEngine S T → Query → String → ℕ
  plan_key e query json = key_of (resolved_dialect_name e.generator query) e.policy_fingerprint json

module _ {S T : Type 0} (env : PlanEnv) (lru : Lru S GeneratedSql) where
  -- A statement that was generated goes into the cache.
  unfoldable pub plan_stored :
      ℕ
      → Result SqlError GeneratedSql
      → SqlEngine S T
      → Result EngineError GeneratedSql × SqlEngine S T
  plan_stored key (ok sql) e =
      (ok sql, record e { plan_cache = plan_insert lru key sql e.plan_cache })
  plan_stored key (err failure) e = (err (not_generated failure), e)

  unfoldable pub plan_found :
      Query
      → ℕ
      → Option GeneratedSql
      → SqlEngine S T
      → Result EngineError GeneratedSql × SqlEngine S T
  plan_found query key (some sql) e = (
    ok sql,
    record e {
      metrics = record e.metrics { plan_cache_hits = fetch_add 1 e.metrics.plan_cache_hits };
    },
  )
  plan_found query key none e =
      plan_stored key (generate env.libraries e.generator query) (record e {
        metrics = record e.metrics { plan_cache_misses = fetch_add 1 e.metrics.plan_cache_misses };
      })

  unfoldable pub plan_with :
      Query → Result String String → SqlEngine S T → Result EngineError GeneratedSql × SqlEngine S T
  plan_with query (err failure) e = (err (not_serialized failure), e)
  plan_with query (ok json) e =
      let key = plan_key e query json in
      let (found, cache) = plan_get lru key e.plan_cache in
      plan_found query key found (record e { plan_cache = cache })

  unfoldable pub generate_sql :
      Query → SqlEngine S T → Result EngineError GeneratedSql × SqlEngine S T
  generate_sql query e = plan_with query (env.query_json query) e

-- The rows of a statement on a datasource, and the clock, in a world that both may change.
pub record Executor (W R : Type 0) : Type 0 where
  pub execute_streaming_collect : DataSource → String → W → Result String (List R) × W
  pub now : W → ℕ

module _ {S T W R : Type 0} (ex : Executor W R) (lru : Lru T (ResultEntry (List R))) where
  -- Rows that were fetched go into the cache, with the time.
  unfoldable pub rows_stored :
      ℕ → Result String (List R) → SqlEngine S T → W → Result String (List R) × SqlEngine S T × W
  rows_stored key (ok rows) e w = (
    ok rows,
    record e {
      metrics = add_rows (length rows) e.metrics;
      result_cache = insert_maps lru (ex.now w) key rows e.result_cache;
    },
    w,
  )
  rows_stored key (err failure) e w = (err failure, record e { metrics = inc_errors e.metrics }, w)

  unfoldable pub rows_found :
      DataSource
      → String
      → ℕ
      → Option (List R)
      → SqlEngine S T
      → W
      → Result String (List R) × SqlEngine S T × W
  rows_found ds sql key (some rows) e w = (
    ok rows,
    record e {
      metrics =
          add_rows (length rows)
            (record e.metrics { result_cache_hits = fetch_add 1 e.metrics.result_cache_hits });
    },
    w,
  )
  rows_found ds sql key none e w =
      let (answer, w') = ex.execute_streaming_collect ds sql w in
      rows_stored key answer
        (record e {
          metrics = record e.metrics {
            result_cache_misses = fetch_add 1 e.metrics.result_cache_misses;
          };
        })
        w'

  unfoldable pub execute_sqlx :
      DataSource → String → SqlEngine S T → W → Result String (List R) × SqlEngine S T × W
  execute_sqlx ds sql e w =
      let key = key_of ds.name e.policy_fingerprint sql in
      let (found, cache) = get_maps lru (ex.now w) key e.result_cache in
      rows_found ds sql key found
        (record e { metrics = inc_queries e.metrics; result_cache = cache }) w

  unfoldable pub invalidate_result_cache : SqlEngine S T → SqlEngine S T
  invalidate_result_cache e = record e { result_cache = invalidate_all lru e.result_cache }

-- `query_model_name`, `query_fingerprint` and `short_hash`, which name spans.
unfoldable pub query_model_name : Query → String
query_model_name query =
    unwrap_or (or_option query.name (source_name query.source_model)) "<unnamed>"
  where
    source_name : Option SourceSpec → Option String
    source_name none = none
    source_name (some s) = some s.model

unfoldable pub query_fingerprint : (Value → String) → Query → String
query_fingerprint to_string query = hex16 (hash_bytes (canonical_query_bytes to_string query))

unfoldable pub short_hash : String → String
short_hash input = hex16 (feed_str new_hasher input)
