-- ===== src/Tests/Engine.antt =====
-- The theorems about the SQL engine and its caches at concrete inputs.
use graphnight.Base.{
  ℕ, ◌≡◌, ◌≢◌, refl, sym, ap, ◌∙◌, inl, inr, ◌⊎◌, String, ◌+◌, length, ok_inj, Bool, true, false,
  Bool-cases, Option, none, some, List, [], ◌∷◌, Result, ok, err, map, All, if◌then◌else◌, ◌=ℕ=◌,
  ◌+s◌, arith,
}
use graphnight.Core.Models
use graphnight.Core.Models.{Value, Model, Query, DataSource}
use graphnight.Core.Formula.{Captures}
use graphnight.Sql.Plan.{GeneratedSql}
use graphnight.Sql.Dialects.{postgres}
use graphnight.Sql.Generator
use graphnight.Sql.Generator.{SqlGenerator, resolved_dialect_name}
use graphnight.Sql.Generator.Build.{Libraries, generate}
use graphnight.Sql.Cache.{ResultEntry}
use graphnight.Sql.Cache.Keys.{bytes, hash_key, hash_bytes}
use graphnight.Sql.Cache.Store.{Lru, IsLru}
use graphnight.Sql.Engine.{
  SqlEngine, EngineError, PlanEnv, Executor, new_engine, with_models, key_of, generate_sql,
  execute_sqlx, register_model,
}
use graphnight.Sql.Engine.Keys.{separated, key_of-hash_key}
use graphnight.Sql.Engine.Plans.{generate_each, plan, generate_each-plans}
use graphnight.Sql.Engine.Stale.{generate_sql-register_model}
use graphnight.Sql.Engine.Recent.{Answered, execute_each, Recent, execute_each-Recent}

key_of-hash_key_example :
    (key_of "duckdb" "a" "b{}" ≡ hash_bytes (bytes ("duckdb" +s "a" +s "b{}")))
    × (hash_key ("duckdb" ∷ "ab" ∷ "{}" ∷ [])
        ≡ hash_bytes (separated ("duckdb" ∷ "ab" ∷ "{}" ∷ [])))
key_of-hash_key_example = key_of-hash_key "duckdb" "a" "b{}" ("duckdb" ∷ "ab" ∷ "{}" ∷ [])

same_key : (k j : ℕ) → (k =ℕ= j) ≡ true → j ≡ k
same_key k j e = ground arith

key_refl : (k : ℕ) → (k =ℕ= k) ≡ true
key_refl k = ground arith

-- A map of capacity one, which keeps the entry that was put last.
module _ {V : Type 0} where
  abbrev slot_find : Option (ℕ × V) → ℕ → Option V
  slot_find none k = none
  slot_find (some (j, v)) k = if j =ℕ= k then some v else none

  abbrev slot_pop : ℕ → Option (ℕ × V) → Option (ℕ × V)
  slot_pop k none = none
  slot_pop k (some (j, v)) = if j =ℕ= k then none else some (j, v)

  abbrev one_slot : Lru (Option (ℕ × V)) V
  one_slot = record {
    new = λ n. none;
    get = λ k s. (slot_find s k, s);
    put = λ k v s. some (k, v);
    pop = slot_pop;
    clear = λ s. none;
  }

  slot_put :
      (k j : ℕ) (v w : V) (s : Option (ℕ × V))
      → slot_find (some (k, v)) j ≡ some w
      → ((j ≡ k) × (w ≡ v)) ⊎ (slot_find s j ≡ some w)
  slot_put k j v w s h = elim (Bool-cases (k =ℕ= j)) [
    | inl e ↦ let f : some v ≡ some w = rw e at h in inl (same_key k j e, cc)
    | inr e ↦ let f : ◌≡◌ {A = Option V} none (some w) = rw e at h in cc
  ]

  slot_popped :
      (k j : ℕ) (w : V) (s : Option (ℕ × V))
      → slot_find (slot_pop k s) j ≡ some w
      → slot_find s j ≡ some w
  slot_popped k j w none h = h
  slot_popped k j w (some (i, v)) h = elim (Bool-cases (i =ℕ= k)) [
    | inl e ↦ let f : ◌≡◌ {A = Option V} none (some w) = rw e at h in cc
    | inr e ↦ rw e at h
  ]

  slot_laws : IsLru one_slot slot_find
  slot_laws = record {
    found = λ k s. refl;
    after_get = λ k j s. refl;
    after_put = slot_put;
    put_same = λ k v s. rw (key_refl k) refl;
    after_pop = slot_popped;
    after_clear = λ j s. refl;
    empty = λ j n. refl;
  }

abbrev orders : String → Model
orders text = record {
  name = "orders";
  datasource = "main";
  description = none;
  measures = [];
  dimensions = [];
  time_dimensions = [];
  joins = [];
  sql = some text;
  meta = [];
}

abbrev by_status : Query
by_status = record (Models.with_name Models.new_query "orders") {
  dimensions = record { name = "status"; label = none } ∷ [];
}

abbrev env : PlanEnv
env = record {
  query_json = λ q. ok "{}";
  libraries = record {
    captures = record { agg = λ e. none; time_shift = λ e. none; ratio = λ e. none };
    to_string = λ v. "";
    values = λ models. models;
  };
}

abbrev Slot : Type 0
Slot = Option (ℕ × GeneratedSql)

abbrev RowSlot : Type 0
RowSlot = Option (ℕ × ResultEntry (List String))

abbrev engine : SqlEngine Slot RowSlot
engine = with_models (orders "SELECT 1" ∷ []) (new_engine one_slot one_slot postgres)

same_statement :
    (q r : Query)
    → q ≡ by_status
    → r ≡ by_status
    → generate env.libraries engine.generator q ≡ generate env.libraries engine.generator r
same_statement q r a b = ap (generate env.libraries engine.generator) (a ∙ sym b)

generate_each-plans_example :
    generate_each env one_slot (by_status ∷ by_status ∷ []) engine
    ≡ map (plan env engine.generator) (by_status ∷ by_status ∷ [])
generate_each-plans_example =
    generate_each-plans env one_slot slot_find 512 (λ q. q ≡ by_status) (by_status ∷ by_status ∷ [])
      engine slot_laws (λ q r json json' a b x y e. same_statement q r a b) (refl, (refl, tt)) refl

-- The executor answers the statement and takes a second.
abbrev executor : Executor ℕ String
executor = record {
  execute_streaming_collect = λ ds sql w. (ok (sql ∷ []), w + 1000);
  now = λ w. w;
}

abbrev source : DataSource
source = record {
  name = "main";
  driver = "postgres";
  connection_string = "";
  description = none;
  models = [];
  pool_size = none;
  meta = [];
}

execute_each-Recent_example :
    All
      (λ (a : Answered String).
        Recent slot_find
          (λ k rows t. length rows ≡ 1)
          60_000
          (key_of a.ds.name "" a.sql)
          a.time
          a.answer)
      (execute_each executor one_slot ((source, "SELECT 1") ∷ (source, "SELECT 1") ∷ []) engine 5)
execute_each-Recent_example =
    execute_each-Recent executor one_slot slot_find (λ k rows t. length rows ≡ 1) 256 60_000
      ((source, "SELECT 1") ∷ (source, "SELECT 1") ∷ []) engine 5 slot_laws
      (λ ds sql w rows h. let e = ok_inj h in rw (← e) refl) refl

abbrev first_sql : String
first_sql =
    "SELECT orders.\"status\" AS \"status\" FROM (SELECT 1) \"orders\"  GROUP BY orders.\"status\""

abbrev first_statement : GeneratedSql
first_statement = record { sql = first_sql; params = []; display = first_sql }

first_planned : (generate_sql env one_slot by_status engine).0 ≡ ok first_statement
unfolding generate_sql graphnight.Sql.Engine.plan_with graphnight.Sql.Engine.plan_found
    graphnight.Sql.Cache.plan_get graphnight.Sql.Engine.plan_stored generate
    Generator.resolve_source Generator.model Generator.with_models Generator.register_model
    graphnight.Sql.Generator.Build.build_logical_plan
    graphnight.Sql.Generator.Measures.build_select_items
    graphnight.Sql.Generator.Fields.field_is_geometry
    graphnight.Sql.Generator.Fields.model_has_plain_field graphnight.Base.rsplit_once
    graphnight.Sql.Generator.Filters.build_where_clause graphnight.Sql.Generator.Clauses.build_joins
    graphnight.Sql.Dialects.Statement.generate_sql graphnight.Base.contains_char
    graphnight.Base.contains_text graphnight.Base.join graphnight.Base.prepend
    graphnight.Base.replace_char graphnight.Base.show graphnight.Base.split_char
    graphnight.Base.starts_with graphnight.Base.strip_prefix graphnight.Base.strip_suffix_char
    graphnight.Base.trim graphnight.Core.Formula.needs_parse graphnight.Core.Formula.parse_measure
    graphnight.Core.JoinGraph.add_model graphnight.Core.JoinGraph.build_join_clauses
    graphnight.Core.JoinGraph.find_path graphnight.Core.JoinGraph.new_graph
    graphnight.Core.JoinGraph.resolve_joins Models.sql_function
    graphnight.Core.Models.Geometry.is_geometry_column Models.date_trunc_unit bytes
    graphnight.Sql.Cache.Keys.feed_bytes graphnight.Sql.Cache.Keys.feed_str
    graphnight.Sql.Cache.Keys.feed_u8 graphnight.Sql.Cache.plan_insert
    graphnight.Sql.Dialects.Statement.render_source graphnight.Sql.Dialects.date_trunc
    graphnight.Sql.Dialects.geometry_as_geojson graphnight.Sql.Dialects.limit_offset
    graphnight.Sql.Dialects.name graphnight.Sql.Dialects.quote_ident key_of
    graphnight.Sql.Engine.plan_key graphnight.Sql.Generator.Clauses.build_group_by
    graphnight.Sql.Generator.Clauses.build_order_by graphnight.Sql.Generator.Clauses.quote_join_on
    graphnight.Sql.Generator.Clauses.quote_qualified graphnight.Sql.Generator.Fields.qualify_field
    graphnight.Sql.Generator.Fields.time_dim_expr
    graphnight.Sql.Generator.Measures.build_measure_expression Generator.dialect_for
    resolved_dialect_name Generator.source_of
first_planned = refl

same_dialect :
    resolved_dialect_name (Generator.register_model engine.generator (orders "SELECT 2")) by_status
    ≡ resolved_dialect_name engine.generator by_status
unfolding resolved_dialect_name Generator.with_models Generator.register_model Generator.dialect_for
    Generator.resolve_source Generator.model
same_dialect = refl

generate_sql-register_model_example :
    (generate_sql env one_slot by_status
      (register_model (orders "SELECT 2") (generate_sql env one_slot by_status engine).1)).0
    ≡ ok first_statement
generate_sql-register_model_example =
    generate_sql-register_model env one_slot slot_find by_status "{}" first_statement
      (orders "SELECT 2") engine slot_laws refl first_planned same_dialect
