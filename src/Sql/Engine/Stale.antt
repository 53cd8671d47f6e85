-- ===== src/Sql/Engine/Stale.antt =====
-- What the plan cache of the engine answers after the models have changed.
use graphnight.Base.{
  ℕ, ◌≡◌, refl, sym, ap, ◌∙◌, String, Option, none, some, Result, ok, err, ok_inj,
}
use graphnight.Core.Models.{Model, Query}
use graphnight.Sql.Plan.{GeneratedSql}
use graphnight.Sql.Generator
use graphnight.Sql.Generator.{SqlError, resolved_dialect_name}
use graphnight.Sql.Cache.{plan_get, plan_insert}
use graphnight.Sql.Cache.Store.{Lru, IsLru}
use graphnight.Sql.Engine.{
  SqlEngine, PlanEnv, plan_key, plan_stored, plan_with, plan_found, generate_sql, register_model,
}
use graphnight.Sql.Engine.Plans.{plan_get-find}

module _ {S T : Type 0} (env : PlanEnv) (lru : Lru S GeneratedSql)
    (find : S → ℕ → Option GeneratedSql) (laws : IsLru lru find) (sql : GeneratedSql) where
  -- The engine finds the statement under the key, and is otherwise as it was.
  abbrev Kept : ℕ → SqlEngine S T → SqlEngine S T → Type 0
  Kept key e e' =
      (find e'.plan_cache.inner key ≡ some sql)
      × (e'.generator ≡ e.generator)
      × (e'.policy_fingerprint ≡ e.policy_fingerprint)

  plan_stored-Kept :
      (key : ℕ) (r : Result SqlError GeneratedSql) (e : SqlEngine S T)
      → (plan_stored env lru key r e).0 ≡ ok sql
      → Kept key e (plan_stored env lru key r e).1
  unfolding plan_stored plan_insert
  plan_stored-Kept key (ok other) e h =
      (laws.put_same key other e.plan_cache.inner ∙ ap some (ok_inj h), refl, refl)
  plan_stored-Kept key (err failure) e h = cc

  plan_found-Kept :
      (q : Query) (key : ℕ) (found : Option GeneratedSql) (e : SqlEngine S T)
      → find e.plan_cache.inner key ≡ found
      → (plan_found env lru q key found e).0 ≡ ok sql
      → Kept key e (plan_found env lru q key found e).1
  unfolding plan_found
  plan_found-Kept q key (some other) e f h = (f ∙ ap some (ok_inj h), refl, refl)
  plan_found-Kept q key none e f h = plan_stored-Kept key _ _ h

  generate_sql-Kept :
      (q : Query) (json : String) (e : SqlEngine S T)
      → env.query_json q ≡ ok json
      → (generate_sql env lru q e).0 ≡ ok sql
      → Kept (plan_key e q json) e (generate_sql env lru q e).1
  unfolding generate_sql plan_with plan_key
  generate_sql-Kept q json e x = rw x (λ h.
      let (a, b) = plan_get-find lru find laws (plan_key e q json) e.plan_cache in
      plan_found-Kept q (plan_key e q json) _ _ (b _ ∙ sym a) h)

  -- A statement that is found is the answer.
  generate_sql-found :
      (q : Query) (json : String) (e : SqlEngine S T)
      → env.query_json q ≡ ok json
      → find e.plan_cache.inner (plan_key e q json) ≡ some sql
      → (generate_sql env lru q e).0 ≡ ok sql
  unfolding generate_sql plan_with plan_found plan_key
  generate_sql-found q json e x f =
      let (a, b) = plan_get-find lru find laws (plan_key e q json) e.plan_cache in
      let hit : (plan_get lru (plan_key e q json) e.plan_cache).0 ≡ some sql = a ∙ f in
      rw (x, hit) refl

-- A statement that was planned once is answered again after a model is registered, where the dialect of
-- the query stays the same: the new definition of the model is not read.
pub generate_sql-register_model :
    {S T : Type 0} (env : PlanEnv) (lru : Lru S GeneratedSql) (find : S → ℕ → Option GeneratedSql)
    (q : Query) (json : String) (sql : GeneratedSql) (m : Model) (e : SqlEngine S T)
    → IsLru lru find
    → env.query_json q ≡ ok json
    → (generate_sql env lru q e).0 ≡ ok sql
    → resolved_dialect_name (Generator.register_model e.generator m) q
      ≡ resolved_dialect_name e.generator q
    → (generate_sql env lru q (register_model m (generate_sql env lru q e).1)).0 ≡ ok sql
unfolding register_model plan_key
generate_sql-register_model env lru find q json sql m e laws x h same =
    let (f, eg, ef) = generate_sql-Kept env lru find laws sql q json e x h in
    generate_sql-found env lru find laws sql q json _ x (rw (eg, ef, same) f)
