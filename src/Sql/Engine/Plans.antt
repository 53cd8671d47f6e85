-- ===== src/Sql/Engine/Plans.antt =====
-- The plan cache of the engine against planning without one.
use graphnight.Base.{
  ℕ, ◌≡◌, refl, sym, ◌∙◌, inl, inr, String, Option, none, some, List, [], ◌∷◌, map, Result, ok, err,
  All,
}
use mathlib.Core.Path.{ap₂}
use graphnight.Core.Models.{Query}
use graphnight.Sql.Plan.{GeneratedSql}
use graphnight.Sql.Generator.{SqlGenerator, SqlError, resolved_dialect_name}
use graphnight.Sql.Generator.Build.{generate}
use graphnight.Sql.Cache.{PlanCache, new_plan_cache, plan_get, plan_counted, plan_insert}
use graphnight.Sql.Cache.Store.{Lru, IsLru}
use graphnight.Sql.Engine.{
  SqlEngine, EngineError, not_serialized, not_generated, PlanEnv, key_of, plan_key, plan_stored,
  plan_with, plan_found, generate_sql,
}

module _ {S T : Type 0} (env : PlanEnv) (lru : Lru S GeneratedSql) where
  -- Queries planned one after the other.
  abbrev pub generate_each : List Query → SqlEngine S T → List (Result EngineError GeneratedSql)
  generate_each [] e = []
  generate_each (q ∷ qs) e =
      let (answer, e') = generate_sql env lru q e in answer ∷ generate_each qs e'

-- Planning without a cache.
generated : Result SqlError GeneratedSql → Result EngineError GeneratedSql
generated (ok sql) = ok sql
generated (err failure) = err (not_generated failure)

serialized : PlanEnv → SqlGenerator → Query → Result String String → Result EngineError GeneratedSql
unfolding generated
serialized env g q (ok json) = generated (generate env.libraries g q)
serialized env g q (err failure) = err (not_serialized failure)

unfoldable pub plan : PlanEnv → SqlGenerator → Query → Result EngineError GeneratedSql
unfolding serialized
plan env g q = serialized env g q (env.query_json q)

-- The key of a query under a generator and a fingerprint.
abbrev pub key_under : SqlGenerator → String → Query → String → ℕ
key_under g fingerprint q json = key_of (resolved_dialect_name g q) fingerprint json

-- Of the queries of `D`, those with the same key have the same statement.
abbrev pub NoClash : PlanEnv → SqlGenerator → String → (Query → Type 0) → Type 0
NoClash env g fingerprint D =
    (q r : Query) (json json' : String)
    → D q
    → D r
    → env.query_json q ≡ ok json
    → env.query_json r ≡ ok json'
    → key_under g fingerprint q json ≡ key_under g fingerprint r json'
    → generate env.libraries g q ≡ generate env.libraries g r

module _ {S : Type 0} (lru : Lru S GeneratedSql) (find : S → ℕ → Option GeneratedSql)
    (laws : IsLru lru find) where
  plan_counted-found :
      (o : Option GeneratedSql) (s : S) (c : PlanCache S)
      → ((plan_counted lru o s c).0 ≡ o) × ((plan_counted lru o s c).1.inner ≡ s)
  plan_counted-found none s c = (refl, refl)
  plan_counted-found (some sql) s c = (refl, refl)

  -- A lookup finds what the map holds and keeps what it would find.
  pub plan_get-find :
      (key : ℕ) (c : PlanCache S)
      → ((plan_get lru key c).0 ≡ find c.inner key)
        × ((k : ℕ) → find (plan_get lru key c).1.inner k ≡ find c.inner k)
  unfolding plan_get
  plan_get-find key c =
      let (a, b) = plan_counted-found (lru.get key c.inner).0 (lru.get key c.inner).1 c in
      (a ∙ laws.found key c.inner, λ k. rw b (laws.after_get key k c.inner))

module _ (env : PlanEnv) (g : SqlGenerator) (fingerprint : String) (D : Query → Type 0) where
  -- The statement is one that was planned for a query of `D` with that key.
  abbrev pub Planned : ℕ → GeneratedSql → Type 0
  Planned k sql =
      (q : Query) × (json : String) × D q
      × (env.query_json q ≡ ok json)
      × (key_under g fingerprint q json ≡ k)
      × (generate env.libraries g q ≡ ok sql)

  abbrev pub Holds : {S T : Type 0} → (S → ℕ → Option GeneratedSql) → SqlEngine S T → Type 0
  Holds find e =
      (e.generator ≡ g)
      × (e.policy_fingerprint ≡ fingerprint)
      × ((k : ℕ) (sql : GeneratedSql) → find e.plan_cache.inner k ≡ some sql → Planned k sql)

module _ {S T : Type 0} (env : PlanEnv) (lru : Lru S GeneratedSql)
    (find : S → ℕ → Option GeneratedSql) (laws : IsLru lru find) (g : SqlGenerator)
    (fingerprint : String) (D : Query → Type 0) where
  plan_stored-Holds :
      (q : Query) (json : String) (r : Result SqlError GeneratedSql) (e : SqlEngine S T)
      → D q
      → env.query_json q ≡ ok json
      → generate env.libraries g q ≡ r
      → Holds env g fingerprint D find e
      → ((plan_stored env lru (key_under g fingerprint q json) r e).0 ≡ generated r)
        × Holds env g fingerprint D find
            (plan_stored env lru (key_under g fingerprint q json) r e).1
  unfolding plan_stored plan_insert generated
  plan_stored-Holds q json (err failure) e d x y h = (refl, h)
  plan_stored-Holds q json (ok sql) e d x y (eg, ef, held) = (
    refl,
    (
      eg,
      ef,
      λ k s f. elim (laws.after_put (key_under g fingerprint q json) k sql s e.plan_cache.inner f) [
        | inl (a, b) ↦ (q, json, d, x, sym a, rw b y)
        | inr old ↦ held k s old
      ],
    ),
  )

  plan_found-Holds :
      (q : Query) (json : String) (found : Option GeneratedSql) (e : SqlEngine S T)
      → NoClash env g fingerprint D
      → D q
      → env.query_json q ≡ ok json
      → find e.plan_cache.inner (key_under g fingerprint q json) ≡ found
      → Holds env g fingerprint D find e
      → ((plan_found env lru q (key_under g fingerprint q json) found e).0
          ≡ generated (generate env.libraries g q))
        × Holds env g fingerprint D find
            (plan_found env lru q (key_under g fingerprint q json) found e).1
  unfolding plan_found generated
  plan_found-Holds q json (some sql) e clash d x f (eg, ef, held) =
      let (r, json', d', x', same, y) = held (key_under g fingerprint q json) sql f in
      let z : generate env.libraries g q ≡ ok sql = clash q r json json' d d' x x' (sym same) ∙ y in
      (rw z refl, (eg, ef, held))
  plan_found-Holds q json none e clash d x f (eg, ef, held) =
      rw eg (plan_stored-Holds q json (generate env.libraries g q) _ d x refl (refl, ef, held))

  plan_with-Holds :
      (q : Query) (r : Result String String) (e : SqlEngine S T)
      → NoClash env g fingerprint D
      → D q
      → env.query_json q ≡ r
      → Holds env g fingerprint D find e
      → ((plan_with env lru q r e).0 ≡ serialized env g q r)
        × Holds env g fingerprint D find (plan_with env lru q r e).1
  unfolding plan_with plan_key serialized
  plan_with-Holds q (err failure) e clash d x h = (refl, h)
  plan_with-Holds q (ok json) e clash d x (eg, ef, held) =
      let key : plan_key e q json ≡ key_under g fingerprint q json = rw (eg, ef) refl in
      let (a, b) = plan_get-find lru find laws (key_under g fingerprint q json) e.plan_cache in
      rw key (
        plan_found-Holds q json (plan_get lru (key_under g fingerprint q json) e.plan_cache).0 _
          clash d x (b _ ∙ sym a) (eg, ef, λ k sql f. held k sql (sym (b k) ∙ f)))

  generate_each-plan :
      (qs : List Query) (e : SqlEngine S T)
      → NoClash env g fingerprint D
      → All D qs
      → Holds env g fingerprint D find e
      → generate_each env lru qs e ≡ map (plan env g) qs
  unfolding plan generate_sql
  generate_each-plan [] e clash d h = refl
  generate_each-plan (q ∷ qs) e clash (d, ds) h =
      let (a, h') = plan_with-Holds q (env.query_json q) e clash d refl h in
      ap₂ ◌∷◌ a (generate_each-plan qs _ clash ds h')

-- An engine whose plan cache is new answers a sequence of queries as planning without a cache does,
-- the errors included, if the queries with the same key have the same statement. This holds for every
-- map that finds only what was put there, whatever it drops.
pub generate_each-plans :
    {S T : Type 0} (env : PlanEnv) (lru : Lru S GeneratedSql) (find : S → ℕ → Option GeneratedSql)
    (capacity : ℕ) (D : Query → Type 0) (qs : List Query) (e : SqlEngine S T)
    → IsLru lru find
    → NoClash env e.generator e.policy_fingerprint D
    → All D qs
    → e.plan_cache ≡ new_plan_cache lru capacity
    → generate_each env lru qs e ≡ map (plan env e.generator) qs
generate_each-plans env lru find capacity D qs e laws clash d new =
    generate_each-plan env lru find laws e.generator e.policy_fingerprint D qs e clash d (
      refl,
      refl,
      λ k sql f.
          let n : find e.plan_cache.inner k ≡ none = rw new (laws.empty k _) in
          let bad : none ≡ some sql = sym n ∙ f in cc,
    )
