-- ===== src/Sql/Engine/Recent.antt =====
-- Statements that are run one after the other through the result cache of the engine.
use graphnight.Base.{
  ℕ, ◌≡◌, refl, sym, subst, ◌∙◌, String, Option, none, some, List, [], ◌∷◌, Result, ok, err, All,
  arith,
}
use graphnight.Core.Models.{DataSource}
use graphnight.Sql.Cache.{ResultCache, ResultEntry, get_maps, insert_maps, new_result_cache}
use graphnight.Sql.Cache.Store.{Lru, IsLru}
use graphnight.Sql.Engine.{SqlEngine, Executor, key_of, rows_stored, rows_found, execute_sqlx}
use graphnight.Sql.Engine.Results.{Entries, IsRecent, Served, get_maps-Served, insert_maps-Entries}

-- A statement that was run, with its answer and the time of the answer.
pub record Answered (R : Type 0) : Type 0 where
  pub ds : DataSource
  pub sql : String
  pub answer : Result String (List R)
  pub time : ℕ

module _ {S T W R : Type 0} (ex : Executor W R) (lru : Lru T (ResultEntry (List R))) where
  abbrev pub execute_each : List (DataSource × String) → SqlEngine S T → W → List (Answered R)
  execute_each [] e w = []
  execute_each ((ds, sql) ∷ rest) e w =
      let (answer, e', w') = execute_sqlx ex lru ds sql e w in
      record { ds = ds; sql = sql; answer = answer; time = ex.now w' } ∷ execute_each rest e' w'

-- An answer is an error or recent rows.
abbrev pub Recent :
    {T R : Type 0}
    → (T → ℕ → Option (ResultEntry (List R)))
    → (ℕ → List R → ℕ → Type 0)
    → ℕ
    → ℕ
    → ℕ
    → Result String (List R)
    → Type 0
Recent find P ttl key now (ok rows) = IsRecent find P key now ttl rows
Recent find P ttl key now (err failure) = Unit

-- The rows that the executor returns have the property, with their key and the time of the answer.
abbrev pub Fetches : {W R : Type 0} → Executor W R → String → (ℕ → List R → ℕ → Type 0) → Type 0
Fetches {W = W} {R = R} ex fingerprint P =
    (ds : DataSource) (sql : String) (w : W) (rows : List R)
    → (ex.execute_streaming_collect ds sql w).0 ≡ ok rows
    → P (key_of ds.name fingerprint sql) rows (ex.now (ex.execute_streaming_collect ds sql w).1)

module _ {S T W R : Type 0} (ex : Executor W R) (lru : Lru T (ResultEntry (List R)))
    (find : T → ℕ → Option (ResultEntry (List R))) (laws : IsLru lru find)
    (P : ℕ → List R → ℕ → Type 0) (fingerprint : String) (ttl : ℕ) where
  abbrev Holds : SqlEngine S T → Type 0
  Holds e =
      (e.policy_fingerprint ≡ fingerprint)
      × (e.result_cache.ttl ≡ ttl)
      × Entries find P e.result_cache.inner

  rows_stored-Holds :
      (key : ℕ) (answer : Result String (List R)) (e : SqlEngine S T) (w : W)
      → ((rows : List R) → answer ≡ ok rows → P key rows (ex.now w))
      → Holds e
      → Recent find P ttl key
          (ex.now (rows_stored ex lru key answer e w).2)
          (rows_stored ex lru key answer e w).0
        × Holds (rows_stored ex lru key answer e w).1
  unfolding rows_stored insert_maps
  rows_stored-Holds key (ok rows) e w p (ef, et, held) = (
    (ex.now w, p rows refl, omega arith),
    (
      ef,
      et,
      insert_maps-Entries find P lru laws key (ex.now w) rows e.result_cache (p rows refl) held,
    ),
  )
  rows_stored-Holds key (err failure) e w p h = (tt, h)

  rows_found-Holds :
      (ds : DataSource) (sql : String) (found : Option (List R)) (cache : ResultCache T)
      (e : SqlEngine S T) (w : W)
      → Fetches ex fingerprint P
      → Served find P (key_of ds.name fingerprint sql) (ex.now w) ttl (found, cache)
      → e.result_cache ≡ cache
      → e.policy_fingerprint ≡ fingerprint
      → Recent find P ttl
          (key_of ds.name fingerprint sql)
          (ex.now (rows_found ex lru ds sql (key_of ds.name fingerprint sql) found e w).2)
          (rows_found ex lru ds sql (key_of ds.name fingerprint sql) found e w).0
        × Holds (rows_found ex lru ds sql (key_of ds.name fingerprint sql) found e w).1
  unfolding rows_found
  rows_found-Holds ds sql (some rows) cache e w fetches (recent, held, et) x ef =
      (recent, (ef, rw x et, rw x held))
  rows_found-Holds ds sql none cache e w fetches (held, et) x ef =
      rows_stored-Holds (key_of ds.name fingerprint sql) _ _ _ (fetches ds sql w)
        (ef, rw x et, rw x held)

  execute_sqlx-Holds :
      (ds : DataSource) (sql : String) (e : SqlEngine S T) (w : W)
      → Fetches ex fingerprint P
      → Holds e
      → Recent find P ttl
          (key_of ds.name fingerprint sql)
          (ex.now (execute_sqlx ex lru ds sql e w).2)
          (execute_sqlx ex lru ds sql e w).0
        × Holds (execute_sqlx ex lru ds sql e w).1
  unfolding execute_sqlx
  execute_sqlx-Holds ds sql e w fetches (ef, et, held) = rw ef (
      rows_found-Holds ds sql _ _ _ w fetches
        (subst
          (λ n.
            Served find P (key_of ds.name fingerprint sql) (ex.now w) n
              (get_maps lru (ex.now w) (key_of ds.name fingerprint sql) e.result_cache))
          et
          (get_maps-Served find P lru laws (key_of ds.name fingerprint sql) (ex.now w)
            e.result_cache held))
        refl refl)

  execute_each-IsRecent :
      (statements : List (DataSource × String)) (e : SqlEngine S T) (w : W)
      → Fetches ex fingerprint P
      → Holds e
      → All
          (λ (a : Answered R).
            Recent find P ttl (key_of a.ds.name fingerprint a.sql) a.time a.answer)
          (execute_each ex lru statements e w)
  execute_each-IsRecent [] e w fetches h = tt
  execute_each-IsRecent ((ds, sql) ∷ rest) e w fetches h =
      let (a, h') = execute_sqlx-Holds ds sql e w fetches h in
      (a, execute_each-IsRecent rest _ _ fetches h')

-- Of the statements that run through a new result cache, every one that succeeds answers rows which the
-- executor returned for a statement with the same key, at most the cache's time to live before.
pub execute_each-Recent :
    {S T W R : Type 0} (ex : Executor W R) (lru : Lru T (ResultEntry (List R)))
    (find : T → ℕ → Option (ResultEntry (List R))) (P : ℕ → List R → ℕ → Type 0) (capacity ttl : ℕ)
    (statements : List (DataSource × String)) (e : SqlEngine S T) (w : W)
    → IsLru lru find
    → Fetches ex e.policy_fingerprint P
    → e.result_cache ≡ new_result_cache lru capacity ttl
    → All
        (λ (a : Answered R).
          Recent find P ttl (key_of a.ds.name e.policy_fingerprint a.sql) a.time a.answer)
        (execute_each ex lru statements e w)
execute_each-Recent ex lru find P capacity ttl statements e w laws fetches new =
    execute_each-IsRecent ex lru find laws P e.policy_fingerprint ttl statements e w fetches (
      refl,
      rw new refl,
      λ k entry f.
          let n : find e.result_cache.inner k ≡ none = rw new (laws.empty k _) in
          let bad : none ≡ some entry = sym n ∙ f in cc,
    )
