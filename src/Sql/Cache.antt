-- ===== src/Sql/Cache.antt =====
-- crates/graphnight-sql/src/cache.rs: the hash of the cache keys and the two caches. The map of the crate
-- lru is an interface; the clock is a number of milliseconds.
pub mod Keys
pub mod Store
use graphnight.Base.{
  ℕ, ◌+◌, ◌-◌, ◌%◌, ◌^◌, String, Bool, true, false, Option, none, some, List, if◌then◌else◌, leb,
}
use graphnight.Sql.Cache.Store.{Lru}
use graphnight.Sql.Plan.{GeneratedSql}

-- `fetch_add(n)` on an `AtomicU64`.
abbrev pub fetch_add : ℕ → ℕ → ℕ
fetch_add n counter = (counter + n) % 2 ^ 64

pub record ResultEntry (R : Type 0) : Type 0 where
  pub rows : R
  pub inserted_at : ℕ

pub record PlanCache (S : Type 0) : Type 0 where
  pub inner : S
  pub hits : ℕ
  pub misses : ℕ

pub record ResultCache (S : Type 0) : Type 0 where
  pub inner : S
  pub ttl : ℕ
  pub hits : ℕ
  pub misses : ℕ

module _ {S : Type 0} (lru : Lru S GeneratedSql) where
  -- `PlanCache::new`, `get` and `insert`.
  abbrev pub new_plan_cache : ℕ → PlanCache S
  new_plan_cache capacity = record {
    inner = lru.new (if leb capacity 1 then 1 else capacity);
    hits = 0;
    misses = 0;
  }

  abbrev pub plan_counted :
      Option GeneratedSql → S → PlanCache S → Option GeneratedSql × PlanCache S
  plan_counted (some sql) inner cache =
      (some sql, record cache { inner = inner; hits = fetch_add 1 cache.hits })
  plan_counted none inner cache =
      (none, record cache { inner = inner; misses = fetch_add 1 cache.misses })

  unfoldable pub plan_get : ℕ → PlanCache S → Option GeneratedSql × PlanCache S
  plan_get key cache =
      let (found, inner) = lru.get key cache.inner in plan_counted found inner cache

  unfoldable pub plan_insert : ℕ → GeneratedSql → PlanCache S → PlanCache S
  plan_insert key sql cache = record cache { inner = lru.put key sql cache.inner }

module _ {S R : Type 0} (lru : Lru S (ResultEntry R)) where
  -- `ResultCache::new`, `get_maps`, `insert_maps` and `invalidate_all`.
  abbrev pub new_result_cache : ℕ → ℕ → ResultCache S
  new_result_cache capacity ttl = record {
    inner = lru.new (if leb capacity 1 then 1 else capacity);
    ttl = ttl;
    hits = 0;
    misses = 0;
  }

  unfoldable pub missed : S → ResultCache S → Option R × ResultCache S
  missed inner cache = (none, record cache { inner = inner; misses = fetch_add 1 cache.misses })

  -- An entry that is too old is taken out.
  unfoldable pub entry_at :
      ℕ → ℕ → Option (ResultEntry R) → S → ResultCache S → Option R × ResultCache S
  unfolding missed
  entry_at now key none inner cache = missed inner cache
  entry_at now key (some entry) inner cache =
      if leb (now - entry.inserted_at) cache.ttl
      then (some entry.rows, record cache { inner = inner; hits = fetch_add 1 cache.hits })
      else missed (lru.pop key inner) cache

  unfoldable pub get_maps : ℕ → ℕ → ResultCache S → Option R × ResultCache S
  unfolding entry_at
  get_maps now key cache =
      let (found, inner) = lru.get key cache.inner in entry_at now key found inner cache

  unfoldable pub insert_maps : ℕ → ℕ → R → ResultCache S → ResultCache S
  insert_maps now key rows cache = record cache {
    inner = lru.put key (record { rows = rows; inserted_at = now }) cache.inner;
  }

  unfoldable pub invalidate_all : ResultCache S → ResultCache S
  invalidate_all cache = record cache { inner = lru.clear cache.inner }
