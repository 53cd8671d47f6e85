-- ===== src/Sql/Engine/Results.antt =====
-- The result cache of the engine: the rows that it serves, and their age.
use graphnight.Base.{
  ℕ, ◌-◌, ◌≤◌, ◌≡◌, refl, sym, ◌∙◌, inl, inr, Option, none, some, leb, leb-true, Bool-cases,
}
use graphnight.Sql.Cache.{ResultCache, ResultEntry, entry_at, missed, get_maps, insert_maps}
use graphnight.Sql.Cache.Store.{Lru, IsLru}

module _ {T R : Type 0} (find : T → ℕ → Option (ResultEntry R)) (P : ℕ → R → ℕ → Type 0) where
  -- Every entry of the map has the property, with its key and the time of its insertion.
  abbrev pub Entries : T → Type 0
  Entries t =
      (k : ℕ) (entry : ResultEntry R) → find t k ≡ some entry → P k entry.rows entry.inserted_at

  -- The rows were inserted under the key at a time that is at most `ttl` ago.
  abbrev pub IsRecent : ℕ → ℕ → ℕ → R → Type 0
  IsRecent key now ttl rows = (t : ℕ) × P key rows t × (now - t ≤ ttl)

  abbrev pub Served : ℕ → ℕ → ℕ → Option R × ResultCache T → Type 0
  Served key now ttl (none, cache) = Entries cache.inner × (cache.ttl ≡ ttl)
  Served key now ttl (some rows, cache) =
      IsRecent key now ttl rows × Entries cache.inner × (cache.ttl ≡ ttl)

  module _ (lru : Lru T (ResultEntry R)) (laws : IsLru lru find) where
    entry_at-Served :
        (key now : ℕ) (found : Option (ResultEntry R)) (t : T) (cache : ResultCache T)
        → find t key ≡ found
        → Entries t
        → Served key now cache.ttl (entry_at lru now key found t cache)
    unfolding entry_at missed
    entry_at-Served key now none t cache f held = (held, refl)
    entry_at-Served key now (some entry) t cache f held =
        elim (Bool-cases (leb (now - entry.inserted_at) cache.ttl)) [
          | inl e ↦ rw e ((entry.inserted_at, held key entry f, leb-true _ _ e), held, refl)
          | inr e ↦ rw e ((λ k other g. held k other (laws.after_pop key k other t g)), refl)
        ]

    pub get_maps-Served :
        (key now : ℕ) (cache : ResultCache T)
        → Entries cache.inner
        → Served key now cache.ttl (get_maps lru now key cache)
    unfolding get_maps
    get_maps-Served key now cache held =
        entry_at-Served key now _ (lru.get key cache.inner).1 cache
          (laws.after_get key key cache.inner ∙ sym (laws.found key cache.inner))
          (λ k entry g. held k entry (sym (laws.after_get key k cache.inner) ∙ g))

    pub insert_maps-Entries :
        (key now : ℕ) (rows : R) (cache : ResultCache T)
        → P key rows now
        → Entries cache.inner
        → Entries (insert_maps lru now key rows cache).inner
    unfolding insert_maps
    insert_maps-Entries key now rows cache p held k entry g =
        elim (laws.after_put key k _ entry cache.inner g) [
          | inl (a, b) ↦ rw (a, b) p
          | inr old ↦ held k entry old
        ]
