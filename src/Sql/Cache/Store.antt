-- ===== src/Sql/Cache/Store.antt =====
-- The map of the crate lru as an interface: its operations, and what the caches rely on of them. The map
-- may drop an entry at any insertion, but it finds nothing that was not put there.
use graphnight.Base.{ℕ, ◌≡◌, ◌⊎◌, Option, none, some}

-- `get` and `put` move the entry to the front, so that they change the map.
pub record Lru (S V : Type 0) : Type 0 where
  pub new : ℕ → S
  pub get : ℕ → S → Option V × S
  pub put : ℕ → V → S → S
  pub pop : ℕ → S → S
  pub clear : S → S

-- `find` is the entry of a key, by which the laws are stated.
pub record IsLru {S V : Type 0} (lru : Lru S V) (find : S → ℕ → Option V) : Type 0 where
  pub found : (k : ℕ) (s : S) → (lru.get k s).0 ≡ find s k
  pub after_get : (k j : ℕ) (s : S) → find (lru.get k s).1 j ≡ find s j
  pub after_put :
      (k j : ℕ) (v w : V) (s : S)
      → find (lru.put k v s) j ≡ some w
      → ((j ≡ k) × (w ≡ v)) ⊎ (find s j ≡ some w)
  pub put_same : (k : ℕ) (v : V) (s : S) → find (lru.put k v s) k ≡ some v
  pub after_pop : (k j : ℕ) (w : V) (s : S) → find (lru.pop k s) j ≡ some w → find s j ≡ some w
  pub after_clear : (j : ℕ) (s : S) → find (lru.clear s) j ≡ none
  pub empty : (j n : ℕ) → find (lru.new n) j ≡ none
