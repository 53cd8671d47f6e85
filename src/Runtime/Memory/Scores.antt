-- ===== src/Runtime/Memory/Scores.antt =====
-- The score of a memory and the order of `ranked` in memory.rs.
use Prim.Native.Nat.{Ordering}
use graphnight.Base.{
  ℕ, ◌-◌, ◌/◌, code, String, Bool, true, false, not, Option, none, some, List, [], ◌∷◌, keep,
  length, ◌+s◌, ◌==◌, if◌then◌else◌, join, contains_text, is_whitespace, prepend,
}
use graphnight.Runtime.Context.{CallContext}
use graphnight.Runtime.Suggest.Scalars.{lower}
use graphnight.Runtime.Memory.{MemoryRecord, Floats, visible_to}

-- The parts between white space.
split_space : String → List String
split_space String.[] = "" ∷ []
split_space (String.◌∷◌ c s) =
    let rest = split_space s in if is_whitespace (code c) then "" ∷ rest else prepend c rest

unfoldable pub split_whitespace : String → List String
unfolding split_space
split_whitespace s = keep (λ p. not (p == "")) (split_space s)

module _ {F : Type 0} (floats : Floats F) where
  -- The share of the terms that the text or the entities contain, doubled.
  hit_score : MemoryRecord F → List String → F → F
  hit_score r [] score = score
  hit_score r (t ∷ terms) score =
      let haystack = lower (r.text +s " " +s join " " r.linked_entities) in
      let hits = length (keep (λ term. contains_text (lower term) haystack) (t ∷ terms)) in
      floats.add score (
        floats.mul (floats.div (floats.of_nat hits) (floats.of_nat (length (t ∷ terms))))
          (floats.of_nat 2))

  unfoldable pub rank_score : ℕ → List String → MemoryRecord F → F
  unfolding hit_score
  rank_score now terms r =
      let age_days = floats.of_nat ((now - r.created_at) / 86_400_000) in
      floats.add (hit_score r terms r.importance)
        (floats.div (floats.of_nat 1) (floats.add (floats.of_nat 1) age_days))

  is_greater : Option Ordering → Bool
  is_greater none = false
  is_greater (some Ordering.lt) = false
  is_greater (some Ordering.eq) = false
  is_greater (some Ordering.gt) = true

  -- The comparison of the sort: `a` comes behind `b` if the score of `b` is the greater one.
  unfoldable pub comes_behind : ℕ → List String → MemoryRecord F → MemoryRecord F → Bool
  unfolding is_greater
  comes_behind now terms a b =
      is_greater (floats.compare (rank_score now terms b) (rank_score now terms a))

  -- A stable sort.
  unfoldable pub insert_ranked :
      ℕ → List String → MemoryRecord F → List (MemoryRecord F) → List (MemoryRecord F)
  insert_ranked now terms a [] = a ∷ []
  insert_ranked now terms a (b ∷ bs) =
      let rest = insert_ranked now terms a bs in
      if comes_behind now terms a b then b ∷ rest else a ∷ b ∷ bs

  unfoldable pub sort_ranked : ℕ → List String → List (MemoryRecord F) → List (MemoryRecord F)
  sort_ranked now terms [] = []
  sort_ranked now terms (a ∷ rest) = insert_ranked now terms a (sort_ranked now terms rest)

  terms_of : Option String → List String
  terms_of none = []
  terms_of (some q) = split_whitespace (lower q)

  unfoldable pub ranked :
      ℕ → List (MemoryRecord F) → CallContext → Option String → List (MemoryRecord F)
  unfolding terms_of
  ranked now records ctx query =
      sort_ranked now (terms_of query)
        (keep (λ (r : MemoryRecord F). visible_to r.scope ctx) records)
