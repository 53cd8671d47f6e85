-- ===== src/Storage/Search/Ranked.antt =====
-- What `search` and `list_memories` of yaml.rs show.
use graphnight.Base.{
  ℕ, zero, suc, ◌+◌, ◌≤◌, ◌≡◌, refl, ap, sym, String, Bool-cases, inl, inr, Option, some, List, [],
  ◌∷◌, ◌++◌, All, All-map, take, keep, length, ltb, ltb-true, ltb-false, arith, min,
}
use mathlib.Core.List.{Permᴰ}
use mathlib.Core.List.Permᴰ
use graphnight.Core.Models.{Model}
use graphnight.Runtime.Memory.{Memory}
use graphnight.Storage.Backend.{SearchResult}
use graphnight.Storage.Search.{
  insert_result, sort_results, results_of, search_models, skip, from_offset, memories_of, links,
  learns,
}

insert_result-Permᴰ :
    (r : SearchResult) (ss : List SearchResult) → Permᴰ (insert_result r ss) (r ∷ ss)
unfolding insert_result
insert_result-Permᴰ r [] = Permᴰ.refl (r ∷ [])
insert_result-Permᴰ r (s ∷ ss) = elim (Bool-cases (ltb r.score s.score)) [
  | inl e ↦ rw e (Permᴰ.trans (Permᴰ.cons refl (insert_result-Permᴰ r ss)) (Permᴰ.swap refl refl))
  | inr e ↦ rw e (Permᴰ.refl (r ∷ s ∷ ss))
]

sort_results-Permᴰ : (rs : List SearchResult) → Permᴰ (sort_results rs) rs
unfolding sort_results
sort_results-Permᴰ [] = Permᴰ.nil
sort_results-Permᴰ (r ∷ rs) =
    Permᴰ.trans (insert_result-Permᴰ r (sort_results rs)) (Permᴰ.cons refl (sort_results-Permᴰ rs))

-- Each score is at least those behind it.
abbrev pub Descending : List SearchResult → Type 0
Descending [] = Unit
Descending (r ∷ rs) = All (λ (s : SearchResult). s.score ≤ r.score) rs × Descending rs

insert_result-All :
    (n : ℕ) (r : SearchResult) (ss : List SearchResult)
    → r.score ≤ n
    → All (λ (s : SearchResult). s.score ≤ n) ss
    → All (λ (s : SearchResult). s.score ≤ n) (insert_result r ss)
unfolding insert_result
insert_result-All n r [] h k = (h, tt)
insert_result-All n r (s ∷ ss) h (p, k) = elim (Bool-cases (ltb r.score s.score)) [
  | inl e ↦ rw e (p, insert_result-All n r ss h k)
  | inr e ↦ rw e (h, (p, k))
]

insert_result-Descending :
    (r : SearchResult) (ss : List SearchResult) → Descending ss → Descending (insert_result r ss)
unfolding insert_result
insert_result-Descending r [] d = (tt, tt)
insert_result-Descending r (s ∷ ss) (h, d) = elim (Bool-cases (ltb r.score s.score)) [
  | inl e ↦ rw e (
    insert_result-All s.score r ss (ground (arith, ltb-true r.score s.score)) h,
    insert_result-Descending r ss d,
  )
  | inr e ↦ rw e (
    (ltb-false _ _ e, All-map _ _ (λ t k. ground (arith, ltb-false r.score s.score)) ss h),
    (h, d),
  )
]

sort_results-Descending : (rs : List SearchResult) → Descending (sort_results rs)
unfolding sort_results
sort_results-Descending [] = tt
sort_results-Descending (r ∷ rs) = insert_result-Descending r _ (sort_results-Descending rs)

take-skip : {A : Type 0} (n : ℕ) (xs : List A) → take n xs ++ skip n xs ≡ xs
take-skip zero xs = refl
take-skip (suc n) [] = refl
take-skip (suc n) (x ∷ xs) = ap (◌∷◌ x) (take-skip n xs)

length-take : {A : Type 0} (n : ℕ) (xs : List A) → length (take n xs) ≡ min n (length xs)
length-take zero xs = omega arith
length-take (suc n) [] = omega arith
length-take (suc n) (x ∷ xs) = omega (arith, length-take n xs)

-- What a search shows are the results with the greatest scores, in descending order, up to the limit: the
-- others, which it leaves out, come behind.
pub search_models-Descending :
    (lowercase : String → String) (query : String) (limit : ℕ) (ms : List Model)
    → let shown = search_models lowercase query limit ms in
      (others : List SearchResult) × Permᴰ
        (shown ++ others)
        (results_of lowercase (lowercase query) ms)
      × Descending (shown ++ others)
      × (length shown ≡ min limit (length (shown ++ others)))
unfolding search_models
search_models-Descending lowercase query limit ms =
    let sorted = sort_results (results_of lowercase (lowercase query) ms) in
    (
      skip limit sorted,
      rw (take-skip limit sorted) (sort_results-Permᴰ _),
      rw (take-skip limit sorted) (sort_results-Descending _),
      rw (take-skip limit sorted) (length-take limit sorted),
    )

skip_nothing : {A : Type 0} (n : ℕ) → skip {A = A} n [] ≡ []
skip_nothing zero = refl
skip_nothing (suc n) = refl

take_nothing : {A : Type 0} (n : ℕ) → take {A = A} n [] ≡ []
take_nothing zero = refl
take_nothing (suc n) = refl

zero_left : (n : ℕ) → 0 + n ≡ n
zero_left n = omega arith

suc_left : (m n : ℕ) → suc m + n ≡ suc (m + n)
suc_left m n = omega arith

skip-skip : {A : Type 0} (m n : ℕ) (xs : List A) → skip n (skip m xs) ≡ skip (m + n) xs
skip-skip zero n xs = rw (zero_left n) refl
skip-skip (suc m) n [] = rw (suc_left m n) (skip_nothing n)
skip-skip (suc m) n (x ∷ xs) = rw (suc_left m n) (skip-skip m n xs)

take-take : {A : Type 0} (m n : ℕ) (xs : List A) → take m xs ++ take n (skip m xs) ≡ take (m + n) xs
take-take zero n xs = rw (zero_left n) refl
take-take (suc m) n [] = rw (suc_left m n) (take_nothing n)
take-take (suc m) n (x ∷ xs) = rw (suc_left m n) (ap (◌∷◌ x) (take-take m n xs))

skip_all : {A : Type 0} (n : ℕ) (xs : List A) → length xs ≤ n → skip n xs ≡ []
skip_all zero [] h = refl
skip_all zero (x ∷ xs) h = ground arith
skip_all (suc n) [] h = refl
skip_all (suc n) (x ∷ xs) h = skip_all n xs (omega arith)

from_offset-skip : {A : Type 0} (n : ℕ) (xs : List A) → from_offset (some n) xs ≡ skip n xs
from_offset-skip n xs = elim (Bool-cases (ltb n (length xs))) [
  | inl e ↦ rw e refl
  | inr e ↦ rw e (sym (skip_all n xs (ltb-false n (length xs) e)))
]

-- Two pages of memories, the second from where the first ends, are the page of both.
pub memories_of-pages :
    (lowercase : String → String) (query entity : Option String) (offset m n : ℕ) (ms : List Memory)
    → let page : ℕ → ℕ → List Memory = λ from size.
      memories_of lowercase
        (record { query = query; entity = entity; limit = some size; offset = some from })
        ms in
      page offset m ++ page (offset + m) n ≡ page offset (m + n)
unfolding memories_of
memories_of-pages lowercase query entity offset m n ms =
    let found = keep (links lowercase entity) (keep (learns lowercase query) ms) in
    rw
      (
        from_offset-skip offset found,
        from_offset-skip (offset + m) found,
        ← skip-skip offset m found,
      )
      (take-take m n (skip offset found))
