-- ===== src/Storage/Search.antt =====
-- What crates/graphnight-storage/src/yaml.rs filters of the values of a map: `list_models`,
-- `list_memories` and `search`. Lower-casing a text is a parameter.
pub mod Ranked
use graphnight.Base.{
  ℕ, zero, suc, ◌+◌, String, Bool, true, false, Option, none, some, List, [], ◌∷◌, ◌++◌, keep,
  contains, contains_text, ◌==◌, ◌+s◌, if◌then◌else◌, take, ltb, length, unwrap_or,
}
use graphnight.Core.Models.{Model, Measure, Dimension}
use graphnight.Runtime.Memory.{Memory}
use graphnight.Storage.Backend.{MemoryFilter, SearchResult}

-- `m.datasource == ds`, where a datasource is asked for.
abbrev pub in_datasource : Option String → Model → Bool
in_datasource none m = true
in_datasource (some ds) m = m.datasource == ds

-- The test of `delete_model`, and what `get_model` answers.
abbrev pub exists_in : Option String → Option Model → Bool
exists_in datasource none = false
exists_in datasource (some m) = in_datasource datasource m

abbrev pub model_in : Option String → Option Model → Option Model
model_in datasource none = none
model_in datasource (some m) = if in_datasource datasource m then some m else none

abbrev pub models_in : Option String → List Model → List Model
models_in datasource = keep (in_datasource datasource)

-- `[offset..].to_vec()`, or nothing behind the end, and `truncate`.
abbrev pub skip : {A : Type 0} → ℕ → List A → List A
skip zero xs = xs
skip (suc n) [] = []
skip (suc n) (x ∷ xs) = skip n xs

abbrev pub from_offset : {A : Type 0} → Option ℕ → List A → List A
from_offset none xs = xs
from_offset (some n) xs = if ltb n (length xs) then skip n xs else []

abbrev pub up_to : {A : Type 0} → Option ℕ → List A → List A
up_to none xs = xs
up_to (some n) xs = take n xs

-- `sort_by` by descending scores, which keeps the order of equal ones.
unfoldable pub insert_result : SearchResult → List SearchResult → List SearchResult
insert_result r [] = r ∷ []
insert_result r (s ∷ ss) =
    let rest = insert_result r ss in if ltb r.score s.score then s ∷ rest else r ∷ s ∷ ss

unfoldable pub sort_results : List SearchResult → List SearchResult
sort_results [] = []
sort_results (r ∷ rs) = insert_result r (sort_results rs)

module _ (lowercase : String → String) where
  abbrev pub learns : Option String → Memory → Bool
  learns none m = true
  learns (some query) m = contains_text (lowercase query) (lowercase m.learning)

  abbrev pub links : Option String → Memory → Bool
  links none m = true
  links (some entity) m = contains m.linked_entities entity

  unfoldable pub memories_of : MemoryFilter → List Memory → List Memory
  memories_of filter ms =
      up_to filter.limit
        (from_offset filter.offset (keep (links filter.entity) (keep (learns filter.query) ms)))

  -- What matches, with its score.
  abbrev Matches : Type 0
  Matches = List String × ℕ

  abbrev with_match : Bool → String → ℕ → Matches → Matches
  with_match false label score (fields, total) = (fields, total)
  with_match true label score (fields, total) = (fields ++ label ∷ [], total + score)

  described_by : String → Option String → Bool
  described_by q none = false
  described_by q (some d) = contains_text q (lowercase d)

  match_measures : String → List Measure → Matches → Matches
  match_measures q [] found = found
  match_measures q (m ∷ ms) found = match_measures q ms (
      with_match (contains_text q (lowercase m.formula.expression))
        ("measure:" +s m.formula.expression) 3 found)

  match_dimensions : String → List Dimension → Matches → Matches
  match_dimensions q [] found = found
  match_dimensions q (d ∷ ds) found =
      match_dimensions q ds
        (with_match (contains_text q (lowercase d.name)) ("dimension:" +s d.name) 2 found)

  unfoldable pub matched : String → Model → Matches
  unfolding described_by match_measures match_dimensions
  matched q model = match_dimensions q model.dimensions (
      match_measures q model.measures (
        with_match (described_by q model.description) "description" 5
          (with_match (contains_text q (lowercase model.name)) "name" 10 ([], 0))))

  result_of : Model → Matches → List SearchResult
  result_of model ([], score) = []
  result_of model (field ∷ fields, score) =
      record {
        model_name = model.name;
        datasource = model.datasource;
        score = score;
        matched_fields = field ∷ fields;
        snippet = unwrap_or model.description "";
      }
      ∷ []

  unfoldable pub results_of : String → List Model → List SearchResult
  unfolding result_of
  results_of q [] = []
  results_of q (m ∷ ms) = result_of m (matched q m) ++ results_of q ms

  unfoldable pub search_models : String → ℕ → List Model → List SearchResult
  search_models query limit models = take limit (sort_results (results_of (lowercase query) models))
