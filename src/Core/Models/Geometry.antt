-- ===== src/Core/Models/Geometry.antt =====
-- The geometry columns that a model records in its metadata: `geometry_columns`,
-- `is_geometry_column` and `mark_geometry_column` of models.rs.
use Prim.Native.String
use Prim.Native.Nat.{Ordering}
use graphnight.Base.{
  String, Bool, true, false, Option, none, some, List, [], ◌∷◌, ◌++◌, ◌==◌, contains, if◌then◌else◌,
  any, map,
}
use graphnight.Core.Models.Json.{Value, string, array, as_array, as_str, of_list}
use graphnight.Core.Models.Records.{Model}

-- `HashMap::get` and `HashMap::insert`.
unfoldable pub get_meta : String → List (String × Value) → Option Value
get_meta k [] = none
get_meta k ((j, v) ∷ m) = if j == k then some v else get_meta k m

insert_meta : String → Value → List (String × Value) → List (String × Value)
insert_meta k v [] = (k, v) ∷ []
insert_meta k v ((j, w) ∷ m) = if j == k then (k, v) ∷ m else (j, w) ∷ insert_meta k v m

abbrev pub geometry_columns_meta_key : String
geometry_columns_meta_key = "graphnight_geometry_columns"

-- `filter_map(|v| v.as_str())`.
strings : List Value → List String
strings [] = []
strings (v ∷ vs) = elim (as_str v) [ none ↦ strings vs | some s ↦ s ∷ strings vs ]

columns_of : Option Value → List String
columns_of none = []
columns_of (some v) = elim (as_array v) [ none ↦ [] | some vs ↦ strings vs ]

pub geometry_columns : Model → List String
geometry_columns m = columns_of (get_meta geometry_columns_meta_key m.meta)

is_str : String → Value → Bool
is_str column v = elim (as_str v) [ none ↦ false | some s ↦ s == column ]

listed_in : String → Option Value → Bool
listed_in column none = false
listed_in column (some v) = elim (as_array v) [ none ↦ false | some vs ↦ any (is_str column) vs ]

unfoldable pub is_geometry_column : Model → String → Bool
unfolding get_meta listed_in is_str
is_geometry_column m column = listed_in column (get_meta geometry_columns_meta_key m.meta)

le_text : String → String → Bool
le_text a b = elim (String.compare a b) [ Ordering.gt ↦ false | _ ↦ true ]

insert_sorted : String → List String → List String
insert_sorted a [] = a ∷ []
insert_sorted a (b ∷ bs) = if le_text a b then a ∷ b ∷ bs else b ∷ insert_sorted a bs

-- `columns.sort()`: a stable sort by the order of the texts.
sort : List String → List String
sort [] = []
sort (a ∷ as') = insert_sorted a (sort as')

-- `columns.dedup()`: of equal neighbours the first stays.
dedup : List String → List String
dedup [] = []
dedup (a ∷ []) = a ∷ []
dedup (a ∷ b ∷ bs) = let rest = dedup (b ∷ bs) in if a == b then rest else a ∷ rest

unfoldable pub mark_geometry_column : Model → String → Model
unfolding geometry_columns columns_of strings get_meta insert_meta sort insert_sorted le_text dedup
mark_geometry_column m column =
    let columns = geometry_columns m in
    let columns' = if contains columns column then columns else columns ++ column ∷ [] in
    record m {
      meta =
          insert_meta geometry_columns_meta_key
            (array (of_list (map string (dedup (sort columns'))))) m.meta;
    }
