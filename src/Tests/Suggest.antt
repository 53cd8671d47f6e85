-- ===== src/Tests/Suggest.antt =====
-- The theorems about the suggestions of crates/graphnight-runtime at concrete inputs.
use mathlib.Core.List.{Permᴰ}
use graphnight.Base.{◌≡◌, refl, String, List, [], ◌∷◌, ◌++◌, min, All, length}
use graphnight.Runtime.Suggest.Distance.{edit_distance, lower_codes, closest_matches}
use graphnight.Runtime.Suggest.Distance.Closest.{
  IsSuggestion, Nearest, close_names, closest_matches-Nearest,
}
use graphnight.Runtime.Suggest.Table.{levenshtein, reverse_onto, edit_distance-levenshtein}

edit_distance-levenshtein_example :
    edit_distance "Kitten" "sitting"
    ≡ levenshtein (reverse_onto (lower_codes "Kitten") []) (reverse_onto (lower_codes "sitting") [])
edit_distance-levenshtein_example = edit_distance-levenshtein "Kitten" "sitting"

one_edit : edit_distance "ab" "Ac" ≡ 1
unfolding edit_distance graphnight.Runtime.Suggest.Distance.distance
    graphnight.Runtime.Suggest.Distance.last_of graphnight.Runtime.Suggest.Distance.rows
    graphnight.Runtime.Suggest.Distance.next_row graphnight.Runtime.Suggest.Distance.from_to
    graphnight.Runtime.Suggest.Distance.fill graphnight.Runtime.Suggest.Distance.cost
one_edit = refl

abbrev known : List String
known = "status" ∷ "revenue" ∷ "total_revenue" ∷ []

closest_matches-Nearest_example :
    let shown = closest_matches "revenu" known 3 in
    (others : List String) × Permᴰ (shown ++ others) (close_names "revenu" known)
    × Nearest "revenu" (shown ++ others)
    × All (IsSuggestion "revenu" known) (shown ++ others)
    × (length shown ≡ min 3 (length (shown ++ others)))
closest_matches-Nearest_example = closest_matches-Nearest "revenu" known 3

revenue_first : closest_matches "revenu" known 3 ≡ "revenue" ∷ "total_revenue" ∷ []
unfolding closest_matches graphnight.Runtime.Suggest.Distance.is_close edit_distance
    graphnight.Runtime.Suggest.Distance.distance graphnight.Runtime.Suggest.Distance.last_of
    graphnight.Runtime.Suggest.Distance.rows graphnight.Runtime.Suggest.Distance.next_row
    graphnight.Runtime.Suggest.Distance.from_to graphnight.Runtime.Suggest.Distance.fill
    graphnight.Runtime.Suggest.Distance.cost
revenue_first = refl
