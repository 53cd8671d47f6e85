-- ===== src/Runtime/Suggest/Table.antt =====
-- The two rows of `edit_distance` of suggest.rs against the recursive distance.
use graphnight.Base.{
  ℕ, suc, ◌+◌, min, ◌≡◌, refl, sym, ap, ◌∙◌, String, List, [], ◌∷◌, length, arith,
}
use graphnight.Runtime.Suggest.Distance.{
  cost, fill, next_row, rows, from_to, last_of, distance, edit_distance, lower_codes,
}

-- Levenshtein's distance by recursion on the heads: what is deleted, inserted or exchanged.
abbrev pub levenshtein : List ℕ → List ℕ → ℕ
levenshtein [] b = length b
levenshtein (x ∷ a) [] = suc (length a)
levenshtein (x ∷ a) (y ∷ b) =
    min (min (levenshtein a (y ∷ b) + 1) (levenshtein (x ∷ a) b + 1)) (levenshtein a b + cost x y)

-- The reversal of the first list in front of the second.
abbrev pub reverse_onto : List ℕ → List ℕ → List ℕ
reverse_onto [] acc = acc
reverse_onto (x ∷ xs) acc = reverse_onto xs (x ∷ acc)

-- The entries of a row behind that of the prefix `rb`; prefixes are reversed.
abbrev entries : List ℕ → List ℕ → List ℕ → List ℕ
entries ra rb [] = []
entries ra rb (y ∷ b) = levenshtein ra (y ∷ rb) ∷ entries ra (y ∷ rb) b

abbrev row_of : List ℕ → List ℕ → List ℕ → List ℕ
row_of ra rb b = levenshtein ra rb ∷ entries ra rb b

fill-entries :
    (x : ℕ) (ra rb b : List ℕ)
    → fill x (levenshtein (x ∷ ra) rb) (levenshtein ra rb) b (entries ra rb b)
      ≡ entries (x ∷ ra) rb b
unfolding fill
fill-entries x ra rb [] = refl
fill-entries x ra rb (y ∷ b) =
    ap (λ rest. levenshtein (x ∷ ra) (y ∷ rb) ∷ rest) (fill-entries x ra (y ∷ rb) b)

levenshtein-nil : (a : List ℕ) → levenshtein a [] ≡ length a
levenshtein-nil [] = refl
levenshtein-nil (x ∷ a) = refl

rows-row_of :
    (xs ra b : List ℕ)
    → rows (suc (length ra)) xs b (row_of ra [] b) ≡ row_of (reverse_onto xs ra) [] b
unfolding rows next_row
rows-row_of [] ra b = refl
rows-row_of (x ∷ xs) ra b =
    ap (λ rest. rows (suc (suc (length ra))) xs b (suc (length ra) ∷ rest)) (fill-entries x ra [] b)
    ∙ rows-row_of xs (x ∷ ra) b

from_to-row_of : (rb b : List ℕ) → from_to (length rb) (length b) ≡ row_of [] rb b
unfolding from_to
from_to-row_of rb [] = refl
from_to-row_of rb (y ∷ b) = ap (λ rest. length rb ∷ rest) (from_to-row_of (y ∷ rb) b)

last_of-row_of : (ra rb b : List ℕ) → last_of (row_of ra rb b) ≡ levenshtein ra (reverse_onto b rb)
unfolding last_of
last_of-row_of ra rb [] = refl
last_of-row_of ra rb (y ∷ b) = last_of-row_of ra (y ∷ rb) b

length-reverse_onto : (xs acc : List ℕ) → length (reverse_onto xs acc) ≡ length xs + length acc
length-reverse_onto [] acc = omega arith
length-reverse_onto (x ∷ xs) acc = omega (arith, length-reverse_onto xs (x ∷ acc))

distance-levenshtein :
    (a b : List ℕ) → distance a b ≡ levenshtein (reverse_onto a []) (reverse_onto b [])
unfolding distance
distance-levenshtein [] b = omega (arith, length-reverse_onto b [])
distance-levenshtein (x ∷ xs) [] =
    sym (levenshtein-nil (reverse_onto (x ∷ xs) []) ∙ length-reverse_onto (x ∷ xs) [] ∙ omega arith)
distance-levenshtein (x ∷ xs) (y ∷ ys) =
    ap (λ r. last_of (rows 1 (x ∷ xs) (y ∷ ys) r)) (from_to-row_of [] (y ∷ ys))
    ∙ ap last_of (rows-row_of (x ∷ xs) [] (y ∷ ys))
    ∙ last_of-row_of (reverse_onto (x ∷ xs) []) [] (y ∷ ys)

-- The distance that two rows compute is Levenshtein's of the lower-cased texts, read from their ends.
pub edit_distance-levenshtein :
    (a b : String)
    → edit_distance a b
      ≡ levenshtein (reverse_onto (lower_codes a) []) (reverse_onto (lower_codes b) [])
unfolding edit_distance
edit_distance-levenshtein a b = distance-levenshtein (lower_codes a) (lower_codes b)
