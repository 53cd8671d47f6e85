-- ===== src/Runtime/Suggest/Distance.antt =====
-- `edit_distance` and `closest_matches` of suggest.rs. A text is the list of its characters' numbers.
pub mod Closest
use Prim.Native.Nat.{Ordering}
use Prim.Native.Nat
use Prim.Native.String
use graphnight.Base.{
  ℕ, zero, suc, ◌+◌, ◌/◌, min, String, Bool, true, false, ◌&&◌, ◌||◌, Option, none, some, List, [],
  ◌∷◌, ◌++◌, map, if◌then◌else◌, ◌=ℕ=◌, leb, take, length, codes, keep,
}

abbrev lower_code : ℕ → ℕ
lower_code c = if leb b'A' c && leb c b'Z' then c + 32 else c

abbrev pub lower_codes : String → List ℕ
lower_codes s = map lower_code (codes s)

unfoldable pub cost : ℕ → ℕ → ℕ
cost x y = if x =ℕ= y then 0 else 1

-- The rest of a row: `left` is the entry before, `diagonal` the one above it, `above` the rest of the row
-- above.
unfoldable pub fill : ℕ → ℕ → ℕ → List ℕ → List ℕ → List ℕ
fill x left diagonal [] above = []
fill x left diagonal (y ∷ ys) [] = []
fill x left diagonal (y ∷ ys) (up ∷ above) =
    let entry = min (min (up + 1) (left + 1)) (diagonal + cost x y) in
    entry ∷ fill x entry up ys above

unfoldable pub next_row : ℕ → ℕ → List ℕ → List ℕ → List ℕ
next_row i x b [] = i ∷ []
next_row i x b (diagonal ∷ above) = i ∷ fill x i diagonal b above

-- The rows for the characters of `a`, of which the first has the number `i`.
unfoldable pub rows : ℕ → List ℕ → List ℕ → List ℕ → List ℕ
rows i [] b row = row
rows i (x ∷ xs) b row = rows (suc i) xs b (next_row i x b row)

-- `0..=n`, from `k` on.
unfoldable pub from_to : ℕ → ℕ → List ℕ
from_to k zero = k ∷ []
from_to k (suc n) = k ∷ from_to (suc k) n

unfoldable pub last_of : List ℕ → ℕ
last_of [] = 0
last_of (x ∷ []) = x
last_of (x ∷ y ∷ ys) = last_of (y ∷ ys)

unfoldable pub distance : List ℕ → List ℕ → ℕ
distance [] b = length b
distance (x ∷ xs) [] = length (x ∷ xs)
distance (x ∷ xs) (y ∷ ys) = last_of (rows 1 (x ∷ xs) (y ∷ ys) (from_to 0 (length (y ∷ ys))))

unfoldable pub edit_distance : String → String → ℕ
edit_distance a b = distance (lower_codes a) (lower_codes b)

-- `contains` on the characters.
is_prefix : List ℕ → List ℕ → Bool
is_prefix [] s = true
is_prefix (c ∷ p) [] = false
is_prefix (c ∷ p) (d ∷ s) = c =ℕ= d && is_prefix p s

is_part : List ℕ → List ℕ → Bool
unfolding is_prefix
is_part p [] = is_prefix p []
is_part p (d ∷ s) = is_prefix p (d ∷ s) || is_part p s

abbrev max : ℕ → ℕ → ℕ
max a b = if leb a b then b else a

unfoldable pub is_close : String → ℕ × String → Bool
unfolding is_part
is_close field (d, k) =
    leb d (max (max (String.len field) (String.len k) / 2) 1)
    || is_part (lower_codes field) (lower_codes k)
    || is_part (lower_codes k) (lower_codes field)

-- `a.0.cmp(&b.0).then_with(|| a.1.cmp(b.1))` is not greater.
before_text : Ordering → Bool
before_text Ordering.gt = false
before_text _ = true

before : Ordering → String → String → Bool
unfolding before_text
before Ordering.lt s t = true
before Ordering.gt s t = false
before Ordering.eq s t = before_text (String.compare s t)

insert_scored : ℕ × String → List (ℕ × String) → List (ℕ × String)
unfolding before
insert_scored a [] = a ∷ []
insert_scored a (b ∷ bs) =
    let rest = insert_scored a bs in
    if before (Nat.compare a.0 b.0) a.1 b.1 then a ∷ b ∷ bs else b ∷ rest

sort_scored : List (ℕ × String) → List (ℕ × String)
unfolding insert_scored
sort_scored [] = []
sort_scored (a ∷ rest) = insert_scored a (sort_scored rest)

unfoldable pub closest_matches : String → List String → ℕ → List String
unfolding sort_scored
closest_matches field known limit =
    map (λ (p : ℕ × String). p.1)
      (take limit
        (sort_scored (keep (is_close field) (map (λ k. (edit_distance field k, k)) known))))
