-- ===== src/Base/Lists.antt =====
-- Lists measured by native numbers, with Boolean tests and predicates by recursion.
use Prim.Native.Nat.{ℕ, zero, suc, ◌+◌, ◌≤◌, ◌<◌}
use Prim.Native.String.{String}
use mathlib.Core.Path.{◌≡◌}
use mathlib.Core.Logic.{inl, inr}
use mathlib.Core.Bool.{Bool, true, false, ◌&&◌, ◌||◌}
use mathlib.Core.List.{List, [], ◌∷◌, ◌++◌}
use mathlib.Core.Option.{Option, none, some}
use native.Mathlib.Omega.{arith}
use text.Mathlib.Text.{◌==◌}
use text.Mathlib.TextEquality.{eq_iff}
use graphnight.Base.Tests.{if◌then◌else◌, Bool-cases, ltb, leb}

module _ {ℓ} {A : Type ℓ} where
  abbrev pub length : List A → ℕ
  length [] = 0
  length (x ∷ xs) = suc (length xs)

  abbrev pub take : ℕ → List A → List A
  take zero xs = []
  take (suc n) [] = []
  take (suc n) (x ∷ xs) = x ∷ take n xs

  abbrev pub head_option : List A → Option A
  head_option [] = none
  head_option (x ∷ xs) = some x

  -- `iter().any`, `iter().all`, `iter().filter`.
  abbrev pub any : (A → Bool) → List A → Bool
  any p [] = false
  any p (x ∷ xs) = p x || any p xs

  abbrev pub all : (A → Bool) → List A → Bool
  all p [] = true
  all p (x ∷ xs) = p x && all p xs

  abbrev pub keep : (A → Bool) → List A → List A
  keep p [] = []
  keep p (x ∷ xs) = let rest = keep p xs in if p x then x ∷ rest else rest

  pub length-append : (xs ys : List A) → length (xs ++ ys) ≡ length xs + length ys
  length-append [] ys = omega arith
  length-append (x ∷ xs) ys = omega (arith, length-append xs ys)

module _ {ℓ κ} {A : Type ℓ} (P : A → Type κ) where
  abbrev pub All : List A → Type κ
  All [] = Unit
  All (x ∷ xs) = P x × All xs

  -- Some item has the property, with its place.
  pub data Any : List A → Type (ℓ ⊔ κ) where
    here : {x : A} {xs : List A} → P x → Any (x ∷ xs)
    there : {x : A} {xs : List A} → Any xs → Any (x ∷ xs)

  pub All-append : (xs ys : List A) → All xs → All ys → All (xs ++ ys)
  All-append [] ys h k = k
  All-append (x ∷ xs) ys (p, h) k = (p, All-append xs ys h k)

  pub All-append_left : (xs ys : List A) → All (xs ++ ys) → All xs
  All-append_left [] ys h = tt
  All-append_left (x ∷ xs) ys (p, h) = (p, All-append_left xs ys h)

  pub All-append_right : (xs ys : List A) → All (xs ++ ys) → All ys
  All-append_right [] ys h = h
  All-append_right (x ∷ xs) ys (p, h) = All-append_right xs ys h

pub All-map {ℓ κ} :
    {A : Type ℓ} (P Q : A → Type κ) → ((x : A) → P x → Q x) → (xs : List A) → All P xs → All Q xs
All-map P Q f [] h = tt
All-map P Q f (x ∷ xs) (p, h) = (f x p, All-map P Q f xs h)

-- `Vec<String>::contains`.
abbrev pub contains : List String → String → Bool
contains xs a = any (λ x. x == a) xs

-- Membership of a name, as a predicate.
abbrev pub Listed : String → List String → Type 0
Listed a xs = Any (λ x. x ≡ a) xs

pub contains→Listed : (xs : List String) (a : String) → contains xs a ≡ true → Listed a xs
contains→Listed [] a h = cc
contains→Listed (x ∷ xs) a h = elim (Bool-cases (x == a)) [
  | inl e ↦ here ((eq_iff x a).0 e)
  | inr e ↦ there (contains→Listed xs a (ground arith))
]

pub Listed→contains : (xs : List String) (a : String) → Listed a xs → contains xs a ≡ true
Listed→contains [] a m = elim m [ ]
Listed→contains (x ∷ xs) a (here p) = ground (arith, eq_iff x a)
Listed→contains (x ∷ xs) a (there m) = ground (arith, Listed→contains xs a m)

-- What the tests on numbers say.
pub ltb-true : (m n : ℕ) → ltb m n ≡ true → m < n
ltb-true m n e = ground arith

pub ltb-false : (m n : ℕ) → ltb m n ≡ false → n ≤ m
ltb-false m n e = ground arith

pub leb-true : (m n : ℕ) → leb m n ≡ true → m ≤ n
leb-true m n e = ground arith

pub leb-false : (m n : ℕ) → leb m n ≡ false → n < m
leb-false m n e = ground arith
