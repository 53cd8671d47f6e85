-- ===== src/Runtime/Suggest/Distance/Closest.antt =====
-- What `closest_matches` of suggest.rs suggests.
use Prim.Native.Nat.{Ordering}
use Prim.Native.Nat
use mathlib.Core.List.{Permᴰ}
use mathlib.Core.List.Permᴰ
use graphnight.Base.{
  ℕ, zero, suc, ◌≤◌, ◌≡◌, refl, String, true, false, Bool-cases, inl, inr, List, [], ◌∷◌, map,
  length, take, keep, All, All-map, leb-true, ltb-false, Listed, here, there, arith, ap, min, ◌++◌,
}
use graphnight.Runtime.Suggest.Distance.{
  edit_distance, is_close, before, insert_scored, sort_scored, closest_matches,
}

abbrev Scored : Type 0
Scored = ℕ × String

-- The scores are in order.
abbrev Ascending : List Scored → Type 0
Ascending [] = Unit
Ascending (a ∷ rest) = All (λ (b : Scored). a.0 ≤ b.0) rest × Ascending rest

not_above :
    (o : Ordering) (s t : String)
    → before o s t ≡ true
    → elim o [ Ordering.gt ↦ false | _ ↦ true ] ≡ true
unfolding before
not_above Ordering.lt s t e = refl
not_above Ordering.eq s t e = refl
not_above Ordering.gt s t e = e

not_below :
    (o : Ordering) (s t : String)
    → before o s t ≡ false
    → elim o [ Ordering.lt ↦ true | _ ↦ false ] ≡ false
unfolding before
not_below Ordering.lt s t e = e
not_below Ordering.eq s t e = refl
not_below Ordering.gt s t e = refl

before-le : (m n : ℕ) (s t : String) → before (Nat.compare m n) s t ≡ true → m ≤ n
before-le m n s t e = leb-true m n (not_above (Nat.compare m n) s t e)

before-ge : (m n : ℕ) (s t : String) → before (Nat.compare m n) s t ≡ false → n ≤ m
before-ge m n s t e = ltb-false m n (not_below (Nat.compare m n) s t e)

All-insert_scored :
    (P : Scored → Type 0) (a : Scored) (bs : List Scored)
    → P a
    → All P bs
    → All P (insert_scored a bs)
unfolding insert_scored
All-insert_scored P a [] p h = (p, tt)
All-insert_scored P a (b ∷ bs) p (q, h) = elim (Bool-cases (before (Nat.compare a.0 b.0) a.1 b.1)) [
  | inl e ↦ rw e (p, (q, h))
  | inr e ↦ rw e (q, All-insert_scored P a bs p h)
]

All-sort_scored : (P : Scored → Type 0) (xs : List Scored) → All P xs → All P (sort_scored xs)
unfolding sort_scored
All-sort_scored P [] h = tt
All-sort_scored P (a ∷ rest) (p, h) =
    All-insert_scored P a (sort_scored rest) p (All-sort_scored P rest h)

insert_scored-Ascending :
    (a : Scored) (bs : List Scored) → Ascending bs → Ascending (insert_scored a bs)
unfolding insert_scored
insert_scored-Ascending a [] h = (tt, tt)
insert_scored-Ascending a (b ∷ bs) (le, h) =
    elim (Bool-cases (before (Nat.compare a.0 b.0) a.1 b.1)) [
      | inl e ↦
          let ab : a.0 ≤ b.0 = before-le a.0 b.0 a.1 b.1 e in
          rw e (
            (
              ab,
              All-map (λ (c : Scored). b.0 ≤ c.0) (λ (c : Scored). a.0 ≤ c.0) (λ c k. omega arith)
                  bs le,
            ),
            (le, h),
          )
      | inr e ↦ rw e (
        All-insert_scored (λ (c : Scored). b.0 ≤ c.0) a bs (before-ge a.0 b.0 a.1 b.1 e) le,
        insert_scored-Ascending a bs h,
      )
    ]

sort_scored-Ascending : (xs : List Scored) → Ascending (sort_scored xs)
unfolding sort_scored
sort_scored-Ascending [] = tt
sort_scored-Ascending (a ∷ rest) =
    insert_scored-Ascending a (sort_scored rest) (sort_scored-Ascending rest)

skip : {A : Type 0} → ℕ → List A → List A
skip zero xs = xs
skip (suc n) [] = []
skip (suc n) (x ∷ xs) = skip n xs

names_of : List Scored → List String
names_of = map (λ (a : Scored). a.1)

take-skip : (n : ℕ) (xs : List Scored) → names_of (take n xs) ++ names_of (skip n xs) ≡ names_of xs
unfolding names_of skip
take-skip zero xs = refl
take-skip (suc n) [] = refl
take-skip (suc n) (x ∷ xs) = ap (◌∷◌ x.1) (take-skip n xs)

length-take :
    (n : ℕ) (xs : List Scored) → length (names_of (take n xs)) ≡ min n (length (names_of xs))
unfolding names_of
length-take zero xs = omega arith
length-take (suc n) [] = omega arith
length-take (suc n) (x ∷ xs) = omega (arith, length-take n xs)

insert_scored-Permᴰ :
    (a : Scored) (bs : List Scored) → Permᴰ (names_of (insert_scored a bs)) (a.1 ∷ names_of bs)
unfolding insert_scored names_of
insert_scored-Permᴰ a [] = Permᴰ.refl (a.1 ∷ [])
insert_scored-Permᴰ a (b ∷ bs) = elim (Bool-cases (before (Nat.compare a.0 b.0) a.1 b.1)) [
  | inl e ↦ rw e (Permᴰ.refl (a.1 ∷ b.1 ∷ names_of bs))
  | inr e ↦ rw e (Permᴰ.trans (Permᴰ.cons refl (insert_scored-Permᴰ a bs)) (Permᴰ.swap refl refl))
]

sort_scored-Permᴰ : (xs : List Scored) → Permᴰ (names_of (sort_scored xs)) (names_of xs)
unfolding sort_scored names_of
sort_scored-Permᴰ [] = Permᴰ.nil
sort_scored-Permᴰ (a ∷ rest) =
    Permᴰ.trans (insert_scored-Permᴰ a (sort_scored rest))
      (Permᴰ.cons refl (sort_scored-Permᴰ rest))

-- The known names that are close to the field.
abbrev pub close_names : String → List String → List String
close_names field known = keep (λ k. is_close field (edit_distance field k, k)) known

names_of-close :
    (field : String) (known : List String)
    → names_of (keep (is_close field) (map (λ k. (edit_distance field k, k)) known))
      ≡ close_names field known
unfolding names_of
names_of-close field [] = refl
names_of-close field (k ∷ known) = elim (Bool-cases (is_close field (edit_distance field k, k))) [
  | inl e ↦ rw e (ap (◌∷◌ k) (names_of-close field known))
  | inr e ↦ rw e (names_of-close field known)
]

-- A score of a known name that is close to the field.
abbrev IsScore : String → List String → Scored → Type 0
IsScore field known a =
    (a.0 ≡ edit_distance field a.1) × (is_close field a ≡ true) × Listed a.1 known

scores-IsScore :
    (field : String) (known : List String) (all_known : List String)
    → ((k : String) → Listed k known → Listed k all_known)
    → All
        (IsScore field all_known)
        (keep (is_close field) (map (λ k. (edit_distance field k, k)) known))
scores-IsScore field [] all_known f = tt
scores-IsScore field (k ∷ known) all_known f =
    elim (Bool-cases (is_close field (edit_distance field k, k))) [
      | inl e ↦
          rw e (
            (refl, e, f k (here refl)),
            scores-IsScore field known all_known (λ j m. f j (there m)),
          )
      | inr e ↦ rw e (scores-IsScore field known all_known (λ j m. f j (there m)))
    ]

-- The names come in the order of their distances.
abbrev pub Nearest : String → List String → Type 0
Nearest field [] = Unit
Nearest field (k ∷ ks) =
    All (λ j. edit_distance field k ≤ edit_distance field j) ks × Nearest field ks

-- A name of the model whose score is close to the field.
abbrev pub IsSuggestion : String → List String → String → Type 0
IsSuggestion field known k = Listed k known × (is_close field (edit_distance field k, k) ≡ true)

abbrev name_of : Scored → String
name_of a = a.1

above-All :
    (field : String) (known : List String) (d : ℕ) (xs : List Scored)
    → All (IsScore field known) xs
    → All (λ (b : Scored). d ≤ b.0) xs
    → All (λ j. d ≤ edit_distance field j) (map name_of xs)
above-All field known d [] h k = tt
above-All field known d (x ∷ xs) ((e, _, _), h) (le, k) =
    (rw e at le, above-All field known d xs h k)

names-Nearest :
    (field : String) (known : List String) (xs : List Scored)
    → All (IsScore field known) xs
    → Ascending xs
    → All (IsSuggestion field known) (map name_of xs) × Nearest field (map name_of xs)
names-Nearest field known [] h k = (tt, tt)
names-Nearest field known (x ∷ xs) ((e, c, m), h) (le, k) =
    let (a, b) = names-Nearest field known xs h k in
    (((m, rw (← e) c), a), (above-All field known (edit_distance field x.1) xs h (rw (← e) le), b))

-- What is suggested are the names that are nearest to the field of the known names that are close to it,
-- up to the limit: with the others, which are left out, they are those close names in the order of their
-- distances, and the others come behind.
pub closest_matches-Nearest :
    (field : String) (known : List String) (limit : ℕ)
    → let shown = closest_matches field known limit in
      (others : List String) × Permᴰ (shown ++ others) (close_names field known)
      × Nearest field (shown ++ others)
      × All (IsSuggestion field known) (shown ++ others)
      × (length shown ≡ min limit (length (shown ++ others)))
unfolding closest_matches names_of
closest_matches-Nearest field known limit =
    let scored = keep (is_close field) (map (λ k. (edit_distance field k, k)) known) in
    let sorted = sort_scored scored in
    let (a, b) =
      names-Nearest field known sorted
        (All-sort_scored (IsScore field known) _ (scores-IsScore field known known (λ k m. m)))
        (sort_scored-Ascending scored) in
    (
      names_of (skip limit sorted),
      rw (take-skip limit sorted, ← names_of-close field known) (sort_scored-Permᴰ scored),
      rw (take-skip limit sorted) b,
      rw (take-skip limit sorted) a,
      rw (take-skip limit sorted) (length-take limit sorted),
    )
