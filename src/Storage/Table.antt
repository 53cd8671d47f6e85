-- ===== src/Storage/Table.antt =====
-- The maps by name of crates/graphnight-storage/src/yaml.rs: a `HashMap` is an association list, in one
-- of the orders in which it may iterate.
use graphnight.Base.{
  ◌≡◌, refl, subst, ◌⊎◌, String, Bool, true, false, Bool-cases, inl, inr, Option, none, some, List,
  [], ◌∷◌, ◌==◌, eq_iff, if◌then◌else◌, is_some, or_option, arith,
}

abbrev pub Table : Type 0 → Type 0
Table V = List (String × V)

module _ {V : Type 0} where
  -- `get`, `contains_key`, `insert`, `remove` and `values`.
  unfoldable pub find : Table V → String → Option V
  find [] k = none
  find ((j, v) ∷ t) k = let rest = find t k in if j == k then some v else rest

  abbrev pub contains_key : Table V → String → Bool
  contains_key t k = is_some (find t k)

  unfoldable pub insert : String → V → Table V → Table V
  insert k v [] = (k, v) ∷ []
  insert k v ((j, w) ∷ t) = let rest = insert k v t in if j == k then (k, v) ∷ t else (j, w) ∷ rest

  unfoldable pub remove : String → Table V → Table V
  remove k [] = []
  remove k ((j, w) ∷ t) = let rest = remove k t in if j == k then rest else (j, w) ∷ rest

  abbrev pub table_values : Table V → List V
  table_values [] = []
  table_values ((j, v) ∷ t) = v ∷ table_values t

  -- The values in turn, each under its own name.
  unfoldable pub fill : (V → String) → List V → Table V → Table V
  fill name [] t = t
  fill name (v ∷ vs) t = fill name vs (insert (name v) v t)

  pub find-insert :
      (k n : String) (v : V) (t : Table V)
      → find (insert k v t) n ≡ (if k == n then some v else find t n)
  unfolding find insert
  find-insert k n v [] = refl
  find-insert k n v ((j, w) ∷ t) = elim (Bool-cases (j == k)) [
    | inl e ↦ rw (e, (eq_iff j k).0 e) (ground arith)
    | inr e ↦ rw (e, find-insert k n v t) (ground (arith, eq_iff j n, eq_iff k n, eq_iff j k))
  ]

  pub find-remove :
      (k n : String) (t : Table V) → find (remove k t) n ≡ (if k == n then none else find t n)
  unfolding find remove
  find-remove k n [] = ground arith
  find-remove k n ((j, w) ∷ t) = elim (Bool-cases (j == k)) [
    | inl e ↦ rw (e, find-remove k n t, (eq_iff j k).0 e) (ground arith)
    | inr e ↦ rw (e, find-remove k n t) (ground (arith, eq_iff j n, eq_iff k n, eq_iff j k))
  ]

  missing_after :
      (k j : String) (v : V) (t : Table V)
      → (j == k) ≡ false
      → find t j ≡ none
      → (find (insert k v t) j ≡ none) × (find (remove k t) j ≡ none)
  missing_after k j v t e a =
      let other : (k == j) ≡ false = ground (arith, eq_iff j k, eq_iff k j) in
      (rw (find-insert k j v t, other) a, rw (find-remove k j t, other) a)

  -- Each name has one entry, whose value has that name.
  unfoldable pub Named : (V → String) → Table V → Type 0
  Named name [] = Unit
  Named name ((j, v) ∷ t) = (find t j ≡ none) × (name v ≡ j) × Named name t

  pub insert-Named :
      (name : V → String) (v : V) (t : Table V) → Named name t → Named name (insert (name v) v t)
  unfolding Named insert find
  insert-Named name v [] h = (refl, refl, tt)
  insert-Named name v ((j, w) ∷ t) (a, b, h) = elim (Bool-cases (j == name v)) [
    | inl e ↦ rw e (subst (λ x. find t x ≡ none) ((eq_iff j (name v)).0 e) a, refl, h)
    | inr e ↦ rw e ((missing_after (name v) j v t e a).0, b, insert-Named name v t h)
  ]

  pub remove-Named :
      (name : V → String) (k : String) (t : Table V) → Named name t → Named name (remove k t)
  unfolding Named remove
  remove-Named name k [] h = tt
  remove-Named name k ((j, w) ∷ t) (a, b, h) = elim (Bool-cases (j == k)) [
    | inl e ↦ rw e (remove-Named name k t h)
    | inr e ↦ rw e ((missing_after k j w t e a).1, b, remove-Named name k t h)
  ]

  pub find-fill :
      (name : V → String) (k : String) (t s : Table V)
      → Named name t
      → find (fill name (table_values t) s) k ≡ or_option (find t k) (find s k)
  unfolding Named fill find
  find-fill name k [] s h = refl
  find-fill name k ((j, v) ∷ t) s (a, b, h) =
      rw (find-fill name k t (insert (name v) v s) h, find-insert (name v) k v s, b)
        (found (Bool-cases (j == k)))
    where
      found :
          ((j == k) ≡ true) ⊎ ((j == k) ≡ false)
          → or_option (find t k) (if j == k then some v else find s k)
            ≡ or_option (if j == k then some v else find t k) (find s k)
      found (inl e) =
          let none_left = subst (λ x. find t x ≡ none) ((eq_iff j k).0 e) a in
          rw (e, none_left) refl
      found (inr e) = rw e refl
