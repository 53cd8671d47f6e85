-- ===== src/Sql/Generator/Filters/Shapes.antt =====
-- The text that `build_where_clause` writes for execution, when the values of the filters change.
use graphnight.Base.{
  ℕ, ◌+◌, ◌≡◌, refl, sym, ap, subst, String, Bool, true, false, Option, none, some, List, [], ◌∷◌,
  ◌++◌, Result, ok, err, ok_or, ◌>>=◌, ◌&&◌, ◌+s◌, join, length, length-append, arith, All,
  Bool-cases, Option-cases, inl, inr,
}
use mathlib.Core.Path.{ap₂}
use graphnight.Core.Models.{
  Value, null, as_array, Filter, spatial_function, needs_value, needs_two_values, is_membership,
  sql_operator,
}
use graphnight.Sql.Plan.{placeholder}
use graphnight.Sql.Dialects
use graphnight.Sql.Dialects.{Dialect, spatial_geometry}
use graphnight.Sql.Generator.{
  SqlGenerator, SqlError, needs_geometry, requires_array, requires_two_values,
}
use graphnight.Sql.Generator.Filters.{
  Rendered, from_wkt, render_value, render_values, spatial_condition, membership_condition,
  between_values, between_condition, value_condition, plain_condition, condition, conditions,
  build_where_clause,
}

-- The part of a value that the generator looks at: whether it is a text or an object, and the number
-- of its items if it is an array.
abbrev pub item_count : Option (List Value) → Option ℕ
item_count none = none
item_count (some vs) = some (length vs)

abbrev pub SameShape : Value → Value → Type 0
SameShape v w = (from_wkt v ≡ from_wkt w) × (item_count (as_array v) ≡ item_count (as_array w))

abbrev pub with_value : Filter → Value → Filter
with_value f w = record f { value = w }

-- Filters, each with another value for it.
abbrev pub originals : List (Filter × Value) → List Filter
originals [] = []
originals ((f, w) ∷ fs) = f ∷ originals fs

abbrev pub replaced : List (Filter × Value) → List Filter
replaced [] = []
replaced ((f, w) ∷ fs) = with_value f w ∷ replaced fs

-- An error without the value that its message quotes.
unfoldable pub unquoted : SqlError → SqlError
unquoted (needs_geometry function field value) = needs_geometry function field null
unquoted (requires_array op value) = requires_array op null
unquoted e = e

-- The outcome of a clause without the parameters, and without the value that an error quotes.
abbrev pub text_of : {A : Type 0} → Result SqlError (A × List Value) → Result SqlError A
text_of (ok (a, params)) = ok a
text_of (err e) = err (unquoted e)

-- Equal texts, and equally many parameters.
Agree : {A : Type 0} → Result SqlError (A × List Value) → Result SqlError (A × List Value) → Type 0
Agree (ok (a, p)) (ok (b, q)) = (a ≡ b) × (length p ≡ length q)
Agree (err e) (err e') = unquoted e ≡ unquoted e'
Agree _ _ = ⊥

Agree-text :
    {A : Type 0} (r s : Result SqlError (A × List Value)) → Agree r s → text_of r ≡ text_of s
unfolding Agree
Agree-text (ok (a, p)) (ok (b, q)) (h, k) = ap ok h
Agree-text (err e) (err e') h = ap err h
Agree-text (ok a) (err e) h = absurd h
Agree-text (err e) (ok a) h = absurd h

Agree-bind :
    {A B : Type 0} (r s : Result SqlError (A × List Value))
    (k l : A × List Value → Result SqlError (B × List Value))
    → Agree r s
    → ((a : A) (p q : List Value) → length p ≡ length q → Agree (k (a, p)) (l (a, q)))
    → Agree (r >>= k) (s >>= l)
unfolding Agree
Agree-bind (ok (a, p)) (ok (b, q)) k l (h, n) c =
    subst (λ x. Agree (k (a, p)) (l (x, q))) h (c a p q n)
Agree-bind (err e) (err e') k l h c = h
Agree-bind (ok a) (err e) k l h c = absurd h
Agree-bind (err e) (ok a) k l h c = absurd h

pushed :
    (p q : List Value) (v w : Value)
    → length p ≡ length q
    → length (p ++ v ∷ []) ≡ length (q ++ w ∷ [])
pushed p q v w n = omega (arith, length-append p (v ∷ []), length-append q (w ∷ []), n)

clause-Agree :
    (texts : List String) (p q : List Value)
    → length p ≡ length q
    → Agree (ok (some (join "" texts), p)) (ok (some (join "" texts), q))
unfolding Agree
clause-Agree texts p q n = (refl, n)

module _ (to_string : Value → String) (g : SqlGenerator) (d : Dialect)
    (source_alias base_model_name : String) where
  values-agree :
      (p q vs ws : List Value)
      → length p ≡ length q
      → length vs ≡ length ws
      → ((render_values to_string g d source_alias base_model_name placeholder p vs).0
          ≡ (render_values to_string g d source_alias base_model_name placeholder q ws).0)
        × (length (render_values to_string g d source_alias base_model_name placeholder p vs).1
            ≡ length (render_values to_string g d source_alias base_model_name placeholder q ws).1)
  unfolding render_values render_value
  values-agree p q [] [] n m = (refl, n)
  values-agree p q [] (w ∷ ws) n m = absurd (omega arith)
  values-agree p q (v ∷ vs) [] n m = absurd (omega arith)
  values-agree p q (v ∷ vs) (w ∷ ws) n m =
      let (same, more) =
        values-agree (p ++ v ∷ []) (q ++ w ∷ []) vs ws (pushed p q v w n) (omega arith) in
      (ap₂ (λ k xs. Dialects.placeholder d (k + 1) ∷ xs) n same, more)

  spatial-Agree :
      (function column_sql : String) (f : Filter) (w : Value) (p q : List Value)
      → length p ≡ length q
      → from_wkt f.value ≡ from_wkt w
      → Agree
          (spatial_condition to_string g d source_alias base_model_name placeholder function
            column_sql f p)
          (spatial_condition to_string g d source_alias base_model_name placeholder function
            column_sql
            (with_value f w)
            q)
  unfolding spatial_condition render_value Agree unquoted
  spatial-Agree function column_sql f w p q n s = elim (Option-cases (from_wkt f.value)) [
    | inl e ↦ rw (sym s, e) (refl)
    | inr (wkt, e) ↦
        rw (sym s, e, n)
          (elim (Option-cases (spatial_geometry d (Dialects.placeholder d (length q + 1)) wkt)) [
            | inl h ↦ rw h (refl)
            | inr (geometry, h) ↦ rw h ((refl, pushed p q f.value w n))
          ])
  ]

  listed : String → String → List Value → List Value → Result SqlError Rendered
  listed op column_sql p items =
      let rendered = render_values to_string g d source_alias base_model_name placeholder p items in
      ok (column_sql +s " " +s op +s " (" +s join ", " rendered.0 +s ")", rendered.1)

  membership-Agree :
      (op column_sql : String) (v w : Value) (p q : List Value) (vs ws : Option (List Value))
      → length p ≡ length q
      → item_count vs ≡ item_count ws
      → Agree
          (ok_or vs (requires_array op v) >>= listed op column_sql p)
          (ok_or ws (requires_array op w) >>= listed op column_sql q)
  unfolding Agree listed unquoted
  membership-Agree op column_sql v w p q none none n m = refl
  membership-Agree op column_sql v w p q none (some ws) n m = absurd (cc)
  membership-Agree op column_sql v w p q (some vs) none n m = absurd (cc)
  membership-Agree op column_sql v w p q (some vs) (some ws) n m =
      let (same, more) = values-agree p q vs ws n (cc) in
      (ap (λ xs. column_sql +s " " +s op +s " (" +s join ", " xs +s ")") same, more)

  between_values-Agree :
      (op column_sql : String) (p q vs ws : List Value)
      → length p ≡ length q
      → length vs ≡ length ws
      → Agree
          (between_values to_string g d source_alias base_model_name placeholder op column_sql p vs)
          (between_values to_string g d source_alias base_model_name placeholder op column_sql q ws)
  unfolding between_values render_value Agree
  between_values-Agree op column_sql p q [] [] n m = refl
  between_values-Agree op column_sql p q (v ∷ []) (w ∷ []) n m = refl
  between_values-Agree op column_sql p q (v ∷ v' ∷ vs) (w ∷ w' ∷ ws) n m =
      let k = pushed p q v w n in
      (
        ap₂
            (λ i j.
              column_sql
              +s " "
              +s op
              +s " BETWEEN "
              +s Dialects.placeholder d (i + 1)
              +s " AND "
              +s Dialects.placeholder d (j + 1))
            n k,
        pushed (p ++ v ∷ []) (q ++ w ∷ []) v' w' k,
      )
  between_values-Agree op column_sql p q [] (w ∷ ws) n m = absurd (omega arith)
  between_values-Agree op column_sql p q (v ∷ vs) [] n m = absurd (omega arith)
  between_values-Agree op column_sql p q (v ∷ []) (w ∷ w' ∷ ws) n m = absurd (omega arith)
  between_values-Agree op column_sql p q (v ∷ v' ∷ vs) (w ∷ []) n m = absurd (omega arith)

  between-Agree :
      (op column_sql : String) (p q : List Value) (vs ws : Option (List Value))
      → length p ≡ length q
      → item_count vs ≡ item_count ws
      → Agree
          (ok_or vs requires_two_values
            >>= between_values to_string g d source_alias base_model_name placeholder op column_sql
                p)
          (ok_or ws requires_two_values
            >>= between_values to_string g d source_alias base_model_name placeholder op column_sql
                q)
  unfolding Agree
  between-Agree op column_sql p q none none n m = refl
  between-Agree op column_sql p q none (some ws) n m = absurd (cc)
  between-Agree op column_sql p q (some vs) none n m = absurd (cc)
  between-Agree op column_sql p q (some vs) (some ws) n m =
      between_values-Agree op column_sql p q vs ws n (cc)

  plain-Agree :
      (op column_sql : String) (f : Filter) (w : Value) (p q : List Value)
      → length p ≡ length q
      → SameShape f.value w
      → Agree
          (plain_condition to_string g d source_alias base_model_name placeholder op column_sql f p)
          (plain_condition to_string g d source_alias base_model_name placeholder op column_sql
            (with_value f w)
            q)
  unfolding plain_condition value_condition between_condition membership_condition listed
      render_value Agree
  plain-Agree op column_sql f w p q n (s, m) = elim (Bool-cases (is_membership f.operator)) [
    | inl e ↦
        rw e (membership-Agree op column_sql f.value w p q (as_array f.value) (as_array w) n m)
    | inr e ↦ elim (Bool-cases (needs_value f.operator && needs_two_values f.operator)) [
      | inl h ↦ rw (e, h) (between-Agree op column_sql p q (as_array f.value) (as_array w) n m)
      | inr h ↦ elim (Bool-cases (needs_value f.operator)) [
        | inl k ↦
            rw (e, h, k)
              ((
                ap (λ i. column_sql +s " " +s op +s " " +s Dialects.placeholder d (i + 1)) n,
                pushed p q f.value w n,
              ))
        | inr k ↦ rw (e, h, k) ((refl, n))
      ]
    ]
  ]

  condition-Agree :
      (f : Filter) (w : Value) (p q : List Value)
      → length p ≡ length q
      → SameShape f.value w
      → Agree
          (condition to_string g d source_alias base_model_name placeholder f p)
          (condition to_string g d source_alias base_model_name placeholder (with_value f w) q)
  unfolding condition Agree
  condition-Agree f w p q n s = elim (Option-cases (spatial_function f.operator)) [
    | inr (function, e) ↦ rw (condition, e) (spatial-Agree function _ f w p q n s.0)
    | inl e ↦ elim (Option-cases (sql_operator f.operator)) [
      | inl h ↦ rw (condition, e, h) (refl)
      | inr (op, h) ↦ rw (condition, e, h) (plain-Agree op _ f w p q n s)
    ]
  ]

  conditions-Agree :
      (first : Bool) (fs : List (Filter × Value)) (p q : List Value)
      → length p ≡ length q
      → All (λ c. SameShape c.0.value c.1) fs
      → Agree
          (conditions to_string g d source_alias base_model_name placeholder first (originals fs) p)
          (conditions to_string g d source_alias base_model_name placeholder first (replaced fs) q)
  unfolding conditions Agree
  conditions-Agree first [] p q n s = (refl, n)
  conditions-Agree first ((f, w) ∷ fs) p q n (s, more) =
      Agree-bind _ _ _ _ (condition-Agree f w p q n s) λ text p' q' n'.
        Agree-bind _ _ _ _ (conditions-Agree false fs p' q' n' more)
          λ texts p'' q'' n''. (refl, n'')

  -- The text of the WHERE clause that is built for execution, or the error but for the value that its
  -- message quotes, stays the same when the values of the filters are replaced by values of the same
  -- shapes: a text for a text, an array of as many items for an array. No content of a value enters the
  -- statement.
  pub build_where_clause-text :
      (fs : List (Filter × Value))
      → All (λ c. SameShape c.0.value c.1) fs
      → text_of
          (build_where_clause to_string g d source_alias base_model_name placeholder (originals fs))
        ≡ text_of (
            build_where_clause to_string g d source_alias base_model_name placeholder (replaced fs))
  unfolding build_where_clause
  build_where_clause-text [] s = refl
  build_where_clause-text ((f, w) ∷ fs) s = Agree-text _ _ (
      Agree-bind _ _ _ _ (conditions-Agree true ((f, w) ∷ fs) [] [] refl s)
        λ texts p q n. clause-Agree texts p q n)
