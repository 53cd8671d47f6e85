-- ===== src/Sql/Generator/Filters/Precedence.antt =====
-- How the separators of `build_where_clause` bind: AND before OR, with no parentheses.
use graphnight.Base.{
  ◌≡◌, refl, sym, ap, ◌∙◌, String, Bool, true, false, some, List, [], ◌∷◌, Result, ok, err, Ensures,
  Ensures-bind, of_Ensures, ◌+s◌, join, inl, inr, Option, none, Option-cases, ◌&&◌, if_either,
}
use text.Mathlib.TextLemmas.{append-nil}
use graphnight.Core.Models.{
  Value, Filter, spatial_function, sql_operator, as_array, is_membership, needs_value,
  needs_two_values,
}
use graphnight.Sql.Generator.Fields.{qualify_field}
use graphnight.Sql.Plan.{ValueMode}
use graphnight.Sql.Dialects.{Dialect, spatial_geometry}
use graphnight.Sql.Generator.{SqlGenerator, SqlError}
use graphnight.Sql.Generator.Filters.Groups.{Written, glue, filters_of, groups_text, clause-groups}
use graphnight.Sql.Generator.Filters.{
  Rendered, from_wkt, render_value, separator, spatial_condition, membership_condition,
  between_values, between_condition, value_condition, plain_condition, condition, conditions,
  build_where_clause,
}

Ensures-any : {A : Type 0} (r : Result SqlError A) → Ensures (λ a. Unit {0}) r
Ensures-any (ok a) = tt
Ensures-any (err e) = tt

Ensures-weaken :
    {A : Type 0} (P Q : A → Type 0) (r : Result SqlError A)
    → ((a : A) → P a → Q a)
    → Ensures P r
    → Ensures Q r
Ensures-weaken P Q (ok a) f h = f a h
Ensures-weaken P Q (err e) f h = tt

some_inj : {A : Type 0} {a b : A} → some a ≡ some b → a ≡ b
some_inj e = cc

module _ (to_string : Value → String) (g : SqlGenerator) (d : Dialect)
    (source_alias base_model_name : String) (mode : ValueMode) where
  -- The text is a condition on the column of the filter: the call of its spatial function, or its operator
  -- behind the column.
  pub data IsCondition (f : Filter) (text : String) : Type 0 where
    spatial :
        (function geometry : String)
        → spatial_function f.operator ≡ some function
        → text
          ≡ function
            +s "("
            +s qualify_field g d base_model_name f.field source_alias
            +s ", "
            +s geometry
            +s ")"
        → IsCondition f text
    compared :
        (op rest : String)
        → spatial_function f.operator ≡ none
        → sql_operator f.operator ≡ some op
        → text ≡ qualify_field g d base_model_name f.field source_alias +s " " +s op +s rest
        → IsCondition f text

  -- Each text is what `condition` makes of its filter, with the parameters that the filters before it leave.
  abbrev pub AreConditions : List Written → List Value → List Value → Type 0
  AreConditions [] params params' = params ≡ params'
  AreConditions ((f, text) ∷ cs) params params' =
      (next : List Value) × (condition to_string g d source_alias base_model_name mode f params
        ≡ ok (text, next))
      × IsCondition f text
      × AreConditions cs next params'

  abbrev Plain : String → String → Rendered → Type 0
  Plain column_sql op r = (rest : String) × (r.0 ≡ column_sql +s " " +s op +s rest)

  between_values-Plain :
      (op column_sql : String) (params vs : List Value)
      → Ensures
          (Plain column_sql op)
          (between_values to_string g d source_alias base_model_name mode op column_sql params vs)
  unfolding between_values
  between_values-Plain op column_sql params [] = tt
  between_values-Plain op column_sql params (low ∷ []) = tt
  between_values-Plain op column_sql params (low ∷ high ∷ more) = (_, refl)

  membership-Plain :
      (op column_sql : String) (f : Filter) (params : List Value)
      → Ensures (Plain column_sql op) (
          membership_condition to_string g d source_alias base_model_name mode op column_sql f
            params)
  unfolding membership_condition
  membership-Plain op column_sql f params = elim (Option-cases (as_array f.value)) [
    | inl e ↦ rw (membership_condition, e) tt
    | inr (items, e) ↦ rw (membership_condition, e) ((_, refl))
  ]

  spatial-IsCondition :
      (function : String) (f : Filter) (params : List Value)
      → spatial_function f.operator ≡ some function
      → Ensures
          (λ r. IsCondition f r.0)
          (spatial_condition to_string g d source_alias base_model_name mode function
            (qualify_field g d base_model_name f.field source_alias)
            f
            params)
  unfolding spatial_condition
  spatial-IsCondition function f params e =
      let text = (render_value to_string g d source_alias base_model_name mode params f.value).0 in
      elim (Option-cases (from_wkt f.value)) [
        | inl h ↦ rw (spatial_condition, h) tt
        | inr (wkt, h) ↦ elim (Option-cases (spatial_geometry d text wkt)) [
          | inl k ↦ rw (spatial_condition, h, k) tt
          | inr (geometry, k) ↦ rw (spatial_condition, h, k) (spatial function geometry e refl)
        ]
      ]

  plain_condition-Plain :
      (op column_sql : String) (f : Filter) (params : List Value)
      → Ensures
          (Plain column_sql op)
          (plain_condition to_string g d source_alias base_model_name mode op column_sql f params)
  unfolding plain_condition membership_condition between_condition value_condition
  plain_condition-Plain op column_sql f params =
      let P = Ensures (Plain column_sql op) in
      if_either P (is_membership f.operator) _ _ (membership-Plain op column_sql f params) (
        if_either P (needs_value f.operator && needs_two_values f.operator) _ _
          (Ensures-bind (λ t. Unit {0}) (Plain column_sql op) _ _ (Ensures-any _)
            (λ vals t. between_values-Plain op column_sql params vals))
          (if_either P (needs_value f.operator) _ _ (_, refl)
            ("", ap (λ t. column_sql +s " " +s t) (sym (append-nil op)))))

  condition-IsCondition :
      (f : Filter) (params : List Value)
      → Ensures
          (λ r. IsCondition f r.0)
          (condition to_string g d source_alias base_model_name mode f params)
  unfolding condition spatial_condition
  condition-IsCondition f params =
      let column_sql = qualify_field g d base_model_name f.field source_alias in
      elim (Option-cases (spatial_function f.operator)) [
        | inr (function, e) ↦ rw (condition, e) (spatial-IsCondition function f params e)
        | inl e ↦ elim (Option-cases (sql_operator f.operator)) [
          | inl h ↦ rw (condition, e, h) tt
          | inr (op, h) ↦
              rw (condition, e, h)
                (Ensures-weaken (Plain column_sql op) (λ r. IsCondition f r.0) _
                  (λ r (rest, k). compared op rest e h k)
                  (plain_condition-Plain op column_sql f params))
        ]
      ]

  -- A written clause: the conditions of the filters one by one, and what they make together.
  record IsWritten (filters : List Filter) (params : List Value) (first : Bool)
      (r : List String × List Value) : Type 0 where
    written : List Written
    same : filters_of written ≡ filters
    conditioned : AreConditions written params r.1
    glued : r.0 ≡ glue first written

  with-eq :
      {A : Type 0} (P : A → Type 0) (r : Result SqlError A)
      → Ensures P r
      → Ensures (λ a. P a × (r ≡ ok a)) r
  with-eq P (ok a) h = (h, refl)
  with-eq P (err e) h = tt

  conditions-IsWritten :
      (first : Bool) (fs : List Filter) (params : List Value)
      → Ensures
          (IsWritten fs params first)
          (conditions to_string g d source_alias base_model_name mode first fs params)
  unfolding conditions
  conditions-IsWritten first [] params = record {
    written = [];
    same = refl;
    conditioned = refl;
    glued = refl;
  }
  conditions-IsWritten first (f ∷ fs) params =
      let P : Rendered → Type 0 = λ r.
        IsCondition f r.0
        × (condition to_string g d source_alias base_model_name mode f params ≡ ok r) in
      Ensures-bind P (IsWritten (f ∷ fs) params first) _ _
        (with-eq (λ r. IsCondition f r.0)
          (condition to_string g d source_alias base_model_name mode f params)
          (condition-IsCondition f params))
        λ text (p, e).
          Ensures-bind (IsWritten fs text.1 false) (IsWritten (f ∷ fs) params first) _ _
            (conditions-IsWritten false fs text.1)
            λ rest w. record {
              written = (f, text.0) ∷ w.written;
              same = ap (λ xs. f ∷ xs) w.same;
              conditioned = (text.1, e, p, w.conditioned);
              glued = ap (λ xs. (separator first f +s text.0) ∷ xs) w.glued;
            }

  -- If the WHERE clause of some filters is built, then it is a disjunction of conjunctions of one
  -- condition for each filter, in order: each filter with `or_condition`, but the first, begins a new
  -- conjunction, and every other filter stands in the conjunction of the filter before it. The text of a
  -- filter's condition is what `condition` makes of it with the parameters that the filters before it
  -- leave: the call of its spatial function with its column, or its column with its operator behind it.
  pub build_where_clause-groups :
      (fs : List Filter) (clause : String) (params : List Value)
      → build_where_clause to_string g d source_alias base_model_name mode fs
        ≡ ok (some clause, params)
      → (cs : List Written) × (filters_of cs ≡ fs)
        × AreConditions cs [] params
        × (clause ≡ groups_text cs)
  unfolding build_where_clause
  build_where_clause-groups [] clause params h = absurd (cc)
  build_where_clause-groups (f ∷ fs) clause params h =
      let Written_as : Option String × List Value → Type 0 = λ r.
        (text : String) × (cs : List Written) × (r.0 ≡ some text)
        × (filters_of cs ≡ f ∷ fs)
        × AreConditions cs [] r.1
        × (text ≡ groups_text cs) in
      let (text, cs, e, same, conditioned, glued) =
        of_Ensures Written_as _
          (Ensures-bind (IsWritten (f ∷ fs) [] true) Written_as _ _
            (conditions-IsWritten true (f ∷ fs) [])
            λ r w. (
              join "" r.0,
              w.written,
              refl,
              w.same,
              w.conditioned,
              ap (join "") w.glued ∙ clause-groups w.written,
            ))
          h in
      (cs, same, conditioned, some_inj e ∙ glued)
