-- ===== src/Sql/Generator/Filters/Parameters.antt =====
-- The parameters that `build_where_clause` binds, in the order of their placeholders.
use graphnight.Base.{
  ◌+◌, ◌≡◌, ap, ◌∙◌, refl, sym, String, Bool, true, false, ◌&&◌, Option, none, some, List, [], ◌∷◌,
  ◌++◌, Result, ok, Ensures, Ensures-bind, of_Ensures, if◌then◌else◌, length, take, unwrap_or,
  Bool-cases, Option-cases, inl, inr,
}
use mathlib.Core.List.{append_assoc, append-nil}
use graphnight.Core.Models.{
  Value, as_array, Filter, spatial_function, needs_value, needs_two_values, is_membership,
  sql_operator,
}
use graphnight.Sql.Plan.{placeholder}
use graphnight.Sql.Dialects
use graphnight.Sql.Dialects.{Dialect, spatial_geometry}
use graphnight.Sql.Generator.{SqlGenerator, SqlError}
use graphnight.Sql.Generator.Filters.{
  from_wkt, render_value, render_values, spatial_condition, membership_condition, between_values,
  between_condition, value_condition, plain_condition, condition, conditions, build_where_clause,
}

-- The values that a filter compares its column with.
pub plain_arguments : Filter → List Value
plain_arguments f =
    if is_membership f.operator
    then unwrap_or (as_array f.value) []
    else if needs_value f.operator && needs_two_values f.operator
    then take 2 (unwrap_or (as_array f.value) [])
    else if needs_value f.operator
    then f.value ∷ []
    else []

unfoldable pub arguments : Filter → List Value
unfolding plain_arguments
arguments f = elim (spatial_function f.operator) [
  | some function ↦ f.value ∷ []
  | none ↦ plain_arguments f
]

unfoldable pub all_arguments : List Filter → List Value
all_arguments [] = []
all_arguments (f ∷ fs) = arguments f ++ all_arguments fs

module _ (to_string : Value → String) (g : SqlGenerator) (d : Dialect)
    (source_alias base_model_name : String) where
  -- A result binds some values after those that are bound before it.
  abbrev Binds : {A : Type 0} → List Value → List Value → Result SqlError (A × List Value) → Type 0
  Binds before bound r = Ensures (λ r. r.1 ≡ before ++ bound) r

  render_values-bound :
      (params vs : List Value)
      → (render_values to_string g d source_alias base_model_name placeholder params vs).1
        ≡ params ++ vs
  unfolding render_values render_value
  render_values-bound params [] = sym (append-nil params)
  render_values-bound params (v ∷ vs) =
      render_values-bound (params ++ v ∷ []) vs ∙ append_assoc params (v ∷ []) vs

  spatial-bound :
      (function column_sql : String) (f : Filter) (params : List Value)
      → Binds params (f.value ∷ []) (
          spatial_condition to_string g d source_alias base_model_name placeholder function
            column_sql f params)
  unfolding spatial_condition render_value
  spatial-bound function column_sql f params = elim (Option-cases (from_wkt f.value)) [
    | inl e ↦ rw e tt
    | inr (wkt, e) ↦
        rw e
          (elim (Option-cases
            (spatial_geometry d (Dialects.placeholder d (length params + 1)) wkt)) [
              | inl h ↦ rw h tt
              | inr (geometry, h) ↦ rw h (refl)
            ])
  ]

  membership-bound :
      (op column_sql : String) (f : Filter) (params : List Value)
      → Binds params (unwrap_or (as_array f.value) []) (
          membership_condition to_string g d source_alias base_model_name placeholder op column_sql
            f params)
  unfolding membership_condition
  membership-bound op column_sql f params = elim (Option-cases (as_array f.value)) [
    | inl e ↦ rw e tt
    | inr (vs, e) ↦ rw e (render_values-bound params vs)
  ]

  between_values-bound :
      (op column_sql : String) (params vs : List Value)
      → Binds params (take 2 vs) (
          between_values to_string g d source_alias base_model_name placeholder op column_sql params
            vs)
  unfolding between_values render_value
  between_values-bound op column_sql params [] = tt
  between_values-bound op column_sql params (low ∷ []) = tt
  between_values-bound op column_sql params (low ∷ high ∷ more) =
      append_assoc params (low ∷ []) (high ∷ [])

  between-bound :
      (op column_sql : String) (f : Filter) (params : List Value)
      → Binds params (take 2 (unwrap_or (as_array f.value) [])) (
          between_condition to_string g d source_alias base_model_name placeholder op column_sql f
            params)
  unfolding between_condition
  between-bound op column_sql f params = elim (Option-cases (as_array f.value)) [
    | inl e ↦ rw e tt
    | inr (vs, e) ↦ rw e (between_values-bound op column_sql params vs)
  ]

  plain-bound :
      (op column_sql : String) (f : Filter) (params : List Value)
      → Binds params (plain_arguments f) (
          plain_condition to_string g d source_alias base_model_name placeholder op column_sql f
            params)
  unfolding plain_condition plain_arguments value_condition render_value
  plain-bound op column_sql f params = elim (Bool-cases (is_membership f.operator)) [
    | inl e ↦ rw e (membership-bound op column_sql f params)
    | inr e ↦ elim (Bool-cases (needs_value f.operator && needs_two_values f.operator)) [
      | inl h ↦ rw (e, h) (between-bound op column_sql f params)
      | inr h ↦ elim (Bool-cases (needs_value f.operator)) [
        | inl k ↦ rw (e, h, k) (refl)
        | inr k ↦ rw (e, h, k) (sym (append-nil params))
      ]
    ]
  ]

  condition-bound :
      (f : Filter) (params : List Value)
      → Binds params
          (arguments f)
          (condition to_string g d source_alias base_model_name placeholder f params)
  unfolding condition arguments
  condition-bound f params = elim (Option-cases (spatial_function f.operator)) [
    | inr (function, e) ↦ rw (condition, arguments, e) (spatial-bound function _ f params)
    | inl e ↦ elim (Option-cases (sql_operator f.operator)) [
      | inl h ↦ rw (condition, arguments, e, h) tt
      | inr (op, h) ↦ rw (condition, arguments, e, h) (plain-bound op _ f params)
    ]
  ]

  conditions-bound :
      (first : Bool) (fs : List Filter) (params : List Value)
      → Binds params
          (all_arguments fs)
          (conditions to_string g d source_alias base_model_name placeholder first fs params)
  unfolding conditions all_arguments
  conditions-bound first [] params = sym (append-nil params)
  conditions-bound first (f ∷ fs) params =
      Ensures-bind (λ r. r.1 ≡ params ++ arguments f) (λ r. r.1 ≡ params ++ all_arguments (f ∷ fs))
        _ _ (condition-bound f params)
        λ rendered p.
          Ensures-bind (λ r. r.1 ≡ rendered.1 ++ all_arguments fs)
            (λ r. r.1 ≡ params ++ all_arguments (f ∷ fs)) _ _ (conditions-bound false fs rendered.1)
            λ rest q.
              q
              ∙ ap (λ xs. xs ++ all_arguments fs) p
              ∙ append_assoc params (arguments f) (all_arguments fs)

  -- If the WHERE clause of some filters is built for execution, then the parameters are the values
  -- of the filters and nothing else, in the order of the filters: the value of a comparison or of a
  -- spatial test, the items of a membership list, the first two items of a range.
  pub build_where_clause-params :
      (fs : List Filter) (clause : Option String) (params : List Value)
      → build_where_clause to_string g d source_alias base_model_name placeholder fs
        ≡ ok (clause, params)
      → params ≡ all_arguments fs
  unfolding build_where_clause all_arguments
  build_where_clause-params [] clause params h = cc
  build_where_clause-params (f ∷ fs) clause params h =
      of_Ensures (λ r. r.1 ≡ all_arguments (f ∷ fs)) _
        (Ensures-bind (λ r. r.1 ≡ all_arguments (f ∷ fs)) (λ r. r.1 ≡ all_arguments (f ∷ fs)) _ _
          (conditions-bound true (f ∷ fs) []) λ rendered p. p)
        h
