-- ===== src/Core/Security/Access.antt =====
-- What the access checks of the policy admit, and what the filters of a policy do to a query.
use graphnight.Base.{
  String, ◌≡◌, refl, ◌↔◌, false, Option, none, some, List, [], ◌∷◌, ◌++◌, ok, arith, contains,
  Listed, contains→Listed, Listed→contains, Bool-cases, inl, inr, sym, ap, ◌∙◌,
}
use graphnight.Core.Models.{Filter, Query}
use graphnight.Core.Security.{
  SessionPolicy, check_model_access, check_datasource_access, apply_forced_filters, push_filters,
  push_row_filter, apply_rls, excludes, includes,
}
use mathlib.Core.List.{append_assoc, append-nil}

-- A list that is absent admits every name.
abbrev pub Admits : Option (List String) → String → Type 0
Admits none name = Unit
Admits (some allowed) name = Listed name allowed

-- A list that is absent refuses no name.
abbrev pub Spares : Option (List String) → String → Type 0
Spares none name = Unit
Spares (some denied) name = ¬ Listed name denied

excludes→Admits :
    (o : Option (List String)) (name : String) → excludes o name ≡ false → Admits o name
excludes→Admits none name h = tt
excludes→Admits (some l) name h = contains→Listed l name (ground arith)

Admits→excludes :
    (o : Option (List String)) (name : String) → Admits o name → excludes o name ≡ false
Admits→excludes none name h = refl
Admits→excludes (some l) name h = ground (arith, Listed→contains l name h)

includes→Spares :
    (o : Option (List String)) (name : String) → includes o name ≡ false → Spares o name
includes→Spares none name h = tt
includes→Spares (some l) name h = λ (m : Listed name l). cc (h, Listed→contains l name m)

Spares→includes :
    (o : Option (List String)) (name : String) → Spares o name → includes o name ≡ false
Spares→includes none name h = refl
Spares→includes (some l) name h = elim (Bool-cases (contains l name)) [
  | inl e ↦ absurd (h (contains→Listed l name e))
  | inr e ↦ e
]

module _ (policy : SessionPolicy) where
  check_model_access_iff :
      (name : String)
      → (check_model_access policy name ≡ ok tt)
        ↔ (Admits policy.allowed_models name × Spares policy.denied_models name)
  unfolding check_model_access
  check_model_access_iff name = (
    λ h. (
      excludes→Admits policy.allowed_models name (ground arith),
      includes→Spares policy.denied_models name (ground arith),
    ),
    λ (a, s). ground (
      arith,
      Admits→excludes policy.allowed_models name a,
      Spares→includes policy.denied_models name s,
    ),
  )

  check_datasource_access_iff :
      (name : String)
      → (check_datasource_access policy name ≡ ok tt) ↔ Admits policy.allowed_datasources name
  unfolding check_datasource_access
  check_datasource_access_iff name = (
    λ h. excludes→Admits policy.allowed_datasources name (ground arith),
    λ a. ground (arith, Admits→excludes policy.allowed_datasources name a),
  )

  -- The check on a model passes exactly when the model is on the allow list, if there is one, and not
  -- on the deny list, if there is one; the check on a datasource passes exactly when the datasource is
  -- on the allow list, if there is one.
  pub check_access_iff :
      (name datasource : String)
      → ((check_model_access policy name ≡ ok tt)
          ↔ (Admits policy.allowed_models name × Spares policy.denied_models name))
        × ((check_datasource_access policy datasource ≡ ok tt)
            ↔ Admits policy.allowed_datasources datasource)
  check_access_iff name datasource =
      (check_model_access_iff name, check_datasource_access_iff datasource)

-- The filters that a policy adds, in the order in which it adds them.
abbrev row_filter_list : Option Filter → List Filter
row_filter_list none = []
row_filter_list (some f) = f ∷ []

abbrev pub policy_filters : SessionPolicy → List Filter
policy_filters policy = policy.forced_filters ++ row_filter_list policy.row_filter

abbrev pub with_filters : Query → List Filter → Query
with_filters q fs = record q { filters = fs }

push_filters_lem :
    (fs : List Filter) (q : Query) → push_filters fs q ≡ with_filters q (q.filters ++ fs)
unfolding push_filters
push_filters_lem [] q = ap (with_filters q) (sym (append-nil q.filters))
push_filters_lem (f ∷ fs) q =
    push_filters_lem fs (with_filters q (q.filters ++ f ∷ []))
    ∙ ap (with_filters q) (append_assoc q.filters (f ∷ []) fs)

push_row_filter_lem :
    (o : Option Filter) (q : Query)
    → push_row_filter o q ≡ with_filters q (q.filters ++ row_filter_list o)
unfolding push_row_filter
push_row_filter_lem none q = ap (with_filters q) (sym (append-nil q.filters))
push_row_filter_lem (some f) q = refl

-- The forced filters and then the row filter are appended behind the filters of the caller, in
-- order, and nothing else of the query changes.
pub apply_rls-apply_forced_filters :
    (policy : SessionPolicy) (q : Query)
    → apply_rls policy (apply_forced_filters policy q)
      ≡ with_filters q (q.filters ++ policy_filters policy)
unfolding apply_rls apply_forced_filters
apply_rls-apply_forced_filters policy q =
    ap (push_row_filter policy.row_filter) (push_filters_lem policy.forced_filters q)
    ∙ push_row_filter_lem policy.row_filter (with_filters q (q.filters ++ policy.forced_filters))
    ∙ ap (with_filters q)
        (append_assoc q.filters policy.forced_filters (row_filter_list policy.row_filter))
