-- ===== src/Sql/Generator/Filters/Policies.antt =====
-- Which rows a WHERE clause keeps once a session policy has added its filters to those of the caller.
use graphnight.Base.{
  ◌≡◌, refl, ap, ◌∙◌, Bool, true, false, ◌&&◌, ◌||◌, List, [], ◌∷◌, ◌++◌, all, any, arith, All,
  All-append,
}
use mathlib.Core.List.{append_assoc}
use graphnight.Core.Models.{Filter, Query}
use graphnight.Core.Security.{SessionPolicy, apply_rls, apply_forced_filters}
use graphnight.Core.Security.Access.{policy_filters, with_filters, apply_rls-apply_forced_filters}
use graphnight.Sql.Generator.Filters.Groups.{runs, runs_one, runs-append}

abbrev or_flag : Filter → Bool
or_flag f = f.or_condition

-- Whether a row, for which each condition has a truth value, is kept by the disjunction of
-- conjunctions that the filters are written as. Without filters there is no clause.
pub keeps : (Filter → Bool) → List Filter → Bool
keeps row [] = true
keeps row (f ∷ fs) = any (all row) (runs or_flag (f ∷ fs))

abbrev pub IsConjunct : Filter → Type 0
IsConjunct f = f.or_condition ≡ false

module _ {A : Type 0} (p : A → Bool) where
  all-append : (xs ys : List A) → all p (xs ++ ys) ≡ (all p xs && all p ys)
  all-append [] ys = refl
  all-append (x ∷ xs) ys = ground (arith, all-append xs ys)

  any-append : (xs ys : List A) → any p (xs ++ ys) ≡ (any p xs || any p ys)
  any-append [] ys = refl
  any-append (x ∷ xs) ys = ground (arith, any-append xs ys)

keeps-all : (row : Filter → Bool) (fs : List Filter) → All IsConjunct fs → keeps row fs ≡ all row fs
unfolding keeps
keeps-all row [] h = refl
keeps-all row (f ∷ fs) (c, h) = rw (runs_one or_flag f fs h) (ground arith)

-- If no filter of the caller and none of the policy is an alternative, then the rows that are kept
-- are those that pass every filter of the caller and every filter of the policy.
apply_rls-keeps_all :
    (policy : SessionPolicy) (q : Query) (row : Filter → Bool)
    → All IsConjunct q.filters
    → All IsConjunct (policy_filters policy)
    → keeps row (apply_rls policy (apply_forced_filters policy q)).filters
      ≡ (all row q.filters && all row (policy_filters policy))
apply_rls-keeps_all policy q row h k =
    ap (λ p. keeps row p.filters) (apply_rls-apply_forced_filters policy q)
    ∙ keeps-all row (q.filters ++ policy_filters policy)
        (All-append IsConjunct q.filters (policy_filters policy) h k)
    ∙ all-append row q.filters (policy_filters policy)

-- If the last filter of the caller, behind others, is an alternative, then a row is also kept when it
-- passes the filters before that one, whatever the filters of the policy say of it: they only
-- restrict the last alternative.
apply_rls-keeps_or :
    (policy : SessionPolicy) (q : Query) (row : Filter → Bool) (u : Filter) (us : List Filter)
    (f : Filter)
    → f.or_condition ≡ true
    → All IsConjunct (policy_filters policy)
    → keeps row
        (apply_rls policy
          (apply_forced_filters policy (with_filters q ((u ∷ us) ++ f ∷ [])))).filters
      ≡ (keeps row (u ∷ us) || (row f && all row (policy_filters policy)))
unfolding keeps
apply_rls-keeps_or policy q row u us f h k =
    ap (λ p. keeps row p.filters)
      (apply_rls-apply_forced_filters policy (with_filters q ((u ∷ us) ++ f ∷ [])))
    ∙ ap (keeps row) (append_assoc (u ∷ us) (f ∷ []) (policy_filters policy))
    ∙ ap (any (all row)) (runs-append or_flag u us f (policy_filters policy) h)
    ∙ any-append (all row) (runs or_flag (u ∷ us)) (runs or_flag (f ∷ policy_filters policy))
    ∙ rw (runs_one or_flag f (policy_filters policy) k) (ground arith)

-- When no filter of the policy is an alternative: if no filter of the caller is one either, the rows that
-- are kept are those that pass every filter of both; if the last filter of the caller, behind others, is
-- one, a row is also kept when it passes the filters before that one, whatever the policy says of it.
pub apply_rls-keeps :
    (policy : SessionPolicy) (q : Query) (row : Filter → Bool) (u : Filter) (us : List Filter)
    (f : Filter)
    → All IsConjunct q.filters
    → f.or_condition ≡ true
    → All IsConjunct (policy_filters policy)
    → (keeps row (apply_rls policy (apply_forced_filters policy q)).filters
        ≡ (all row q.filters && all row (policy_filters policy)))
      × (keeps row
            (apply_rls policy
              (apply_forced_filters policy (with_filters q ((u ∷ us) ++ f ∷ [])))).filters
          ≡ (keeps row (u ∷ us) || (row f && all row (policy_filters policy))))
apply_rls-keeps policy q row u us f h e k =
    (apply_rls-keeps_all policy q row h k, apply_rls-keeps_or policy q row u us f e k)
