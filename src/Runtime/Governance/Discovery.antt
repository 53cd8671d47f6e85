-- ===== src/Runtime/Governance/Discovery.antt =====
-- The operations of `QueryService` on the catalog: `visible_models`, `get_model`, `visible_datasources`
-- and `search` of governance.rs. The storage backend is a parameter.
use graphnight.Base.{
  ℕ, suc, zero, ◌*◌, ◌≤◌, ◌≡◌, ◌^◌, ◌-◌, min, String, Bool, true, ◌&&◌, Option, List, [], ◌∷◌,
  Result, ok, err, ok_or, ◌>>=◌, bind-Steps, ok_inj, is_ok, if◌then◌else◌, ◌==◌, trim, leb, keep,
  take, length, All, Bool-cases, inl, inr, arith, subst, All-map, refl,
}
use graphnight.Core.Models.{Model, DataSource}
use graphnight.Core.Security.{SessionPolicy, check_model_access, check_datasource_access}
use graphnight.Core.Security.Access.{Admits, Spares, check_access_iff}
use graphnight.Runtime.Errors.{ServiceError, model_not_found, search_empty}
use graphnight.Runtime.Context.{CallContext, session_policy, require_authenticated, access, stored}

pub record SearchResult : Type 0 where
  pub model_name : String
  pub datasource : String
  -- the text of the number
  pub score : String
  pub matched_fields : List String
  pub snippet : String

-- The backend's part in these operations.
pub record Catalog : Type 0 where
  pub list_models : Option String → Result String (List Model)
  pub get_model : String → Option String → Result String (Option Model)
  pub list_datasources : Result String (List DataSource)
  pub search : String → ℕ → Result String (List SearchResult)

-- Whether the policy admits a model and its datasource.
unfoldable pub admits : SessionPolicy → String → String → Bool
admits policy model datasource =
    is_ok (check_model_access policy model) && is_ok (check_datasource_access policy datasource)

-- `limit.saturating_mul(8).max(64)`, with 64-bit words.
abbrev pub search_budget : ℕ → ℕ
search_budget limit = let wide = min (limit * 8) (2 ^ 64 - 1) in if leb wide 64 then 64 else wide

module _ (catalog : Catalog) where
  unfoldable pub visible_models : CallContext → Option String → Result ServiceError (List Model)
  visible_models ctx datasource = do
    models ← stored (catalog.list_models datasource)
    ok (keep (λ m. admits (session_policy ctx) m.name m.datasource) models)

  unfoldable pub get_model : CallContext → String → Option String → Result ServiceError Model
  get_model ctx name datasource = do
    _ ← access (check_model_access (session_policy ctx) name)
    found ← stored (catalog.get_model name datasource)
    model ← ok_or found (model_not_found name)
    _ ← access (check_datasource_access (session_policy ctx) model.datasource)
    ok model

  unfoldable pub visible_datasources : CallContext → Result ServiceError (List DataSource)
  visible_datasources ctx = do
    datasources ← stored catalog.list_datasources
    ok (keep (λ d. is_ok (check_datasource_access (session_policy ctx) d.name)) datasources)

  search_hits : CallContext → String → ℕ → Result ServiceError (List SearchResult)
  search_hits ctx q limit = do
    hits ← stored (catalog.search q (search_budget limit))
    ok (take limit (keep (λ h. admits (session_policy ctx) h.model_name h.datasource) hits))

  unfoldable pub search : CallContext → String → ℕ → Result ServiceError (List SearchResult)
  unfolding search_hits
  search ctx query limit = do
    _ ← require_authenticated ctx
    if trim query == "" then err search_empty else search_hits ctx (trim query) limit

-- The element is one of the list.
pub data Among {A : Type 0} (a : A) : List A → Type 0 where
  first : {xs : List A} → Among a (a ∷ xs)
  later : {x : A} {xs : List A} → Among a xs → Among a (x ∷ xs)

module _ {A : Type 0} (p : A → Bool) where
  keep-All :
      (Q : A → Type 0)
      → ((a : A) → p a ≡ true → Q a)
      → (xs : List A) → All (λ a. Q a × Among a xs) (keep p xs)
  keep-All Q f [] = tt
  keep-All Q f (x ∷ xs) =
      let rest =
        All-map (λ a. Q a × Among a xs) (λ a. Q a × Among a (x ∷ xs)) (λ a (q, m). (q, later m))
          (keep p xs) (keep-All Q f xs) in
      elim (Bool-cases (p x)) [ inl e ↦ rw e (((f x e, first), rest)) | inr e ↦ rw e rest ]

module _ {A : Type 0} (Kept : A → Type 0) where
  take-All : (n : ℕ) (xs : List A) → All Kept xs → All Kept (take n xs)
  take-All zero xs h = tt
  take-All (suc n) [] h = tt
  take-All (suc n) (x ∷ xs) (h, k) = (h, take-All n xs k)

length-take : {A : Type 0} (n : ℕ) (xs : List A) → length (take n xs) ≤ n
length-take zero xs = omega arith
length-take (suc n) [] = omega arith
length-take (suc n) (x ∷ xs) = omega (arith, length-take n xs)

-- A result that the caller may see: its model is on the allow list and not on the deny list, its
-- datasource is on the allow list of datasources, where there are such lists.
abbrev pub IsVisible : CallContext → SearchResult → Type 0
IsVisible ctx h =
    Admits (session_policy ctx).allowed_models h.model_name
    × Spares (session_policy ctx).denied_models h.model_name
    × Admits (session_policy ctx).allowed_datasources h.datasource

is_ok-eq-ok : {E : Type 0} (r : Result E Unit) → is_ok r ≡ true → r ≡ ok tt
is_ok-eq-ok (ok tt) h = refl
is_ok-eq-ok (err e) h = cc

admits-IsVisible :
    (ctx : CallContext) (h : SearchResult)
    → admits (session_policy ctx) h.model_name h.datasource ≡ true
    → IsVisible ctx h
unfolding admits
admits-IsVisible ctx h e =
    let policy = session_policy ctx in
    let (models, datasources) = check_access_iff policy h.model_name h.datasource in
    let (a, s) = models.0 (is_ok-eq-ok (check_model_access policy h.model_name) (ground arith)) in
    (a, s, datasources.0 (is_ok-eq-ok (check_datasource_access policy h.datasource) (ground arith)))

-- The results are visible ones of those that the index has found for a query.
abbrev pub IsFound : Catalog → CallContext → String → ℕ → List SearchResult → Type 0
IsFound catalog ctx q limit hits =
    (found : List SearchResult) × (catalog.search q (search_budget limit) ≡ ok found)
    × All (λ h. IsVisible ctx h × Among h found) hits
    × (length hits ≤ limit)

stored-ok : {A : Type 0} (r : Result String A) (a : A) → stored r ≡ ok a → r ≡ ok a
stored-ok (ok b) a h = cc
stored-ok (err e) a h = cc

search_hits-IsFound :
    (catalog : Catalog) (ctx : CallContext) (q : String) (limit : ℕ) (hits : List SearchResult)
    → search_hits catalog ctx q limit ≡ ok hits
    → IsFound catalog ctx q limit hits
unfolding search_hits
search_hits-IsFound catalog ctx q limit hits h =
    let admitted = λ (r : SearchResult). admits (session_policy ctx) r.model_name r.datasource in
    let (found, s, h₁) = bind-Steps (stored (catalog.search q (search_budget limit))) _ h in
    subst (IsFound catalog ctx q limit) (ok_inj h₁) (
      found,
      stored-ok (catalog.search q (search_budget limit)) found s,
      take-All (λ r. IsVisible ctx r × Among r found) limit (keep admitted found)
          (keep-All admitted (IsVisible ctx) (admits-IsVisible ctx) found),
      length-take limit (keep admitted found),
    )

-- A search that succeeds returns no more results than were asked for, each one of those that the
-- backend's index has found for the trimmed query, and each of a model that is on the policy's allow list
-- and not on its deny list and of a datasource that is on the policy's allow list of datasources, where
-- the policy of the caller has such lists, whatever the index has found.
pub search-IsVisible :
    (catalog : Catalog) (ctx : CallContext) (query : String) (limit : ℕ) (hits : List SearchResult)
    → search catalog ctx query limit ≡ ok hits
    → IsFound catalog ctx (trim query) limit hits
unfolding search
search-IsVisible catalog ctx query limit hits h =
    let (_, a, h₁) = bind-Steps (require_authenticated ctx) _ h in
    elim (Bool-cases (trim query == "")) [
      | inl e ↦
          let k : ◌≡◌ {A = Result ServiceError (List SearchResult)} (err search_empty) (ok hits) =
            rw e at h₁ in
          absurd (cc)
      | inr e ↦ search_hits-IsFound catalog ctx (trim query) limit hits (rw e at h₁)
    ]
