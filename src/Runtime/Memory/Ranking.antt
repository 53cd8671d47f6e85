-- ===== src/Runtime/Memory/Ranking.antt =====
-- What `ranked` of memory.rs shows a caller.
use graphnight.Base.{
  ℕ, ◌≡◌, refl, String, Bool, true, Bool-cases, inl, inr, Option, none, some, List, [], ◌∷◌, keep,
  eq_refl, ◌==◌, All, Result, ok, err, ok_inj, trim,
}
use mathlib.Core.List.{Permᴰ}
use mathlib.Core.List.Permᴰ
use graphnight.Runtime.Errors.{ServiceError}
use graphnight.Runtime.Context.{CallContext}
use graphnight.Runtime.Memory.{MemoryRecord, Floats, visible_to, scope_of_caller, from_agent_input}
use graphnight.Runtime.Memory.Scores.{comes_behind, insert_ranked, sort_ranked, ranked}

module _ {F : Type 0} (floats : Floats F) (now : ℕ) (terms : List String) where
  insert_ranked-Permᴰ :
      (a : MemoryRecord F) (bs : List (MemoryRecord F))
      → Permᴰ (insert_ranked floats now terms a bs) (a ∷ bs)
  unfolding insert_ranked
  insert_ranked-Permᴰ a [] = Permᴰ.refl (a ∷ [])
  insert_ranked-Permᴰ a (b ∷ bs) = elim (Bool-cases (comes_behind floats now terms a b)) [
    | inl e ↦ rw e (Permᴰ.trans (Permᴰ.cons refl (insert_ranked-Permᴰ a bs)) (Permᴰ.swap refl refl))
    | inr e ↦ rw e (Permᴰ.refl (a ∷ b ∷ bs))
  ]

  sort_ranked-Permᴰ : (rs : List (MemoryRecord F)) → Permᴰ (sort_ranked floats now terms rs) rs
  unfolding sort_ranked
  sort_ranked-Permᴰ [] = Permᴰ.nil
  sort_ranked-Permᴰ (a ∷ rest) =
      Permᴰ.trans (insert_ranked-Permᴰ a (sort_ranked floats now terms rest))
        (Permᴰ.cons refl (sort_ranked-Permᴰ rest))

All-Permᴰ : {A : Type 0} (P : A → Type 0) {xs ys : List A} → Permᴰ xs ys → All P ys → All P xs
All-Permᴰ P Permᴰ.nil h = tt
All-Permᴰ P (Permᴰ.cons e d) (p, h) = (rw e p, All-Permᴰ P d h)
All-Permᴰ P (Permᴰ.swap e f) (p, (q, h)) = (rw e q, (rw f p, h))
All-Permᴰ P (Permᴰ.trans d d') h = All-Permᴰ P d (All-Permᴰ P d' h)

keep-All : {A : Type 0} (p : A → Bool) (xs : List A) → All (λ x. p x ≡ true) (keep p xs)
keep-All p [] = tt
keep-All p (x ∷ xs) = elim (Bool-cases (p x)) [
  | inl e ↦ rw e (e, keep-All p xs)
  | inr e ↦ rw e (keep-All p xs)
]

visible_to-scope_of_caller :
    (ctx : CallContext) (tenant_id user_id : Option String)
    → ctx.tenant_id ≡ tenant_id
    → ctx.user_id ≡ user_id
    → visible_to (scope_of_caller tenant_id user_id) ctx ≡ true
unfolding visible_to scope_of_caller
visible_to-scope_of_caller ctx t (some u) e f = rw f (eq_refl u)
visible_to-scope_of_caller ctx (some t) none e f = rw e (eq_refl t)
visible_to-scope_of_caller ctx none none e f = refl

from_agent_input-visible :
    {F : Type 0} (floats : Floats F) (now : ℕ) (ctx : CallContext) (text : String)
    (entities : List String) (kind : Option String) (importance : Option F)
    (description : Option String) (uuid : String) (r : MemoryRecord F)
    → from_agent_input floats text entities kind importance description ctx now uuid ≡ ok r
    → visible_to r.scope ctx ≡ true
unfolding from_agent_input
from_agent_input-visible floats now ctx text entities kind importance description uuid r h =
    elim (Bool-cases (trim text == "")) [
      | inl e ↦
          let k : ◌≡◌ {A = Result ServiceError (MemoryRecord _)} (err _) (ok r) = rw e at h in cc
      | inr e ↦
          let k : ok _ ≡ ok r = rw e at h in
          rw (← ok_inj k) (visible_to-scope_of_caller ctx ctx.tenant_id ctx.user_id refl refl)
    ]

-- A caller is shown each record that is visible to it, as often as it was given, in some order, and no
-- other; a record that it has written itself is visible to it.
pub ranked-visible_to :
    {F : Type 0} (floats : Floats F) (now : ℕ) (records : List (MemoryRecord F)) (ctx : CallContext)
    (query : Option String) (text : String) (entities : List String) (kind : Option String)
    (importance : Option F) (description : Option String) (uuid : String) (r : MemoryRecord F)
    → from_agent_input floats text entities kind importance description ctx now uuid ≡ ok r
    → Permᴰ
        (ranked floats now records ctx query)
        (keep (λ (m : MemoryRecord F). visible_to m.scope ctx) records)
      × All
          (λ (m : MemoryRecord F). visible_to m.scope ctx ≡ true)
          (ranked floats now records ctx query)
      × (visible_to r.scope ctx ≡ true)
unfolding ranked
ranked-visible_to floats now records ctx query text entities kind importance description uuid r h =
    let visible = keep (λ (m : MemoryRecord _). visible_to m.scope ctx) records in
    let same = sort_ranked-Permᴰ floats now _ visible in
    (
      same,
      All-Permᴰ (λ (m : MemoryRecord _). visible_to m.scope ctx ≡ true) same
          (keep-All (λ (m : MemoryRecord _). visible_to m.scope ctx) records),
      from_agent_input-visible floats now ctx text entities kind importance description uuid r h,
    )
