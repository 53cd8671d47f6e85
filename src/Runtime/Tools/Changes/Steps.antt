-- ===== src/Runtime/Tools/Changes/Steps.antt =====
-- What the steps of the tools of tools.rs come to, with the rules for a chain of them.
use graphnight.Base.{
  ◌≡◌, refl, ap, inl, inr, String, true, Bool-cases, Option, none, some, List, [], ◌∷◌, Result, ok,
  err, ◌==◌, ok_or, is_ok,
}
use graphnight.Runtime.Tools.Changes.Outcomes.{IsUnread}
use graphnight.Core.Models.{Model}
use graphnight.Runtime.Agent.{ToolError}
use graphnight.Runtime.Tools.Changes.{Step, ◌after◌, orphans, reported}

-- The step has failed for a reason, or it has succeeded and what a success has done holds.
pub data UnlessFailed {S A : Type 0} (F : Type 0) (P : Step S A → Type 0) : Step S A → Type 0 where
  failed : {e : ToolError} {s : S} → F → UnlessFailed F P (err e, s)
  done : {out : Step S A} → is_ok out.0 ≡ true → P out → UnlessFailed F P out

pub after-UnlessFailed :
    {S A C : Type 0} (F : Type 0) (P : Step S C → Type 0) (step : Step S A)
    (next : A → S → Step S C)
    → ((e : ToolError) → step.0 ≡ err e → F)
    → ((a : A) → step.0 ≡ ok a → UnlessFailed F P (next a step.1))
    → UnlessFailed F P (step after next)
unfolding ◌after◌
after-UnlessFailed F P (err e, s) next f h = failed (f e refl)
after-UnlessFailed F P (ok a, s) next f h = h a refl

-- A call of the storage that is reported as a success.
pub reported-ok :
    {A S : Type 0} (code : String) (r : Result String A × S) (a : A)
    → reported code r.0 ≡ ok a
    → r ≡ (ok a, r.1)
reported-ok code (ok b, s) a e = let same : b ≡ a = cc in ap (λ x. (ok x, s)) same
reported-ok code (err x, s) a e = cc

-- One that is reported as a failure.
pub reported-err :
    {A : Type 0} (code : String) (r : Result String A) (e : ToolError)
    → reported code r ≡ err e
    → (x : String) × (r ≡ err x)
reported-err code (ok b) e h = cc
reported-err code (err x) e h = (x, refl)

pub ok_or-err : {A : Type 0} (o : Option A) (e e' : ToolError) → ok_or o e ≡ err e' → o ≡ none
ok_or-err none e e' h = refl
ok_or-err (some b) e e' h = cc

pub IsUnread-orphans :
    (name : String) (ms rest : List Model) (m : Model)
    → orphans name ms ≡ m ∷ rest
    → ¬ IsUnread name ms
IsUnread-orphans name [] rest m h u = absurd (cc)
IsUnread-orphans name (n ∷ ms) rest m h (e, u) = IsUnread-orphans name ms rest m (rw e at h) u

pub ok_or-ok : {A : Type 0} (o : Option A) (e : ToolError) (a : A) → ok_or o e ≡ ok a → o ≡ some a
ok_or-ok none e a h = cc
ok_or-ok (some b) e a h = cc

pub orphans-IsUnread : (name : String) (ms : List Model) → orphans name ms ≡ [] → IsUnread name ms
orphans-IsUnread name [] h = tt
orphans-IsUnread name (m ∷ ms) h = elim (Bool-cases (m.datasource == name)) [
  | inl e ↦ let k : ◌≡◌ {A = List Model} (m ∷ orphans name ms) [] = rw e at h in absurd (cc)
  | inr e ↦ (e, orphans-IsUnread name ms (rw e at h))
]
