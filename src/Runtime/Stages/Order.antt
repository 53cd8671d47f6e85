-- ===== src/Runtime/Stages/Order.antt =====
-- The order of the stages is right, and an order that is refused does not exist.
use graphnight.Base.{
  ℕ, zero, suc, ◌≤◌, ◌<◌, String, true, Option, none, some, List, [], ◌∷◌, ◌++◌, Result, ok, err,
  length, ◌≡◌, refl, sym, ◌∙◌, inl, inr, Listed, All, arith, Bool-cases, here, there,
}
use mathlib.Core.List.{Permᴰ, append-nil}
use mathlib.Core.List.Permᴰ
use graphnight.Runtime.Errors.{ServiceError, unknown_stage, cycle}
use graphnight.Runtime.Stages.{Stage, names, Progress, next_round, order_from, topological_order}
use graphnight.Runtime.Stages.Pass.{
  Runs, start, Waits, IsStage, IsPassing, Passed, passed, broken, pass-Passed,
}

module _ (stages : List Stage) where
  -- A list of stages that all wait: each refers to a stage of the list.
  abbrev pub WaitsOn : List String → Stage → Type 0
  WaitsOn blocked entry =
      (reference : String) × (entry.1.stage_ref ≡ some reference) × Listed reference blocked

  -- The three answers, each with what it means.
  pub data Verdict : Result ServiceError (List String) → Type 0 where
    sorted :
        {order : List String} → Runs stages order → Permᴰ order (names stages) → Verdict (ok order)
    dangling :
        {reference : String} (entry : Stage)
        → IsStage stages entry
        → entry.1.stage_ref ≡ some reference
        → ¬ Listed reference (names stages)
        → Verdict (err (unknown_stage reference))
    cyclic :
        (entry : Stage) (blocked : List Stage)
        → All (IsStage stages) (entry ∷ blocked)
        → All (WaitsOn (names (entry ∷ blocked))) (entry ∷ blocked)
        → Verdict (err (cycle (names (entry ∷ blocked))))

  abbrev Decided : Option (Result ServiceError (List String)) → Type 0
  Decided none = ⊥
  Decided (some r) = Verdict r

  Listed-Permᴰ : {a : String} {xs ys : List String} → Permᴰ xs ys → Listed a xs → Listed a ys
  Listed-Permᴰ Permᴰ.nil m = m
  Listed-Permᴰ (Permᴰ.cons e p) (here h) = here (sym e ∙ h)
  Listed-Permᴰ (Permᴰ.cons e p) (there m) = there (Listed-Permᴰ p m)
  Listed-Permᴰ (Permᴰ.swap e f) (here h) = there (here (sym e ∙ h))
  Listed-Permᴰ (Permᴰ.swap e f) (there (here h)) = here (sym f ∙ h)
  Listed-Permᴰ (Permᴰ.swap e f) (there (there m)) = there (there m)
  Listed-Permᴰ (Permᴰ.trans p q) m = Listed-Permᴰ q (Listed-Permᴰ p m)

  Listed-append :
      {a : String} (xs ys : List String) → Listed a (xs ++ ys) → ¬ Listed a xs → Listed a ys
  Listed-append [] ys m h = m
  Listed-append (x ∷ xs) ys (here e) h = absurd (h (here e))
  Listed-append (x ∷ xs) ys (there m) h = Listed-append xs ys m (λ n. h (there n))

  blocked_WaitsOn :
      (done blocked : List String) (entry : Stage)
      → Permᴰ (done ++ blocked) (names stages)
      → Waits stages done entry
      → WaitsOn blocked entry
  blocked_WaitsOn done blocked entry p (r, e, listed, not_run) =
      (r, e, Listed-append done blocked (Listed-Permᴰ (Permᴰ.symm p) listed) not_run)

  All-WaitsOn :
      (done blocked : List String) (ws : List Stage)
      → Permᴰ (done ++ blocked) (names stages)
      → All (Waits stages done) ws
      → All (WaitsOn blocked) ws
  All-WaitsOn done blocked [] p h = tt
  All-WaitsOn done blocked (w ∷ ws) p (h, hs) =
      (blocked_WaitsOn done blocked w p h, All-WaitsOn done blocked ws p hs)

  stuck-Verdict :
      (done : List String) (ws : List Stage)
      → 0 < length ws
      → All (IsStage stages) ws
      → Permᴰ (done ++ names ws) (names stages)
      → All (Waits stages done) ws
      → Verdict (err (cycle (names ws)))
  stuck-Verdict done [] h old p w = absurd (omega arith)
  stuck-Verdict done (x ∷ ws) h old p w =
      cyclic x ws old (All-WaitsOn done (names (x ∷ ws)) (x ∷ ws) p w)

  end_perm :
      {n : ℕ} {p : Progress}
      → IsPassing stages n p []
      → Permᴰ (p.resolved ++ names p.still_waiting) (names stages)
  end_perm i = simp append-nil at i.same

  next_round-Decided :
      {n : ℕ} {r : Result ServiceError Progress}
      → (again : List Stage → List String → Option (Result ServiceError (List String))) → 0 < n
      → ((p : Progress)
          → IsPassing stages n p []
          → p.progressed ≡ true
          → Decided (again p.still_waiting p.resolved))
      → Passed stages n r
      → Decided (next_round again r)
  unfolding next_round
  next_round-Decided again h ih (broken entry s e m) = dangling entry s e m
  next_round-Decided again h ih (passed {p = p} i) = elim (Bool-cases p.progressed) [
    | inl moved ↦ rw (moved, next_round) (ih p i moved)
    | inr stopped ↦
        rw (stopped, next_round)
          (stuck-Verdict p.resolved p.still_waiting (omega (arith, i.kept stopped)) i.old
            (end_perm i) (i.stuck stopped))
  ]

  order_from-Decided :
      (fuel : ℕ) (rest : List Stage) (done : List String)
      → Runs stages done
      → Permᴰ (done ++ names rest) (names stages)
      → All (IsStage stages) rest
      → length rest ≤ fuel
      → Decided (order_from fuel stages rest done)
  unfolding order_from
  order_from-Decided fuel [] done r p a h = sorted r (rw append-nil at p)
  order_from-Decided zero (x ∷ rest) done r p a h = absurd (omega arith)
  order_from-Decided (suc fuel) (x ∷ rest) done r p a h =
      next_round-Decided (order_from fuel stages) (omega arith)
        (λ q i moved.
          order_from-Decided fuel q.still_waiting q.resolved i.runs (end_perm i) i.old
            (omega (arith, i.shrinks moved)))
        (pass-Passed stages (length (x ∷ rest)) (x ∷ rest) _ record {
          runs = r;
          same = p;
          old = tt;
          new = a;
          stuck = λ _. tt;
          room = omega arith;
          kept = λ _. omega arith;
          shrinks = λ e. cc;
        })

some_of_Decided :
    (stages : List Stage) (o : Option (Result ServiceError (List String)))
    → Decided stages o
    → (r : Result ServiceError (List String)) × (o ≡ some r) × Verdict stages r
some_of_Decided stages none d = absurd d
some_of_Decided stages (some r) d = (r, refl, d)

All-IsStage_there :
    (xs : List Stage) (y : Stage) (ys : List Stage)
    → All (IsStage ys) xs
    → All (IsStage (y ∷ ys)) xs
All-IsStage_there [] y ys h = tt
All-IsStage_there (x ∷ xs) y ys (h, hs) = (there h, All-IsStage_there xs y ys hs)

All-IsStage_self : (stages : List Stage) → All (IsStage stages) stages
All-IsStage_self [] = tt
All-IsStage_self (x ∷ xs) = (here refl, All-IsStage_there xs x xs (All-IsStage_self xs))

-- Ordering the stages of a pipeline always ends, and with one of three answers. An order is a
-- permutation of the names of the stages in which each name is that of a stage whose reference, if
-- it has one, stands further left. An unknown reference is that of a stage of the pipeline, and no
-- stage has that name. A cycle names a non-empty list of stages of the pipeline, each of which
-- refers to a stage of that list.
pub topological_order-Verdict :
    (stages : List Stage)
    → (r : Result ServiceError (List String)) × (topological_order stages ≡ some r)
      × Verdict stages r
unfolding topological_order
topological_order-Verdict stages =
    some_of_Decided stages (order_from (length stages) stages stages []) (
      order_from-Decided stages (length stages) stages [] start (Permᴰ.refl (names stages))
        (All-IsStage_self stages) (omega arith))
