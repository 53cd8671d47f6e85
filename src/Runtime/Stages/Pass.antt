-- ===== src/Runtime/Stages/Pass.antt =====
-- One pass over the waiting stages.
use graphnight.Base.{
  ℕ, ◌+◌, ◌≤◌, ◌<◌, String, true, false, Option, none, some, List, [], ◌∷◌, ◌++◌, Result, ok, err,
  ◌>>=◌, contains, length, ◌≡◌, refl, inl, inr, Listed, contains→Listed, Listed→contains, All,
  All-append, Any, arith, Bool-cases, length-append,
}
use mathlib.Core.List.{Permᴰ, append_assoc, map-append}
use mathlib.Core.List.Permᴰ
use graphnight.Runtime.Errors.{ServiceError, unknown_stage}
use graphnight.Runtime.Stages.{
  Stage, stage_name, names, Readiness, ready, waiting, unknown, readiness_of, Progress, visit, pass,
}

module _ (stages : List Stage) where
  -- The reference of a stage, if it has one, is among the names.
  abbrev pub HasRun : List String → Option String → Type 0
  HasRun done none = Unit
  HasRun done (some reference) = Listed reference done

  -- A sequence of names, each that of a stage whose reference stands further left.
  pub data Runs : List String → Type 0 where
    start : Runs []
    next :
        {done : List String} (entry : Stage)
        → Runs done
        → Any (λ s. s ≡ entry) stages
        → HasRun done entry.1.stage_ref
        → Runs (done ++ stage_name entry ∷ [])

  -- A stage that cannot run yet: it refers to a stage of the pipeline that has not run.
  abbrev pub Waits : List String → Stage → Type 0
  Waits done entry =
      (reference : String) × (entry.1.stage_ref ≡ some reference)
      × Listed reference (names stages)
      × (¬ Listed reference done)

  abbrev pub IsStage : Stage → Type 0
  IsStage entry = Any (λ s. s ≡ entry) stages

  data Judged (done : List String) (entry : Stage) : Readiness → Type 0 where
    can_run : HasRun done entry.1.stage_ref → Judged done entry ready
    must_wait : Waits done entry → Judged done entry waiting
    dangles :
        (reference : String)
        → entry.1.stage_ref ≡ some reference
        → ¬ Listed reference (names stages)
        → Judged done entry (unknown reference)

  not-Listed : (xs : List String) (a : String) → contains xs a ≡ false → ¬ Listed a xs
  not-Listed xs a h m = cc (h, Listed→contains xs a m)

  Judged-ref :
      (done : List String) (entry : Stage) (o : Option String)
      → entry.1.stage_ref ≡ o
      → Judged done entry (readiness_of stages done o)
  unfolding readiness_of
  Judged-ref done entry none e = can_run (rw e tt)
  Judged-ref done entry (some r) e = elim (Bool-cases (contains (names stages) r)) [
    | inr lost ↦ rw lost (dangles r e (not-Listed (names stages) r lost))
    | inl found ↦ elim (Bool-cases (contains done r)) [
      | inl ran ↦ rw (found, ran) (can_run (rw e (contains→Listed done r ran)))
      | inr pending ↦
          rw (found, pending)
            (must_wait (r, e, contains→Listed (names stages) r found, not-Listed done r pending))
    ]
  ]

  judged :
      (done : List String) (entry : Stage)
      → Judged done entry (readiness_of stages done entry.1.stage_ref)
  judged done entry = Judged-ref done entry entry.1.stage_ref refl

  -- The invariant of a pass that began with `n` stages, of which `rest` are still to be looked at.
  pub record IsPassing (n : ℕ) (p : Progress) (rest : List Stage) : Type 0 where
    pub runs : Runs p.resolved
    pub same : Permᴰ (p.resolved ++ (names p.still_waiting ++ names rest)) (names stages)
    pub old : All IsStage p.still_waiting
    pub new : All IsStage rest
    pub stuck : p.progressed ≡ false → All (Waits p.resolved) p.still_waiting
    pub room : length p.still_waiting + length rest ≤ n
    pub kept : p.progressed ≡ false → length p.still_waiting + length rest ≡ n
    pub shrinks : p.progressed ≡ true → length p.still_waiting + length rest < n

  module _ {n : ℕ} {p : Progress} (entry : Stage) {rest : List Stage}
      (i : IsPassing n p (entry ∷ rest)) where
    run_perm :
        Permᴰ
          ((p.resolved ++ stage_name entry ∷ []) ++ (names p.still_waiting ++ names rest))
          (names stages)
    run_perm =
        rw (append_assoc p.resolved (stage_name entry ∷ []) (names p.still_waiting ++ names rest)) (
          Permᴰ.trans
            (Permᴰ.append_left p.resolved
              (Permᴰ.symm (Permᴰ.middle (stage_name entry) (names p.still_waiting) (names rest))))
            i.same)

    wait_perm :
        Permᴰ (p.resolved ++ (names (p.still_waiting ++ entry ∷ []) ++ names rest)) (names stages)
    wait_perm = simp (map-append, append_assoc) i.same

    run-IsPassing :
        HasRun p.resolved entry.1.stage_ref
        → IsPassing n
            (record p { resolved = p.resolved ++ stage_name entry ∷ []; progressed = true })
            rest
    run-IsPassing h = record {
      runs = next entry i.runs i.new.0 h;
      same = run_perm;
      old = i.old;
      new = i.new.1;
      stuck = λ e. cc;
      room = omega (arith, i.room);
      kept = λ e. cc;
      shrinks = λ e. omega (arith, i.room);
    }

    wait-IsPassing :
        Waits p.resolved entry
        → IsPassing n (record p { still_waiting = p.still_waiting ++ entry ∷ [] }) rest
    wait-IsPassing w = record {
      runs = i.runs;
      same = wait_perm;
      old = All-append IsStage p.still_waiting (entry ∷ []) i.old (i.new.0, tt);
      new = i.new.1;
      stuck = λ e. All-append (Waits p.resolved) p.still_waiting (entry ∷ []) (i.stuck e) (w, tt);
      room = omega (arith, i.room, length-append p.still_waiting (entry ∷ []));
      kept = λ e. omega (arith, i.kept e, length-append p.still_waiting (entry ∷ []));
      shrinks = λ e. omega (arith, i.shrinks e, length-append p.still_waiting (entry ∷ []));
    }

  -- What a pass ends in: the invariant with nothing left to look at, or a dangling reference.
  pub data Passed (n : ℕ) : Result ServiceError Progress → Type 0 where
    passed : {p : Progress} → IsPassing n p [] → Passed n (ok p)
    broken :
        {reference : String} (entry : Stage)
        → IsStage entry
        → entry.1.stage_ref ≡ some reference
        → ¬ Listed reference (names stages)
        → Passed n (err (unknown_stage reference))

  visit-Passed :
      (n : ℕ) (p : Progress) (entry : Stage) (rest : List Stage) (r : Readiness)
      → (k : Progress → Result ServiceError Progress)
      → ((p' : Progress) → IsPassing n p' rest → Passed n (k p'))
      → Judged p.resolved entry r
      → IsPassing n p (entry ∷ rest)
      → Passed n (visit r entry p >>= k)
  unfolding visit
  visit-Passed n p entry rest ready k ih (can_run h) i = ih _ (run-IsPassing entry i h)
  visit-Passed n p entry rest waiting k ih (must_wait w) i = ih _ (wait-IsPassing entry i w)
  visit-Passed n p entry rest (unknown r) k ih (dangles _ e m) i = broken entry i.new.0 e m

  pub pass-Passed :
      (n : ℕ) (rest : List Stage) (p : Progress)
      → IsPassing n p rest
      → Passed n (pass stages rest p)
  unfolding pass
  pass-Passed n [] p i = passed i
  pass-Passed n (entry ∷ rest) p i =
      visit-Passed n p entry rest (readiness_of stages p.resolved entry.1.stage_ref)
        (pass stages rest) (λ p' i'. pass-Passed n rest p' i') (judged p.resolved entry) i
