-- ===== src/Runtime/Agent/Steps.antt =====
-- Counting over the recorded steps of agent.rs: how often a call occurs, and how many failures are in a
-- row.
use graphnight.Base.{
  ℕ, suc, ◌+◌, ◌≤◌, String, true, false, List, [], ◌∷◌, ◌++◌, ◌≡◌, refl, sym, ◌∙◌, inl, inr, ◌==◌,
  eq_iff, if◌then◌else◌, Bool-cases, arith, Result, ok, err, ◌≤◌, ◌<◌, ltb, ltb-true, ltb-false,
  subst,
}
use graphnight.Runtime.Agent.{Host, StepRecord, ToolError}
use graphnight.Core.Models.{Value}
use graphnight.Runtime.Agent.Loop.{fingerprint, next_errors, count_of, add_count}

-- 1 where the two are the same call.
abbrev pub same : String → String → ℕ
same a b = if a == b then 1 else 0

module _ {W : Type 0} (h : Host W) where
  abbrev pub occurrences : String → List StepRecord → ℕ
  occurrences fp [] = 0
  occurrences fp (s ∷ ss) = same (fingerprint h s.tool s.arguments) fp + occurrences fp ss

  pub occurrences-append :
      (fp : String) (ss : List StepRecord) (s : StepRecord)
      → occurrences fp (ss ++ (s ∷ []))
        ≡ occurrences fp ss + same (fingerprint h s.tool s.arguments) fp
  occurrences-append fp [] s = omega arith
  occurrences-append fp (t ∷ ss) s = omega (arith, occurrences-append fp ss s)

-- The failures in a row behind the steps, `n` of them before.
abbrev pub failures_after : ℕ → List StepRecord → ℕ
failures_after n [] = n
failures_after n (s ∷ ss) = failures_after (next_errors n s.result) ss

-- There are never more than `m` failures in a row.
abbrev pub Streaks : ℕ → ℕ → List StepRecord → Type 0
Streaks m n [] = Unit
Streaks m n (s ∷ ss) = (next_errors n s.result ≤ m) × Streaks m (next_errors n s.result) ss

pub failures_after-append :
    (n : ℕ) (ss : List StepRecord) (s : StepRecord)
    → failures_after n (ss ++ (s ∷ [])) ≡ next_errors (failures_after n ss) s.result
failures_after-append n [] s = refl
failures_after-append n (t ∷ ss) s = failures_after-append (next_errors n t.result) ss s

pub Streaks-append :
    (m n : ℕ) (ss : List StepRecord) (s : StepRecord)
    → Streaks m n ss
    → next_errors (failures_after n ss) s.result ≤ m
    → Streaks m n (ss ++ (s ∷ []))
Streaks-append m n [] s k le = (le, tt)
Streaks-append m n (t ∷ ss) s (p, k) le = (p, Streaks-append m (next_errors n t.result) ss s k le)

pub Streaks-suc : (m n : ℕ) (ss : List StepRecord) → Streaks m n ss → Streaks (suc m) n ss
Streaks-suc m n [] k = tt
Streaks-suc m n (t ∷ ss) (p, k) = (omega arith, Streaks-suc m (next_errors n t.result) ss k)

same_first : (i k j : String) → i == k ≡ false → i == j ≡ true → k == j ≡ false
same_first i k j e f = elim (Bool-cases (k == j)) [
  | inl g ↦ let t : i == k ≡ true = (eq_iff i k).1 ((eq_iff i j).0 f ∙ sym ((eq_iff k j).0 g)) in cc
  | inr g ↦ g
]

pub count_of-add_count :
    (k j : String) (m : List (String × ℕ)) → count_of j (add_count k m) ≡ count_of j m + same k j
unfolding count_of add_count
count_of-add_count k j [] = elim (Bool-cases (k == j)) [ inl e ↦ rw e refl | inr e ↦ rw e refl ]
count_of-add_count k j ((i, n) ∷ m) = elim (Bool-cases (i == k)) [
  | inl e ↦ elim (Bool-cases (i == j)) [
    | inl f ↦ let g : k == j ≡ true = rw (← (eq_iff i k).0 e) f in rw (e, f, g) (omega arith)
    | inr f ↦ let g : k == j ≡ false = rw (← (eq_iff i k).0 e) f in rw (e, f, g) (omega arith)
  ]
  | inr e ↦ elim (Bool-cases (i == j)) [
    | inl f ↦ let g : k == j ≡ false = same_first i k j e f in rw (e, f, g) (omega arith)
    | inr f ↦ rw (e, f) (count_of-add_count k j m)
  ]
]

pub failures_after-le :
    (m n : ℕ) (ss : List StepRecord) → n ≤ m → Streaks m n ss → failures_after n ss ≤ m
failures_after-le m n [] le k = le
failures_after-le m n (s ∷ ss) le (p, k) = failures_after-le m (next_errors n s.result) ss p k

pub next_errors-le : (n : ℕ) (r : Result ToolError Value) → next_errors n r ≤ suc n
next_errors-le n (ok v) = omega arith
next_errors-le n (err e) = omega arith

-- A step was taken in round `i`.
pub data HasStep (i : ℕ) : List StepRecord → Type 0 where
  here : {s : StepRecord} {steps : List StepRecord} → s.step ≡ i → HasStep i (s ∷ steps)
  there : {s : StepRecord} {steps : List StepRecord} → HasStep i steps → HasStep i (s ∷ steps)

pub HasStep-append :
    (i : ℕ) (steps more : List StepRecord) → HasStep i steps → HasStep i (steps ++ more)
HasStep-append i [] more p = elim p [ ]
HasStep-append i (s ∷ steps) more (here e) = here e
HasStep-append i (s ∷ steps) more (there p) = there (HasStep-append i steps more p)

pub HasStep-last :
    (i : ℕ) (steps : List StepRecord) (s : StepRecord) → s.step ≡ i → HasStep i (steps ++ (s ∷ []))
HasStep-last i [] s e = here e
HasStep-last i (t ∷ steps) s e = there (HasStep-last i steps s e)

-- A step was taken in each round before the given one.
abbrev pub Covers : ℕ → List StepRecord → Type 0
Covers i steps = (j : ℕ) → j < i → HasStep j steps

pub Covers-suc :
    (i : ℕ) (steps : List StepRecord) → Covers i steps → HasStep i steps → Covers (suc i) steps
Covers-suc i steps c p j lt = elim (Bool-cases (ltb j i)) [
  | inl e ↦ c j (ltb-true j i e)
  | inr e ↦
      let same : i ≡ j = omega (arith, ltb-false j i e, lt) in subst (λ k. HasStep k steps) same p
]
