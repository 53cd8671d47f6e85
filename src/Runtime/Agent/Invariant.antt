-- ===== src/Runtime/Agent/Invariant.antt =====
-- The invariant of the loop of agent.rs, and that a recorded step keeps it.
use graphnight.Base.{
  ℕ, suc, ◌+◌, ◌≤◌, ◌<◌, String, true, false, none, List, [], ◌∷◌, ◌++◌, ◌≡◌, refl, sym, ◌∙◌, ap,
  eq_iff, ◌==◌, inl, inr, Result, ltb, All, All-append, arith, ltb-true, ltb-false, Bool-cases,
}
use graphnight.Core.Models.{Value}
use graphnight.Runtime.Agent.{
  AgentBudget, AgentStopReason, ToolError, ToolCall, LlmResponse, Completion, Host, StepRecord,
  AgentRun,
}
use graphnight.Runtime.Agent.Loop.{
  Loop, count_of, next_errors, finish_answer, finish, fingerprint, new_step, is_max_tokens,
  record_step,
}
use graphnight.Runtime.Agent.Steps.{
  same, occurrences, occurrences-append, failures_after, Streaks, failures_after-append,
  Streaks-append, Streaks-suc, failures_after-le, next_errors-le, HasStep, HasStep-append,
  HasStep-last, Covers,
}
use graphnight.Runtime.Agent.Reasons.{
  Came, Explained, is_max_tokens-eq, max_tokens-true, kept_answer, cut_off,
}
use graphnight.Runtime.Agent.Flow.{Meets, returns, goes_on, Meets-if}

module _ {W : Type 0} (h : Host W) (b : AgentBudget) where
  -- The bounds on the steps that have been taken.
  abbrev pub Bounded : ℕ → List StepRecord → Type 0
  Bounded m steps =
      All (λ s. s.step < b.max_steps) steps
      × ((fp : String) → occurrences h fp steps ≤ b.max_repeat_calls)
      × Streaks m 0 steps

  abbrev pub Counted : Loop → Type 0
  Counted l = (fp : String) → count_of fp l.call_counts ≡ occurrences h fp l.steps

  -- The variables of the loop agree with the steps and are within the budget.
  abbrev pub Within : Loop → Type 0
  Within l =
      Bounded b.max_consecutive_errors l.steps
      × Counted l
      × (failures_after 0 l.steps ≡ l.consecutive_errors)

  -- The same in round `i`.
  abbrev pub InRound : ℕ → Loop → Type 0
  InRound i l = Within l × (l.step_index ≡ i) × Covers i l.steps

  -- The same when a step has been taken in the round.
  abbrev pub Stepped : ℕ → Loop → Type 0
  Stepped i l = InRound i l × HasStep i l.steps

  abbrev pub Final : AgentRun → Type 0
  Final run = Bounded (suc b.max_consecutive_errors) run.steps × Explained h b run.stop_reason run

  pub loosen_steps :
      (steps : List StepRecord)
      → Bounded b.max_consecutive_errors steps
      → Bounded (suc b.max_consecutive_errors) steps
  loosen_steps steps (s, r, k) = (s, r, Streaks-suc b.max_consecutive_errors 0 steps k)

  pub loosen : (l : Loop) → Within l → Bounded (suc b.max_consecutive_errors) l.steps
  loosen l ((s, r, k), c, f) = loosen_steps l.steps (s, r, k)

  -- The call has been counted and its step is still to be recorded.
  abbrev pub Pending : ℕ → ToolCall → Loop → Type 0
  Pending i call l =
      Bounded b.max_consecutive_errors l.steps
      × ((fp : String)
          → count_of fp l.call_counts
            ≡ occurrences h fp l.steps + same (fingerprint h call.name call.arguments) fp)
      × (count_of (fingerprint h call.name call.arguments) l.call_counts ≤ b.max_repeat_calls)
      × (failures_after 0 l.steps ≡ l.consecutive_errors)
      × (l.step_index ≡ i)
      × Covers i l.steps

  pub repeats :
      (i : ℕ) (call : ToolCall) (l : Loop)
      → Pending i call l
      → (fp : String)
      → occurrences h fp l.steps + same (fingerprint h call.name call.arguments) fp
        ≤ b.max_repeat_calls
  repeats i call l ((s, r, k), c, m, f, x, _) fp =
      elim (Bool-cases (fingerprint h call.name call.arguments == fp)) [
        | inl e ↦ rw (← c fp, ← (eq_iff (fingerprint h call.name call.arguments) fp).0 e) m
        | inr e ↦ rw e (omega (arith, r fp))
      ]

  pub Bounded-step :
      (i m : ℕ) (call : ToolCall) (l : Loop) (s : StepRecord)
      → Pending i call l
      → i < b.max_steps
      → Bounded m l.steps
      → s.step ≡ i
      → s.tool ≡ call.name
      → s.arguments ≡ call.arguments
      → next_errors l.consecutive_errors s.result ≤ m
      → Bounded m (l.steps ++ (s ∷ []))
  Bounded-step i m call l s p lt (a, r, k) si st sa le =
      let (_, _, _, f, _, _) = p in
      (
        All-append (λ s. s.step < b.max_steps) l.steps (s ∷ []) a (omega arith, tt),
        (λ fp. rw (occurrences-append h fp l.steps s, st, sa) (repeats i call l p fp)),
        Streaks-append m 0 l.steps s k (rw f le),
      )

  -- A return without an answer.
  pub finish-Meets :
      (P : Loop → Type 0) (reason : AgentStopReason) (l : Loop) (w : W)
      → Bounded (suc b.max_consecutive_errors) l.steps
      → ((run : AgentRun)
          → run.answer ≡ none
          → run.steps ≡ l.steps
          → run.usage ≡ l.usage
          → Explained h b reason run)
      → Meets Final P (finish h none reason l w)
  unfolding finish finish_answer
  finish-Meets P reason l w bd e = returns (bd, e _ refl refl refl)

  pub completed-Meets :
      (P : Loop → Type 0) (r : LlmResponse) (l : Loop) (w : W)
      → Came h b (Completion.answered r)
      → r.tool_calls ≡ []
      → is_max_tokens r.stop_reason ≡ false
      → Bounded (suc b.max_consecutive_errors) l.steps
      → Meets Final P (finish h r.content AgentStopReason.completed l w)
  unfolding finish
  completed-Meets P r l w came none_left full bd = returns (
    bd,
    (
      r,
      came,
      none_left,
      (λ e. max_tokens-true r.stop_reason e full),
      kept_answer h b r.content l.steps l.usage _,
    ),
  )

  pub truncated-Meets :
      (P : Loop → Type 0) (r : LlmResponse) (l : Loop) (w : W)
      → Came h b (Completion.answered r)
      → is_max_tokens r.stop_reason ≡ true
      → Bounded (suc b.max_consecutive_errors) l.steps
      → Meets Final P (finish h r.content AgentStopReason.truncated l w)
  unfolding finish
  truncated-Meets P r l w came full bd =
      returns (bd, (r, came, is_max_tokens-eq r.stop_reason full, cut_off h b r.content _ refl))

  pub record_step-Meets :
      (i : ℕ) (call : ToolCall) (l : Loop) (result : Result ToolError Value) (d : ℕ) (w : W)
      → i < b.max_steps
      → Pending i call l
      → Meets Final (Stepped i) (record_step h b call l result d w)
  unfolding record_step
  record_step-Meets i call l result d w lt p =
      let (bd, c, m, f, x, before) = p in
      let s : StepRecord = new_step call l.step_index result d in
      let failures : failures_after 0 (l.steps ++ (s ∷ []))
          ≡ next_errors l.consecutive_errors result =
        failures_after-append 0 l.steps s ∙ ap (λ n. next_errors n result) f in
      let small : failures_after 0 l.steps ≤ b.max_consecutive_errors =
        failures_after-le b.max_consecutive_errors 0 l.steps (omega arith) (bd.2) in
      let test = ltb b.max_consecutive_errors (next_errors l.consecutive_errors result) in
      let next = next_errors-le l.consecutive_errors result in
      let low : (e : test ≡ false)
          → next_errors l.consecutive_errors result ≤ b.max_consecutive_errors =
        ltb-false _ _ in
      let high : (e : test ≡ true)
          → b.max_consecutive_errors < next_errors l.consecutive_errors result =
        ltb-true _ _ in
      Meets-if Final (Stepped i) test _ _
        (λ e.
          finish-Meets (Stepped i) AgentStopReason.consecutive_errors _ w
            (Bounded-step i (suc b.max_consecutive_errors) call l s p lt (loosen_steps l.steps bd) x
              refl refl (omega arith))
            (λ run a s' u. (a, rw s' (omega (arith, high e)))))
        (λ e. goes_on (
          (
            (
              Bounded-step i b.max_consecutive_errors call l s p lt bd x refl refl (low e),
              (λ fp. c fp ∙ sym (occurrences-append h fp l.steps s)),
              failures,
            ),
            x,
            (λ j k. HasStep-append j l.steps (s ∷ []) (before j k)),
          ),
          HasStep-last i l.steps s x,
        ))
