-- ===== src/Runtime/Agent/Reasons.antt =====
-- What the reason to stop says of a run of agent.rs.
use graphnight.Base.{
  ℕ, suc, ◌≤◌, String, true, false, Option, none, some, List, [], ◌≡◌, refl, ◌==◌, ◌⊎◌, inl, inr,
  ◌+s◌, length, ◌≢◌, subst, if_either, if◌then◌else◌, trim,
}
use graphnight.Runtime.Agent.{
  AgentBudget, AgentStopReason, is_success, total, notice, Usage, ChatMessage, StopReason,
  LlmResponse, Completion, Host, StepRecord, AgentRun,
}
use graphnight.Runtime.Agent.Loop.{with_notice, finish_answer, is_max_tokens}
use graphnight.Runtime.Agent.Steps.{occurrences, failures_after, Covers}

pub is_max_tokens-eq : (r : StopReason) → is_max_tokens r ≡ true → r ≡ StopReason.max_tokens
is_max_tokens-eq StopReason.max_tokens e = refl
is_max_tokens-eq StopReason.end_turn e = cc
is_max_tokens-eq StopReason.tool_use e = cc
is_max_tokens-eq StopReason.stop_sequence e = cc
is_max_tokens-eq StopReason.error e = cc

pub max_tokens-true : (r : StopReason) → r ≡ StopReason.max_tokens → ¬ (is_max_tokens r ≡ false)
max_tokens-true r e h = let k : true ≡ false = subst (λ x. is_max_tokens x ≡ false) e h in cc

module _ {W : Type 0} (h : Host W) (b : AgentBudget) where
  -- The provider was asked and this came of it.
  abbrev pub Came : Completion → Type 0
  Came c =
      (time : ℕ) × (messages : List ChatMessage) × (w : W) × ((h.complete time b.max_output_tokens
          messages w).0
        ≡ c)

  -- The answer of a run that is the content of a response, or that cut off and with a notice behind it.
  abbrev pub IsCutOff : Option String → AgentRun → Type 0
  IsCutOff none run = run.answer ≡ none
  IsCutOff (some text) run =
      (shown : String) × ((shown ≡ text) ⊎ (shown ≡ text +s "\n\n"))
      × (run.answer
          ≡ some (
              shown
              +s notice h.seconds AgentStopReason.truncated (length run.steps) (total run.usage)
                  run.elapsed))

  -- What each reason to stop says of the run and of the host.
  abbrev pub Explained : AgentStopReason → AgentRun → Type 0
  Explained AgentStopReason.completed run =
      (r : LlmResponse) × Came (Completion.answered r)
      × (r.tool_calls ≡ [])
      × (r.stop_reason ≢ StopReason.max_tokens)
      × (run.answer ≡ r.content)
  Explained AgentStopReason.max_steps run = (run.answer ≡ none) × Covers b.max_steps run.steps
  Explained AgentStopReason.token_budget run =
      (run.answer ≡ none) × (b.max_tokens ≤ total run.usage)
  Explained AgentStopReason.timeout run =
      (run.answer ≡ none)
      × (((w : W) × (b.max_duration ≤ (h.elapsed w).0)) ⊎ Came Completion.timed_out)
  Explained AgentStopReason.repeated_calls run =
      (run.answer ≡ none) × ((fp : String) × (occurrences h fp run.steps ≡ b.max_repeat_calls))
  Explained AgentStopReason.consecutive_errors run =
      (run.answer ≡ none) × (failures_after 0 run.steps ≡ suc b.max_consecutive_errors)
  Explained AgentStopReason.truncated run =
      (r : LlmResponse) × Came (Completion.answered r)
      × (r.stop_reason ≡ StopReason.max_tokens)
      × IsCutOff r.content run
  Explained (AgentStopReason.provider_error e) run =
      (run.answer ≡ none) × Came (Completion.failed e)

  pub kept_answer :
      (answer : Option String) (steps : List StepRecord) (usage : Usage) (elapsed : ℕ)
      → finish_answer h answer AgentStopReason.completed steps usage elapsed ≡ answer
  unfolding finish_answer is_success
  kept_answer none steps usage elapsed = refl
  kept_answer (some text) steps usage elapsed = refl

  pub cut_off :
      (answer : Option String) (run : AgentRun)
      → run.answer
        ≡ finish_answer h answer AgentStopReason.truncated run.steps run.usage run.elapsed
      → IsCutOff answer run
  unfolding finish_answer with_notice is_success
  cut_off none run e = e
  cut_off (some text) run e = (
    if trim text == "" then text else text +s "\n\n",
    if_either (λ s. (s ≡ text) ⊎ (s ≡ text +s "\n\n")) (trim text == "") _ _ (inl refl) (inr refl),
    e,
  )
