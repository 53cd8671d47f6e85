-- ===== src/Runtime/Agent/Loop.antt =====
-- `Agent::run` and `Agent::finish` of agent.rs. The loop is a function of one round, repeated on fuel.
use graphnight.Base.{
  ℕ, zero, suc, ◌-◌, String, Bool, true, false, Option, none, some, List, [], ◌∷◌, ◌++◌, Result, ok,
  err, is_ok, ◌+s◌, ◌==◌, trim, if◌then◌else◌, length, contains, leb, ltb,
}
use graphnight.Core.Models.{Value}
use graphnight.Runtime.Agent.{
  AgentBudget, AgentStopReason, is_success, Usage, no_usage, total, merge, ToolError, ToolCall,
  ChatMessage, StopReason, LlmResponse, Completion, Host, StepRecord, AgentRun, notice,
}

-- The variables of the loop.
pub record Loop : Type 0 where
  pub messages : List ChatMessage
  pub usage : Usage
  pub steps : List StepRecord
  pub tools_used : List String
  pub call_counts : List (String × ℕ)
  pub consecutive_errors : ℕ
  pub step_index : ℕ

-- What a part of the loop comes to: it returns, or goes on.
pub data Flow (W : Type 0) : Type 0 where
  returned : AgentRun → W → Flow W
  running : Loop → W → Flow W

abbrev pub and_then : {W : Type 0} → Flow W → (Loop → W → Flow W) → Flow W
and_then (returned run w) next = returned run w
and_then (running l w) next = next l w

abbrev pub begin : String → Loop
begin question = record {
  messages = ChatMessage.user question ∷ [];
  usage = no_usage;
  steps = [];
  tools_used = [];
  call_counts = [];
  consecutive_errors = 0;
  step_index = 0;
}

-- A missing key counts 0.
unfoldable pub count_of : String → List (String × ℕ) → ℕ
count_of k [] = 0
count_of k ((j, n) ∷ m) = if j == k then n else count_of k m

-- `*entry(k).or_insert(0) += 1`.
unfoldable pub add_count : String → List (String × ℕ) → List (String × ℕ)
add_count k [] = (k, 1) ∷ []
add_count k ((j, n) ∷ m) = if j == k then (j, suc n) ∷ m else (j, n) ∷ add_count k m

unfoldable pub add_tool : String → List String → List String
add_tool name used = if contains used name then used else used ++ (name ∷ [])

abbrev pub is_max_tokens : StopReason → Bool
is_max_tokens StopReason.max_tokens = true
is_max_tokens _ = false

abbrev pub next_errors : ℕ → Result ToolError Value → ℕ
next_errors n result = if is_ok result then 0 else suc n

unfoldable pub with_notice : String → String → String
with_notice text notice_text = (if trim text == "" then text else text +s "\n\n") +s notice_text

abbrev pub new_step : ToolCall → ℕ → Result ToolError Value → ℕ → StepRecord
new_step call index result duration_ms = record {
  step = index;
  tool = call.name;
  arguments = call.arguments;
  result = result;
  duration_ms = duration_ms;
}

module _ {W : Type 0} (h : Host W) where
  unfoldable pub finish_answer :
      Option String → AgentStopReason → List StepRecord → Usage → ℕ → Option String
  finish_answer none reason steps usage elapsed = none
  finish_answer (some text) reason steps usage elapsed =
      if is_success reason
      then some text
      else some (with_notice text (notice h.seconds reason (length steps) (total usage) elapsed))

  unfoldable pub finish : Option String → AgentStopReason → Loop → W → Flow W
  finish answer reason l w =
      let (elapsed, w') = h.elapsed w in
      returned
        (record {
          answer = finish_answer answer reason l.steps l.usage elapsed;
          stop_reason = reason;
          steps = l.steps;
          usage = l.usage;
          elapsed = elapsed;
          tools_used = l.tools_used;
        })
        w'

  abbrev pub fingerprint : String → Value → String
  fingerprint name arguments = name +s ":" +s h.to_string arguments

  -- What the model reads of a result.
  abbrev pub tool_content : Result ToolError Value → Result String String
  tool_content (ok v) = ok (h.to_string v)
  tool_content (err e) = err (h.error_to_string e)

module _ {W : Type 0} (h : Host W) (b : AgentBudget) where
  -- The step is recorded, and the loop returns after too many failures in a row.
  unfoldable pub record_step : ToolCall → Loop → Result ToolError Value → ℕ → W → Flow W
  record_step call l result duration_ms w =
      let l' : Loop = record l {
        steps = l.steps ++ (new_step call l.step_index result duration_ms ∷ []);
        tools_used = add_tool call.name l.tools_used;
        consecutive_errors = next_errors l.consecutive_errors result;
      } in
      if ltb b.max_consecutive_errors (next_errors l.consecutive_errors result)
      then finish h none AgentStopReason.consecutive_errors l' w
      else running
          (record l' {
            messages =
                l.messages ++ (ChatMessage.tool call.id call.name (tool_content h result) ∷ []);
          })
          w

  unfoldable pub invoke : ToolCall → Loop → W → Flow W
  invoke call l w =
      let ((result, duration_ms), w') = h.call call.name call.arguments w in
      record_step call l result duration_ms w'

  -- The body of the loop over the calls of a response.
  unfoldable pub call_step : ToolCall → Loop → W → Flow W
  call_step call l w =
      let (elapsed, w') = h.elapsed w in
      let counts = add_count (fingerprint h call.name call.arguments) l.call_counts in
      if leb b.max_duration elapsed
      then finish h none AgentStopReason.timeout l w'
      else if ltb b.max_repeat_calls (count_of (fingerprint h call.name call.arguments) counts)
      then finish h none AgentStopReason.repeated_calls l w'
      else invoke call (record l { call_counts = counts }) w'

  unfoldable pub call_all : List ToolCall → Loop → W → Flow W
  call_all [] l w = running l w
  call_all (call ∷ calls) l w = and_then (call_step call l w) (call_all calls)

  -- The calls of a response, and the next index of a step behind them.
  unfoldable pub take_turn : LlmResponse → Loop → W → Flow W
  take_turn r l w =
      and_then
        (call_all r.tool_calls
          (record l {
            messages = l.messages ++ (ChatMessage.assistant r.content r.tool_calls ∷ []);
          })
          w)
        (λ l' w'. running (record l' { step_index = suc l'.step_index }) w')

  abbrev pub is_empty : List ToolCall → Bool
  is_empty [] = true
  is_empty (call ∷ calls) = false

  unfoldable pub respond : Completion → Loop → W → Flow W
  respond Completion.timed_out l w = finish h none AgentStopReason.timeout l w
  respond (Completion.failed e) l w = finish h none (AgentStopReason.provider_error e) l w
  respond (Completion.answered r) l w =
      let l' : Loop = record l { usage = merge l.usage r.usage } in
      if is_max_tokens r.stop_reason
      then finish h r.content AgentStopReason.truncated l' w
      else if is_empty r.tool_calls
      then finish h r.content AgentStopReason.completed l' w
      else take_turn r l' w

  unfoldable pub ask : Loop → W → Flow W
  ask l w =
      let (elapsed, w') = h.elapsed w in
      let (completion, w'') =
        h.complete (b.max_duration - elapsed) b.max_output_tokens l.messages w' in
      respond completion l w''

  -- One round of the loop, its bounds first.
  unfoldable pub round : Loop → W → Flow W
  round l w =
      let (elapsed, w') = h.elapsed w in
      if leb b.max_steps l.step_index
      then finish h none AgentStopReason.max_steps l w
      else if leb b.max_tokens (total l.usage)
      then finish h none AgentStopReason.token_budget l w
      else if leb b.max_duration elapsed
      then finish h none AgentStopReason.timeout l w'
      else ask l w'

  unfoldable pub rounds : ℕ → Loop → W → Option (AgentRun × W)
  rounds zero l w = none
  rounds (suc fuel) l w = elim (round l w) [
    | returned run w' ↦ some (run, w')
    | running l' w' ↦ rounds fuel l' w'
  ]

  -- Each round adds a step or returns, so the fuel is one round more than there are steps.
  unfoldable pub run_agent : String → W → Option (AgentRun × W)
  run_agent question w = rounds (suc b.max_steps) (begin question) w
