-- ===== src/Runtime/Agent.antt =====
-- crates/graphnight-runtime/src/agent.rs: the loop of an agent, with the messages of llm.rs. The model
-- provider, the tool catalog and the clock are the operations of a host on a state of the world. The
-- counters of type u32 are bounded by the budget and taken without overflow.
pub mod Loop
pub mod Steps
pub mod Flow
pub mod Reasons
pub mod Invariant
pub mod Bounds
use graphnight.Base.{
  ℕ, ◌+◌, ◌%◌, ◌^◌, String, Bool, true, false, Option, none, some, List, [], ◌∷◌, Result, ok, err,
  is_ok, ◌+s◌, ◌==◌, show, trim, if◌then◌else◌, length,
}
use graphnight.Core.Models.{Value}

-- `AgentBudget`; the duration is in milliseconds.
pub record AgentBudget : Type 0 where
  pub max_steps : ℕ
  pub max_tokens : ℕ
  pub max_duration : ℕ
  pub max_output_tokens : ℕ
  pub max_repeat_calls : ℕ
  pub max_consecutive_errors : ℕ

abbrev pub default_budget : AgentBudget
default_budget = record {
  max_steps = 12;
  max_tokens = 200_000;
  max_duration = 120_000;
  max_output_tokens = 4096;
  max_repeat_calls = 2;
  max_consecutive_errors = 3;
}

abbrev pub interactive : AgentBudget
interactive = record default_budget { max_steps = 8; max_tokens = 100_000; max_duration = 60_000 }

pub data AgentStopReason : Type 0 where
  completed max_steps token_budget timeout repeated_calls consecutive_errors truncated :
      AgentStopReason
  provider_error : String → AgentStopReason

unfoldable pub is_success : AgentStopReason → Bool
is_success completed = true
is_success _ = false

unfoldable pub reason_text : AgentStopReason → String
reason_text completed = "completed"
reason_text max_steps = "max_steps"
reason_text token_budget = "token_budget"
reason_text timeout = "timeout"
reason_text repeated_calls = "repeated_calls"
reason_text consecutive_errors = "consecutive_errors"
reason_text truncated = "truncated"
reason_text (provider_error e) = "provider_error"

-- `Usage`, of two 64-bit counters.
pub record Usage : Type 0 where
  pub input_tokens : ℕ
  pub output_tokens : ℕ

abbrev pub no_usage : Usage
no_usage = record { input_tokens = 0; output_tokens = 0 }

unfoldable pub total : Usage → ℕ
total u = (u.input_tokens + u.output_tokens) % 2 ^ 64

unfoldable pub merge : Usage → Usage → Usage
merge u v = record {
  input_tokens = (u.input_tokens + v.input_tokens) % 2 ^ 64;
  output_tokens = (u.output_tokens + v.output_tokens) % 2 ^ 64;
}

pub record ToolError : Type 0 where
  pub code : String
  pub message : String
  pub hint : Option String

pub record ToolCall : Type 0 where
  pub id : String
  pub name : String
  pub arguments : Value

pub data ChatMessage : Type 0 where
  system user : String → ChatMessage
  assistant : Option String → List ToolCall → ChatMessage
  tool : String → String → Result String String → ChatMessage

pub data StopReason : Type 0 where
  end_turn max_tokens tool_use stop_sequence error : StopReason

pub record LlmResponse : Type 0 where
  pub content : Option String
  pub tool_calls : List ToolCall
  pub usage : Usage
  pub stop_reason : StopReason
  pub model : String

-- What comes of a completion under a timeout: the elapsed timer and `LlmError::Timeout` end alike.
pub data Completion : Type 0 where
  timed_out : Completion
  failed : String → Completion
  answered : LlmResponse → Completion

-- What an agent is built on. Each operation may change the world, the reading of the clock included.
-- A call of a tool comes with its duration. A completion takes the time that is left, the cap on the
-- tokens of its output and the messages; the model, the tools and the system prompt are the host's.
pub record Host (W : Type 0) : Type 0 where
  pub elapsed : W → ℕ × W
  pub complete : ℕ → ℕ → List ChatMessage → W → Completion × W
  pub call : String → Value → W → (Result ToolError Value × ℕ) × W
  pub to_string : Value → String
  pub error_to_string : ToolError → String
  pub seconds : ℕ → String

pub record StepRecord : Type 0 where
  pub step : ℕ
  pub tool : String
  pub arguments : Value
  pub result : Result ToolError Value
  pub duration_ms : ℕ

pub record AgentRun : Type 0 where
  pub answer : Option String
  pub stop_reason : AgentStopReason
  pub steps : List StepRecord
  pub usage : Usage
  pub elapsed : ℕ
  pub tools_used : List String

unfoldable pub notice : (ℕ → String) → AgentStopReason → ℕ → ℕ → ℕ → String
notice seconds completed steps tokens elapsed = "Completed."
notice seconds max_steps steps tokens elapsed =
    "Stopped after " +s show steps +s " steps without a final answer."
notice seconds token_budget steps tokens elapsed =
    "Stopped after using " +s show tokens +s " tokens."
notice seconds timeout steps tokens elapsed = "Stopped after " +s seconds elapsed +s "s."
notice seconds repeated_calls steps tokens elapsed =
    "Stopped because the agent repeated the same call."
notice seconds consecutive_errors steps tokens elapsed = "Stopped after repeated tool failures."
notice seconds truncated steps tokens elapsed = "The response was cut off before it finished."
notice seconds (provider_error e) steps tokens elapsed = "Model call failed: " +s e

unfoldable pub stop_notice : (ℕ → String) → AgentRun → Option String
stop_notice seconds run =
    if is_success run.stop_reason
    then none
    else some (notice seconds run.stop_reason (length run.steps) (total run.usage) run.elapsed)
