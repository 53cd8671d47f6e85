-- ===== src/Tests/Agent.antt =====
-- The theorems about the agent loop of crates/graphnight-runtime at concrete inputs.
use graphnight.Base.{ℕ, ◌≡◌, refl, String, Option, none, some, [], ◌∷◌, err}
use graphnight.Core.Models.{null}
use graphnight.Runtime.Agent.{
  AgentBudget, default_budget, interactive, AgentStopReason, reason_text, Usage, ToolCall,
  ToolError, StopReason, LlmResponse, Completion, Host, StepRecord, AgentRun, stop_notice,
}
use graphnight.Runtime.Agent.Loop.{run_agent}
use graphnight.Runtime.Agent.Invariant.{Final}
use graphnight.Runtime.Agent.Bounds.{run-Final}

abbrev same_call : ToolCall
same_call = record { id = "1"; name = "get_model"; arguments = null }

-- A model that asks for the same call in every round, a tool that fails, and a clock that counts.
abbrev stubborn : Host ℕ
stubborn = record {
  elapsed = λ w. (w, w);
  complete = λ timeout cap messages w. (
    Completion.answered (record {
      content = none;
      tool_calls = same_call ∷ [];
      usage = record { input_tokens = 10; output_tokens = 5 };
      stop_reason = StopReason.tool_use;
      model = "m";
    }),
    w,
  );
  call = λ name arguments w.
      ((err (record { code = "NOT_FOUND"; message = "no model"; hint = none }), 1), w);
  to_string = λ v. "null";
  error_to_string = λ e. "{}";
  seconds = λ ms. "0";
}

run-Final_example :
    (run : AgentRun) × (w' : ℕ) × (run_agent stubborn interactive "how many?" 0 ≡ some (run, w'))
    × Final stubborn interactive run
run-Final_example = run-Final stubborn interactive "how many?" 0

-- The run ends at the third of the calls.
reason_of : Option (AgentRun × ℕ) → String
reason_of none = ""
reason_of (some (run, w)) = reason_text run.stop_reason

stubborn_run : reason_of (run_agent stubborn interactive "how many?" 0) ≡ "repeated_calls"
unfolding reason_of reason_text run_agent graphnight.Runtime.Agent.Loop.rounds
    graphnight.Runtime.Agent.Loop.round graphnight.Runtime.Agent.total
    graphnight.Runtime.Agent.Loop.ask graphnight.Runtime.Agent.Loop.respond
    graphnight.Runtime.Agent.Loop.take_turn graphnight.Runtime.Agent.Loop.call_all
    graphnight.Runtime.Agent.Loop.call_step graphnight.Runtime.Agent.Loop.count_of
    graphnight.Runtime.Agent.Loop.add_count graphnight.Runtime.Agent.Loop.invoke
    graphnight.Runtime.Agent.Loop.record_step graphnight.Runtime.Agent.merge
    graphnight.Runtime.Agent.Loop.finish
stubborn_run = refl
