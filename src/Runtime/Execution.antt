-- ===== src/Runtime/Execution.antt =====
-- tile/runtime/execution.py, with the result tools of tile/tools/complete.py and tile/tools/fail.py and
-- the texts of tile/result.py: a prompt's program, plain or until a result tool was called. A result
-- model and `FailInput` are their validations; an instance is the JSON that it serializes to.
pub mod Typed
pub mod Results
mod Examples
use piy.Base.{
  ℕ, zero, suc, join, Text, codes, newline, Bool, true, false, Option, none, some, List, [], ◌∷◌,
  ◌++◌, if◌then◌else◌,
}
use piy.Types.Json.{Json, str, JsonObject, get}
use piy.Types.Blocks.{AssistantBlock, text, reasoning, tool_call}
use piy.Types.Conversation.{AssistantTurn}
use piy.Types.Events.{result_follow_up}
use piy.Types.Outcome.{ResultValue, RunOutcome, completed, failed, agent_failure}
use piy.Types.Tools.{ToolDetails, complete, fail, ToolExecutionOutcome, text_result}
use piy.Runtime.ToolExecutor.{TextMethods, ToolDefinition, Validated, returned, reject_tools}
use piy.Runtime.Agent.{
  Provider, Live, Attempt, done, turn_failed, raised, AgentResult, emit, run_agent,
}

abbrev pub max_result_follow_ups : ℕ
max_result_follow_ups = 8

abbrev pub result_follow_up_text : Text
result_follow_up_text =
    codes
      "You ended your turn without calling `complete` or `fail`. Call `complete` with your final result, or `fail` with a reason if you cannot."

abbrev pub no_result_reason : Text
no_result_reason = codes "The model ended the run without calling `complete` or `fail`."

abbrev pub result_contract : Text
result_contract = join (
    codes "This run must end with a result tool call."
    ∷ codes
        "- When the task is complete, call `complete` with your final result as its arguments. The arguments are validated against the required schema; validation errors come back as tool errors you can correct."
    ∷ codes
        "- If you cannot complete the task or cannot produce a conforming result, call `fail` with a clear `reason`."
    ∷ codes "- Plain text does not end the run. Only a `complete` or `fail` call does."
    ∷ [])

-- `system_prompt` is `build_system_prompt` for the run's directory, which reads the world.
pub record Dependencies (W : Type 0) : Type 0 where
  pub provider : Provider W
  pub instructions : Text
  pub system_prompt : Text → W → Text
  pub tools : List (ToolDefinition W)

string_or_nothing : Option Json → Text
string_or_nothing (some (str value)) = value
string_or_nothing other = []

module _ {W : Type 0} where
  -- `tool(result)` of tile/tools/complete.py
  unfoldable pub complete_tool : (JsonObject → Validated) → ToolDefinition W
  unfolding text_result
  complete_tool result = record {
    name = codes "complete";
    description =
        codes
          "Report the final result and end the run. The arguments are validated against the required result schema; validation errors are returned for correction. Call this exactly once, when the task is done.";
    model_validate = result;
    invocable = true;
    fn = λ params w.
        (returned (text_result (codes "Result recorded.") (some (complete params)) true), w);
  }

  -- `tool` of tile/tools/fail.py
  unfoldable pub fail_tool : (JsonObject → Validated) → ToolDefinition W
  unfolding text_result string_or_nothing get
  fail_tool fail_input = record {
    name = codes "fail";
    description =
        codes
          "Report that the task cannot be completed and end the run. Provide a clear reason naming what is missing or impossible.";
    model_validate = fail_input;
    invocable = true;
    fn = λ params w. (
      returned (
          text_result (codes "Failure recorded.")
            (some (fail (string_or_nothing (get (codes "reason") params)))) true),
      w,
    );
  }

  -- `_typed_attempt_dependencies`; that the executor accepts the tools is a test of the caller.
  unfoldable pub typed_attempt_dependencies :
      (JsonObject → Validated) → Dependencies W → (JsonObject → Validated) → Dependencies W
  unfolding complete_tool fail_tool join
  typed_attempt_dependencies fail_input deps result = record deps {
    instructions = deps.instructions ++ newline ∷ newline ∷ result_contract;
    tools = deps.tools ++ complete_tool result ∷ fail_tool fail_input ∷ [];
  }

details_outcome : Option ToolDetails → Option RunOutcome
details_outcome (some (complete value)) = some (completed (ResultValue.json value))
details_outcome (some (fail reason)) = some (failed (agent_failure reason))
details_outcome other = none

or_else : Option RunOutcome → Option RunOutcome → Option RunOutcome
or_else (some o) later = some o
or_else none later = later

unfoldable pub result_outcome : List ToolExecutionOutcome → Option RunOutcome
unfolding details_outcome or_else
result_outcome [] = none
result_outcome (execution ∷ executions) =
    let later = result_outcome executions in
    if execution.terminate then or_else (details_outcome execution.details) later else later

-- The texts of the text blocks.
unfoldable pub block_texts : List AssistantBlock → List Text
block_texts [] = []
block_texts (text b ∷ blocks) = b.text ∷ block_texts blocks
block_texts (reasoning b ∷ blocks) = block_texts blocks
block_texts (tool_call b ∷ blocks) = block_texts blocks

-- "\n\n".join(...)
join_paragraphs : List Text → Text
join_paragraphs [] = []
join_paragraphs (t ∷ []) = t
join_paragraphs (t ∷ u ∷ texts) = t ++ newline ∷ newline ∷ join_paragraphs (u ∷ texts)

unfoldable pub assistant_text : AssistantTurn → Text
unfolding block_texts join_paragraphs
assistant_text turn = join_paragraphs (block_texts turn.blocks)

module _ {W : Type 0} (methods : TextMethods) (fuel : ℕ) where
  -- `_run_attempt`; `history` is the working history of the run, which grows with its events.
  unfoldable pub run_attempt : Dependencies W → Live W → Option (Attempt AgentResult × Live W)
  run_attempt deps live =
      run_agent methods deps.tools deps.provider (deps.system_prompt deps.instructions live.world)
        fuel live.history.working live

  unfoldable pub plain_outcome :
      Option (Attempt AgentResult × Live W) → Option (Attempt RunOutcome × Live W)
  unfolding assistant_text
  plain_outcome none = none
  plain_outcome (some (done result, live)) =
      some (done (completed (ResultValue.text (assistant_text result.last_turn))), live)
  plain_outcome (some (turn_failed turn, live)) = some (turn_failed turn, live)
  plain_outcome (some (raised exception_type message, live)) =
      some (raised exception_type message, live)

  unfoldable pub execute_plain : Dependencies W → Live W → Option (Attempt RunOutcome × Live W)
  unfolding run_attempt plain_outcome
  execute_plain deps live = plain_outcome (run_attempt deps live)

  -- A follow-up before each attempt but the first.
  unfoldable pub follow_up : ℕ → Live W → Live W
  unfolding emit
  follow_up zero live = live
  follow_up (suc attempts) live =
      emit (result_follow_up (record { content = result_follow_up_text })) live

  abbrev pub next_attempt :
      (Live W → Option (Attempt RunOutcome × Live W))
      → Option RunOutcome
      → Live W
      → Option (Attempt RunOutcome × Live W)
  next_attempt next (some outcome) live = some (done outcome, live)
  next_attempt next none live = next live

  abbrev pub after_attempt :
      (Live W → Option (Attempt RunOutcome × Live W))
      → Option (Attempt AgentResult × Live W)
      → Option (Attempt RunOutcome × Live W)
  after_attempt next none = none
  after_attempt next (some (done result, live)) =
      next_attempt next (result_outcome result.tool_executions) live
  after_attempt next (some (turn_failed turn, live)) = some (turn_failed turn, live)
  after_attempt next (some (raised exception_type message, live)) =
      some (raised exception_type message, live)

  -- The attempts that are left of `range(MAX_RESULT_FOLLOW_UPS + 1)`.
  unfoldable pub typed_attempts : Dependencies W → ℕ → Live W → Option (Attempt RunOutcome × Live W)
  unfolding run_attempt follow_up result_outcome
  typed_attempts deps zero live = some (done (failed (agent_failure no_result_reason)), live)
  typed_attempts deps (suc attempts) live =
      after_attempt (λ live'. typed_attempts deps attempts (follow_up attempts live'))
        (run_attempt deps live)

  unfoldable pub execute_typed :
      (JsonObject → Validated)
      → Dependencies W
      → (JsonObject → Validated)
      → Live W
      → Option (Attempt RunOutcome × Live W)
  unfolding typed_attempts typed_attempt_dependencies
  execute_typed fail_input deps result live =
      typed_attempts (typed_attempt_dependencies fail_input deps result) (suc max_result_follow_ups)
        live

  unfoldable pub execute_prompt :
      (JsonObject → Validated)
      → Dependencies W
      → Option (JsonObject → Validated)
      → Live W
      → Option (Attempt RunOutcome × Live W)
  unfolding execute_plain execute_typed
  execute_prompt fail_input deps none live = execute_plain deps live
  execute_prompt fail_input deps (some result) live = execute_typed fail_input deps result live
