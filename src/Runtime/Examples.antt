-- ===== src/Runtime/Examples.antt =====
-- Tests of the runtime, and the theorems at concrete runs. The world counts the calls of one tool; the
-- provider asks for it once, and then answers.
use piy.Base.{
  ℕ, zero, suc, ◌≤◌, codes, text_eq, true, false, Option, none, some, List, [], ◌∷◌, ◌++◌, map, All,
  length, count, ◌⊎◌, ◌≡◌, ◌≢◌, refl, arith,
}
use piy.Types.Json.{end}
use piy.Types.Blocks.{
  ProviderSource, AssistantBlock, TextBlock, ToolCallBlock, tool_call, StopReason, StreamDoneEvent,
  ProviderStreamEvent, stream_start, stream_done,
}
use piy.Types.Blocks
use piy.Types.Conversation.{ConversationItem, user, AssistantTurn, from_stream_done}
use piy.Types.Events.{message_end, turn_start}
use piy.Types.Tools.{ToolExecutionOutcome, text_result, from_result}
use piy.Runtime.History.{
  RunHistory, start, observe, conversation_item_for, answered, unanswered_blocks, unanswered_items,
  unanswered_tool_calls, interrupted_result, heal,
}
use piy.Runtime.History.Replies.{EveryCallHasResult, Unanswered}
use piy.Runtime.History.Heals.{observed, heal-answers}
use piy.Runtime.ToolExecutor.{
  returned, valid, ToolDefinition, TextMethods, reject_tools, get_tool, call_tool, execute,
  outcome_of,
}
use piy.Runtime.ToolExecutor.Outcomes.{Handled, execute-Handled, named, reject_tools_unique}
use piy.Runtime.Agent.{
  Provider, Live, Attempt, done, AgentResult, emit, execute_tool, execute_tools,
  handle_stream_done_event, run_stream, run_provider_turn, run_agent_loop, run_agent,
  conversation_items, should_continue, collect_tool_calls,
}
use piy.Runtime.Agent.Complete.{Complete, run_agent-completes}
use piy.Runtime.Agent.Shown.{shown_agent, run_agent-shown}
use piy.Runtime.Agent.Stops.{turns, AsksNoTool, run_agent-stops}
use piy.Runtime.Execution.Typed.{Calm}

abbrev methods : TextMethods
methods = record { lower = λ t. t; strip = λ t. t }

abbrev count_tool : ToolDefinition ℕ
count_tool = record {
  name = codes "count";
  description = [];
  model_validate = λ arguments. valid arguments;
  invocable = true;
  fn = λ arguments w. (returned (text_result (codes "counted") none false), suc w);
}

abbrev tools : List (ToolDefinition ℕ)
tools = count_tool ∷ []

abbrev source : ProviderSource
source = record { provider = codes "p"; model = none }

abbrev call : ToolCallBlock
call = record {
  provider_metadata = none;
  call_id = codes "c1";
  name = codes "count";
  arguments = end;
}

abbrev asks : StreamDoneEvent
asks = record {
  source = source;
  response_id = none;
  stop_reason = StopReason.tool_use;
  blocks = tool_call call ∷ [];
}

abbrev answers : StreamDoneEvent
answers = record {
  source = source;
  response_id = none;
  stop_reason = StopReason.stop;
  blocks = Blocks.text (record { provider_metadata = none; text = codes "ok" }) ∷ [];
}

abbrev reply : ℕ → StreamDoneEvent
reply zero = asks
reply (suc n) = answers

abbrev provider : Provider ℕ
provider = record {
  stream = λ h instructions tools w. (
    record {
      events = stream_start source (codes "r") ∷ stream_done (reply (turns h)) ∷ [];
      broken = none;
    },
    w,
  );
}

abbrev prompt : List ConversationItem
prompt = user (record { content = codes "go" }) ∷ []

abbrev begun : Live ℕ
begun = record { world = 0; events = []; history = record { working = prompt; delta = prompt } }

abbrev final_turn : AssistantTurn
final_turn = from_stream_done answers

abbrev counted : ToolExecutionOutcome
counted = from_result (codes "c1") (codes "count") (text_result (codes "counted") none false)

abbrev result : AgentResult
result = record { last_turn = final_turn; tool_executions = counted ∷ [] }

-- The state when the agent returned, and a run that was cut off in the tool.
abbrev settled : Option (Attempt AgentResult × Live ℕ) → Live ℕ
settled none = begun
settled (some (a, live)) = live

abbrev after_run : Live ℕ
after_run = settled (run_agent methods tools provider [] 3 prompt begun)

abbrev cut : RunHistory
cut = observed (start [] (codes "go")) (turn_start ∷ message_end (from_stream_done asks) ∷ [])

-- The agent runs the tool once and returns its answer; a cut run has one call left.
scenario :
    (run_agent methods tools provider [] 3 prompt begun ≡ some (done result, after_run))
    × (after_run.world ≡ 1)
    × (length after_run.history.delta ≡ 4)
    × (unanswered_tool_calls cut.delta ≡ call ∷ [])
unfolding text_eq from_stream_done from_result text_result observe conversation_item_for start
    answered unanswered_blocks unanswered_items unanswered_tool_calls get_tool call_tool execute
    outcome_of emit execute_tool execute_tools handle_stream_done_event run_stream run_provider_turn
    run_agent_loop run_agent conversation_items should_continue collect_tool_calls
scenario = (refl, refl, refl, refl)

heal-answers_example :
    EveryCallHasResult (heal cut).delta
    × ((heal cut).delta ≡ cut.delta ++ map interrupted_result (unanswered_tool_calls cut.delta))
    × All (Unanswered cut.delta) (unanswered_tool_calls cut.delta)
    × (heal (heal cut) ≡ heal cut)
heal-answers_example = heal-answers cut

run_agent-shown_example :
    run_agent methods tools provider [] 3 prompt begun
    ≡ shown_agent methods tools provider [] [] 3 begun
run_agent-shown_example = run_agent-shown methods tools provider [] [] 3 prompt begun refl

accepts : reject_tools methods [] tools ≡ none
unfolding reject_tools
accepts = refl

reject_tools_unique_example : count (named methods (codes "count")) tools ≤ 1
reject_tools_unique_example = reject_tools_unique methods [] tools (codes "count") accepts

execute-Handled_example :
    (let (outcome, w') = execute methods tools (codes "c1") (codes "count") end 0 in
      Handled methods tools (codes "c1") (codes "count") end 0 outcome w')
    × (let turn = (execute methods tools (codes "c1") (codes "count") end 0).0.tool_result_turn in
        (turn.call_id ≡ codes "c1") × (turn.tool_name ≡ codes "count"))
    × (((execute methods tools (codes "c1") (codes "count") end 0).0.tool_result_turn.is_error
          ≡ false)
        ⊎ ((execute methods tools (codes "c1") (codes "count") end 0).0.terminate ≡ false))
execute-Handled_example = execute-Handled methods tools (codes "c1") (codes "count") end 0

run_agent-completes_example : Complete begun after_run [] result.tool_executions
run_agent-completes_example =
    run_agent-completes methods tools provider [] 3 prompt begun after_run result scenario.0

calm : Calm 1 provider
unfolding collect_tool_calls
calm h instructions offered w late = calm_reply (turns h) late
  where
    calm_reply :
        (n : ℕ) → 1 ≤ n → AsksNoTool (stream_start source (codes "r") ∷ stream_done (reply n) ∷ [])
    calm_reply zero late = absurd (omega arith)
    calm_reply (suc n) late = (refl, tt)

run_agent-stops_example : run_agent methods tools provider [] 2 prompt begun ≢ none
run_agent-stops_example =
    run_agent-stops methods tools provider [] 1 (λ h w late. calm h [] tools w late) prompt begun
