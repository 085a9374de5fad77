-- ===== src/Runtime/Execution/Examples.antt =====
-- A typed prompt whose provider calls `complete` at once.
use piy.Base.{ℕ, codes, text_eq, Option, none, some, [], ◌∷◌, ◌≡◌, refl}
use piy.Types.Json.{end}
use piy.Types.Blocks.{
  ProviderSource, ToolCallBlock, tool_call, StopReason, StreamDoneEvent, stream_start, stream_done,
}
use piy.Types.Conversation.{from_stream_done, user}
use piy.Types.Outcome.{ResultValue, RunOutcome, completed}
use piy.Types.Tools.{text_result, from_result}
use piy.Runtime.History.{observe, conversation_item_for}
use piy.Runtime.ToolExecutor.{TextMethods, valid, get_tool, call_tool, execute, outcome_of}
use piy.Runtime.Agent.{
  Live, Attempt, done, emit, execute_tool, execute_tools, handle_stream_done_event, run_stream,
  run_provider_turn, run_agent_loop, run_agent, conversation_items, should_continue,
  collect_tool_calls,
}
use piy.Runtime.Execution.{
  Dependencies, complete_tool, typed_attempt_dependencies, result_outcome, run_attempt, follow_up,
  typed_attempts, execute_typed,
}
use piy.Runtime.Execution.Results.{Recorded, execute_typed-Recorded}

abbrev methods : TextMethods
methods = record { lower = λ t. t; strip = λ t. t }

abbrev source : ProviderSource
source = record { provider = codes "p"; model = none }

abbrev call : ToolCallBlock
call = record {
  provider_metadata = none;
  call_id = codes "c1";
  name = codes "complete";
  arguments = end;
}

abbrev completes_at_once : StreamDoneEvent
completes_at_once = record {
  source = source;
  response_id = none;
  stop_reason = StopReason.tool_use;
  blocks = tool_call call ∷ [];
}

abbrev deps : Dependencies ℕ
deps = record {
  provider = record {
    stream = λ h instructions tools w. (
      record {
        events = stream_start source (codes "r") ∷ stream_done completes_at_once ∷ [];
        broken = none;
      },
      w,
    );
  };
  instructions = [];
  system_prompt = λ instructions w. instructions;
  tools = [];
}

abbrev begun : Live ℕ
begun = record {
  world = 0;
  events = [];
  history = record {
    working = user (record { content = codes "go" }) ∷ [];
    delta = user (record { content = codes "go" }) ∷ [];
  };
}

abbrev settled : Option (Attempt RunOutcome × Live ℕ) → Live ℕ
settled none = begun
settled (some (a, live)) = live

abbrev after_prompt : Live ℕ
after_prompt = settled (
    execute_typed methods 2 (λ arguments. valid arguments) deps (λ arguments. valid arguments)
      begun)

completes_is :
    execute_typed methods 2 (λ arguments. valid arguments) deps (λ arguments. valid arguments) begun
    ≡ some (done (completed (ResultValue.json end)), after_prompt)
unfolding text_eq from_stream_done from_result text_result observe conversation_item_for get_tool
    call_tool execute outcome_of emit execute_tool execute_tools handle_stream_done_event run_stream
    run_provider_turn run_agent_loop run_agent conversation_items should_continue collect_tool_calls
    complete_tool typed_attempt_dependencies result_outcome run_attempt follow_up typed_attempts
    execute_typed
completes_is = refl

execute_typed-Recorded_example : Recorded begun after_prompt (completed (ResultValue.json end))
execute_typed-Recorded_example =
    execute_typed-Recorded methods 2 (λ arguments. valid arguments) deps
      (λ arguments. valid arguments) begun after_prompt (completed (ResultValue.json end))
      completes_is
