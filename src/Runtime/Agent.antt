-- ===== src/Runtime/Agent.antt =====
-- tile/agent.py: provider turns and tool batches until a turn asks for no tool. The `emit` that it is
-- given is the one of a run (tile/runtime/run_execution.py), so the state holds the run's events and
-- history beside the world that the provider and the tools act on. What cancellation cuts off is not
-- modelled here: a cut is a prefix of the events.
pub mod Answers
pub mod Complete
pub mod Shown
pub mod Stops
use piy.Base.{
  ℕ, zero, suc, Text, codes, Bool, true, false, not, ◌&&◌, Option, none, some, List, [], ◌∷◌, ◌++◌,
  map, any, if◌then◌else◌,
}
use piy.Types.Blocks.{
  AssistantBlock, ToolCallBlock, text, reasoning, tool_call, StreamDoneEvent, StreamErrorEvent,
  ProviderStreamEvent, stream_start, update, stream_done, stream_error,
}
use piy.Types.Conversation.{
  ConversationItem, assistant, tool_result, AssistantTurn, from_stream_done, from_stream_error,
}
use piy.Types.Events.{
  AgentEvent, agent_start, agent_end, turn_start, turn_end, message_start, message_update,
  message_end, tool_execution_start, tool_execution_end,
}
use piy.Types.Tools.{ToolExecutionOutcome}
use piy.Runtime.History.{RunHistory, observe}
use piy.Runtime.ToolExecutor.{TextMethods, ToolDefinition, execute}

-- What a provider's stream yields, and the exception, by its type and text, that ends it, if one does.
pub record Stream : Type 0 where
  pub events : List ProviderStreamEvent
  pub broken : Option (Text × Text)

pub record Provider (W : Type 0) : Type 0 where
  pub stream : List ConversationItem → Text → List (ToolDefinition W) → W → Stream × W

pub record Live (W : Type 0) : Type 0 where
  pub world : W
  pub events : List AgentEvent
  pub history : RunHistory

-- How a coroutine ends: with a value, `TurnFailedError`, or another exception.
pub data Attempt {ℓ} (A : Type ℓ) : Type ℓ where
  done : A → Attempt A
  turn_failed : AssistantTurn → Attempt A
  raised : Text → Text → Attempt A

pub record AgentResult : Type 0 where
  pub last_turn : AssistantTurn
  pub tool_executions : List ToolExecutionOutcome

pub record TurnResult : Type 0 where
  pub assistant_turn : AssistantTurn
  pub tool_executions : List ToolExecutionOutcome

unfoldable pub conversation_items : TurnResult → List ConversationItem
conversation_items r =
    assistant r.assistant_turn
    ∷ map (λ execution. tool_result execution.tool_result_turn) r.tool_executions

any_execution : List ToolExecutionOutcome → Bool
any_execution [] = false
any_execution (execution ∷ executions) = true

unfoldable pub should_continue : TurnResult → Bool
unfolding any_execution
should_continue r =
    any_execution r.tool_executions
    && not (any (λ execution. execution.terminate) r.tool_executions)

-- `_collect_tool_calls`
unfoldable pub collect_tool_calls : List AssistantBlock → List ToolCallBlock
collect_tool_calls [] = []
collect_tool_calls (tool_call b ∷ blocks) = b ∷ collect_tool_calls blocks
collect_tool_calls (text b ∷ blocks) = collect_tool_calls blocks
collect_tool_calls (reasoning b ∷ blocks) = collect_tool_calls blocks

module _ {W : Type 0} where
  unfoldable pub emit : AgentEvent → Live W → Live W
  emit e live = record live { events = live.events ++ e ∷ []; history = observe live.history e }

module _ {W : Type 0} (methods : TextMethods) (tools : List (ToolDefinition W)) where
  unfoldable pub execute_tool : ToolCallBlock → Live W → ToolExecutionOutcome × Live W
  unfolding emit
  execute_tool b live =
      let started = emit (tool_execution_start b.call_id b.name b.arguments) live in
      let (outcome, world) = execute methods tools b.call_id b.name b.arguments started.world in
      (outcome, emit (tool_execution_end outcome) (record started { world = world }))

  -- `_execute_tools`, over the collected calls
  unfoldable pub execute_tools : List ToolCallBlock → Live W → List ToolExecutionOutcome × Live W
  unfolding execute_tool
  execute_tools [] live = ([], live)
  execute_tools (b ∷ calls) live =
      let (outcome, live') = execute_tool b live in
      let (outcomes, live'') = execute_tools calls live' in (outcome ∷ outcomes, live'')

  unfoldable pub handle_stream_done_event : StreamDoneEvent → Live W → TurnResult × Live W
  unfolding emit execute_tools collect_tool_calls from_stream_done
  handle_stream_done_event event live =
      let turn = from_stream_done event in
      let (outcomes, live') =
        execute_tools (collect_tool_calls turn.blocks) (emit (message_end turn) live) in
      (
        record { assistant_turn = turn; tool_executions = outcomes },
        emit (turn_end turn outcomes) live',
      )

  -- The rounds of `async for event in stream`, with `_handle_stream_event` for each.
  unfoldable pub run_stream :
      List ProviderStreamEvent → Option (Text × Text) → Live W → Attempt TurnResult × Live W
  unfolding emit handle_stream_done_event from_stream_error
  run_stream [] none live = (
    raised (codes "ProviderStreamProtocolError")
        (codes "Provider stream ended without StreamDoneEvent or StreamErrorEvent."),
    live,
  )
  run_stream [] (some (exception_type, message)) live = (raised exception_type message, live)
  run_stream (stream_start source response_id ∷ events) broken live =
      run_stream events broken (emit (message_start (some response_id)) (emit turn_start live))
  run_stream (update event ∷ events) broken live =
      run_stream events broken (emit (message_update event) live)
  run_stream (stream_done event ∷ events) broken live =
      let (result, live') = handle_stream_done_event event live in (done result, live')
  run_stream (stream_error event ∷ events) broken live =
      let turn = from_stream_error event in (turn_failed turn, emit (message_end turn) live)

  module _ (provider : Provider W) (instructions : Text) where
    unfoldable pub run_provider_turn : List ConversationItem → Live W → Attempt TurnResult × Live W
    unfolding run_stream
    run_provider_turn run_history live =
        let (stream, world) = provider.stream run_history instructions tools live.world in
        run_stream stream.events stream.broken (record live { world = world })

    -- One round of the loop, and the next ones, if it goes on. `none` is no end within the fuel.
    abbrev pub after_turn :
        (List ConversationItem
          → List ToolExecutionOutcome
          → Live W
          → Option (Attempt AgentResult × Live W))
        → List ConversationItem
        → List ToolExecutionOutcome
        → Attempt TurnResult
        → Live W
        → Option (Attempt AgentResult × Live W)
    after_turn next run_history executions (done result) live =
        let executions' = executions ++ result.tool_executions in
        if should_continue result
        then next (run_history ++ conversation_items result) executions' live
        else some (
          done (record { last_turn = result.assistant_turn; tool_executions = executions' }),
          live,
        )
    after_turn next run_history executions (turn_failed turn) live = some (turn_failed turn, live)
    after_turn next run_history executions (raised exception_type message) live =
        some (raised exception_type message, live)

    unfoldable pub run_agent_loop :
        ℕ
        → List ConversationItem
        → List ToolExecutionOutcome
        → Live W
        → Option (Attempt AgentResult × Live W)
    unfolding run_provider_turn should_continue conversation_items
    run_agent_loop zero run_history executions live = none
    run_agent_loop (suc fuel) run_history executions live =
        let (result, live') = run_provider_turn run_history live in
        after_turn (run_agent_loop fuel) run_history executions result live'

    -- emit(AgentEndEvent()), where the loop returned
    abbrev pub close_agent :
        Option (Attempt AgentResult × Live W) → Option (Attempt AgentResult × Live W)
    close_agent none = none
    close_agent (some (done result, live)) = some (done result, emit agent_end live)
    close_agent (some (turn_failed turn, live)) = some (turn_failed turn, live)
    close_agent (some (raised exception_type message, live)) =
        some (raised exception_type message, live)

    unfoldable pub run_agent :
        ℕ → List ConversationItem → Live W → Option (Attempt AgentResult × Live W)
    unfolding emit run_agent_loop
    run_agent fuel history live =
        close_agent (run_agent_loop fuel history [] (emit agent_start live))
