-- ===== src/Runtime/Agent/Answers.antt =====
-- What the agent loop adds to the history of its run.
use piy.Base.{Text, Option, none, some, List, [], ◌∷◌, ◌++◌, map, ◌≡◌, refl, sym, ap, ◌∙◌}
use mathlib.Core.List.{append-nil, append_assoc}
use piy.Types.Blocks.{
  ToolCallBlock, StreamDoneEvent, ProviderStreamEvent, stream_start, update, stream_done,
  stream_error,
}
use piy.Types.Conversation.{
  ConversationItem, assistant, tool_result, AssistantTurn, from_stream_done,
}
use piy.Types.Events.{
  AgentEvent, turn_start, turn_end, message_start, message_update, message_end,
  tool_execution_start, tool_execution_end,
}
use piy.Types.Tools.{ToolExecutionOutcome}
use piy.Runtime.History.{observe, keep_item, conversation_item_for}
use piy.Runtime.ToolExecutor.{TextMethods, ToolDefinition, execute}
use piy.Runtime.ToolExecutor.Outcomes.{execute-Handled}
use piy.Runtime.Agent.{
  Stream, Provider, Live, Attempt, done, turn_failed, raised, TurnResult, conversation_items,
  collect_tool_calls, emit, execute_tool, execute_tools, handle_stream_done_event, run_stream,
  run_provider_turn,
}

-- The executions whose end the events tell.
abbrev executed : AgentEvent → List ToolExecutionOutcome
executed (tool_execution_end outcome) = outcome ∷ []
executed other = []

abbrev pub executions_in : List AgentEvent → List ToolExecutionOutcome
executions_in [] = []
executions_in (e ∷ events) = executed e ++ executions_in events

executions_in-append :
    (xs ys : List AgentEvent) → executions_in (xs ++ ys) ≡ executions_in xs ++ executions_in ys
executions_in-append [] ys = refl
executions_in-append (e ∷ xs) ys =
    ap (λ r. executed e ++ r) (executions_in-append xs ys)
    ∙ sym (append_assoc (executed e) (executions_in xs) (executions_in ys))

-- The history has grown by the items, and the log by events in which the executions end.
abbrev pub Says :
    {W : Type 0} → Live W → Live W → List ConversationItem → List ToolExecutionOutcome → Type 0
Says live live' items outcomes =
    (live'.history.working ≡ live.history.working ++ items)
    × (live'.history.delta ≡ live.history.delta ++ items)
    × (executions_in live'.events ≡ executions_in live.events ++ outcomes)

abbrev pub result_items : List ToolExecutionOutcome → List ConversationItem
result_items = map (λ execution. tool_result execution.tool_result_turn)

-- The outcomes are of the calls, one for each, in their order.
abbrev pub outcome_ids : List ToolExecutionOutcome → List Text
outcome_ids = map (λ execution. execution.tool_result_turn.call_id)

abbrev pub call_ids : List ToolCallBlock → List Text
call_ids = map (λ b. b.call_id)

module _ {W : Type 0} where
  pub emit-executed :
      (e : AgentEvent) (live : Live W)
      → executions_in (emit e live).events ≡ executions_in live.events ++ executed e
  unfolding emit
  emit-executed e live =
      executions_in-append live.events (e ∷ [])
      ∙ ap (λ r. executions_in live.events ++ r) (append-nil (executed e))

  -- A step that tells nothing of the conversation.
  Says-nil :
      (live live' : Live W)
      → live'.history ≡ live.history
      → executions_in live'.events ≡ executions_in live.events
      → Says live live' [] []
  Says-nil live live' e k = (
    ap (λ h. h.working) e ∙ sym (append-nil live.history.working),
    ap (λ h. h.delta) e ∙ sym (append-nil live.history.delta),
    k ∙ sym (append-nil (executions_in live.events)),
  )

  -- An event that is no item and ends no execution.
  Says-quiet :
      (e : AgentEvent) (live : Live W)
      → conversation_item_for e ≡ none
      → executed e ≡ []
      → Says live (emit e live) [] []
  unfolding observe
  Says-quiet e live no_item no_end =
      Says-nil live (emit e live) (unfold emit in ap (λ o. keep_item live.history o) no_item) (
        emit-executed e live
        ∙ ap (λ r. executions_in live.events ++ r) no_end
        ∙ append-nil (executions_in live.events))

  pub Says-then :
      (a b d : Live W) (xs ys : List ConversationItem) (os ps : List ToolExecutionOutcome)
      → Says a b xs os
      → Says b d ys ps
      → Says a d (xs ++ ys) (os ++ ps)
  Says-then a b d xs ys os ps h k = (
    k.0 ∙ ap (λ w. w ++ ys) h.0 ∙ append_assoc a.history.working xs ys,
    k.1 ∙ ap (λ w. w ++ ys) h.1 ∙ append_assoc a.history.delta xs ys,
    k.2 ∙ ap (λ w. w ++ ps) h.2 ∙ append_assoc (executions_in a.events) os ps,
  )

module _ {W : Type 0} (methods : TextMethods) (tools : List (ToolDefinition W)) where
  execute_tool-Says :
      (b : ToolCallBlock) (live : Live W)
      → let (o, live') = execute_tool methods tools b live in
        Says live live' (tool_result o.tool_result_turn ∷ []) (o ∷ [])
        × (o.tool_result_turn.call_id ≡ b.call_id)
  unfolding execute_tool emit observe conversation_item_for
  execute_tool-Says b live =
      let started : Live W = emit (tool_execution_start b.call_id b.name b.arguments) live in
      let ended : ToolExecutionOutcome × W =
        execute methods tools b.call_id b.name b.arguments started.world in
      (
        (
          refl,
          refl,
          emit-executed (tool_execution_end ended.0) (record started { world = ended.1 })
              ∙ ap (λ r. r ++ ended.0 ∷ [])
                  (emit-executed (tool_execution_start b.call_id b.name b.arguments) live
                    ∙ append-nil (executions_in live.events)),
        ),
        (execute-Handled methods tools b.call_id b.name b.arguments live.world).1.0,
      )

  execute_tools-Says :
      (calls : List ToolCallBlock) (live : Live W)
      → let (outcomes, live') = execute_tools methods tools calls live in
        Says live live' (result_items outcomes) outcomes × (outcome_ids outcomes ≡ call_ids calls)
  unfolding execute_tools
  execute_tools-Says [] live = (Says-nil live live refl refl, refl)
  execute_tools-Says (b ∷ calls) live =
      let (o, mid) = execute_tool methods tools b live in
      let first = execute_tool-Says b live in
      let rest = execute_tools-Says calls mid in
      (
        Says-then live mid (execute_tools methods tools calls mid).1
            (tool_result o.tool_result_turn ∷ [])
            (result_items (execute_tools methods tools calls mid).0) (o ∷ [])
            (execute_tools methods tools calls mid).0 first.0 rest.0,
        ap (λ k. k ∷ outcome_ids (execute_tools methods tools calls mid).0) first.1
            ∙ ap (λ ks. b.call_id ∷ ks) rest.1,
      )

  -- A completed turn: its outcomes are of its calls, one for each, in order.
  abbrev pub Answered : TurnResult → Type 0
  Answered r = outcome_ids r.tool_executions ≡ call_ids (collect_tool_calls r.assistant_turn.blocks)

  handle_stream_done_event-Says :
      (event : StreamDoneEvent) (live : Live W)
      → let (r, live') = handle_stream_done_event methods tools event live in
        Says live live' (conversation_items r) r.tool_executions × Answered r
  unfolding handle_stream_done_event emit observe conversation_item_for conversation_items
      from_stream_done
  handle_stream_done_event-Says event live =
      let turn : AssistantTurn = from_stream_done event in
      let begun : Live W = emit (message_end turn) live in
      let calls : List ToolCallBlock = collect_tool_calls turn.blocks in
      let told : List ToolExecutionOutcome × Live W = execute_tools methods tools calls begun in
      let batch = execute_tools-Says calls begun in
      let said : Says live begun (assistant turn ∷ []) [] =
        (refl, refl, emit-executed (message_end turn) live) in
      let both =
        Says-then live begun told.1 (assistant turn ∷ []) (result_items told.0) [] told.0 said
          batch.0 in
      (
        (
          both.0,
          both.1,
          emit-executed (turn_end turn told.0) told.1
              ∙ append-nil (executions_in told.1.events)
              ∙ both.2,
        ),
        batch.1,
      )

  -- What a stream that ends with a result has said.
  abbrev pub Told : Live W → Attempt TurnResult → Live W → Type 0
  Told live (done r) live' = Says live live' (conversation_items r) r.tool_executions × Answered r
  Told live other live' = Unit

  Told-after :
      (live mid : Live W) (a : Attempt TurnResult) (live' : Live W)
      → Says live mid [] []
      → Told mid a live'
      → Told live a live'
  Told-after live mid (done r) live' e h =
      (Says-then live mid live' [] (conversation_items r) [] r.tool_executions e h.0, h.1)
  Told-after live mid (turn_failed t) live' e h = tt
  Told-after live mid (raised t m) live' e h = tt

  run_stream-Told :
      (events : List ProviderStreamEvent) (broken : Option (Text × Text)) (live : Live W)
      → let (a, live') = run_stream methods tools events broken live in Told live a live'
  unfolding run_stream
  run_stream-Told [] none live = tt
  run_stream-Told [] (some (t, m)) live = tt
  run_stream-Told (stream_start source id ∷ events) broken live =
      let mid : Live W = emit (message_start (some id)) (emit turn_start live) in
      Told-after live mid (run_stream methods tools events broken mid).0
        (run_stream methods tools events broken mid).1
        (Says-then live (emit turn_start live) mid [] [] [] []
          (Says-quiet turn_start live (unfold conversation_item_for in refl) refl)
          (Says-quiet (message_start (some id)) (emit turn_start live)
            (unfold conversation_item_for in refl) refl))
        (run_stream-Told events broken mid)
  run_stream-Told (update u ∷ events) broken live =
      let mid : Live W = emit (message_update u) live in
      Told-after live mid (run_stream methods tools events broken mid).0
        (run_stream methods tools events broken mid).1
        (Says-quiet (message_update u) live (unfold conversation_item_for in refl) refl)
        (run_stream-Told events broken mid)
  run_stream-Told (stream_done event ∷ events) broken live =
      handle_stream_done_event-Says event live
  run_stream-Told (stream_error event ∷ events) broken live = tt

  pub run_provider_turn-Told :
      (provider : Provider W) (instructions : Text) (run_history : List ConversationItem)
      (live : Live W)
      → let (a, live') = run_provider_turn methods tools provider instructions run_history live in
        Told live a live'
  unfolding run_provider_turn
  run_provider_turn-Told provider instructions run_history live =
      let streamed : Stream × W = provider.stream run_history instructions tools live.world in
      let mid : Live W = record live { world = streamed.1 } in
      Told-after live mid (run_stream methods tools streamed.0.events streamed.0.broken mid).0
        (run_stream methods tools streamed.0.events streamed.0.broken mid).1
        (Says-nil live mid refl refl) (run_stream-Told streamed.0.events streamed.0.broken mid)
