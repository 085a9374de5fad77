-- ===== src/Runtime/Agent/Stops.antt =====
-- The agent loop ends if the provider stops to ask for tools.
use piy.Base.{
  leb, leb→le, leb→lt, ℕ, zero, suc, ◌+◌, ◌≤◌, ◌<◌, Text, Option, none, some, List, [], ◌∷◌, ◌++◌,
  inl, inr, ◌≡◌, ◌≢◌, refl, arith, Bool-cases,
}
use piy.Types.Blocks.{ProviderStreamEvent, stream_start, update, stream_done, stream_error}
use piy.Types.Conversation.{ConversationItem, user, assistant, tool_result, from_stream_done}
use piy.Types.Events.{agent_start}
use piy.Types.Tools.{ToolExecutionOutcome}
use piy.Runtime.ToolExecutor.{TextMethods, ToolDefinition}
use piy.Runtime.Agent.{
  emit, Stream, Provider, Live, Attempt, done, turn_failed, raised, AgentResult, TurnResult,
  conversation_items, any_execution, should_continue, collect_tool_calls, execute_tools,
  handle_stream_done_event, run_stream, run_provider_turn, after_turn, run_agent_loop, close_agent,
  run_agent,
}

-- The assistant turns of a conversation.
abbrev pub turns : List ConversationItem → ℕ
turns [] = 0
turns (assistant t ∷ items) = suc (turns items)
turns (user m ∷ items) = turns items
turns (tool_result t ∷ items) = turns items

-- No event of the stream completes a turn that asks for a tool.
abbrev pub AsksNoTool : List ProviderStreamEvent → Type 0
AsksNoTool [] = Unit
AsksNoTool (stream_done e ∷ events) = (collect_tool_calls e.blocks ≡ []) × AsksNoTool events
AsksNoTool (stream_start source id ∷ events) = AsksNoTool events
AsksNoTool (update u ∷ events) = AsksNoTool events
AsksNoTool (stream_error e ∷ events) = AsksNoTool events

turns-append : (xs ys : List ConversationItem) → turns (xs ++ ys) ≡ turns xs + turns ys
turns-append [] ys = omega arith
turns-append (assistant t ∷ xs) ys = omega (arith, turns-append xs ys)
turns-append (user m ∷ xs) ys = turns-append xs ys
turns-append (tool_result t ∷ xs) ys = turns-append xs ys

turns-conversation_items :
    (run_history : List ConversationItem) (r : TurnResult)
    → suc (turns run_history) ≤ turns (run_history ++ conversation_items r)
unfolding conversation_items
turns-conversation_items run_history r =
    omega (arith, turns-append run_history (conversation_items r))

module _ {W : Type 0} (methods : TextMethods) (tools : List (ToolDefinition W)) where
  abbrev Quiet : Attempt TurnResult → Type 0
  Quiet (done r) = r.tool_executions ≡ []
  Quiet other = Unit

  run_stream-Quiet :
      (events : List ProviderStreamEvent) (broken : Option (Text × Text)) (live : Live W)
      → AsksNoTool events
      → Quiet (run_stream methods tools events broken live).0
  unfolding run_stream handle_stream_done_event from_stream_done execute_tools
  run_stream-Quiet [] none live h = tt
  run_stream-Quiet [] (some (t, m)) live h = tt
  run_stream-Quiet (stream_start source id ∷ events) broken live h =
      run_stream-Quiet events broken _ h
  run_stream-Quiet (update u ∷ events) broken live h = run_stream-Quiet events broken _ h
  run_stream-Quiet (stream_done event ∷ events) broken live h = rw h.0 refl
  run_stream-Quiet (stream_error event ∷ events) broken live h = tt

  module _ (provider : Provider W) (instructions : Text) where
    -- The loop after a turn without tools.
    after_turn-Quiet :
        (next : List ConversationItem
          → List ToolExecutionOutcome
          → Live W
          → Option (Attempt AgentResult × Live W))
        (run_history : List ConversationItem) (before : List ToolExecutionOutcome)
        (a : Attempt TurnResult) (live : Live W)
        → Quiet a
        → after_turn methods tools provider instructions next run_history before a live ≢ none
    unfolding should_continue any_execution
    after_turn-Quiet next run_history before (done r) live h = rw h (λ e. cc)
    after_turn-Quiet next run_history before (turn_failed t) live h = λ e. cc
    after_turn-Quiet next run_history before (raised t m) live h = λ e. cc

    after_turn-next :
        (next : List ConversationItem
          → List ToolExecutionOutcome
          → Live W
          → Option (Attempt AgentResult × Live W))
        (run_history : List ConversationItem) (before : List ToolExecutionOutcome)
        (a : Attempt TurnResult) (live : Live W)
        → ((r : TurnResult) (x : List ToolExecutionOutcome) (l : Live W)
            → next (run_history ++ conversation_items r) x l ≢ none)
        → after_turn methods tools provider instructions next run_history before a live ≢ none
    after_turn-next next run_history before (done r) live h =
        elim (Bool-cases (should_continue r)) [
          | inl on ↦ rw on (h r (before ++ r.tool_executions) live)
          | inr off ↦ rw off (λ e. cc)
        ]
    after_turn-next next run_history before (turn_failed t) live h = λ e. cc
    after_turn-next next run_history before (raised t m) live h = λ e. cc

    module _ (limit : ℕ)
        (calm : (h : List ConversationItem) (w : W)
          → limit ≤ turns h
          → AsksNoTool (provider.stream h instructions tools w).0.events) where
      run_agent_loop-stops :
          (fuel : ℕ) (run_history : List ConversationItem) (before : List ToolExecutionOutcome)
          (live : Live W)
          → 1 ≤ fuel
          → limit < turns run_history + fuel
          → run_agent_loop methods tools provider instructions fuel run_history before live ≢ none
      unfolding run_agent_loop run_provider_turn
      run_agent_loop-stops zero run_history before live some_fuel h = absurd (omega arith)
      run_agent_loop-stops (suc fuel) run_history before live some_fuel h =
          elim (Bool-cases (leb limit (turns run_history))) [
            | inl late ↦
                let streamed : Stream × W =
                  provider.stream run_history instructions tools live.world in
                let mid : Live W = record live { world = streamed.1 } in
                let a : Attempt TurnResult × Live W =
                  run_stream methods tools streamed.0.events streamed.0.broken mid in
                after_turn-Quiet (run_agent_loop methods tools provider instructions fuel)
                  run_history before a.0 a.1
                  (run_stream-Quiet streamed.0.events streamed.0.broken mid
                    (calm run_history live.world (leb→le limit (turns run_history) late)))
            | inr early ↦
                let a : Attempt TurnResult × Live W =
                  run_provider_turn methods tools provider instructions run_history live in
                after_turn-next (run_agent_loop methods tools provider instructions fuel)
                  run_history before a.0 a.1
                  (λ r x l.
                    run_agent_loop-stops fuel (run_history ++ conversation_items r) x l
                      (omega (arith, leb→lt limit (turns run_history) early))
                      (omega (
                        arith,
                        leb→lt limit (turns run_history) early,
                        turns-conversation_items run_history r,
                      )))
          ]

      closed-stops :
          (o : Option (Attempt AgentResult × Live W))
          → o ≢ none
          → close_agent methods tools provider instructions o ≢ none
      closed-stops none h = absurd (h refl)
      closed-stops (some (done r, l)) h = λ e. cc
      closed-stops (some (turn_failed t, l)) h = λ e. cc
      closed-stops (some (raised t m, l)) h = λ e. cc

      -- If the provider asks for no tool once a conversation holds `limit` assistant turns, an
      -- invocation of the agent ends, by a result or an error, within `limit + 1` turns.
      pub run_agent-stops :
          (history : List ConversationItem) (live : Live W)
          → run_agent methods tools provider instructions (limit + 1) history live ≢ none
      unfolding run_agent
      run_agent-stops history live =
          closed-stops
            (run_agent_loop methods tools provider instructions (limit + 1) history []
              (emit agent_start live))
            (run_agent_loop-stops (limit + 1) history [] (emit agent_start live) (omega arith)
              (omega arith))
