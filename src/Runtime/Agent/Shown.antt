-- ===== src/Runtime/Agent/Shown.antt =====
-- What the provider is shown, turn by turn: the loop keeps a list of its own beside the run's history.
use piy.Base.{
  ℕ, zero, suc, Text, Option, none, some, List, [], ◌++◌, ◌≡◌, refl, sym, ap, ◌∙◌, Bool-cases, inl,
  inr, if◌then◌else◌,
}
use mathlib.Core.Path.{subst}
use mathlib.Core.List.{append_assoc}
use piy.Types.Conversation.{ConversationItem}
use piy.Types.Events.{agent_start}
use piy.Types.Tools.{ToolExecutionOutcome}
use piy.Runtime.History.{observe, conversation_item_for}
use piy.Runtime.ToolExecutor.{TextMethods, ToolDefinition}
use piy.Runtime.Agent.{
  Provider, Live, Attempt, done, turn_failed, raised, AgentResult, TurnResult, conversation_items,
  should_continue, emit, run_provider_turn, after_turn, run_agent_loop, close_agent, run_agent,
}
use piy.Runtime.Agent.Answers.{Told, run_provider_turn-Told}

module _ {W : Type 0} (methods : TextMethods) (tools : List (ToolDefinition W))
    (provider : Provider W) (instructions : Text) (base : List ConversationItem) where
  abbrev Next : Type 0
  Next = List ToolExecutionOutcome → Live W → Option (Attempt AgentResult × Live W)

  -- The rounds without a list of their own: each shows the provider the base, then the delta of the
  -- run as it is at that moment.
  after_shown :
      Next
      → List ToolExecutionOutcome
      → Attempt TurnResult
      → Live W
      → Option (Attempt AgentResult × Live W)
  after_shown next executions (turn_failed turn) live = some (turn_failed turn, live)
  after_shown next executions (raised exception_type message) live =
      some (raised exception_type message, live)
  after_shown next executions (done result) live =
      let executions' = executions ++ result.tool_executions in
      if should_continue result
      then next executions' live
      else some
          (done (record { last_turn = result.assistant_turn; tool_executions = executions' }), live)

  unfoldable pub shown_loop :
      ℕ → List ToolExecutionOutcome → Live W → Option (Attempt AgentResult × Live W)
  unfolding after_shown
  shown_loop zero executions live = none
  shown_loop (suc fuel) executions live =
      let (result, live') =
        run_provider_turn methods tools provider instructions (base ++ live.history.delta) live in
      after_shown (shown_loop fuel) executions result live'

  unfoldable pub shown_agent : ℕ → Live W → Option (Attempt AgentResult × Live W)
  unfolding shown_loop
  shown_agent fuel live =
      close_agent methods tools provider instructions (shown_loop fuel [] (emit agent_start live))

  after_turn-shown :
      (more : List ConversationItem
        → List ToolExecutionOutcome
        → Live W
        → Option (Attempt AgentResult × Live W))
      (next : Next)
      → ((h : List ConversationItem) (x : List ToolExecutionOutcome) (l : Live W)
          → h ≡ base ++ l.history.delta
          → more h x l ≡ next x l)
      → (executions : List ToolExecutionOutcome) (live : Live W) (a : Attempt TurnResult)
        (mid : Live W)
      → Told methods tools live a mid
      → after_turn methods tools provider instructions more
          (base ++ live.history.delta)
          executions
          a
          mid
        ≡ after_shown next executions a mid
  unfolding after_shown
  after_turn-shown more next ih executions live (turn_failed t) mid told = refl
  after_turn-shown more next ih executions live (raised t m) mid told = refl
  after_turn-shown more next ih executions live (done r) mid told =
      elim (Bool-cases (should_continue r)) [
        | inl on ↦ rw on (
            ih ((base ++ live.history.delta) ++ conversation_items r)
              (executions ++ r.tool_executions) mid
              (append_assoc base live.history.delta (conversation_items r)
                ∙ ap (λ d. base ++ d) (sym told.0.1)))
        | inr off ↦ rw off refl
      ]

  run_agent_loop-shown :
      (fuel : ℕ) (run_history : List ConversationItem) (executions : List ToolExecutionOutcome)
      (live : Live W)
      → run_history ≡ base ++ live.history.delta
      → run_agent_loop methods tools provider instructions fuel run_history executions live
        ≡ shown_loop fuel executions live
  unfolding run_agent_loop shown_loop
  run_agent_loop-shown zero run_history executions live same = refl
  run_agent_loop-shown (suc fuel) run_history executions live same =
      let shown : List ConversationItem = base ++ live.history.delta in
      let turn : Attempt TurnResult × Live W =
        run_provider_turn methods tools provider instructions shown live in
      subst
        (λ h.
          run_agent_loop methods tools provider instructions (suc fuel) h executions live
          ≡ shown_loop (suc fuel) executions live)
        (sym same)
        (after_turn-shown (run_agent_loop methods tools provider instructions fuel)
          (shown_loop fuel) (run_agent_loop-shown fuel) executions live turn.0 turn.1
          (run_provider_turn-Told methods tools provider instructions shown live))

  -- At every turn of an invocation, the provider is shown the committed history, then exactly the
  -- delta that the run has at that moment and would commit: the list that the loop keeps comes to the
  -- same as reading the delta of the run again at each turn, if the two agree at the start.
  pub run_agent-shown :
      (fuel : ℕ) (history : List ConversationItem) (live : Live W)
      → history ≡ base ++ live.history.delta
      → run_agent methods tools provider instructions fuel history live ≡ shown_agent fuel live
  unfolding run_agent shown_agent emit observe conversation_item_for
  run_agent-shown fuel history live same =
      ap (close_agent methods tools provider instructions)
        (run_agent_loop-shown fuel history [] (emit agent_start live) same)
