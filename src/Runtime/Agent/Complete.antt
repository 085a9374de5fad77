-- ===== src/Runtime/Agent/Complete.antt =====
-- An agent invocation leaves no tool call without its result.
use piy.Base.{
  ℕ, zero, suc, Text, Option, none, some, List, [], ◌∷◌, ◌++◌, map, All, ◌≡◌, refl, sym, ap, ◌∙◌,
  arith, Bool-cases, inl, inr,
}
use mathlib.Core.Path.{subst}
use mathlib.Core.List.{append-nil, append_assoc}
use piy.Types.Blocks.{AssistantBlock, text, reasoning, tool_call}
use piy.Types.Conversation.{ConversationItem, user, assistant, tool_result, ToolResultTurn}
use piy.Types.Events.{agent_start, agent_end}
use piy.Types.Tools.{ToolExecutionOutcome}
use piy.Runtime.History.{
  observe, conversation_item_for, answered, unanswered_blocks, unanswered_items,
  unanswered_tool_calls,
}
use piy.Runtime.History.Heals.{Among, self-Among}
use piy.Runtime.History.Replies.{
  EveryCallHasResult, none_left-EveryCallHasResult, EveryCallHasResult-append,
}
use piy.Runtime.ToolExecutor.{TextMethods, ToolDefinition}
use piy.Runtime.Agent.{
  Provider, Live, Attempt, done, turn_failed, raised, AgentResult, TurnResult, conversation_items,
  should_continue, collect_tool_calls, emit, run_provider_turn, after_turn, run_agent_loop,
  close_agent, run_agent,
}
use piy.Runtime.Agent.Answers.{
  executions_in, emit-executed, Says, Says-then, outcome_ids, call_ids, result_items, Answered,
  Told, run_provider_turn-Told,
}

answered-result_items :
    (outcomes : List ToolExecutionOutcome) → answered (result_items outcomes) ≡ outcome_ids outcomes
unfolding answered
answered-result_items [] = refl
answered-result_items (o ∷ outcomes) =
    ap (λ ids. o.tool_result_turn.call_id ∷ ids) (answered-result_items outcomes)

unanswered-result_items :
    (ids : List Text) (outcomes : List ToolExecutionOutcome)
    → unanswered_items ids (result_items outcomes) ≡ []
unfolding unanswered_items
unanswered-result_items ids [] = refl
unanswered-result_items ids (o ∷ outcomes) = unanswered-result_items ids outcomes

calls-answered :
    (ids : List Text) (blocks : List AssistantBlock)
    → All (Among ids) (collect_tool_calls blocks)
    → unanswered_blocks ids blocks ≡ []
unfolding unanswered_blocks collect_tool_calls
calls-answered ids [] h = refl
calls-answered ids (text b ∷ blocks) h = calls-answered ids blocks h
calls-answered ids (reasoning b ∷ blocks) h = calls-answered ids blocks h
calls-answered ids (tool_call b ∷ blocks) h = ground (arith, calls-answered ids blocks)

-- The items of a completed turn.
turn-answered :
    (r : TurnResult)
    → outcome_ids r.tool_executions ≡ call_ids (collect_tool_calls r.assistant_turn.blocks)
    → unanswered_tool_calls (conversation_items r) ≡ []
unfolding unanswered_tool_calls unanswered_items conversation_items answered
turn-answered r e =
    let ids : List Text = outcome_ids r.tool_executions in
    subst
      (λ k.
        unanswered_blocks k r.assistant_turn.blocks
          ++ unanswered_items k (result_items r.tool_executions)
        ≡ [])
      (sym (answered-result_items r.tool_executions))
      (rw
        (calls-answered ids r.assistant_turn.blocks (
          subst (λ k. All (Among k) (collect_tool_calls r.assistant_turn.blocks)) (sym e)
            (self-Among [] (collect_tool_calls r.assistant_turn.blocks))))
        (unanswered-result_items ids r.tool_executions))

-- The turn's items: every call has a result, and the results are those of its executions.
turn-EveryCallHasResult :
    (r : TurnResult)
    → outcome_ids r.tool_executions ≡ call_ids (collect_tool_calls r.assistant_turn.blocks)
    → EveryCallHasResult (conversation_items r)
turn-EveryCallHasResult r e =
    none_left-EveryCallHasResult (conversation_items r) (turn-answered r e)

-- The results among the items.
abbrev pub result_turns : List ConversationItem → List ToolResultTurn
result_turns [] = []
result_turns (user m ∷ items) = result_turns items
result_turns (assistant t ∷ items) = result_turns items
result_turns (tool_result t ∷ items) = t ∷ result_turns items

result_turns-append :
    (xs ys : List ConversationItem) → result_turns (xs ++ ys) ≡ result_turns xs ++ result_turns ys
result_turns-append [] ys = refl
result_turns-append (user m ∷ xs) ys = result_turns-append xs ys
result_turns-append (assistant t ∷ xs) ys = result_turns-append xs ys
result_turns-append (tool_result t ∷ xs) ys = ap (λ r. t ∷ r) (result_turns-append xs ys)

abbrev pub turns_of : List ToolExecutionOutcome → List ToolResultTurn
turns_of = map (λ o. o.tool_result_turn)

turns_of-append :
    (xs ys : List ToolExecutionOutcome) → turns_of (xs ++ ys) ≡ turns_of xs ++ turns_of ys
turns_of-append [] ys = refl
turns_of-append (o ∷ xs) ys = ap (λ r. o.tool_result_turn ∷ r) (turns_of-append xs ys)

result_turns-result_items :
    (outcomes : List ToolExecutionOutcome)
    → result_turns (result_items outcomes) ≡ turns_of outcomes
result_turns-result_items [] = refl
result_turns-result_items (o ∷ outcomes) =
    ap (λ r. o.tool_result_turn ∷ r) (result_turns-result_items outcomes)

result_turns-conversation_items :
    (r : TurnResult) → result_turns (conversation_items r) ≡ turns_of r.tool_executions
unfolding conversation_items
result_turns-conversation_items r = result_turns-result_items r.tool_executions

-- What an invocation that returned has said and run: every call of the new items has a result, the
-- executions that it returns, after those before it, are the new ones that the log of events tells,
-- whole, and the results among the items are theirs.
pub record Complete {W : Type 0} (live live' : Live W) (before after : List ToolExecutionOutcome)
    : Type 0 where
  pub items : List ConversationItem
  pub new : List ToolExecutionOutcome
  pub says : Says live live' items new
  pub answers_all : EveryCallHasResult items
  pub outcomes : after ≡ before ++ new
  pub results : result_turns items ≡ turns_of new

module _ {W : Type 0} (methods : TextMethods) (tools : List (ToolDefinition W))
    (provider : Provider W) (instructions : Text) where
  abbrev Returned :
      Live W → List ToolExecutionOutcome → Option (Attempt AgentResult × Live W) → Type 0
  Returned live before none = Unit
  Returned live before (some (done r, live')) = Complete live live' before r.tool_executions
  Returned live before (some (turn_failed t, live')) = Unit
  Returned live before (some (raised t m, live')) = Unit

  -- One more turn before.
  Returned-turn :
      (live mid : Live W) (r : TurnResult) (before : List ToolExecutionOutcome)
      (o : Option (Attempt AgentResult × Live W))
      → Says live mid (conversation_items r) r.tool_executions × Answered methods tools r
      → Returned mid (before ++ r.tool_executions) o
      → Returned live before o
  Returned-turn live mid r before none h k = tt
  Returned-turn live mid r before (some (turn_failed t, live')) h k = tt
  Returned-turn live mid r before (some (raised t m, live')) h k = tt
  Returned-turn live mid r before (some (done a, live')) h k = record {
    items = conversation_items r ++ k.items;
    new = r.tool_executions ++ k.new;
    says =
        Says-then live mid live' (conversation_items r) k.items r.tool_executions k.new h.0 k.says;
    answers_all =
        EveryCallHasResult-append (conversation_items r) k.items (turn-EveryCallHasResult r h.1)
          k.answers_all;
    outcomes = k.outcomes ∙ append_assoc before r.tool_executions k.new;
    results =
        result_turns-append (conversation_items r) k.items
        ∙ ap (λ x. x ++ result_turns k.items) (result_turns-conversation_items r)
        ∙ ap (λ x. turns_of r.tool_executions ++ x) k.results
        ∙ sym (turns_of-append r.tool_executions k.new);
  }

  after_turn-Returned :
      (next : List ConversationItem
        → List ToolExecutionOutcome
        → Live W
        → Option (Attempt AgentResult × Live W))
      → ((h : List ConversationItem) (x : List ToolExecutionOutcome) (l : Live W)
          → Returned l x (next h x l))
      → (run_history : List ConversationItem) (before : List ToolExecutionOutcome) (live : Live W)
        (a : Attempt TurnResult) (mid : Live W)
      → Told methods tools live a mid
      → Returned live before
          (after_turn methods tools provider instructions next run_history before a mid)
  after_turn-Returned next ih run_history before live (turn_failed t) mid h = tt
  after_turn-Returned next ih run_history before live (raised t m) mid h = tt
  after_turn-Returned next ih run_history before live (done r) mid h =
      elim (Bool-cases (should_continue r)) [
        | inl on ↦ rw on (
            Returned-turn live mid r before _ h
              (ih (run_history ++ conversation_items r) (before ++ r.tool_executions) mid))
        | inr off ↦ rw off (record {
          items = conversation_items r;
          new = r.tool_executions;
          says = h.0;
          answers_all = turn-EveryCallHasResult r h.1;
          outcomes = refl;
          results = result_turns-conversation_items r;
        })
      ]

  run_agent_loop-Returned :
      (fuel : ℕ) (run_history : List ConversationItem) (before : List ToolExecutionOutcome)
      (live : Live W)
      → Returned live before
          (run_agent_loop methods tools provider instructions fuel run_history before live)
  unfolding run_agent_loop
  run_agent_loop-Returned zero run_history before live = tt
  run_agent_loop-Returned (suc fuel) run_history before live =
      after_turn-Returned (run_agent_loop methods tools provider instructions fuel)
        (run_agent_loop-Returned fuel) run_history before live
        (run_provider_turn methods tools provider instructions run_history live).0
        (run_provider_turn methods tools provider instructions run_history live).1
        (run_provider_turn-Told methods tools provider instructions run_history live)

  -- The lifecycle events of the agent are no items.
  closed-Returned :
      (live : Live W) (o : Option (Attempt AgentResult × Live W))
      → Returned (emit agent_start live) [] o
      → Returned live [] (close_agent methods tools provider instructions o)
  unfolding emit observe conversation_item_for
  closed-Returned live none h = tt
  closed-Returned live (some (turn_failed t, l)) h = tt
  closed-Returned live (some (raised t m, l)) h = tt
  closed-Returned live (some (done a, l)) h = record {
    items = h.items;
    new = h.new;
    says = (
      h.says.0,
      h.says.1,
      emit-executed agent_end l
          ∙ append-nil (executions_in l.events)
          ∙ h.says.2
          ∙ ap (λ x. x ++ h.new)
              (emit-executed agent_start live ∙ append-nil (executions_in live.events)),
    );
    answers_all = h.answers_all;
    outcomes = h.outcomes;
    results = h.results;
  }

  -- An invocation of the agent that returns has added items to the history and the delta of its run
  -- in which every tool call has a result, in whatever turn it stood. The executions that it returns
  -- are those whose end it told in the log of events, whole and in their order, and the results among
  -- the items are theirs.
  pub run_agent-completes :
      (fuel : ℕ) (history : List ConversationItem) (live live' : Live W) (result : AgentResult)
      → run_agent methods tools provider instructions fuel history live ≡ some (done result, live')
      → Complete live live' [] result.tool_executions
  unfolding run_agent
  run_agent-completes fuel history live live' result e = subst (Returned live []) e (
      closed-Returned live
        (run_agent_loop methods tools provider instructions fuel history [] (emit agent_start live))
        (run_agent_loop-Returned fuel history [] (emit agent_start live)))
