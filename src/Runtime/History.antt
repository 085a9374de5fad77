-- ===== src/Runtime/History.antt =====
-- tile/runtime/history.py: what a live run has said, as it will be replayed.
pub mod Replies
pub mod Heals
use piy.Base.{
  Text, codes, text_eq, Bool, true, false, not, ◌&&◌, Option, none, some, List, [], ◌∷◌, ◌++◌, map,
  any, if◌then◌else◌,
}
use piy.Types.Blocks.{AssistantBlock, ToolCallBlock, text, reasoning, tool_call}
use piy.Types.Conversation.{
  ConversationItem, user, assistant, tool_result, AssistantTurn, ToolResultTurn, ToolResultContent,
  TurnStatus, completed, aborted, error,
}
use piy.Types.Conversation
use piy.Types.Events.{AgentEvent, message_end, tool_execution_end, result_follow_up}
use piy.Types.Tools.{ToolExecutionOutcome}
use piy.Store.Models.{HistoryItem}

-- `_RunHistory`
pub record RunHistory : Type 0 where
  pub working : List ConversationItem
  pub delta : List ConversationItem

unfoldable pub start : List HistoryItem → Text → RunHistory
start committed prompt =
    let delta : List ConversationItem = user (record { content = prompt }) ∷ [] in
    record { working = map (λ envelope. envelope.item) committed ++ delta; delta = delta }

-- turn.status == "completed"
replayable_turn : AssistantTurn → TurnStatus → Option ConversationItem
replayable_turn turn completed = some (assistant turn)
replayable_turn turn aborted = none
replayable_turn turn error = none

-- `_conversation_item_for`
unfoldable pub conversation_item_for : AgentEvent → Option ConversationItem
unfolding replayable_turn
conversation_item_for (message_end turn) = replayable_turn turn turn.status
conversation_item_for (tool_execution_end outcome) = some (tool_result outcome.tool_result_turn)
conversation_item_for (result_follow_up message) = some (user message)
conversation_item_for other = none

abbrev pub keep_item : RunHistory → Option ConversationItem → RunHistory
keep_item h none = h
keep_item h (some item) = record { working = h.working ++ item ∷ []; delta = h.delta ++ item ∷ [] }

unfoldable pub observe : RunHistory → AgentEvent → RunHistory
observe h event = keep_item h (conversation_item_for event)

-- The ids of the results: the set comprehension of `_unanswered_tool_calls`.
unfoldable pub answered : List ConversationItem → List Text
answered [] = []
answered (tool_result t ∷ items) = t.call_id ∷ answered items
answered (user m ∷ items) = answered items
answered (assistant t ∷ items) = answered items

-- The tool calls of one turn that are not among the answered.
unfoldable pub unanswered_blocks : List Text → List AssistantBlock → List ToolCallBlock
unanswered_blocks ids [] = []
unanswered_blocks ids (tool_call b ∷ blocks) =
    let rest = unanswered_blocks ids blocks in
    if any (text_eq b.call_id) ids then rest else b ∷ rest
unanswered_blocks ids (text b ∷ blocks) = unanswered_blocks ids blocks
unanswered_blocks ids (reasoning b ∷ blocks) = unanswered_blocks ids blocks

unfoldable pub unanswered_items : List Text → List ConversationItem → List ToolCallBlock
unfolding unanswered_blocks
unanswered_items ids [] = []
unanswered_items ids (assistant t ∷ items) =
    unanswered_blocks ids t.blocks ++ unanswered_items ids items
unanswered_items ids (user m ∷ items) = unanswered_items ids items
unanswered_items ids (tool_result t ∷ items) = unanswered_items ids items

-- `_unanswered_tool_calls`
unfoldable pub unanswered_tool_calls : List ConversationItem → List ToolCallBlock
unfolding unanswered_items answered
unanswered_tool_calls items = unanswered_items (answered items) items

unfoldable pub interrupted_result : ToolCallBlock → ConversationItem
interrupted_result call = tool_result (record {
  call_id = call.call_id;
  tool_name = call.name;
  content = ToolResultContent.text (codes "Tool execution did not complete.") ∷ [];
  is_error = true;
})

unfoldable pub heal : RunHistory → RunHistory
unfolding unanswered_tool_calls interrupted_result
heal h =
    let results = map interrupted_result (unanswered_tool_calls h.delta) in
    record { working = h.working ++ results; delta = h.delta ++ results }
