-- ===== src/Types/Events.antt =====
-- tile/events.py: the events of a run.
use piy.Base.{Text, Option, List}
use piy.Types.Json.{JsonObject}
use piy.Types.Blocks.{StreamUpdateEvent}
use piy.Types.Conversation.{AssistantTurn, UserMessage}
use piy.Types.Tools.{ToolExecutionOutcome}
use piy.Types.Outcome.{RunOutcome}

pub data AgentEvent : Type 0 where
  run_start : AgentEvent
  run_end : RunOutcome → AgentEvent
  -- exception type and message
  run_fault : Text → Text → AgentEvent
  agent_start : AgentEvent
  agent_end : AgentEvent
  result_follow_up : UserMessage → AgentEvent
  turn_start : AgentEvent
  turn_end : AssistantTurn → List ToolExecutionOutcome → AgentEvent
  message_start : Option Text → AgentEvent
  message_update : StreamUpdateEvent → AgentEvent
  message_end : AssistantTurn → AgentEvent
  -- call id, tool name and arguments
  tool_execution_start : Text → Text → JsonObject → AgentEvent
  tool_execution_end : ToolExecutionOutcome → AgentEvent
