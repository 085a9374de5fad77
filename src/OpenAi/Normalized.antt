-- ===== src/OpenAi/Normalized.antt =====
-- tile/providers/openai/normalized_events.py: the events that the assembler consumes. An `item_id`
-- that the assembler never reads is kept.
use piy.Base.{Text, codes, Bool, true, false, Option}
use piy.Types.Json.{JsonObject}
use piy.Types.Blocks.{StopReason}

pub data Phase : Type 0 where
  commentary final_answer : Phase

unfoldable pub phase_text : Phase → Text
phase_text commentary = codes "commentary"
phase_text final_answer = codes "final_answer"

pub record ReasoningDone : Type 0 where
  pub item_id : Text
  pub summary_text : Text
  pub reasoning_signature : Option Text

pub record MessageDone : Type 0 where
  pub item_id : Text
  pub text : Text
  pub phase : Option Phase

-- The payload of `ToolCallAddedNormalizedEvent` and of `ToolCallDoneNormalizedEvent`.
pub record ToolCall : Type 0 where
  pub provider_item_id : Option Text
  pub call_id : Text
  pub name : Text
  pub arguments : JsonObject

pub data NormalizedEvent : Type 0 where
  created : Text → NormalizedEvent
  reasoning_added : Text → NormalizedEvent
  reasoning_delta : Text → NormalizedEvent
  reasoning_done : ReasoningDone → NormalizedEvent
  message_added : Text → Option Phase → NormalizedEvent
  message_text_delta : Text → NormalizedEvent
  message_done : MessageDone → NormalizedEvent
  tool_call_added : ToolCall → NormalizedEvent
  tool_call_arguments_delta : Text → NormalizedEvent
  tool_call_arguments_done : JsonObject → NormalizedEvent
  tool_call_done : ToolCall → NormalizedEvent
  completed : StopReason → NormalizedEvent
  incomplete : StopReason → Option Text → NormalizedEvent
  failed : Text → NormalizedEvent

-- event["type"] in TERMINAL_NORMALIZED_EVENT_TYPES
unfoldable pub is_terminal : NormalizedEvent → Bool
is_terminal (completed stop_reason) = true
is_terminal (incomplete stop_reason error_message) = true
is_terminal (failed message) = true
is_terminal other = false
