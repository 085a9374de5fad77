-- ===== src/Types/Conversation.antt =====
-- tile/types/conversation.py, and the content of tool results from tile/types/tools.py. Deep copies
-- are values here, so `model_copy` leaves nothing to model.
use piy.Base.{Text, Bool, Option, none, some, List}
use piy.Types.Blocks.{StopReason, ProviderSource, AssistantBlock, StreamDoneEvent, StreamErrorEvent}

pub data ImageMimeType : Type 0 where
  jpeg png gif webp : ImageMimeType

pub data ToolResultContent : Type 0 where
  text : Text → ToolResultContent
  image : Text → ImageMimeType → ToolResultContent

pub data TurnStatus : Type 0 where
  completed aborted error : TurnStatus

pub record UserMessage : Type 0 where
  pub content : Text

pub record AssistantTurn : Type 0 where
  pub source : Option ProviderSource
  pub blocks : List AssistantBlock
  pub response_id : Option Text
  pub stop_reason : StopReason
  pub status : TurnStatus
  pub error_message : Option Text

pub record ToolResultTurn : Type 0 where
  pub call_id : Text
  pub tool_name : Text
  pub content : List ToolResultContent
  pub is_error : Bool

pub data ConversationItem : Type 0 where
  user : UserMessage → ConversationItem
  assistant : AssistantTurn → ConversationItem
  tool_result : ToolResultTurn → ConversationItem

unfoldable pub from_stream_done : StreamDoneEvent → AssistantTurn
from_stream_done e = record {
  source = some e.source;
  blocks = e.blocks;
  response_id = e.response_id;
  stop_reason = e.stop_reason;
  status = completed;
  error_message = none;
}

-- "aborted" if event.stop_reason == "aborted" else "error"
error_status : StopReason → TurnStatus
error_status StopReason.aborted = TurnStatus.aborted
error_status other = TurnStatus.error

unfoldable pub from_stream_error : StreamErrorEvent → AssistantTurn
unfolding error_status
from_stream_error e = record {
  source = some e.source;
  blocks = e.blocks;
  response_id = e.response_id;
  stop_reason = e.stop_reason;
  status = error_status e.stop_reason;
  error_message = some e.error_message;
}
