-- ===== src/Types/Tools.antt =====
-- tile/types/tools.py and tile/types/tool_execution.py: tool results, tool errors, and the outcome of
-- one tool execution.
use piy.Base.{ℕ, Text, Bool, true, false, Option, List, [], ◌∷◌}
use piy.Types.Json.{JsonObject}
use piy.Types.Conversation.{ToolResultTurn, ToolResultContent}

pub data LocationPart : Type 0 where
  key : Text → LocationPart
  index : ℕ → LocationPart

pub record ToolInputIssue : Type 0 where
  pub location : List LocationPart
  pub code : Text
  pub message : Text

-- `ToolDetails` and the subclasses that the runtime builds or tests for; `other` is any other one,
-- with its fields.
pub data ToolDetails : Type 0 where
  complete : JsonObject → ToolDetails
  fail : Text → ToolDetails
  tool_input_validation_failure : Text → List ToolInputIssue → ToolDetails
  tool_invocation_failure : Text → Text → Text → ToolDetails
  other : JsonObject → ToolDetails

pub record ToolResult : Type 0 where
  pub content : List ToolResultContent
  pub details : Option ToolDetails
  pub terminate : Bool

-- ToolResult.text
unfoldable pub text_result : Text → Option ToolDetails → Bool → ToolResult
text_result message details terminate = record {
  content = ToolResultContent.text message ∷ [];
  details = details;
  terminate = terminate;
}

pub record ToolError : Type 0 where
  pub message : Text
  pub details : Option ToolDetails

pub record ToolExecutionOutcome : Type 0 where
  pub tool_result_turn : ToolResultTurn
  pub details : Option ToolDetails
  pub terminate : Bool

unfoldable pub from_result : Text → Text → ToolResult → ToolExecutionOutcome
from_result call_id tool_name result = record {
  tool_result_turn = record {
    call_id = call_id;
    tool_name = tool_name;
    content = result.content;
    is_error = false;
  };
  details = result.details;
  terminate = result.terminate;
}

unfoldable pub from_error : Text → Text → Text → Option ToolDetails → ToolExecutionOutcome
from_error call_id tool_name message details = record {
  tool_result_turn = record {
    call_id = call_id;
    tool_name = tool_name;
    content = ToolResultContent.text message ∷ [];
    is_error = true;
  };
  details = details;
  terminate = false;
}
