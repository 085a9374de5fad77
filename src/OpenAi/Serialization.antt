-- ===== src/OpenAi/Serialization.antt =====
-- tile/providers/openai/serialization.py: history and tools as items of a request. An item is the dict
-- that the code builds, field by field; `json.dumps`, and reading a stored reasoning item back with the
-- client library, are parameters.
pub mod Replays
pub mod Pairs
mod Examples
use piy.Base.{
  ℕ, suc, Text, codes, newline, join, show_number, text_eq, List, [], ◌∷◌, ◌++◌, map, Bool, true,
  false, Option, none, some, if◌then◌else◌,
}
use mathlib.Core.Option.{map as map_option}
use piy.Types.Json.{JsonObject}
use piy.Types.Blocks.{
  AssistantBlock, TextBlock, ReasoningBlock, ToolCallBlock, text, reasoning, tool_call,
  metadata_string,
}
use piy.Types.Conversation.{
  ConversationItem, user, assistant, tool_result, UserMessage, AssistantTurn, ToolResultTurn,
  ToolResultContent, ImageMimeType, TurnStatus,
}
use piy.OpenAi.Normalized.{Phase, commentary, final_answer}

-- ResponseInputTextContentParam and ResponseInputImageContentParam
pub data InputPart : Type 0 where
  input_text : Text → InputPart
  input_image : (image_url detail : Text) → InputPart

-- The output of a call: a string, or a list of parts.
pub data CallOutput : Type 0 where
  plain : Text → CallOutput
  parts : List InputPart → CallOutput

-- ResponseOutputMessageParam, less its constant fields
pub record OutputMessage : Type 0 where
  pub id : Text
  pub output_text : Text
  pub phase : Option Phase

-- ResponseFunctionToolCallParam
pub record FunctionCall : Type 0 where
  pub id : Text
  pub call_id : Text
  pub name : Text
  pub arguments : Text

pub data InputItem : Type 0 where
  user_message : List InputPart → InputItem
  reasoning_item : JsonObject → InputItem
  message : OutputMessage → InputItem
  function_call : FunctionCall → InputItem
  function_call_output : (call_id : Text) → CallOutput → InputItem

-- `json.dumps`, and `_deserialize_reasoning_signature`, which raises for a payload that is not valid.
pub record Wire : Type 0 where
  pub dumps : JsonObject → Text
  pub reasoning_of : Text → Option JsonObject

-- FunctionToolParam
pub record FunctionTool : Type 0 where
  pub name : Text
  pub description : Text
  pub parameters : JsonObject
  pub strict : Bool
  pub defer_loading : Bool

-- An item, or items, in front of later ones, unless one of the two raised.
abbrev pub with_items : Option (List InputItem) → Option (List InputItem) → Option (List InputItem)
with_items none later = none
with_items (some items) none = none
with_items (some items) (some later) = some (items ++ later)

abbrev pub with_item : Option InputItem → Option (List InputItem) → Option (List InputItem)
with_item none later = none
with_item (some item) none = none
with_item (some item) (some later) = some (item ∷ later)

-- The fields of a tool definition that are sent.
pub record SentTool : Type 0 where
  pub name : Text
  pub description : Text
  pub input_schema : JsonObject
  pub defer_loading : Bool

unfoldable pub serialize_tool_definition : SentTool → FunctionTool
serialize_tool_definition tool = record {
  name = tool.name;
  description = tool.description;
  parameters = tool.input_schema;
  strict = false;
  defer_loading = tool.defer_loading;
}

unfoldable pub serialize_tools : List SentTool → List FunctionTool
unfolding serialize_tool_definition
serialize_tools tools = map serialize_tool_definition tools

unfoldable pub serialize_user_message : UserMessage → InputItem
serialize_user_message m = user_message (input_text m.content ∷ [])

-- value or default, where the empty string counts as none
unfoldable pub or_text : Option Text → Text → Text
or_text none default = default
or_text (some []) default = default
or_text (some (c ∷ t)) default = c ∷ t

unfoldable pub build_fallback_message_id : ℕ → ℕ → Text
build_fallback_message_id assistant_turn_index block_index =
    codes "msg_" ++ show_number assistant_turn_index ++ codes "_" ++ show_number block_index

unfoldable pub phase_of : Option Text → Option Phase
phase_of none = none
phase_of (some value) =
    if text_eq value (codes "commentary")
    then some commentary
    else if text_eq value (codes "final_answer")
    then some final_answer
    else none

unfoldable pub read_provider_phase : TextBlock → Option Phase
unfolding phase_of
read_provider_phase b = phase_of (metadata_string (text b) (codes "phase"))

unfoldable pub serialize_assistant_text_block : TextBlock → ℕ → ℕ → InputItem
unfolding or_text build_fallback_message_id read_provider_phase
serialize_assistant_text_block b assistant_turn_index block_index = message (record {
  id =
      or_text (metadata_string (text b) (codes "message_id"))
        (build_fallback_message_id assistant_turn_index block_index);
  output_text = b.text;
  phase = read_provider_phase b;
})

-- block.type == "text" for every block
unfoldable pub texts_of : List ToolResultContent → Option (List Text)
texts_of [] = some []
texts_of (ToolResultContent.text t ∷ content) = map_option (λ ts. t ∷ ts) (texts_of content)
texts_of (ToolResultContent.image payload mime ∷ content) = none

unfoldable pub mime_text : ImageMimeType → Text
mime_text ImageMimeType.jpeg = codes "image/jpeg"
mime_text ImageMimeType.png = codes "image/png"
mime_text ImageMimeType.gif = codes "image/gif"
mime_text ImageMimeType.webp = codes "image/webp"

unfoldable pub build_part : ToolResultContent → InputPart
unfolding mime_text
build_part (ToolResultContent.text t) = input_text t
build_part (ToolResultContent.image payload mime) =
    input_image (codes "data:" ++ mime_text mime ++ codes ";base64," ++ payload) (codes "auto")

-- The joined texts, or the parts of a result that is not text only.
unfoldable pub output_of : List ToolResultContent → Option (List Text) → CallOutput
unfolding join build_part
output_of content (some ts) = plain (join ts)
output_of content none = parts (map build_part content)

unfoldable pub serialize_tool_result_content : List ToolResultContent → CallOutput
unfolding output_of texts_of
serialize_tool_result_content content = output_of content (texts_of content)

unfoldable pub serialize_tool_result_turn : ToolResultTurn → InputItem
unfolding serialize_tool_result_content
serialize_tool_result_turn turn =
    function_call_output turn.call_id (serialize_tool_result_content turn.content)

-- case AssistantTurn(status="completed"): other turns match no case, and add nothing
unfoldable pub if_completed : TurnStatus → Option (List InputItem) → Option (List InputItem)
if_completed TurnStatus.completed items = items
if_completed TurnStatus.aborted items = some []
if_completed TurnStatus.error items = some []

-- assistant_turn_index += 1, in that case
unfoldable pub next_turn_index : TurnStatus → ℕ → ℕ
next_turn_index TurnStatus.completed index = suc index
next_turn_index TurnStatus.aborted index = index
next_turn_index TurnStatus.error index = index

module _ (wire : Wire) where
  unfoldable pub serialize_assistant_tool_call_block : ToolCallBlock → InputItem
  unfolding or_text
  serialize_assistant_tool_call_block b = function_call (record {
    id = or_text (metadata_string (tool_call b) (codes "provider_item_id")) b.call_id;
    call_id = b.call_id;
    name = b.name;
    arguments = wire.dumps b.arguments;
  })

  -- In front of the items of the later blocks; None is the error of a payload that is not valid.
  unfoldable pub with_reasoning : Option Text → Option (List InputItem) → Option (List InputItem)
  with_reasoning none later = later
  with_reasoning (some []) later = later
  with_reasoning (some (c ∷ signature)) later =
      with_item (map_option reasoning_item (wire.reasoning_of (c ∷ signature))) later

  -- The loop of `_serialize_assistant_turn`, from the block at `block_index` on.
  unfoldable pub serialize_blocks : ℕ → ℕ → List AssistantBlock → Option (List InputItem)
  unfolding with_reasoning serialize_assistant_text_block serialize_assistant_tool_call_block
  serialize_blocks assistant_turn_index block_index [] = some []
  serialize_blocks assistant_turn_index block_index (reasoning b ∷ blocks) =
      with_reasoning (metadata_string (reasoning b) (codes "reasoning_signature"))
        (serialize_blocks assistant_turn_index (suc block_index) blocks)
  serialize_blocks assistant_turn_index block_index (text b ∷ blocks) =
      with_item (some (serialize_assistant_text_block b assistant_turn_index block_index))
        (serialize_blocks assistant_turn_index (suc block_index) blocks)
  serialize_blocks assistant_turn_index block_index (tool_call b ∷ blocks) =
      with_item (some (serialize_assistant_tool_call_block b))
        (serialize_blocks assistant_turn_index (suc block_index) blocks)

  unfoldable pub serialize_assistant_turn : AssistantTurn → ℕ → Option (List InputItem)
  unfolding serialize_blocks
  serialize_assistant_turn turn assistant_turn_index =
      serialize_blocks assistant_turn_index 0 turn.blocks

  -- The loop of `serialize_history_items`, with the index of the next completed turn.
  unfoldable pub serialize_from : ℕ → List ConversationItem → Option (List InputItem)
  unfolding serialize_user_message serialize_assistant_turn serialize_tool_result_turn if_completed
      next_turn_index
  serialize_from assistant_turn_index [] = some []
  serialize_from assistant_turn_index (user m ∷ history) =
      with_item (some (serialize_user_message m)) (serialize_from assistant_turn_index history)
  serialize_from assistant_turn_index (assistant turn ∷ history) =
      with_items (if_completed turn.status (serialize_assistant_turn turn assistant_turn_index))
        (serialize_from (next_turn_index turn.status assistant_turn_index) history)
  serialize_from assistant_turn_index (tool_result turn ∷ history) =
      with_item (some (serialize_tool_result_turn turn))
        (serialize_from assistant_turn_index history)

  unfoldable pub serialize_history_items : List ConversationItem → Option (List InputItem)
  unfolding serialize_from
  serialize_history_items history = serialize_from 0 history
