-- ===== src/OpenAi/SdkAdapter.antt =====
-- tile/providers/openai/sdk_event_adapter.py: stream events of the client library as normalized events. Of
-- the library's types there are the fields that the code reads; `json.loads`, `json.dumps` of a
-- reasoning item, and `str.strip` are parameters.
pub mod Terminal
use piy.Base.{
  Text, codes, newline, text_eq, List, [], ◌∷◌, ◌++◌, flatten, any, Bool, true, false, ◌&&◌, Option,
  none, some, if◌then◌else◌,
}
use piy.Types.Json.{Json, JsonObject, end, obj}
use piy.Types.Blocks.{StopReason}
use piy.OpenAi.Normalized.{
  Phase, commentary, final_answer, ReasoningDone, MessageDone, ToolCall, NormalizedEvent, created,
  reasoning_added, reasoning_delta, reasoning_done, message_added, message_text_delta, message_done,
  tool_call_added, tool_call_arguments_delta, tool_call_arguments_done, tool_call_done, completed,
  incomplete, failed,
}

-- A part of a message: output text, a refusal, or another one.
pub data Content : Type 0 where
  output_text : Text → Content
  output_refusal : Text → Content
  other_content : Content

pub record ReasoningItem : Type 0 where
  pub id : Text
  pub summary : List Text
  -- the item as JSON, without the fields that are None
  pub dumped : JsonObject

pub record OutputMessage : Type 0 where
  pub id : Text
  pub content : List Content
  pub phase : Option Text

pub record FunctionToolCall : Type 0 where
  pub id : Option Text
  pub call_id : Text
  pub name : Text
  pub arguments : Option Text

pub data OutputItem : Type 0 where
  reasoning_item : ReasoningItem → OutputItem
  output_message : OutputMessage → OutputItem
  function_tool_call : FunctionToolCall → OutputItem
  other_item : OutputItem

-- `ResponseStreamEvent`: `incomplete` has the reason of its details, `failed_response` the error of
-- its response with the message, where that is a string.
pub data SdkEvent : Type 0 where
  response_created : (response_id : Text) → SdkEvent
  response_completed : (output : List OutputItem) → SdkEvent
  response_incomplete : (output : List OutputItem) (reason : Option Text) → SdkEvent
  response_error : (message : Text) → SdkEvent
  response_failed : (error : Option (Option Text)) → SdkEvent
  reasoning_summary_text_delta : Text → SdkEvent
  reasoning_text_delta : Text → SdkEvent
  output_text_delta : Text → SdkEvent
  refusal_delta : Text → SdkEvent
  arguments_delta : Text → SdkEvent
  arguments_done : Text → SdkEvent
  output_item_added : OutputItem → SdkEvent
  output_item_done : OutputItem → SdkEvent
  other_event : SdkEvent

-- `json.loads`, None for a JSONDecodeError; `json.dumps`; `str.strip`
pub record JsonText : Type 0 where
  pub loads : Text → Option Json
  pub dumps : JsonObject → Text
  pub strip : Text → Text

-- {} for whatever is no object
unfoldable pub object_or_empty : Option Json → JsonObject
object_or_empty (some (obj o)) = o
object_or_empty other = end

-- event.message or a default
unfoldable pub message_or : Option Text → Text → Text
message_or none default = default
message_or (some []) default = default
message_or (some (c ∷ t)) default = c ∷ t

unfoldable pub extract_error_message : Option (Option Text) → Text
unfolding message_or
extract_error_message none = codes "OpenAI response failed."
extract_error_message (some message) = message_or message (codes "OpenAI response failed.")

unfoldable pub extract_stream_error_message : Text → Text
unfolding message_or
extract_stream_error_message message = message_or (some message) (codes "OpenAI stream error.")

-- reason == "content_filter"
unfoldable pub is_content_filter : Option Text → Bool
is_content_filter none = false
is_content_filter (some reason) = text_eq reason (codes "content_filter")

unfoldable pub extract_incomplete_error_message : Option Text → Text
unfolding is_content_filter
extract_incomplete_error_message reason =
    if is_content_filter reason
    then codes "OpenAI response was truncated by the content filter."
    else codes "OpenAI response incomplete."

unfoldable pub is_function_tool_call : OutputItem → Bool
is_function_tool_call (function_tool_call call) = true
is_function_tool_call other = false

-- `_extract_stop_reason` of a completed event, whose base reason is "stop"
unfoldable pub completed_stop_reason : List OutputItem → StopReason
unfolding is_function_tool_call
completed_stop_reason output =
    if any is_function_tool_call output then StopReason.tool_use else StopReason.stop

-- and of an incomplete one, whose base reason is never "stop"
unfoldable pub incomplete_stop_reason : Option Text → StopReason
unfolding is_content_filter
incomplete_stop_reason reason =
    if is_content_filter reason then StopReason.error else StopReason.length

-- "\n\n".join(item.text for item in summary if item.text), with what is joined already
unfoldable pub join_paragraphs : Text → List Text → Text
join_paragraphs joined [] = joined
join_paragraphs joined ([] ∷ summary) = join_paragraphs joined summary
join_paragraphs [] ((c ∷ t) ∷ summary) = join_paragraphs (c ∷ t) summary
join_paragraphs (d ∷ joined) ((c ∷ t) ∷ summary) =
    join_paragraphs (d ∷ joined ++ newline ∷ newline ∷ c ∷ t) summary

unfoldable pub join_reasoning_summary_text : List Text → Text
unfolding join_paragraphs
join_reasoning_summary_text summary = join_paragraphs [] summary

unfoldable pub join_message_text : List Content → Text
join_message_text [] = []
join_message_text (output_text t ∷ content) = t ++ join_message_text content
join_message_text (output_refusal t ∷ content) = t ++ join_message_text content
join_message_text (other_content ∷ content) = join_message_text content

-- A phase is kept if it is one of the two.
unfoldable pub known_phase : Option Text → Option Phase
known_phase none = none
known_phase (some phase) =
    if text_eq phase (codes "commentary")
    then some commentary
    else if text_eq phase (codes "final_answer")
    then some final_answer
    else none

unfoldable pub extract_message_phase : OutputMessage → Option Phase
unfolding known_phase
extract_message_phase m = known_phase m.phase

unfoldable pub normalize_response_lifecycle_event : SdkEvent → Option NormalizedEvent
unfolding completed_stop_reason incomplete_stop_reason extract_incomplete_error_message
    extract_stream_error_message extract_error_message
normalize_response_lifecycle_event (response_created response_id) = some (created response_id)
normalize_response_lifecycle_event (response_completed output) =
    some (completed (completed_stop_reason output))
normalize_response_lifecycle_event (response_incomplete output reason) =
    some
      (incomplete (incomplete_stop_reason reason) (some (extract_incomplete_error_message reason)))
normalize_response_lifecycle_event (response_error message) =
    some (failed (extract_stream_error_message message))
normalize_response_lifecycle_event (response_failed error) =
    some (failed (extract_error_message error))
normalize_response_lifecycle_event other = none

-- a or b
unfoldable pub or_else : Option NormalizedEvent → Option NormalizedEvent → Option NormalizedEvent
or_else none later = later
or_else (some event) later = some event

-- One event in front of the later ones, if it is one.
unfoldable pub kept_event : Option NormalizedEvent → List NormalizedEvent → List NormalizedEvent
kept_event none later = later
kept_event (some event) later = event ∷ later

module _ (json : JsonText) where
  unfoldable pub parse_tool_call_arguments : Text → JsonObject
  unfolding object_or_empty
  parse_tool_call_arguments arguments =
      if text_eq (json.strip arguments) [] then end else object_or_empty (json.loads arguments)

  -- event.item.arguments or ""
  unfoldable pub tool_call_of : FunctionToolCall → ToolCall
  unfolding parse_tool_call_arguments message_or
  tool_call_of call = record {
    provider_item_id = call.id;
    call_id = call.call_id;
    name = call.name;
    arguments = parse_tool_call_arguments (message_or call.arguments []);
  }

  unfoldable pub normalize_content_stream_event : SdkEvent → Option NormalizedEvent
  unfolding parse_tool_call_arguments
  normalize_content_stream_event (reasoning_summary_text_delta delta) = some (reasoning_delta delta)
  normalize_content_stream_event (reasoning_text_delta delta) = some (reasoning_delta delta)
  normalize_content_stream_event (output_text_delta delta) = some (message_text_delta delta)
  normalize_content_stream_event (refusal_delta delta) = some (message_text_delta delta)
  normalize_content_stream_event (arguments_delta delta) = some (tool_call_arguments_delta delta)
  normalize_content_stream_event (arguments_done arguments) =
      some (tool_call_arguments_done (parse_tool_call_arguments arguments))
  normalize_content_stream_event other = none

  unfoldable pub normalize_output_item_added : SdkEvent → Option NormalizedEvent
  unfolding extract_message_phase tool_call_of
  normalize_output_item_added (output_item_added (reasoning_item item)) =
      some (reasoning_added item.id)
  normalize_output_item_added (output_item_added (output_message item)) =
      some (message_added item.id (extract_message_phase item))
  normalize_output_item_added (output_item_added (function_tool_call item)) =
      some (tool_call_added (tool_call_of item))
  normalize_output_item_added other = none

  unfoldable pub normalize_output_item_done : SdkEvent → Option NormalizedEvent
  unfolding extract_message_phase tool_call_of join_reasoning_summary_text join_message_text
  normalize_output_item_done (output_item_done (reasoning_item item)) = some (
      reasoning_done (record {
        item_id = item.id;
        summary_text = join_reasoning_summary_text item.summary;
        reasoning_signature = some (json.dumps item.dumped);
      }))
  normalize_output_item_done (output_item_done (output_message item)) = some (
      message_done (record {
        item_id = item.id;
        text = join_message_text item.content;
        phase = extract_message_phase item;
      }))
  normalize_output_item_done (output_item_done (function_tool_call item)) =
      some (tool_call_done (tool_call_of item))
  normalize_output_item_done other = none

  unfoldable pub normalize_sdk_event : SdkEvent → Option NormalizedEvent
  unfolding or_else normalize_response_lifecycle_event normalize_content_stream_event
      normalize_output_item_added normalize_output_item_done
  normalize_sdk_event event = or_else (normalize_response_lifecycle_event event) (
      or_else (normalize_content_stream_event event)
        (or_else (normalize_output_item_added event) (normalize_output_item_done event)))

  -- The loop of `normalize_sdk_events`.
  unfoldable pub normalize_sdk_events : List SdkEvent → List NormalizedEvent
  unfolding normalize_sdk_event kept_event
  normalize_sdk_events [] = []
  normalize_sdk_events (event ∷ events) =
      kept_event (normalize_sdk_event event) (normalize_sdk_events events)
