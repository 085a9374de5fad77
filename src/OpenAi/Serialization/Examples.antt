-- ===== src/OpenAi/Serialization/Examples.antt =====
-- tile/providers/openai: requests and responses of one call and its result.
use piy.Base.{codes, List, [], ◌∷◌, ◌≡◌, refl, none, some, All, any, text_eq}
use piy.Types.Json.{end, obj}
use piy.Types.Blocks.{
  AssistantBlock, ToolCallBlock, tool_call_end, update, ProviderSource, metadata_string, StopReason,
  from_values,
}
use piy.Types.Conversation.{assistant, TurnStatus}
use piy.Runtime.History.{RunHistory, heal}
use piy.OpenAi.Normalized.{NormalizedEvent, tool_call_done}
use piy.OpenAi.Assembler.{State, yield_stream_event, deref, assemble_stream}
use piy.OpenAi.Assembler.Transcript.{Ends}
use piy.OpenAi.SdkAdapter.{
  JsonText, OutputItem, function_tool_call, SdkEvent, output_item_added, output_item_done,
  response_completed, normalize_sdk_event, normalize_sdk_events,
}
use piy.OpenAi.SdkAdapter.Terminal.{ends_response, normalize_sdk_events-Ends}
use piy.OpenAi.Serialization.{
  InputItem, function_call, function_call_output, plain, Wire, serialize_blocks,
  serialize_history_items,
}
use piy.OpenAi.Serialization.Replays.{replayed, serialize_blocks-replayed}
use piy.OpenAi.Serialization.Pairs.{CallAnswered, serialize_history_items-answers}

-- A codec that knows the empty object.
abbrev json : JsonText
json = record { loads = λ t. some (obj end); dumps = λ o. codes "{}"; strip = λ t. t }

abbrev wire : Wire
wire = record { dumps = λ o. codes "{}"; reasoning_of = λ t. some end }

abbrev source : ProviderSource
source = record { provider = codes "openai"; model = none }

abbrev item : OutputItem
item = function_tool_call (record {
  id = some (codes "fc");
  call_id = codes "c";
  name = codes "ls";
  arguments = some (codes "{}");
})

abbrev block : ToolCallBlock
block = record {
  provider_metadata = from_values ((codes "provider_item_id", some (codes "fc")) ∷ []);
  call_id = codes "c";
  name = codes "ls";
  arguments = end;
}

-- The state with the call open.
abbrev open_call : State
open_call = record {
  source = source;
  response_id = none;
  blocks =
      AssistantBlock.tool_call (record {
        provider_metadata = none;
        call_id = codes "c";
        name = codes "ls";
        arguments = end;
      })
      ∷ [];
  active_block = some 0;
  active_block_index = some 0;
}

abbrev done_event : NormalizedEvent
done_event = tool_call_done (record {
  provider_item_id = some (codes "fc");
  call_id = codes "c";
  name = codes "ls";
  arguments = end;
})

done_is : normalize_sdk_event json (output_item_done item) ≡ some done_event
unfolding normalize_sdk_event text_eq
done_is = refl

sent_is : (yield_stream_event open_call done_event).1 ≡ some (update (tool_call_end 0 block))
unfolding yield_stream_event deref
sent_is = refl

serialize_blocks-replayed_example :
    serialize_blocks wire 0 0 (AssistantBlock.tool_call block ∷ [])
    ≡ some (replayed json wire 0 0 item)
serialize_blocks-replayed_example =
    serialize_blocks-replayed json wire open_call 0 0 item done_event (tool_call_end 0 block)
      (AssistantBlock.tool_call block) tt done_is sent_is refl

abbrev events : List SdkEvent
events = output_item_added item ∷ output_item_done item ∷ response_completed (item ∷ []) ∷ []

normalize_sdk_events-Ends_example :
    Ends (any ends_response events) (assemble_stream source (normalize_sdk_events json events))
normalize_sdk_events-Ends_example = normalize_sdk_events-Ends json source events

-- A run that was cut while a call was open.
abbrev cut : RunHistory
cut = record {
  working = [];
  delta =
      assistant (record {
        source = none;
        blocks = AssistantBlock.tool_call block ∷ [];
        response_id = none;
        stop_reason = StopReason.tool_use;
        status = TurnStatus.completed;
        error_message = none;
      })
      ∷ [];
}

abbrev request : List InputItem
request =
    function_call
      (record { id = codes "fc"; call_id = codes "c"; name = codes "ls"; arguments = codes "{}" })
    ∷ function_call_output (codes "c") (plain (codes "Tool execution did not complete."))
    ∷ []

request_is : serialize_history_items wire (heal cut).delta ≡ some request
unfolding serialize_history_items heal text_eq metadata_string from_values
request_is = refl

serialize_history_items-answers_example : All (CallAnswered request) request
serialize_history_items-answers_example =
    serialize_history_items-answers wire cut request request_is
