-- ===== src/OpenAi/SdkAdapter/Terminal.antt =====
-- tile/providers/openai: which events of the client library end a stream of the provider.
use piy.Base.{
  List, [], ◌∷◌, ◌≡◌, refl, sym, ap, ◌∙◌, Bool, true, false, ◌||◌, Option, none, some, any,
}
use mathlib.Core.Path.{subst}
use piy.Types.Blocks.{ProviderSource}
use piy.OpenAi.Normalized.{NormalizedEvent, is_terminal}
use piy.OpenAi.Assembler.{assemble_stream}
use piy.OpenAi.Assembler.Transcript.{Ends, assemble_stream-Ends}
use piy.OpenAi.SdkAdapter.{
  JsonText, reasoning_item, output_message, function_tool_call, other_item, SdkEvent,
  response_completed, response_incomplete, response_error, response_failed, output_item_added,
  output_item_done, normalize_sdk_event, kept_event, normalize_sdk_events,
}

-- The response is completed, incomplete or failed, or the stream has an error.
abbrev pub ends_response : SdkEvent → Bool
ends_response (response_completed output) = true
ends_response (response_incomplete output reason) = true
ends_response (response_error message) = true
ends_response (response_failed error) = true
ends_response other = false

-- The normalized event of an event, if any, is terminal as the event is.
abbrev Agrees : Option NormalizedEvent → Bool → Type 0
Agrees none ends = ends ≡ false
Agrees (some e) ends = is_terminal e ≡ ends

normalize_sdk_event-Agrees :
    (json : JsonText) (event : SdkEvent)
    → Agrees (normalize_sdk_event json event) (ends_response event)
unfolding normalize_sdk_event is_terminal
normalize_sdk_event-Agrees json (output_item_added (reasoning_item item)) = refl
normalize_sdk_event-Agrees json (output_item_added (output_message item)) = refl
normalize_sdk_event-Agrees json (output_item_added (function_tool_call item)) = refl
normalize_sdk_event-Agrees json (output_item_added other_item) = refl
normalize_sdk_event-Agrees json (output_item_done (reasoning_item item)) = refl
normalize_sdk_event-Agrees json (output_item_done (output_message item)) = refl
normalize_sdk_event-Agrees json (output_item_done (function_tool_call item)) = refl
normalize_sdk_event-Agrees json (output_item_done other_item) = refl
normalize_sdk_event-Agrees json event = refl

any-kept_event :
    (o : Option NormalizedEvent) (ends : Bool) (later : List NormalizedEvent)
    → Agrees o ends
    → any is_terminal (kept_event o later) ≡ (ends || any is_terminal later)
unfolding kept_event
any-kept_event none ends later h = ap (λ b. b || any is_terminal later) (sym h)
any-kept_event (some e) ends later h = ap (λ b. b || any is_terminal later) h

normalize_sdk_events-any :
    (json : JsonText) (events : List SdkEvent)
    → any is_terminal (normalize_sdk_events json events) ≡ any ends_response events
unfolding normalize_sdk_events
normalize_sdk_events-any json [] = refl
normalize_sdk_events-any json (event ∷ events) =
    any-kept_event (normalize_sdk_event json event) (ends_response event)
      (normalize_sdk_events json events) (normalize_sdk_event-Agrees json event)
    ∙ ap (λ b. ends_response event || b) (normalize_sdk_events-any json events)

-- From the client library's events to the provider's: the stream ends with one terminal event, with
-- nothing behind it, if an event says that the response is completed, incomplete or failed or that
-- the stream has an error; and it has no terminal event if none says so.
pub normalize_sdk_events-Ends :
    (json : JsonText) (source : ProviderSource) (events : List SdkEvent)
    → Ends (any ends_response events) (assemble_stream source (normalize_sdk_events json events))
normalize_sdk_events-Ends json source events =
    subst (λ b. Ends b (assemble_stream source (normalize_sdk_events json events)))
      (normalize_sdk_events-any json events)
      (assemble_stream-Ends source (normalize_sdk_events json events))
