-- ===== src/OpenAi/Assembler/Examples.antt =====
-- Tests of the stream assembler, and the theorems at a stream with text and a tool call.
use piy.Base.{codes, any, ◌≡◌, refl, none, some, List, [], ◌∷◌, map}
use piy.Types.Json.{end, field, str}
use piy.Types.Blocks.{stop, ProviderSource, AssistantBlock, text, tool_call, from_values}
use piy.OpenAi.Normalized.{
  NormalizedEvent, created, message_added, message_text_delta, message_done, tool_call_added,
  tool_call_arguments_done, completed, reasoning_delta, is_terminal,
}
use piy.OpenAi.Assembler.{
  init, yield_stream_event, deref, assign, append_active_block, clear_active_block, with_active,
  set_arguments, assemble_stream, build_stream_done_event,
}
use piy.OpenAi.Assembler.Blockwise.{View, state_of}
use piy.OpenAi.Assembler.Refines.{step_of, yield_stream_event-refines}
use piy.OpenAi.Assembler.Replay.{replay, final_blocks, shown, assemble_stream-replay}
use piy.OpenAi.Assembler.Transcript.{
  Ends, after, Grows, finished, assemble_stream-Ends, after-keeps_finished,
}

abbrev source : ProviderSource
source = record { provider = codes "openai"; model = none }

abbrev events : List NormalizedEvent
events =
    created (codes "r")
    ∷ message_added (codes "m") none
    ∷ message_text_delta (codes "Hel")
    ∷ message_text_delta (codes "lo")
    ∷ message_done (record { item_id = codes "m"; text = codes "Hello"; phase = none })
    ∷ tool_call_added (record {
      provider_item_id = none;
      call_id = codes "c";
      name = codes "ls";
      arguments = end;
    })
    ∷ tool_call_arguments_done (field (codes "path") (str (codes ".")) end)
    ∷ reasoning_delta (codes "ignored")
    ∷ completed stop
    ∷ message_text_delta (codes "late")
    ∷ []

abbrev final : List AssistantBlock
final =
    text (record {
      provider_metadata =
          some (record { entries = field (codes "message_id") (str (codes "m")) end });
      text = codes "Hello";
    })
    ∷ tool_call (record {
      provider_metadata = none;
      call_id = codes "c";
      name = codes "ls";
      arguments = field (codes "path") (str (codes ".")) end;
    })
    ∷ []

stream_final : final_blocks (assemble_stream source events) ≡ some final
unfolding assemble_stream yield_stream_event deref assign append_active_block clear_active_block
    with_active set_arguments from_values build_stream_done_event final_blocks is_terminal
stream_final = refl

assemble_stream-replay_example : replay [] (assemble_stream source events) ≡ map shown final
assemble_stream-replay_example = assemble_stream-replay source events final stream_final

assemble_stream-Ends_example : Ends (any is_terminal events) (assemble_stream source events)
assemble_stream-Ends_example = assemble_stream-Ends source events

after-keeps_finished_example :
    Grows (finished (after (init source) events)) (after (after (init source) events) events).blocks
after-keeps_finished_example = after-keeps_finished source events events

abbrev half_told : View
half_told = record {
  closed = final;
  open_block = some (text (record { provider_metadata = none; text = codes "a" }));
}

yield_stream_event-refines_example :
    yield_stream_event (state_of source none half_told) (message_text_delta (codes "b"))
    ≡ step_of source none half_told (message_text_delta (codes "b"))
yield_stream_event-refines_example =
    yield_stream_event-refines source none half_told (message_text_delta (codes "b"))
