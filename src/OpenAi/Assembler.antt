-- ===== src/OpenAi/Assembler.antt =====
-- tile/providers/openai/stream_assembler.py: normalized events into provider stream events. The
-- active block is an object of the list `blocks`, changed in place: it is known by its position in
-- that list, the reference `active_block`, beside the index that the code keeps for it.
mod Blockwise
pub mod Refines
pub mod Replay
pub mod Transcript
pub mod Finals
mod Examples
use piy.Base.{
  ℕ, Text, codes, text_eq, length, get_elem?, set, Bool, true, false, Option, none, some, List, [],
  ◌∷◌, ◌++◌, if◌then◌else◌,
}
use piy.Types.Json.{JsonObject}
use piy.Types.Blocks.{
  StopReason, error, ProviderSource, ProviderMetadata, from_values, TextBlock, ReasoningBlock,
  ToolCallBlock, AssistantBlock, text, reasoning, tool_call, StreamUpdateEvent, reasoning_start,
  reasoning_delta, reasoning_end, text_start, text_delta, text_end, tool_call_start,
  tool_call_delta, tool_call_end, ProviderStreamEvent, stream_start, update, stream_done,
  stream_error,
}
use piy.OpenAi.Normalized.{
  phase_text, ReasoningDone, MessageDone, ToolCall, NormalizedEvent, is_terminal,
}
use mathlib.Core.Option

pub record State : Type 0 where
  pub source : ProviderSource
  pub response_id : Option Text
  pub blocks : List AssistantBlock
  pub active_block : Option ℕ
  pub active_block_index : Option ℕ

pub init : ProviderSource → State
init source = record {
  source = source;
  response_id = none;
  blocks = [];
  active_block = none;
  active_block_index = none;
}

abbrev pub Step : Type 0
Step = State × Option ProviderStreamEvent

-- The object that the reference `active_block` points to.
unfoldable pub deref : State → Option AssistantBlock
deref s = elim s.active_block [ none ↦ none | some at ↦ get_elem? s.blocks at ]

-- Mutates the active object.
pub assign : State → AssistantBlock → State
assign s b = elim s.active_block [ none ↦ s | some at ↦ record s { blocks = set s.blocks at b } ]

pub append_active_block : State → AssistantBlock → State × ℕ
append_active_block s b =
    let content_index = length s.blocks in
    (
      record s {
        blocks = s.blocks ++ b ∷ [];
        active_block = some content_index;
        active_block_index = some content_index;
      },
      content_index,
    )

pub clear_active_block : State → State
clear_active_block s = record s { active_block = none; active_block_index = none }

record_created_event : State → Text → Step
record_created_event s response_id =
    (record s { response_id = some response_id }, some (stream_start s.source response_id))

start_reasoning_block : State → Step
start_reasoning_block s =
    let (s', content_index) =
      append_active_block s (reasoning (record { provider_metadata = none; summary_text = [] })) in
    (s', some (update (reasoning_start content_index)))

-- event["summary_text"] replaces the deltas unless it is empty.
final_summary : Text → Text → Text
final_summary [] old = old
final_summary (c ∷ t) old = c ∷ t

start_text_block : State → Step
start_text_block s =
    let (s', content_index) =
      append_active_block s (text (record { provider_metadata = none; text = [] })) in
    (s', some (update (text_start content_index)))

start_tool_call_block : State → ToolCall → Step
start_tool_call_block s e =
    let (s', content_index) = append_active_block s (
      tool_call (record {
        provider_metadata = none;
        call_id = e.call_id;
        name = e.name;
        arguments = e.arguments;
      })) in
    (s', some (update (tool_call_start content_index e.call_id e.name)))

-- What each handler does with the active block, `_active_block` having found it with its index.
-- The clauses say which type of block each of them asks for.
pub with_active : (State → AssistantBlock → ℕ → Step) → State → Step
with_active handler s = elim (deref s) [
  | none ↦ (s, none)
  | some b ↦ elim s.active_block_index [ none ↦ (s, none) | some i ↦ handler s b i ]
]

on_reasoning_delta : Text → State → AssistantBlock → ℕ → Step
on_reasoning_delta delta s (reasoning b) i = (
  assign s (reasoning (record b { summary_text = b.summary_text ++ delta })),
  some (update (reasoning_delta i delta)),
)
on_reasoning_delta delta s other i = (s, none)

append_reasoning_delta : State → Text → Step
append_reasoning_delta s delta = with_active (on_reasoning_delta delta) s

on_reasoning_done : ReasoningDone → State → AssistantBlock → ℕ → Step
on_reasoning_done e s (reasoning b) i =
    let final = record b {
      summary_text = final_summary e.summary_text b.summary_text;
      provider_metadata = from_values ((codes "reasoning_signature", e.reasoning_signature) ∷ []);
    } in
    (clear_active_block (assign s (reasoning final)), some (update (reasoning_end i final)))
on_reasoning_done e s other i = (s, none)

finalize_reasoning_block : State → ReasoningDone → Step
finalize_reasoning_block s e = with_active (on_reasoning_done e) s

on_text_delta : Text → State → AssistantBlock → ℕ → Step
on_text_delta delta s (text b) i =
    (assign s (text (record b { text = b.text ++ delta })), some (update (text_delta i delta)))
on_text_delta delta s other i = (s, none)

append_text_delta : State → Text → Step
append_text_delta s delta = with_active (on_text_delta delta) s

on_message_done : MessageDone → State → AssistantBlock → ℕ → Step
on_message_done e s (text b) i =
    let final = record b {
      text = e.text;
      provider_metadata = from_values (
          (codes "message_id", some e.item_id)
          ∷ (codes "phase", Option.map phase_text e.phase)
          ∷ []);
    } in
    (clear_active_block (assign s (text final)), some (update (text_end i final)))
on_message_done e s other i = (s, none)

finalize_text_block : State → MessageDone → Step
finalize_text_block s e = with_active (on_message_done e) s

on_arguments_delta : Text → State → AssistantBlock → ℕ → Step
on_arguments_delta delta s (tool_call b) i = (s, some (update (tool_call_delta i delta)))
on_arguments_delta delta s other i = (s, none)

append_tool_call_arguments_delta : State → Text → Step
append_tool_call_arguments_delta s delta = with_active (on_arguments_delta delta) s

-- Asks for the type of the active object only, not for its index.
pub set_arguments : JsonObject → State → Option AssistantBlock → State
set_arguments arguments s (some (tool_call b)) =
    assign s (tool_call (record b { arguments = arguments }))
set_arguments arguments s other = s

replace_tool_call_arguments : State → JsonObject → State
replace_tool_call_arguments s arguments = set_arguments arguments s (deref s)

on_tool_call_done : ToolCall → State → AssistantBlock → ℕ → Step
on_tool_call_done e s (tool_call b) i =
    let final = record b {
      call_id = e.call_id;
      name = e.name;
      arguments = e.arguments;
      provider_metadata = from_values ((codes "provider_item_id", e.provider_item_id) ∷ []);
    } in
    (clear_active_block (assign s (tool_call final)), some (update (tool_call_end i final)))
on_tool_call_done e s other i = (s, none)

finalize_tool_call_block : State → ToolCall → Step
finalize_tool_call_block s e = with_active (on_tool_call_done e) s

pub build_stream_done_event : State → StopReason → ProviderStreamEvent
build_stream_done_event s stop_reason = stream_done (record {
  source = s.source;
  response_id = s.response_id;
  stop_reason = stop_reason;
  blocks = s.blocks;
})

pub build_stream_error_event : State → Text → ProviderStreamEvent
build_stream_error_event s error_message = stream_error (record {
  source = s.source;
  response_id = s.response_id;
  stop_reason = error;
  error_message = error_message;
  blocks = s.blocks;
})

-- event["error_message"] or "OpenAI response incomplete."
incomplete_message : Option Text → Text
incomplete_message none = codes "OpenAI response incomplete."
incomplete_message (some []) = codes "OpenAI response incomplete."
incomplete_message (some (c ∷ t)) = c ∷ t

pub build_incomplete_event : State → StopReason → Option Text → ProviderStreamEvent
build_incomplete_event s error message = build_stream_error_event s (incomplete_message message)
build_incomplete_event s other message = build_stream_done_event s other

unfoldable pub yield_stream_event : State → NormalizedEvent → Step
unfolding record_created_event start_reasoning_block append_reasoning_delta finalize_reasoning_block
    start_text_block append_text_delta finalize_text_block start_tool_call_block
    append_tool_call_arguments_delta replace_tool_call_arguments finalize_tool_call_block
    build_incomplete_event build_stream_done_event build_stream_error_event with_active
    on_reasoning_delta on_reasoning_done on_text_delta on_message_done on_arguments_delta
    on_tool_call_done final_summary incomplete_message
yield_stream_event s (NormalizedEvent.created response_id) = record_created_event s response_id
yield_stream_event s (NormalizedEvent.reasoning_added item_id) = start_reasoning_block s
yield_stream_event s (NormalizedEvent.reasoning_delta delta) = append_reasoning_delta s delta
yield_stream_event s (NormalizedEvent.reasoning_done e) = finalize_reasoning_block s e
yield_stream_event s (NormalizedEvent.message_added item_id phase) = start_text_block s
yield_stream_event s (NormalizedEvent.message_text_delta delta) = append_text_delta s delta
yield_stream_event s (NormalizedEvent.message_done e) = finalize_text_block s e
yield_stream_event s (NormalizedEvent.tool_call_added e) = start_tool_call_block s e
yield_stream_event s (NormalizedEvent.tool_call_arguments_delta delta) =
    append_tool_call_arguments_delta s delta
yield_stream_event s (NormalizedEvent.tool_call_arguments_done arguments) =
    (replace_tool_call_arguments s arguments, none)
yield_stream_event s (NormalizedEvent.tool_call_done e) = finalize_tool_call_block s e
yield_stream_event s (NormalizedEvent.completed stop_reason) =
    (s, some (build_stream_done_event s stop_reason))
yield_stream_event s (NormalizedEvent.incomplete stop_reason message) =
    (s, some (build_incomplete_event s stop_reason message))
yield_stream_event s (NormalizedEvent.failed message) =
    (s, some (build_stream_error_event s message))

-- What one round of the loop yields, in front of what the later rounds yield.
abbrev pub yielded :
    Option ProviderStreamEvent → List ProviderStreamEvent → List ProviderStreamEvent
yielded none later = later
yielded (some e) later = e ∷ later

-- The loop of `assemble_stream` over the events that the normalized stream gives.
unfoldable pub assemble_from : State → List NormalizedEvent → List ProviderStreamEvent
assemble_from s [] = []
assemble_from s (e ∷ es) =
    let (s', adapted) = yield_stream_event s e in
    let later = assemble_from s' es in yielded adapted (if is_terminal e then [] else later)

unfoldable pub assemble_stream : ProviderSource → List NormalizedEvent → List ProviderStreamEvent
unfolding assemble_from init
assemble_stream source events = assemble_from (init source) events
