-- ===== src/OpenAi/Serialization/Replays.antt =====
-- tile/providers/openai: what was received in a response, and what is sent when it is replayed.
use mathlib.Core.Path.{subst}
use piy.Base.{
  some-injective, ℕ, Text, codes, text_eq, List, [], ◌∷◌, ◌≡◌, ◌≢◌, refl, sym, ap, ◌∙◌, Option,
  none, some,
}
use mathlib.Core.Option.{map as option_map}
use piy.Types.Json.{JsonObject, get}
use piy.Types.Blocks.{
  AssistantBlock, TextBlock, ReasoningBlock, ToolCallBlock, StreamUpdateEvent, reasoning_end,
  text_end, tool_call_end, update, from_values, metadata_string,
}
use piy.OpenAi.Normalized.{NormalizedEvent, Phase, phase_text, commentary, final_answer}
use piy.OpenAi.Assembler.{State, yield_stream_event}
use piy.OpenAi.Assembler.Finals.{reasoning_done-final, message_done-final, tool_call_done-final}
use piy.OpenAi.SdkAdapter.{
  JsonText, OutputItem, reasoning_item, output_message, function_tool_call, other_item,
  output_item_done, normalize_sdk_event, parse_tool_call_arguments, join_message_text, known_phase,
  message_or,
}
use piy.OpenAi.Serialization.{
  InputItem, message, function_call, Wire, or_text, build_fallback_message_id, phase_of,
  serialize_blocks,
}

-- The block that an event ends.
abbrev pub ended_block : StreamUpdateEvent → Option AssistantBlock
ended_block (reasoning_end i b) = some (AssistantBlock.reasoning b)
ended_block (text_end i b) = some (AssistantBlock.text b)
ended_block (tool_call_end i b) = some (AssistantBlock.tool_call b)
ended_block other = none

-- The item of a request for an item of a response, as the block with these indices.
abbrev pub replayed : JsonText → Wire → ℕ → ℕ → OutputItem → List InputItem
replayed json wire turn block (reasoning_item item) = InputItem.reasoning_item item.dumped ∷ []
replayed json wire turn block (output_message item) =
    message (record {
      id = or_text (some item.id) (build_fallback_message_id turn block);
      output_text = join_message_text item.content;
      phase = known_phase item.phase;
    })
    ∷ []
replayed json wire turn block (function_tool_call item) =
    function_call (record {
      id = or_text item.id item.call_id;
      call_id = item.call_id;
      name = item.name;
      arguments = wire.dumps (parse_tool_call_arguments json (message_or item.arguments []));
    })
    ∷ []
replayed json wire turn block other_item = []

phase_of-phase_text : (p : Option Phase) → phase_of (option_map phase_text p) ≡ p
unfolding phase_of phase_text text_eq
phase_of-phase_text none = refl
phase_of-phase_text (some commentary) = refl
phase_of-phase_text (some final_answer) = refl

module _ (wire : Wire) (turn index : ℕ) where
  text-sent :
      (b : TextBlock) (item_id content : Text) (phase : Option Phase)
      → b.text ≡ content
      → b.provider_metadata
        ≡ from_values
            ((codes "message_id", some item_id) ∷ (codes "phase", option_map phase_text phase) ∷ [])
      → serialize_blocks wire turn index (AssistantBlock.text b ∷ [])
        ≡ some (
            message (record {
              id = or_text (some item_id) (build_fallback_message_id turn index);
              output_text = content;
              phase = phase;
            })
            ∷ [])
  unfolding serialize_blocks metadata_string from_values get text_eq phase_of phase_text
  text-sent b item_id content none is meta = rw (is, meta) refl
  text-sent b item_id content (some commentary) is meta = rw (is, meta) refl
  text-sent b item_id content (some final_answer) is meta = rw (is, meta) refl

  call-sent :
      (b : ToolCallBlock) (item_id : Option Text) (call_id name : Text) (arguments : JsonObject)
      → b.call_id ≡ call_id
      → b.name ≡ name
      → b.arguments ≡ arguments
      → b.provider_metadata ≡ from_values ((codes "provider_item_id", item_id) ∷ [])
      → serialize_blocks wire turn index (AssistantBlock.tool_call b ∷ [])
        ≡ some (
            function_call (record {
              id = or_text item_id call_id;
              call_id = call_id;
              name = name;
              arguments = wire.dumps arguments;
            })
            ∷ [])
  unfolding serialize_blocks metadata_string from_values get text_eq
  call-sent b none call_id name arguments h k l meta = rw (h, k, l, meta) refl
  call-sent b (some item_id) call_id name arguments h k l meta = rw (h, k, l, meta) refl

  reasoning-sent :
      (b : ReasoningBlock) (signature : Text) (item : JsonObject)
      → b.provider_metadata ≡ from_values ((codes "reasoning_signature", some signature) ∷ [])
      → signature ≢ []
      → wire.reasoning_of signature ≡ some item
      → serialize_blocks wire turn index (AssistantBlock.reasoning b ∷ [])
        ≡ some (InputItem.reasoning_item item ∷ [])
  unfolding serialize_blocks metadata_string from_values get text_eq
  reasoning-sent b [] item meta full valid = absurd (full refl)
  reasoning-sent b (c ∷ signature) item meta full valid = rw (meta, valid) refl

-- The client library reads back the reasoning item that it dumped.
abbrev pub ReadsBack : JsonText → Wire → OutputItem → Type 0
ReadsBack json wire (reasoning_item item) =
    (json.dumps item.dumped ≢ []) × (wire.reasoning_of (json.dumps item.dumped) ≡ some item.dumped)
ReadsBack json wire other = Unit

update-injective : {u v : StreamUpdateEvent} → update u ≡ update v → u ≡ v
update-injective h = cc

ended-by :
    {u v : StreamUpdateEvent} {b c : AssistantBlock}
    → update u ≡ update v
    → ended_block u ≡ some b
    → ended_block v ≡ some c
    → c ≡ b
ended-by h k l = some-injective (sym l ∙ ap ended_block (sym (update-injective h)) ∙ k)

-- An item that a response is done with, of which the assembler ends a block: replaying the block
-- sends the item as it was received. A message has its id, or the fallback where it is empty, its
-- joined text and its phase if known; a call its ids, its name and the JSON text of its parsed
-- arguments; a reasoning item is sent whole, if the library reads back what it dumped.
pub serialize_blocks-replayed :
    (json : JsonText) (wire : Wire) (s : State) (turn index : ℕ) (item : OutputItem)
    (e : NormalizedEvent) (u : StreamUpdateEvent) (block : AssistantBlock)
    → ReadsBack json wire item
    → normalize_sdk_event json (output_item_done item) ≡ some e
    → (yield_stream_event s e).1 ≡ some (update u)
    → ended_block u ≡ some block
    → serialize_blocks wire turn index (block ∷ []) ≡ some (replayed json wire turn index item)
unfolding normalize_sdk_event
serialize_blocks-replayed json wire s turn index (reasoning_item item) e u block reads is sent
      ended =
    let done_event =
      subst (λ x. (yield_stream_event s x).1 ≡ some (update u)) (sym (some-injective is)) sent in
    let (i, b, event, meta) = reasoning_done-final s _ done_event in
    subst
      (λ x.
        serialize_blocks wire turn index (x ∷ [])
        ≡ some (replayed json wire turn index (reasoning_item item)))
      (ended-by event ended refl)
      (reasoning-sent wire turn index b (json.dumps item.dumped) item.dumped meta reads.0 reads.1)
serialize_blocks-replayed json wire s turn index (output_message item) e u block reads is sent
      ended =
    let done_event =
      subst (λ x. (yield_stream_event s x).1 ≡ some (update u)) (sym (some-injective is)) sent in
    let (i, b, event, text_is, meta) = message_done-final s _ done_event in
    subst
      (λ x.
        serialize_blocks wire turn index (x ∷ [])
        ≡ some (replayed json wire turn index (output_message item)))
      (ended-by event ended refl)
      (text-sent wire turn index b item.id (join_message_text item.content) (known_phase item.phase)
        text_is meta)
serialize_blocks-replayed json wire s turn index (function_tool_call item) e u block reads is sent
      ended =
    let done_event =
      subst (λ x. (yield_stream_event s x).1 ≡ some (update u)) (sym (some-injective is)) sent in
    let (i, b, event, id_is, name_is, arguments_are, meta) = tool_call_done-final s _ done_event in
    subst
      (λ x.
        serialize_blocks wire turn index (x ∷ [])
        ≡ some (replayed json wire turn index (function_tool_call item)))
      (ended-by event ended refl)
      (call-sent wire turn index b item.id item.call_id item.name
        (parse_tool_call_arguments json (message_or item.arguments [])) id_is name_is arguments_are
        meta)
serialize_blocks-replayed json wire s turn index other_item e u block reads is sent ended = cc
