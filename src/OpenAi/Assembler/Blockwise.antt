-- ===== src/OpenAi/Assembler/Blockwise.antt =====
-- The assembler without pointers: finished blocks, and at most one open block behind them. An event
-- opens a block, amends or closes the open one, or does nothing to the blocks.
use piy.Base.{ℕ, Text, codes, length, Option, none, some, List, [], ◌∷◌, ◌++◌}
use piy.Types.Blocks.{
  ProviderSource, from_values, TextBlock, ReasoningBlock, ToolCallBlock, AssistantBlock, text,
  reasoning, tool_call, StreamUpdateEvent, reasoning_start, reasoning_delta, reasoning_end,
  text_start, text_delta, text_end, tool_call_start, tool_call_delta, tool_call_end,
}
use piy.OpenAi.Normalized.{NormalizedEvent, phase_text}
use piy.OpenAi.Assembler.{State, final_summary}
use mathlib.Core.Option

-- The event of an effect takes the index of the block.
pub data Effect : Type 0 where
  begin : AssistantBlock → (ℕ → StreamUpdateEvent) → Effect
  amend : AssistantBlock → Option (ℕ → StreamUpdateEvent) → Effect
  finish : AssistantBlock → (ℕ → StreamUpdateEvent) → Effect
  pass : Effect

unfoldable pub effect : NormalizedEvent → Option AssistantBlock → Effect
unfolding final_summary
effect (NormalizedEvent.reasoning_added item_id) open_block =
    begin (reasoning (record { provider_metadata = none; summary_text = [] })) reasoning_start
effect (NormalizedEvent.message_added item_id phase) open_block =
    begin (text (record { provider_metadata = none; text = [] })) text_start
effect (NormalizedEvent.tool_call_added e) open_block =
    begin
      (tool_call (record {
        provider_metadata = none;
        call_id = e.call_id;
        name = e.name;
        arguments = e.arguments;
      }))
      (λ i. tool_call_start i e.call_id e.name)
effect (NormalizedEvent.reasoning_delta delta) (some (reasoning b)) =
    amend (reasoning (record b { summary_text = b.summary_text ++ delta }))
      (some (λ i. reasoning_delta i delta))
effect (NormalizedEvent.message_text_delta delta) (some (text b)) =
    amend (text (record b { text = b.text ++ delta })) (some (λ i. text_delta i delta))
effect (NormalizedEvent.tool_call_arguments_delta delta) (some (tool_call b)) =
    amend (tool_call b) (some (λ i. tool_call_delta i delta))
effect (NormalizedEvent.tool_call_arguments_done arguments) (some (tool_call b)) =
    amend (tool_call (record b { arguments = arguments })) none
effect (NormalizedEvent.reasoning_done e) (some (reasoning b)) =
    let final : ReasoningBlock = record {
      summary_text = final_summary e.summary_text b.summary_text;
      provider_metadata = from_values ((codes "reasoning_signature", e.reasoning_signature) ∷ []);
    } in
    finish (reasoning final) (λ i. reasoning_end i final)
effect (NormalizedEvent.message_done e) (some (text b)) =
    let final : TextBlock = record {
      text = e.text;
      provider_metadata = from_values (
          (codes "message_id", some e.item_id)
          ∷ (codes "phase", Option.map phase_text e.phase)
          ∷ []);
    } in
    finish (text final) (λ i. text_end i final)
effect (NormalizedEvent.tool_call_done e) (some (tool_call b)) =
    let final : ToolCallBlock = record {
      call_id = e.call_id;
      name = e.name;
      arguments = e.arguments;
      provider_metadata = from_values ((codes "provider_item_id", e.provider_item_id) ∷ []);
    } in
    finish (tool_call final) (λ i. tool_call_end i final)
effect other open_block = pass

pub record View : Type 0 where
  pub closed : List AssistantBlock
  pub open_block : Option AssistantBlock

abbrev pub blocks_of : List AssistantBlock → Option AssistantBlock → List AssistantBlock
blocks_of closed none = closed
blocks_of closed (some b) = closed ++ b ∷ []

abbrev pub view_blocks : View → List AssistantBlock
view_blocks v = blocks_of v.closed v.open_block

-- The view after an effect, and the update that it sends. Amending and finishing with no open block
-- does not occur.
unfoldable pub apply : Effect → View → View × Option StreamUpdateEvent
apply (begin b event) v =
    (record { closed = view_blocks v; open_block = some b }, some (event (length (view_blocks v))))
apply (amend b event) v =
    (record v { open_block = some b }, Option.map (λ f. f (length v.closed)) event)
apply (finish b event) v =
    (record { closed = v.closed ++ b ∷ []; open_block = none }, some (event (length v.closed)))
apply pass v = (v, none)

unfoldable pub view_step : View → NormalizedEvent → View × Option StreamUpdateEvent
unfolding effect apply
view_step v e = apply (effect e v.open_block) v

abbrev pub active_at : List AssistantBlock → Option AssistantBlock → Option ℕ
active_at closed none = none
active_at closed (some b) = some (length closed)

-- The state that the code has where the specification has `v`.
abbrev pub state_of : ProviderSource → Option Text → View → State
state_of source response_id v = record {
  source = source;
  response_id = response_id;
  blocks = view_blocks v;
  active_block = active_at v.closed v.open_block;
  active_block_index = active_at v.closed v.open_block;
}
