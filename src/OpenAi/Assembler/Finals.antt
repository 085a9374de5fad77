-- ===== src/OpenAi/Assembler/Finals.antt =====
-- tile/providers/openai/stream_assembler.py: the block that an event ends has what the event says.
use piy.Base.{some-injective, ℕ, codes, ◌≡◌, refl, sym, Option, none, some, [], ◌∷◌}
use piy.Types.Blocks.{
  from_values, TextBlock, ReasoningBlock, ToolCallBlock, AssistantBlock, text, reasoning, tool_call,
  reasoning_end, text_end, tool_call_end, ProviderStreamEvent, update,
}
use piy.OpenAi.Normalized.{phase_text, ReasoningDone, MessageDone, ToolCall, NormalizedEvent}
use piy.OpenAi.Assembler.{
  State, Step, deref, with_active, on_reasoning_done, on_message_done, on_tool_call_done,
  yield_stream_event,
}
use mathlib.Core.Option

-- An update was sent, so there was an active block.
with_active-some :
    (handler : State → AssistantBlock → ℕ → Step) (s : State) {u : ProviderStreamEvent}
    → (with_active handler s).1 ≡ some u
    → (b : AssistantBlock) × (i : ℕ) × ((handler s b i).1 ≡ some u)
unfolding with_active
with_active-some handler s {u} h = by_block (deref s) h
  where
    by_index :
        (b : AssistantBlock) (o : Option ℕ)
        → (elim o as (λ x. Step) [ none ↦ (s, none) | some i ↦ handler s b i ]).1 ≡ some u
        → (b : AssistantBlock) × (i : ℕ) × ((handler s b i).1 ≡ some u)
    by_index b none h = cc
    by_index b (some i) h = (b, i, h)

    by_block :
        (o : Option AssistantBlock)
        → (elim o as (λ x. Step) [
          | none ↦ (s, none)
          | some b ↦ elim s.active_block_index as (λ x. Step) [
            | none ↦ (s, none)
            | some i ↦ handler s b i
          ]
        ]).1
          ≡ some u
        → (b : AssistantBlock) × (i : ℕ) × ((handler s b i).1 ≡ some u)
    by_block none h = cc
    by_block (some b) h = by_index b s.active_block_index h

pub reasoning_done-final :
    (s : State) (e : ReasoningDone) {u : ProviderStreamEvent}
    → (yield_stream_event s (NormalizedEvent.reasoning_done e)).1 ≡ some u
    → (i : ℕ) × (b : ReasoningBlock) × (u ≡ update (reasoning_end i b))
      × (b.provider_metadata
          ≡ from_values ((codes "reasoning_signature", e.reasoning_signature) ∷ []))
unfolding yield_stream_event
reasoning_done-final s e h =
    let (b, i, is) = with_active-some (on_reasoning_done e) s h in by_kind b i is
  where
    by_kind :
        (b : AssistantBlock) (i : ℕ) {u : ProviderStreamEvent}
        → (on_reasoning_done e s b i).1 ≡ some u
        → (i : ℕ) × (b : ReasoningBlock) × (u ≡ update (reasoning_end i b))
          × (b.provider_metadata
              ≡ from_values ((codes "reasoning_signature", e.reasoning_signature) ∷ []))
    by_kind (text b) i is = cc
    by_kind (tool_call b) i is = cc
    by_kind (reasoning b) i is = (i, _, sym (some-injective is), refl)

pub message_done-final :
    (s : State) (e : MessageDone) {u : ProviderStreamEvent}
    → (yield_stream_event s (NormalizedEvent.message_done e)).1 ≡ some u
    → (i : ℕ) × (b : TextBlock) × (u ≡ update (text_end i b))
      × (b.text ≡ e.text)
      × (b.provider_metadata
          ≡ from_values (
              (codes "message_id", some e.item_id)
              ∷ (codes "phase", Option.map phase_text e.phase)
              ∷ []))
unfolding yield_stream_event
message_done-final s e h =
    let (b, i, is) = with_active-some (on_message_done e) s h in by_kind b i is
  where
    by_kind :
        (b : AssistantBlock) (i : ℕ) {u : ProviderStreamEvent}
        → (on_message_done e s b i).1 ≡ some u
        → (i : ℕ) × (b : TextBlock) × (u ≡ update (text_end i b))
          × (b.text ≡ e.text)
          × (b.provider_metadata
              ≡ from_values (
                  (codes "message_id", some e.item_id)
                  ∷ (codes "phase", Option.map phase_text e.phase)
                  ∷ []))
    by_kind (reasoning b) i is = cc
    by_kind (tool_call b) i is = cc
    by_kind (text b) i is = (i, _, sym (some-injective is), refl, refl)

pub tool_call_done-final :
    (s : State) (e : ToolCall) {u : ProviderStreamEvent}
    → (yield_stream_event s (NormalizedEvent.tool_call_done e)).1 ≡ some u
    → (i : ℕ) × (b : ToolCallBlock) × (u ≡ update (tool_call_end i b))
      × (b.call_id ≡ e.call_id)
      × (b.name ≡ e.name)
      × (b.arguments ≡ e.arguments)
      × (b.provider_metadata ≡ from_values ((codes "provider_item_id", e.provider_item_id) ∷ []))
unfolding yield_stream_event
tool_call_done-final s e h =
    let (b, i, is) = with_active-some (on_tool_call_done e) s h in by_kind b i is
  where
    by_kind :
        (b : AssistantBlock) (i : ℕ) {u : ProviderStreamEvent}
        → (on_tool_call_done e s b i).1 ≡ some u
        → (i : ℕ) × (b : ToolCallBlock) × (u ≡ update (tool_call_end i b))
          × (b.call_id ≡ e.call_id)
          × (b.name ≡ e.name)
          × (b.arguments ≡ e.arguments)
          × (b.provider_metadata
              ≡ from_values ((codes "provider_item_id", e.provider_item_id) ∷ []))
    by_kind (text b) i is = cc
    by_kind (reasoning b) i is = cc
    by_kind (tool_call b) i is = (i, _, sym (some-injective is), refl, refl, refl, refl)
