-- ===== src/OpenAi/Assembler/Refines.antt =====
-- The code's pointers and indices implement the pointer-free view.
use piy.Base.{
  ℕ, Text, length, get_elem?-append_last, set-append_last, ◌≡◌, refl, ap, Option, none, some, List,
  if◌then◌else◌, [], ◌∷◌,
}
use piy.Types.Json.{JsonObject}
use piy.Types.Blocks.{
  ProviderSource, AssistantBlock, stream_start, update, text, reasoning, tool_call,
}
use piy.OpenAi.Normalized.{NormalizedEvent, is_terminal}
use piy.OpenAi.Assembler.{
  State, Step, deref, assign, append_active_block, clear_active_block, with_active, set_arguments,
  yield_stream_event, yielded, assemble_from, build_stream_done_event, build_incomplete_event,
  build_stream_error_event,
}
use piy.OpenAi.Assembler.Blockwise.{View, view_step, state_of}
use mathlib.Core.Option

module _ (source : ProviderSource) (response_id : Option Text) (closed : List AssistantBlock) where
  abbrev busy : AssistantBlock → State
  busy b = state_of source response_id (record { closed = closed; open_block = some b })

  deref-busy : (b : AssistantBlock) → deref (busy b) ≡ some b
  unfolding deref
  deref-busy b = get_elem?-append_last closed b

  assign-busy : (b b' : AssistantBlock) → assign (busy b) b' ≡ busy b'
  unfolding assign
  assign-busy b b' = ap (λ bs. record (busy b) { blocks = bs }) (set-append_last closed b b')

  with_active-busy :
      (handler : State → AssistantBlock → ℕ → Step) (b : AssistantBlock)
      → with_active handler (busy b) ≡ handler (busy b) b (length closed)
  unfolding with_active
  with_active-busy handler b = rw (deref-busy b, with_active)

  set_arguments-busy :
      (arguments : JsonObject) (b : AssistantBlock)
      → set_arguments arguments (busy b) (deref (busy b))
        ≡ set_arguments arguments (busy b) (some b)
  set_arguments-busy arguments b = rw (deref-busy b)

-- What an event does to a state, by its kind.
abbrev pub step_of : ProviderSource → Option Text → View → NormalizedEvent → Step
step_of source rid v (NormalizedEvent.created response_id) =
    (state_of source (some response_id) v, some (stream_start source response_id))
step_of source rid v (NormalizedEvent.completed stop_reason) =
    (state_of source rid v, some (build_stream_done_event (state_of source rid v) stop_reason))
step_of source rid v (NormalizedEvent.incomplete stop_reason message) = (
  state_of source rid v,
  some (build_incomplete_event (state_of source rid v) stop_reason message),
)
step_of source rid v (NormalizedEvent.failed message) =
    (state_of source rid v, some (build_stream_error_event (state_of source rid v) message))
step_of source rid v e =
    let (v', sent) = view_step v e in (state_of source rid v', Option.map update sent)

abbrev view : List AssistantBlock → Option AssistantBlock → View
view closed open_block = record { closed = closed; open_block = open_block }

idle_step :
    (source : ProviderSource) (rid : Option Text) (closed : List AssistantBlock)
    (e : NormalizedEvent)
    → yield_stream_event (state_of source rid (view closed none)) e
      ≡ step_of source rid (view closed none) e
unfolding yield_stream_event append_active_block deref with_active set_arguments view_step
idle_step source rid closed (NormalizedEvent.created x) = refl
idle_step source rid closed _ = refl

busy_step :
    (source : ProviderSource) (rid : Option Text) (closed : List AssistantBlock)
    (b : AssistantBlock) (e : NormalizedEvent)
    → yield_stream_event (state_of source rid (view closed (some b))) e
      ≡ step_of source rid (view closed (some b)) e
unfolding yield_stream_event append_active_block clear_active_block set_arguments view_step
busy_step source rid closed (text b) (NormalizedEvent.created x) = refl
busy_step source rid closed (text b) e =
    first_of (simp (with_active-busy, set_arguments-busy, assign-busy), cc)
busy_step source rid closed (reasoning b) (NormalizedEvent.created x) = refl
busy_step source rid closed (reasoning b) e =
    first_of (simp (with_active-busy, set_arguments-busy, assign-busy), cc)
busy_step source rid closed (tool_call b) (NormalizedEvent.created x) = refl
busy_step source rid closed (tool_call b) e =
    first_of (simp (with_active-busy, set_arguments-busy, assign-busy), cc)

-- From a state that stands for a view, each normalized event leads to the state that stands for the
-- next view and sends what the view sends, under the index of the open block; the created event and
-- the terminal events leave the view as it is.
pub yield_stream_event-refines :
    (source : ProviderSource) (rid : Option Text) (v : View) (e : NormalizedEvent)
    → yield_stream_event (state_of source rid v) e ≡ step_of source rid v e
yield_stream_event-refines source rid v e = by_open v.closed v.open_block
  where
    by_open :
        (closed : List AssistantBlock) (open_block : Option AssistantBlock)
        → yield_stream_event (state_of source rid (view closed open_block)) e
          ≡ step_of source rid (view closed open_block) e
    by_open closed none = idle_step source rid closed e
    by_open closed (some b) = busy_step source rid closed b e

-- One round of the loop, by the view.
pub assemble_from-view :
    (source : ProviderSource) (rid : Option Text) (v : View) (e : NormalizedEvent)
    (es : List NormalizedEvent)
    → assemble_from (state_of source rid v) (e ∷ es) ≡ (
        let (s', sent) = step_of source rid v e in
        yielded sent (if is_terminal e then [] else assemble_from s' es))
unfolding assemble_from
assemble_from-view source rid v e es = rw yield_stream_event-refines
