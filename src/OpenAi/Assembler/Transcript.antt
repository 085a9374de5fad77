-- ===== src/OpenAi/Assembler/Transcript.antt =====
-- How a stream ends, and that a finished block is never touched again.
use piy.Base.{
  Text, any, take, take-append, ◌≡◌, refl, ap, sym, ◌∙◌, Option, none, some, List, [], ◌∷◌, ◌++◌,
  if◌then◌else◌, Bool, true, false,
}
use piy.Types.Blocks.{
  StopReason, error, ProviderSource, AssistantBlock, StreamUpdateEvent, ProviderStreamEvent, update,
  stream_done, stream_error,
}
use piy.OpenAi.Normalized.{NormalizedEvent, is_terminal}
use piy.OpenAi.Assembler.{
  State, init, build_incomplete_event, build_stream_done_event, build_stream_error_event,
  yield_stream_event, yielded, assemble_from, assemble_stream,
}
use piy.OpenAi.Assembler.Blockwise.{Effect, View, apply, effect, blocks_of, view_step, state_of}
use piy.OpenAi.Assembler.Refines.{step_of, yield_stream_event-refines, assemble_from-view}
use mathlib.Core.List.{append_assoc, append-nil}
use mathlib.Core.Path.{subst}
use mathlib.Core.Option

abbrev pub is_final : ProviderStreamEvent → Bool
is_final (stream_done e) = true
is_final (stream_error e) = true
is_final other = false

-- The stream ends with a terminal event just when `ended`, and has no other one.
abbrev pub Ends : Bool → List ProviderStreamEvent → Type 0
Ends ended [] = ended ≡ false
Ends ended (e ∷ es) = if is_final e then (ended ≡ true) × (es ≡ []) else Ends ended es

Ends-sent :
    (ended : Bool) (sent : Option StreamUpdateEvent) (later : List ProviderStreamEvent)
    → Ends ended later
    → Ends ended (yielded (Option.map update sent) later)
Ends-sent ended none later h = h
Ends-sent ended (some u) later h = h

Ends-incomplete :
    (s : State) (r : StopReason) (m : Option Text) → Ends true (build_incomplete_event s r m ∷ [])
unfolding build_incomplete_event build_stream_done_event build_stream_error_event
Ends-incomplete s error m = (refl, refl)
Ends-incomplete s _ m = (refl, refl)

assemble_from-Ends :
    (source : ProviderSource) (rid : Option Text) (v : View) (es : List NormalizedEvent)
    → Ends (any is_terminal es) (assemble_from (state_of source rid v) es)
unfolding assemble_from is_terminal build_stream_done_event build_stream_error_event
assemble_from-Ends source rid v [] = refl
assemble_from-Ends source rid v (NormalizedEvent.created x ∷ es) =
    rw assemble_from-view (assemble_from-Ends source (some x) v es)
assemble_from-Ends source rid v (NormalizedEvent.completed x ∷ es) =
    rw assemble_from-view (refl, refl)
assemble_from-Ends source rid v (NormalizedEvent.failed x ∷ es) = rw assemble_from-view (refl, refl)
assemble_from-Ends source rid v (NormalizedEvent.incomplete x m ∷ es) =
    rw assemble_from-view (Ends-incomplete _ x m)
assemble_from-Ends source rid v (e ∷ es) = rw assemble_from-view (
    Ends-sent (any is_terminal es) (view_step v e).1
      (assemble_from (state_of source rid (view_step v e).0) es)
      (assemble_from-Ends source rid (view_step v e).0 es))

-- A stream ends with one terminal event if the normalized events hold a terminal one, and has no
-- terminal event if they hold none; nothing follows a terminal event.
pub assemble_stream-Ends :
    (source : ProviderSource) (events : List NormalizedEvent)
    → Ends (any is_terminal events) (assemble_stream source events)
unfolding assemble_stream
assemble_stream-Ends source events =
    assemble_from-Ends source none (record { closed = []; open_block = none }) events

-- The state after the events.
pub after : State → List NormalizedEvent → State
after s [] = s
after s (e ∷ es) = after (yield_stream_event s e).0 es

abbrev view : List AssistantBlock → Option AssistantBlock → View
view closed open_block = record { closed = closed; open_block = open_block }

-- A step leaves the closed blocks in place, or appends to them.
pub data Grows (closed : List AssistantBlock) : List AssistantBlock → Type 0 where
  grows :
      (more : List AssistantBlock) {bs : List AssistantBlock}
      → bs ≡ closed ++ more
      → Grows closed bs

same : (closed : List AssistantBlock) → Grows closed closed
same closed = grows [] (sym (append-nil closed))

Grows-trans : {xs ys zs : List AssistantBlock} → Grows xs ys → Grows ys zs → Grows xs zs
Grows-trans {xs} (grows m p) (grows n q) =
    grows (m ++ n) (q ∙ ap (λ t. t ++ n) p ∙ append_assoc xs m n)

begins :
    (closed : List AssistantBlock) (open_block : Option AssistantBlock)
    → Grows closed (blocks_of closed open_block)
begins closed none = same closed
begins closed (some b) = grows (b ∷ []) refl

apply-Grows : (f : Effect) (v : View) → Grows v.closed (apply f v).0.closed
unfolding apply
apply-Grows (Effect.begin b event) v = begins v.closed v.open_block
apply-Grows (Effect.amend b event) v = same v.closed
apply-Grows (Effect.finish b event) v = grows (b ∷ []) refl
apply-Grows Effect.pass v = same v.closed

record Follows (closed : List AssistantBlock) (s : State) : Type 0 where
  source : ProviderSource
  rid : Option Text
  v : View
  is_state : s ≡ state_of source rid v
  grown : Grows closed v.closed

step-Follows :
    (source : ProviderSource) (rid : Option Text) (v : View) (e : NormalizedEvent)
    → Follows v.closed (step_of source rid v e).0
unfolding view_step
step-Follows source rid v (NormalizedEvent.created x) = record {
  source = source;
  rid = some x;
  v = v;
  is_state = refl;
  grown = same v.closed;
}
step-Follows source rid v (NormalizedEvent.completed x) = record {
  source = source;
  rid = rid;
  v = v;
  is_state = refl;
  grown = same v.closed;
}
step-Follows source rid v (NormalizedEvent.incomplete x m) = record {
  source = source;
  rid = rid;
  v = v;
  is_state = refl;
  grown = same v.closed;
}
step-Follows source rid v (NormalizedEvent.failed x) = record {
  source = source;
  rid = rid;
  v = v;
  is_state = refl;
  grown = same v.closed;
}
step-Follows source rid v e = record {
  source = source;
  rid = rid;
  v = (view_step v e).0;
  is_state = refl;
  grown = apply-Grows (effect e v.open_block) v;
}

weaken :
    {closed closed' : List AssistantBlock} {s : State}
    → Grows closed closed'
    → Follows closed' s
    → Follows closed s
weaken g f = record {
  source = f.source;
  rid = f.rid;
  v = f.v;
  is_state = f.is_state;
  grown = Grows-trans g f.grown;
}

advance :
    {closed : List AssistantBlock} {s : State} (e : NormalizedEvent)
    → Follows closed s
    → Follows closed (yield_stream_event s e).0
advance {closed} e f =
    subst (λ t. Follows closed (yield_stream_event t e).0) (sym f.is_state)
      (rw yield_stream_event-refines (weaken f.grown (step-Follows f.source f.rid f.v e)))

after-Follows :
    {closed : List AssistantBlock} (s : State) (es : List NormalizedEvent)
    → Follows closed s
    → Follows closed (after s es)
unfolding after
after-Follows s [] f = f
after-Follows s (e ∷ es) f = after-Follows (yield_stream_event s e).0 es (advance e f)

-- The blocks before the active one.
abbrev pub finished : State → List AssistantBlock
finished s = elim s.active_block [ none ↦ s.blocks | some at ↦ take at s.blocks ]

finished-view :
    (source : ProviderSource) (rid : Option Text) (closed : List AssistantBlock)
    (o : Option AssistantBlock)
    → finished (state_of source rid (view closed o)) ≡ closed
finished-view source rid closed none = refl
finished-view source rid closed (some b) = take-append closed (b ∷ [])

finished-Grows :
    {closed : List AssistantBlock} {s : State} → Follows closed s → Grows closed s.blocks
finished-Grows {closed} f =
    subst (λ t. Grows closed t.blocks) (sym f.is_state)
      (Grows-trans f.grown (begins f.v.closed f.v.open_block))

keeps_finished :
    {closed : List AssistantBlock} {s : State} (es : List NormalizedEvent)
    → Follows closed s
    → Grows (finished s) (after s es).blocks
keeps_finished es f =
    subst (λ t. Grows (finished t) (after t es).blocks) (sym f.is_state)
      (subst (λ c. Grows c (after (state_of f.source f.rid f.v) es).blocks)
        (sym (finished-view f.source f.rid f.v.closed f.v.open_block))
        (finished-Grows (
          after-Follows (state_of f.source f.rid f.v) es (record {
            source = f.source;
            rid = f.rid;
            v = f.v;
            is_state = refl;
            grown = same f.v.closed;
          }))))

init-Follows : (source : ProviderSource) → Follows [] (init source)
unfolding init
init-Follows source = record {
  source = source;
  rid = none;
  v = view [] none;
  is_state = refl;
  grown = same [];
}

-- Whatever events came, the blocks before the active one, or all blocks where none is active, stay
-- at their places and unchanged whatever events follow.
pub after-keeps_finished :
    (source : ProviderSource) (earlier later : List NormalizedEvent)
    → Grows
        (finished (after (init source) earlier))
        (after (after (init source) earlier) later).blocks
after-keeps_finished source earlier later =
    keeps_finished later (after-Follows (init source) earlier (init-Follows source))
