-- ===== src/OpenAi/Assembler/Replay.antt =====
-- A client that sees only the update events rebuilds the blocks of the terminal event, up to what the
-- updates do not carry while a block is open: metadata and arguments.
use piy.Base.{
  ℕ, suc, zero, Text, length, ◌==◌, ◌≡◌, refl, ap, sym, ◌∙◌, Option, none, some, List, [], ◌∷◌,
  ◌++◌, map, arith, if◌then◌else◌,
}
use piy.Types.Blocks.{
  StopReason, error, ProviderSource, AssistantBlock, StreamUpdateEvent, reasoning_start,
  reasoning_delta, reasoning_end, text_start, text_delta, text_end, tool_call_start,
  tool_call_delta, tool_call_end, ProviderStreamEvent, stream_start, update, stream_done,
  stream_error,
}
use piy.OpenAi.Normalized.{NormalizedEvent, is_terminal}
use piy.OpenAi.Assembler.{
  State, build_incomplete_event, build_stream_done_event, build_stream_error_event, yielded,
  assemble_from, assemble_stream,
}
use piy.OpenAi.Assembler.Blockwise.{View, blocks_of, view_blocks, view_step, state_of}
use piy.OpenAi.Assembler.Refines.{assemble_from-view}
use mathlib.Core.Option

-- What the client shows of a block.
pub data Shown : Type 0 where
  text : Text → Shown
  reasoning : Text → Shown
  tool_call : Text → Text → Shown

abbrev pub shown : AssistantBlock → Shown
shown (AssistantBlock.text b) = text b.text
shown (AssistantBlock.reasoning b) = reasoning b.summary_text
shown (AssistantBlock.tool_call b) = tool_call b.call_id b.name

-- A start counts only at the index behind the last block.
abbrev pub start_at : ℕ → Shown → List Shown → List Shown
start_at i b bs = if i == length bs then bs ++ b ∷ [] else bs

abbrev pub modify : (Shown → Shown) → ℕ → List Shown → List Shown
modify f i [] = []
modify f zero (b ∷ bs) = f b ∷ bs
modify f (suc i) (b ∷ bs) = b ∷ modify f i bs

abbrev pub append_text : Text → Shown → Shown
append_text delta (text t) = text (t ++ delta)
append_text delta (reasoning t) = reasoning (t ++ delta)
append_text delta (tool_call i n) = tool_call i n

abbrev pub client : List Shown → StreamUpdateEvent → List Shown
client bs (reasoning_start i) = start_at i (reasoning []) bs
client bs (reasoning_delta i delta) = modify (append_text delta) i bs
client bs (reasoning_end i b) = modify (λ _. reasoning b.summary_text) i bs
client bs (text_start i) = start_at i (text []) bs
client bs (text_delta i delta) = modify (append_text delta) i bs
client bs (text_end i b) = modify (λ _. text b.text) i bs
client bs (tool_call_start i call_id name) = start_at i (tool_call call_id name) bs
client bs (tool_call_delta i delta) = bs
client bs (tool_call_end i b) = modify (λ _. tool_call b.call_id b.name) i bs

abbrev client_step : List Shown → Option StreamUpdateEvent → List Shown
client_step bs none = bs
client_step bs (some u) = client bs u

-- The client over a whole stream.
pub replay : List Shown → List ProviderStreamEvent → List Shown
replay bs [] = bs
replay bs (update u ∷ es) = replay (client bs u) es
replay bs (stream_start source rid ∷ es) = replay bs es
replay bs (stream_done e ∷ es) = replay bs es
replay bs (stream_error e ∷ es) = replay bs es

-- The blocks of the terminal event, where there is one.
unfoldable pub final_blocks : List ProviderStreamEvent → Option (List AssistantBlock)
final_blocks [] = none
final_blocks (stream_done e ∷ es) = some e.blocks
final_blocks (stream_error e ∷ es) = some e.blocks
final_blocks (update u ∷ es) = final_blocks es
final_blocks (stream_start source rid ∷ es) = final_blocks es

length-map : (bs : List AssistantBlock) → length (map shown bs) ≡ length bs
length-map [] = refl
length-map (b ∷ bs) = ap suc (length-map bs)

modify-last :
    (f : Shown → Shown) (bs : List AssistantBlock) (b : AssistantBlock)
    → modify f (length bs) (map shown (bs ++ b ∷ [])) ≡ map shown bs ++ f (shown b) ∷ []
modify-last f [] b = refl
modify-last f (c ∷ bs) b = ap (λ t. shown c ∷ t) (modify-last f bs b)

start_at-next :
    (bs : List AssistantBlock) (b : Shown)
    → start_at (length bs) b (map shown bs) ≡ map shown bs ++ b ∷ []
start_at-next bs b = ground (arith, length-map bs)

map-snoc :
    (bs : List AssistantBlock) (b : AssistantBlock)
    → map shown (bs ++ b ∷ []) ≡ map shown bs ++ shown b ∷ []
map-snoc [] b = refl
map-snoc (c ∷ bs) b = ap (λ t. shown c ∷ t) (map-snoc bs b)

abbrev view : List AssistantBlock → Option AssistantBlock → View
view closed open_block = record { closed = closed; open_block = open_block }

client-begin :
    (bs : List AssistantBlock) (b : AssistantBlock)
    → start_at (length bs) (shown b) (map shown bs) ≡ map shown (bs ++ b ∷ [])
client-begin bs b = start_at-next bs (shown b) ∙ sym (map-snoc bs b)

client-amend :
    (f : Shown → Shown) (bs : List AssistantBlock) (b b' : AssistantBlock)
    → f (shown b) ≡ shown b'
    → modify f (length bs) (map shown (bs ++ b ∷ [])) ≡ map shown (bs ++ b' ∷ [])
client-amend f bs b b' e =
    modify-last f bs b ∙ ap (λ c. map shown bs ++ c ∷ []) e ∙ sym (map-snoc bs b')

-- One event: the client that applies what is sent shows the next view.
client-view :
    (closed : List AssistantBlock) (open_block : Option AssistantBlock) (e : NormalizedEvent)
    → let (v', sent) = view_step (view closed open_block) e in
      client_step (map shown (blocks_of closed open_block)) sent ≡ map shown (view_blocks v')
unfolding view_step
client-view closed o (NormalizedEvent.reasoning_added x) = client-begin (blocks_of closed o) _
client-view closed o (NormalizedEvent.message_added x p) = client-begin (blocks_of closed o) _
client-view closed o (NormalizedEvent.tool_call_added x) = client-begin (blocks_of closed o) _
client-view closed (some (AssistantBlock.reasoning b)) (NormalizedEvent.reasoning_delta x) =
    client-amend _ closed _ _ refl
client-view closed (some (AssistantBlock.reasoning b)) (NormalizedEvent.reasoning_done x) =
    client-amend _ closed _ _ refl
client-view closed (some (AssistantBlock.text b)) (NormalizedEvent.message_text_delta x) =
    client-amend _ closed _ _ refl
client-view closed (some (AssistantBlock.text b)) (NormalizedEvent.message_done x) =
    client-amend _ closed _ _ refl
client-view closed (some (AssistantBlock.tool_call b)) (NormalizedEvent.tool_call_done x) =
    client-amend _ closed _ _ refl
client-view closed (some (AssistantBlock.tool_call b))
      (NormalizedEvent.tool_call_arguments_done x) =
    map-snoc closed _ ∙ sym (map-snoc closed _)
client-view closed (some (AssistantBlock.tool_call b))
      (NormalizedEvent.tool_call_arguments_delta x) =
    refl
client-view closed _ _ = refl

incomplete_blocks :
    (s : State) (r : StopReason) (m : Option Text) (es : List ProviderStreamEvent)
    → final_blocks (build_incomplete_event s r m ∷ es) ≡ some s.blocks
unfolding final_blocks build_incomplete_event build_stream_done_event build_stream_error_event
incomplete_blocks s error m es = refl
incomplete_blocks s _ m es = refl

incomplete_replay :
    (s : State) (r : StopReason) (m : Option Text) (bs : List Shown)
    → replay bs (build_incomplete_event s r m ∷ []) ≡ bs
unfolding replay build_incomplete_event build_stream_done_event build_stream_error_event
incomplete_replay s error m bs = refl
incomplete_replay s _ m bs = refl

some-inj : {xs ys : List AssistantBlock} → some xs ≡ some ys → xs ≡ ys
some-inj h = cc

replay-sent :
    (bs : List Shown) (sent : Option StreamUpdateEvent) (later : List ProviderStreamEvent)
    → replay bs (yielded (Option.map update sent) later) ≡ replay (client_step bs sent) later
unfolding replay
replay-sent bs none later = refl
replay-sent bs (some u) later = refl

final_blocks-sent :
    (sent : Option StreamUpdateEvent) (later : List ProviderStreamEvent)
    → final_blocks (yielded (Option.map update sent) later) ≡ final_blocks later
unfolding final_blocks
final_blocks-sent none later = refl
final_blocks-sent (some u) later = refl

abbrev Rebuilds : List Shown → List AssistantBlock → List ProviderStreamEvent → Type 0
Rebuilds bs final es = final_blocks es ≡ some final → replay bs es ≡ map shown final

Rebuilds-sent :
    (v : View) (e : NormalizedEvent) (final : List AssistantBlock)
    (later : List ProviderStreamEvent)
    → let (v', sent) = view_step v e in
      Rebuilds (map shown (view_blocks v')) final later
      → Rebuilds (map shown (view_blocks v)) final (yielded (Option.map update sent) later)
Rebuilds-sent v e final later ih h =
    replay-sent (map shown (view_blocks v)) (view_step v e).1 later
    ∙ ap (λ bs. replay bs later) (client-view v.closed v.open_block e)
    ∙ ih (sym (final_blocks-sent (view_step v e).1 later) ∙ h)

replay-start :
    (bs : List Shown) (source : ProviderSource) (x : Text) (es : List ProviderStreamEvent)
    → replay bs (stream_start source x ∷ es) ≡ replay bs es
unfolding replay
replay-start bs source x es = refl

Rebuilds-start :
    (bs : List Shown) (final : List AssistantBlock) (source : ProviderSource) (x : Text)
    (es : List ProviderStreamEvent)
    → Rebuilds bs final es
    → Rebuilds bs final (stream_start source x ∷ es)
unfolding replay final_blocks
Rebuilds-start bs final source x es h = h

-- A terminal event that carries the blocks of the state.
Rebuilds-final :
    (bs final : List AssistantBlock) (e : ProviderStreamEvent)
    → final_blocks (e ∷ []) ≡ some bs
    → replay (map shown bs) (e ∷ []) ≡ map shown bs
    → Rebuilds (map shown bs) final (e ∷ [])
Rebuilds-final bs final e carries same h = same ∙ ap (map shown) (some-inj (sym carries ∙ h))

module _ (source : ProviderSource) (final : List AssistantBlock) where
  assemble_from-Rebuilds :
      (rid : Option Text) (v : View) (es : List NormalizedEvent)
      → Rebuilds (map shown (view_blocks v)) final (assemble_from (state_of source rid v) es)
  unfolding assemble_from final_blocks is_terminal replay build_stream_done_event
      build_stream_error_event
  assemble_from-Rebuilds rid v [] = λ h. cc
  assemble_from-Rebuilds rid v (NormalizedEvent.created x ∷ es) =
      rw assemble_from-view (assemble_from-Rebuilds (some x) v es)
  assemble_from-Rebuilds rid v (NormalizedEvent.completed x ∷ es) = rw assemble_from-view (
      Rebuilds-final (view_blocks v) final (build_stream_done_event (state_of source rid v) x) refl
        refl)
  assemble_from-Rebuilds rid v (NormalizedEvent.failed x ∷ es) = rw assemble_from-view (
      Rebuilds-final (view_blocks v) final (build_stream_error_event (state_of source rid v) x) refl
        refl)
  assemble_from-Rebuilds rid v (NormalizedEvent.incomplete x m ∷ es) = rw assemble_from-view (
      Rebuilds-final (view_blocks v) final _ (incomplete_blocks _ x m [])
        (incomplete_replay _ x m _))
  assemble_from-Rebuilds rid v (e ∷ es) =
      rw assemble_from-view
        (Rebuilds-sent v e final _ (assemble_from-Rebuilds rid (view_step v e).0 es))

-- If the stream ends with a terminal event, the client that applied the updates before it, each to
-- the block at its index, shows the text of every text and reasoning block and the id and the name of
-- every tool call as the terminal event's blocks have them, in their order.
pub assemble_stream-replay :
    (source : ProviderSource) (events : List NormalizedEvent) (final : List AssistantBlock)
    → final_blocks (assemble_stream source events) ≡ some final
    → replay [] (assemble_stream source events) ≡ map shown final
unfolding assemble_stream
assemble_stream-replay source events final =
    assemble_from-Rebuilds source final none (view [] none) events
