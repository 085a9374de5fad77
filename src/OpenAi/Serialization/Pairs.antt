-- ===== src/OpenAi/Serialization/Pairs.antt =====
-- tile/providers/openai/serialization.py and tile/runtime/history.py: what a healed run sends is complete.
use mathlib.Core.Path.{subst}
use mathlib.Core.Option.{map as map_option}
use piy.Base.{
  some-injective, ℕ, suc, Text, codes, text_eq, List, [], ◌∷◌, ◌++◌, any, ◌≡◌, refl, sym, ap, ◌∙◌,
  Bool, true, false, ◌||◌, Option, none, some, if◌then◌else◌, All, All-append, All-map,
  append-eq-nil, any-append,
}
use piy.Types.Blocks.{AssistantBlock, ToolCallBlock, text, reasoning, tool_call, metadata_string}
use piy.Types.Conversation.{
  ConversationItem, user, assistant, tool_result, AssistantTurn, TurnStatus,
}
use piy.Runtime.History.{
  RunHistory, heal, answered, unanswered_blocks, unanswered_items, unanswered_tool_calls,
}
use piy.Runtime.History.Heals.{healed}
use piy.OpenAi.Serialization.{
  InputItem, user_message, reasoning_item, message, function_call, function_call_output, Wire,
  with_items, with_item, with_reasoning, serialize_user_message, serialize_assistant_text_block,
  serialize_tool_result_turn, serialize_assistant_tool_call_block, serialize_blocks,
  serialize_assistant_turn, serialize_from, if_completed, next_turn_index, serialize_history_items,
}

-- The item is an output for that call.
abbrev pub is_output : Text → InputItem → Bool
is_output call_id (function_call_output id output) = text_eq call_id id
is_output call_id other = false

-- A call has its id among these.
abbrev pub CallAmong : List Text → InputItem → Type 0
CallAmong ids (function_call call) = any (text_eq call.call_id) ids ≡ true
CallAmong ids other = Unit

-- A call has an output in the request.
abbrev pub CallAnswered : List InputItem → InputItem → Type 0
CallAnswered request (function_call call) = any (is_output call.call_id) request ≡ true
CallAnswered request other = Unit

with_item-some :
    (o : Option InputItem) (later : Option (List InputItem)) {items : List InputItem}
    → with_item o later ≡ some items
    → (item : InputItem) × (rest : List InputItem) × (o ≡ some item)
      × (later ≡ some rest)
      × (items ≡ item ∷ rest)
with_item-some none later h = cc
with_item-some (some item) none h = cc
with_item-some (some item) (some rest) h = (item, rest, refl, refl, cc)

with_items-some :
    (o later : Option (List InputItem)) {items : List InputItem}
    → with_items o later ≡ some items
    → (first : List InputItem) × (rest : List InputItem) × (o ≡ some first)
      × (later ≡ some rest)
      × (items ≡ first ++ rest)
with_items-some none later h = cc
with_items-some (some first) none h = cc
with_items-some (some first) (some rest) h = (first, rest, refl, refl, cc)

first_answered :
    (known : Bool) (b : ToolCallBlock) (rest : List ToolCallBlock)
    → (if known then rest else b ∷ rest) ≡ []
    → (known ≡ true) × (rest ≡ [])
first_answered true b rest h = (refl, h)
first_answered false b rest h = cc

module _ (wire : Wire) (ids : List Text) where
  -- An item that is no call, in front of others.
  in_front :
      (o : Option InputItem) (later : Option (List InputItem)) {items : List InputItem}
      → ((item : InputItem) → o ≡ some item → CallAmong ids item)
      → ((rest : List InputItem) → later ≡ some rest → All (CallAmong ids) rest)
      → with_item o later ≡ some items
      → All (CallAmong ids) items
  in_front o later one others h =
      let (item, rest, is, are, both) = with_item-some o later h in
      subst (All (CallAmong ids)) (sym both) (one item is, others rest are)

  reasoning-CallAmong :
      (signature : Option Text) (later : Option (List InputItem)) {items : List InputItem}
      → ((rest : List InputItem) → later ≡ some rest → All (CallAmong ids) rest)
      → with_reasoning wire signature later ≡ some items
      → All (CallAmong ids) items
  unfolding with_reasoning
  reasoning-CallAmong none later others h = others _ h
  reasoning-CallAmong (some []) later others h = others _ h
  reasoning-CallAmong (some (c ∷ s)) later others h =
      in_front (map_option reasoning_item (wire.reasoning_of (c ∷ s))) later
        (λ item e. no_call (wire.reasoning_of (c ∷ s)) e) others h
    where
      no_call :
          (o : Option _) {item : InputItem}
          → map_option reasoning_item o ≡ some item
          → CallAmong ids item
      no_call none e = cc
      no_call (some object) e = subst (CallAmong ids) (some-injective e) tt

  serialize_blocks-CallAmong :
      (turn index : ℕ) (blocks : List AssistantBlock) {items : List InputItem}
      → unanswered_blocks ids blocks ≡ []
      → serialize_blocks wire turn index blocks ≡ some items
      → All (CallAmong ids) items
  unfolding serialize_blocks unanswered_blocks
  serialize_blocks-CallAmong turn index [] none_left h =
      subst (All (CallAmong ids)) (some-injective h) tt
  serialize_blocks-CallAmong turn index (reasoning b ∷ blocks) none_left h =
      reasoning-CallAmong (metadata_string (reasoning b) (codes "reasoning_signature"))
        (serialize_blocks wire turn (suc index) blocks)
        (λ rest e. serialize_blocks-CallAmong turn (suc index) blocks none_left e) h
  serialize_blocks-CallAmong turn index (text b ∷ blocks) none_left h =
      in_front (some (serialize_assistant_text_block b turn index))
        (serialize_blocks wire turn (suc index) blocks)
        (λ item e. subst (CallAmong ids) (some-injective e) tt)
        (λ rest e. serialize_blocks-CallAmong turn (suc index) blocks none_left e) h
  serialize_blocks-CallAmong turn index (tool_call b ∷ blocks) none_left h =
      let (known, rest_known) =
        first_answered (any (text_eq b.call_id) ids) b (unanswered_blocks ids blocks) none_left in
      in_front (some (serialize_assistant_tool_call_block wire b))
        (serialize_blocks wire turn (suc index) blocks)
        (λ item e. subst (CallAmong ids) (some-injective e) known)
        (λ rest e. serialize_blocks-CallAmong turn (suc index) blocks rest_known e) h

  turn-CallAmong :
      (status : TurnStatus) (turn : AssistantTurn) (index : ℕ) {items : List InputItem}
      → unanswered_blocks ids turn.blocks ≡ []
      → if_completed status (serialize_assistant_turn wire turn index) ≡ some items
      → All (CallAmong ids) items
  unfolding if_completed serialize_assistant_turn
  turn-CallAmong TurnStatus.completed turn index none_left h =
      serialize_blocks-CallAmong index 0 turn.blocks none_left h
  turn-CallAmong TurnStatus.aborted turn index none_left h =
      subst (All (CallAmong ids)) (some-injective h) tt
  turn-CallAmong TurnStatus.error turn index none_left h =
      subst (All (CallAmong ids)) (some-injective h) tt

  serialize_from-CallAmong :
      (index : ℕ) (history : List ConversationItem) {items : List InputItem}
      → unanswered_items ids history ≡ []
      → serialize_from wire index history ≡ some items
      → All (CallAmong ids) items
  unfolding serialize_from unanswered_items
  serialize_from-CallAmong index [] none_left h = subst (All (CallAmong ids)) (some-injective h) tt
  serialize_from-CallAmong index (user m ∷ history) none_left h =
      in_front (some (serialize_user_message m)) (serialize_from wire index history)
        (λ item e. subst (CallAmong ids) (some-injective e) tt)
        (λ rest e. serialize_from-CallAmong index history none_left e) h
  serialize_from-CallAmong index (tool_result turn ∷ history) none_left h =
      in_front (some (serialize_tool_result_turn turn)) (serialize_from wire index history)
        (λ item e. subst (CallAmong ids) (some-injective e) tt)
        (λ rest e. serialize_from-CallAmong index history none_left e) h
  serialize_from-CallAmong index (assistant turn ∷ history) none_left h =
      let (here, later) =
        append-eq-nil (unanswered_blocks ids turn.blocks) (unanswered_items ids history)
          none_left in
      let (first, rest, is, are, both) =
        with_items-some (if_completed turn.status (serialize_assistant_turn wire turn index))
          (serialize_from wire (next_turn_index turn.status index) history) h in
      subst (All (CallAmong ids)) (sym both) (
        All-append (CallAmong ids) first rest (turn-CallAmong turn.status turn index here is)
          (serialize_from-CallAmong (next_turn_index turn.status index) history later are))

or-right : (a b : Bool) → b ≡ true → (a || b) ≡ true
or-right true b h = refl
or-right false b h = h

or-map : (a b c : Bool) → (b ≡ true → c ≡ true) → (a || b) ≡ true → (a || c) ≡ true
or-map true b c f h = refl
or-map false b c f h = f h

-- A result of the history is an output of the request.
serialize_from-output :
    (wire : Wire) (call_id : Text) (index : ℕ) (history : List ConversationItem)
    {items : List InputItem}
    → serialize_from wire index history ≡ some items
    → any (text_eq call_id) (answered history) ≡ true
    → any (is_output call_id) items ≡ true
unfolding serialize_from answered
serialize_from-output wire call_id index [] h k = cc
serialize_from-output wire call_id index (user m ∷ history) h k =
    let (item, rest, is, are, both) =
      with_item-some (some (serialize_user_message m)) (serialize_from wire index history) h in
    subst (λ t. any (is_output call_id) t ≡ true) (sym both)
      (or-right (is_output call_id item) _ (serialize_from-output wire call_id index history are k))
serialize_from-output wire call_id index (tool_result turn ∷ history) h k =
    let (item, rest, is, are, both) =
      with_item-some (some (serialize_tool_result_turn turn)) (serialize_from wire index history)
        h in
    let here : is_output call_id item ≡ text_eq call_id turn.call_id =
      ap (is_output call_id) (sym (some-injective is)) in
    subst (λ t. any (is_output call_id) t ≡ true) (sym both)
      (rw here (
        or-map (text_eq call_id turn.call_id) _ _
          (serialize_from-output wire call_id index history are) k))
serialize_from-output wire call_id index (assistant turn ∷ history) h k =
    let (first, rest, is, are, both) =
      with_items-some (if_completed turn.status (serialize_assistant_turn wire turn index))
        (serialize_from wire (next_turn_index turn.status index) history) h in
    subst (λ t. any (is_output call_id) t ≡ true) (sym both)
      (any-append (is_output call_id) first rest
        ∙ or-right (any (is_output call_id) first) _
            (serialize_from-output wire call_id (next_turn_index turn.status index) history are k))

call-answered :
    (wire : Wire) (history : List ConversationItem) {request : List InputItem}
    → serialize_history_items wire history ≡ some request
    → (item : InputItem) → CallAmong (answered history) item
    → CallAnswered request item
unfolding serialize_history_items
call-answered wire history h (function_call call) known =
    serialize_from-output wire call.call_id 0 history h known
call-answered wire history h (user_message parts) known = tt
call-answered wire history h (reasoning_item object) known = tt
call-answered wire history h (message m) known = tt
call-answered wire history h (function_call_output id output) known = tt

-- The request that is made of what a run leaves, after its healing: every function call in it has an
-- output with its call id, whatever the run had said before it ended.
pub serialize_history_items-answers :
    (wire : Wire) (h : RunHistory) (request : List InputItem)
    → serialize_history_items wire (heal h).delta ≡ some request
    → All (CallAnswered request) request
unfolding serialize_history_items unanswered_tool_calls
serialize_history_items-answers wire h request is =
    let delta = (heal h).delta in
    All-map (CallAmong (answered delta)) (CallAnswered request) (call-answered wire delta is)
      request (among delta (healed h) is)
  where
    among :
        (history : List ConversationItem)
        → unanswered_tool_calls history ≡ []
        → serialize_history_items wire history ≡ some request
        → All (CallAmong (answered history)) request
    among history none_left e =
        serialize_from-CallAmong wire (answered history) 0 history none_left e
