-- ===== src/Runtime/History/Heals.antt =====
-- Healing: every tool call of a run's delta has a result, whenever the run was cut off.
use piy.Base.{
  Option, none, some, Text, text_eq, text_eq_refl, true, List, [], ◌∷◌, ◌++◌, map, any, any-append,
  All, All-append_left, All-append_right, ◌≡◌, refl, sym, ap, ◌∙◌, arith,
}
use mathlib.Core.Path.{subst}
use mathlib.Core.List.{append-nil, append_assoc}
use piy.Types.Blocks.{AssistantBlock, ToolCallBlock, text, reasoning, tool_call}
use piy.Types.Conversation.{ConversationItem, user, assistant, tool_result}
use piy.Types.Events.{AgentEvent}
use piy.Store.Models.{HistoryItem}
use piy.Runtime.History.{
  RunHistory, start, observe, keep_item, conversation_item_for, answered, unanswered_blocks,
  unanswered_items, unanswered_tool_calls, interrupted_result, heal,
}
use piy.Runtime.History.Replies.{
  EveryCallHasResult, Unanswered, none_left-EveryCallHasResult, unanswered_tool_calls-Unanswered,
}

-- The history after the events of a run.
abbrev pub observed : RunHistory → List AgentEvent → RunHistory
observed h [] = h
observed h (e ∷ events) = observed (observe h e) events

pub answered-append :
    (xs ys : List ConversationItem) → answered (xs ++ ys) ≡ answered xs ++ answered ys
unfolding answered
answered-append [] ys = refl
answered-append (user m ∷ xs) ys = answered-append xs ys
answered-append (assistant t ∷ xs) ys = answered-append xs ys
answered-append (tool_result t ∷ xs) ys = ap (λ r. t.call_id ∷ r) (answered-append xs ys)

pub unanswered_items-append :
    (ids : List Text) (xs ys : List ConversationItem)
    → unanswered_items ids (xs ++ ys) ≡ unanswered_items ids xs ++ unanswered_items ids ys
unfolding unanswered_items
unanswered_items-append ids [] ys = refl
unanswered_items-append ids (user m ∷ xs) ys = unanswered_items-append ids xs ys
unanswered_items-append ids (tool_result t ∷ xs) ys = unanswered_items-append ids xs ys
unanswered_items-append ids (assistant t ∷ xs) ys = rw (unanswered_items-append ids xs ys) (
    sym (
      append_assoc (unanswered_blocks ids t.blocks) (unanswered_items ids xs)
        (unanswered_items ids ys)))

-- The results of calls: their ids, and no calls of their own.
answered-results :
    (calls : List ToolCallBlock)
    → answered (map interrupted_result calls) ≡ map (λ b. b.call_id) calls
unfolding answered interrupted_result
answered-results [] = refl
answered-results (b ∷ calls) = ap (λ r. b.call_id ∷ r) (answered-results calls)

unanswered-results :
    (ids : List Text) (calls : List ToolCallBlock)
    → unanswered_items ids (map interrupted_result calls) ≡ []
unfolding unanswered_items interrupted_result
unanswered-results ids [] = refl
unanswered-results ids (b ∷ calls) = unanswered-results ids calls

-- The call is among the ids.
abbrev pub Among : List Text → ToolCallBlock → Type 0
Among ids b = any (text_eq b.call_id) ids ≡ true

pub self-Among :
    (ids : List Text) (calls : List ToolCallBlock)
    → All (Among (ids ++ map (λ b. b.call_id) calls)) calls
self-Among ids [] = tt
self-Among ids (b ∷ calls) = (
  ground (
    arith,
    any-append (text_eq b.call_id) ids (b.call_id ∷ map (λ b. b.call_id) calls),
    text_eq_refl b.call_id,
  ),
  subst (λ l. All (Among l) calls) (append_assoc ids (b.call_id ∷ []) (map (λ b. b.call_id) calls))
      (self-Among (ids ++ b.call_id ∷ []) calls),
)

module _ (ids more : List Text) where
  -- Once the calls that were left are answered too, none is left.
  unanswered_blocks-done :
      (blocks : List AssistantBlock)
      → All (Among more) (unanswered_blocks ids blocks)
      → unanswered_blocks (ids ++ more) blocks ≡ []
  unfolding unanswered_blocks
  unanswered_blocks-done [] h = refl
  unanswered_blocks-done (text b ∷ blocks) h = unanswered_blocks-done blocks h
  unanswered_blocks-done (reasoning b ∷ blocks) h = unanswered_blocks-done blocks h
  unanswered_blocks-done (tool_call b ∷ blocks) h =
      ground (arith, any-append (text_eq b.call_id) ids more, unanswered_blocks-done blocks)

  pub unanswered_items-done :
      (items : List ConversationItem)
      → All (Among more) (unanswered_items ids items)
      → unanswered_items (ids ++ more) items ≡ []
  unfolding unanswered_items
  unanswered_items-done [] h = refl
  unanswered_items-done (user m ∷ items) h = unanswered_items-done items h
  unanswered_items-done (tool_result t ∷ items) h = unanswered_items-done items h
  unanswered_items-done (assistant t ∷ items) h =
      rw
        (
          unanswered_blocks-done t.blocks (
              All-append_left (Among more) (unanswered_blocks ids t.blocks)
                (unanswered_items ids items) h),
          unanswered_items-done items (
              All-append_right (Among more) (unanswered_blocks ids t.blocks)
                (unanswered_items ids items) h),
        )
        refl

abbrev history : List ConversationItem → List ConversationItem → RunHistory
history working delta = record { working = working; delta = delta }

-- Where no call is left, healing adds nothing.
heal-done : (h : RunHistory) → unanswered_tool_calls h.delta ≡ [] → heal h ≡ h
unfolding heal
heal-done h e =
    ap
      (λ calls.
        history (h.working ++ map interrupted_result calls)
          (h.delta ++ map interrupted_result calls))
      e
    ∙ ap (λ w. history w (h.delta ++ [])) (append-nil h.working)
    ∙ ap (λ d. history h.working d) (append-nil h.delta)

pub healed : (h : RunHistory) → unanswered_tool_calls (heal h).delta ≡ []
unfolding heal unanswered_tool_calls
healed h =
    let calls : List ToolCallBlock = unanswered_items (answered h.delta) h.delta in
    rw (answered-append, answered-results, unanswered_items-append, unanswered-results)
      (append-nil (unanswered_items (answered h.delta ++ map (λ b. b.call_id) calls) h.delta)
        ∙ unanswered_items-done (answered h.delta) (map (λ b. b.call_id) calls) h.delta
            (self-Among [] calls))

-- After healing, every tool call of the delta has a result with its id in it, whatever the run had
-- said before; what was added are results for calls that had none, and they stand behind what was
-- there; and healing again changes nothing.
pub heal-answers :
    (h : RunHistory)
    → EveryCallHasResult (heal h).delta
      × ((heal h).delta ≡ h.delta ++ map interrupted_result (unanswered_tool_calls h.delta))
      × All (Unanswered h.delta) (unanswered_tool_calls h.delta)
      × (heal (heal h) ≡ heal h)
unfolding heal
heal-answers h = (
  none_left-EveryCallHasResult (heal h).delta (healed h),
  refl,
  unanswered_tool_calls-Unanswered h.delta,
  heal-done (heal h) (healed h),
)

-- The working history is the base with the delta behind it.
abbrev Synced : List ConversationItem → RunHistory → Type 0
Synced base h = h.working ≡ base ++ h.delta

module _ (base : List ConversationItem) where
  keep_item-Synced :
      (h : RunHistory) (item : Option ConversationItem)
      → Synced base h
      → Synced base (keep_item h item)
  keep_item-Synced h none e = e
  keep_item-Synced h (some i) e = ap (λ w. w ++ i ∷ []) e ∙ append_assoc base h.delta (i ∷ [])

  observed-Synced :
      (h : RunHistory) (events : List AgentEvent) → Synced base h → Synced base (observed h events)
  unfolding observe
  observed-Synced h [] e = e
  observed-Synced h (x ∷ events) e =
      observed-Synced (observe h x) events (keep_item-Synced h (conversation_item_for x) e)

-- At every moment of a run, and after its healing, the working history is the committed history,
-- then exactly the delta that the run will commit.
pub observed-heal-synced :
    (committed : List HistoryItem) (prompt : Text) (events : List AgentEvent)
    → let h = observed (start committed prompt) events in
      (h.working ≡ map (λ i. i.item) committed ++ h.delta)
      × ((heal h).working ≡ map (λ i. i.item) committed ++ (heal h).delta)
unfolding start heal
observed-heal-synced committed prompt events =
    let base : List ConversationItem = map (λ i. i.item) committed in
    let h : RunHistory = observed (start committed prompt) events in
    let e : Synced base h = observed-Synced base (start committed prompt) events refl in
    let results : List ConversationItem = map interrupted_result (unanswered_tool_calls h.delta) in
    (e, ap (λ w. w ++ results) e ∙ append_assoc base h.delta results)
