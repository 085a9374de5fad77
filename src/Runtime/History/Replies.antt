-- ===== src/Runtime/History/Replies.antt =====
-- Which tool calls of a conversation have a result in it, said of the items alone.
use piy.Base.{
  Text, text_eq, text_eq_iff, Bool-cases, true, List, [], ◌∷◌, ◌++◌, any, All, All-append, ◌⊎◌, inl,
  inr, ◌≡◌, refl, sym, arith, false_ne_true, append-eq-nil,
}
use piy.Types.Blocks.{AssistantBlock, ToolCallBlock, text, reasoning, tool_call}
use piy.Types.Conversation.{ConversationItem, user, assistant, tool_result}
use piy.Runtime.History.{answered, unanswered_blocks, unanswered_items, unanswered_tool_calls}

-- A result with the id of the call is among the items.
abbrev pub HasResult : List ConversationItem → Text → Type 0
HasResult [] call_id = ⊥
HasResult (user m ∷ items) call_id = HasResult items call_id
HasResult (assistant t ∷ items) call_id = HasResult items call_id
HasResult (tool_result t ∷ items) call_id = (t.call_id ≡ call_id) ⊎ HasResult items call_id

-- Every tool call of the blocks, of the turns, has a result among the items.
abbrev pub CallsHaveResults : List ConversationItem → List AssistantBlock → Type 0
CallsHaveResults items [] = Unit
CallsHaveResults items (text b ∷ blocks) = CallsHaveResults items blocks
CallsHaveResults items (reasoning b ∷ blocks) = CallsHaveResults items blocks
CallsHaveResults items (tool_call b ∷ blocks) =
    HasResult items b.call_id × CallsHaveResults items blocks

abbrev pub TurnsHaveResults : List ConversationItem → List ConversationItem → Type 0
TurnsHaveResults items [] = Unit
TurnsHaveResults items (user m ∷ turns) = TurnsHaveResults items turns
TurnsHaveResults items (tool_result t ∷ turns) = TurnsHaveResults items turns
TurnsHaveResults items (assistant t ∷ turns) =
    CallsHaveResults items t.blocks × TurnsHaveResults items turns

abbrev pub EveryCallHasResult : List ConversationItem → Type 0
EveryCallHasResult items = TurnsHaveResults items items

answered-HasResult :
    (items : List ConversationItem) (id : Text)
    → any (text_eq id) (answered items) ≡ true
    → HasResult items id
unfolding answered
answered-HasResult [] id h = false_ne_true h
answered-HasResult (user m ∷ items) id h = answered-HasResult items id h
answered-HasResult (assistant t ∷ items) id h = answered-HasResult items id h
answered-HasResult (tool_result t ∷ items) id h = elim (Bool-cases (text_eq id t.call_id)) [
  | inl same ↦ inl (sym ((text_eq_iff id t.call_id).0 same))
  | inr other ↦ inr (answered-HasResult items id (ground (arith, h, other)))
]

HasResult-answered :
    (items : List ConversationItem) (id : Text)
    → HasResult items id
    → any (text_eq id) (answered items) ≡ true
unfolding answered
HasResult-answered [] id h = elim h [ ]
HasResult-answered (user m ∷ items) id h = HasResult-answered items id h
HasResult-answered (assistant t ∷ items) id h = HasResult-answered items id h
HasResult-answered (tool_result t ∷ items) id (inl e) =
    rw ((text_eq_iff id t.call_id).1 (sym e)) refl
HasResult-answered (tool_result t ∷ items) id (inr later) =
    ground (arith, HasResult-answered items id later)

module _ (items : List ConversationItem) where
  -- Where no call is left, every call has its result.
  calls-HaveResults :
      (blocks : List AssistantBlock)
      → unanswered_blocks (answered items) blocks ≡ []
      → CallsHaveResults items blocks
  unfolding unanswered_blocks
  calls-HaveResults [] h = tt
  calls-HaveResults (text b ∷ blocks) h = calls-HaveResults blocks h
  calls-HaveResults (reasoning b ∷ blocks) h = calls-HaveResults blocks h
  calls-HaveResults (tool_call b ∷ blocks) h =
      elim (Bool-cases (any (text_eq b.call_id) (answered items))) [
        | inl there ↦ (
          answered-HasResult items b.call_id there,
          calls-HaveResults blocks (ground (arith, h, there)),
        )
        | inr missing ↦ absurd (ground (arith, h, missing))
      ]

  turns-HaveResults :
      (turns : List ConversationItem)
      → unanswered_items (answered items) turns ≡ []
      → TurnsHaveResults items turns
  unfolding unanswered_items
  turns-HaveResults [] h = tt
  turns-HaveResults (user m ∷ turns) h = turns-HaveResults turns h
  turns-HaveResults (tool_result t ∷ turns) h = turns-HaveResults turns h
  turns-HaveResults (assistant t ∷ turns) h =
      let (here, there) =
        append-eq-nil (unanswered_blocks (answered items) t.blocks)
          (unanswered_items (answered items) turns) h in
      (calls-HaveResults t.blocks here, turns-HaveResults turns there)

  pub none_left-EveryCallHasResult : unanswered_tool_calls items ≡ [] → EveryCallHasResult items
  unfolding unanswered_tool_calls
  none_left-EveryCallHasResult h = turns-HaveResults items h

  -- A call that is left has no result.
  abbrev pub Unanswered : ToolCallBlock → Type 0
  Unanswered b = ¬ HasResult items b.call_id

  blocks-Unanswered :
      (blocks : List AssistantBlock) → All Unanswered (unanswered_blocks (answered items) blocks)
  unfolding unanswered_blocks
  blocks-Unanswered [] = tt
  blocks-Unanswered (text b ∷ blocks) = blocks-Unanswered blocks
  blocks-Unanswered (reasoning b ∷ blocks) = blocks-Unanswered blocks
  blocks-Unanswered (tool_call b ∷ blocks) =
      elim (Bool-cases (any (text_eq b.call_id) (answered items))) [
        | inl there ↦ rw there (blocks-Unanswered blocks)
        | inr missing ↦
            rw missing
              (λ has. cc (HasResult-answered items b.call_id has), blocks-Unanswered blocks)
      ]

  items-Unanswered :
      (turns : List ConversationItem) → All Unanswered (unanswered_items (answered items) turns)
  unfolding unanswered_items
  items-Unanswered [] = tt
  items-Unanswered (user m ∷ turns) = items-Unanswered turns
  items-Unanswered (tool_result t ∷ turns) = items-Unanswered turns
  items-Unanswered (assistant t ∷ turns) =
      All-append Unanswered (unanswered_blocks (answered items) t.blocks)
        (unanswered_items (answered items) turns) (blocks-Unanswered t.blocks)
        (items-Unanswered turns)

  pub unanswered_tool_calls-Unanswered : All Unanswered (unanswered_tool_calls items)
  unfolding unanswered_tool_calls
  unanswered_tool_calls-Unanswered = items-Unanswered items

-- More items take no result away.
HasResult-left :
    (xs ys : List ConversationItem) (id : Text) → HasResult xs id → HasResult (xs ++ ys) id
HasResult-left [] ys id h = elim h [ ]
HasResult-left (user m ∷ xs) ys id h = HasResult-left xs ys id h
HasResult-left (assistant t ∷ xs) ys id h = HasResult-left xs ys id h
HasResult-left (tool_result t ∷ xs) ys id (inl e) = inl e
HasResult-left (tool_result t ∷ xs) ys id (inr h) = inr (HasResult-left xs ys id h)

HasResult-right :
    (xs ys : List ConversationItem) (id : Text) → HasResult ys id → HasResult (xs ++ ys) id
HasResult-right [] ys id h = h
HasResult-right (user m ∷ xs) ys id h = HasResult-right xs ys id h
HasResult-right (assistant t ∷ xs) ys id h = HasResult-right xs ys id h
HasResult-right (tool_result t ∷ xs) ys id h = inr (HasResult-right xs ys id h)

module _ (few more : List ConversationItem)
    (grows : (id : Text) → HasResult few id → HasResult more id) where
  CallsHaveResults-grow :
      (blocks : List AssistantBlock) → CallsHaveResults few blocks → CallsHaveResults more blocks
  CallsHaveResults-grow [] h = tt
  CallsHaveResults-grow (text b ∷ blocks) h = CallsHaveResults-grow blocks h
  CallsHaveResults-grow (reasoning b ∷ blocks) h = CallsHaveResults-grow blocks h
  CallsHaveResults-grow (tool_call b ∷ blocks) h =
      (grows b.call_id h.0, CallsHaveResults-grow blocks h.1)

  TurnsHaveResults-grow :
      (turns : List ConversationItem) → TurnsHaveResults few turns → TurnsHaveResults more turns
  TurnsHaveResults-grow [] h = tt
  TurnsHaveResults-grow (user m ∷ turns) h = TurnsHaveResults-grow turns h
  TurnsHaveResults-grow (tool_result t ∷ turns) h = TurnsHaveResults-grow turns h
  TurnsHaveResults-grow (assistant t ∷ turns) h =
      (CallsHaveResults-grow t.blocks h.0, TurnsHaveResults-grow turns h.1)

TurnsHaveResults-append :
    (items xs ys : List ConversationItem)
    → TurnsHaveResults items xs
    → TurnsHaveResults items ys
    → TurnsHaveResults items (xs ++ ys)
TurnsHaveResults-append items [] ys h k = k
TurnsHaveResults-append items (user m ∷ xs) ys h k = TurnsHaveResults-append items xs ys h k
TurnsHaveResults-append items (tool_result t ∷ xs) ys h k = TurnsHaveResults-append items xs ys h k
TurnsHaveResults-append items (assistant t ∷ xs) ys h k =
    (h.0, TurnsHaveResults-append items xs ys h.1 k)

pub EveryCallHasResult-append :
    (xs ys : List ConversationItem)
    → EveryCallHasResult xs
    → EveryCallHasResult ys
    → EveryCallHasResult (xs ++ ys)
EveryCallHasResult-append xs ys h k =
    TurnsHaveResults-append (xs ++ ys) xs ys
      (TurnsHaveResults-grow xs (xs ++ ys) (HasResult-left xs ys) xs h)
      (TurnsHaveResults-grow ys (xs ++ ys) (HasResult-right xs ys) ys k)
