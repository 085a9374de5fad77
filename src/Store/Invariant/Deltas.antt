-- ===== src/Store/Invariant/Deltas.antt =====
-- The history rows that a finish and a fork insert, against the invariant.
use piy.Base.{
  ℕ, ◌+◌, Text, text_eq, text_eq_refl, true, false, List, [], ◌∷◌, select, length, All, ◌≡◌, refl,
  ap, arith,
}
use mathlib.Core.Path.{subst}
use piy.Types.Conversation.{ConversationItem}
use piy.Store.Errors.{ok}
use piy.Store.Models.{HistoryItem}
use piy.Store.Rows.{Codec, HistoryRow, history_values, history_from_row, role_of, role_eq}
use piy.Store.Tables.{item_of, next_position}
use piy.Store.Statements.{delta_rows}
use piy.Store.Invariant.{From, ItemLoads, ItemDecodes}
use piy.Store.Invariant.Inserts.{next_position-From}

-- Behind contiguous rows, the next position is their number.
pub next_position-length : (rows : List HistoryRow) → From 0 rows → next_position rows ≡ length rows
unfolding next_position
next_position-length [] h = refl
next_position-length (r ∷ rows) h = omega (arith, next_position-From 0 r rows h)

role_eq_refl : (i : ConversationItem) → role_eq (role_of i) (role_of i) ≡ true
unfolding role_of role_eq
role_eq_refl (ConversationItem.user x) = refl
role_eq_refl (ConversationItem.assistant x) = refl
role_eq_refl (ConversationItem.tool_result x) = refl

module _ (c : Codec) (id : Text) (item : ConversationItem) (run_id session_id : Text)
    (position created_at : ℕ) where
  abbrev pub recorded : HistoryItem
  recorded = record {
    id = id;
    session_id = session_id;
    run_id = run_id;
    position = position;
    item = item;
    created_at = created_at;
  }

  pub history_values-decodes :
      ItemLoads c item
      → history_from_row c (history_values c id item run_id session_id position created_at)
        ≡ ok recorded
  unfolding history_values history_from_row
  history_values-decodes loads = rw (loads, role_eq_refl) refl

module _ (c : Codec) (draw : ℕ → Text) (run_id session_id : Text) (created_at : ℕ) where
  pub delta_rows-From :
      (offset n : ℕ) (items : List ConversationItem)
      → From n (
          select
            (item_of session_id)
            (delta_rows c draw run_id session_id created_at offset n items))
  unfolding delta_rows history_values
  delta_rows-From offset n [] = tt
  delta_rows-From offset n (i ∷ items) = rw (text_eq_refl session_id) (
    refl,
    subst
        (λ m. From m (
          select (item_of session_id)
            (delta_rows c draw run_id session_id created_at (offset + 1) (n + 1) items)))
        (omega arith) (delta_rows-From (offset + 1) (n + 1) items),
  )

  pub delta_rows-all :
      (offset n : ℕ) (items : List ConversationItem)
      → select (item_of session_id) (delta_rows c draw run_id session_id created_at offset n items)
        ≡ delta_rows c draw run_id session_id created_at offset n items
  unfolding delta_rows history_values
  delta_rows-all offset n [] = refl
  delta_rows-all offset n (i ∷ items) = rw (text_eq_refl session_id) (
      ap (λ r. history_values c (draw offset) i run_id session_id n created_at ∷ r)
        (delta_rows-all (offset + 1) (n + 1) items))

  pub delta_rows-none :
      (s : Text) (offset n : ℕ) (items : List ConversationItem)
      → text_eq session_id s ≡ false
      → select (item_of s) (delta_rows c draw run_id session_id created_at offset n items) ≡ []
  unfolding delta_rows history_values
  delta_rows-none s offset n [] h = refl
  delta_rows-none s offset n (i ∷ items) h = rw h (delta_rows-none s (offset + 1) (n + 1) items h)

  pub delta_rows-decode :
      (offset n : ℕ) (items : List ConversationItem)
      → All (ItemLoads c) items
      → All (ItemDecodes c) (delta_rows c draw run_id session_id created_at offset n items)
  unfolding delta_rows
  delta_rows-decode offset n [] h = tt
  delta_rows-decode offset n (i ∷ items) h = (
    (
      recorded c (draw offset) i run_id session_id n created_at,
      history_values-decodes c (draw offset) i run_id session_id n created_at h.0,
      h.0,
    ),
    delta_rows-decode (offset + 1) (n + 1) items h.1,
  )
