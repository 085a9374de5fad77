-- ===== src/Store/Keeps.antt =====
-- The calls of tile/store/sqlite.py keep the invariant, whether they return or raise.
use piy.Base.{
  ℕ, ◌≤◌, max, Text, text_eq, text_eq_iff, Bool, true, false, some, List, [], ◌∷◌, ◌++◌, any, find?,
  find?-test, select, length, All, All-select, All-unique, ◌⊎◌, inl, inr, ◌≡◌, refl, sym, arith,
  Bool-cases, Option-cases,
}
use mathlib.Core.Path.{subst}
use piy.Types.Conversation.{ConversationItem}
use piy.Types.Outcome.{RunOutcome}
use piy.Store.Errors.{ok}
use piy.Store.Models.{
  SessionRecord, session_record, TerminalRun, StartedRun, ActiveRun, HistoryItem,
  new_session_record, active_record,
}
use piy.Store.Rows.{
  Codec, SessionRow, RunRow, HistoryRow, session_values, session_from_row, run_values, run_from_row,
  active_run_from_row, status_eq,
}
use piy.Store.Tables.{Db, session_is, item_of, touch_session_rows, next_position, session_allowed}
use piy.Store.Statements.{session_of, found_session, copied_rows, history_for_session}
use piy.Store.Invariant.{Inv, From, SessionValid, OutcomeLoads, ItemLoads, ItemOwned, ItemDecodes}
use piy.Store.Invariant.Inserts.{session-Inv, run-Inv, Inserted, items-Inv, order_by_position-From}
use piy.Store.Invariant.Updates.{finish-Inv, touch-Inv}
use piy.Store.Invariant.Deltas.{
  next_position-length, delta_rows-From, delta_rows-none, delta_rows-decode,
}
use piy.Store.Invariant.Copies.{
  Decoded, Decoded-map_rows, map_rows-Decoded, Decoded-From, Decoded-loads, copied_rows-From,
  copied_rows-none, copied_rows-decode,
}
use piy.Store.Effects.{Ended, new_rows, with_finished, with_touched}
use piy.Store.Effects.Opens.{Created, Started}
use piy.Store.Effects.Forks.{Forked}

-- The row behind a session that was read.
session_of-row :
    (s : Text) (db : Db) {current : SessionRecord}
    → session_of s db ≡ ok current
    → (row : SessionRow) × (find? (session_is s) db.sessions ≡ some row)
      × (current.updated_at ≡ row.updated_at)
unfolding session_of found_session session_from_row session_record
session_of-row s db {current} e = elim (Option-cases (find? (session_is s) db.sessions)) [
  | inl missing ↦ absurd (ground (arith, missing))
  | inr (row, here) ↦
      (row, here, ground (arith, subst (λ o. found_session s o ≡ ok current) here e))
]

touched-valid :
    (s : Text) (t : ℕ) (found : SessionRow) (rows : List SessionRow)
    → found.updated_at ≤ t
    → All SessionValid rows
    → All (λ row. (session_is s row ≡ false) ⊎ (row ≡ found)) rows
    → All SessionValid (touch_session_rows s t rows)
unfolding touch_session_rows
touched-valid s t found [] later valid only = tt
touched-valid s t found (row ∷ rows) later valid only =
    (ground (arith, only.0, valid.0), touched-valid s t found rows later valid.1 only.1)

module _ (c : Codec) (db : Db) (inv : Inv c db) where
  pub touched-Inv :
      (r : TerminalRun) (current : SessionRecord)
      → session_of r.session_id db ≡ ok current
      → Inv c (with_touched r current db)
  touched-Inv r current e =
      let s : Text = r.session_id in
      let (row, here, same) = session_of-row s db e in
      touch-Inv c db inv s (max current.updated_at r.ended_at) (
        touched-valid s (max current.updated_at r.ended_at) row db.sessions (omega (arith, same))
          inv.sessions_valid
          (All-unique (session_is s) (session_is s) db.sessions
            (find?-test (session_is s) db.sessions here) here (inv.unique_sessions s)))

  -- The rows of a delta continue the positions of their session.
  new_rows-From :
      (draw : ℕ → Text) (r : TerminalRun) (delta : List ConversationItem) (s : Text)
      → From
          (length (select (item_of s) db.history))
          (select (item_of s) (new_rows c draw r delta db))
  new_rows-From draw r delta s =
      let next : ℕ = next_position (select (item_of r.session_id) db.history) in
      elim (Bool-cases (text_eq r.session_id s)) [
        | inl same ↦
            subst
              (λ k.
                From (length (select (item_of k) db.history))
                  (select (item_of k) (new_rows c draw r delta db)))
              ((text_eq_iff r.session_id s).0 same)
              (subst (λ n. From n (select (item_of r.session_id) (new_rows c draw r delta db)))
                (next_position-length _ (inv.contiguous r.session_id))
                (delta_rows-From c draw r.id r.session_id r.ended_at 0 next delta))
        | inr other ↦
            subst (From (length (select (item_of s) db.history)))
              (sym (delta_rows-none c draw r.id r.session_id r.ended_at s 0 next delta other)) tt
      ]

module _ (c : Codec) (now : ℕ) (draw : ℕ → Text) (outcome : RunOutcome)
    (delta : List ConversationItem) (q : RunRow → Bool) (db : Db) (inv : Inv c db) where
  -- The end of a run.
  pub Ended-Inv :
      (r : TerminalRun) (d : Db)
      → OutcomeLoads c outcome
      → All (ItemLoads c) delta
      → Ended c now draw outcome delta q db r d
      → Inv c d
  unfolding session_of
  Ended-Inv r d loads items_load e =
      let finished : Inv c (with_finished c r db) =
        subst (λ t. Inv c (with_finished c t db)) (sym e.terminal)
          (finish-Inv c db inv now e.row e.run outcome q e.found e.columns loads) in
      let inserted : Inv c
          (record (with_finished c r db) { history = db.history ++ new_rows c draw r delta db }) =
        items-Inv c (with_finished c r db) finished (new_rows c draw r delta db)
          (new_rows-From c db inv draw r delta)
          (delta_rows-decode c draw r.id r.session_id r.ended_at 0
            (next_position (select (item_of r.session_id) db.history)) delta items_load)
          e.owned e.keys in
      subst (Inv c) (sym e.after) (
        touched-Inv c
          (record (with_finished c r db) { history = db.history ++ new_rows c draw r delta db })
          inserted r e.current e.session)

module _ (c : Codec) (db : Db) (inv : Inv c db) where
  pub Created-Inv :
      (now : ℕ) (s : Text) (r : SessionRecord) (d : Db) → Created now s db r d → Inv c d
  unfolding session_values new_session_record
  Created-Inv now s r d h =
      subst (Inv c) (sym h.2)
        (session-Inv c db inv (session_values (new_session_record now s)) (omega arith) h.1)

  run_values-decodes : (r : ActiveRun) → run_from_row c (run_values r) ≡ ok (active_record r)
  unfolding run_from_row active_run_from_row run_values status_eq
  run_values-decodes r = refl

  pub Started-Inv :
      (now : ℕ) (s id prompt model provider : Text) (started : StartedRun) (d : Db)
      → Started c now s id prompt model provider db started d
      → Inv c d
  Started-Inv now s id prompt model provider started d h = subst (Inv c) (sym h.after) (
      run-Inv c db inv (run_values started.run)
        (active_record started.run, run_values-decodes started.run) h.allowed)

  -- No row is of a session that is not there.
  pub unowned :
      (target : Text) (rows : List HistoryRow)
      → any (session_is target) db.sessions ≡ false
      → All (ItemOwned db.sessions db.runs) rows
      → select (item_of target) rows ≡ []
  unowned target [] h owned = refl
  unowned target (row ∷ rows) h owned = rw (other, unowned target rows h owned.1) refl
    where
      other : text_eq row.session_id target ≡ false
      other = elim (Bool-cases (text_eq row.session_id target)) [
        | inl same ↦ absurd (
            cc (
              subst (λ k. any (session_is k) db.sessions ≡ true)
                  ((text_eq_iff row.session_id target).0 same) owned.0.0,
              h,
            ))
        | inr f ↦ f
      ]

  -- In a valid database a history reads as its rows, in the order of their positions.
  pub history-Decoded :
      (s : Text) {items : List HistoryItem}
      → history_for_session c s db ≡ ok items
      → Decoded c (select (item_of s) db.history) items
  unfolding history_for_session
  history-Decoded s {items} h =
      subst (λ rows. Decoded c rows items) (order_by_position-From 0 _ (inv.contiguous s))
        (map_rows-Decoded c _ h)

  pub Decoded-history :
      (s : Text) {items : List HistoryItem}
      → Decoded c (select (item_of s) db.history) items
      → history_for_session c s db ≡ ok items
  unfolding history_for_session
  Decoded-history s {items} h =
      Decoded-map_rows c _ items (
        subst (λ rows. Decoded c rows items) (sym (order_by_position-From 0 _ (inv.contiguous s)))
          h)

  -- A copy stands at the positions of its source.
  copied-From :
      (draw : ℕ → Text) (source target : Text) (items : List HistoryItem) (s : Text)
      → any (session_is target) db.sessions ≡ false
      → Decoded c (select (item_of source) db.history) items
      → From
          (length (select (item_of s) db.history))
          (select (item_of s) (copied_rows c draw target 0 items))
  copied-From draw source target items s new decoded = elim (Bool-cases (text_eq target s)) [
    | inl same ↦
        subst
          (λ k.
            From (length (select (item_of k) db.history))
              (select (item_of k) (copied_rows c draw target 0 items)))
          ((text_eq_iff target s).0 same)
          (rw (unowned target db.history new inv.items_owned) (
            copied_rows-From c draw target 0 0 items
              (Decoded-From c 0 _ items (inv.contiguous source) decoded)))
    | inr other ↦
        subst (From (length (select (item_of s) db.history)))
          (sym (copied_rows-none c draw target s 0 items other)) tt
  ]

  pub Forked-Inv :
      (now : ℕ) (draw : ℕ → Text) (source target : Text) (r : SessionRecord) (d : Db)
      → Forked c now draw source target db r d
      → Inv c d
  unfolding session_values new_session_record session_allowed
  Forked-Inv now draw source target r d h =
      let row : SessionRow = session_values (new_session_record now target) in
      let allowed : session_allowed row db ≡ true =
        subst (λ x. session_allowed (session_values x) db ≡ true) h.session h.allowed in
      let added : Inv c (record db { sessions = db.sessions ++ row ∷ [] }) =
        session-Inv c db inv row (omega arith) allowed in
      let decoded = history-Decoded source h.history in
      let copied =
        subst
          (λ x.
            Inserted (record db { sessions = db.sessions ++ session_values x ∷ [] })
              (copied_rows c draw target 0 h.items) d)
          h.session h.copied in
      subst (Inv c) (sym copied.0) (
        items-Inv c (record db { sessions = db.sessions ++ row ∷ [] }) added
          (copied_rows c draw target 0 h.items)
          (λ s. copied-From draw source target h.items s (ground arith) decoded)
          (copied_rows-decode c draw target 0 h.items (
            Decoded-loads c _ h.items
              (All-select (item_of source) (ItemDecodes c) db.history inv.items_decode) decoded))
          copied.1 copied.2)
