-- ===== src/Store/Promises/Finish.antt =====
-- `finish_run` of tile/store/sqlite.py against `get_run` and `get_history`.
use piy.Base.{
  &&-parts, ◌≤◌, count, ℕ, suc, ◌+◌, Text, text_eq, text_eq_refl, text_eq_iff, Bool, true, false,
  some, List, [], ◌∷◌, ◌++◌, any, find?, find?-test, select, select-append, length, All, All-unique,
  ◌≡◌, refl, sym, ap, ◌∙◌,
}
use mathlib.Core.Path.{subst}
use mathlib.Core.List.{append-nil}
use piy.Types.Conversation.{ConversationItem}
use piy.Types.Outcome.{RunOutcome}
use piy.Store.Errors.{StoreOperation, ok}
use piy.Store.Models.{HistoryItem, TerminalRun, ActiveRun, terminal_record, terminal_run_record}
use piy.Store.Rows.{TerminalRunValues, Codec, RunRow, HistoryRow, terminal_run_values, status_eq}
use piy.Store.Tables.{
  Db, session_is, run_is, owned_run_is, item_of, finishes, finish_run_rows, next_position,
}
use piy.Store.Statements.{delta_rows, run_of, found_run}
use piy.Store.Sqlite.{finish_run, get_history, get_run}
use piy.Store.Exec.{translate_store_errors, translated}
use piy.Store.Post.{returns}
use piy.Store.Invariant.{Inv, OutcomeLoads, ItemLoads}
use piy.Store.Invariant.Updates.{ActiveRow, any-touch, finished_row-decodes}
use piy.Store.Invariant.Deltas.{
  next_position-length, history_values-decodes, delta_rows-all, delta_rows-none,
}
use piy.Store.Invariant.Copies.{Decoded, Decoded-append}
use piy.Store.Keeps.{Ended-Inv, history-Decoded, Decoded-history}
use piy.Store.Effects.{Ended, new_rows, finish_run-Ended}
use piy.Store.Promises.{get_history-ok, ok-get_history, get_history-same, find?-finished}

-- The items that a delta becomes, from a first position on.
abbrev pub recorded_delta :
    (ℕ → Text) → TerminalRun → ℕ → ℕ → List ConversationItem → List HistoryItem
recorded_delta draw r offset n [] = []
recorded_delta draw r offset n (item ∷ items) =
    record {
      id = draw offset;
      session_id = r.session_id;
      run_id = r.id;
      position = n;
      item = item;
      created_at = r.ended_at;
    }
    ∷ recorded_delta draw r (offset + 1) (n + 1) items

module _ (c : Codec) (draw : ℕ → Text) (r : TerminalRun) where
  recorded_delta-Decoded :
      (offset n : ℕ) (items : List ConversationItem)
      → All (ItemLoads c) items
      → Decoded c
          (delta_rows c draw r.id r.session_id r.ended_at offset n items)
          (recorded_delta draw r offset n items)
  unfolding delta_rows
  recorded_delta-Decoded offset n [] h = tt
  recorded_delta-Decoded offset n (i ∷ items) h = (
    history_values-decodes c (draw offset) i r.id r.session_id n r.ended_at h.0,
    recorded_delta-Decoded (offset + 1) (n + 1) items h.1,
  )

Decoded-length :
    (c : Codec) (rows : List HistoryRow) (items : List HistoryItem)
    → Decoded c rows items
    → length rows ≡ length items
Decoded-length c [] [] h = refl
Decoded-length c [] (i ∷ items) h = absurd h
Decoded-length c (r ∷ rows) [] h = absurd h
Decoded-length c (r ∷ rows) (i ∷ items) h = ap suc (Decoded-length c rows items h.1)

module _ (c : Codec) (now : ℕ) (row : RunRow) (run : ActiveRun) (outcome : RunOutcome)
    (q : RunRow → Bool) (rows : List RunRow) where
  abbrev pub ended_values : TerminalRunValues
  ended_values = terminal_run_values c (terminal_run_record now run outcome)

  pub finishes_it : ActiveRow row run → finishes ended_values row ≡ true
  unfolding terminal_run_values terminal_run_record status_eq
  finishes_it a =
      rw (a.id, a.session_id, text_eq_refl row.id, text_eq_refl row.session_id, a.status) refl

  -- The lookup of a run among the rows after its update.
  found_ended :
      find? q rows ≡ some row
      → ActiveRow row run
      → count (run_is row.id) rows ≤ 1
      → OutcomeLoads c outcome
      → found_run c run.session_id run.id
          (find? (owned_run_is run.session_id run.id) (finish_run_rows ended_values rows))
        ≡ ok (terminal_record (terminal_run_record now run outcome))
  unfolding found_run terminal_run_values terminal_run_record
  found_ended found a few loads =
      let after : List RunRow = finish_run_rows ended_values rows in
      ap (found_run c run.session_id run.id) (
        ap (λ k. find? (owned_run_is k run.id) after) a.session_id
        ∙ ap (λ k. find? (owned_run_is row.session_id k) after) a.id
        ∙ find?-finished ended_values row q rows a.id (finishes_it a) found
            (All-unique (run_is row.id) q rows (text_eq_refl row.id) found few))
      ∙ finished_row-decodes c now row run outcome a loads

module _ (c : Codec) (now : ℕ) (draw : ℕ → Text) (outcome : RunOutcome)
    (delta : List ConversationItem) (q : RunRow → Bool) (db : Db) (inv : Inv c db) (r : TerminalRun)
    (d : Db) (e : Ended c now draw outcome delta q db r d) where
  sessions_same : (t : Text) → any (session_is t) d.sessions ≡ any (session_is t) db.sessions
  sessions_same t =
      ap (λ x. any (session_is t) x.sessions) e.after ∙ any-touch r.session_id t _ db.sessions

  rows_of :
      (t : Text)
      → select (item_of t) d.history
        ≡ select (item_of t) db.history ++ select (item_of t) (new_rows c draw r delta db)
  rows_of t =
      ap (λ x. select (item_of t) x.history) e.after ∙ select-append (item_of t) db.history _

  -- What a session reads after one of its runs ended.
  pub Ended-history :
      OutcomeLoads c outcome
      → All (ItemLoads c) delta
      → {items : List HistoryItem} → (get_history c r.session_id db).0 ≡ ok items
      → (get_history c r.session_id d).0
        ≡ ok (items ++ recorded_delta draw r 0 (length items) delta)
  Ended-history loads items_load {items} h =
      let s : Text = r.session_id in
      let (here, read) = ok-get_history c s db h in
      let old : Decoded c (select (item_of s) db.history) items = history-Decoded c db inv s read in
      let next : next_position (select (item_of s) db.history) ≡ length items =
        next_position-length _ (inv.contiguous s) ∙ Decoded-length c _ items old in
      let added : Decoded c (new_rows c draw r delta db)
          (recorded_delta draw r 0 (length items) delta) =
        subst (λ n. Decoded c (new_rows c draw r delta db) (recorded_delta draw r 0 n delta)) next
          (recorded_delta-Decoded c draw r 0 (next_position (select (item_of s) db.history)) delta
            items_load) in
      let all : select (item_of s) d.history
          ≡ select (item_of s) db.history ++ new_rows c draw r delta db =
        rows_of s
        ∙ ap (λ x. select (item_of s) db.history ++ x)
            (delta_rows-all c draw r.id s r.ended_at 0
              (next_position (select (item_of s) db.history)) delta) in
      get_history-ok c s d (sessions_same s ∙ here) (
        Decoded-history c d (Ended-Inv c now draw outcome delta q db inv r d loads items_load e) s (
          subst (λ x. Decoded c x (items ++ recorded_delta draw r 0 (length items) delta)) (sym all)
            (Decoded-append c _ items _ _ old added)))

  -- Other sessions read as before.
  Ended-others :
      (t : Text) → text_eq r.session_id t ≡ false → (get_history c t d).0 ≡ (get_history c t db).0
  Ended-others t other = get_history-same c t db d (sessions_same t) (
      rows_of t
      ∙ ap (λ x. select (item_of t) db.history ++ x)
          (delta_rows-none c draw r.id r.session_id r.ended_at t 0
            (next_position (select (item_of r.session_id) db.history)) delta other)
      ∙ append-nil (select (item_of t) db.history))

  -- The run that ended reads as the terminal record.
  pub Ended-run : OutcomeLoads c outcome → run_of c r.session_id r.id d ≡ ok (terminal_record r)
  unfolding run_of terminal_run_record
  Ended-run loads =
      subst
        (λ x.
          found_run c r.session_id r.id (find? (owned_run_is r.session_id r.id) x.runs)
          ≡ ok (terminal_record r))
        (sym e.after)
        (subst
          (λ x.
            found_run c x.session_id x.id (
              find? (owned_run_is x.session_id x.id)
                (finish_run_rows (terminal_run_values c x) db.runs))
            ≡ ok (terminal_record x))
          (sym e.terminal)
          (found_ended c now e.row e.run outcome q db.runs e.found e.columns
            (inv.unique_runs e.row.id) loads))

module _ (c : Codec) (now : ℕ) (draw : ℕ → Text) (s id : Text) (outcome : RunOutcome)
    (delta : List ConversationItem) where
  -- The run that a finish ends is the one that it names.
  pub Ended-keys :
      (db : Db) (r : TerminalRun) (d : Db)
      → Ended c now draw outcome delta (owned_run_is s id) db r d
      → (r.session_id ≡ s) × (r.id ≡ id)
  unfolding terminal_run_record
  Ended-keys db r d e =
      let keys : owned_run_is s id e.row ≡ true = find?-test (owned_run_is s id) db.runs e.found in
      let (in_session, by_id) = &&-parts (text_eq e.row.session_id s) (text_eq e.row.id id) keys in
      (
        ap (λ x. x.session_id) e.terminal
            ∙ e.columns.session_id
            ∙ (text_eq_iff e.row.session_id s).0 in_session,
        ap (λ x. x.id) e.terminal ∙ e.columns.id ∙ (text_eq_iff e.row.id id).0 by_id,
      )

  -- The run reads back under the keys that the call names.
  pub Ended-lookup :
      (db : Db) (r : TerminalRun) (d : Db)
      → Inv c db
      → OutcomeLoads c outcome
      → Ended c now draw outcome delta (owned_run_is s id) db r d
      → run_of c s id d ≡ ok (terminal_record r)
  Ended-lookup db r d inv loads e =
      let (in_session, by_id) = Ended-keys db r d e in
      subst (λ k. run_of c k id d ≡ ok (terminal_record r)) in_session
        (subst (λ k. run_of c r.session_id k d ≡ ok (terminal_record r)) by_id
          (Ended-run c now draw outcome delta (owned_run_is s id) db inv r d e loads))

  pub finish_run-lookup :
      (db : Db) (r : TerminalRun) (d : Db)
      → Inv c db
      → OutcomeLoads c outcome
      → finish_run c now draw s id outcome delta db ≡ (ok r, d)
      → (get_run c s id d).0 ≡ ok (terminal_record r)
  unfolding get_run translate_store_errors
  finish_run-lookup db r d inv loads returned = ap (translated StoreOperation.get_run) (
      Ended-lookup db r d inv loads (
        returns (Ended c now draw outcome delta (owned_run_is s id) db)
          (finish_run-Ended c now draw s id outcome delta db) returned))

  -- Where `finish_run` returns, its session's history is extended by the delta, in its order, at the
  -- next positions; the run reads back as the terminal record with the outcome; and the history of any
  -- other session reads as before. The database is one that satisfies the invariant, and the JSON
  -- adapters load again what is written.
  pub finish_run-commits :
      (db : Db) (r : TerminalRun) (d : Db) (items : List HistoryItem)
      → Inv c db
      → OutcomeLoads c outcome
      → All (ItemLoads c) delta
      → finish_run c now draw s id outcome delta db ≡ (ok r, d)
      → (get_history c s db).0 ≡ ok items
      → (r.outcome ≡ outcome)
        × ((get_history c s d).0 ≡ ok (items ++ recorded_delta draw r 0 (length items) delta))
        × ((get_run c s id d).0 ≡ ok (terminal_record r))
        × ((t : Text) → text_eq s t ≡ false → (get_history c t d).0 ≡ (get_history c t db).0)
  unfolding get_run translate_store_errors terminal_run_record
  finish_run-commits db r d items inv loads items_load returned h =
      let e : Ended c now draw outcome delta (owned_run_is s id) db r d =
        returns (Ended c now draw outcome delta (owned_run_is s id) db)
          (finish_run-Ended c now draw s id outcome delta db) returned in
      let in_session = (Ended-keys db r d e).0 in
      (
        ap (λ x. x.outcome) e.terminal,
        subst
            (λ k.
              (get_history c k d).0 ≡ ok (items ++ recorded_delta draw r 0 (length items) delta))
            in_session
            (Ended-history c now draw outcome delta (owned_run_is s id) db inv r d e loads
              items_load (subst (λ k. (get_history c k db).0 ≡ ok items) (sym in_session) h)),
        finish_run-lookup db r d inv loads returned,
        λ t other.
            Ended-others c now draw outcome delta (owned_run_is s id) db inv r d e t
              (subst (λ k. text_eq k t ≡ false) (sym in_session) other),
      )
