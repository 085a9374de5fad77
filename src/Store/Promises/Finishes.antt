-- ===== src/Store/Promises/Finishes.antt =====
-- `finish_run` of tile/store/sqlite.py returns.
use piy.Base.{
  le→ltb, ℕ, ◌+◌, ◌≤◌, ◌==◌, Text, text_eq, text_eq_iff, Bool, true, false, ◌&&◌, Bool-cases, some,
  List, [], ◌∷◌, ◌++◌, any, any-append, any-find?-none, found-any, find?, select, All, All-find?,
  ◌⊎◌, ◌≡◌, refl, sym, ap, ◌∙◌, arith, inl, inr, Option-cases,
}
use mathlib.Core.Path.{subst}
use piy.Types.Conversation.{ConversationItem}
use piy.Types.Outcome.{RunOutcome}
use piy.Store.Errors.{StoreOperation, ok}
use piy.Store.Models.{
  ActiveRun, TerminalRun, SessionRecord, active_record, session_record, terminal_run_record,
}
use piy.Store.Rows.{
  Codec, RunRow, HistoryRow, history_values, session_from_row, terminal_run_values,
}
use piy.Store.Tables.{
  Db, session_is, run_is, owned_run_is, item_of, finishes, history_allowed, insert_history_row,
  insert_history_rows, next_position,
}
use piy.Store.Exec.{translate_store_errors, translated, transaction, commit_or_rollback}
use piy.Store.Statements.{
  delta_rows, session_of, found_session, touch_session, require_active, run_of, finalize_active_run,
  insert_history_delta,
}
use piy.Store.Sqlite.{finish_run, get_run}
use piy.Store.Invariant.{Inv, SessionValid, RunOwned}
use piy.Store.Promises.Finish.{finishes_it}
use piy.Store.Promises.Fencing.{translated-ok}
use piy.Store.Effects.{run_of-active, with_touched, with_finished}
use piy.Store.Invariant.Updates.{ActiveRow, any-finish}

-- No row has the id, or stands at the position of the session.
abbrev NewId : Text → List HistoryRow → Type 0
NewId id rows = any (λ r. text_eq r.id id) rows ≡ false

abbrev Free : Text → ℕ → List HistoryRow → Type 0
Free s m rows = any (λ r. text_eq r.session_id s && r.position == m) rows ≡ false

-- Positions from the next one on are free.
next_position-Free :
    (s : Text) (m : ℕ) (rows : List HistoryRow)
    → next_position (select (item_of s) rows) ≤ m
    → Free s m rows
unfolding next_position
next_position-Free s m [] h = refl
next_position-Free s m (r ∷ rows) h = ground (arith, next_position-Free s m rows)

module _ (c : Codec) (draw : ℕ → Text)
    (distinct : (i j : ℕ) → text_eq (draw i) (draw j) ≡ true → i ≡ j) (id s : Text) (t : ℕ) where
  delta_rows-inserted :
      (offset n : ℕ) (items : List ConversationItem) (db : Db)
      → ((k : ℕ) → offset ≤ k → NewId (draw k) db.history)
      → ((m : ℕ) → n ≤ m → Free s m db.history)
      → any (session_is s) db.sessions ≡ true
      → any (run_is id) db.runs ≡ true
      → (h : List HistoryRow) × (insert_history_rows (delta_rows c draw id s t offset n items) db
          ≡ (ok tt, record db { history = h }))
  unfolding delta_rows insert_history_rows insert_history_row history_allowed history_values
  delta_rows-inserted offset n [] db new free owner run = (db.history, refl)
  delta_rows-inserted offset n (i ∷ items) db new free owner run =
      let row : HistoryRow = history_values c (draw offset) i id s n t in
      let later =
        delta_rows-inserted (offset + 1) (n + 1) items
          (record db { history = db.history ++ row ∷ [] })
          (λ k after. later-id k after (Bool-cases (text_eq (draw offset) (draw k))))
          (λ m after.
            any-append (λ r. text_eq r.session_id s && r.position == m) db.history (row ∷ [])
            ∙ ground (arith, free m (omega arith)))
          owner run in
      (later.0, rw (new offset (omega arith), free n (omega arith), owner, run) later.1)
    where
      later-id :
          (k : ℕ)
          → offset + 1 ≤ k
          → (text_eq (draw offset) (draw k) ≡ true) ⊎ (text_eq (draw offset) (draw k) ≡ false)
          → NewId (draw k) (db.history ++ history_values c (draw offset) i id s n t ∷ [])
      later-id k after (inl same) = absurd (omega (arith, distinct offset k same))
      later-id k after (inr other) =
          any-append (λ r. text_eq r.id (draw k)) db.history
            (history_values c (draw offset) i id s n t ∷ [])
          ∙ rw (new k (omega arith), other) refl

any-some {ℓ} :
    {A : Type ℓ} (p : A → Bool) (xs : List A) → any p xs ≡ true → (x : A) × (find? p xs ≡ some x)
any-some p xs h = elim (Option-cases (find? p xs)) [
  | inl missing ↦ absurd (cc (any-find?-none p xs missing, h))
  | inr found ↦ found
]

-- A valid session row reads as a record.
session_of-returns :
    (s : Text) (db : Db)
    → any (session_is s) db.sessions ≡ true
    → All SessionValid db.sessions
    → (current : SessionRecord) × (session_of s db ≡ ok current)
unfolding session_of found_session session_from_row session_record
session_of-returns s db here valid =
    let (row, found) = any-some (session_is s) db.sessions here in
    let ordered : row.created_at ≤ row.updated_at =
      All-find? (session_is s) SessionValid db.sessions found valid in
    (
      record { id = row.id; created_at = row.created_at; updated_at = row.updated_at },
      ap (found_session s) found ∙ rw (le→ltb row.updated_at row.created_at ordered) refl,
    )

module _ (c : Codec) (db : Db) (inv : Inv c db) (now : ℕ) (draw : ℕ → Text) (s id : Text)
    (outcome : RunOutcome) (run : ActiveRun) where
  abbrev ended : TerminalRun
  ended = terminal_run_record now run outcome

  finalize_active_run-returns :
      (row : RunRow)
      → find? (owned_run_is s id) db.runs ≡ some row
      → ActiveRow row run
      → finalize_active_run c ended db ≡ (ok tt, with_finished c ended db)
  unfolding finalize_active_run
  finalize_active_run-returns row found a =
      rw
        (found-any (finishes (terminal_run_values c ended)) (owned_run_is s id) db.runs found
          (finishes_it c now row run outcome (owned_run_is s id) db.runs a))
        refl

  insert_history_delta-returns :
      (delta : List ConversationItem) (d : Db)
      → ((k : ℕ) → NewId (draw k) d.history)
      → ((i j : ℕ) → text_eq (draw i) (draw j) ≡ true → i ≡ j)
      → any (session_is ended.session_id) d.sessions ≡ true
      → any (run_is ended.id) d.runs ≡ true
      → (h : List HistoryRow) × (insert_history_delta c draw ended delta d
          ≡ (ok tt, record d { history = h }))
  unfolding insert_history_delta
  insert_history_delta-returns [] d new distinct owner there = (d.history, refl)
  insert_history_delta-returns (i ∷ items) d new distinct owner there =
      delta_rows-inserted c draw distinct ended.id ended.session_id ended.ended_at 0
        (next_position (select (item_of ended.session_id) d.history)) (i ∷ items) d (λ k _. new k)
        (λ m after. next_position-Free ended.session_id m d.history after) owner there

  run_owner :
      (row : RunRow)
      → find? (owned_run_is s id) db.runs ≡ some row
      → ActiveRow row run
      → any (session_is ended.session_id) db.sessions ≡ true
  unfolding terminal_run_record
  run_owner row found a =
      subst (λ k. any (session_is k) db.sessions ≡ true) (sym a.session_id)
        (All-find? (owned_run_is s id) (RunOwned db.sessions) db.runs found inv.runs_owned)

  run_there :
      (row : RunRow)
      → find? (owned_run_is s id) db.runs ≡ some row
      → ActiveRow row run
      → any (run_is ended.id) (with_finished c ended db).runs ≡ true
  unfolding terminal_run_record
  run_there row found a =
      any-finish (terminal_run_values c ended) ended.id db.runs
      ∙ found-any (run_is ended.id) (owned_run_is s id) db.runs found
          ((text_eq_iff row.id run.id).1 (sym a.id))

  -- In a database that satisfies the invariant, `finish_run` returns if the run is active and the ids
  -- that it draws for the items are new and distinct.
  pub finish_run-returns :
      (delta : List ConversationItem)
      → (get_run c s id db).0 ≡ ok (active_record run)
      → ((k : ℕ) → NewId (draw k) db.history)
      → ((i j : ℕ) → text_eq (draw i) (draw j) ≡ true → i ≡ j)
      → (r : TerminalRun) × (d : Db) × (finish_run c now draw s id outcome delta db ≡ (ok r, d))
  unfolding finish_run translate_store_errors translated transaction commit_or_rollback
      require_active touch_session get_run
  finish_run-returns delta active new distinct =
      let read : run_of c s id db ≡ ok (active_record run) =
        translated-ok StoreOperation.get_run (run_of c s id db) active in
      let (row, found, a) = run_of-active c s id db read in
      let owner : any (session_is ended.session_id) db.sessions ≡ true = run_owner row found a in
      let (h, inserted) =
        insert_history_delta-returns delta (with_finished c ended db) new distinct owner
          (run_there row found a) in
      let (current, session) =
        session_of-returns ended.session_id (record (with_finished c ended db) { history = h })
          owner inv.sessions_valid in
      (
        ended,
        with_touched ended current (record (with_finished c ended db) { history = h }),
        rw (read, finalize_active_run-returns row found a, inserted, session) refl,
      )
