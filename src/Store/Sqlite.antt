-- ===== src/Store/Sqlite.antt =====
-- The methods of `SQLiteStore` (tile/store/sqlite.py) as actions on the database. What a method reads
-- from the clock (`now`) and the ids that it draws (`draw i` for the i-th) are arguments.
use piy.Base.{ℕ, Text, text_eq, Option, none, some, List, select}
use piy.Types.Conversation.{ConversationItem}
use piy.Types.Outcome.{RunOutcome}
use piy.Store.Errors.{
  store, backend, integrity, session_already_exists, StoreOperation, Result, err,
}
use piy.Store.Models.{
  SessionRecord, ActiveRun, TerminalRun, RunRecord, HistoryItem, StartedRun, new_session_record,
  new_active_run_record, terminal_run_record,
}
use piy.Store.Rows.{Codec, session_from_row, run_from_row}
use piy.Store.Tables.{order_sessions, order_runs}
use piy.Store.Exec.{Exec, ◌>>=◌, ◌>>◌, pure, read, transaction, translate_store_errors}
use piy.Store.Statements.{
  map_rows, session_of, require_session, reject_existing_session, insert_session,
  active_run_for_session, reject_active_run, insert_run, touch_session, require_active, run_of,
  finalize_active_run, insert_history_delta, history_for_session, copy_history_items,
}

-- except sqlite3.IntegrityError: the id is taken.
unfoldable pub taken_session : Text → Result SessionRecord → Result SessionRecord
taken_session session_id (err (backend integrity)) = err (store (session_already_exists session_id))
taken_session session_id other = other

unfoldable pub catch_taken : Text → Exec SessionRecord → Exec SessionRecord
unfolding taken_session
catch_taken session_id m db = let (r, db') = m db in (taken_session session_id r, db')

unfoldable pub create_session : ℕ → Text → Exec SessionRecord
unfolding catch_taken
create_session now session_id = translate_store_errors StoreOperation.create_session (
    catch_taken session_id
      (transaction do let r = new_session_record now session_id; insert_session r; pure r))

unfoldable pub get_session : Text → Exec SessionRecord
get_session session_id =
    translate_store_errors StoreOperation.get_session (read (session_of session_id))

unfoldable pub list_sessions : Exec (List SessionRecord)
list_sessions =
    translate_store_errors StoreOperation.list_sessions
      (read λ db. map_rows session_from_row (order_sessions db.sessions))

module _ (c : Codec) where
  unfoldable pub start_run : ℕ → Text → Text → Text → Text → Text → Exec StartedRun
  start_run now session_id run_id prompt model provider =
      translate_store_errors StoreOperation.start_run (
        transaction do
          require_session session_id
          running ← read (active_run_for_session session_id)
          reject_active_run running
          committed_history ← read (history_for_session c session_id)
          let r = new_active_run_record now run_id session_id prompt model provider
          insert_run r
          pure (record { run = r; committed_history = committed_history }))

  unfoldable pub finish_run :
      ℕ → (ℕ → Text) → Text → Text → RunOutcome → List ConversationItem → Exec TerminalRun
  finish_run now draw session_id run_id outcome history_delta =
      translate_store_errors StoreOperation.finish_run (
        transaction do
          found ← read (run_of c session_id run_id)
          run ← require_active run_id found
          let r = terminal_run_record now run outcome
          finalize_active_run c r
          insert_history_delta c draw r history_delta
          touch_session r
          pure r)

  -- What the method does when the session has an active run.
  unfoldable pub abort_found : ℕ → Option ActiveRun → Exec (Option TerminalRun)
  abort_found now none = pure none
  abort_found now (some run) = do
    let r = terminal_run_record now run RunOutcome.aborted
    finalize_active_run c r
    touch_session r
    pure (some r)

  unfoldable pub abort_active_run : ℕ → Text → Exec (Option TerminalRun)
  unfolding abort_found
  abort_active_run now session_id = translate_store_errors StoreOperation.abort_active_run (
      transaction do
        require_session session_id
        running ← read (active_run_for_session session_id)
        abort_found now running)

  unfoldable pub get_history : Text → Exec (List HistoryItem)
  get_history session_id =
      translate_store_errors StoreOperation.get_history
        do require_session session_id; read (history_for_session c session_id)

  unfoldable pub get_run : Text → Text → Exec RunRecord
  get_run session_id run_id =
      translate_store_errors StoreOperation.get_run (read (run_of c session_id run_id))

  unfoldable pub list_runs : Text → Exec (List RunRecord)
  list_runs session_id = translate_store_errors StoreOperation.list_runs do
    require_session session_id
    read (λ db.
        map_rows (run_from_row c)
          (order_runs (select (λ row. text_eq row.session_id session_id) db.runs)))

  unfoldable pub fork_session : ℕ → (ℕ → Text) → Text → Text → Exec SessionRecord
  fork_session now draw source_session_id target_session_id =
      translate_store_errors StoreOperation.fork_session (
        transaction do
          require_session source_session_id
          reject_existing_session target_session_id
          let target = new_session_record now target_session_id
          insert_session target
          source_items ← read (history_for_session c source_session_id)
          copy_history_items c draw source_items target_session_id
          pure target)
