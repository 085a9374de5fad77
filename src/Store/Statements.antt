-- ===== src/Store/Statements.antt =====
-- The private methods of `SQLiteStore` (tile/store/sqlite.py) as actions on the database. What one reads
-- from the clock (`now`) and the ids that it draws (`draw i` for the i-th) are arguments.
use piy.Base.{
  ℕ, ◌+◌, max, Text, Option, none, some, List, [], ◌∷◌, any, find?, select, if◌then◌else◌,
}
use piy.Types.Conversation.{ConversationItem}
use piy.Store.Errors
use piy.Store.Errors.{
  StoreError, store, backend, integrity, value_error, session_not_found, session_already_exists,
  run_already_exists, run_not_found, run_already_ended, Error, Done, Result, ok, err, bind_result,
}
use piy.Store.Models.{
  SessionRecord, ActiveRun, TerminalRun, RunRecord, active_record, terminal_record, HistoryItem,
}
use piy.Store.Rows.{
  Codec, SessionRow, RunRow, HistoryRow, session_values, session_from_row, run_values,
  terminal_run_values, run_from_row, active_run_from_row, history_values, history_from_row,
}
use piy.Store.Tables.{
  Db, session_is, run_is, owned_run_is, active_in, item_of, insert_session_row, insert_run_row,
  insert_history_rows, finishes, finish_run_rows, touch_session_rows, next_position,
  order_by_position,
}
use piy.Store.Exec.{Exec, ◌>>=◌, pure, raise, read}

-- tuple(f(row) for row in rows), which the first failing row ends.
unfoldable pub map_rows : {A B : Type 0} → (A → Result B) → List A → Result (List B)
unfolding bind_result
map_rows f [] = ok []
map_rows f (row ∷ rows) =
    let rest = map_rows f rows in bind_result (f row) λ b. bind_result rest λ bs. ok (b ∷ bs)

unfoldable pub found_session : Text → Option SessionRow → Result SessionRecord
found_session session_id none = err (store (session_not_found session_id))
found_session session_id (some row) = session_from_row row

-- `_get_session`
unfoldable pub session_of : Text → Db → Result SessionRecord
unfolding found_session session_from_row
session_of session_id db = found_session session_id (find? (session_is session_id) db.sessions)

unfoldable pub require_session : Text → Exec Done
require_session session_id = read λ db.
    if any (session_is session_id) db.sessions
    then ok tt
    else err (store (session_not_found session_id))

unfoldable pub reject_existing_session : Text → Exec Done
reject_existing_session session_id = read λ db.
    if any (session_is session_id) db.sessions
    then err (store (session_already_exists session_id))
    else ok tt

unfoldable pub insert_session : SessionRecord → Exec Done
unfolding insert_session_row session_values
insert_session r = insert_session_row (session_values r)

unfoldable pub found_active : Option RunRow → Result (Option ActiveRun)
unfolding bind_result
found_active none = ok none
found_active (some row) = bind_result (active_run_from_row row) (λ r. ok (some r))

unfoldable pub active_run_for_session : Text → Db → Result (Option ActiveRun)
unfolding found_active
active_run_for_session session_id db = found_active (find? (active_in session_id) db.runs)

unfoldable pub reject_active_run : Option ActiveRun → Exec Done
reject_active_run none = pure tt
reject_active_run (some run) = raise (store (Errors.active_run run.session_id))

-- An integrity error on an id that is there already is the domain's.
unfoldable pub run_exists_error : ActiveRun → Result Done → Db → Result Done × Db
run_exists_error r (ok u) db = (ok u, db)
run_exists_error r (err (backend integrity)) db =
    if any (run_is r.id) db.runs
    then (err (store (run_already_exists r.id)), db)
    else (err (backend integrity), db)
run_exists_error r (err e) db = (err e, db)

unfoldable pub insert_run : ActiveRun → Exec Done
unfolding run_exists_error insert_run_row run_values
insert_run r db =
    let (outcome, db') = insert_run_row (run_values r) db in run_exists_error r outcome db'

-- `_touch_session`
unfoldable pub touch_session : TerminalRun → Exec Done
unfolding touch_session_rows
touch_session run = do
  current ← read (session_of run.session_id)
  λ db. (
    ok tt,
    record db {
      sessions =
          touch_session_rows run.session_id (max current.updated_at run.ended_at) db.sessions;
    },
  )

-- One history row for each item, from a first position on.
module _ (c : Codec) where
  unfoldable pub delta_rows :
      (ℕ → Text) → Text → Text → ℕ → ℕ → ℕ → List ConversationItem → List HistoryRow
  unfolding history_values
  delta_rows draw run_id session_id created_at offset position [] = []
  delta_rows draw run_id session_id created_at offset position (item ∷ items) =
      history_values c (draw offset) item run_id session_id position created_at
      ∷ delta_rows draw run_id session_id created_at (offset + 1) (position + 1) items

  unfoldable pub copied_rows : (ℕ → Text) → Text → ℕ → List HistoryItem → List HistoryRow
  unfolding history_values
  copied_rows draw target offset [] = []
  copied_rows draw target offset (i ∷ items) =
      history_values c (draw offset) i.item i.run_id target i.position i.created_at
      ∷ copied_rows draw target (offset + 1) items

unfoldable pub found_run : Codec → Text → Text → Option RunRow → Result RunRecord
found_run c session_id run_id none = err (store (run_not_found run_id session_id))
found_run c session_id run_id (some row) = run_from_row c row

-- if not isinstance(run, ActiveRun): raise RunAlreadyEndedError
unfoldable pub require_active : Text → RunRecord → Exec ActiveRun
require_active run_id (active_record r) = pure r
require_active run_id (terminal_record r) = raise (store (run_already_ended run_id))

module _ (c : Codec) where
  -- `_get_run`
  unfoldable pub run_of : Text → Text → Db → Result RunRecord
  unfolding found_run
  run_of session_id run_id db =
      found_run c session_id run_id (find? (owned_run_is session_id run_id) db.runs)

  -- The update, and the test of `rowcount`.
  unfoldable pub finalize_active_run : TerminalRun → Exec Done
  unfolding finish_run_rows terminal_run_values
  finalize_active_run r db =
      let v = terminal_run_values c r in
      if any (finishes v) db.runs
      then (ok tt, record db { runs = finish_run_rows v db.runs })
      else (err (store (run_already_ended r.id)), db)

  unfoldable pub insert_history_delta : (ℕ → Text) → TerminalRun → List ConversationItem → Exec Done
  unfolding delta_rows insert_history_rows next_position
  insert_history_delta draw run [] db = (ok tt, db)
  insert_history_delta draw run (item ∷ items) db =
      insert_history_rows
        (delta_rows c draw run.id run.session_id run.ended_at 0
          (next_position (select (item_of run.session_id) db.history)) (item ∷ items))
        db

  unfoldable pub history_for_session : Text → Db → Result (List HistoryItem)
  unfolding order_by_position map_rows history_from_row
  history_for_session session_id db =
      map_rows (history_from_row c) (order_by_position (select (item_of session_id) db.history))

  unfoldable pub copy_history_items : (ℕ → Text) → List HistoryItem → Text → Exec Done
  unfolding copied_rows insert_history_rows
  copy_history_items draw items target = insert_history_rows (copied_rows c draw target 0 items)
