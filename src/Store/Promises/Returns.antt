-- ===== src/Store/Promises/Returns.antt =====
-- When the calls of tile/store/sqlite.py return.
use piy.Base.{
  ℕ, Text, true, false, List, [], ◌∷◌, ◌++◌, any, find?-none, select, All-select, ◌≡◌, refl,
}
use piy.Store.Errors.{ok}
use piy.Store.Models.{StartedRun, HistoryItem, new_active_run_record}
use piy.Store.Rows.{Codec, run_values, status_eq}
use piy.Store.Tables.{
  Db, session_is, run_is, active_in, item_of, check_run, run_allowed, insert_run_row,
}
use piy.Store.Exec.{translate_store_errors, translated, transaction, commit_or_rollback}
use piy.Store.Statements.{
  require_session, active_run_for_session, found_active, reject_active_run, history_for_session,
  insert_run, run_exists_error,
}
use piy.Store.Sqlite.{start_run, get_history}
use piy.Store.Invariant.{Inv, ItemDecodes}
use piy.Store.Invariant.Copies.{readable_items}
use piy.Store.Keeps.{Decoded-history}
use piy.Store.Promises.{get_history-ok}

module _ (c : Codec) (db : Db) (inv : Inv c db) where
  -- The history of a session that is there can be read.
  pub get_history-returns :
      (s : Text)
      → any (session_is s) db.sessions ≡ true
      → (items : List HistoryItem) × ((get_history c s db).0 ≡ ok items)
        × (history_for_session c s db ≡ ok items)
  get_history-returns s here =
      let (items, decoded) =
        readable_items c (select (item_of s) db.history)
          (All-select (item_of s) (ItemDecodes c) db.history inv.items_decode) in
      let read : history_for_session c s db ≡ ok items = Decoded-history c db inv s decoded in
      (items, get_history-ok c s db here read, read)

  -- In a database that satisfies the invariant, `start_run` returns if the session is there and has no
  -- active run, and the run's id is new.
  pub start_run-returns :
      (now : ℕ) (s id prompt model provider : Text)
      → any (session_is s) db.sessions ≡ true
      → any (active_in s) db.runs ≡ false
      → any (run_is id) db.runs ≡ false
      → (started : StartedRun) × (d : Db) × (start_run c now s id prompt model provider db
          ≡ (ok started, d))
  unfolding start_run translate_store_errors translated transaction commit_or_rollback
      require_session active_run_for_session found_active reject_active_run insert_run
      run_exists_error insert_run_row run_allowed run_values new_active_run_record check_run
      status_eq
  start_run-returns now s id prompt model provider here idle new =
      let (items, _, read) = get_history-returns s here in
      (
        record {
          run = new_active_run_record now id s prompt model provider;
          committed_history = items;
        },
        record db {
          runs = db.runs ++ run_values (new_active_run_record now id s prompt model provider) ∷ [];
        },
        rw (here, find?-none (active_in s) db.runs idle, read, new, here, idle) refl,
      )
