-- ===== src/Store/Promises.antt =====
-- What callers of the Store rely on: lookups after the writes of tile/store/sqlite.py.
pub mod Finish
pub mod Fencing
pub mod Start
pub mod Returns
pub mod Finishes
pub mod Fork
use piy.Base.{
  ℕ, suc, ◌+◌, Text, text_eq, text_eq_refl, text_eq_iff, Bool, true, false, ◌&&◌, Option, none,
  some, List, [], ◌∷◌, ◌++◌, any, find?, find?-head, select, All, ◌⊎◌, inl, inr, ◌≡◌, refl, sym, ap,
  ◌∙◌, arith, Bool-cases, if◌then◌else◌,
}
use mathlib.Core.Path.{subst}
use piy.Store.Errors.{Result, ok, err, store, session_not_found}
use piy.Store.Models.{HistoryItem, RunRecord}
use piy.Store.Rows.{Codec, RunRow, TerminalRunValues}
use piy.Store.Tables.{
  Db, session_is, run_is, owned_run_is, item_of, finishes, finished_row, finish_run_rows,
}
use piy.Store.Exec.{translate_store_errors, translated, ◌>>=◌, ◌>>◌}
use piy.Store.Statements.{require_session, history_for_session, run_of}
use piy.Store.Sqlite.{get_history, get_run}

module _ (c : Codec) (s : Text) (db : Db) where
  -- A history is read of a session that is there.
  pub get_history-ok :
      any (session_is s) db.sessions ≡ true
      → {items : List HistoryItem} → history_for_session c s db ≡ ok items
      → (get_history c s db).0 ≡ ok items
  unfolding get_history translate_store_errors translated require_session
  get_history-ok here h = rw (here, h) refl

  pub ok-get_history :
      {items : List HistoryItem}
      → (get_history c s db).0 ≡ ok items
      → (any (session_is s) db.sessions ≡ true) × (history_for_session c s db ≡ ok items)
  unfolding get_history translate_store_errors translated require_session
  ok-get_history h = ground arith

  -- Two databases with the same rows of a session.
  pub get_history-same :
      (d : Db)
      → any (session_is s) d.sessions ≡ any (session_is s) db.sessions
      → select (item_of s) d.history ≡ select (item_of s) db.history
      → (get_history c s d).0 ≡ (get_history c s db).0
  unfolding get_history translate_store_errors translated require_session history_for_session
  get_history-same d same rows = elim (Bool-cases (any (session_is s) db.sessions)) [
    | inl t ↦ rw (same, t, rows) refl
    | inr f ↦ rw (same, f) refl
  ]

-- The finished row is found by the keys of the row that it was.
pub find?-finished :
    (v : TerminalRunValues) (row : RunRow) (q : RunRow → Bool) (rows : List RunRow)
    → v.id ≡ row.id
    → finishes v row ≡ true
    → find? q rows ≡ some row
    → All (λ y. (run_is row.id y ≡ false) ⊎ (y ≡ row)) rows
    → find? (owned_run_is row.session_id row.id) (finish_run_rows v rows)
      ≡ some (finished_row v row)
unfolding finish_run_rows
find?-finished v row q [] keys finishing found only = cc
find?-finished v row q (y ∷ ys) keys finishing found (inr same, only) =
    subst
      (λ z.
        find? (owned_run_is row.session_id row.id) (finish_run_rows v (z ∷ ys))
        ≡ some (finished_row v row))
      (sym same) (rw (finishing, text_eq_refl row.session_id, text_eq_refl row.id) refl)
find?-finished v row q (y ∷ ys) keys finishing found (inl other, only) =
    ground (arith, find?-finished v row q ys keys finishing (later (find?-head (q y) found)) only)
  where
    later :
        ((q y ≡ true) × (y ≡ row)) ⊎ ((q y ≡ false) × (find? q ys ≡ some row))
        → find? q ys ≡ some row
    later (inl h) =
        absurd
          (ground (arith, subst (λ z. text_eq z.id row.id ≡ true) (sym h.1) (text_eq_refl row.id)))
    later (inr h) = h.1
