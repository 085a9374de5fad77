-- ===== src/Store/Promises/Start.antt =====
-- `start_run` of tile/store/sqlite.py against `get_run` and `get_history`.
use piy.Base.{
  ℕ, Text, text_eq, text_eq_refl, true, Option, none, some, [], ◌∷◌, ◌++◌, any, find?-append_last,
  any-find?-none, any-narrower, ◌≡◌, refl, sym, ap, arith, &&-parts,
}
use mathlib.Core.Path.{subst}
use piy.Store.Errors.{StoreOperation, Result, ok, err, store, active_run, bind_result}
use piy.Store.Errors
use piy.Store.Models.{ActiveRun, StartedRun, active_record, new_active_run_record}
use piy.Store.Rows.{Codec, RunRow, run_values, run_from_row, active_run_from_row, status_eq}
use piy.Store.Tables.{Db, session_is, run_is, owned_run_is, active_in, run_allowed}
use piy.Store.Exec.{
  translate_store_errors, translated, translate_error, transaction, commit_or_rollback,
}
use piy.Store.Statements.{
  history_for_session, require_session, active_run_for_session, found_active, reject_active_run,
  run_of, found_run,
}
use piy.Store.Sqlite.{start_run, get_history, get_run}
use piy.Store.Post.{returns}
use piy.Store.Effects.Opens.{Started, start_run-Started}
use piy.Store.Promises.{get_history-ok}

found_active-none : (row : Option RunRow) → found_active row ≡ ok none → row ≡ none
unfolding found_active bind_result active_run_from_row
found_active-none row h = ground arith

module _ (c : Codec) (db : Db) (r : ActiveRun)
    (allowed : run_allowed (run_values r) db ≡ true) where
  abbrev begun : Db
  begun = record db { runs = db.runs ++ run_values r ∷ [] }

  new_run-found : run_of c r.session_id r.id begun ≡ ok (active_record r)
  unfolding run_of found_run run_allowed run_values run_from_row active_run_from_row status_eq
  new_run-found = ap (found_run c r.session_id r.id) (
      find?-append_last (owned_run_is r.session_id r.id) db.runs (run_values r)
        (any-narrower (run_is r.id) (owned_run_is r.session_id r.id) db.runs
          (λ row h. (&&-parts (text_eq row.session_id r.session_id) (text_eq row.id r.id) h).1)
          (ground arith))
        (rw (text_eq_refl r.session_id, text_eq_refl r.id) refl))

  new_run-active :
      active_run_for_session r.session_id db ≡ ok none
      → active_run_for_session r.session_id begun ≡ ok (some r)
  unfolding active_run_for_session found_active run_values active_run_from_row status_eq bind_result
  new_run-active idle = ap found_active (
      find?-append_last (active_in r.session_id) db.runs (run_values r)
        (any-find?-none (active_in r.session_id) db.runs (found_active-none _ idle))
        (rw (text_eq_refl r.session_id) refl))

  new_run-session : any (session_is r.session_id) db.sessions ≡ true
  unfolding run_allowed run_values
  new_run-session = ground arith

  -- A second start meets the first run.
  start_run-busy :
      (now : ℕ) (id prompt model provider : Text)
      → active_run_for_session r.session_id db ≡ ok none
      → start_run c now r.session_id id prompt model provider begun
        ≡ (err (store (Errors.active_run r.session_id)), begun)
  unfolding start_run translate_store_errors translated translate_error transaction
      commit_or_rollback require_session reject_active_run
  start_run-busy now id prompt model provider idle = rw (new_run-session, new_run-active idle) refl

-- Where `start_run` returns, its snapshot is the history that the session reads as at that moment and
-- after, the new run reads back as the active record with the caller's prompt, model and provider, and
-- a second start on the session raises `ActiveRunError` and changes nothing.
pub start_run-claims :
    (c : Codec) (now now' : ℕ) (s id prompt model provider id' prompt' model' provider' : Text)
    (db : Db) (started : StartedRun) (d : Db)
    → start_run c now s id prompt model provider db ≡ (ok started, d)
    → ((get_history c s db).0 ≡ ok started.committed_history)
      × ((get_history c s d).0 ≡ ok started.committed_history)
      × ((get_run c s id d).0
          ≡ ok (active_record (new_active_run_record now id s prompt model provider)))
      × (start_run c now' s id' prompt' model' provider' d ≡ (err (store (Errors.active_run s)), d))
unfolding get_run translate_store_errors translated new_active_run_record
start_run-claims c now now' s id prompt model provider id' prompt' model' provider' db started d
      returned =
    let e : Started c now s id prompt model provider db started d =
      returns (Started c now s id prompt model provider db)
        (start_run-Started c now s id prompt model provider db) returned in
    let r : ActiveRun = new_active_run_record now id s prompt model provider in
    let allowed : run_allowed (run_values r) db ≡ true =
      subst (λ x. run_allowed (run_values x) db ≡ true) e.run e.allowed in
    let after : d ≡ begun c db r allowed =
      subst (λ x. d ≡ record db { runs = db.runs ++ run_values x ∷ [] }) e.run e.after in
    let here : any (session_is s) db.sessions ≡ true = new_run-session c db r allowed in
    (
      get_history-ok c s db here e.history,
      subst (λ x. (get_history c s x).0 ≡ ok started.committed_history) (sym after)
          (get_history-ok c s (begun c db r allowed) here
            (unfold history_for_session in e.history)),
      ap (translated StoreOperation.get_run) (
          subst (λ x. run_of c s id x ≡ ok (active_record r)) (sym after)
            (new_run-found c db r allowed)),
      subst
          (λ x.
            start_run c now' s id' prompt' model' provider' x
            ≡ (err (store (Errors.active_run s)), x))
          (sym after) (start_run-busy c db r allowed now' id' prompt' model' provider' e.idle),
    )
