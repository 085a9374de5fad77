-- ===== src/Store/Samples/Steps.antt =====
-- The calls at the sample stores, by running them, one by one.
use piy.Base.{ap, codes, text_eq, some, [], ◌∷◌, ◌≡◌, refl}
use piy.Store.Errors.{ok, err, store, session_not_found, Done, bind_result}
use piy.Store.Models.{
  active_record, terminal_record, new_active_run_record, session_record, terminal_run,
  terminal_status_for, new_session_record, terminal_run_record,
}
use piy.Store.Rows.{
  role_of, role_eq, status_eq, session_values, session_from_row, run_values, active_run_from_row,
  terminal_run_values, run_from_row, history_values, history_from_row,
}
use piy.Store.Tables.{
  Db, empty, check_run, session_allowed, insert_session_row, run_allowed, insert_run_row,
  history_allowed, insert_history_row, insert_history_rows, finish_run_rows, touch_session_rows,
  next_position, insert_by_position, order_by_position,
}
use piy.Store.Sqlite.{
  create_session, start_run, finish_run, abort_active_run, fork_session, get_history, get_run,
  taken_session, catch_taken, abort_found,
}
use piy.Store.Exec.{
  proceed, pure, commit_or_rollback, transaction, translate_error, translated,
  translate_store_errors,
}
use piy.Store.Statements.{
  map_rows, found_session, session_of, require_session, reject_existing_session, insert_session,
  found_active, active_run_for_session, reject_active_run, run_exists_error, insert_run,
  touch_session, delta_rows, copied_rows, found_run, require_active, run_of, finalize_active_run,
  insert_history_delta, history_for_session, copy_history_items,
}
use piy.Store.Operations.{Operation, create, finish, start, perform}
use piy.Store.Invariant.{Inv}
use piy.Store.Reachable.{Loads, perform-Inv, empty-Inv}
use piy.Store.Samples.{
  plain, s1, r1, f1, hi, done, draw, draw', created, running, ended, finished, killed, after_abort,
  started, forked, new_session, two_items,
}
use mathlib.Core.Path.{subst}

pub created_is :
    create_session 1 s1 empty ≡ (ok (record { id = s1; created_at = 1; updated_at = 1 }), created)
unfolding create_session catch_taken taken_session new_session_record session_values insert_session
    insert_session_row session_allowed translate_store_errors translated transaction
    commit_or_rollback text_eq
created_is = refl

pub start_refused :
    start_run plain 2 s1 r1 [] [] [] empty ≡ (err (store (session_not_found s1)), empty)
unfolding start_run require_session translate_error translate_store_errors translated transaction
    commit_or_rollback text_eq
start_refused = refl

pub started_is :
    start_run plain 2 s1 r1 (codes "p") (codes "m") (codes "v") created ≡ (ok started, running)
unfolding start_run require_session active_run_for_session found_active reject_active_run
    history_for_session order_by_position map_rows insert_run run_exists_error insert_run_row
    run_allowed check_run run_values new_active_run_record status_eq translate_store_errors
    translated transaction commit_or_rollback text_eq
started_is = refl

pub finished_is : finish_run plain 5 draw s1 r1 done (hi ∷ hi ∷ []) running ≡ (ok finished, ended)
unfolding finish_run run_of found_run run_from_row active_run_from_row status_eq require_active
    terminal_run_record terminal_run_values terminal_status_for finalize_active_run finish_run_rows
    insert_history_delta delta_rows history_values role_of next_position insert_history_rows
    insert_history_row history_allowed touch_session session_of found_session session_from_row
    session_record touch_session_rows bind_result translate_store_errors translated transaction
    commit_or_rollback text_eq
finished_is = refl

pub killed_is : abort_active_run plain 5 s1 running ≡ (ok (some killed), after_abort)
unfolding abort_active_run abort_found require_session active_run_for_session found_active
    active_run_from_row status_eq terminal_run_record terminal_run_values terminal_status_for
    finalize_active_run finish_run_rows touch_session session_of found_session session_from_row
    session_record touch_session_rows bind_result translate_store_errors translated transaction
    commit_or_rollback text_eq
killed_is = refl

pub forked_is : fork_session plain 7 draw' s1 f1 ended ≡ (ok new_session, forked)
unfolding fork_session require_session reject_existing_session new_session_record session_values
    insert_session insert_session_row session_allowed history_for_session order_by_position
    insert_by_position map_rows history_from_row role_eq role_of bind_result copy_history_items
    copied_rows history_values insert_history_rows insert_history_row history_allowed
    translate_store_errors translated transaction commit_or_rollback text_eq
forked_is = refl

pub running-history : (get_history plain s1 running).0 ≡ ok []
unfolding get_history require_session history_for_session order_by_position map_rows
    translate_store_errors translated transaction commit_or_rollback text_eq
running-history = refl

pub ended-history : (get_history plain s1 ended).0 ≡ ok two_items
unfolding get_history require_session history_for_session order_by_position insert_by_position
    map_rows history_from_row role_eq role_of bind_result translate_store_errors translated
    transaction commit_or_rollback text_eq
ended-history = refl

pub running-run : (get_run plain s1 r1 running).0 ≡ ok (active_record started.run)
unfolding get_run run_of found_run run_from_row active_run_from_row status_eq bind_result
    new_active_run_record translate_store_errors translated transaction commit_or_rollback text_eq
running-run = refl

pub ended-run : (get_run plain s1 r1 ended).0 ≡ ok (terminal_record finished)
unfolding get_run run_of found_run run_from_row status_eq terminal_run terminal_status_for
    bind_result translate_store_errors translated transaction commit_or_rollback text_eq
ended-run = refl

-- The sample stores are reached by calls.
next-Inv :
    (op : Operation) (db d : Db)
    → Inv plain db
    → Loads plain op
    → (perform plain op db).1 ≡ d
    → Inv plain d
next-Inv op db d inv loads e = subst (Inv plain) e (perform-Inv plain db inv op loads)

pub created-Inv : Inv plain created
unfolding perform
created-Inv =
    next-Inv (create 1 s1) empty created (empty-Inv plain) tt
      (ap (λ t. (proceed {B = Done} (λ _. pure tt) t.0 t.1).1) created_is)

pub running-Inv : Inv plain running
unfolding perform
running-Inv =
    next-Inv (start 2 s1 r1 (codes "p") (codes "m") (codes "v")) created running created-Inv tt
      (ap (λ t. (proceed {B = Done} (λ _. pure tt) t.0 t.1).1) started_is)

pub ended-Inv : Inv plain ended
unfolding perform
ended-Inv =
    next-Inv (finish 5 draw s1 r1 done (hi ∷ hi ∷ [])) running ended running-Inv
      (refl, (refl, (refl, tt)))
      (ap (λ t. (proceed {B = Done} (λ _. pure tt) t.0 t.1).1) finished_is)
