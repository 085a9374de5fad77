-- ===== src/Store/Examples.antt =====
-- Tests of the Store, and the theorems at the sample stores.
use piy.Base.{
  true, false, ℕ, ap, text_eq_iff, Text, codes, text_eq, false, [], ◌∷◌, ◌++◌, ◌≡◌, refl,
}
use piy.Types.Outcome.{aborted}
use piy.Store.Errors.{
  Result, ok, err, store, session_not_found, run_already_ended, StoreError, Done, bind_result,
}
use piy.Store.Errors
use piy.Store.Models.{
  TerminalRun, StartedRun, active_record, terminal_record, new_active_run_record,
}
use piy.Store.Tables.{Db, empty}
use piy.Store.Sqlite.{start_run, finish_run, get_history, get_run}
use piy.Store.Exec.{proceed, pure}
use piy.Store.Operations.{start, perform, perform_all}
use piy.Store.Atomic.{perform_atomic}
use piy.Store.Invariant.{Inv}
use piy.Store.Reachable.{perform_all-Inv}
use piy.Store.Promises.Finish.{recorded_delta, finish_run-commits}
use piy.Store.Promises.Fencing.{finish_run-once, abort_active_run-fences}
use piy.Store.Promises.Start.{start_run-claims}
use piy.Store.Promises.Returns.{start_run-returns}
use piy.Store.Promises.Finishes.{finish_run-returns}
use piy.Store.Promises.Fork.{copies, fork_session-copies}
use piy.Store.Samples.{
  plain, s1, r1, f1, hi, done, draw, draw', before_fork, created, running, ended, finished, killed,
  after_abort, started, forked, new_session, two_items,
}
use piy.Store.Samples.Steps.{
  created-Inv, running-Inv, ended-Inv, start_refused, finished_is, running-history, killed_is,
  started_is, forked_is, ended-history, running-run,
}

perform_all-Inv_example : Inv plain (perform_all plain before_fork empty)
perform_all-Inv_example =
    perform_all-Inv plain before_fork (tt, (tt, ((refl, (refl, (refl, tt))), tt)))

performed : (perform plain (start 2 s1 r1 [] [] []) empty).0 ≡ err (store (session_not_found s1))
unfolding perform
performed = ap (λ t. (proceed {B = Done} (λ _. pure tt) t.0 t.1).0) start_refused

perform_atomic_example : (perform plain (start 2 s1 r1 [] [] []) empty).1 ≡ empty
perform_atomic_example =
    perform_atomic plain (start 2 s1 r1 [] [] []) empty (store (session_not_found s1)) performed

finish_run-commits_example :
    (finished.outcome ≡ done)
    × ((get_history plain s1 ended).0 ≡ ok ([] ++ recorded_delta draw finished 0 0 (hi ∷ hi ∷ [])))
    × ((get_run plain s1 r1 ended).0 ≡ ok (terminal_record finished))
    × ((t : Text)
        → text_eq s1 t ≡ false
        → (get_history plain t ended).0 ≡ (get_history plain t running).0)
finish_run-commits_example =
    finish_run-commits plain 5 draw s1 r1 done (hi ∷ hi ∷ []) running finished ended [] running-Inv
      refl (refl, (refl, tt)) finished_is running-history

finish_run-once_example :
    finish_run plain 9 draw' s1 r1 aborted [] ended ≡ (err (store (run_already_ended r1)), ended)
finish_run-once_example =
    finish_run-once plain 5 9 draw draw' s1 r1 done aborted (hi ∷ hi ∷ []) [] running finished ended
      running-Inv refl finished_is

abort_active_run-fences_example :
    (aborted ≡ aborted)
    × (finish_run plain 9 draw s1 r1 done (hi ∷ []) after_abort
        ≡ (err (store (run_already_ended r1)), after_abort))
abort_active_run-fences_example =
    abort_active_run-fences plain 5 9 draw s1 done (hi ∷ []) running killed after_abort running-Inv
      refl killed_is

start_run-claims_example :
    ((get_history plain s1 created).0 ≡ ok [])
    × ((get_history plain s1 running).0 ≡ ok [])
    × ((get_run plain s1 r1 running).0
        ≡ ok (active_record (new_active_run_record 2 r1 s1 (codes "p") (codes "m") (codes "v"))))
    × (start_run plain 3 s1 f1 [] [] [] running ≡ (err (store (Errors.active_run s1)), running))
start_run-claims_example =
    start_run-claims plain 2 3 s1 r1 (codes "p") (codes "m") (codes "v") f1 [] [] [] created started
      running started_is

fork_session-copies_example :
    ((get_history plain f1 forked).0 ≡ ok (copies draw' f1 0 two_items))
    × ((t : Text)
        → text_eq f1 t ≡ false
        → (get_history plain t forked).0 ≡ (get_history plain t ended).0)
fork_session-copies_example =
    fork_session-copies plain 7 draw' s1 f1 ended new_session forked two_items ended-Inv forked_is
      ended-history

draw-distinct : (i j : ℕ) → text_eq (draw i) (draw j) ≡ true → i ≡ j
draw-distinct i j h = let same : draw i ≡ draw j = (text_eq_iff (draw i) (draw j)).0 h in cc

finish_run-returns_example :
    (r : TerminalRun) × (d : Db) × (finish_run plain 5 draw s1 r1 done (hi ∷ []) running
      ≡ (ok r, d))
finish_run-returns_example =
    finish_run-returns plain running running-Inv 5 draw s1 r1 done
      (new_active_run_record 2 r1 s1 (codes "p") (codes "m") (codes "v")) (hi ∷ []) running-run
      (λ k. refl) draw-distinct

start_run-returns_example :
    (started : StartedRun) × (d : Db) × (start_run plain 2 s1 r1 [] [] [] created ≡ (ok started, d))
unfolding text_eq
start_run-returns_example =
    start_run-returns plain created created-Inv 2 s1 r1 [] [] [] refl refl refl
