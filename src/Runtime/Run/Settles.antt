-- ===== src/Runtime/Run/Settles.antt =====
-- How a run settles against the store.
use piy.Base.{
  some-injective, ℕ, Text, length, some, List, [], ◌∷◌, ◌++◌, All, ◌≡◌, refl, sym, ap, ◌∙◌,
}
use mathlib.Core.Path.{subst}
use piy.Types.Outcome.{RunOutcome}
use piy.Store.Errors.{
  active_run, run_already_ended, session_already_exists, session_not_found, run_already_exists,
  run_not_found, persistence, invalid_history, store, backend, Result, ok, err,
}
use piy.Store.Models.{TerminalRun, RunRecord, HistoryItem, active_record, terminal_record}
use piy.Store.Rows.{Codec}
use piy.Store.Tables.{Db}
use piy.Store.Sqlite.{finish_run, get_run, get_history}
use piy.Store.Invariant.{Inv, OutcomeLoads, ItemLoads}
use piy.Store.Promises.Finish.{finish_run-lookup, recorded_delta, finish_run-commits}
use piy.Store.Promises.Fencing.{finish_run-ended}
use piy.Runtime.History.{RunHistory, heal}
use piy.Runtime.History.Replies.{EveryCallHasResult}
use piy.Runtime.History.Heals.{heal-answers}
use piy.Runtime.Agent.{emit}
use piy.Runtime.Run.{
  Task, Fault, outcome, Run, terminal_outcome, recorded_outcome, ended_outcome, finish_result,
  finish, terminal_event, finalize,
}

-- The store holds the run as ended with the outcome.
abbrev pub Recorded : Codec → Text → Text → RunOutcome → Db → Type 0
Recorded c s id o db =
    (t : TerminalRun) × ((get_run c s id db).0 ≡ ok (terminal_record t)) × (t.outcome ≡ o)

module _ (c : Codec) (s id : Text) (db : Db) where
  outcome-injective : {o o' : RunOutcome} → outcome o ≡ outcome o' → o ≡ o'
  outcome-injective e = cc

  looked_up :
      (r : Result RunRecord) (o : RunOutcome)
      → (get_run c s id db).0 ≡ r
      → recorded_outcome c id r ≡ outcome o
      → Recorded c s id o db
  looked_up (ok (terminal_record t)) o e h = (t, e, outcome-injective h)
  looked_up (ok (active_record t)) o e h = cc
  looked_up (err x) o e h = cc

  -- A result that is an outcome is the one that the store holds.
  finish_result-Recorded :
      (r : Result TerminalRun) (o : RunOutcome)
      → ((t : TerminalRun) → r ≡ ok t → (get_run c s id db).0 ≡ ok (terminal_record t))
      → finish_result c s id r db ≡ outcome o
      → Recorded c s id o db
  unfolding finish_result ended_outcome
  finish_result-Recorded (ok t) o there h = (t, there t refl, outcome-injective h)
  finish_result-Recorded (err (store (run_already_ended x))) o there h =
      looked_up (get_run c s id db).0 o refl h
  finish_result-Recorded (err (store (active_run x))) o there h = cc
  finish_result-Recorded (err (store (session_already_exists x))) o there h = cc
  finish_result-Recorded (err (store (session_not_found x))) o there h = cc
  finish_result-Recorded (err (store (run_already_exists x))) o there h = cc
  finish_result-Recorded (err (store (run_not_found x y))) o there h = cc
  finish_result-Recorded (err (store (persistence x y))) o there h = cc
  finish_result-Recorded (err (store invalid_history)) o there h = cc
  finish_result-Recorded (err (backend x)) o there h = cc

module _ {W : Type 0} (c : Codec) (describe : Fault → Text × Text) (now : ℕ) (draw : ℕ → Text)
    (run : Run W) (task : Task) (db : Db) where
  abbrev settled : Run W × Db
  settled = finalize c describe now draw run task db

  -- Whatever way the task ended, an outcome that a run reports is the one that the store holds for
  -- it, whether this run wrote it or another process ended the run before; and the log of events has
  -- one more, the terminal event of the result. The database is one that satisfies the invariant, and
  -- the JSON adapters load the outcome again.
  pub finalize-Recorded :
      (o : RunOutcome)
      → Inv c db
      → OutcomeLoads c (terminal_outcome task)
      → settled.0.result ≡ some (outcome o)
      → Recorded c run.session_id run.id o settled.1
        × (settled.0.live.events ≡ run.live.events ++ terminal_event describe (outcome o) ∷ [])
  unfolding finalize finish emit
  finalize-Recorded o inv loads h =
      let healed : RunHistory = heal run.live.history in
      let r : Result TerminalRun × Db =
        finish_run c now draw run.session_id run.id (terminal_outcome task) healed.delta db in
      let same : finish_result c run.session_id run.id r.0 r.1 ≡ outcome o = some-injective h in
      (
        finish_result-Recorded c run.session_id run.id r.1 r.0 o
            (λ t e.
              finish_run-lookup c now draw run.session_id run.id (terminal_outcome task)
                healed.delta db t r.1 inv loads (ap (λ x. (x, r.1)) e))
            same,
        ap (λ x. run.live.events ++ terminal_event describe x ∷ []) same,
      )

  -- A run that was ended elsewhere, by an abort or a finish, takes the recorded outcome for its own and
  -- writes nothing.
  pub finalize-yields :
      (t : TerminalRun)
      → (get_run c run.session_id run.id db).0 ≡ ok (terminal_record t)
      → (settled.0.result ≡ some (outcome t.outcome)) × (settled.1 ≡ db)
  unfolding finalize finish finish_result ended_outcome
  finalize-yields t h =
      let late =
        finish_run-ended c now draw run.session_id run.id (terminal_outcome task)
          (heal run.live.history).delta db t h in
      (
        ap (λ x. some (finish_result c run.session_id run.id x.0 x.1)) late
            ∙ ap (λ x. some (recorded_outcome c run.id x)) h,
        ap (λ x. x.1) late,
      )

  -- Where the store accepts the end, the session's history is extended by the run's delta, and every
  -- tool call of that delta has a result with its id in it; the run reports the outcome of its task.
  -- The database is one that satisfies the invariant, and the JSON adapters load the outcome and the
  -- delta again.
  pub finalize-commits :
      (t : TerminalRun) (d : Db) (items : List HistoryItem)
      → Inv c db
      → OutcomeLoads c (terminal_outcome task)
      → All (ItemLoads c) (heal run.live.history).delta
      → finish_run c now draw run.session_id run.id
          (terminal_outcome task)
          (heal run.live.history).delta
          db
        ≡ (ok t, d)
      → (get_history c run.session_id db).0 ≡ ok items
      → ((get_history c run.session_id settled.1).0
          ≡ ok (items ++ recorded_delta draw t 0 (length items) (heal run.live.history).delta))
        × EveryCallHasResult (heal run.live.history).delta
        × (settled.0.result ≡ some (outcome (terminal_outcome task)))
  unfolding finalize finish finish_result
  finalize-commits t d items inv loads items_load returned h =
      let promised =
        finish_run-commits c now draw run.session_id run.id (terminal_outcome task)
          (heal run.live.history).delta db t d items inv loads items_load returned h in
      (
        subst
            (λ x.
              (get_history c run.session_id x).0
              ≡ ok (items ++ recorded_delta draw t 0 (length items) (heal run.live.history).delta))
            (sym (ap (λ x. x.1) returned)) promised.1,
        (heal-answers run.live.history).0,
        ap (λ x. some (finish_result c run.session_id run.id x.0 x.1)) returned
            ∙ ap (λ x. some (outcome x)) promised.0,
      )
