-- ===== src/Store/Promises/Fencing.antt =====
-- An ended run in tile/store/sqlite.py: it does not end again.
use piy.Base.{ℕ, Text, some, List, [], ◌≡◌, refl, ap}
use piy.Types.Conversation.{ConversationItem}
use piy.Types.Outcome.{RunOutcome}
use piy.Store.Errors.{Result, StoreOperation, ok, err, store, run_already_ended}
use piy.Store.Models.{terminal_run_record, TerminalRun, terminal_record}
use piy.Store.Rows.{Codec}
use piy.Store.Tables.{Db, owned_run_is, active_in}
use piy.Store.Exec.{
  translate_store_errors, translated, translate_error, transaction, commit_or_rollback,
}
use piy.Store.Statements.{run_of, require_active}
use piy.Store.Sqlite.{get_run, finish_run, abort_active_run}
use piy.Store.Post.{returns}
use piy.Store.Invariant.{Inv, OutcomeLoads}
use piy.Store.Effects.{Ended, finish_run-Ended}
use piy.Store.Effects.Aborts.{Aborted, abort_active_run-Aborted}
use piy.Store.Promises.Finish.{Ended-lookup, Ended-run}

-- A finish on a run that reads as ended.
finish_run-late :
    (c : Codec) (now : ℕ) (draw : ℕ → Text) (s id : Text) (outcome : RunOutcome)
    (delta : List ConversationItem) (d : Db) (r : TerminalRun)
    → run_of c s id d ≡ ok (terminal_record r)
    → finish_run c now draw s id outcome delta d ≡ (err (store (run_already_ended id)), d)
unfolding finish_run translate_store_errors translated translate_error transaction
    commit_or_rollback require_active
finish_run-late c now draw s id outcome delta d r h = rw h refl

pub translated-ok {ℓ} :
    {A : Type ℓ} (operation : StoreOperation) (r : Result A) {a : A}
    → translated operation r ≡ ok a
    → r ≡ ok a
unfolding translated
translated-ok operation (ok x) h = h
translated-ok operation (err x) h = cc

pub finish_run-ended :
    (c : Codec) (now : ℕ) (draw : ℕ → Text) (s id : Text) (outcome : RunOutcome)
    (delta : List ConversationItem) (d : Db) (r : TerminalRun)
    → (get_run c s id d).0 ≡ ok (terminal_record r)
    → finish_run c now draw s id outcome delta d ≡ (err (store (run_already_ended id)), d)
unfolding get_run translate_store_errors
finish_run-ended c now draw s id outcome delta d r h =
    finish_run-late c now draw s id outcome delta d r
      (translated-ok StoreOperation.get_run (run_of c s id d) h)

-- A run ends once: after a `finish_run` that returned, another one on the same run, with whatever
-- outcome and delta, raises `RunAlreadyEndedError` and leaves the database as it is. The first one
-- was on a database that satisfies the invariant, and the JSON adapters load its outcome again.
pub finish_run-once :
    (c : Codec) (now now' : ℕ) (draw draw' : ℕ → Text) (s id : Text) (outcome outcome' : RunOutcome)
    (delta delta' : List ConversationItem) (db : Db) (r : TerminalRun) (d : Db)
    → Inv c db
    → OutcomeLoads c outcome
    → finish_run c now draw s id outcome delta db ≡ (ok r, d)
    → finish_run c now' draw' s id outcome' delta' d ≡ (err (store (run_already_ended id)), d)
finish_run-once c now now' draw draw' s id outcome outcome' delta delta' db r d inv loads returned =
    let e : Ended c now draw outcome delta (owned_run_is s id) db r d =
      returns (Ended c now draw outcome delta (owned_run_is s id) db)
        (finish_run-Ended c now draw s id outcome delta db) returned in
    finish_run-late c now' draw' s id outcome' delta' d r
      (Ended-lookup c now draw s id outcome delta db r d inv loads e)

-- An abort fences the process that still runs: after `abort_active_run` ended a run, a late
-- `finish_run` on it raises `RunAlreadyEndedError` and leaves the database as it is, so its delta is
-- never committed. The abort was on a database that satisfies the invariant, and the JSON adapters
-- load an abort again.
pub abort_active_run-fences :
    (c : Codec) (now now' : ℕ) (draw : ℕ → Text) (s : Text) (outcome : RunOutcome)
    (delta : List ConversationItem) (db : Db) (r : TerminalRun) (d : Db)
    → Inv c db
    → OutcomeLoads c RunOutcome.aborted
    → abort_active_run c now s db ≡ (ok (some r), d)
    → (r.outcome ≡ RunOutcome.aborted)
      × (finish_run c now' draw r.session_id r.id outcome delta d
          ≡ (err (store (run_already_ended r.id)), d))
unfolding terminal_run_record
abort_active_run-fences c now now' draw s outcome delta db r d inv loads returned =
    let e : Ended c now (λ i. []) RunOutcome.aborted [] (active_in s) db r d =
      returns (Aborted c now s db) (abort_active_run-Aborted c now s db) returned in
    (
      ap (λ x. x.outcome) e.terminal,
      finish_run-late c now' draw r.session_id r.id outcome delta d r
          (Ended-run c now (λ i. []) RunOutcome.aborted [] (active_in s) db inv r d e loads),
    )
