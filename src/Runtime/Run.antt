-- ===== src/Runtime/Run.antt =====
-- tile/runtime/run_execution.py: a run from its durable start to its last event. The task of asyncio is
-- how it ended, and the session of the run is the store with the session's id.
pub mod Settles
mod Examples
use piy.Base.{ℕ, Text, codes, Bool, true, false, Option, none, some, List, [], ◌∷◌, ◌++◌}
use piy.Types.Conversation.{ConversationItem, AssistantTurn}
use piy.Types.Events.{AgentEvent, run_start, run_end, run_fault}
use piy.Types.Outcome.{
  ExecutionFailure, turn, execution, RunOutcome, completed, failed, aborted, execution_failure,
}
use piy.Store.Errors.{StoreError, run_already_ended, Error, store, backend, Result, ok, err}
use piy.Store.Models.{StartedRun, TerminalRun, RunRecord, active_record, terminal_record}
use piy.Store.Rows.{Codec}
use piy.Store.Tables.{Db}
use piy.Store.Sqlite.{finish_run, get_run}
use piy.Runtime.History.{RunHistory, start, heal}
use piy.Runtime.Agent.{Live, Attempt, done, turn_failed, raised, emit}

-- How the task ended.
pub data Task : Type 0 where
  cancelled : Task
  ended : Attempt RunOutcome → Task

-- Why the harness cannot ensure durability: an error of the store, or a run that is said to have
-- ended and has no terminal record.
pub data Fault : Type 0 where
  store_fault : Error → Fault
  no_terminal_record : Text → Fault

pub data RunResult : Type 0 where
  outcome : RunOutcome → RunResult
  faulted : Fault → RunResult

pub record Run (W : Type 0) : Type 0 where
  pub id : Text
  pub session_id : Text
  pub live : Live W
  pub result : Option RunResult

-- turn.error_message or "The assistant turn failed."
or_default : Option Text → Text
or_default none = codes "The assistant turn failed."
or_default (some []) = codes "The assistant turn failed."
or_default (some (c ∷ message)) = c ∷ message

-- `_terminal_outcome`, with `_execution_failure`
unfoldable pub terminal_outcome : Task → RunOutcome
unfolding or_default
terminal_outcome cancelled = aborted
terminal_outcome (ended (done o)) = o
terminal_outcome (ended (turn_failed failed_turn)) = failed (
    execution_failure (record {
      origin = turn;
      exception_type = codes "TurnFailedError";
      message = or_default failed_turn.error_message;
    }))
terminal_outcome (ended (raised exception_type message)) = failed (
    execution_failure
      (record { origin = execution; exception_type = exception_type; message = message }))

module _ {W : Type 0} where
  -- `__init__`, from what the store returned
  unfoldable pub accepted : StartedRun → W → Run W
  unfolding start emit
  accepted started world = record {
    id = started.run.id;
    session_id = started.run.session_id;
    live = emit run_start (record {
      world = world;
      events = [];
      history = start started.committed_history started.run.prompt;
    });
    result = none;
  }

-- The last event; `describe` is an error's type name and text.
unfoldable pub terminal_event : (Fault → Text × Text) → RunResult → AgentEvent
terminal_event describe (outcome o) = run_end o
terminal_event describe (faulted fault) =
    let (exception_type, message) = describe fault in run_fault exception_type message

module _ (c : Codec) where
  -- `_ended_outcome`
  abbrev pub recorded_outcome : Text → Result RunRecord → RunResult
  recorded_outcome id (ok (terminal_record r)) = outcome r.outcome
  recorded_outcome id (ok (active_record r)) = faulted (no_terminal_record id)
  recorded_outcome id (err e) = faulted (store_fault e)

  unfoldable pub ended_outcome : Text → Text → Db → RunResult
  ended_outcome session_id id db = recorded_outcome id (get_run c session_id id db).0

  -- except RunAlreadyEndedError, and the errors that `_finalize` catches
  unfoldable pub finish_result : Text → Text → Result TerminalRun → Db → RunResult
  unfolding ended_outcome
  finish_result session_id id (ok r) db = outcome r.outcome
  finish_result session_id id (err (store (run_already_ended run_id))) db =
      ended_outcome session_id id db
  finish_result session_id id (err e) db = faulted (store_fault e)

  module _ {W : Type 0} where
    -- `_finish`: the result, the healed run, and the store after it
    unfoldable pub finish : ℕ → (ℕ → Text) → Run W → Task → Db → RunResult × Run W × Db
    unfolding heal terminal_outcome finish_result
    finish now draw run task db =
        let healed = heal run.live.history in
        let (r, db') =
          finish_run c now draw run.session_id run.id (terminal_outcome task) healed.delta db in
        (
          finish_result run.session_id run.id r db',
          record run { live = record run.live { history = healed } },
          db',
        )

    -- `_finalize`
    unfoldable pub finalize :
        (Fault → Text × Text) → ℕ → (ℕ → Text) → Run W → Task → Db → Run W × Db
    unfolding finish terminal_event emit
    finalize describe now draw run task db =
        let (result, healed, db') = finish now draw run task db in
        (
          record healed {
            result = some result;
            live = emit (terminal_event describe result) healed.live;
          },
          db',
        )
