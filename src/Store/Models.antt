-- ===== src/Store/Models.antt =====
-- tile/store/models.py. A timestamp is the number of microseconds since an epoch, in UTC: that a
-- timestamp carries its zone, and its conversion to UTC, are not modelled.
use piy.Base.{ℕ, max, ltb, if◌then◌else◌, Text, List}
use piy.Types.Conversation.{ConversationItem}
use piy.Types.Outcome.{RunOutcome}
use piy.Store.Errors.{Result, ok, err, backend, value_error}

pub data RunStatus : Type 0 where
  active completed failed aborted : RunStatus

pub record SessionRecord : Type 0 where
  pub id : Text
  pub created_at : ℕ
  pub updated_at : ℕ

-- `_validate_timestamps`
unfoldable pub session_record : Text → ℕ → ℕ → Result SessionRecord
session_record id created_at updated_at =
    if ltb updated_at created_at
    then err (backend value_error)
    else ok (record { id = id; created_at = created_at; updated_at = updated_at })

pub record ActiveRun : Type 0 where
  pub id : Text
  pub session_id : Text
  pub prompt : Text
  pub started_at : ℕ
  pub model : Text
  pub provider : Text

pub record TerminalRun : Type 0 where
  pub id : Text
  pub session_id : Text
  pub prompt : Text
  pub started_at : ℕ
  pub model : Text
  pub provider : Text
  pub ended_at : ℕ
  pub outcome : RunOutcome

-- `_validate_lifecycle`
unfoldable pub terminal_run : TerminalRun → Result TerminalRun
terminal_run r = if ltb r.ended_at r.started_at then err (backend value_error) else ok r

pub data RunRecord : Type 0 where
  active_record : ActiveRun → RunRecord
  terminal_record : TerminalRun → RunRecord

-- A position is a native number, so `_validate_position` has nothing to reject.
pub record HistoryItem : Type 0 where
  pub id : Text
  pub session_id : Text
  pub run_id : Text
  pub position : ℕ
  pub item : ConversationItem
  pub created_at : ℕ

pub record StartedRun : Type 0 where
  pub run : ActiveRun
  pub committed_history : List HistoryItem

unfoldable pub terminal_status_for : RunOutcome → RunStatus
terminal_status_for (RunOutcome.completed value) = completed
terminal_status_for (RunOutcome.failed cause) = failed
terminal_status_for RunOutcome.aborted = aborted

-- `now` is the clock that the function reads.
unfoldable pub new_session_record : ℕ → Text → SessionRecord
new_session_record now session_id = record { id = session_id; created_at = now; updated_at = now }

unfoldable pub new_active_run_record : ℕ → Text → Text → Text → Text → Text → ActiveRun
new_active_run_record now run_id session_id prompt model provider = record {
  id = run_id;
  session_id = session_id;
  prompt = prompt;
  started_at = now;
  model = model;
  provider = provider;
}

unfoldable pub terminal_run_record : ℕ → ActiveRun → RunOutcome → TerminalRun
terminal_run_record now run outcome = record {
  id = run.id;
  session_id = run.session_id;
  prompt = run.prompt;
  started_at = run.started_at;
  model = run.model;
  provider = run.provider;
  ended_at = max now run.started_at;
  outcome = outcome;
}
