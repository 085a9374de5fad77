-- ===== src/Store/Rows.antt =====
-- tile/store/serialization.py: records to rows and back. The JSON adapters are pydantic's: a record
-- of functions.
use piy.Base.{ℕ, Text, Bool, true, false, Option, none, some, if◌then◌else◌}
use piy.Types.Conversation.{ConversationItem, user, assistant, tool_result}
use piy.Types.Outcome.{RunOutcome}
use piy.Store.Errors.{Result, ok, err, store, backend, value_error, invalid_history, bind_result}
use piy.Store.Models.{
  RunStatus, active, completed, failed, aborted, SessionRecord, session_record, ActiveRun,
  TerminalRun, terminal_run, RunRecord, active_record, terminal_record, HistoryItem,
  terminal_status_for,
}

pub record Codec : Type 0 where
  pub dump_outcome : RunOutcome → Text
  pub load_outcome : Text → Option RunOutcome
  pub dump_item : ConversationItem → Text
  pub load_item : Text → Option ConversationItem

pub data Role : Type 0 where
  user_role assistant_role tool_result_role : Role

-- item.role
unfoldable pub role_of : ConversationItem → Role
role_of (user m) = user_role
role_of (assistant t) = assistant_role
role_of (tool_result t) = tool_result_role

unfoldable pub role_eq : Role → Role → Bool
role_eq user_role user_role = true
role_eq assistant_role assistant_role = true
role_eq tool_result_role tool_result_role = true
role_eq a b = false

unfoldable pub status_eq : RunStatus → RunStatus → Bool
status_eq active active = true
status_eq completed completed = true
status_eq failed failed = true
status_eq aborted aborted = true
status_eq a b = false

pub record SessionRow : Type 0 where
  pub id : Text
  pub created_at : ℕ
  pub updated_at : ℕ

pub record RunRow : Type 0 where
  pub id : Text
  pub session_id : Text
  pub prompt : Text
  pub status : RunStatus
  pub started_at : ℕ
  pub ended_at : Option ℕ
  pub model : Text
  pub provider : Text
  pub outcome_json : Option Text

pub record HistoryRow : Type 0 where
  pub id : Text
  pub session_id : Text
  pub run_id : Text
  pub position : ℕ
  pub role : Role
  pub payload_json : Text
  pub created_at : ℕ

unfoldable pub session_values : SessionRecord → SessionRow
session_values r = record { id = r.id; created_at = r.created_at; updated_at = r.updated_at }

unfoldable pub session_from_row : SessionRow → Result SessionRecord
unfolding session_record
session_from_row row = session_record row.id row.created_at row.updated_at

unfoldable pub run_values : ActiveRun → RunRow
run_values r = record {
  id = r.id;
  session_id = r.session_id;
  prompt = r.prompt;
  status = active;
  started_at = r.started_at;
  ended_at = none;
  model = r.model;
  provider = r.provider;
  outcome_json = none;
}

-- The two tests of `active_run_from_row`, by clauses on what they read.
active_run_columns : RunRow → RunStatus → Option ℕ → Option Text → Result ActiveRun
active_run_columns row active none none = ok (record {
  id = row.id;
  session_id = row.session_id;
  prompt = row.prompt;
  started_at = row.started_at;
  model = row.model;
  provider = row.provider;
})
active_run_columns row status ended_at outcome_json = err (backend value_error)

unfoldable pub active_run_from_row : RunRow → Result ActiveRun
unfolding active_run_columns
active_run_from_row row = active_run_columns row row.status row.ended_at row.outcome_json

pub record TerminalRunValues : Type 0 where
  pub status : RunStatus
  pub ended_at : ℕ
  pub outcome_json : Text
  pub id : Text
  pub session_id : Text

-- A value that fails to load is a `ValueError`.
loaded : {A : Type 0} → Option A → Result A
loaded none = err (backend value_error)
loaded (some a) = ok a

-- The stored status must be the one that the outcome implies.
check_status : RunStatus → TerminalRun → Result RunRecord
unfolding status_eq terminal_status_for
check_status status r =
    if status_eq (terminal_status_for r.outcome) status
    then ok (terminal_record r)
    else err (backend value_error)

module _ (c : Codec) where
  unfoldable pub terminal_run_values : TerminalRun → TerminalRunValues
  unfolding terminal_status_for
  terminal_run_values r = record {
    status = terminal_status_for r.outcome;
    ended_at = r.ended_at;
    outcome_json = c.dump_outcome r.outcome;
    id = r.id;
    session_id = r.session_id;
  }

  terminal_run_columns : RunRow → Option ℕ → Option Text → Result RunRecord
  unfolding terminal_run
  terminal_run_columns row (some ended_at) (some outcome_json) =
      bind_result (loaded (c.load_outcome outcome_json)) λ outcome.
        bind_result
          (terminal_run (record {
            id = row.id;
            session_id = row.session_id;
            prompt = row.prompt;
            started_at = row.started_at;
            model = row.model;
            provider = row.provider;
            ended_at = ended_at;
            outcome = outcome;
          }))
          (check_status row.status)
  terminal_run_columns row ended_at outcome_json = err (backend value_error)

  unfoldable pub run_from_row : RunRow → Result RunRecord
  unfolding active_run_from_row terminal_run_columns loaded check_status bind_result status_eq
  run_from_row row =
      if status_eq row.status active
      then bind_result (active_run_from_row row) (λ r. ok (active_record r))
      else terminal_run_columns row row.ended_at row.outcome_json

  -- `id` is the `uuid4` that the function draws.
  unfoldable pub history_values : Text → ConversationItem → Text → Text → ℕ → ℕ → HistoryRow
  unfolding role_of
  history_values id item run_id session_id position created_at = record {
    id = id;
    session_id = session_id;
    run_id = run_id;
    position = position;
    role = role_of item;
    payload_json = c.dump_item item;
    created_at = created_at;
  }

  unfoldable pub history_from_row : HistoryRow → Result HistoryItem
  unfolding role_of role_eq loaded bind_result
  history_from_row row = bind_result (loaded (c.load_item row.payload_json)) λ item.
      if role_eq (role_of item) row.role
      then ok (record {
        id = row.id;
        session_id = row.session_id;
        run_id = row.run_id;
        position = row.position;
        item = item;
        created_at = row.created_at;
      })
      else err (store invalid_history)
