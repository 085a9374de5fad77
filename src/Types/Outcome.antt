-- ===== src/Types/Outcome.antt =====
-- tile/result.py: how a run ends. A pydantic model instance is the JSON that it serializes to.
use piy.Base.{Text}
use piy.Types.Json.{JsonObject}

pub data ResultValue : Type 0 where
  text : Text → ResultValue
  json : JsonObject → ResultValue

pub data ExecutionFailureOrigin : Type 0 where
  turn execution : ExecutionFailureOrigin

pub record ExecutionFailure : Type 0 where
  pub origin : ExecutionFailureOrigin
  pub exception_type : Text
  pub message : Text

pub data FailureCause : Type 0 where
  agent_failure : Text → FailureCause
  execution_failure : ExecutionFailure → FailureCause

-- `Aborted` has one reason, "cancelled".
pub data RunOutcome : Type 0 where
  completed : ResultValue → RunOutcome
  failed : FailureCause → RunOutcome
  aborted : RunOutcome
