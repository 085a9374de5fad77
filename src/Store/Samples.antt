-- ===== src/Store/Samples.antt =====
-- A store with adapters for plain text, before and after a few calls, for tests.
pub mod Steps
use piy.Base.{ℕ, zero, suc, Text, codes, Option, none, some, List, [], ◌∷◌, ◌++◌}
use piy.Types.Conversation.{ConversationItem, user, assistant, tool_result}
use piy.Types.Outcome.{RunOutcome, ResultValue}
use piy.Types.Outcome
use piy.Store.Models.{
  RunStatus, active, completed, aborted, SessionRecord, TerminalRun, StartedRun, HistoryItem,
  new_active_run_record,
}
use piy.Store.Rows.{Codec, SessionRow, RunRow, HistoryRow, user_role}
use piy.Store.Tables.{Db}
use piy.Store.Operations.{Operation, create, start, finish}
use piy.Store.Promises.Finish.{recorded_delta}

-- Adapters that keep text outcomes and user messages, and nothing else.
abbrev pub dump_outcome : RunOutcome → Text
dump_outcome (Outcome.completed (ResultValue.text t)) = 0 ∷ t
dump_outcome (Outcome.completed (ResultValue.json o)) = 2 ∷ []
dump_outcome (Outcome.failed cause) = 2 ∷ []
dump_outcome Outcome.aborted = 1 ∷ []

abbrev pub load_outcome : Text → Option RunOutcome
load_outcome (zero ∷ t) = some (Outcome.completed (ResultValue.text t))
load_outcome (suc zero ∷ t) = some Outcome.aborted
load_outcome other = none

abbrev pub dump_item : ConversationItem → Text
dump_item (user m) = 0 ∷ m.content
dump_item (assistant t) = []
dump_item (tool_result t) = []

abbrev pub load_item : Text → Option ConversationItem
load_item (zero ∷ t) = some (user (record { content = t }))
load_item other = none

abbrev pub plain : Codec
plain = record {
  dump_outcome = dump_outcome;
  load_outcome = load_outcome;
  dump_item = dump_item;
  load_item = load_item;
}

abbrev pub s1 : Text
s1 = codes "s"

abbrev pub r1 : Text
r1 = codes "r"

abbrev pub f1 : Text
f1 = codes "f"

abbrev pub hi : ConversationItem
hi = user (record { content = codes "hi" })

abbrev pub done : RunOutcome
done = Outcome.completed (ResultValue.text (codes "ok"))

-- The i-th id of a draw.
abbrev pub draw : ℕ → Text
draw i = 105 ∷ i ∷ []

abbrev pub draw' : ℕ → Text
draw' i = 106 ∷ i ∷ []

abbrev pub before_start : List Operation
before_start = create 1 s1 ∷ []

abbrev pub before_finish : List Operation
before_finish = create 1 s1 ∷ start 2 s1 r1 (codes "p") (codes "m") (codes "v") ∷ []

abbrev pub before_fork : List Operation
before_fork =
    create 1 s1
    ∷ start 2 s1 r1 (codes "p") (codes "m") (codes "v")
    ∷ finish 5 draw s1 r1 done (hi ∷ hi ∷ [])
    ∷ []

abbrev pub session_row : SessionRow
session_row = record { id = s1; created_at = 1; updated_at = 1 }

abbrev pub active_row : RunRow
active_row = record {
  id = r1;
  session_id = s1;
  prompt = codes "p";
  status = active;
  started_at = 2;
  ended_at = none;
  model = codes "m";
  provider = codes "v";
  outcome_json = none;
}

-- The run's row once it ended at 5.
abbrev pub ended_row : RunStatus → Text → RunRow
ended_row status outcome_json = record active_row {
  status = status;
  ended_at = some 5;
  outcome_json = some outcome_json;
}

-- The row of the item `hi`.
abbrev pub hi_row : Text → Text → ℕ → HistoryRow
hi_row id session_id position = record {
  id = id;
  session_id = session_id;
  run_id = r1;
  position = position;
  role = user_role;
  payload_json = 0 ∷ codes "hi";
  created_at = 5;
}

abbrev pub created : Db
created = record { sessions = session_row ∷ []; runs = []; history = [] }

abbrev pub running : Db
running = record { sessions = session_row ∷ []; runs = active_row ∷ []; history = [] }

abbrev pub ended : Db
ended = record {
  sessions = record session_row { updated_at = 5 } ∷ [];
  runs = ended_row completed (0 ∷ codes "ok") ∷ [];
  history = hi_row (draw 0) s1 0 ∷ hi_row (draw 1) s1 1 ∷ [];
}

abbrev pub after_abort : Db
after_abort = record {
  sessions = record session_row { updated_at = 5 } ∷ [];
  runs = ended_row aborted (1 ∷ []) ∷ [];
  history = [];
}

abbrev pub forked : Db
forked = record {
  sessions = ended.sessions ++ record { id = f1; created_at = 7; updated_at = 7 } ∷ [];
  runs = ended.runs;
  history = ended.history ++ hi_row (draw' 0) f1 0 ∷ hi_row (draw' 1) f1 1 ∷ [];
}

abbrev pub finished : TerminalRun
finished = record {
  id = r1;
  session_id = s1;
  prompt = codes "p";
  started_at = 2;
  model = codes "m";
  provider = codes "v";
  ended_at = 5;
  outcome = done;
}

abbrev pub killed : TerminalRun
killed = record finished { outcome = Outcome.aborted }

abbrev pub started : StartedRun
started = record {
  run = new_active_run_record 2 r1 s1 (codes "p") (codes "m") (codes "v");
  committed_history = [];
}

abbrev pub new_session : SessionRecord
new_session = record { id = f1; created_at = 7; updated_at = 7 }

abbrev pub two_items : List HistoryItem
two_items = recorded_delta draw finished 0 0 (hi ∷ hi ∷ [])
