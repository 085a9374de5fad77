-- ===== src/Store/Tables.antt =====
-- The tables and constraints of tile/store/schema.py, and the statements of tile/store/sqlite.py on
-- them. A statement that breaks a constraint raises `IntegrityError` and changes nothing; that the
-- backend fails otherwise, full disks and locks, is not modelled. A `SELECT` without `ORDER BY` scans
-- in insertion order.
use piy.Base.{
  ℕ, ◌+◌, max, Text, text_eq, Bool, true, false, not, ◌&&◌, ◌||◌, Option, none, some, List, [], ◌∷◌,
  ◌++◌, any, leb, ltb, ◌==◌, if◌then◌else◌,
}
use piy.Store.Errors.{Done, Result, ok, err, backend, integrity}
use piy.Store.Models.{RunStatus, active}
use piy.Store.Rows.{SessionRow, RunRow, HistoryRow, TerminalRunValues, status_eq}

pub record Db : Type 0 where
  pub sessions : List SessionRow
  pub runs : List RunRow
  pub history : List HistoryRow

abbrev pub empty : Db
empty = record { sessions = []; runs = []; history = [] }

-- Rows by their keys.
abbrev pub session_is : Text → SessionRow → Bool
session_is id row = text_eq row.id id

abbrev pub run_is : Text → RunRow → Bool
run_is id row = text_eq row.id id

-- session_id = ? AND id = ?
abbrev pub owned_run_is : Text → Text → RunRow → Bool
owned_run_is session_id id row = text_eq row.session_id session_id && text_eq row.id id

-- session_id = ? AND status = 'active'
abbrev pub active_in : Text → RunRow → Bool
active_in session_id row = text_eq row.session_id session_id && status_eq row.status active

abbrev pub item_of : Text → HistoryRow → Bool
item_of session_id row = text_eq row.session_id session_id

-- The CHECK of the run table: an active run has no end and no outcome, any other has both.
unfoldable pub check_run : RunStatus → Option ℕ → Option Text → Bool
check_run active none none = true
check_run active ended_at outcome_json = false
check_run status (some ended_at) (some outcome_json) = true
check_run status ended_at outcome_json = false

-- Whether a statement is allowed, and the database after it.
abbrev pub guarded : Bool → Db → Db → Result Done × Db
guarded true after before = (ok tt, after)
guarded false after before = (err (backend integrity), before)

-- PRIMARY KEY (id)
unfoldable pub session_allowed : SessionRow → Db → Bool
session_allowed row db = not (any (session_is row.id) db.sessions)

unfoldable pub insert_session_row : SessionRow → Db → Result Done × Db
insert_session_row row db =
    guarded (session_allowed row db) (record db { sessions = db.sessions ++ row ∷ [] }) db

-- PRIMARY KEY (id), CHECK, FOREIGN KEY (session_id), and the index one_active_run_per_session
unfoldable pub run_allowed : RunRow → Db → Bool
run_allowed row db =
    not (any (run_is row.id) db.runs)
    && check_run row.status row.ended_at row.outcome_json
    && any (session_is row.session_id) db.sessions
    && not (status_eq row.status active && any (active_in row.session_id) db.runs)

unfoldable pub insert_run_row : RunRow → Db → Result Done × Db
insert_run_row row db = guarded (run_allowed row db) (record db { runs = db.runs ++ row ∷ [] }) db

-- PRIMARY KEY (id), UNIQUE (session_id, position), FOREIGN KEY (session_id), FOREIGN KEY (run_id)
unfoldable pub history_allowed : HistoryRow → Db → Bool
history_allowed row db =
    not (any (λ r. text_eq r.id row.id) db.history)
    && not (any (λ r. text_eq r.session_id row.session_id && r.position == row.position) db.history)
    && any (session_is row.session_id) db.sessions
    && any (run_is row.run_id) db.runs

unfoldable pub insert_history_row : HistoryRow → Db → Result Done × Db
insert_history_row row db =
    guarded (history_allowed row db) (record db { history = db.history ++ row ∷ [] }) db

-- `executemany` of the history statement: a row that is refused ends it.
abbrev pub after_insert : (Db → Result Done × Db) → Result Done → Db → Result Done × Db
after_insert more (ok u) db = more db
after_insert more (err e) db = (err e, db)

unfoldable pub insert_history_rows : List HistoryRow → Db → Result Done × Db
insert_history_rows [] db = (ok tt, db)
insert_history_rows (row ∷ rows) db =
    let (r, db') = insert_history_row row db in after_insert (insert_history_rows rows) r db'

-- WHERE id = ? AND session_id = ? AND status = 'active'
abbrev pub finishes : TerminalRunValues → RunRow → Bool
finishes v row =
    text_eq row.id v.id && text_eq row.session_id v.session_id && status_eq row.status active

-- SET status = ?, ended_at = ?, outcome_json = ?
abbrev pub finished_row : TerminalRunValues → RunRow → RunRow
finished_row v row = record row {
  status = v.status;
  ended_at = some v.ended_at;
  outcome_json = some v.outcome_json;
}

-- The new rows meet the CHECK, since the status is a terminal one and both values are given.
unfoldable pub finish_run_rows : TerminalRunValues → List RunRow → List RunRow
finish_run_rows v [] = []
finish_run_rows v (row ∷ rows) =
    (if finishes v row then finished_row v row else row) ∷ finish_run_rows v rows

-- UPDATE sessions SET updated_at = ? WHERE id = ?
unfoldable pub touch_session_rows : Text → ℕ → List SessionRow → List SessionRow
touch_session_rows id updated_at [] = []
touch_session_rows id updated_at (row ∷ rows) =
    (if session_is id row then record row { updated_at = updated_at } else row)
    ∷ touch_session_rows id updated_at rows

-- COALESCE(MAX(position), -1) + 1, over the rows of a session
unfoldable pub next_position : List HistoryRow → ℕ
next_position [] = 0
next_position (row ∷ rows) = max (row.position + 1) (next_position rows)

-- ORDER BY position
unfoldable pub insert_by_position : HistoryRow → List HistoryRow → List HistoryRow
insert_by_position row [] = row ∷ []
insert_by_position row (other ∷ rows) =
    if leb row.position other.position
    then row ∷ other ∷ rows
    else other ∷ insert_by_position row rows

unfoldable pub order_by_position : List HistoryRow → List HistoryRow
order_by_position [] = []
order_by_position (row ∷ rows) = insert_by_position row (order_by_position rows)

-- ORDER BY created_at, id: ids compare by their code points, as their UTF-8 bytes do.
text_le : Text → Text → Bool
text_le [] t = true
text_le (c ∷ s) [] = false
text_le (c ∷ s) (d ∷ t) = ltb c d || (c == d && text_le s t)

session_le : SessionRow → SessionRow → Bool
unfolding text_le
session_le a b =
    ltb a.created_at b.created_at || (a.created_at == b.created_at && text_le a.id b.id)

insert_session_in_order : SessionRow → List SessionRow → List SessionRow
insert_session_in_order row [] = row ∷ []
insert_session_in_order row (other ∷ rows) =
    if session_le row other then row ∷ other ∷ rows else other ∷ insert_session_in_order row rows

unfoldable pub order_sessions : List SessionRow → List SessionRow
unfolding insert_session_in_order session_le
order_sessions [] = []
order_sessions (row ∷ rows) = insert_session_in_order row (order_sessions rows)

-- ORDER BY started_at: rows that tie keep the order of the scan.
insert_run_in_order : RunRow → List RunRow → List RunRow
insert_run_in_order row [] = row ∷ []
insert_run_in_order row (other ∷ rows) =
    if leb row.started_at other.started_at
    then row ∷ other ∷ rows
    else other ∷ insert_run_in_order row rows

unfoldable pub order_runs : List RunRow → List RunRow
unfolding insert_run_in_order
order_runs [] = []
order_runs (row ∷ rows) = insert_run_in_order row (order_runs rows)
