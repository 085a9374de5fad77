-- ===== src/Store/Invariant.antt =====
-- What holds of a database between two calls.
pub mod Inserts
pub mod Updates
pub mod Deltas
pub mod Copies
use piy.Base.{
  ℕ, zero, suc, ◌+◌, ◌≤◌, Text, text_eq, Bool, true, false, Option, none, some, List, [], ◌∷◌, any,
  select, count, All, ◌≡◌,
}
use piy.Types.Conversation.{ConversationItem}
use piy.Types.Outcome.{RunOutcome}
use piy.Store.Errors.{Result, ok}
use piy.Store.Models.{RunRecord, HistoryItem}
use piy.Store.Rows.{Codec, SessionRow, RunRow, HistoryRow, run_from_row, history_from_row}
use piy.Store.Tables.{Db, session_is, run_is, active_in, item_of}

-- The positions of the rows are n, n + 1, and so on.
abbrev pub From : ℕ → List HistoryRow → Type 0
From n [] = Unit
From n (row ∷ rows) = (row.position ≡ n) × From (suc n) rows

-- Values whose JSON loads back as they were dumped.
abbrev pub OutcomeLoads : Codec → RunOutcome → Type 0
OutcomeLoads c o = c.load_outcome (c.dump_outcome o) ≡ some o

abbrev pub ItemLoads : Codec → ConversationItem → Type 0
ItemLoads c i = c.load_item (c.dump_item i) ≡ some i

-- The row reads back as a record.
abbrev pub RunDecodes : Codec → RunRow → Type 0
RunDecodes c row = (r : RunRecord) × (run_from_row c row ≡ ok r)

abbrev pub ItemDecodes : Codec → HistoryRow → Type 0
ItemDecodes c row = (i : HistoryItem) × (history_from_row c row ≡ ok i) × ItemLoads c i.item

abbrev pub RunOwned : List SessionRow → RunRow → Type 0
RunOwned sessions row = any (session_is row.session_id) sessions ≡ true

abbrev pub ItemOwned : List SessionRow → List RunRow → HistoryRow → Type 0
ItemOwned sessions runs row =
    (any (session_is row.session_id) sessions ≡ true) × (any (run_is row.run_id) runs ≡ true)

abbrev pub SessionValid : SessionRow → Type 0
SessionValid row = row.created_at ≤ row.updated_at

-- No two rows have the same id.
abbrev pub item_is : Text → HistoryRow → Bool
item_is id row = text_eq row.id id

abbrev pub UniqueItems : List HistoryRow → Type 0
UniqueItems rows = (id : Text) → count (item_is id) rows ≤ 1

pub record Inv (c : Codec) (db : Db) : Type 0 where
  pub one_active : (s : Text) → count (active_in s) db.runs ≤ 1
  pub unique_runs : (id : Text) → count (run_is id) db.runs ≤ 1
  pub unique_sessions : (id : Text) → count (session_is id) db.sessions ≤ 1
  pub unique_items : UniqueItems db.history
  pub contiguous : (s : Text) → From 0 (select (item_of s) db.history)
  pub sessions_valid : All SessionValid db.sessions
  pub runs_decode : All (RunDecodes c) db.runs
  pub runs_owned : All (RunOwned db.sessions) db.runs
  pub items_decode : All (ItemDecodes c) db.history
  pub items_owned : All (ItemOwned db.sessions db.runs) db.history
