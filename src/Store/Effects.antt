-- ===== src/Store/Effects.antt =====
-- What each call of tile/store/sqlite.py does to the database when it returns.
pub mod Aborts
pub mod Opens
pub mod Forks
use piy.Base.{
  ℕ, max, Text, Bool, true, false, Option, none, some, List, [], ◌∷◌, ◌++◌, any, find?, select, All,
  ◌≡◌, refl, sym, ap, ◌∙◌, arith, Bool-cases, Option-cases, inl, inr,
}
use mathlib.Core.Path.{subst}
use mathlib.Core.List.{append-nil}
use piy.Types.Conversation.{ConversationItem}
use piy.Types.Outcome.{RunOutcome}
use piy.Types.Outcome
use piy.Store.Errors.{bind_result, Result, ok, err, store, backend, integrity, Done}
use piy.Store.Models.{
  SessionRecord, ActiveRun, TerminalRun, RunRecord, active_record, terminal_record, HistoryItem,
  StartedRun, new_session_record, new_active_run_record, terminal_run_record,
}
use piy.Store.Rows.{
  Codec, RunRow, SessionRow, HistoryRow, session_values, run_values, terminal_run_values,
}
use piy.Store.Tables.{
  Db, session_is, run_is, owned_run_is, active_in, item_of, finishes, finish_run_rows,
  touch_session_rows, next_position, run_allowed, session_allowed, insert_session_row,
  insert_run_row, guarded,
}
use piy.Store.Exec.{Exec, ◌>>=◌, ◌>>◌, pure, read, transaction, translate_store_errors}
use piy.Store.Sqlite.{
  create_session, start_run, finish_run, abort_active_run, abort_found, fork_session, catch_taken,
  taken_session,
}
use piy.Store.Statements.{
  require_session, reject_existing_session, insert_session, active_run_for_session,
  reject_active_run, insert_run, run_exists_error, touch_session, session_of, require_active,
  run_of, found_run, found_active, finalize_active_run, insert_history_delta, delta_rows,
  copied_rows, history_for_session, copy_history_items,
}
use piy.Store.Post.{Post, After, Post-eq, Post-then, Post-mono, Post-translated, transaction-After}
use piy.Store.Invariant.{ItemOwned}
use piy.Store.Invariant.Inserts.{
  guarded-Post, Inserted, KeysStay, KeysStay-nil, insert_history_rows-Inserted,
}
use piy.Store.Invariant.Updates.{ActiveRow, active_run_from_row-ActiveRow, run_from_row-ActiveRow}

-- A query that returned `a`, and changed nothing.
abbrev Read : {A : Type 0} → (Db → Result A) → Db → A → Db → Type 0
Read f db a d = (f db ≡ ok a) × (d ≡ db)

Read-Post : {A : Type 0} (f : Db → Result A) (db : Db) → Post (Read f db) (f db) db
Read-Post f db = Post-eq (Read f db) (f db) db (λ a e. (e, refl))

-- The rows of a delta, behind the last position of their session.
abbrev pub new_rows :
    Codec → (ℕ → Text) → TerminalRun → List ConversationItem → Db → List HistoryRow
new_rows c draw r delta db =
    delta_rows c draw r.id r.session_id r.ended_at 0
      (next_position (select (item_of r.session_id) db.history)) delta

-- The database with the run of `r` finished, and with its session touched.
abbrev pub with_finished : Codec → TerminalRun → Db → Db
with_finished c r db = record db { runs = finish_run_rows (terminal_run_values c r) db.runs }

abbrev pub with_touched : TerminalRun → SessionRecord → Db → Db
with_touched r current db = record db {
  sessions = touch_session_rows r.session_id (max current.updated_at r.ended_at) db.sessions;
}

-- What ended an active run: its row was found by `q`, and it, the history and the session were
-- written together.
pub record Ended (c : Codec) (now : ℕ) (draw : ℕ → Text) (outcome : RunOutcome)
    (delta : List ConversationItem) (q : RunRow → Bool) (db : Db) (r : TerminalRun) (d : Db)
    : Type 0 where
  pub row : RunRow
  pub run : ActiveRun
  pub current : SessionRecord
  pub found : find? q db.runs ≡ some row
  pub columns : ActiveRow row run
  pub terminal : r ≡ terminal_run_record now run outcome
  pub session : session_of r.session_id db ≡ ok current
  pub owned : All (ItemOwned db.sessions (with_finished c r db).runs) (new_rows c draw r delta db)
  pub keys : KeysStay db.history (new_rows c draw r delta db)
  pub after :
      d
      ≡ with_touched r current
          (record (with_finished c r db) { history = db.history ++ new_rows c draw r delta db })

module _ (c : Codec) where
  -- The run that a lookup found active.
  pub run_of-active :
      (s id : Text) (db : Db) {run : ActiveRun}
      → run_of c s id db ≡ ok (active_record run)
      → (row : RunRow) × (find? (owned_run_is s id) db.runs ≡ some row) × ActiveRow row run
  unfolding run_of found_run
  run_of-active s id db {run} e = elim (Option-cases (find? (owned_run_is s id) db.runs)) [
    | inl missing ↦ absurd (ground (arith, missing))
    | inr (row, here) ↦ (
      row,
      here,
      run_from_row-ActiveRow c row
          (subst (λ o. found_run c s id o ≡ ok (active_record run)) here e),
    )
  ]

  finalize-Post :
      (r : TerminalRun) (db : Db)
      → After (λ _ d. d ≡ with_finished c r db) (finalize_active_run c r) db
  unfolding finalize_active_run
  finalize-Post r db = elim (Bool-cases (any (finishes (terminal_run_values c r)) db.runs)) [
    | inl t ↦ rw t refl
    | inr f ↦ rw f tt
  ]

  insert_history_delta-Post :
      (draw : ℕ → Text) (r : TerminalRun) (delta : List ConversationItem) (db : Db)
      → After
          (λ _ d. Inserted db (new_rows c draw r delta db) d)
          (insert_history_delta c draw r delta)
          db
  unfolding insert_history_delta delta_rows
  insert_history_delta-Post draw r [] db = (
    ap (λ l. record db { history = l }) (sym (append-nil db.history)),
    tt,
    KeysStay-nil db.history,
  )
  insert_history_delta-Post draw r (item ∷ items) db =
      insert_history_rows-Inserted (new_rows c draw r (item ∷ items) db) db

touch-Post :
    (r : TerminalRun) (db : Db)
    → After
        (λ _ d.
          (current : SessionRecord) × (session_of r.session_id db ≡ ok current)
          × (d ≡ with_touched r current db))
        (touch_session r)
        db
unfolding touch_session
touch-Post r db =
    Post-then (Read (session_of r.session_id) db) _ _ _ _ (Read-Post (session_of r.session_id) db)
      (λ current d h. (current, h.0, ap (with_touched r current) h.1))

-- What the steps of a call ensure, as the rules for blocks take it.
abbrev Is {ℓ} : {A : Type ℓ} → Db → A → Db → Type 0
Is x a d = d ≡ x

abbrev Touched : TerminalRun → Db → Done → Db → Type 0
Touched r db u d =
    (current : SessionRecord) × (session_of r.session_id db ≡ ok current)
    × (d ≡ with_touched r current db)

abbrev Rows : Db → List HistoryRow → Done → Db → Type 0
Rows db rows u d = Inserted db rows d

abbrev Active : RunRecord → Db → ActiveRun → Db → Type 0
Active found db run d = (found ≡ active_record run) × (d ≡ db)

-- A session that is there, or is not.
abbrev Known : Bool → Text → Db → Done → Db → Type 0
Known b s db u d = (any (session_is s) db.sessions ≡ b) × (d ≡ db)

require_session-Post : (s : Text) (db : Db) → After (Known true s db) (require_session s) db
unfolding require_session
require_session-Post s db = elim (Bool-cases (any (session_is s) db.sessions)) [
  | inl t ↦ rw t (t, refl)
  | inr f ↦ rw f tt
]

reject_existing_session-Post :
    (s : Text) (db : Db) → After (Known false s db) (reject_existing_session s) db
unfolding reject_existing_session
reject_existing_session-Post s db = elim (Bool-cases (any (session_is s) db.sessions)) [
  | inl t ↦ rw t tt
  | inr f ↦ rw f (f, refl)
]

require_active-Post :
    (id : Text) (found : RunRecord) (db : Db)
    → After (λ run d. (found ≡ active_record run) × (d ≡ db)) (require_active id found) db
unfolding require_active
require_active-Post id (active_record r) db = (refl, refl)
require_active-Post id (terminal_record r) db = tt

module _ (c : Codec) (now : ℕ) (draw : ℕ → Text) (outcome : RunOutcome)
    (delta : List ConversationItem) (q : RunRow → Bool) (db : Db) (row : RunRow) (run : ActiveRun)
    (r : TerminalRun) where
  -- The three writes, one after the other.
  Ended-writes :
      find? q db.runs ≡ some row
      → ActiveRow row run
      → r ≡ terminal_run_record now run outcome
      → (current : SessionRecord) (d1 d2 d3 : Db) → d1 ≡ with_finished c r db
      → Inserted d1 (new_rows c draw r delta d1) d2
      → session_of r.session_id d2 ≡ ok current
      → d3 ≡ with_touched r current d2
      → Ended c now draw outcome delta q db r d3
  unfolding session_of
  Ended-writes found columns terminal current d1 d2 d3 e1 ins ses e3 =
      let inserted : Inserted (with_finished c r db) (new_rows c draw r delta db) d2 =
        subst (λ d. Inserted d (new_rows c draw r delta d) d2) e1 ins in
      record {
        row = row;
        run = run;
        current = current;
        found = found;
        columns = columns;
        terminal = terminal;
        session = subst (λ d. session_of r.session_id d ≡ ok current) inserted.0 ses;
        owned = inserted.1;
        keys = inserted.2;
        after = e3 ∙ ap (with_touched r current) inserted.0;
      }

module _ (c : Codec) (now : ℕ) (draw : ℕ → Text) (s id : Text) (outcome : RunOutcome)
    (delta : List ConversationItem) (db : Db) where
  abbrev Finished : TerminalRun → Db → Type 0
  Finished = Ended c now draw outcome delta (owned_run_is s id) db

  -- A finish that returns ended the run that it names.
  pub finish_run-Ended :
      After
        (Ended c now draw outcome delta (owned_run_is s id) db)
        (finish_run c now draw s id outcome delta)
        db
  unfolding finish_run translate_store_errors
  finish_run-Ended = Post-translated Finished _ _ _ (
      transaction-After _ db Finished (
        Post-then (Read (run_of c s id) db) Finished _ _ _ (Read-Post (run_of c s id) db)
          λ found d0 h0.
            Post-then (Active found d0) Finished _ _ _ (require_active-Post id found d0)
              λ run d0' h1.
                let r : TerminalRun = terminal_run_record now run outcome in
                let same : d0' ≡ db = h1.1 ∙ h0.1 in
                let (row, here, columns) = run_of-active c s id db (h0.0 ∙ ap (λ x. ok x) h1.0) in
                Post-then (Is (with_finished c r d0')) Finished _ _ _ (finalize-Post c r d0')
                  λ u d1 e1.
                    Post-then (Rows d1 (new_rows c draw r delta d1)) Finished _ _ _
                      (insert_history_delta-Post c draw r delta d1)
                      λ u' d2 ins.
                        Post-then (Touched r d2) Finished _ _ _ (touch-Post r d2) λ u'' d3 t.
                          Ended-writes c now draw outcome delta (owned_run_is s id) db row run r
                            here columns refl t.0 d1 d2 d3 (e1 ∙ ap (with_finished c r) same) ins
                            t.1 t.2))
