-- ===== src/Store/Invariant/Updates.antt =====
-- The update statements against the invariant.
use piy.Base.{
  ℕ, ◌≤◌, Text, text_eq_refl, Bool, false, some, List, [], ◌∷◌, any, find?, count, All, All-map,
  All-unique, ◌⊎◌, inl, inr, ◌≡◌, refl, sym, arith, Bool-cases, if◌then◌else◌,
}
use mathlib.Core.Path.{subst}
use piy.Types.Outcome.{RunOutcome}
use piy.Store.Errors.{ok}
use piy.Store.Rows.{
  Codec, SessionRow, RunRow, TerminalRunValues, terminal_run_values, run_from_row,
  active_run_from_row, status_eq,
}
use piy.Store.Models.{
  active, ActiveRun, TerminalRun, active_record, terminal_record, terminal_run_record,
  terminal_status_for,
}
use piy.Store.Tables.{
  Db, session_is, run_is, active_in, finishes, finished_row, finish_run_rows, touch_session_rows,
}
use piy.Store.Invariant.{Inv, OutcomeLoads, RunDecodes, RunOwned, SessionValid}

-- Neither update touches a key.
count-finish :
    (v : TerminalRunValues) (id : Text) (rows : List RunRow)
    → count (run_is id) (finish_run_rows v rows) ≡ count (run_is id) rows
unfolding finish_run_rows
count-finish v id [] = refl
count-finish v id (r ∷ rows) = ground (arith, count-finish v id rows)

pub any-finish :
    (v : TerminalRunValues) (id : Text) (rows : List RunRow)
    → any (run_is id) (finish_run_rows v rows) ≡ any (run_is id) rows
unfolding finish_run_rows
any-finish v id [] = refl
any-finish v id (r ∷ rows) = ground (arith, any-finish v id rows)

pub any-touch :
    (s id : Text) (t : ℕ) (rows : List SessionRow)
    → any (session_is id) (touch_session_rows s t rows) ≡ any (session_is id) rows
unfolding touch_session_rows
any-touch s id t [] = refl
any-touch s id t (r ∷ rows) = ground (arith, any-touch s id t rows)

count-touch :
    (s id : Text) (t : ℕ) (rows : List SessionRow)
    → count (session_is id) (touch_session_rows s t rows) ≡ count (session_is id) rows
unfolding touch_session_rows
count-touch s id t [] = refl
count-touch s id t (r ∷ rows) = ground (arith, count-touch s id t rows)

-- A finished row is active no more, if its new status is not `active`.
active-finish :
    (v : TerminalRunValues) (s : Text) (rows : List RunRow)
    → status_eq v.status active ≡ false
    → count (active_in s) (finish_run_rows v rows) ≤ count (active_in s) rows
unfolding finish_run_rows
active-finish v s [] e = omega arith
active-finish v s (r ∷ rows) e = ground (arith, active-finish v s rows e)

terminal_status : (o : RunOutcome) → status_eq (terminal_status_for o) active ≡ false
unfolding status_eq terminal_status_for
terminal_status (RunOutcome.completed x) = refl
terminal_status (RunOutcome.failed x) = refl
terminal_status RunOutcome.aborted = refl

-- A row that reads back as an active run has its columns.
pub record ActiveRow (row : RunRow) (run : ActiveRun) : Type 0 where
  pub status : row.status ≡ active
  pub id : run.id ≡ row.id
  pub session_id : run.session_id ≡ row.session_id
  pub prompt : run.prompt ≡ row.prompt
  pub started_at : run.started_at ≡ row.started_at
  pub model : run.model ≡ row.model
  pub provider : run.provider ≡ row.provider

pub active_run_from_row-ActiveRow :
    (row : RunRow) {run : ActiveRun} → active_run_from_row row ≡ ok run → ActiveRow row run
unfolding active_run_from_row
active_run_from_row-ActiveRow row e = ground arith

pub run_from_row-ActiveRow :
    (c : Codec) (row : RunRow) {run : ActiveRun}
    → run_from_row c row ≡ ok (active_record run)
    → ActiveRow row run
unfolding run_from_row
run_from_row-ActiveRow c row e = ground arith

module _ (c : Codec) (now : ℕ) (row : RunRow) (run : ActiveRun) (outcome : RunOutcome) where
  abbrev pub ended : TerminalRun
  ended = terminal_run_record now run outcome

  -- The finished row reads back as the terminal record.
  pub finished_row-decodes :
      ActiveRow row run
      → OutcomeLoads c outcome
      → run_from_row c (finished_row (terminal_run_values c ended) row) ≡ ok (terminal_record ended)
  unfolding run_from_row terminal_run_values terminal_run_record
  finished_row-decodes a loads = ground (arith, terminal_status outcome, loads)

  abbrev updated : RunRow → RunRow
  updated r = let v = terminal_run_values c ended in if finishes v r then finished_row v r else r

  other_row :
      (r : RunRow)
      → ActiveRow row run
      → run_is row.id r ≡ false
      → finishes (terminal_run_values c ended) r ≡ false
  unfolding terminal_run_values terminal_run_record
  other_row r a other = rw (a.id, other)

  same_row :
      ActiveRow row run → OutcomeLoads c outcome → RunDecodes c row → RunDecodes c (updated row)
  same_row a loads h = elim (Bool-cases (finishes (terminal_run_values c ended) row)) [
    | inl is_it ↦ rw is_it (terminal_record ended, finished_row-decodes a loads)
    | inr is_not ↦ rw is_not h
  ]

  updated-decode :
      (r : RunRow)
      → ActiveRow row run
      → OutcomeLoads c outcome
      → RunDecodes c r
      → (run_is row.id r ≡ false) ⊎ (r ≡ row)
      → RunDecodes c (updated r)
  updated-decode r a loads h (inl other) = rw (other_row r a other) h
  updated-decode r a loads h (inr same) =
      subst (λ t. RunDecodes c (updated t)) (sym same)
        (same_row a loads (subst (RunDecodes c) same h))

  finish-decode :
      (rows : List RunRow)
      → ActiveRow row run
      → OutcomeLoads c outcome
      → All (RunDecodes c) rows
      → All (λ r. (run_is row.id r ≡ false) ⊎ (r ≡ row)) rows
      → All (RunDecodes c) (finish_run_rows (terminal_run_values c ended) rows)
  unfolding finish_run_rows
  finish-decode [] a loads h only = tt
  finish-decode (r ∷ rows) a loads h only =
      (updated-decode r a loads h.0 only.0, finish-decode rows a loads h.1 only.1)

owned-finish :
    (sessions : List SessionRow) (v : TerminalRunValues) (rows : List RunRow)
    → All (RunOwned sessions) rows
    → All (RunOwned sessions) (finish_run_rows v rows)
unfolding finish_run_rows
owned-finish sessions v [] h = tt
owned-finish sessions v (r ∷ rows) h = (ground (arith, h.0), owned-finish sessions v rows h.1)

module _ (c : Codec) (db : Db) (inv : Inv c db) (now : ℕ) (row : RunRow) (run : ActiveRun)
    (outcome : RunOutcome) where
  -- The update of a run that was found active.
  pub finish-Inv :
      (q : RunRow → Bool)
      → find? q db.runs ≡ some row
      → ActiveRow row run
      → OutcomeLoads c outcome
      → Inv c (record db {
        runs =
            finish_run_rows (terminal_run_values c (terminal_run_record now run outcome)) db.runs;
      })
  finish-Inv q found a loads = record {
    one_active = λ s. omega (
      arith,
      active-finish (terminal_run_values c (terminal_run_record now run outcome)) s db.runs
          (unfold terminal_run_values terminal_run_record in terminal_status outcome),
      inv.one_active s,
    );
    unique_runs = λ id. rw count-finish (inv.unique_runs id);
    unique_sessions = inv.unique_sessions;
    unique_items = inv.unique_items;
    contiguous = inv.contiguous;
    sessions_valid = inv.sessions_valid;
    runs_decode =
        finish-decode c now row run outcome db.runs a loads inv.runs_decode (
          All-unique (run_is row.id) q db.runs (text_eq_refl row.id) found
            (inv.unique_runs row.id));
    runs_owned = owned-finish db.sessions _ db.runs inv.runs_owned;
    items_decode = inv.items_decode;
    items_owned = All-map _ _ (λ r h. (h.0, rw any-finish h.1)) db.history inv.items_owned;
  }

module _ (c : Codec) (db : Db) (inv : Inv c db) (s : Text) (t : ℕ) where
  pub touch-Inv :
      All SessionValid (touch_session_rows s t db.sessions)
      → Inv c (record db { sessions = touch_session_rows s t db.sessions })
  touch-Inv valid = record {
    one_active = inv.one_active;
    unique_runs = inv.unique_runs;
    unique_sessions = λ id. rw count-touch (inv.unique_sessions id);
    unique_items = inv.unique_items;
    contiguous = inv.contiguous;
    sessions_valid = valid;
    runs_decode = inv.runs_decode;
    runs_owned = All-map _ _ (λ r h. rw any-touch h) db.runs inv.runs_owned;
    items_decode = inv.items_decode;
    items_owned = All-map _ _ (λ r h. (rw any-touch h.0, h.1)) db.history inv.items_owned;
  }
