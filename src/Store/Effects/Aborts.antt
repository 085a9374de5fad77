-- ===== src/Store/Effects/Aborts.antt =====
-- `abort_active_run` of tile/store/sqlite.py, where it returns.
use piy.Base.{
  ℕ, Text, true, Option, none, some, [], find?, ◌≡◌, refl, sym, ◌∙◌, arith, Option-cases, inl, inr,
}
use mathlib.Core.Path.{subst}
use piy.Types.Outcome.{RunOutcome}
use piy.Store.Errors.{bind_result, Result, ok, err}
use piy.Store.Models.{ActiveRun, TerminalRun, terminal_run_record}
use piy.Store.Rows.{active_run_from_row, Codec, RunRow}
use piy.Store.Tables.{Db, active_in}
use piy.Store.Exec.{translate_store_errors}
use piy.Store.Sqlite.{abort_active_run, abort_found}
use piy.Store.Statements.{active_run_for_session, found_active, insert_history_delta}
use piy.Store.Post.{After, Post-then, Post-translated, transaction-After}
use piy.Store.Invariant.Updates.{ActiveRow, active_run_from_row-ActiveRow}
use piy.Store.Effects.{
  Known, require_session-Post, Read, Read-Post, Is, Touched, with_finished, Ended, finalize-Post,
  insert_history_delta-Post, touch-Post, Ended-writes,
}

-- What an abort does: nothing where no run is active.
abbrev pub Aborted : Codec → ℕ → Text → Db → Option TerminalRun → Db → Type 0
Aborted c now s db none d = d ≡ db
Aborted c now s db (some r) d = Ended c now (λ i. []) RunOutcome.aborted [] (active_in s) db r d

ok_some :
    (r : Result ActiveRun) {run : ActiveRun}
    → bind_result r (λ x. ok (some x)) ≡ ok (some run)
    → r ≡ ok run
unfolding bind_result
ok_some (ok x) h = cc
ok_some (err x) h = cc

active_run_of :
    (s : Text) (db : Db) {run : ActiveRun}
    → active_run_for_session s db ≡ ok (some run)
    → (row : RunRow) × (find? (active_in s) db.runs ≡ some row) × ActiveRow row run
unfolding active_run_for_session found_active
active_run_of s db {run} e = elim (Option-cases (find? (active_in s) db.runs)) [
  | inl missing ↦ absurd (ground (arith, missing))
  | inr (row, here) ↦ (
    row,
    here,
    active_run_from_row-ActiveRow row
        (ok_some (active_run_from_row row) (subst (λ o. found_active o ≡ ok (some run)) here e)),
  )
]

module _ (c : Codec) (now : ℕ) (s : Text) (db : Db) where
  abort_found-Post :
      (running : Option ActiveRun)
      → active_run_for_session s db ≡ ok running
      → After (Aborted c now s db) (abort_found c now running) db
  unfolding abort_found insert_history_delta
  abort_found-Post none e = refl
  abort_found-Post (some run) e =
      let r : TerminalRun = terminal_run_record now run RunOutcome.aborted in
      let (row, here, columns) = active_run_of s db e in
      Post-then (Is (with_finished c r db)) (Aborted c now s db) _ _ _ (finalize-Post c r db)
        λ u d1 e1. Post-then (Touched r d1) (Aborted c now s db) _ _ _ (touch-Post r d1) λ u' d3 t.
          Ended-writes c now (λ i. []) RunOutcome.aborted [] (active_in s) db row run r here columns
            refl t.0 d1 d1 d3 e1 (insert_history_delta-Post c (λ i. []) r [] d1) t.1 t.2

  pub abort_active_run-Aborted : After (Aborted c now s db) (abort_active_run c now s) db
  unfolding abort_active_run translate_store_errors
  abort_active_run-Aborted = Post-translated (Aborted c now s db) _ _ _ (
      transaction-After _ db (Aborted c now s db) (
        Post-then (Known true s db) (Aborted c now s db) _ _ _ (require_session-Post s db)
          λ u d0 h0.
            Post-then (Read (active_run_for_session s) d0) (Aborted c now s db) _ _ _
              (Read-Post (active_run_for_session s) d0)
              λ running d1 h1.
                subst (λ d. After (Aborted c now s db) (abort_found c now running) d)
                  (sym (h1.1 ∙ h0.1))
                  (abort_found-Post running
                    (subst (λ d. active_run_for_session s d ≡ ok running) h0.1 h1.0))))
