-- ===== src/Store/Effects/Opens.antt =====
-- `create_session` and `start_run` of tile/store/sqlite.py, where they return.
use piy.Base.{
  ℕ, Text, true, Option, none, some, [], ◌∷◌, ◌++◌, any, ◌≡◌, refl, ap, ◌∙◌, Bool-cases, inl, inr,
}
use mathlib.Core.Path.{subst}
use piy.Store.Errors.{value_error, Result, ok, err, store, backend, integrity, Done}
use piy.Store.Models.{
  SessionRecord, ActiveRun, StartedRun, new_session_record, new_active_run_record,
}
use piy.Store.Rows.{Codec, session_values, run_values}
use piy.Store.Tables.{Db, run_is, run_allowed, session_allowed, insert_session_row, insert_run_row}
use piy.Store.Exec.{translate_store_errors}
use piy.Store.Sqlite.{create_session, start_run, catch_taken, taken_session}
use piy.Store.Statements.{
  insert_session, active_run_for_session, reject_active_run, insert_run, run_exists_error,
  history_for_session,
}
use piy.Store.Post.{Post, After, Post-then, Post-translated, transaction-After}
use piy.Store.Invariant.Inserts.{guarded-Post}
use piy.Store.Effects.{Known, require_session-Post, Read, Read-Post}

-- A new session.
abbrev pub Created : ℕ → Text → Db → SessionRecord → Db → Type 0
Created now s db r d =
    (r ≡ new_session_record now s)
    × (session_allowed (session_values (new_session_record now s)) db ≡ true)
    × (d ≡ record db { sessions = db.sessions ++ session_values (new_session_record now s) ∷ [] })

taken_session-Post :
    (Q : SessionRecord → Db → Type 0) (s : Text) (r : Result SessionRecord) (d : Db)
    → Post Q r d
    → Post Q (taken_session s r) d
unfolding taken_session
taken_session-Post Q s (ok x) d h = h
taken_session-Post Q s (err (store x)) d h = tt
taken_session-Post Q s (err (backend integrity)) d h = tt
taken_session-Post Q s (err (backend value_error)) d h = tt

pub insert_session-Post :
    (r : SessionRecord) (db : Db)
    → After
        (λ u d.
          (session_allowed (session_values r) db ≡ true)
          × (d ≡ record db { sessions = db.sessions ++ session_values r ∷ [] }))
        (insert_session r)
        db
unfolding insert_session insert_session_row
insert_session-Post r db =
    guarded-Post (session_allowed (session_values r) db)
      (record db { sessions = db.sessions ++ session_values r ∷ [] }) db

module _ (now : ℕ) (s : Text) (db : Db) where
  pub create_session-Created : After (Created now s db) (create_session now s) db
  unfolding create_session translate_store_errors catch_taken
  create_session-Created = Post-translated (Created now s db) _ _ _ (
      taken_session-Post (Created now s db) s _ _ (
        transaction-After _ db (Created now s db) (
          Post-then
            (λ u d.
              (session_allowed (session_values (new_session_record now s)) db ≡ true)
              × (d ≡ record db {
                sessions = db.sessions ++ session_values (new_session_record now s) ∷ [];
              }))
            (Created now s db) _ _ _ (insert_session-Post (new_session_record now s) db)
            λ u d h. (refl, h.0, h.1))))

-- A new active run, and the history that it starts from.
pub record Started (c : Codec) (now : ℕ) (s id prompt model provider : Text) (db : Db)
    (started : StartedRun) (d : Db) : Type 0 where
  pub run : started.run ≡ new_active_run_record now id s prompt model provider
  pub idle : active_run_for_session s db ≡ ok none
  pub history : history_for_session c s db ≡ ok started.committed_history
  pub allowed : run_allowed (run_values started.run) db ≡ true
  pub after : d ≡ record db { runs = db.runs ++ run_values started.run ∷ [] }

run_exists_error-Post :
    (Q : Done → Db → Type 0) (r : ActiveRun) (o : Result Done) (d : Db)
    → Post Q o d
    → let (o', d') = run_exists_error r o d in Post Q o' d'
unfolding run_exists_error
run_exists_error-Post Q r (ok x) d h = h
run_exists_error-Post Q r (err (store x)) d h = tt
run_exists_error-Post Q r (err (backend integrity)) d h =
    elim (Bool-cases (any (run_is r.id) d.runs)) [ inl t ↦ rw t tt | inr f ↦ rw f tt ]
run_exists_error-Post Q r (err (backend value_error)) d h = tt

abbrev RunAdded : ActiveRun → Db → Done → Db → Type 0
RunAdded r db u d =
    (run_allowed (run_values r) db ≡ true) × (d ≡ record db { runs = db.runs ++ run_values r ∷ [] })

insert_run-Post : (r : ActiveRun) (db : Db) → After (RunAdded r db) (insert_run r) db
unfolding insert_run insert_run_row
insert_run-Post r db =
    let o : Result Done × Db = insert_run_row (run_values r) db in
    run_exists_error-Post (RunAdded r db) r o.0 o.1 (
      guarded-Post (run_allowed (run_values r) db)
        (record db { runs = db.runs ++ run_values r ∷ [] }) db)

reject_active_run-Post :
    (running : Option ActiveRun) (db : Db)
    → After (λ u d. (running ≡ none) × (d ≡ db)) (reject_active_run running) db
unfolding reject_active_run
reject_active_run-Post none db = (refl, refl)
reject_active_run-Post (some run) db = tt

module _ (c : Codec) (now : ℕ) (s id prompt model provider : Text) (db : Db) where
  abbrev Begun : StartedRun → Db → Type 0
  Begun = Started c now s id prompt model provider db

  pub start_run-Started : After Begun (start_run c now s id prompt model provider) db
  unfolding start_run translate_store_errors
  start_run-Started =
      let r : ActiveRun = new_active_run_record now id s prompt model provider in
      Post-translated Begun _ _ _ (
        transaction-After _ db Begun (
          Post-then (Known true s db) Begun _ _ _ (require_session-Post s db) λ u d0 h0.
            Post-then (Read (active_run_for_session s) d0) Begun _ _ _
              (Read-Post (active_run_for_session s) d0)
              λ running d1 h1.
                Post-then (λ u d. (running ≡ none) × (d ≡ d1)) Begun _ _ _
                  (reject_active_run-Post running d1)
                  λ u' d2 h2.
                    Post-then (Read (history_for_session c s) d2) Begun _ _ _
                      (Read-Post (history_for_session c s) d2)
                      λ items d3 h3.
                        Post-then (RunAdded r d3) Begun _ _ _ (insert_run-Post r d3) λ u'' d4 h4.
                          let same : d3 ≡ db = h3.1 ∙ h2.1 ∙ h1.1 ∙ h0.1 in
                          record {
                            run = refl;
                            idle =
                                subst (λ d. active_run_for_session s d ≡ ok none) h0.1
                                  (h1.0 ∙ ap (λ x. ok x) h2.0);
                            history =
                                subst (λ d. history_for_session c s d ≡ ok items)
                                  (h2.1 ∙ h1.1 ∙ h0.1) h3.0;
                            allowed = subst (λ d. run_allowed (run_values r) d ≡ true) same h4.0;
                            after =
                                subst (λ d. d4 ≡ record d { runs = d.runs ++ run_values r ∷ [] })
                                  same h4.1;
                          }))
