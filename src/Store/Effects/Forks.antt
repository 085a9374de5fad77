-- ===== src/Store/Effects/Forks.antt =====
-- `fork_session` of tile/store/sqlite.py, where it returns.
use piy.Base.{ℕ, Text, true, false, List, [], ◌∷◌, ◌++◌, ◌≡◌, refl, ◌∙◌}
use mathlib.Core.Path.{subst}
use piy.Store.Errors.{ok, Done}
use piy.Store.Models.{SessionRecord, HistoryItem, new_session_record}
use piy.Store.Rows.{Codec, session_values}
use piy.Store.Tables.{Db, session_allowed}
use piy.Store.Exec.{translate_store_errors}
use piy.Store.Sqlite.{fork_session}
use piy.Store.Statements.{copied_rows, history_for_session, copy_history_items}
use piy.Store.Post.{After, Post-then, Post-translated, transaction-After}
use piy.Store.Invariant.Inserts.{Inserted, insert_history_rows-Inserted}
use piy.Store.Effects.{
  Known, require_session-Post, reject_existing_session-Post, Read, Read-Post, Rows,
}
use piy.Store.Effects.Opens.{insert_session-Post}

-- A new session with a copy of another's history.
pub record Forked (c : Codec) (now : ℕ) (draw : ℕ → Text) (source target : Text) (db : Db)
    (r : SessionRecord) (d : Db) : Type 0 where
  pub items : List HistoryItem
  pub session : r ≡ new_session_record now target
  pub allowed : session_allowed (session_values r) db ≡ true
  pub history : history_for_session c source db ≡ ok items
  pub copied :
      Inserted
        (record db { sessions = db.sessions ++ session_values r ∷ [] })
        (copied_rows c draw target 0 items)
        d

abbrev SessionAdded : SessionRecord → Db → Done → Db → Type 0
SessionAdded r db u d =
    (session_allowed (session_values r) db ≡ true)
    × (d ≡ record db { sessions = db.sessions ++ session_values r ∷ [] })

module _ (c : Codec) (now : ℕ) (draw : ℕ → Text) (source target : Text) (db : Db) where
  abbrev Copied : SessionRecord → Db → Type 0
  Copied = Forked c now draw source target db

  pub fork_session-Forked : After Copied (fork_session c now draw source target) db
  unfolding fork_session translate_store_errors copy_history_items history_for_session
  fork_session-Forked =
      let r : SessionRecord = new_session_record now target in
      Post-translated Copied _ _ _ (
        transaction-After _ db Copied (
          Post-then (Known true source db) Copied _ _ _ (require_session-Post source db) λ u d0 h0.
            Post-then (Known false target d0) Copied _ _ _ (reject_existing_session-Post target d0)
              λ u' d1 h1.
                Post-then (SessionAdded r d1) Copied _ _ _ (insert_session-Post r d1) λ u'' d2 h2.
                  Post-then (Read (history_for_session c source) d2) Copied _ _ _
                    (Read-Post (history_for_session c source) d2)
                    λ items d3 h3.
                      Post-then (Rows d3 (copied_rows c draw target 0 items)) Copied _ _ _
                        (insert_history_rows-Inserted (copied_rows c draw target 0 items) d3)
                        λ v d4 ins.
                          let same : d1 ≡ db = h1.1 ∙ h0.1 in
                          let added : d2
                              ≡ record db { sessions = db.sessions ++ session_values r ∷ [] } =
                            subst
                              (λ d.
                                d2 ≡ record d { sessions = d.sessions ++ session_values r ∷ [] })
                              same h2.1 in
                          record {
                            items = items;
                            session = refl;
                            allowed =
                                subst (λ d. session_allowed (session_values r) d ≡ true) same h2.0;
                            history =
                                subst (λ d. history_for_session c source d ≡ ok items) added h3.0;
                            copied =
                                subst (λ d. Inserted d (copied_rows c draw target 0 items) d4)
                                  (h3.1 ∙ added) ins;
                          }))
