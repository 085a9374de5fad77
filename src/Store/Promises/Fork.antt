-- ===== src/Store/Promises/Fork.antt =====
-- `fork_session` of tile/store/sqlite.py against `get_history`.
use piy.Base.{
  ℕ, ◌+◌, Text, text_eq, text_eq_refl, true, false, ◌||◌, List, [], ◌∷◌, ◌++◌, any, any-append,
  select, select-append, All, All-select, ◌≡◌, refl, sym, ap, ◌∙◌, arith,
}
use mathlib.Core.Path.{subst}
use mathlib.Core.List.{append-nil}
use piy.Store.Errors.{ok, ok-injective}
use piy.Store.Models.{SessionRecord, HistoryItem, new_session_record}
use piy.Store.Rows.{Codec, session_values}
use piy.Store.Tables.{Db, session_is, item_of, session_allowed}
use piy.Store.Statements.{copied_rows}
use piy.Store.Sqlite.{fork_session, get_history}
use piy.Store.Post.{returns}
use piy.Store.Invariant.{Inv, ItemDecodes, ItemLoads}
use piy.Store.Invariant.Deltas.{history_values-decodes}
use piy.Store.Invariant.Copies.{Decoded, Decoded-loads, copied_rows-all, copied_rows-none}
use piy.Store.Keeps.{unowned, Forked-Inv, history-Decoded, Decoded-history}
use piy.Store.Effects.Forks.{Forked, fork_session-Forked}
use piy.Store.Promises.{get_history-ok, ok-get_history, get_history-same}

-- A history, carried to another session: new ids, and each item's run, position and time.
abbrev pub copies : (ℕ → Text) → Text → ℕ → List HistoryItem → List HistoryItem
copies draw target offset [] = []
copies draw target offset (i ∷ items) =
    record {
      id = draw offset;
      session_id = target;
      run_id = i.run_id;
      position = i.position;
      item = i.item;
      created_at = i.created_at;
    }
    ∷ copies draw target (offset + 1) items

copies-Decoded :
    (c : Codec) (draw : ℕ → Text) (target : Text) (offset : ℕ) (items : List HistoryItem)
    → All (λ i. ItemLoads c i.item) items
    → Decoded c (copied_rows c draw target offset items) (copies draw target offset items)
unfolding copied_rows
copies-Decoded c draw target offset [] h = tt
copies-Decoded c draw target offset (i ∷ items) h = (
  history_values-decodes c (draw offset) i.item i.run_id target i.position i.created_at h.0,
  copies-Decoded c draw target (offset + 1) items h.1,
)

module _ (c : Codec) (now : ℕ) (draw : ℕ → Text) (source target : Text) (db : Db) (inv : Inv c db)
    (r : SessionRecord) (d : Db) (f : Forked c now draw source target db r d) where
  new_target : any (session_is target) db.sessions ≡ false
  unfolding session_allowed session_values new_session_record
  new_target =
      let allowed : session_allowed (session_values (new_session_record now target)) db ≡ true =
        subst (λ x. session_allowed (session_values x) db ≡ true) f.session f.allowed in
      ground arith

  sessions_of :
      (t : Text)
      → any (session_is t) d.sessions
        ≡ (any (session_is t) db.sessions || (text_eq target t || false))
  unfolding session_values new_session_record
  sessions_of t =
      ap (λ x. any (session_is t) x.sessions) f.copied.0
      ∙ any-append (session_is t) db.sessions (session_values r ∷ [])
      ∙ ap (λ x. any (session_is t) db.sessions || (text_eq x.id t || false)) f.session

  rows_of :
      (t : Text)
      → select (item_of t) d.history
        ≡ select (item_of t) db.history ++ select (item_of t) (copied_rows c draw target 0 f.items)
  rows_of t =
      ap (λ x. select (item_of t) x.history) f.copied.0 ∙ select-append (item_of t) db.history _

  Forked-target : (get_history c target d).0 ≡ ok (copies draw target 0 f.items)
  Forked-target =
      let decoded : Decoded c (select (item_of source) db.history) f.items =
        history-Decoded c db inv source f.history in
      let loads : All (λ i. ItemLoads c i.item) f.items =
        Decoded-loads c _ f.items
          (All-select (item_of source) (ItemDecodes c) db.history inv.items_decode) decoded in
      let all : select (item_of target) d.history ≡ copied_rows c draw target 0 f.items =
        rows_of target
        ∙ ap (λ x. x ++ select (item_of target) (copied_rows c draw target 0 f.items))
            (unowned c db inv target db.history new_target inv.items_owned)
        ∙ copied_rows-all c draw target 0 f.items in
      get_history-ok c target d (sessions_of target ∙ rw (new_target, text_eq_refl target) refl) (
        Decoded-history c d (Forked-Inv c db inv now draw source target r d f) target (
          subst (λ x. Decoded c x (copies draw target 0 f.items)) (sym all)
            (copies-Decoded c draw target 0 f.items loads)))

  Forked-others :
      (t : Text) → text_eq target t ≡ false → (get_history c t d).0 ≡ (get_history c t db).0
  Forked-others t other = get_history-same c t db d (sessions_of t ∙ ground (arith, other)) (
      rows_of t
      ∙ ap (λ x. select (item_of t) db.history ++ x)
          (copied_rows-none c draw target t 0 f.items other)
      ∙ append-nil (select (item_of t) db.history))

-- Where `fork_session` returns, the new session's history is the source's, item by item and with each
-- item's run, position and time, under new ids; every other session, the source included, reads as
-- before. The database is one that satisfies the invariant.
pub fork_session-copies :
    (c : Codec) (now : ℕ) (draw : ℕ → Text) (source target : Text) (db : Db) (r : SessionRecord)
    (d : Db) (items : List HistoryItem)
    → Inv c db
    → fork_session c now draw source target db ≡ (ok r, d)
    → (get_history c source db).0 ≡ ok items
    → ((get_history c target d).0 ≡ ok (copies draw target 0 items))
      × ((t : Text) → text_eq target t ≡ false → (get_history c t d).0 ≡ (get_history c t db).0)
fork_session-copies c now draw source target db r d items inv returned h =
    let f : Forked c now draw source target db r d =
      returns (Forked c now draw source target db) (fork_session-Forked c now draw source target db)
        returned in
    let same : f.items ≡ items = ok-injective (sym f.history ∙ (ok-get_history c source db h).1) in
    (
      subst (λ x. (get_history c target d).0 ≡ ok (copies draw target 0 x)) same
          (Forked-target c now draw source target db inv r d f),
      Forked-others c now draw source target db inv r d f,
    )
