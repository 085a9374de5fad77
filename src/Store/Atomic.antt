-- ===== src/Store/Atomic.antt =====
-- Every call is all or nothing.
use piy.Base.{Text, ◌≡◌, refl, sym}
use mathlib.Core.Path.{subst}
use piy.Store.Errors.{
  StoreOperation, Error, store, backend, integrity, value_error, Done, Result, ok, err,
}
use piy.Store.Models.{SessionRecord}
use piy.Store.Rows.{Codec}
use piy.Store.Tables.{Db}
use piy.Store.Exec.{
  Exec, proceed, pure, transaction, Settled, committed, rolled_back, transaction-Settled,
  translated, translate_store_errors,
}
use piy.Store.Sqlite.{
  taken_session, create_session, start_run, finish_run, abort_active_run, fork_session,
}
use piy.Store.Operations.{Operation, create, start, finish, abort, fork, perform}

-- Where an error comes out, the database is `db`.
abbrev Undone {ℓ} : {A : Type ℓ} → Db → Result A → Db → Type 0
Undone db (ok a) d = Unit
Undone db (err e) d = d ≡ db

Undone-transaction {ℓ} :
    {A : Type ℓ} (m : Exec A) (db : Db) → Undone db (transaction m db).0 (transaction m db).1
Undone-transaction m db = settled (transaction-Settled m db)
  where
    settled :
        Settled db (m db) (transaction m db) → Undone db (transaction m db).0 (transaction m db).1
    settled (committed a _ out) = subst (λ t. Undone db t.0 t.1) (sym out) tt
    settled (rolled_back _ _ out) = subst (λ t. Undone db t.0 t.1) (sym out) refl

Undone-translated {ℓ} :
    {A : Type ℓ} (db : Db) (operation : StoreOperation) (r : Result A) (d : Db)
    → Undone db r d
    → Undone db (translated operation r) d
unfolding translated
Undone-translated db operation (ok a) d h = h
Undone-translated db operation (err e) d h = h

Undone-taken :
    (db : Db) (session_id : Text) (r : Result SessionRecord) (d : Db)
    → Undone db r d
    → Undone db (taken_session session_id r) d
unfolding taken_session
Undone-taken db session_id (ok a) d h = h
Undone-taken db session_id (err (store e)) d h = h
Undone-taken db session_id (err (backend integrity)) d h = h
Undone-taken db session_id (err (backend value_error)) d h = h

Undone-dropped {ℓ} :
    {A : Type ℓ} (db : Db) (r : Result A) (d : Db)
    → Undone db r d
    → let (r', d') = proceed {A = A} {B = Done} (λ _. pure tt) r d in Undone db r' d'
Undone-dropped db (ok a) d h = tt
Undone-dropped db (err e) d h = h

-- A translated transaction, its value dropped.
Undone-call {ℓ} :
    {A : Type ℓ} (operation : StoreOperation) (m : Exec A) (db : Db)
    → let (r, d) = translate_store_errors operation (transaction m) db in
      let (r', d') = proceed {A = A} {B = Done} (λ _. pure tt) r d in Undone db r' d'
unfolding translate_store_errors
Undone-call operation m db =
    Undone-dropped db _ _ (Undone-translated db operation _ _ (Undone-transaction m db))

perform-Undone :
    (c : Codec) (op : Operation) (db : Db) → Undone db (perform c op db).0 (perform c op db).1
unfolding perform translate_store_errors create_session start_run finish_run abort_active_run
    fork_session
perform-Undone c (create now s) db = Undone-dropped db _ _ (
    Undone-translated db StoreOperation.create_session _ _
      (Undone-taken db s _ _ (Undone-transaction _ db)))
perform-Undone c (start now s r p m v) db = Undone-call StoreOperation.start_run _ db
perform-Undone c (finish now draw s r o d) db = Undone-call StoreOperation.finish_run _ db
perform-Undone c (abort now s) db = Undone-call StoreOperation.abort_active_run _ db
perform-Undone c (fork now draw s t) db = Undone-call StoreOperation.fork_session _ db

Undone-err {ℓ} :
    {A : Type ℓ} {db d : Db} {r : Result A} {e : Error} → r ≡ err e → Undone db r d → d ≡ db
Undone-err {db} {d} p h = subst (λ t. Undone db t d) p h

-- A call that raises leaves the database as it was, whatever it wrote before.
pub perform_atomic :
    (c : Codec) (op : Operation) (db : Db) (e : Error)
    → (perform c op db).0 ≡ err e
    → (perform c op db).1 ≡ db
perform_atomic c op db e failed = Undone-err failed (perform-Undone c op db)
