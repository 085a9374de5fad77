-- ===== src/Store/Exec.antt =====
-- Actions on the database: a result, and the database as the statements left it, also where one
-- raised. A transaction puts it back.
use piy.Base.{◌≡◌, refl}
use piy.Store.Errors.{StoreOperation, persistence, Error, store, backend, Result, ok, err}
use piy.Store.Tables.{Db}

abbrev pub Exec {ℓ} : Type ℓ → Type ℓ
Exec A = Db → Result A × Db

-- What follows an action, from its result and the database after it.
abbrev pub proceed {ℓ κ} : {A : Type ℓ} {B : Type κ} → (A → Exec B) → Result A → Db → Result B × Db
proceed f (ok a) db = f a db
proceed f (err e) db = (err e, db)

infixl 5 ◌>>=◌ ◌>>◌
abbrev pub ◌>>=◌ {ℓ κ} : {A : Type ℓ} {B : Type κ} → Exec A → (A → Exec B) → Exec B
◌>>=◌ m f db = let (r, db') = m db in proceed f r db'

abbrev pub ◌>>◌ {ℓ κ} : {A : Type ℓ} {B : Type κ} → Exec A → Exec B → Exec B
m >> n = m >>= λ _. n

abbrev pub pure {ℓ} : {A : Type ℓ} → A → Exec A
pure a db = (ok a, db)

abbrev pub raise {ℓ} : {A : Type ℓ} → Error → Exec A
raise e db = (err e, db)

-- A query: it reads the database and leaves it.
abbrev pub read {ℓ} : {A : Type ℓ} → (Db → Result A) → Exec A
read f db = (f db, db)

-- commit on success; rollback and raise again on an error
unfoldable pub commit_or_rollback {ℓ} : {A : Type ℓ} → Db → Result A → Db → Result A × Db
commit_or_rollback saved (ok a) db = (ok a, db)
commit_or_rollback saved (err e) db = (err e, saved)

-- `immediate_transaction`
unfoldable pub transaction {ℓ} : {A : Type ℓ} → Exec A → Exec A
unfolding commit_or_rollback
transaction m db = let (r, db') = m db in commit_or_rollback db r db'

-- `_translate_store_errors`: domain errors pass, backend errors are wrapped.
unfoldable pub translate_error : StoreOperation → Error → Error
translate_error operation (store e) = store e
translate_error operation (backend cause) = store (persistence operation cause)

unfoldable pub translated {ℓ} : {A : Type ℓ} → StoreOperation → Result A → Result A
unfolding translate_error
translated operation (ok a) = ok a
translated operation (err e) = err (translate_error operation e)

unfoldable pub translate_store_errors {ℓ} : {A : Type ℓ} → StoreOperation → Exec A → Exec A
unfolding translated
translate_store_errors operation m db = let (r, db') = m db in (translated operation r, db')

-- What a transaction leaves, by how its body ended: as the body left it, or as it was.
pub data Settled {ℓ} {A : Type ℓ} (db : Db) (body outcome : Result A × Db) : Type ℓ where
  committed : (a : A) → body.0 ≡ ok a → outcome ≡ (ok a, body.1) → Settled db body outcome
  rolled_back : (e : Error) → body.0 ≡ err e → outcome ≡ (err e, db) → Settled db body outcome

commit_or_rollback-Settled {ℓ} :
    {A : Type ℓ} (db : Db) (r : Result A) (db' : Db)
    → Settled db (r, db') (commit_or_rollback db r db')
unfolding commit_or_rollback
commit_or_rollback-Settled db (ok a) db' = committed a refl refl
commit_or_rollback-Settled db (err e) db' = rolled_back e refl refl

pub transaction-Settled {ℓ} :
    {A : Type ℓ} (m : Exec A) (db : Db) → Settled db (m db) (transaction m db)
unfolding transaction
transaction-Settled m db = commit_or_rollback-Settled db (m db).0 (m db).1
