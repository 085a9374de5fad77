-- ===== src/Store/Post.antt =====
-- What holds when an action returns, by rules for the ways to build one.
use piy.Base.{◌≡◌, refl, sym, ap}
use mathlib.Core.Path.{subst}
use piy.Store.Errors.{StoreOperation, Error, Result, ok, err}
use piy.Store.Tables.{Db}
use piy.Store.Exec.{
  Exec, proceed, transaction, Settled, committed, rolled_back, transaction-Settled,
  translate_store_errors, translated,
}

-- `Q` of the value and the database, if the action returned.
abbrev pub Post {ℓ κ} : {A : Type ℓ} → (A → Db → Type κ) → Result A → Db → Type κ
Post Q (ok a) db = Q a db
Post Q (err e) db = Unit

abbrev pub After {ℓ κ} : {A : Type ℓ} → (A → Db → Type κ) → Exec A → Db → Type κ
After Q m db = Post Q (m db).0 (m db).1

module _ {ℓ κ} {A : Type ℓ} (Q : A → Db → Type κ) where
  pub Post-eq : (r : Result A) (d : Db) → ((a : A) → r ≡ ok a → Q a d) → Post Q r d
  Post-eq (ok a) d h = h a refl
  Post-eq (err e) d h = tt

  -- Read backwards, at the value that was returned.
  pub Post-ok : {r : Result A} {d : Db} {a : A} → r ≡ ok a → Post Q r d → Q a d
  Post-ok {d} e q = subst (λ r. Post Q r d) e q

-- What is ensured, at a call that is known to return.
pub returns {ℓ κ} :
    {A : Type ℓ} (Q : A → Db → Type κ) {o : Result A × Db} {a : A} {d : Db}
    → Post Q o.0 o.1
    → o ≡ (ok a, d)
    → Q a d
returns Q h e = subst (λ t. Post Q t.0 t.1) e h

module _ {ℓ μ κ} {A : Type ℓ} {B : Type μ} (Q : B → Db → Type κ) (f : A → Exec B) where
  -- The rest of the block may use what the first action ensures.
  pub Post-bind :
      (r : Result A) (d : Db)
      → ((a : A) → r ≡ ok a → After Q (f a) d)
      → Post Q (proceed f r d).0 (proceed f r d).1
  Post-bind (ok a) d h = h a refl
  Post-bind (err e) d h = tt

module _ {ℓ} {A : Type ℓ} (m : Exec A) (db : Db) where
  -- A transaction keeps what its body keeps when it returns.
  pub transaction_keeps {κ} :
      (P : Db → Type κ) → P db → After (λ a d. P d) m db → P (transaction m db).1
  transaction_keeps P before body = settled (transaction-Settled m db)
    where
      settled : Settled db (m db) (transaction m db) → P (transaction m db).1
      settled (committed a e out) = subst (λ t. P t.1) (sym out) (Post-ok (λ _ d. P d) e body)
      settled (rolled_back e _ out) = subst (λ t. P t.1) (sym out) before

  pub transaction-After {κ} : (Q : A → Db → Type κ) → After Q m db → After Q (transaction m) db
  transaction-After Q body = settled (transaction-Settled m db)
    where
      settled : Settled db (m db) (transaction m db) → After Q (transaction m) db
      settled (committed a e out) = subst (λ t. Post Q t.0 t.1) (sym out) (Post-ok Q e body)
      settled (rolled_back e _ out) = subst (λ t. Post Q t.0 t.1) (sym out) tt

  pub transaction_atomic : (e : Error) → (transaction m db).0 ≡ err e → (transaction m db).1 ≡ db
  transaction_atomic e failed = settled (transaction-Settled m db)
    where
      settled : Settled db (m db) (transaction m db) → (transaction m db).1 ≡ db
      settled (committed a _ out) = absurd (cc (ap (λ t. t.0) out))
      settled (rolled_back _ _ out) = ap (λ t. t.1) out

  pub translate_keeps {κ} :
      (operation : StoreOperation) (P : Db → Type κ)
      → P (m db).1
      → P (translate_store_errors operation m db).1
  unfolding translate_store_errors
  translate_keeps operation P h = h

module _ {ℓ μ κ ν} {A : Type ℓ} {B : Type μ} (P : A → Db → Type κ) (Q : B → Db → Type ν)
    (f : A → Exec B) where
  -- The rest of the block from what the first action ensures.
  pub Post-then :
      (r : Result A) (d : Db)
      → Post P r d
      → ((a : A) (d' : Db) → P a d' → After Q (f a) d')
      → Post Q (proceed f r d).0 (proceed f r d).1
  Post-then (ok a) d p h = h a d p
  Post-then (err e) d p h = tt

pub Post-translated {ℓ κ} :
    {A : Type ℓ} (Q : A → Db → Type κ) (operation : StoreOperation) (r : Result A) (d : Db)
    → Post Q r d
    → Post Q (translated operation r) d
unfolding translated
Post-translated Q operation (ok a) d h = h
Post-translated Q operation (err e) d h = h

pub Post-mono {ℓ κ μ} :
    {A : Type ℓ} (Q : A → Db → Type κ) (Q' : A → Db → Type μ)
    → ((a : A) (d : Db) → Q a d → Q' a d)
    → (r : Result A) (d : Db) → Post Q r d
    → Post Q' r d
Post-mono Q Q' f (ok a) d h = f a d h
Post-mono Q Q' f (err e) d h = tt
