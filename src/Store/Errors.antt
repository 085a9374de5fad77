-- ===== src/Store/Errors.antt =====
-- The errors of tile/store/base.py, and what the backend raises below them.
use piy.Base.{Text, ◌≡◌}

pub data StoreOperation : Type 0 where
  create_session get_session list_sessions start_run finish_run abort_active_run get_history get_run
        list_runs fork_session :
      StoreOperation

-- `sqlite3.IntegrityError`, and `ValueError` from decoding a row.
pub data Backend : Type 0 where
  integrity value_error : Backend

pub data StoreError : Type 0 where
  active_run : Text → StoreError
  run_already_ended : Text → StoreError
  session_already_exists : Text → StoreError
  session_not_found : Text → StoreError
  run_already_exists : Text → StoreError
  -- run id and session id
  run_not_found : Text → Text → StoreError
  persistence : StoreOperation → Backend → StoreError
  invalid_history : StoreError

-- Whatever a statement or a method may raise.
pub data Error : Type 0 where
  store : StoreError → Error
  backend : Backend → Error

pub data Result {ℓ} (A : Type ℓ) : Type ℓ where
  ok : A → Result A
  err : Error → Result A

unfoldable pub bind_result {ℓ κ} : {A : Type ℓ} {B : Type κ} → Result A → (A → Result B) → Result B
bind_result (ok a) f = f a
bind_result (err e) f = err e

-- What a method returns that returns nothing.
abbrev pub Done : Type 0
Done = Unit {0}

pub ok-injective {ℓ} : {A : Type ℓ} {a b : A} → ok a ≡ ok b → a ≡ b
ok-injective h = cc
