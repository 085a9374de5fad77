-- ===== src/Store/Operations.antt =====
-- The calls that change a store, as data, so that any sequence of them can be spoken of.
use piy.Base.{ℕ, Text, List, [], ◌∷◌}
use piy.Types.Conversation.{ConversationItem}
use piy.Types.Outcome.{RunOutcome}
use piy.Store.Errors.{Done}
use piy.Store.Rows.{Codec}
use piy.Store.Tables.{Db}
use piy.Store.Exec.{Exec, ◌>>◌, pure}
use piy.Store.Sqlite.{create_session, start_run, finish_run, abort_active_run, fork_session}

pub data Operation : Type 0 where
  create : ℕ → Text → Operation
  start : ℕ → Text → Text → Text → Text → Text → Operation
  finish : ℕ → (ℕ → Text) → Text → Text → RunOutcome → List ConversationItem → Operation
  abort : ℕ → Text → Operation
  fork : ℕ → (ℕ → Text) → Text → Text → Operation

module _ (c : Codec) where
  -- One call, its value dropped.
  unfoldable pub perform : Operation → Exec Done
  perform (create now session_id) = do create_session now session_id; pure tt
  perform (start now session_id run_id prompt model provider) = do
    start_run c now session_id run_id prompt model provider
    pure tt
  perform (finish now draw session_id run_id outcome delta) = do
    finish_run c now draw session_id run_id outcome delta
    pure tt
  perform (abort now session_id) = do abort_active_run c now session_id; pure tt
  perform (fork now draw source target) = do fork_session c now draw source target; pure tt

  -- A sequence of calls, whether they return or raise.
  unfoldable pub perform_all : List Operation → Db → Db
  perform_all [] db = db
  perform_all (op ∷ ops) db = perform_all ops (perform op db).1
