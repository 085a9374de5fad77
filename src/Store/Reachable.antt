-- ===== src/Store/Reachable.antt =====
-- Databases that the Store reaches, by any calls, from an empty one.
use piy.Store.Models.{TerminalRun}
use piy.Base.{Option, none, some, ℕ, Text, List, [], ◌∷◌, All, ◌≡◌, refl, sym, arith}
use mathlib.Core.Path.{subst}
use piy.Types.Outcome.{RunOutcome}
use piy.Store.Errors.{Error, Result, ok, err, Done}
use piy.Store.Rows.{Codec}
use piy.Store.Tables.{Db, empty, active_in, owned_run_is}
use piy.Store.Exec.{proceed, pure}
use piy.Store.Operations.{Operation, create, start, finish, abort, fork, perform, perform_all}
use piy.Store.Atomic.{perform_atomic}
use piy.Store.Post.{Post, Post-mono}
use piy.Store.Invariant.{Inv, OutcomeLoads, ItemLoads}
use piy.Store.Keeps.{Ended-Inv, Created-Inv, Started-Inv, Forked-Inv}
use piy.Store.Effects.{Ended, finish_run-Ended}
use piy.Store.Effects.Aborts.{Aborted, abort_active_run-Aborted}
use piy.Store.Effects.Opens.{Created, create_session-Created, Started, start_run-Started}
use piy.Store.Effects.Forks.{Forked, fork_session-Forked}

-- What the JSON adapters must load again of what a call writes.
abbrev pub Loads : Codec → Operation → Type 0
Loads c (finish now draw s id outcome delta) = OutcomeLoads c outcome × All (ItemLoads c) delta
Loads c (abort now s) = OutcomeLoads c RunOutcome.aborted
Loads c other = Unit

dropped {ℓ} :
    {A : Type ℓ} (P : Db → Type 0) (r : Result A) (d : Db)
    → Post (λ _ d. P d) r d
    → let (r', d') = proceed {A = A} {B = Done} (λ _. pure tt) r d in Post (λ _ d. P d) r' d'
dropped P (ok a) d h = h
dropped P (err e) d h = tt

settle :
    (P : Db → Type 0) (r : Result Done) (db d : Db)
    → Post (λ _ d. P d) r d
    → ((e : Error) → r ≡ err e → d ≡ db)
    → P db
    → P d
settle P (ok a) db d h undone before = h
settle P (err e) db d h undone before = subst P (sym (undone e refl)) before

module _ (c : Codec) (db : Db) (inv : Inv c db) where
  Aborted-Inv :
      (now : ℕ) (s : Text)
      → OutcomeLoads c RunOutcome.aborted
      → (o : Option TerminalRun) (d : Db) → Aborted c now s db o d
      → Inv c d
  Aborted-Inv now s loads none d h = subst (Inv c) (sym h) inv
  Aborted-Inv now s loads (some r) d h =
      Ended-Inv c now (λ i. []) RunOutcome.aborted [] (active_in s) db inv r d loads tt h

  returned-Inv :
      (op : Operation) → Loads c op → Post (λ _ d. Inv c d) (perform c op db).0 (perform c op db).1
  unfolding perform
  returned-Inv (create now s) loads = dropped (Inv c) _ _ (
      Post-mono (Created now s db) _ (Created-Inv c db inv now s) _ _
        (create_session-Created now s db))
  returned-Inv (start now s id prompt model provider) loads = dropped (Inv c) _ _ (
      Post-mono (Started c now s id prompt model provider db) _
        (Started-Inv c db inv now s id prompt model provider) _ _
        (start_run-Started c now s id prompt model provider db))
  returned-Inv (finish now draw s id outcome delta) loads = dropped (Inv c) _ _ (
      Post-mono (Ended c now draw outcome delta (owned_run_is s id) db) _
        (λ r d. Ended-Inv c now draw outcome delta (owned_run_is s id) db inv r d loads.0 loads.1) _
        _ (finish_run-Ended c now draw s id outcome delta db))
  returned-Inv (abort now s) loads = dropped (Inv c) _ _ (
      Post-mono (Aborted c now s db) _ (Aborted-Inv now s loads) _ _
        (abort_active_run-Aborted c now s db))
  returned-Inv (fork now draw source target) loads = dropped (Inv c) _ _ (
      Post-mono (Forked c now draw source target db) _ (Forked-Inv c db inv now draw source target)
        _ _ (fork_session-Forked c now draw source target db))

  pub perform-Inv : (op : Operation) → Loads c op → Inv c (perform c op db).1
  perform-Inv op loads = settle (Inv c) _ db _ (returned-Inv op loads) (perform_atomic c op db) inv

pub empty-Inv : (c : Codec) → Inv c empty
empty-Inv c = record {
  one_active = λ s. omega arith;
  unique_runs = λ id. omega arith;
  unique_sessions = λ id. omega arith;
  unique_items = λ id. omega arith;
  contiguous = λ s. tt;
  sessions_valid = tt;
  runs_decode = tt;
  runs_owned = tt;
  items_decode = tt;
  items_owned = tt;
}

pub perform_all-Inv_from :
    (c : Codec) (ops : List Operation) (db : Db)
    → Inv c db
    → All (Loads c) ops
    → Inv c (perform_all c ops db)
unfolding perform_all
perform_all-Inv_from c [] db inv loads = inv
perform_all-Inv_from c (op ∷ ops) db inv loads =
    perform_all-Inv_from c ops (perform c op db).1 (perform-Inv c db inv op loads.0) loads.1

-- Whatever calls were made on an empty store, in whatever order and whether they returned or raised:
-- a session has at most one active run, its history stands at the positions from 0 on without a gap,
-- the ids of sessions, of runs and of history items are unique, the keys that rows refer to exist, and
-- each row reads back as a record. The JSON adapters must load again what the calls wrote.
pub perform_all-Inv :
    (c : Codec) (ops : List Operation) → All (Loads c) ops → Inv c (perform_all c ops empty)
perform_all-Inv c ops loads = perform_all-Inv_from c ops empty (empty-Inv c) loads
