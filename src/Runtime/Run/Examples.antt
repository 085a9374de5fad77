-- ===== src/Runtime/Run/Examples.antt =====
-- Tests of a run's settlement against the store, and the theorems at concrete runs.
use piy.Base.{ap, ℕ, Text, none, some, [], ◌∷◌, ◌++◌, All, ◌≡◌, refl}
use piy.Store.Errors.{ok}
use piy.Store.Sqlite.{finish_run, get_history}
use piy.Store.Invariant.{OutcomeLoads, ItemLoads}
use piy.Store.Samples.{plain, s1, r1, done, draw, draw', hi, running, ended, finished}
use piy.Store.Samples.Steps.{finished_is, running-history, running-Inv, ended-run}
use piy.Store.Promises.Finish.{recorded_delta}
use piy.Runtime.History.Replies.{EveryCallHasResult}
use piy.Runtime.History.{heal, unanswered_tool_calls, unanswered_items, answered}
use piy.Runtime.Agent.{Live, Attempt, emit}
use piy.Runtime.Agent
use piy.Runtime.Run.{
  Task, cancelled, Fault, RunResult, outcome, Run, terminal_outcome, ended_outcome, finish_result,
  finish, finalize, terminal_event,
}
use piy.Runtime.Run
use piy.Runtime.Run.Settles.{Recorded, finalize-Recorded, finalize-yields, finalize-commits}

abbrev run : Run ℕ
run = record {
  id = r1;
  session_id = s1;
  live = record {
    world = 0;
    events = [];
    history = record { working = hi ∷ hi ∷ []; delta = hi ∷ hi ∷ [] };
  };
  result = none;
}

abbrev describe : Fault → Text × Text
describe f = ([], [])

abbrev task : Task
task = Run.ended (Agent.done done)

-- The run's end as the store takes it, and the result.
finish_is :
    finish_run plain 5 draw s1 r1 (terminal_outcome task) (heal run.live.history).delta running
    ≡ (ok finished, ended)
unfolding terminal_outcome heal unanswered_tool_calls unanswered_items answered
finish_is = finished_is

result_is : (finalize plain describe 5 draw run task running).0.result ≡ some (outcome done)
unfolding finalize finish finish_result
result_is = ap (λ t. some (finish_result plain s1 r1 t.0 t.1)) finish_is

outcome_loads : OutcomeLoads plain (terminal_outcome task)
unfolding terminal_outcome
outcome_loads = refl

delta_loads : All (ItemLoads plain) (heal run.live.history).delta
unfolding heal unanswered_tool_calls unanswered_items answered
delta_loads = (refl, (refl, tt))

finalize-Recorded_example :
    Recorded plain s1 r1 done (finalize plain describe 5 draw run task running).1
    × ((finalize plain describe 5 draw run task running).0.live.events
        ≡ [] ++ terminal_event describe (outcome done) ∷ [])
finalize-Recorded_example =
    finalize-Recorded plain describe 5 draw run task running done running-Inv outcome_loads
      result_is

finalize-yields_example :
    ((finalize plain describe 9 draw' run cancelled ended).0.result ≡ some (outcome done))
    × ((finalize plain describe 9 draw' run cancelled ended).1 ≡ ended)
finalize-yields_example =
    finalize-yields plain describe 9 draw' run cancelled ended finished ended-run

finalize-commits_example :
    ((get_history plain s1 (finalize plain describe 5 draw run task running).1).0
      ≡ ok ([] ++ recorded_delta draw finished 0 0 (heal run.live.history).delta))
    × EveryCallHasResult (heal run.live.history).delta
    × ((finalize plain describe 5 draw run task running).0.result
        ≡ some (outcome (terminal_outcome task)))
finalize-commits_example =
    finalize-commits plain describe 5 draw run task running finished ended [] running-Inv
      outcome_loads delta_loads finish_is running-history
