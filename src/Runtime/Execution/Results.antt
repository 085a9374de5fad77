-- ===== src/Runtime/Execution/Results.antt =====
-- How a typed prompt ends: by what its result tools recorded.
use piy.Base.{
  ℕ, zero, suc, Text, some-injective, Option, none, some, List, [], ◌∷◌, ◌++◌, All, All-append, ◌⊎◌,
  inl, inr, ◌≡◌, refl, sym, ap, ◌∙◌, true, Bool-cases, Option-cases,
}
use mathlib.Core.Path.{subst}
use mathlib.Core.List.{append-nil, append_assoc}
use piy.Types.Json.{JsonObject}
use piy.Types.Events.{result_follow_up}
use piy.Types.Outcome.{ResultValue, RunOutcome, completed, failed, agent_failure}
use piy.Types.Tools.{
  ToolDetails, complete, fail, tool_input_validation_failure, tool_invocation_failure, other,
  ToolExecutionOutcome,
}
use piy.Runtime.ToolExecutor.{TextMethods, Validated}
use piy.Runtime.Agent.{Live, Attempt, done, turn_failed, raised, AgentResult}
use piy.Runtime.Agent.Answers.{executions_in, emit-executed}
use piy.Runtime.Agent.Complete.{Complete, run_agent-completes}
use piy.Runtime.Execution.{
  Dependencies, max_result_follow_ups, no_result_reason, result_follow_up_text,
  typed_attempt_dependencies, details_outcome, or_else, result_outcome, run_attempt, follow_up,
  after_attempt, typed_attempts, execute_typed,
}

-- The execution ended the run, with a result or with a reason.
pub data Decides (e : ToolExecutionOutcome) : RunOutcome → Type 0 where
  completes :
      (value : JsonObject)
      → e.terminate ≡ true
      → e.details ≡ some (complete value)
      → Decides e (completed (ResultValue.json value))
  fails :
      (reason : Text)
      → e.terminate ≡ true
      → e.details ≡ some (fail reason)
      → Decides e (failed (agent_failure reason))

abbrev pub Undecided : ToolExecutionOutcome → Type 0
Undecided e = (o : RunOutcome) → ¬ Decides e o

-- The outcome is what the first execution decided that decided at all, and the missing result where
-- none did.
pub data Concludes (executions : List ToolExecutionOutcome) : RunOutcome → Type 0 where
  decided :
      (before after : List ToolExecutionOutcome) (e : ToolExecutionOutcome) {o : RunOutcome}
      → executions ≡ before ++ e ∷ after
      → All Undecided before
      → Decides e o
      → Concludes executions o
  missing :
      All Undecided executions → Concludes executions (failed (agent_failure no_result_reason))

module _ (e : ToolExecutionOutcome) where
  Decides-details : {o : RunOutcome} → Decides e o → details_outcome e.details ≡ some o
  unfolding details_outcome
  Decides-details (completes value ends is) = rw is refl
  Decides-details (fails reason ends is) = rw is refl

  Decides-terminate : {o : RunOutcome} → Decides e o → e.terminate ≡ true
  Decides-terminate (completes value ends is) = ends
  Decides-terminate (fails reason ends is) = ends

  Undecided-details : details_outcome e.details ≡ none → Undecided e
  Undecided-details h = λ o d. cc (Decides-details d)

  details-Decides :
      (d : Option ToolDetails)
      → e.details ≡ d
      → e.terminate ≡ true
      → ((o : RunOutcome) × Decides e o × (details_outcome d ≡ some o)) ⊎ (details_outcome d ≡ none)
  unfolding details_outcome
  details-Decides none is ends = inr refl
  details-Decides (some (complete value)) is ends =
      inl (completed (ResultValue.json value), completes value ends is, refl)
  details-Decides (some (fail reason)) is ends =
      inl (failed (agent_failure reason), fails reason ends is, refl)
  details-Decides (some (tool_input_validation_failure name issues)) is ends = inr refl
  details-Decides (some (tool_invocation_failure name type message)) is ends = inr refl
  details-Decides (some (other value)) is ends = inr refl

  first-cases :
      (rest : List ToolExecutionOutcome)
      → ((o : RunOutcome) × Decides e o × (result_outcome (e ∷ rest) ≡ some o))
        ⊎ (Undecided e × (result_outcome (e ∷ rest) ≡ result_outcome rest))
  unfolding result_outcome or_else
  first-cases rest = elim (Bool-cases e.terminate) [
    | inr goes_on ↦ inr (λ o d. cc (Decides-terminate d), rw goes_on refl)
    | inl ends ↦ elim (details-Decides e.details refl ends) [
      | inl (o, decides, is) ↦ inl (o, decides, rw (ends, is) refl)
      | inr nothing ↦ inr (Undecided-details nothing, rw (ends, nothing) refl)
    ]
  ]

-- Executions that decided nothing, before those that are concluded from.
Concludes-behind :
    (first rest : List ToolExecutionOutcome) {o : RunOutcome}
    → All Undecided first
    → Concludes rest o
    → Concludes (first ++ rest) o
Concludes-behind first rest none_yet (decided before after e is undecided decides) =
    decided (first ++ before) after e
      (ap (λ x. first ++ x) is ∙ sym (append_assoc first before (e ∷ after)))
      (All-append Undecided first before none_yet undecided) decides
Concludes-behind first rest none_yet (missing undecided) =
    missing (All-append Undecided first rest none_yet undecided)

result_outcome-Concludes :
    (executions : List ToolExecutionOutcome) {o : RunOutcome}
    → result_outcome executions ≡ some o
    → Concludes executions o
unfolding result_outcome
result_outcome-Concludes [] h = cc
result_outcome-Concludes (e ∷ rest) {o} h = elim (first-cases e rest) [
  | inl (found, decides, is) ↦
      decided [] rest e refl tt (subst (Decides e) (some-injective (sym is ∙ h)) decides)
  | inr (undecided, is) ↦
      Concludes-behind (e ∷ []) rest (undecided, tt) (result_outcome-Concludes rest (sym is ∙ h))
]

result_outcome-none :
    (executions : List ToolExecutionOutcome)
    → result_outcome executions ≡ none
    → All Undecided executions
result_outcome-none [] h = tt
result_outcome-none (e ∷ rest) h = elim (first-cases e rest) [
  | inl (found, decides, is) ↦ absurd cc
  | inr (undecided, is) ↦ (undecided, result_outcome-none rest (sym is ∙ h))
]

-- What the log of events tells of a prompt's executions, and the outcome that follows from them.
pub record Recorded {W : Type 0} (live live' : Live W) (o : RunOutcome) : Type 0 where
  pub executions : List ToolExecutionOutcome
  pub logged : executions_in live'.events ≡ executions_in live.events ++ executions
  pub concludes : Concludes executions o

module _ {W : Type 0} (methods : TextMethods) (fuel : ℕ) where
  abbrev Ends : Live W → Option (Attempt RunOutcome × Live W) → Type 0
  Ends live none = Unit
  Ends live (some (done o, live')) = Recorded live live' o
  Ends live (some (turn_failed turn, live')) = Unit
  Ends live (some (raised exception_type message, live')) = Unit

  -- Executions that decided nothing, and what came of the rest of the prompt.
  Ends-behind :
      (live mid : Live W) (new : List ToolExecutionOutcome)
      (r : Option (Attempt RunOutcome × Live W))
      → executions_in mid.events ≡ executions_in live.events ++ new
      → All Undecided new
      → Ends mid r
      → Ends live r
  Ends-behind live mid new none logged undecided h = tt
  Ends-behind live mid new (some (turn_failed turn, l)) logged undecided h = tt
  Ends-behind live mid new (some (raised t m, l)) logged undecided h = tt
  Ends-behind live mid new (some (done o, l)) logged undecided h = record {
    executions = new ++ h.executions;
    logged =
        h.logged
        ∙ ap (λ x. x ++ h.executions) logged
        ∙ append_assoc (executions_in live.events) new h.executions;
    concludes = Concludes-behind new h.executions undecided h.concludes;
  }

  follow_up_quiet :
      (attempts : ℕ) (live : Live W)
      → executions_in (follow_up methods fuel attempts live).events ≡ executions_in live.events
  unfolding follow_up
  follow_up_quiet zero live = refl
  follow_up_quiet (suc attempts) live =
      emit-executed (result_follow_up (record { content = result_follow_up_text })) live
      ∙ append-nil (executions_in live.events)

  after_attempt-Ends :
      (next : Live W → Option (Attempt RunOutcome × Live W)) (live : Live W)
      (r : Option (Attempt AgentResult × Live W))
      → ((l : Live W) → Ends l (next l))
      → ((a : AgentResult) (l : Live W)
          → r ≡ some (done a, l)
          → executions_in l.events ≡ executions_in live.events ++ a.tool_executions)
      → Ends live (after_attempt methods fuel next r)
  after_attempt-Ends next live none later logged = tt
  after_attempt-Ends next live (some (turn_failed turn, l)) later logged = tt
  after_attempt-Ends next live (some (raised t m, l)) later logged = tt
  after_attempt-Ends next live (some (done a, l)) later logged =
      elim (Option-cases (result_outcome a.tool_executions)) [
        | inl none_yet ↦ rw none_yet (
            Ends-behind live l a.tool_executions (next l) (logged a l refl)
              (result_outcome-none a.tool_executions none_yet) (later l))
        | inr (o, is) ↦ rw is (record {
          executions = a.tool_executions;
          logged = logged a l refl;
          concludes = result_outcome-Concludes a.tool_executions is;
        })
      ]

  run_attempt_logged :
      (deps : Dependencies W) (live : Live W) (a : AgentResult) (l : Live W)
      → run_attempt methods fuel deps live ≡ some (done a, l)
      → executions_in l.events ≡ executions_in live.events ++ a.tool_executions
  unfolding run_attempt
  run_attempt_logged deps live a l h =
      let whole : Complete live l [] a.tool_executions =
        run_agent-completes methods deps.tools deps.provider
          (deps.system_prompt deps.instructions live.world) fuel live.history.working live l a h in
      whole.says.2 ∙ ap (λ x. executions_in live.events ++ x) (sym whole.outcomes)

  typed_attempts-Ends :
      (deps : Dependencies W) (attempts : ℕ) (live : Live W)
      → Ends live (typed_attempts methods fuel deps attempts live)
  unfolding typed_attempts
  typed_attempts-Ends deps zero live = record {
    executions = [];
    logged = sym (append-nil (executions_in live.events));
    concludes = missing tt;
  }
  typed_attempts-Ends deps (suc attempts) live =
      after_attempt-Ends
        (λ l. typed_attempts methods fuel deps attempts (follow_up methods fuel attempts l)) live
        (run_attempt methods fuel deps live)
        (λ l.
          Ends-behind l (follow_up methods fuel attempts l) []
            (typed_attempts methods fuel deps attempts (follow_up methods fuel attempts l))
            (follow_up_quiet attempts l ∙ sym (append-nil (executions_in l.events))) tt
            (typed_attempts-Ends deps attempts (follow_up methods fuel attempts l)))
        (run_attempt_logged deps live)

  -- A typed prompt that returns an outcome, after however many attempts: of all the executions whose
  -- end it told in the log of events, the first that terminated with a result or a failure gave the
  -- outcome, the completed value or the failure's reason; where none did, the outcome is the failure
  -- that the result is missing.
  pub execute_typed-Recorded :
      (fail_input : JsonObject → Validated) (deps : Dependencies W)
      (result : JsonObject → Validated) (live live' : Live W) (o : RunOutcome)
      → execute_typed methods fuel fail_input deps result live ≡ some (done o, live')
      → Recorded live live' o
  unfolding execute_typed typed_attempt_dependencies
  execute_typed-Recorded fail_input deps result live live' o h = subst (Ends live) h (
      typed_attempts-Ends (typed_attempt_dependencies fail_input deps result)
        (suc max_result_follow_ups) live)
