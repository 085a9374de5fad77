-- ===== src/Runtime/Execution/Typed.antt =====
-- A prompt's program ends.
use piy.Base.{ℕ, zero, suc, ◌+◌, ◌≤◌, Text, Option, none, some, List, ◌≡◌, ◌≢◌, refl, sym}
use mathlib.Core.Path.{subst}
use piy.Types.Json.{JsonObject}
use piy.Types.Conversation.{ConversationItem}
use piy.Types.Outcome.{RunOutcome}
use piy.Runtime.ToolExecutor.{TextMethods, ToolDefinition, Validated}
use piy.Runtime.Agent.{Provider, Live, Attempt, done, turn_failed, raised, AgentResult, run_agent}
use piy.Runtime.Agent.Stops.{turns, AsksNoTool, run_agent-stops}
use piy.Runtime.Execution.{
  Dependencies, max_result_follow_ups, typed_attempt_dependencies, result_outcome, run_attempt,
  plain_outcome, execute_plain, follow_up, next_attempt, after_attempt, typed_attempts,
  execute_typed, execute_prompt,
}

-- From `limit` assistant turns on, the provider asks for no tool.
abbrev pub Calm : {W : Type 0} → ℕ → Provider W → Type 0
Calm {W} limit provider =
    (h : List ConversationItem) (instructions : Text) (tools : List (ToolDefinition W)) (w : W)
    → limit ≤ turns h
    → AsksNoTool (provider.stream h instructions tools w).0.events

module _ {W : Type 0} (methods : TextMethods) (limit : ℕ) (provider : Provider W)
    (calm : Calm limit provider) where
  attempt-stops :
      (deps : Dependencies W) (live : Live W)
      → deps.provider ≡ provider
      → run_attempt methods (limit + 1) deps live ≢ none
  unfolding run_attempt
  attempt-stops deps live same =
      subst
        (λ p.
          run_agent methods deps.tools p (deps.system_prompt deps.instructions live.world)
            (limit + 1) live.history.working live
          ≢ none)
        (sym same)
        (run_agent-stops methods deps.tools provider
          (deps.system_prompt deps.instructions live.world) limit
          (λ h w late. calm h (deps.system_prompt deps.instructions live.world) deps.tools w late)
          live.history.working live)

  plain-stops :
      (o : Option (Attempt AgentResult × Live W))
      → o ≢ none
      → plain_outcome methods (limit + 1) o ≢ none
  unfolding plain_outcome
  plain-stops none h = absurd (h refl)
  plain-stops (some (done r, l)) h = λ e. cc
  plain-stops (some (turn_failed t, l)) h = λ e. cc
  plain-stops (some (raised t m, l)) h = λ e. cc

  next-stops :
      (next : Live W → Option (Attempt RunOutcome × Live W)) (o : Option RunOutcome) (l : Live W)
      → ((l : Live W) → next l ≢ none)
      → next_attempt methods (limit + 1) next o l ≢ none
  next-stops next none l h = h l
  next-stops next (some o) l h = λ e. cc

  after-stops :
      (next : Live W → Option (Attempt RunOutcome × Live W))
      (o : Option (Attempt AgentResult × Live W))
      → ((l : Live W) → next l ≢ none)
      → o ≢ none
      → after_attempt methods (limit + 1) next o ≢ none
  after-stops next none h k = absurd (k refl)
  after-stops next (some (done r, l)) h k = next-stops next (result_outcome r.tool_executions) l h
  after-stops next (some (turn_failed t, l)) h k = λ e. cc
  after-stops next (some (raised t m, l)) h k = λ e. cc

  typed-stops :
      (deps : Dependencies W)
      → deps.provider ≡ provider
      → (attempts : ℕ) (live : Live W)
      → typed_attempts methods (limit + 1) deps attempts live ≢ none
  unfolding typed_attempts
  typed-stops deps same zero live = λ e. cc
  typed-stops deps same (suc attempts) live =
      after-stops
        (λ l.
          typed_attempts methods (limit + 1) deps attempts
            (follow_up methods (limit + 1) attempts l))
        (run_attempt methods (limit + 1) deps live)
        (λ l. typed-stops deps same attempts (follow_up methods (limit + 1) attempts l))
        (attempt-stops deps live same)

  -- A prompt's program, plain or typed, ends by an outcome or an error, where each attempt may take
  -- `limit + 1` turns, if the provider asks for no tool once a conversation holds `limit` assistant
  -- turns.
  pub execute_prompt-stops :
      (fail_input : JsonObject → Validated) (deps : Dependencies W)
      (result : Option (JsonObject → Validated)) (live : Live W)
      → deps.provider ≡ provider
      → execute_prompt methods (limit + 1) fail_input deps result live ≢ none
  unfolding execute_prompt execute_plain execute_typed typed_attempt_dependencies
  execute_prompt-stops fail_input deps none live same =
      plain-stops (run_attempt methods (limit + 1) deps live) (attempt-stops deps live same)
  execute_prompt-stops fail_input deps (some result) live same =
      typed-stops (typed_attempt_dependencies fail_input deps result) same
        (suc max_result_follow_ups) live
