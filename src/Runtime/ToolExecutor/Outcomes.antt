-- ===== src/Runtime/ToolExecutor/Outcomes.antt =====
-- What a tool request comes to.
use piy.Base.{
  ◌≤◌, Text, text_eq, text_eq_iff, Bool, true, false, Option, none, some, List, [], ◌∷◌, ◌++◌, any,
  find?-head, All, ap, ◌∙◌, false_ne_true, count, ◌⊎◌, inl, inr, ◌≡◌, refl, sym, arith, Bool-cases,
}
use mathlib.Core.Path.{subst}
use piy.Types.Json.{JsonObject}
use piy.Types.Tools.{ToolInputIssue, ToolExecutionOutcome, from_error}
use piy.Runtime.ToolExecutor.{
  Called, returned, tool_error, raised, Validated, valid, invalid, ToolDefinition, TextMethods,
  reject_tools, get_tool, call_found, call_validated, call_tool, execute, outcome_of,
}

-- The tool answers to the name of the request: its name in lower case is the request's, in lower case
-- and without the white space around it.
abbrev pub Answers : {W : Type 0} → TextMethods → Text → ToolDefinition W → Type 0
Answers text tool_name tool = text.lower tool.name ≡ text.strip (text.lower tool_name)

-- The first of the tools that answers to the name.
pub record FirstNamed {W : Type 0} (text : TextMethods) (tools : List (ToolDefinition W))
    (tool_name : Text) (tool : ToolDefinition W) : Type 0 where
  pub before : List (ToolDefinition W)
  pub after : List (ToolDefinition W)
  pub listed : tools ≡ before ++ tool ∷ after
  pub answers : Answers text tool_name tool
  pub none_before : All (λ t. ¬ Answers text tool_name t) before

module _ {W : Type 0} (text : TextMethods) (tool_name : Text) where
  other_name :
      (tool : ToolDefinition W)
      → text_eq (text.lower tool.name) (text.strip (text.lower tool_name)) ≡ false
      → ¬ Answers text tool_name tool
  other_name tool f e =
      false_ne_true
        (sym f ∙ (text_eq_iff (text.lower tool.name) (text.strip (text.lower tool_name))).1 e)

  get_tool-FirstNamed :
      (tools : List (ToolDefinition W)) {tool : ToolDefinition W}
      → get_tool text tools tool_name ≡ some tool
      → FirstNamed text tools tool_name tool
  unfolding get_tool
  get_tool-FirstNamed [] h = cc
  get_tool-FirstNamed (t ∷ tools) {tool} h =
      elim (find?-head (text_eq (text.lower t.name) (text.strip (text.lower tool_name))) h) [
        | inl (same, e) ↦ record {
          before = [];
          after = tools;
          listed = ap (λ x. x ∷ tools) e;
          answers =
              subst (Answers text tool_name) e
                ((text_eq_iff (text.lower t.name) (text.strip (text.lower tool_name))).0 same);
          none_before = tt;
        }
        | inr (other, rest) ↦
            let later = get_tool-FirstNamed tools rest in
            record {
              before = t ∷ later.before;
              after = later.after;
              listed = ap (λ x. t ∷ x) later.listed;
              answers = later.answers;
              none_before = (other_name t other, later.none_before);
            }
      ]

  get_tool-none :
      (tools : List (ToolDefinition W))
      → get_tool text tools tool_name ≡ none
      → All (λ t. ¬ Answers text tool_name t) tools
  unfolding get_tool
  get_tool-none [] h = tt
  get_tool-none (t ∷ tools) h =
      elim (Bool-cases (text_eq (text.lower t.name) (text.strip (text.lower tool_name)))) [
        | inl same ↦ absurd (ground (arith, h, same))
        | inr other ↦ (other_name t other, get_tool-none tools (ground (arith, h, other)))
      ]

-- The two ways a request goes: the function of the first tool of that name ran, on arguments that are
-- valid, and its world is the new one; or nothing ran, and the outcome is an error.
pub data Handled {W : Type 0} (text : TextMethods) (tools : List (ToolDefinition W))
    (call_id tool_name : Text) (arguments : JsonObject) (w : W) (outcome : ToolExecutionOutcome)
    (w' : W) : Type 0 where
  ran :
      (tool : ToolDefinition W) (input : JsonObject) (called : Called)
      → FirstNamed text tools tool_name tool
      → tool.model_validate arguments ≡ valid input
      → tool.fn input w ≡ (called, w')
      → outcome ≡ outcome_of call_id tool_name called
      → Handled text tools call_id tool_name arguments w outcome w'
  refused :
      w' ≡ w
      → outcome.tool_result_turn.is_error ≡ true
      → All (λ t. ¬ Answers text tool_name t) tools
        ⊎ ((tool : ToolDefinition W) × (issues : List ToolInputIssue) × FirstNamed text tools
              tool_name tool
            × (tool.model_validate arguments ≡ invalid issues))
      → Handled text tools call_id tool_name arguments w outcome w'

module _ {W : Type 0} (text : TextMethods) (tools : List (ToolDefinition W))
    (call_id tool_name : Text) (arguments : JsonObject) (w : W) where
  abbrev Ends : Called × W → Type 0
  Ends c = Handled text tools call_id tool_name arguments w (outcome_of call_id tool_name c.0) c.1

  validated-Handled :
      (tool : ToolDefinition W)
      → FirstNamed text tools tool_name tool
      → (v : Validated) → tool.model_validate arguments ≡ v
      → Ends (call_validated text tool v w)
  unfolding call_validated outcome_of from_error
  validated-Handled tool found (valid input) e =
      ran tool input (tool.fn input w).0 found e refl refl
  validated-Handled tool found (invalid issues) e = refused refl refl (inr (tool, issues, found, e))

  found-Handled :
      (o : Option (ToolDefinition W))
      → get_tool text tools tool_name ≡ o
      → Ends (call_found text tool_name arguments o w)
  unfolding call_found outcome_of from_error
  found-Handled none e = refused refl refl (inl (get_tool-none text tool_name tools e))
  found-Handled (some tool) e =
      validated-Handled tool (get_tool-FirstNamed text tool_name tools e)
        (tool.model_validate arguments) refl

  -- A request runs the function of the first tool whose name is the requested one, whatever its case
  -- and the white space around it, once and on validated arguments; or no tool has that name or the
  -- arguments are not valid, and it runs nothing, leaves the world as it is, and comes to an error. In
  -- each case there is an outcome, and
  -- it carries the id and the name of the request, and stops the agent only if it is no error.
  pub execute-Handled :
      (let (outcome, w') = execute text tools call_id tool_name arguments w in
        Handled text tools call_id tool_name arguments w outcome w')
      × (let turn = (execute text tools call_id tool_name arguments w).0.tool_result_turn in
          (turn.call_id ≡ call_id) × (turn.tool_name ≡ tool_name))
      × (((execute text tools call_id tool_name arguments w).0.tool_result_turn.is_error ≡ false)
          ⊎ ((execute text tools call_id tool_name arguments w).0.terminate ≡ false))
  unfolding execute call_tool
  execute-Handled = (
    found-Handled (get_tool text tools tool_name) refl,
    outcome_of-names (call_tool text tools tool_name arguments w).0,
    outcome_of-terminate (call_tool text tools tool_name arguments w).0,
  )
    where
      outcome_of-names :
          (called : Called)
          → let turn = (outcome_of call_id tool_name called).tool_result_turn in
            (turn.call_id ≡ call_id) × (turn.tool_name ≡ tool_name)
      outcome_of-names (returned r) = (refl, refl)
      outcome_of-names (tool_error e) = (refl, refl)
      outcome_of-names (raised t m) = (refl, refl)

      outcome_of-terminate :
          (called : Called)
          → let o = outcome_of call_id tool_name called in
            (o.tool_result_turn.is_error ≡ false) ⊎ (o.terminate ≡ false)
      outcome_of-terminate (returned r) = inl refl
      outcome_of-terminate (tool_error e) = inr refl
      outcome_of-terminate (raised t m) = inr refl

module _ {W : Type 0} (text : TextMethods) where
  abbrev pub named : Text → ToolDefinition W → Bool
  named name tool = text_eq (text.lower tool.name) name

  accepted :
      (seen : List Text) (tool : ToolDefinition W) (tools : List (ToolDefinition W))
      → reject_tools text seen (tool ∷ tools) ≡ none
      → (any (text_eq (text.lower tool.name)) seen ≡ false)
        × (reject_tools text (text.lower tool.name ∷ seen) tools ≡ none)
  unfolding reject_tools
  accepted seen tool tools ok = ground arith

  -- No tool has a name that was seen.
  seen-none :
      (seen : List Text) (tools : List (ToolDefinition W)) (name : Text)
      → reject_tools text seen tools ≡ none
      → any (text_eq name) seen ≡ true
      → count (named name) tools ≡ 0
  unfolding reject_tools
  seen-none seen [] name ok h = refl
  seen-none seen (tool ∷ tools) name ok h =
      let (new, rest) = accepted seen tool tools ok in
      elim (Bool-cases (named name tool)) [
        | inl same ↦ absurd (
            cc (
              subst (λ k. any (text_eq k) seen ≡ false)
                  ((text_eq_iff (text.lower tool.name) name).0 same) new,
              h,
            ))
        | inr other ↦
            rw other (seen-none (text.lower tool.name ∷ seen) tools name rest (ground arith))
      ]

  -- In an executor that was accepted, at most one tool answers to a name, whatever its case.
  pub reject_tools_unique :
      (seen : List Text) (tools : List (ToolDefinition W)) (name : Text)
      → reject_tools text seen tools ≡ none
      → count (named name) tools ≤ 1
  unfolding reject_tools
  reject_tools_unique seen [] name ok = omega arith
  reject_tools_unique seen (tool ∷ tools) name ok =
      let (new, rest) = accepted seen tool tools ok in
      elim (Bool-cases (named name tool)) [
        | inl same ↦
            let here : text_eq name (text.lower tool.name) ≡ true =
              (text_eq_iff name (text.lower tool.name)).1
                (sym ((text_eq_iff (text.lower tool.name) name).0 same)) in
            rw same (
              omega (arith, seen-none (text.lower tool.name ∷ seen) tools name rest (rw here refl)))
        | inr other ↦ rw other (reject_tools_unique (text.lower tool.name ∷ seen) tools name rest)
      ]
