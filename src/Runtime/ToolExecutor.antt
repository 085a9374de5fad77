-- ===== src/Runtime/ToolExecutor.antt =====
-- tile/tool_executor.py: one tool request, from the model's name and arguments to an outcome. `W` is
-- what tools act on; a tool brings its validation and its function, and the two text methods that the
-- lookup uses, `str.lower` and `str.strip`, are arguments.
pub mod Outcomes
use piy.Base.{
  show_number, digits, ℕ, zero, suc, ◌+◌, ◌-◌, ◌/◌, ◌%◌, ltb, Text, codes, newline, join, text_eq,
  Bool, true, false, Option, none, some, List, [], ◌∷◌, ◌++◌, map, any, find?, if◌then◌else◌,
}
use piy.Types.Json.{JsonObject}
use piy.Types.Tools.{
  LocationPart, key, index, ToolInputIssue, ToolDetails, tool_input_validation_failure,
  tool_invocation_failure, ToolResult, ToolError, ToolExecutionOutcome, from_result, from_error,
}

-- How the awaited function of a tool ends: a result, a `ToolError`, or another exception with its type.
pub data Called : Type 0 where
  returned : ToolResult → Called
  tool_error : ToolError → Called
  raised : Text → Text → Called

-- `input_model.model_validate`: the arguments as the function takes them, or what is wrong.
pub data Validated : Type 0 where
  valid : JsonObject → Validated
  invalid : List ToolInputIssue → Validated

pub record ToolDefinition (W : Type 0) : Type 0 where
  pub name : Text
  pub description : Text
  pub model_validate : JsonObject → Validated
  -- whether the signature of `fn` takes one argument
  pub invocable : Bool
  pub fn : JsonObject → W → Called × W

-- `str.lower` and `str.strip`
pub record TextMethods : Type 0 where
  pub lower : Text → Text
  pub strip : Text → Text

-- rendered += ..., part by part
unfoldable pub render_location : Text → List LocationPart → Text
unfolding show_number
render_location rendered [] = rendered
render_location rendered (index part ∷ location) =
    render_location (rendered ++ codes "[" ++ show_number part ++ codes "]") location
render_location [] (key part ∷ location) = render_location part location
render_location (c ∷ rendered) (key part ∷ location) =
    render_location (c ∷ rendered ++ codes "." ++ part) location

or_arguments : Text → Text
or_arguments [] = codes "arguments"
or_arguments (c ∷ rendered) = c ∷ rendered

unfoldable pub format_location : List LocationPart → Text
unfolding render_location or_arguments
format_location location = or_arguments (render_location [] location)

unfoldable pub format_validation_failure : Text → List ToolInputIssue → Text
unfolding join format_location
format_validation_failure tool_name issues = join (
    (codes "Invalid arguments for tool '" ++ tool_name ++ codes "':")
    ∷ map (λ issue. codes "- " ++ format_location issue.location ++ codes ": " ++ issue.message)
        issues)

not_found : Text → ToolError
not_found tool_name = record {
  message = codes "Tool '" ++ tool_name ++ codes "' not found";
  details = none;
}

not_valid : Text → List ToolInputIssue → ToolError
unfolding format_validation_failure
not_valid name issues = record {
  message = format_validation_failure name issues;
  details = some (tool_input_validation_failure name issues);
}

unfoldable pub outcome_of : Text → Text → Called → ToolExecutionOutcome
unfolding from_result from_error
outcome_of call_id tool_name (returned result) = from_result call_id tool_name result
outcome_of call_id tool_name (tool_error error) =
    from_error call_id tool_name error.message error.details
outcome_of call_id tool_name (raised exception_type message) =
    from_error call_id tool_name message
      (some (tool_invocation_failure tool_name exception_type message))

-- What the constructor raises.
pub data Rejected : Type 0 where
  duplicate_name : Text → Rejected
  not_invocable : Text → Rejected

module _ {W : Type 0} (text : TextMethods) where
  -- The loop of `__init__`, with the set of lower names as a list.
  unfoldable pub reject_tools : List Text → List (ToolDefinition W) → Option Rejected
  reject_tools seen [] = none
  reject_tools seen (tool ∷ tools) =
      let rest = reject_tools (text.lower tool.name ∷ seen) tools in
      if any (text_eq (text.lower tool.name)) seen
      then some (duplicate_name tool.name)
      else if tool.invocable
      then rest
      else some (not_invocable tool.name)

  -- `_get_tool`
  unfoldable pub get_tool : List (ToolDefinition W) → Text → Option (ToolDefinition W)
  get_tool tools tool_name =
      find? (λ tool. text_eq (text.lower tool.name) (text.strip (text.lower tool_name))) tools

  call_validated : ToolDefinition W → Validated → W → Called × W
  unfolding not_valid
  call_validated tool (valid arguments) w = tool.fn arguments w
  call_validated tool (invalid issues) w = (tool_error (not_valid tool.name issues), w)

  call_found : Text → JsonObject → Option (ToolDefinition W) → W → Called × W
  unfolding not_found
  call_found tool_name arguments none w = (tool_error (not_found tool_name), w)
  call_found tool_name arguments (some tool) w =
      call_validated tool (tool.model_validate arguments) w

  -- `_call_tool`
  unfoldable pub call_tool : List (ToolDefinition W) → Text → JsonObject → W → Called × W
  unfolding call_found call_validated get_tool
  call_tool tools tool_name arguments w =
      call_found tool_name arguments (get_tool tools tool_name) w

  unfoldable pub execute :
      List (ToolDefinition W) → Text → Text → JsonObject → W → ToolExecutionOutcome × W
  unfolding call_tool outcome_of
  execute tools call_id tool_name arguments w =
      let (called, w') = call_tool tools tool_name arguments w in
      (outcome_of call_id tool_name called, w')
