-- ===== src/Types/Blocks.antt =====
-- tile/types/stream_events.py: assistant blocks and the events of a provider stream.
use piy.Base.{ℕ, Text, Option, none, some, List, [], ◌∷◌}
use piy.Types.Json.{Json, JsonObject, str, end, field, get}

pub data StopReason : Type 0 where
  stop length tool_use error aborted : StopReason

pub record ProviderSource : Type 0 where
  pub provider : Text
  pub model : Option Text

pub record ProviderMetadata : Type 0 where
  pub entries : JsonObject

-- The dict comprehension of `from_values`: entries without a value are left out.
unfoldable pub metadata_entries : List (Text × Option Text) → JsonObject
metadata_entries [] = end
metadata_entries ((key, none) ∷ values) = metadata_entries values
metadata_entries ((key, some value) ∷ values) = field key (str value) (metadata_entries values)

-- None where no entry is left.
metadata_of : JsonObject → Option ProviderMetadata
metadata_of end = none
metadata_of (field k v o) = some (record { entries = field k v o })

unfoldable pub from_values : List (Text × Option Text) → Option ProviderMetadata
unfolding metadata_of metadata_entries
from_values values = metadata_of (metadata_entries values)

only_string : Option Json → Option Text
only_string (some (str value)) = some value
only_string other = none

unfoldable pub string_value : ProviderMetadata → Text → Option Text
unfolding only_string get
string_value m key = only_string (get key m.entries)

pub record TextBlock : Type 0 where
  pub provider_metadata : Option ProviderMetadata
  pub text : Text

pub record ReasoningBlock : Type 0 where
  pub provider_metadata : Option ProviderMetadata
  pub summary_text : Text

pub record ToolCallBlock : Type 0 where
  pub provider_metadata : Option ProviderMetadata
  pub call_id : Text
  pub name : Text
  pub arguments : JsonObject

pub data AssistantBlock : Type 0 where
  text : TextBlock → AssistantBlock
  reasoning : ReasoningBlock → AssistantBlock
  tool_call : ToolCallBlock → AssistantBlock

unfoldable pub provider_metadata : AssistantBlock → Option ProviderMetadata
provider_metadata (text b) = b.provider_metadata
provider_metadata (reasoning b) = b.provider_metadata
provider_metadata (tool_call b) = b.provider_metadata

metadata_string_of : Option ProviderMetadata → Text → Option Text
metadata_string_of none key = none
metadata_string_of (some m) key = string_value m key

unfoldable pub metadata_string : AssistantBlock → Text → Option Text
unfolding metadata_string_of string_value provider_metadata
metadata_string b key = metadata_string_of (provider_metadata b) key

pub record StreamDoneEvent : Type 0 where
  pub source : ProviderSource
  pub response_id : Option Text
  pub stop_reason : StopReason
  pub blocks : List AssistantBlock

pub record StreamErrorEvent : Type 0 where
  pub source : ProviderSource
  pub response_id : Option Text
  pub stop_reason : StopReason
  pub error_message : Text
  pub blocks : List AssistantBlock

-- `StreamUpdateEvent`: the first number is the index of the block.
pub data StreamUpdateEvent : Type 0 where
  reasoning_start : ℕ → StreamUpdateEvent
  reasoning_delta : ℕ → Text → StreamUpdateEvent
  reasoning_end : ℕ → ReasoningBlock → StreamUpdateEvent
  text_start : ℕ → StreamUpdateEvent
  text_delta : ℕ → Text → StreamUpdateEvent
  text_end : ℕ → TextBlock → StreamUpdateEvent
  tool_call_start : ℕ → Text → Text → StreamUpdateEvent
  tool_call_delta : ℕ → Text → StreamUpdateEvent
  tool_call_end : ℕ → ToolCallBlock → StreamUpdateEvent

pub data ProviderStreamEvent : Type 0 where
  stream_start : ProviderSource → Text → ProviderStreamEvent
  update : StreamUpdateEvent → ProviderStreamEvent
  stream_done : StreamDoneEvent → ProviderStreamEvent
  stream_error : StreamErrorEvent → ProviderStreamEvent
