-- ===== src/Messages.antt =====
-- aeloon_runtime/core/types.py: usage, contents and messages of a conversation.
-- The arguments of a tool call are kept as the text that `json.dumps` writes for them. Token
-- counts are natural numbers, and the costs, which are floats, are left out.
use aeloon_runtime.Prelude.{ℕ, String, Bool, true, false, Option, none, List, [], ◌∷◌}

pub record Usage : Type 0 where
  pub input : ℕ
  pub output : ℕ
  pub cache_read : ℕ
  pub cache_write : ℕ
  pub total_tokens : ℕ
  pub reasoning : Option ℕ

-- `Usage()`
abbrev pub no_usage : Usage
no_usage = record {
  input = 0;
  output = 0;
  cache_read = 0;
  cache_write = 0;
  total_tokens = 0;
  reasoning = none;
}

pub record ToolCall : Type 0 where
  pub id : String
  pub name : String
  pub arguments : String

-- `UserContent` and `ToolResultContent`
pub data UserContent : Type 0 where
  text : String → UserContent
  image : (payload mime_type : String) → UserContent

pub data AssistantContent : Type 0 where
  text : String → AssistantContent
  thinking : String → AssistantContent
  tool_call : ToolCall → AssistantContent

-- The content of a user message is a string or a tuple of parts.
pub data Content : Type 0 where
  plain : String → Content
  parts : List UserContent → Content

pub data StopReason : Type 0 where
  stop tool_use length error aborted : StopReason

pub record UserMessage : Type 0 where
  pub content : Content
  pub timestamp : ℕ

pub record AssistantMessage : Type 0 where
  pub content : List AssistantContent
  pub provider : String
  pub model : String
  pub usage : Usage
  pub stop_reason : StopReason
  pub error_message : Option String
  pub timestamp : ℕ

pub record ToolResultMessage : Type 0 where
  pub tool_call_id : String
  pub tool_name : String
  pub content : List UserContent
  pub is_error : Bool
  pub usage : Option Usage
  pub timestamp : ℕ

pub data AgentMessage : Type 0 where
  user : UserMessage → AgentMessage
  assistant : AssistantMessage → AgentMessage
  tool_result : ToolResultMessage → AgentMessage

tool_calls_of : List AssistantContent → List ToolCall
tool_calls_of [] = []
tool_calls_of (AssistantContent.tool_call c ∷ rest) = c ∷ tool_calls_of rest
tool_calls_of (_ ∷ rest) = tool_calls_of rest

unfoldable pub tool_calls : AssistantMessage → List ToolCall
unfolding tool_calls_of
tool_calls m = tool_calls_of m.content

-- `message.stop_reason in {"error", "aborted"}`
abbrev pub is_failed : StopReason → Bool
is_failed StopReason.error = true
is_failed StopReason.aborted = true
is_failed _ = false
