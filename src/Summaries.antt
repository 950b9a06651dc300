-- ===== src/Summaries.antt =====
-- aeloon_runtime/runtime/summarization.py: the text of a conversation and its pieces. The JSON text
-- of a call's arguments is a parameter, `dumps`.
pub mod Prompts
pub mod Rolling
pub mod Compacting
use aeloon_runtime.Prelude.{
  ℕ, ◌-◌, ◌++◌, String, Bool, true, false, Option, none, some, List, [], ◌∷◌, leb, ltb, is_empty,
  map, concat, join, decimal, append_text, take_text, text_length, str_eq, if◌then◌else◌,
}
use aeloon_runtime.Messages.{
  UserContent, AssistantContent, Content, plain, parts, AgentMessage, user, assistant, tool_result,
  AssistantMessage, ToolCall, is_failed,
}
use aeloon_runtime.Summaries.Prompts.{hard_truncation_marker}

-- `TOOL_RESULT_MAX_CHARS`
abbrev pub tool_result_max_chars : ℕ
tool_result_max_chars = 2000

unfoldable pub truncation_marker : String → ℕ → Bool → String
unfolding hard_truncation_marker
truncation_marker value max_chars for_tool_result =
    if for_tool_result
    then concat
        ("\n\n[... " ∷ decimal (text_length value - max_chars) ∷ " more characters truncated]" ∷ [])
    else hard_truncation_marker

-- `_truncate_text`
unfoldable pub truncate_text : String → ℕ → Bool → String
truncate_text value max_chars for_tool_result =
    let marker = truncation_marker value max_chars for_tool_result in
    if leb (text_length value) max_chars
    then value
    else if leb max_chars (text_length marker)
    then take_text max_chars marker
    else append_text (take_text (max_chars - text_length marker) value) marker

-- `"\n".join(part.text for part in content if isinstance(part, TextContent))`
text_parts : List UserContent → List String
text_parts [] = []
text_parts (UserContent.text t ∷ rest) = t ∷ text_parts rest
text_parts (UserContent.image payload mime_type ∷ rest) = text_parts rest

unfoldable pub user_text : Content → String
unfolding text_parts
user_text (plain t) = t
user_text (parts ps) = join "\n" (text_parts ps)

module _ (dumps : String → String) where
  answer_parts : List AssistantContent → List String
  answer_parts [] = []
  answer_parts (AssistantContent.text t ∷ rest) = t ∷ answer_parts rest
  answer_parts (AssistantContent.thinking t ∷ rest) =
      append_text "[thinking]\n" t ∷ answer_parts rest
  answer_parts (AssistantContent.tool_call c ∷ rest) =
      concat ("[tool] " ∷ c.name ∷ " " ∷ dumps c.arguments ∷ []) ∷ answer_parts rest

  -- The lines of `serialize_conversation`; a failed answer has none.
  unfoldable pub conversation_lines : List AgentMessage → List String
  unfolding user_text text_parts answer_parts truncate_text
  conversation_lines [] = []
  conversation_lines (user u ∷ rest) =
      append_text "User: " (user_text u.content) ∷ conversation_lines rest
  conversation_lines (assistant m ∷ rest) =
      let lines = conversation_lines rest in
      if is_failed m.stop_reason
      then lines
      else append_text "Assistant: " (join "\n" (answer_parts m.content)) ∷ lines
  conversation_lines (tool_result t ∷ rest) =
      let content = truncate_text (join "\n" (text_parts t.content)) tool_result_max_chars true in
      concat ("Tool (" ∷ t.tool_name ∷ "): " ∷ content ∷ []) ∷ conversation_lines rest

  unfoldable pub serialize_conversation : List AgentMessage → String
  unfolding conversation_lines
  serialize_conversation messages = join "\n\n" (conversation_lines messages)

  -- The texts of single messages that are not empty.
  unfoldable pub message_units : List AgentMessage → List String
  unfolding serialize_conversation
  message_units [] = []
  message_units (m ∷ rest) =
      let units = message_units rest in
      let serialized = serialize_conversation (m ∷ []) in
      if str_eq serialized "" then units else serialized ∷ units

  unfoldable pub turn_units : ℕ → List AgentMessage → List String
  unfolding message_units
  turn_units max_unit_chars turn =
      let serialized = serialize_conversation turn in
      if str_eq serialized ""
      then []
      else if leb (text_length serialized) max_unit_chars
      then serialized ∷ []
      else message_units turn

  -- The first loop of `_conversation_units`, with the current turn.
  unfoldable pub turns : List AgentMessage → List AgentMessage → List (List AgentMessage)
  turns [] [] = []
  turns (c ∷ current) [] = (c ∷ current) ∷ []
  turns [] (m ∷ rest) = turns (m ∷ []) rest
  turns (c ∷ current) (user u ∷ rest) = (c ∷ current) ∷ turns (user u ∷ []) rest
  turns (c ∷ current) (assistant m ∷ rest) = turns ((c ∷ current) ++ assistant m ∷ []) rest
  turns (c ∷ current) (tool_result t ∷ rest) = turns ((c ∷ current) ++ tool_result t ∷ []) rest

  units_of : ℕ → List (List AgentMessage) → List String
  unfolding turn_units
  units_of max_unit_chars [] = []
  units_of max_unit_chars (turn ∷ rest) =
      turn_units max_unit_chars turn ++ units_of max_unit_chars rest

  -- `_conversation_units`
  unfoldable pub conversation_units : List AgentMessage → ℕ → List String
  unfolding turns units_of
  conversation_units messages max_unit_chars = units_of max_unit_chars (turns [] messages)
