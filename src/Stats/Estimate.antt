-- ===== src/Stats/Estimate.antt =====
-- Token estimates of messages and of a context.
use aeloon_runtime.Prelude.{
  ℕ, suc, ◌+◌, ◌/◌, Bool, true, Option, none, some, List, [], ◌∷◌, ◌&&◌, not, ltb, leb, sum_of,
  text_length, if◌then◌else◌,
}
use aeloon_runtime.Messages.{
  UserContent, AssistantContent, Content, plain, parts, AgentMessage, user, assistant, tool_result,
  is_failed,
}

user_part_chars : UserContent → ℕ
user_part_chars (UserContent.text s) = text_length s
user_part_chars (UserContent.image d m) = 4800

assistant_part_chars : AssistantContent → ℕ
assistant_part_chars (AssistantContent.text s) = text_length s
assistant_part_chars (AssistantContent.thinking s) = text_length s
assistant_part_chars (AssistantContent.tool_call c) = text_length c.name + text_length c.arguments

content_chars : Content → ℕ
content_chars (plain s) = text_length s
content_chars (parts ps) = sum_of user_part_chars ps

message_chars : AgentMessage → ℕ
message_chars (user m) = content_chars m.content
message_chars (assistant m) = sum_of assistant_part_chars m.content
message_chars (tool_result m) = sum_of user_part_chars m.content

unfoldable pub estimate_tokens : AgentMessage → ℕ
unfolding message_chars content_chars user_part_chars assistant_part_chars
estimate_tokens m = (message_chars m + 3) / 4

-- Where usage counts again after a compaction: `fresh_from` is `usage_after_index + 1`, the first
-- index that passes `index > usage_after_index`, also where that index is -1.
pub record Boundary : Type 0 where
  pub after_ms : Option ℕ
  pub fresh_from : Option ℕ

abbrev pub message_timestamp : AgentMessage → ℕ
message_timestamp (user m) = m.timestamp
message_timestamp (assistant m) = m.timestamp
message_timestamp (tool_result m) = m.timestamp

abbrev after_time : Option ℕ → ℕ → Bool
after_time none t = true
after_time (some ms) t = ltb ms t

unfoldable pub after_boundary : Boundary → ℕ → ℕ → Bool
after_boundary b index t = elim b.fresh_from [
  | some first ↦ leb first index
  | none ↦ after_time b.after_ms t
]

-- The provider's count of a completed response, if this message has one.
unfoldable pub reported_usage : AgentMessage → Option ℕ
reported_usage (assistant m) =
    if not (is_failed m.stop_reason) && ltb 0 m.usage.total_tokens
    then some m.usage.total_tokens
    else none
reported_usage _ = none

unfoldable pub usage_at : Boundary → ℕ → AgentMessage → Option ℕ
unfolding reported_usage after_boundary
usage_at b index m = if after_boundary b index (message_timestamp m) then reported_usage m else none

-- The loop over `range(len(messages) - 1, -1, -1)` returns at the last message with usage.
unfoldable pub last_usage : Boundary → ℕ → List AgentMessage → Option ℕ
last_usage b index [] = none
last_usage b index (m ∷ rest) = elim (last_usage b (suc index) rest) [
  | some n ↦ some n
  | none ↦ elim (usage_at b index m) [
    | some n ↦ some (n + sum_of estimate_tokens rest)
    | none ↦ none
  ]
]

unfoldable pub estimate_context_tokens : Boundary → List AgentMessage → ℕ
unfolding last_usage usage_at
estimate_context_tokens b messages = elim (last_usage b 0 messages) [
  | some n ↦ n
  | none ↦ sum_of estimate_tokens messages
]
