-- ===== src/Examples/Inference.antt =====
-- A history with an unanswered call and a failed answer, and a request that is tried twice.
use aeloon_runtime.Prelude.{
  ℕ, zero, suc, ◌+◌, ◌≤◌, ◌≡◌, refl, String, true, false, none, some, List, [], ◌∷◌, ltb, get_elem?,
  str_eq,
}
use aeloon_runtime.Messages.{
  AgentMessage, user, assistant, tool_result, AssistantMessage, AssistantContent, StopReason,
  Content, no_usage, tool_calls,
}
use aeloon_runtime.Compaction.{is_error, is_context_overflow}
use aeloon_runtime.Inference.Projection.{
  add_calls, put_call, project, normalize_inference_messages, project_inference_messages, no_result,
}
use aeloon_runtime.Inference.Projection.Answers.{Replayable, conversation, normalized-Replayable}
use aeloon_runtime.Inference.Projection.Boundaries.{boundary_kept}
use aeloon_runtime.Inference.Retry.{
  Model, has_start, StreamOptions, start, delta, final, inference_error, Attempt, request,
  max_retries,
}
use aeloon_runtime.Inference.Retry.Published.{started, StartsOnce, ids_from, WaitsWithin}
use aeloon_runtime.Inference.Retry.Attempts.{attempts_in_order}

abbrev pub says : String → StopReason → AssistantMessage
says text reason = record {
  content = AssistantContent.text text ∷ [];
  provider = "studio";
  model = "small";
  usage = no_usage;
  stop_reason = reason;
  error_message = none;
  timestamp = 1;
}

abbrev calls_shell : AssistantMessage
calls_shell = record (says "look" StopReason.tool_use) {
  content =
      AssistantContent.tool_call (record { id = "c1"; name = "shell"; arguments = "{}" }) ∷ [];
}

abbrev pub asks : String → AgentMessage
asks text = user (record { content = Content.plain text; timestamp = 0 })

abbrev history : List AgentMessage
history =
    asks "hi" ∷ assistant calls_shell ∷ assistant (says "half" StopReason.error) ∷ asks "go on" ∷ []

-- The call gets a result, and the failed answer is left out.
projected :
    project 9 history
    ≡ (asks "hi", 0)
      ∷ (assistant calls_shell, 1)
      ∷ (tool_result (no_result 9 "c1" "shell"), 1)
      ∷ (asks "go on", 3)
      ∷ []
unfolding project add_calls put_call tool_calls
projected = refl

normalized-Replayable_example :
    Replayable (normalize_inference_messages 9 history)
    × (conversation (normalize_inference_messages 9 history) ≡ conversation history)
normalized-Replayable_example = normalized-Replayable 9 history

go_on : get_elem? (project 9 history) 3 ≡ some (asks "go on", 3)
unfolding project add_calls put_call tool_calls
go_on = refl

boundary_kept_example :
    (fresh : ℕ) × ((project_inference_messages 9 history (some 2)).1 ≡ some fresh)
    × (get_elem? history 3 ≡ some (asks "go on"))
    × (ltb 3 fresh ≡ ltb 3 2)
boundary_kept_example = boundary_kept 9 2 3 3 history (asks "go on") go_on refl

abbrev pub model : Model
model = record { id = "small"; provider = "studio"; context_window = 1000; max_output_tokens = 100 }

abbrev pub options : StreamOptions
options = record { max_retries = some 1; base_delay_ms = 2000; max_retry_delay_ms = 60000 }

-- The first attempt starts and breaks off; the second one answers without a start.
abbrev attempts : ℕ → Attempt
attempts zero = record {
  stream = start ∷ delta ∷ [];
  failure = some (inference_error "InferenceError: overloaded" true none);
  now = 3;
  wait_cancelled = false;
}
attempts (suc n) = record {
  stream = final (says "done" StopReason.stop) ∷ [];
  failure = none;
  now = 4;
  wait_cancelled = false;
}

attempts-StartsOnce : (n : ℕ) → StartsOnce (attempts n).stream
unfolding has_start
attempts-StartsOnce zero = refl
attempts-StartsOnce (suc n) = refl

second_answers : (request str_eq model options attempts 5).message ≡ says "done" StopReason.stop
unfolding request is_error is_context_overflow
second_answers = refl

attempts_in_order_example :
    let answer = request str_eq model options attempts 5 in
    (count : ℕ) × (count ≤ max_retries options + 2)
    × (started answer.events ≡ ids_from 5 count)
    × (answer.last_attempt + 1 ≡ 5 + count)
    × (answer.next_attempt_id ≡ 5 + count)
    × WaitsWithin options.max_retry_delay_ms answer.events
attempts_in_order_example = attempts_in_order str_eq model options attempts 5 attempts-StartsOnce
