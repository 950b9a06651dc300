-- ===== src/Inference/Retry.antt =====
-- `InferenceRuntime.request` and `collect_assistant` of inference_runtime.py: a request with its
-- attempts. What a provider streams in an attempt, and whether the wait behind it is cancelled,
-- comes from outside. Hooks, which change what is sent, and the options that only a provider reads
-- are not modelled; the text of an exception is "type: message".
pub mod Published
pub mod Attempts
use aeloon_runtime.Prelude.{
  ℕ, zero, suc, ◌+◌, ◌-◌, ◌*◌, ◌^◌, min, String, Bool, true, false, Option, none, some, List, [],
  ◌∷◌, ◌++◌, ◌&&◌, ◌||◌, not, is_empty, Result, ok, err, if◌then◌else◌, str_eq,
}
use aeloon_runtime.Messages.{AssistantMessage, StopReason, no_usage}
use aeloon_runtime.Compaction.{is_context_overflow, is_error}

pub record Model : Type 0 where
  pub id : String
  pub provider : String
  pub context_window : ℕ
  pub max_output_tokens : ℕ

pub record StreamOptions : Type 0 where
  pub max_retries : Option ℕ
  pub base_delay_ms : ℕ
  pub max_retry_delay_ms : ℕ

-- The events of a provider's stream; the payload of a delta plays no part.
pub data StreamEvent : Type 0 where
  start : StreamEvent
  delta : StreamEvent
  final : AssistantMessage → StreamEvent

-- `inference_error` is an `InferenceError` with `retryable` and `retry_after_ms`.
pub data StreamFailure : Type 0 where
  cancelled : StreamFailure
  inference_error : String → Bool → Option ℕ → StreamFailure
  other_error : String → StreamFailure

-- One attempt: what is streamed, whether the stream then fails, the time, and whether the wait for
-- the next attempt is cancelled.
pub record Attempt : Type 0 where
  pub stream : List StreamEvent
  pub failure : Option StreamFailure
  pub now : ℕ
  pub wait_cancelled : Bool

pub data InferenceEvent : Type 0 where
  message_start : AssistantMessage → (attempt : ℕ) → InferenceEvent
  message_update : (attempt : ℕ) → InferenceEvent
  message_retried : AssistantMessage → (attempt : ℕ) → InferenceEvent
  retry_start : (attempt delay_ms : ℕ) → InferenceEvent
  retry_end : (attempt : ℕ) → InferenceEvent

-- `AssistantMessage((), provider, model, stop_reason=…, error_message=…)`
abbrev pub without_content : Model → ℕ → StopReason → Option String → AssistantMessage
without_content model now reason text = record {
  content = [];
  provider = model.provider;
  model = model.id;
  usage = no_usage;
  stop_reason = reason;
  error_message = text;
  timestamp = now;
}

-- The loop of `collect_assistant`: its events, and whether it saw a start.
unfoldable pub stream_events : Model → ℕ → ℕ → List StreamEvent → List InferenceEvent
stream_events model now attempt [] = []
stream_events model now attempt (start ∷ rest) =
    message_start (without_content model now StopReason.stop none) attempt
    ∷ stream_events model now attempt rest
stream_events model now attempt (delta ∷ rest) =
    message_update attempt ∷ stream_events model now attempt rest
stream_events model now attempt (final m ∷ rest) = stream_events model now attempt rest

unfoldable pub has_start : List StreamEvent → Bool
has_start [] = false
has_start (start ∷ rest) = true
has_start (_ ∷ rest) = has_start rest

-- The message of the last "done" or "error" event.
unfoldable pub last_message : List StreamEvent → Option AssistantMessage
last_message [] = none
last_message (final m ∷ rest) = elim (last_message rest) [ none ↦ some m | some later ↦ some later ]
last_message (_ ∷ rest) = last_message rest

-- `collect_assistant` behind its loop.
unfoldable pub collected : Attempt → Result StreamFailure AssistantMessage
unfolding last_message
collected a = elim a.failure [
  | some f ↦ err f
  | none ↦ elim (last_message a.stream) [
    | some m ↦ ok m
    | none ↦
        err (
          inference_error "InferenceError: Inference stream ended without a final message" true
            none)
  ]
]

-- The message that stands for what an attempt came to.
unfoldable pub attempt_message :
    Model → ℕ → Result StreamFailure AssistantMessage → AssistantMessage
attempt_message model now (ok m) = m
attempt_message model now (err cancelled) =
    without_content model now StopReason.aborted (some "Operation aborted")
attempt_message model now (err (inference_error text retryable after)) =
    without_content model now StopReason.error (some text)
attempt_message model now (err (other_error text)) =
    without_content model now StopReason.error (some text)

-- The events of an attempt; one that streamed no start publishes its message as started.
unfoldable pub attempt_events : Model → ℕ → Attempt → List InferenceEvent
unfolding stream_events has_start attempt_message collected
attempt_events model id a =
    stream_events model a.now id a.stream
    ++ (if has_start a.stream
        then []
        else message_start (attempt_message model a.now (collected a)) id ∷ [])

-- `_NON_RETRYABLE_LIMIT_PATTERN`
abbrev pub non_retryable_limit_pattern : String
non_retryable_limit_pattern =
    "insufficient_quota|quota exceeded|usage limit|out of budget|billing|available balance"

-- `_RETRYABLE_ERROR_PATTERN`
abbrev pub retryable_error_pattern : String
retryable_error_pattern =
    "overloaded|rate.?limit|too many requests|\\b(?:408|409|429|500|502|503|504|524)\\b|service.?unavailable|server.?error|internal.?error|network.?error|connection|fetch failed|enotfound|eai_again|socket|timed? out|timeout|terminated|stream ended|ended without|http2 request did not get a response|please retry"

-- `isinstance(failure, InferenceError) and failure.retryable`
abbrev is_marked : Result StreamFailure AssistantMessage → Bool
is_marked (err (inference_error text retryable after)) = retryable
is_marked _ = false

-- `_retry_delay_ms`
unfoldable pub retry_delay_ms : Result StreamFailure AssistantMessage → ℕ → StreamOptions → ℕ
retry_delay_ms (err (inference_error text retryable (some after))) attempt options =
    min after options.max_retry_delay_ms
retry_delay_ms _ attempt options =
    min (options.base_delay_ms * 2 ^ attempt) options.max_retry_delay_ms

-- What a request returns, with `last_attempt` and `_next_attempt_id` as it leaves them.
pub record Answer : Type 0 where
  pub message : AssistantMessage
  pub last_attempt : ℕ
  pub next_attempt_id : ℕ
  pub events : List InferenceEvent

abbrev with_events : List InferenceEvent → Answer → Answer
with_events before answer = record answer { events = before ++ answer.events }

-- The answer when no attempt follows.
unfoldable pub finished : Model → Attempt → ℕ → ℕ → Bool → Answer
unfolding attempt_events attempt_message collected
finished model a base attempt attempted_retry = record {
  message = attempt_message model a.now (collected a);
  last_attempt = base + attempt;
  next_attempt_id = base + attempt + 1;
  events =
      attempt_events model (base + attempt) a
      ++ (if attempted_retry then retry_end attempt ∷ [] else []);
}

-- What is published before the wait for the next attempt.
unfoldable pub retried : Model → StreamOptions → Attempt → ℕ → ℕ → List InferenceEvent
unfolding attempt_events attempt_message collected retry_delay_ms
retried model options a base attempt =
    attempt_events model (base + attempt) a
    ++ (message_retried (attempt_message model a.now (collected a)) (base + attempt)
        ∷ retry_start (attempt + 1) (retry_delay_ms (collected a) attempt options)
        ∷ [])

-- The answer when the wait behind an attempt is cancelled.
unfoldable pub wait_aborted : Model → Attempt → ℕ → ℕ → Answer
wait_aborted model a base attempt =
    let m = without_content model a.now StopReason.aborted (some "Operation aborted") in
    record {
      message = m;
      last_attempt = base + attempt + 1;
      next_attempt_id = base + attempt + 2;
      events = message_start m (base + attempt + 1) ∷ retry_end (attempt + 1) ∷ [];
    }

-- `3 if options.max_retries is None else max(0, options.max_retries)`
unfoldable pub max_retries : StreamOptions → ℕ
max_retries options = elim options.max_retries [ none ↦ 3 | some n ↦ n ]

module _ (search : String → String → Bool) (model : Model) (options : StreamOptions) where
  -- `_is_retryable_failure`
  unfoldable pub is_retryable_failure :
      AssistantMessage → Result StreamFailure AssistantMessage → Bool
  is_retryable_failure m result =
      let text : String = elim m.error_message [ none ↦ "" | some t ↦ t ] in
      is_error m.stop_reason
      && not (is_context_overflow search m (some model.context_window))
      && (is_marked result
          || (not (search non_retryable_limit_pattern text) && search retryable_error_pattern text))

  -- Whether an attempt that may be repeated is.
  unfoldable pub is_repeated : Attempt → Bool
  unfolding is_retryable_failure attempt_message collected
  is_repeated a = is_retryable_failure (attempt_message model a.now (collected a)) (collected a)

  -- The attempts from `attempt` on, with `left` retries left.
  unfoldable pub request_from : (ℕ → Attempt) → ℕ → ℕ → ℕ → Bool → Answer
  request_from attempts base zero attempt attempted_retry =
      finished model (attempts attempt) base attempt attempted_retry
  request_from attempts base (suc left) attempt attempted_retry =
      let a = attempts attempt in
      elim (is_repeated a) [
        | false ↦ finished model a base attempt attempted_retry
        | true ↦ elim a.wait_cancelled [
          | true ↦
              with_events (retried model options a base attempt) (wait_aborted model a base attempt)
          | false ↦
              with_events (retried model options a base attempt)
                (request_from attempts base left (attempt + 1) true)
        ]
      ]

  -- `request`, behind its hooks, when the next attempt has the id `base`
  unfoldable pub request : (ℕ → Attempt) → ℕ → Answer
  unfolding request_from max_retries finished retried wait_aborted is_repeated
  request attempts base = request_from attempts base (max_retries options) 0 false
