-- ===== src/Compaction.antt =====
-- aeloon_runtime/core/compaction.py: when a context is compacted, and what counts as an overflow.
-- `re` is not modelled: `search pattern text` stands for `re.search(pattern, text, IGNORECASE)`.
pub mod Budget
pub mod Overflow
use aeloon_runtime.Prelude.{
  ℕ, ◌+◌, ◌-◌, ◌*◌, ◌/◌, min, max, String, Bool, true, false, Option, none, some, List, [], ◌∷◌,
  ◌&&◌, ◌||◌, not, ltb, leb, ◌==◌, any, str_eq, truthy, if◌then◌else◌,
}
use aeloon_runtime.Messages.{AssistantMessage, StopReason}

pub record ContextPolicy : Type 0 where
  pub enabled : Bool
  pub reserve_tokens : ℕ
  pub keep_recent_tokens : ℕ

-- `ContextPolicy()`
abbrev pub default_policy : ContextPolicy
default_policy = record { enabled = true; reserve_tokens = 16384; keep_recent_tokens = 20000 }

-- `context_tokens > context_window - reserve_tokens`, where the difference may be negative
unfoldable pub should_compact : ℕ → ℕ → ContextPolicy → Bool
should_compact context_tokens context_window policy =
    policy.enabled && ltb context_window (context_tokens + policy.reserve_tokens)

unfoldable pub effective_context_policy : ContextPolicy → ℕ → ContextPolicy
effective_context_policy policy context_window =
    let window = max 1 context_window in
    let reserve = max 1 (min policy.reserve_tokens (window / 4)) in
    record {
      enabled = policy.enabled;
      reserve_tokens = reserve;
      keep_recent_tokens = max 1 (min policy.keep_recent_tokens ((window - reserve) / 2));
    }

-- `_OVERFLOW_PATTERNS`
abbrev pub overflow_patterns : List String
overflow_patterns =
    "prompt is too long" ∷ "request_too_large" ∷ "input is too long for requested model"
    ∷ "exceeds the context window"
    ∷ "exceeds (?:the )?(?:model'?s )?maximum context length(?: of [\\d,]+ tokens?|\\s*\\([\\d,]+\\))?"
    ∷ "input token count.*exceeds the maximum" ∷ "maximum prompt length is \\d+"
    ∷ "reduce the length of the messages" ∷ "maximum context length (?:is |of )?[\\d,]+ tokens?"
    ∷ "exceeds (?:the )?maximum allowed input length of [\\d,]+ tokens?"
    ∷ "input \\([\\d,]+ tokens?\\) is longer than the model'?s context length"
    ∷ "exceeds the limit of [\\d,]+" ∷ "exceeds the available context size"
    ∷ "greater than the context length" ∷ "context window exceeds limit"
    ∷ "exceeded model token limit" ∷ "too large for model with [\\d,]+ maximum context length"
    ∷ "prompt has [\\d,]+ tokens?, but the configured context size is [\\d,]+ tokens?"
    ∷ "model_context_window_exceeded" ∷ "prompt too long; exceeded (?:max )?context length"
    ∷ "range of input length should be" ∷ "context[_ ]length[_ ]exceeded" ∷ "too many tokens"
    ∷ "token limit exceeded" ∷ "^4(?:00|13)\\s*(?:status code)?\\s*\\(no body\\)" ∷ []

-- `_NON_OVERFLOW_PATTERNS`
abbrev pub non_overflow_patterns : List String
non_overflow_patterns =
    "^(?:throttling error|service unavailable):" ∷ "rate limit" ∷ "too many requests"
    ∷ "throttl(?:e|ed|ing)" ∷ []

unfoldable pub is_error : StopReason → Bool
is_error StopReason.error = true
is_error _ = false

-- The tests behind `if context_window and context_window > 0`. The source compares with the
-- float `context_window * 0.99`; here the comparison is the exact one.
silent_overflow : AssistantMessage → ℕ → StopReason → Bool
silent_overflow m window StopReason.stop = ltb window (m.usage.input + m.usage.cache_read)
silent_overflow m window StopReason.length =
    m.usage.output == 0 && leb (window * 99) ((m.usage.input + m.usage.cache_read) * 100)
silent_overflow m window _ = false

module _ (search : String → String → Bool) where
  -- `any(pattern.search(text) for pattern in patterns)`
  unfoldable pub matches : List String → String → Bool
  matches patterns text = any (λ pattern. search pattern text) patterns

  -- An error whose text is there, matches an overflow and is no throttling.
  unfoldable pub reports_overflow : AssistantMessage → Bool
  unfolding matches
  reports_overflow m = elim (truthy m.error_message) [
    | none ↦ false
    | some text ↦ not (matches non_overflow_patterns text) && matches overflow_patterns text
  ]

  unfoldable pub is_context_overflow : AssistantMessage → Option ℕ → Bool
  unfolding reports_overflow is_error silent_overflow
  is_context_overflow m context_window =
      (is_error m.stop_reason && reports_overflow m) || elim context_window [
        | none ↦ false
        | some window ↦ ltb 0 window && silent_overflow m window m.stop_reason
      ]
