-- ===== src/Examples/Compaction.antt =====
-- Policies and overflows of a small window.
use aeloon_runtime.Prelude.{min, ◌-◌, ◌/◌, ◌+◌, ◌*◌, ◌≤◌, ◌≡◌, refl, true, some, [], arith, str_eq}
use aeloon_runtime.Messages.{AssistantMessage, StopReason, no_usage}
use aeloon_runtime.Compaction.{
  default_policy, effective_context_policy, is_context_overflow, matches, non_overflow_patterns,
}
use aeloon_runtime.Compaction.Budget.{effective_policy_fits}

-- A window of 1000 tokens keeps 250 in reserve and 375 of the tail.
clamped :
    effective_context_policy default_policy 1000
    ≡ record { enabled = true; reserve_tokens = 250; keep_recent_tokens = 375 }
unfolding effective_context_policy
clamped = refl

effective_policy_fits_example :
    let p = effective_context_policy default_policy 1000 in
    (1 ≤ p.reserve_tokens)
    × (1 ≤ p.keep_recent_tokens)
    × (p.reserve_tokens + p.keep_recent_tokens ≤ 1000)
    × (4 * p.reserve_tokens ≤ 1000 + 4)
    × (p.reserve_tokens ≤ default_policy.reserve_tokens + 1)
    × (p.keep_recent_tokens ≤ default_policy.keep_recent_tokens + 1)
    × (min default_policy.reserve_tokens (1000 / 4) ≤ p.reserve_tokens)
    × (min default_policy.keep_recent_tokens ((1000 - p.reserve_tokens) / 2) ≤ p.keep_recent_tokens)
effective_policy_fits_example = effective_policy_fits default_policy 1000 (omega arith)

abbrev message : StopReason → AssistantMessage
message reason = record {
  content = [];
  provider = "studio";
  model = "small";
  usage = record no_usage { input = 100 };
  stop_reason = reason;
  error_message = some "rate limit";
  timestamp = 1;
}

-- Patterns without operators search for themselves: here, the whole text.
rate_limited : matches str_eq non_overflow_patterns "rate limit" ≡ true
unfolding matches
rate_limited = refl

overflowing : is_context_overflow str_eq (message StopReason.length) (some 101) ≡ true
unfolding is_context_overflow
overflowing = refl
