-- ===== src/Compaction/Overflow.antt =====
-- What `is_context_overflow` takes for an overflow.
use aeloon_runtime.Prelude.{ℕ, ◌≤◌, ◌<◌, ◌≡◌, Bool, true, false, Option, some, arith, String}
use aeloon_runtime.Messages.{AssistantMessage, StopReason}
use aeloon_runtime.Compaction.{is_context_overflow, matches, non_overflow_patterns}

-- A message that ended with an error whose text looks like throttling is never an overflow,
-- whatever else the text matches and whatever the window.
throttled :
    (search : String → String → Bool) (m : AssistantMessage) (window : Option ℕ) (text : String)
    → m.stop_reason ≡ StopReason.error
    → m.error_message ≡ some text
    → matches search non_overflow_patterns text ≡ true
    → is_context_overflow search m window ≡ false
unfolding is_context_overflow
throttled search m window text e t h = ground arith

-- A message that overflows a window overflows every smaller one of at least one token.
pub overflow_monotone :
    (search : String → String → Bool) (m : AssistantMessage) (window smaller : ℕ)
    → 0 < smaller
    → smaller ≤ window
    → is_context_overflow search m (some window) ≡ true
    → is_context_overflow search m (some smaller) ≡ true
unfolding is_context_overflow
overflow_monotone search m window smaller p le h = ground arith
