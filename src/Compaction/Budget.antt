-- ===== src/Compaction/Budget.antt =====
-- The clamped policy and the room in the window.
use aeloon_runtime.Prelude.{ℕ, ◌+◌, ◌-◌, ◌/◌, min, ◌*◌, ◌≤◌, ◌≡◌, true, false, arith}
use aeloon_runtime.Compaction.{ContextPolicy, should_compact, effective_context_policy}

-- In a window of at least two tokens, the clamped reserve and the clamped tail are positive and fit
-- into the window together; four reserves pass the window by at most four tokens, neither number
-- passes what was configured by more than one, and each is at least the smaller of what was
-- configured and its share: a quarter of the window, and half of what the reserve leaves.
pub effective_policy_fits :
    (policy : ContextPolicy) (window : ℕ)
    → 2 ≤ window
    → let p = effective_context_policy policy window in
      (1 ≤ p.reserve_tokens)
      × (1 ≤ p.keep_recent_tokens)
      × (p.reserve_tokens + p.keep_recent_tokens ≤ window)
      × (4 * p.reserve_tokens ≤ window + 4)
      × (p.reserve_tokens ≤ policy.reserve_tokens + 1)
      × (p.keep_recent_tokens ≤ policy.keep_recent_tokens + 1)
      × (min policy.reserve_tokens (window / 4) ≤ p.reserve_tokens)
      × (min policy.keep_recent_tokens ((window - p.reserve_tokens) / 2) ≤ p.keep_recent_tokens)
unfolding effective_context_policy
effective_policy_fits policy window h = (
  omega arith,
  omega arith,
  omega arith,
  omega arith,
  omega arith,
  omega arith,
  omega arith,
  omega arith,
)

-- Under the clamped form of an enabled policy, in a window of at least four tokens, a full window
-- triggers compaction, and a context of exactly the kept tail does not.
compaction_band :
    (policy : ContextPolicy) (window : ℕ)
    → policy.enabled ≡ true
    → 4 ≤ window
    → let p = effective_context_policy policy window in
      (should_compact window window p ≡ true)
      × (should_compact p.keep_recent_tokens window p ≡ false)
unfolding should_compact effective_context_policy
compaction_band policy window on h = (rw on (ground arith), rw on (ground arith))
