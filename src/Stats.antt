-- ===== src/Stats.antt =====
-- aeloon_runtime/core/context_stats.py: the statistics of a context, rendered from aggregates.
-- `_percent`, which rounds a float, is left out.
pub mod Estimate
pub mod Buckets
pub mod Shares
use aeloon_runtime.Prelude.{
  ℕ, ◌+◌, ◌-◌, max, Bool, true, false, Option, none, some, List, [], ◌∷◌, leb, if◌then◌else◌,
}
use aeloon_runtime.Messages.{AgentMessage}
use Estimate.{Boundary, estimate_tokens, estimate_context_tokens}
use Buckets.{
  Tally, MessageType, system, zeros, bump, total, scale_tokens, percentage_distribution,
  message_type_for_statistics,
}

pub record ContextStatistics : Type 0 where
  pub used_tokens : ℕ
  pub window_tokens : Option ℕ
  pub remaining_tokens : Option ℕ
  pub message_counts : Tally
  pub estimated_tokens : Tally
  pub basis_points : Tally

-- What no message accounts for goes to the system bucket; buckets that pass the total are scaled.
pub attribute_tokens : Tally → ℕ → Tally
attribute_tokens estimates used =
    if leb (total estimates) used
    then bump estimates system (used - total estimates)
    else scale_tokens estimates used

unfoldable pub context_statistics_from_aggregates : ℕ → Tally → Tally → Option ℕ → ContextStatistics
unfolding attribute_tokens
context_statistics_from_aggregates used counts estimated window =
    let window_tokens : Option ℕ = elim window [ none ↦ none | some w ↦ some (max 1 w) ] in
    let estimates = attribute_tokens estimated used in
    record {
      used_tokens = used;
      window_tokens = window_tokens;
      remaining_tokens = elim window_tokens [ none ↦ none | some w ↦ some (w - used) ];
      message_counts = counts;
      estimated_tokens = estimates;
      basis_points = percentage_distribution estimates used;
    }

-- The loop that fills the two dictionaries.
unfoldable pub count_messages : List AgentMessage → Tally → Tally → Tally × Tally
count_messages [] counts estimates = (counts, estimates)
count_messages (m ∷ rest) counts estimates =
    let kind = message_type_for_statistics m in
    count_messages rest (bump counts kind 1) (bump estimates kind (estimate_tokens m))

unfoldable pub context_statistics : List AgentMessage → Option ℕ → Boundary → ContextStatistics
unfolding count_messages
context_statistics messages window boundary =
    let (counts, estimates) = count_messages messages zeros zeros in
    context_statistics_from_aggregates (estimate_context_tokens boundary messages) counts estimates
      window
