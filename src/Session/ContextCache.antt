-- ===== src/Session/ContextCache.antt =====
-- `_ContextStatsCache` and `_context_stats_cache` of session.py: the statistics of a context, kept
-- up to date message by message.
pub mod Oracle
use aeloon_runtime.Prelude.{ℕ, suc, ◌+◌, String, Option, none, some, List, [], ◌∷◌}
use aeloon_runtime.Messages.{AgentMessage}
use aeloon_runtime.Stats.Buckets.{Tally, zeros, bump, message_type_for_statistics}
use aeloon_runtime.Stats.Estimate.{Boundary, estimate_tokens, reported_usage, usage_at}

pub record ContextStatsCache : Type 0 where
  pub version : ℕ
  pub leaf_id : Option String
  pub message_counts : Tally
  pub estimated_tokens : Tally
  pub estimated_total : ℕ
  pub usage_anchor : Option ℕ
  pub trailing_tokens : ℕ

unfoldable pub used_tokens : ContextStatsCache → ℕ
used_tokens c = elim c.usage_anchor [ none ↦ c.estimated_total | some n ↦ n + c.trailing_tokens ]

-- What one message does to the aggregates, given the usage that it reports.
abbrev pub count_message : AgentMessage → Option ℕ → ContextStatsCache → ContextStatsCache
count_message m usage c =
    let estimated = estimate_tokens m in
    let kind = message_type_for_statistics m in
    record c {
      message_counts = bump c.message_counts kind 1;
      estimated_tokens = bump c.estimated_tokens kind estimated;
      estimated_total = c.estimated_total + estimated;
      usage_anchor = elim usage [ some n ↦ some n | none ↦ c.usage_anchor ];
      trailing_tokens = elim usage [
        | some n ↦ 0
        | none ↦ elim c.usage_anchor [
          | some a ↦ c.trailing_tokens + estimated
          | none ↦ c.trailing_tokens
        ]
      ];
    }

-- `_ContextStatsCache.append`
unfoldable pub append : AgentMessage → ℕ → String → ContextStatsCache → ContextStatsCache
append m version leaf_id c = record (count_message m (reported_usage m) c) {
  version = version;
  leaf_id = some leaf_id;
}

-- The loop of `_context_stats_cache` from message `index` on.
unfoldable pub scan : Boundary → ℕ → List AgentMessage → ContextStatsCache → ContextStatsCache
scan b index [] c = c
scan b index (m ∷ rest) c = scan b (suc index) rest (count_message m (usage_at b index m) c)

-- The aggregates of no message.
abbrev pub empty_cache : ℕ → Option String → ContextStatsCache
empty_cache version leaf_id = record {
  version = version;
  leaf_id = leaf_id;
  message_counts = zeros;
  estimated_tokens = zeros;
  estimated_total = 0;
  usage_anchor = none;
  trailing_tokens = 0;
}

unfoldable pub context_stats_cache :
    Boundary → List AgentMessage → ℕ → Option String → ContextStatsCache
unfolding scan
context_stats_cache b messages version leaf_id = scan b 0 messages (empty_cache version leaf_id)
