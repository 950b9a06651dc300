-- ===== src/Session/Statistics.antt =====
-- `Session.stats`, and `Session._stats_full`, which scans everything again.
pub mod Served
pub mod Exact
use aeloon_runtime.Prelude.{
  ℕ, ◌==◌, Bool, true, false, Option, none, some, List, [], ◌∷◌, if◌then◌else◌,
}
use aeloon_runtime.Stats.{ContextStatistics, context_statistics, context_statistics_from_aggregates}
use aeloon_runtime.Session.Tree.{Outcome, returned, ◌>>=◌}
use aeloon_runtime.Session.Context.{build_context}
use aeloon_runtime.Session.ContextCache.{ContextStatsCache, context_stats_cache, used_tokens}
use aeloon_runtime.Session.Lifetime.{
  CacheTotals, no_totals, no_stats, lifetime_stats, cache_statistics, entry_usages,
}
use aeloon_runtime.Session.State.{Session}

pub record SessionStats : Type 0 where
  pub message_count : ℕ
  pub total_tokens : ℕ
  pub context : ContextStatistics
  pub cache : CacheTotals

-- The cache that serves the call: the old one, if its version is the session's.
usable : Session → Option ContextStatsCache
usable s = elim s.context_cache [
  | none ↦ none
  | some c ↦ if c.version == s.stats_cache_version then some c else none
]

rebuild : Session → Outcome ContextStatsCache
rebuild s = do
  built ← build_context s.by_id s.current_leaf_id
  returned (
      context_stats_cache built.context.boundary built.context.messages s.stats_cache_version
        s.current_leaf_id)

pub current_cache : Session → Outcome ContextStatsCache
unfolding usable rebuild
current_cache s = elim (usable s) [ some c ↦ returned c | none ↦ rebuild s ]

pub render : Session → ContextStatsCache → Option ℕ → SessionStats
render s c window = record {
  message_count = s.lifetime.message_count;
  total_tokens = s.lifetime.total_tokens;
  context =
      context_statistics_from_aggregates (used_tokens c) c.message_counts c.estimated_tokens window;
  cache = s.lifetime.cache;
}

unfoldable pub stats : Session → Option ℕ → Outcome (Session × SessionStats)
stats s window = do
  c ← current_cache s
  returned (record s { context_cache = some c }, render s c window)

unfoldable pub stats_full : Session → Option ℕ → Outcome SessionStats
stats_full s window = do
  let lifetime = lifetime_stats no_stats s.entries
  built ← build_context s.by_id s.current_leaf_id
  returned (record {
    message_count = lifetime.message_count;
    total_tokens = lifetime.total_tokens;
    context = context_statistics built.context.messages window built.context.boundary;
    cache = cache_statistics no_totals (entry_usages s.entries);
  })
