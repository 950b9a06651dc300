-- ===== src/Session/ContextCache/Oracle.antt =====
-- The one-pass aggregates against the estimate of core/context_stats.py, which scans backwards.
use aeloon_runtime.Prelude.{
  ℕ, suc, ◌+◌, ◌≡◌, ap, ◌∙◌, refl, String, Option, none, some, List, [], ◌∷◌, ◌++◌, length, sum_of,
  arith,
}
use aeloon_runtime.Messages.{AgentMessage}
use aeloon_runtime.Stats.Buckets.{total, message_type_for_statistics}
use aeloon_runtime.Stats.Buckets.Scale.{total-bump}
use aeloon_runtime.Stats.Estimate.{
  Boundary, estimate_tokens, last_usage, usage_at, estimate_context_tokens,
}
use aeloon_runtime.Session.ContextCache.{
  ContextStatsCache, used_tokens, count_message, scan, empty_cache, context_stats_cache,
}

-- The last usage in sight, or what was known before and the estimates of the rest.
abbrev or_estimate : Option ℕ → ℕ → ℕ
or_estimate (some n) estimate = n
or_estimate none estimate = estimate

used_tokens-scan :
    (b : Boundary) (i : ℕ) (xs : List AgentMessage) (c : ContextStatsCache)
    → used_tokens (scan b i xs c)
      ≡ or_estimate (last_usage b i xs) (used_tokens c + sum_of estimate_tokens xs)
unfolding used_tokens scan last_usage
used_tokens-scan b i [] c = omega arith
used_tokens-scan b i (m ∷ rest) c =
    ground (arith, used_tokens-scan b (suc i) rest (count_message m (usage_at b i m) c))

-- What the cache keeps in one pass is what `estimate_context_tokens` finds scanning backwards for
-- the last message whose usage counts: the tokens in use agree for every context and boundary.
pub used_tokens-context_stats_cache :
    (b : Boundary) (messages : List AgentMessage) (version : ℕ) (leaf_id : Option String)
    → used_tokens (context_stats_cache b messages version leaf_id)
      ≡ estimate_context_tokens b messages
unfolding context_stats_cache estimate_context_tokens used_tokens
used_tokens-context_stats_cache b messages version leaf_id =
    ground (arith, used_tokens-scan b 0 messages (empty_cache version leaf_id))

-- One more message is one more step of the pass.
pub scan-append :
    (b : Boundary) (i : ℕ) (xs : List AgentMessage) (m : AgentMessage) (c : ContextStatsCache)
    → scan b i (xs ++ m ∷ []) c ≡ count_message m (usage_at b (i + length xs) m) (scan b i xs c)
unfolding scan
scan-append b i [] m c = ap (λ n. count_message m (usage_at b n m) c) (omega arith)
scan-append b i (x ∷ xs) m c =
    scan-append b (suc i) xs m (count_message x (usage_at b i x) c)
    ∙ ap (λ n. count_message m (usage_at b n m) (scan b i (x ∷ xs) c)) (omega arith)

-- The estimates of the buckets add up to the estimate of the whole.
total-scan :
    (b : Boundary) (i : ℕ) (xs : List AgentMessage) (c : ContextStatsCache)
    → total c.estimated_tokens ≡ c.estimated_total
    → total (scan b i xs c).estimated_tokens ≡ (scan b i xs c).estimated_total
unfolding scan
total-scan b i [] c e = e
total-scan b i (m ∷ rest) c e = total-scan b (suc i) rest (count_message m (usage_at b i m) c) (
    omega
      (arith, e, total-bump c.estimated_tokens (message_type_for_statistics m) (estimate_tokens m)))

scan-labels :
    (b : Boundary) (i : ℕ) (xs : List AgentMessage) (c : ContextStatsCache)
    → ((scan b i xs c).version ≡ c.version) × ((scan b i xs c).leaf_id ≡ c.leaf_id)
unfolding scan
scan-labels b i [] c = (refl, refl)
scan-labels b i (m ∷ xs) c = scan-labels b (suc i) xs (count_message m (usage_at b i m) c)

pub context_stats_cache-labels :
    (b : Boundary) (xs : List AgentMessage) (version : ℕ) (leaf_id : Option String)
    → ((context_stats_cache b xs version leaf_id).version ≡ version)
      × ((context_stats_cache b xs version leaf_id).leaf_id ≡ leaf_id)
unfolding context_stats_cache
context_stats_cache-labels b xs version leaf_id = scan-labels b 0 xs (empty_cache version leaf_id)
