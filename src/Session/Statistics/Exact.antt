-- ===== src/Session/Statistics/Exact.antt =====
-- The incremental statistics of a session beside the full scan.
use aeloon_runtime.Prelude.{ℕ, ◌≡◌, ◌∙◌, ap, Option, some, List, arith, subst}
use aeloon_runtime.Stats.{context_statistics, context_statistics_from_aggregates}
use aeloon_runtime.Session.Entry.{Entry}
use aeloon_runtime.Session.Tree.{returned}
use aeloon_runtime.Session.Context.{context_of}
use aeloon_runtime.Session.ContextCache.{ContextStatsCache, used_tokens, context_stats_cache}
use aeloon_runtime.Session.ContextCache.Oracle.{context_stats_cache-labels}
use aeloon_runtime.Session.Lifetime.{
  LifetimeStats, no_totals, no_stats, lifetime_stats, lifetime_stats-cache, cache_statistics,
  entry_usages,
}
use aeloon_runtime.Session.State.{Session}
use aeloon_runtime.Session.State.Valid.{IsValid, IsExact}
use aeloon_runtime.Session.Statistics.{SessionStats, render, stats, stats_full}
use aeloon_runtime.Session.Statistics.Served.{
  HasContext, IsValid-HasContext, Served, IsValid-Served, context_statistics-cache,
}

-- What the full scan of a valid session finds on its branch.
scanned : Session → List Entry → Option ℕ → SessionStats
scanned s branch window =
    let lifetime = lifetime_stats no_stats s.entries in
    record {
      message_count = lifetime.message_count;
      total_tokens = lifetime.total_tokens;
      context = context_statistics (context_of branch).messages window (context_of branch).boundary;
      cache = cache_statistics no_totals (entry_usages s.entries);
    }

stats_full-scanned :
    (s : Session) (h : HasContext s) (window : Option ℕ)
    → stats_full s window ≡ returned (scanned s h.branch window)
unfolding stats_full scanned
stats_full-scanned s h window = rw (h.returns, h.is_context)

Served-context :
    (s : Session) (branch : List Entry) (c : Served s branch) (window : Option ℕ)
    → context_statistics_from_aggregates
        (used_tokens c.cache)
        c.cache.message_counts
        c.cache.estimated_tokens
        window
      ≡ context_statistics (context_of branch).messages window (context_of branch).boundary
Served-context s branch c window =
    ap
      (λ (x : ContextStatsCache).
        context_statistics_from_aggregates (used_tokens x) x.message_counts x.estimated_tokens
          window)
      c.exact
    ∙ context_statistics-cache (context_of branch).boundary (context_of branch).messages
        s.stats_cache_version s.current_leaf_id window

render-scanned :
    (s : Session) (branch : List Entry) (c : Served s branch) (window : Option ℕ)
    → IsValid s
    → render s c.cache window ≡ scanned s branch window
unfolding render scanned
render-scanned s branch c window v = λ i. record {
  message_count = (v.counted i).message_count;
  total_tokens = (v.counted i).total_tokens;
  context = Served-context s branch c window i;
  cache =
      (ap (λ (l : LifetimeStats). l.cache) v.counted ∙ lifetime_stats-cache no_stats s.entries) i;
}

Served-IsExact :
    (s : Session) (h : HasContext s) (c : Served s h.branch)
    → IsExact (record s { context_cache = some c.cache }) c.cache
Served-IsExact s h c =
    let labels : ((context_stats_cache (context_of h.branch).boundary (context_of h.branch).messages
            s.stats_cache_version s.current_leaf_id).version
          ≡ s.stats_cache_version)
        × ((context_stats_cache (context_of h.branch).boundary (context_of h.branch).messages
              s.stats_cache_version s.current_leaf_id).leaf_id
            ≡ s.current_leaf_id) =
      context_stats_cache-labels (context_of h.branch).boundary (context_of h.branch).messages
        s.stats_cache_version s.current_leaf_id in
    record {
      version_now = ap (λ (x : ContextStatsCache). x.version) c.exact ∙ labels.0;
      leaf_now = ap (λ (x : ContextStatsCache). x.leaf_id) c.exact ∙ labels.1;
      branch = h.branch;
      walked = h.walked;
      exact = c.exact;
    }

-- After the call the session is still valid.
Served-IsValid :
    (s : Session) (h : HasContext s) (c : Served s h.branch)
    → IsValid s
    → IsValid (record s { context_cache = some c.cache })
Served-IsValid s h c v = record {
  indexed = v.indexed;
  linked = v.linked;
  leaf_known = v.leaf_known;
  counted = v.counted;
  written = v.written;
  safe = v.safe;
  cached = λ c' p.
      let same : c.cache ≡ c' = cc in
      subst (IsExact (record s { context_cache = some c.cache })) same (Served-IsExact s h c);
}

-- On a valid session `stats` returns, and returns exactly what the full scan `_stats_full`
-- returns; it leaves a valid session behind.
pub stats-eq-stats_full :
    (s : Session) (window : Option ℕ)
    → IsValid s
    → (s' : Session) × (result : SessionStats) × (stats s window ≡ returned (s', result))
      × (stats_full s window ≡ returned result)
      × IsValid s'
unfolding stats
stats-eq-stats_full s window v =
    let h : HasContext s = IsValid-HasContext s v in
    let c : Served s h.branch = IsValid-Served s h v in
    (
      record s { context_cache = some c.cache },
      scanned s h.branch window,
      rw (c.served, stats)
          (ap (λ (r : SessionStats). returned (record s { context_cache = some c.cache }, r))
            (render-scanned s h.branch c window v)),
      stats_full-scanned s h window,
      Served-IsValid s h c v,
    )

-- The call changes nothing but the cache.
pub stats-parts :
    (s s' : Session) (result : SessionStats) (window : Option ℕ)
    → stats s window ≡ returned (s', result)
    → (s'.entries ≡ s.entries) × (s'.current_leaf_id ≡ s.current_leaf_id)
unfolding stats
stats-parts s s' result window done = ground arith

pub stats-IsValid :
    (s s' : Session) (result : SessionStats) (window : Option ℕ)
    → IsValid s
    → stats s window ≡ returned (s', result)
    → IsValid s'
stats-IsValid s s' result window v done =
    let (t, found, quick, full, valid) = stats-eq-stats_full s window v in
    let same : t ≡ s' = cc in subst IsValid same valid
