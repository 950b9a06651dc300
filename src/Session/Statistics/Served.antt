-- ===== src/Session/Statistics/Served.antt =====
-- The cache that `Session.stats` reads, and the context of the current branch.
use aeloon_runtime.Prelude.{
  ℕ, suc, ◌≡◌, refl, sym, ◌∙◌, ap, String, Option, none, some, List, [], ◌∷◌, ◌++◌, arith,
  Option-cases, inl, inr, lookup,
}
use aeloon_runtime.Messages.{AgentMessage}
use aeloon_runtime.Stats.{count_messages, context_statistics, context_statistics_from_aggregates}
use aeloon_runtime.Stats.Buckets.{Tally}
use aeloon_runtime.Stats.Estimate.{Boundary, usage_at, estimate_context_tokens}
use aeloon_runtime.Session.Entry.{Entry}
use aeloon_runtime.Session.Tree.{returned, get_branch, get_full_branch}
use aeloon_runtime.Session.Tree.Walks.{Ends, get_branch-Ends}
use aeloon_runtime.Session.Context.{
  SessionContext, context_of, build_context, settings_of, no_settings,
}
use aeloon_runtime.Session.ContextCache.{
  ContextStatsCache, context_stats_cache, used_tokens, scan, count_message, empty_cache,
}
use aeloon_runtime.Session.ContextCache.Oracle.{used_tokens-context_stats_cache}
use aeloon_runtime.Session.State.{Session}
use aeloon_runtime.Session.State.Valid.{IsValid, IsExact}
use aeloon_runtime.Session.Statistics.{current_cache, usable}

count_messages-scan :
    (b : Boundary) (i : ℕ) (xs : List AgentMessage) (c : ContextStatsCache)
    → count_messages xs c.message_counts c.estimated_tokens
      ≡ ((scan b i xs c).message_counts, (scan b i xs c).estimated_tokens)
unfolding count_messages scan
count_messages-scan b i [] c = refl
count_messages-scan b i (m ∷ xs) c =
    count_messages-scan b (suc i) xs (count_message m (usage_at b i m) c)

-- Rendered from the cache of a context or computed from the context, the statistics agree.
pub context_statistics-cache :
    (b : Boundary) (xs : List AgentMessage) (version : ℕ) (leaf_id : Option String)
    (window : Option ℕ)
    → let c = context_stats_cache b xs version leaf_id in
      context_statistics_from_aggregates (used_tokens c) c.message_counts c.estimated_tokens window
      ≡ context_statistics xs window b
unfolding context_statistics context_stats_cache
context_statistics-cache b xs version leaf_id window =
    ap
      (λ (used : ℕ).
        context_statistics_from_aggregates used
          (context_stats_cache b xs version leaf_id).message_counts
          (context_stats_cache b xs version leaf_id).estimated_tokens window)
      (used_tokens-context_stats_cache b xs version leaf_id)
    ∙ ap
        (λ (p : Tally × Tally).
          context_statistics_from_aggregates (estimate_context_tokens b xs) p.0 p.1 window)
        (sym (count_messages-scan b 0 xs (empty_cache version leaf_id)))

-- A valid session has a context.
record Built (s : Session) : Type 0 where
  branch : List Entry
  state_branch : List Entry
  walked : get_branch s.by_id s.current_leaf_id ≡ returned branch
  walked_full : get_full_branch s.by_id s.current_leaf_id ≡ returned state_branch

Built-none : (s : Session) → s.current_leaf_id ≡ none → Built s
unfolding get_branch get_full_branch
Built-none s at = record {
  branch = [];
  state_branch = [];
  walked = rw (at, get_branch);
  walked_full = rw (at, get_full_branch);
}

Built-some : (s : Session) (k : String) → s.current_leaf_id ≡ some k → IsValid s → Built s
Built-some s k at v = elim (Option-cases (lookup s.by_id k)) [
  | inl missing ↦ absurd (ground (arith, v.leaf_known))
  | inr (e, here) ↦
      let ends : Ends s.by_id (get_branch s.by_id (some k)) (get_full_branch s.by_id (some k)) e
          [] =
        get_branch-Ends s.by_id k e v.linked here in
      record {
        branch = ends.nodes ++ e ∷ [];
        state_branch = ends.older ++ (ends.nodes ++ e ∷ []);
        walked = rw at ends.branch;
        walked_full = rw at ends.all;
      }
]

IsValid-Built : (s : Session) → IsValid s → Built s
IsValid-Built s v = elim (Option-cases s.current_leaf_id) [
  | inl at ↦ Built-none s at
  | inr (k, at) ↦ Built-some s k at v
]

-- The context that a valid session has.
pub record HasContext (s : Session) : Type 0 where
  pub branch : List Entry
  pub built : SessionContext
  pub walked : get_branch s.by_id s.current_leaf_id ≡ returned branch
  pub returns : build_context s.by_id s.current_leaf_id ≡ returned built
  pub is_context : built.context ≡ context_of branch

pub IsValid-HasContext : (s : Session) → IsValid s → HasContext s
unfolding build_context
IsValid-HasContext s v =
    let b : Built s = IsValid-Built s v in
    record {
      branch = b.branch;
      built = record {
        context = context_of b.branch;
        settings = settings_of no_settings b.state_branch;
      };
      walked = b.walked;
      returns = rw (b.walked, b.walked_full, build_context);
      is_context = refl;
    }

-- The cache that serves a call, old or rebuilt, is that of the context.
pub record Served (s : Session) (branch : List Entry) : Type 0 where
  pub cache : ContextStatsCache
  pub served : current_cache s ≡ returned cache
  pub exact :
      cache
      ≡ context_stats_cache
          (context_of branch).boundary
          (context_of branch).messages
          s.stats_cache_version
          s.current_leaf_id

returned-eq :
    (s : Session) (a b : List Entry)
    → get_branch s.by_id s.current_leaf_id ≡ returned a
    → get_branch s.by_id s.current_leaf_id ≡ returned b
    → a ≡ b
returned-eq s a b p q = cc

rebuilt : (s : Session) (h : HasContext s) → usable s ≡ none → Served s h.branch
unfolding current_cache
rebuilt s h empty = record {
  cache =
      context_stats_cache (context_of h.branch).boundary (context_of h.branch).messages
        s.stats_cache_version s.current_leaf_id;
  served = rw (empty, h.returns, h.is_context, current_cache);
  exact = refl;
}

reused :
    (s : Session) (h : HasContext s) (c : ContextStatsCache)
    → IsExact s c
    → usable s ≡ some c
    → Served s h.branch
unfolding current_cache
reused s h c x full = record {
  cache = c;
  served = rw (full, current_cache);
  exact =
      x.exact
      ∙ ap
          (λ (branch : List Entry).
            context_stats_cache (context_of branch).boundary (context_of branch).messages
              s.stats_cache_version s.current_leaf_id)
          (returned-eq s x.branch h.branch x.walked h.walked);
}

usable-some : (s : Session) (c : ContextStatsCache) → usable s ≡ some c → s.context_cache ≡ some c
unfolding usable
usable-some s c h = ground arith

pub IsValid-Served : (s : Session) (h : HasContext s) → IsValid s → Served s h.branch
IsValid-Served s h v = elim (Option-cases (usable s)) [
  | inl empty ↦ rebuilt s h empty
  | inr (c, full) ↦ reused s h c (v.cached c (usable-some s c full)) full
]
