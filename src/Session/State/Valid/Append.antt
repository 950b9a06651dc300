-- ===== src/Session/State/Valid/Append.antt =====
-- The invariant under appended entries and moved leaves.
use aeloon_runtime.Prelude.{
  ℕ, suc, ◌≡◌, refl, sym, ◌∙◌, ap, subst, String, Bool, false, Option, none, some, List, [], ◌∷◌,
  ◌++◌, length, arith, Option-cases, inl, inr, has_key_self,
}
use aeloon_runtime.Messages.{AgentMessage}
use aeloon_runtime.Session.Entry.{Entry, Payload, is_compaction}
use aeloon_runtime.Session.Tree.{Index, returned, get_branch}
use aeloon_runtime.Session.Tree.Linked.{Linked, IsKnown}
use aeloon_runtime.Session.Tree.Growth.{get_branch-append}
use aeloon_runtime.Session.Context.{context_of, entry_messages}
use aeloon_runtime.Session.Context.Growth.{context_of-append}
use aeloon_runtime.Session.Context.Boundaries.{usage_at-end}
use aeloon_runtime.Session.Lifetime.{no_stats, add, lifetime_stats-append}
use aeloon_runtime.Session.ContextCache.{
  ContextStatsCache, context_stats_cache, append, count_message, scan, empty_cache,
}
use aeloon_runtime.Session.ContextCache.Oracle.{scan-append}
use aeloon_runtime.Stats.Estimate.{Boundary, usage_at, reported_usage}
use aeloon_runtime.Session.State.{
  Session, Journal, Draw, new_entry, entry_id, append_entry, update_cache, context_message, persist,
}
use aeloon_runtime.Session.State.Valid.{
  IsExact, IsValid, IsFresh, entry_id-unused, entry_id-named, persist-IsSafe, index_of-append,
  parent_of-leaf, branch-IsFreshIn,
}

scan-relabel :
    (b : Boundary) (i : ℕ) (xs : List AgentMessage) (c : ContextStatsCache) (version : ℕ)
    (leaf_id : Option String)
    → scan b i xs (record c { version = version; leaf_id = leaf_id })
      ≡ record (scan b i xs c) { version = version; leaf_id = leaf_id }
unfolding scan
scan-relabel b i [] c version leaf_id = refl
scan-relabel b i (m ∷ xs) c version leaf_id =
    scan-relabel b (suc i) xs (count_message m (usage_at b i m) c) version leaf_id

-- One step of the cache is a full count over one message more.
append-context_stats_cache :
    (b : Boundary) (xs : List AgentMessage) (m : AgentMessage) (version new : ℕ)
    (leaf_id : Option String) (id : String)
    → usage_at b (length xs) m ≡ reported_usage m
    → append m new id (context_stats_cache b xs version leaf_id)
      ≡ context_stats_cache b (xs ++ m ∷ []) new (some id)
unfolding append context_stats_cache
append-context_stats_cache b xs m version new leaf_id id h =
    let old : ContextStatsCache = scan b 0 xs (empty_cache new (some id)) in
    sym (
      scan-append b 0 xs m (empty_cache new (some id))
      ∙ ap (λ n. count_message m (usage_at b n m) old) (omega arith)
      ∙ ap (λ u. count_message m u old) h
      ∙ ap (count_message m (reported_usage m))
          (scan-relabel b 0 xs (empty_cache version leaf_id) new (some id)))

message_plain :
    (p : Payload) (m : AgentMessage)
    → context_message p ≡ some m
    → (is_compaction p ≡ false) × (entry_messages p ≡ m ∷ [])
unfolding context_message entry_messages
message_plain p m h = ground arith

pub new-Linked :
    (s : Session) (draw : Draw) (p : Payload)
    → IsValid s
    → IsFresh s.by_id draw
    → Linked ((entry_id s.by_id draw, new_entry s draw p) ∷ s.by_id)
new-Linked s draw p v f = (
  refl,
  entry_id-unused s.by_id draw f,
  subst (IsKnown s.by_id)
      (sym
        (parent_of-leaf s.by_id s.current_leaf_id (new_entry s draw p) v.linked v.leaf_known refl))
      v.leaf_known,
  v.linked,
  entry_id-named s.by_id draw f,
)

pub persist-lines :
    (j : Journal) (e : Entry) (durable : Bool) → (persist j e durable).lines ≡ j.lines ++ e ∷ []
unfolding persist
persist-lines j e durable = ground arith

-- Where the cache is kept, it was there and the entry is a message of the context.
record Kept (before : Option ContextStatsCache) (version : ℕ) (e : Entry) (c : ContextStatsCache)
    : Type 0 where
  old : ContextStatsCache
  added : AgentMessage
  was : before ≡ some old
  reads : context_message e.payload ≡ some added
  next : c ≡ append added (suc version) e.id old

update_cache-Kept :
    (before : Option ContextStatsCache) (version : ℕ) (leaf_id : Option String) (e : Entry)
    (c : ContextStatsCache)
    → update_cache before version leaf_id e ≡ some c
    → Kept before version e c
unfolding update_cache
update_cache-Kept none version leaf_id e c h = absurd (ground arith)
update_cache-Kept (some old) version leaf_id e c h =
    elim (Option-cases (context_message e.payload)) [
      | inl silent ↦ absurd (ground arith)
      | inr (m, reads) ↦ record {
        old = old;
        added = m;
        was = refl;
        reads = reads;
        next = ground arith;
      }
    ]

-- The cache that survives an append is exact for the longer branch.
module _ (s : Session) (draw : Draw) (durable : Bool) (p : Payload) (v : IsValid s)
    (f : IsFresh s.by_id draw) where
  grown_branch :
      (branch : List Entry)
      → is_compaction p ≡ false
      → get_branch s.by_id s.current_leaf_id ≡ returned branch
      → get_branch
          ((entry_id s.by_id draw, new_entry s draw p) ∷ s.by_id)
          (some (entry_id s.by_id draw))
        ≡ returned (branch ++ new_entry s draw p ∷ [])
  grown_branch branch plain walked =
      get_branch-append s.by_id (entry_id s.by_id draw) (new_entry s draw p) s.current_leaf_id
        branch (entry_id-unused s.by_id draw f)
        (parent_of-leaf s.by_id s.current_leaf_id (new_entry s draw p) v.linked v.leaf_known refl)
        plain walked

  grown_context :
      (branch : List Entry) (m : AgentMessage)
      → context_message p ≡ some m
      → get_branch s.by_id s.current_leaf_id ≡ returned branch
      → context_of (branch ++ new_entry s draw p ∷ [])
        ≡ record (context_of branch) { messages = (context_of branch).messages ++ m ∷ [] }
  grown_context branch m plain walked = rw (← (message_plain p m plain).1) (
      context_of-append branch (new_entry s draw p) (message_plain p m plain).0 (
        branch-IsFreshIn s.by_id s.current_leaf_id branch (new_entry s draw p) v.linked
          (entry_id-unused s.by_id draw f) walked))

  append_entry-IsExact :
      (old : ContextStatsCache) (m : AgentMessage)
      → IsExact s old
      → context_message p ≡ some m
      → IsExact
          (append_entry s draw durable p).0
          (append m (suc s.stats_cache_version) (entry_id s.by_id draw) old)
  unfolding append_entry
  append_entry-IsExact old m x plain = record {
    version_now = unfold append in refl;
    leaf_now = unfold append in refl;
    branch = x.branch ++ new_entry s draw p ∷ [];
    walked = grown_branch x.branch (message_plain p m plain).0 x.walked;
    exact =
        ap (append m (suc s.stats_cache_version) (entry_id s.by_id draw)) x.exact
        ∙ append-context_stats_cache (context_of x.branch).boundary (context_of x.branch).messages m
            s.stats_cache_version (suc s.stats_cache_version) s.current_leaf_id
            (entry_id s.by_id draw) (usage_at-end x.branch m)
        ∙ ap
            (λ c.
              context_stats_cache c.boundary c.messages (suc s.stats_cache_version)
                (some (entry_id s.by_id draw)))
            (sym (grown_context x.branch m plain x.walked));
  }

  append_entry-cached :
      (c : ContextStatsCache)
      → (append_entry s draw durable p).0.context_cache ≡ some c
      → IsExact (append_entry s draw durable p).0 c
  unfolding append_entry
  append_entry-cached c h =
      let k : Kept s.context_cache s.stats_cache_version (new_entry s draw p) c =
        update_cache-Kept s.context_cache s.stats_cache_version s.current_leaf_id
          (new_entry s draw p) c h in
      subst (IsExact (append_entry s draw durable p).0) (sym k.next)
        (append_entry-IsExact k.old k.added (v.cached k.old k.was) k.reads)

  -- Appending an entry with a fresh id keeps the invariant: the index, the lifetime totals and the
  -- journal follow, and the cached statistics, where they are kept, are those of the new context.
  pub append_entry-IsValid : IsValid (append_entry s draw durable p).0
  unfolding append_entry
  append_entry-IsValid = record {
    indexed =
        ap (λ (d : Index). (entry_id s.by_id draw, new_entry s draw p) ∷ d) v.indexed
        ∙ sym (index_of-append [] s.entries (new_entry s draw p));
    linked = new-Linked s draw p v f;
    leaf_known = has_key_self s.by_id (entry_id s.by_id draw) (new_entry s draw p);
    counted =
        ap (λ l. add l (new_entry s draw p)) v.counted
        ∙ sym (lifetime_stats-append no_stats s.entries (new_entry s draw p));
    written =
        persist-lines s.journal (new_entry s draw p) durable
        ∙ ap (λ (ls : List Entry). ls ++ new_entry s draw p ∷ []) v.written;
    safe = persist-IsSafe s.journal (new_entry s draw p) durable v.safe;
    cached = append_entry-cached;
  }
