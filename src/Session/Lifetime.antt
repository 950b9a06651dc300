-- ===== src/Session/Lifetime.antt =====
-- `_LifetimeStats` of session.py and `cache_statistics` of core/context_stats.py. The costs, which
-- are floats, are left out.
use aeloon_runtime.Prelude.{
  ℕ, ◌+◌, ◌≡◌, refl, Bool, true, false, Option, none, some, List, [], ◌∷◌, ◌++◌, ltb, ◌||◌, arith,
  if◌then◌else◌,
}
use aeloon_runtime.Messages.{Usage, AgentMessage}
use aeloon_runtime.Session.Entry.{Entry, Payload, message, compaction, branch_summary}

-- The token and request counts that both routines keep.
pub record CacheTotals : Type 0 where
  pub input_tokens : ℕ
  pub cache_read : ℕ
  pub cache_write : ℕ
  pub request_count : ℕ
  pub hit_request_count : ℕ

abbrev pub no_totals : CacheTotals
no_totals = record {
  input_tokens = 0;
  cache_read = 0;
  cache_write = 0;
  request_count = 0;
  hit_request_count = 0;
}

abbrev pub one_if : Bool → ℕ
one_if b = if b then 1 else 0

-- The same few lines stand in `_LifetimeStats.add` and in the loop of `cache_statistics`.
abbrev pub count_usage : CacheTotals → Usage → CacheTotals
count_usage t u = record {
  input_tokens = t.input_tokens + u.input;
  cache_read = t.cache_read + u.cache_read;
  cache_write = t.cache_write + u.cache_write;
  request_count =
      t.request_count + one_if (ltb 0 u.input || ltb 0 u.cache_read || ltb 0 u.cache_write);
  hit_request_count = t.hit_request_count + one_if (ltb 0 u.cache_read);
}

unfoldable pub cache_statistics : CacheTotals → List Usage → CacheTotals
cache_statistics t [] = t
cache_statistics t (u ∷ rest) = cache_statistics (count_usage t u) rest

abbrev pub message_usage : AgentMessage → Option Usage
message_usage (AgentMessage.assistant m) = some m.usage
message_usage _ = none

-- The usage that an entry reports.
abbrev pub entry_usage : Payload → Option Usage
entry_usage (message m) = message_usage m
entry_usage (compaction c) = c.usage
entry_usage (branch_summary b) = b.usage
entry_usage _ = none

abbrev pub is_message : Payload → Bool
is_message (message m) = true
is_message _ = false

pub record LifetimeStats : Type 0 where
  pub message_count : ℕ
  pub total_tokens : ℕ
  pub cache : CacheTotals

abbrev pub no_stats : LifetimeStats
no_stats = record { message_count = 0; total_tokens = 0; cache = no_totals }

-- `_LifetimeStats.add`
unfoldable pub add : LifetimeStats → Entry → LifetimeStats
add s e =
    let message_count = s.message_count + one_if (is_message e.payload) in
    elim (entry_usage e.payload) [
      | none ↦ record s { message_count = message_count }
      | some u ↦ record {
        message_count = message_count;
        total_tokens = s.total_tokens + u.total_tokens;
        cache = count_usage s.cache u;
      }
    ]

-- `_lifetime_stats(entries)`
unfoldable pub lifetime_stats : LifetimeStats → List Entry → LifetimeStats
unfolding add
lifetime_stats s [] = s
lifetime_stats s (e ∷ rest) = lifetime_stats (add s e) rest

-- `_entry_usages(entries)`
unfoldable pub entry_usages : List Entry → List Usage
entry_usages [] = []
entry_usages (e ∷ rest) = elim (entry_usage e.payload) [
  | none ↦ entry_usages rest
  | some u ↦ u ∷ entry_usages rest
]

pub lifetime_stats-append :
    (s : LifetimeStats) (xs : List Entry) (e : Entry)
    → lifetime_stats s (xs ++ e ∷ []) ≡ add (lifetime_stats s xs) e
unfolding lifetime_stats
lifetime_stats-append s [] e = refl
lifetime_stats-append s (x ∷ xs) e = lifetime_stats-append (add s x) xs e

-- The running totals are those of a full scan over the usages of all entries.
pub lifetime_stats-cache :
    (s : LifetimeStats) (xs : List Entry)
    → (lifetime_stats s xs).cache ≡ cache_statistics s.cache (entry_usages xs)
unfolding lifetime_stats entry_usages cache_statistics
lifetime_stats-cache s [] = refl
lifetime_stats-cache s (x ∷ xs) = ground (arith, lifetime_stats-cache (add s x) xs)
