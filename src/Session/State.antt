-- ===== src/Session/State.antt =====
-- The state of a `Session` and the operations that change it.
pub mod Valid
use aeloon_runtime.Prelude.{
  ℕ, zero, suc, ◌+◌, String, Bool, true, false, Option, none, some, List, [], ◌∷◌, ◌++◌, ◌&&◌,
  length, take, lookup, has_key, str_eq, ◌==◌, Result, ok, err, if◌then◌else◌,
}
use aeloon_runtime.Messages.{AgentMessage}
use aeloon_runtime.Session.Entry.{Entry, Payload, message, custom_message, leaf, label}
use aeloon_runtime.Session.Tree.{Index, SessionError, not_found, Outcome, returned, ◌>>=◌}
use aeloon_runtime.Session.Lifetime.{LifetimeStats, no_stats, add, lifetime_stats}
use aeloon_runtime.Session.ContextCache.{ContextStatsCache, append, context_stats_cache}
use aeloon_runtime.Session.Context.{user_text, build_context}

-- The session file: the entries whose lines are written, how many of them an `fsync` has reached,
-- `_sync_dirty`, and whether a delayed flush waits.
pub record Journal : Type 0 where
  pub lines : List Entry
  pub synced : ℕ
  pub sync_dirty : Bool
  pub sync_waits : Bool

pub record Session : Type 0 where
  pub entries : List Entry
  pub by_id : Index
  pub current_leaf_id : Option String
  pub stats_cache_version : ℕ
  pub lifetime : LifetimeStats
  pub context_cache : Option ContextStatsCache
  pub journal : Journal

-- `{entry["id"]: entry for entry in entries}`
unfoldable pub index_of : Index → List Entry → Index
index_of d [] = d
index_of d (e ∷ rest) = index_of ((e.id, e) ∷ d) rest

-- `Session.__init__` over entries that stand in the file.
unfoldable pub new_session : List Entry → Option String → Session
unfolding index_of lifetime_stats
new_session entries leaf_id = record {
  entries = entries;
  by_id = index_of [] entries;
  current_leaf_id = leaf_id;
  stats_cache_version = 0;
  lifetime = lifetime_stats no_stats entries;
  context_cache = none;
  journal = record {
    lines = entries;
    synced = length entries;
    sync_dirty = false;
    sync_waits = false;
  };
}

-- What one call takes from outside: the time, the short ids that `uuid4` gives, and a full one.
pub record Draw : Type 0 where
  pub now : Option ℕ
  pub short_ids : List String
  pub long_id : String

first_fresh : Index → List String → String → String
first_fresh d [] long_id = long_id
first_fresh d (id ∷ rest) long_id = if has_key d id then first_fresh d rest long_id else id

-- `_entry_id`: at most 100 short ids are tried.
unfoldable pub entry_id : Index → Draw → String
unfolding first_fresh
entry_id d draw = first_fresh d (take 100 draw.short_ids) draw.long_id

-- `_flush_locked`
unfoldable pub flush : Journal → Journal
flush j = if j.sync_dirty then record j { synced = length j.lines; sync_dirty = false } else j

-- `_persist`. A cancellation while it waits for the write, and an error of the disk, are left out.
unfoldable pub persist : Journal → Entry → Bool → Journal
unfolding flush
persist j e durable =
    let written = record j { lines = j.lines ++ e ∷ []; sync_dirty = true } in
    if durable then flush written else record written { sync_waits = true }

-- `_delayed_flush` after its sleep, if the file can be synced
unfoldable pub delayed_flush : Session → Session
delayed_flush s = record s { journal = record (flush s.journal) { sync_waits = false } }

-- `durable_flush` cancels the delayed flush that waits.
unfoldable pub durable_flush : Session → Session
durable_flush s = record s { journal = record (flush s.journal) { sync_waits = false } }

-- `_context_message`
unfoldable pub context_message : Payload → Option AgentMessage
context_message (message m) = some m
context_message (custom_message kind content display details) = some (user_text content)
context_message _ = none

-- `cache.version == previous_version and cache.leaf_id == previous_leaf`
same_leaf : Option String → Option String → Bool
same_leaf none none = true
same_leaf (some a) (some b) = str_eq a b
same_leaf _ _ = false

is_current : ContextStatsCache → ℕ → Option String → Bool
unfolding same_leaf
is_current c version leaf_id = c.version == version && same_leaf c.leaf_id leaf_id

-- What becomes of the cached statistics when an entry is appended.
unfoldable pub update_cache :
    Option ContextStatsCache → ℕ → Option String → Entry → Option ContextStatsCache
unfolding context_message is_current
update_cache none version leaf_id e = none
update_cache (some c) version leaf_id e = elim (context_message e.payload) [
  | none ↦ none
  | some m ↦ if is_current c version leaf_id then some (append m (suc version) e.id c) else none
]

-- The entry that `_append_entry` writes.
abbrev pub new_entry : Session → Draw → Payload → Entry
new_entry s draw payload = record {
  id = entry_id s.by_id draw;
  parent_id = s.current_leaf_id;
  timestamp = draw.now;
  payload = payload;
}

-- `_append_entry`
unfoldable pub append_entry : Session → Draw → Bool → Payload → Session × String
unfolding update_cache persist entry_id
append_entry s draw durable payload =
    let e = new_entry s draw payload in
    (
      record {
        entries = s.entries ++ e ∷ [];
        by_id = (e.id, e) ∷ s.by_id;
        current_leaf_id = some e.id;
        stats_cache_version = suc s.stats_cache_version;
        lifetime = add s.lifetime e;
        context_cache = update_cache s.context_cache s.stats_cache_version s.current_leaf_id e;
        journal = persist s.journal e durable;
      },
      e.id,
    )

-- `leaf_id is not None and leaf_id not in self._by_id`
abbrev pub is_missing : Index → Option String → Bool
is_missing d none = false
is_missing d (some id) = elim (has_key d id) [ true ↦ false | false ↦ true ]

-- `set_leaf_id`
unfoldable pub set_leaf_id : Session → Draw → Option String → Result SessionError Session
unfolding persist entry_id
set_leaf_id s draw leaf_id =
    let e = new_entry s draw (leaf leaf_id) in
    if is_missing s.by_id leaf_id
    then err not_found
    else ok (record {
      entries = s.entries ++ e ∷ [];
      by_id = (e.id, e) ∷ s.by_id;
      current_leaf_id = leaf_id;
      stats_cache_version = suc s.stats_cache_version;
      lifetime = add s.lifetime e;
      context_cache = none;
      journal = persist s.journal e true;
    })

-- `set_label`
unfoldable pub set_label :
    Session → Draw → String → Option String → Result SessionError (Session × String)
set_label s draw target_id text =
    if has_key s.by_id target_id
    then ok (append_entry s draw true (label target_id text))
    else err not_found
