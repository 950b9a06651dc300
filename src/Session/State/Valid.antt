-- ===== src/Session/State/Valid.antt =====
-- The invariant of a session that its own operations built.
pub mod Append
pub mod Moves
use aeloon_runtime.Prelude.{
  ℕ, zero, suc, ◌+◌, ◌≤◌, ◌≡◌, refl, sym, ◌∙◌, ap, String, Bool, true, false, Option, none, some,
  List, [], ◌∷◌, ◌++◌, length, arith, Bool-cases, Option-cases, inl, inr, if◌then◌else◌, All, take,
  str_eq, eq_iff, has_key, has_key-false, lookup, subst, length-append,
}
use aeloon_runtime.Messages.{AgentMessage}
use aeloon_runtime.Session.Entry.{Entry, parent_of}
use aeloon_runtime.Session.Tree.{Index, Walk, returned, get_branch, get_full_branch}
use aeloon_runtime.Session.Tree.Linked.{Linked, IsKnown, Linked-named}
use aeloon_runtime.Session.Tree.Walks.{IsIn, Ends, get_branch-Ends}
use aeloon_runtime.Session.Context.{context_of}
use aeloon_runtime.Session.Context.Growth.{IsFreshIn}
use aeloon_runtime.Session.Lifetime.{no_stats, lifetime_stats}
use aeloon_runtime.Session.ContextCache.{ContextStatsCache, context_stats_cache}
use aeloon_runtime.Session.State.{
  Session, Journal, Draw, index_of, first_fresh, entry_id, flush, persist,
}

-- All written lines are synced, or a delayed flush waits.
abbrev pub IsSafe : Journal → Type 0
IsSafe j = elim j.sync_dirty [
  | true ↦ (j.synced ≤ length j.lines) × (j.sync_waits ≡ true)
  | false ↦ j.synced ≡ length j.lines
]

-- The cached statistics are those of the context that the current branch stands for.
pub record IsExact (s : Session) (c : ContextStatsCache) : Type 0 where
  pub version_now : c.version ≡ s.stats_cache_version
  pub leaf_now : c.leaf_id ≡ s.current_leaf_id
  pub branch : List Entry
  pub walked : get_branch s.by_id s.current_leaf_id ≡ returned branch
  pub exact :
      c
      ≡ context_stats_cache
          (context_of branch).boundary
          (context_of branch).messages
          s.stats_cache_version
          s.current_leaf_id

pub record IsValid (s : Session) : Type 0 where
  pub indexed : s.by_id ≡ index_of [] s.entries
  pub linked : Linked s.by_id
  pub leaf_known : IsKnown s.by_id s.current_leaf_id
  pub counted : s.lifetime ≡ lifetime_stats no_stats s.entries
  pub written : s.journal.lines ≡ s.entries
  pub safe : IsSafe s.journal
  pub cached : (c : ContextStatsCache) → s.context_cache ≡ some c → IsExact s c

-- What `uuid4` gives: ids that are not empty, and a full one that no entry has.
pub record IsFresh (d : Index) (draw : Draw) : Type 0 where
  pub unused : has_key d draw.long_id ≡ false
  pub long_named : str_eq draw.long_id "" ≡ false
  pub short_named : All (λ (id : String). str_eq id "" ≡ false) draw.short_ids

first_fresh-unused :
    (d : Index) (ids : List String) (long_id : String)
    → has_key d long_id ≡ false
    → has_key d (first_fresh d ids long_id) ≡ false
unfolding first_fresh
first_fresh-unused d [] long_id h = h
first_fresh-unused d (id ∷ ids) long_id h = elim (Bool-cases (has_key d id)) [
  | inl used ↦ rw used (first_fresh-unused d ids long_id h)
  | inr free ↦ rw free free
]

first_fresh-named :
    (d : Index) (n : ℕ) (ids : List String) (long_id : String)
    → str_eq long_id "" ≡ false
    → All (λ (id : String). str_eq id "" ≡ false) ids
    → str_eq (first_fresh d (take n ids) long_id) "" ≡ false
unfolding first_fresh
first_fresh-named d zero ids long_id h a = h
first_fresh-named d (suc n) [] long_id h a = h
first_fresh-named d (suc n) (id ∷ ids) long_id h a = elim (Bool-cases (has_key d id)) [
  | inl used ↦ rw used (first_fresh-named d n ids long_id h a.1)
  | inr free ↦ rw free a.0
]

pub entry_id-unused : (d : Index) (draw : Draw) → IsFresh d draw → lookup d (entry_id d draw) ≡ none
unfolding entry_id
entry_id-unused d draw f =
    has_key-false d (first_fresh d (take 100 draw.short_ids) draw.long_id)
      (first_fresh-unused d (take 100 draw.short_ids) draw.long_id f.unused)

pub entry_id-named :
    (d : Index) (draw : Draw) → IsFresh d draw → str_eq (entry_id d draw) "" ≡ false
unfolding entry_id
entry_id-named d draw f =
    first_fresh-named d 100 draw.short_ids draw.long_id f.long_named f.short_named

-- A durable write leaves nothing to sync; any other leaves a flush waiting.
pub persist-IsSafe :
    (j : Journal) (e : Entry) (durable : Bool) → IsSafe j → IsSafe (persist j e durable)
unfolding persist
persist-IsSafe j e durable h = ground (arith, length-append j.lines (e ∷ []))

pub index_of-append :
    (d : Index) (xs : List Entry) (e : Entry)
    → index_of d (xs ++ e ∷ []) ≡ (e.id, e) ∷ index_of d xs
unfolding index_of
index_of-append d [] e = refl
index_of-append d (x ∷ xs) e = index_of-append ((x.id, x) ∷ d) xs e

-- The leaf of a linked session is not empty, so it is the parent of the next entry.
pub parent_of-leaf :
    (d : Index) (leaf_id : Option String) (e : Entry)
    → Linked d
    → IsKnown d leaf_id
    → e.parent_id ≡ leaf_id
    → parent_of e ≡ leaf_id
parent_of-leaf d none e h k p = rw p
parent_of-leaf d (some id) e h k p = elim (Option-cases (lookup d id)) [
  | inl missing ↦ ground arith
  | inr (x, at) ↦ rw p (ground (arith, Linked-named d id x h at))
]

returned-eq : (w : Walk) (a b : List Entry) → w ≡ returned a → w ≡ returned b → a ≡ b
returned-eq w a b p q = cc

branch-IsIn :
    (d : Index) (leaf_id : Option String) (branch : List Entry)
    → Linked d
    → get_branch d leaf_id ≡ returned branch
    → All (IsIn d) branch
branch-IsIn d none branch h p =
    subst (All (IsIn d)) (returned-eq (get_branch d none) [] branch (unfold get_branch in refl) p)
      tt
branch-IsIn d (some k) branch h p = elim (Option-cases (lookup d k)) [
  | inl missing ↦ absurd (unfold get_branch in ground arith)
  | inr (e, at) ↦
      let ends : Ends d (get_branch d (some k)) (get_full_branch d (some k)) e [] =
        get_branch-Ends d k e h at in
      subst (All (IsIn d))
        (returned-eq (get_branch d (some k)) (ends.nodes ++ e ∷ []) branch ends.branch p) ends.known
]

IsIn-IsFreshIn :
    (d : Index) (e : Entry) (xs : List Entry)
    → lookup d e.id ≡ none
    → All (IsIn d) xs
    → IsFreshIn e xs
IsIn-IsFreshIn d e [] h a = tt
IsIn-IsFreshIn d e (x ∷ xs) h a =
    (ground (arith, eq_iff e.id x.id, a.0), IsIn-IsFreshIn d e xs h a.1)

-- An unused id is the id of no entry of the branch.
pub branch-IsFreshIn :
    (d : Index) (leaf_id : Option String) (branch : List Entry) (e : Entry)
    → Linked d
    → lookup d e.id ≡ none
    → get_branch d leaf_id ≡ returned branch
    → IsFreshIn e branch
branch-IsFreshIn d leaf_id branch e h free p =
    IsIn-IsFreshIn d e branch free (branch-IsIn d leaf_id branch h p)
