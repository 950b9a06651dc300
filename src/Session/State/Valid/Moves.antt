-- ===== src/Session/State/Valid/Moves.antt =====
-- The invariant under moves of the leaf, flushes and histories of calls.
use aeloon_runtime.Prelude.{
  suc, ◌≡◌, refl, sym, ◌∙◌, ap, subst, String, true, false, Option, none, some, List, [], ◌∷◌, ◌++◌,
  length, arith, Bool-cases, inl, inr, ok,
}
use aeloon_runtime.Session.Entry.{Entry, leaf}
use aeloon_runtime.Session.Tree.{Index}
use aeloon_runtime.Session.Tree.Linked.{IsKnown}
use aeloon_runtime.Session.Lifetime.{no_stats, lifetime_stats, add, lifetime_stats-append}
use aeloon_runtime.Session.State.{
  Session, Journal, Draw, new_session, new_entry, entry_id, set_leaf_id, delayed_flush, flush,
  persist, is_missing, index_of,
}
use aeloon_runtime.Session.State.Valid.{
  IsSafe, IsExact, IsValid, IsFresh, persist-IsSafe, index_of-append,
}
use aeloon_runtime.Session.State.Valid.Append.{new-Linked, persist-lines}

-- What `set_leaf_id` leaves behind, where it does not raise.
moved : Session → Draw → Option String → Session
moved s draw leaf_id =
    let e = new_entry s draw (leaf leaf_id) in
    record {
      entries = s.entries ++ e ∷ [];
      by_id = (e.id, e) ∷ s.by_id;
      current_leaf_id = leaf_id;
      stats_cache_version = suc s.stats_cache_version;
      lifetime = add s.lifetime e;
      context_cache = none;
      journal = persist s.journal e true;
    }

still-IsKnown :
    (d : Index) (k : String) (e : Entry) (leaf_id : Option String)
    → is_missing d leaf_id ≡ false
    → IsKnown ((k, e) ∷ d) leaf_id
still-IsKnown d k e none h = tt
still-IsKnown d k e (some id) h = ground arith

moved-IsValid :
    (s : Session) (draw : Draw) (leaf_id : Option String)
    → IsValid s
    → IsFresh s.by_id draw
    → is_missing s.by_id leaf_id ≡ false
    → IsValid (moved s draw leaf_id)
unfolding moved
moved-IsValid s draw leaf_id v f h =
    let e = new_entry s draw (leaf leaf_id) in
    record {
      indexed =
          ap (λ (d : Index). (entry_id s.by_id draw, e) ∷ d) v.indexed
          ∙ sym (index_of-append [] s.entries e);
      linked = new-Linked s draw (leaf leaf_id) v f;
      leaf_known = still-IsKnown s.by_id (entry_id s.by_id draw) e leaf_id h;
      counted = ap (λ l. add l e) v.counted ∙ sym (lifetime_stats-append no_stats s.entries e);
      written = persist-lines s.journal e true ∙ ap (λ (ls : List Entry). ls ++ e ∷ []) v.written;
      safe = persist-IsSafe s.journal e true v.safe;
      cached = λ c p. absurd (ground arith);
    }

-- `set_leaf_id` raises exactly for a leaf that no entry has; otherwise the session stays valid and
-- the leaf is the one that was asked for.
pub set_leaf_id-IsValid :
    (s s' : Session) (draw : Draw) (leaf_id : Option String)
    → IsValid s
    → IsFresh s.by_id draw
    → set_leaf_id s draw leaf_id ≡ ok s'
    → IsValid s' × (s'.current_leaf_id ≡ leaf_id)
unfolding set_leaf_id moved
set_leaf_id-IsValid s s' draw leaf_id v f h = elim (Bool-cases (is_missing s.by_id leaf_id)) [
  | inl missing ↦ absurd (ground arith)
  | inr known ↦
      let same : moved s draw leaf_id ≡ s' = ground arith in
      (
        subst IsValid same (moved-IsValid s draw leaf_id v f known),
        ap (λ (t : Session). t.current_leaf_id) (sym same),
      )
]

flushed-IsSafe : (j : Journal) → IsSafe j → IsSafe (record (flush j) { sync_waits = false })
unfolding flush
flushed-IsSafe j h = ground arith

flush-lines : (j : Journal) → (flush j).lines ≡ j.lines
unfolding flush
flush-lines j = ground arith

-- After a flush, delayed or asked for, every written line is synced.
flushed-synced : (j : Journal) → IsSafe j → (flush j).synced ≡ length j.lines
unfolding flush
flushed-synced j h = ground arith

pub delayed_flush-IsValid : (s : Session) → IsValid s → IsValid (delayed_flush s)
unfolding delayed_flush
delayed_flush-IsValid s v = record {
  indexed = v.indexed;
  linked = v.linked;
  leaf_known = v.leaf_known;
  counted = v.counted;
  written = flush-lines s.journal ∙ v.written;
  safe = flushed-IsSafe s.journal v.safe;
  cached = λ c p.
      let x : IsExact s c = v.cached c p in
      record {
        version_now = x.version_now;
        leaf_now = x.leaf_now;
        branch = x.branch;
        walked = x.walked;
        exact = x.exact;
      };
}

pub new_session-IsValid : IsValid (new_session [] none)
unfolding new_session
new_session-IsValid = record {
  indexed = unfold index_of in refl;
  linked = tt;
  leaf_known = tt;
  counted = unfold lifetime_stats in refl;
  written = refl;
  safe = refl;
  cached = λ c p. absurd (ground arith);
}
