-- ===== src/Session/Histories/Facts.antt =====
-- What holds of every session that calls have built.
use aeloon_runtime.Prelude.{
  ℕ, ◌≡◌, refl, sym, ◌∙◌, ap, Bool, false, Option, none, some, List, [], ◌∷◌, ◌++◌, String, arith,
  ok, lookup,
}
use aeloon_runtime.Session.Entry.{Entry, Payload, leaf}
use aeloon_runtime.Session.Tree.{returned, get_branch, get_full_branch}
use aeloon_runtime.Session.Tree.Walks.{Ends, get_branch-Ends}
use aeloon_runtime.Session.State.{
  Session, Draw, new_entry, new_session, append_entry, set_leaf_id, delayed_flush,
}
use aeloon_runtime.Session.Statistics.{SessionStats, stats, stats_full}
use aeloon_runtime.Session.Statistics.Exact.{stats-eq-stats_full, stats-parts}
use aeloon_runtime.Session.Reading.{leaf_after}
use aeloon_runtime.Session.Histories.{
  Reached, start, appended, moved, flushed, counted, Reached-IsValid, is_leaf,
}

-- In a session that calls have built, `stats` returns, and it returns exactly what the full scan
-- `_stats_full` returns: the incremental caches never go stale.
pub stats_exact :
    (s : Session) (window : Option ℕ)
    → Reached s
    → (s' : Session) × (result : SessionStats) × (stats s window ≡ returned (s', result))
      × (stats_full s window ≡ returned result)
stats_exact s window r =
    let (s', result, quick, full, v) = stats-eq-stats_full s window (Reached-IsValid r) in
    (s', result, quick, full)

-- In a session that calls have built, `get_branch` of any entry returns: no error, no missing
-- parent, no endless loop. Each entry of the branch is the parent of the next, all are in the
-- session, the last is the entry itself, and the branch is the last part of the full path from
-- the root.
pub branch_returns :
    (s : Session) (k : String) (e : Entry)
    → Reached s
    → lookup s.by_id k ≡ some e
    → Ends s.by_id (get_branch s.by_id (some k)) (get_full_branch s.by_id (some k)) e []
branch_returns s k e r h = get_branch-Ends s.by_id k e (Reached-IsValid r).linked h

-- The leaf that the last entry of the file stands for.
unfoldable pub last_leaf : Option String → List Entry → Option String
last_leaf before [] = before
last_leaf before (e ∷ rest) = last_leaf (leaf_after e) rest

last_leaf-append :
    (before : Option String) (xs : List Entry) (e : Entry)
    → last_leaf before (xs ++ e ∷ []) ≡ leaf_after e
unfolding last_leaf
last_leaf-append before [] e = refl
last_leaf-append before (x ∷ xs) e = last_leaf-append (leaf_after x) xs e

leaf_after-plain : (e : Entry) → is_leaf e.payload ≡ false → leaf_after e ≡ some e.id
leaf_after-plain e h = ground arith

appended-leaf :
    (s : Session) (draw : Draw) (durable : Bool) (p : Payload)
    → is_leaf p ≡ false
    → (append_entry s draw durable p).0.current_leaf_id
      ≡ last_leaf none (append_entry s draw durable p).0.entries
unfolding append_entry
appended-leaf s draw durable p plain = sym (
    last_leaf-append none s.entries (new_entry s draw p)
    ∙ leaf_after-plain (new_entry s draw p) plain)

moved-parts :
    (s s' : Session) (draw : Draw) (leaf_id : Option String)
    → set_leaf_id s draw leaf_id ≡ ok s'
    → (s'.current_leaf_id ≡ leaf_id)
      × (s'.entries ≡ s.entries ++ new_entry s draw (leaf leaf_id) ∷ [])
unfolding set_leaf_id
moved-parts s s' draw leaf_id done = ground arith

moved-leaf :
    (s s' : Session) (draw : Draw) (leaf_id : Option String)
    → set_leaf_id s draw leaf_id ≡ ok s'
    → s'.current_leaf_id ≡ last_leaf none s'.entries
moved-leaf s s' draw leaf_id done =
    let (at, grown) = moved-parts s s' draw leaf_id done in
    at
    ∙ sym (
        ap (last_leaf none) grown
        ∙ last_leaf-append none s.entries (new_entry s draw (leaf leaf_id)))

start-leaf : (new_session [] none).current_leaf_id ≡ last_leaf none (new_session [] none).entries
unfolding new_session last_leaf
start-leaf = refl

flushed-leaf :
    (s : Session)
    → s.current_leaf_id ≡ last_leaf none s.entries
    → (delayed_flush s).current_leaf_id ≡ last_leaf none (delayed_flush s).entries
unfolding delayed_flush
flushed-leaf s h = h

-- The current leaf is the one that reading the entries back gives.
pub leaf-last : {s : Session} → Reached s → s.current_leaf_id ≡ last_leaf none s.entries
leaf-last start = start-leaf
leaf-last (appended {s = s} draw durable p f plain r) = appended-leaf s draw durable p plain
leaf-last (moved {s = s} {s' = s'} draw leaf_id f done r) = moved-leaf s s' draw leaf_id done
leaf-last (flushed {s = s} r) = flushed-leaf s (leaf-last r)
leaf-last (counted {s = s} {s' = s'} {result = result} window done r) =
    let (same, at) = stats-parts s s' result window done in
    at ∙ leaf-last r ∙ ap (last_leaf none) (sym same)
