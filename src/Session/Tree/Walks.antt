-- ===== src/Session/Tree/Walks.antt =====
-- The walks towards the root in an index that is linked.
use aeloon_runtime.Prelude.{
  ℕ, zero, suc, ◌≤◌, ◌≡◌, sym, ◌∙◌, ap, subst, String, true, Option, none, some, List, [], ◌∷◌,
  ◌++◌, str_eq, lookup, has_key, All, length, arith, Bool-cases, Option-cases, inl, inr,
  append_assoc,
}
use aeloon_runtime.Session.Entry.{Entry, parent_of, retains_tail}
use aeloon_runtime.Session.Tree.{
  Index, Walk, returned, walk, walk_full, get_branch, get_full_branch, is_stop, next_stop,
}
use aeloon_runtime.Session.Tree.Linked.{
  Linked, IsPath, Extends, Extends-refl, Extends-cons, Linked-id, Linked-named,
}

-- The entry is in the index.
abbrev pub IsIn : Index → Entry → Type 0
IsIn d e = has_key d e.id ≡ true

-- The walk from `e` reaches a root: what it finds is linked, is in the index, and ends in `e` and
-- what was behind it.
pub record Reaches (large : Index) (w : Walk) (e : Entry) (above : List Entry) : Type 0 where
  pub nodes : List Entry
  pub found : w ≡ returned (nodes ++ e ∷ above)
  pub linked : IsPath (nodes ++ e ∷ above)
  pub known : All (IsIn large) (nodes ++ e ∷ above)

-- A path through `q` that goes on to `e` is a path to `e`.
Reaches-child :
    (large : Index) (w : Walk) (q e : Entry) (above : List Entry)
    → Reaches large w q (e ∷ above)
    → Reaches large w e above
Reaches-child large w q e above r = record {
  nodes = r.nodes ++ q ∷ [];
  found = rw (append_assoc r.nodes (q ∷ []) (e ∷ above)) r.found;
  linked = rw (append_assoc r.nodes (q ∷ []) (e ∷ above)) r.linked;
  known = rw (append_assoc r.nodes (q ∷ []) (e ∷ above)) r.known;
}

-- The parent of the newest entry is found below it.
record Parent (large d : Index) (p : String) : Type 0 where
  entry : Entry
  below : lookup d p ≡ some entry
  seen : lookup large p ≡ some entry
  named : entry.id ≡ p

newest_link :
    (large d : Index) (j : String) (x : Entry) (p : String)
    → Extends large ((j, x) ∷ d)
    → Linked ((j, x) ∷ d)
    → parent_of x ≡ some p
    → Parent large d p
newest_link large d j x p ext h e = elim (Option-cases (lookup d p)) [
  | inl missing ↦ absurd (ground (arith, h.2))
  | inr (q, below) ↦ record {
    entry = q;
    below = below;
    seen = (Extends-cons large d j x h.1 ext).keeps p q below;
    named = Linked-id d p q h.3 below;
  }
]

Parent-IsIn : (large d : Index) (p : String) (q : Parent large d p) → IsIn large q.entry
Parent-IsIn large d p q = ground (arith, q.named, q.seen)

-- Where the walk stands at the newest entry of a linked index.
newest :
    (j : String) (x e : Entry) (d : Index) (k : String)
    → str_eq j k ≡ true
    → lookup ((j, x) ∷ d) k ≡ some e
    → x ≡ e
newest j x e d k here p = ground arith

walk_full-Reaches :
    (d large : Index) (fuel : ℕ) (k : String) (e : Entry) (above : List Entry)
    → Extends large d
    → Linked d
    → lookup d k ≡ some e
    → length d ≤ fuel
    → IsPath (e ∷ above)
    → All (IsIn large) (e ∷ above)
    → Reaches large (walk_full fuel large e above) e above
unfolding walk_full
walk_full-Reaches [] large fuel k e above ext h p q r t = cc
walk_full-Reaches ((j, x) ∷ d) large zero k e above ext h p q r t = absurd (omega arith)
walk_full-Reaches ((j, x) ∷ d) large (suc fuel) k e above ext h p q r t =
    elim (Bool-cases (str_eq j k)) [
      | inl here ↦
          let same : x ≡ e = newest j x e d k here p in
          let r' : IsPath (x ∷ above) = subst (λ y. IsPath (y ∷ above)) (sym same) r in
          let t' : All (IsIn large) (x ∷ above) =
            subst (λ y. All (IsIn large) (y ∷ above)) (sym same) t in
          rw (← same) (elim (Option-cases (parent_of x)) [
            | inl root ↦ record {
              nodes = [];
              found = rw (root, walk_full);
              linked = r';
              known = t';
            }
            | inr (name, up) ↦
                let q' : Parent large d name = newest_link large d j x name ext h up in
                Reaches-child large _ q'.entry x above (
                  rw (up, q'.seen, walk_full)
                    (walk_full-Reaches d large fuel name q'.entry (x ∷ above)
                      (Extends-cons large d j x h.1 ext) h.3 q'.below (omega arith)
                      (rw q'.named up, r') (Parent-IsIn large d name q', t')))
          ])
      | inr there ↦
          walk_full-Reaches d large (suc fuel) k e above (Extends-cons large d j x h.1 ext) h.3
            (ground arith) (omega arith) r t
    ]

-- The walk `w` finds the end of what the walk `full` finds.
pub record Ends (large : Index) (w full : Walk) (e : Entry) (above : List Entry) : Type 0 where
  pub older : List Entry
  pub nodes : List Entry
  pub branch : w ≡ returned (nodes ++ e ∷ above)
  pub all : full ≡ returned (older ++ (nodes ++ e ∷ above))
  pub linked : IsPath (nodes ++ e ∷ above)
  pub known : All (IsIn large) (nodes ++ e ∷ above)

Ends-child :
    (large : Index) (w full : Walk) (q e : Entry) (above : List Entry)
    → Ends large w full q (e ∷ above)
    → Ends large w full e above
Ends-child large w full q e above r = record {
  older = r.older;
  nodes = r.nodes ++ q ∷ [];
  branch = rw (append_assoc r.nodes (q ∷ []) (e ∷ above)) r.branch;
  all = rw (append_assoc r.nodes (q ∷ []) (e ∷ above)) r.all;
  linked = rw (append_assoc r.nodes (q ∷ []) (e ∷ above)) r.linked;
  known = rw (append_assoc r.nodes (q ∷ []) (e ∷ above)) r.known;
}

-- A walk that stops at `e`.
Ends-here :
    (large : Index) (w full : Walk) (e : Entry) (above : List Entry)
    → IsPath (e ∷ above)
    → All (IsIn large) (e ∷ above)
    → w ≡ returned (e ∷ above)
    → Reaches large full e above
    → Ends large w full e above
Ends-here large w full e above linked known stop r = record {
  older = r.nodes;
  nodes = [];
  branch = stop;
  all = r.found;
  linked = linked;
  known = known;
}

walk-Ends :
    (d large : Index) (fuel : ℕ) (k : String) (e : Entry) (stop_at : Option String)
    (above : List Entry)
    → Extends large d
    → Linked d
    → lookup d k ≡ some e
    → length d ≤ fuel
    → IsPath (e ∷ above)
    → All (IsIn large) (e ∷ above)
    → Ends large (walk fuel large e stop_at above) (walk_full fuel large e above) e above
unfolding walk walk_full
walk-Ends [] large fuel k e stop_at above ext h p q r t = cc
walk-Ends ((j, x) ∷ d) large zero k e stop_at above ext h p q r t = absurd (omega arith)
walk-Ends ((j, x) ∷ d) large (suc fuel) k e stop_at above ext h p q r t =
    elim (Bool-cases (str_eq j k)) [
      | inl here ↦
          let same : x ≡ e = newest j x e d k here p in
          let r' : IsPath (x ∷ above) = subst (λ y. IsPath (y ∷ above)) (sym same) r in
          let t' : All (IsIn large) (x ∷ above) =
            subst (λ y. All (IsIn large) (y ∷ above)) (sym same) t in
          let whole : Reaches large (walk_full (suc fuel) large x above) x above =
            walk_full-Reaches ((j, x) ∷ d) large (suc fuel) k x above ext h (p ∙ ap some (sym same))
              q r' t' in
          rw (← same) (elim (Bool-cases (is_stop stop_at x.id)) [
            | inl stopped ↦ Ends-here large _ _ x above r' t' (rw (stopped, walk)) whole
            | inr on ↦ elim (Bool-cases (retains_tail x.payload)) [
              | inl stopped ↦ Ends-here large _ _ x above r' t' (rw (on, stopped, walk)) whole
              | inr further ↦ elim (Option-cases (parent_of x)) [
                | inl root ↦ Ends-here large _ _ x above r' t' (rw (on, further, root, walk)) whole
                | inr (name, up) ↦
                    let q' : Parent large d name = newest_link large d j x name ext h up in
                    Ends-child large _ _ q'.entry x above (
                      rw (on, further, up, q'.seen, walk, walk_full)
                        (walk-Ends d large fuel name q'.entry (next_stop x.payload stop_at)
                          (x ∷ above) (Extends-cons large d j x h.1 ext) h.3 q'.below (omega arith)
                          (rw q'.named up, r') (Parent-IsIn large d name q', t')))
              ]
            ]
          ])
      | inr there ↦
          walk-Ends d large (suc fuel) k e stop_at above (Extends-cons large d j x h.1 ext) h.3
            (ground arith) (omega arith) r t
    ]

IsIn-found : (d : Index) (k : String) (e : Entry) → Linked d → lookup d k ≡ some e → IsIn d e
IsIn-found d k e h p = ground (arith, Linked-id d k e h p, p)

-- For a known leaf of a linked session, `get_branch` returns: no error, no missing parent, no
-- endless loop. The branch is linked parent to child, ends in the leaf, and is the last part of
-- the full path from the root that `_get_full_branch` returns.
pub get_branch-Ends :
    (d : Index) (k : String) (e : Entry)
    → Linked d
    → lookup d k ≡ some e
    → Ends d (get_branch d (some k)) (get_full_branch d (some k)) e []
unfolding get_branch get_full_branch
get_branch-Ends d k e h p =
    rw (Linked-named d k e h p, p, get_branch, get_full_branch)
      (walk-Ends d d (length d) k e none [] (Extends-refl d) h p (omega arith) tt
        (IsIn-found d k e h p, tt))

pub get_full_branch-Reaches :
    (d : Index) (k : String) (e : Entry)
    → Linked d
    → lookup d k ≡ some e
    → Reaches d (get_full_branch d (some k)) e []
unfolding get_full_branch
get_full_branch-Reaches d k e h p =
    rw (Linked-named d k e h p, p, get_full_branch)
      (walk_full-Reaches d d (length d) k e [] (Extends-refl d) h p (omega arith) tt
        (IsIn-found d k e h p, tt))
