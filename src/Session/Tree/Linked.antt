-- ===== src/Session/Tree/Linked.antt =====
-- The shape of an index that the session's own operations build: ids are not empty and not
-- reused, and the parent of an entry is there before it.
use aeloon_runtime.Prelude.{
  ◌≡◌, String, true, false, Option, none, some, List, [], ◌∷◌, ◌++◌, str_eq, eq_iff, lookup,
  has_key, arith,
}
use aeloon_runtime.Session.Entry.{Entry, parent_of}
use aeloon_runtime.Session.Tree.{Index}

-- The key, if there is one, is in the index.
abbrev pub IsKnown : Index → Option String → Type 0
IsKnown d none = Unit {0}
IsKnown d (some k) = has_key d k ≡ true

abbrev pub Linked : Index → Type 0
Linked [] = Unit {0}
Linked ((k, e) ∷ d) =
    (e.id ≡ k) × (lookup d k ≡ none) × IsKnown d (parent_of e) × Linked d × (str_eq k "" ≡ false)

-- Each entry of a path from the root is the parent of the next one.
abbrev pub IsPath : List Entry → Type 0
IsPath [] = Unit {0}
IsPath (x ∷ []) = Unit {0}
IsPath (x ∷ y ∷ rest) = (parent_of y ≡ some x.id) × IsPath (y ∷ rest)

-- What the smaller index finds, the larger finds too.
pub record Extends (large small : Index) : Type 0 where
  pub keeps : (k : String) (e : Entry) → lookup small k ≡ some e → lookup large k ≡ some e

pub Extends-refl : (d : Index) → Extends d d
Extends-refl d = record { keeps = λ k e p. p }

pub Extends-cons :
    (large d : Index) (j : String) (x : Entry)
    → lookup d j ≡ none
    → Extends large ((j, x) ∷ d)
    → Extends large d
Extends-cons large d j x fresh ext = record {
  keeps = λ k e p. ext.keeps k e (ground (arith, eq_iff j k));
}

pub Extends-fresh :
    (d : Index) (j : String) (x : Entry) → lookup d j ≡ none → Extends ((j, x) ∷ d) d
Extends-fresh d j x fresh = Extends-cons ((j, x) ∷ d) d j x fresh (Extends-refl ((j, x) ∷ d))

-- An entry is stored under its own id.
pub Linked-id : (d : Index) (k : String) (e : Entry) → Linked d → lookup d k ≡ some e → e.id ≡ k
Linked-id [] k e h p = cc
Linked-id ((j, x) ∷ d) k e h p = ground (arith, eq_iff j k, Linked-id d k e h.3)

-- Ids are not empty.
pub Linked-named :
    (d : Index) (k : String) (e : Entry) → Linked d → lookup d k ≡ some e → str_eq k "" ≡ false
Linked-named [] k e h p = cc
Linked-named ((j, x) ∷ d) k e h p = ground (arith, eq_iff j k, Linked-named d k e h.3)

-- A prefix of a path can be dropped.
pub IsPath-append : (xs ys : List Entry) → IsPath (xs ++ ys) → IsPath ys
IsPath-append [] ys h = h
IsPath-append (x ∷ []) [] h = tt
IsPath-append (x ∷ []) (y ∷ ys) h = h.1
IsPath-append (x ∷ z ∷ xs) ys h = IsPath-append (z ∷ xs) ys h.1
