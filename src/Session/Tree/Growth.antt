-- ===== src/Session/Tree/Growth.antt =====
-- What an entry appended under the current leaf does to the branch.
use aeloon_runtime.Prelude.{
  ℕ, zero, suc, ◌≡◌, String, false, Option, none, some, List, [], ◌∷◌, ◌++◌, lookup, length, arith,
  Option-cases, inl, inr, eq_refl,
}
use aeloon_runtime.Session.Entry.{Entry, Payload, parent_of, retains_tail, is_compaction}
use aeloon_runtime.Session.Tree.{Index, returned, walk, get_branch, next_stop}
use aeloon_runtime.Session.Tree.Linked.{Extends, Extends-fresh}

-- In a larger index, with more behind it, a walk that returns goes the same way.
walk-grow :
    (fuel : ℕ) (d large : Index) (e : Entry) (stop_at : Option String)
    (above more found : List Entry)
    → Extends large d
    → walk fuel d e stop_at above ≡ returned found
    → walk fuel large e stop_at (above ++ more) ≡ returned (found ++ more)
unfolding walk
walk-grow zero d large e stop_at above more found ext p = cc
walk-grow (suc fuel) d large e stop_at above more found ext p = elim (Option-cases (parent_of e)) [
  | inl root ↦ ground arith
  | inr (name, up) ↦ elim (Option-cases (lookup d name)) [
    | inl missing ↦ ground arith
    | inr (parent, at) ↦ ground (
      arith,
      ext.keeps name parent at,
      walk-grow fuel d large parent (next_stop e.payload stop_at) (e ∷ above) more found ext,
    )
  ]
]

not_compaction :
    (p : Payload) (stop_at : Option String)
    → is_compaction p ≡ false
    → (retains_tail p ≡ false) × (next_stop p stop_at ≡ stop_at)
not_compaction p stop_at h = ground arith

-- An entry that is no compaction, appended under the leaf, extends the branch by itself.
pub get_branch-append :
    (d : Index) (id : String) (e : Entry) (leaf_id : Option String) (branch : List Entry)
    → lookup d id ≡ none
    → parent_of e ≡ leaf_id
    → is_compaction e.payload ≡ false
    → get_branch d leaf_id ≡ returned branch
    → get_branch ((id, e) ∷ d) (some id) ≡ returned (branch ++ e ∷ [])
unfolding get_branch
get_branch-append d id e none branch fresh up plain p =
    ground (arith, eq_refl id, not_compaction e.payload none plain)
get_branch-append d id e (some k) branch fresh up plain p = elim (Option-cases (lookup d k)) [
  | inl missing ↦ ground arith
  | inr (parent, at) ↦ ground (
    arith,
    eq_refl id,
    not_compaction e.payload none plain,
    (Extends-fresh d id e fresh).keeps k parent at,
    walk-grow (length d) d ((id, e) ∷ d) parent none [] (e ∷ []) branch
        (Extends-fresh d id e fresh),
  )
]
