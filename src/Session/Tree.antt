-- ===== src/Session/Tree.antt =====
-- `Session.get_branch` and `Session._get_full_branch`: the path from the root to an entry.
-- A path that revisits entries has no end, so the loops take fuel; the proofs give enough.
pub mod Linked
pub mod Walks
pub mod Growth
use aeloon_runtime.Prelude.{
  ℕ, zero, suc, String, Bool, true, false, Option, none, some, List, [], ◌∷◌, str_eq, lookup,
  length, if◌then◌else◌,
}
use aeloon_runtime.Session.Entry.{Entry, Payload, compaction, parent_of, retains_tail}

-- `_by_id`, the latest entry first.
abbrev pub Index : Type 0
Index = List (String × Entry)

-- The codes of `SessionError`.
pub data SessionError : Type 0 where
  not_found invalid_session invalid_entry storage : SessionError

-- A call returns, raises, or outlasts its fuel.
pub data Outcome (A : Type 0) : Type 0 where
  returned : A → Outcome A
  raised : SessionError → Outcome A
  out_of_fuel : Outcome A

infixl 5 ◌>>=◌
abbrev pub ◌>>=◌ : {A B : Type 0} → Outcome A → (A → Outcome B) → Outcome B
returned a >>= f = f a
raised e >>= f = raised e
out_of_fuel >>= f = out_of_fuel

abbrev pub Walk : Type 0
Walk = Outcome (List Entry)

-- `stop_at` after a compaction without a retained tail is its "firstKeptEntryId".
abbrev pub next_stop : Payload → Option String → Option String
next_stop (compaction c) stop_at = c.first_kept_entry_id
next_stop _ stop_at = stop_at

abbrev is_stop : Option String → String → Bool
is_stop none id = false
is_stop (some s) id = str_eq id s

-- The loop of `get_branch` from `current`, with the path behind it.
walk : ℕ → Index → Entry → Option String → List Entry → Walk
walk zero d current stop_at above = out_of_fuel
walk (suc fuel) d current stop_at above = elim (is_stop stop_at current.id) [
  | true ↦ returned (current ∷ above)
  | false ↦ elim (retains_tail current.payload) [
    | true ↦ returned (current ∷ above)
    | false ↦ elim (parent_of current) [
      | none ↦ returned (current ∷ above)
      | some p ↦ elim (lookup d p) [
        | none ↦ raised invalid_session
        | some parent ↦ walk fuel d parent (next_stop current.payload stop_at) (current ∷ above)
      ]
    ]
  ]
]

-- `get_branch(leaf_id)`
unfoldable pub get_branch : Index → Option String → Walk
unfolding walk
get_branch d none = returned []
get_branch d (some leaf_id) = elim (lookup d leaf_id) [
  | none ↦ raised not_found
  | some current ↦ walk (length d) d current none []
]

-- The loop of `_get_full_branch`.
walk_full : ℕ → Index → Entry → List Entry → Walk
walk_full zero d current above = out_of_fuel
walk_full (suc fuel) d current above = elim (parent_of current) [
  | none ↦ returned (current ∷ above)
  | some p ↦ elim (lookup d p) [
    | none ↦ raised invalid_session
    | some parent ↦ walk_full fuel d parent (current ∷ above)
  ]
]

unfoldable pub get_full_branch : Index → Option String → Walk
unfolding walk_full
get_full_branch d leaf_id = elim leaf_id [
  | none ↦ returned []
  | some id ↦ if str_eq id "" then returned [] else elim (lookup d id) [
    | none ↦ returned []
    | some current ↦ walk_full (length d) d current []
  ]
]
