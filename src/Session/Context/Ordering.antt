-- ===== src/Session/Context/Ordering.antt =====
-- The order in which a branch is read, and how it grows.
use aeloon_runtime.Prelude.{
  ◌≡◌, subst, Bool, false, Option, none, some, List, [], ◌∷◌, ◌++◌, arith, Option-cases, inl, inr,
  All, append_assoc,
}
use aeloon_runtime.Session.Entry.{Entry, Payload, is_compaction}
use aeloon_runtime.Session.Context.{Split, split_last, moves_first, order}

abbrev grow_split : Entry → Option Split → Option Split
grow_split e none = none
grow_split e (some s) = some (record s { after = s.after ++ e ∷ [] })

split_last-append :
    (test : Payload → Bool) (xs : List Entry) (e : Entry)
    → test e.payload ≡ false
    → split_last test (xs ++ e ∷ []) ≡ grow_split e (split_last test xs)
unfolding split_last
split_last-append test [] e h = ground arith
split_last-append test (x ∷ xs) e h = ground (arith, split_last-append test xs e h)

abbrev pub grow_post : Entry → Option (List Entry) → Option (List Entry)
grow_post e none = none
grow_post e (some after) = some (after ++ e ∷ [])

pub order-append :
    (xs : List Entry) (e : Entry)
    → is_compaction e.payload ≡ false
    → order (xs ++ e ∷ []) ≡ record {
      ordered = (order xs).ordered ++ e ∷ [];
      post_compaction = grow_post e (order xs).post_compaction;
    }
unfolding order
order-append xs e h = elim (Option-cases (split_last moves_first xs)) [
  | inl without ↦ ground (
    arith,
    split_last-append moves_first xs e (ground arith),
    split_last-append is_compaction xs e h,
  )
  | inr (s, with) ↦ ground (
    arith,
    split_last-append moves_first xs e (ground arith),
    append_assoc s.before s.after (e ∷ []),
  )
]

split_here :
    (test : Payload → Bool) (x : Entry) (xs : List Entry) (s : Split)
    → split_last test xs ≡ none
    → split_last test (x ∷ xs) ≡ some s
    → record { before = []; entry = x; after = xs } ≡ s
unfolding split_last
split_here test x xs s last p = ground arith

split_later :
    (test : Payload → Bool) (x : Entry) (xs : List Entry) (s t : Split)
    → split_last test xs ≡ some t
    → split_last test (x ∷ xs) ≡ some s
    → record t { before = x ∷ t.before } ≡ s
unfolding split_last
split_later test x xs s t later p = ground arith

split_last-All :
    (P : Entry → Type 0) (test : Payload → Bool) (xs : List Entry) (s : Split)
    → All P xs
    → split_last test xs ≡ some s
    → All P (s.entry ∷ s.before ++ s.after)
unfolding split_last
split_last-All P test [] s h p = cc
split_last-All P test (x ∷ xs) s h p = elim (Option-cases (split_last test xs)) [
  | inl last ↦
      subst (λ (u : Split). All P (u.entry ∷ u.before ++ u.after)) (split_here test x xs s last p) h
  | inr (t, later) ↦
      let ih : All P (t.entry ∷ t.before ++ t.after) = split_last-All P test xs t h.1 later in
      subst (λ (u : Split). All P (u.entry ∷ u.before ++ u.after))
        (split_later test x xs s t later p) (ih.0, (h.0, ih.1))
]

-- The order has the entries of the branch, each of them.
pub order-All :
    (P : Entry → Type 0) (branch : List Entry) → All P branch → All P (order branch).ordered
unfolding order
order-All P branch h = elim (Option-cases (split_last moves_first branch)) [
  | inl without ↦ rw (without, order) h
  | inr (s, with) ↦ rw (with, order) (split_last-All P moves_first branch s h with)
]
