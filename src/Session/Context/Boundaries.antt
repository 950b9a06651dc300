-- ===== src/Session/Context/Boundaries.antt =====
-- Where the usage of a message counts again: the boundary of a context lies within it.
use aeloon_runtime.Prelude.{
  ℕ, ◌≤◌, ◌≡◌, refl, ap, true, false, Option, none, some, List, [], ◌∷◌, length, arith,
  Option-cases, inl, inr, All, length-append,
}
use aeloon_runtime.Messages.{AgentMessage}
use aeloon_runtime.Session.Entry.{Entry, is_compaction}
use aeloon_runtime.Stats.Estimate.{
  Boundary, after_boundary, usage_at, reported_usage, message_timestamp,
}
use aeloon_runtime.Session.Context.{
  split_last, moves_first, Order, order, Context, add_entry, add_entries, close_context,
  empty_context, context_of, assemble, entry_messages,
}

-- The boundary, once it is set, lies within the messages.
abbrev Fits : Context → Type 0
Fits c = elim c.boundary.fresh_from [ some n ↦ n ≤ length c.messages | none ↦ Unit {0} ]

add_entry-Fits :
    (post : Option (List Entry)) (c : Context) (e : Entry) → Fits c → Fits (add_entry post c e)
unfolding add_entry
add_entry-Fits post c e h = elim (Option-cases c.boundary.fresh_from) [
  | inl unset ↦ ground (arith, length-append c.messages (entry_messages e.payload))
  | inr (n, set) ↦ ground (arith, length-append c.messages (entry_messages e.payload))
]

add_entries-Fits :
    (post : Option (List Entry)) (c : Context) (xs : List Entry)
    → Fits c
    → Fits (add_entries post c xs)
unfolding add_entries
add_entries-Fits post c [] h = h
add_entries-Fits post c (e ∷ xs) h =
    add_entries-Fits post (add_entry post c e) xs (add_entry-Fits post c e h)

-- No entry is a compaction.
abbrev NoCompaction : List Entry → Type 0
NoCompaction = All (λ (e : Entry). is_compaction e.payload ≡ false)

split_last-none :
    (branch : List Entry) → split_last is_compaction branch ≡ none → NoCompaction branch
unfolding split_last
split_last-none [] h = tt
split_last-none (e ∷ rest) h = ground (arith, split_last-none rest)

add_entries-boundary :
    (c : Context) (xs : List Entry)
    → NoCompaction xs
    → (add_entries none c xs).boundary ≡ c.boundary
unfolding add_entries add_entry
add_entries-boundary c [] h = refl
add_entries-boundary c (e ∷ xs) h = ground (arith, add_entries-boundary (add_entry none c e) xs h.1)

-- A message at the end of the context lies behind the boundary.
abbrev IsReady : Context → ℕ → Type 0
IsReady c t = after_boundary c.boundary (length c.messages) t ≡ true

close_context-IsReady :
    (after : List Entry) (c : Context) (t : ℕ) → Fits c → IsReady (close_context (some after) c) t
unfolding after_boundary
close_context-IsReady after c t h = elim (Option-cases c.boundary.fresh_from) [
  | inl unset ↦ ground arith
  | inr (n, set) ↦ ground arith
]

open_context-IsReady : (c : Context) (t : ℕ) → c.boundary ≡ empty_context.boundary → IsReady c t
unfolding after_boundary
open_context-IsReady c t h =
    ground (arith, ap (λ (b : Boundary). b.fresh_from) h, ap (λ (b : Boundary). b.after_ms) h)

order-NoCompaction :
    (branch : List Entry)
    → (order branch).post_compaction ≡ none
    → NoCompaction (order branch).ordered
unfolding order
order-NoCompaction branch h = elim (Option-cases (split_last moves_first branch)) [
  | inl without ↦ elim (Option-cases (split_last is_compaction branch)) [
    | inl free ↦ rw (without, order) (split_last-none branch free)
    | inr (s, with) ↦ absurd (ground arith)
  ]
  | inr (s, with) ↦ absurd (ground arith)
]

assemble-IsReady :
    (o : Order) (t : ℕ)
    → (o.post_compaction ≡ none → NoCompaction o.ordered)
    → IsReady (assemble o) t
unfolding assemble
assemble-IsReady o t free = elim (Option-cases o.post_compaction) [
  | inl loose ↦
      rw (loose, close_context)
        (open_context-IsReady (add_entries none empty_context o.ordered) t
          (add_entries-boundary empty_context o.ordered (free loose)))
  | inr (after, closed) ↦
      rw (closed, close_context)
        (close_context-IsReady after (add_entries (some after) empty_context o.ordered) t
          (add_entries-Fits (some after) empty_context o.ordered tt))
]

-- So the usage that a new message reports counts.
pub usage_at-end :
    (branch : List Entry) (m : AgentMessage)
    → usage_at (context_of branch).boundary (length (context_of branch).messages) m
      ≡ reported_usage m
unfolding context_of usage_at
usage_at-end branch m =
    ground
      (arith, assemble-IsReady (order branch) (message_timestamp m) (order-NoCompaction branch))
