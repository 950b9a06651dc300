-- ===== src/Preparation/Partition.antt =====
-- What a compaction summarizes of the branch, and what it keeps.
use aeloon_runtime.Prelude.{
  take-append-drop, ℕ, zero, suc, ◌+◌, ◌≤◌, ◌≡◌, refl, sym, ap, subst, ◌∙◌, Bool, Option, none,
  some, List, [], ◌∷◌, ◌++◌, append_assoc, take, drop, is_empty, true, get_elem?, arith, Bool-cases,
  Option-cases, inl, inr, ◌||◌, ◌⊎◌, any, ◌==◌, leb, ◌/◌, max,
}
use aeloon_runtime.Messages.{AgentMessage}
use aeloon_runtime.Session.Entry.{Entry}
use aeloon_runtime.Session.Tree.{returned, get_branch}
use aeloon_runtime.Session.State.{Session}
use aeloon_runtime.Session.Statistics.Served.{HasContext, IsValid-HasContext}
use aeloon_runtime.Session.Histories.{Reached, Reached-IsValid}
use aeloon_runtime.Stats.Estimate.{estimate_context_tokens}
use aeloon_runtime.Preparation.{
  CompactionPreparation, messages_of, last_user, turn_start_of, prepare_at, prepare_branch,
  prepare_cut, prepare_from, prepare_compaction, ends_compacted, cut_points, choose_cut, next_point,
  reach,
}

messages_of-append :
    (xs ys : List Entry) → messages_of (xs ++ ys) ≡ messages_of xs ++ messages_of ys
unfolding messages_of
messages_of-append [] ys = refl
messages_of-append (e ∷ xs) ys = ground (arith, messages_of-append xs ys)

take-take {ℓ} : {A : Type ℓ} (n m : ℕ) (xs : List A) → n ≤ m → take n (take m xs) ≡ take n xs
take-take zero m xs h = refl
take-take (suc n) zero xs h = absurd (omega arith)
take-take (suc n) (suc m) [] h = refl
take-take (suc n) (suc m) (x ∷ xs) h = ap (λ ys. x ∷ ys) (take-take n m xs (omega arith))

halves :
    (n : ℕ) (xs : List Entry) → messages_of (take n xs) ++ messages_of (drop n xs) ≡ messages_of xs
halves n xs =
    sym (messages_of-append (take n xs) (drop n xs)) ∙ ap messages_of (take-append-drop n xs)

last_user-bound :
    (index found n : ℕ) (xs : List Entry)
    → last_user index (take n xs) ≡ some found
    → found ≤ index + n
unfolding last_user
last_user-bound index found zero xs h = absurd (ground arith)
last_user-bound index found (suc n) [] h = absurd (ground arith)
last_user-bound index found (suc n) (e ∷ xs) h =
    ground (arith, last_user-bound (suc index) found n xs)

-- What a preparation summarizes and keeps, in order.
abbrev pub parts_of : CompactionPreparation → List AgentMessage
parts_of p = p.messages_to_summarize ++ (p.turn_prefix_messages ++ p.retained_tail)

split_parts :
    (start cut : ℕ) (xs : List Entry)
    → start ≤ cut
    → messages_of (take start xs)
        ++ (messages_of (drop start (take cut xs)) ++ messages_of (drop cut xs))
      ≡ messages_of xs
split_parts start cut xs h =
    ap
      (λ ys.
        messages_of ys ++ (messages_of (drop start (take cut xs)) ++ messages_of (drop cut xs)))
      (sym (take-take start cut xs h))
    ∙ sym (
        append_assoc (messages_of (take start (take cut xs)))
          (messages_of (drop start (take cut xs))) (messages_of (drop cut xs)))
    ∙ ap (λ ms. ms ++ messages_of (drop cut xs)) (halves start (take cut xs))
    ∙ halves cut xs

turn_start-bound :
    (xs : List Entry) (cut start : ℕ) (e : Entry)
    → turn_start_of xs cut e ≡ some start
    → start ≤ cut
unfolding turn_start_of
turn_start-bound xs cut start e h = ground (arith, last_user-bound 0 start cut xs)

prepare_at-parts :
    (xs : List Entry) (cut tokens : ℕ) (e : Entry) (p : CompactionPreparation)
    → prepare_at xs cut e tokens ≡ some p
    → parts_of p ≡ messages_of xs
prepare_at-parts xs cut tokens e p h = elim (Option-cases (turn_start_of xs cut e)) [
  | inl whole ↦ ground (arith, halves cut xs)
  | inr (start, here) ↦
      ground (arith, split_parts start cut xs (turn_start-bound xs cut start e here))
]

prepare_cut-parts :
    (xs : List Entry) (keep tokens : ℕ) (force : Bool) (points : List ℕ) (p : CompactionPreparation)
    → prepare_cut xs keep force tokens points ≡ some p
    → parts_of p ≡ messages_of xs
unfolding prepare_cut
prepare_cut-parts xs keep tokens force [] p h = absurd (ground arith)
prepare_cut-parts xs keep tokens force (first ∷ points) p h =
    let cut = choose_cut xs keep force (first ∷ points) first in
    elim (Option-cases (get_elem? xs cut)) [
      | inl missing ↦ absurd (ground arith)
      | inr (e, here) ↦
          let at : prepare_at xs cut e tokens ≡ some p = ground arith in
          prepare_at-parts xs cut tokens e p at
    ]

-- The cut is one of the points, and each point is an entry.
next_point-any :
    (index first : ℕ) (points : List ℕ)
    → (next_point index points first ≡ first)
      ⊎ (any (λ p. p == next_point index points first) points ≡ true)
unfolding next_point
next_point-any index first [] = inl refl
next_point-any index first (p ∷ points) = elim (Bool-cases (leb index p)) [
  | inl here ↦ inr (ground (arith))
  | inr later ↦ elim (next_point-any index first points) [
    | inl none_left ↦ inl (ground arith)
    | inr found ↦ inr (ground arith)
  ]
]

choose_cut-any :
    (xs : List Entry) (keep : ℕ) (force : Bool) (first : ℕ) (points : List ℕ)
    → (let cut = choose_cut xs keep force (first ∷ points) first in
        any (λ p. p == cut) (first ∷ points) ≡ true)
unfolding choose_cut
choose_cut-any xs keep force first points =
    let half = max 1 ((reach keep 0 xs).0 / 2) in
    let at = λ (i : ℕ). next_point-any i first (first ∷ points) in
    elim (Option-cases (reach keep 0 xs).1) [
      | inr (i, here) ↦ ground (arith, at i)
      | inl short ↦ elim (Option-cases (reach half 0 xs).1) [
        | inr (i, here) ↦ ground (arith, at i)
        | inl none_left ↦ ground arith
      ]
    ]

cut_points-entry :
    (i j : ℕ) (xs : List Entry)
    → any (λ p. p == i + j) (cut_points i xs) ≡ true
    → (e : Entry) × (get_elem? xs j ≡ some e)
unfolding cut_points
cut_points-entry i j [] h = absurd (ground arith)
cut_points-entry i zero (e ∷ xs) h = (e, refl)
cut_points-entry i (suc j) (e ∷ xs) h = cut_points-entry (suc i) j xs (ground arith)

is_empty-nil {ℓ} : {A : Type ℓ} (xs : List A) → is_empty xs ≡ true → xs ≡ []
is_empty-nil [] h = refl
is_empty-nil (x ∷ xs) h = absurd (ground arith)

prepare_at-nothing :
    (xs : List Entry) (cut tokens : ℕ) (e : Entry)
    → prepare_at xs cut e tokens ≡ none
    → messages_of (take cut xs) ≡ []
prepare_at-nothing xs cut tokens e h = elim (Option-cases (turn_start_of xs cut e)) [
  | inl whole ↦ ground (arith, is_empty-nil (messages_of (take cut xs)))
  | inr (start, here) ↦ ground (
    arith,
    is_empty-nil (messages_of (take start xs)),
    is_empty-nil (messages_of (drop start (take cut xs))),
    take-take start cut xs (turn_start-bound xs cut start e here),
    halves start (take cut xs),
  )
]

-- No message stands in front of the cut.
abbrev pub IsVain : List Entry → ℕ → Bool → List ℕ → Type 0
IsVain xs keep force [] = cut_points 0 xs ≡ []
IsVain xs keep force (first ∷ points) =
    messages_of (take (choose_cut xs keep force (first ∷ points) first) xs) ≡ []

-- A preparation is made of exactly the messages of the branch. There is none only if the branch is
-- empty or ends in a compaction, it can be cut nowhere, or nothing stands in front of its cut.
abbrev pub Partitions : List Entry → ℕ → Bool → Option CompactionPreparation → Type 0
Partitions xs keep force none =
    ((is_empty xs || ends_compacted xs) ≡ true) ⊎ IsVain xs keep force (cut_points 0 xs)
Partitions xs keep force (some p) = parts_of p ≡ messages_of xs

prepare_cut-IsVain :
    (xs : List Entry) (keep tokens : ℕ) (force : Bool) (points : List ℕ)
    → cut_points 0 xs ≡ points
    → prepare_cut xs keep force tokens points ≡ none
    → IsVain xs keep force points
unfolding prepare_cut
prepare_cut-IsVain xs keep tokens force [] e h = e
prepare_cut-IsVain xs keep tokens force (first ∷ points) e h =
    let cut = choose_cut xs keep force (first ∷ points) first in
    let is_point = choose_cut-any xs keep force first points in
    let (entry, here) =
      cut_points-entry 0 cut xs
        (rw e (subst (λ c. any (λ p. p == c) (first ∷ points) ≡ true) (omega arith) is_point)) in
    prepare_at-nothing xs cut tokens entry (ground arith)

prepare_branch-Partitions :
    (xs : List Entry) (keep tokens : ℕ) (force : Bool)
    → Partitions xs keep force (prepare_branch xs keep force tokens)
unfolding prepare_branch
prepare_branch-Partitions xs keep tokens force =
    elim (Option-cases (prepare_cut xs keep force tokens (cut_points 0 xs))) [
      | inl nothing ↦
          rw nothing (inr (prepare_cut-IsVain xs keep tokens force (cut_points 0 xs) refl nothing))
      | inr (p, e) ↦ rw e (prepare_cut-parts xs keep tokens force (cut_points 0 xs) p e)
    ]

-- In a session that calls have built, prepare_compaction returns, forced or not. If it returns a
-- preparation, the messages to summarize, the first part of a split turn and the retained tail are,
-- one behind the other, all messages of the current branch; and it returns none only if the branch
-- is empty or ends in a compaction, has no message to cut at, or has no message in front of the cut.
pub preparation-Partitions :
    (s : Session) (keep : ℕ) (force : Bool)
    → Reached s
    → (entries : List Entry) × (result : Option CompactionPreparation) × (get_branch s.by_id
          s.current_leaf_id
        ≡ returned entries)
      × (prepare_compaction s keep force ≡ returned result)
      × Partitions entries keep force result
unfolding prepare_compaction prepare_from
preparation-Partitions s keep force r =
    let c : HasContext s = IsValid-HasContext s (Reached-IsValid r) in
    elim (Bool-cases (is_empty c.branch || ends_compacted c.branch)) [
      | inl nothing ↦
          (c.branch, none, c.walked, rw c.walked (rw (nothing, prepare_from) refl), inl nothing)
      | inr something ↦ (
        c.branch,
        prepare_branch c.branch keep force
            (estimate_context_tokens c.built.context.boundary c.built.context.messages),
        c.walked,
        rw c.walked (rw (something, prepare_from) (rw c.returns refl)),
        prepare_branch-Partitions c.branch keep _ force,
      )
    ]
