-- ===== src/Inference/Projection/Boundaries.antt =====
-- Where a boundary between old and fresh messages stands among the projected ones.
use aeloon_runtime.Prelude.{
  ℕ, zero, suc, ◌≤◌, ◌≡◌, refl, String, Bool, true, false, some, List, [], ◌∷◌, ◌++◌, ltb,
  get_elem?, contains, str_eq, append-nil, All, All-append, All-get_elem?, drop, drop-cons, arith,
  Bool-cases, inl, inr, ◌⊎◌,
}
use aeloon_runtime.Messages.{
  ToolCall, AgentMessage, user, assistant, tool_result, tool_calls, is_failed,
}
use aeloon_runtime.Inference.Projection.{
  Projected, Pending, put_call, add_calls, flush_orphans, project_from, project, rebase,
  project_inference_messages,
}

abbrev pub is_tool_result : AgentMessage → Bool
is_tool_result (tool_result t) = true
is_tool_result _ = false

-- Nothing comes from before this index.
abbrev ComesFrom : ℕ → List Projected → Type 0
ComesFrom low ps = All (λ (p : Projected). low ≤ p.1) ps

abbrev CallsFrom : ℕ → Pending → Type 0
CallsFrom low pending = All (λ (c : String × (String × ℕ)). low ≤ c.1.1) pending

-- Behind an input or an answer nothing comes from before it.
abbrev IsRising : List Projected → Type 0
IsRising [] = ◌≡◌ {A = Bool} true true
IsRising (p ∷ rest) = ((is_tool_result p.0 ≡ true) ⊎ ComesFrom p.1 rest) × IsRising rest

put_call-CallsFrom :
    (low index : ℕ) (id name : String) (pending : Pending)
    → low ≤ index
    → CallsFrom low pending
    → CallsFrom low (put_call id (name, index) pending)
unfolding put_call
put_call-CallsFrom low index id name [] le h = (le, tt)
put_call-CallsFrom low index id name ((i, v) ∷ rest) le h =
    let later = put_call-CallsFrom low index id name rest le h.1 in
    elim (Bool-cases (str_eq i id)) [
      | inl same ↦ rw same (le, h.1)
      | inr differ ↦ rw differ (h.0, later)
    ]

add_calls-CallsFrom :
    (low index : ℕ) (pending : Pending) (calls : List ToolCall)
    → low ≤ index
    → CallsFrom low pending
    → CallsFrom low (add_calls index pending calls)
unfolding add_calls
add_calls-CallsFrom low index pending [] le h = h
add_calls-CallsFrom low index pending (c ∷ rest) le h =
    add_calls-CallsFrom low index (put_call c.id (c.name, index) pending) rest le
      (put_call-CallsFrom low index c.id c.name pending le h)

module _ (now : ℕ) where
  flush-ComesFrom :
      (low : ℕ) (pending : Pending) (resolved : List String)
      → CallsFrom low pending
      → ComesFrom low (flush_orphans now pending resolved)
  unfolding flush_orphans
  flush-ComesFrom low [] resolved h = tt
  flush-ComesFrom low ((id, (name, index)) ∷ rest) resolved h =
      let later = flush-ComesFrom low rest resolved h.1 in
      elim (Bool-cases (contains resolved id)) [
        | inl there ↦ rw there later
        | inr missing ↦ rw missing (h.0, later)
      ]

  project_from-ComesFrom :
      (low index : ℕ) (pending : Pending) (resolved : List String) (ms : List AgentMessage)
      → low ≤ index
      → CallsFrom low pending
      → ComesFrom low (project_from now index pending resolved ms)
  unfolding project_from
  project_from-ComesFrom low index pending resolved [] le h = flush-ComesFrom low pending resolved h
  project_from-ComesFrom low index pending resolved (user u ∷ rest) le h =
      All-append _ (flush_orphans now pending resolved) _ (flush-ComesFrom low pending resolved h)
        (le, project_from-ComesFrom low (suc index) [] [] rest (omega arith) tt)
  project_from-ComesFrom low index pending resolved (tool_result t ∷ rest) le h = (
    le,
    project_from-ComesFrom low (suc index) pending (t.tool_call_id ∷ resolved) rest (omega arith) h,
  )
  project_from-ComesFrom low index pending resolved (assistant m ∷ rest) le h =
      let calls = add_calls index [] (tool_calls m) in
      let flushed = flush-ComesFrom low pending resolved h in
      let skipped = project_from-ComesFrom low (suc index) [] [] rest (omega arith) tt in
      let kept =
        project_from-ComesFrom low (suc index) calls [] rest (omega arith)
          (add_calls-CallsFrom low index [] (tool_calls m) le tt) in
      elim (Bool-cases (is_failed m.stop_reason)) [
        | inl failed ↦
            rw failed (All-append _ (flush_orphans now pending resolved) _ flushed skipped)
        | inr fine ↦
            rw fine (All-append _ (flush_orphans now pending resolved) _ flushed (le, kept))
      ]

  flush-IsRising :
      (pending : Pending) (resolved : List String) (out : List Projected)
      → IsRising out
      → IsRising (flush_orphans now pending resolved ++ out)
  unfolding flush_orphans
  flush-IsRising [] resolved out h = h
  flush-IsRising ((id, (name, index)) ∷ rest) resolved out h =
      let later = flush-IsRising rest resolved out h in
      elim (Bool-cases (contains resolved id)) [
        | inl there ↦ rw there later
        | inr missing ↦ rw missing (inl refl, later)
      ]

  project_from-IsRising :
      (index : ℕ) (pending : Pending) (resolved : List String) (ms : List AgentMessage)
      → IsRising (project_from now index pending resolved ms)
  unfolding project_from
  project_from-IsRising index pending resolved [] =
      rw (← append-nil (flush_orphans now pending resolved))
        (flush-IsRising pending resolved [] refl)
  project_from-IsRising index pending resolved (user u ∷ rest) =
      flush-IsRising pending resolved ((user u, index) ∷ project_from now (suc index) [] [] rest) (
        inr (project_from-ComesFrom index (suc index) [] [] rest (omega arith) tt),
        project_from-IsRising (suc index) [] [] rest,
      )
  project_from-IsRising index pending resolved (tool_result t ∷ rest) =
      (inl refl, project_from-IsRising (suc index) pending (t.tool_call_id ∷ resolved) rest)
  project_from-IsRising index pending resolved (assistant m ∷ rest) =
      let calls = add_calls index [] (tool_calls m) in
      let skipped = project_from-IsRising (suc index) [] [] rest in
      let kept = project_from-IsRising (suc index) calls [] rest in
      let above =
        project_from-ComesFrom index (suc index) calls [] rest (omega arith)
          (add_calls-CallsFrom index index [] (tool_calls m) (omega arith) tt) in
      elim (Bool-cases (is_failed m.stop_reason)) [
        | inl failed ↦
            rw failed
              (flush-IsRising pending resolved (project_from now (suc index) [] [] rest) skipped)
        | inr fine ↦ rw fine (
            flush-IsRising pending resolved
              ((assistant m, index) ∷ project_from now (suc index) calls [] rest) (inr above, kept))
      ]

-- An input or an answer is the message that stands at its index.
abbrev IsFrom : List AgentMessage → List Projected → Type 0
IsFrom ms ps =
    All (λ (p : Projected). (is_tool_result p.0 ≡ true) ⊎ (get_elem? ms p.1 ≡ some p.0)) ps

module _ (now : ℕ) (all : List AgentMessage) where
  flush-IsFrom :
      (pending : Pending) (resolved : List String) → IsFrom all (flush_orphans now pending resolved)
  unfolding flush_orphans
  flush-IsFrom [] resolved = tt
  flush-IsFrom ((id, (name, index)) ∷ rest) resolved =
      let later = flush-IsFrom rest resolved in
      elim (Bool-cases (contains resolved id)) [
        | inl there ↦ rw there later
        | inr missing ↦ rw missing (inl refl, later)
      ]

  project_from-IsFrom :
      (index : ℕ) (pending : Pending) (resolved : List String) (ms : List AgentMessage)
      → drop index all ≡ ms
      → IsFrom all (project_from now index pending resolved ms)
  unfolding project_from
  project_from-IsFrom index pending resolved [] at = flush-IsFrom pending resolved
  project_from-IsFrom index pending resolved (user u ∷ rest) at =
      let (here, later) = drop-cons index all (user u) rest at in
      All-append _ (flush_orphans now pending resolved) _ (flush-IsFrom pending resolved)
        (inr here, project_from-IsFrom (suc index) [] [] rest later)
  project_from-IsFrom index pending resolved (tool_result t ∷ rest) at =
      let (here, later) = drop-cons index all (tool_result t) rest at in
      (inl refl, project_from-IsFrom (suc index) pending (t.tool_call_id ∷ resolved) rest later)
  project_from-IsFrom index pending resolved (assistant m ∷ rest) at =
      let (here, later) = drop-cons index all (assistant m) rest at in
      let skipped = project_from-IsFrom (suc index) [] [] rest later in
      let kept =
        project_from-IsFrom (suc index) (add_calls index [] (tool_calls m)) [] rest later in
      let flushed = flush-IsFrom pending resolved in
      elim (Bool-cases (is_failed m.stop_reason)) [
        | inl failed ↦
            rw failed (All-append _ (flush_orphans now pending resolved) _ flushed skipped)
        | inr fine ↦
            rw fine (All-append _ (flush_orphans now pending resolved) _ flushed (inr here, kept))
      ]

is_from :
    (now k origin : ℕ) (ms : List AgentMessage) (m : AgentMessage)
    → get_elem? (project now ms) k ≡ some (m, origin)
    → is_tool_result m ≡ false
    → get_elem? ms origin ≡ some m
unfolding project
is_from now k origin ms m e kind =
    elim (All-get_elem? _ (project now ms) k (m, origin)
      (project_from-IsFrom now ms 0 [] [] ms refl) e) [ inl tool ↦ cc | inr here ↦ here ]

rebase-fresh :
    (boundary low : ℕ) (ps : List Projected)
    → ComesFrom low ps
    → boundary ≤ low
    → rebase boundary ps ≡ 0
unfolding rebase
rebase-fresh boundary low [] h le = refl
rebase-fresh boundary low (p ∷ rest) h le =
    ground (arith, h.0, rebase-fresh boundary low rest h.1 le)

rebase-exact :
    (boundary k origin : ℕ) (m : AgentMessage) (ps : List Projected)
    → IsRising ps
    → get_elem? ps k ≡ some (m, origin)
    → is_tool_result m ≡ false
    → ltb k (rebase boundary ps) ≡ ltb origin boundary
unfolding rebase
rebase-exact boundary k origin m [] h e kind = absurd (ground arith)
rebase-exact boundary zero origin m ((m', origin') ∷ rest) h e kind = elim h.0 [
  | inl tool ↦ absurd (ground arith)
  | inr above ↦ ground (arith, rebase-fresh boundary origin' rest above)
]
rebase-exact boundary (suc k) origin m (p ∷ rest) h e kind =
    ground (arith, rebase-exact boundary k origin m rest h.1 e kind)

-- Wherever a boundary stands, an input or an answer of the projection is the message at its origin,
-- and it is before the projected boundary exactly when that message is before the boundary.
pub boundary_kept :
    (now boundary k origin : ℕ) (ms : List AgentMessage) (m : AgentMessage)
    → get_elem? (project now ms) k ≡ some (m, origin)
    → is_tool_result m ≡ false
    → (fresh : ℕ) × ((project_inference_messages now ms (some boundary)).1 ≡ some fresh)
      × (get_elem? ms origin ≡ some m)
      × (ltb k fresh ≡ ltb origin boundary)
unfolding project_inference_messages project
boundary_kept now boundary k origin ms m e kind = (
  rebase boundary (project now ms),
  refl,
  is_from now k origin ms m e kind,
  rebase-exact boundary k origin m (project now ms) (project_from-IsRising now 0 [] [] ms) e kind,
)
