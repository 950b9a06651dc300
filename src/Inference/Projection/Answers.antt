-- ===== src/Inference/Projection/Answers.antt =====
-- Whether what is sent to a model can be replayed: failed answers, and results for tool calls.
use aeloon_runtime.Prelude.{
  ℕ, suc, ◌≡◌, refl, ap, ◌∙◌, sym, subst, append-nil, String, Bool, true, false, List, [], ◌∷◌,
  ◌++◌, ◌||◌, map, str_eq, eq_iff, eq_refl, contains, All, arith, if◌then◌else◌, Bool-cases, inl,
  inr,
}
use aeloon_runtime.Messages.{
  ToolCall, ToolResultMessage, AgentMessage, user, assistant, tool_result, tool_calls, is_failed,
}
use aeloon_runtime.Inference.Projection.{
  Projected, Pending, put_call, add_calls, no_result, flush_orphans, project_from, project,
  normalize_inference_messages,
}

-- The ids of the results that stand before the next message of another kind.
abbrev pub results_ahead : List AgentMessage → List String
results_ahead (tool_result t ∷ rest) = t.tool_call_id ∷ results_ahead rest
results_ahead _ = []

-- No answer failed, and each tool call has a result before the next answer, input or end.
abbrev pub Replayable : List AgentMessage → Type 0
Replayable [] = ◌≡◌ {A = Bool} true true
Replayable (assistant m ∷ rest) =
    (is_failed m.stop_reason ≡ false)
    × All (λ (c : ToolCall). contains (results_ahead rest) c.id ≡ true) (tool_calls m)
    × Replayable rest
Replayable (_ ∷ rest) = Replayable rest

-- The messages of users and models, without failed answers.
unfoldable pub conversation : List AgentMessage → List AgentMessage
conversation [] = []
conversation (tool_result t ∷ rest) = conversation rest
conversation (user u ∷ rest) = user u ∷ conversation rest
conversation (assistant m ∷ rest) =
    let later = conversation rest in if is_failed m.stop_reason then later else assistant m ∷ later

abbrev messages_of : List Projected → List AgentMessage
messages_of ps = map (λ p. p.0) ps

-- Every pending call has its result already, or among those ahead.
abbrev Resolves : Pending → List String → List AgentMessage → Type 0
Resolves pending resolved out =
    All
      (λ (c : String × (String × ℕ)).
        contains resolved c.0 || contains (results_ahead out) c.0 ≡ true)
      pending

put_call-All :
    (P : String → Type 0) (id : String) (value : String × ℕ) (pending : Pending)
    → All (λ c. P c.0) (put_call id value pending)
    → P id × All (λ c. P c.0) pending
unfolding put_call
put_call-All P id value [] h = (h.0, tt)
put_call-All P id value ((i, v) ∷ rest) h = elim (Bool-cases (str_eq i id)) [
  | inl same ↦
      let there : All (λ c. P c.0) ((i, value) ∷ rest) = rw same at h in
      (subst P ((eq_iff i id).0 same) there.0, (there.0, there.1))
  | inr differ ↦
      let there : All (λ c. P c.0) ((i, v) ∷ put_call id value rest) = rw differ at h in
      let later = put_call-All P id value rest there.1 in (later.0, (there.0, later.1))
]

add_calls-All :
    (P : String → Type 0) (index : ℕ) (pending : Pending) (calls : List ToolCall)
    → All (λ c. P c.0) (add_calls index pending calls)
    → All (λ (c : String × (String × ℕ)). P c.0) pending × All (λ (c : ToolCall). P c.id) calls
unfolding add_calls
add_calls-All P index pending [] h = (h, tt)
add_calls-All P index pending (c ∷ rest) h =
    let later = add_calls-All P index (put_call c.id (c.name, index) pending) rest h in
    let here = put_call-All P c.id (c.name, index) pending later.0 in (here.1, (here.0, later.1))

Resolves-later :
    (pending : Pending) (resolved : List String) (t : ToolResultMessage) (out : List AgentMessage)
    → Resolves pending resolved out
    → Resolves pending resolved (tool_result t ∷ out)
Resolves-later [] resolved t out h = tt
Resolves-later ((id, v) ∷ rest) resolved t out h =
    (ground (arith, h.0), Resolves-later rest resolved t out h.1)

Resolves-taken :
    (pending : Pending) (resolved : List String) (t : ToolResultMessage) (out : List AgentMessage)
    → Resolves pending (t.tool_call_id ∷ resolved) out
    → Resolves pending resolved (tool_result t ∷ out)
Resolves-taken [] resolved t out h = tt
Resolves-taken ((id, v) ∷ rest) resolved t out h =
    (ground (arith, h.0), Resolves-taken rest resolved t out h.1)

module _ (now : ℕ) where
  flush_skips :
      (id name : String) (index : ℕ) (rest : Pending) (resolved : List String)
      → contains resolved id ≡ true
      → flush_orphans now ((id, (name, index)) ∷ rest) resolved ≡ flush_orphans now rest resolved
  unfolding flush_orphans
  flush_skips id name index rest resolved h = rw h refl

  flush_adds :
      (id name : String) (index : ℕ) (rest : Pending) (resolved : List String)
      → contains resolved id ≡ false
      → flush_orphans now ((id, (name, index)) ∷ rest) resolved
        ≡ (tool_result (no_result now id name), index) ∷ flush_orphans now rest resolved
  unfolding flush_orphans
  flush_adds id name index rest resolved h = rw h refl

  flush-Resolves :
      (pending : Pending) (resolved : List String) (out : List Projected)
      → Resolves pending resolved (messages_of (flush_orphans now pending resolved ++ out))
  unfolding no_result
  flush-Resolves [] resolved out = tt
  flush-Resolves ((id, (name, index)) ∷ rest) resolved out =
      let pending = (id, (name, index)) ∷ rest in
      let flushed = messages_of (flush_orphans now rest resolved ++ out) in
      let later = flush-Resolves rest resolved out in
      elim (Bool-cases (contains resolved id)) [
        | inl there ↦
            subst (λ ps. Resolves pending resolved (messages_of (ps ++ out)))
              (sym (flush_skips id name index rest resolved there)) (ground (arith, there), later)
        | inr missing ↦
            subst (λ ps. Resolves pending resolved (messages_of (ps ++ out)))
              (sym (flush_adds id name index rest resolved missing))
              (
                ground (arith, eq_refl id),
                Resolves-later rest resolved (no_result now id name) flushed later,
              )
      ]

  flush-Replayable :
      (pending : Pending) (resolved : List String) (out : List Projected)
      → Replayable (messages_of out)
      → Replayable (messages_of (flush_orphans now pending resolved ++ out))
  unfolding flush_orphans no_result
  flush-Replayable [] resolved out h = h
  flush-Replayable ((id, (name, index)) ∷ rest) resolved out h =
      let later = flush-Replayable rest resolved out h in
      elim (Bool-cases (contains resolved id)) [
        | inl there ↦ rw there later
        | inr missing ↦ rw missing later
      ]

  project_from-Replayable :
      (index : ℕ) (pending : Pending) (resolved : List String) (ms : List AgentMessage)
      → Resolves pending resolved (messages_of (project_from now index pending resolved ms))
        × Replayable (messages_of (project_from now index pending resolved ms))
  unfolding project_from
  project_from-Replayable index pending resolved [] =
      let none_left = append-nil (flush_orphans now pending resolved) in
      rw (← none_left)
        (flush-Resolves pending resolved [], flush-Replayable pending resolved [] refl)
  project_from-Replayable index pending resolved (user u ∷ rest) =
      let later = project_from-Replayable (suc index) [] [] rest in
      let out = (user u, index) ∷ project_from now (suc index) [] [] rest in
      (flush-Resolves pending resolved out, flush-Replayable pending resolved out later.1)
  project_from-Replayable index pending resolved (tool_result t ∷ rest) =
      let later = project_from-Replayable (suc index) pending (t.tool_call_id ∷ resolved) rest in
      (Resolves-taken pending resolved t _ later.0, later.1)
  project_from-Replayable index pending resolved (assistant m ∷ rest) =
      let skipped = project_from-Replayable (suc index) [] [] rest in
      let calls = add_calls index [] (tool_calls m) in
      let kept = project_from-Replayable (suc index) calls [] rest in
      let out = project_from now (suc index) calls [] rest in
      elim (Bool-cases (is_failed m.stop_reason)) [
        | inl failed ↦ rw failed (
          flush-Resolves pending resolved (project_from now (suc index) [] [] rest),
          flush-Replayable pending resolved (project_from now (suc index) [] [] rest) skipped.1,
        )
        | inr fine ↦
            let answered =
              add_calls-All (λ id. contains (results_ahead (messages_of out)) id ≡ true) index []
                (tool_calls m) kept.0 in
            rw fine (
              flush-Resolves pending resolved ((assistant m, index) ∷ out),
              flush-Replayable pending resolved ((assistant m, index) ∷ out)
                  (fine, answered.1, kept.1),
            )
      ]

  flush-conversation :
      (pending : Pending) (resolved : List String) (out : List Projected)
      → conversation (messages_of (flush_orphans now pending resolved ++ out))
        ≡ conversation (messages_of out)
  unfolding flush_orphans no_result conversation
  flush-conversation [] resolved out = refl
  flush-conversation ((id, (name, index)) ∷ rest) resolved out =
      let later = flush-conversation rest resolved out in
      elim (Bool-cases (contains resolved id)) [
        | inl there ↦ rw there later
        | inr missing ↦ rw missing later
      ]

  project_from-conversation :
      (index : ℕ) (pending : Pending) (resolved : List String) (ms : List AgentMessage)
      → conversation (messages_of (project_from now index pending resolved ms)) ≡ conversation ms
  unfolding project_from conversation
  project_from-conversation index pending resolved [] =
      rw (← append-nil (flush_orphans now pending resolved))
        (flush-conversation pending resolved [])
  project_from-conversation index pending resolved (user u ∷ rest) =
      flush-conversation pending resolved
        ((user u, index) ∷ project_from now (suc index) [] [] rest)
      ∙ ap (λ ms. user u ∷ ms) (project_from-conversation (suc index) [] [] rest)
  project_from-conversation index pending resolved (tool_result t ∷ rest) =
      project_from-conversation (suc index) pending (t.tool_call_id ∷ resolved) rest
  project_from-conversation index pending resolved (assistant m ∷ rest) =
      let calls = add_calls index [] (tool_calls m) in
      elim (Bool-cases (is_failed m.stop_reason)) [
        | inl failed ↦ rw failed (
            flush-conversation pending resolved (project_from now (suc index) [] [] rest)
            ∙ project_from-conversation (suc index) [] [] rest)
        | inr fine ↦ rw fine (
            flush-conversation pending resolved
              ((assistant m, index) ∷ project_from now (suc index) calls [] rest)
            ∙ rw fine
                (ap (λ ms. assistant m ∷ ms) (project_from-conversation (suc index) calls [] rest)))
      ]

  -- Whatever the history, what is sent to the model holds no failed answer, has a result for every
  -- tool call before the next answer, the next input or the end, and keeps every input and every
  -- answer that did not fail, in their order.
  pub normalized-Replayable :
      (ms : List AgentMessage)
      → Replayable (normalize_inference_messages now ms)
        × (conversation (normalize_inference_messages now ms) ≡ conversation ms)
  unfolding normalize_inference_messages project
  normalized-Replayable ms =
      ((project_from-Replayable 0 [] [] ms).1, project_from-conversation 0 [] [] ms)
