-- ===== src/Inference/Projection.antt =====
-- `project_inference_messages` and `normalize_inference_messages` of inference_runtime.py: what of
-- a session's messages is sent to a model. A boundary index is kept as the index behind it, as in
-- the contexts of sessions; the two lists that grow together are one list of pairs.
pub mod Answers
pub mod Boundaries
use aeloon_runtime.Prelude.{
  ℕ, zero, suc, ◌+◌, String, Bool, true, false, Option, none, some, List, [], ◌∷◌, ◌++◌, ltb, map,
  str_eq, contains, if◌then◌else◌,
}
use aeloon_runtime.Messages.{
  ToolCall, UserContent, AssistantMessage, ToolResultMessage, AgentMessage, user, assistant,
  tool_result, tool_calls, is_failed,
}

-- A projected message with the index of the message that it comes from.
abbrev pub Projected : Type 0
Projected = AgentMessage × ℕ

-- `pending_calls`: the name of the tool and the index of the message, by the id of the call.
abbrev pub Pending : Type 0
Pending = List (String × (String × ℕ))

-- `d[id] = value`: a key that is there keeps its place.
unfoldable pub put_call : String → String × ℕ → Pending → Pending
put_call id value [] = (id, value) ∷ []
put_call id value ((i, v) ∷ rest) =
    if str_eq i id then (i, value) ∷ rest else (i, v) ∷ put_call id value rest

-- The dictionary of the calls of the message at an index, over the calls before.
unfoldable pub add_calls : ℕ → Pending → List ToolCall → Pending
add_calls index pending [] = pending
add_calls index pending (c ∷ rest) = add_calls index (put_call c.id (c.name, index) pending) rest

module _ (now : ℕ) where
  -- The result that stands in for one that is missing, made at the time `now`.
  unfoldable pub no_result : String → String → ToolResultMessage
  no_result id name = record {
    tool_call_id = id;
    tool_name = name;
    content = UserContent.text "No result provided" ∷ [];
    is_error = true;
    usage = none;
    timestamp = now;
  }

  -- `flush_orphans`: what it appends.
  unfoldable pub flush_orphans : Pending → List String → List Projected
  flush_orphans [] resolved = []
  flush_orphans ((id, (name, index)) ∷ rest) resolved =
      let more = flush_orphans rest resolved in
      if contains resolved id then more else (tool_result (no_result id name), index) ∷ more

  -- The loop from message `index` on: what it appends, the last flush included.
  unfoldable pub project_from : ℕ → Pending → List String → List AgentMessage → List Projected
  unfolding flush_orphans
  project_from index pending resolved [] = flush_orphans pending resolved
  project_from index pending resolved (assistant m ∷ rest) =
      let skipped = project_from (suc index) [] [] rest in
      let kept = project_from (suc index) (add_calls index [] (tool_calls m)) [] rest in
      flush_orphans pending resolved
      ++ (if is_failed m.stop_reason then skipped else (assistant m, index) ∷ kept)
  project_from index pending resolved (tool_result t ∷ rest) =
      (tool_result t, index) ∷ project_from (suc index) pending (t.tool_call_id ∷ resolved) rest
  project_from index pending resolved (user u ∷ rest) =
      flush_orphans pending resolved ++ (user u, index) ∷ project_from (suc index) [] [] rest

  unfoldable pub project : List AgentMessage → List Projected
  unfolding project_from
  project messages = project_from 0 [] [] messages

  -- `normalize_inference_messages`
  unfoldable pub normalize_inference_messages : List AgentMessage → List AgentMessage
  unfolding project
  normalize_inference_messages messages = map (λ p. p.0) (project messages)

-- The largest index in the projection whose origin is before the boundary, and one behind it.
unfoldable pub rebase : ℕ → List Projected → ℕ
rebase boundary [] = 0
rebase boundary ((m, origin) ∷ rest) =
    let later = rebase boundary rest in
    if ltb 0 later then suc later else if ltb origin boundary then 1 else 0

-- `project_inference_messages`
unfoldable pub project_inference_messages :
    ℕ → List AgentMessage → Option ℕ → List AgentMessage × Option ℕ
unfolding normalize_inference_messages rebase
project_inference_messages now messages boundary = (
  normalize_inference_messages now messages,
  elim boundary [ none ↦ none | some b ↦ some (rebase b (project now messages)) ],
)
