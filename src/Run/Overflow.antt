-- ===== src/Run/Overflow.antt =====
-- `_run_loop` behind an answer that overflows: whether the compacted context is tried again.
use aeloon_runtime.Prelude.{
  ℕ, suc, ◌≡◌, refl, ap, sym, ◌∙◌, String, Bool, true, false, some, List, [], ◌∷◌, ◌++◌,
  append_assoc, ◌&&◌, ltb, is_empty, ok,
}
use aeloon_runtime.Messages.{UserMessage, AgentMessage, assistant, AssistantMessage}
use aeloon_runtime.Control.{queue, RunInputKind, follow_up, RunController, drain}
use aeloon_runtime.Tools.{ToolMap}
use aeloon_runtime.Run.Engine.{
  RunRequest, ContextUpdate, RunEvent, overflow, compaction_start, context_compacted,
  compaction_end, agent_end, overflow_attempt, turn_end, Turn, Engine, act_all, compact, end_agent,
  stream_response,
}
use aeloon_runtime.Run.Turns.{
  next, overflows, open_turn, after_overflow, overflow_turn, run_turn, finished, run_turns,
}

pub drain_nothing :
    (c : RunController) (kind : RunInputKind) → queue kind c.queues ≡ [] → drain c kind ≡ (c, [])
unfolding drain
drain_nothing c kind h = rw (h, drain) refl

regroup :
    (xs : List RunEvent) (a b c d : RunEvent)
    → (xs ++ (a ∷ b ∷ c ∷ [])) ++ d ∷ [] ≡ (xs ++ (a ∷ b ∷ [])) ++ (c ∷ d ∷ [])
regroup xs a b c d =
    append_assoc xs (a ∷ b ∷ c ∷ []) (d ∷ []) ∙ sym (append_assoc xs (a ∷ b ∷ []) (c ∷ d ∷ []))

module _ (search : String → String → Bool) (req : RunRequest) (tools : ToolMap)
    (active : List String) (e : Engine) (t : Turn) (pending : List AgentMessage)
    (first_turn : Bool) where
  -- The answer of the turn, and the engine as the request leaves it.
  abbrev pub streamed : Engine × AssistantMessage
  streamed = stream_response search req (open_turn search req tools active e pending first_turn) t

  -- The answer overflows, and the run may compact once more.
  abbrev pub compacts_again : ℕ → Bool
  compacts_again n =
      overflows search req tools active streamed.1
      && ltb n 2
      && req.compacts
      && req.context_policy.enabled

  -- The engine behind the compaction.
  abbrev pub compacted : ContextUpdate → Engine
  compacted u = record streamed.0 {
    messages = u.messages;
    new_messages = streamed.0.new_messages ++ assistant streamed.1 ∷ [];
    boundary = u.boundary;
    context_update = some u;
    controller = act_all streamed.0.controller t.during_compaction;
    events =
        (streamed.0.events
          ++ (overflow_attempt streamed.1 streamed.0.last_attempt ∷ turn_end streamed.1 [] ∷ []))
        ++ (compaction_start overflow
            ∷ context_compacted u.summary
            ∷ compaction_end overflow true
            ∷ []);
  }

  run_turn_compacts :
      (more : Bool) (n : ℕ) (u : ContextUpdate)
      → compacts_again n ≡ true
      → t.compaction ≡ ok u
      → run_turn search req tools active e t pending first_turn more n
        ≡ next (compacted u) streamed.1 more [] (suc n)
  unfolding run_turn overflow_turn after_overflow compact
  run_turn_compacts more n u again ok_u = rw (again, ok_u, run_turn) refl

  -- If tool calls were left, or this is the first answer to an input, the compacted context is tried.
  pub overflow_retried :
      (ts : List Turn) (n : ℕ) (u : ContextUpdate)
      → compacts_again n ≡ true
      → t.compaction ≡ ok u
      → run_turns search req tools active (t ∷ ts) e pending first_turn true n
        ≡ run_turns search req tools active ts (compacted u) [] false true (suc n)
  unfolding run_turns
  overflow_retried ts n u again ok_u = rw (run_turn_compacts true n u again ok_u, run_turns) refl

  -- If the turn before made no tool calls, the run ends with the answer that overflows, right after
  -- the event that announces that it is tried again, unless follow-up input is queued.
  pub announced_not_retried :
      (ts : List Turn) (n : ℕ) (u : ContextUpdate)
      → compacts_again n ≡ true
      → t.compaction ≡ ok u
      → (act_all streamed.0.controller t.during_compaction).queues.following ≡ []
      → (e' : Engine) × (before : List RunEvent) × (run_turns search req tools active
            (t ∷ ts)
            e
            pending
            first_turn
            false
            n
          ≡ finished e' streamed.1)
        × (e'.events ≡ before ++ (compaction_end overflow true ∷ agent_end e'.new_messages ∷ []))
  unfolding run_turns
  announced_not_retried ts n u again ok_u nothing =
      let before =
        streamed.0.events
        ++ (overflow_attempt streamed.1 streamed.0.last_attempt ∷ turn_end streamed.1 [] ∷ []) in
      (
        end_agent
            (record (compacted u) { controller = (drain (compacted u).controller follow_up).0 }),
        before ++ (compaction_start overflow ∷ context_compacted u.summary ∷ []),
        rw
            (
              run_turn_compacts false n u again ok_u,
              ap (λ (r : RunController × List UserMessage). is_empty r.1)
                  (drain_nothing (compacted u).controller follow_up nothing),
              run_turns,
            )
            refl,
        regroup before _ _ _ _,
      )
