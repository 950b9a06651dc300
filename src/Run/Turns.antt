-- ===== src/Run/Turns.antt =====
-- `_run_loop` of runner.py, turn by turn.
use aeloon_runtime.Prelude.{
  ℕ, suc, ◌+◌, String, Bool, true, false, Option, none, some, List, [], ◌∷◌, ◌++◌, ◌&&◌, ◌||◌, not,
  ltb, leb, is_empty, map, concat, decimal, Result, ok, err, if◌then◌else◌,
}
use aeloon_runtime.Messages.{
  AgentMessage, user, assistant, tool_result, AssistantMessage, ToolResultMessage, StopReason,
  ToolCall, tool_calls, is_failed,
}
use aeloon_runtime.Control.{steer, follow_up, drain}
use aeloon_runtime.Compaction.{ContextPolicy, is_context_overflow}
use aeloon_runtime.Tools.{ToolMap, Answers, Failure}
use aeloon_runtime.Tools.Batch.{Asked, execute_calls, fail_truncated_calls}
use aeloon_runtime.Run.Engine.{
  RunRequest, Engine, Turn, agent_start, turn_start, overflow_attempt, turn_end, tool_calls_run,
  compaction_failed, overflow, emit, intervene, append_message, append_all, end_agent, compact,
  aborted_message, stream_response,
}

-- What a turn comes to: the loop goes on with `has_more_tools`, the pending messages and the number
-- of overflow attempts; or the run is over; or the tools raised.
pub data Step : Type 0 where
  next :
      Engine
      → AssistantMessage
      → (has_more_tools : Bool) → (pending : List AgentMessage) → (overflow_attempts : ℕ) → Step
  over : Engine → AssistantMessage → Step
  failed : Engine → List Failure → Step

-- `final.stop_reason in {"error", "length"}`
abbrev pub is_cut : StopReason → Bool
is_cut StopReason.error = true
is_cut StopReason.length = true
is_cut _ = false

abbrev pub is_length : StopReason → Bool
is_length StopReason.length = true
is_length _ = false

-- How the loop ends; with all turns of the script taken, it still runs.
pub data Ending : Type 0 where
  finished : Engine → AssistantMessage → Ending
  raised : Engine → List Failure → Ending
  running : Engine → Ending

-- The calls with what is done with each, by its place.
abbrev pub ask : (ℕ → Answers) → ℕ → List ToolCall → List Asked
ask answers n [] = []
ask answers n (c ∷ rest) = (c, answers n) ∷ ask answers (suc n) rest

abbrev pub at_time : ℕ → List ToolCall → List (ToolCall × ℕ)
at_time now calls = map (λ c. (c, now)) calls

-- The tool results of an answer, and `terminate`.
unfoldable pub run_tools :
    ToolMap
    → List String
    → Engine
    → AssistantMessage
    → Turn
    → Engine × Result (List Failure) (List ToolResultMessage × Bool)
run_tools tools active e m t = elim (tool_calls m) [
  | [] ↦ (e, ok ([], false))
  | call ∷ calls ↦ elim (is_length m.stop_reason) [
    | true ↦
        let (events, results) = fail_truncated_calls (at_time t.now (call ∷ calls)) in
        (emit e (tool_calls_run (events ∷ []) ∷ []), ok (results, false))
    | false ↦
        let (events, outcome) = execute_calls tools active (ask t.answers 0 (call ∷ calls)) in
        (intervene (emit e (tool_calls_run events ∷ [])) t.during_tools, outcome)
  ]
]

-- The end of a turn whose answer did not fail, with its tool results.
unfoldable pub finish_turn : Engine → AssistantMessage → List ToolResultMessage → Bool → ℕ → Step
finish_turn e m results terminate overflow_attempts =
    let e' = emit (append_all e (map tool_result results)) (turn_end m results ∷ []) in
    elim e'.controller.abort_requested [
      | true ↦ over (end_agent e') m
      | false ↦
          let (c, pending) = drain e'.controller steer in
          next (record e' { controller = c }) m (not (is_empty (tool_calls m)) && not terminate)
            (map user pending) overflow_attempts
    ]

-- The error that replaces an answer which still overflows.
unfoldable pub overflow_text : ContextPolicy → ℕ → String
overflow_text policy window = concat (
    "Context still exceeds the model window after 2 compaction attempts "
    ∷ "(context window "
    ∷ decimal window
    ∷ ", "
    ∷ "effective reserve "
    ∷ decimal policy.reserve_tokens
    ∷ ", effective keep "
    ∷ decimal policy.keep_recent_tokens
    ∷ ")."
    ∷ [])

module _ (search : String → String → Bool) (req : RunRequest) (tools : ToolMap)
    (active : List String) where
  -- The answer stops short and is over the window.
  unfoldable pub overflows : AssistantMessage → Bool
  overflows m = is_cut m.stop_reason && is_context_overflow search m (some req.model.context_window)

  -- What follows the compaction of an overflow: the next turn, or the end if it failed.
  unfoldable pub after_overflow : AssistantMessage → Turn → Bool → ℕ → Engine × Option String → Step
  after_overflow m t has_more_tools overflow_attempts (compacted, none) =
      next (intervene compacted t.during_compaction) m has_more_tools [] overflow_attempts
  after_overflow m t has_more_tools overflow_attempts (compacted, some text) =
      let told =
        emit (intervene compacted t.during_compaction) (compaction_failed overflow text ∷ []) in
      let aborted = aborted_message req.model t.now in
      elim told.controller.abort_requested [
        | true ↦
            over
              (end_agent
                (append_message told (assistant aborted) false (some (told.last_attempt + 1))))
              aborted
        | false ↦ over (end_agent told) m
      ]

  -- An answer that overflows is dropped from the messages, and they are compacted.
  unfoldable pub overflow_turn : Engine → AssistantMessage → Turn → Bool → ℕ → Step
  unfolding after_overflow
  overflow_turn e m t has_more_tools overflow_attempts =
      let dropped = record e {
        new_messages = e.new_messages ++ assistant m ∷ [];
        events = e.events ++ (overflow_attempt m e.last_attempt ∷ turn_end m [] ∷ []);
      } in
      after_overflow m t has_more_tools (suc overflow_attempts)
        (compact dropped overflow true t.compaction)

  -- After two compactions an overflow is an error.
  unfoldable pub judged : AssistantMessage → ℕ → AssistantMessage
  unfolding overflows
  judged m overflow_attempts =
      if leb 2 overflow_attempts && overflows m
      then record m {
        stop_reason = StopReason.error;
        error_message = some (overflow_text req.context_policy req.model.context_window);
      }
      else m

  -- A turn whose answer stands.
  unfoldable pub answer_turn : Engine → AssistantMessage → Turn → ℕ → Step
  answer_turn e m t overflow_attempts =
      let e' = append_message e (assistant m) true (some e.last_attempt) in
      elim (is_failed m.stop_reason) [
        | true ↦ over (end_agent (emit e' (turn_end m [] ∷ []))) m
        | false ↦
            let (e'', outcome) = run_tools tools active e' m t in
            elim outcome [
              | err fs ↦ failed e'' fs
              | ok (results, terminate) ↦ finish_turn e'' m results terminate overflow_attempts
            ]
      ]

  -- What precedes the answer of a turn.
  unfoldable pub open_turn : Engine → List AgentMessage → Bool → Engine
  open_turn e pending first_turn =
      append_all (if first_turn then e else emit e (turn_start ∷ [])) pending

  -- The body of the inner loop.
  unfoldable pub run_turn : Engine → Turn → List AgentMessage → Bool → Bool → ℕ → Step
  run_turn e t pending first_turn has_more_tools overflow_attempts =
      let (e', m) = stream_response search req (open_turn e pending first_turn) t in
      elim (overflows m && ltb overflow_attempts 2 && req.compacts && req.context_policy.enabled) [
        | true ↦ overflow_turn e' m t has_more_tools overflow_attempts
        | false ↦ answer_turn e' (judged m overflow_attempts) t overflow_attempts
      ]

  -- Both loops: where the inner one ends, follow-up input starts it again.
  unfoldable pub run_turns : List Turn → Engine → List AgentMessage → Bool → Bool → ℕ → Ending
  run_turns [] e pending first_turn has_more_tools overflow_attempts = running e
  run_turns (t ∷ ts) e pending first_turn has_more_tools overflow_attempts =
      elim (run_turn e t pending first_turn has_more_tools overflow_attempts) [
        | over e' m ↦ finished e' m
        | failed e' fs ↦ raised e' fs
        | next e' m more pending' attempts ↦ elim (more || not (is_empty pending')) [
          | true ↦ run_turns ts e' pending' false more attempts
          | false ↦
              let (c, follow) = drain e'.controller follow_up in
              elim (is_empty follow) [
                | true ↦ finished (end_agent (record e' { controller = c })) m
                | false ↦
                    run_turns ts (record e' { controller = c }) (map user follow) false true
                      attempts
              ]
        ]
      ]

  -- `_run_loop` of the initial messages
  unfoldable pub run_loop : Engine → List AgentMessage → List Turn → ℕ → Ending
  run_loop e initial ts now =
      let started = append_all (emit e (agent_start ∷ turn_start ∷ [])) initial in
      elim started.controller.abort_requested [
        | true ↦
            let m = aborted_message req.model now in
            finished
              (end_agent (
                emit (append_message started (assistant m) false (some (started.last_attempt + 1)))
                  (turn_end m [] ∷ [])))
              m
        | false ↦
            let (c, pending) = drain started.controller steer in
            run_turns ts (record started { controller = c }) (map user pending) true true 0
      ]
