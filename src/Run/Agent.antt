-- ===== src/Run/Agent.antt =====
-- `run_agent` and `_RunEngine.run` of runner.py: the checks, the input, and the compactions around
-- the loop.
use aeloon_runtime.Prelude.{
  ℕ, ◌+◌, ◌-◌, String, Bool, true, false, Option, none, some, List, [], ◌∷◌, ◌++◌, zero, suc, ◌&&◌,
  ◌||◌, not, leb, is_blank, is_empty, map, concat, decimal, sum_of, Result, ok, err, if◌then◌else◌,
}
use aeloon_runtime.Messages.{
  Usage, AgentMessage, user, assistant, tool_result, AssistantMessage, StopReason, is_failed,
}
use aeloon_runtime.Stats.Estimate.{estimate_tokens}
use aeloon_runtime.Control.{RunController, bind, release}
use aeloon_runtime.Compaction.{ContextPolicy, should_compact, is_context_overflow}
use aeloon_runtime.Tools.{Tool, ToolMap, Failure}
use aeloon_runtime.Tools.Registry.{unique_tools, validate_active_names}
use aeloon_runtime.Inference.Retry.{Model, without_content}
use aeloon_runtime.Run.Engine.{
  RunRequest, ContextUpdate, threshold, overflow, agent_start, turn_start, turn_end, settled,
  ControlOp, Turn, Engine, new_engine, emit, intervene, append_message, append_all, end_agent,
  try_compact, estimate_inference_context,
}
use aeloon_runtime.Run.Turns.{Ending, finished, raised, running, run_loop}

-- What comes from outside around the loop: the hook on the start may replace the input, and does
-- not fail; what
-- others do to the controller before the loop; and the two compactions.
pub record Surroundings : Type 0 where
  pub start_hook : Option (List AgentMessage)
  pub before_loop : List ControlOp
  pub first_compaction : Result String ContextUpdate
  pub last_compaction : Result String ContextUpdate
  pub during_last : List ControlOp
  pub now : ℕ

-- `_aggregate_usage`, without costs
abbrev pub usages : List AgentMessage → List Usage
usages [] = []
usages (assistant m ∷ rest) = m.usage ∷ usages rest
usages (tool_result t ∷ rest) = elim t.usage [ none ↦ usages rest | some u ↦ u ∷ usages rest ]
usages (user u ∷ rest) = usages rest

-- `sum(item.reasoning or 0 for item in usages) or None`
abbrev total_reasoning : List Usage → Option ℕ
total_reasoning us = elim (sum_of (λ (u : Usage). elim u.reasoning [ none ↦ 0 | some n ↦ n ]) us) [
  | zero ↦ none
  | suc n ↦ some (n + 1)
]

unfoldable pub aggregate_usage : List AgentMessage → Usage
aggregate_usage messages =
    let us = usages messages in
    record {
      input = sum_of (λ (u : Usage). u.input) us;
      output = sum_of (λ (u : Usage). u.output) us;
      cache_read = sum_of (λ (u : Usage). u.cache_read) us;
      cache_write = sum_of (λ (u : Usage). u.cache_write) us;
      total_tokens = sum_of (λ (u : Usage). u.total_tokens) us;
      reasoning = total_reasoning us;
    }

pub record RunResult : Type 0 where
  pub final_message : AssistantMessage
  pub new_messages : List AgentMessage
  pub usage : Usage
  pub stop_reason : StopReason
  pub context_update : Option ContextUpdate

-- The error for the first input that does not fit, whatever is compacted.
oversized_text : ℕ → ℕ → ℕ → ℕ → String
oversized_text estimated budget window reserve = concat (
    "User input exceeds usable context budget: "
    ∷ "estimated "
    ∷ decimal estimated
    ∷ " tokens, budget "
    ∷ decimal budget
    ∷ " tokens "
    ∷ "(context window "
    ∷ decimal window
    ∷ ", reserve "
    ∷ decimal reserve
    ∷ "). "
    ∷ "Historical compaction cannot reduce a single oversized input."
    ∷ [])

-- `_oversized_input_error`
unfoldable pub oversized_input_error :
    Model → ContextPolicy → ℕ → List AgentMessage → Option AssistantMessage
unfolding oversized_text
oversized_input_error model policy now [] = none
oversized_input_error model policy now (user u ∷ rest) =
    let later = oversized_input_error model policy now rest in
    let budget = model.context_window - policy.reserve_tokens in
    let estimated = estimate_tokens (user u) in
    if leb estimated budget
    then later
    else some (
        without_content model now StopReason.error
          (some (oversized_text estimated budget model.context_window policy.reserve_tokens)))
oversized_input_error model policy now (_ ∷ rest) = oversized_input_error model policy now rest

-- `_finish_input_error`
unfoldable pub finish_input_error : Engine → List AgentMessage → AssistantMessage → Engine
finish_input_error e initial m = end_agent (
    emit
      (append_message (append_all (emit e (agent_start ∷ turn_start ∷ [])) initial) (assistant m)
        false (some 0))
      (turn_end m [] ∷ []))

-- A run was refused, it raised, it returned, or it still runs.
pub data Outcome : Type 0 where
  refused : Outcome
  run_failed : Engine → List Failure → Outcome
  returned : Engine → RunResult → Outcome
  still_running : Engine → Outcome

-- `finally`
abbrev pub settle : Engine → Engine
settle e = record (emit e (settled ∷ [])) { controller = release e.controller }

abbrev pub result_of : Engine → AssistantMessage → Option ContextUpdate → RunResult
result_of e m update = record {
  final_message = m;
  new_messages = e.new_messages;
  usage = aggregate_usage e.new_messages;
  stop_reason = m.stop_reason;
  context_update = update;
}

abbrev is_stop : StopReason → Bool
is_stop StopReason.stop = true
is_stop _ = false

module _ (search : String → String → Bool) (req : RunRequest) (s : Surroundings) where
  -- Compaction before the loop.
  unfoldable pub prepare_context : Engine → List AgentMessage → Engine
  prepare_context e initial =
      if req.compacts
        && should_compact (estimate_inference_context s.now e (e.messages ++ initial))
            req.model.context_window req.context_policy
      then try_compact e threshold false s.first_compaction
      else e

  -- Whether an answer that overflows without an error is compacted behind the loop.
  unfoldable pub compacts_overflow : Engine → AssistantMessage → Bool
  compacts_overflow e m =
      is_context_overflow search m (some req.model.context_window)
      && is_stop m.stop_reason
      && not e.controller.abort_requested
      && req.compacts
      && req.context_policy.enabled

  -- Whether a context over the threshold is.
  unfoldable pub compacts_threshold : Engine → AssistantMessage → Bool
  compacts_threshold e m =
      not (is_failed m.stop_reason)
      && not e.controller.abort_requested
      && req.compacts
      && should_compact (estimate_inference_context s.now e e.messages) req.model.context_window
          req.context_policy

  -- Compaction behind the loop.
  unfoldable pub tidy_context : Engine → AssistantMessage → Engine
  unfolding compacts_overflow compacts_threshold
  tidy_context e m =
      if compacts_overflow e m
      then intervene (try_compact e overflow false s.last_compaction) s.during_last
      else if compacts_threshold e m
      then intervene (try_compact e threshold false s.last_compaction) s.during_last
      else e

  unfoldable pub end_run : Ending → Outcome
  unfolding tidy_context
  end_run (finished e m) =
      let e' = tidy_context e m in returned (settle e') (result_of e' m e'.context_update)
  end_run (raised e fs) = run_failed (settle e) fs
  end_run (running e) = still_running e

  -- `run`, once the controller is bound
  unfoldable pub run_bound : ToolMap → List String → Engine → List Turn → Outcome
  unfolding prepare_context end_run
  run_bound tools active e ts =
      let initial : List AgentMessage = elim s.start_hook [
        | none ↦ req.input
        | some given ↦ given
      ] in
      elim (oversized_input_error req.model req.context_policy s.now initial) [
        | some m ↦
            let e' = finish_input_error e initial m in returned (settle e') (result_of e' m none)
        | none ↦
            let prepared = intervene (prepare_context e initial) s.before_loop in
            end_run (run_loop search req tools active prepared initial ts s.now)
      ]

  -- `run_agent` with a controller: an empty input, a bad tool registry or a controller in use is
  -- refused.
  unfoldable pub run_agent : RunController → List Turn → Outcome
  unfolding run_bound
  run_agent controller ts = elim (is_blank req.run_id || is_empty req.input) [
    | true ↦ refused
    | false ↦ elim (unique_tools req.tools) [
      | err f ↦ refused
      | ok tools ↦
          let names : List String = elim req.active_tool_names [
            | none ↦ map (λ (t : Tool). t.name) req.tools
            | some given ↦ given
          ] in
          elim (validate_active_names tools names) [
            | err f ↦ refused
            | ok active ↦ elim (bind controller) [
              | err f ↦ refused
              | ok bound ↦ run_bound tools active (new_engine req bound) ts
            ]
          ]
    ]
  ]
