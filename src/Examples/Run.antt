-- ===== src/Examples/Run.antt =====
-- Runs of one and of two turns: the second answer overflows the window.
use aeloon_runtime.Prelude.{
  false, is_blank, ℕ, ◌≡◌, ◌++◌, refl, true, false, Option, none, some, List, [], ◌∷◌, str_eq, ok,
  err,
}
use aeloon_runtime.Messages.{tool_calls, AssistantMessage, StopReason, no_usage}
use aeloon_runtime.Control.{
  bind, release, drain, enqueue, new_controller, every, steer, RunController,
}
use aeloon_runtime.Compaction.{should_compact, is_error, is_context_overflow, default_policy}
use aeloon_runtime.Inference.Retry.{request, start, final}
use aeloon_runtime.Tools.{Answers, Failure, error_result}
use aeloon_runtime.Tools.Registry.{unique_tools, validate_active_names}
use aeloon_runtime.Stats.Estimate.{estimate_tokens, estimate_context_tokens}
use aeloon_runtime.Inference.Projection.{project, project_inference_messages}
use aeloon_runtime.Run.Engine.{
  append_all, append_message, estimate_inference_context, stream_response, compact, RunRequest,
  Engine, Turn, ContextUpdate, RunEvent, ControlOp, put, overflow, compaction_end, agent_end,
  new_engine, act_all,
}
use aeloon_runtime.Run.Turns.{
  run_loop, run_turn, overflows, overflow_turn, answer_turn, judged, run_tools, finish_turn,
  open_turn, finished, run_turns,
}
use aeloon_runtime.Run.Agent.{oversized_input_error, Surroundings, Outcome, returned, run_agent}
use aeloon_runtime.Run.View.Whole.{Observed, run_agent-Observed}
use aeloon_runtime.Run.Quiet.{quiet_turn_returns}
use aeloon_runtime.Run.Overflow.{
  compacts_again, compacted, streamed, overflow_retried, announced_not_retried,
}
use aeloon_runtime.Examples.Inference.{says, asks, model, options}

abbrev req : RunRequest
req = record {
  run_id = "r1";
  model = model;
  messages = [];
  input = asks "hi" ∷ [];
  tools = [];
  active_tool_names = none;
  stream_options = options;
  context_policy = record default_policy { reserve_tokens = 100 };
  boundary = record { after_ms = none; fresh_from = none };
  compacts = true;
}

abbrev surroundings : Surroundings
surroundings = record {
  start_hook = none;
  before_loop = [];
  first_compaction = err "RuntimeError: none";
  last_compaction = err "RuntimeError: none";
  during_last = [];
  now = 2;
}

abbrev summary : ContextUpdate
summary = record {
  messages = asks "in short" ∷ [];
  boundary = record { after_ms = none; fresh_from = none };
  summary = "in short";
}

abbrev unused : Answers
unused = record {
  cut_before = none;
  prepared = err (Failure.raised "RuntimeError: unused");
  invalid = none;
  call_hook = err (Failure.raised "RuntimeError: unused");
  updates = [];
  executed = ok (error_result "unused");
  result_hook = err (Failure.raised "RuntimeError: unused");
  cut_behind = false;
  now = 0;
  aborted = false;
}

-- A turn with an answer, in which another caller acts on the controller.
abbrev turn : AssistantMessage → List ControlOp → Turn
turn m ops = record {
  attempts = λ (n : ℕ). record {
    stream = start ∷ final m ∷ [];
    failure = none;
    now = 3;
    wait_cancelled = false;
  };
  during_request = ops;
  answers = λ (n : ℕ). unused;
  during_tools = [];
  compaction = ok summary;
  during_compaction = [];
  now = 4;
}

-- An answer that was cut at a full window.
abbrev too_long : AssistantMessage
too_long = record (says "" StopReason.length) { usage = record no_usage { input = 1000 } }

abbrev idle : RunController
idle = new_controller every every

abbrev steered : List ControlOp
steered = put steer "and then?" [] 3 ∷ []

abbrev two_turns : List Turn
two_turns =
    turn (says "hello" StopReason.stop) steered
    ∷ turn too_long []
    ∷ turn (says "well" StopReason.stop) []
    ∷ []

-- The message that a run returns.
abbrev final_of : Outcome → Option AssistantMessage
final_of (returned e r) = some r.final_message
final_of _ = none

unfoldable runs : List Turn → Option AssistantMessage
unfolding run_agent new_controller is_blank unique_tools validate_active_names bind release
    oversized_input_error estimate_tokens run_loop append_all append_message should_compact
    estimate_inference_context estimate_context_tokens project_inference_messages run_turns run_turn
    overflows stream_response request is_error is_context_overflow overflow_turn compact answer_turn
    judged run_tools finish_turn drain enqueue tool_calls open_turn project
runs ts = final_of (run_agent str_eq req surroundings idle ts)

run_agent-Observed_example : Observed (run_agent str_eq req surroundings idle two_turns)
run_agent-Observed_example = run_agent-Observed str_eq req surroundings idle two_turns

-- The answer that overflows is compacted and not tried again, although a third answer is at hand.
not_retried : runs two_turns ≡ some too_long
unfolding runs
not_retried = refl

-- As the first answer to an input it is.
retried_first :
    runs (turn too_long [] ∷ turn (says "well" StopReason.stop) [] ∷ [])
    ≡ some (says "well" StopReason.stop)
unfolding runs
retried_first = refl

abbrev begun : Engine
begun = new_engine req idle

overflowing : compacts_again str_eq req [] [] begun (turn too_long []) [] false 0 ≡ true
unfolding overflows stream_response request is_error is_context_overflow
overflowing = refl

nobody_waits :
    (act_all
      (streamed str_eq req [] [] begun (turn too_long []) [] false).0.controller
      []).queues.following
    ≡ []
unfolding new_controller stream_response open_turn append_all
nobody_waits = refl

announced_not_retried_example :
    (e' : Engine) × (before : List RunEvent) × (run_turns str_eq req [] []
        (turn too_long [] ∷ two_turns)
        begun
        []
        false
        false
        0
      ≡ finished e' too_long)
    × (e'.events ≡ before ++ (compaction_end overflow true ∷ agent_end e'.new_messages ∷ []))
unfolding stream_response request is_error
announced_not_retried_example =
    announced_not_retried str_eq req [] [] begun (turn too_long []) [] false two_turns 0 summary
      overflowing refl nobody_waits

first_is_retried :
    run_turns str_eq req [] [] (turn too_long [] ∷ two_turns) begun [] false true 0
    ≡ run_turns str_eq req [] [] two_turns
        (compacted str_eq req [] [] begun (turn too_long []) [] false summary)
        []
        false
        true
        1
first_is_retried =
    overflow_retried str_eq req [] [] begun (turn too_long []) [] false two_turns 0 summary
      overflowing refl

abbrev hello : Turn
hello = turn (says "hello" StopReason.stop) []

hello_fits : overflows str_eq req [] [] (says "hello" StopReason.stop) ≡ false
unfolding overflows
hello_fits = refl

hello_quiet : tool_calls (says "hello" StopReason.stop) ≡ []
unfolding tool_calls
hello_quiet = refl

quiet_turn_returns_example :
    (e' : Engine) × (run_turns str_eq req [] [] (hello ∷ two_turns) begun [] false true 0
      ≡ finished e' (says "hello" StopReason.stop))
unfolding stream_response request is_error new_controller open_turn append_all
quiet_turn_returns_example =
    quiet_turn_returns str_eq req [] [] begun hello [] false two_turns true 0 hello_fits hello_quiet
      refl refl
