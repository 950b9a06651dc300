-- ===== src/Run/Engine.antt =====
-- The state of `_RunEngine` and its small methods. What comes from outside during a turn is a
-- `Turn`: what the provider streams, what tools and hooks do with each call, what a compaction
-- returns, and what others do to the controller meanwhile. Others act during requests, tool calls
-- and compactions; whether a call finds the run aborted is among its answers; events are received
-- without failure or delay.
use aeloon_runtime.Prelude.{
  ℕ, String, Bool, false, Option, none, some, List, [], ◌∷◌, ◌++◌, map, Result, ok, err,
  if◌then◌else◌,
}
use aeloon_runtime.Messages.{
  UserContent, AgentMessage, AssistantMessage, ToolResultMessage, StopReason,
}
use aeloon_runtime.Stats.Estimate.{Boundary, estimate_context_tokens}
use aeloon_runtime.Control.{RunController, RunInputKind, enqueue, cancel, clear}
use aeloon_runtime.Compaction.{ContextPolicy}
use aeloon_runtime.Tools.{Tool, Answers, ToolEvent}
use aeloon_runtime.Inference.Projection.{project_inference_messages}
use aeloon_runtime.Inference.Retry.{
  Model, StreamOptions, Attempt, InferenceEvent, without_content, request,
}

-- `RunRequest`, and whether a compactor was given
pub record RunRequest : Type 0 where
  pub run_id : String
  pub model : Model
  pub messages : List AgentMessage
  pub input : List AgentMessage
  pub tools : List Tool
  pub active_tool_names : Option (List String)
  pub stream_options : StreamOptions
  pub context_policy : ContextPolicy
  pub boundary : Boundary
  pub compacts : Bool

-- `ContextUpdate`; its other fields are passed on.
pub record ContextUpdate : Type 0 where
  pub messages : List AgentMessage
  pub boundary : Boundary
  pub summary : String

pub data CompactionReason : Type 0 where
  threshold overflow : CompactionReason

-- `overflow_attempt` is the "message_end" of an answer that is tried again; `compaction_failed` is
-- the "compaction_end" with an error.
pub data RunEvent : Type 0 where
  agent_start turn_start settled : RunEvent
  message_start : AgentMessage → (attempt : Option ℕ) → RunEvent
  message_end : AgentMessage → (attempt : Option ℕ) → RunEvent
  overflow_attempt : AssistantMessage → (attempt : ℕ) → RunEvent
  turn_end : AssistantMessage → (results : List ToolResultMessage) → RunEvent
  inference : InferenceEvent → RunEvent
  tool_calls_run : List (List ToolEvent) → RunEvent
  compaction_start : CompactionReason → RunEvent
  context_compacted : (summary : String) → RunEvent
  compaction_end : CompactionReason → (will_retry : Bool) → RunEvent
  compaction_failed : CompactionReason → (text : String) → RunEvent
  agent_end : List AgentMessage → RunEvent

-- What others do to the controller of a run.
pub data ControlOp : Type 0 where
  put : RunInputKind → String → List UserContent → (now : ℕ) → ControlOp
  cancel_run clear_queues : ControlOp

pub record Turn : Type 0 where
  pub attempts : ℕ → Attempt
  pub during_request : List ControlOp
  pub answers : ℕ → Answers
  pub during_tools : List ControlOp
  pub compaction : Result String ContextUpdate
  pub during_compaction : List ControlOp
  pub now : ℕ

pub record Engine : Type 0 where
  pub messages : List AgentMessage
  pub new_messages : List AgentMessage
  pub boundary : Boundary
  pub context_update : Option ContextUpdate
  pub controller : RunController
  pub last_attempt : ℕ
  pub next_attempt_id : ℕ
  pub events : List RunEvent

-- `_RunEngine.__init__`
abbrev pub new_engine : RunRequest → RunController → Engine
new_engine req controller = record {
  messages = req.messages;
  new_messages = [];
  boundary = req.boundary;
  context_update = none;
  controller = controller;
  last_attempt = 0;
  next_attempt_id = 0;
  events = [];
}

abbrev pub emit : Engine → List RunEvent → Engine
emit e events = record e { events = e.events ++ events }

-- A refused call changes nothing.
abbrev pub act : RunController → ControlOp → RunController
act c (put kind text images now) = elim (enqueue c kind text images now) [ ok c' ↦ c' | err f ↦ c ]
act c cancel_run = elim (cancel c) [ ok (c', handed_back) ↦ c' | err f ↦ c ]
act c clear_queues = (clear c).0

abbrev pub act_all : RunController → List ControlOp → RunController
act_all c [] = c
act_all c (op ∷ ops) = act_all (act c op) ops

abbrev pub intervene : Engine → List ControlOp → Engine
intervene e ops = record e { controller = act_all e.controller ops }

-- `_append`
unfoldable pub append_message : Engine → AgentMessage → Bool → Option ℕ → Engine
append_message e m message_started attempt = record e {
  messages = e.messages ++ m ∷ [];
  new_messages = e.new_messages ++ m ∷ [];
  events =
      e.events
      ++ (if message_started
          then message_end m attempt ∷ []
          else message_start m attempt ∷ message_end m attempt ∷ []);
}

unfoldable pub append_all : Engine → List AgentMessage → Engine
append_all e [] = e
append_all e (m ∷ ms) = append_all (append_message e m false none) ms

-- `_agent_end`
abbrev pub end_agent : Engine → Engine
end_agent e = emit e (agent_end e.new_messages ∷ [])

-- `_compact`: the text of the exception, if there was one.
unfoldable pub compact :
    Engine → CompactionReason → Bool → Result String ContextUpdate → Engine × Option String
compact e reason will_retry (ok u) = (
  record e {
    messages = u.messages;
    boundary = u.boundary;
    context_update = some u;
    events =
        e.events
        ++ (compaction_start reason
            ∷ context_compacted u.summary
            ∷ compaction_end reason will_retry
            ∷ []);
  },
  none,
)
compact e reason will_retry (err text) = (emit e (compaction_start reason ∷ []), some text)

-- `_compact` under the `try` that reports a failure.
unfoldable pub try_compact : Engine → CompactionReason → Bool → Result String ContextUpdate → Engine
try_compact e reason will_retry outcome =
    let (e', failure) = compact e reason will_retry outcome in
    elim failure [ none ↦ e' | some text ↦ emit e' (compaction_failed reason text ∷ []) ]

-- `_aborted_message`
abbrev pub aborted_message : Model → ℕ → AssistantMessage
aborted_message model now = without_content model now StopReason.aborted (some "Operation aborted")

-- `_estimate_inference_context`
unfoldable pub estimate_inference_context : ℕ → Engine → List AgentMessage → ℕ
estimate_inference_context now e messages =
    let (projected, fresh) = project_inference_messages now messages e.boundary.fresh_from in
    estimate_context_tokens (record { after_ms = e.boundary.after_ms; fresh_from = fresh })
      projected

module _ (search : String → String → Bool) (req : RunRequest) where
  -- `_stream_response`
  unfoldable pub stream_response : Engine → Turn → Engine × AssistantMessage
  stream_response e t =
      let answer = request search req.model req.stream_options t.attempts e.next_attempt_id in
      (
        record e {
          last_attempt = answer.last_attempt;
          next_attempt_id = answer.next_attempt_id;
          events = e.events ++ map inference answer.events;
          controller = act_all e.controller t.during_request;
        },
        answer.message,
      )
