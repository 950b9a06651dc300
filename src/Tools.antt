-- ===== src/Tools.antt =====
-- aeloon_runtime/core/tool_runtime.py: the execution of tool calls. What tools, hooks and the
-- schema validator do with a call comes with the call, as its `Answers`. Publishing an event does
-- not fail. Details and arguments are kept as JSON text.
pub mod Batch
pub mod Answered
pub mod Registry
use aeloon_runtime.Prelude.{
  contains, ℕ, String, Bool, true, false, Option, none, some, List, [], ◌∷◌, ◌++◌, ◌&&◌, ◌||◌, map,
  any, str_eq, truthy, concat, has_key, lookup, Result, ok, err, if◌then◌else◌,
}
use aeloon_runtime.Messages.{ToolCall, ToolResultMessage, UserContent, Content, plain, parts, Usage}

pub record Tool : Type 0 where
  pub name : String
  pub sequential : Bool

pub record ToolResult : Type 0 where
  pub content : List UserContent
  pub details : String
  pub is_error : Bool
  pub terminate : Bool
  pub usage : Option Usage

-- `asyncio.CancelledError`, or another exception with the text "type: message".
pub data Failure : Type 0 where
  cancelled : Failure
  raised : String → Failure

-- What the handlers of "tool_call" answer.
pub record CallHook : Type 0 where
  pub block : Bool
  pub reason : Option String

-- What the handlers of "tool_result" replace.
pub record ResultHook : Type 0 where
  pub content : Option Content
  pub details : Option String
  pub is_error : Option Bool
  pub terminate : Option Bool
  pub usage : Option (Option Usage)

-- A call is a task that `cancel` may cancel at any of its waits. Inside the `try` that is a result;
-- elsewhere it ends the call: `cut_before` its `try`, with whether the start was published, and
-- `cut_behind` it, while the end is published. `aborted` is what `is_aborted()` says after the call.
pub record Answers : Type 0 where
  pub cut_before : Option Bool
  pub prepared : Result Failure String
  pub invalid : Option Failure
  pub call_hook : Result Failure CallHook
  pub updates : List ToolResult
  pub executed : Result Failure ToolResult
  pub result_hook : Result Failure ResultHook
  pub cut_behind : Bool
  pub now : ℕ
  pub aborted : Bool

pub data ToolEvent : Type 0 where
  tool_execution_start : ToolCall → ToolEvent
  tool_call : ToolCall → (args : String) → ToolEvent
  tool_execution_update : ToolCall → ToolResult → ToolEvent
  tool_result : ToolCall → (args : String) → ToolResult → ToolEvent
  tool_execution_end : ToolCall → ToolResult → ToolEvent

-- `ToolResult.text(value, is_error=True)`
abbrev pub error_result : String → ToolResult
error_result value = record {
  content = UserContent.text value ∷ [];
  details = "null";
  is_error = true;
  terminate = false;
  usage = none;
}

-- The two `except` clauses.
failed : Failure → ToolResult
failed cancelled = error_result "Operation aborted"
failed (raised text) = error_result text

-- `str(hook.get("reason") or "Tool call blocked")`
blocked : Option String → ToolResult
blocked reason = error_result (elim (truthy reason) [ none ↦ "Tool call blocked" | some r ↦ r ])

-- The body of the `try`: the events, the arguments as they are then, and the result.
unfoldable pub run_tool : ToolCall → Answers → List ToolEvent × (String × ToolResult)
unfolding failed blocked
run_tool call a = elim a.prepared [
  | err f ↦ ([], (call.arguments, failed f))
  | ok args ↦ elim a.invalid [
    | some f ↦ ([], (args, failed f))
    | none ↦ elim a.call_hook [
      | err f ↦ (tool_call call args ∷ [], (args, failed f))
      | ok h ↦ elim h.block [
        | true ↦ (tool_call call args ∷ [], (args, blocked h.reason))
        | false ↦ (
          tool_call call args ∷ map (tool_execution_update call) a.updates,
          (args, elim a.executed [ ok r ↦ r | err f ↦ failed f ]),
        )
      ]
    ]
  ]
]

-- `hook.get(key, value)`
abbrev or_kept {ℓ} : {A : Type ℓ} → Option A → A → A
or_kept none value = value
or_kept (some given) value = given

abbrev content_parts : Content → List UserContent
content_parts (plain text) = UserContent.text text ∷ []
content_parts (parts ps) = ps

-- `_apply_result_hook` behind the hook; a hook without answers keeps the result.
unfoldable pub apply_result_hook : ResultHook → ToolResult → ToolResult
apply_result_hook h r = record {
  content = elim h.content [ none ↦ r.content | some c ↦ content_parts c ];
  details = or_kept h.details r.details;
  is_error = or_kept h.is_error r.is_error;
  terminate = or_kept h.terminate r.terminate;
  usage = or_kept h.usage r.usage;
}

abbrev pub result_message : ToolCall → ToolResult → ℕ → ToolResultMessage
result_message call r now = record {
  tool_call_id = call.id;
  tool_name = call.name;
  content = r.content;
  is_error = r.is_error;
  usage = r.usage;
  timestamp = now;
}

abbrev pub ToolMap : Type 0
ToolMap = List (String × Tool)

-- The tool is there and its name is active.
abbrev pub is_available : ToolMap → List String → String → Bool
is_available tools active name = has_key tools name && contains active name

-- The tool is run if it is there and active.
pub try_tool : ToolMap → List String → ToolCall → Answers → List ToolEvent × (String × ToolResult)
unfolding run_tool
try_tool tools active call a =
    if is_available tools active call.name
    then run_tool call a
    else ([], (call.arguments, error_result (concat ("Tool " ∷ call.name ∷ " not found" ∷ []))))

-- `_execute_call`: a cancellation outside the `try`, or a failing hook on the result, ends the call
-- without a message.
unfoldable pub execute_call :
    ToolMap
    → List String
    → ToolCall
    → Answers
    → List ToolEvent × Result Failure (ToolResultMessage × Bool)
unfolding try_tool apply_result_hook
execute_call tools active call a =
    let (events, (args, r)) = try_tool tools active call a in
    let before = tool_execution_start call ∷ (events ++ tool_result call args r ∷ []) in
    elim a.cut_before [
      | some published ↦ (if published then tool_execution_start call ∷ [] else [], err cancelled)
      | none ↦ elim a.result_hook [
        | err f ↦ (before, err f)
        | ok h ↦
            let r' = apply_result_hook h r in
            (
              before ++ tool_execution_end call r' ∷ [],
              if a.cut_behind
                  then err cancelled
                  else ok (result_message call r' a.now, r'.terminate),
            )
      ]
    ]
