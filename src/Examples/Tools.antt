-- ===== src/Examples/Tools.antt =====
-- A batch of two calls: one of an inactive tool, one that a hook blocks.
use aeloon_runtime.Prelude.{
  ◌≡◌, refl, String, Bool, true, false, none, some, List, [], ◌∷◌, map, ok, err,
}
use aeloon_runtime.Messages.{ToolCall, ToolResultMessage}
use aeloon_runtime.Tools.{
  Tool, ToolMap, ToolResult, Failure, CallHook, ResultHook, Answers, error_result, result_message,
  execute_call,
}
use aeloon_runtime.Tools.Batch.{Asked, execute_calls}
use aeloon_runtime.Tools.Answered.{
  message_key, call_key, calls_answered, hook_blocked, refused_not_executed,
}
use aeloon_runtime.Tools.Registry.{unique_tools, validate_active_names}

abbrev shell : Tool
shell = record { name = "shell"; sequential = true }

abbrev search : Tool
search = record { name = "search"; sequential = false }

abbrev tools : ToolMap
tools = ("search", search) ∷ ("shell", shell) ∷ []

abbrev silent : ResultHook
silent = record { content = none; details = none; is_error = none; terminate = none; usage = none }

abbrev done : ToolResult
done = record (error_result "done") { is_error = false }

abbrev runs : Answers
runs = record {
  cut_before = none;
  prepared = ok "{}";
  invalid = none;
  call_hook = ok (record { block = false; reason = none });
  updates = done ∷ [];
  executed = ok done;
  result_hook = ok silent;
  cut_behind = false;
  now = 7;
  aborted = true;
}

abbrev no : CallHook
no = record { block = true; reason = some "" }

abbrev stopped : Answers
stopped = record runs { call_hook = ok no }

abbrev call : String → ToolCall
call name = record { id = "c1"; name = name; arguments = "{}" }

abbrev batch : List Asked
batch = (call "shell", runs) ∷ (call "search", runs) ∷ []

calls_answered_example :
    (messages : List ToolResultMessage) × (terminate : Bool) × ((execute_calls tools
        ("shell" ∷ [])
        batch).1
      ≡ ok (messages, terminate))
    × (map message_key messages ≡ map (λ asked. call_key asked.0) batch)
calls_answered_example =
    calls_answered tools ("shell" ∷ []) batch
      ((silent, refl, refl, refl), ((silent, refl, refl, refl), tt))

refused_not_executed_example :
    execute_call tools
      ("shell" ∷ [])
      (call "shell")
      (record stopped { updates = []; executed = err (Failure.raised "OSError: disk") })
    ≡ execute_call tools ("shell" ∷ []) (call "shell") stopped
refused_not_executed_example =
    refused_not_executed tools ("shell" ∷ []) (call "shell") stopped []
      (err (Failure.raised "OSError: disk")) (hook_blocked no refl refl)

shell-done :
    (execute_call tools ("shell" ∷ []) (call "shell") runs).1
    ≡ ok (result_message (call "shell") done 7, false)
unfolding execute_call
shell-done = refl

names-accepted : validate_active_names tools ("shell" ∷ "shell" ∷ []) ≡ ok ("shell" ∷ [])
unfolding validate_active_names
names-accepted = refl

registered : unique_tools (shell ∷ search ∷ []) ≡ ok tools
unfolding unique_tools
registered = refl
