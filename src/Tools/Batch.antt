-- ===== src/Tools/Batch.antt =====
-- `execute_calls`, `_fail_unexecuted_call` and `fail_truncated_calls` of tool_runtime.py.
use aeloon_runtime.Prelude.{
  ℕ, String, Bool, true, false, none, some, List, [], ◌∷◌, ◌++◌, map, any, lookup, concat, Result,
  ok, err, if◌then◌else◌,
}
use aeloon_runtime.Messages.{ToolCall, ToolResultMessage}
use aeloon_runtime.Tools.{
  ToolMap, Failure, Answers, ToolEvent, tool_execution_start, tool_execution_end, error_result,
  result_message, execute_call,
}

-- A call of the batch, and what comes of it.
abbrev pub Asked : Type 0
Asked = ToolCall × Answers

abbrev pub Answer : Type 0
Answer = ToolResultMessage × Bool

-- A start and an end without an execution between them.
abbrev pub unexecuted : String → ToolCall → ℕ → List ToolEvent × ToolResultMessage
unexecuted text call now =
    let r = error_result text in
    (tool_execution_start call ∷ tool_execution_end call r ∷ [], result_message call r now)

-- `_fail_unexecuted_call`
unfoldable pub fail_unexecuted_call : ToolCall → ℕ → List ToolEvent × Answer
fail_unexecuted_call call now =
    let (events, m) = unexecuted "Operation aborted before execution" call now in
    (events, (m, false))

-- The inner loop, over the calls that an abort skips.
unfoldable pub skip_calls : List Asked → List ToolEvent × List Answer
unfolding fail_unexecuted_call
skip_calls [] = ([], [])
skip_calls ((call, a) ∷ rest) =
    let (events, answer) = fail_unexecuted_call call a.now in
    let (later, answers) = skip_calls rest in (events ++ later, answer ∷ answers)

-- The loop over calls one after the other.
unfoldable pub run_sequential :
    ToolMap → List String → List Asked → List ToolEvent × Result Failure (List Answer)
unfolding skip_calls
run_sequential tools active [] = ([], ok [])
run_sequential tools active ((call, a) ∷ rest) =
    let (later, answers) = run_sequential tools active rest in
    let (skipped, unanswered) = skip_calls rest in
    let (events, result) = execute_call tools active call a in
    elim result [
      | err f ↦ (events, err f)
      | ok answer ↦ elim a.aborted [
        | true ↦ (events ++ skipped, ok (answer ∷ unanswered))
        | false ↦ elim answers [
          | err f ↦ (events ++ later, err f)
          | ok more ↦ (events ++ later, ok (answer ∷ more))
        ]
      ]
    ]

-- The answers of `gather`, in the order of the calls, or the exceptions, one of which it raises.
unfoldable pub gather : List (Result Failure Answer) → Result (List Failure) (List Answer)
gather [] = ok []
gather (err f ∷ rest) = elim (gather rest) [ err fs ↦ err (f ∷ fs) | ok more ↦ err (f ∷ []) ]
gather (ok answer ∷ rest) = elim (gather rest) [ err fs ↦ err fs | ok more ↦ ok (answer ∷ more) ]

-- A batch with a known tool that is sequential runs one call after the other.
unfoldable pub is_sequential : ToolMap → List Asked → Bool
is_sequential tools calls =
    any (λ asked. elim (lookup tools asked.0.name) [ none ↦ false | some tool ↦ tool.sequential ])
      calls

-- What a batch leaves: streams of events, which a parallel batch interleaves in any way, and the
-- messages with `terminate`, or the exceptions, one of which is raised.
abbrev pub BatchResult : Type 0
BatchResult = List (List ToolEvent) × Result (List Failure) (List ToolResultMessage × Bool)

abbrev pub messages_of : List Answer → List ToolResultMessage × Bool
messages_of answers = (map (λ answer. answer.0) answers, any (λ answer. answer.1) answers)

abbrev pub batch_result :
    Result (List Failure) (List Answer) → Result (List Failure) (List ToolResultMessage × Bool)
batch_result (ok answers) = ok (messages_of answers)
batch_result (err fs) = err fs

abbrev one_failure : Result Failure (List Answer) → Result (List Failure) (List Answer)
one_failure (ok answers) = ok answers
one_failure (err f) = err (f ∷ [])

-- `execute_calls`, whose own task is not cancelled
unfoldable pub execute_calls : ToolMap → List String → List Asked → BatchResult
unfolding run_sequential gather is_sequential
execute_calls tools active calls =
    let (events, answers) = run_sequential tools active calls in
    let started = map (λ asked. (execute_call tools active asked.0 asked.1).0) calls in
    let awaited = map (λ asked. (execute_call tools active asked.0 asked.1).1) calls in
    if is_sequential tools calls
    then (events ∷ [], batch_result (one_failure answers))
    else (started, batch_result (gather awaited))

truncated_text : String → String
truncated_text name = concat (
    "Tool call \"" ∷ name ∷ "\" was not executed: the response hit the output token "
    ∷ "limit, so its arguments may be truncated. Re-issue the tool call "
    ∷ "with complete arguments." ∷ [])

-- `fail_truncated_calls`, each call at its time
unfoldable pub fail_truncated_calls : List (ToolCall × ℕ) → List ToolEvent × List ToolResultMessage
unfolding truncated_text
fail_truncated_calls [] = ([], [])
fail_truncated_calls ((call, now) ∷ rest) =
    let (events, m) = unexecuted (truncated_text call.name) call now in
    let (later, ms) = fail_truncated_calls rest in (events ++ later, m ∷ ms)
