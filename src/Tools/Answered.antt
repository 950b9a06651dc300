-- ===== src/Tools/Answered.antt =====
-- The answers of a batch of tool calls, executed and refused.
use aeloon_runtime.Prelude.{
  cons_eq, ℕ, ◌≡◌, refl, ap, String, Bool, true, false, none, some, List, [], ◌∷◌, map, Result, ok,
  err, All, arith, Bool-cases, inl, inr, ◌∙◌,
}
use mathlib.Core.List.{map-map}
use aeloon_runtime.Messages.{ToolCall, ToolResultMessage}
use aeloon_runtime.Tools.{
  ToolMap, ToolResult, Failure, CallHook, ResultHook, Answers, run_tool, try_tool, execute_call,
  is_available, apply_result_hook, error_result, result_message,
}
use aeloon_runtime.Tools.Batch.{
  Asked, Answer, run_sequential, skip_calls, gather, is_sequential, execute_calls, messages_of,
  fail_truncated_calls, fail_unexecuted_call,
}

-- What an answer says of its call.
abbrev pub call_key : ToolCall → String × String
call_key call = (call.id, call.name)

abbrev pub message_key : ToolResultMessage → String × String
message_key m = (m.tool_call_id, m.tool_name)

-- The handlers of "tool_result" do not fail, and no cancellation hits the call outside its `try`.
abbrev pub HookAnswers : Answers → Type 0
HookAnswers a =
    (h : ResultHook) × (a.result_hook ≡ ok h) × (a.cut_before ≡ none) × (a.cut_behind ≡ false)

abbrev pub HooksAnswer : List Asked → Type 0
HooksAnswer = All (λ (asked : Asked). HookAnswers asked.1)

execute_call-answers :
    (tools : ToolMap) (active : List String) (call : ToolCall) (a : Answers)
    → HookAnswers a
    → (answer : Answer) × ((execute_call tools active call a).1 ≡ ok answer)
      × (message_key answer.0 ≡ call_key call)
unfolding execute_call
execute_call-answers tools active call a (h, e, uncut, whole) =
    let r = apply_result_hook h (try_tool tools active call a).1.1 in
    ((result_message call r a.now, r.terminate), rw (uncut, e, whole) refl, refl)

-- Answers in the order of the calls.
abbrev Answered : List Asked → List Answer → Type 0
Answered calls answers =
    map (λ answer. message_key answer.0) answers ≡ map (λ asked. call_key asked.0) calls

skip_calls-Answered : (calls : List Asked) → Answered calls (skip_calls calls).1
unfolding skip_calls fail_unexecuted_call
skip_calls-Answered [] = refl
skip_calls-Answered ((call, a) ∷ rest) =
    ap (λ keys. call_key call ∷ keys) (skip_calls-Answered rest)

run_sequential-Answered :
    (tools : ToolMap) (active : List String) (calls : List Asked)
    → HooksAnswer calls
    → (answers : List Answer) × ((run_sequential tools active calls).1 ≡ ok answers)
      × Answered calls answers
unfolding run_sequential
run_sequential-Answered tools active [] h = ([], refl, refl)
run_sequential-Answered tools active ((call, a) ∷ rest) (here, later) =
    let (answer, e, k) = execute_call-answers tools active call a here in
    let (answers, es, ks) = run_sequential-Answered tools active rest later in
    elim (Bool-cases a.aborted) [
      | inl stop ↦ (
        answer ∷ (skip_calls rest).1,
        ground (arith, e, stop),
        cons_eq k (skip_calls-Answered rest),
      )
      | inr go_on ↦ (answer ∷ answers, ground (arith, e, go_on, es), cons_eq k ks)
    ]

gather-Answered :
    (tools : ToolMap) (active : List String) (calls : List Asked)
    → HooksAnswer calls
    → (answers : List Answer) × (gather
          (map (λ asked. (execute_call tools active asked.0 asked.1).1) calls)
        ≡ ok answers)
      × Answered calls answers
unfolding gather
gather-Answered tools active [] h = ([], refl, refl)
gather-Answered tools active ((call, a) ∷ rest) (here, later) =
    let (answer, e, k) = execute_call-answers tools active call a here in
    let (answers, es, ks) = gather-Answered tools active rest later in
    (answer ∷ answers, rw (e, es) refl, cons_eq k ks)

-- Where no handler of the results fails, and each cancellation of a call hits it inside its `try` (at
-- its hook or its execution), a batch returns, one call after the other or all at once, with one
-- message for each call, in the order of the calls, that names the call and its tool.
pub calls_answered :
    (tools : ToolMap) (active : List String) (calls : List Asked)
    → HooksAnswer calls
    → (messages : List ToolResultMessage) × (terminate : Bool) × ((execute_calls tools active
          calls).1
        ≡ ok (messages, terminate))
      × (map message_key messages ≡ map (λ asked. call_key asked.0) calls)
unfolding execute_calls
calls_answered tools active calls h = elim (Bool-cases (is_sequential tools calls)) [
  | inl one_by_one ↦
      let (answers, e, k) = run_sequential-Answered tools active calls h in
      (
        (messages_of answers).0,
        (messages_of answers).1,
        rw (one_by_one, e) refl,
        map-map message_key (λ answer. answer.0) answers ∙ k,
      )
  | inr at_once ↦
      let (answers, e, k) = gather-Answered tools active calls h in
      (
        (messages_of answers).0,
        (messages_of answers).1,
        rw (at_once, e) refl,
        map-map message_key (λ answer. answer.0) answers ∙ k,
      )
]

-- The answer to a call that an abort skips.
abbrev pub skipped_answer : Asked → Answer
skipped_answer (call, a) =
    (result_message call (error_result "Operation aborted before execution") a.now, false)

skip_calls-errors : (calls : List Asked) → (skip_calls calls).1 ≡ map skipped_answer calls
unfolding skip_calls fail_unexecuted_call
skip_calls-errors [] = refl
skip_calls-errors ((call, a) ∷ rest) = cons_eq refl (skip_calls-errors rest)

-- Why a call is refused.
pub data IsRefused (tools : ToolMap) (active : List String) (call : ToolCall) (a : Answers)
    : Type 0 where
  unavailable : is_available tools active call.name ≡ false → IsRefused tools active call a
  unprepared : (f : Failure) → a.prepared ≡ err f → IsRefused tools active call a
  invalid : (f : Failure) → a.invalid ≡ some f → IsRefused tools active call a
  hook_failed : (f : Failure) → a.call_hook ≡ err f → IsRefused tools active call a
  hook_blocked :
      (h : CallHook) → a.call_hook ≡ ok h → h.block ≡ true → IsRefused tools active call a

-- A call whose tool is missing or inactive, whose arguments are not prepared or not valid, or that
-- a hook stops or fails on is not executed: the events and the outcome do not depend on what the
-- execution would have done.
pub refused_not_executed :
    (tools : ToolMap) (active : List String) (call : ToolCall) (a : Answers)
    (updates : List ToolResult) (executed : Result Failure ToolResult)
    → IsRefused tools active call a
    → execute_call tools active call (record a { updates = updates; executed = executed })
      ≡ execute_call tools active call a
unfolding execute_call try_tool run_tool
refused_not_executed tools active call a us ex (unavailable h) = ground arith
refused_not_executed tools active call a us ex (unprepared f h) = ground arith
refused_not_executed tools active call a us ex (invalid f h) = ground arith
refused_not_executed tools active call a us ex (hook_failed f h) = ground arith
refused_not_executed tools active call a us ex (hook_blocked hook h b) = ground arith

-- After a call of a sequential batch during which the run was aborted, no later call is executed:
-- each gets an error that says so, and does not end the run.
abort_skips_rest :
    (tools : ToolMap) (active : List String) (call : ToolCall) (a : Answers) (rest : List Asked)
    (answer : Answer)
    → a.aborted ≡ true
    → (execute_call tools active call a).1 ≡ ok answer
    → (run_sequential tools active ((call, a) ∷ rest)).1 ≡ ok (answer ∷ map skipped_answer rest)
unfolding run_sequential
abort_skips_rest tools active call a rest answer stop e =
    ground (arith, e, stop, skip_calls-errors rest)

-- Each call of a truncated response gets a message, in the order of the calls, that names the call
-- and is an error.
pub truncated_calls_fail :
    (calls : List (ToolCall × ℕ))
    → (map message_key (fail_truncated_calls calls).1 ≡ map (λ asked. call_key asked.0) calls)
      × All (λ m. m.is_error ≡ true) (fail_truncated_calls calls).1
unfolding fail_truncated_calls
truncated_calls_fail [] = (refl, tt)
truncated_calls_fail ((call, now) ∷ rest) =
    let (keys, errors) = truncated_calls_fail rest in (cons_eq refl keys, (refl, errors))
