-- ===== src/Service/Lifecycle.antt =====
-- The operations of a session in `RuntimeService`: turns with `turn_start` and `_execute_turn`,
-- navigations and compactions with `_session_operation`, `turn_cancel` and `session_delete`. What a
-- method does up to its next wait is one step, and a cancellation of its task or request can come at
-- any wait. Ids are drawn outside and do not repeat; the lock of a session is held by the operations
-- that run or close. `close` of the service, which interrupts everything, is left out, writes to the
-- journal do not fail, and the closing of an agent is not interrupted.
pub mod Ends
pub mod Heard
pub mod Stuck
use aeloon_runtime.Prelude.{
  String, Bool, true, false, Option, none, some, List, [], ◌∷◌, ◌++◌, ◌&&◌, ◌||◌, not, any, str_eq,
  Result, ok, err, if◌then◌else◌, ℕ, zero, suc,
}
use aeloon_runtime.Operations
use aeloon_runtime.Operations.{
  OperationStatus, queued, active, cancelling, completed, failed, cancelled, is_terminal,
  is_in_flight, is_cancellable, SessionRuntime,
}

pub data Kind : Type 0 where
  turn navigate compact : Kind

-- What is written about an operation: entries of the session's journal, and events.
pub data Record : Type 0 where
  run_start : Record
  run_end : OperationStatus → Record
  turn_created operation_queued operation_started operation_cancelling : Record
  operation_ended : OperationStatus → Record

-- `operation.agent`: there is none, its run is not on (no `controller`), or its run is on.
pub data Agent : Type 0 where
  no_agent idle_agent running_agent : Agent

-- Where the coroutine of an operation is: its task has not begun, it waits for the lock, runs, writes
-- the end of its run, still holds the lock behind that, writes the end of a cancelled or of a failed
-- run in an `except` block, is in the `finally` block, or is gone.
pub data Phase : Type 0 where
  created waiting running ending closing cancelling_run failing leaving gone : Phase

-- `interrupt` is set when its task is cancelled; `terminal_event` waits for the `finally` block.
-- `opening` and `announcing` count the calls of `turn_cancel` that wait for the session, and for the
-- event.
pub record Operation : Type 0 where
  pub id : String
  pub kind : Kind
  pub status : OperationStatus
  pub cancel_requested : Bool
  pub agent : Agent
  pub phase : Phase
  pub interrupt : Bool
  pub terminal_event : Option OperationStatus
  pub opening : ℕ
  pub announcing : ℕ
  pub records : List Record

abbrev pub new_operation : String → Kind → Phase → List Record → Operation
new_operation id kind phase records = record {
  id = id;
  kind = kind;
  status = queued;
  cancel_requested = false;
  agent = no_agent;
  phase = phase;
  interrupt = false;
  terminal_event = none;
  opening = 0;
  announcing = 0;
  records = records;
}

-- How the run of an agent ends: `result.stop_reason`.
pub data StopReason : Type 0 where
  finished aborted error : StopReason

status_of : Bool → StopReason → OperationStatus
status_of true reason = cancelled
status_of false aborted = cancelled
status_of false error = failed
status_of false finished = completed

note : Operation → Record → Operation
note o r = record o { records = o.records ++ r ∷ [] }

-- `except asyncio.CancelledError` of `_execute_turn`, before its end was written, and its end.
cancel_turn : Operation → Operation
unfolding note
cancel_turn o =
    note (record o { status = cancelled; interrupt = false; phase = cancelling_run })
      (run_end cancelled)

-- `except Exception`, up to the event.
fail_turn : Operation → Operation
unfolding note
fail_turn o = note (record o { status = failed; phase = failing }) (run_end failed)

-- The lock is granted.
pub acquired : Kind → Operation → Operation
unfolding note cancel_turn
acquired turn o =
    if o.cancel_requested
    then cancel_turn o
    else note (record o { status = active; phase = running }) operation_started
acquired _ o = note (record o { status = active; phase = running }) operation_started

-- The end of a turn is written.
end_turn : OperationStatus → Operation → Operation
unfolding note
end_turn s o = note (record o { status = s; phase = ending }) (run_end s)

-- `terminal_written = True` and the event: a cancelled turn announces its end later.
announced : OperationStatus → Operation → Operation
unfolding note
announced cancelled o = record o { terminal_event = some cancelled; phase = closing }
announced s o = note (record o { phase = closing }) (operation_ended s)

-- What was being written of the end of a turn is written.
written_at : Phase → Operation → Operation
unfolding announced note
written_at ending o = announced o.status o
written_at cancelling_run o = record o { terminal_event = some cancelled; phase = leaving }
written_at failing o = note (record o { phase = leaving }) (operation_ended failed)
written_at _ o = o

-- The end of a navigation or compaction is told from the `try` block, which begins behind the making
-- of its agent.
told_end : Agent → OperationStatus → Operation → Operation
unfolding note
told_end no_agent s o = record o { phase = gone }
told_end _ s o = note (record o { status = s; phase = closing }) (operation_ended s)

pub returned : Kind → StopReason → Operation → Operation
unfolding end_turn status_of told_end
returned turn reason o = end_turn (status_of o.cancel_requested reason) o
returned _ reason o = elim o.agent [ no_agent ↦ o | _ ↦ told_end o.agent completed o ]

pub raised : Kind → Operation → Operation
unfolding fail_turn told_end
raised turn o = fail_turn o
raised _ o = told_end o.agent failed o

-- A `CancelledError` that reaches the coroutine at a wait. A turn has two handlers: a second one in
-- its `except` or `finally` blocks ends it there. `_session_operation` has no handler for it, and a
-- request may be cancelled at any time. One that the inference runtime takes, in the request of a
-- summary, reaches `_session_operation` as an error of the summary: this is the step `raises`.
interrupt_turn : Phase → Operation → Operation
unfolding cancel_turn
interrupt_turn created o = record o { interrupt = false; phase = gone }
interrupt_turn waiting o = cancel_turn o
interrupt_turn running o = cancel_turn o
interrupt_turn ending o = cancel_turn o
interrupt_turn closing o = record o { status = cancelled; interrupt = false; phase = leaving }
interrupt_turn cancelling_run o = record o { interrupt = false; phase = leaving }
interrupt_turn failing o = record o { interrupt = false; phase = leaving }
interrupt_turn leaving o = record o {
  agent = no_agent;
  interrupt = false;
  terminal_event = none;
  phase = gone;
}
interrupt_turn gone o = o

pub interrupted_at : Kind → Phase → Operation → Operation
unfolding interrupt_turn
interrupted_at turn p o = if o.interrupt then interrupt_turn p o else o
interrupted_at _ waiting o = record o { phase = gone }
interrupted_at _ running o = elim o.agent [
  | no_agent ↦ record o { phase = gone }
  | _ ↦ record o { phase = closing }
]
interrupted_at _ _ o = o

-- A cancellation that the inference runtime takes while a session is named ends the naming only.
absorbed_at : Phase → Operation → Operation
absorbed_at closing o = record o { interrupt = false }
absorbed_at _ o = o

-- The end of the `with` block, and of the `finally` blocks.
pub left : Kind → Phase → Operation → Operation
unfolding note
left turn closing o = record o { phase = leaving }
left turn leaving o =
    let closed : Operation = (record o { agent = no_agent; phase = gone; terminal_event = none }) in
    elim o.terminal_event [ none ↦ closed | some s ↦ note closed (operation_ended s) ]
left turn _ o = o
left _ closing o = record o { agent = no_agent; phase = gone }
left _ _ o = o

-- What a cancellation answers.
pub data Refusal : Type 0 where
  invalid_state run_not_active : Refusal

-- `turn_cancel`, behind its event: `task.cancel()`, or `agent.abort()`.
abort_operation : Kind → Agent → Operation → Operation × Result Refusal Bool
abort_operation turn running_agent o = (o, ok true)
abort_operation turn _ o = (record o { interrupt = true }, ok true)
abort_operation _ no_agent o = (o, ok true)
abort_operation _ idle_agent o = (o, err run_not_active)
abort_operation _ running_agent o = (o, ok true)

request_at : OperationStatus → Operation → Operation × Option (Result Refusal Bool)
request_at cancelling o = (o, some (ok true))
request_at _ o =
    (record o { cancel_requested = true; status = cancelling; opening = suc o.opening }, none)

-- `turn_cancel` up to its first wait, with its answer if there is none.
unfoldable pub turn_cancel : Operation → Operation × Option (Result Refusal Bool)
unfolding request_at is_terminal is_cancellable
turn_cancel o =
    if is_terminal o.status
    then (o, some (ok false))
    else if not (is_cancellable o.status)
    then (o, some (err invalid_state))
    else request_at o.status o

-- The session is open, and the event is sent.
announce_cancelling : ℕ → Operation → Operation
unfolding note
announce_cancelling zero o = o
announce_cancelling (suc n) o =
    note (record o { opening = n; announcing = suc o.announcing }) operation_cancelling

-- The event is out: its agent is looked up only now.
abort_at : ℕ → Operation → Operation
unfolding abort_operation
abort_at zero o = o
abort_at (suc n) o = (abort_operation o.kind o.agent (record o { announcing = n })).0

-- What happens to one operation. `run_begins` and `run_ends` are the run of its agent; `cancels`,
-- `announces` and `aborts` are the parts of a call of `turn_cancel`.
pub data Step : Type 0 where
  begins acquire agent_made run_begins run_ends : Step
  returns : StopReason → Step
  raises written interrupts absorbs leaves cancels announces aborts : Step

begin_at : Phase → Operation → Operation
begin_at created o = if o.interrupt then o else record o { phase = waiting }
begin_at _ o = o

-- The lock can only be granted to an operation that waits for it.
acquire_at : Phase → Bool → Operation → Operation
unfolding acquired
acquire_at waiting free o = if free && not o.interrupt then acquired o.kind o else o
acquire_at _ free o = o

-- What a running operation does next, unless its task was cancelled.
when_running : Phase → Operation → Operation → Operation
when_running running o next = if o.interrupt then o else next
when_running _ o next = o

with_agent : Phase → Agent → Operation → Operation
with_agent running a o = record o { agent = a }
with_agent _ a o = o

-- Whether an operation holds the lock of its session.
unfoldable pub holds_lock : Phase → Bool
holds_lock running = true
holds_lock ending = true
holds_lock closing = true
holds_lock _ = false

-- A step that cannot be made now changes nothing. Once its task is cancelled, the next wait of a turn
-- raises, or the inference runtime takes the cancellation.
unfoldable pub step : Bool → Operation → Step → Operation
unfolding begin_at acquire_at returned raised written_at interrupted_at absorbed_at left turn_cancel
    announce_cancelling abort_at when_running with_agent
step lock_free o begins = begin_at o.phase o
step lock_free o acquire = acquire_at o.phase lock_free o
step lock_free o agent_made = with_agent o.phase idle_agent o
step lock_free o run_begins = with_agent o.phase running_agent o
step lock_free o run_ends = with_agent o.phase idle_agent o
step lock_free o (returns reason) = when_running o.phase o (returned o.kind reason o)
step lock_free o raises = when_running o.phase o (raised o.kind o)
step lock_free o written = if o.interrupt then o else written_at o.phase o
step lock_free o absorbs = absorbed_at o.phase o
step lock_free o interrupts = interrupted_at o.kind o.phase o
step lock_free o leaves = if o.interrupt then o else left o.kind o.phase o
step lock_free o cancels = (turn_cancel o).0
step lock_free o announces = announce_cancelling o.opening o
step lock_free o aborts = abort_at o.announcing o

-- `turn_start`, from `run_start` on, and the start of `_session_operation`.
abbrev pub started : String → Kind → Operation
started id turn = new_operation id turn created (run_start ∷ turn_created ∷ operation_queued ∷ [])
started id kind = new_operation id kind waiting (operation_queued ∷ [])

-- An operation over some steps, each with whether the lock of the session is free then.
unfoldable pub play : Operation → List (Bool × Step) → Operation
play o [] = o
play o ((lock_free, s) ∷ rest) = play (step lock_free o s) rest

-- The operations of one session.
abbrev pub lock_free : List Operation → Bool
lock_free os = not (any (λ o. holds_lock o.phase) os)

step_at : Bool → String → Step → List Operation → List Operation
unfolding step
step_at free id s [] = []
step_at free id s (o ∷ os) = if str_eq o.id id then step free o s ∷ os else o ∷ step_at free id s os

pub data SessionStep : Type 0 where
  start : String → Kind → SessionStep
  advance : String → Step → SessionStep

unfoldable pub session_step : List Operation → SessionStep → List Operation
unfolding step_at
session_step os (start id kind) =
    if any (λ o. str_eq o.id id) os then os else os ++ started id kind ∷ []
session_step os (advance id s) = step_at (lock_free os) id s os

-- What the coordinator counts of the session.
abbrev pub runtime_of : List Operation → List Operations.Operation
runtime_of [] = []
runtime_of (o ∷ os) = record { id = o.id; status = o.status } ∷ runtime_of os

pub data DeleteError : Type 0 where
  busy : DeleteError

-- `session_delete`: what is left of the operations.
unfoldable pub session_delete : List Operation → Result DeleteError (List Operation)
unfolding is_in_flight
session_delete os = if any (λ o. is_in_flight o.status) os then err busy else ok []
