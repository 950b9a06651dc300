-- ===== src/Service/Lifecycle/Ends.antt =====
-- A turn over all its steps, with cancellations among them.
use aeloon_runtime.Prelude.{
  ◌≡◌, refl, Bool, true, false, Option, none, some, List, [], ◌∷◌, ◌++◌, ◌&&◌, arith,
}
use aeloon_runtime.Operations.{OperationStatus, failed, cancelled, is_terminal, is_in_flight}
use aeloon_runtime.Service.Lifecycle.{
  Record, run_end, operation_ended, Phase, created, waiting, running, ending, closing,
  cancelling_run, failing, leaving, gone, Operation, Step, interrupts, step, acquired, returned,
  raised, told_end, interrupted_at, interrupt_turn, left, turn_cancel, cancel_turn, fail_turn,
  end_turn, request_at, abort_operation, acquire_at, when_running, with_agent, note, begin_at,
  written_at, absorbed_at, announce_cancelling, abort_at, announced,
}

-- The ends that the journal has of an operation, and those that were announced.
abbrev pub journal_ends : List Record → List OperationStatus
journal_ends [] = []
journal_ends (r ∷ rest) = elim r [ run_end s ↦ s ∷ journal_ends rest | _ ↦ journal_ends rest ]

abbrev pub announced_ends : List Record → List OperationStatus
announced_ends [] = []
announced_ends (r ∷ rest) = elim r [
  | operation_ended s ↦ s ∷ announced_ends rest
  | _ ↦ announced_ends rest
]

pub announced_ends-append :
    (rs qs : List Record) → announced_ends (rs ++ qs) ≡ announced_ends rs ++ announced_ends qs
announced_ends-append [] qs = refl
announced_ends-append (r ∷ rs) qs = ground (arith, announced_ends-append rs qs)

abbrev pub announced_later : Option OperationStatus → List OperationStatus
announced_later none = []
announced_later (some s) = s ∷ []

-- Nothing of an end is told; its end is written; its end is told or about to be.
abbrev IsOpen : Operation → Type 0
IsOpen o =
    (is_in_flight o.status ≡ true)
    × (journal_ends o.records ≡ [])
    × (announced_ends o.records ≡ [])
    × (o.terminal_event ≡ none)

abbrev IsWritten : Operation → Type 0
IsWritten o =
    (is_terminal o.status ≡ true)
    × (journal_ends o.records ≡ o.status ∷ [])
    × (announced_ends o.records ≡ [])
    × (o.terminal_event ≡ none)

abbrev IsEnded : Operation → Type 0
IsEnded o =
    (is_terminal o.status ≡ true)
    × (journal_ends o.records ≡ o.status ∷ [])
    × (announced_ends o.records ++ announced_later o.terminal_event ≡ o.status ∷ [])

-- What is told about a turn: nothing of an end before it has ended, and then one end, the status of
-- the turn, in the journal and in the events.
abbrev pub Told : Phase → Operation → Type 0
Told created o = IsOpen o
Told waiting o = IsOpen o
Told running o = IsOpen o
Told ending o = IsWritten o
Told cancelling_run o = IsWritten o × (o.status ≡ cancelled)
Told failing o = IsWritten o × (o.status ≡ failed)
Told closing o = IsEnded o
Told leaving o = IsEnded o
Told gone o = IsEnded o × (o.terminal_event ≡ none)

-- Whether a cancellation of the task, if the step is one, lands where the end of the turn is open.
abbrev pub lands_open : Phase → Step → Bool
lands_open waiting interrupts = true
lands_open running interrupts = true
lands_open _ interrupts = false
lands_open _ _ = true

-- All cancellations of its task land there.
abbrev pub lands_all_open : Operation → List (Bool × Step) → Bool
lands_all_open o [] = true
lands_all_open o ((free, s) ∷ steps) = lands_open o.phase s && lands_all_open (step free o s) steps

pub step-kind : (free : Bool) (o : Operation) (s : Step) → (step free o s).kind ≡ o.kind
unfolding step acquire_at with_agent when_running acquired returned raised told_end interrupted_at
    interrupt_turn left turn_cancel request_at abort_operation cancel_turn fail_turn end_turn note
    begin_at written_at absorbed_at announce_cancelling abort_at announced
step-kind free o s = ground arith
