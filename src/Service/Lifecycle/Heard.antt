-- ===== src/Service/Lifecycle/Heard.antt =====
-- A turn over all its steps, wherever cancellations of its task land.
use aeloon_runtime.Prelude.{
  length, ◌≤◌, ◌+◌, length-append, either_way, ◌≡◌, refl, String, Bool, true, Option, none, some,
  List, [], ◌∷◌, arith, sym, subst, ◌∙◌, append-nil,
}
use aeloon_runtime.Operations.{
  OperationStatus, completed, failed, cancelled, is_terminal, is_in_flight, is_cancellable,
}
use aeloon_runtime.Service.Lifecycle.{
  turn, run_end, operation_started, operation_ended, operation_cancelling, no_agent, Phase, created,
  waiting, running, ending, closing, cancelling_run, failing, leaving, gone, Operation, Step,
  acquire, agent_made, run_begins, run_ends, returns, raises, interrupts, leaves, cancels, begins,
  written, absorbs, announces, aborts, step, started, play, acquired, returned, raised, told_end,
  interrupted_at, interrupt_turn, left, turn_cancel, cancel_turn, fail_turn, end_turn, request_at,
  abort_operation, acquire_at, when_running, with_agent, note, begin_at, written_at, absorbed_at,
  announce_cancelling, abort_at, announced, status_of,
}
use aeloon_runtime.Service.Lifecycle.Ends.{
  announced_ends, announced_ends-append, announced_later, step-kind,
}

-- No end is announced; the end that was announced or waits for it, if any, is the only one.
abbrev IsQuiet : Operation → Type 0
IsQuiet o = (announced_ends o.records ≡ []) × (o.terminal_event ≡ none)

abbrev IsHeard : Operation → Type 0
IsHeard o =
    (is_terminal o.status ≡ true)
    × (length (announced_ends o.records) + length (announced_later o.terminal_event) ≤ 1)

abbrev pub Heard : Phase → Operation → Type 0
Heard created o = IsQuiet o
Heard waiting o = IsQuiet o
Heard running o = IsQuiet o
Heard ending o = IsQuiet o × (is_terminal o.status ≡ true)
Heard cancelling_run o = IsQuiet o × (is_terminal o.status ≡ true)
Heard failing o = IsQuiet o × (is_terminal o.status ≡ true)
Heard closing o = IsHeard o
Heard leaving o = IsHeard o
Heard gone o = length (announced_ends o.records) ≤ 1

final_notice :
    (o : Operation) (t : Option OperationStatus)
    → o.terminal_event ≡ t
    → IsHeard o
    → let closed : Operation = record o { agent = no_agent; phase = gone; terminal_event = none } in
      let o' : Operation = elim t [ none ↦ closed | some s ↦ note closed (operation_ended s) ] in
      Heard o'.phase o'
unfolding note
final_notice o none e h = ground arith
final_notice o (some x) e h =
    let shorter : length (announced_ends o.records) + 1 ≤ 1 =
      subst (λ t. length (announced_ends o.records) + length (announced_later t) ≤ 1) e h.1 in
    rw (announced_ends-append o.records (operation_ended x ∷ []))
      (omega (arith, shorter, length-append (announced_ends o.records) (x ∷ [])))

left-Heard :
    (o : Operation) (p : Phase)
    → o.phase ≡ p
    → Heard p o
    → Heard (left turn p o).phase (left turn p o)
unfolding left note
left-Heard o created e h = subst (λ q. Heard q o) (sym e) h
left-Heard o waiting e h = subst (λ q. Heard q o) (sym e) h
left-Heard o running e h = subst (λ q. Heard q o) (sym e) h
left-Heard o ending e h = subst (λ q. Heard q o) (sym e) h
left-Heard o closing e h = h
left-Heard o cancelling_run e h = subst (λ q. Heard q o) (sym e) h
left-Heard o failing e h = subst (λ q. Heard q o) (sym e) h
left-Heard o leaving e h = final_notice o o.terminal_event refl h
left-Heard o gone e h = subst (λ q. Heard q o) (sym e) h

step-Heard :
    (free : Bool) (o : Operation) (p : Phase) (s : Step)
    → o.phase ≡ p
    → o.kind ≡ turn
    → Heard p o
    → Heard (step free o s).phase (step free o s)
unfolding step acquire_at with_agent when_running acquired returned raised told_end interrupted_at
    interrupt_turn left turn_cancel request_at abort_operation cancel_turn fail_turn end_turn note
    begin_at written_at absorbed_at announce_cancelling abort_at announced status_of is_terminal
    is_in_flight is_cancellable
step-Heard free o p begins e k h = ground arith
step-Heard free o p acquire e k h = ground (
  arith,
  announced_ends-append o.records (operation_started ∷ []),
  announced_ends-append o.records (run_end cancelled ∷ []),
)
step-Heard free o p agent_made e k h = ground arith
step-Heard free o p run_begins e k h = ground arith
step-Heard free o p run_ends e k h = ground arith
step-Heard free o p (returns reason) e k h = ground (
  arith,
  announced_ends-append o.records (run_end cancelled ∷ []),
  announced_ends-append o.records (run_end failed ∷ []),
  announced_ends-append o.records (run_end completed ∷ []),
)
step-Heard free o p raises e k h =
    ground (arith, announced_ends-append o.records (run_end failed ∷ []))
step-Heard free o p written e k h = ground (
  arith,
  announced_ends-append o.records (operation_ended o.status ∷ []),
  announced_ends-append o.records (operation_ended failed ∷ []),
)
step-Heard free o p interrupts e k h =
    ground (arith, announced_ends-append o.records (run_end cancelled ∷ []))
step-Heard free o p absorbs e k h = ground arith
step-Heard free o p leaves e k h =
    let before : Heard o.phase o = subst (λ q. Heard q o) (sym e) h in
    either_way (λ o'. Heard o'.phase o') o.interrupt o (left o.kind o.phase o) before
      (subst (λ kind. Heard (left kind o.phase o).phase (left kind o.phase o)) (sym k)
        (left-Heard o o.phase refl before))
step-Heard free o p cancels e k h = ground arith
step-Heard free o p announces e k h = ground (
  arith,
  announced_ends-append o.records (operation_cancelling ∷ [])
      ∙ append-nil (announced_ends o.records),
)
step-Heard free o p aborts e k h = ground arith

play-Heard :
    (steps : List (Bool × Step)) (o : Operation)
    → o.kind ≡ turn
    → Heard o.phase o
    → Heard (play o steps).phase (play o steps)
unfolding play
play-Heard [] o k h = h
play-Heard ((free, s) ∷ steps) o k h =
    play-Heard steps (step free o s) (step-kind free o s ∙ k) (step-Heard free o o.phase s refl k h)

-- Wherever cancellations of its task land, in whatever order the steps of a turn come: before its
-- end is written no end is announced; from when it is being written until the turn has gone its
-- status is terminal; and at most one end is ever announced.
pub turn-Heard :
    (id : String) (steps : List (Bool × Step))
    → Heard (play (started id turn) steps).phase (play (started id turn) steps)
turn-Heard id steps = play-Heard steps (started id turn) refl (refl, refl)
