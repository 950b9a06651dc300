-- ===== src/Service/Lifecycle/Stuck.antt =====
-- Navigations and compactions that are interrupted or cancelled.
use aeloon_runtime.Prelude.{
  ◌≡◌, refl, ◌⊎◌, inl, inr, String, Bool, true, false, List, [], ◌∷◌, ◌++◌, arith, err,
}
use aeloon_runtime.Operations.{completed, is_terminal, is_in_flight, is_cancellable}
use aeloon_runtime.Service.Lifecycle.{
  Kind, turn, navigate, compact, operation_started, operation_cancelling, operation_ended, no_agent,
  waiting, running, closing, gone, Operation, finished, Step, acquire, agent_made, run_begins,
  run_ends, returns, raises, interrupts, leaves, cancels, begins, written, absorbs, announces,
  aborts, step, started, play, acquired, returned, raised, told_end, interrupted_at, left,
  turn_cancel, note, begin_at, written_at, absorbed_at, announce_cancelling, abort_at, announced,
  request_at, abort_operation, acquire_at, when_running, with_agent, session_delete, busy,
}

-- Its coroutine has not come to its end.
abbrev pub IsOngoing : Operation → Type 0
IsOngoing o = ((o.phase ≡ waiting) ⊎ (o.phase ≡ running)) × (is_in_flight o.status ≡ true)

-- It has been interrupted, and nothing changes its status any more, but a cancellation.
record IsStuck (o : Operation) : Type 0 where
  kind : (o.kind ≡ navigate) ⊎ (o.kind ≡ compact)
  over : (o.phase ≡ closing) ⊎ (o.phase ≡ gone)
  in_flight : is_in_flight o.status ≡ true

step-IsStuck : (free : Bool) (o : Operation) (s : Step) → IsStuck o → IsStuck (step free o s)
unfolding step acquire_at with_agent when_running acquired returned raised told_end interrupted_at
    left turn_cancel request_at abort_operation note is_in_flight is_terminal is_cancellable
    begin_at written_at absorbed_at announce_cancelling abort_at announced
step-IsStuck free o acquire h = ground arith
step-IsStuck free o agent_made h = ground arith
step-IsStuck free o run_begins h = ground arith
step-IsStuck free o run_ends h = ground arith
step-IsStuck free o (returns reason) h = ground arith
step-IsStuck free o raises h = ground arith
step-IsStuck free o interrupts h = ground arith
step-IsStuck free o leaves h = ground arith
step-IsStuck free o cancels h = ground arith
step-IsStuck free o begins h = ground arith
step-IsStuck free o written h = ground arith
step-IsStuck free o absorbs h = ground arith
step-IsStuck free o announces h = ground arith
step-IsStuck free o aborts h = ground arith

play-IsStuck : (steps : List (Bool × Step)) (o : Operation) → IsStuck o → IsStuck (play o steps)
unfolding play
play-IsStuck [] o h = h
play-IsStuck ((free, s) ∷ steps) o h = play-IsStuck steps (step free o s) (step-IsStuck free o s h)

-- A `CancelledError` reaches it, or something raises before its agent is there.
abbrev pub Abandons : Operation → Step → Type 0
Abandons o s =
    (s ≡ interrupts)
    ⊎ ((s ≡ raises) × (o.phase ≡ running) × (o.agent ≡ no_agent) × (o.interrupt ≡ false))

abandoned-IsStuck :
    (free : Bool) (o : Operation) (s : Step)
    → (o.kind ≡ navigate) ⊎ (o.kind ≡ compact)
    → IsOngoing o
    → Abandons o s
    → IsStuck (step free o s)
unfolding step interrupted_at when_running raised told_end
abandoned-IsStuck free o s k h (inl e) = rw e (ground arith)
abandoned-IsStuck free o s k h (inr (e, p, a, i)) = rw e (ground arith)

delete-busy :
    (front back : List Operation) (o : Operation)
    → is_in_flight o.status ≡ true
    → session_delete (front ++ o ∷ back) ≡ err busy
unfolding session_delete
delete-busy [] back o h = ground arith
delete-busy (x ∷ front) back o h = ground (arith, delete-busy front back o h)

-- A navigation or compaction that is abandoned while it waits or runs, because a `CancelledError`
-- reaches it (its client disconnects, and no request of the inference runtime takes the error), or
-- because its agent cannot be made, stays in flight for ever, whatever happens to it later: a
-- deletion of its session is refused as busy.
pub abandoned_stays_busy :
    (o : Operation) (front back : List Operation) (free : Bool) (s : Step)
    (later : List (Bool × Step))
    → (o.kind ≡ navigate) ⊎ (o.kind ≡ compact)
    → IsOngoing o
    → Abandons o s
    → let o' = play (step free o s) later in
      (is_in_flight o'.status ≡ true) × (session_delete (front ++ o' ∷ back) ≡ err busy)
abandoned_stays_busy o front back free s later k h a =
    let stuck = play-IsStuck later (step free o s) (abandoned-IsStuck free o s k h a) in
    (stuck.in_flight, delete-busy front back (play (step free o s) later) stuck.in_flight)

-- A cancellation of a navigation or compaction that waits for the lock is accepted and announced,
-- but as soon as the lock is granted the operation runs, and completes if nothing fails.
cancel_forgotten :
    (id : String) (k : Kind)
    → (k ≡ navigate) ⊎ (k ≡ compact)
    → let o = started id k in
      let o' = play o (
        (true, cancels)
        ∷ (true, announces)
        ∷ (true, aborts)
        ∷ (true, acquire)
        ∷ (true, agent_made)
        ∷ (true, returns finished)
        ∷ []) in
      (o'.status ≡ completed)
      × (o'.cancel_requested ≡ true)
      × (o'.records
          ≡ o.records ++ operation_cancelling ∷ operation_started ∷ operation_ended completed ∷ [])
unfolding play step acquire_at with_agent when_running acquired returned told_end turn_cancel
    request_at abort_operation note is_terminal is_cancellable announce_cancelling abort_at
cancel_forgotten id navigate h = (refl, refl, refl)
cancel_forgotten id compact h = (refl, refl, refl)
cancel_forgotten id turn h = absurd (ground arith)
