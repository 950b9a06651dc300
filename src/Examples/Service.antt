-- ===== src/Examples/Service.antt =====
-- A turn that is cancelled while it waits, and a navigation whose request is cancelled.
use aeloon_runtime.Prelude.{◌≡◌, refl, inl, Bool, true, false, List, [], ◌∷◌, ◌++◌, err, fold, map}
use aeloon_runtime.Operations.{is_in_flight, cancelled}
use aeloon_runtime.Service.Lifecycle.{
  turn, navigate, compact, Operation, finished, Step, acquire, agent_made, returns, interrupts,
  leaves, cancels, begins, announces, aborts, written, leaving, running, step, started, play,
  SessionStep, start, advance, session_step, session_delete, holds_lock, busy,
}
use aeloon_runtime.Service.Lifecycle.Ends.{journal_ends}
use aeloon_runtime.Service.Lifecycle.Heard.{Heard, turn-Heard}
use aeloon_runtime.Service.Lifecycle.Stuck.{abandoned_stays_busy}

abbrev cancelled_turn : List (Bool × Step)
cancelled_turn =
    (false, begins)
    ∷ (false, cancels)
    ∷ (false, announces)
    ∷ (false, aborts)
    ∷ (false, interrupts)
    ∷ (true, written)
    ∷ (true, leaves)
    ∷ []

journal_has_cancelled :
    journal_ends (play (started "o1" turn) cancelled_turn).records ≡ cancelled ∷ []
unfolding play step
journal_has_cancelled = refl

-- A cancellation that lands while the end of a turn is written: the journal gets a second end.
abbrev cancelled_late : List (Bool × Step)
cancelled_late =
    (false, begins)
    ∷ (true, acquire)
    ∷ (true, agent_made)
    ∷ (true, cancels)
    ∷ (true, announces)
    ∷ (true, returns finished)
    ∷ (true, aborts)
    ∷ (true, interrupts)
    ∷ []

journal_ends_twice :
    journal_ends (play (started "o1" turn) cancelled_late).records ≡ cancelled ∷ cancelled ∷ []
unfolding play step
journal_ends_twice = refl

turn-Heard_example :
    Heard (play (started "o1" turn) cancelled_late).phase (play (started "o1" turn) cancelled_late)
turn-Heard_example = turn-Heard "o1" cancelled_late

abbrev two_at_once : List SessionStep
two_at_once =
    start "o1" turn
    ∷ start "o2" compact
    ∷ advance "o1" begins
    ∷ advance "o1" acquire
    ∷ advance "o2" acquire
    ∷ advance "o1" (returns finished)
    ∷ advance "o1" written
    ∷ advance "o1" leaves
    ∷ advance "o2" acquire
    ∷ []

second_runs : map (λ o. o.phase) (fold session_step [] two_at_once) ≡ leaving ∷ running ∷ []
unfolding session_step holds_lock
second_runs = refl

abbrev waiting_turn : Operation
waiting_turn = started "o2" turn

abandoned_stays_busy_example :
    (is_in_flight
        (play (step false (started "o1" navigate) interrupts) ((true, acquire) ∷ [])).status
      ≡ true)
    × (session_delete (
          []
          ++ play (step false (started "o1" navigate) interrupts) ((true, acquire) ∷ [])
            ∷ waiting_turn
            ∷ [])
        ≡ err busy)
unfolding is_in_flight
abandoned_stays_busy_example =
    abandoned_stays_busy (started "o1" navigate) [] (waiting_turn ∷ []) false interrupts
      ((true, acquire) ∷ []) (inl refl) (inl refl, refl) (inl refl)
