-- ===== src/Operations.antt =====
-- aeloon_runtime/runtime/operation_status.py, and the count of aeloon_runtime/runtime/coordinator.py
-- that keeps a runtime from being restarted.
use aeloon_runtime.Prelude.{
  ℕ, suc, ◌+◌, ◌≡◌, refl, String, Bool, true, false, List, [], ◌∷◌, not, all, arith, if◌then◌else◌,
  ◌==◌,
}

pub data OperationStatus : Type 0 where
  queued active cancelling completed failed cancelled interrupted : OperationStatus

unfoldable pub is_terminal : OperationStatus → Bool
is_terminal completed = true
is_terminal failed = true
is_terminal cancelled = true
is_terminal interrupted = true
is_terminal _ = false

unfoldable pub is_in_flight : OperationStatus → Bool
is_in_flight queued = true
is_in_flight active = true
is_in_flight cancelling = true
is_in_flight _ = false

unfoldable pub is_cancellable : OperationStatus → Bool
is_cancellable queued = true
is_cancellable active = true
is_cancellable cancelling = true
is_cancellable _ = false

-- Of an operation, what the count reads.
pub record Operation : Type 0 where
  pub id : String
  pub status : OperationStatus

pub record SessionRuntime : Type 0 where
  pub operations : List Operation

count_operations : List Operation → ℕ
unfolding is_in_flight
count_operations [] = 0
count_operations (o ∷ rest) =
    let later = count_operations rest in if is_in_flight o.status then suc later else later

-- `OperationCoordinator.active_count`
unfoldable pub active_count : List SessionRuntime → ℕ
unfolding count_operations
active_count [] = 0
active_count (r ∷ rest) = count_operations r.operations + active_count rest

-- Whether all operations of all sessions have come to an end.
abbrev pub all_ended : List SessionRuntime → Bool
all_ended runtimes = all (λ r. all (λ o. is_terminal o.status) r.operations) runtimes

in_flight_or_ended : (s : OperationStatus) → is_in_flight s ≡ not (is_terminal s)
unfolding is_in_flight is_terminal
in_flight_or_ended queued = refl
in_flight_or_ended active = refl
in_flight_or_ended cancelling = refl
in_flight_or_ended completed = refl
in_flight_or_ended failed = refl
in_flight_or_ended cancelled = refl
in_flight_or_ended interrupted = refl

count_operations-ended :
    (os : List Operation) → (count_operations os == 0) ≡ all (λ o. is_terminal o.status) os
unfolding count_operations
count_operations-ended [] = refl
count_operations-ended (o ∷ os) =
    ground (arith, count_operations-ended os, in_flight_or_ended o.status)

-- The count is zero exactly when every operation of every session has come to an end: nothing that
-- is queued, running or being cancelled is overlooked.
active_count-ended :
    (runtimes : List SessionRuntime) → (active_count runtimes == 0) ≡ all_ended runtimes
unfolding active_count
active_count-ended [] = refl
active_count-ended (r ∷ rest) =
    ground (arith, active_count-ended rest, count_operations-ended r.operations)
