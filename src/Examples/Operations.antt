-- ===== src/Examples/Operations.antt =====
-- Two sessions, one with a queued operation.
use aeloon_runtime.Prelude.{◌≡◌, refl, List, [], ◌∷◌}
use aeloon_runtime.Operations.{OperationStatus, SessionRuntime, active_count}

abbrev runtimes : List SessionRuntime
runtimes =
    record { operations = record { id = "a"; status = OperationStatus.completed } ∷ [] }
    ∷ record { operations = record { id = "b"; status = OperationStatus.queued } ∷ [] }
    ∷ []

one_active : active_count runtimes ≡ 1
unfolding active_count
one_active = refl
