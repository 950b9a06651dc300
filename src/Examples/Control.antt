-- ===== src/Examples/Control.antt =====
-- A run that is steered, drained and cancelled.
use aeloon_runtime.Prelude.{is_blank, ℕ, ◌≡◌, refl, true, false, List, [], ◌∷◌, ok}
use aeloon_runtime.Messages.{UserMessage, plain}
use aeloon_runtime.Control.{
  RunController, QueueMode, steer, no_queues, new_controller, bind, release, enqueue, drain, cancel,
  abort,
}
use aeloon_runtime.Control.Delivery.{
  Op, put, take_from, cancels, Ledger, play, Balanced, delivered_in_order,
}
use aeloon_runtime.Control.Lifetime.{made, bound, released, bind_starts_clean}

abbrev idle : RunController
idle = new_controller QueueMode.one_at_a_time QueueMode.every

abbrev running : RunController
running = record {
  steering_mode = QueueMode.one_at_a_time;
  follow_up_mode = QueueMode.every;
  queues = no_queues;
  active = true;
  abort_requested = false;
  cancels = 0;
  emitted = [];
}

idle-bound : bind idle ≡ ok running
unfolding bind new_controller
idle-bound = refl

again-bound : bind (release running) ≡ ok running
unfolding bind release
again-bound = refl

abbrev ledger : Ledger
ledger = record { controller = running; accepted = no_queues; left = no_queues }

abbrev ops : List Op
ops =
    put steer "stop" [] 1 ∷ put steer "now" [] 2 ∷ take_from steer ∷ cancels ∷ take_from steer ∷ []

delivered_in_order_example : Balanced steer no_queues (play ledger ops)
delivered_in_order_example = delivered_in_order steer no_queues ledger ops refl

abbrev said : ℕ → UserMessage
said now = record { content = plain "stop"; timestamp = now }

-- One message at a time is delivered, the earlier first.
played :
    (play ledger (put steer "stop" [] 1 ∷ put steer "stop" [] 2 ∷ take_from steer ∷ [])).left
    ≡ record { steering = said 1 ∷ []; following = [] }
unfolding play enqueue drain is_blank
played = refl

bind_starts_clean_example :
    (running.queues.steering ≡ [])
    × (running.queues.following ≡ [])
    × (running.abort_requested ≡ false)
    × (running.active ≡ true)
bind_starts_clean_example =
    bind_starts_clean (release running) running
      (released (bound idle-bound (made QueueMode.one_at_a_time QueueMode.every))) again-bound

abbrev queued : RunController
queued = record running { queues = record { steering = said 1 ∷ []; following = said 2 ∷ [] } }

abbrev cancelled : RunController
cancelled = record running {
  abort_requested = true;
  cancels = 1;
  emitted = abort queued.queues ∷ [];
}

queued-cancelled : cancel queued ≡ ok (cancelled, queued.queues)
unfolding cancel
queued-cancelled = refl
