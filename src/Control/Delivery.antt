-- ===== src/Control/Delivery.antt =====
-- The delivery of queued input: the queues of `RunController`, in order of acceptance.
use aeloon_runtime.Prelude.{
  take-append-drop, ℕ, ◌≡◌, sym, ap, ◌∙◌, String, List, [], ◌∷◌, ◌++◌, arith, Result, ok, err,
  append_assoc, append-nil,
}
use aeloon_runtime.Messages.{UserMessage, UserContent}
use aeloon_runtime.Control.{
  RunController, RunError, RunInputKind, steer, follow_up, Queues, queue, with_queue, enqueue,
  drain, clear, cancel, drain_count, mode_of, input_content,
}

-- What happens to a controller while a run is on: it accepts input, the run drains a queue, and
-- `clear` and `cancel` hand back what is queued.
pub data Op : Type 0 where
  put : RunInputKind → String → List UserContent → ℕ → Op
  take_from : RunInputKind → Op
  clears cancels : Op

-- A refused input leaves the controller as it was.
abbrev after : RunController → Result RunError RunController → RunController
after c (ok c') = c'
after c (err e) = c

-- The controller with a record of all that it accepted, and of all that left a queue, in order:
-- `delivered` to the run or handed back.
pub record Ledger : Type 0 where
  pub controller : RunController
  pub accepted : Queues
  pub left : Queues

abbrev input_message : String → List UserContent → ℕ → UserMessage
input_message text images now = record { content = input_content text images; timestamp = now }

abbrev note : RunInputKind → List UserMessage → Queues → Queues
note kind ms q = with_queue kind (queue kind q ++ ms) q

abbrev hand_back : Ledger → RunController → Queues → Ledger
hand_back l c cleared = record l {
  controller = c;
  left = note follow_up cleared.following (note steer cleared.steering l.left);
}

step : Ledger → Op → Ledger
step l (put kind text images now) = elim (enqueue l.controller kind text images now) [
  | err e ↦ l
  | ok c ↦ record l {
    controller = c;
    accepted = note kind (input_message text images now ∷ []) l.accepted;
  }
]
step l (take_from kind) =
    let (c, taken) = drain l.controller kind in
    record l { controller = c; left = note kind taken l.left }
step l clears = hand_back l (clear l.controller).0 (clear l.controller).1
step l cancels = elim (cancel l.controller) [ err e ↦ l | ok (c, cleared) ↦ hand_back l c cleared ]

unfoldable pub play : Ledger → List Op → Ledger
unfolding step
play l [] = l
play l (op ∷ ops) = play (step l op) ops

-- Of one kind: what was there at first and what was accepted since is what has left the queue and
-- what is still queued, in this order.
abbrev pub Balanced : RunInputKind → Queues → Ledger → Type 0
Balanced kind first l =
    queue kind first ++ queue kind l.accepted ≡ queue kind l.left ++ queue kind l.controller.queues

accept_more :
    (first accepted delivered queued more : List UserMessage)
    → first ++ accepted ≡ delivered ++ queued
    → first ++ (accepted ++ more) ≡ delivered ++ (queued ++ more)
accept_more first accepted delivered queued more h =
    sym (append_assoc first accepted more)
    ∙ ap (λ ms. ms ++ more) h
    ∙ append_assoc delivered queued more

deliver_some :
    (first accepted delivered queued taken rest : List UserMessage)
    → first ++ accepted ≡ delivered ++ queued
    → taken ++ rest ≡ queued
    → first ++ accepted ≡ (delivered ++ taken) ++ rest
deliver_some first accepted delivered queued taken rest h e =
    h ∙ ap (λ ms. delivered ++ ms) (sym e) ∙ sym (append_assoc delivered taken rest)

put-Balanced :
    (k kind : RunInputKind) (first : Queues) (l : Ledger) (text : String)
    (images : List UserContent) (now : ℕ)
    → Balanced k first l
    → Balanced k first (step l (put kind text images now))
unfolding step enqueue
put-Balanced k kind first l text images now h = ground (
  arith,
  accept_more (queue k first) (queue k l.accepted) (queue k l.left) (queue k l.controller.queues)
      (input_message text images now ∷ []) h,
)

drain-taken :
    (c : RunController) (kind : RunInputKind)
    → (drain c kind).1 ++ queue kind (drain c kind).0.queues ≡ queue kind c.queues
unfolding drain
drain-taken c kind = ground (
  arith,
  take-append-drop (drain_count (mode_of kind c) (queue kind c.queues)) (queue kind c.queues),
)

abbrev other : RunInputKind → RunInputKind
other steer = follow_up
other follow_up = steer

drain-other :
    (c : RunController) (kind : RunInputKind)
    → queue (other kind) (drain c kind).0.queues ≡ queue (other kind) c.queues
unfolding drain
drain-other c kind = ground arith

take-Balanced :
    (k kind : RunInputKind) (first : Queues) (l : Ledger)
    → Balanced k first l
    → Balanced k first (step l (take_from kind))
unfolding step
take-Balanced k kind first l h = ground (
  arith,
  drain-other l.controller kind,
  deliver_some (queue k first) (queue k l.accepted) (queue k l.left) (queue k l.controller.queues)
      (drain l.controller kind).1 (queue k (drain l.controller kind).0.queues) h,
  drain-taken l.controller kind,
)

clear-Balanced :
    (k : RunInputKind) (first : Queues) (l : Ledger)
    → Balanced k first l
    → Balanced k first (step l clears)
unfolding step clear
clear-Balanced steer first l h =
    h ∙ sym (append-nil (l.left.steering ++ l.controller.queues.steering))
clear-Balanced follow_up first l h =
    h ∙ sym (append-nil (l.left.following ++ l.controller.queues.following))

cancel-Balanced :
    (k : RunInputKind) (first : Queues) (l : Ledger)
    → Balanced k first l
    → Balanced k first (step l cancels)
unfolding step cancel clear
cancel-Balanced k first l h = ground (
  arith,
  append-nil (l.left.steering ++ l.controller.queues.steering),
  append-nil (l.left.following ++ l.controller.queues.following),
)

-- While a run is bound, whatever input is offered and whenever the run drains, clears or cancels,
-- each kind of input leaves its queue in the order in which it was accepted, each message once: the
-- messages queued at first and those accepted since are those delivered to the run or handed back,
-- followed by those still queued.
pub delivered_in_order :
    (k : RunInputKind) (first : Queues) (l : Ledger) (ops : List Op)
    → Balanced k first l
    → Balanced k first (play l ops)
unfolding play
delivered_in_order k first l [] h = h
delivered_in_order k first l (put kind text images now ∷ ops) h =
    delivered_in_order k first (step l (put kind text images now)) ops
      (put-Balanced k kind first l text images now h)
delivered_in_order k first l (take_from kind ∷ ops) h =
    delivered_in_order k first (step l (take_from kind)) ops (take-Balanced k kind first l h)
delivered_in_order k first l (clears ∷ ops) h =
    delivered_in_order k first (step l clears) ops (clear-Balanced k first l h)
delivered_in_order k first l (cancels ∷ ops) h =
    delivered_in_order k first (step l cancels) ops (cancel-Balanced k first l h)
