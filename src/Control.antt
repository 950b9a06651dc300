-- ===== src/Control.antt =====
-- aeloon_runtime/core/control.py: `RunController`, the queues and the cancellation of one run.
-- What it emits is kept in order; the dispatcher's handlers do not change the controller.
pub mod Delivery
pub mod Lifetime
use aeloon_runtime.Prelude.{
  ℕ, zero, suc, String, Bool, true, false, Option, none, some, List, [], ◌∷◌, ◌++◌, ◌&&◌, str_eq,
  is_blank, is_empty, length, take, drop, Result, ok, err, ◌>>=◌, if◌then◌else◌, map,
}
use aeloon_runtime.Messages.{UserMessage, UserContent, Content, plain, parts}

pub data RunError : Type 0 where
  busy invalid_state invalid_argument : RunError

pub data QueueMode : Type 0 where
  every one_at_a_time : QueueMode

unfoldable pub validate_mode : String → Result RunError QueueMode
validate_mode mode =
    if str_eq mode "all"
    then ok every
    else if str_eq mode "one-at-a-time"
    then ok one_at_a_time
    else err invalid_argument

pub data RunInputKind : Type 0 where
  steer follow_up : RunInputKind

pub record Queues : Type 0 where
  pub steering : List UserMessage
  pub following : List UserMessage

-- The payloads of "queue_update" and "abort" are the queues at the time.
pub data ControlEvent : Type 0 where
  queue_update : Queues → ControlEvent
  abort : Queues → ControlEvent

-- `active` is `self._events is not None`; `cancels` counts the calls of the bound `cancel`.
pub record RunController : Type 0 where
  pub steering_mode : QueueMode
  pub follow_up_mode : QueueMode
  pub queues : Queues
  pub active : Bool
  pub abort_requested : Bool
  pub cancels : ℕ
  pub emitted : List ControlEvent

abbrev pub no_queues : Queues
no_queues = record { steering = []; following = [] }

-- `RunController(...)`
unfoldable pub new_controller : QueueMode → QueueMode → RunController
new_controller steering_mode follow_up_mode = record {
  steering_mode = steering_mode;
  follow_up_mode = follow_up_mode;
  queues = no_queues;
  active = false;
  abort_requested = false;
  cancels = 0;
  emitted = [];
}

abbrev pub queue : RunInputKind → Queues → List UserMessage
queue steer q = q.steering
queue follow_up q = q.following

abbrev pub with_queue : RunInputKind → List UserMessage → Queues → Queues
with_queue steer ms q = record q { steering = ms }
with_queue follow_up ms q = record q { following = ms }

abbrev pub mode_of : RunInputKind → RunController → QueueMode
mode_of steer c = c.steering_mode
mode_of follow_up c = c.follow_up_mode

-- `_emit_update`: without a dispatcher nothing is sent.
emit_update : RunController → RunController
emit_update c =
    if c.active then record c { emitted = c.emitted ++ queue_update c.queues ∷ [] } else c

-- `not text.strip() and not images`
is_vacant : String → List UserContent → Bool
is_vacant text images = is_blank text && is_empty images

-- `text if not images else (TextContent(text), *images)`
pub input_content : String → List UserContent → Content
input_content text [] = plain text
input_content text (first ∷ rest) = parts (UserContent.text text ∷ first ∷ rest)

-- `_enqueue`, at a time
unfoldable pub enqueue :
    RunController → RunInputKind → String → List UserContent → ℕ → Result RunError RunController
unfolding emit_update is_vacant input_content
enqueue c kind text images now =
    let message : UserMessage = record { content = input_content text images; timestamp = now } in
    let queues = with_queue kind (queue kind c.queues ++ message ∷ []) c.queues in
    if c.active
    then if is_vacant text images
      then err invalid_argument
      else ok (emit_update (record c { queues = queues }))
    else err invalid_state

-- `clear` returns what it takes away.
unfoldable pub clear : RunController → RunController × Queues
clear c = (record c { queues = no_queues }, c.queues)

-- `cancel`
unfoldable pub cancel : RunController → Result RunError (RunController × Queues)
unfolding clear
cancel c =
    let (c', cleared) = clear (record c { abort_requested = true }) in
    if c.active
    then ok
        (record c' { cancels = suc c.cancels; emitted = c.emitted ++ abort cleared ∷ [] }, cleared)
    else err invalid_state

-- `_bind`
unfoldable pub bind : RunController → Result RunError RunController
bind c = if c.active then err busy else ok (record c { active = true; abort_requested = false })

-- `_release`
unfoldable pub release : RunController → RunController
release c = record c { active = false; queues = no_queues; abort_requested = false }

-- `len(queue) if mode == "all" else 1`
abbrev pub drain_count : QueueMode → List UserMessage → ℕ
drain_count every q = length q
drain_count one_at_a_time q = 1

-- `_drain`, which `_drain_steering` and `_drain_follow_up` call with their own queue and mode.
unfoldable pub drain : RunController → RunInputKind → RunController × List UserMessage
unfolding emit_update
drain c kind =
    let q = queue kind c.queues in
    let n = drain_count (mode_of kind c) q in
    if is_empty q
    then (c, [])
    else (emit_update (record c { queues = with_queue kind (drop n q) c.queues }), take n q)
