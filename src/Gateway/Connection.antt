-- ===== src/Gateway/Connection.antt =====
-- The frames that a `RuntimeConnection` of runtime_server.py sends: events and responses wait in a
-- queue for its writer. The length of a frame's JSON text and MAX_FRAME_BYTES are parameters.
pub mod Flow
pub mod Queue
pub mod Delivery
pub mod Delivered
use aeloon_runtime.Prelude.{
  ℕ, ◌+◌, ◌-◌, String, Bool, true, false, Option, none, some, List, [], ◌∷◌, ◌++◌, ◌&&◌, ◌||◌, not,
  leb, ltb, ◌==◌, if◌then◌else◌,
}
use aeloon_runtime.Wire.{Value}
use aeloon_runtime.Gateway.Events.{PublicEvent, wants}

-- A response or an error to a request, or an event.
pub data Frame : Type 0 where
  response : Value → Frame
  event : PublicEvent → Frame

-- An entry of the priority queue, and whether its future was cancelled.
pub record Entry : Type 0 where
  pub priority : ℕ
  pub sequence : ℕ
  pub frame : Frame
  pub cancelled : Bool

-- `writing` is the entry that the writer has taken, `written` what it handed to the transport.
-- `finished` holds the sizes of event frames whose future is done and whose callback is still due.
pub record RuntimeConnection : Type 0 where
  pub subscribed : Bool
  pub thread_ids : List String
  pub closed : Bool
  pub transport_closing : Bool
  pub event_queue_limit : ℕ
  pub event_queue_bytes : ℕ
  pub pending_event_frames : ℕ
  pub pending_event_bytes : ℕ
  pub write_sequence : ℕ
  pub writes : List Entry
  pub writing : Option Entry
  pub written : List Frame
  pub finished : List ℕ

abbrev pub new_connection : ℕ → ℕ → RuntimeConnection
new_connection limit bytes = record {
  subscribed = false;
  thread_ids = [];
  closed = false;
  transport_closing = false;
  event_queue_limit = limit;
  event_queue_bytes = bytes;
  pending_event_frames = 0;
  pending_event_bytes = 0;
  write_sequence = 0;
  writes = [];
  writing = none;
  written = [];
  finished = [];
}

abbrev pub priority_of : Frame → ℕ
priority_of (response v) = 0
priority_of (event e) = 1

-- Whether an entry goes before another one: by priority, then by sequence.
before : Entry → Entry → Bool
before a b = ltb a.priority b.priority || (a.priority == b.priority && leb a.sequence b.sequence)

-- `PriorityQueue.put`: the queue is held in the order in which it is taken from.
unfoldable pub put_entry : Entry → List Entry → List Entry
unfolding before
put_entry a [] = a ∷ []
put_entry a (b ∷ rest) =
    let later = b ∷ put_entry a rest in if before b a then later else a ∷ b ∷ rest

-- `_enqueue`; `none` is the ConnectionError.
unfoldable pub enqueue : RuntimeConnection → Frame → Option RuntimeConnection
unfolding put_entry
enqueue c frame =
    let sequence = c.write_sequence + 1 in
    if c.closed || c.transport_closing
    then none
    else some (record c {
      write_sequence = sequence;
      writes =
          put_entry
            (record {
              priority = priority_of frame;
              sequence = sequence;
              frame = frame;
              cancelled = false;
            })
            c.writes;
    })

-- `send` up to the wait for its future.
unfoldable pub send : RuntimeConnection → Value → RuntimeConnection
unfolding enqueue
send c v = elim (enqueue c (response v)) [ none ↦ c | some c' ↦ c' ]

-- The task that waits for a response is cancelled, and its future with it.
unfoldable pub cancel_entry : ℕ → Entry → Entry
cancel_entry sequence a = elim a.frame [
  | response v ↦ if a.sequence == sequence then record a { cancelled = true } else a
  | event e ↦ a
]

unfoldable pub cancel_entries : ℕ → List Entry → List Entry
unfolding cancel_entry
cancel_entries sequence [] = []
cancel_entries sequence (a ∷ rest) = cancel_entry sequence a ∷ cancel_entries sequence rest

unfoldable pub cancel_response : RuntimeConnection → ℕ → RuntimeConnection
unfolding cancel_entries
cancel_response c sequence = record c { writes = cancel_entries sequence c.writes }

unfoldable pub take_next : RuntimeConnection → Option Entry → List Entry → RuntimeConnection
take_next c (some a) queue = c
take_next c none [] = c
take_next c none (a ∷ rest) =
    if c.closed
    then c
    else record c { writes = rest; writing = if a.cancelled then none else some a }

-- `_writer_loop`, when it is through with the last entry: the next one is taken.
unfoldable pub take_entry : RuntimeConnection → RuntimeConnection
unfolding take_next
take_entry c = take_next c c.writing c.writes

-- `_event_frame_done`
unfoldable pub event_frame_done : RuntimeConnection → RuntimeConnection
event_frame_done c = elim c.finished [
  | [] ↦ c
  | size ∷ rest ↦ record c {
    finished = rest;
    pending_event_frames = c.pending_event_frames - 1;
    pending_event_bytes = c.pending_event_bytes - size;
  }
]

abbrev pub entries : Option Entry → List Entry
entries none = []
entries (some a) = a ∷ []

module _ (frame_length : Frame → ℕ) where
  -- The sizes that the futures of these entries hand to their callbacks.
  abbrev pub sizes : List Entry → List ℕ
  sizes [] = []
  sizes (a ∷ rest) = elim a.frame [
    | response v ↦ sizes rest
    | event e ↦ (frame_length (event e) + 4) ∷ sizes rest
  ]

  -- `close`: the entries that wait fail, which runs their callbacks. The future of an entry that
  -- the writer had taken stays as it is.
  unfoldable pub close : RuntimeConnection → RuntimeConnection
  close c = if c.closed then c else record c {
    closed = true;
    transport_closing = true;
    writes = [];
    finished = c.finished ++ sizes c.writes;
  }

  unfoldable pub finish_entry : RuntimeConnection → Option Entry → RuntimeConnection
  finish_entry c none = c
  finish_entry c (some a) = if c.closed then c else record c {
    writing = none;
    written = c.written ++ a.frame ∷ [];
    finished = c.finished ++ sizes (a ∷ []);
  }

  -- `_writer_loop`, when the entry that was taken is written,
  unfoldable pub finish_write : RuntimeConnection → RuntimeConnection
  unfolding finish_entry
  finish_write c = finish_entry c c.writing

  unfoldable pub fail_entry : RuntimeConnection → Option Entry → RuntimeConnection
  unfolding close
  fail_entry c none = c
  fail_entry c (some a) =
      if c.closed
      then c
      else close (record c { writing = none; finished = c.finished ++ sizes (a ∷ []) })

  -- and when it cannot be written.
  unfoldable pub fail_write : RuntimeConnection → RuntimeConnection
  unfolding fail_entry
  fail_write c = fail_entry c c.writing

module _ (frame_length : Frame → ℕ) (max_frame_bytes : ℕ) where
  -- The length of what `pack_frame` returns, unless it raises.
  unfoldable pub pack_frame : Frame → Option ℕ
  pack_frame frame =
      if ltb max_frame_bytes (frame_length frame) then none else some (frame_length frame + 4)

  -- `send_event` of an event that the client asked for, as packed: what does not fit into the queue
  -- closes the connection.
  unfoldable pub queue_event : RuntimeConnection → PublicEvent → Option ℕ → RuntimeConnection
  unfolding enqueue close
  queue_event c e none = close frame_length c
  queue_event c e (some size) =
      let counted : RuntimeConnection = (record c {
        pending_event_frames = c.pending_event_frames + 1;
        pending_event_bytes = c.pending_event_bytes + size;
      }) in
      if leb c.event_queue_limit c.pending_event_frames
        || ltb c.event_queue_bytes (c.pending_event_bytes + size)
      then close frame_length c
      else (elim (enqueue counted (event e)) [
        | none ↦ record counted {
          pending_event_frames = counted.pending_event_frames - 1;
          pending_event_bytes = counted.pending_event_bytes - size;
        }
        | some c' ↦ c'
      ])

  -- `send_event`
  unfoldable pub send_event : RuntimeConnection → PublicEvent → RuntimeConnection
  unfolding pack_frame queue_event wants
  send_event c e =
      if not c.subscribed || c.closed
      then c
      else if not (wants c.thread_ids e)
      then c
      else queue_event c e (pack_frame (event e))

-- `handle` of `events.subscribe`, behind the replay.
unfoldable pub accept_subscription : RuntimeConnection → List String → RuntimeConnection
accept_subscription c thread_ids = record c { subscribed = true; thread_ids = thread_ids }

-- What happens to a connection, one step of the event loop after the other.
pub data Step : Type 0 where
  subscribe_to : List String → Step
  publish_event : PublicEvent → Step
  respond : Value → Step
  cancel : ℕ → Step
  writer_takes writer_writes writer_fails callback closing : Step
  transport_closes : Step

module _ (frame_length : Frame → ℕ) (max_frame_bytes : ℕ) where
  unfoldable pub step : RuntimeConnection → Step → RuntimeConnection
  step c (subscribe_to ids) = accept_subscription c ids
  step c (publish_event e) = send_event frame_length max_frame_bytes c e
  step c (respond v) = send c v
  step c (cancel sequence) = cancel_response c sequence
  step c writer_takes = take_entry c
  step c writer_writes = finish_write frame_length c
  step c writer_fails = fail_write frame_length c
  step c callback = event_frame_done c
  step c closing = close frame_length c
  step c transport_closes = record c { transport_closing = true }
