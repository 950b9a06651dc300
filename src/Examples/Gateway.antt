-- ===== src/Examples/Gateway.antt =====
-- A log that keeps two of three events, a connection with room for one event, and a device that
-- connects, before and after its revocation.
use aeloon_runtime.Prelude.{
  ℕ, ◌+◌, ◌≡◌, ◌⊎◌, refl, String, Bool, true, false, none, some, List, [], ◌∷◌, ◌++◌, ◌&&◌, ◌||◌,
  ltb, leb, fold, get_elem?, if◌then◌else◌,
}
use aeloon_runtime.Wire.{Value, null}
use aeloon_runtime.Pairing.Devices.{DeviceStore, Device, no_fault}
use aeloon_runtime.Pairing.Devices.Presence.{is_paired}
use aeloon_runtime.Pairing.Limiter.{AuthLimiter, new_limiter}
use aeloon_runtime.Gateway.Events.{
  RuntimeEvent, PublicEvent, EventLog, new_log, SubscribeParams, subscribe, wants, keep_if,
  same_instance,
}
use aeloon_runtime.Gateway.Events.Replay.{play, replay-exact}
use aeloon_runtime.Gateway.Events.Window.{replay_window}
use aeloon_runtime.Gateway.Connection.{
  Frame, RuntimeConnection, new_connection, Step, subscribe_to, publish_event, writer_takes,
  writer_writes, step, send_event, finish_write, take_entry, accept_subscription,
}
use aeloon_runtime.Gateway.Connection.Queue.{events_of}
use aeloon_runtime.Gateway.Connection.Delivery.{coming, hear, nobody}
use aeloon_runtime.Gateway.Connection.Flow.{Accounted, steps-Accounted}
use aeloon_runtime.Gateway.Connection.Delivered.{delivered_without_gap}
use aeloon_runtime.Gateway.Handshake
use aeloon_runtime.Gateway.Handshake.{
  Peer, Server, device_token, connects, shakes_hands, pairs, revokes, closes, dispatches,
}
use aeloon_runtime.Gateway.Handshake.Authenticated.{no_peers, dispatched_are_paired}

abbrev same_key : String → String
same_key key = key

abbrev anything : String → Value → Bool
anything name payload = true

abbrev told : String → RuntimeEvent
told session = record {
  time = "t";
  name = "session.renamed";
  workspace = none;
  session_id = some session;
  operation_id = none;
  payload = null;
}

abbrev three : List RuntimeEvent
three = told "a" ∷ told "b" ∷ told "a" ∷ []

abbrev since_one : SubscribeParams
since_one = record { after_seq = 1; server_instance_id = none; thread_ids = "a" ∷ [] }

abbrev log : EventLog
log = (play same_key anything (new_log "i" 2) three).0

abbrev published : List PublicEvent
published = (play same_key anything (new_log "i" 2) three).1

replay-exact_example : (subscribe log since_one).events ≡ (
    if (subscribe log since_one).replay_complete
    then keep_if (λ e. ltb 1 e.seq && wants ("a" ∷ []) e) published
    else [])
replay-exact_example = replay-exact same_key anything "i" 2 three since_one

replay_window_example :
    (subscribe log since_one).replay_complete
    ≡ (same_instance log since_one && leb log.current_seq (1 + 2))
replay_window_example =
    replay_window same_key anything "i" 2 three since_one
      ((λ seq. refl), ((λ seq. refl), ((λ seq. refl), tt)))

-- Every frame is ten bytes long.
abbrev ten : Frame → ℕ
ten frame = 10

abbrev of_thread : String → ℕ → PublicEvent
of_thread thread_id seq = record {
  time = "t";
  name = "thread.renamed";
  workspace = none;
  thread_id = some thread_id;
  operation_id = none;
  payload = null;
  seq = seq;
}

abbrev steps : List Step
steps =
    subscribe_to ("a" ∷ [])
    ∷ publish_event (of_thread "a" 1)
    ∷ writer_takes
    ∷ writer_writes
    ∷ publish_event (of_thread "b" 2)
    ∷ publish_event (of_thread "a" 3)
    ∷ []

abbrev connection : RuntimeConnection
connection = fold (step ten 100) (new_connection 1 1000) steps

-- The callback of the first event has not run, so that there is no room for the third.
full : connection.closed ≡ true
unfolding step send_event finish_write take_entry accept_subscription
full = refl

steps-Accounted_example : Accounted ten connection
steps-Accounted_example = steps-Accounted ten 100 1 1000 steps

delivered_without_gap_example :
    (lost : List PublicEvent) × ((fold hear nobody steps).due
      ≡ events_of connection.written ++ (coming connection ++ lost))
    × (((connection.closed || connection.transport_closing) ≡ true) ⊎ (lost ≡ []))
delivered_without_gap_example = delivered_without_gap ten 100 1 1000 steps

abbrev phone : Device
phone = record {
  id = "d1";
  name = "phone";
  platform = "remote";
  token_sha256 = "secret";
  paired_at = 5;
  last_seen_at = 5;
}

abbrev store : DeviceStore
store = record { devices = phone ∷ []; saved = phone ∷ [] }

abbrev limiter : AuthLimiter
limiter = new_limiter

abbrev authenticated : List Handshake.Step
authenticated =
    connects true 1 "10.0.0.1" ∷ shakes_hands no_fault 6 1 true (device_token (some "secret")) ∷ []

abbrev server : List Handshake.Step → Server
server = fold (Handshake.step same_key) (no_peers store limiter)

abbrev peer : Peer
peer = record {
  id = 1;
  source = "10.0.0.1";
  requires_auth = true;
  reject_busy = false;
  device_id = some "d1";
  handshaken = true;
  connected = true;
  closing = false;
  is_open = true;
}

served : get_elem? (server authenticated).peers 0 ≡ some peer
unfolding Handshake.step
served = refl

dispatched_are_paired_example :
    (d : String) × (peer.device_id ≡ some d) × (is_paired (server authenticated).store d ≡ true)
unfolding dispatches
dispatched_are_paired_example =
    dispatched_are_paired same_key store limiter authenticated (server authenticated) 0 peer refl
      served refl refl refl refl
