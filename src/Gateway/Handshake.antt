-- ===== src/Gateway/Handshake.antt =====
-- The authentication of connections in `RuntimeServer`: `_handshake`, `_authenticate_handshake`,
-- `_accept_device_token`, `activate_connection`, `_accept`, and the revocation of devices in
-- `_devices_dispatch`. What `handle` does with an outcome up to its response is part of a step;
-- closings come later, one by one. SHA-256, the ids of
-- connections, times, and how a write of the devices fails are arguments. Waits of the limiter and
-- the logs are left out; a result of a handshake passes its schema.
pub mod Authenticated
use aeloon_runtime.Prelude.{
  ℕ, ◌+◌, String, Bool, true, false, Option, none, some, List, [], ◌∷◌, ◌++◌, ◌&&◌, ◌||◌, not, leb,
  ◌==◌, str_eq, sum_of, Result, ok, err, truthy, if◌then◌else◌,
}
use aeloon_runtime.Pairing.Devices.{
  Device, DeviceStore, SaveError, Fault, Draw, verify, touch, revoke, issue,
}
use aeloon_runtime.Pairing.Limiter.{AuthLimiter, record_failure, record_success}

abbrev pub max_clients : ℕ
max_clients = 16

abbrev pub max_clients_per_device : ℕ
max_clients_per_device = 4

-- Of a connection: `connected` if it is among the server's connections, `is_open` until `close` is called,
-- which sets `_closed` before it waits for anything,
-- and `closing` if it is to close after a response, or is among those a revocation closes.
pub record Peer : Type 0 where
  pub id : ℕ
  pub source : String
  pub requires_auth : Bool
  pub reject_busy : Bool
  pub device_id : Option String
  pub handshaken : Bool
  pub connected : Bool
  pub closing : Bool
  pub is_open : Bool

pub record Server : Type 0 where
  pub store : DeviceStore
  pub limiter : AuthLimiter
  pub peers : List Peer

-- `params["auth"]`: not a mapping, of another kind, or a device token.
pub data Auth : Type 0 where
  no_auth other_scheme : Auth
  device_token : Option String → Auth

pub data HandshakeError : Type 0 where
  protocol_incompatible unauthorized busy internal_error : HandshakeError

-- `item.device_id == device_id`
is_device : String → Option String → Bool
is_device d none = false
is_device d (some e) = str_eq e d

unfoldable pub connected_count : List Peer → ℕ
connected_count peers = sum_of (λ p. if p.connected then 1 else 0) peers

unfoldable pub device_count : String → List Peer → ℕ
unfolding is_device
device_count d peers = sum_of (λ p. if p.connected && is_device d p.device_id then 1 else 0) peers

-- `_enforce_device_limit` and `activate_connection`, beside the other connections.
unfoldable pub has_room : String → Peer → List Peer → Bool
unfolding connected_count device_count
has_room d p others =
    not (leb max_clients_per_device (device_count d (p ∷ others)))
    && not (leb max_clients (connected_count (p ∷ others)))

-- What a call leaves of the store and the limiter, and of the connection.
abbrev pub Outcome : Type 0
Outcome = DeviceStore × AuthLimiter × Peer × Result HandshakeError (Unit {0})

is_some : Option String → Bool
is_some none = false
is_some (some d) = true

-- `_auth_failed`; the limiter may raise an error of its own.
refuse : ℕ → Outcome → Outcome
unfolding record_failure
refuse now (store, limiter, p, result) =
    let (limiter', counted) = record_failure limiter p.source now in
    (store, limiter', p, elim counted [ ok _ ↦ err unauthorized | err _ ↦ err internal_error ])

-- `handle` of `system.handshake`: after an `RpcError`, a connection that needs authentication is to
-- close.
settle : Outcome → DeviceStore × AuthLimiter × Peer
settle (store, limiter, p, ok _) = (store, limiter, record p { handshaken = true })
settle (store, limiter, p, err internal_error) = (store, limiter, p)
settle (store, limiter, p, err _) =
    (store, limiter, if p.requires_auth then record p { closing = true } else p)

module _ (hash_token : String → String) where
  -- `_accept_device_token`, once the token is verified.
  accept_device : Fault → ℕ → Server → List Peer → Peer → Device → Outcome
  unfolding has_room touch record_success
  accept_device fault now s others p d =
      let claimed : Peer = (record p { device_id = some d.id }) in
      let (store, saved) = touch fault s.store d.id now in
      if has_room d.id claimed others
      then if saved
        then (store, record_success s.limiter p.source, record claimed { connected = true }, ok tt)
        else (store, s.limiter, record claimed { connected = true }, err internal_error)
      else (s.store, s.limiter, record p { device_id = none }, err busy)

  accept_device_token : Fault → ℕ → Server → List Peer → Peer → Option String → Outcome
  unfolding accept_device verify
  accept_device_token fault now s others p token = elim (truthy token) [
    | none ↦ (s.store, s.limiter, p, err unauthorized)
    | some t ↦ elim (verify hash_token s.store t) [
      | none ↦ (s.store, s.limiter, p, err unauthorized)
      | some d ↦ accept_device fault now s others p d
    ]
  ]

  -- `_authenticate_handshake` and `_authenticate_handshake_locked`
  authenticate : Fault → ℕ → Server → List Peer → Peer → Auth → Outcome
  unfolding accept_device_token refuse is_some
  authenticate fault now s others p no_auth =
      if p.requires_auth && not (is_some p.device_id)
      then refuse now (s.store, s.limiter, p, err unauthorized)
      else (s.store, s.limiter, p, ok tt)
  authenticate fault now s others p other_scheme =
      refuse now (s.store, s.limiter, p, err unauthorized)
  authenticate fault now s others p (device_token token) =
      let outcome = accept_device_token fault now s others p token in
      elim outcome.3 [ err unauthorized ↦ refuse now outcome | _ ↦ outcome ]

  -- A handshake, with whether its protocol range fits.
  unfoldable pub handshake :
      Fault → ℕ → Server → List Peer → Peer → Bool → Auth → DeviceStore × AuthLimiter × Peer
  unfolding authenticate settle
  handshake fault now s others p fits auth =
      if p.reject_busy
      then (s.store, s.limiter, record p { closing = true })
      else if fits
      then settle (authenticate fault now s others p auth)
      else settle (s.store, s.limiter, p, err protocol_incompatible)

  -- The open connection of that id makes a handshake.
  handshake_at : Fault → ℕ → ℕ → Bool → Auth → Server → List Peer → List Peer → Server
  unfolding handshake
  handshake_at fault now id fits auth s front [] = s
  handshake_at fault now id fits auth s front (p ∷ back) =
      if p.id == id && p.is_open
      then (let (store, limiter, p') = handshake fault now s (front ++ back) p fits auth in
          record { store = store; limiter = limiter; peers = front ++ p' ∷ back })
      else handshake_at fault now id fits auth s (front ++ p ∷ []) back

-- `devices.revoke` closes the connections of the device one after another, its own only after the
-- response.
mark_device : String → List Peer → List Peer
unfolding is_device
mark_device d [] = []
mark_device d (p ∷ peers) =
    (if p.connected && is_device d p.device_id then record p { closing = true } else p)
    ∷ mark_device d peers

after_revoke : Server → DeviceStore → String → Result SaveError Bool → Server
unfolding mark_device
after_revoke s store d (ok revoked) = record s { store = store; peers = mark_device d s.peers }
after_revoke s store d (err e) = record s { store = store }

unfoldable pub revoke_device : Fault → Server → String → Server
unfolding revoke after_revoke
revoke_device fault s d =
    let (store, result) = revoke fault s.store d in after_revoke s store d result

-- A peer that has just connected: over the Unix socket by `_accept`, or over a WebSocket, which is
-- not among the server's connections before it has authenticated.
unfoldable pub new_peer : Bool → ℕ → String → List Peer → Peer
unfolding connected_count
new_peer websocket id source peers =
    let at_limit = leb max_clients (connected_count peers) in
    record {
      id = id;
      source = source;
      requires_auth = websocket;
      reject_busy = not websocket && at_limit;
      device_id = none;
      handshaken = false;
      connected = not websocket && not at_limit;
      closing = false;
      is_open = true;
    }

-- `close`, of a connection that is to close or whose client is gone: it sets `_closed` before it
-- waits for anything, and what it waits for behind that is left out.
shut : Bool → Peer → Peer
shut gone p = if p.closing || gone then record p { is_open = false } else p

-- A connection that has closed is not among the server's connections any more.
leave : Peer → Peer
leave p = if p.is_open then p else record p { connected = false }

at_peer : (Peer → Peer) → ℕ → List Peer → List Peer
at_peer f id [] = []
at_peer f id (p ∷ peers) = (if p.id == id then f p else p) ∷ at_peer f id peers

pub data Step : Type 0 where
  connects : (websocket : Bool) (id : ℕ) (source : String) → Step
  shakes_hands : Fault → (now id : ℕ) → (fits : Bool) → Auth → Step
  pairs : Fault → (name platform : String) → Draw → Step
  revokes : Fault → (device_id : String) → Step
  closes : (gone : Bool) (id : ℕ) → Step
  leaves : (id : ℕ) → Step

-- One step of a server.
unfoldable pub step : (String → String) → Server → Step → Server
unfolding handshake_at revoke_device new_peer at_peer shut leave issue
step hash_token s (connects websocket id source) = record s {
  peers = s.peers ++ new_peer websocket id source s.peers ∷ [];
}
step hash_token s (shakes_hands fault now id fits auth) =
    handshake_at hash_token fault now id fits auth s [] s.peers
step hash_token s (pairs fault name platform draw) = record s {
  store = (issue hash_token fault s.store name platform draw).0;
}
step hash_token s (revokes fault d) = revoke_device fault s d
step hash_token s (closes gone id) = record s { peers = at_peer (shut gone) id s.peers }
step hash_token s (leaves id) = record s { peers = at_peer leave id s.peers }

-- Whether `handle` hands the other methods of a connection on. It does not look at `_closed`, and
-- frames that were read into the buffer before `close` are still taken from there.
unfoldable pub dispatches : Peer → Bool
dispatches p = p.handshaken && not p.reject_busy
