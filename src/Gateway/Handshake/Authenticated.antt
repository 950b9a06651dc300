-- ===== src/Gateway/Handshake/Authenticated.antt =====
-- Whose requests a server handles.
use aeloon_runtime.Prelude.{
  ℕ, ◌≡◌, refl, ◌∙◌, inl, inr, String, Bool, true, false, none, some, List, [], ◌∷◌, ◌++◌, ◌&&◌,
  ◌||◌, not, arith, Bool-cases, Option-cases, subst, Result, ok, err, eq_iff, fold, fold_inv,
  if_cases, get_elem?, All, All-append, All-get_elem?, ◌==◌, truthy,
}
use aeloon_runtime.Pairing.Devices.{Device, DeviceStore, touch, SaveError, Fault, verify, revoke}
use aeloon_runtime.Pairing.Devices.Presence.{
  is_paired, verify-is_paired, touch-is_paired, revoke-is_paired, revoke_fails-is_paired,
  issue-is_paired,
}
use aeloon_runtime.Pairing.Limiter.{AuthLimiter, record_success}
use aeloon_runtime.Gateway.Handshake.{
  Peer, Server, Auth, no_auth, other_scheme, device_token, HandshakeError, protocol_incompatible,
  internal_error, busy, unauthorized, is_device, Outcome, has_room, accept_device,
  accept_device_token, refuse, is_some, authenticate, settle, handshake, handshake_at, mark_device,
  revoke_device, new_peer, shut, leave, at_peer, after_revoke, Step, connects, shakes_hands, pairs,
  revokes, closes, leaves, step, dispatches,
}

-- The device of an open connection is paired, and the connection is one of the server's.
device_ok : DeviceStore → Peer → Bool
device_ok store p = elim p.device_id [ none ↦ true | some d ↦ p.connected && is_paired store d ]

-- A connection that needs authentication and has shaken hands has a device.
has_authenticated : Peer → Bool
has_authenticated p =
    not (p.requires_auth && p.handshaken) || (elim p.device_id [ none ↦ false | some d ↦ true ])

IsAuthentic : DeviceStore → Peer → Type 0
IsAuthentic store p =
    (not p.is_open || p.closing || (device_ok store p && has_authenticated p)) ≡ true

-- A store that has at least the devices of another one.
Keeps : DeviceStore → DeviceStore → Type 0
Keeps store store' = (d : String) → is_paired store d ≡ true → is_paired store' d ≡ true

IsAuthentic-Keeps :
    (store store' : DeviceStore) (p : Peer)
    → Keeps store store'
    → IsAuthentic store p
    → IsAuthentic store' p
unfolding IsAuthentic device_ok Keeps
IsAuthentic-Keeps store store' p k h = elim (Option-cases p.device_id) [
  | inl nobody ↦ ground arith
  | inr (d, somebody) ↦ ground (arith, k d)
]

All-Keeps :
    (store store' : DeviceStore) (ps : List Peer)
    → Keeps store store'
    → All (IsAuthentic store) ps
    → All (IsAuthentic store') ps
All-Keeps store store' [] k h = tt
All-Keeps store store' (p ∷ ps) k h =
    (IsAuthentic-Keeps store store' p k h.0, All-Keeps store store' ps k h.1)

-- A store keeps its devices, and a connection is authentic beside it.
abbrev Left : DeviceStore → DeviceStore × AuthLimiter × Peer → Type 0
Left store (store', limiter, p) = Keeps store store' × IsAuthentic store' p

-- What the outcome of a call leaves once `handle` has seen it.
Sound : DeviceStore → Outcome → Type 0
Sound store o = Left store (settle o)

Sound-refuse :
    (now : ℕ) (store : DeviceStore) (limiter : AuthLimiter) (p : Peer)
    (result : Result HandshakeError (Unit {0}))
    → IsAuthentic store p
    → Sound store (refuse now (store, limiter, p, result))
unfolding Sound refuse settle IsAuthentic Keeps
Sound-refuse now store limiter p result h = (λ j hj. ground arith, ground arith)

Sound-incompatible :
    (s : Server) (p : Peer)
    → IsAuthentic s.store p
    → Sound s.store (s.store, s.limiter, p, err protocol_incompatible)
unfolding Sound settle IsAuthentic Keeps
Sound-incompatible s p h = (λ d hd. hd, ground arith)

abbrev pub no_peers : DeviceStore → AuthLimiter → Server
no_peers store limiter = record { store = store; limiter = limiter; peers = [] }

abbrev Authentic : Server → Type 0
Authentic s = All (IsAuthentic s.store) s.peers

-- A connection that has claimed a paired device, whether or not the use of the device was saved.
Sound-claimed :
    (store store' : DeviceStore) (limiter : AuthLimiter) (p : Peer) (d : String)
    → Keeps store store'
    → is_paired store' d ≡ true
    → Sound store (store', limiter, record p { device_id = some d; connected = true }, ok tt)
      × Sound store
          (store', limiter, record p { device_id = some d; connected = true }, err internal_error)
unfolding Sound settle IsAuthentic device_ok has_authenticated
Sound-claimed store store' limiter p d k paired = ((k, ground arith), (k, ground arith))

Sound-busy :
    (store : DeviceStore) (limiter : AuthLimiter) (p : Peer)
    → IsAuthentic store p
    → Sound store (store, limiter, record p { device_id = none }, err busy)
unfolding Sound settle IsAuthentic device_ok has_authenticated Keeps
Sound-busy store limiter p h = (λ d hd. hd, ground arith)

module _ (hash_token : String → String) where
  Sound-accept_device :
      (fault : Fault) (now : ℕ) (s : Server) (others : List Peer) (p : Peer) (d : Device)
      → is_paired s.store d.id ≡ true
      → IsAuthentic s.store p
      → Sound s.store (accept_device hash_token fault now s others p d)
  unfolding accept_device Keeps
  Sound-accept_device fault now s others p d paired h =
      let store' = (touch fault s.store d.id now).0 in
      let same : (j : String) → is_paired store' j ≡ is_paired s.store j =
        λ j. touch-is_paired fault s.store d.id j now in
      let claimed = λ (limiter : AuthLimiter).
        Sound-claimed s.store store' limiter p d.id (λ j hj. same j ∙ hj) (same d.id ∙ paired) in
      elim (Bool-cases (has_room d.id (record p { device_id = some d.id }) others)) [
        | inl room ↦ elim (Bool-cases (touch fault s.store d.id now).1) [
          | inl saved ↦ rw (room, saved) (claimed (record_success s.limiter p.source)).0
          | inr unsaved ↦ rw (room, unsaved) (claimed s.limiter).1
        ]
        | inr full ↦ rw full (Sound-busy s.store s.limiter p h)
      ]

  Sound-let_in :
      (now : ℕ) (s : Server) (p : Peer)
      → p.requires_auth && not (is_some p.device_id) ≡ false
      → IsAuthentic s.store p
      → Sound s.store (s.store, s.limiter, p, ok tt)
  unfolding Sound settle IsAuthentic Keeps device_ok has_authenticated is_some
  Sound-let_in now s p allowed h = (λ j hj. hj, ground arith)

  Sound-authenticate :
      (fault : Fault) (now : ℕ) (s : Server) (others : List Peer) (p : Peer) (auth : Auth)
      → IsAuthentic s.store p
      → Sound s.store (authenticate hash_token fault now s others p auth)
  unfolding authenticate accept_device_token accept_device
  Sound-authenticate fault now s others p no_auth h =
      elim (Bool-cases (p.requires_auth && not (is_some p.device_id))) [
        | inl missing ↦ ground (arith, Sound-refuse now s.store s.limiter p (err unauthorized) h)
        | inr allowed ↦ ground (arith, Sound-let_in now s p allowed h)
      ]
  Sound-authenticate fault now s others p other_scheme h =
      Sound-refuse now s.store s.limiter p (err unauthorized) h
  Sound-authenticate fault now s others p (device_token token) h =
      let refused = Sound-refuse now s.store s.limiter p (err unauthorized) h in
      elim (Option-cases (truthy token)) [
        | inl no_token ↦ ground (arith, refused)
        | inr (t, given) ↦ elim (Option-cases (verify hash_token s.store t)) [
          | inl unknown ↦ ground (arith, refused)
          | inr (d, known) ↦
              let paired = verify-is_paired hash_token s.store t d known in
              ground (arith, Sound-accept_device fault now s others p d paired h)
        ]
      ]

  -- A handshake keeps the devices, and leaves an authentic connection.
  handshake-IsAuthentic :
      (fault : Fault) (now : ℕ) (s : Server) (others : List Peer) (p : Peer) (fits : Bool)
      (auth : Auth)
      → IsAuthentic s.store p
      → Left s.store (handshake hash_token fault now s others p fits auth)
  unfolding handshake Sound Keeps IsAuthentic
  handshake-IsAuthentic fault now s others p fits auth h =
      if_cases (Left s.store) p.reject_busy (s.store, s.limiter, record p { closing = true }) _
        (λ rejected. (λ d hd. hd, ground arith))
        (λ served.
          if_cases (Left s.store) fits (settle (authenticate hash_token fault now s others p auth))
            _ (λ fitting. Sound-authenticate fault now s others p auth h)
            (λ unfit. Sound-incompatible s p h))

  handshake_at-IsAuthentic :
      (fault : Fault) (now id : ℕ) (fits : Bool) (auth : Auth) (s : Server) (front back : List Peer)
      → All (IsAuthentic s.store) s.peers
      → All (IsAuthentic s.store) front
      → All (IsAuthentic s.store) back
      → Authentic (handshake_at hash_token fault now id fits auth s front back)
  unfolding handshake_at
  handshake_at-IsAuthentic fault now id fits auth s front [] h f b = h
  handshake_at-IsAuthentic fault now id fits auth s front (p ∷ back) h f b =
      let kept = handshake-IsAuthentic fault now s (front ++ back) p fits auth b.0 in
      let store' = (handshake hash_token fault now s (front ++ back) p fits auth).0 in
      if_cases Authentic (p.id == id && p.is_open) _ _
        (λ here.
          All-append (IsAuthentic store') front _ (All-Keeps s.store store' front kept.0 f)
            (kept.1, All-Keeps s.store store' back kept.0 b.1))
        (λ later.
          handshake_at-IsAuthentic fault now id fits auth s (front ++ p ∷ []) back h
            (All-append (IsAuthentic s.store) front (p ∷ []) f (b.0, tt)) b.1)

mark_device-IsAuthentic :
    (fault : Fault) (s : DeviceStore) (d : String) (ps : List Peer)
    → All (IsAuthentic s) ps
    → All (IsAuthentic (revoke fault s d).0) (mark_device d ps)
unfolding mark_device is_device IsAuthentic device_ok
mark_device-IsAuthentic fault s d [] h = tt
mark_device-IsAuthentic fault s d (p ∷ ps) h =
    let rest = mark_device-IsAuthentic fault s d ps h.1 in
    elim (Option-cases p.device_id) [
      | inl nobody ↦ (ground arith, rest)
      | inr (j, somebody) ↦
          (ground (arith, revoke-is_paired fault s d j, eq_iff d j, eq_iff j d), rest)
    ]

after_revoke-IsAuthentic :
    (fault : Fault) (s : Server) (d : String) (result : Result SaveError Bool)
    → (revoke fault s.store d).1 ≡ result
    → Authentic s
    → Authentic (after_revoke s (revoke fault s.store d).0 d result)
unfolding after_revoke Keeps
after_revoke-IsAuthentic fault s d (ok revoked) comes_out h =
    mark_device-IsAuthentic fault s.store d s.peers h
after_revoke-IsAuthentic fault s d (err e) comes_out h =
    All-Keeps s.store (revoke fault s.store d).0 s.peers
      (λ j hj. revoke_fails-is_paired fault s.store d j e comes_out ∙ hj) h

shut-IsAuthentic :
    (store : DeviceStore) (gone : Bool) (p : Peer)
    → IsAuthentic store p
    → IsAuthentic store (shut gone p)
unfolding shut IsAuthentic
shut-IsAuthentic store gone p h = ground arith

leave-IsAuthentic :
    (store : DeviceStore) (p : Peer) → IsAuthentic store p → IsAuthentic store (leave p)
unfolding leave IsAuthentic
leave-IsAuthentic store p h = ground arith

at_peer-IsAuthentic :
    (store : DeviceStore) (f : Peer → Peer) (id : ℕ) (ps : List Peer)
    → ((p : Peer) → IsAuthentic store p → IsAuthentic store (f p))
    → All (IsAuthentic store) ps
    → All (IsAuthentic store) (at_peer f id ps)
unfolding at_peer
at_peer-IsAuthentic store f id [] keeps h = tt
at_peer-IsAuthentic store f id (p ∷ ps) keeps h = (
  if_cases (IsAuthentic store) (p.id == id) (f p) p (λ here. keeps p h.0) (λ there. h.0),
  at_peer-IsAuthentic store f id ps keeps h.1,
)

module _ (hash_token : String → String) where
  step-IsAuthentic : (s : Server) (x : Step) → Authentic s → Authentic (step hash_token s x)
  unfolding step revoke_device new_peer IsAuthentic device_ok has_authenticated Keeps
  step-IsAuthentic s (connects websocket id source) h =
      All-append (IsAuthentic s.store) s.peers _ h (ground arith, tt)
  step-IsAuthentic s (shakes_hands fault now id fits auth) h =
      handshake_at-IsAuthentic hash_token fault now id fits auth s [] s.peers h tt h
  step-IsAuthentic s (pairs fault name platform draw) h =
      All-Keeps s.store _ s.peers
        (λ d. issue-is_paired hash_token fault s.store name platform draw d) h
  step-IsAuthentic s (revokes fault d) h =
      after_revoke-IsAuthentic fault s d (revoke fault s.store d).1 refl h
  step-IsAuthentic s (closes gone id) h =
      at_peer-IsAuthentic s.store (shut gone) id s.peers (shut-IsAuthentic s.store gone) h
  step-IsAuthentic s (leaves id) h =
      at_peer-IsAuthentic s.store leave id s.peers (leave-IsAuthentic s.store) h

  -- In every history of connections, handshakes, pairings, revocations and closings, with faults of
  -- the disk at any point, that starts with no connection: whenever a request of a connection that
  -- needs authentication would be handed on, and the connection has not been closed and is not about
  -- to be, it has claimed a device, and the device is paired at that moment.
  pub dispatched_are_paired :
      (store : DeviceStore) (limiter : AuthLimiter) (xs : List Step) (s : Server) (i : ℕ) (p : Peer)
      → fold (step hash_token) (no_peers store limiter) xs ≡ s
      → get_elem? s.peers i ≡ some p
      → dispatches p ≡ true
      → p.is_open ≡ true
      → p.closing ≡ false
      → p.requires_auth ≡ true
      → (d : String) × (p.device_id ≡ some d) × (is_paired s.store d ≡ true)
  unfolding dispatches IsAuthentic device_ok has_authenticated
  dispatched_are_paired store limiter xs s i p leads there served opened stays needs =
      let all =
        fold_inv Authentic (step hash_token) step-IsAuthentic xs (no_peers store limiter) tt in
      let mine =
        All-get_elem? (IsAuthentic s.store) s.peers i p (subst Authentic leads all) there in
      elim (Option-cases p.device_id) [
        | inl nobody ↦ ground arith
        | inr (d, somebody) ↦ (d, somebody, ground arith)
      ]
