-- ===== src/Pairing/Devices/Tokens.antt =====
-- Which tokens a device store accepts.
use aeloon_runtime.Prelude.{
  ◌≡◌, refl, sym, ap, ◌∙◌, String, true, false, none, some, List, [], ◌∷◌, ◌++◌, ok, err, arith,
  if◌then◌else◌, str_eq, eq_iff, eq_refl,
}
use aeloon_runtime.Pairing.Devices.{
  Device, DeviceStore, Fault, no_fault, before_replace, after_replace, os_error, Draw, new_device,
  issue, verify, find_token, find_device, get, others, revoke, save, pop-append,
}

find_token-append :
    (digest : String) (ds : List Device) (d : Device)
    → find_token digest ds ≡ none
    → str_eq d.token_sha256 digest ≡ true
    → find_token digest (ds ++ d ∷ []) ≡ some d
unfolding find_token
find_token-append digest [] d h e = ground arith
find_token-append digest (x ∷ ds) d h e = ground (arith, find_token-append digest ds d)

module _ (hash_token : String → String) where
  -- A pairing that is saved returns its device and token, and from then on the token is accepted as
  -- that device, if it was not accepted before.
  verify-issue :
      (s : DeviceStore) (name platform : String) (draw : Draw)
      → verify hash_token s draw.token ≡ none
      → let (s', result) = issue hash_token no_fault s name platform draw in
        (result ≡ ok (new_device hash_token name platform draw, draw.token))
        × (verify hash_token s' draw.token ≡ some (new_device hash_token name platform draw))
  unfolding issue verify new_device
  verify-issue s name platform draw h = (
    refl,
    find_token-append (hash_token draw.token) s.devices (new_device hash_token name platform draw) h
        (eq_refl (hash_token draw.token)),
  )

  -- A pairing that raises leaves the devices in memory as they were, and every token is accepted or
  -- refused as before.
  pub issue-fails :
      (s : DeviceStore) (fault : Fault) (name platform token : String) (draw : Draw)
      → (issue hash_token fault s name platform draw).1 ≡ err os_error
      → ((issue hash_token fault s name platform draw).0.devices ≡ s.devices)
        × (verify hash_token (issue hash_token fault s name platform draw).0 token
            ≡ verify hash_token s token)
  unfolding issue verify save
  issue-fails s no_fault name platform token draw h = cc
  issue-fails s before_replace name platform token draw h =
      let back = pop-append s.devices (new_device hash_token name platform draw) in
      (back, ap (find_token (hash_token token)) back)
  issue-fails s after_replace name platform token draw h =
      let back = pop-append s.devices (new_device hash_token name platform draw) in
      (back, ap (find_token (hash_token token)) back)

-- Devices with the id are gone.
others-find_device :
    (k j : String) (ds : List Device)
    → find_device j (others k ds) ≡ (if str_eq k j then none else find_device j ds)
unfolding find_device others
others-find_device k j [] = ground arith
others-find_device k j (d ∷ ds) =
    ground (arith, others-find_device k j ds, eq_iff d.id k, eq_iff d.id j, eq_iff k j)

others-find_token :
    (digest k : String) (ds : List Device) (d : Device)
    → find_token digest (others k ds) ≡ some d
    → str_eq d.id k ≡ false
unfolding find_token others
others-find_token digest k [] d h = cc
others-find_token digest k (x ∷ ds) d h = ground (arith, others-find_token digest k ds d)

revoke-done :
    (s : DeviceStore) (fault : Fault) (k : String)
    → (revoke fault s k).1 ≡ ok true
    → (revoke fault s k).0.devices ≡ others k s.devices
unfolding revoke
revoke-done s fault k done = ground arith

-- After a revocation that returns true, a device as which a token is accepted is not the revoked
-- one; the revoked id finds no device, and every other id the device that it found before.
pub revoke-revokes :
    (hash_token : String → String) (s : DeviceStore) (fault : Fault) (k token other : String)
    (d : Device)
    → (revoke fault s k).1 ≡ ok true
    → verify hash_token (revoke fault s k).0 token ≡ some d
    → (str_eq d.id k ≡ false)
      × (get (revoke fault s k).0 other ≡ (if str_eq k other then none else get s other))
unfolding verify get
revoke-revokes hash_token s fault k token other d done accepted =
    let left : (revoke fault s k).0.devices ≡ others k s.devices = revoke-done s fault k done in
    (
      others-find_token (hash_token token) k s.devices d
          (ap (find_token (hash_token token)) (sym left) ∙ accepted),
      ap (find_device other) left ∙ others-find_device k other s.devices,
    )
