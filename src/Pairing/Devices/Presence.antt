-- ===== src/Pairing/Devices/Presence.antt =====
-- Which devices a store holds, over the calls that change it.
use aeloon_runtime.Prelude.{
  ℕ, ◌≡◌, refl, ap, ◌∙◌, String, Bool, true, false, none, some, List, [], ◌∷◌, ◌++◌, arith,
  Option-cases, inl, inr, err, str_eq, eq_iff, eq_refl,
}
use aeloon_runtime.Pairing.Devices.{
  Device, DeviceStore, SaveError, Fault, no_fault, before_replace, after_replace, Draw, new_device,
  issue, verify, find_token, find_device, others, revoke, save, pop-append, commit, touch,
  touch_first,
}

pub holds_device : List Device → String → Bool
holds_device ds id = elim (find_device id ds) [ none ↦ false | some d ↦ true ]

pub is_paired : DeviceStore → String → Bool
is_paired s id = holds_device s.devices id

found_here :
    (digest : String) (ds : List Device) (d : Device)
    → find_token digest ds ≡ some d
    → holds_device ds d.id ≡ true
unfolding find_token holds_device find_device
found_here digest [] d h = cc
found_here digest (x ∷ ds) d h = ground (arith, found_here digest ds d, eq_refl d.id)

pub verify-is_paired :
    (hash_token : String → String) (s : DeviceStore) (token : String) (d : Device)
    → verify hash_token s token ≡ some d
    → is_paired s d.id ≡ true
unfolding verify is_paired
verify-is_paired hash_token s token d h = found_here (hash_token token) s.devices d h

others-holds :
    (k j : String) (ds : List Device)
    → str_eq k j ≡ false
    → holds_device (others k ds) j ≡ holds_device ds j
unfolding others holds_device find_device
others-holds k j [] h = refl
others-holds k j (d ∷ ds) h =
    ground (arith, others-holds k j ds, eq_iff d.id k, eq_iff d.id j, eq_iff k j)

-- A revocation leaves every other device where it is, however it comes out.
pub revoke-is_paired :
    (fault : Fault) (s : DeviceStore) (k j : String)
    → str_eq k j ≡ false
    → is_paired (revoke fault s k).0 j ≡ is_paired s j
unfolding revoke is_paired commit save
revoke-is_paired no_fault s k j h = ground (arith, others-holds k j s.devices)
revoke-is_paired before_replace s k j h = ground arith
revoke-is_paired after_replace s k j h = ground arith

-- One that raises leaves all of them.
pub revoke_fails-is_paired :
    (fault : Fault) (s : DeviceStore) (k j : String) (e : SaveError)
    → (revoke fault s k).1 ≡ err e
    → is_paired (revoke fault s k).0 j ≡ is_paired s j
unfolding revoke is_paired commit save
revoke_fails-is_paired no_fault s k j e h = ground arith
revoke_fails-is_paired before_replace s k j e h = ground arith
revoke_fails-is_paired after_replace s k j e h = ground arith

touched-holds :
    (k j : String) (now : ℕ) (ds updated : List Device)
    → touch_first k now ds ≡ some updated
    → holds_device updated j ≡ holds_device ds j
unfolding touch_first holds_device find_device
touched-holds k j now [] updated h = cc
touched-holds k j now (d ∷ ds) updated h = elim (Option-cases (touch_first k now ds)) [
  | inl nowhere ↦ ground (arith, eq_iff d.id k, eq_iff d.id j)
  | inr (rest, there) ↦ ground (arith, touched-holds k j now ds rest, eq_iff d.id k, eq_iff d.id j)
]

pub touch-is_paired :
    (fault : Fault) (s : DeviceStore) (k j : String) (now : ℕ)
    → is_paired (touch fault s k now).0 j ≡ is_paired s j
unfolding touch is_paired commit save
touch-is_paired fault s k j now = elim (Option-cases (touch_first k now s.devices)) [
  | inl nowhere ↦ ground arith
  | inr (updated, there) ↦ ground (arith, touched-holds k j now s.devices updated)
]

append-holds :
    (ds : List Device) (d : Device) (j : String)
    → holds_device ds j ≡ true
    → holds_device (ds ++ d ∷ []) j ≡ true
unfolding holds_device find_device
append-holds [] d j h = cc
append-holds (x ∷ ds) d j h = ground (arith, append-holds ds d j)

-- A pairing takes no device away.
pub issue-is_paired :
    (hash_token : String → String) (fault : Fault) (s : DeviceStore) (name platform : String)
    (draw : Draw) (j : String)
    → is_paired s j ≡ true
    → is_paired (issue hash_token fault s name platform draw).0 j ≡ true
unfolding issue is_paired save
issue-is_paired hash_token no_fault s name platform draw j h =
    append-holds s.devices (new_device hash_token name platform draw) j h
issue-is_paired hash_token before_replace s name platform draw j h =
    ap (λ ds. holds_device ds j) (pop-append s.devices (new_device hash_token name platform draw))
    ∙ h
issue-is_paired hash_token after_replace s name platform draw j h =
    ap (λ ds. holds_device ds j) (pop-append s.devices (new_device hash_token name platform draw))
    ∙ h
