-- ===== src/Pairing/Devices/Sync.antt =====
-- The file and the memory of a device store, and a restart from the file.
use aeloon_runtime.Prelude.{
  ℕ, ◌≡◌, ◌≢◌, refl, sym, ap, ◌∙◌, subst, String, true, false, some, List, [], ◌∷◌, ◌==◌, is_blank,
  codes, all, length, All, All-append, arith, Bool-cases, Option-cases, inl, inr, str_eq,
}
use aeloon_runtime.Pairing.Devices.{
  Device, DeviceStore, Fault, no_fault, before_replace, after_replace, Draw, save, valid_record,
  is_hex, keep_valid, load, new_device, issue, touch_first, touch, commit, others, revoke,
  pop-append,
}

abbrev AllValid : List Device → Type 0
AllValid = All (λ (d : Device). valid_record d ≡ true)

pub record IsSynced (s : DeviceStore) : Type 0 where
  pub same : s.saved ≡ s.devices
  pub valid : AllValid s.devices

keep_valid-AllValid : (ds : List Device) → AllValid ds → keep_valid ds ≡ ds
unfolding keep_valid
keep_valid-AllValid [] h = refl
keep_valid-AllValid (d ∷ ds) h = ground (arith, keep_valid-AllValid ds h.1)

others-AllValid : (k : String) (ds : List Device) → AllValid ds → AllValid (others k ds)
unfolding others
others-AllValid k [] h = tt
others-AllValid k (d ∷ ds) h = elim (Bool-cases (str_eq d.id k)) [
  | inl gone ↦ rw gone (others-AllValid k ds h.1)
  | inr stays ↦ rw stays (h.0, others-AllValid k ds h.1)
]

seen-valid :
    (d : Device) (now : ℕ)
    → valid_record d ≡ true
    → valid_record (record d { last_seen_at = now }) ≡ true
unfolding valid_record
seen-valid d now h = h

touch_first-AllValid :
    (k : String) (now : ℕ) (ds updated : List Device)
    → AllValid ds
    → touch_first k now ds ≡ some updated
    → AllValid updated
unfolding touch_first
touch_first-AllValid k now [] updated h e = absurd (ground arith)
touch_first-AllValid k now (d ∷ ds) updated h e = elim (Bool-cases (str_eq d.id k)) [
  | inl here ↦
      let same : record d { last_seen_at = now } ∷ ds ≡ updated = ground arith in
      subst AllValid same (seen-valid d now h.0, h.1)
  | inr there ↦ elim (Option-cases (touch_first k now ds)) [
    | inl missing ↦ absurd (ground arith)
    | inr (rest, found) ↦
        let same : d ∷ rest ≡ updated = ground arith in
        subst AllValid same (h.0, touch_first-AllValid k now ds rest h.1 found)
  ]
]

-- Documented facts about what is drawn: a `uuid4` is not blank, and a SHA-256 hexdigest is 64
-- lower-case hexadecimal digits.
pub record IsSound (hash_token : String → String) (draw : Draw) : Type 0 where
  pub named : is_blank draw.id ≡ false
  pub digest_length : length (codes (hash_token draw.token)) ≡ 64
  pub digest_hex : all is_hex (codes (hash_token draw.token)) ≡ true

module _ (hash_token : String → String) where
  new_device-valid :
      (name platform : String) (draw : Draw)
      → IsSound hash_token draw
      → valid_record (new_device hash_token name platform draw) ≡ true
  unfolding valid_record new_device
  new_device-valid name platform draw h = ground (arith, h.named, h.digest_length, h.digest_hex)

  -- Stores that calls and restarts have brought about, where no write failed behind `os.replace`.
  pub data Reached : DeviceStore → Type 0 where
    fresh : Reached (record { devices = []; saved = [] })
    issued :
        {s : DeviceStore} (fault : Fault) (name platform : String) (draw : Draw)
        → fault ≢ after_replace
        → IsSound hash_token draw
        → Reached s
        → Reached (issue hash_token fault s name platform draw).0
    touched :
        {s : DeviceStore} (fault : Fault) (device_id : String) (now : ℕ)
        → fault ≢ after_replace
        → Reached s
        → Reached (touch fault s device_id now).0
    revoked :
        {s : DeviceStore} (fault : Fault) (device_id : String)
        → fault ≢ after_replace
        → Reached s
        → Reached (revoke fault s device_id).0
    restarted : {s : DeviceStore} → Reached s → Reached (load s)

  issue-IsSynced :
      (s : DeviceStore) (fault : Fault) (name platform : String) (draw : Draw)
      → fault ≢ after_replace
      → IsSound hash_token draw
      → IsSynced s
      → IsSynced (issue hash_token fault s name platform draw).0
  unfolding issue save
  issue-IsSynced s no_fault name platform draw f d h = record {
    same = refl;
    valid =
        All-append _ s.devices (new_device hash_token name platform draw ∷ []) h.valid
          (new_device-valid name platform draw d, tt);
  }
  issue-IsSynced s before_replace name platform draw f d h =
      let back = pop-append s.devices (new_device hash_token name platform draw) in
      record { same = h.same ∙ sym back; valid = subst (All _) (sym back) h.valid }
  issue-IsSynced s after_replace name platform draw f d h = absurd (f refl)

commit-IsSynced :
    (fault : Fault) (s : DeviceStore) (updated : List Device)
    → fault ≢ after_replace
    → IsSynced s
    → AllValid updated
    → IsSynced (commit fault s updated).0
unfolding commit
commit-IsSynced no_fault s updated f h v = record { same = refl; valid = v }
commit-IsSynced before_replace s updated f h v = h
commit-IsSynced after_replace s updated f h v = absurd (f refl)

touch-IsSynced :
    (s : DeviceStore) (fault : Fault) (k : String) (now : ℕ)
    → fault ≢ after_replace
    → IsSynced s
    → IsSynced (touch fault s k now).0
unfolding touch
touch-IsSynced s fault k now f h = elim (Option-cases (touch_first k now s.devices)) [
  | inl missing ↦ rw (missing, touch) h
  | inr (updated, found) ↦
      rw (found, touch)
        (commit-IsSynced fault s updated f h
          (touch_first-AllValid k now s.devices updated h.valid found))
]

revoke-IsSynced :
    (s : DeviceStore) (fault : Fault) (k : String)
    → fault ≢ after_replace
    → IsSynced s
    → IsSynced (revoke fault s k).0
unfolding revoke
revoke-IsSynced s fault k f h =
    elim (Bool-cases (length (others k s.devices) == length s.devices)) [
      | inl same ↦ rw (same, revoke) h
      | inr fewer ↦
          rw (fewer, revoke)
            (commit-IsSynced fault s (others k s.devices) f h (others-AllValid k s.devices h.valid))
    ]

load-id : (s : DeviceStore) → IsSynced s → load s ≡ s
unfolding load
load-id s h = λ i. record {
  devices = (ap keep_valid h.same ∙ keep_valid-AllValid s.devices h.valid) i;
  saved = s.saved;
}

Reached-IsSynced :
    (hash_token : String → String) {s : DeviceStore} → Reached hash_token s → IsSynced s
Reached-IsSynced hash_token fresh = record { same = refl; valid = tt }
Reached-IsSynced hash_token (issued {s = s} fault name platform draw f d r) =
    issue-IsSynced hash_token s fault name platform draw f d (Reached-IsSynced hash_token r)
Reached-IsSynced hash_token (touched {s = s} fault k now f r) =
    touch-IsSynced s fault k now f (Reached-IsSynced hash_token r)
Reached-IsSynced hash_token (revoked {s = s} fault k f r) =
    revoke-IsSynced s fault k f (Reached-IsSynced hash_token r)
Reached-IsSynced hash_token (restarted {s = s} r) =
    let h : IsSynced s = Reached-IsSynced hash_token r in subst IsSynced (sym (load-id s h)) h

-- Whatever calls were made, failing ones included, as long as no write failed behind the
-- replacement of the file: a restart finds exactly the devices that the store has.
pub restart_keeps :
    (hash_token : String → String) (s : DeviceStore) → Reached hash_token s → load s ≡ s
restart_keeps hash_token s r = load-id s (Reached-IsSynced hash_token r)
