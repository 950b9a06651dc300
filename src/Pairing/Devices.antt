-- ===== src/Pairing/Devices.antt =====
-- `DeviceStore` of pairing.py: the paired devices, in memory and in devices-v4.json.
-- SHA-256 is the parameter `hash_token`; times, ids and tokens are drawn outside.
pub mod Sync
pub mod Tokens
pub mod Presence
use aeloon_runtime.Prelude.{
  ◌≡◌, refl, ap, ℕ, ◌+◌, String, Bool, true, false, Option, none, some, List, [], ◌∷◌, ◌++◌, ◌&&◌,
  ◌||◌, not, leb, ◌==◌, str_eq, is_blank, strip, codes, all, length, Result, ok, err, if◌then◌else◌,
}

pub record Device : Type 0 where
  pub id : String
  pub name : String
  pub platform : String
  pub token_sha256 : String
  pub paired_at : ℕ
  pub last_seen_at : ℕ

-- `saved` is what the file holds: the devices of the last write that replaced it.
pub record DeviceStore : Type 0 where
  pub devices : List Device
  pub saved : List Device

-- How a write of the file may fail: before `os.replace`, or behind it.
pub data Fault : Type 0 where
  no_fault before_replace after_replace : Fault

pub data SaveError : Type 0 where
  os_error : SaveError

-- `_save(devices)`: the file, and whether it raised.
pub save : Fault → DeviceStore → List Device → DeviceStore × Bool
save no_fault s ds = (record s { saved = ds }, true)
save before_replace s ds = (s, false)
save after_replace s ds = (record s { saved = ds }, false)

-- `[0-9a-f]{64}`
unfoldable pub is_hex : ℕ → Bool
is_hex c = (leb 48 c && leb c 57) || (leb 97 c && leb c 102)

-- `_valid_record`; the fields are strings here.
unfoldable pub valid_record : Device → Bool
unfolding is_hex
valid_record d =
    not (is_blank d.id) && length (codes d.token_sha256) == 64 && all is_hex (codes d.token_sha256)

keep_valid : List Device → List Device
keep_valid [] = []
keep_valid (d ∷ ds) = let rest = keep_valid ds in if valid_record d then d ∷ rest else rest

-- `load` of a file that `_save` wrote.
unfoldable pub load : DeviceStore → DeviceStore
unfolding keep_valid
load s = record s { devices = keep_valid s.saved }

find_device : String → List Device → Option Device
find_device device_id [] = none
find_device device_id (d ∷ ds) = if str_eq d.id device_id then some d else find_device device_id ds

unfoldable pub get : DeviceStore → String → Option Device
unfolding find_device
get s device_id = find_device device_id s.devices

-- `name.strip() or "device"`
or_default : String → String → String
or_default text default = let t = strip text in if str_eq t "" then default else t

-- What a pairing draws: the id of `uuid4`, a token, and the time.
pub record Draw : Type 0 where
  pub id : String
  pub token : String
  pub now : ℕ

-- The state after a call, and what it returned or raised.
abbrev pub Call : Type 0 → Type 0
Call A = DeviceStore × Result SaveError A

-- `self._devices.pop()`
pub pop : List Device → List Device
pop [] = []
pop (d ∷ []) = []
pop (d ∷ e ∷ rest) = d ∷ pop (e ∷ rest)

find_token : String → List Device → Option Device
find_token digest [] = none
find_token digest (d ∷ ds) = if str_eq d.token_sha256 digest then some d else find_token digest ds

module _ (hash_token : String → String) where
  pub new_device : String → String → Draw → Device
  new_device name platform draw = record {
    id = draw.id;
    name = or_default name "device";
    platform = or_default platform "unknown";
    token_sha256 = hash_token draw.token;
    paired_at = draw.now;
    last_seen_at = draw.now;
  }

  -- `issue`: the record is taken back if it cannot be saved.
  unfoldable pub issue : Fault → DeviceStore → String → String → Draw → Call (Device × String)
  unfolding save pop
  issue fault s name platform draw =
      let d = new_device name platform draw in
      let s' : DeviceStore = (record s { devices = s.devices ++ d ∷ [] }) in
      let (s'', saved) = save fault s' s'.devices in
      if saved
      then (s'', ok (d, draw.token))
      else (record s'' { devices = pop s''.devices }, err os_error)

  unfoldable pub verify : DeviceStore → String → Option Device
  unfolding find_token
  verify s token = find_token (hash_token token) s.devices

-- The first device of that id is seen now.
touch_first : String → ℕ → List Device → Option (List Device)
touch_first device_id now [] = none
touch_first device_id now (d ∷ ds) =
    let rest : Option (List Device) = elim (touch_first device_id now ds) [
      | none ↦ none
      | some r ↦ some (d ∷ r)
    ] in
    if str_eq d.id device_id then some (record d { last_seen_at = now } ∷ ds) else rest

-- `self._save(updated); self._devices = updated`
commit : Fault → DeviceStore → List Device → DeviceStore × Bool
unfolding save
commit fault s updated =
    let (s', saved) = save fault s updated in
    if saved then (record s' { devices = updated }, true) else (s', false)

unfoldable pub touch : Fault → DeviceStore → String → ℕ → DeviceStore × Bool
unfolding touch_first commit
touch fault s device_id now = elim (touch_first device_id now s.devices) [
  | none ↦ (s, true)
  | some updated ↦ commit fault s updated
]

others : String → List Device → List Device
others device_id [] = []
others device_id (d ∷ ds) =
    let rest = others device_id ds in if str_eq d.id device_id then rest else d ∷ rest

unfoldable pub revoke : Fault → DeviceStore → String → Call Bool
unfolding others commit
revoke fault s device_id =
    let updated = others device_id s.devices in
    let (s', saved) = commit fault s updated in
    if length updated == length s.devices
    then (s, ok false)
    else (s', if saved then ok true else err os_error)

pub pop-append : (ds : List Device) (d : Device) → pop (ds ++ d ∷ []) ≡ ds
unfolding pop
pop-append [] d = refl
pop-append (x ∷ []) d = refl
pop-append (x ∷ y ∷ ds) d = ap (λ rest. x ∷ rest) (pop-append (y ∷ ds) d)
