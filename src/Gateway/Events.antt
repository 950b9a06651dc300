-- ===== src/Gateway/Events.antt =====
-- The events of `RuntimeServer`: `_on_runtime_event`, which numbers and retains them, and
-- `_subscribe`, which replays them. The schemas of payloads and the substitution in
-- `_snake_case_value` are parameters.
pub mod Replay
pub mod Window
use aeloon_runtime.Prelude.{
  ℕ, ◌+◌, ◌-◌, String, Bool, true, false, Option, none, some, List, [], ◌∷◌, ◌++◌, ◌&&◌, ◌||◌, drop,
  length, leb, ltb, str_eq, contains, is_empty, Result, ok, err, if◌then◌else◌,
}
use aeloon_runtime.Wire.{
  Value, null, bool, number, text, sequence, mapping, other, Items, no_items, item, Fields,
  no_fields, field,
}

-- `d[key] = value`
put_field : String → Value → Fields → Fields
put_field key v no_fields = field key v no_fields
put_field key v (field k w fs) =
    let later = field k w (put_field key v fs) in if str_eq k key then field k v fs else later

find_field : String → Fields → Option Value
find_field key no_fields = none
find_field key (field k v fs) = if str_eq k key then some v else find_field key fs

remove_field : String → Fields → Fields
remove_field key no_fields = no_fields
remove_field key (field k v fs) =
    let later = field k v (remove_field key fs) in if str_eq k key then fs else later

-- `payload[current] = payload.pop(legacy)`, if `legacy` is there
rename_field : String → String → Fields → Fields
unfolding put_field find_field remove_field
rename_field legacy current fs = elim (find_field legacy fs) [
  | none ↦ fs
  | some v ↦ put_field current v (remove_field legacy fs)
]

rename_versions : Value → Value
unfolding rename_field
rename_versions (mapping fs) =
    mapping (
      rename_field "core_commit" "runtime_commit"
        (rename_field "core_version" "runtime_version" fs))
rename_versions v = v

-- The names that events have outside.
public_name : String → String
public_name name =
    if str_eq name "session.compacted"
    then "thread.compacted"
    else if str_eq name "session.navigated"
    then "thread.navigated"
    else if str_eq name "session.renamed"
    then "thread.renamed"
    else if str_eq name "cloud.account.updated"
    then "plugin.cloud.account_updated"
    else name

module _ (snake_key : String → String) where
  -- `_snake_case_value`
  mutual
    unfolding put_field

    pub snake_case_value : Value → Value
    snake_case_value null = null
    snake_case_value (bool b) = bool b
    snake_case_value (number shown is_zero) = number shown is_zero
    snake_case_value (text s) = text s
    snake_case_value (sequence vs) = sequence (snake_case_items vs)
    snake_case_value (mapping fs) = mapping (snake_case_fields no_fields fs)
    snake_case_value (other s) = other s

    pub snake_case_items : Items → Items
    snake_case_items no_items = no_items
    snake_case_items (item v vs) = item (snake_case_value v) (snake_case_items vs)

    pub snake_case_fields : Fields → Fields → Fields
    snake_case_fields done no_fields = done
    snake_case_fields done (field k v fs) =
        snake_case_fields (put_field (snake_key k) (snake_case_value v) done) fs

-- An event as the runtime service emits it.
pub record RuntimeEvent : Type 0 where
  pub time : String
  pub name : String
  pub workspace : Option String
  pub session_id : Option String
  pub operation_id : Option String
  pub payload : Value

-- An event as clients see it.
pub record PublicEvent : Type 0 where
  pub time : String
  pub name : String
  pub workspace : Option String
  pub thread_id : Option String
  pub operation_id : Option String
  pub payload : Value
  pub seq : ℕ

-- The events of a server: `events` are the retained ones, oldest first.
pub record EventLog : Type 0 where
  pub server_instance_id : String
  pub current_seq : ℕ
  pub event_limit : ℕ
  pub events : List PublicEvent

abbrev pub new_log : String → ℕ → EventLog
new_log instance_id limit = record {
  server_instance_id = instance_id;
  current_seq = 0;
  event_limit = limit;
  events = [];
}

-- `deque(maxlen=limit).append`
unfoldable pub append_bounded : ℕ → List PublicEvent → PublicEvent → List PublicEvent
append_bounded limit es e = drop (length es + 1 - limit) (es ++ e ∷ [])

-- What clients see of an event.
pub public_event : (String → String) → RuntimeEvent → ℕ → PublicEvent
unfolding public_name rename_versions snake_case_value snake_case_items snake_case_fields
public_event snake_key raw seq =
    let name = public_name raw.name in
    let payload = snake_case_value snake_key raw.payload in
    record {
      time = raw.time;
      name = name;
      workspace = raw.workspace;
      thread_id = raw.session_id;
      operation_id = raw.operation_id;
      payload = if str_eq name "log.entry" then rename_versions payload else payload;
      seq = seq;
    }

pub data PublishError : Type 0 where
  invalid_event : PublishError

module _ (snake_key : String → String) (valid : String → Value → Bool) where
  -- `_on_runtime_event` up to the store. The number of an event that is refused is used up.
  unfoldable pub publish : EventLog → RuntimeEvent → EventLog × Result PublishError PublicEvent
  unfolding append_bounded
  publish log raw =
      let seq = log.current_seq + 1 in
      let counted = record log { current_seq = seq } in
      let event = public_event snake_key raw seq in
      if valid event.name event.payload
      then (record counted { events = append_bounded log.event_limit log.events event }, ok event)
      else (counted, err invalid_event)

pub record SubscribeParams : Type 0 where
  pub after_seq : ℕ
  pub server_instance_id : Option String
  pub thread_ids : List String

pub record SubscribeResult : Type 0 where
  pub server_instance_id : String
  pub current_seq : ℕ
  pub replay_complete : Bool
  pub events : List PublicEvent

-- Whether a client that asked for some threads, or for all, gets an event.
unfoldable pub wants : List String → PublicEvent → Bool
wants thread_ids e =
    is_empty thread_ids
    || (elim e.thread_id [ none ↦ true | some thread_id ↦ contains thread_ids thread_id ])

abbrev pub keep_if {ℓ} : {A : Type ℓ} → (A → Bool) → List A → List A
keep_if p [] = []
keep_if p (x ∷ xs) = let rest = keep_if p xs in if p x then x ∷ rest else rest

unfoldable pub first_seq : EventLog → ℕ
first_seq log = elim log.events [ [] ↦ log.current_seq + 1 | e ∷ _ ↦ e.seq ]

unfoldable pub same_instance : EventLog → SubscribeParams → Bool
same_instance log params = elim params.server_instance_id [
  | none ↦ true
  | some previous ↦ str_eq previous log.server_instance_id
]

-- `_subscribe`
unfoldable pub subscribe : EventLog → SubscribeParams → SubscribeResult
unfolding first_seq same_instance wants
subscribe log params =
    let complete = same_instance log params && leb (first_seq log - 1) params.after_seq in
    record {
      server_instance_id = log.server_instance_id;
      current_seq = log.current_seq;
      replay_complete = complete;
      events =
          if complete
          then keep_if (λ e. ltb params.after_seq e.seq && wants params.thread_ids e) log.events
          else [];
    }
