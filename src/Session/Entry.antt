-- ===== src/Session/Entry.antt =====
-- The entries of a session file: the dictionaries that the `append_...` methods of session.py
-- build, with a payload for each value of "type". A timestamp is what `_timestamp_ms` reads in it,
-- in milliseconds; run inputs, configurations, artifacts and details are kept as JSON text.
use aeloon_runtime.Prelude.{ℕ, String, Bool, true, false, Option, List, truthy, is_empty, not}
use aeloon_runtime.Messages.{Usage, AgentMessage}

pub record Compaction : Type 0 where
  pub summary : String
  pub tokens_before : ℕ
  pub from_hook : Bool
  pub first_kept_entry_id : Option String
  pub retained_tail : List AgentMessage
  pub usage : Option Usage
  pub details : Option String

pub record BranchSummary : Type 0 where
  pub from_id : String
  pub summary : String
  pub from_hook : Bool
  pub usage : Option Usage
  pub details : Option String

pub data Payload : Type 0 where
  message : AgentMessage → Payload
  model_change : (provider model_id : String) → Payload
  thinking_level_change : String → Payload
  active_tools_change : List String → Payload
  compaction : Compaction → Payload
  branch_summary : BranchSummary → Payload
  custom_message : (custom_type content : String) → Bool → Option String → Payload
  run_start : (run_id run_input model_id thinking_level : String) → Payload
  run_end : (run_id status : String) → Option ℕ → Option String → Payload
  artifact_delivery : (run_id tool_call_id artifacts : String) → Payload
  session_config : String → Payload
  next_turn_input : String → Payload
  next_turn_consumed : List String → Payload
  label : String → Option String → Payload
  session_info : Option String → Payload
  leaf : Option String → Payload

pub record Entry : Type 0 where
  pub id : String
  pub parent_id : Option String
  pub timestamp : Option ℕ
  pub payload : Payload

-- `parent_id = current.get("parentId")`, where an empty one ends the path.
abbrev pub parent_of : Entry → Option String
parent_of e = truthy e.parent_id

abbrev pub is_compaction : Payload → Bool
is_compaction (compaction c) = true
is_compaction _ = false

-- `entry.get("retainedTail")` is there and holds a message.
abbrev pub retains_tail : Payload → Bool
retains_tail (compaction c) = not (is_empty c.retained_tail)
retains_tail _ = false
