-- ===== src/Session/Calls.antt =====
-- The methods of `Session` that append one kind of entry or read the entries.
use aeloon_runtime.Prelude.{
  ℕ, String, Bool, true, false, Option, none, some, List, [], ◌∷◌, take, drop, lookup, str_eq,
  strip, truthy, if◌then◌else◌,
}
use aeloon_runtime.Messages.{AgentMessage}
use aeloon_runtime.Session.Entry.{
  Entry, Payload, Compaction, BranchSummary, message, model_change, thinking_level_change,
  active_tools_change, compaction, branch_summary, custom_message, run_start, run_end,
  artifact_delivery, session_config, next_turn_input, next_turn_consumed, label, session_info,
}
use aeloon_runtime.Session.State.{Session, Draw, append_entry}

abbrev pub Append : Type 0
Append = Session → Draw → Session × String

unfoldable pub append_message : AgentMessage → Append
append_message m s draw = append_entry s draw false (message m)

unfoldable pub append_model_change : String → String → Append
append_model_change provider model_id s draw =
    append_entry s draw true (model_change provider model_id)

unfoldable pub append_thinking_level_change : String → Append
append_thinking_level_change level s draw = append_entry s draw true (thinking_level_change level)

unfoldable pub append_active_tools_change : List String → Append
append_active_tools_change names s draw = append_entry s draw true (active_tools_change names)

-- `firstKeptEntryId` is written only if it is not empty.
unfoldable pub append_compaction : Compaction → Append
append_compaction c s draw =
    append_entry s draw false
      (compaction (record c { first_kept_entry_id = truthy c.first_kept_entry_id }))

unfoldable pub append_branch_summary : BranchSummary → Append
append_branch_summary b s draw = append_entry s draw false (branch_summary b)

unfoldable pub append_custom_message : String → String → Bool → Option String → Append
append_custom_message custom_type content display details s draw =
    append_entry s draw false (custom_message custom_type content display details)

unfoldable pub append_run_start : String → String → String → String → Append
append_run_start run_id run_input model_id thinking_level s draw =
    append_entry s draw false (run_start run_id run_input model_id thinking_level)

-- An empty error is not written.
unfoldable pub append_run_end : String → String → Option ℕ → Option String → Append
append_run_end run_id status duration_ms error s draw =
    append_entry s draw true (run_end run_id status duration_ms (truthy error))

unfoldable pub append_artifact_delivery : String → String → String → Append
append_artifact_delivery run_id tool_call_id artifacts s draw =
    append_entry s draw false (artifact_delivery run_id tool_call_id artifacts)

unfoldable pub append_session_config : String → Append
append_session_config config s draw = append_entry s draw true (session_config config)

unfoldable pub append_next_turn_input : String → Append
append_next_turn_input turn_input s draw = append_entry s draw false (next_turn_input turn_input)

unfoldable pub append_next_turn_consumed : List String → Append
append_next_turn_consumed entry_ids s draw =
    append_entry s draw false (next_turn_consumed entry_ids)

unfoldable pub set_name : Option String → Append
set_name name s draw = append_entry s draw true (session_info name)

-- `get_entry`
unfoldable pub get_entry : Session → String → Option Entry
get_entry s entry_id = lookup s.by_id entry_id

-- `get_entries(after_entry_seq=..., limit=...)`
unfoldable pub get_entries : Session → ℕ → Option ℕ → List Entry
get_entries s after_entry_seq limit = elim limit [
  | none ↦ drop after_entry_seq s.entries
  | some n ↦ take n (drop after_entry_seq s.entries)
]

-- `str(value).strip() if value else None`
abbrev pub stripped : Option String → Option String
stripped none = none
stripped (some value) = if str_eq value "" then none else some (strip value)

label_for : String → Payload → Option String → Option String
label_for target_id (label target text) found =
    if str_eq target target_id then stripped text else found
label_for target_id _ found = found

last_label : String → List Entry → Option String → Option String
last_label target_id [] found = found
last_label target_id (e ∷ rest) found =
    last_label target_id rest (label_for target_id e.payload found)

-- `get_label`: the latest label entry of the target counts.
unfoldable pub get_label : Session → String → Option String
unfolding last_label label_for
get_label s target_id = last_label target_id s.entries none

name_from : Payload → Option String → Option String
name_from (session_info name) found = stripped name
name_from _ found = found

last_name : List Entry → Option String → Option String
last_name [] found = found
last_name (e ∷ rest) found = last_name rest (name_from e.payload found)

-- `get_name`: the last "session_info" entry counts.
unfoldable pub get_name : Session → Option String
unfolding last_name name_from
get_name s = last_name s.entries none
