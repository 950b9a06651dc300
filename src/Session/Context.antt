-- ===== src/Session/Context.antt =====
-- `Session.build_context`: the messages and the settings that a branch stands for.
-- A user message that it makes carries the time of the call, which nothing reads: here 0.
pub mod Ordering
pub mod Growth
pub mod Boundaries
use aeloon_runtime.Prelude.{
  ℕ, String, Bool, false, Option, none, some, List, [], ◌∷◌, ◌++◌, ◌&&◌, not, str_eq, any, length,
  if◌then◌else◌, concat,
}
use aeloon_runtime.Messages.{AgentMessage, plain}
use aeloon_runtime.Session.Entry.{
  Entry, Payload, message, custom_message, compaction, branch_summary, thinking_level_change,
  model_change, active_tools_change, is_compaction, retains_tail,
}
use aeloon_runtime.Session.Tree.{Index, Outcome, ◌>>=◌, returned, get_branch, get_full_branch}
use aeloon_runtime.Stats.Estimate.{Boundary}

abbrev pub compaction_summary_prefix : String
compaction_summary_prefix =
    "The conversation history before this point was compacted into the following summary:\n\n<summary>\n"

abbrev pub compaction_summary_suffix : String
compaction_summary_suffix = "\n</summary>"

abbrev pub branch_summary_prefix : String
branch_summary_prefix =
    "The following is a summary of a branch that this conversation came back from:\n\n<summary>\n"

abbrev pub branch_summary_suffix : String
branch_summary_suffix = "</summary>"

-- `UserMessage(text)`
abbrev pub user_text : String → AgentMessage
user_text text = AgentMessage.user (record { content = plain text; timestamp = 0 })

-- What the loop over the state branch finds.
pub record Settings : Type 0 where
  pub thinking_level : Option String
  pub model : Option (String × String)
  pub active_tool_names : Option (List String)

message_model : AgentMessage → Option (String × String) → Option (String × String)
message_model (AgentMessage.assistant m) model = some (m.provider, m.model)
message_model _ model = model

apply_setting : Settings → Payload → Settings
unfolding message_model
apply_setting s (thinking_level_change level) = record s {
  thinking_level = some (if str_eq level "" then "off" else level);
}
apply_setting s (model_change provider model_id) = record s { model = some (provider, model_id) }
apply_setting s (active_tools_change names) = record s { active_tool_names = some names }
apply_setting s (message m) = record s { model = message_model m s.model }
apply_setting s _ = s

unfoldable pub settings_of : Settings → List Entry → Settings
unfolding apply_setting
settings_of s [] = s
settings_of s (e ∷ rest) = settings_of (apply_setting s e.payload) rest

-- The messages that an entry adds to the context.
unfoldable pub entry_messages : Payload → List AgentMessage
entry_messages (message m) = m ∷ []
entry_messages (custom_message kind content display details) = user_text content ∷ []
entry_messages (compaction c) =
    user_text (concat (compaction_summary_prefix ∷ c.summary ∷ compaction_summary_suffix ∷ []))
    ∷ c.retained_tail
entry_messages (branch_summary b) =
    if str_eq b.summary ""
    then []
    else user_text (concat (branch_summary_prefix ∷ b.summary ∷ branch_summary_suffix ∷ [])) ∷ []
entry_messages _ = []

-- A branch around its last entry that passes a test.
pub record Split : Type 0 where
  pub before : List Entry
  pub entry : Entry
  pub after : List Entry

-- The search over `range(len(branch) - 1, -1, -1)` finds the last entry that passes.
unfoldable pub split_last : (Payload → Bool) → List Entry → Option Split
split_last test [] = none
split_last test (e ∷ rest) = elim (split_last test rest) [
  | some s ↦ some (record s { before = e ∷ s.before })
  | none ↦ if test e.payload then some (record { before = []; entry = e; after = rest }) else none
]

abbrev pub moves_first : Payload → Bool
moves_first p = is_compaction p && not (retains_tail p)

-- `ordered_branch`, and the entries behind `latest_compaction_index` if there is one. The last
-- compaction without a retained tail moves to the front.
pub record Order : Type 0 where
  pub ordered : List Entry
  pub post_compaction : Option (List Entry)

unfoldable pub order : List Entry → Order
unfolding split_last
order branch = elim (split_last moves_first branch) [
  | some s ↦ record { ordered = s.entry ∷ s.before ++ s.after; post_compaction = some s.after }
  | none ↦ record {
    ordered = branch;
    post_compaction = elim (split_last is_compaction branch) [
      | some s ↦ some s.after
      | none ↦ none
    ];
  }
]

-- `str(entry.get("id")) in post_compaction_ids`
abbrev pub is_post : Option (List Entry) → Entry → Bool
is_post none e = false
is_post (some after) e = any (λ (p : Entry). str_eq p.id e.id) after

pub record Context : Type 0 where
  pub messages : List AgentMessage
  pub boundary : Boundary

-- `fresh_from` is `compaction_boundary_index + 1`, and is set at the first entry behind the
-- compaction (`fresh_context_started`).
abbrev pub start_fresh : Option (List Entry) → Entry → Context → Boundary
start_fresh post e c = elim c.boundary.fresh_from [
  | some n ↦ c.boundary
  | none ↦
      if is_post post e
      then record { after_ms = c.boundary.after_ms; fresh_from = some (length c.messages) }
      else c.boundary
]

abbrev pub compaction_time : Entry → Option ℕ → Option ℕ
compaction_time e before = if is_compaction e.payload then e.timestamp else before

unfoldable pub add_entry : Option (List Entry) → Context → Entry → Context
unfolding entry_messages
add_entry post c e =
    let b = start_fresh post e c in
    record {
      messages = c.messages ++ entry_messages e.payload;
      boundary = record { after_ms = compaction_time e b.after_ms; fresh_from = b.fresh_from };
    }

unfoldable pub add_entries : Option (List Entry) → Context → List Entry → Context
unfolding add_entry
add_entries post c [] = c
add_entries post c (e ∷ rest) = add_entries post (add_entry post c e) rest

-- With a compaction and no entry behind it, the whole context is older.
abbrev pub close_context : Option (List Entry) → Context → Context
close_context none c = c
close_context (some after) c = elim c.boundary.fresh_from [
  | some n ↦ c
  | none ↦ record c {
    boundary = record { after_ms = c.boundary.after_ms; fresh_from = some (length c.messages) };
  }
]

abbrev pub empty_context : Context
empty_context = record { messages = []; boundary = record { after_ms = none; fresh_from = none } }

unfoldable pub assemble : Order → Context
unfolding add_entries
assemble o = close_context o.post_compaction (add_entries o.post_compaction empty_context o.ordered)

unfoldable pub context_of : List Entry → Context
unfolding order assemble
context_of branch = assemble (order branch)

pub record SessionContext : Type 0 where
  pub context : Context
  pub settings : Settings

abbrev pub no_settings : Settings
no_settings = record { thinking_level = none; model = none; active_tool_names = none }

unfoldable pub build_context : Index → Option String → Outcome SessionContext
build_context d leaf_id = do
  branch ← get_branch d leaf_id
  state_branch ← get_full_branch d leaf_id
  returned (record { context = context_of branch; settings = settings_of no_settings state_branch })
