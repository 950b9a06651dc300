-- ===== src/Stats/Buckets.antt =====
-- The dictionaries of context_stats.py that are keyed by `MESSAGE_TYPES`, and `_scale_tokens`.
pub mod Scale
use aeloon_runtime.Prelude.{
  ℕ, zero, suc, ◌+◌, ◌-◌, ◌*◌, ◌/◌, ◌%◌, Bool, true, false, ◌≡◌, List, [], ◌∷◌, ltb, leb, take,
  if◌then◌else◌,
}
use aeloon_runtime.Messages.{AgentMessage}

-- `MESSAGE_TYPES`
pub data MessageType : Type 0 where
  system user assistant tool_result : MessageType

abbrev pub message_types : List MessageType
message_types =
    MessageType.system ∷ MessageType.user ∷ MessageType.assistant ∷ MessageType.tool_result ∷ []

unfoldable pub message_type_for_statistics : AgentMessage → MessageType
message_type_for_statistics (AgentMessage.user m) = MessageType.user
message_type_for_statistics (AgentMessage.assistant m) = MessageType.assistant
message_type_for_statistics (AgentMessage.tool_result m) = MessageType.tool_result

-- A number for each message type.
pub record Tally : Type 0 where
  pub system : ℕ
  pub user : ℕ
  pub assistant : ℕ
  pub tool_result : ℕ

-- `{message_type: 0 for message_type in MESSAGE_TYPES}`
abbrev pub zeros : Tally
zeros = record { system = 0; user = 0; assistant = 0; tool_result = 0 }

-- `d[key]`
abbrev pub at : Tally → MessageType → ℕ
at d MessageType.system = d.system
at d MessageType.user = d.user
at d MessageType.assistant = d.assistant
at d MessageType.tool_result = d.tool_result

-- `d[key] += n`
abbrev pub bump : Tally → MessageType → ℕ → Tally
bump d MessageType.system n = record d { system = d.system + n }
bump d MessageType.user n = record d { user = d.user + n }
bump d MessageType.assistant n = record d { assistant = d.assistant + n }
bump d MessageType.tool_result n = record d { tool_result = d.tool_result + n }

-- `sum(d.values())`
abbrev pub total : Tally → ℕ
total d = d.system + d.user + d.assistant + d.tool_result

-- `{key: f(value) for key, value in d.items()}`
abbrev pub map_values : (ℕ → ℕ) → Tally → Tally
map_values f d = record {
  system = f d.system;
  user = f d.user;
  assistant = f d.assistant;
  tool_result = f d.tool_result;
}

-- One key into its place among keys sorted by falling remainder; equal keys keep their order.
insert_key : Tally → MessageType → List MessageType → List MessageType
insert_key r k [] = k ∷ []
insert_key r k (j ∷ js) = if leb (at r j) (at r k) then k ∷ j ∷ js else j ∷ insert_key r k js

-- `sorted(values, key=lambda key: remainders[key], reverse=True)`
sort_keys : Tally → List MessageType → List MessageType
sort_keys r [] = []
sort_keys r (k ∷ ks) = insert_key r k (sort_keys r ks)

-- `for key in keys: d[key] += 1`
bump_each : Tally → List MessageType → Tally
bump_each d [] = d
bump_each d (k ∷ ks) = bump_each (bump d k 1) ks

-- The quotients, and one more for each of the first keys by remainder, until `to` is reached.
distribute : Tally → ℕ → ℕ → Tally
unfolding bump_each sort_keys insert_key
distribute values to source_total =
    let scaled = map_values (λ v. v * to / source_total) values in
    let remainders = map_values (λ v. v * to % source_total) values in
    bump_each scaled (take (to - total scaled) (sort_keys remainders message_types))

unfoldable pub scale_tokens : Tally → ℕ → Tally
unfolding distribute
scale_tokens values to =
    if leb (total values) 0
    then zeros
    else if leb to 0
    then zeros
    else distribute values to (total values)

-- In basis points: the source divides each by 100, into a float.
unfoldable pub percentage_distribution : Tally → ℕ → Tally
percentage_distribution values of = if leb of 0 then zeros else scale_tokens values 10000
