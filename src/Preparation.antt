-- ===== src/Preparation.antt =====
-- aeloon_runtime/runtime/compaction.py: `prepare_compaction`, which picks what a compaction of a
-- session summarizes and what it keeps. The lists of files, which `file_operations` collects for
-- the prompt, are left out.
pub mod Partition
use aeloon_runtime.Prelude.{
  ℕ, zero, suc, ◌+◌, ◌/◌, max, String, Bool, true, false, Option, none, some, List, [], ◌∷◌, ◌++◌,
  ◌&&◌, ◌||◌, not, ltb, leb, is_empty, length, get_elem?, take, drop, if◌then◌else◌,
}
use aeloon_runtime.Messages.{AgentMessage, user, assistant}
use aeloon_runtime.Stats.Estimate.{estimate_tokens, estimate_context_tokens}
use aeloon_runtime.Session.Entry.{
  Entry, Payload, message, custom_message, compaction, is_compaction,
}
use aeloon_runtime.Session.Tree.{Outcome, returned, ◌>>=◌, get_branch}
use aeloon_runtime.Session.Context.{user_text, SessionContext, build_context}
use aeloon_runtime.Session.State.{Session}

pub record CompactionPreparation : Type 0 where
  pub first_kept_entry_id : String
  pub messages_to_summarize : List AgentMessage
  pub turn_prefix_messages : List AgentMessage
  pub is_split_turn : Bool
  pub retained_tail : List AgentMessage
  pub tokens_before : ℕ
  pub previous_summary : Option String

-- `_entry_message`
abbrev pub entry_message : Payload → Option AgentMessage
entry_message (message m) = some m
entry_message (custom_message kind content display details) = some (user_text content)
entry_message _ = none

-- The messages of a part of the branch.
unfoldable pub messages_of : List Entry → List AgentMessage
messages_of [] = []
messages_of (e ∷ rest) = elim (entry_message e.payload) [
  | none ↦ messages_of rest
  | some m ↦ m ∷ messages_of rest
]

abbrev pub is_user : Option AgentMessage → Bool
is_user (some (user m)) = true
is_user _ = false

abbrev pub is_assistant : Option AgentMessage → Bool
is_assistant (some (assistant m)) = true
is_assistant _ = false

-- Whether the last entry is a compaction.
pub ends_compacted : List Entry → Bool
ends_compacted [] = false
ends_compacted (e ∷ []) = is_compaction e.payload
ends_compacted (e ∷ e' ∷ rest) = ends_compacted (e' ∷ rest)

-- The summary of the latest compaction.
pub last_summary : List Entry → Option String
last_summary [] = none
last_summary (e ∷ rest) = elim (last_summary rest) [
  | some s ↦ some s
  | none ↦ elim e.payload [ compaction c ↦ some c.summary | _ ↦ none ]
]

-- `valid_cut_points`, from an index on
pub cut_points : ℕ → List Entry → List ℕ
cut_points index [] = []
cut_points index (e ∷ rest) =
    let m = entry_message e.payload in
    let later = cut_points (suc index) rest in
    elim (is_user m) [
      | true ↦ index ∷ later
      | false ↦ if is_assistant m then index ∷ later else later
    ]

-- The loop that goes back from the end: the tokens that it has seen, and the index at which they
-- reach the budget.
reach : ℕ → ℕ → List Entry → ℕ × Option ℕ
reach budget index [] = (0, none)
reach budget index (e ∷ rest) =
    let (accumulated, reached) = reach budget (suc index) rest in
    elim reached [
      | some found ↦ (accumulated, some found)
      | none ↦ elim (entry_message e.payload) [
        | none ↦ (accumulated, none)
        | some m ↦
            let more = accumulated + estimate_tokens m in
            (more, if leb budget more then some index else none)
      ]
    ]

-- `next((point for point in valid_cut_points if point >= index), cut)`
next_point : ℕ → List ℕ → ℕ → ℕ
next_point index [] cut = cut
next_point index (point ∷ rest) cut = if leb index point then point else next_point index rest cut

abbrev cut_at : Option ℕ → List ℕ → ℕ → ℕ
cut_at none points cut = cut
cut_at (some index) points cut = next_point index points cut

-- Both loops: a forced compaction that has not reached its budget aims at half of the tokens.
pub choose_cut : List Entry → ℕ → Bool → List ℕ → ℕ → ℕ
unfolding reach next_point
choose_cut entries keep_recent_tokens force points first =
    let (accumulated, reached) = reach keep_recent_tokens 0 entries in
    let half = max 1 (accumulated / 2) in
    elim reached [
      | some index ↦ next_point index points first
      | none ↦
          if force && ltb 0 accumulated then cut_at (reach half 0 entries).1 points first else first
    ]

-- The index of the last user message, going back from the cut.
last_user : ℕ → List Entry → Option ℕ
last_user index [] = none
last_user index (e ∷ rest) = elim (last_user (suc index) rest) [
  | some found ↦ some found
  | none ↦ if is_user (entry_message e.payload) then some index else none
]

-- Where the turn starts that the cut splits.
pub turn_start_of : List Entry → ℕ → Entry → Option ℕ
unfolding last_user
turn_start_of entries cut first_kept =
    if is_assistant (entry_message first_kept.payload) then last_user 0 (take cut entries) else none

-- The parts of a branch that is cut.
abbrev pub prepare_at : List Entry → ℕ → Entry → ℕ → Option CompactionPreparation
prepare_at entries cut first_kept tokens_before =
    let turn_start = turn_start_of entries cut first_kept in
    let history_end : ℕ = elim turn_start [ some start ↦ start | none ↦ cut ] in
    let to_summarize = messages_of (take history_end entries) in
    let turn_prefix : List AgentMessage = elim turn_start [
      | some start ↦ messages_of (drop start (take cut entries))
      | none ↦ []
    ] in
    if is_empty to_summarize && is_empty turn_prefix
    then none
    else some (record {
      first_kept_entry_id = first_kept.id;
      messages_to_summarize = to_summarize;
      turn_prefix_messages = turn_prefix;
      is_split_turn = elim turn_start [ some start ↦ true | none ↦ false ];
      retained_tail = messages_of (drop cut entries);
      tokens_before = tokens_before;
      previous_summary = last_summary entries;
    })

-- The choice among the cut points: `None` where there are none.
prepare_cut : List Entry → ℕ → Bool → ℕ → List ℕ → Option CompactionPreparation
unfolding choose_cut last_summary turn_start_of
prepare_cut entries keep_recent_tokens force tokens_before [] = none
prepare_cut entries keep_recent_tokens force tokens_before (first ∷ points) =
    let cut = choose_cut entries keep_recent_tokens force (first ∷ points) first in
    elim (get_elem? entries cut) [
      | none ↦ none
      | some first_kept ↦ prepare_at entries cut first_kept tokens_before
    ]

unfoldable pub prepare_branch : List Entry → ℕ → Bool → ℕ → Option CompactionPreparation
unfolding cut_points prepare_cut
prepare_branch entries keep_recent_tokens force tokens_before =
    prepare_cut entries keep_recent_tokens force tokens_before (cut_points 0 entries)

-- `prepare_compaction` behind `get_branch`
prepare_from : Session → ℕ → Bool → List Entry → Outcome (Option CompactionPreparation)
unfolding prepare_branch ends_compacted
prepare_from s keep_recent_tokens force entries =
    elim (is_empty entries || ends_compacted entries) [
      | true ↦ returned none
      | false ↦ build_context s.by_id s.current_leaf_id >>= (λ built. returned (
          prepare_branch entries keep_recent_tokens force
            (estimate_context_tokens built.context.boundary built.context.messages)))
    ]

unfoldable pub prepare_compaction : Session → ℕ → Bool → Outcome (Option CompactionPreparation)
unfolding prepare_from
prepare_compaction s keep_recent_tokens force =
    get_branch s.by_id s.current_leaf_id >>= prepare_from s keep_recent_tokens force
