-- ===== src/Summaries/Compacting.antt =====
-- `compact_preparation`, `summarize_branch` and `file_operations` of summarization.py. The path among
-- the arguments of a call is a parameter, `path_of`; the lists of files are given as they were
-- prepared. Attempts of the summary of the history are `history`, those of a turn's first part are
-- `prefix`.
pub mod Files
use aeloon_runtime.Prelude.{
  ℕ, ◌/◌, min, max, String, Bool, true, false, Option, none, some, List, [], ◌∷◌, ◌&&◌, ◌||◌, not,
  is_empty, is_blank, map, concat, join, contains, append_text, truthy, str_eq, Result, ok, err,
  if◌then◌else◌,
}
use aeloon_runtime.Messages.{
  Usage, no_usage, AgentMessage, assistant, user, tool_result, ToolCall, tool_calls,
}
use aeloon_runtime.Inference.Retry.{Model, StreamOptions, Attempt}
use aeloon_runtime.Preparation.{CompactionPreparation}
use aeloon_runtime.Summaries.Prompts.{
  summarization_prompt, update_summarization_prompt, branch_summary_prompt,
  turn_prefix_summarization_prompt,
}
use aeloon_runtime.Summaries.Rolling.{SummaryFailure, empty_summary, combine_usage, rolling_summary}

pub record CompactionResult : Type 0 where
  pub summary : String
  pub first_kept_entry_id : String
  pub tokens_before : ℕ
  pub retained_tail : List AgentMessage
  pub usage : Usage
  pub read_files : List String
  pub modified_files : List String

-- `instructions += f"\n\nAdditional focus: {custom_instructions}"`
unfoldable pub focused : String → Option String → String
focused instructions custom = elim (truthy custom) [
  | none ↦ instructions
  | some text ↦ concat (instructions ∷ "\n\nAdditional focus: " ∷ text ∷ [])
]

-- The lines that tell the files, if there are any.
unfoldable pub with_files : String → List String → String → String
with_files title [] summary = summary
with_files title (p ∷ paths) summary =
    concat (summary ∷ title ∷ join "\n" (map (λ path. append_text "- " path) (p ∷ paths)) ∷ [])

-- `set.add`
unfoldable pub add_path : String → List String → List String
add_path path paths = if contains paths path then paths else path ∷ paths

module _ (path_of : String → Option String) where
  -- The paths that a call reads, and those that it modifies.
  unfoldable pub add_operation : ToolCall → List String × List String → List String × List String
  unfolding add_path
  add_operation c (reads, modified) = elim (path_of c.arguments) [
    | none ↦ (reads, modified)
    | some path ↦
        if contains ("read" ∷ "grep" ∷ "find" ∷ "ls" ∷ []) c.name
        then (add_path path reads, modified)
        else if contains ("edit" ∷ "write" ∷ []) c.name
        then (reads, add_path path modified)
        else (reads, modified)
  ]

  unfoldable pub add_operations :
      List ToolCall → List String × List String → List String × List String
  unfolding add_operation
  add_operations [] sets = sets
  add_operations (c ∷ rest) sets = add_operations rest (add_operation c sets)

  -- `file_operations`, from given sets on
  unfoldable pub file_operations :
      List AgentMessage → List String × List String → List String × List String
  unfolding add_operations
  file_operations [] sets = sets
  file_operations (assistant m ∷ rest) sets =
      file_operations rest (add_operations (tool_calls m) sets)
  file_operations (user u ∷ rest) sets = file_operations rest sets
  file_operations (tool_result t ∷ rest) sets = file_operations rest sets

module _ (search : String → String → Bool) (model : Model) (options : StreamOptions)
    (dumps : String → String) where
  -- The summary of the history, or the one before if there is nothing new.
  unfoldable pub history_summary :
      (ℕ → ℕ → Attempt)
      → ℕ
      → String
      → CompactionPreparation
      → Result SummaryFailure (String × Usage)
  history_summary history reserve_tokens instructions p = elim (is_empty p.messages_to_summarize) [
    | false ↦
        elim (rolling_summary search model options history dumps reserve_tokens instructions
          p.previous_summary p.messages_to_summarize).1 [
            | err f ↦ err f
            | ok (summary, usage) ↦ ok (summary, combine_usage no_usage usage)
          ]
    | true ↦ elim (truthy p.previous_summary) [
      | none ↦ ok ("", no_usage)
      | some summary ↦ ok (summary, no_usage)
    ]
  ]

  -- With the summary of the first part of a split turn.
  unfoldable pub with_prefix :
      (ℕ → ℕ → Attempt)
      → ℕ
      → CompactionPreparation
      → String × Usage
      → Result SummaryFailure (String × Usage)
  with_prefix prefix reserve_tokens p (summary, usage) =
      elim (p.is_split_turn && not (is_empty p.turn_prefix_messages)) [
        | false ↦ ok (summary, usage)
        | true ↦
            elim (rolling_summary search model options prefix dumps reserve_tokens
              turn_prefix_summarization_prompt none p.turn_prefix_messages).1 [
                | err f ↦ err f
                | ok (prefix_summary, prefix_usage) ↦
                    let before = if str_eq summary "" then "No prior history." else summary in
                    ok (
                      concat (
                          before ∷ "\n\n---\n\n**Turn Context (split turn):**\n\n" ∷ prefix_summary
                          ∷ []),
                      combine_usage usage prefix_usage,
                    )
              ]
      ]

  -- `compact_preparation`
  unfoldable pub compact_preparation :
      (history prefix : ℕ → ℕ → Attempt)
      → (reserve_tokens : ℕ) → (custom : Option String) → (read_files modified_files : List String)
      → CompactionPreparation
      → Result SummaryFailure CompactionResult
  unfolding history_summary with_prefix
  compact_preparation history prefix reserve_tokens custom read_files modified_files p =
      let base : String = elim (truthy p.previous_summary) [
        | none ↦ summarization_prompt
        | some s ↦ update_summarization_prompt
      ] in
      elim (history_summary history reserve_tokens (focused base custom) p) [
        | err f ↦ err f
        | ok summarized ↦ elim (with_prefix prefix reserve_tokens p summarized) [
          | err f ↦ err f
          | ok (summary, usage) ↦ elim (is_blank summary) [
            | true ↦ err empty_summary
            | false ↦ ok (record {
              summary =
                  with_files "\n\nFiles modified:\n" modified_files
                    (with_files "\n\nFiles read:\n" read_files summary);
              first_kept_entry_id = p.first_kept_entry_id;
              tokens_before = p.tokens_before;
              retained_tail = p.retained_tail;
              usage = usage;
              read_files = read_files;
              modified_files = modified_files;
            })
          ]
        ]
      ]

  -- `summarize_branch`: the summary, its usage and the files, which the caller sorts.
  unfoldable pub summarize_branch :
      (path_of : String → Option String)
      → (ℕ → ℕ → Attempt)
      → Option String
      → Bool
      → List AgentMessage
      → Result SummaryFailure (String × Usage × (List String × List String))
  unfolding file_operations
  summarize_branch path_of attempts custom replace messages =
      let instructions : String =
        if replace
        then elim (truthy custom) [ none ↦ branch_summary_prompt | some text ↦ text ]
        else focused branch_summary_prompt custom in
      let reserve = min 2560 (max 1 (model.context_window / 4)) in
      elim (rolling_summary search model options attempts dumps reserve instructions none
        messages).1 [
          | err f ↦ err f
          | ok (text, usage) ↦ ok (
            concat (
                "The user explored a different conversation branch before returning here.\n"
                ∷ "Summary of that exploration:\n\n" ∷ text ∷ []),
            usage,
            file_operations path_of messages ([], []),
          )
        ]
