-- ===== src/Summaries/Rolling.antt =====
-- `_rolling_summary` of summarization.py: units of a conversation are summarized request by request,
-- each with the summary so far. What the provider streams for request `n` is `attempts n`; ids of
-- sessions and cancellation by an event, which cancels an attempt, come from outside.
pub mod Bounded
use aeloon_runtime.Prelude.{
  ℕ, zero, suc, ◌+◌, ◌-◌, ◌*◌, ◌/◌, min, max, String, Bool, true, false, Option, none, some, List,
  [], ◌∷◌, ◌++◌, ◌&&◌, leb, ltb, length, concat, join, strip, str_eq, text_length, append_text,
  Result, ok, err, if◌then◌else◌,
}
use aeloon_runtime.Messages.{
  Usage, no_usage, AgentMessage, AssistantContent, AssistantMessage, is_failed,
}
use aeloon_runtime.Inference.Retry.{Model, StreamOptions, Attempt, request}
use aeloon_runtime.Summaries.{truncate_text, conversation_units}
use aeloon_runtime.Summaries.Prompts.{summarization_system_prompt, update_summarization_prompt}

-- `AssistantMessage.text`
texts : List AssistantContent → List String
texts [] = []
texts (AssistantContent.text t ∷ rest) = t ∷ texts rest
texts (AssistantContent.thinking t ∷ rest) = texts rest
texts (AssistantContent.tool_call c ∷ rest) = texts rest

unfoldable pub answer_text : AssistantMessage → String
unfolding texts
answer_text m = concat (texts m.content)

-- `(first or 0) + (second or 0) or None`
unfoldable pub combine_reasoning : Option ℕ → Option ℕ → Option ℕ
combine_reasoning first second =
    let a : ℕ = elim first [ none ↦ 0 | some n ↦ n ] in
    let b : ℕ = elim second [ none ↦ 0 | some n ↦ n ] in
    elim (a + b) [ zero ↦ none | suc n ↦ some (n + 1) ]

-- `_combine_usage`, without costs
unfoldable pub combine_usage : Usage → Usage → Usage
unfolding combine_reasoning
combine_usage first second = record {
  input = first.input + second.input;
  output = first.output + second.output;
  cache_read = first.cache_read + second.cache_read;
  cache_write = first.cache_write + second.cache_write;
  total_tokens = first.total_tokens + second.total_tokens;
  reasoning = combine_reasoning first.reasoning second.reasoning;
}

-- The shares of a window, as fractions: 0.8 of the reserve, a quarter and a twentieth of the window.
unfoldable pub output_tokens : Model → ℕ → ℕ
output_tokens model reserve_tokens =
    max 1 (
      min (4 * reserve_tokens / 5) (min model.max_output_tokens (max 1 (model.context_window / 4))))

unfoldable pub safety_tokens : Model → ℕ
safety_tokens model = min 4096 (max 64 (model.context_window / 20))

unfoldable pub input_chars : Model → ℕ → ℕ
unfolding output_tokens safety_tokens
input_chars model reserve_tokens =
    max 4
      (max 1 (model.context_window - output_tokens model reserve_tokens - safety_tokens model) * 4)

-- The inner loop: the units that fit into one request, and those that are left. The first one is
-- taken in any case, cut to the budget.
unfoldable pub select : ℕ → ℕ → List String → List String → List String × List String
select budget chars selected [] = (selected, [])
select budget chars [] (u ∷ rest) =
    let unit = if ltb budget (text_length u) then truncate_text u budget false else u in
    let chars' = chars + (text_length unit + 2) in
    let more = select budget chars' (unit ∷ []) rest in
    if leb budget chars' then (unit ∷ [], rest) else more
select budget chars (s ∷ selected) (u ∷ rest) =
    let chars' = chars + (text_length u + 2) in
    let more = select budget chars' (s ∷ (selected ++ u ∷ [])) rest in
    if ltb budget chars'
    then (s ∷ selected, u ∷ rest)
    else if leb budget chars'
    then (s ∷ (selected ++ u ∷ []), rest)
    else more

-- One request: its prompts, and the units that are left behind it.
pub record Round : Type 0 where
  pub system_prompt : String
  pub prompt : String
  pub left : List String

-- `len("<conversation>\n\n</conversation>\n\n")` and the same for the previous summary
abbrev frame_chars : ℕ
frame_chars = text_length "<conversation>\n\n</conversation>\n\n"

abbrev previous_frame_chars : ℕ
previous_frame_chars = text_length "<previous-summary>\n\n</previous-summary>\n\n"

-- The system prompt and the instructions, which are cut where they leave no room.
unfoldable pub fitted_prompts : ℕ → String → String × String
unfolding summarization_system_prompt
fitted_prompts chars instructions =
    let minimum = frame_chars + 1 in
    let system = truncate_text summarization_system_prompt (chars / 4) false in
    if ltb chars (text_length summarization_system_prompt + text_length instructions + minimum)
    then (system, truncate_text instructions (chars - text_length system - minimum) false)
    else (summarization_system_prompt, instructions)

-- The body of the loop before its request.
unfoldable pub compose : ℕ → String → String → List String → Round
unfolding fitted_prompts select
compose chars instructions summary units =
    let (system, fitted) = fitted_prompts chars instructions in
    let fixed = text_length system + text_length fitted + frame_chars + previous_frame_chars in
    let previous = truncate_text summary ((chars - fixed) / 2) false in
    let budget = max 1 (chars - fixed - text_length previous) in
    let (selected, left) = select budget 0 [] units in
    let prompt = concat (
      "<conversation>\n"
      ∷ join "\n\n" selected
      ∷ "\n</conversation>\n\n"
      ∷ (if str_eq previous ""
          then ""
          else concat ("<previous-summary>\n" ∷ previous ∷ "\n</previous-summary>\n\n" ∷ []))
      ∷ fitted
      ∷ []) in
    record {
      system_prompt = system;
      prompt = truncate_text prompt (chars - text_length system) false;
      left = left;
    }

-- What can stop a summary: an error of the request, an empty answer, nothing to summarize. With the
-- fuel used up the loop still runs.
pub data SummaryFailure : Type 0 where
  request_failed : String → SummaryFailure
  empty_summary no_content still_running : SummaryFailure

module _ (search : String → String → Bool) (model : Model) (options : StreamOptions)
    (attempts : ℕ → ℕ → Attempt) where
  -- `_summary_request`, of request `index`
  unfoldable pub summary_request : ℕ → Result SummaryFailure AssistantMessage
  unfolding answer_text
  summary_request index =
      let m = (request search model options (attempts index) 0).message in
      if is_failed m.stop_reason
      then err (
          request_failed (elim m.error_message [
            | none ↦ "Summarization failed"
            | some t ↦ if str_eq t "" then "Summarization failed" else t
          ]))
      else if str_eq (strip (answer_text m)) ""
      then err empty_summary
      else ok m

  -- The rounds from `index` on, and what they come to.
  unfoldable pub rounds :
      ℕ
      → ℕ
      → String
      → ℕ
      → String
      → Usage
      → List String
      → List Round × Result SummaryFailure (String × Usage)
  unfolding compose
  rounds fuel chars instructions index summary usage [] = ([], ok (summary, usage))
  rounds zero chars instructions index summary usage (u ∷ units) = ([], err still_running)
  rounds (suc fuel) chars instructions index summary usage (u ∷ units) =
      let given : String = elim index [
        | zero ↦ instructions
        | suc n ↦ update_summarization_prompt
      ] in
      let round = compose chars given summary (u ∷ units) in
      elim (summary_request index) [
        | err f ↦ (round ∷ [], err f)
        | ok m ↦
            let (later, outcome) =
              rounds fuel chars instructions (suc index) (strip (answer_text m))
                (combine_usage usage m.usage) round.left in
            (round ∷ later, outcome)
      ]

  -- `_rolling_summary`
  unfoldable pub rolling_summary :
      (dumps : String → String)
      → ℕ
      → String
      → Option String
      → List AgentMessage
      → List Round × Result SummaryFailure (String × Usage)
  unfolding rounds input_chars
  rolling_summary dumps reserve_tokens instructions previous messages =
      let chars = input_chars model reserve_tokens in
      let summary : String = elim previous [ none ↦ "" | some s ↦ s ] in
      elim (conversation_units dumps messages chars) [
        | [] ↦ ([], err no_content)
        | u ∷ units ↦ rounds (length (u ∷ units)) chars instructions 0 summary no_usage (u ∷ units)
      ]
