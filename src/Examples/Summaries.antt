-- ===== src/Examples/Summaries.antt =====
-- A conversation summarized in one request, and in two of a small window; files of two calls.
use aeloon_runtime.Prelude.{
  ℕ, ◌≡◌, refl, String, false, none, some, List, [], ◌∷◌, contains, any, str_eq,
}
use aeloon_runtime.Messages.{AgentMessage, assistant, AssistantContent, StopReason, tool_calls}
use aeloon_runtime.Inference.Retry.{Attempt, start, final}
use aeloon_runtime.Summaries.{truncation_marker, truncate_text, conversation_units}
use aeloon_runtime.Summaries.Rolling.{input_chars, rolling_summary}
use aeloon_runtime.Summaries.Rolling.Bounded.{Summarizes, rolling_summary-Summarizes}
use aeloon_runtime.Summaries.Compacting.{file_operations}
use aeloon_runtime.Summaries.Compacting.Files.{calls_of, reads, writes, file_operations-named}
use aeloon_runtime.Examples.Inference.{says, asks, model, options}

abbrev talk : List AgentMessage
talk = asks "hi" ∷ assistant (says "hello" StopReason.stop) ∷ asks "bye" ∷ []

abbrev same : String → String
same s = s

abbrev answers : ℕ → ℕ → Attempt
answers index attempt = record {
  stream = start ∷ final (says "They met." StopReason.stop) ∷ [];
  failure = none;
  now = 1;
  wait_cancelled = false;
}

two_units : conversation_units same talk 200 ≡ "User: hi\n\nAssistant: hello" ∷ "User: bye" ∷ []
unfolding conversation_units
two_units = refl

-- The marker is longer than the room: only its beginning stays.
cut_short : truncate_text "abcdefgh" 4 false ≡ "\n\n[."
unfolding truncate_text truncation_marker
cut_short = refl

rolling_summary-Summarizes_example :
    let chars = input_chars model 500 in
    let (made, outcome) =
      rolling_summary str_eq model options answers same 500 "Sum up." none talk in
    Summarizes chars (conversation_units same talk chars) made outcome
rolling_summary-Summarizes_example =
    rolling_summary-Summarizes str_eq model options answers same 500 "Sum up." none talk

abbrev uses : String → String → AgentMessage
uses tool path = assistant (record (says "" StopReason.tool_use) {
  content = AssistantContent.tool_call (record { id = "c"; name = tool; arguments = path }) ∷ [];
})

abbrev work : List AgentMessage
work = uses "read" "a.py" ∷ uses "edit" "b.py" ∷ uses "shell" "c.py" ∷ []

worked : file_operations (λ s. some s) work ([], []) ≡ ("a.py" ∷ [], "b.py" ∷ [])
unfolding file_operations tool_calls
worked = refl

file_operations-named_example :
    let (read, modified) = file_operations (λ s. some s) work ([], []) in
    (contains read "b.py" ≡ any (reads (λ s. some s) "b.py") (calls_of work))
    × (contains modified "b.py" ≡ any (writes (λ s. some s) "b.py") (calls_of work))
file_operations-named_example = file_operations-named (λ s. some s) "b.py" work
