-- ===== src/Streams/Folding.antt =====
-- `_stream` of openai.py, from the answer of the service on: its lines are folded into a message,
-- and each part goes out as an event. A line is what parsing made of it, and the usage, which a
-- chunk may report, is left out, as are failures of the transport. A call holds the text of its
-- arguments.
pub mod Heard
use aeloon_runtime.Prelude.{
  ℕ, Bool, true, false, String, Option, none, some, List, [], ◌∷◌, ◌++◌, ◌==◌, ◌||◌, not, ltb, fold,
  str_eq, is_empty, Result, ok, err, if◌then◌else◌,
}
use aeloon_runtime.Streams.Reasoning.{Text, Part, InlineReasoningParser, new_parser, feed, finish}

-- An element of `delta["tool_calls"]`; what is missing is empty.
pub record CallDelta : Type 0 where
  pub index : ℕ
  pub id : Text
  pub name : Text
  pub arguments : Text

-- `choices[0]` of a chunk.
pub record Choice : Type 0 where
  pub content : Text
  pub reasoning : Text
  pub tool_calls : List CallDelta
  pub finish_reason : Option String

-- A line of the answer: no data, data that is no JSON, an error, a chunk without choices, a choice.
pub data Line : Type 0 where
  no_data invalid_json error_chunk no_choices : Line
  chunk : Choice → Line

pub data StreamEvent : Type 0 where
  start : StreamEvent
  thinking_delta text_delta : Text → StreamEvent
  toolcall_delta : (index : ℕ) (id name delta : Text) → StreamEvent

pub record CallState : Type 0 where
  pub id : Text
  pub name : Text
  pub arguments : Text

-- The calls are held in the order of their indexes.
pub record Folding : Type 0 where
  pub thinking_parts : Option Text
  pub text_parts : Option Text
  pub calls : List (ℕ × CallState)
  pub finish_reason : Option String
  pub saw_chunk : Bool
  pub inline_reasoning : Option InlineReasoningParser
  pub events : List StreamEvent

abbrev pub new_folding : Bool → Folding
new_folding parse_reasoning_tags = record {
  thinking_parts = none;
  text_parts = none;
  calls = [];
  finish_reason = none;
  saw_chunk = false;
  inline_reasoning = if parse_reasoning_tags then some new_parser else none;
  events = start ∷ [];
}

pub add_part : Option Text → Text → Option Text
add_part none part = some part
add_part (some text) part = some (text ++ part)

-- A part of the message goes out as an event.
pub say : Folding → Part → Folding
unfolding add_part
say s (true, part) = record s {
  thinking_parts = add_part s.thinking_parts part;
  events = s.events ++ thinking_delta part ∷ [];
}
say s (false, part) = record s {
  text_parts = add_part s.text_parts part;
  events = s.events ++ text_delta part ∷ [];
}

pub add_content : Option InlineReasoningParser → Folding → Text → Folding
unfolding say
add_content none s content = say s (false, content)
add_content (some parser) s content =
    let (parser', parts) = feed parser content in
    fold say (record s { inline_reasoning = some parser' }) parts

-- `calls.setdefault(index, ...)`, and what the call adds.
pub extend : CallState → CallDelta → CallState
extend c d = record {
  id = c.id ++ d.id;
  name = c.name ++ d.name;
  arguments = c.arguments ++ d.arguments;
}

abbrev pub no_call : CallState
no_call = record { id = []; name = []; arguments = [] }

pub call_at : ℕ → List (ℕ × CallState) → CallState
call_at index [] = no_call
call_at index ((i, c) ∷ calls) = let later = call_at index calls in if i == index then c else later

pub put_call : ℕ → CallState → List (ℕ × CallState) → List (ℕ × CallState)
put_call index c [] = (index, c) ∷ []
put_call index c ((i, d) ∷ calls) =
    let later = (i, d) ∷ put_call index c calls in
    if i == index
    then (index, c) ∷ calls
    else if ltb index i
    then (index, c) ∷ (i, d) ∷ calls
    else later

pub add_call : Folding → CallDelta → Folding
unfolding extend call_at put_call
add_call s d =
    let c = extend (call_at d.index s.calls) d in
    record s {
      calls = put_call d.index c s.calls;
      events = s.events ++ toolcall_delta d.index c.id c.name d.arguments ∷ [];
    }

pub add_finish : Folding → Option String → Folding
add_finish s none = s
add_finish s (some reason) = record s { finish_reason = some reason }

pub add_choice : Folding → Choice → Folding
unfolding add_content say add_call add_finish
add_choice s c =
    let seen = record s { saw_chunk = true } in
    let with_content =
      if is_empty c.content then seen else add_content seen.inline_reasoning seen c.content in
    let with_reasoning =
      if is_empty c.reasoning then with_content else say with_content (true, c.reasoning) in
    add_finish (fold add_call with_reasoning c.tool_calls) c.finish_reason

pub data StreamError : Type 0 where
  invalid_response provider_error : StreamError

pub data StopReason : Type 0 where
  stop tool_use too_long error : StopReason

pub record Message : Type 0 where
  pub thinking : Option Text
  pub text : Option Text
  pub calls : List (ℕ × CallState)
  pub stop_reason : StopReason

pub stop_reason_of : String → StopReason
stop_reason_of reason =
    if str_eq reason "stop"
    then stop
    else if str_eq reason "tool_calls"
    then tool_use
    else if str_eq reason "length"
    then too_long
    else error

-- The message behind the last line, once the parser has let out what it holds.
pub message_of : Folding → StopReason → Message
message_of s error = record { thinking = none; text = none; calls = []; stop_reason = error }
message_of s reason = record {
  thinking = s.thinking_parts;
  text = s.text_parts;
  calls = s.calls;
  stop_reason = reason;
}

pub flush : Option InlineReasoningParser → Folding → Folding
unfolding say
flush none s = s
flush (some parser) s =
    let (parser', parts) = finish parser in
    fold say (record s { inline_reasoning = some parser' }) parts

pub end_stream : Folding → Result StreamError Message
unfolding stop_reason_of message_of
end_stream s = if not s.saw_chunk then err invalid_response else elim s.finish_reason [
  | none ↦ err invalid_response
  | some reason ↦ ok (message_of s (stop_reason_of reason))
]

unfoldable pub stream : Folding → List Line → Folding × Result StreamError Message
unfolding add_choice flush end_stream
stream s [] = let last = flush s.inline_reasoning s in (last, end_stream last)
stream s (no_data ∷ lines) = stream s lines
stream s (invalid_json ∷ lines) = (s, err invalid_response)
stream s (error_chunk ∷ lines) = (record s { saw_chunk = true }, err provider_error)
stream s (no_choices ∷ lines) = stream (record s { saw_chunk = true }) lines
stream s (chunk c ∷ lines) = stream (add_choice s c) lines
