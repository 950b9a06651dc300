-- ===== src/Examples/Streams.antt =====
-- Streams whose markers and whose calls are cut in two.
use aeloon_runtime.Prelude.{
  ℕ, ◌≡◌, ◌≢◌, refl, String, Option, none, some, ok, true, false, List, [], ◌∷◌, codes,
}
use aeloon_runtime.Streams.Reasoning.{Text, feed, finish}
use aeloon_runtime.Streams.Reasoning.Scan.{flat, scan}
use aeloon_runtime.Streams.Folding.{
  CallDelta, Line, no_data, chunk, Message, tool_use, error, new_folding, call_at, stream,
}
use aeloon_runtime.Streams.Folding.Heard.{
  or_empty, thinking_of, text_of, arguments_of, message_heard,
}
use aeloon_runtime.Streams.Reasoning.Chunks.{joined, parse_stream, parse_stream-scan}

abbrev chunks : List Text
chunks = codes "a<th" ∷ codes "ink>b</think" ∷ codes ">c<" ∷ []

parsed :
    parse_stream chunks
    ≡ (false, codes "a") ∷ (true, codes "b") ∷ (false, codes "c") ∷ (false, codes "<") ∷ []
unfolding parse_stream feed finish
parsed = refl

parse_stream-scan_example : flat (parse_stream chunks) ≡ scan false 0 (joined chunks)
parse_stream-scan_example = parse_stream-scan chunks

abbrev choice : Text → List CallDelta → Option String → Line
choice content calls reason =
    chunk (record { content = content; reasoning = []; tool_calls = calls; finish_reason = reason })

abbrev call : Text → Text → CallDelta
call name arguments = record { index = 0; id = []; name = name; arguments = arguments }

abbrev lines : List Line
lines =
    choice (codes "<think>a</th") [] none
    ∷ no_data
    ∷ choice (codes "ink>b") (call (codes "ls") (codes "{") ∷ []) none
    ∷ choice [] (call [] (codes "}") ∷ []) (some "tool_calls")
    ∷ []

abbrev message : Message
message = record {
  thinking = some (codes "a");
  text = some (codes "b");
  calls = (0, record { id = []; name = codes "ls"; arguments = codes "{}" }) ∷ [];
  stop_reason = tool_use;
}

streamed : (stream (new_folding true) lines).1 ≡ ok message
unfolding stream feed finish
streamed = refl

no_error : message.stop_reason ≢ error
no_error e = cc

message_heard_example :
    (or_empty message.thinking ≡ thinking_of (stream (new_folding true) lines).0.events)
    × (or_empty message.text ≡ text_of (stream (new_folding true) lines).0.events)
    × ((i : ℕ)
        → (call_at i message.calls).arguments
          ≡ arguments_of i (stream (new_folding true) lines).0.events)
message_heard_example = message_heard true lines message streamed no_error
