-- ===== src/Streams/Folding/Heard.antt =====
-- A stream beside an observer who adds up its events.
use aeloon_runtime.Prelude.{
  ℕ, ◌≡◌, ◌≢◌, refl, sym, ap, subst, ◌∙◌, inl, inr, Bool, true, false, String, Option, none, some,
  List, [], ◌∷◌, ◌++◌, ◌==◌, append_assoc, append-nil, arith, fold_inv, either_way, Option-cases,
  ok, is_empty, if◌then◌else◌,
}
use aeloon_runtime.Streams.Reasoning.{Text, Part, InlineReasoningParser, feed, finish}
use aeloon_runtime.Streams.Folding.{
  CallDelta, Choice, Line, no_data, invalid_json, error_chunk, no_choices, chunk, StreamEvent,
  start, thinking_delta, text_delta, toolcall_delta, CallState, Folding, new_folding, add_part, say,
  add_content, extend, call_at, put_call, add_call, add_finish, add_choice, Message, StopReason,
  stop, tool_use, too_long, error, message_of, stop_reason_of, flush, end_stream, stream,
}

-- What the events say of the thinking, of the text, and of the arguments of a call.
abbrev pub thinking_of : List StreamEvent → Text
thinking_of [] = []
thinking_of (e ∷ es) = elim e [ thinking_delta part ↦ part ++ thinking_of es | _ ↦ thinking_of es ]

abbrev pub text_of : List StreamEvent → Text
text_of [] = []
text_of (e ∷ es) = elim e [ text_delta part ↦ part ++ text_of es | _ ↦ text_of es ]

abbrev pub arguments_of : ℕ → List StreamEvent → Text
arguments_of index [] = []
arguments_of index (e ∷ es) = elim e [
  | toolcall_delta i id name delta ↦
      let later = arguments_of index es in if i == index then delta ++ later else later
  | _ ↦ arguments_of index es
]

abbrev pub or_empty : Option Text → Text
or_empty none = []
or_empty (some text) = text

thinking_of-snoc :
    (es : List StreamEvent) (e : StreamEvent)
    → thinking_of (es ++ e ∷ []) ≡ thinking_of es ++ thinking_of (e ∷ [])
thinking_of-snoc [] e = refl
thinking_of-snoc (start ∷ es) e = thinking_of-snoc es e
thinking_of-snoc (thinking_delta part ∷ es) e =
    ap (λ t. part ++ t) (thinking_of-snoc es e)
    ∙ sym (append_assoc part (thinking_of es) (thinking_of (e ∷ [])))
thinking_of-snoc (text_delta part ∷ es) e = thinking_of-snoc es e
thinking_of-snoc (toolcall_delta k id name part ∷ es) e = thinking_of-snoc es e

text_of-snoc :
    (es : List StreamEvent) (e : StreamEvent)
    → text_of (es ++ e ∷ []) ≡ text_of es ++ text_of (e ∷ [])
text_of-snoc [] e = refl
text_of-snoc (start ∷ es) e = text_of-snoc es e
text_of-snoc (thinking_delta part ∷ es) e = text_of-snoc es e
text_of-snoc (text_delta part ∷ es) e =
    ap (λ t. part ++ t) (text_of-snoc es e)
    ∙ sym (append_assoc part (text_of es) (text_of (e ∷ [])))
text_of-snoc (toolcall_delta k id name part ∷ es) e = text_of-snoc es e

arguments_of-snoc :
    (i : ℕ) (es : List StreamEvent) (e : StreamEvent)
    → arguments_of i (es ++ e ∷ []) ≡ arguments_of i es ++ arguments_of i (e ∷ [])
arguments_of-snoc i [] e = refl
arguments_of-snoc i (start ∷ es) e = arguments_of-snoc i es e
arguments_of-snoc i (thinking_delta part ∷ es) e = arguments_of-snoc i es e
arguments_of-snoc i (text_delta part ∷ es) e = arguments_of-snoc i es e
arguments_of-snoc i (toolcall_delta k id name part ∷ es) e = ground (
  arith,
  arguments_of-snoc i es e,
  append_assoc part (arguments_of i es) (arguments_of i (e ∷ [])),
)

-- What is held is what the events said so far.
pub record Heard (s : Folding) : Type 0 where
  pub thinking : or_empty s.thinking_parts ≡ thinking_of s.events
  pub text : or_empty s.text_parts ≡ text_of s.events
  pub arguments : (i : ℕ) → (call_at i s.calls).arguments ≡ arguments_of i s.events

say-Heard : (s : Folding) (part : Part) → Heard s → Heard (say s part)
unfolding say add_part
say-Heard s (true, part) h = record {
  thinking = ground (arith, thinking_of-snoc s.events (thinking_delta part), append-nil part);
  text = h.text ∙ sym (text_of-snoc s.events (thinking_delta part) ∙ append-nil (text_of s.events));
  arguments = λ i. ground (
    arith,
    h.arguments i,
    arguments_of-snoc i s.events (thinking_delta part),
    append-nil (arguments_of i s.events),
  );
}
say-Heard s (false, part) h = record {
  thinking =
      ground
        (arith, thinking_of-snoc s.events (text_delta part), append-nil (thinking_of s.events));
  text = ground (arith, text_of-snoc s.events (text_delta part), append-nil part);
  arguments = λ i. ground (
    arith,
    h.arguments i,
    arguments_of-snoc i s.events (text_delta part),
    append-nil (arguments_of i s.events),
  );
}

call_at-put :
    (i j : ℕ) (c : CallState) (calls : List (ℕ × CallState))
    → call_at i (put_call j c calls) ≡ (if j == i then c else call_at i calls)
unfolding call_at put_call
call_at-put i j c [] = ground arith
call_at-put i j c ((k, d) ∷ calls) = ground (arith, call_at-put i j c calls)

add_call-Heard : (s : Folding) (d : CallDelta) → Heard s → Heard (add_call s d)
unfolding add_call extend
add_call-Heard s d h =
    let c = extend (call_at d.index s.calls) d in
    let e = toolcall_delta d.index c.id c.name d.arguments in
    record {
      thinking = ground (arith, thinking_of-snoc s.events e, append-nil (thinking_of s.events));
      text = ground (arith, text_of-snoc s.events e, append-nil (text_of s.events));
      arguments = λ i. ground (
        arith,
        h.arguments i,
        h.arguments d.index,
        call_at-put i d.index c s.calls,
        arguments_of-snoc i s.events e,
        append-nil d.arguments,
        append-nil (arguments_of i s.events),
      );
    }

parser-Heard :
    (s : Folding) (parser : Option InlineReasoningParser)
    → Heard s
    → Heard (record s { inline_reasoning = parser })
parser-Heard s parser h = record { thinking = h.thinking; text = h.text; arguments = h.arguments }

add_content-Heard :
    (parser : Option InlineReasoningParser) (s : Folding) (content : Text)
    → Heard s
    → Heard (add_content parser s content)
unfolding add_content
add_content-Heard none s content h = say-Heard s (false, content) h
add_content-Heard (some parser) s content h =
    fold_inv Heard say say-Heard (feed parser content).1 _
      (parser-Heard s (some (feed parser content).0) h)

flush-Heard :
    (parser : Option InlineReasoningParser) (s : Folding) → Heard s → Heard (flush parser s)
unfolding flush
flush-Heard none s h = h
flush-Heard (some parser) s h =
    fold_inv Heard say say-Heard (finish parser).1 _ (parser-Heard s (some (finish parser).0) h)

add_finish-Heard : (s : Folding) (reason : Option String) → Heard s → Heard (add_finish s reason)
unfolding add_finish
add_finish-Heard s none h = h
add_finish-Heard s (some reason) h = record {
  thinking = h.thinking;
  text = h.text;
  arguments = h.arguments;
}

seen-Heard : (s : Folding) → Heard s → Heard (record s { saw_chunk = true })
seen-Heard s h = record { thinking = h.thinking; text = h.text; arguments = h.arguments }

add_choice-Heard : (s : Folding) (c : Choice) → Heard s → Heard (add_choice s c)
unfolding add_choice
add_choice-Heard s c h =
    let seen : Folding = (record s { saw_chunk = true }) in
    let with_content =
      if is_empty c.content then seen else add_content seen.inline_reasoning seen c.content in
    let heard_content =
      either_way Heard (is_empty c.content) seen (add_content seen.inline_reasoning seen c.content)
        (seen-Heard s h)
        (add_content-Heard seen.inline_reasoning seen c.content (seen-Heard s h)) in
    let heard_reasoning =
      either_way Heard (is_empty c.reasoning) with_content (say with_content (true, c.reasoning))
        heard_content (say-Heard with_content (true, c.reasoning) heard_content) in
    add_finish-Heard _ c.finish_reason
      (fold_inv Heard add_call add_call-Heard c.tool_calls _ heard_reasoning)

-- What a message says, beside the events.
IsHeard : List StreamEvent → Message → Type 0
IsHeard es m =
    (or_empty m.thinking ≡ thinking_of es)
    × (or_empty m.text ≡ text_of es)
    × ((i : ℕ) → (call_at i m.calls).arguments ≡ arguments_of i es)

message_of-IsHeard :
    (s : Folding) (reason : StopReason)
    → Heard s
    → reason ≢ error
    → IsHeard s.events (message_of s reason)
unfolding message_of IsHeard
message_of-IsHeard s stop h ends = (h.thinking, h.text, h.arguments)
message_of-IsHeard s tool_use h ends = (h.thinking, h.text, h.arguments)
message_of-IsHeard s too_long h ends = (h.thinking, h.text, h.arguments)
message_of-IsHeard s error h ends = absurd (ends refl)

stop_reason-message_of :
    (s : Folding) (reason : StopReason) → (message_of s reason).stop_reason ≡ reason
unfolding message_of
stop_reason-message_of s stop = refl
stop_reason-message_of s tool_use = refl
stop_reason-message_of s too_long = refl
stop_reason-message_of s error = refl

end_stream-IsHeard :
    (s : Folding) (m : Message)
    → Heard s
    → end_stream s ≡ ok m
    → m.stop_reason ≢ error
    → IsHeard s.events m
unfolding end_stream
end_stream-IsHeard s m h e ends = elim (Option-cases s.finish_reason) [
  | inl unfinished ↦ absurd (ground arith)
  | inr (r, finished) ↦
      let reason = stop_reason_of r in
      let same : message_of s reason ≡ m = ground arith in
      subst (IsHeard s.events) same (
        message_of-IsHeard s reason h
          (λ w. ends (ap (λ n. n.stop_reason) (sym same) ∙ (stop_reason-message_of s reason ∙ w))))
]

stream-IsHeard :
    (lines : List Line) (s : Folding) (m : Message)
    → Heard s
    → (stream s lines).1 ≡ ok m
    → m.stop_reason ≢ error
    → IsHeard (stream s lines).0.events m
unfolding stream
stream-IsHeard [] s m h e ends =
    end_stream-IsHeard (flush s.inline_reasoning s) m (flush-Heard s.inline_reasoning s h) e ends
stream-IsHeard (no_data ∷ lines) s m h e ends = stream-IsHeard lines s m h e ends
stream-IsHeard (invalid_json ∷ lines) s m h e ends = absurd (cc)
stream-IsHeard (error_chunk ∷ lines) s m h e ends = absurd (cc)
stream-IsHeard (no_choices ∷ lines) s m h e ends = stream-IsHeard lines _ m (seen-Heard s h) e ends
stream-IsHeard (chunk c ∷ lines) s m h e ends =
    stream-IsHeard lines (add_choice s c) m (add_choice-Heard s c h) e ends

-- If a stream ends with a message that is no error, whoever adds up its events has that message: its
-- thinking and its text are the parts that went out, in order, and the arguments of each call are
-- those that went out under its index.
pub message_heard :
    (tags : Bool) (lines : List Line) (m : Message)
    → (stream (new_folding tags) lines).1 ≡ ok m
    → m.stop_reason ≢ error
    → (let es = (stream (new_folding tags) lines).0.events in
        (or_empty m.thinking ≡ thinking_of es)
        × (or_empty m.text ≡ text_of es)
        × ((i : ℕ) → (call_at i m.calls).arguments ≡ arguments_of i es))
unfolding IsHeard call_at
message_heard tags lines m e ends =
    stream-IsHeard lines (new_folding tags) m
      (record { thinking = refl; text = refl; arguments = λ i. refl }) e ends
