-- ===== src/Streams/Reasoning/Chunks.antt =====
-- A stream that is parsed in chunks, beside a scan of its whole text.

use aeloon_runtime.Prelude.{
  ℕ, zero, suc, ◌+◌, ◌-◌, ◌<◌, ◌≡◌, refl, sym, ap, ◌∙◌, inl, inr, Bool, false, not, none, List, [],
  ◌∷◌, ◌++◌, take, drop, length, length-drop, Option-cases, arith, append_assoc, append-nil,
}
use aeloon_runtime.Streams.Reasoning.{
  Text, Part, find, partial_marker_suffix, InlineReasoningParser, new_parser, marker_of,
  append_part, feed_loop, feed, finish,
}
use aeloon_runtime.Streams.Reasoning.Markers.{Free-suffix}
use aeloon_runtime.Streams.Reasoning.Scan.{
  marked, flat, scan, marker_pos, scan-found, scan-Free, scan-end, find-drop, find-nil,
}

flat-append_part :
    (thinking : Bool) (text : Text) (parts : List Part)
    → flat (append_part thinking text parts) ≡ marked thinking text ++ flat parts
unfolding append_part
flat-append_part thinking [] parts = refl
flat-append_part thinking (c ∷ text) parts = refl

-- A parser that has let some parts out, and has still to scan its buffer and what comes.
pub record Parsed (thinking : Bool) (text : Text) (r : InlineReasoningParser × List Part)
    : Type 0 where
  pub scanned :
      (rest : Text)
      → flat r.1 ++ scan r.0.thinking 0 (r.0.buffer ++ rest) ≡ scan thinking 0 (text ++ rest)
  pub no_marker : find (marker_of r.0.thinking) r.0.buffer ≡ none

abbrev boundary : Bool → ℕ → Text → ℕ
boundary thinking c text = length (c ∷ text) - partial_marker_suffix (c ∷ text) (marker_of thinking)

feed_loop-Parsed :
    (fuel : ℕ) (thinking : Bool) (text : Text)
    → length text < fuel
    → Parsed thinking text (feed_loop fuel thinking text)
unfolding feed_loop
feed_loop-Parsed zero thinking text h = absurd (omega arith)
feed_loop-Parsed (suc fuel) thinking [] h = record {
  scanned = λ rest. refl;
  no_marker = find-nil thinking;
}
feed_loop-Parsed (suc fuel) thinking (c ∷ text) h =
    elim (Option-cases (find (marker_of thinking) (c ∷ text))) [
      | inl nowhere ↦
          rw (nowhere, feed_loop)
            (record {
              scanned = λ rest.
                  ap
                    (λ cs.
                      cs ++ scan thinking 0 (drop (boundary thinking c text) (c ∷ text) ++ rest))
                    (flat-append_part thinking (take (boundary thinking c text) (c ∷ text)) []
                      ∙ append-nil (marked thinking (take (boundary thinking c text) (c ∷ text))))
                  ∙ sym (
                      scan-Free thinking (partial_marker_suffix (c ∷ text) (marker_of thinking))
                        (c ∷ text) rest (Free-suffix (marker_of thinking) [] (c ∷ text) nowhere));
              no_marker =
                  find-drop (marker_of thinking) (boundary thinking c text) (c ∷ text) nowhere;
            })
      | inr (i, there) ↦
          let behind = drop (i + length (marker_of thinking)) (c ∷ text) in
          let ih = feed_loop-Parsed fuel (not thinking) behind (
            omega (
              arith,
              length-drop (i + length (marker_of thinking)) (c ∷ text),
              marker_pos thinking,
            )) in
          rw (there, feed_loop)
            (record {
              scanned = λ rest.
                  let (last, parts) = feed_loop fuel (not thinking) behind in
                  ap (λ cs. cs ++ scan last.thinking 0 (last.buffer ++ rest))
                    (flat-append_part thinking (take i (c ∷ text)) parts)
                  ∙ append_assoc (marked thinking (take i (c ∷ text))) (flat parts)
                      (scan last.thinking 0 (last.buffer ++ rest))
                  ∙ ap (λ cs. marked thinking (take i (c ∷ text)) ++ cs) (ih.scanned rest)
                  ∙ sym (scan-found thinking (c ∷ text) rest i there);
              no_marker = ih.no_marker;
            })
    ]

-- The parts that a stream of chunks is split into.
unfoldable pub feed_all : InlineReasoningParser → List Text → InlineReasoningParser × List Part
feed_all p [] = (p, [])
feed_all p (chunk ∷ chunks) =
    let (p', parts) = feed p chunk in
    let (last, later) = feed_all p' chunks in (last, parts ++ later)

abbrev pub joined : List Text → Text
joined [] = []
joined (chunk ∷ chunks) = chunk ++ joined chunks

unfoldable pub parse_stream : List Text → List Part
unfolding feed_all
parse_stream chunks = let (last, parts) = feed_all new_parser chunks in parts ++ (finish last).1

flat-append : (ps qs : List Part) → flat (ps ++ qs) ≡ flat ps ++ flat qs
flat-append [] qs = refl
flat-append ((thinking, text) ∷ ps) qs =
    ap (λ cs. marked thinking text ++ cs) (flat-append ps qs)
    ∙ sym (append_assoc (marked thinking text) (flat ps) (flat qs))

feed_all-scan :
    (chunks : List Text) (p : InlineReasoningParser)
    → find (marker_of p.thinking) p.buffer ≡ none
    → flat ((feed_all p chunks).1 ++ (finish (feed_all p chunks).0).1)
      ≡ scan p.thinking 0 (p.buffer ++ joined chunks)
unfolding feed_all feed finish
feed_all-scan [] p e =
    flat-append_part p.thinking p.buffer []
    ∙ append-nil (marked p.thinking p.buffer)
    ∙ sym (scan-end p.thinking p.buffer e)
    ∙ ap (scan p.thinking 0) (sym (append-nil p.buffer))
feed_all-scan (chunk ∷ chunks) p e =
    let r = feed p chunk in
    let parsed : Parsed p.thinking (p.buffer ++ chunk) r =
      feed_loop-Parsed (suc (length (p.buffer ++ chunk))) p.thinking (p.buffer ++ chunk)
        (omega arith) in
    let (last, later) = feed_all r.0 chunks in
    ap flat (append_assoc r.1 later (finish last).1)
    ∙ flat-append r.1 (later ++ (finish last).1)
    ∙ ap (λ cs. flat r.1 ++ cs) (feed_all-scan chunks r.0 parsed.no_marker)
    ∙ parsed.scanned (joined chunks)
    ∙ ap (scan p.thinking 0) (append_assoc p.buffer chunk (joined chunks))

-- However the text of a stream is cut into chunks, its parts are those of a scan of the whole text
-- from the left: every character of the text outside the markers, once, in order, and as thinking
-- exactly between <think> and </think>.
pub parse_stream-scan :
    (chunks : List Text) → flat (parse_stream chunks) ≡ scan false 0 (joined chunks)
unfolding parse_stream
parse_stream-scan chunks = feed_all-scan chunks new_parser (find-nil false)
