-- ===== src/Streams/Reasoning.antt =====
-- `_InlineReasoningParser` of openai.py, which splits the text of a stream at <think> and </think>.
-- A text is its code points.
pub mod Markers
pub mod Scan
pub mod Chunks
use aeloon_runtime.Prelude.{
  ℕ, zero, suc, ◌+◌, ◌-◌, Bool, true, false, Option, none, some, List, [], ◌∷◌, ◌++◌, ◌&&◌, not,
  take, drop, length, min, is_empty, codes, ◌==◌, if◌then◌else◌,
}

abbrev pub Text : Type 0
Text = List ℕ

-- `text.startswith(marker)`
abbrev pub starts_with : Text → Text → Bool
starts_with [] text = true
starts_with (m ∷ marker) [] = false
starts_with (m ∷ marker) (c ∷ text) = m == c && starts_with marker text

abbrev pub same_text : Text → Text → Bool
same_text [] [] = true
same_text (c ∷ s) (d ∷ t) = c == d && same_text s t
same_text [] (d ∷ t) = false
same_text (c ∷ s) [] = false

-- `value.endswith(suffix)`
abbrev pub ends_with : Text → Text → Bool
ends_with suffix value = same_text suffix (drop (length value - length suffix) value)

-- `buffer.find(marker)`
unfoldable pub find : Text → Text → Option ℕ
find marker [] = if starts_with marker [] then some 0 else none
find marker (c ∷ text) =
    let later : Option ℕ = elim (find marker text) [ none ↦ none | some i ↦ some (suc i) ] in
    if starts_with marker (c ∷ text) then some 0 else later

-- The loop of `_partial_marker_suffix`, from `n` down.
unfoldable pub longest_suffix : Text → Text → ℕ → ℕ
longest_suffix value marker zero = 0
longest_suffix value marker (suc n) =
    let shorter = longest_suffix value marker n in
    if ends_with (take (suc n) marker) value then suc n else shorter

unfoldable pub partial_marker_suffix : Text → Text → ℕ
unfolding longest_suffix
partial_marker_suffix value marker =
    longest_suffix value marker (min (length value) (length marker - 1))

-- A part of the stream, and whether it is thinking.
abbrev pub Part : Type 0
Part = Bool × Text

pub record InlineReasoningParser : Type 0 where
  pub buffer : Text
  pub thinking : Bool

abbrev pub new_parser : InlineReasoningParser
new_parser = record { buffer = []; thinking = false }

unfoldable pub marker_of : Bool → Text
marker_of thinking = if thinking then codes "</think>" else codes "<think>"

-- `_append`
unfoldable pub append_part : Bool → Text → List Part → List Part
append_part thinking value parts = if is_empty value then parts else (thinking, value) ∷ parts

-- The loop of `feed`. Each turn but the last takes a marker from the buffer, so that as many turns
-- as the buffer is long are enough.
unfoldable pub feed_loop : ℕ → Bool → Text → InlineReasoningParser × List Part
unfolding find partial_marker_suffix marker_of append_part
feed_loop zero thinking buffer = (record { buffer = buffer; thinking = thinking }, [])
feed_loop (suc fuel) thinking [] = (record { buffer = []; thinking = thinking }, [])
feed_loop (suc fuel) thinking (c ∷ text) = elim (find (marker_of thinking) (c ∷ text)) [
  | some index ↦
      let rest = drop (index + length (marker_of thinking)) (c ∷ text) in
      let (last, parts) = feed_loop fuel (not thinking) rest in
      (last, append_part thinking (take index (c ∷ text)) parts)
  | none ↦
      let held = partial_marker_suffix (c ∷ text) (marker_of thinking) in
      let boundary = length (c ∷ text) - held in
      (
        record { buffer = drop boundary (c ∷ text); thinking = thinking },
        append_part thinking (take boundary (c ∷ text)) [],
      )
]

unfoldable pub feed : InlineReasoningParser → Text → InlineReasoningParser × List Part
unfolding feed_loop
feed p value = let buffer = p.buffer ++ value in feed_loop (suc (length buffer)) p.thinking buffer

unfoldable pub finish : InlineReasoningParser → InlineReasoningParser × List Part
unfolding append_part
finish p = (record p { buffer = [] }, append_part p.thinking p.buffer [])
