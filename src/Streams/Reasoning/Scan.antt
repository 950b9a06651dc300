-- ===== src/Streams/Reasoning/Scan.antt =====
-- A scan of a whole text from the left, and how it goes on behind a marker and in front of one.
use native.Mathlib.Decide.{dec_le}
use aeloon_runtime.Prelude.{
  ℕ, zero, suc, ◌+◌, ◌-◌, ◌≤◌, ◌<◌, ◌≡◌, refl, sym, ap, ◌∙◌, inl, inr, Bool, true, false, not, none,
  some, List, [], ◌∷◌, ◌++◌, take, drop, length, arith, map, if◌then◌else◌,
}
use aeloon_runtime.Streams.Reasoning.{Text, Part, starts_with, find, marker_of}
use aeloon_runtime.Streams.Reasoning.Markers.{
  starts_with-append, starts_with-le, find-le, find-cons, find-cases, Free,
}

-- The characters of a text, all thinking or all not.
abbrev pub Marked : Type 0
Marked = List (Bool × ℕ)

abbrev pub marked : Bool → Text → Marked
marked thinking text = map (λ c. (thinking, c)) text

abbrev pub flat : List Part → Marked
flat [] = []
flat ((thinking, text) ∷ parts) = marked thinking text ++ flat parts

-- A text read from the left: where a marker begins, its characters are skipped and the mode changes.
unfoldable pub scan : Bool → ℕ → Text → Marked
scan thinking skip [] = []
scan thinking (suc skip) (c ∷ text) = scan thinking skip text
scan thinking zero (c ∷ text) =
    let inside = (thinking, c) ∷ scan thinking 0 text in
    let behind = scan (not thinking) (length (marker_of thinking) - 1) text in
    if starts_with (marker_of thinking) (c ∷ text) then behind else inside

pub marker_pos : (thinking : Bool) → 0 < length (marker_of thinking)
unfolding marker_of
marker_pos true = omega arith
marker_pos false = omega arith

scan-skip :
    (thinking : Bool) (k : ℕ) (text rest : Text)
    → k ≤ length text
    → scan thinking k (text ++ rest) ≡ scan thinking 0 (drop k text ++ rest)
unfolding scan
scan-skip thinking zero text rest h = refl
scan-skip thinking (suc k) [] rest h = absurd (omega arith)
scan-skip thinking (suc k) (c ∷ text) rest h = scan-skip thinking k text rest (omega arith)

scan-inside :
    (thinking : Bool) (c : ℕ) (text : Text)
    → starts_with (marker_of thinking) (c ∷ text) ≡ false
    → scan thinking 0 (c ∷ text) ≡ (thinking, c) ∷ scan thinking 0 text
unfolding scan
scan-inside thinking c text e = rw (e, scan) refl

scan-marker :
    (thinking : Bool) (c : ℕ) (text : Text)
    → starts_with (marker_of thinking) (c ∷ text) ≡ true
    → scan thinking 0 (c ∷ text) ≡ scan (not thinking) (length (marker_of thinking) - 1) text
unfolding scan
scan-marker thinking c text e = rw (e, scan) refl

scan-here :
    (thinking : Bool) (c : ℕ) (text rest : Text)
    → starts_with (marker_of thinking) (c ∷ text) ≡ true
    → scan thinking 0 ((c ∷ text) ++ rest)
      ≡ scan (not thinking) 0 (drop (0 + length (marker_of thinking)) (c ∷ text) ++ rest)
scan-here thinking c text rest here =
    let marker = marker_of thinking in
    let fits = starts_with-le marker (c ∷ text) here in
    let skipped : suc (length marker - 1) ≡ 0 + length marker =
      omega (arith, marker_pos thinking) in
    scan-marker thinking c (text ++ rest) (starts_with-append marker (c ∷ text) rest fits ∙ here)
    ∙ scan-skip (not thinking) (length marker - 1) text rest (omega (arith, marker_pos thinking))
    ∙ ap (λ n. scan (not thinking) 0 (drop n (c ∷ text) ++ rest)) skipped

-- A marker that is found.
pub scan-found :
    (thinking : Bool) (text rest : Text) (i : ℕ)
    → find (marker_of thinking) text ≡ some i
    → scan thinking 0 (text ++ rest)
      ≡ marked thinking (take i text)
        ++ scan (not thinking) 0 (drop (i + length (marker_of thinking)) text ++ rest)
scan-found thinking [] rest i e =
    absurd (omega (arith, find-le (marker_of thinking) [] i e, marker_pos thinking))
scan-found thinking (c ∷ text) rest i e = elim (find-cases (marker_of thinking) c text i e) [
  | inl (here, first) ↦
      scan-here thinking c text rest here
      ∙ ap
          (λ n.
            marked thinking (take n (c ∷ text))
            ++ scan (not thinking) 0 (drop (n + length (marker_of thinking)) (c ∷ text) ++ rest))
          (sym first)
  | inr (j, free, there, next) ↦
      scan-inside thinking c (text ++ rest) (
        starts_with-append (marker_of thinking) (c ∷ text) rest
          (omega (arith, find-le (marker_of thinking) text j there))
        ∙ free)
      ∙ ap (λ cs. (thinking, c) ∷ cs) (scan-found thinking text rest j there)
      ∙ ap
          (λ n.
            marked thinking (take (suc j) (c ∷ text))
            ++ scan (not thinking) 0 (drop n (c ∷ text) ++ rest))
          (let one_more : suc (j + length (marker_of thinking))
                ≡ suc j + length (marker_of thinking) =
              omega arith in
            one_more)
      ∙ ap
          (λ n.
            marked thinking (take n (c ∷ text))
            ++ scan (not thinking) 0 (drop (n + length (marker_of thinking)) (c ∷ text) ++ rest))
          (sym next)
]

-- What is let out of a text without a marker.
pub scan-Free :
    (thinking : Bool) (held : ℕ) (text rest : Text)
    → Free (marker_of thinking) held text
    → scan thinking 0 (text ++ rest)
      ≡ marked thinking (take (length text - held) text)
        ++ scan thinking 0 (drop (length text - held) text ++ rest)
unfolding Free
scan-Free thinking held [] rest h =
    let nothing : 0 ≡ 0 - held = omega arith in
    ap (λ n. marked thinking (take n []) ++ scan thinking 0 (drop n [] ++ rest)) nothing
scan-Free thinking held (c ∷ text) rest h = elim (dec_le held (length text)) [
  | yes p ↦
      let kept : suc (length text - held) ≡ suc (length text) - held = omega arith in
      scan-inside thinking c (text ++ rest) (h.0 p rest)
      ∙ ap (λ cs. (thinking, c) ∷ cs) (scan-Free thinking held text rest h.1)
      ∙ ap (λ n. marked thinking (take n (c ∷ text)) ++ scan thinking 0 (drop n (c ∷ text) ++ rest))
          kept
  | no p ↦
      let all_held : 0 ≡ suc (length text) - held = omega arith in
      ap (λ n. marked thinking (take n (c ∷ text)) ++ scan thinking 0 (drop n (c ∷ text) ++ rest))
        all_held
]

pub scan-end :
    (thinking : Bool) (text : Text)
    → find (marker_of thinking) text ≡ none
    → scan thinking 0 text ≡ marked thinking text
unfolding scan
scan-end thinking [] e = refl
scan-end thinking (c ∷ text) e =
    let (free, later) = find-cons (marker_of thinking) c text e in
    scan-inside thinking c text free ∙ ap (λ cs. (thinking, c) ∷ cs) (scan-end thinking text later)

pub find-drop :
    (marker : Text) (n : ℕ) (text : Text)
    → find marker text ≡ none
    → find marker (drop n text) ≡ none
find-drop marker zero text e = e
find-drop marker (suc n) [] e = e
find-drop marker (suc n) (c ∷ text) e = find-drop marker n text (find-cons marker c text e).1

pub find-nil : (thinking : Bool) → find (marker_of thinking) [] ≡ none
unfolding find marker_of
find-nil true = refl
find-nil false = refl
