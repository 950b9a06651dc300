-- ===== src/Session/Reading/Lines.antt =====
-- The lines of a file that was written line by line.
use aeloon_runtime.Prelude.{
  ℕ, ◌≡◌, refl, ap, ◌∙◌, true, false, not, List, [], ◌∷◌, ◌++◌, all, All, is_empty, arith,
  append_assoc, if_cases,
}
use aeloon_runtime.Session.Reading.{Text, is_break, before_first, split_lines, written}

-- `splitlines` finds no end of a line in the text.
abbrev pub IsUnbroken : Text → Type 0
IsUnbroken text = all (λ c. not (is_break c)) text ≡ true

split_lines-before :
    (c : ℕ) (text : Text)
    → is_break c ≡ false
    → split_lines false (c ∷ text) ≡ before_first c (split_lines false text)
unfolding split_lines
split_lines-before c text h =
    if_cases (λ ls. ls ≡ before_first c (split_lines false text)) (is_break c) _ _
      (λ b. absurd (cc (b, h))) (λ n. refl)

unbroken_first : (c : ℕ) (text : Text) → IsUnbroken (c ∷ text) → is_break c ≡ false
unbroken_first c text h = ground arith

unbroken_rest : (c : ℕ) (text : Text) → IsUnbroken (c ∷ text) → IsUnbroken text
unbroken_rest c text h = ground arith

pub split_lines-line :
    (line rest : Text)
    → IsUnbroken line
    → split_lines false (line ++ (10 ∷ rest)) ≡ line ∷ split_lines false rest
unfolding split_lines before_first
split_lines-line [] rest h = refl
split_lines-line (c ∷ line) rest h =
    split_lines-before c (line ++ (10 ∷ rest)) (unbroken_first c line h)
    ∙ ap (before_first c) (split_lines-line line rest (unbroken_rest c line h))

-- Each line is read back, and what stands behind them.
pub split_lines-written :
    (lines : List Text) (rest : Text)
    → All IsUnbroken lines
    → split_lines false (written lines ++ rest) ≡ lines ++ split_lines false rest
unfolding written
split_lines-written [] rest h = refl
split_lines-written (line ∷ lines) rest h =
    ap (split_lines false) (append_assoc line (10 ∷ written lines) rest)
    ∙ split_lines-line line (written lines ++ rest) h.0
    ∙ ap (λ ls. line ∷ ls) (split_lines-written lines rest h.1)

pub split_lines-last :
    (line : Text) → IsUnbroken line → is_empty line ≡ false → split_lines false line ≡ line ∷ []
unfolding split_lines before_first
split_lines-last [] h e = absurd (ground arith)
split_lines-last (c ∷ []) h e = split_lines-before c [] (unbroken_first c [] h)
split_lines-last (c ∷ d ∷ line) h e =
    split_lines-before c (d ∷ line) (unbroken_first c (d ∷ line) h)
    ∙ ap (before_first c) (split_lines-last (d ∷ line) (unbroken_rest c (d ∷ line) h) refl)
