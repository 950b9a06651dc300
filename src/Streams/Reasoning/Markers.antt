-- ===== src/Streams/Reasoning/Markers.antt =====
-- Where markers stand in a text, and where one may begin that the text does not end.
use native.Mathlib.Decide.{ℕ_discrete, dec_le}
use aeloon_runtime.Prelude.{
  Option-cases, ℕ, zero, suc, ◌+◌, ◌-◌, ◌≤◌, ◌<◌, ◌≡◌, refl, ap, subst, ◌∙◌, inl, inr, ◌⊎◌, true,
  false, none, some, [], ◌∷◌, ◌++◌, ◌&&◌, take, drop, length, length-append, length-take, min,
  Bool-cases, arith, append_assoc, ◌==◌,
}
use aeloon_runtime.Streams.Reasoning.{
  Text, starts_with, same_text, ends_with, find, longest_suffix, partial_marker_suffix,
}

-- Text behind a text that is as long as the marker does not matter.
pub starts_with-append :
    (marker text rest : Text)
    → length marker ≤ length text
    → starts_with marker (text ++ rest) ≡ starts_with marker text
starts_with-append [] text rest h = refl
starts_with-append (m ∷ marker) [] rest h = absurd (omega arith)
starts_with-append (m ∷ marker) (c ∷ text) rest h =
    ap (λ b. m == c && b) (starts_with-append marker text rest (omega arith))

-- A text in front of a marker is how the marker begins.
starts_with-take :
    (marker text rest : Text)
    → length text ≤ length marker
    → starts_with marker (text ++ rest) ≡ true
    → same_text (take (length text) marker) text ≡ true
starts_with-take marker [] rest h e = refl
starts_with-take [] (c ∷ text) rest h e = absurd (omega arith)
starts_with-take (m ∷ marker) (c ∷ text) rest h e =
    ground (arith, starts_with-take marker text rest)

pub starts_with-le :
    (marker text : Text) → starts_with marker text ≡ true → length marker ≤ length text
starts_with-le [] text e = omega arith
starts_with-le (m ∷ marker) [] e = absurd (cc e)
starts_with-le (m ∷ marker) (c ∷ text) e = ground (arith, starts_with-le marker text)

pub find-le :
    (marker text : Text) (i : ℕ) → find marker text ≡ some i → i + length marker ≤ length text
unfolding find
find-le marker [] i e = ground (arith, starts_with-le marker [])
find-le marker (c ∷ text) i e = elim (Option-cases (find marker text)) [
  | inl nowhere ↦ ground (arith, starts_with-le marker (c ∷ text))
  | inr (j, there) ↦ ground (arith, starts_with-le marker (c ∷ text), find-le marker text j)
]

longest_suffix-max :
    (value marker : Text) (top n : ℕ)
    → n ≤ top
    → ends_with (take n marker) value ≡ true
    → n ≤ longest_suffix value marker top
unfolding longest_suffix
longest_suffix-max value marker zero n h e = omega arith
longest_suffix-max value marker (suc top) n h e =
    elim (Bool-cases (ends_with (take (suc top) marker) value)) [
      | inl t ↦ rw t h
      | inr t ↦ rw t (elim (ℕ_discrete n (suc top)) [
        | yes p ↦ absurd (cc (ap (λ k. ends_with (take k marker) value) p, e, t))
        | no p ↦ longest_suffix-max value marker top n (omega arith) e
      ])
    ]

drop-length : (front text : Text) → drop (length front) (front ++ text) ≡ text
drop-length [] text = refl
drop-length (c ∷ front) text = drop-length front text

drop_front :
    (front text : Text) → drop (length (front ++ text) - length text) (front ++ text) ≡ text
drop_front front text =
    ap (λ n. drop n (front ++ text)) (omega (arith, length-append front text))
    ∙ drop-length front text

length-longest_suffix : (value marker : Text) (top : ℕ) → longest_suffix value marker top ≤ top
unfolding longest_suffix
length-longest_suffix value marker zero = omega arith
length-longest_suffix value marker (suc top) =
    ground (arith, length-longest_suffix value marker top)

-- No marker begins in `text`, whatever comes behind it, but in its last `held` places.
unfoldable pub Free : Text → ℕ → Text → Type 0
Free marker held [] = Unit
Free marker held (c ∷ text) =
    (held ≤ length text → (rest : Text) → starts_with marker ((c ∷ text) ++ rest) ≡ false)
    × Free marker held text

pub find-cons :
    (marker : Text) (c : ℕ) (text : Text)
    → find marker (c ∷ text) ≡ none
    → (starts_with marker (c ∷ text) ≡ false) × (find marker text ≡ none)
unfolding find
find-cons marker c text e = elim (Option-cases (find marker text)) [
  | inl nowhere ↦ ground arith
  | inr (j, there) ↦ ground arith
]

pub find-cases :
    (marker : Text) (c : ℕ) (text : Text) (i : ℕ)
    → find marker (c ∷ text) ≡ some i
    → ((starts_with marker (c ∷ text) ≡ true) × (i ≡ 0))
      ⊎ ((j : ℕ) × (starts_with marker (c ∷ text) ≡ false)
          × (find marker text ≡ some j)
          × (i ≡ suc j))
unfolding find
find-cases marker c text i e = elim (Bool-cases (starts_with marker (c ∷ text))) [
  | inl here ↦ inl (here, ground arith)
  | inr free ↦ elim (Option-cases (find marker text)) [
    | inl nowhere ↦ absurd (ground arith)
    | inr (j, there) ↦ inr (j, free, there, ground arith)
  ]
]

-- A suffix that begins a marker is among those that are tried.
suffix-le :
    (marker front text rest : Text)
    → length text < length marker
    → starts_with marker (text ++ rest) ≡ true
    → length text ≤ partial_marker_suffix (front ++ text) marker
unfolding partial_marker_suffix
suffix-le marker front text rest short begins =
    longest_suffix-max (front ++ text) marker (min (length (front ++ text)) (length marker - 1))
      (length text) (omega (arith, length-append front text))
      (ap
          (λ n.
            same_text (take (length text) marker)
              (drop (length (front ++ text) - n) (front ++ text)))
          (omega (arith, length-take (length text) marker))
        ∙ ap (same_text (take (length text) marker)) (drop_front front text)
        ∙ starts_with-take marker text rest (omega arith) begins)

no_begin :
    (marker front : Text) (c : ℕ) (text rest : Text)
    → starts_with marker (c ∷ text) ≡ false
    → partial_marker_suffix (front ++ c ∷ text) marker ≤ length text
    → starts_with marker ((c ∷ text) ++ rest) ≡ true
    → ⊥
no_begin marker front c text rest not_here held begins =
    elim (dec_le (length marker) (suc (length text))) [
      | yes p ↦ cc (starts_with-append marker (c ∷ text) rest p, begins, not_here)
      | no p ↦ omega (arith, suffix-le marker front (c ∷ text) rest (omega arith) begins)
    ]

-- At the end of a value a marker may begin that is not longer than what is held back.
pub Free-suffix :
    (marker front text : Text)
    → find marker text ≡ none
    → Free marker (partial_marker_suffix (front ++ text) marker) text
unfolding Free
Free-suffix marker front [] e = tt
Free-suffix marker front (c ∷ text) e =
    let (not_here, not_later) = find-cons marker c text e in
    (
      λ held rest. elim (Bool-cases (starts_with marker ((c ∷ text) ++ rest))) [
        | inr free ↦ free
        | inl begins ↦ absurd (no_begin marker front c text rest not_here held begins)
      ],
      subst (λ value. Free marker (partial_marker_suffix value marker) text)
          (append_assoc front (c ∷ []) text) (Free-suffix marker (front ++ c ∷ []) text not_later),
    )
