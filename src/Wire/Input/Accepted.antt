-- ===== src/Wire/Input/Accepted.antt =====
-- What an accepted prompt is, and what is refused.
use aeloon_runtime.Prelude.{
  ℕ, ◌≡◌, ◌≤◌, ◌↔◌, refl, String, Bool, true, false, ◌||◌, ltb, is_blank, text_length, Result, ok,
  err, arith, if◌then◌else◌, Bool-cases, inl, inr, subst,
}
use aeloon_runtime.Wire.{Value, Items, Fields}
use aeloon_runtime.Wire.Input.{
  InputFailure, invalid_attachment, TurnInput, prompt, get_value, text_or_empty, list_or_empty,
  count_items, parse_prompt,
}

module _ (str : Value → String) (prompt_limit attachment_limit : ℕ) where
  -- Input with a text and attachments within the limits.
  abbrev pub WithinLimits : Result InputFailure TurnInput → Type 0
  WithinLimits (ok (prompt s attachments)) =
      (is_blank s ≡ false)
      × (text_length s ≤ prompt_limit)
      × (count_items attachments ≤ attachment_limit)
  WithinLimits (ok _) = ◌≡◌ {A = Bool} false true
  WithinLimits (err f) = ◌≡◌ {A = Bool} true true

  attached :
      (shown : String) (attachments : Result InputFailure Items)
      → is_blank shown ≡ false
      → text_length shown ≤ prompt_limit
      → WithinLimits (elim attachments as (λ r. Result InputFailure TurnInput) [
        | err e ↦ err e
        | ok vs ↦
            if ltb attachment_limit (count_items vs)
            then err invalid_attachment
            else ok (prompt shown vs)
      ])
  attached shown (err e) filled short = refl
  attached shown (ok vs) filled short = elim (Bool-cases (ltb attachment_limit (count_items vs))) [
    | inl many ↦ rw (many, WithinLimits) refl
    | inr few ↦ rw (few, WithinLimits) (filled, short, ground (arith, few))
  ]

  -- Whatever mapping is given, a prompt that is accepted has a text that is not blank and no longer
  -- than the limit, and no more attachments than the limit.
  pub parse_prompt-WithinLimits :
      (fs : Fields) → WithinLimits (parse_prompt str prompt_limit attachment_limit fs)
  unfolding parse_prompt
  parse_prompt-WithinLimits fs =
      let shown = text_or_empty str prompt_limit attachment_limit (get_value fs "text") in
      elim (Bool-cases (is_blank shown || ltb prompt_limit (text_length shown))) [
        | inl refused ↦ rw (refused, parse_prompt) refl
        | inr taken ↦
            rw (taken, parse_prompt)
              (attached shown _ (ground (arith, taken)) (ground (arith, taken)))
      ]

  accepted :
      (fs : Fields) (s : String) (vs : Items)
      → get_value fs "text" ≡ Value.text s
      → get_value fs "attachments" ≡ Value.sequence vs
      → (is_blank s ≡ false) × (text_length s ≤ prompt_limit) × (count_items vs ≤ attachment_limit)
      → parse_prompt str prompt_limit attachment_limit fs ≡ ok (prompt s vs)
  unfolding parse_prompt text_or_empty list_or_empty
  accepted fs s vs its_text its_list (filled, short, few) =
      let fits : (is_blank s || ltb prompt_limit (text_length s)) ≡ false =
        ground (arith, filled, short) in
      let room : ltb attachment_limit (count_items vs) ≡ false = ground (arith, few) in
      rw (its_text, its_list, fits, room, parse_prompt)
        (λ i. ok (prompt (text_or_empty str prompt_limit attachment_limit (its_text i)) vs))

  -- A mapping with a text and a list of attachments is accepted as a prompt of them exactly when the
  -- text is not blank, and both are within their limits.
  pub parse_prompt-exactly :
      (fs : Fields) (s : String) (vs : Items)
      → get_value fs "text" ≡ Value.text s
      → get_value fs "attachments" ≡ Value.sequence vs
      → (parse_prompt str prompt_limit attachment_limit fs ≡ ok (prompt s vs)) ↔ (
          (is_blank s ≡ false)
          × (text_length s ≤ prompt_limit)
          × (count_items vs ≤ attachment_limit))
  parse_prompt-exactly fs s vs its_text its_list = (
    λ is_ok. subst WithinLimits is_ok (parse_prompt-WithinLimits fs),
    accepted fs s vs its_text its_list,
  )
