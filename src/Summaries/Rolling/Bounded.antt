-- ===== src/Summaries/Rolling/Bounded.antt =====
-- The requests of a rolling summary: their size, what they take of the units, and their end.
use aeloon_runtime.Prelude.{
  ℕ, zero, suc, ◌+◌, ◌-◌, ◌/◌, ◌≤◌, ◌≡◌, refl, ap, subst, cons_eq, String, Bool, true, false,
  Option, none, some, List, [], ◌∷◌, ◌++◌, ltb, leb, length, length-append, text_length,
  text_length-take_text, text_length-append_text, take_text, either_way, Bool-cases, Result-cases,
  inl, inr, Result, ok, err, arith, if◌then◌else◌, strip, str_eq, List-cases,
}
use aeloon_runtime.Messages.{Usage, AgentMessage, no_usage, AssistantMessage, is_failed}
use aeloon_runtime.Inference.Retry.{Model, StreamOptions, Attempt, request}
use aeloon_runtime.Summaries.{truncate_text, truncation_marker, conversation_units}
use aeloon_runtime.Summaries.Prompts.{summarization_system_prompt, update_summarization_prompt}
use aeloon_runtime.Summaries.Rolling.{
  input_chars, select, Round, fitted_prompts, compose, SummaryFailure, still_running,
  summary_request, rounds, rolling_summary, answer_text, combine_usage,
}

truncated_fits : (value : String) (n : ℕ) (b : Bool) → text_length (truncate_text value n b) ≤ n
unfolding truncate_text
truncated_fits value n b =
    let marker = truncation_marker value n b in
    let kept = take_text (n - text_length marker) value in
    elim (Bool-cases (leb (text_length value) n)) [
      | inl short ↦ rw short (ground (arith, short))
      | inr long ↦ elim (Bool-cases (leb n (text_length marker))) [
        | inl tight ↦ rw (long, tight) (omega (arith, text_length-take_text n marker))
        | inr wide ↦
            rw (long, wide)
              (ground (
                arith,
                wide,
                text_length-append_text kept marker,
                text_length-take_text (n - text_length marker) value,
              ))
      ]
    ]

-- `left` is what is left of the units when at least `k` of them are taken from the front.
abbrev pub Takes : ℕ → List String → List String → Type 0
Takes k units left = (taken : List String) × (k ≤ length taken) × (units ≡ taken ++ left)

Takes-more :
    (k : ℕ) (u : String) (units left : List String)
    → Takes k units left
    → Takes (suc k) (u ∷ units) left
Takes-more k u units left (taken, enough, split) =
    (u ∷ taken, omega (arith, enough), cons_eq refl split)

Takes-at_least : {units left : List String} → Takes 1 units left → Takes 0 units left
Takes-at_least (taken, enough, split) = (taken, omega arith, split)

select_from-Takes :
    (budget chars : ℕ) (s : String) (selected units : List String)
    → Takes 0 units (select budget chars (s ∷ selected) units).1
unfolding select
select_from-Takes budget chars s selected [] = ([], omega arith, refl)
select_from-Takes budget chars s selected (u ∷ rest) =
    let chars' = chars + (text_length u + 2) in
    let with_u = s ∷ (selected ++ u ∷ []) in
    let more = select budget chars' with_u rest in
    let last = if leb budget chars' then (with_u, rest) else more in
    either_way (λ (p : List String × List String). Takes 0 (u ∷ rest) p.1) (ltb budget chars')
      (s ∷ selected, u ∷ rest) last ([], omega arith, refl)
      (either_way (λ (p : List String × List String). Takes 0 (u ∷ rest) p.1) (leb budget chars')
        (with_u, rest) more (u ∷ [], omega arith, refl)
        (Takes-at_least (
          Takes-more 0 u rest more.1
            (select_from-Takes budget chars' s (selected ++ u ∷ []) rest))))

select-Takes :
    (budget chars : ℕ) (u : String) (rest : List String)
    → Takes 1 (u ∷ rest) (select budget chars [] (u ∷ rest)).1
unfolding select
select-Takes budget chars u rest =
    let unit = if ltb budget (text_length u) then truncate_text u budget false else u in
    let chars' = chars + (text_length unit + 2) in
    let more = select budget chars' (unit ∷ []) rest in
    either_way (λ (p : List String × List String). Takes 1 (u ∷ rest) p.1) (leb budget chars')
      (unit ∷ [], rest) more (u ∷ [], omega arith, refl)
      (Takes-more 0 u rest more.1 (select_from-Takes budget chars' unit [] rest))

-- The prompts of a round fit together.
abbrev pub Fits : ℕ → Round → Type 0
Fits chars r = text_length r.system_prompt + text_length r.prompt ≤ chars

system_fits :
    (chars : ℕ) (instructions : String) → text_length (fitted_prompts chars instructions).0 ≤ chars
unfolding fitted_prompts
system_fits chars instructions =
    let cut = truncate_text summarization_system_prompt (chars / 4) false in
    elim (Bool-cases (ltb chars (310 + text_length instructions + 34))) [
      | inl tight ↦
          rw (tight, fitted_prompts)
            (omega (arith, truncated_fits summarization_system_prompt (chars / 4) false))
      | inr roomy ↦ rw (roomy, fitted_prompts) (ground (arith, roomy))
    ]

compose-Fits :
    (chars : ℕ) (instructions summary : String) (units : List String)
    → Fits chars (compose chars instructions summary units)
unfolding compose
compose-Fits chars instructions summary units = omega (
  arith,
  system_fits chars instructions,
  truncated_fits _ (chars - text_length (fitted_prompts chars instructions).0) false,
)

abbrev is_final : SummaryFailure → Bool
is_final still_running = false
is_final _ = true

-- The requests of a summary of the units: each fits the window and takes at least one unit from the
-- front of those that are left, and a summary that is returned leaves none.
abbrev pub Summarizes :
    ℕ → List String → List Round → Result SummaryFailure (String × Usage) → Type 0
Summarizes chars units [] (err f) = is_final f ≡ true
Summarizes chars [] [] (ok s) = ◌≡◌ {A = Bool} true true
Summarizes chars (u ∷ units) [] (ok s) = ◌≡◌ {A = Bool} false true
Summarizes chars units (r ∷ rs) outcome =
    Fits chars r × Takes 1 units r.left × Summarizes chars r.left rs outcome

Takes-shorter :
    (n : ℕ) (u : String) (units left : List String)
    → length units ≤ n
    → Takes 1 (u ∷ units) left
    → length left ≤ n
Takes-shorter n u units left h (taken, enough, split) =
    omega (arith, ap length split, length-append taken left, enough)

abbrev EndsFinal : Result SummaryFailure AssistantMessage → Type 0
EndsFinal (err f) = is_final f ≡ true
EndsFinal (ok m) = ◌≡◌ {A = Bool} true true

compose-Takes :
    (chars : ℕ) (instructions summary : String) (u : String) (units : List String)
    → Takes 1 (u ∷ units) (compose chars instructions summary (u ∷ units)).left
unfolding compose
compose-Takes chars instructions summary u units = select-Takes _ 0 u units

module _ (search : String → String → Bool) (model : Model) (options : StreamOptions)
    (attempts : ℕ → ℕ → Attempt) where
  summary_request-EndsFinal :
      (index : ℕ) → EndsFinal (summary_request search model options attempts index)
  unfolding summary_request
  summary_request-EndsFinal index =
      let m = (request search model options (attempts index) 0).message in
      elim (Bool-cases (is_failed m.stop_reason)) [
        | inl fails ↦ rw (fails, EndsFinal, summary_request) refl
        | inr fine ↦ elim (Bool-cases (str_eq (strip (answer_text m)) "")) [
          | inl empty ↦ rw (fine, empty, EndsFinal, summary_request) refl
          | inr full ↦ rw (fine, full, EndsFinal, summary_request) refl
        ]
      ]

  rounds-Summarizes :
      (fuel chars : ℕ) (instructions : String) (index : ℕ) (summary : String) (usage : Usage)
      (units : List String)
      → length units ≤ fuel
      → Summarizes chars units
          (rounds search model options attempts fuel chars instructions index summary usage units).0
          (rounds search model options attempts fuel chars instructions index summary usage units).1
  unfolding rounds
  rounds-Summarizes fuel chars instructions index summary usage [] h = refl
  rounds-Summarizes zero chars instructions index summary usage (u ∷ units) h = ground (arith, h)
  rounds-Summarizes (suc fuel) chars instructions index summary usage (u ∷ units) h =
      let given : String = elim index [
        | zero ↦ instructions
        | suc n ↦ update_summarization_prompt
      ] in
      let round = compose chars given summary (u ∷ units) in
      let fits = compose-Fits chars given summary (u ∷ units) in
      let takes = compose-Takes chars given summary u units in
      elim (Result-cases (summary_request search model options attempts index)) [
        | inl (f, fails) ↦
            rw (fails, rounds)
              (fits, takes, subst EndsFinal fails (summary_request-EndsFinal index))
        | inr (m, answers) ↦
            rw (answers, rounds)
              (
                fits,
                takes,
                rounds-Summarizes fuel chars instructions (suc index) (strip (answer_text m))
                    (combine_usage usage m.usage) round.left
                    (Takes-shorter fuel u units round.left (omega (arith, h)) takes),
              )
      ]

  -- The requests of a rolling summary: each fits the window, takes at least one unit from the front
  -- of those that are left, and a summary that is returned leaves none; it always returns or fails,
  -- and makes no request for units that an earlier one has taken.
  pub rolling_summary-Summarizes :
      (dumps : String → String) (reserve_tokens : ℕ) (instructions : String)
      (previous : Option String) (messages : List AgentMessage)
      → let chars = input_chars model reserve_tokens in
        let (made, outcome) =
          rolling_summary search model options attempts dumps reserve_tokens instructions previous
            messages in
        Summarizes chars (conversation_units dumps messages chars) made outcome
  unfolding rolling_summary
  rolling_summary-Summarizes dumps reserve_tokens instructions previous messages =
      let chars = input_chars model reserve_tokens in
      elim (List-cases (conversation_units dumps messages chars)) [
        | inl nothing ↦ rw (nothing, rolling_summary) refl
        | inr (u, (units, eq)) ↦
            let summary : String = elim previous [ none ↦ "" | some s ↦ s ] in
            rw (eq, rolling_summary)
              (rounds-Summarizes (length (u ∷ units)) chars instructions 0 summary no_usage
                (u ∷ units) (omega arith))
      ]
