-- ===== src/Run/View/Steps.antt =====
-- The observer over a turn, to its end or to the end of the run.
use aeloon_runtime.Prelude.{
  ℕ, suc, ◌+◌, ◌≤◌, refl, subst, inl, inr, Bool-cases, List-cases, Result-cases, String, Bool, true,
  false, Option, some, List, [], ◌∷◌, ◌++◌, map, ◌&&◌, ltb, Result, ok, err, if◌then◌else◌, arith,
}
use aeloon_runtime.Messages.{
  AgentMessage, assistant, tool_result, AssistantMessage, ToolResultMessage, tool_calls, is_failed,
}
use aeloon_runtime.Tools.{ToolMap}
use aeloon_runtime.Run.Engine.{
  RunRequest, overflow, turn_start, turn_end, tool_calls_run, compaction_failed, agent_end,
  overflow_attempt, Turn, Engine, emit, intervene, append_message, append_all, end_agent,
  ContextUpdate, compaction_start, compact, aborted_message, stream_response,
}
use aeloon_runtime.Run.Turns.{
  Step, next, over, failed, after_overflow, run_tools, finish_turn, overflow_turn, answer_turn,
  open_turn, run_turn, judged, overflows, is_length,
}
use aeloon_runtime.Run.View.{
  Stage, between_turns, in_turn, ended, view-append, Sees, latest, latest-results,
  Sees-append_message, Sees-append_all, Sees-stream_response, view-compaction,
  view-failed_compaction,
}

-- The run ended with an answer, after at most two answers that were dropped.
abbrev pub Over : Engine → AssistantMessage → Type 0
Over e m = (n : ℕ) × (n ≤ 2) × Sees e (ended e.new_messages) (some m) n

-- The run stands at a stage, after at most two answers that were dropped.
abbrev pub Stands : Stage → Engine → Type 0
Stands s e = (a : Option AssistantMessage) × (n : ℕ) × (n ≤ 2) × Sees e s a n

-- Where the next turn starts from.
abbrev pub waits : Bool → Stage
waits first_turn = if first_turn then in_turn else between_turns

-- What the observer knows after a turn.
abbrev pub Known : Step → Type 0
Known (next e m more pending n) = (n ≤ 2) × Sees e between_turns (some m) n
Known (over e m) = Over e m
Known (failed e fs) = Stands in_turn e

pub ends :
    (e : Engine) (m : AssistantMessage) (n : ℕ)
    → n ≤ 2
    → Sees e between_turns (some m) n
    → Over (end_agent e) m
ends e m n bound h = (n, bound, view-append e.events (agent_end e.new_messages ∷ []) _ h)

pub turn_ends :
    (e : Engine) (m : AssistantMessage) (results : List ToolResultMessage)
    (a : Option AssistantMessage) (n : ℕ)
    → Sees e in_turn a n
    → Sees (emit e (turn_end m results ∷ [])) between_turns a n
turn_ends e m results a n h = view-append e.events (turn_end m results ∷ []) _ h

Known-finish_turn :
    (e : Engine) (m : AssistantMessage) (results : List ToolResultMessage) (terminate : Bool)
    (n : ℕ)
    → n ≤ 2
    → Sees e in_turn (some m) n
    → Known (finish_turn e m results terminate n)
unfolding finish_turn
Known-finish_turn e m results terminate n bound h =
    let e' = append_all e (map tool_result results) in
    let told = turn_ends e' m results (some m) n (
      subst (λ a. Sees e' in_turn a n) (latest-results (some m) results)
        (Sees-append_all e (map tool_result results) (some m) n h)) in
    elim (Bool-cases (append_all e (map tool_result results)).controller.abort_requested) [
      | inl aborted ↦ rw (aborted, Known) (ends (emit e' (turn_end m results ∷ [])) m n bound told)
      | inr goes_on ↦ rw (goes_on, Known) (bound, told)
    ]

module _ (tools : ToolMap) (active : List String) where
  Sees-run_tools :
      (e : Engine) (m : AssistantMessage) (t : Turn) (a : Option AssistantMessage) (n : ℕ)
      → Sees e in_turn a n
      → Sees (run_tools tools active e m t).0 in_turn a n
  unfolding run_tools
  Sees-run_tools e m t a n h = elim (List-cases (tool_calls m)) [
    | inl no_calls ↦ rw (no_calls, run_tools) h
    | inr (call, (rest, calls)) ↦ elim (Bool-cases (is_length m.stop_reason)) [
      | inl cut ↦ rw (calls, cut, run_tools) (view-append e.events (tool_calls_run _ ∷ []) _ h)
      | inr fine ↦ rw (calls, fine, run_tools) (view-append e.events (tool_calls_run _ ∷ []) _ h)
    ]
  ]

module _ (search : String → String → Bool) (req : RunRequest) (tools : ToolMap)
    (active : List String) where
  Known-answer_turn :
      (e : Engine) (m : AssistantMessage) (t : Turn) (a : Option AssistantMessage) (n : ℕ)
      → n ≤ 2
      → Sees e in_turn a n
      → Known (answer_turn search req tools active e m t n)
  unfolding answer_turn
  Known-answer_turn e m t a n bound h =
      let e' = append_message e (assistant m) true (some e.last_attempt) in
      let said =
        Sees-append_message e in_turn a n (assistant m) true (some e.last_attempt) refl h in
      elim (Bool-cases (is_failed m.stop_reason)) [
        | inl cut ↦
            rw (cut, Known)
              (ends (emit e' (turn_end m [] ∷ [])) m n bound (turn_ends e' m [] (some m) n said))
        | inr fine ↦
            let ran = run_tools tools active e' m t in
            let seen = Sees-run_tools tools active e' m t (some m) n said in
            elim (Result-cases (run_tools tools active e' m t).1) [
              | inl (fs, raises) ↦ rw (fine, raises, Known) (some m, n, bound, seen)
              | inr ((results, terminate), returns) ↦
                  rw (fine, returns, Known)
                    (Known-finish_turn ran.0 m results terminate n bound seen)
            ]
      ]

  Known-compaction :
      (e : Engine) (m : AssistantMessage) (t : Turn) (more : Bool) (n : ℕ)
      (outcome : Result String ContextUpdate)
      → n ≤ 2
      → Sees e between_turns (some m) n
      → Known (after_overflow search req tools active m t more n (compact e overflow true outcome))
  unfolding after_overflow compact
  Known-compaction e m t more n (ok u) bound h =
      (bound, view-compaction e between_turns (some m) n overflow u.summary true refl h)
  Known-compaction e m t more n (err text) bound h =
      let started = emit e (compaction_start overflow ∷ []) in
      let told =
        emit (intervene started t.during_compaction) (compaction_failed overflow text ∷ []) in
      let seen = view-failed_compaction e between_turns (some m) n overflow text refl h in
      let aborted = aborted_message req.model t.now in
      elim (Bool-cases told.controller.abort_requested) [
        | inl cancelled ↦
            rw (cancelled, Known)
              (ends (append_message told (assistant aborted) false (some (told.last_attempt + 1)))
                aborted n bound
                (Sees-append_message told between_turns (some m) n (assistant aborted) false
                  (some (told.last_attempt + 1)) refl seen))
        | inr fine ↦ rw (fine, Known) (ends told m n bound seen)
      ]

  Known-overflow_turn :
      (e : Engine) (m : AssistantMessage) (t : Turn) (more : Bool) (a : Option AssistantMessage)
      (n : ℕ)
      → suc n ≤ 2
      → Sees e in_turn a n
      → Known (overflow_turn search req tools active e m t more n)
  unfolding overflow_turn
  Known-overflow_turn e m t more a n bound h =
      let dropped : Engine = record e {
        new_messages = e.new_messages ++ assistant m ∷ [];
        events = e.events ++ (overflow_attempt m e.last_attempt ∷ turn_end m [] ∷ []);
      } in
      Known-compaction dropped m t more (suc n) t.compaction bound (view-append e.events _ _ h)

  Sees-open_turn :
      (e : Engine) (pending : List AgentMessage) (first_turn : Bool) (a : Option AssistantMessage)
      (n : ℕ)
      → Sees e (waits first_turn) a n
      → Sees (open_turn search req tools active e pending first_turn) in_turn (latest a pending) n
  unfolding open_turn
  Sees-open_turn e pending true a n h = Sees-append_all e pending a n h
  Sees-open_turn e pending false a n h =
      Sees-append_all (emit e (turn_start ∷ [])) pending a n (view-append e.events _ _ h)

  pub Known-run_turn :
      (e : Engine) (t : Turn) (pending : List AgentMessage) (first_turn more : Bool)
      (a : Option AssistantMessage) (n : ℕ)
      → n ≤ 2
      → Sees e (waits first_turn) a n
      → Known (run_turn search req tools active e t pending first_turn more n)
  unfolding run_turn
  Known-run_turn e t pending first_turn more a n bound h =
      let opened = Sees-open_turn e pending first_turn a n h in
      let e' = open_turn search req tools active e pending first_turn in
      let streamed = stream_response search req e' t in
      let seen = Sees-stream_response search req e' t (latest a pending) n opened in
      let m = streamed.1 in
      elim (Bool-cases (
        overflows search req tools active m
        && ltb n 2
        && req.compacts
        && req.context_policy.enabled)) [
          | inl drops ↦
              rw (drops, Known)
                (Known-overflow_turn streamed.0 m t more (latest a pending) n
                  (ground (arith, drops)) seen)
          | inr stands ↦
              rw (stands, Known)
                (Known-answer_turn streamed.0 (judged search req tools active m n) t
                  (latest a pending) n bound seen)
        ]
