-- ===== src/Run/View/Loop.antt =====
-- The observer over the loop of a run, from its start to its end.
use aeloon_runtime.Prelude.{
  ℕ, ◌+◌, ◌≤◌, ◌≡◌, ◌⊎◌, refl, subst, inl, inr, Bool-cases, String, Bool, true, false, Option, none,
  some, List, [], ◌∷◌, map, ◌||◌, not, is_empty, arith,
}
use aeloon_runtime.Messages.{AgentMessage, assistant, user, AssistantMessage}
use aeloon_runtime.Control.{steer, follow_up, drain}
use aeloon_runtime.Tools.{ToolMap, Failure}
use aeloon_runtime.Run.Engine.{
  RunRequest, agent_start, turn_start, turn_end, Turn, Engine, emit, append_message, append_all,
  aborted_message, end_agent,
}
use aeloon_runtime.Run.Turns.{
  Step, next, over, failed, run_turn, Ending, finished, raised, running, run_turns, run_loop,
}
use aeloon_runtime.Run.View.{
  unstarted, between_turns, in_turn, view-append, Sees, latest, Sees-append_message,
  Sees-append_all,
}
use aeloon_runtime.Run.View.Steps.{Over, Stands, Known, ends, turn_ends, waits, Known-run_turn}

-- What the observer knows when the loop ends.
abbrev pub KnownEnding : Ending → Type 0
KnownEnding (finished e m) = Over e m
KnownEnding (raised e fs) = Stands in_turn e
KnownEnding (running e) = Stands in_turn e ⊎ Stands between_turns e

Step-cases :
    (s : Step)
    → ((e : Engine) × ((m : AssistantMessage) × (s ≡ over e m)))
      ⊎ (((e : Engine) × ((fs : List Failure) × (s ≡ failed e fs)))
          ⊎ ((e : Engine) × ((m : AssistantMessage) × ((more : Bool) × ((pending : List
                      AgentMessage)
                    × ((n : ℕ) × (s ≡ next e m more pending n)))))))
Step-cases (over e m) = inl (e, (m, refl))
Step-cases (failed e fs) = inr (inl (e, (fs, refl)))
Step-cases (next e m more pending n) = inr (inr (e, (m, (more, (pending, (n, refl))))))

still_runs :
    (e : Engine) (first_turn : Bool) (a : Option AssistantMessage) (n : ℕ)
    → n ≤ 2
    → Sees e (waits first_turn) a n
    → KnownEnding (running e)
still_runs e true a n bound h = inl (a, n, bound, h)
still_runs e false a n bound h = inr (a, n, bound, h)

-- A run that publishes its input and an answer of its own.
pub ends_at_once :
    (e : Engine) (initial : List AgentMessage) (m : AssistantMessage) (attempt : Option ℕ)
    → Sees e unstarted none 0
    → Over
        (end_agent (
          emit
            (append_message
              (append_all (emit e (agent_start ∷ turn_start ∷ [])) initial)
              (assistant m)
              false
              attempt)
            (turn_end m [] ∷ [])))
        m
ends_at_once e initial m attempt h =
    let started = append_all (emit e (agent_start ∷ turn_start ∷ [])) initial in
    let said =
      Sees-append_message started in_turn (latest none initial) 0 (assistant m) false attempt refl (
        Sees-append_all (emit e (agent_start ∷ turn_start ∷ [])) initial none 0
          (view-append e.events _ _ h)) in
    let told = append_message started (assistant m) false attempt in
    ends (emit told (turn_end m [] ∷ [])) m 0 (omega arith) (turn_ends told m [] (some m) 0 said)

module _ (search : String → String → Bool) (req : RunRequest) (tools : ToolMap)
    (active : List String) where
  Known-run_turns :
      (ts : List Turn) (e : Engine) (pending : List AgentMessage) (first_turn more : Bool) (n : ℕ)
      (a : Option AssistantMessage)
      → n ≤ 2
      → Sees e (waits first_turn) a n
      → KnownEnding (run_turns search req tools active ts e pending first_turn more n)
  unfolding run_turns
  Known-run_turns [] e pending first_turn more n a bound h = still_runs e first_turn a n bound h
  Known-run_turns (t ∷ ts) e pending first_turn more n a bound h =
      let known = Known-run_turn search req tools active e t pending first_turn more a n bound h in
      elim (Step-cases (run_turn search req tools active e t pending first_turn more n)) [
        | inl (e', (m, eq)) ↦ rw (eq, KnownEnding) (subst Known eq known)
        | inr (inl (e', (fs, eq))) ↦ rw (eq, KnownEnding) (subst Known eq known)
        | inr (inr (e', (m, (more', (pending', (n', eq)))))) ↦
            let (bound', seen) = subst Known eq known in
            let (c, follow) = drain e'.controller follow_up in
            let drained = record e' { controller = c } in
            elim (Bool-cases (more' || not (is_empty pending'))) [
              | inl goes_on ↦
                  rw (eq, goes_on, KnownEnding)
                    (Known-run_turns ts e' pending' false more' n' (some m) bound' seen)
              | inr stops ↦ elim (Bool-cases (is_empty follow)) [
                | inl nothing ↦ rw (eq, stops, nothing, KnownEnding) (ends drained m n' bound' seen)
                | inr more_input ↦
                    rw (eq, stops, more_input, KnownEnding)
                      (Known-run_turns ts drained (map user follow) false true n' (some m) bound'
                        seen)
              ]
            ]
      ]

  -- From an unstarted run.
  pub Known-run_loop :
      (e : Engine) (initial : List AgentMessage) (ts : List Turn) (now : ℕ)
      → Sees e unstarted none 0
      → KnownEnding (run_loop search req tools active e initial ts now)
  unfolding run_loop
  Known-run_loop e initial ts now h =
      let begun = emit e (agent_start ∷ turn_start ∷ []) in
      let started = append_all begun initial in
      let seen = Sees-append_all begun initial none 0 (view-append e.events _ _ h) in
      let (c, pending) = drain started.controller steer in
      elim (Bool-cases started.controller.abort_requested) [
        | inl cancelled ↦
            rw (cancelled, KnownEnding)
              (ends_at_once e initial (aborted_message req.model now)
                (some (started.last_attempt + 1)) h)
        | inr fine ↦
            rw (fine, KnownEnding)
              (Known-run_turns ts (record started { controller = c }) (map user pending) true true 0
                (latest none initial) (omega arith) seen)
      ]
