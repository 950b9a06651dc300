-- ===== src/Run/View/Whole.antt =====
-- A whole run: what its observer sees.
use aeloon_runtime.Prelude.{
  ℕ, ◌≤◌, ◌≡◌, ◌⊎◌, refl, inl, inr, Bool-cases, either_way, Option-cases, Result-cases, String,
  Bool, true, false, none, some, List, [], ◌∷◌, ◌++◌, map, ◌&&◌, ◌||◌, is_empty, is_blank, Result,
  ok, err, if◌then◌else◌,
}
use aeloon_runtime.Messages.{AgentMessage, AssistantMessage}
use aeloon_runtime.Control.{RunController, bind}
use aeloon_runtime.Compaction.{should_compact}
use aeloon_runtime.Tools.{Tool, ToolMap}
use aeloon_runtime.Tools.Registry.{unique_tools, validate_active_names}
use aeloon_runtime.Run.Engine.{
  RunRequest, ContextUpdate, estimate_inference_context, CompactionReason, settled, Turn, Engine,
  new_engine, intervene, compact, try_compact, threshold, overflow,
}
use aeloon_runtime.Run.Turns.{Ending, finished, raised, running, run_loop}
use aeloon_runtime.Run.Agent.{
  Surroundings, Outcome, refused, run_failed, returned, still_running, compacts_overflow,
  compacts_threshold, tidy_context, prepare_context, end_run, run_bound, run_agent,
  finish_input_error, oversized_input_error,
}
use aeloon_runtime.Run.View.{
  unstarted, between_turns, in_turn, cut_short, ended, done, view, view-append, Sees,
  Sees-try_compact,
}
use aeloon_runtime.Run.View.Steps.{Over}
use aeloon_runtime.Run.View.Loop.{KnownEnding, Known-run_loop, ends_at_once}

-- What the events of a run tell its observer, in the end.
abbrev pub Observed : Outcome → Type 0
Observed refused = ◌≡◌ {A = Bool} true true
Observed (run_failed e fs) = (view e.events).stage ≡ cut_short
Observed (still_running e) =
    ((view e.events).stage ≡ in_turn) ⊎ ((view e.events).stage ≡ between_turns)
Observed (returned e r) =
    (n : ℕ) × (n ≤ 2)
    × (view e.events ≡ record {
      stage = done r.new_messages;
      published = r.new_messages;
      answer = some r.final_message;
      dropped = n;
    })

Over-try_compact :
    (e : Engine) (m : AssistantMessage) (reason : CompactionReason) (will_retry : Bool)
    (outcome : Result String ContextUpdate)
    → Over e m
    → Over (try_compact e reason will_retry outcome) m
unfolding try_compact compact
Over-try_compact e m reason will_retry (ok u) (n, bound, seen) = (
  n,
  bound,
  Sees-try_compact e (ended e.new_messages) (some m) n reason will_retry (ok u) refl seen,
)
Over-try_compact e m reason will_retry (err text) (n, bound, seen) = (
  n,
  bound,
  Sees-try_compact e (ended e.new_messages) (some m) n reason will_retry (err text) refl seen,
)

module _ (search : String → String → Bool) (req : RunRequest) (s : Surroundings) where
  Sees-prepare_context :
      (e : Engine) (initial : List AgentMessage)
      → Sees e unstarted none 0
      → Sees (prepare_context search req s e initial) unstarted none 0
  unfolding prepare_context
  Sees-prepare_context e initial h =
      either_way (λ (e' : Engine). Sees e' unstarted none 0)
        (req.compacts
          && should_compact (estimate_inference_context s.now e (e.messages ++ initial))
              req.model.context_window req.context_policy)
        (try_compact e threshold false s.first_compaction) e
        (Sees-try_compact e unstarted none 0 threshold false s.first_compaction refl h) h

  Over-tidy_context :
      (e : Engine) (m : AssistantMessage) → Over e m → Over (tidy_context search req s e m) m
  unfolding tidy_context
  Over-tidy_context e m h =
      let on_overflow = intervene (try_compact e overflow false s.last_compaction) s.during_last in
      let on_threshold =
        intervene (try_compact e threshold false s.last_compaction) s.during_last in
      let threshold_only = if compacts_threshold search req s e m then on_threshold else e in
      either_way (λ (e' : Engine). Over e' m) (compacts_overflow search req s e m) on_overflow
        threshold_only (Over-try_compact e m overflow false s.last_compaction h)
        (either_way (λ (e' : Engine). Over e' m) (compacts_threshold search req s e m) on_threshold
          e (Over-try_compact e m threshold false s.last_compaction h) h)

  Observed-end_run : (ending : Ending) → KnownEnding ending → Observed (end_run search req s ending)
  unfolding end_run
  Observed-end_run (finished e m) h =
      let e' = tidy_context search req s e m in
      let (n, bound, seen) = Over-tidy_context e m h in
      (n, bound, view-append e'.events (settled ∷ []) _ seen)
  Observed-end_run (raised e fs) (a, n, bound, seen) =
      λ i. (view-append e.events (settled ∷ []) _ seen i).stage
  Observed-end_run (running e) (inl (a, n, bound, seen)) = inl (λ i. (seen i).stage)
  Observed-end_run (running e) (inr (a, n, bound, seen)) = inr (λ i. (seen i).stage)

  module _ (tools : ToolMap) (active : List String) where
    Observed-run_bound :
        (e : Engine) (ts : List Turn)
        → Sees e unstarted none 0
        → Observed (run_bound search req s tools active e ts)
    unfolding run_bound finish_input_error
    Observed-run_bound e ts h =
        let initial : List AgentMessage = elim s.start_hook [
          | none ↦ req.input
          | some given ↦ given
        ] in
        elim (Option-cases (oversized_input_error req.model req.context_policy s.now initial)) [
          | inr (m, oversized) ↦
              let over = finish_input_error e initial m in
              let (n, bound, seen) = ends_at_once e initial m (some 0) h in
              rw (oversized, Observed) (n, bound, view-append over.events (settled ∷ []) _ seen)
          | inl fits ↦
              let prepared = intervene (prepare_context search req s e initial) s.before_loop in
              let known =
                Known-run_loop search req tools active prepared initial ts s.now
                  (Sees-prepare_context e initial h) in
              rw (fits, Observed)
                (Observed-end_run (run_loop search req tools active prepared initial ts s.now)
                  known)
        ]

  -- Whatever the provider, the tools, a compaction and other callers do: the events of a run keep
  -- the order of the stages; a run that returns is settled, and an observer of its events knows the
  -- new messages and the final message that it returns, after at most two answers that were dropped
  -- for a compaction; a run in which a tool raised settles within its turn; and a run that goes on
  -- is within a turn or between turns.
  pub run_agent-Observed :
      (controller : RunController) (ts : List Turn)
      → Observed (run_agent search req s controller ts)
  unfolding run_agent view
  run_agent-Observed controller ts = elim (Bool-cases (is_blank req.run_id || is_empty req.input)) [
    | inl empty ↦ rw (empty, Observed) refl
    | inr fine ↦ elim (Result-cases (unique_tools req.tools)) [
      | inl (f, bad) ↦ rw (fine, bad, Observed) refl
      | inr (tools, unique) ↦
          let names : List String = elim req.active_tool_names [
            | none ↦ map (λ (t : Tool). t.name) req.tools
            | some given ↦ given
          ] in
          elim (Result-cases (validate_active_names tools names)) [
            | inl (f, bad) ↦ rw (fine, unique, bad, Observed) refl
            | inr (active, valid) ↦ elim (Result-cases (bind controller)) [
              | inl (f, busy) ↦ rw (fine, unique, valid, busy, Observed) refl
              | inr (bound, binds) ↦
                  rw (fine, unique, valid, binds, Observed)
                    (Observed-run_bound tools active (new_engine req bound) ts refl)
            ]
          ]
    ]
  ]
