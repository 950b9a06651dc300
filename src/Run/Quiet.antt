-- ===== src/Run/Quiet.antt =====
-- The end of `_run_loop`: a turn without tool calls and without further input.
use aeloon_runtime.Prelude.{
  ℕ, ◌≡◌, refl, ap, sym, subst, leb, String, Bool, true, false, some, List, [], ◌∷◌, Bool-cases,
  inl, inr, ok,
}
use aeloon_runtime.Messages.{
  UserMessage, AgentMessage, assistant, AssistantMessage, tool_calls, is_failed,
}
use aeloon_runtime.Control.{steer, follow_up, RunController, drain}
use aeloon_runtime.Tools.{ToolMap}
use aeloon_runtime.Run.Engine.{
  RunRequest, Turn, Engine, append_message, append_all, emit, turn_end, end_agent,
}
use aeloon_runtime.Run.Turns.{
  over, overflows, judged, run_tools, finish_turn, answer_turn, run_turn, finished, run_turns,
}
use aeloon_runtime.Run.Overflow.{streamed, drain_nothing}

no_tools :
    (tools : ToolMap) (active : List String) (e : Engine) (m : AssistantMessage) (t : Turn)
    → tool_calls m ≡ []
    → run_tools tools active e m t ≡ (e, ok ([], false))
unfolding run_tools
no_tools tools active e m t h = rw (h, run_tools) refl

drained_twice :
    (c : RunController)
    → c.queues.steering ≡ []
    → c.queues.following ≡ []
    → (drain (drain c steer).0 follow_up).1 ≡ []
drained_twice c no_steering no_following =
    subst (λ (r : RunController × List UserMessage). (drain r.0 follow_up).1 ≡ [])
      (sym (drain_nothing c steer no_steering))
      (ap (λ r. r.1) (drain_nothing c follow_up no_following))

module _ (search : String → String → Bool) (req : RunRequest) (tools : ToolMap)
    (active : List String) (e : Engine) (t : Turn) (pending : List AgentMessage)
    (first_turn : Bool) where
  abbrev pub answer : AssistantMessage
  answer = (streamed search req tools active e t pending first_turn).1

  abbrev pub behind : Engine
  behind = (streamed search req tools active e t pending first_turn).0

  abbrev said : Engine
  said = append_message behind (assistant answer) true (some behind.last_attempt)

  abbrev closed : Engine
  closed = emit said (turn_end answer [] ∷ [])

  judged_same :
      (n : ℕ)
      → overflows search req tools active answer ≡ false
      → judged search req tools active answer n ≡ answer
  unfolding judged
  judged_same n fits = elim (Bool-cases (leb 2 n)) [
    | inl late ↦ rw (late, fits, judged) refl
    | inr early ↦ rw (early, judged) refl
  ]

  answer_stands :
      (more : Bool) (n : ℕ)
      → overflows search req tools active answer ≡ false
      → run_turn search req tools active e t pending first_turn more n
        ≡ answer_turn search req tools active behind answer t n
  unfolding run_turn judged
  answer_stands more n fits =
      rw (fits, run_turn)
        (ap (λ m. answer_turn search req tools active behind m t n) (judged_same n fits))

  answer_fails :
      (n : ℕ)
      → is_failed answer.stop_reason ≡ true
      → answer_turn search req tools active behind answer t n ≡ over (end_agent closed) answer
  unfolding answer_turn
  answer_fails n cut = rw (cut, answer_turn) refl

  answer_ends :
      (n : ℕ)
      → tool_calls answer ≡ []
      → is_failed answer.stop_reason ≡ false
      → answer_turn search req tools active behind answer t n ≡ finish_turn said answer [] false n
  unfolding answer_turn
  answer_ends n quiet fine =
      let nothing = no_tools tools active said answer t quiet in
      rw (fine, ap (λ r. r.1) nothing, ap (λ r. r.0) nothing, answer_turn) refl

  -- Where the answer of a turn fits the window and makes no tool calls, and no input is queued behind
  -- the request, the run returns that answer.
  pub quiet_turn_returns :
      (ts : List Turn) (more : Bool) (n : ℕ)
      → overflows search req tools active answer ≡ false
      → tool_calls answer ≡ []
      → behind.controller.queues.steering ≡ []
      → behind.controller.queues.following ≡ []
      → (e' : Engine) × (run_turns search req tools active (t ∷ ts) e pending first_turn more n
          ≡ finished e' answer)
  unfolding run_turns finish_turn append_message append_all
  quiet_turn_returns ts more n fits quiet no_steering no_following =
      elim (Bool-cases (is_failed answer.stop_reason)) [
        | inl cut ↦
            (end_agent closed, rw (answer_stands more n fits, answer_fails n cut, run_turns) refl)
        | inr fine ↦ elim (Bool-cases behind.controller.abort_requested) [
          | inl aborted ↦ (
            end_agent closed,
            rw
                (
                  answer_stands more n fits,
                  answer_ends n quiet fine,
                  aborted,
                  run_turns,
                  finish_turn,
                )
                refl,
          )
          | inr goes_on ↦ (
            end_agent (record closed {
              controller = (drain (drain behind.controller steer).0 follow_up).0;
            }),
            rw
                (
                  answer_stands more n fits,
                  answer_ends n quiet fine,
                  goes_on,
                  quiet,
                  ap (λ r. r.1) (drain_nothing behind.controller steer no_steering),
                  drained_twice behind.controller no_steering no_following,
                  run_turns,
                  finish_turn,
                )
                refl,
          )
        ]
      ]
