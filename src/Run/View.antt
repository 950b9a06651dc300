-- ===== src/Run/View.antt =====
-- What an observer of a run's events makes of them: an abstract specification of `_RunEngine`, and
-- how the small methods of the engine move the observer.
pub mod Steps
pub mod Whole
pub mod Loop
use aeloon_runtime.Prelude.{
  ℕ, suc, ◌≡◌, refl, ap, ◌∙◌, String, Bool, true, false, Option, none, some, List, [], ◌∷◌, ◌++◌,
  map, fold, fold-append, Result, ok, err, if◌then◌else◌,
}
use aeloon_runtime.Messages.{
  AgentMessage, assistant, user, tool_result, AssistantMessage, ToolResultMessage,
}
use aeloon_runtime.Inference.Retry.{InferenceEvent, request}
use aeloon_runtime.Run.Engine.{
  RunRequest, ContextUpdate, CompactionReason, RunEvent, agent_start, turn_start, turn_end, settled,
  message_start, message_end, overflow_attempt, inference, tool_calls_run, compaction_start,
  context_compacted, compaction_end, compaction_failed, agent_end, Turn, Engine, emit,
  append_message, append_all, end_agent, compact, try_compact, stream_response,
}

-- Where a run stands. A compaction runs between turns, before the first or behind the last; a run
-- that ended has reported its messages; `cut_short` is a run that settled within a turn.
pub data Stage : Type 0 where
  unstarted between_turns in_turn cut_short broken : Stage
  compacting : Stage → Stage
  ended : (reported : List AgentMessage) → Stage
  done : (reported : List AgentMessage) → Stage

-- The order that the events of a run have to keep.
abbrev pub advance : Stage → RunEvent → Stage
advance unstarted agent_start = between_turns
advance unstarted (compaction_start r) = compacting unstarted
advance between_turns turn_start = in_turn
advance between_turns (compaction_start r) = compacting between_turns
advance between_turns (message_start m a) = between_turns
advance between_turns (message_end m a) = between_turns
advance between_turns (agent_end ms) = ended ms
advance in_turn (message_start m a) = in_turn
advance in_turn (message_end m a) = in_turn
advance in_turn (overflow_attempt m a) = in_turn
advance in_turn (inference i) = in_turn
advance in_turn (tool_calls_run calls) = in_turn
advance in_turn (turn_end m results) = between_turns
advance in_turn settled = cut_short
advance (compacting s) (context_compacted summary) = compacting s
advance (compacting s) (compaction_end r will_retry) = s
advance (compacting s) (compaction_failed r text) = s
advance (ended ms) (compaction_start r) = compacting (ended ms)
advance (ended ms) settled = done ms
advance _ _ = broken

abbrev pub publish : List AgentMessage → RunEvent → List AgentMessage
publish ms (message_end m a) = ms ++ m ∷ []
publish ms (overflow_attempt m a) = ms ++ assistant m ∷ []
publish ms _ = ms

abbrev pub hear : Option AssistantMessage → AgentMessage → Option AssistantMessage
hear before (assistant m) = some m
hear before _ = before

abbrev pub answered : Option AssistantMessage → RunEvent → Option AssistantMessage
answered before (message_end m a) = hear before m
answered before (overflow_attempt m a) = some m
answered before _ = before

abbrev pub tally : ℕ → RunEvent → ℕ
tally n (overflow_attempt m a) = suc n
tally n _ = n

-- What the observer knows: the stage, the messages published, the last answer among them, and the
-- number of answers that were dropped.
pub record View : Type 0 where
  pub stage : Stage
  pub published : List AgentMessage
  pub answer : Option AssistantMessage
  pub dropped : ℕ

abbrev pub observe : View → RunEvent → View
observe v ev = record {
  stage = advance v.stage ev;
  published = publish v.published ev;
  answer = answered v.answer ev;
  dropped = tally v.dropped ev;
}

abbrev pub blank : View
blank = record { stage = unstarted; published = []; answer = none; dropped = 0 }

unfoldable pub view : List RunEvent → View
view events = fold observe blank events

-- The observer is at a stage, and knows the engine's messages.
abbrev pub Sees : Engine → Stage → Option AssistantMessage → ℕ → Type 0
Sees e s a n =
    view e.events ≡ record { stage = s; published = e.new_messages; answer = a; dropped = n }

-- Events move the observer from where it is.
pub view-append :
    (events more : List RunEvent) (v : View)
    → view events ≡ v
    → view (events ++ more) ≡ fold observe v more
unfolding view
view-append events more v h =
    fold-append observe blank events more ∙ ap (λ (w : View). fold observe w more) h

-- Messages are published within a turn, or between turns.
abbrev pub is_open : Stage → Bool
is_open between_turns = true
is_open in_turn = true
is_open _ = false

-- The last answer of a run that publishes messages.
abbrev pub latest : Option AssistantMessage → List AgentMessage → Option AssistantMessage
latest = fold hear

pub latest-results :
    (a : Option AssistantMessage) (results : List ToolResultMessage)
    → latest a (map tool_result results) ≡ a
latest-results a [] = refl
latest-results a (r ∷ rest) = latest-results a rest

module _ (e : Engine) where
  pub Sees-append_message :
      (s : Stage) (a : Option AssistantMessage) (n : ℕ) (m : AgentMessage) (started : Bool)
      (attempt : Option ℕ)
      → is_open s ≡ true
      → Sees e s a n
      → Sees (append_message e m started attempt) s (hear a m) n
  unfolding append_message
  Sees-append_message between_turns a n m true attempt o h = view-append e.events _ _ h
  Sees-append_message between_turns a n m false attempt o h = view-append e.events _ _ h
  Sees-append_message in_turn a n m true attempt o h = view-append e.events _ _ h
  Sees-append_message in_turn a n m false attempt o h = view-append e.events _ _ h
  Sees-append_message unstarted a n m started attempt o h = cc
  Sees-append_message cut_short a n m started attempt o h = cc
  Sees-append_message broken a n m started attempt o h = cc
  Sees-append_message (compacting s) a n m started attempt o h = cc
  Sees-append_message (ended ms) a n m started attempt o h = cc
  Sees-append_message (done ms) a n m started attempt o h = cc

pub Sees-append_all :
    (e : Engine) (ms : List AgentMessage) (a : Option AssistantMessage) (n : ℕ)
    → Sees e in_turn a n
    → Sees (append_all e ms) in_turn (latest a ms) n
unfolding append_all
Sees-append_all e [] a n h = h
Sees-append_all e (m ∷ ms) a n h =
    Sees-append_all (append_message e m false none) ms (hear a m) n
      (Sees-append_message e in_turn a n m false none refl h)

in_turn_with : List AgentMessage → Option AssistantMessage → ℕ → View
in_turn_with ms a n = record { stage = in_turn; published = ms; answer = a; dropped = n }

inferences :
    (ms : List AgentMessage) (a : Option AssistantMessage) (n : ℕ) (events : List InferenceEvent)
    → fold observe (in_turn_with ms a n) (map inference events) ≡ in_turn_with ms a n
unfolding in_turn_with
inferences ms a n [] = refl
inferences ms a n (i ∷ rest) = inferences ms a n rest

pub Sees-stream_response :
    (search : String → String → Bool) (req : RunRequest) (e : Engine) (t : Turn)
    (a : Option AssistantMessage) (n : ℕ)
    → Sees e in_turn a n
    → Sees (stream_response search req e t).0 in_turn a n
unfolding stream_response in_turn_with
Sees-stream_response search req e t a n h =
    let answer = request search req.model req.stream_options t.attempts e.next_attempt_id in
    view-append e.events (map inference answer.events) (in_turn_with e.new_messages a n) h
    ∙ inferences e.new_messages a n answer.events

-- Where a compaction may run.
abbrev pub is_pause : Stage → Bool
is_pause unstarted = true
is_pause between_turns = true
is_pause (ended ms) = true
is_pause _ = false

compaction_starts :
    (s : Stage) (reason : CompactionReason)
    → is_pause s ≡ true
    → advance s (compaction_start reason) ≡ compacting s
compaction_starts unstarted reason pause = refl
compaction_starts between_turns reason pause = refl
compaction_starts (ended ms) reason pause = refl
compaction_starts in_turn reason pause = cc
compaction_starts cut_short reason pause = cc
compaction_starts broken reason pause = cc
compaction_starts (compacting s) reason pause = cc
compaction_starts (done ms) reason pause = cc

module _ (e : Engine) (s : Stage) (a : Option AssistantMessage) (n : ℕ) where
  abbrev at_stage : Stage → View
  at_stage s' = record { stage = s'; published = e.new_messages; answer = a; dropped = n }

  pub view-compaction :
      (reason : CompactionReason) (summary : String) (will_retry : Bool)
      → is_pause s ≡ true
      → Sees e s a n
      → view (
          e.events
          ++ (compaction_start reason
              ∷ context_compacted summary
              ∷ compaction_end reason will_retry
              ∷ []))
        ≡ at_stage s
  view-compaction reason summary will_retry pause h =
      view-append e.events _ (at_stage s) h
      ∙ ap
          (λ s'.
            at_stage
              (advance (advance s' (context_compacted summary)) (compaction_end reason will_retry)))
          (compaction_starts s reason pause)

  pub view-failed_compaction :
      (reason : CompactionReason) (text : String)
      → is_pause s ≡ true
      → Sees e s a n
      → view ((e.events ++ compaction_start reason ∷ []) ++ compaction_failed reason text ∷ [])
        ≡ at_stage s
  view-failed_compaction reason text pause h =
      view-append (e.events ++ compaction_start reason ∷ []) (compaction_failed reason text ∷ [])
        (at_stage (compacting s))
        (view-append e.events (compaction_start reason ∷ []) (at_stage s) h
          ∙ ap at_stage (compaction_starts s reason pause))

  pub Sees-try_compact :
      (reason : CompactionReason) (will_retry : Bool) (outcome : Result String ContextUpdate)
      → is_pause s ≡ true
      → Sees e s a n
      → Sees (try_compact e reason will_retry outcome) s a n
  unfolding try_compact compact
  Sees-try_compact reason will_retry (ok u) pause h =
      view-compaction reason u.summary will_retry pause h
  Sees-try_compact reason will_retry (err text) pause h = view-failed_compaction reason text pause h
