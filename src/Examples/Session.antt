-- ===== src/Examples/Session.antt =====
-- A small session: a question and an answer with usage.
use aeloon_runtime.Prelude.{
  Option, List, ◌≡◌, refl, String, true, false, none, some, [], ◌∷◌, lookup,
}
use aeloon_runtime.Messages.{AgentMessage, AssistantContent, StopReason, no_usage}
use aeloon_runtime.Stats.Estimate.{Boundary, estimate_tokens, estimate_context_tokens}
use aeloon_runtime.Session.Entry.{Entry, message}
use aeloon_runtime.Session.Tree.{returned, get_branch, get_full_branch}
use aeloon_runtime.Session.Tree.Walks.{Ends}
use aeloon_runtime.Session.Context.{user_text}
use aeloon_runtime.Session.ContextCache.{used_tokens, context_stats_cache}
use aeloon_runtime.Session.ContextCache.Oracle.{used_tokens-context_stats_cache}
use aeloon_runtime.Session.State.{Session, Draw, new_session, append_entry, new_entry}
use aeloon_runtime.Session.State.Valid.{IsFresh}
use aeloon_runtime.Session.Statistics.{SessionStats, stats, stats_full}
use aeloon_runtime.Preparation.{
  CompactionPreparation, messages_of, prepare_branch, prepare_compaction,
}
use aeloon_runtime.Preparation.Partition.{Partitions, preparation-Partitions}
use aeloon_runtime.Session.Histories.{Reached, start, appended}
use aeloon_runtime.Session.Histories.Facts.{stats_exact, branch_returns}

abbrev pub draw : String → String → Draw
draw short long = record { now = some 7; short_ids = short ∷ []; long_id = long }

abbrev pub answer : AgentMessage
answer = AgentMessage.assistant (record {
  content = AssistantContent.text "42" ∷ [];
  provider = "studio";
  model = "small";
  usage = record no_usage { input = 5; output = 2; total_tokens = 7 };
  stop_reason = StopReason.stop;
  error_message = none;
  timestamp = 3;
})

abbrev pub asked : Session
asked = (append_entry (new_session [] none) (draw "a1" "L1") false (message (user_text "why?"))).0

abbrev pub answered : Session
answered = (append_entry asked (draw "a1" "a2") true (message answer)).0

asked-IsFresh : IsFresh (new_session [] none).by_id (draw "a1" "L1")
unfolding new_session
asked-IsFresh = record { unused = refl; long_named = refl; short_named = (refl, tt) }

asked-Reached : Reached asked
asked-Reached =
    appended (draw "a1" "L1") false (message (user_text "why?")) asked-IsFresh refl start

answered-IsFresh : IsFresh asked.by_id (draw "a1" "a2")
unfolding append_entry new_session
answered-IsFresh = record { unused = refl; long_named = refl; short_named = (refl, tt) }

pub answered-Reached : Reached answered
answered-Reached =
    appended (draw "a1" "a2") true (message answer) answered-IsFresh refl asked-Reached

-- The second draw repeats a short id, so the full id is taken.
answered-leaf : answered.current_leaf_id ≡ some "a2"
unfolding append_entry new_session
answered-leaf = refl

stats_exact_example :
    (s' : Session) × (result : SessionStats) × (stats answered (some 100) ≡ returned (s', result))
    × (stats_full answered (some 100) ≡ returned result)
stats_exact_example = stats_exact answered (some 100) answered-Reached

answered-here :
    lookup answered.by_id "a2" ≡ some (new_entry asked (draw "a1" "a2") (message answer))
unfolding append_entry new_session
answered-here = refl

branch_returns_example :
    Ends answered.by_id
      (get_branch answered.by_id (some "a2"))
      (get_full_branch answered.by_id (some "a2"))
      (new_entry asked (draw "a1" "a2") (message answer))
      []
branch_returns_example =
    branch_returns answered "a2" (new_entry asked (draw "a1" "a2") (message answer))
      answered-Reached answered-here

abbrev no_boundary : Boundary
no_boundary = record { after_ms = none; fresh_from = none }

used_tokens-context_stats_cache_example :
    used_tokens (context_stats_cache no_boundary (answer ∷ user_text "again" ∷ []) 0 none)
    ≡ estimate_context_tokens no_boundary (answer ∷ user_text "again" ∷ [])
used_tokens-context_stats_cache_example =
    used_tokens-context_stats_cache no_boundary (answer ∷ user_text "again" ∷ []) 0 none

estimated : estimate_context_tokens no_boundary (answer ∷ user_text "again" ∷ []) ≡ 9
unfolding estimate_context_tokens estimate_tokens
estimated = refl

-- The question is the first part of a turn that the cut splits, and the answer is kept.
preparation-Partitions_example :
    (entries : List Entry) × (result : Option CompactionPreparation) × (get_branch answered.by_id
        answered.current_leaf_id
      ≡ returned entries)
    × (prepare_compaction answered 1 false ≡ returned result)
    × Partitions entries 1 false result
preparation-Partitions_example = preparation-Partitions answered 1 false answered-Reached

abbrev pub asked_then_answered : List Entry
asked_then_answered =
    new_entry (new_session [] none) (draw "a1" "L1") (message (user_text "why?"))
    ∷ new_entry asked (draw "a1" "a2") (message answer)
    ∷ []

split_turn :
    prepare_branch asked_then_answered 1 false 9
    ≡ some (record {
      first_kept_entry_id = "a2";
      messages_to_summarize = [];
      turn_prefix_messages = user_text "why?" ∷ [];
      is_split_turn = true;
      retained_tail = answer ∷ [];
      tokens_before = 9;
      previous_summary = none;
    })
unfolding prepare_branch messages_of estimate_tokens append_entry new_session
split_turn = refl

-- A boundary with one message behind which usage counts: the message at index 1 does.
boundary_counts :
    estimate_context_tokens
      (record { after_ms = none; fresh_from = some 1 })
      (user_text "why?" ∷ answer ∷ user_text "again" ∷ [])
    ≡ 9
unfolding estimate_context_tokens estimate_tokens
boundary_counts = refl
