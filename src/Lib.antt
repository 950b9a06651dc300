-- ===== src/Lib.antt =====
-- A model of the core of aeloon_runtime, the runtime of a coding agent, with the theorems that
-- show it correct.
--
-- The parts and how they interact. A session (aeloon_runtime/runtime/session.py) is a tree of
-- entries: messages, settings, compactions, leaf moves. The branch from the root to the current
-- leaf gives the context that is sent to a model. A session keeps aggregates of its context and of
-- its lifetime, which it renders with aeloon_runtime/core/context_stats.py, and writes each entry
-- to a journal that can be read back. A run (aeloon_runtime/core/runner.py) takes input from its
-- controller (aeloon_runtime/core/control.py), asks a model for answers
-- (aeloon_runtime/core/inference_runtime.py), executes their tool calls
-- (aeloon_runtime/core/tool_runtime.py) and compacts the context by the policy of
-- aeloon_runtime/core/compaction.py, with what aeloon_runtime/runtime/compaction.py prepares and
-- aeloon_runtime/runtime/summarization.py summarizes. What comes from a client is checked by
-- aeloon_runtime/runtime/input.py, and what goes to one is redacted by
-- aeloon_runtime/runtime/projection.py. The service (aeloon_runtime/runtime/service.py) runs the
-- operations of a session one after another and lets clients cancel them. Its events go to the
-- server (aeloon_runtime/runtime_server.py), which numbers and retains them, sends them to the
-- connections that subscribed, and replays them to clients that come back. Clients authenticate
-- with the device tokens, enrollment codes and backoff of aeloon_runtime/pairing.py, and the server
-- closes their connections when a device is revoked.
--
-- Files:
--   Prelude     library names passed on, lists over the native numbers, strings as code points,
--               results of code that raises, dictionaries as association lists
--   Messages    aeloon_runtime/core/types.py: the messages of a conversation and their usage
--   Stats       aeloon_runtime/core/context_stats.py: Estimate has estimate_tokens and the backward
--               scan of estimate_context_tokens; Buckets has _scale_tokens and
--               _percentage_distribution; Stats has context_statistics
--   Session     aeloon_runtime/runtime/session.py: Tree has get_branch and _get_full_branch; Context
--               has build_context; ContextCache and Lifetime have the aggregates; State has the
--               Session with _append_entry, set_leaf_id, set_label, the journal and its flushes;
--               Statistics has stats and _stats_full; Calls has the append_... methods; Reading has
--               _read_session; Histories has the sessions that calls bring about; Repository
--               has create, open, list and delete of the directory of session files
--   Control     aeloon_runtime/core/control.py: RunController, one function per method
--   Compaction  aeloon_runtime/core/compaction.py
--   Tools       aeloon_runtime/core/tool_runtime.py: one call, Batch has execute_calls, Registry has
--               the checks of __init__, Answered has what holds of a batch
--   Inference   aeloon_runtime/core/inference_runtime.py: Projection has what of a history is
--               sent to a model, Retry has the attempts of a request
--   Run         aeloon_runtime/core/runner.py: Engine has the state and the small methods of
--               _RunEngine, Turns has _run_loop, Agent has run and run_agent; View specifies what an
--               observer of the events knows, and Overflow and Quiet have how a loop goes on and ends
--   Wire        aeloon_runtime/runtime/projection.py, json_safe and safe_mapping, and the checks of
--               aeloon_runtime/runtime/input.py in Input
--   Preparation aeloon_runtime/runtime/compaction.py: prepare_compaction
--   Summaries   aeloon_runtime/runtime/summarization.py: the text of a conversation; Rolling has
--               _rolling_summary, Compacting has compact_preparation, summarize_branch and
--               file_operations, Prompts has the prompts
--   Operations  aeloon_runtime/runtime/operation_status.py, and the count of operations of
--               aeloon_runtime/runtime/coordinator.py
--   Pairing     aeloon_runtime/pairing.py: Devices is DeviceStore, Enrollment is EnrollmentVault,
--               Limiter is AuthLimiter
--   Gateway     aeloon_runtime/runtime_server.py: Events has _on_runtime_event and _subscribe,
--               Connection has RuntimeConnection with its queue, writer and limits, Handshake has
--               the authentication of connections and the revocation of devices
--   Streams     aeloon_runtime/runtime/providers/openai.py: Reasoning has _InlineReasoningParser,
--               Folding has how _stream makes a message and events of the lines of an answer
--   Service     aeloon_runtime/runtime/service.py: Lifecycle has the life of an operation in
--               turn_start, _execute_turn, _session_operation, turn_cancel and session_delete
--   Examples    the theorems at concrete inputs, and tests
--
-- Conventions. A method that changes an object is a function from its state to the new state and
-- what it returns; an exception is a value. Numbers are natural numbers; token counts and times
-- are not negative. What comes from outside is an argument: times, ids, tokens and random bits are
-- drawn by the caller, SHA-256 and regular expressions are parameters, what tools and hooks do
-- with a call comes with the call, and what a provider streams in an attempt comes with the
-- attempt. A run takes a list of turns, each with what comes from outside during it: answers,
-- compactions, and what other callers do to the controller meanwhile. A loop whose turns are used
-- up still runs. A rolling summary makes at most one request for each unit of its conversation,
-- which is its fuel. Loops over the parents of an entry take fuel, one step for each entry of the
-- session. That is enough for every session that calls have built, because an entry's parent is
-- always an earlier entry; a path that revisits an entry would run out. Boundaries count messages
-- from zero, so fresh_from is the index behind the latest compaction. Percentages are basis points
-- before they are divided by a hundred. What coroutines do at the same time is a list of steps, each
-- what one of them does up to its next wait; a step that cannot be made changes nothing. The parser
-- of inline reasoning takes as many turns as its buffer is long, because each takes a marker out.
-- The file of a session is a text of code points, cut into lines as splitlines does it; how an entry
-- or a header is written as JSON, and a line parsed, are parameters.
--
-- Not modelled: costs and other floats, the grammar of JSON, the bytes of UTF-8 (a line that is torn
-- inside a character), forks of a session, cancellations and errors of the disk inside a write or an
-- fsync of a journal, cancellations of a batch of calls outside the try of a call, TLS and pairing
-- URLs, the hooks that patch a request, slash commands, what tools do, the requests of providers and
-- the transport of their answers, the store, which is SQL, what the methods of the server and the
-- service do inside (mostly calls of what is modelled, and of the store), sockets and frames, the
-- shutdown of the service, which interrupts all operations, and the command line.
pub mod Prelude
pub mod Messages
pub mod Stats
pub mod Session
pub mod Control
pub mod Compaction
pub mod Tools
pub mod Inference
pub mod Run
pub mod Wire
pub mod Preparation
pub mod Summaries
pub mod Operations
pub mod Pairing
pub mod Gateway
pub mod Streams
pub mod Service
pub mod Examples
