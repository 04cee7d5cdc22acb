-- ===== src/Lib.antt =====
-- A verification library for open-review, a service that reviews GitLab merge requests with
-- language models. Its durable core is agent/runtime: every webhook event goes into the queue of
-- an actor (one per merge request, and one per project task), a worker takes the actor's lease,
-- pops the events in batches, runs a scene on each batch, and publishes to GitLab under receipts.
--
-- Parts and files
--   * Runtime/Json, Runtime/Models: the records of agent/runtime/models.py, with `actor_key`; a
--     payload value is a JSON value, and `int(x or 0)` is `int_or_zero`.
--   * Runtime/World: what the runtime asks of other code (`datetime.fromisoformat`, the project
--     configuration, `int` of a text): parameters, which no theorem restricts.
--   * Runtime/Batch: `_should_batch_mentions`, `_mention_batch_window_seconds` and the loops of
--     `pop_next_batch`, of agent/runtime/store.py; Runtime/Batch/Split is about the cut they make.
--   * Runtime/Attempts, Runtime/Receipts: the retry counter of `mark_inflight_failed`, and
--     `_publish_receipt_can_be_reclaimed`.
--   * Runtime/Store/Actor: the specification, one actor's queue, batch in flight, flag and lease.
--     Runtime/Store/Contract says what it is to implement it.
--   * Runtime/Store/Memory: `InMemoryRuntimeStore`; Runtime/Store/Sqlite: `SQLiteRuntimeStore`, on
--     the rows of its tables. The functions have the methods' names. Below each, Records has the
--     runs, receipts, journal, checkpoints and termination requests, and Refines the refinement of
--     the specification. Delivery, Dedupe, Race, Retry and Statuses are about
--     the SQLite store alone.
--   * Runtime/Store/Agree: the two stores side by side, under sequences of calls.
--   * Runtime/ReceiptStore: what agent/runtime/publish.py relies on in a store (an interface, which
--     both stores fill in Runtime/Store/Agree/Receipts); Runtime/Publish: `GitLabPublishService`
--     over that interface.
--   * Runtime/RuntimeStore: the protocol as the queue and the worker use it, with its laws (an
--     interface, which Runtime/Store/Instance fills with the SQLite store and a clock).
--   * Runtime/Queue: `enqueue_gitlab_event` and `resume_runtime_processing` of
--     agent/runtime/queue.py, over that protocol.
--   * Runtime/Worker: the run records of agent/runtime/worker.py; Runtime/Worker/Drain:
--     `drain_mr_actor`. A handler, with all that runs beside it, is one change of the store; between
--     the worker's other calls nothing else runs. Alive, Ends, Empties and Holds are about a drain.
--   * Runtime/Worker/Schedule: the daily audits and self evolution that the worker loop enqueues,
--     over that protocol. `Calendar` is the configuration, the local time and GitLab's answer on
--     default branches; the table of scheduled dates is part of the state.
--   * Runtime/Termination: agent/runtime/termination.py over the SQLite store; the calls of an agent,
--     whose order the agent framework decides, are a list.
--   * Scenes/AutoReview: of agent/scenes/auto_review/orchestrator.py what is decided without a
--     model. Findings has the normal form, key and rank of a finding, Dedupe `_dedupe_findings`,
--     Finalize the final review (`_finalize_director_decision` is the one that a run calls),
--     Deterministic the reviews that are put together without a model. The functions have the names of the code without the underscore in front.
--   * Scenes/Mention: agent/scenes/mention/orchestrator.py and models.py. Context is `build_mention_context`; Skip has the notes that are
--     answered already and the body of a reply with its markers, Materialize the checks in front
--     of a push, Loop the rounds of author and reviewer, Publish the inline snippets and the reply,
--     Run the whole run with its worktree. Effects is the monad they are written in: actions on the
--     state outside (git, GitLab, the agents) that may raise.
--   * Gitlab/Markers: the pattern of hidden markers, which agent/gitlab/comments.py and the scenes
--     each have, and `findall` over it; Gitlab/Comments: `_truncate`.
--   * Middleware/ModelRetry, StructuredRetry and ToolError: agent/middleware/model_retry.py,
--     structured_output_retry.py and tool_error_handler.py, with the handler a function on the
--     state of everything outside. StructuredRetry recurs on the retries that are left.
--   * Gitlab/Identity: agent/gitlab/identity.py, its globals and the row of the configuration
--     service as one state; a resolution is one step.
--   * Utils/Diff: agent/utils/diff_parser.py; Reference describes diffs by their hunks.
--   * Utils/ProjectTargets: agent/utils/gitlab_project_targets.py, with `urlparse` and `str.lower` as
--     parameters; Listed is about lists of targets.
--   * Base: lists, dictionaries, sets and results that these share. Base/TextTools
--     names the text functions that are parameters. Tests: concrete runs.
--
-- How the code is read
--   * A store method is one step: it holds the store's lock, or one SQLite transaction
--     (`BEGIN IMMEDIATE`), for its whole body. Interleavings of workers are sequences of calls.
--     Two methods of the SQLite store read and write without a `BEGIN`, in two transactions:
--     `record_run_journal_event` and `request_run_termination` are one step where nothing comes
--     between the two. Runtime/Store/Sqlite/Race has the two statements of the first one apart.
--   * The loops of `pop_next_batch` are written out in both stores with the same text, and are one
--     definition here (Runtime/Batch).
--   * A job of the queue stays in the model's list of jobs; a drain is said to start with its
--     actor's job taken out where a theorem asks for nothing about that actor.
--   * An exception that leaves a SQLite method rolls its transaction back. The in-memory store keeps
--     what it had changed, and the model keeps it too.
--   * Readings of the clock are arguments, in microseconds, and natural numbers, as are numbers in
--     JSON values. Times as texts (`iso_now()`) are arguments too.
--   * `str.lower`, `str.strip`, regular expressions on words and SHA-256 are parameters
--     (Base/TextTools), which no theorem restricts; `str.splitlines`, the hunk and marker patterns,
--     slices and the order of texts are defined, on code points. In Scenes/Mention and below Gitlab/Markers
--     texts are code points, and there `str.strip` and `str.split` are defined too (Base/Spaces).
--   * JSON in a table reads back as the value that was written.
--   * Loops are recursive on the list they consume. Fuel is used for `show`, the digits of a
--     number, where `suc n` is more than the number of digits of `n`; for the loop of
--     `drain_mr_actor`, which handlers can keep going by new events; and for the loop of the model
--     retry, where one more than the limit of retries is enough.
--
-- Not modelled: the way of `GitLabPublishService` around a store without `claim_publish_receipt`
-- (both stores have it); logging, tracing and the tracking service's own storage; `list_actor_statuses` of
-- the in-memory store; the choice of the store and the job queue by process globals; the calls of
-- language models, git and GitLab in the scenes, and the code that formats their prompts and
-- comments; the control plane, the web application and the sandbox.
pub mod Base
pub mod Runtime
pub mod Scenes
pub mod Middleware
pub mod Utils
pub mod Gitlab
pub mod Tests
