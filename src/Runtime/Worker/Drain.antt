-- ===== src/Runtime/Worker/Drain.antt =====
-- agent/runtime/worker.py: `drain_mr_actor`, over any `RuntimeStore`. A handler is an argument: what
-- it, and all that runs beside it (the heartbeat task, webhooks, other workers), does to the store
-- is one change of the store, and it returns a result or raises.
pub mod Alive
pub mod Holds
pub mod Ends
pub mod Empties
use Prim.Native.String.{◌++◌ as str_append}
use open_review.Base.{
  ℕ, zero, suc, String, Bool, true, false, not, Option, none, some, List, [], ◌∷◌, ◌==◌,
  if◌then◌else◌,
}
use open_review.Base.Dict
use open_review.Base.Result.{Result, PyError, ok, err, raised, runtime_error}
use open_review.Runtime.Json.{opt_str}
use open_review.Runtime.Models.{
  EventEnvelope, EventType, RunRecord, RunState, RunJournalEvent, RunJournalStatus,
  RunTerminationRequest, RunJournalEventType, type_name, actor_key,
}
use open_review.Runtime.World.{World}
use open_review.Runtime.RuntimeStore.{RuntimeStore}
use open_review.Runtime.Queue.{Service, wake}
use open_review.Runtime.Worker.{
  Digest, Fresh, HandlerResult, workflow_version, make_run_record, handled_event,
  event_with_runtime_payload, run_terminal_state,
}

-- how a handler ends: it returns, or raises `RunTerminationRequested` or another exception
pub data Outcome : Type 0 where
  returned : HandlerResult → Outcome
  terminated : String → Option String → Option String → Outcome
  failed : String → Outcome

-- how an iteration of the loop ends: it goes on, the queue is empty, or an exception leaves it
pub data Next : Type 0 where
  again done : Next
  raises : PyError → Next

-- how the loop ends; `unfinished` where the fuel is used up
pub data Exit : Type 0 where
  unfinished : Exit
  exit : Result Bool → Exit

abbrev same_option : Option String → Option String → Bool
same_option none none = true
same_option (some a) (some b) = a == b
same_option _ _ = false

abbrev is_running : RunState → Bool
is_running RunState.running = true
is_running _ = false

abbrev or_empty : Option String → String
or_empty none = ""
or_empty (some s) = s

-- MR_ACTOR_LEASE_SECONDS, `int(RUNTIME_MAX_EVENT_ATTEMPTS or 3)` and the hash
pub record Settings : Type 0 where
  pub lease_seconds : ℕ
  pub max_event_attempts : ℕ
  pub digest : Digest

module _ (w : World) (store : RuntimeStore w) (settings : Settings) where
  abbrev pub Handler : Type 0
  Handler = EventEnvelope → store.State → Outcome × store.State

  -- `none`: the handler is not configured, and the worker raises
  abbrev pub Handlers : Type 0
  Handlers = EventType → Option Handler

  pub stale_prior : Fresh → RunRecord → List RunRecord → store.State → store.State
  stale_prior fresh run [] s = s
  stale_prior fresh run (prior ∷ rest) s =
      let written =
        store.write_run
          (record prior {
            state = RunState.stale;
            completed_at = some fresh.completed_at;
            reason = some "interrupted_run_restarted";
          })
          s in
      let after =
        if prior.run_id == run.run_id
        then s
        else if not (same_option prior.execution_key run.execution_key)
        then s
        else if not (is_running prior.state)
        then s
        else written in
      stale_prior fresh run rest after

  unfoldable pub mark_interrupted_prior_runs_stale : Fresh → RunRecord → store.State → store.State
  unfolding stale_prior
  mark_interrupted_prior_runs_stale fresh run s =
      stale_prior fresh run (store.list_runs run.actor_key 50 s) s

  terminated_event :
      Fresh → RunRecord → EventEnvelope → String → Option String → Option String → RunJournalEvent
  terminated_event fresh run event reason requested_by requested_at = record {
    execution_key = or_empty run.execution_key;
    run_id = some run.run_id;
    actor_key = actor_key event;
    scene = event.event_type;
    workflow_version = workflow_version event.event_type;
    stage_key = none;
    event_type = RunJournalEventType.run_terminated;
    status = RunJournalStatus.terminated;
    summary = some reason;
    artifact_refs = [];
    details = ("requested_by", opt_str requested_by) ∷ ("requested_at", opt_str requested_at) ∷ [];
    created_at = fresh.completed_at;
  }

  -- acknowledges the batch of a run that was terminated
  unfoldable pub terminate_run :
      Fresh
      → RunRecord
      → EventEnvelope
      → List EventEnvelope
      → String
      → Option String
      → Option String
      → store.State
      → store.State
  unfolding terminated_event
  terminate_run fresh run event batch reason requested_by requested_at s =
      let acked = store.ack_batch run.actor_key batch s in
      let written =
        store.write_run
          (record run {
            state = RunState.terminated;
            completed_at = some fresh.completed_at;
            reason = some reason;
          })
          acked in
      let journaled =
        store.record_run_journal_event
          (terminated_event fresh run event reason requested_by requested_at) written in
      store.clear_run_checkpoint (or_empty run.execution_key) journaled

  -- the `except Exception` branch
  after_failure : Fresh → RunRecord → String → Result Bool × store.State → Next × store.State
  after_failure fresh run error (err x, s) = (Next.raises x, s)
  after_failure fresh run error (ok retryable, s) = (
    Next.raises (raised error),
    store.write_run
        (record run {
          state = RunState.failed;
          completed_at = some fresh.completed_at;
          reason = if retryable then none else some "retry_budget_exhausted";
          error = some error;
        })
        s,
  )

  -- a result under a lease that was lost, or is still owned
  after_result :
      Fresh
      → RunRecord
      → List EventEnvelope
      → String
      → HandlerResult
      → Bool
      → store.State
      → Next × store.State
  after_result fresh run batch worker result false s = (
    Next.raises runtime_error,
    store.write_run
        (record run {
          state = RunState.failed;
          completed_at = some fresh.completed_at;
          error = some "lost actor lease before ack";
        })
        s,
  )
  after_result fresh run batch worker result true s =
      let acked = store.ack_batch run.actor_key batch s in
      let (state, reason) = run_terminal_state result in
      let written =
        store.write_run
          (record run { state = state; completed_at = some fresh.completed_at; reason = reason })
          acked in
      (Next.again, (store.heartbeat_lease run.actor_key worker settings.lease_seconds written).1)

  unfoldable pub settle :
      Fresh
      → RunRecord
      → EventEnvelope
      → List EventEnvelope
      → String
      → Outcome
      → store.State
      → Next × store.State
  unfolding after_result after_failure terminate_run
  settle fresh run event batch worker (returned result) s =
      let beat = store.heartbeat_lease run.actor_key worker settings.lease_seconds s in
      after_result fresh run batch worker result beat.0 beat.1
  settle fresh run event batch worker (terminated reason by at) s =
      (Next.again, terminate_run fresh run event batch reason by at s)
  settle fresh run event batch worker (failed error) s =
      after_failure fresh run error
        (store.mark_inflight_failed run.actor_key batch error settings.max_event_attempts s)

  -- `RuntimeError(f"{type} handler is not configured")` where there is none
  call : Option Handler → EventEnvelope → store.State → Outcome × store.State
  call none event s =
      (failed (str_append (type_name event.event_type) " handler is not configured"), s)
  call (some handler) event s = handler event s

  pub unless_terminated :
      Handlers
      → Fresh
      → RunRecord
      → EventEnvelope
      → List EventEnvelope
      → String
      → Option RunTerminationRequest
      → store.State
      → Next × store.State
  unfolding call settle terminate_run
  unless_terminated handlers fresh run event batch worker (some t) s = (
    Next.again,
    terminate_run fresh run event batch "user_terminated" (some t.requested_by)
        (some t.requested_at) s,
  )
  unless_terminated handlers fresh run event batch worker none s =
      let beat = (store.heartbeat_lease run.actor_key worker settings.lease_seconds s).1 in
      let out = call (handlers event.event_type) event beat in
      settle fresh run event batch worker out.0 out.1

  unfoldable pub run_batch :
      Handlers
      → Fresh
      → String
      → String
      → EventEnvelope
      → List EventEnvelope
      → store.State
      → Next × store.State
  unfolding unless_terminated mark_interrupted_prior_runs_stale
  run_batch handlers fresh key worker first rest s =
      let run = make_run_record settings.digest fresh key first rest in
      let event = event_with_runtime_payload (handled_event first rest) run in
      let written = store.write_run run (mark_interrupted_prior_runs_stale fresh run s) in
      unless_terminated handlers fresh run event (first ∷ rest) worker
        (store.get_run_termination run.run_id written) written

  after_pop :
      Handlers
      → Fresh
      → String
      → String
      → Result (List EventEnvelope)
      → store.State
      → Next × store.State
  unfolding run_batch
  after_pop handlers fresh key worker (err x) s = (Next.raises x, s)
  after_pop handlers fresh key worker (ok []) s = (Next.done, s)
  after_pop handlers fresh key worker (ok (first ∷ rest)) s =
      run_batch handlers fresh key worker first rest s

  -- one iteration of `while True`
  unfoldable pub iterate : Handlers → Fresh → String → String → store.State → Next × store.State
  unfolding after_pop
  iterate handlers fresh key worker s =
      let r = store.pop_next_batch key s in after_pop handlers fresh key worker r.0 r.1

  -- `fresh n` is for the iteration that has `n` fuel left
  unfoldable pub drain_loop :
      ℕ → Handlers → (ℕ → Fresh) → String → String → store.State → Exit × store.State
  unfolding iterate
  drain_loop zero handlers fresh key worker s = (unfinished, s)
  drain_loop (suc fuel) handlers fresh key worker s =
      let r = iterate handlers (fresh fuel) key worker s in
      let rest = drain_loop fuel handlers fresh key worker r.1 in
      elim r.0 [
        | Next.again ↦ rest
        | Next.done ↦ (exit (ok true), r.1)
        | Next.raises x ↦ (exit (err x), r.1)
      ]

  -- the `finally` block
  unfoldable pub finish_drain : String → String → Service w store → Service w store
  unfolding wake
  finish_drain key worker s =
      let cleared = store.clear_actor_scheduled key (store.release_lease key worker s.state) in
      let left = record s { state = cleared } in
      if store.has_actor_events key cleared then wake w store key left else left

  close : String → String → Exit × store.State → List String → Exit × Service w store
  unfolding finish_drain
  close key worker (unfinished, s) jobs = (unfinished, record { state = s; jobs = jobs })
  close key worker (exit r, s) jobs =
      (exit r, finish_drain key worker (record { state = s; jobs = jobs }))

  unfoldable pub drain_mr_actor :
      ℕ → Handlers → (ℕ → Fresh) → String → String → Service w store → Exit × Service w store
  unfolding drain_loop close
  drain_mr_actor fuel handlers fresh key worker s =
      let lease = store.acquire_lease key worker settings.lease_seconds s.state in
      let restored = (store.restore_inflight key lease.1).1 in
      let drained = drain_loop fuel handlers fresh key worker restored in
      if not lease.0
      then (exit (ok false), record s { state = lease.1 })
      else close key worker drained s.jobs
