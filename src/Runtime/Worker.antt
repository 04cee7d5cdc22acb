-- ===== src/Runtime/Worker.antt =====
-- agent/runtime/worker.py: the event that a batch is handled as, and its run record. The hash, the
-- random part of a run id and the times come from Python's library: arguments.
pub mod Drain
pub mod Schedule
use Prim.Native.String.{◌++◌ as str_append, find, len}
use open_review.Base.{
  ℕ, String, Bool, true, false, not, ◌&&◌, Option, none, some, List, [], ◌∷◌, map, ◌==◌, leb,
  length, is_empty, if◌then◌else◌,
}
use open_review.Base.Dict
use open_review.Runtime.Json.{Json, Items, str, num, arr, obj, items, fields}
use open_review.Runtime.Models.{
  EventEnvelope, EventType, RunRecord, RunState, auto_review, mention, sandbox_cleanup, daily_audit,
  agent_self_evolution, daily_audit_evolution, daily_audit_direction_persistence,
  daily_audit_short_term_persistence, daily_audit_long_term_persistence,
  daily_audit_skill_persistence, is_auto_review, is_mention, type_name, model_dump, running,
}
use open_review.Runtime.Batch.{last, truthy}

-- `hexdigest()[:16]` of a text's SHA-256
abbrev pub Digest : Type 0
Digest = String → String

-- `uuid.uuid4().hex[:8]`, and `iso_now()` when the record is made and when it is completed
pub record Fresh : Type 0 where
  pub suffix : String
  pub started_at : String
  pub completed_at : String

-- what a handler's result has that the worker reads
pub record HandlerResult : Type 0 where
  pub status : Option String
  pub reason : Option String
  pub degraded_reason : Option String

unfoldable pub workflow_version : EventType → String
workflow_version auto_review = "auto_review.v1"
workflow_version mention = "mention.v2"
workflow_version sandbox_cleanup = "sandbox_cleanup.v1"
workflow_version daily_audit = "daily_audit.v1"
workflow_version agent_self_evolution = "agent_self_evolution.v1"
workflow_version daily_audit_evolution = "daily_audit_evolution.v1"
workflow_version daily_audit_direction_persistence = "daily_audit_direction_persistence.v1"
workflow_version daily_audit_short_term_persistence = "daily_audit_short_term_persistence.v1"
workflow_version daily_audit_long_term_persistence = "daily_audit_long_term_persistence.v1"
workflow_version daily_audit_skill_persistence = "daily_audit_skill_persistence.v1"

-- `"|".join([s, *texts])`
join_bar : String → List String → String
join_bar s [] = s
join_bar s (t ∷ ts) = join_bar (str_append (str_append s "|") t) ts

abbrev event_ids : List EventEnvelope → List String
event_ids batch = map (λ e. e.event_id) batch

-- a batch is its first event and the others
unfoldable pub make_execution_key : Digest → String → EventEnvelope → List EventEnvelope → String
unfolding join_bar
make_execution_key digest key first rest =
    str_append (str_append (type_name first.event_type) ":")
      (digest (join_bar key (type_name first.event_type ∷ event_ids (first ∷ rest))))

-- the last auto review, or the first event of another type
record_event : EventEnvelope → List EventEnvelope → EventEnvelope
record_event first rest = if is_auto_review first.event_type then last first rest else first

unfoldable pub make_run_record :
    Digest → Fresh → String → EventEnvelope → List EventEnvelope → RunRecord
unfolding record_event
make_run_record digest fresh key first rest =
    let event = record_event first rest in
    record {
      run_id =
          str_append (type_name event.event_type)
            (str_append ":" (str_append event.event_id (str_append ":" fresh.suffix)));
      execution_key = some (make_execution_key digest key first rest);
      actor_key = key;
      event_type = event.event_type;
      project_id = event.project_id;
      mr_iid = event.mr_iid;
      event_ids = event_ids (first ∷ rest);
      batch_size = length (first ∷ rest);
      head_sha = event.head_sha;
      note_id = event.note_id;
      discussion_id = event.discussion_id;
      state = RunState.running;
      started_at = fresh.started_at;
      completed_at = none;
      reason = none;
      error = none;
    }

-- what the handler is given, before the run's data is added
unfoldable pub handled_event : EventEnvelope → List EventEnvelope → EventEnvelope
handled_event first rest =
    let newest = last first rest in
    if is_mention first.event_type && not (is_empty rest)
    then record newest {
      payload =
          Dict.put newest.payload "batched_events" (arr (items (map model_dump (first ∷ rest))));
    }
    else if is_auto_review first.event_type
    then newest
    else first

abbrev opt_text : Option String → Json
opt_text none = Json.null
opt_text (some s) = str s

unfoldable pub event_with_runtime_payload : EventEnvelope → RunRecord → EventEnvelope
event_with_runtime_payload event run = record event {
  payload = Dict.put event.payload "_runtime" (
      obj (
        fields (
          ("run_id", str run.run_id)
          ∷ ("execution_key", opt_text run.execution_key)
          ∷ ("batch_event_ids", arr (items (map str run.event_ids)))
          ∷ ("batch_size", num run.batch_size)
          ∷ [])));
}

-- `part in text`
contains : String → String → Bool
contains text part = leb (find text part) (len text)

-- `a or b`, for texts
or_else : Option String → Option String → Option String
or_else a b = if truthy a then a else b

is_status : String → HandlerResult → Bool
is_status s r = elim r.status [ none ↦ false | some t ↦ t == s ]

says_stale : Option String → Bool
unfolding contains
says_stale none = false
says_stale (some reason) = contains reason "stale"

-- the state by the result and its reason
state_for : HandlerResult → Option String → RunState × Option String
unfolding or_else is_status says_stale
state_for r reason =
    if is_status "terminated" r
    then (RunState.terminated, or_else reason (some "user_terminated"))
    else if says_stale reason
    then (RunState.stale, reason)
    else if is_status "failed" r
    then (RunState.failed, reason)
    else if is_status "skipped" r && truthy reason
    then (RunState.skipped, reason)
    else (RunState.succeeded, reason)

unfoldable pub run_terminal_state : HandlerResult → RunState × Option String
unfolding state_for or_else
run_terminal_state r = state_for r (or_else r.reason r.degraded_reason)
