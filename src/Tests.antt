-- ===== src/Tests.antt =====
-- Concrete queues, stores and receipts, and the theorems of agent/runtime at them.
mod Batch
mod Store
mod Run
mod Records
mod Publish
mod Worker
mod Diff
mod Schedule
mod ModelRetry
mod StructuredRetry
mod Identity
mod Termination
mod AutoReview
mod Mention
mod MentionContext
mod ProjectTargets
use open_review.Base.{ℕ, String, Option, none, some, true, List, [], ◌∷◌, ◌==◌, if◌then◌else◌}
use open_review.Runtime.Json.{num, int_or_zero}
use open_review.Runtime.Models.{
  actor_key, EventEnvelope, EventType, auto_review, mention, sandbox_cleanup, PublishReceipt,
  PublishStatus, mr_note, RunJournalEvent, observation, RunJournalStatus,
}
use open_review.Runtime.World.{World, Stamp}
use open_review.Base.Dict
use open_review.Runtime.Batch.{next_batch, should_batch_mentions}
use open_review.Runtime.Attempts.{attempts_of, same_ids}
use open_review.Runtime.Store.Sqlite.{
  SqliteStore, init, ActorRow, append_event, pop_next_batch, restore_inflight, list_actor_events,
  mark_inflight_failed, load_actor_state, acquire_lease, expire_seen, persist_actor_state,
  mark_actor_scheduled, ack_batch, release_lease, heartbeat_lease,
}

-- the operations that the tests run
program : Unit {0}
unfolding append_event pop_next_batch restore_inflight list_actor_events mark_inflight_failed
    load_actor_state acquire_lease next_batch should_batch_mentions int_or_zero attempts_of same_ids
    Dict.get expire_seen persist_actor_state mark_actor_scheduled ack_batch release_lease
    heartbeat_lease actor_key
program = tt

-- times are read by name, ten seconds apart
abbrev at_name : String → Option Stamp
at_name s =
    if s == "t0"
    then some (record { aware = true; micros = 0 })
    else if s == "t10"
    then some (record { aware = true; micros = 10000000 })
    else none

abbrev world : World
world = record {
  fromisoformat = at_name;
  project_window = λ project. none;
  default_window = num 15;
  int_of_text = λ text. none;
}

abbrev event : String → EventType → String → EventEnvelope
event id type received_at = record {
  event_id = id;
  event_type = type;
  project_id = "7";
  mr_iid = some 3;
  source_branch = "topic";
  target_branch = "main";
  title = "";
  head_sha = none;
  note_id = none;
  discussion_id = some "d";
  note_body = none;
  note_author = none;
  received_at = received_at;
  payload = [];
}

abbrev review : EventEnvelope
review = event "r1" auto_review "t0"

abbrev review2 : EventEnvelope
review2 = event "r2" auto_review "t10"

abbrev note : EventEnvelope
note = event "n1" mention "t0"

abbrev note2 : EventEnvelope
note2 = event "n2" mention "t10"

abbrev cleanup : EventEnvelope
cleanup = event "c1" sandbox_cleanup "t0"

abbrev row : List EventEnvelope → List EventEnvelope → ActorRow
row events inflight = record {
  events = events;
  inflight = inflight;
  scheduled = true;
  lease_owner = none;
  lease_expires_at = none;
}

-- a store with one actor
abbrev with_row : ActorRow → SqliteStore
with_row r = record init { actor_state = ("a", r) ∷ [] }

abbrev receipt : PublishStatus → PublishReceipt
receipt status = record {
  actor_key = "a";
  op_key = "op";
  channel = mr_note;
  external_id = some "12";
  status = status;
  created_at = "t0";
}

abbrev journal_event : String → RunJournalEvent
journal_event key = record {
  execution_key = key;
  run_id = none;
  actor_key = "a";
  scene = mention;
  workflow_version = "1";
  stage_key = none;
  event_type = observation;
  status = RunJournalStatus.running;
  summary = none;
  artifact_refs = [];
  details = [];
  created_at = "t0";
}
