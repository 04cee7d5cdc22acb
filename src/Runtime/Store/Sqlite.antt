-- ===== src/Runtime/Store/Sqlite.antt =====
-- `SQLiteRuntimeStore` of agent/runtime/store.py: the queue and the leases. A method below
-- runs in one transaction (`BEGIN IMMEDIATE`), so a call is one step, and an exception rolls it back. A
-- table is a dictionary over its primary key. Stored JSON reads back as the value that was written.
-- A method that reads `time.time()` has the reading `now` for an argument.
pub mod Refines
pub mod Records
pub mod Delivery
pub mod Dedupe
pub mod Race
pub mod Retry
pub mod Statuses
use open_review.Base.{
  ℕ, ◌+◌, ◌-◌, ◌/◌, String, Bool, true, false, not, ◌&&◌, ◌||◌, Option, none, some, List, [], ◌∷◌,
  ◌++◌, map, ◌==◌, eqb, ltb, length, is_empty, is_some, if◌then◌else◌,
}
use open_review.Base.Dict
use open_review.Base.Dict.{Dict}
use open_review.Base.Result.{Result, PyError, ok, err}
use open_review.Runtime.Models.{
  EventEnvelope, RunRecord, PublishReceipt, RunJournalEvent, RunCheckpoint, RunTerminationRequest,
  actor_key,
}
use open_review.Runtime.World.{World, seconds}
use open_review.Runtime.Attempts.{max_attempts_of, note_failure, retryable, same_ids}
use open_review.Runtime.Batch.{Cut, next_batch, truthy, same_text}

-- a row of runtime_actor_state
pub record ActorRow : Type 0 where
  pub events : List EventEnvelope
  pub inflight : List EventEnvelope
  pub scheduled : Bool
  pub lease_owner : Option String
  pub lease_expires_at : Option ℕ

-- a row of runtime_seen_event_ids
pub record SeenRow : Type 0 where
  pub actor_key : String
  pub seen_at : ℕ

-- a row of runtime_runs
pub record RunRow : Type 0 where
  pub actor_key : String
  pub run : RunRecord
  pub updated_at : ℕ

-- a row of runtime_publish_receipts; the key is (actor_key, op_key)
pub record ReceiptRow : Type 0 where
  pub actor_key : String
  pub op_key : String
  pub receipt : PublishReceipt
  pub created_at : ℕ

-- a row of runtime_run_journal; the key is (execution_key, sequence)
pub record JournalRow : Type 0 where
  pub execution_key : String
  pub sequence : ℕ
  pub event : RunJournalEvent
  pub created_at : ℕ

pub record SqliteStore : Type 0 where
  pub actor_state : Dict ActorRow
  pub seen_event_ids : Dict SeenRow
  pub runs : Dict RunRow
  pub publish_receipts : List ReceiptRow
  pub run_journal : List JournalRow
  pub run_checkpoints : Dict RunCheckpoint
  pub run_terminations : Dict RunTerminationRequest

abbrev pub init : SqliteStore
init = record {
  actor_state = [];
  seen_event_ids = [];
  runs = [];
  publish_receipts = [];
  run_journal = [];
  run_checkpoints = [];
  run_terminations = [];
}

abbrev pub empty_row : ActorRow
empty_row = record {
  events = [];
  inflight = [];
  scheduled = false;
  lease_owner = none;
  lease_expires_at = none;
}

abbrev pub or_empty_row : Option ActorRow → ActorRow
or_empty_row none = empty_row
or_empty_row (some row) = row

unfoldable pub load_actor_state : String → SqliteStore → ActorRow
load_actor_state key s = or_empty_row (Dict.get s.actor_state key)

unfoldable pub persist_actor_state : String → ActorRow → SqliteStore → SqliteStore
persist_actor_state key row s =
    if is_empty row.events
      && is_empty row.inflight
      && not row.scheduled
      && not (truthy row.lease_owner)
    then record s { actor_state = Dict.del s.actor_state key }
    else record s { actor_state = Dict.put s.actor_state key row }

abbrev pub event_id_ttl_seconds : ℕ
event_id_ttl_seconds = 604800

-- `DELETE FROM runtime_seen_event_ids WHERE seen_at < now - EVENT_ID_TTL_SECONDS`
unfoldable pub expire_seen : ℕ → Dict SeenRow → Dict SeenRow
expire_seen now [] = []
expire_seen now ((id, row) ∷ rows) =
    let rest = expire_seen now rows in
    if ltb (row.seen_at + seconds event_id_ttl_seconds) now then rest else (id, row) ∷ rest

-- `later` is the second reading of the clock, which stamps the new row
unfoldable pub append_event : ℕ → ℕ → EventEnvelope → SqliteStore → Bool × SqliteStore
unfolding expire_seen
append_event now later event s =
    let key = actor_key event in
    let expired = record s { seen_event_ids = expire_seen now s.seen_event_ids } in
    let row = load_actor_state key s in
    if is_some (Dict.get expired.seen_event_ids event.event_id) then (false, expired) else (
      true,
      persist_actor_state key (record row { events = row.events ++ event ∷ [] })
          (record s {
            seen_event_ids =
                Dict.put expired.seen_event_ids event.event_id
                  (record { actor_key = key; seen_at = later });
          }),
    )

unfoldable pub list_actor_events : String → SqliteStore → List EventEnvelope
list_actor_events key s = (load_actor_state key s).events

unfoldable pub any_id : String → List EventEnvelope → Bool
any_id id [] = false
any_id id (e ∷ es) = if e.event_id == id then true else any_id id es

unfoldable pub without_id : String → List EventEnvelope → List EventEnvelope
without_id id [] = []
without_id id (e ∷ es) =
    let rest = without_id id es in if not (e.event_id == id) then e ∷ rest else rest

unfoldable pub remove_pending_event : String → String → SqliteStore → Bool × SqliteStore
unfolding any_id without_id
remove_pending_event key event_id s =
    let row = load_actor_state key s in
    let remaining = without_id event_id row.events in
    if any_id event_id row.inflight
    then (false, s)
    else if eqb (length remaining) (length row.events)
    then (false, s)
    else (true, persist_actor_state key (record row { events = remaining }) s)

unfoldable pub has_actor_events : String → SqliteStore → Bool
has_actor_events key s =
    let row = load_actor_state key s in not (is_empty row.events && is_empty row.inflight)

unfoldable pub restore_inflight : String → SqliteStore → ℕ × SqliteStore
restore_inflight key s =
    let row = load_actor_state key s in
    if is_empty row.inflight then (0, s) else (
      length row.inflight,
      persist_actor_state key (record row { events = row.inflight ++ row.events; inflight = [] }) s,
    )

-- the transaction is rolled back where the loop raised
finish_pop :
    String
    → ActorRow
    → Cut
    → Option PyError
    → SqliteStore
    → Result (List EventEnvelope) × SqliteStore
finish_pop key row c (some x) s = (err x, s)
finish_pop key row c none s =
    (ok c.batch, persist_actor_state key (record row { events = c.queue; inflight = c.batch }) s)

pop_queue :
    World
    → String
    → ActorRow
    → List EventEnvelope
    → SqliteStore
    → Result (List EventEnvelope) × SqliteStore
unfolding finish_pop
pop_queue w key row [] s = (ok [], s)
pop_queue w key row (e ∷ q) s = let c = next_batch w e q in finish_pop key row c c.raised s

unfoldable pub pop_next_batch :
    World → String → SqliteStore → Result (List EventEnvelope) × SqliteStore
unfolding pop_queue
pop_next_batch w key s =
    let row = load_actor_state key s in
    if not (is_empty row.inflight) then (ok [], s) else pop_queue w key row row.events s

unfoldable pub ack_batch : String → List EventEnvelope → SqliteStore → SqliteStore
ack_batch key batch s =
    let row = load_actor_state key s in
    persist_actor_state key
      (if same_ids row.inflight batch then record row { inflight = [] } else row) s

fail_with : String → ActorRow → ℕ → String → ℕ → SqliteStore → Result Bool × SqliteStore
fail_with key row attempts error max_attempts s =
    let again = retryable attempts max_attempts in
    (
      ok again,
      persist_actor_state key
          (record row {
            inflight = if again then map (note_failure attempts error) row.inflight else [];
          })
          s,
    )

unfoldable pub mark_inflight_failed :
    World → String → List EventEnvelope → String → ℕ → SqliteStore → Result Bool × SqliteStore
unfolding fail_with
mark_inflight_failed w key batch error max_attempts s =
    let row = load_actor_state key s in
    if not (same_ids row.inflight batch)
    then (ok false, s)
    else (elim (max_attempts_of w row.inflight) [
      | ok n ↦ fail_with key row (n + 1) error max_attempts s
      | err x ↦ (err x, s)
    ])

unfoldable pub mark_actor_scheduled : String → SqliteStore → Bool × SqliteStore
mark_actor_scheduled key s =
    let row = load_actor_state key s in
    if row.scheduled
    then (false, s)
    else (true, persist_actor_state key (record row { scheduled = true }) s)

unfoldable pub clear_actor_scheduled : String → SqliteStore → SqliteStore
clear_actor_scheduled key s =
    persist_actor_state key (record (load_actor_state key s) { scheduled = false }) s

-- `lease_expires_at and lease_expires_at > now`
later_than : Option ℕ → ℕ → Bool
later_than none now = false
later_than (some t) now = not (eqb t 0) && ltb now t

unfoldable pub acquire_lease : ℕ → String → String → ℕ → SqliteStore → Bool × SqliteStore
unfolding later_than
acquire_lease now key worker ttl_seconds s =
    let row = load_actor_state key s in
    if truthy row.lease_owner
      && later_than row.lease_expires_at now
      && not (same_text row.lease_owner (some worker))
    then (false, s)
    else (
      true,
      persist_actor_state key
          (record row {
            lease_owner = some worker;
            lease_expires_at = some (now + seconds ttl_seconds);
          })
          s,
    )

unfoldable pub heartbeat_lease : ℕ → String → String → ℕ → SqliteStore → Bool × SqliteStore
heartbeat_lease now key worker ttl_seconds s =
    let row = load_actor_state key s in
    if not (same_text row.lease_owner (some worker)) then (false, s) else (
      true,
      persist_actor_state key
          (record row {
            lease_owner = some worker;
            lease_expires_at = some (now + seconds ttl_seconds);
          })
          s,
    )

unfoldable pub release_lease : String → String → SqliteStore → SqliteStore
release_lease key worker s =
    let row = load_actor_state key s in
    persist_actor_state key
      (if same_text row.lease_owner (some worker)
        then record row { lease_owner = none; lease_expires_at = none }
        else row)
      s
