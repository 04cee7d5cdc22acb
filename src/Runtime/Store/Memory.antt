-- ===== src/Runtime/Store/Memory.antt =====
-- `InMemoryRuntimeStore` of agent/runtime/store.py: the queue and the leases. Every method takes
-- the store's lock for its whole body, so a call is one step. A method that reads
-- `time.monotonic()` has the reading `now` for an argument.
pub mod Refines
pub mod Records
use open_review.Base.{
  ℕ, ◌+◌, ◌-◌, ◌/◌, String, Bool, true, false, not, ◌&&◌, ◌||◌, Option, none, some, List, [], ◌∷◌,
  ◌++◌, map, ◌==◌, eqb, ltb, length, is_empty, if◌then◌else◌,
}
use open_review.Base.Dict
use open_review.Base.Dict.{Dict}
use open_review.Base.StrSet
use open_review.Base.StrSet.{StrSet}
use open_review.Base.Result.{Result, PyError, ok, err}
use open_review.Runtime.Models.{
  EventEnvelope, RunRecord, PublishReceipt, RunJournalEvent, RunCheckpoint, RunTerminationRequest,
  actor_key,
}
use open_review.Runtime.World.{World, seconds}
use open_review.Runtime.Attempts.{max_attempts_of, note_failure, retryable, same_ids}
use open_review.Runtime.Batch.{Cut, next_batch}

pub record MemoryStore : Type 0 where
  pub events : Dict (List EventEnvelope)
  pub inflight : Dict (List EventEnvelope)
  pub runs : Dict (List RunRecord)
  pub publish_receipts : Dict (Dict PublishReceipt)
  pub run_journal : Dict (List RunJournalEvent)
  pub run_checkpoints : Dict RunCheckpoint
  pub run_terminations : Dict RunTerminationRequest
  pub seen_event_ids : StrSet
  pub scheduled : StrSet
  pub leases : Dict (String × ℕ)

abbrev pub init : MemoryStore
init = record {
  events = [];
  inflight = [];
  runs = [];
  publish_receipts = [];
  run_journal = [];
  run_checkpoints = [];
  run_terminations = [];
  seen_event_ids = [];
  scheduled = [];
  leases = [];
}

-- `d.get(key, ())`, and what a `defaultdict` finds at `key`
abbrev pub or_nil {ℓ} : {A : Type ℓ} → Option (List A) → List A
or_nil none = []
or_nil (some xs) = xs

unfoldable pub append_event : EventEnvelope → MemoryStore → Bool × MemoryStore
append_event event s =
    let key = actor_key event in
    if StrSet.has s.seen_event_ids event.event_id then (false, s) else (
      true,
      record s {
        seen_event_ids = StrSet.add s.seen_event_ids event.event_id;
        events = Dict.put s.events key (or_nil (Dict.get s.events key) ++ event ∷ []);
      },
    )

unfoldable pub list_actor_events : String → MemoryStore → List EventEnvelope
list_actor_events key s = or_nil (Dict.get s.events key)

-- `any(item.event_id == event_id for item in xs)`
unfoldable pub any_id : String → List EventEnvelope → Bool
any_id id [] = false
any_id id (e ∷ es) = if e.event_id == id then true else any_id id es

-- `item for item in queue if item.event_id != event_id`
unfoldable pub without_id : String → List EventEnvelope → List EventEnvelope
without_id id [] = []
without_id id (e ∷ es) =
    let rest = without_id id es in if not (e.event_id == id) then e ∷ rest else rest

unfoldable pub remove_pending_event : String → String → MemoryStore → Bool × MemoryStore
unfolding any_id without_id
remove_pending_event key event_id s =
    let queue = or_nil (Dict.get s.events key) in
    let remaining = without_id event_id queue in
    if any_id event_id (or_nil (Dict.get s.inflight key))
    then (false, s)
    else if is_empty queue
    then (false, s)
    else if eqb (length remaining) (length queue)
    then (false, s)
    else if not (is_empty remaining)
    then (true, record s { events = Dict.put s.events key remaining })
    else (true, record s { events = Dict.del s.events key })

unfoldable pub has_actor_events : String → MemoryStore → Bool
has_actor_events key s =
    not (is_empty (or_nil (Dict.get s.events key)) && is_empty (or_nil (Dict.get s.inflight key)))

-- `for event in reversed(batch): queue.appendleft(event)`
abbrev appendleft_reversed : List EventEnvelope → List EventEnvelope → List EventEnvelope
appendleft_reversed [] queue = queue
appendleft_reversed (e ∷ es) queue = e ∷ appendleft_reversed es queue

unfoldable pub restore_inflight : String → MemoryStore → ℕ × MemoryStore
restore_inflight key s =
    let batch = or_nil (Dict.get s.inflight key) in
    let popped = record s { inflight = Dict.del s.inflight key } in
    if is_empty batch then (0, popped) else (
      length batch,
      record popped {
        events = Dict.put s.events key (appendleft_reversed batch (or_nil (Dict.get s.events key)));
      },
    )

-- the queue after the loop: `popleft` has changed it in place, also where the loop raised
keep_queue : String → List EventEnvelope → MemoryStore → MemoryStore
keep_queue key queue s = record s { events = Dict.put s.events key queue }

drop_if_empty : String → List EventEnvelope → MemoryStore → MemoryStore
unfolding keep_queue
drop_if_empty key queue s =
    if is_empty queue then record s { events = Dict.del s.events key } else keep_queue key queue s

finish_pop : String → Cut → Option PyError → MemoryStore → Result (List EventEnvelope) × MemoryStore
unfolding drop_if_empty
finish_pop key c (some x) s = (err x, keep_queue key c.queue s)
finish_pop key c none s =
    let left = drop_if_empty key c.queue s in
    (ok c.batch, record left { inflight = Dict.put s.inflight key c.batch })

pop_queue :
    World → String → List EventEnvelope → MemoryStore → Result (List EventEnvelope) × MemoryStore
unfolding finish_pop
pop_queue w key [] s = (ok [], s)
pop_queue w key (e ∷ q) s = let c = next_batch w e q in finish_pop key c c.raised s

unfoldable pub pop_next_batch :
    World → String → MemoryStore → Result (List EventEnvelope) × MemoryStore
unfolding pop_queue
pop_next_batch w key s =
    if not (is_empty (or_nil (Dict.get s.inflight key)))
    then (ok [], s)
    else pop_queue w key (or_nil (Dict.get s.events key)) s

unfoldable pub ack_batch : String → List EventEnvelope → MemoryStore → MemoryStore
ack_batch key batch s =
    let inflight = or_nil (Dict.get s.inflight key) in
    if not (is_empty inflight) && same_ids inflight batch
    then record s { inflight = Dict.del s.inflight key }
    else s

fail_with : String → List EventEnvelope → ℕ → String → ℕ → MemoryStore → Result Bool × MemoryStore
fail_with key inflight attempts error max_attempts s =
    if not (retryable attempts max_attempts)
    then (ok false, record s { inflight = Dict.del s.inflight key })
    else (
      ok true,
      record s { inflight = Dict.put s.inflight key (map (note_failure attempts error) inflight) },
    )

unfoldable pub mark_inflight_failed :
    World → String → List EventEnvelope → String → ℕ → MemoryStore → Result Bool × MemoryStore
unfolding fail_with
mark_inflight_failed w key batch error max_attempts s =
    let inflight = or_nil (Dict.get s.inflight key) in
    if is_empty inflight || not (same_ids inflight batch)
    then (ok false, s)
    else (elim (max_attempts_of w inflight) [
      | ok n ↦ fail_with key inflight (n + 1) error max_attempts s
      | err x ↦ (err x, s)
    ])

unfoldable pub mark_actor_scheduled : String → MemoryStore → Bool × MemoryStore
mark_actor_scheduled key s =
    if StrSet.has s.scheduled key
    then (false, s)
    else (true, record s { scheduled = StrSet.add s.scheduled key })

unfoldable pub clear_actor_scheduled : String → MemoryStore → MemoryStore
clear_actor_scheduled key s = record s { scheduled = StrSet.discard s.scheduled key }

-- `lease and lease[1] > now and lease[0] != worker_id`
lease_blocks : ℕ → String → Option (String × ℕ) → Bool
lease_blocks now worker none = false
lease_blocks now worker (some (owner, until)) = ltb now until && not (owner == worker)

unfoldable pub acquire_lease : ℕ → String → String → ℕ → MemoryStore → Bool × MemoryStore
unfolding lease_blocks
acquire_lease now key worker ttl_seconds s =
    if lease_blocks now worker (Dict.get s.leases key)
    then (false, s)
    else (true, record s { leases = Dict.put s.leases key (worker, now + seconds ttl_seconds) })

-- `lease and lease[0] == worker_id`
lease_owned : String → Option (String × ℕ) → Bool
lease_owned worker none = false
lease_owned worker (some (owner, until)) = owner == worker

unfoldable pub heartbeat_lease : ℕ → String → String → ℕ → MemoryStore → Bool × MemoryStore
unfolding lease_owned
heartbeat_lease now key worker ttl_seconds s =
    if not (lease_owned worker (Dict.get s.leases key))
    then (false, s)
    else (true, record s { leases = Dict.put s.leases key (worker, now + seconds ttl_seconds) })

unfoldable pub release_lease : String → String → MemoryStore → MemoryStore
unfolding lease_owned
release_lease key worker s =
    if lease_owned worker (Dict.get s.leases key)
    then record s { leases = Dict.del s.leases key }
    else s
