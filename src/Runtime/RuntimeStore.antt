-- ===== src/Runtime/RuntimeStore.antt =====
-- The protocol `RuntimeStore` of agent/runtime/store.py as its clients, agent/runtime/queue.py and
-- agent/runtime/worker.py, see it: its operations, and the laws that they rely on. The store reads
-- its own clock.
use open_review.Base.{
  ◌||◌, eqb, [], ◌∷◌, ℕ, String, Bool, true, false, not, ◌&&◌, ◌≡◌, Option, some, List, ◌==◌,
  is_empty,
}
use open_review.Base.Result.{Result, ok}
use open_review.Runtime.Models.{
  EventEnvelope, ActorRuntimeStatus, RunRecord, RunJournalEvent, RunTerminationRequest, actor_key,
}
use open_review.Runtime.World.{World}
use open_review.Runtime.Store.Actor
use open_review.Runtime.Store.Actor.{Actor}
use open_review.Runtime.Store.Contract.{Becomes, Implements}

-- `a` with the lease given to `worker` until some time
abbrev pub leased : String → ℕ → Actor → Actor
leased worker until a = record a { lease = some (worker, until) }

abbrev pub Unchanged : {S : Type 0} → (S → String → Actor) → S → S → Type 0
Unchanged view s s' = (j : String) → view s' j ≡ view s j

-- the store after a successful lease call
abbrev pub Leases : {S : Type 0} → (S → String → Actor) → String → String → S → S → Type 0
Leases view key worker s s' = (until : ℕ) × Becomes view key s (leased worker until (view s key)) s'

-- `status.pending_count or status.inflight_count or status.scheduled`
abbrev pub has_work : ActorRuntimeStatus → Bool
has_work status =
    not (eqb status.pending_count 0) || not (eqb status.inflight_count 0) || status.scheduled

-- the actor is in the list, with work
unfoldable pub lists : String → List ActorRuntimeStatus → Bool
lists key [] = false
lists key (status ∷ rest) = status.actor_key == key && has_work status || lists key rest

pub record RuntimeStore (w : World) : Type 1 where
  pub State : Type 0
  pub view : State → String → Actor
  pub append_event : EventEnvelope → State → Bool × State
  pub has_actor_events : String → State → Bool
  pub restore_inflight : String → State → ℕ × State
  pub pop_next_batch : String → State → Result (List EventEnvelope) × State
  pub ack_batch : String → List EventEnvelope → State → State
  pub mark_inflight_failed : String → List EventEnvelope → String → ℕ → State → Result Bool × State
  pub mark_actor_scheduled : String → State → Bool × State
  pub clear_actor_scheduled : String → State → State
  pub acquire_lease : String → String → ℕ → State → Bool × State
  pub heartbeat_lease : String → String → ℕ → State → Bool × State
  pub release_lease : String → String → State → State
  pub write_run : RunRecord → State → State
  pub list_runs : String → ℕ → State → List RunRecord
  pub get_run_termination : String → State → Option RunTerminationRequest
  pub record_run_journal_event : RunJournalEvent → State → State
  pub clear_run_checkpoint : String → State → State
  pub list_actor_statuses : State → List ActorRuntimeStatus × State
  pub append-refused :
      (e : EventEnvelope) (s : State)
      → (append_event e s).0 ≡ false
      → Unchanged view s (append_event e s).1
  pub append-Becomes :
      (e : EventEnvelope) (s : State)
      → (append_event e s).0 ≡ true
      → Becomes view (actor_key e) s (Actor.push e (view s (actor_key e))) (append_event e s).1
  pub has_lem :
      (key : String) (s : State)
      → has_actor_events key s
        ≡ not (is_empty (view s key).events && is_empty (view s key).inflight)
  pub restore-Implements :
      (key : String) (s : State) → Implements view key (restore_inflight key) Actor.restore s
  pub pop-result :
      (key : String) (s : State) → (pop_next_batch key s).0 ≡ (Actor.pop w (view s key)).0
  pub pop-Becomes :
      (key : String) (s : State) (b : List EventEnvelope)
      → (pop_next_batch key s).0 ≡ ok b
      → Becomes view key s (Actor.pop w (view s key)).1 (pop_next_batch key s).1
  pub statuses-Unchanged : (s : State) → Unchanged view s (list_actor_statuses s).1
  -- an actor that has events is listed with them
  pub statuses_lem :
      (key : String) (s : State)
      → not (is_empty (view s key).events && is_empty (view s key).inflight) ≡ true
      → lists key (list_actor_statuses s).0 ≡ true
  pub pop-Becomes_some :
      (key : String) (s : State) → (a : Actor) × Becomes view key s a (pop_next_batch key s).1
  pub ack-Becomes :
      (key : String) (b : List EventEnvelope) (s : State)
      → Becomes view key s (Actor.ack b (view s key)) (ack_batch key b s)
  pub fail-Implements :
      (key : String) (b : List EventEnvelope) (error : String) (n : ℕ) (s : State)
      → is_empty b ≡ false
      → Implements view key (mark_inflight_failed key b error n) (Actor.fail w b error n) s
  pub mark-Implements :
      (key : String) (s : State) → Implements view key (mark_actor_scheduled key) Actor.mark s
  pub clear-Becomes :
      (key : String) (s : State)
      → Becomes view key s (Actor.clear (view s key)) (clear_actor_scheduled key s)
  pub acquire-refused :
      (key worker : String) (ttl : ℕ) (s : State)
      → (worker == "") ≡ false
      → (acquire_lease key worker ttl s).0 ≡ false
      → Unchanged view s (acquire_lease key worker ttl s).1
  pub acquire-Leases :
      (key worker : String) (ttl : ℕ) (s : State)
      → (worker == "") ≡ false
      → (acquire_lease key worker ttl s).0 ≡ true
      → Leases view key worker s (acquire_lease key worker ttl s).1
  pub heartbeat-owned :
      (key worker : String) (ttl : ℕ) (s : State)
      → (worker == "") ≡ false
      → (heartbeat_lease key worker ttl s).0 ≡ Actor.owned_by worker (view s key).lease
  pub heartbeat-refused :
      (key worker : String) (ttl : ℕ) (s : State)
      → (worker == "") ≡ false
      → (heartbeat_lease key worker ttl s).0 ≡ false
      → Unchanged view s (heartbeat_lease key worker ttl s).1
  pub heartbeat-Leases :
      (key worker : String) (ttl : ℕ) (s : State)
      → (worker == "") ≡ false
      → (heartbeat_lease key worker ttl s).0 ≡ true
      → Leases view key worker s (heartbeat_lease key worker ttl s).1
  pub release-Becomes :
      (key worker : String) (s : State)
      → (worker == "") ≡ false
      → Becomes view key s (Actor.release worker (view s key)) (release_lease key worker s)
  pub write_run-Unchanged : (r : RunRecord) (s : State) → Unchanged view s (write_run r s)
  pub journal-Unchanged :
      (e : RunJournalEvent) (s : State) → Unchanged view s (record_run_journal_event e s)
  pub checkpoint-Unchanged :
      (key : String) (s : State) → Unchanged view s (clear_run_checkpoint key s)
