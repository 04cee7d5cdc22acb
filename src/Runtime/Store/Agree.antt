-- ===== src/Runtime/Store/Agree.antt =====
-- The two stores behind one interface: the calls that clients make of `RuntimeStore`, and what each
-- store replies.
mod Seen
pub mod Proof
pub mod Leases
pub mod Dedupe
pub mod Backlog
pub mod Receipts
pub mod Journal
use open_review.Base.{ℕ, String, Bool, true, false, ◌≡◌, List, [], ◌∷◌, ◌==◌, is_empty, is_some}
use open_review.Base.Dict
use open_review.Base.StrSet
use open_review.Base.Result.{Result, ok}
use open_review.Runtime.Models.{EventEnvelope}
use open_review.Runtime.World.{World}
use open_review.Runtime.Store.Memory
use open_review.Runtime.Store.Memory.{MemoryStore}
use open_review.Runtime.Store.Memory.Refines.{view as memory_view}
use open_review.Runtime.Store.Sqlite
use open_review.Runtime.Store.Sqlite.{SqliteStore, expire_seen}
use open_review.Runtime.Store.Sqlite.Refines.{view as sqlite_view}

pub data Call : Type 0 where
  append_event : ℕ → ℕ → EventEnvelope → Call
  has_actor_events restore_inflight pop_next_batch mark_actor_scheduled : String → Call
  clear_actor_scheduled : String → Call
  remove_pending_event release_lease : String → String → Call
  ack_batch : String → List EventEnvelope → Call
  mark_inflight_failed : String → List EventEnvelope → String → ℕ → Call
  acquire_lease heartbeat_lease : ℕ → String → String → ℕ → Call

pub data Reply : Type 0 where
  flag : Bool → Reply
  count : ℕ → Reply
  batch : Result (List EventEnvelope) → Reply
  outcome : Result Bool → Reply
  done : Reply

-- pairs a reply with the new state
abbrev tag {ℓ} : {A : Type 0} {S : Type ℓ} → (A → Reply) → A × S → Reply × S
tag f r = (f r.0, r.1)

unfoldable pub memory_step : World → Call → MemoryStore → Reply × MemoryStore
memory_step w (append_event now later e) s = tag flag (Memory.append_event e s)
memory_step w (has_actor_events key) s = (flag (Memory.has_actor_events key s), s)
memory_step w (restore_inflight key) s = tag count (Memory.restore_inflight key s)
memory_step w (pop_next_batch key) s = tag batch (Memory.pop_next_batch w key s)
memory_step w (mark_actor_scheduled key) s = tag flag (Memory.mark_actor_scheduled key s)
memory_step w (clear_actor_scheduled key) s = (done, Memory.clear_actor_scheduled key s)
memory_step w (remove_pending_event key id) s = tag flag (Memory.remove_pending_event key id s)
memory_step w (release_lease key worker) s = (done, Memory.release_lease key worker s)
memory_step w (ack_batch key b) s = (done, Memory.ack_batch key b s)
memory_step w (mark_inflight_failed key b error n) s =
    tag outcome (Memory.mark_inflight_failed w key b error n s)
memory_step w (acquire_lease now key worker ttl) s =
    tag flag (Memory.acquire_lease now key worker ttl s)
memory_step w (heartbeat_lease now key worker ttl) s =
    tag flag (Memory.heartbeat_lease now key worker ttl s)

unfoldable pub sqlite_step : World → Call → SqliteStore → Reply × SqliteStore
sqlite_step w (append_event now later e) s = tag flag (Sqlite.append_event now later e s)
sqlite_step w (has_actor_events key) s = (flag (Sqlite.has_actor_events key s), s)
sqlite_step w (restore_inflight key) s = tag count (Sqlite.restore_inflight key s)
sqlite_step w (pop_next_batch key) s = tag batch (Sqlite.pop_next_batch w key s)
sqlite_step w (mark_actor_scheduled key) s = tag flag (Sqlite.mark_actor_scheduled key s)
sqlite_step w (clear_actor_scheduled key) s = (done, Sqlite.clear_actor_scheduled key s)
sqlite_step w (remove_pending_event key id) s = tag flag (Sqlite.remove_pending_event key id s)
sqlite_step w (release_lease key worker) s = (done, Sqlite.release_lease key worker s)
sqlite_step w (ack_batch key b) s = (done, Sqlite.ack_batch key b s)
sqlite_step w (mark_inflight_failed key b error n) s =
    tag outcome (Sqlite.mark_inflight_failed w key b error n s)
sqlite_step w (acquire_lease now key worker ttl) s =
    tag flag (Sqlite.acquire_lease now key worker ttl s)
sqlite_step w (heartbeat_lease now key worker ttl) s =
    tag flag (Sqlite.heartbeat_lease now key worker ttl s)

unfoldable pub memory_run : World → List Call → MemoryStore → List Reply
memory_run w [] s = []
memory_run w (c ∷ cs) s = (memory_step w c s).0 ∷ memory_run w cs (memory_step w c s).1

unfoldable pub sqlite_run : World → List Call → SqliteStore → List Reply
sqlite_run w [] s = []
sqlite_run w (c ∷ cs) s = (sqlite_step w c s).0 ∷ sqlite_run w cs (sqlite_step w c s).1

-- The stores hold the same queues, flags and leases, and have seen the same events.
pub record Matches (m : MemoryStore) (d : SqliteStore) : Type 0 where
  pub actors : (key : String) → memory_view m key ≡ sqlite_view d key
  pub seen : (id : String) → StrSet.has m.seen_event_ids id ≡ is_some (Dict.get d.seen_event_ids id)

-- Where the stores differ: what SQLite forgets after seven days, a pop that raises, a failure that
-- is reported for no event, and a worker without a name.
abbrev pub Regular : World → Call → SqliteStore → Type 0
Regular w (append_event now later e) d = expire_seen now d.seen_event_ids ≡ d.seen_event_ids
Regular w (pop_next_batch key) d =
    (b : List EventEnvelope) × ((Sqlite.pop_next_batch w key d).0 ≡ ok b)
Regular w (mark_inflight_failed key b error n) d = is_empty b ≡ false
Regular w (acquire_lease now key worker ttl) d = (worker == "") ≡ false
Regular w (heartbeat_lease now key worker ttl) d = (worker == "") ≡ false
Regular w (release_lease key worker) d = (worker == "") ≡ false
Regular w _ d = Unit {0}

abbrev pub RegularRun : World → List Call → SqliteStore → Type 0
RegularRun w [] d = Unit {0}
RegularRun w (c ∷ cs) d = Regular w c d × RegularRun w cs (sqlite_step w c d).1
