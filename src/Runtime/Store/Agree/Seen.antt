-- ===== src/Runtime/Store/Agree/Seen.antt =====
-- No operation of the queue but `append_event` touches the identifiers that were seen.
use open_review.Base.{
  if◌then◌else◌, is_some, eq_iff, ◌==◌, ℕ, String, true, ◌≡◌, refl, List, arith, Bool-cases, inl,
  inr,
}
use open_review.Base.Dict
use open_review.Base.Dict.{get-put}
use open_review.Base.StrSet
use open_review.Base.StrSet.{has-add}
use open_review.Runtime.Models.{EventEnvelope, actor_key}
use open_review.Runtime.World.{World}
use open_review.Runtime.Store.Memory
use open_review.Runtime.Store.Memory.{MemoryStore}
use open_review.Runtime.Store.Sqlite
use open_review.Runtime.Store.Sqlite.{
  SqliteStore, ActorRow, SeenRow, persist_actor_state, load_actor_state, expire_seen,
}

abbrev ids_m : MemoryStore → List String
ids_m m = m.seen_event_ids

abbrev ids_d : SqliteStore → Dict.Dict SeenRow
ids_d d = d.seen_event_ids

seen-persist :
    (key : String) (row : ActorRow) (d : SqliteStore)
    → ids_d (persist_actor_state key row d) ≡ ids_d d
unfolding persist_actor_state
seen-persist key row d = ground arith

module _ (key : String) (m : MemoryStore) where
  pub memory_mark : ids_m (Memory.mark_actor_scheduled key m).1 ≡ ids_m m
  unfolding Memory.mark_actor_scheduled
  memory_mark = ground arith

  pub memory_restore : ids_m (Memory.restore_inflight key m).1 ≡ ids_m m
  unfolding Memory.restore_inflight
  memory_restore = ground arith

  pub memory_clear : ids_m (Memory.clear_actor_scheduled key m) ≡ ids_m m
  unfolding Memory.clear_actor_scheduled
  memory_clear = refl

  pub memory_pop : (w : World) → ids_m (Memory.pop_next_batch w key m).1 ≡ ids_m m
  unfolding Memory.pop_next_batch
  memory_pop w = ground arith

  pub memory_remove : (id : String) → ids_m (Memory.remove_pending_event key id m).1 ≡ ids_m m
  unfolding Memory.remove_pending_event
  memory_remove id = ground arith

  pub memory_release : (worker : String) → ids_m (Memory.release_lease key worker m) ≡ ids_m m
  unfolding Memory.release_lease
  memory_release worker = ground arith

  pub memory_ack : (b : List EventEnvelope) → ids_m (Memory.ack_batch key b m) ≡ ids_m m
  unfolding Memory.ack_batch
  memory_ack b = ground arith

  pub memory_fail :
      (w : World) (b : List EventEnvelope) (error : String) (n : ℕ)
      → ids_m (Memory.mark_inflight_failed w key b error n m).1 ≡ ids_m m
  unfolding Memory.mark_inflight_failed
  memory_fail w b error n = ground arith

  pub memory_acquire :
      (now : ℕ) (worker : String) (ttl : ℕ)
      → ids_m (Memory.acquire_lease now key worker ttl m).1 ≡ ids_m m
  unfolding Memory.acquire_lease
  memory_acquire now worker ttl = ground arith

  pub memory_heartbeat :
      (now : ℕ) (worker : String) (ttl : ℕ)
      → ids_m (Memory.heartbeat_lease now key worker ttl m).1 ≡ ids_m m
  unfolding Memory.heartbeat_lease
  memory_heartbeat now worker ttl = ground arith

module _ (key : String) (d : SqliteStore) where
  pub sqlite_mark : ids_d (Sqlite.mark_actor_scheduled key d).1 ≡ ids_d d
  unfolding Sqlite.mark_actor_scheduled
  sqlite_mark = grind (arith, seen-persist)

  pub sqlite_restore : ids_d (Sqlite.restore_inflight key d).1 ≡ ids_d d
  unfolding Sqlite.restore_inflight
  sqlite_restore = grind (arith, seen-persist)

  pub sqlite_clear : ids_d (Sqlite.clear_actor_scheduled key d) ≡ ids_d d
  unfolding Sqlite.clear_actor_scheduled
  sqlite_clear = grind (arith, seen-persist)

  pub sqlite_pop : (w : World) → ids_d (Sqlite.pop_next_batch w key d).1 ≡ ids_d d
  unfolding Sqlite.pop_next_batch
  sqlite_pop w = grind (arith, seen-persist)

  pub sqlite_remove : (id : String) → ids_d (Sqlite.remove_pending_event key id d).1 ≡ ids_d d
  unfolding Sqlite.remove_pending_event
  sqlite_remove id = grind (arith, seen-persist)

  pub sqlite_release : (worker : String) → ids_d (Sqlite.release_lease key worker d) ≡ ids_d d
  unfolding Sqlite.release_lease
  sqlite_release worker = grind (arith, seen-persist)

  pub sqlite_ack : (b : List EventEnvelope) → ids_d (Sqlite.ack_batch key b d) ≡ ids_d d
  unfolding Sqlite.ack_batch
  sqlite_ack b = grind (arith, seen-persist)

  pub sqlite_fail :
      (w : World) (b : List EventEnvelope) (error : String) (n : ℕ)
      → ids_d (Sqlite.mark_inflight_failed w key b error n d).1 ≡ ids_d d
  unfolding Sqlite.mark_inflight_failed
  sqlite_fail w b error n = grind (arith, seen-persist)

  pub sqlite_acquire :
      (now : ℕ) (worker : String) (ttl : ℕ)
      → ids_d (Sqlite.acquire_lease now key worker ttl d).1 ≡ ids_d d
  unfolding Sqlite.acquire_lease
  sqlite_acquire now worker ttl = grind (arith, seen-persist)

  pub sqlite_heartbeat :
      (now : ℕ) (worker : String) (ttl : ℕ)
      → ids_d (Sqlite.heartbeat_lease now key worker ttl d).1 ≡ ids_d d
  unfolding Sqlite.heartbeat_lease
  sqlite_heartbeat now worker ttl = grind (arith, seen-persist)

module _ (e : EventEnvelope) where
  pub memory_append :
      (m : MemoryStore) (id : String)
      → StrSet.has (ids_m (Memory.append_event e m).1) id
        ≡ (if e.event_id == id then true else StrSet.has (ids_m m) id)
  unfolding Memory.append_event
  memory_append m id = ground (arith, has-add m.seen_event_ids e.event_id id, eq_iff e.event_id id)

  pub sqlite_append :
      (now later : ℕ) (d : SqliteStore) (id : String)
      → is_some (Dict.get (ids_d (Sqlite.append_event now later e d).1) id)
        ≡ (if e.event_id == id then true else is_some (Dict.get (expire_seen now (ids_d d)) id))
  unfolding Sqlite.append_event
  sqlite_append now later d id =
      elim (Bool-cases (is_some (Dict.get (expire_seen now (ids_d d)) e.event_id))) [
        | inl p ↦ rw p (ground (arith, eq_iff e.event_id id))
        | inr p ↦ rw p (
            simp seen-persist (
              ground (
                arith,
                get-put (expire_seen now (ids_d d)) e.event_id id
                    (record { actor_key = actor_key e; seen_at = later }),
              )))
      ]
