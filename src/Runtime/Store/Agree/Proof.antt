-- ===== src/Runtime/Store/Agree/Proof.antt =====
-- Proof that the stores reply alike.
use open_review.Base.{
  Bool-cases, inl, inr, ℕ, String, true, false, ◌≡◌, refl, List, [], ◌∷◌, is_some, arith,
}
use open_review.Base.Dict
use open_review.Base.Dict.{get-put}
use open_review.Base.StrSet
use open_review.Base.StrSet.{has-add}
use open_review.Runtime.Models.{EventEnvelope, actor_key}
use open_review.Runtime.World.{World}
use open_review.Runtime.Store.Actor
use open_review.Runtime.Store.Actor.{Actor}
use open_review.Runtime.Store.Contract.{Becomes, Becomes-SameActors}
use open_review.Runtime.Store.Memory
use open_review.Runtime.Store.Memory.{MemoryStore}
use open_review.Runtime.Store.Memory.Refines as Left
use open_review.Runtime.Store.Sqlite
use open_review.Runtime.Store.Sqlite.{
  SqliteStore, ActorRow, SeenRow, expire_seen, persist_actor_state,
}
use open_review.Runtime.Store.Sqlite.Refines as Right
use open_review.Runtime.Store.Agree.Seen.{
  memory_append, sqlite_append, memory_mark, memory_restore, memory_clear, memory_pop,
  memory_remove, memory_release, memory_ack, memory_fail, memory_acquire, memory_heartbeat,
  sqlite_mark, sqlite_restore, sqlite_clear, sqlite_pop, sqlite_remove, sqlite_release, sqlite_ack,
  sqlite_fail, sqlite_acquire, sqlite_heartbeat,
}
use open_review.Runtime.Store.Agree.{
  Call, Reply, memory_step, sqlite_step, memory_run, sqlite_run, Matches, Regular, RegularRun,
  append_event, has_actor_events, restore_inflight, pop_next_batch, mark_actor_scheduled,
  clear_actor_scheduled, remove_pending_event, release_lease, ack_batch, mark_inflight_failed,
  acquire_lease, heartbeat_lease, flag, count, batch, outcome,
}

module _ (w : World) (m : MemoryStore) (d : SqliteStore) (h : Matches m d) where
  abbrev Agrees : Call → Type 0
  Agrees c =
      ((memory_step w c m).0 ≡ (sqlite_step w c d).0)
      × Matches (memory_step w c m).1 (sqlite_step w c d).1

  -- the stores after two state changes with one specification
  state :
      (key : String) (f : Actor → Actor) (m' : MemoryStore) (d' : SqliteStore)
      → Becomes Left.view key m (f (Left.view m key)) m'
      → Becomes Right.view key d (f (Right.view d key)) d'
      → m'.seen_event_ids ≡ m.seen_event_ids
      → d'.seen_event_ids ≡ d.seen_event_ids
      → Matches m' d'
  state key f m' d' a b sm sd = record {
    actors = Becomes-SameActors Left.view Right.view key m m' d d' f h.actors a b;
    seen = λ id. rw (sm, sd) (h.seen id);
  }

  -- the same with what the operations return
  both :
      {A : Type 0} (tag : A → Reply) (key : String) (spec : Actor → A × Actor) (r : A × MemoryStore)
      (t : A × SqliteStore)
      → (r.0 ≡ (spec (Left.view m key)).0)
      → Becomes Left.view key m (spec (Left.view m key)).1 r.1
      → (t.0 ≡ (spec (Right.view d key)).0)
      → Becomes Right.view key d (spec (Right.view d key)).1 t.1
      → r.1.seen_event_ids ≡ m.seen_event_ids
      → t.1.seen_event_ids ≡ d.seen_event_ids
      → (tag r.0 ≡ tag t.0) × Matches r.1 t.1
  both tag key spec r t a am b bd sm sd =
      (cc (a, b, h.actors key), state key (λ x. (spec x).1) r.1 t.1 am bd sm sd)

  module _ (now later : ℕ) (e : EventEnvelope)
      (fresh : expire_seen now d.seen_event_ids ≡ d.seen_event_ids) where
    append_old : StrSet.has m.seen_event_ids e.event_id ≡ true → Agrees (append_event now later e)
    unfolding memory_step sqlite_step Memory.append_event Sqlite.append_event
        Sqlite.load_actor_state
    append_old old =
        rw (old, fresh, ← h.seen e.event_id, old)
          (refl, record { actors = h.actors; seen = h.seen })

    append_new : StrSet.has m.seen_event_ids e.event_id ≡ false → Agrees (append_event now later e)
    unfolding memory_step sqlite_step
    append_new new =
        let unseen : is_some (Dict.get (expire_seen now d.seen_event_ids) e.event_id) ≡ false =
          rw (fresh, ← h.seen e.event_id) new in
        (
          unfold Memory.append_event Sqlite.append_event in rw (new, unseen) refl,
          record {
            actors =
                Becomes-SameActors Left.view Right.view (actor_key e) m (Memory.append_event e m).1
                  d (Sqlite.append_event now later e d).1 (Actor.push e) h.actors
                  (Left.append-Becomes e m new) (Right.append-Becomes now later e d unseen);
            seen =
                λ id. cc (memory_append e m id, sqlite_append e now later d id, fresh, h.seen id);
          },
        )

    agree_append : Agrees (append_event now later e)
    agree_append = elim (Bool-cases (StrSet.has m.seen_event_ids e.event_id)) [
      | inl old ↦ append_old old
      | inr new ↦ append_new new
    ]

  -- one call
  pub step-agrees : (c : Call) → Regular w c d → Agrees c
  unfolding memory_step sqlite_step
  step-agrees (append_event now later e) r = agree_append now later e r
  step-agrees (has_actor_events key) r =
      (unfold Memory.has_actor_events Sqlite.has_actor_events in ground (arith, h.actors key), h)
  step-agrees (restore_inflight key) r =
      let (a, am) = Left.restore-Implements key m in
      let (b, bd) = Right.restore-Implements key d in
      both count key Actor.restore _ _ a am b bd (memory_restore key m) (sqlite_restore key d)
  step-agrees (pop_next_batch key) (out, r) =
      let (b, bd) = Right.pop-Implements w key d in
      let a = Left.pop-result w key m in
      both batch key (Actor.pop w) _ _ a (Left.pop-Becomes w key m out (cc (a, b, r, h.actors key)))
        b bd (memory_pop key m w) (sqlite_pop key d w)
  step-agrees (mark_actor_scheduled key) r =
      let (a, am) = Left.mark-Implements key m in
      let (b, bd) = Right.mark-Implements key d in
      both flag key Actor.mark _ _ a am b bd (memory_mark key m) (sqlite_mark key d)
  step-agrees (clear_actor_scheduled key) r = (
    refl,
    state key Actor.clear _ _ (Left.clear-Becomes key m) (Right.clear-Becomes key d)
        (memory_clear key m) (sqlite_clear key d),
  )
  step-agrees (remove_pending_event key id) r =
      let (a, am) = Left.remove-Implements key id m in
      let (b, bd) = Right.remove-Implements key d id in
      both flag key (Actor.remove id) _ _ a am b bd (memory_remove key m id)
        (sqlite_remove key d id)
  step-agrees (release_lease key worker) r = (
    refl,
    state key (Actor.release worker) _ _ (Left.release-Becomes key worker m)
        (Right.release-Becomes key worker d r) (memory_release key m worker)
        (sqlite_release key d worker),
  )
  step-agrees (ack_batch key b) r = (
    refl,
    state key (Actor.ack b) _ _ (Left.ack-Becomes key b m) (Right.ack-Becomes key d b)
        (memory_ack key m b) (sqlite_ack key d b),
  )
  step-agrees (mark_inflight_failed key events error n) r =
      let (a, am) = Left.fail-Implements w key m events error n r in
      let (b, bd) = Right.fail-Implements w key d events error n in
      both outcome key (Actor.fail w events error n) _ _ a am b bd
        (memory_fail key m w events error n) (sqlite_fail key d w events error n)
  step-agrees (acquire_lease now key worker ttl) r =
      let (a, am) = Left.acquire-Implements now key worker ttl m in
      let (b, bd) = Right.acquire-Implements key worker d r now ttl in
      both flag key (Actor.acquire now worker ttl) _ _ a am b bd
        (memory_acquire key m now worker ttl) (sqlite_acquire key d now worker ttl)
  step-agrees (heartbeat_lease now key worker ttl) r =
      let (a, am) = Left.heartbeat-Implements now key worker ttl m in
      let (b, bd) = Right.heartbeat-Implements key worker d r now ttl in
      both flag key (Actor.heartbeat now worker ttl) _ _ a am b bd
        (memory_heartbeat key m now worker ttl) (sqlite_heartbeat key d now worker ttl)

-- An in-memory and a SQLite store that hold the same queues, flags and leases and have seen the same
-- events give the same replies to every sequence of queue and lease calls that is regular in the
-- SQLite store: no seen event expires, no pop raises, no failure is reported for an empty batch, and
-- workers that ask for leases have names.
pub run-agrees :
    (w : World) (calls : List Call) (m : MemoryStore) (d : SqliteStore)
    → Matches m d
    → RegularRun w calls d
    → memory_run w calls m ≡ sqlite_run w calls d
unfolding memory_run sqlite_run
run-agrees w [] m d h r = refl
run-agrees w (c ∷ cs) m d h r =
    let (same, next) = step-agrees w m d h c r.0 in
    cc (same, run-agrees w cs (memory_step w c m).1 (sqlite_step w c d).1 next r.1)
