-- ===== src/Runtime/Store/Agree/Dedupe.antt =====
-- A second event with the identifier of an event that was taken in the last seven days is dropped.
use open_review.Base.{
  ℕ, ◌+◌, ◌≤◌, String, true, false, ◌≡◌, refl, some, List, [], ◌∷◌, All, is_some, ap, ◌∙◌, arith,
}
use open_review.Base.Dict
use open_review.Runtime.Models.{EventEnvelope, actor_key}
use open_review.Runtime.World.{World, seconds}
use open_review.Runtime.Store.Sqlite
use open_review.Runtime.Store.Sqlite.{SqliteStore, SeenRow, expire_seen, event_id_ttl_seconds}
use open_review.Runtime.Store.Sqlite.Refines.{view}
use open_review.Runtime.Store.Sqlite.Dedupe.{
  expire_keeps, seen-persist, seen-pop, seen-fail, appended_row, append_remembers, refused,
}
use open_review.Runtime.Store.Agree.Leases.{sqlite_after}
use open_review.Runtime.Store.Agree.{
  Call, sqlite_step, append_event, has_actor_events, restore_inflight, pop_next_batch,
  mark_actor_scheduled, clear_actor_scheduled, remove_pending_event, release_lease, ack_batch,
  mark_inflight_failed, acquire_lease, heartbeat_lease,
}

-- whatever a call is, except an append after `end`
abbrev pub Before : ℕ → Call → Type 0
Before end (append_event now later e) = now ≤ end
Before end c = Unit

-- a row of a seen event stays until it expires, whatever is called
step_remembers :
    (w : World) (id : String) (row : SeenRow) (c : Call) (s : SqliteStore)
    → Before (row.seen_at + seconds event_id_ttl_seconds) c
    → Dict.get s.seen_event_ids id ≡ some row
    → Dict.get (sqlite_step w c s).1.seen_event_ids id ≡ some row
unfolding sqlite_step
step_remembers w id row (append_event now later e) s fresh h =
    append_remembers now later e id row s (expire_keeps now s.seen_event_ids id row h fresh)
step_remembers w id row (has_actor_events k) s fresh h = h
step_remembers w id row (restore_inflight k) s fresh h =
    unfold Sqlite.restore_inflight in grind (arith, seen-persist)
step_remembers w id row (pop_next_batch k) s fresh h = ap (λ d. Dict.get d id) (seen-pop w k s) ∙ h
step_remembers w id row (mark_actor_scheduled k) s fresh h =
    unfold Sqlite.mark_actor_scheduled in grind (arith, seen-persist)
step_remembers w id row (clear_actor_scheduled k) s fresh h =
    unfold Sqlite.clear_actor_scheduled in grind (arith, seen-persist)
step_remembers w id row (acquire_lease now k worker ttl) s fresh h =
    unfold Sqlite.acquire_lease in grind (arith, seen-persist)
step_remembers w id row (heartbeat_lease now k worker ttl) s fresh h =
    unfold Sqlite.heartbeat_lease in grind (arith, seen-persist)
step_remembers w id row (release_lease k worker) s fresh h =
    unfold Sqlite.release_lease in grind (arith, seen-persist)
step_remembers w id row (ack_batch k b) s fresh h =
    unfold Sqlite.ack_batch in grind (arith, seen-persist)
step_remembers w id row (remove_pending_event k i) s fresh h =
    unfold Sqlite.remove_pending_event in grind (arith, seen-persist)
step_remembers w id row (mark_inflight_failed k b error n) s fresh h =
    ap (λ d. Dict.get d id) (seen-fail w k b error n s) ∙ h

run_remembers :
    (w : World) (id : String) (row : SeenRow) (calls : List Call) (s : SqliteStore)
    → All (Before (row.seen_at + seconds event_id_ttl_seconds)) calls
    → Dict.get s.seen_event_ids id ≡ some row
    → Dict.get (sqlite_after w calls s).seen_event_ids id ≡ some row
run_remembers w id row [] s early h = h
run_remembers w id row (c ∷ cs) s early h =
    run_remembers w id row cs (sqlite_step w c s).1 early.1 (step_remembers w id row c s early.0 h)

-- Once `append_event` has taken an event, an event with the same identifier is refused for seven
-- days from the stamp of the first, and no actor changes, whatever calls come in between, for
-- whatever actors, with the clock of their appends not past the seven days.
pub append-append_dup :
    (w : World) (now later now' later' : ℕ) (e e' : EventEnvelope) (calls : List Call)
    (s : SqliteStore)
    → (Sqlite.append_event now later e s).0 ≡ true
    → e.event_id ≡ e'.event_id
    → All (Before (later + seconds event_id_ttl_seconds)) calls
    → now' ≤ later + seconds event_id_ttl_seconds
    → let left = sqlite_after w calls (Sqlite.append_event now later e s).1 in
      let again = Sqlite.append_event now' later' e' left in
      (again.0 ≡ false) × ((key : String) → view again.1 key ≡ view left key)
append-append_dup w now later now' later' e e' calls s h same early fresh =
    let row : SeenRow = record { actor_key = actor_key e; seen_at = later } in
    let left = sqlite_after w calls (Sqlite.append_event now later e s).1 in
    let kept =
      run_remembers w e.event_id row calls (Sqlite.append_event now later e s).1 early
        (appended_row now later e s h) in
    let seen : is_some (Dict.get (expire_seen now' left.seen_event_ids) e'.event_id) ≡ true =
      rw (← same, expire_keeps now' left.seen_event_ids e.event_id row kept fresh) refl in
    refused now' later' e' left seen
