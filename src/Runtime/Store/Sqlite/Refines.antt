-- ===== src/Runtime/Store/Sqlite/Refines.antt =====
-- The SQLite store implements the specification of the queue, for workers that have a name.
use open_review.Base.{
  ℕ, ◌+◌, ◌≡◌, refl, String, true, false, Option, none, some, List, [], ◌∷◌, ◌++◌, map, ◌==◌,
  eq_iff, arith, Bool-cases, inl, inr, if◌then◌else◌, is_empty, is_some,
}
use open_review.Base.Dict
use open_review.Base.Dict.{Dict}
use open_review.Base.Dict.{get-put, get-del}
use open_review.Base.Result.{Result, ok, err}
use open_review.Runtime.Models.{EventEnvelope, actor_key}
use open_review.Runtime.World.{World, seconds}
use open_review.Runtime.Batch.{next_batch, same_text}
use open_review.Runtime.Attempts.{max_attempts_of, note_failure}
use open_review.Runtime.Store.Actor
use open_review.Runtime.Store.Actor.{Actor}
use open_review.Runtime.Store.Contract.{Becomes, Implements}
use open_review.Runtime.Store.Memory.Refines.{same_length-has_id}
use open_review.Runtime.Store.Sqlite.{
  SqliteStore, ActorRow, SeenRow, load_actor_state, persist_actor_state, expire_seen, append_event,
  any_id, without_id, remove_pending_event, restore_inflight, pop_next_batch, pop_queue, ack_batch,
  mark_inflight_failed, mark_actor_scheduled, clear_actor_scheduled, acquire_lease, heartbeat_lease,
  release_lease,
}

abbrev or_zero : Option ℕ → ℕ
or_zero none = 0
or_zero (some t) = t

-- an owner without a name is no owner
abbrev lease_view : Option String → Option ℕ → Option (String × ℕ)
lease_view none expires = none
lease_view (some owner) expires = if owner == "" then none else some (owner, or_zero expires)

abbrev row_view : ActorRow → Actor
row_view row = record {
  events = row.events;
  inflight = row.inflight;
  scheduled = row.scheduled;
  lease = lease_view row.lease_owner row.lease_expires_at;
}

abbrev pub view : SqliteStore → String → Actor
view s key = row_view (load_actor_state key s)

-- What is stored for a key is read back, and nothing else changes, although a row without content
-- is deleted.
pub persist-Becomes :
    (key : String) (row : ActorRow) (s : SqliteStore)
    → Becomes view key s (row_view row) (persist_actor_state key row s)
unfolding load_actor_state persist_actor_state
persist-Becomes key row s j =
    ground (arith, get-put s.actor_state key j row, get-del s.actor_state key j, eq_iff key j)

pub mark-Implements :
    (key : String) (s : SqliteStore) → Implements view key (mark_actor_scheduled key) Actor.mark s
unfolding mark_actor_scheduled
mark-Implements key s = (
  ground arith,
  λ j. ground (
    arith,
    persist-Becomes key (record (load_actor_state key s) { scheduled = true }) s j,
    eq_iff key j,
  ),
)

pub clear-Becomes :
    (key : String) (s : SqliteStore)
    → Becomes view key s (Actor.clear (view s key)) (clear_actor_scheduled key s)
unfolding clear_actor_scheduled
clear-Becomes key s = persist-Becomes key (record (load_actor_state key s) { scheduled = false }) s

owned-same_text :
    (worker : String) (o : Option String) (e : Option ℕ)
    → (worker == "") ≡ false
    → Actor.owned_by worker (lease_view o e) ≡ same_text o (some worker)
owned-same_text worker none e named = refl
owned-same_text worker (some o) e named = ground (arith, eq_iff o "", eq_iff o worker)

module _ (key worker : String) (s : SqliteStore) (named : (worker == "") ≡ false) where
  abbrev row : ActorRow
  row = load_actor_state key s

  abbrev leased : ℕ → ActorRow
  leased until = record row { lease_owner = some worker; lease_expires_at = some until }

  -- For a worker whose name is not empty: `acquire_lease` returns what the specification
  -- `Actor.acquire` says, makes of its actor what the specification says, and leaves every other
  -- actor as it was.
  pub acquire-Implements :
      (now ttl : ℕ)
      → Implements view key (acquire_lease now key worker ttl) (Actor.acquire now worker ttl) s
  unfolding acquire_lease
  acquire-Implements now ttl = (
    ground (arith, eq_iff worker ""),
    λ j. ground (
      arith,
      persist-Becomes key (leased (now + seconds ttl)) s j,
      eq_iff key j,
      eq_iff worker "",
    ),
  )

  pub heartbeat-Implements :
      (now ttl : ℕ)
      → Implements view key (heartbeat_lease now key worker ttl) (Actor.heartbeat now worker ttl) s
  unfolding heartbeat_lease
  heartbeat-Implements now ttl =
      let same = owned-same_text worker row.lease_owner row.lease_expires_at named in
      (
        ground (arith, same),
        λ j.
            ground
              (arith, same, persist-Becomes key (leased (now + seconds ttl)) s j, eq_iff key j),
      )

  pub release-Becomes :
      Becomes view key s (Actor.release worker (view s key)) (release_lease key worker s)
  unfolding release_lease
  release-Becomes j =
      let same = owned-same_text worker row.lease_owner row.lease_expires_at named in
      ground (
        arith,
        same,
        persist-Becomes key (record row { lease_owner = none; lease_expires_at = none }) s j,
        persist-Becomes key row s j,
        eq_iff key j,
      )

any_id-has_id : (id : String) (q : List EventEnvelope) → any_id id q ≡ Actor.has_id id q
unfolding any_id
any_id-has_id id [] = refl
any_id-has_id id (e ∷ q) = ground (arith, any_id-has_id id q)

without_id-without : (id : String) (q : List EventEnvelope) → without_id id q ≡ Actor.without id q
unfolding without_id
without_id-without id [] = refl
without_id-without id (e ∷ q) = ground (arith, without_id-without id q)

module _ (key : String) (s : SqliteStore) where
  abbrev loaded : ActorRow
  loaded = load_actor_state key s

  pub ack-Becomes :
      (b : List EventEnvelope) → Becomes view key s (Actor.ack b (view s key)) (ack_batch key b s)
  unfolding ack_batch
  ack-Becomes b j = ground (
    arith,
    persist-Becomes key (record loaded { inflight = [] }) s j,
    persist-Becomes key loaded s j,
    eq_iff key j,
  )

  pub restore-Implements : Implements view key (restore_inflight key) Actor.restore s
  unfolding restore_inflight
  restore-Implements =
      let back = record loaded { events = loaded.inflight ++ loaded.events; inflight = [] } in
      (ground arith, λ j. ground (arith, persist-Becomes key back s j, eq_iff key j))

  pub remove-Implements :
      (id : String) → Implements view key (remove_pending_event key id) (Actor.remove id) s
  unfolding remove_pending_event
  remove-Implements id =
      let left = record loaded { events = Actor.without id loaded.events } in
      (
        ground (
          arith,
          any_id-has_id id loaded.inflight,
          without_id-without id loaded.events,
          same_length-has_id id loaded.events,
        ),
        λ j. ground (
          arith,
          any_id-has_id id loaded.inflight,
          without_id-without id loaded.events,
          same_length-has_id id loaded.events,
          persist-Becomes key left s j,
          eq_iff key j,
        ),
      )

-- the tables beside runtime_actor_state do not show in the view
expired_view :
    (key : String) (row : ActorRow) (s : SqliteStore) (seen : Dict SeenRow) (j : String)
    → view (persist_actor_state key row (record s { seen_event_ids = seen })) j
      ≡ (if key == j then row_view row else view s j)
unfolding load_actor_state
expired_view key row s seen j = persist-Becomes key row (record s { seen_event_ids = seen }) j

-- an event that was not seen in the last seven days goes to the end of its actor's queue
pub append-Becomes :
    (now later : ℕ) (e : EventEnvelope) (s : SqliteStore)
    → is_some (Dict.get (expire_seen now s.seen_event_ids) e.event_id) ≡ false
    → Becomes view
        (actor_key e)
        s
        (Actor.push e (view s (actor_key e)))
        (append_event now later e s).1
unfolding append_event
append-Becomes now later e s new j = rw new (
    expired_view (actor_key e)
      (record (load_actor_state (actor_key e) s) {
        events = (load_actor_state (actor_key e) s).events ++ e ∷ [];
      })
      s _ j)

module _ (w : World) (key : String) (s : SqliteStore) where
  abbrev found : ActorRow
  found = load_actor_state key s

  pop_queue-Implements :
      (q : List EventEnvelope)
      → Implements view key (pop_queue w key found q) (Actor.pop_from w q) s
  unfolding pop_queue
  pop_queue-Implements [] = (refl, λ j. ground (arith, eq_iff key j))
  pop_queue-Implements (x ∷ q) =
      let c = next_batch w x q in
      (
        ground arith,
        λ j. ground (
          arith,
          persist-Becomes key (record found { events = c.queue; inflight = c.batch }) s j,
          eq_iff key j,
        ),
      )

  -- `pop_next_batch` returns or raises what the specification `Actor.pop` says, makes of its actor
  -- what the specification says, and leaves every other actor as it was.
  pub pop-Implements : Implements view key (pop_next_batch w key) (Actor.pop w) s
  unfolding pop_next_batch
  pop-Implements = elim (Bool-cases (is_empty found.inflight)) [
    | inl p ↦ rw p (pop_queue-Implements found.events)
    | inr p ↦ rw p (refl, λ j. ground (arith, eq_iff key j))
  ]

  fail_known :
      (b : List EventEnvelope) (error : String) (n : ℕ) (r : Result ℕ)
      → max_attempts_of w found.inflight ≡ r
      → Implements view key (mark_inflight_failed w key b error n) (Actor.fail w b error n) s
  unfolding mark_inflight_failed
  fail_known b error n (ok m) e =
      let again = record found { inflight = map (note_failure (m + 1) error) found.inflight } in
      let dropped = record found { inflight = [] } in
      (
        ground arith,
        λ j.
            ground
              (arith, persist-Becomes key again s j, persist-Becomes key dropped s j, eq_iff key j),
      )
  fail_known b error n (err x) e = (ground arith, λ j. ground (arith, eq_iff key j))

  pub fail-Implements :
      (b : List EventEnvelope) (error : String) (n : ℕ)
      → Implements view key (mark_inflight_failed w key b error n) (Actor.fail w b error n) s
  fail-Implements b error n = fail_known b error n (max_attempts_of w found.inflight) refl
