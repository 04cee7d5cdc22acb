-- ===== src/Runtime/Store/Memory/Refines.antt =====
-- The in-memory store implements the specification of the queue.
use open_review.Base.{
  ℕ, ◌+◌, ◌≤◌, ◌≡◌, refl, String, false, not, List, [], ◌∷◌, ◌++◌, map, eq_iff, arith, Bool-cases,
  inl, inr, length, is_empty, eqb,
}
use open_review.Base.Dict
use open_review.Base.Dict.{get-put, get-del}
use open_review.Base.StrSet
use open_review.Base.StrSet.{has-add, has-discard}
use open_review.Base.Result.{Result, ok, err}
use open_review.Runtime.Models.{EventEnvelope, actor_key}
use open_review.Runtime.World.{World, seconds}
use open_review.Runtime.Batch.{next_batch}
use open_review.Runtime.Attempts.{same_ids, max_attempts_of, note_failure}
use open_review.Runtime.Store.Actor
use open_review.Runtime.Store.Actor.{Actor}
use open_review.Runtime.Store.Contract.{Becomes, Implements}
use open_review.Runtime.Store.Memory.{
  MemoryStore, or_nil, append_event, any_id, without_id, remove_pending_event, restore_inflight,
  appendleft_reversed, pop_next_batch, pop_queue, ack_batch, mark_inflight_failed,
  mark_actor_scheduled, clear_actor_scheduled, acquire_lease, heartbeat_lease, release_lease,
}

abbrev pub view : MemoryStore → String → Actor
view s key = record {
  events = or_nil (Dict.get s.events key);
  inflight = or_nil (Dict.get s.inflight key);
  scheduled = StrSet.has s.scheduled key;
  lease = Dict.get s.leases key;
}

pub mark-Implements :
    (key : String) (s : MemoryStore) → Implements view key (mark_actor_scheduled key) Actor.mark s
unfolding mark_actor_scheduled
mark-Implements key s = (ground arith, λ j. ground (arith, has-add s.scheduled key j, eq_iff key j))

pub clear-Becomes :
    (key : String) (s : MemoryStore)
    → Becomes view key s (Actor.clear (view s key)) (clear_actor_scheduled key s)
unfolding clear_actor_scheduled
clear-Becomes key s j = ground (arith, has-discard s.scheduled key j, eq_iff key j)

module _ (now : ℕ) (key worker : String) (ttl : ℕ) (s : MemoryStore) where
  pub acquire-Implements :
      Implements view key (acquire_lease now key worker ttl) (Actor.acquire now worker ttl) s
  unfolding acquire_lease
  acquire-Implements = (
    ground arith,
    λ j. ground (arith, get-put s.leases key j (worker, now + seconds ttl), eq_iff key j),
  )

  pub heartbeat-Implements :
      Implements view key (heartbeat_lease now key worker ttl) (Actor.heartbeat now worker ttl) s
  unfolding heartbeat_lease
  heartbeat-Implements = (
    ground arith,
    λ j. ground (arith, get-put s.leases key j (worker, now + seconds ttl), eq_iff key j),
  )

pub release-Becomes :
    (key worker : String) (s : MemoryStore)
    → Becomes view key s (Actor.release worker (view s key)) (release_lease key worker s)
unfolding release_lease
release-Becomes key worker s j = ground (arith, get-del s.leases key j, eq_iff key j)

-- an event that is new goes to the end of its actor's queue
pub append-Becomes :
    (e : EventEnvelope) (s : MemoryStore)
    → StrSet.has s.seen_event_ids e.event_id ≡ false
    → Becomes view (actor_key e) s (Actor.push e (view s (actor_key e))) (append_event e s).1
unfolding append_event
append-Becomes e s new j = rw new (
    ground (
      arith,
      get-put s.events (actor_key e) j (or_nil (Dict.get s.events (actor_key e)) ++ e ∷ []),
      eq_iff (actor_key e) j,
    ))

pub ack-Becomes :
    (key : String) (b : List EventEnvelope) (s : MemoryStore)
    → Becomes view key s (Actor.ack b (view s key)) (ack_batch key b s)
unfolding ack_batch
ack-Becomes key b s j = ground (arith, get-del s.inflight key j, eq_iff key j)

append_reversed_lem : (b q : List EventEnvelope) → appendleft_reversed b q ≡ b ++ q
append_reversed_lem [] q = refl
append_reversed_lem (e ∷ b) q = rw (append_reversed_lem b q)

pub restore-Implements :
    (key : String) (s : MemoryStore) → Implements view key (restore_inflight key) Actor.restore s
unfolding restore_inflight
restore-Implements key s =
    let b = or_nil (Dict.get s.inflight key) in
    let q = or_nil (Dict.get s.events key) in
    (
      ground arith,
      λ j. ground (
        arith,
        get-del s.inflight key j,
        get-put s.events key j (appendleft_reversed b q),
        append_reversed_lem b q,
        eq_iff key j,
      ),
    )

any_id-has_id : (id : String) (q : List EventEnvelope) → any_id id q ≡ Actor.has_id id q
unfolding any_id
any_id-has_id id [] = refl
any_id-has_id id (e ∷ q) = ground (arith, any_id-has_id id q)

without_id-without : (id : String) (q : List EventEnvelope) → without_id id q ≡ Actor.without id q
unfolding without_id
without_id-without id [] = refl
without_id-without id (e ∷ q) = ground (arith, without_id-without id q)

length-without-le : (id : String) (q : List EventEnvelope) → length (Actor.without id q) ≤ length q
length-without-le id [] = omega arith
length-without-le id (e ∷ q) = ground (arith, length-without-le id q)

-- a queue gets shorter exactly when the event was in it
pub same_length-has_id :
    (id : String) (q : List EventEnvelope)
    → eqb (length (Actor.without id q)) (length q) ≡ not (Actor.has_id id q)
same_length-has_id id [] = refl
same_length-has_id id (e ∷ q) = ground (arith, same_length-has_id id q, length-without-le id q)

pub remove-Implements :
    (key id : String) (s : MemoryStore)
    → Implements view key (remove_pending_event key id) (Actor.remove id) s
unfolding remove_pending_event
remove-Implements key id s =
    let i = or_nil (Dict.get s.inflight key) in
    let q = or_nil (Dict.get s.events key) in
    (
      ground (arith, any_id-has_id id i, without_id-without id q, same_length-has_id id q),
      λ j. ground (
        arith,
        any_id-has_id id i,
        without_id-without id q,
        same_length-has_id id q,
        get-put s.events key j (Actor.without id q),
        get-del s.events key j,
        eq_iff key j,
      ),
    )

same_ids_empty : (b : List EventEnvelope) → is_empty b ≡ false → same_ids [] b ≡ false
unfolding same_ids
same_ids_empty [] h = cc
same_ids_empty (e ∷ b) h = refl

module _ (w : World) (key : String) (s : MemoryStore) where
  abbrev waiting : List EventEnvelope
  waiting = or_nil (Dict.get s.events key)

  abbrev taken : List EventEnvelope
  taken = or_nil (Dict.get s.inflight key)

  pop_queue-result :
      (q : List EventEnvelope) → (pop_queue w key q s).0 ≡ (Actor.pop_from w q (view s key)).0
  unfolding pop_queue
  pop_queue-result [] = refl
  pop_queue-result (x ∷ q) = ground arith

  pop_queue-Becomes :
      (q b : List EventEnvelope)
      → (pop_queue w key q s).0 ≡ ok b
      → Becomes view key s (Actor.pop_from w q (view s key)).1 (pop_queue w key q s).1
  unfolding pop_queue
  pop_queue-Becomes [] b r j = ground (arith, eq_iff key j)
  pop_queue-Becomes (x ∷ q) b r j =
      let c = next_batch w x q in
      ground (
        arith,
        get-put s.events key j c.queue,
        get-del s.events key j,
        get-put s.inflight key j c.batch,
        eq_iff key j,
      )

  -- `pop_next_batch` returns or raises what the specification says
  pub pop-result : (pop_next_batch w key s).0 ≡ (Actor.pop w (view s key)).0
  unfolding pop_next_batch
  pop-result = elim (Bool-cases (is_empty taken)) [
    | inl p ↦ rw p (pop_queue-result waiting)
    | inr p ↦ rw p refl
  ]

  -- where it returns, it leaves the state that the specification says
  pub pop-Becomes :
      (b : List EventEnvelope)
      → (pop_next_batch w key s).0 ≡ ok b
      → Becomes view key s (Actor.pop w (view s key)).1 (pop_next_batch w key s).1
  unfolding pop_next_batch
  pop-Becomes b r j = elim (Bool-cases (is_empty taken)) [
    | inl p ↦ rw p (pop_queue-Becomes waiting b (rw p at r) j)
    | inr p ↦ rw p (ground (arith, eq_iff key j))
  ]

  fail_known :
      (b : List EventEnvelope) (error : String) (n : ℕ) (r : Result ℕ)
      → is_empty b ≡ false
      → max_attempts_of w taken ≡ r
      → Implements view key (mark_inflight_failed w key b error n) (Actor.fail w b error n) s
  unfolding mark_inflight_failed
  fail_known b error n (ok m) h e = (
    ground (arith, same_ids_empty b h),
    λ j. ground (
      arith,
      same_ids_empty b h,
      get-put s.inflight key j (map (note_failure (m + 1) error) taken),
      get-del s.inflight key j,
      eq_iff key j,
    ),
  )
  fail_known b error n (err x) h e =
      (ground (arith, same_ids_empty b h), λ j. ground (arith, same_ids_empty b h, eq_iff key j))

  pub fail-Implements :
      (b : List EventEnvelope) (error : String) (n : ℕ)
      → is_empty b ≡ false
      → Implements view key (mark_inflight_failed w key b error n) (Actor.fail w b error n) s
  fail-Implements b error n h = fail_known b error n (max_attempts_of w taken) h refl
