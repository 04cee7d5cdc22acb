-- ===== src/Runtime/Store/Sqlite/Dedupe.antt =====
-- The rows of seen events in the SQLite store: what expires, and what leaves them alone.
use open_review.Base.{
  ℕ, ◌+◌, ◌≤◌, String, Bool, true, false, ◌≡◌, refl, some, none, Option, List, [], ◌∷◌, eq_refl,
  arith, Bool-cases, inl, inr, is_some, is_empty, ap, eq_iff, ◌==◌,
}
use open_review.Base.Dict
use open_review.Base.Dict.{Dict, get-put}
use open_review.Base.Result.{Result, ok, err, PyError}
use open_review.Runtime.Models.{EventEnvelope, actor_key}
use open_review.Runtime.World.{World, seconds}
use open_review.Runtime.Batch.{Cut, next_batch}
use open_review.Runtime.Attempts.{max_attempts_of, same_ids}
use open_review.Runtime.Store.Sqlite.{
  SqliteStore, ActorRow, SeenRow, expire_seen, append_event, persist_actor_state, load_actor_state,
  event_id_ttl_seconds, finish_pop, pop_queue, fail_with, pop_next_batch, mark_inflight_failed,
}
use open_review.Runtime.Store.Sqlite.Refines.{view}

pub expire_keeps :
    (now : ℕ) (rows : Dict SeenRow) (id : String) (row : SeenRow)
    → Dict.get rows id ≡ some row
    → now ≤ row.seen_at + seconds event_id_ttl_seconds
    → Dict.get (expire_seen now rows) id ≡ some row
unfolding expire_seen Dict.get
expire_keeps now [] id row h fresh = h
expire_keeps now ((j, r) ∷ rows) id row h fresh = ground (arith, expire_keeps now rows id row)

pub seen-persist :
    (key : String) (row : ActorRow) (s : SqliteStore)
    → (persist_actor_state key row s).seen_event_ids ≡ s.seen_event_ids
unfolding persist_actor_state
seen-persist key row s = ground arith

seen-finish :
    (key : String) (row : ActorRow) (c : Cut) (r : Option PyError) (s : SqliteStore)
    → (finish_pop key row c r s).1.seen_event_ids ≡ s.seen_event_ids
unfolding finish_pop
seen-finish key row c (some x) s = refl
seen-finish key row c none s = seen-persist key _ s

seen-queue :
    (w : World) (key : String) (row : ActorRow) (q : List EventEnvelope) (s : SqliteStore)
    → (pop_queue w key row q s).1.seen_event_ids ≡ s.seen_event_ids
unfolding pop_queue
seen-queue w key row [] s = refl
seen-queue w key row (e ∷ q) s = let c = next_batch w e q in seen-finish key row c c.raised s

pub seen-pop :
    (w : World) (key : String) (s : SqliteStore)
    → (pop_next_batch w key s).1.seen_event_ids ≡ s.seen_event_ids
unfolding pop_next_batch
seen-pop w key s =
    let row = load_actor_state key s in
    elim (Bool-cases (is_empty row.inflight)) [
      | inl p ↦ rw p (seen-queue w key row row.events s)
      | inr p ↦ rw p refl
    ]

counted :
    (key : String) (row : ActorRow) (r : Result ℕ) (error : String) (n : ℕ) (s : SqliteStore)
    → (elim r as (λ x. Result Bool × SqliteStore) [
      | ok m ↦ fail_with key row (m + 1) error n s
      | err x ↦ (err x, s)
    ]).1.seen_event_ids
      ≡ s.seen_event_ids
unfolding fail_with
counted key row (ok m) error n s = seen-persist key _ s
counted key row (err x) error n s = refl

pub seen-fail :
    (w : World) (key : String) (b : List EventEnvelope) (error : String) (n : ℕ) (s : SqliteStore)
    → (mark_inflight_failed w key b error n s).1.seen_event_ids ≡ s.seen_event_ids
unfolding mark_inflight_failed
seen-fail w key b error n s =
    let row = load_actor_state key s in
    elim (Bool-cases (same_ids row.inflight b)) [
      | inl p ↦ rw p (counted key row (max_attempts_of w row.inflight) error n s)
      | inr p ↦ rw p refl
    ]

pub appended_row :
    (now later : ℕ) (e : EventEnvelope) (s : SqliteStore)
    → (append_event now later e s).0 ≡ true
    → Dict.get (append_event now later e s).1.seen_event_ids e.event_id
      ≡ some (record { actor_key = actor_key e; seen_at = later })
unfolding append_event
appended_row now later e s h =
    elim (Bool-cases (is_some (Dict.get (expire_seen now s.seen_event_ids) e.event_id))) [
      | inl p ↦ ground arith
      | inr p ↦ rw p (simp (seen-persist, get-put, eq_refl))
    ]

pub append_remembers :
    (now later : ℕ) (e : EventEnvelope) (id : String) (row : SeenRow) (s : SqliteStore)
    → Dict.get (expire_seen now s.seen_event_ids) id ≡ some row
    → Dict.get (append_event now later e s).1.seen_event_ids id ≡ some row
unfolding append_event
append_remembers now later e id row s h =
    elim (Bool-cases (is_some (Dict.get (expire_seen now s.seen_event_ids) e.event_id))) [
      | inl p ↦ rw p h
      | inr p ↦ elim (Bool-cases (e.event_id == id)) [
        | inl q ↦
            let same = (eq_iff e.event_id id).0 q in
            let there = ap (λ i. is_some (Dict.get (expire_seen now s.seen_event_ids) i)) same in
            absurd (cc)
        | inr q ↦ rw p (simp (seen-persist, get-put, q, h))
      ]
    ]

pub refused :
    (now later : ℕ) (e : EventEnvelope) (s : SqliteStore)
    → is_some (Dict.get (expire_seen now s.seen_event_ids) e.event_id) ≡ true
    → ((append_event now later e s).0 ≡ false)
      × ((key : String) → view (append_event now later e s).1 key ≡ view s key)
unfolding append_event load_actor_state
refused now later e s seen = rw seen (refl, λ key. refl)
