-- ===== src/Runtime/Store/Sqlite/Delivery.antt =====
-- Delivery by the SQLite store: `pop_next_batch`, `restore_inflight` and the calls that must not
-- lose, double or reorder an event.
use open_review.Base.{
  String, ◌≡◌, refl, sym, ap, ◌∙◌, List, [], ◌∷◌, ◌++◌, arith, Bool-cases, inl, inr, is_empty,
  is_empty→nil,
}
use open_review.Base.Result.{ok}
use open_review.Runtime.Models.{EventEnvelope}
use open_review.Runtime.World.{World}
use open_review.Runtime.Batch.Split.{next_batch-append}
use open_review.Runtime.Store.Actor
use open_review.Runtime.Store.Actor.{Actor}
use open_review.Runtime.Store.Contract.{Implements-self}
use open_review.Runtime.Store.Sqlite.{
  SqliteStore, list_actor_events, pop_next_batch, restore_inflight,
}
use open_review.Runtime.Store.Sqlite.Refines.{view, pop-Implements, restore-Implements}

-- all that an actor still has to do, in the order in which it will do it
abbrev pub backlog : Actor → List EventEnvelope
backlog a = a.inflight ++ a.events

pop_from-backlog :
    (w : World) (q : List EventEnvelope) (a : Actor)
    → a.inflight ≡ []
    → a.events ≡ q
    → backlog (Actor.pop_from w q a).1 ≡ q
pop_from-backlog w [] a i e = rw (i, e)
pop_from-backlog w (x ∷ q) a i e = ground (arith, next_batch-append w x q)

-- `pop` moves the front of the queue, and nothing else
pub backlog-pop : (w : World) (a : Actor) → backlog (Actor.pop w a).1 ≡ backlog a
backlog-pop w a = elim (Bool-cases (is_empty a.inflight)) [
  | inl p ↦
      let nil = is_empty→nil a.inflight p in
      rw p (pop_from-backlog w a.events a nil refl ∙ rw nil refl)
  | inr p ↦ rw p refl
]

inflight-pop_from :
    (w : World) (q b : List EventEnvelope) (a : Actor)
    → a.inflight ≡ []
    → (Actor.pop_from w q a).0 ≡ ok b
    → (Actor.pop_from w q a).1.inflight ≡ b
inflight-pop_from w [] b a i r = ground arith
inflight-pop_from w (x ∷ q) b a i r = ground arith

pub inflight-pop :
    (w : World) (a : Actor) (b : List EventEnvelope)
    → a.inflight ≡ []
    → (Actor.pop w a).0 ≡ ok b
    → (Actor.pop w a).1.inflight ≡ b
inflight-pop w a b i r = ground (arith, inflight-pop_from w a.events b a)

module _ (w : World) (key : String) (s : SqliteStore) (idle : (view s key).inflight ≡ []) where
  after_pop : view (pop_next_batch w key s).1 key ≡ (Actor.pop w (view s key)).1
  after_pop =
      Implements-self view key (pop_next_batch w key) (Actor.pop w) s (pop-Implements w key s)

  -- For an actor with no batch in flight: if `pop_next_batch` does not raise, it returns the front
  -- of its queue, which is
  -- then in flight, and leaves the rest queued, in order.
  pub pop-front :
      (b : List EventEnvelope)
      → (pop_next_batch w key s).0 ≡ ok b
      → ((view (pop_next_batch w key s).1 key).inflight ≡ b)
        × (b ++ list_actor_events key (pop_next_batch w key s).1 ≡ list_actor_events key s)
  unfolding list_actor_events
  pop-front b r =
      let taken =
        ap (λ a. a.inflight) after_pop
        ∙ inflight-pop w (view s key) b idle (sym (pop-Implements w key s).0 ∙ r) in
      (taken, cc (taken, ap backlog after_pop, backlog-pop w (view s key), idle))

  -- For an actor with no batch in flight: `restore_inflight` after `pop_next_batch` makes its queue
  -- what it was before, also where `pop_next_batch` raised.
  pub restore-pop :
      list_actor_events key (restore_inflight key (pop_next_batch w key s).1).1
      ≡ list_actor_events key s
  unfolding list_actor_events
  restore-pop =
      let popped = (pop_next_batch w key s).1 in
      ap (λ a. a.events)
        (Implements-self view key (restore_inflight key) Actor.restore popped
          (restore-Implements key popped))
      ∙ ap backlog after_pop
      ∙ backlog-pop w (view s key)
      ∙ rw idle refl
