-- ===== src/Runtime/Store/Agree/Backlog.antt =====
-- What is queued or in flight in the SQLite store stays there, in order, until it is acknowledged,
-- removed or reported as failed.
use mathlib.Core.Path.{subst}
use open_review.Base.{
  ℕ, if◌then◌else◌, true, Bool, String, false, ◌≡◌, refl, sym, ap, ◌∙◌, List, [], ◌∷◌, ◌++◌, ◌==◌,
  eq_iff, arith, Bool-cases, inl, inr, All, is_some, append-nil, append_assoc,
}
use open_review.Base.Dict
use open_review.Runtime.Models.{EventEnvelope, actor_key}
use open_review.Runtime.World.{World}
use open_review.Runtime.Store.Actor
use open_review.Runtime.Store.Actor.{Actor}
use open_review.Runtime.Store.Contract.{Becomes}
use open_review.Runtime.Store.Sqlite
use open_review.Runtime.Store.Sqlite.{SqliteStore, expire_seen}
use open_review.Runtime.Store.Sqlite.Delivery.{backlog, backlog-pop}
use open_review.Runtime.Store.Sqlite.Refines as Right
use open_review.Runtime.Store.Sqlite.Refines.{view}
use open_review.Runtime.Store.Agree.Leases.{sqlite_after}
use open_review.Runtime.Store.Agree.{
  Call, sqlite_step, append_event, has_actor_events, restore_inflight, pop_next_batch,
  mark_actor_scheduled, clear_actor_scheduled, remove_pending_event, release_lease, ack_batch,
  mark_inflight_failed, acquire_lease, heartbeat_lease,
}

-- `b` is `a` with `more` at the end
abbrev Extends : List EventEnvelope → Actor → Actor → Type 0
Extends more a b = backlog b ≡ backlog a ++ more

Extends-refl : (a b : Actor) → backlog b ≡ backlog a → Extends [] a b
Extends-refl a b h = h ∙ sym (append-nil (backlog a))

-- a change that extends the actor it is made for
extend :
    (k : String) (s s' : SqliteStore) (f : Actor → Actor) (more : List EventEnvelope)
    → Becomes view k s (f (view s k)) s'
    → ((a : Actor) → Extends more a (f a))
    → (j : String) → Extends (if k == j then more else []) (view s j) (view s' j)
extend k s s' f more h longer j = elim (Bool-cases (k == j)) [
  | inl e ↦
      let p = (eq_iff k j).0 e in
      let changed : view s' j ≡ f (view s k) = h j ∙ rw e refl in
      let at_j : view s' j ≡ f (view s j) = changed ∙ ap (λ x. f (view s x)) p in
      rw e (ap backlog at_j ∙ longer (view s j))
  | inr e ↦
      let same : view s' j ≡ view s j = h j ∙ rw e refl in
      rw e (Extends-refl (view s j) (view s' j) (ap backlog same))
]

-- what a call adds to the backlog of `j`: an event of `j` that is taken
abbrev pub added : SqliteStore → Call → String → List EventEnvelope
added s (append_event now later e) j =
    if (Sqlite.append_event now later e s).0 then if actor_key e == j then e ∷ [] else [] else []
added s c j = []

-- the events of `j` that the calls hand in and the store takes, in the order of the calls
abbrev pub taken : World → List Call → SqliteStore → String → List EventEnvelope
taken w [] s j = []
taken w (c ∷ cs) s j = added s c j ++ taken w cs (sqlite_step w c s).1 j

-- The calls after which an actor has no less to do. A worker has a name.
abbrev pub Keeping : Call → Type 0
Keeping (acquire_lease now key worker ttl) = (worker == "") ≡ false
Keeping (heartbeat_lease now key worker ttl) = (worker == "") ≡ false
Keeping (release_lease key worker) = (worker == "") ≡ false
Keeping (ack_batch key b) = ⊥
Keeping (remove_pending_event key id) = ⊥
Keeping (mark_inflight_failed key b error n) = ⊥
Keeping _ = Unit

abbrev NoEvents : List EventEnvelope → Type 0
NoEvents l = l ≡ []

no_events : (b : Bool) → NoEvents (if b then [] else [])
no_events true = refl
no_events false = refl

-- a change of an actor that leaves its backlog
keep_backlog :
    (k : String) (s s' : SqliteStore) (f : Actor → Actor)
    → Becomes view k s (f (view s k)) s'
    → ((a : Actor) → backlog (f a) ≡ backlog a)
    → (j : String) → Extends [] (view s j) (view s' j)
keep_backlog k s s' f h same j =
    let no_more = no_events (k == j) in
    subst (λ l. Extends l (view s j) (view s' j)) no_more
      (extend k s s' f [] h (λ a. Extends-refl a (f a) (same a)) j)

dropped :
    (now later : ℕ) (e : EventEnvelope) (s : SqliteStore)
    → is_some (Dict.get (expire_seen now s.seen_event_ids) e.event_id) ≡ true
    → ((Sqlite.append_event now later e s).0 ≡ false)
      × ((j : String) → view (Sqlite.append_event now later e s).1 j ≡ view s j)
unfolding Sqlite.append_event Sqlite.load_actor_state
dropped now later e s p = rw p (refl, λ j. refl)

accepted :
    (now later : ℕ) (e : EventEnvelope) (s : SqliteStore)
    → is_some (Dict.get (expire_seen now s.seen_event_ids) e.event_id) ≡ false
    → (Sqlite.append_event now later e s).0 ≡ true
unfolding Sqlite.append_event
accepted now later e s p = rw p refl

append-Extends :
    (now later : ℕ) (e : EventEnvelope) (s : SqliteStore) (j : String)
    → Extends
        (added s (append_event now later e) j)
        (view s j)
        (view (Sqlite.append_event now later e s).1 j)
append-Extends now later e s j =
    elim (Bool-cases (is_some (Dict.get (expire_seen now s.seen_event_ids) e.event_id))) [
      | inl p ↦
          let (no_it, same) = dropped now later e s p in
          rw no_it (
            Extends-refl (view s j) (view (Sqlite.append_event now later e s).1 j)
              (ap backlog (same j)))
      | inr p ↦ rw (accepted now later e s p) (
          extend (actor_key e) s (Sqlite.append_event now later e s).1 (Actor.push e) (e ∷ [])
            (Right.append-Becomes now later e s p)
            (λ a. sym (append_assoc a.inflight a.events (e ∷ []))) j)
    ]

module _ (w : World) (s : SqliteStore) where
  step-Extends :
      (c : Call)
      → Keeping c
      → (j : String) → Extends (added s c j) (view s j) (view (sqlite_step w c s).1 j)
  unfolding sqlite_step
  step-Extends (append_event now later e) h j = append-Extends now later e s j
  step-Extends (has_actor_events k) h j = Extends-refl (view s j) (view s j) refl
  step-Extends (restore_inflight k) h j =
      keep_backlog k s (Sqlite.restore_inflight k s).1 (λ a. (Actor.restore a).1)
        ((Right.restore-Implements k s).1) (λ a. refl) j
  step-Extends (pop_next_batch k) h j =
      keep_backlog k s (Sqlite.pop_next_batch w k s).1 (λ a. (Actor.pop w a).1)
        ((Right.pop-Implements w k s).1) (backlog-pop w) j
  step-Extends (mark_actor_scheduled k) h j =
      keep_backlog k s (Sqlite.mark_actor_scheduled k s).1 (λ a. (Actor.mark a).1)
        ((Right.mark-Implements k s).1) (λ a. ground arith) j
  step-Extends (clear_actor_scheduled k) h j =
      keep_backlog k s (Sqlite.clear_actor_scheduled k s) Actor.clear (Right.clear-Becomes k s)
        (λ a. refl) j
  step-Extends (acquire_lease now k worker ttl) h j =
      keep_backlog k s (Sqlite.acquire_lease now k worker ttl s).1
        (λ a. (Actor.acquire now worker ttl a).1)
        ((Right.acquire-Implements k worker s h now ttl).1) (λ a. ground arith) j
  step-Extends (heartbeat_lease now k worker ttl) h j =
      keep_backlog k s (Sqlite.heartbeat_lease now k worker ttl s).1
        (λ a. (Actor.heartbeat now worker ttl a).1)
        ((Right.heartbeat-Implements k worker s h now ttl).1) (λ a. ground arith) j
  step-Extends (release_lease k worker) h j =
      keep_backlog k s (Sqlite.release_lease k worker s) (Actor.release worker)
        (Right.release-Becomes k worker s h) (λ a. ground arith) j
  step-Extends (ack_batch key b) h j = absurd h
  step-Extends (remove_pending_event key id) h j = absurd h
  step-Extends (mark_inflight_failed key b error n) h j = absurd h

-- After any calls but acknowledgements, removals and failure reports, for whatever actors, in which
-- workers that call for leases have names, each actor's backlog (the batch in flight, then the
-- queue) is what it was, and behind it, once each and in the order of the calls, the actor's events
-- for which `append_event` said that they were taken.
pub run-Extends :
    (w : World) (calls : List Call) (s : SqliteStore) (j : String)
    → All Keeping calls
    → backlog (view (sqlite_after w calls s) j) ≡ backlog (view s j) ++ taken w calls s j
run-Extends w [] s j h = sym (append-nil (backlog (view s j)))
run-Extends w (c ∷ cs) s j h =
    let next = (sqlite_step w c s).1 in
    run-Extends w cs next j h.1
    ∙ ap (λ l. l ++ taken w cs next j) (step-Extends w s c h.0 j)
    ∙ append_assoc (backlog (view s j)) (added s c j) (taken w cs next j)
