-- ===== src/Runtime/Worker/Drain/Holds.antt =====
-- What the steps of a drain make of the queue and of the batch in flight of the drained actor.
use open_review.Base.{
  ℕ, String, Bool, true, false, not, ◌≡◌, refl, ap, ◌∙◌, Option, none, some, List, [], ◌∷◌, ◌==◌,
  eq_refl, Bool-cases, inl, inr,
}
use open_review.Base.Result.{Result, ok, err}
use open_review.Runtime.Attempts.{same_ids}
use open_review.Runtime.Models.{EventEnvelope, RunRecord}
use open_review.Runtime.World.{World}
use open_review.Runtime.RuntimeStore.{RuntimeStore, Unchanged, leased}
use open_review.Runtime.Store.Actor
use open_review.Runtime.Store.Actor.{Actor}
use open_review.Runtime.Store.Contract.{Becomes}
use open_review.Runtime.Worker.{Fresh, HandlerResult}
use open_review.Runtime.Worker.Drain.{
  Outcome, Next, Settings, Handlers, Handler, returned, terminated, failed, terminate_run, settle,
  stale_prior, after_failure, after_result, call, unless_terminated, same_option, is_running,
}
use open_review.Runtime.Worker.Drain.Alive.{if-keeps}

same_ids_refl : (b : List EventEnvelope) → same_ids b b ≡ true
unfolding same_ids
same_ids_refl [] = refl
same_ids_refl (e ∷ b) = rw (eq_refl e.event_id) (same_ids_refl b)

-- the batch in flight, and the queue behind it
abbrev pub Holds : List EventEnvelope → List EventEnvelope → Actor → Type 0
Holds b q a = (a.inflight ≡ b) × (a.events ≡ q)

ack-Holds : (b q : List EventEnvelope) (a : Actor) → Holds b q a → Holds [] q (Actor.ack b a)
ack-Holds b q a h = rw (h.0, same_ids_refl b) (refl, h.1)

module _ (w : World) (store : RuntimeStore w) (settings : Settings) (worker : String)
    (named : (worker == "") ≡ false) where
  -- a handler, and what runs beside it, leaves the queue and the batch of the actor alone
  abbrev pub HandlersStay : String → Handlers w store settings → Type 0
  HandlersStay key handlers =
      (h : Handler w store settings) (e : EventEnvelope) (s : store.State)
      → handlers e.event_type ≡ some h
      → ((store.view (h e s).1 key).inflight ≡ (store.view s key).inflight)
        × ((store.view (h e s).1 key).events ≡ (store.view s key).events)

  module _ (key : String) (b q : List EventEnvelope) where
    abbrev pub Has : store.State → Type 0
    Has s = Holds b q (store.view s key)

    Unchanged-Has : (s s' : store.State) → Unchanged store.view s s' → Has s → Has s'
    Unchanged-Has s s' same h =
        (ap (λ a. a.inflight) (same key) ∙ h.0, ap (λ a. a.events) (same key) ∙ h.1)

    pub leased-Has :
        (s s' : store.State) (until : ℕ)
        → Becomes store.view key s (leased worker until (store.view s key)) s'
        → Has s
        → Has s'
    leased-Has s s' until became h =
        let now : store.view s' key ≡ leased worker until (store.view s key) =
          became key ∙ rw (eq_refl key) refl in
        (ap (λ a. a.inflight) now ∙ h.0, ap (λ a. a.events) now ∙ h.1)

    beat-Has : (ttl : ℕ) (s : store.State) → Has s → Has (store.heartbeat_lease key worker ttl s).1
    beat-Has ttl s h = elim (Bool-cases (store.heartbeat_lease key worker ttl s).0) [
      | inl p ↦
          let (until, became) = store.heartbeat-Leases key worker ttl s named p in
          leased-Has s (store.heartbeat_lease key worker ttl s).1 until became h
      | inr p ↦
          Unchanged-Has s (store.heartbeat_lease key worker ttl s).1
            (store.heartbeat-refused key worker ttl s named p) h
    ]

    pub write-Has : (r : RunRecord) (s : store.State) → Has s → Has (store.write_run r s)
    write-Has r s = Unchanged-Has s (store.write_run r s) (store.write_run-Unchanged r s)

    pub stale-Has :
        (fresh : Fresh) (run : RunRecord) (prior : List RunRecord) (s : store.State)
        → Has s
        → Has (stale_prior w store settings fresh run prior s)
    unfolding stale_prior
    stale-Has fresh run [] s h = h
    stale-Has fresh run (r ∷ rest) s h = stale-Has fresh run rest _ (
        if-keeps Has (r.run_id == run.run_id) s _ h (
          if-keeps Has (not (same_option r.execution_key run.execution_key)) s _ h
            (if-keeps Has (not (is_running r.state)) s _ h (write-Has _ s h))))

    acked-Has : (s : store.State) → Has s → Holds [] q (store.view (store.ack_batch key b s) key)
    acked-Has s h =
        let now : store.view (store.ack_batch key b s) key ≡ Actor.ack b (store.view s key) =
          store.ack-Becomes key b s key ∙ rw (eq_refl key) refl in
        let left = ack-Holds b q (store.view s key) h in
        (ap (λ a. a.inflight) now ∙ left.0, ap (λ a. a.events) now ∙ left.1)

  -- a batch of the run's actor: where the loop goes on, the batch was acknowledged
  module _ (fresh : Fresh) (run : RunRecord) (event : EventEnvelope)
      (b q : List EventEnvelope) where
    abbrev GoesOn : Next × store.State → Type 0
    GoesOn r = Holds [] q (store.view r.1 run.actor_key)

    terminate-Has :
        (reason : String) (by at : Option String) (s : store.State)
        → Has run.actor_key b q s
        → Has run.actor_key [] q (terminate_run w store settings fresh run event b reason by at s)
    unfolding terminate_run
    terminate-Has reason by at s h =
        Unchanged-Has run.actor_key [] q _ _ (store.checkpoint-Unchanged _ _) (
          Unchanged-Has run.actor_key [] q _ _ (store.journal-Unchanged _ _)
            (write-Has run.actor_key [] q _ _ (acked-Has run.actor_key b q s h)))

    result-Has :
        (result : HandlerResult) (owned : Bool) (s : store.State)
        → Has run.actor_key b q s
        → (after_result w store settings fresh run b worker result owned s).0 ≡ Next.again
        → GoesOn (after_result w store settings fresh run b worker result owned s)
    unfolding after_result
    result-Has result true s h e =
        beat-Has run.actor_key [] q settings.lease_seconds _
          (write-Has run.actor_key [] q _ _ (acked-Has run.actor_key b q s h))
    result-Has result false s h e = cc

    failure-Has :
        (error : String) (r : Result Bool × store.State)
        → (after_failure w store settings fresh run error r).0 ≡ Next.again
        → GoesOn (after_failure w store settings fresh run error r)
    unfolding after_failure
    failure-Has error (err x, s) e = cc
    failure-Has error (ok again, s) e = cc

    settle-Has :
        (out : Outcome) (s : store.State)
        → Has run.actor_key b q s
        → (settle w store settings fresh run event b worker out s).0 ≡ Next.again
        → GoesOn (settle w store settings fresh run event b worker out s)
    unfolding settle
    settle-Has (returned result) s h e =
        result-Has result _ _ (beat-Has run.actor_key b q settings.lease_seconds s h) e
    settle-Has (terminated reason by at) s h e = terminate-Has reason by at s h
    settle-Has (failed error) s h e = failure-Has error _ e

    module _ (handlers : Handlers w store settings)
        (stay : HandlersStay run.actor_key handlers) where
      call-Has :
          (f : Option (Handler w store settings)) (s : store.State)
          → handlers event.event_type ≡ f
          → Has run.actor_key b q s
          → Has run.actor_key b q (call w store settings f event s).1
      unfolding call
      call-Has none s e h = h
      call-Has (some f) s e h = let same = stay f event s e in (same.0 ∙ h.0, same.1 ∙ h.1)

      pub unless-Has :
          (t : _) (s : store.State)
          → Has run.actor_key b q s
          → (unless_terminated w store settings handlers fresh run event b worker t s).0
            ≡ Next.again
          → GoesOn (unless_terminated w store settings handlers fresh run event b worker t s)
      unfolding unless_terminated
      unless-Has (some t) s h e =
          terminate-Has "user_terminated" (some t.requested_by) (some t.requested_at) s h
      unless-Has none s h e =
          settle-Has _ _
            (call-Has (handlers event.event_type) _ refl
              (beat-Has run.actor_key b q settings.lease_seconds s h))
            e
