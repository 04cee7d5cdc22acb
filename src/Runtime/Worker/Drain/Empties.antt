-- ===== src/Runtime/Worker/Drain/Empties.antt =====
-- A drain that returns `True` leaves its actor without events.
use open_review.Base.{
  ℕ, zero, suc, String, Bool, true, false, ◌≡◌, refl, sym, ap, ◌∙◌, none, some, List, [], ◌∷◌, ◌==◌,
  eq_refl, arith, Bool-cases, inl, inr, is_empty,
}
use open_review.Base.Result.{Result, ok, err}
use open_review.Runtime.Batch.Split.{next_batch_nonempty}
use open_review.Runtime.Models.{EventEnvelope, RunRecord}
use open_review.Runtime.World.{World}
use open_review.Runtime.RuntimeStore.{RuntimeStore}
use open_review.Runtime.Store.Actor
use open_review.Runtime.Store.Actor.{Actor}
use open_review.Runtime.Store.Contract.{Becomes}
use open_review.Runtime.Queue.{Service, wake, enqueue_job}
use open_review.Runtime.Worker.{Fresh, HandlerResult, make_run_record}
use open_review.Runtime.Worker.Drain.{
  Outcome, Next, Exit, Settings, Handlers, returned, terminated, failed, unfinished, exit, settle,
  run_batch, iterate, drain_loop, finish_drain, drain_mr_actor, after_failure, after_result,
  unless_terminated, after_pop, close,
}
use open_review.Runtime.Worker.Drain.Alive.{Next-cases}
use open_review.Runtime.Worker.Drain.Holds.{Holds, HandlersStay, Has}
use open_review.Runtime.Worker.Drain.Ends.{iterate-Shorter}

pop_from_nothing :
    (w : World) (q : List EventEnvelope) (a : Actor)
    → a.inflight ≡ []
    → a.events ≡ q
    → (Actor.pop_from w q a).0 ≡ ok []
    → Holds [] [] (Actor.pop_from w q a).1
pop_from_nothing w [] a i e r = (i, e)
pop_from_nothing w (x ∷ q) a i e r = ground (arith, next_batch_nonempty w x q)

pop_nothing :
    (w : World) (a : Actor)
    → a.inflight ≡ []
    → (Actor.pop w a).0 ≡ ok []
    → Holds [] [] (Actor.pop w a).1
pop_nothing w a i =
    let idle : is_empty a.inflight ≡ true = ap is_empty i in
    rw idle (λ r. pop_from_nothing w a.events a i refl r)

module _ (w : World) (store : RuntimeStore w) (settings : Settings) (worker : String) where
  abbrev NotDone : Next → Type 0
  NotDone n = n ≡ Next.done → ⊥

  result-NotDone :
      (fresh : Fresh) (run : RunRecord) (b : List EventEnvelope) (result : HandlerResult)
      (owned : Bool) (s : store.State)
      → NotDone (after_result w store settings fresh run b worker result owned s).0
  unfolding after_result
  result-NotDone fresh run b result true s e = cc
  result-NotDone fresh run b result false s e = cc

  failure-NotDone :
      (fresh : Fresh) (run : RunRecord) (error : String) (r : Result Bool × store.State)
      → NotDone (after_failure w store settings fresh run error r).0
  unfolding after_failure
  failure-NotDone fresh run error (err x, s) e = cc
  failure-NotDone fresh run error (ok b, s) e = cc

  settle-NotDone :
      (fresh : Fresh) (run : RunRecord) (event : EventEnvelope) (b : List EventEnvelope)
      (out : Outcome) (s : store.State)
      → NotDone (settle w store settings fresh run event b worker out s).0
  unfolding settle
  settle-NotDone fresh run event b (returned result) s e = result-NotDone fresh run b result _ _ e
  settle-NotDone fresh run event b (terminated reason by at) s e = cc
  settle-NotDone fresh run event b (failed error) s e = failure-NotDone fresh run error _ e

  unless-NotDone :
      (handlers : Handlers w store settings) (fresh : Fresh) (run : RunRecord)
      (event : EventEnvelope) (b : List EventEnvelope) (t : _) (s : store.State)
      → NotDone (unless_terminated w store settings handlers fresh run event b worker t s).0
  unfolding unless_terminated
  unless-NotDone handlers fresh run event b (some t) s e = cc
  unless-NotDone handlers fresh run event b none s e = settle-NotDone fresh run event b _ _ e

  module _ (handlers : Handlers w store settings) (key : String) where
    -- where the loop stops at an empty batch, no event is queued or in flight
    popped_done :
        (fresh : Fresh) (s : store.State) (r : Result (List EventEnvelope))
        → (store.view s key).inflight ≡ []
        → (store.pop_next_batch key s).0 ≡ r
        → (after_pop w store settings handlers fresh key worker r (store.pop_next_batch key s).1).0
          ≡ Next.done
        → Holds [] [] (
            store.view
              (after_pop w store settings handlers fresh key worker r
                (store.pop_next_batch key s).1).1
              key)
    unfolding after_pop run_batch
    popped_done fresh s (err x) idle e stops = cc
    popped_done fresh s (ok []) idle e stops =
        let a = store.view s key in
        let now : store.view (store.pop_next_batch key s).1 key ≡ (Actor.pop w a).1 =
          store.pop-Becomes key s [] e key ∙ rw (eq_refl key) refl in
        let nothing = pop_nothing w a idle (sym (store.pop-result key s) ∙ e) in
        (ap (λ x. x.inflight) now ∙ nothing.0, ap (λ x. x.events) now ∙ nothing.1)
    popped_done fresh s (ok (first ∷ rest)) idle e stops = absurd (
        unless-NotDone handlers fresh (make_run_record settings.digest fresh key first rest) _
          (first ∷ rest) _ _ stops)

    module _ (named : (worker == "") ≡ false)
        (stay : HandlersStay w store settings worker named key handlers) where
      loop-Emptied :
          (fuel : ℕ) (fresh : ℕ → Fresh) (s : store.State)
          → (store.view s key).inflight ≡ []
          → (drain_loop w store settings fuel handlers fresh key worker s).0 ≡ exit (ok true)
          → Holds [] []
              (store.view (drain_loop w store settings fuel handlers fresh key worker s).1 key)
      unfolding drain_loop iterate
      loop-Emptied zero fresh s idle e = cc
      loop-Emptied (suc fuel) fresh s idle e =
          let loop = drain_loop w store settings (suc fuel) handlers fresh key worker s in
          let r = iterate w store settings handlers (fresh fuel) key worker s in
          elim (Next-cases r.0) [
            | inl p ↦
                let step : loop ≡ drain_loop w store settings fuel handlers fresh key worker r.1 =
                  rw (p, drain_loop) refl in
                let later =
                  loop-Emptied fuel fresh r.1
                    (iterate-Shorter w store settings worker named handlers key stay (fresh fuel) s
                      idle p).0
                    (sym (ap (λ x. x.0) step) ∙ e) in
                rw step later
            | inr (inl p) ↦
                let step : loop ≡ (exit (ok true), r.1) = rw (p, drain_loop) refl in
                rw step (popped_done (fresh fuel) s (store.pop_next_batch key s).0 idle refl p)
            | inr (inr (x, p)) ↦
                let step : loop ≡ (exit (err x), r.1) = rw (p, drain_loop) refl in
                let other : exit (err x) ≡ exit (ok true) = sym (ap (λ y. y.0) step) ∙ e in
                cc (other)
          ]

      kept :
          (b q : List EventEnvelope) (f : Actor → Actor) (s s' : store.State)
          → Becomes store.view key s (f (store.view s key)) s'
          → Holds b q (f (store.view s key))
          → Has w store settings worker named key b q s'
      kept b q f s s' became h =
          let now : store.view s' key ≡ f (store.view s key) = became key ∙ rw (eq_refl key) refl in
          (ap (λ a. a.inflight) now ∙ h.0, ap (λ a. a.events) now ∙ h.1)

      released-Holds :
          (b q : List EventEnvelope) (a : Actor) → Holds b q a → Holds b q (Actor.release worker a)
      released-Holds b q a h = ground (arith, h)

      marked-Holds :
          (b q : List EventEnvelope) (a : Actor) → Holds b q a → Holds b q (Actor.mark a).1
      marked-Holds b q a h = ground (arith, h)

      finish-Has :
          (b q : List EventEnvelope) (s : Service w store)
          → Has w store settings worker named key b q s.state
          → Has w store settings worker named key b q
              (finish_drain w store settings key worker s).state
      unfolding finish_drain wake enqueue_job
      finish-Has b q s h =
          let released = store.release_lease key worker s.state in
          let cleared = store.clear_actor_scheduled key released in
          let m = store.mark_actor_scheduled key cleared in
          let one =
            kept b q (Actor.release worker) s.state released
              (store.release-Becomes key worker s.state named)
              (released-Holds b q (store.view s.state key) h) in
          let two = kept b q Actor.clear released cleared (store.clear-Becomes key released) one in
          let three =
            kept b q (λ a. (Actor.mark a).1) cleared m.1 ((store.mark-Implements key cleared).1)
              (marked-Holds b q (store.view cleared key) two) in
          elim (Bool-cases (store.has_actor_events key cleared)) [
            | inr p ↦ rw p two
            | inl p ↦ rw p (elim (Bool-cases m.0) [ inl k ↦ rw k three | inr k ↦ rw k three ])
          ]

      close-Emptied :
          (out : Exit) (s : store.State) (jobs : List String)
          → (out ≡ exit (ok true) → Holds [] [] (store.view s key))
          → (close w store settings key worker (out, s) jobs).0 ≡ exit (ok true)
          → Holds [] [] (store.view (close w store settings key worker (out, s) jobs).1.state key)
      unfolding close
      close-Emptied unfinished s jobs h e = cc
      close-Emptied (exit r) s jobs h e = finish-Has [] [] (record { state = s; jobs = jobs }) (h e)

      -- If the handlers, and what runs beside them, leave the queue and the batch of the drained
      -- actor alone, and the worker has a name, then after a drain that returns `True` no event of
      -- the actor is queued or in flight.
      pub drain-Emptied :
          (fuel : ℕ) (fresh : ℕ → Fresh) (s : Service w store)
          → (drain_mr_actor w store settings fuel handlers fresh key worker s).0 ≡ exit (ok true)
          → Holds [] [] (
              store.view
                (drain_mr_actor w store settings fuel handlers fresh key worker s).1.state
                key)
      unfolding drain_mr_actor
      drain-Emptied fuel fresh s e =
          let lease = store.acquire_lease key worker settings.lease_seconds s.state in
          let restored = (store.restore_inflight key lease.1).1 in
          let drained = drain_loop w store settings fuel handlers fresh key worker restored in
          let drain = drain_mr_actor w store settings fuel handlers fresh key worker s in
          elim (Bool-cases lease.0) [
            | inl p ↦
                let step : drain ≡ close w store settings key worker drained s.jobs = rw p refl in
                let now : store.view restored key ≡ (Actor.restore (store.view lease.1 key)).1 =
                  (store.restore-Implements key lease.1).1 key ∙ rw (eq_refl key) refl in
                rw step (
                  close-Emptied drained.0 drained.1 s.jobs
                    (loop-Emptied fuel fresh restored (ap (λ a. a.inflight) now))
                    (sym (ap (λ x. x.0) step) ∙ e))
            | inr p ↦
                let step : drain ≡ (exit (ok false), record s { state = lease.1 }) = rw p refl in
                let other : exit (ok false) ≡ exit (ok true) = sym (ap (λ x. x.0) step) ∙ e in
                cc (other)
          ]
