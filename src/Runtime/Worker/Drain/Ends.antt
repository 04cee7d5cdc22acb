-- ===== src/Runtime/Worker/Drain/Ends.antt =====
-- A drain ends: each iteration of its loop either leaves the loop or takes events off the queue.
use open_review.Base.{
  ℕ, zero, suc, ◌+◌, ◌<◌, String, Bool, true, false, ◌≡◌, refl, sym, ap, ◌∙◌, List, [], ◌∷◌, ◌++◌,
  ◌==◌, eq_refl, arith, Bool-cases, inl, inr, length,
}
use open_review.Base.Result.{Result, ok, err}
use open_review.Runtime.Models.{EventEnvelope}
use open_review.Runtime.World.{World}
use open_review.Runtime.RuntimeStore.{RuntimeStore}
use open_review.Runtime.Store.Actor
use open_review.Runtime.Store.Actor.{Actor}
use open_review.Runtime.Store.Sqlite.Delivery.{backlog, backlog-pop, inflight-pop}
use open_review.Runtime.Queue.{Service}
use open_review.Runtime.Worker.{Fresh, make_run_record, handled_event, event_with_runtime_payload}
use open_review.Runtime.Worker.Drain.{
  Next, Exit, Settings, Handlers, unfinished, exit, mark_interrupted_prior_runs_stale, run_batch,
  iterate, drain_loop, drain_mr_actor, after_pop, close,
}
use open_review.Runtime.Worker.Drain.Holds.{
  HandlersStay, Has, leased-Has, write-Has, stale-Has, unless-Has,
}

length-append : (xs ys : List EventEnvelope) → length (xs ++ ys) ≡ length xs + length ys
length-append [] ys = omega arith
length-append (x ∷ xs) ys = let rest = length-append xs ys in omega arith

abbrev pub Ended : Exit → Type 0
Ended out = (r : Result Bool) × (out ≡ exit r)

module _ (w : World) (store : RuntimeStore w) (settings : Settings) (worker : String)
    (named : (worker == "") ≡ false) where
  module _ (handlers : Handlers w store settings) (key : String)
      (stay : HandlersStay w store settings worker named key handlers) where
    batch-Has :
        (fresh : Fresh) (first : EventEnvelope) (rest q : List EventEnvelope) (s : store.State)
        → Has w store settings worker named key (first ∷ rest) q s
        → (run_batch w store settings handlers fresh key worker first rest s).0 ≡ Next.again
        → Has w store settings worker named key [] q
            (run_batch w store settings handlers fresh key worker first rest s).1
    unfolding run_batch mark_interrupted_prior_runs_stale make_run_record
    batch-Has fresh first rest q s h e =
        let run = make_run_record settings.digest fresh key first rest in
        let event = event_with_runtime_payload (handled_event first rest) run in
        unless-Has w store settings worker named fresh run event (first ∷ rest) q handlers stay _ _
          (write-Has w store settings worker named key (first ∷ rest) q run _ (
            stale-Has w store settings worker named key (first ∷ rest) q fresh run
              (store.list_runs key 50 s) s h))
          e

    -- the state after an iteration that goes on: nothing in flight, and a shorter queue
    abbrev pub Shorter : List EventEnvelope → Actor → Type 0
    Shorter q a = (a.inflight ≡ []) × (length a.events < length q)

    popped-Shorter :
        (fresh : Fresh) (s : store.State) (q : List EventEnvelope) (r : Result (List EventEnvelope))
        → Has w store settings worker named key [] q s
        → (store.pop_next_batch key s).0 ≡ r
        → (after_pop w store settings handlers fresh key worker r (store.pop_next_batch key s).1).0
          ≡ Next.again
        → Shorter q (
            store.view
              (after_pop w store settings handlers fresh key worker r
                (store.pop_next_batch key s).1).1
              key)
    unfolding after_pop
    popped-Shorter fresh s q (err x) h e goes = cc
    popped-Shorter fresh s q (ok []) h e goes = cc
    popped-Shorter fresh s q (ok (first ∷ rest)) h e goes =
        let b = first ∷ rest in
        let a = store.view s key in
        let a' = (Actor.pop w a).1 in
        let s1 = (store.pop_next_batch key s).1 in
        let now : store.view s1 key ≡ a' =
          store.pop-Becomes key s b e key ∙ rw (eq_refl key) refl in
        let taken : a'.inflight ≡ b = inflight-pop w a b h.0 (sym (store.pop-result key s) ∙ e) in
        let split : b ++ a'.events ≡ q = cc (taken, backlog-pop w a, h.0, h.1) in
        let sizes : length b + length a'.events ≡ length q =
          sym (length-append b a'.events) ∙ ap length split in
        let left =
          batch-Has fresh first rest a'.events s1
            (ap (λ x. x.inflight) now ∙ taken, ap (λ x. x.events) now) goes in
        (left.0, rw (left.1) (omega arith))

    pub iterate-Shorter :
        (fresh : Fresh) (s : store.State)
        → (store.view s key).inflight ≡ []
        → (iterate w store settings handlers fresh key worker s).0 ≡ Next.again
        → Shorter
            (store.view s key).events
            (store.view (iterate w store settings handlers fresh key worker s).1 key)
    unfolding iterate
    iterate-Shorter fresh s idle goes =
        popped-Shorter fresh s (store.view s key).events (store.pop_next_batch key s).0 (idle, refl)
          refl goes

    go_on :
        (fuel : ℕ) (fresh : ℕ → Fresh) (s : store.State) (n : Next)
        → (iterate w store settings handlers (fresh fuel) key worker s).0 ≡ n
        → ((n ≡ Next.again)
            → Ended
                (drain_loop w store settings fuel handlers fresh key worker
                  (iterate w store settings handlers (fresh fuel) key worker s).1).0)
        → Ended (drain_loop w store settings (suc fuel) handlers fresh key worker s).0
    unfolding drain_loop
    go_on fuel fresh s Next.again e k = rw (e, drain_loop) (k refl)
    go_on fuel fresh s Next.done e k = rw (e, drain_loop) (ok true, refl)
    go_on fuel fresh s (Next.raises x) e k = rw (e, drain_loop) (err x, refl)

    loop-Ended :
        (fuel : ℕ) (fresh : ℕ → Fresh) (s : store.State)
        → (store.view s key).inflight ≡ []
        → length (store.view s key).events < fuel
        → Ended (drain_loop w store settings fuel handlers fresh key worker s).0
    unfolding iterate
    loop-Ended zero fresh s idle enough = let never : ⊥ = omega arith in absurd never
    loop-Ended (suc fuel) fresh s idle enough =
        go_on fuel fresh s (iterate w store settings handlers (fresh fuel) key worker s).0 refl
          (λ goes.
            let (idle', fewer) = iterate-Shorter (fresh fuel) s idle goes in
            loop-Ended fuel fresh (iterate w store settings handlers (fresh fuel) key worker s).1
              idle' (omega arith))

    close-Ended :
        (out : Exit) (s : store.State) (jobs : List String)
        → Ended out
        → Ended (close w store settings key worker (out, s) jobs).0
    unfolding close
    close-Ended unfinished s jobs (r, e) = cc
    close-Ended (exit x) s jobs h = (x, refl)

    -- A drain by a worker with a name ends, if the handlers, and what runs beside them, leave the
    -- queue and the batch of the drained actor alone: fuel above the number of the events that are
    -- queued or in flight is enough.
    pub drain-Ended :
        (fuel : ℕ) (fresh : ℕ → Fresh) (s : Service w store)
        → length (backlog (store.view s.state key)) < fuel
        → Ended (drain_mr_actor w store settings fuel handlers fresh key worker s).0
    unfolding drain_mr_actor
    drain-Ended fuel fresh s enough =
        let lease = store.acquire_lease key worker settings.lease_seconds s.state in
        elim (Bool-cases lease.0) [
          | inl p ↦
              let (until, became) =
                store.acquire-Leases key worker settings.lease_seconds s.state named p in
              let same =
                leased-Has w store settings worker named key (store.view s.state key).inflight
                  (store.view s.state key).events s.state lease.1 until became (refl, refl) in
              let restored = (store.restore_inflight key lease.1).1 in
              let now : store.view restored key ≡ (Actor.restore (store.view lease.1 key)).1 =
                (store.restore-Implements key lease.1).1 key ∙ rw (eq_refl key) refl in
              let queue : (store.view restored key).events ≡ backlog (store.view s.state key) =
                cc (now, same.0, same.1) in
              let drained = drain_loop w store settings fuel handlers fresh key worker restored in
              rw p (
                close-Ended drained.0 drained.1 s.jobs
                  (loop-Ended fuel fresh restored (ap (λ a. a.inflight) now) (rw queue enough)))
          | inr p ↦ rw p (ok false, refl)
        ]
