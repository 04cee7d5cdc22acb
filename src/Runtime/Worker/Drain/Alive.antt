-- ===== src/Runtime/Worker/Drain/Alive.antt =====
-- A drain leaves every actor that has events scheduled, with a job.
use open_review.Base.{
  ℕ, zero, suc, String, Bool, true, false, not, ◌≡◌, refl, sym, ap, ◌∙◌, Option, none, some, List,
  [], ◌∷◌, ◌==◌, eq_iff, eq_refl, arith, Bool-cases, inl, inr, ◌⊎◌, ◌&&◌, is_empty, if◌then◌else◌,
}
use open_review.Base.Result.{Result, PyError, ok, err}
use open_review.Runtime.Models.{EventEnvelope, RunRecord}
use open_review.Runtime.World.{World}
use open_review.Runtime.RuntimeStore.{RuntimeStore}
use open_review.Runtime.Store.Actor
use open_review.Runtime.Store.Actor.{Actor}
use open_review.Runtime.Queue.{Service}
use open_review.Runtime.Queue.Resume.{asked}
use open_review.Runtime.Queue.Wake.{
  awake, AwakeBut, IsAwake, Becomes-AwakeBut, Unchanged-AwakeBut, wake-IsAwake,
}
use open_review.Runtime.Worker.{Fresh, make_run_record, handled_event, event_with_runtime_payload}
use open_review.Runtime.Worker.Drain.{
  Outcome, Next, Exit, Settings, Handlers, Handler, returned, terminated, failed, unfinished, exit,
  mark_interrupted_prior_runs_stale, terminate_run, settle, run_batch, iterate, drain_loop,
  finish_drain, drain_mr_actor, stale_prior, after_failure, after_result, call, unless_terminated,
  after_pop, close, same_option, is_running,
}

pub if-keeps {ℓ κ} :
    {A : Type ℓ} (P : A → Type κ) (b : Bool) (x y : A) → P x → P y → P (if b then x else y)
if-keeps P true x y p q = p
if-keeps P false x y p q = q

pub Next-cases :
    (n : Next) → (n ≡ Next.again) ⊎ (n ≡ Next.done) ⊎ ((x : PyError) × (n ≡ Next.raises x))
Next-cases Next.again = inl refl
Next-cases Next.done = inr (inl refl)
Next-cases (Next.raises x) = inr (inr (x, refl))

idle_awake :
    (a : Actor) (has_job : Bool)
    → a.scheduled ≡ false
    → not (is_empty a.events && is_empty a.inflight) ≡ false
    → awake has_job a ≡ true
idle_awake a has_job k h = ground arith

module _ (w : World) (store : RuntimeStore w) (settings : Settings) (worker : String)
    (named : (worker == "") ≡ false) (jobs : List String) where
  -- what a handler does, and what runs beside it, leaves the other actors awake
  abbrev pub HandlersKeep : String → Handlers w store settings → Type 0
  HandlersKeep key handlers =
      (h : Handler w store settings) (e : EventEnvelope) (s : store.State)
      → handlers e.event_type ≡ some h
      → AwakeBut w store jobs key s
      → AwakeBut w store jobs key (h e s).1

  module _ (key : String) where
    abbrev Keeps : store.State → store.State → Type 0
    Keeps s s' = AwakeBut w store jobs key s → AwakeBut w store jobs key s'

    beat-AwakeBut : (ttl : ℕ) (s : store.State) → Keeps s (store.heartbeat_lease key worker ttl s).1
    beat-AwakeBut ttl s h = elim (Bool-cases (store.heartbeat_lease key worker ttl s).0) [
      | inl p ↦
          let (until, became) = store.heartbeat-Leases key worker ttl s named p in
          Becomes-AwakeBut w store jobs key s (store.heartbeat_lease key worker ttl s).1 _ became h
      | inr p ↦
          Unchanged-AwakeBut w store jobs key s (store.heartbeat_lease key worker ttl s).1
            (store.heartbeat-refused key worker ttl s named p) h
    ]

    acquire-AwakeBut :
        (ttl : ℕ) (s : store.State) → Keeps s (store.acquire_lease key worker ttl s).1
    acquire-AwakeBut ttl s h = elim (Bool-cases (store.acquire_lease key worker ttl s).0) [
      | inl p ↦
          let (until, became) = store.acquire-Leases key worker ttl s named p in
          Becomes-AwakeBut w store jobs key s (store.acquire_lease key worker ttl s).1 _ became h
      | inr p ↦
          Unchanged-AwakeBut w store jobs key s (store.acquire_lease key worker ttl s).1
            (store.acquire-refused key worker ttl s named p) h
    ]

    write-AwakeBut : (r : RunRecord) (s : store.State) → Keeps s (store.write_run r s)
    write-AwakeBut r s =
        Unchanged-AwakeBut w store jobs key s (store.write_run r s) (store.write_run-Unchanged r s)

    ack-AwakeBut : (b : List EventEnvelope) (s : store.State) → Keeps s (store.ack_batch key b s)
    ack-AwakeBut b s =
        Becomes-AwakeBut w store jobs key s (store.ack_batch key b s) _ (store.ack-Becomes key b s)

    stale-AwakeBut :
        (fresh : Fresh) (run : RunRecord) (prior : List RunRecord) (s : store.State)
        → Keeps s (stale_prior w store settings fresh run prior s)
    unfolding stale_prior
    stale-AwakeBut fresh run [] s h = h
    stale-AwakeBut fresh run (r ∷ rest) s h = stale-AwakeBut fresh run rest _ (
        if-keeps (AwakeBut w store jobs key) (r.run_id == run.run_id) s _ h (
          if-keeps (AwakeBut w store jobs key) (not (same_option r.execution_key run.execution_key))
            s _ h
            (if-keeps (AwakeBut w store jobs key) (not (is_running r.state)) s _ h
              (write-AwakeBut _ s h))))

    pop-AwakeBut : (s : store.State) → Keeps s (store.pop_next_batch key s).1
    pop-AwakeBut s =
        let (a, became) = store.pop-Becomes_some key s in
        Becomes-AwakeBut w store jobs key s (store.pop_next_batch key s).1 a became

  -- the run is the actor's
  module _ (fresh : Fresh) (run : RunRecord) (event : EventEnvelope) (first : EventEnvelope)
      (rest : List EventEnvelope) where
    terminate-AwakeBut :
        (reason : String) (by at : Option String) (s : store.State)
        → Keeps run.actor_key s
            (terminate_run w store settings fresh run event (first ∷ rest) reason by at s)
    unfolding terminate_run
    terminate-AwakeBut reason by at s h =
        Unchanged-AwakeBut w store jobs run.actor_key _ _ (store.checkpoint-Unchanged _ _) (
          Unchanged-AwakeBut w store jobs run.actor_key _ _ (store.journal-Unchanged _ _)
            (write-AwakeBut run.actor_key _ _ (ack-AwakeBut run.actor_key (first ∷ rest) s h)))

    result-AwakeBut :
        (result : _) (owned : Bool) (s : store.State)
        → Keeps run.actor_key s
            (after_result w store settings fresh run (first ∷ rest) worker result owned s).1
    unfolding after_result
    result-AwakeBut result true s h =
        beat-AwakeBut run.actor_key settings.lease_seconds _
          (write-AwakeBut run.actor_key _ _ (ack-AwakeBut run.actor_key (first ∷ rest) s h))
    result-AwakeBut result false s h = write-AwakeBut run.actor_key _ s h

    failure-AwakeBut :
        (error : String) (r : Result Bool) (s : store.State)
        → Keeps run.actor_key s (after_failure w store settings fresh run error (r, s)).1
    unfolding after_failure
    failure-AwakeBut error (err x) s h = h
    failure-AwakeBut error (ok b) s h = write-AwakeBut run.actor_key _ s h

    settle-AwakeBut :
        (out : Outcome) (s : store.State)
        → Keeps run.actor_key s
            (settle w store settings fresh run event (first ∷ rest) worker out s).1
    unfolding settle
    settle-AwakeBut (returned result) s h =
        result-AwakeBut result _ _ (beat-AwakeBut run.actor_key settings.lease_seconds s h)
    settle-AwakeBut (terminated reason by at) s h = terminate-AwakeBut reason by at s h
    settle-AwakeBut (failed error) s h =
        let n = settings.max_event_attempts in
        let r = store.mark_inflight_failed run.actor_key (first ∷ rest) error n s in
        failure-AwakeBut error r.0 r.1 (
          Becomes-AwakeBut w store jobs run.actor_key s r.1 _
            ((store.fail-Implements run.actor_key (first ∷ rest) error n s refl).1) h)

    module _ (handlers : Handlers w store settings)
        (keep : HandlersKeep run.actor_key handlers) where
      call-AwakeBut :
          (h : Option (Handler w store settings)) (s : store.State)
          → handlers event.event_type ≡ h
          → Keeps run.actor_key s (call w store settings h event s).1
      unfolding call
      call-AwakeBut none s e awake_there = awake_there
      call-AwakeBut (some f) s e awake_there = keep f event s e awake_there

      unless-AwakeBut :
          (t : _) (s : store.State)
          → Keeps run.actor_key s
              (unless_terminated w store settings handlers fresh run event
                (first ∷ rest)
                worker
                t
                s).1
      unfolding unless_terminated
      unless-AwakeBut (some t) s h =
          terminate-AwakeBut "user_terminated" (some t.requested_by) (some t.requested_at) s h
      unless-AwakeBut none s h = settle-AwakeBut _ _ (
          call-AwakeBut (handlers event.event_type) _ refl
            (beat-AwakeBut run.actor_key settings.lease_seconds s h))

  module _ (handlers : Handlers w store settings) (key : String)
      (keep : HandlersKeep key handlers) where
    after_pop-AwakeBut :
        (fresh : Fresh) (r : Result (List EventEnvelope)) (s : store.State)
        → Keeps key s (after_pop w store settings handlers fresh key worker r s).1
    unfolding after_pop run_batch mark_interrupted_prior_runs_stale make_run_record
    after_pop-AwakeBut fresh (err x) s h = h
    after_pop-AwakeBut fresh (ok []) s h = h
    after_pop-AwakeBut fresh (ok (first ∷ rest)) s h =
        let run = make_run_record settings.digest fresh key first rest in
        let event = event_with_runtime_payload (handled_event first rest) run in
        unless-AwakeBut fresh run event first rest handlers keep _ _
          (write-AwakeBut key run _ (stale-AwakeBut key fresh run (store.list_runs key 50 s) s h))

    loop-AwakeBut :
        (fuel : ℕ) (fresh : ℕ → Fresh) (s : store.State)
        → Keeps key s (drain_loop w store settings fuel handlers fresh key worker s).1
    unfolding drain_loop iterate
    loop-AwakeBut zero fresh s h = h
    loop-AwakeBut (suc fuel) fresh s h =
        let p = store.pop_next_batch key s in
        let r = after_pop w store settings handlers (fresh fuel) key worker p.0 p.1 in
        let next = after_pop-AwakeBut (fresh fuel) p.0 p.1 (pop-AwakeBut key s h) in
        elim (Next-cases r.0) [
          | inl p ↦ rw (p, drain_loop) (loop-AwakeBut fuel fresh r.1 next)
          | inr (inl p) ↦ rw (p, drain_loop) next
          | inr (inr (x, p)) ↦ rw (p, drain_loop) next
        ]

    finish-IsAwake :
        (s : store.State)
        → AwakeBut w store jobs key s
        → IsAwake w store
            (finish_drain w store settings key worker (record { state = s; jobs = jobs }))
    unfolding finish_drain
    finish-IsAwake s h =
        let released = store.release_lease key worker s in
        let cleared = store.clear_actor_scheduled key released in
        let became = store.clear-Becomes key released in
        let others = Becomes-AwakeBut w store jobs key released cleared _ became (
          Becomes-AwakeBut w store jobs key s released _ (store.release-Becomes key worker s named)
            h) in
        let at_key : store.view cleared key ≡ Actor.clear (store.view released key) =
          became key ∙ rw (eq_refl key) refl in
        let unflagged : (store.view cleared key).scheduled ≡ false =
          ap (λ (a : Actor). a.scheduled) at_key in
        elim (Bool-cases (store.has_actor_events key cleared)) [
          | inl p ↦ rw p (
              wake-IsAwake w store key (record { state = cleared; jobs = jobs }) (rw unflagged refl)
                others)
          | inr p ↦ rw p (λ j. elim (Bool-cases (key == j)) [
            | inl e ↦ rw (← (eq_iff key j).0 e) (
                idle_awake (store.view cleared key) (asked key jobs) unflagged
                  (sym (store.has_lem key cleared) ∙ p))
            | inr e ↦ others j e
          ])
        ]

    close-IsAwake :
        (r : Result Bool) (out : Exit) (s : store.State)
        → AwakeBut w store jobs key s
        → (close w store settings key worker (out, s) jobs).0 ≡ exit r
        → IsAwake w store (close w store settings key worker (out, s) jobs).1
    unfolding close
    close-IsAwake r unfinished s h e = cc
    close-IsAwake r (exit x) s h e = finish-IsAwake s h

  -- Say that every actor with events is scheduled, and every scheduled one has a job. If this holds
  -- of all actors but that of the drain, whose job was taken, and the handlers keep it for the
  -- others, it holds of every actor after a `drain_mr_actor` that got the lease, by a worker with a
  -- name, however it ends: with an empty queue or with an exception.
  pub drain-IsAwake :
      (handlers : Handlers w store settings) (key : String) (fuel : ℕ) (fresh : ℕ → Fresh)
      (s : store.State) (r : Result Bool)
      → HandlersKeep key handlers
      → AwakeBut w store jobs key s
      → (store.acquire_lease key worker settings.lease_seconds s).0 ≡ true
      → (drain_mr_actor w store settings fuel handlers fresh key worker
          (record { state = s; jobs = jobs })).0
        ≡ exit r
      → IsAwake w store
          (drain_mr_actor w store settings fuel handlers fresh key worker
            (record { state = s; jobs = jobs })).1
  unfolding drain_mr_actor
  drain-IsAwake handlers key fuel fresh s r keep h p e =
      let lease = store.acquire_lease key worker settings.lease_seconds s in
      let taken = acquire-AwakeBut key settings.lease_seconds s h in
      let restored = (store.restore_inflight key lease.1).1 in
      let back =
        Becomes-AwakeBut w store jobs key lease.1 restored _
          ((store.restore-Implements key lease.1).1) taken in
      let drained = drain_loop w store settings fuel handlers fresh key worker restored in
      let before : Service w store = record { state = s; jobs = jobs } in
      let step : drain_mr_actor w store settings fuel handlers fresh key worker before
          ≡ close w store settings key worker drained jobs =
        rw p refl in
      rw step (
        close-IsAwake handlers key keep r drained.0 drained.1
          (loop-AwakeBut handlers key keep fuel fresh restored back) (sym (ap (λ x. x.0) step) ∙ e))
