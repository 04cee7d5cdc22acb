-- ===== src/Runtime/Queue/Wake.antt =====
-- An actor that has events is scheduled, and one that is scheduled has a job, so that a worker
-- comes for it.
use open_review.Base.{
  List, String, Bool, true, false, not, sym, eq_iff, eq_refl, ◌&&◌, ◌||◌, ◌≡◌, refl, ap, ◌∙◌, ◌==◌,
  arith, Bool-cases, inl, inr, is_empty,
}
use open_review.Runtime.Models.{EventEnvelope, actor_key}
use open_review.Runtime.World.{World}
use open_review.Runtime.RuntimeStore.{RuntimeStore, Unchanged}
use open_review.Runtime.Store.Actor
use open_review.Runtime.Store.Actor.{Actor}
use open_review.Runtime.Store.Contract.{Becomes}
use open_review.Runtime.Queue.Resume.{asked, asked-snoc}
use open_review.Runtime.Queue.{Service, enqueue_job, wake, enqueue_gitlab_event}

-- the actor is scheduled if anything is queued or in flight, and has a job if it is scheduled
abbrev pub awake : Bool → Actor → Bool
awake has_job a =
    (is_empty a.events && is_empty a.inflight || a.scheduled) && (not a.scheduled || has_job)

module _ (w : World) (store : RuntimeStore w) where
  -- every actor but `key`
  abbrev pub AwakeBut : List String → String → store.State → Type 0
  AwakeBut jobs key s =
      (j : String) → (key == j) ≡ false → awake (asked j jobs) (store.view s j) ≡ true

  abbrev pub IsAwake : Service w store → Type 0
  IsAwake s = (j : String) → awake (asked j s.jobs) (store.view s.state j) ≡ true

  module _ (jobs : List String) where
    pub Becomes-AwakeBut :
        (key : String) (s s' : store.State) (a : Actor)
        → Becomes store.view key s a s'
        → AwakeBut jobs key s
        → AwakeBut jobs key s'
    Becomes-AwakeBut key s s' a became h j other =
        let same : store.view s' j ≡ store.view s j = became j ∙ rw other refl in
        ap (awake (asked j jobs)) same ∙ h j other

    pub Unchanged-AwakeBut :
        (key : String) (s s' : store.State)
        → Unchanged store.view s s'
        → AwakeBut jobs key s
        → AwakeBut jobs key s'
    Unchanged-AwakeBut key s s' same h j other = ap (awake (asked j jobs)) (same j) ∙ h j other

  -- an actor that is marked for the first time gets a job; the job of another one stays
  newly_awake :
      (a : Actor) (has_job : Bool)
      → (Actor.mark a).0 ≡ true
      → awake (has_job || true) (Actor.mark a).1 ≡ true
  newly_awake a has_job h = ground arith

  still_awake :
      (a : Actor) (has_job : Bool)
      → (Actor.mark a).0 ≡ false
      → not a.scheduled || has_job ≡ true
      → awake has_job (Actor.mark a).1 ≡ true
  still_awake a has_job h k = ground arith

  more_jobs :
      (a : Actor) (has_job more : Bool) → awake has_job a ≡ true → awake (has_job || more) a ≡ true
  more_jobs a has_job more h = ground arith

  -- marking the actor that may sleep wakes it
  pub wake-IsAwake :
      (key : String) (s : Service w store)
      → not (store.view s.state key).scheduled || asked key s.jobs ≡ true
      → AwakeBut s.jobs key s.state
      → IsAwake (wake w store key s)
  unfolding wake enqueue_job
  wake-IsAwake key s flagged h j =
      let a = store.view s.state key in
      let m = store.mark-Implements key s.state in
      let r = store.mark_actor_scheduled key s.state in
      elim (Bool-cases r.0) [
        | inl p ↦
            rw (p, asked-snoc)
              (elim (Bool-cases (key == j)) [
                | inl e ↦
                    let at_j : store.view r.1 j ≡ (Actor.mark a).1 = m.1 j ∙ rw e refl in
                    rw (at_j, e) (newly_awake a (asked j s.jobs) (sym m.0 ∙ p))
                | inr e ↦
                    let same : store.view r.1 j ≡ store.view s.state j = m.1 j ∙ rw e refl in
                    rw same (more_jobs (store.view s.state j) (asked j s.jobs) (key == j) (h j e))
              ])
        | inr p ↦ rw p (elim (Bool-cases (key == j)) [
          | inl e ↦
              let at_j : store.view r.1 j ≡ (Actor.mark a).1 = m.1 j ∙ rw e refl in
              rw (at_j, ← (eq_iff key j).0 e)
                (still_awake a (asked key s.jobs) (sym m.0 ∙ p) flagged)
          | inr e ↦
              let same : store.view r.1 j ≡ store.view s.state j = m.1 j ∙ rw e refl in
              rw same (h j e)
        ])
      ]

  flagged_of :
      (a : Actor) (has_job : Bool) → awake has_job a ≡ true → not a.scheduled || has_job ≡ true
  flagged_of a has_job h = ground arith

  -- Say that every actor with events is scheduled, and every scheduled one has a job. If this holds
  -- of the service, it holds after `enqueue_gitlab_event`, for a new event and for one that is
  -- refused.
  pub enqueue-IsAwake :
      (e : EventEnvelope) (s : Service w store)
      → IsAwake s
      → IsAwake (enqueue_gitlab_event w store e s).1
  unfolding enqueue_gitlab_event
  enqueue-IsAwake e s h = elim (Bool-cases (store.append_event e s.state).0) [
    | inl p ↦
        let key = actor_key e in
        let r = store.append_event e s.state in
        let became = store.append-Becomes e s.state p in
        let at_key : store.view r.1 key ≡ Actor.push e (store.view s.state key) =
          became key ∙ rw (eq_refl key) refl in
        let flagged =
          ap (λ (a : Actor). not a.scheduled || asked key s.jobs) at_key
          ∙ flagged_of (store.view s.state key) (asked key s.jobs) (h key) in
        rw p (
          wake-IsAwake key (record s { state = r.1 }) flagged
            (Becomes-AwakeBut s.jobs key s.state r.1 _ became (λ j other. h j)))
    | inr p ↦ rw p (λ j. ap (awake (asked j s.jobs)) (store.append-refused e s.state p j) ∙ h j)
  ]
