-- ===== src/Runtime/Queue/Resume.antt =====
-- A restart wakes every actor that has events.
use open_review.Base.{
  ℕ, String, Bool, true, false, not, ◌&&◌, ◌||◌, ◌≡◌, refl, ap, ◌∙◌, List, [], ◌∷◌, ◌++◌, ◌==◌,
  eq_iff, eq_refl, arith, Bool-cases, inl, inr, is_empty,
}
use open_review.Runtime.Models.{ActorRuntimeStatus}
use open_review.Runtime.World.{World}
use open_review.Runtime.RuntimeStore.{RuntimeStore, has_work, lists}
use open_review.Runtime.Store.Actor
use open_review.Runtime.Store.Actor.{Actor}
use open_review.Runtime.Queue.{
  Service, enqueue_job, resume_actor, resume_all, resume_runtime_processing,
}

-- `key` was passed to `enqueue_job`
unfoldable pub asked : String → List String → Bool
asked key [] = false
asked key (j ∷ js) = j == key || asked key js

pub asked-snoc :
    (key j : String) (js : List String) → asked key (js ++ j ∷ []) ≡ (asked key js || j == key)
unfolding asked
asked-snoc key j [] = ground arith
asked-snoc key j (x ∷ js) = ground (arith, asked-snoc key j js)

module _ (w : World) (store : RuntimeStore w) where
  -- the actor is scheduled and has a job
  abbrev pub served : String → Service w store → Bool
  served key s = (store.view s.state key).scheduled && asked key s.jobs

  remarked :
      (a : Actor)
      → ((Actor.mark (Actor.clear a)).0 ≡ true) × ((Actor.mark (Actor.clear a)).1.scheduled ≡ true)
  remarked a = (refl, refl)

  step-served :
      (status : ActorRuntimeStatus) (n : ℕ) (s : Service w store) (j : String)
      → served j s || status.actor_key == j && has_work status ≡ true
      → served j (resume_actor w store status (n, s)).1 ≡ true
  unfolding resume_actor enqueue_job
  step-served status n s j h =
      let key = status.actor_key in
      let cleared = store.clear_actor_scheduled key s.state in
      let r = store.mark_actor_scheduled key cleared in
      let c = store.clear-Becomes key s.state in
      let m = store.mark-Implements key cleared in
      let at_key : store.view cleared key ≡ Actor.clear (store.view s.state key) =
        c key ∙ rw (eq_refl key) refl in
      let newly : r.0 ≡ true = m.0 ∙ ap (λ a. (Actor.mark a).0) at_key in
      let now : store.view r.1 key ≡ (Actor.mark (Actor.clear (store.view s.state key))).1 =
        m.1 key ∙ rw (eq_refl key, at_key) refl in
      elim (Bool-cases (has_work status)) [
        | inl p ↦
            rw (p, newly, asked-snoc)
              (elim (Bool-cases (key == j)) [
                | inl e ↦ rw (← (eq_iff key j).0 e, now, eq_refl key) (ground arith)
                | inr e ↦
                    let after_mark : store.view r.1 j ≡ store.view cleared j = m.1 j ∙ rw e refl in
                    let after_clear : store.view cleared j ≡ store.view s.state j =
                      c j ∙ rw e refl in
                    let same : store.view r.1 j ≡ store.view s.state j = after_mark ∙ after_clear in
                    rw (same, e) (ground (arith, h))
              ])
        | inr p ↦ rw p (ground (arith, h))
      ]

  all-served :
      (statuses : List ActorRuntimeStatus) (r : ℕ × Service w store) (j : String)
      → served j r.1 || lists j statuses ≡ true
      → served j (resume_all w store statuses r).1 ≡ true
  unfolding resume_all lists
  all-served [] r j h = ground (arith, h)
  all-served (status ∷ rest) (n, s) j h =
      let next = resume_actor w store status (n, s) in
      elim (Bool-cases (lists j rest)) [
        | inl p ↦ all-served rest next j (rw p (ground arith))
        | inr p ↦
            let first : served j s || status.actor_key == j && has_work status ≡ true =
              ground (arith, h, p) in
            all-served rest next j (rw (step-served status n s j first) refl)
      ]

  -- If an actor has events, queued or in flight, then after `resume_runtime_processing` it is
  -- scheduled, and `enqueue_job` was called for it.
  pub resume-served :
      (s : Service w store) (key : String)
      → not (is_empty (store.view s.state key).events && is_empty (store.view s.state key).inflight)
        ≡ true
      → served key (resume_runtime_processing w store s).1 ≡ true
  unfolding resume_runtime_processing
  resume-served s key h =
      let r = store.list_actor_statuses s.state in
      all-served r.0 (0, record s { state = r.1 }) key
        (let found = store.statuses_lem key s.state h in rw found (ground arith))
