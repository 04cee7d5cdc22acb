-- ===== src/Runtime/Queue.antt =====
-- agent/runtime/queue.py: `enqueue_gitlab_event` and `resume_runtime_processing`, over any `RuntimeStore`. The job queue is the list
-- of the actors that `enqueue_job` was called for.
pub mod Wake
pub mod Resume
use open_review.Base.{ℕ, ◌+◌, not, String, Bool, true, false, List, [], ◌∷◌, ◌++◌, if◌then◌else◌}
use open_review.Runtime.Models.{EventEnvelope, ActorRuntimeStatus, actor_key}
use open_review.Runtime.World.{World}
use open_review.Runtime.RuntimeStore.{RuntimeStore, has_work}

pub record Service (w : World) (store : RuntimeStore w) : Type 0 where
  pub state : store.State
  pub jobs : List String

module _ (w : World) (store : RuntimeStore w) where
  unfoldable pub enqueue_job : String → Service w store → Service w store
  enqueue_job key s = record s { jobs = s.jobs ++ key ∷ [] }

  -- `if await store.mark_actor_scheduled(key): await queue.enqueue_job(MR_ACTOR_JOB_NAME, key)`
  unfoldable pub wake : String → Service w store → Service w store
  unfolding enqueue_job
  wake key s =
      let r = store.mark_actor_scheduled key s.state in
      let marked = record s { state = r.1 } in if r.0 then enqueue_job key marked else marked

  unfoldable pub enqueue_gitlab_event : EventEnvelope → Service w store → String × Service w store
  unfolding wake
  enqueue_gitlab_event event s =
      let r = store.append_event event s.state in
      let appended = record s { state = r.1 } in
      (actor_key event, if r.0 then wake (actor_key event) appended else appended)

  -- the body of the loop, which counts the jobs
  resume_actor : ActorRuntimeStatus → ℕ × Service w store → ℕ × Service w store
  unfolding enqueue_job
  resume_actor status (scheduled, s) =
      let cleared = store.clear_actor_scheduled status.actor_key s.state in
      let r = store.mark_actor_scheduled status.actor_key cleared in
      let marked = record s { state = r.1 } in
      if not (has_work status)
      then (scheduled, s)
      else if r.0
      then (scheduled + 1, enqueue_job status.actor_key marked)
      else (scheduled, marked)

  resume_all : List ActorRuntimeStatus → ℕ × Service w store → ℕ × Service w store
  unfolding resume_actor
  resume_all [] r = r
  resume_all (status ∷ rest) r = resume_all rest (resume_actor status r)

  unfoldable pub resume_runtime_processing : Service w store → ℕ × Service w store
  unfolding resume_all
  resume_runtime_processing s =
      let r = store.list_actor_statuses s.state in resume_all r.0 (0, record s { state = r.1 })
